-- ===== src/JobSpecs/Words.antt =====
-- What `parseSimpleCommand` reads: words of plain, escaped and quoted parts.
use mathlib.Core.List.{append_assoc, append-nil}
use reactorcide.Prelude.{
  is_empty, ◌≡◌, refl, sym, ap, ◌∙◌, ℕ, List, [], ◌∷◌, ◌++◌, Bool, true, false, ◌||◌, ◌==◌,
  if◌then◌else◌, Bytes, arith, All,
}
use reactorcide.JobSpecs.Command.{Lexer, end_arg, lex, lex_all, parse_simple_command}

-- Characters that mean something outside quotes, and within double quotes.
abbrev pub is_special : ℕ → Bool
is_special c = c == 92 || c == 39 || c == 34 || c == 32 || c == 9

abbrev pub is_double_special : ℕ → Bool
is_double_special c = c == 92 || c == 34

-- A character of a double-quoted part: as it is, or behind a backslash.
pub data Quoted : Type 0 where
  bare : (c : ℕ) → is_double_special c ≡ false → Quoted
  slashed : ℕ → Quoted

-- A part of a word. Nothing is special in single quotes but their end.
pub data Part : Type 0 where
  plain : (c : ℕ) → is_special c ≡ false → Part
  escape : ℕ → Part
  single : (s : Bytes) → All (λ c. (c == 39) ≡ false) s → Part
  double : List Quoted → Part

abbrev pub Word : Type 0
Word = List Part

-- How it is written.
abbrev pub source_quoted : List Quoted → Bytes
source_quoted [] = []
source_quoted (bare c _ ∷ qs) = c ∷ source_quoted qs
source_quoted (slashed c ∷ qs) = 92 ∷ c ∷ source_quoted qs

abbrev pub source_part : Part → Bytes
source_part (plain c _) = c ∷ []
source_part (escape c) = 92 ∷ c ∷ []
source_part (single s _) = 39 ∷ s ++ 39 ∷ []
source_part (double qs) = 34 ∷ source_quoted qs ++ 34 ∷ []

abbrev pub source_word : Word → Bytes
source_word [] = []
source_word (p ∷ ps) = source_part p ++ source_word ps

-- Words with a space between any two, and none after the last.
abbrev pub source_words : List Word → Bytes
source_words [] = []
source_words (w ∷ []) = source_word w
source_words (w ∷ v ∷ ws) = source_word w ++ 32 ∷ source_words (v ∷ ws)

-- What it stands for.
abbrev pub value_quoted : List Quoted → Bytes
value_quoted [] = []
value_quoted (bare c _ ∷ qs) = c ∷ value_quoted qs
value_quoted (slashed c ∷ qs) = c ∷ value_quoted qs

abbrev pub value_part : Part → Bytes
value_part (plain c _) = c ∷ []
value_part (escape c) = c ∷ []
value_part (single s _) = s
value_part (double qs) = value_quoted qs

abbrev pub value_word : Word → Bytes
value_word [] = []
value_word (p ∷ ps) = value_part p ++ value_word ps

-- The arguments: words that stand for nothing are lost.
abbrev pub values : List Word → List Bytes
values [] = []
values (w ∷ ws) = if is_empty (value_word w) then values ws else value_word w ∷ values ws

-- The lexer between two parts, and within quotes.
abbrev outside : List Bytes → Bytes → Lexer
outside done cur = record {
  args = done;
  current = cur;
  in_single_quote = false;
  in_double_quote = false;
  escaped = false;
}

abbrev in_single : List Bytes → Bytes → Lexer
in_single done cur = record (outside done cur) { in_single_quote = true }

abbrev in_double : List Bytes → Bytes → Lexer
in_double done cur = record (outside done cur) { in_double_quote = true }

lex-plain :
    (c : ℕ) (done : List Bytes) (cur : Bytes)
    → is_special c ≡ false
    → lex c (outside done cur) ≡ outside done (cur ++ c ∷ [])
unfolding lex
lex-plain c done cur h = ground arith

lex-in_single :
    (c : ℕ) (done : List Bytes) (cur : Bytes)
    → (c == 39) ≡ false
    → lex c (in_single done cur) ≡ in_single done (cur ++ c ∷ [])
unfolding lex
lex-in_single c done cur h = ground arith

lex-in_double :
    (c : ℕ) (done : List Bytes) (cur : Bytes)
    → is_double_special c ≡ false
    → lex c (in_double done cur) ≡ in_double done (cur ++ c ∷ [])
unfolding lex
lex-in_double c done cur h = ground arith

-- A text in single quotes, up to its end.
single_lem :
    (s rest : Bytes) (done : List Bytes) (cur : Bytes)
    → All (λ c. (c == 39) ≡ false) s
    → lex_all (s ++ 39 ∷ rest) (in_single done cur) ≡ lex_all rest (outside done (cur ++ s))
unfolding lex_all lex
single_lem [] rest done cur h = ap (λ v. lex_all rest (outside done v)) (sym (append-nil cur))
single_lem (c ∷ s) rest done cur h =
    ap (lex_all (s ++ 39 ∷ rest)) (lex-in_single c done cur h.0)
    ∙ single_lem s rest done (cur ++ c ∷ []) h.1
    ∙ ap (λ v. lex_all rest (outside done v)) (append_assoc cur (c ∷ []) s)

double_lem :
    (qs : List Quoted) (rest : Bytes) (done : List Bytes) (cur : Bytes)
    → lex_all (source_quoted qs ++ 34 ∷ rest) (in_double done cur)
      ≡ lex_all rest (outside done (cur ++ value_quoted qs))
unfolding lex_all lex
double_lem [] rest done cur = ap (λ v. lex_all rest (outside done v)) (sym (append-nil cur))
double_lem (bare c h ∷ qs) rest done cur =
    ap (lex_all (source_quoted qs ++ 34 ∷ rest)) (lex-in_double c done cur h)
    ∙ double_lem qs rest done (cur ++ c ∷ [])
    ∙ ap (λ v. lex_all rest (outside done v)) (append_assoc cur (c ∷ []) (value_quoted qs))
double_lem (slashed c ∷ qs) rest done cur =
    double_lem qs rest done (cur ++ c ∷ [])
    ∙ ap (λ v. lex_all rest (outside done v)) (append_assoc cur (c ∷ []) (value_quoted qs))

-- One part.
part_lem :
    (p : Part) (rest : Bytes) (done : List Bytes) (cur : Bytes)
    → lex_all (source_part p ++ rest) (outside done cur)
      ≡ lex_all rest (outside done (cur ++ value_part p))
unfolding lex_all lex
part_lem (plain c h) rest done cur = ap (lex_all rest) (lex-plain c done cur h)
part_lem (escape c) rest done cur = refl
part_lem (single s h) rest done cur =
    ap (λ t. lex_all t (in_single done cur)) (append_assoc s (39 ∷ []) rest)
    ∙ single_lem s rest done cur h
part_lem (double qs) rest done cur =
    ap (λ t. lex_all t (in_double done cur)) (append_assoc (source_quoted qs) (34 ∷ []) rest)
    ∙ double_lem qs rest done cur

word_lem :
    (w : Word) (rest : Bytes) (done : List Bytes) (cur : Bytes)
    → lex_all (source_word w ++ rest) (outside done cur)
      ≡ lex_all rest (outside done (cur ++ value_word w))
word_lem [] rest done cur = ap (λ v. lex_all rest (outside done v)) (sym (append-nil cur))
word_lem (p ∷ w) rest done cur =
    ap (λ t. lex_all t (outside done cur)) (append_assoc (source_part p) (source_word w) rest)
    ∙ part_lem p (source_word w ++ rest) done cur
    ∙ word_lem w rest done (cur ++ value_part p)
    ∙ ap (λ v. lex_all rest (outside done v)) (append_assoc cur (value_part p) (value_word w))

-- The space after a word ends the argument.
abbrev with_value : List Bytes → Bytes → List Bytes
with_value done v = if is_empty v then done else done ++ v ∷ []

ended : (done : List Bytes) (v : Bytes) → end_arg (outside done v) ≡ outside (with_value done v) []
ended done [] = refl
ended done (c ∷ v) = refl

with_value-append :
    (done : List Bytes) (v : Bytes) (rest : List Bytes)
    → with_value done v ++ rest ≡ done ++ (if is_empty v then rest else v ∷ rest)
with_value-append done [] rest = refl
with_value-append done (c ∷ v) rest = append_assoc done ((c ∷ v) ∷ []) rest

-- The last word is ended by the end of the text.
words_lem :
    (ws : List Word) (done : List Bytes)
    → (end_arg (lex_all (source_words ws) (outside done []))).args ≡ done ++ values ws
unfolding lex_all lex
words_lem [] done = sym (append-nil done)
words_lem (w ∷ []) done =
    ap (λ t. (end_arg (lex_all t (outside done []))).args) (sym (append-nil (source_word w)))
    ∙ ap (λ l. (end_arg l).args) (word_lem w [] done [])
    ∙ ap (λ l. l.args) (ended done (value_word w))
    ∙ sym (append-nil (with_value done (value_word w)))
    ∙ with_value-append done (value_word w) []
words_lem (w ∷ v ∷ ws) done =
    ap (λ l. (end_arg l).args) (word_lem w (32 ∷ source_words (v ∷ ws)) done [])
    ∙ ap (λ l. (end_arg (lex_all (source_words (v ∷ ws)) l)).args) (ended done (value_word w))
    ∙ words_lem (v ∷ ws) (with_value done (value_word w))
    ∙ with_value-append done (value_word w) (values (v ∷ ws))

-- A command of words with a space between any two and none after the last, as trimming leaves it, every
-- word a sequence of plain, escaped, single-quoted and double-quoted parts, is read as the list of what the
-- words stand for, less the words that stand for the empty text.
pub parse_simple_command-source_words :
    (ws : List Word) → parse_simple_command (source_words ws) ≡ values ws
unfolding parse_simple_command
parse_simple_command-source_words ws = words_lem ws []
