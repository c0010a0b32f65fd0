-- ===== src/JobSpecs/Command.antt =====
-- worker/job_spec.go: `ParseCommandWithPrefix` and what it calls. A text is its code points.
use reactorcide.Prelude.{
  trim_space, trim_left, trim_right, is_space, is_empty, has_prefix, ℕ, ◌+◌, List, [], ◌∷◌, ◌++◌,
  Bool, true, false, not, ◌&&◌, ◌||◌, ◌==◌, ltb, if◌then◌else◌, Bytes, codes, drop, Option, none,
  some,
}

-- The state of the loop of `parseSimpleCommand`.
pub record Lexer : Type 0 where
  pub args : List Bytes
  pub current : Bytes
  pub in_single_quote : Bool
  pub in_double_quote : Bool
  pub escaped : Bool

abbrev pub write : ℕ → Lexer → Lexer
write c l = record l { current = l.current ++ c ∷ [] }

-- What has been read ends up as an argument, unless it is empty.
abbrev pub end_arg : Lexer → Lexer
end_arg l =
    if is_empty l.current then l else record l { args = l.args ++ l.current ∷ []; current = [] }

-- One round of the loop: 92, 39, 34, 32 and 9 are the backslash, the two quotes, space and tab.
unfoldable pub lex : ℕ → Lexer → Lexer
lex c l =
    if l.escaped
    then record l { current = l.current ++ c ∷ []; escaped = false }
    else if c == 92
    then (if l.in_single_quote then write c l else record l { escaped = true })
    else if c == 39
    then (if l.in_double_quote
        then write c l
        else record l { in_single_quote = not l.in_single_quote })
    else if c == 34
    then (if l.in_single_quote
        then write c l
        else record l { in_double_quote = not l.in_double_quote })
    else if c == 32 || c == 9
    then (if l.in_single_quote || l.in_double_quote then write c l else end_arg l)
    else write c l

unfoldable pub lex_all : Bytes → Lexer → Lexer
lex_all [] l = l
lex_all (c ∷ cmd) l = lex_all cmd (lex c l)

abbrev pub new_lexer : Lexer
new_lexer = record {
  args = [];
  current = [];
  in_single_quote = false;
  in_double_quote = false;
  escaped = false;
}

unfoldable pub parse_simple_command : Bytes → List Bytes
parse_simple_command cmd = (end_arg (lex_all cmd new_lexer)).args

-- `strings.Contains` of a character, and `strings.ToLower` as far as it can yield ASCII letters.
unfoldable pub contains_char : Bytes → ℕ → Bool
contains_char [] c = false
contains_char (a ∷ s) c = a == c || contains_char s c

abbrev pub lower_char : ℕ → ℕ
lower_char c =
    if ltb 64 c && ltb c 91 then c + 32 else if c == 304 then 105 else if c == 8490 then 107 else c

unfoldable pub to_lower : Bytes → Bytes
to_lower [] = []
to_lower (c ∷ s) = lower_char c ∷ to_lower s

-- `strings.SplitN(prefix, " ", 2)`: what is before and after the first space, if there is one.
abbrev pub before_more : ℕ → Option (Bytes × Bytes) → Option (Bytes × Bytes)
before_more c none = none
before_more c (some (before, after)) = some (c ∷ before, after)

unfoldable pub split_space : Bytes → Option (Bytes × Bytes)
split_space [] = none
split_space (c ∷ s) = if c == 32 then some ([], s) else before_more c (split_space s)

-- `shellPrefixes`
abbrev pub shell_prefixes : List Bytes
shell_prefixes =
    codes "sh -c"
    ∷ codes "bash -c"
    ∷ codes "zsh -c"
    ∷ codes "/bin/sh -c"
    ∷ codes "/bin/bash -c"
    ∷ codes "/bin/zsh -c"
    ∷ codes "/usr/bin/sh -c"
    ∷ codes "/usr/bin/bash -c"
    ∷ codes "/usr/bin/zsh -c"
    ∷ []

unfoldable pub has_any_prefix : Bytes → List Bytes → Bool
has_any_prefix s [] = false
has_any_prefix s (prefix ∷ prefixes) =
    if has_prefix s prefix then true else has_any_prefix s prefixes

-- `containsEnvVarRef`: `$` before a brace, an underscore or an ASCII letter.
abbrev pub starts_var : ℕ → Bool
starts_var c = c == 123 || c == 95 || (ltb 64 c && ltb c 91) || (ltb 96 c && ltb c 123)

unfoldable pub contains_env_var_ref : Bytes → Bool
contains_env_var_ref [] = false
contains_env_var_ref (c ∷ []) = false
contains_env_var_ref (c ∷ next ∷ cmd) =
    if c == 36 && starts_var next then true else contains_env_var_ref (next ∷ cmd)

-- The shell's words, then the command in one.
abbrev pub around : Bytes → Option (Bytes × Bytes) → List Bytes
around cmd (some (shell, flag)) = shell ∷ flag ∷ cmd ∷ []
around cmd none = codes "sh" ∷ codes "-c" ∷ cmd ∷ []

unfoldable pub wrap : Bytes → Bytes → List Bytes
wrap cmd prefix = around cmd (split_space (if is_empty prefix then codes "sh -c" else prefix))

-- After trimming.
unfoldable pub parse_trimmed : Bytes → Bytes → List Bytes
parse_trimmed cmd prefix =
    if contains_char cmd 10
    then (if has_any_prefix (to_lower cmd) shell_prefixes
        then parse_simple_command cmd
        else wrap cmd prefix)
    else if contains_env_var_ref cmd
    then (if not (has_any_prefix (to_lower cmd) shell_prefixes)
        then wrap cmd prefix
        else parse_simple_command cmd)
    else parse_simple_command cmd

unfoldable pub parse_command_with_prefix : Bytes → Bytes → List Bytes
parse_command_with_prefix cmd prefix = parse_trimmed (trim_space cmd) prefix

unfoldable pub parse_command : Bytes → List Bytes
parse_command cmd = parse_command_with_prefix cmd []

-- `HasSecretRefs`: a match of `\$\{secret:([^:}]+):([^}]+)\}`. The parts between the colons and before
-- the brace, with a Boolean that says whether something has been read of it.
unfoldable pub key_then_brace : Bool → Bytes → Bool
key_then_brace started [] = false
key_then_brace started (c ∷ s) = if c == 125 then started else key_then_brace true s

unfoldable pub path_then_key : Bool → Bytes → Bool
path_then_key started [] = false
path_then_key started (c ∷ s) =
    if c == 125
    then false
    else if c == 58
    then started && key_then_brace false s
    else path_then_key true s

unfoldable pub has_secret_refs : Bytes → Bool
has_secret_refs [] = false
has_secret_refs (c ∷ s) =
    (has_prefix (c ∷ s) (codes "${secret:") && path_then_key false (drop 9 (c ∷ s)))
    || has_secret_refs s

-- All of this file, for proofs that run it.
unfoldable pub commands : Unit {0}
unfolding lex lex_all parse_simple_command has_prefix contains_char to_lower is_space trim_left
    trim_right trim_space split_space has_any_prefix contains_env_var_ref wrap parse_trimmed
    key_then_brace path_then_key has_secret_refs parse_command_with_prefix parse_command
commands = tt
