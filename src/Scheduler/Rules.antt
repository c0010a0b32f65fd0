-- ===== src/Scheduler/Rules.antt =====
-- `evaluateRule`, `evaluateCondition` and `containsString` of priority_scheduler.go.
use reactorcide.Prelude.{
  ℕ, zero, suc, ◌+◌, ◌-◌, String, List, [], ◌∷◌, ◌++◌, Bool, true, false, ◌&&◌, ◌||◌, not, Option,
  none, some, ltb, if◌then◌else◌, length, take, drop, lookup, Bytes, bytes_eq, str_eq,
}
use reactorcide.Scheduler.Types.{Value, text, float64, texts, other, Condition, RoutingRule}

-- The bytes of `strings.Join(items, " ")`.
unfoldable pub spaced : List Bytes → Bytes
spaced [] = []
spaced (s ∷ []) = s
spaced (s ∷ t ∷ items) = s ++ b' ' ∷ spaced (t ∷ items)

-- `fmt.Sprintf("%v", value)`
unfoldable pub sprint : Value → Bytes
unfolding spaced
sprint (text s) = s
sprint (float64 _ s) = s
sprint (texts items) = b'[' ∷ (spaced items ++ b']' ∷ [])
sprint (other s) = s

-- `s[i : i+n]`
abbrev pub slice : Bytes → ℕ → ℕ → Bytes
slice s i n = take n (drop i s)

-- The loop of `containsString`, with the rounds that are left.
unfoldable pub scan : ℕ → ℕ → Bytes → Bytes → Bool
scan zero i str substr = false
scan (suc rounds) i str substr =
    let rest = scan rounds (i + 1) str substr in
    if bytes_eq (slice str i (length substr)) substr then true else rest

unfoldable pub contains_string : Bytes → Bytes → Bool
unfolding scan
contains_string str substr =
    if ltb (length str) (length substr)
    then false
    else scan (length str - length substr + 1) 0 str substr

unfoldable pub contains_operator : Bytes → Bytes → Bool
unfolding contains_string
contains_operator str substr =
    ltb 0 (length str)
    && ltb 0 (length substr)
    && (bytes_eq str substr
        || ltb (length substr) (length str) && bytes_eq (take (length substr) str) substr
        || ltb (length substr) (length str)
          && bytes_eq (drop (length str - length substr) str) substr
        || contains_string str substr)

-- The loop of the operator `in`.
unfoldable pub in_list : List Bytes → Bytes → Bool
in_list [] s = false
in_list (item ∷ list) s = if bytes_eq item s then true else in_list list s

unfoldable pub in_operator : Value → Value → Bool
unfolding in_list sprint
in_operator (texts list) value = in_list list (sprint value)
in_operator _ value = false

-- `none`: the pattern is no regular expression, which the code logs and takes for no match.
abbrev pub matched : Option Bool → Bool
matched none = false
matched (some b) = b

-- `match_string` is `regexp.MatchString`.
module _ (match_string : Bytes → Bytes → Option Bool) where
  -- The `switch` on the operator, once the field is there.
  unfoldable pub apply_operator : String → Value → Value → Bool
  unfolding sprint contains_operator in_operator
  apply_operator operator value wanted =
      if str_eq operator "equals"
      then bytes_eq (sprint value) (sprint wanted)
      else if str_eq operator "contains"
      then contains_operator (sprint value) (sprint wanted)
      else if str_eq operator "matches"
      then matched (match_string (sprint wanted) (sprint value))
      else if str_eq operator "in"
      then in_operator wanted value
      else false

  abbrev pub test_value : Condition → Option Value → Bool
  unfolding apply_operator
  test_value condition none = false
  test_value condition (some value) = apply_operator condition.operator value condition.value

  unfoldable pub evaluate_condition : Condition → List (String × Value) → Bool
  unfolding apply_operator
  evaluate_condition condition metadata = test_value condition (lookup condition.field metadata)

  -- The loop of `evaluateRule`.
  unfoldable pub all_conditions : List Condition → List (String × Value) → Bool
  unfolding evaluate_condition
  all_conditions [] metadata = true
  all_conditions (condition ∷ conditions) metadata =
      if not (evaluate_condition condition metadata)
      then false
      else all_conditions conditions metadata

  unfoldable pub evaluate_rule : RoutingRule → List (String × Value) → Bool
  unfolding all_conditions
  evaluate_rule rule metadata = all_conditions rule.conditions metadata
