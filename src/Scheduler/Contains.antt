-- ===== src/Scheduler/Contains.antt =====
-- The text search behind the operator `contains`.
use mathlib.Core.List.{append-nil}
use native.Mathlib.Decide.{ℕ_discrete}
use reactorcide.Prelude.{
  ℕ, zero, suc, ◌+◌, ◌-◌, ◌≤◌, ◌<◌, ◌≡◌, ◌↔◌, sym, ◌∙◌, ap, subst, [], ◌++◌, true, false,
  Bool-cases, inl, inr, ltb, length, length-append, take, drop, take-append-drop, take-append,
  drop-append, Bytes, bytes_eq, bytes_eq_iff, arith, ◌≢◌, ◌⊎◌,
}
use reactorcide.Scheduler.Rules.{slice, scan, contains_string, contains_operator}

-- `substr` stands somewhere in `str`.
abbrev pub Occurs : Bytes → Bytes → Type 0
Occurs substr str = (before : Bytes) × (after : Bytes) × (str ≡ before ++ (substr ++ after))

Occurs-of_slice :
    (str substr : Bytes) (i : ℕ) → slice str i (length substr) ≡ substr → Occurs substr str
Occurs-of_slice str substr i e =
    let rest = drop i str in
    let n = length substr in
    (
      take i str,
      drop n rest,
      sym (take-append-drop i str)
          ∙ ap (λ (t : Bytes). take i str ++ t)
              (sym (take-append-drop n rest) ∙ ap (λ (t : Bytes). t ++ drop n rest) e),
    )

slice_of_append :
    (before substr after : Bytes)
    → slice (before ++ (substr ++ after)) (length before) (length substr) ≡ substr
slice_of_append before substr after =
    ap (take (length substr)) (drop-append before (substr ++ after)) ∙ take-append substr after

scan_sound :
    (rounds i : ℕ) (str substr : Bytes) → scan rounds i str substr ≡ true → Occurs substr str
unfolding scan
scan_sound zero i str substr h = absurd (ground arith)
scan_sound (suc rounds) i str substr h =
    elim (Bool-cases (bytes_eq (slice str i (length substr)) substr)) [
      | inl e ↦ Occurs-of_slice str substr i ((bytes_eq_iff _ _).0 e)
      | inr e ↦ scan_sound rounds (i + 1) str substr (rw e at h)
    ]

passed_lt :
    (str substr : Bytes) (i k : ℕ)
    → i ≤ k
    → bytes_eq (slice str k (length substr)) substr ≡ true
    → bytes_eq (slice str i (length substr)) substr ≡ false
    → i + 1 ≤ k
passed_lt str substr i k h e p = elim (ℕ_discrete i k) [
  | yes q ↦ absurd (cc (ap (λ j. bytes_eq (slice str j (length substr)) substr) q))
  | no q ↦ omega arith
]

scan_complete :
    (rounds i k : ℕ) (str substr : Bytes)
    → i ≤ k
    → k < i + rounds
    → bytes_eq (slice str k (length substr)) substr ≡ true
    → scan rounds i str substr ≡ true
unfolding scan
scan_complete zero i k str substr h l e = absurd (omega arith)
scan_complete (suc rounds) i k str substr h l e =
    elim (Bool-cases (bytes_eq (slice str i (length substr)) substr)) [
      | inl p ↦ rw p
      | inr p ↦ rw p (
          scan_complete rounds (i + 1) k str substr (passed_lt str substr i k h e p) (omega arith)
            e)
    ]

length-Occurs :
    (before substr after : Bytes)
    → length (before ++ (substr ++ after)) ≡ length before + (length substr + length after)
length-Occurs before substr after =
    omega (arith, length-append before (substr ++ after), length-append substr after)

Occurs→contains_string :
    (before substr after : Bytes) → contains_string (before ++ (substr ++ after)) substr ≡ true
unfolding contains_string
Occurs→contains_string before substr after =
    let str : Bytes = before ++ (substr ++ after) in
    let found =
      scan_complete (length str - length substr + 1) 0 (length before) str substr (omega arith)
        (omega (arith, length-Occurs before substr after))
        ((bytes_eq_iff _ _).1 (slice_of_append before substr after)) in
    ground (arith, length-Occurs before substr after)

contains_string→Occurs :
    (str substr : Bytes) → contains_string str substr ≡ true → Occurs substr str
unfolding contains_string
contains_string→Occurs str substr h = elim (Bool-cases (ltb (length str) (length substr))) [
  | inl e ↦ absurd (ground arith)
  | inr e ↦ scan_sound _ 0 str substr (rw e at h)
]

-- `containsString` answers true exactly on the texts in which `substr` stands somewhere.
pub contains_string_iff :
    (str substr : Bytes) → (contains_string str substr ≡ true) ↔ Occurs substr str
contains_string_iff str substr = (
  contains_string→Occurs str substr,
  λ (before, after, e).
      subst (λ t. contains_string t substr ≡ true) (sym e)
        (Occurs→contains_string before substr after),
)

-- What a positive answer of the operator rests on.
contains_operator_cases :
    (str substr : Bytes)
    → contains_operator str substr ≡ true
    → (0 < length substr)
      × ((bytes_eq str substr ≡ true)
          ⊎ (bytes_eq (take (length substr) str) substr ≡ true)
          ⊎ (bytes_eq (drop (length str - length substr) str) substr ≡ true)
          ⊎ (contains_string str substr ≡ true))
unfolding contains_operator
contains_operator_cases str substr h = ground arith

Occurs-of_test :
    (str substr : Bytes)
    → (bytes_eq str substr ≡ true)
      ⊎ (bytes_eq (take (length substr) str) substr ≡ true)
      ⊎ (bytes_eq (drop (length str - length substr) str) substr ≡ true)
      ⊎ (contains_string str substr ≡ true)
    → Occurs substr str
Occurs-of_test str substr (inl e) =
    ([], [], (bytes_eq_iff str substr).0 e ∙ sym (append-nil substr))
Occurs-of_test str substr (inr (inl e)) = Occurs-of_slice str substr 0 ((bytes_eq_iff _ _).0 e)
Occurs-of_test str substr (inr (inr (inl e))) =
    let k = length str - length substr in
    (
      take k str,
      [],
      sym (take-append-drop k str)
          ∙ ap (λ (t : Bytes). take k str ++ t) ((bytes_eq_iff _ _).0 e ∙ sym (append-nil substr)),
    )
Occurs-of_test str substr (inr (inr (inr e))) = contains_string→Occurs str substr e

Occurs→contains_operator :
    (str substr before after : Bytes)
    → substr ≢ []
    → str ≡ before ++ (substr ++ after)
    → contains_operator str substr ≡ true
unfolding contains_operator
Occurs→contains_operator str substr before after h e =
    let found = (contains_string_iff str substr).1 (before, after, e) in
    let long : length substr ≤ length str =
      omega (arith, ap length e, length-Occurs before substr after) in
    ground (arith, found, long)

-- `contains` answers true exactly where the text looked for is not empty and occurs in the other.
pub contains_operator_iff :
    (str substr : Bytes)
    → (contains_operator str substr ≡ true) ↔ ((substr ≢ []) × Occurs substr str)
contains_operator_iff str substr = (
  λ h.
      let (some_text, test) = contains_operator_cases str substr h in
      (λ e. omega (arith, ap length e), Occurs-of_test str substr test),
  λ (h, (before, after, e)). Occurs→contains_operator str substr before after h e,
)
