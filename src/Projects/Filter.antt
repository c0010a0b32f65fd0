-- ===== src/Projects/Filter.antt =====
-- `ShouldProcessEvent` of store/models/project.go, and when it answers yes.
use mathlib.Core.List.{Memᴰ}
use mathlib.Core.Bool.{false≢true}
use reactorcide.Prelude.{
  ◌≡◌, refl, sym, ◌↔◌, ◌⊎◌, inl, inr, String, List, [], ◌∷◌, Bool, true, false, Bool-cases, not,
  if◌then◌else◌, str_eq, str_eq_iff,
}

-- Of a project, what the filter reads.
pub record ProjectFilter : Type 0 where
  pub enabled : Bool
  pub target_branches : List String
  pub allowed_event_types : List String

unfoldable pub is_listed : List String → String → Bool
is_listed [] s = false
is_listed (t ∷ texts) s = if str_eq t s then true else is_listed texts s

unfoldable pub branch_allowed : List String → String → Bool
unfolding is_listed
branch_allowed [] branch = true
branch_allowed (b ∷ branches) branch = is_listed (b ∷ branches) branch

unfoldable pub should_process_event : ProjectFilter → String → String → Bool
unfolding is_listed branch_allowed
should_process_event p event_type target_branch =
    if not p.enabled
    then false
    else if not (is_listed p.allowed_event_types event_type)
    then false
    else branch_allowed p.target_branches target_branch

is_listed→Memᴰ : (texts : List String) (s : String) → is_listed texts s ≡ true → Memᴰ s texts
unfolding is_listed
is_listed→Memᴰ [] s h = absurd (false≢true h)
is_listed→Memᴰ (t ∷ texts) s h = elim (Bool-cases (str_eq t s)) [
  | inl e ↦ Memᴰ.head (sym ((str_eq_iff t s).0 e))
  | inr e ↦ Memᴰ.tail (is_listed→Memᴰ texts s (rw e at h))
]

Memᴰ→is_listed : (texts : List String) (s : String) → Memᴰ s texts → is_listed texts s ≡ true
unfolding is_listed
Memᴰ→is_listed [] s i = elim i [ ]
Memᴰ→is_listed (t ∷ texts) s (Memᴰ.head e) = rw ((str_eq_iff t s).1 (sym e)) refl
Memᴰ→is_listed (t ∷ texts) s (Memᴰ.tail i) = elim (Bool-cases (str_eq t s)) [
  | inl e ↦ rw e refl
  | inr e ↦ rw e (Memᴰ→is_listed texts s i)
]

branch_allowed_iff :
    (branches : List String) (branch : String)
    → (branch_allowed branches branch ≡ true) ↔ ((branches ≡ []) ⊎ Memᴰ branch branches)
unfolding branch_allowed
branch_allowed_iff [] branch = (λ _. inl refl, λ _. refl)
branch_allowed_iff (b ∷ branches) branch =
    (λ h. inr (is_listed→Memᴰ (b ∷ branches) branch h), by_side)
  where
    by_side :
        (b ∷ branches ≡ []) ⊎ Memᴰ branch (b ∷ branches) → is_listed (b ∷ branches) branch ≡ true
    by_side (inl e) = absurd (cc)
    by_side (inr i) = Memᴰ→is_listed (b ∷ branches) branch i

-- An event starts jobs of a project exactly where the project is enabled, the event's type is one of
-- those that are allowed, and the branch is a target branch or none is named.
pub should_process_event_iff :
    (p : ProjectFilter) (event_type target_branch : String)
    → (should_process_event p event_type target_branch ≡ true) ↔ (
        (p.enabled ≡ true)
        × Memᴰ event_type p.allowed_event_types
        × ((p.target_branches ≡ []) ⊎ Memᴰ target_branch p.target_branches))
unfolding should_process_event
should_process_event_iff p event_type target_branch =
    by_case p.enabled (is_listed p.allowed_event_types event_type) (is_listed→Memᴰ _ event_type)
      (Memᴰ→is_listed _ event_type) (branch_allowed_iff p.target_branches target_branch)
  where
    by_case :
        (on listed : Bool)
        → (listed ≡ true → Memᴰ event_type p.allowed_event_types)
        → (Memᴰ event_type p.allowed_event_types → listed ≡ true)
        → (branch_allowed p.target_branches target_branch ≡ true)
          ↔ ((p.target_branches ≡ []) ⊎ Memᴰ target_branch p.target_branches)
        → ((if not on
              then false
              else if not listed
              then false
              else branch_allowed p.target_branches target_branch)
            ≡ true)
          ↔ ((on ≡ true)
              × Memᴰ event_type p.allowed_event_types
              × ((p.target_branches ≡ []) ⊎ Memᴰ target_branch p.target_branches))
    by_case true true there back (to, from) = (λ h. (refl, there refl, to h), λ h. from h.2)
    by_case true false there back b =
        (λ h. absurd (false≢true h), λ h. absurd (false≢true (back h.1)))
    by_case false listed there back b = (λ h. absurd (false≢true h), λ h. absurd (false≢true h.0))
