-- ===== src/Scheduler/Sorted.antt =====
-- What the bubble sort of the routing rules does.
use mathlib.Core.List.{Perm, append-nil}
use mathlib.Core.List.Perm
use reactorcide.Prelude.{
  ℕ, zero, suc, ◌-◌, ◌≡◌, refl, ap, ◌∙◌, List, [], ◌∷◌, ◌++◌, Bool-cases, inl, inr, ltb_ℤ, ◌≤ℤ◌, ℤ,
  same_ℤ, subst, if◌then◌else◌, length, All, arith,
}
use reactorcide.Scheduler.Types.{RoutingRule}
use reactorcide.Scheduler.State.{earlier, later, inner, outer, sort_routing_rules}

-- `x` may stand before `y`.
abbrev pub Precedes : RoutingRule → RoutingRule → Type 0
Precedes x y = y.priority ≤ℤ x.priority

-- Descending priorities.
abbrev pub IsSorted : List RoutingRule → Type 0
IsSorted [] = Unit
IsSorted (x ∷ rules) = All (Precedes x) rules × IsSorted rules

-- The inner loop over a whole list: what it leaves behind, and the rule that it carries to the end.
bubbled : RoutingRule → List RoutingRule → List RoutingRule
bubbled x [] = []
bubbled x (y ∷ rules) = earlier x y ∷ bubbled (later x y) rules

carried : RoutingRule → List RoutingRule → RoutingRule
carried x [] = x
carried x (y ∷ rules) = carried (later x y) rules

inner-bubbled :
    (x : RoutingRule) (rules done : List RoutingRule)
    → inner (length rules) (x ∷ (rules ++ done)) ≡ bubbled x rules ++ (carried x rules ∷ done)
unfolding inner bubbled carried
inner-bubbled x [] done = refl
inner-bubbled x (y ∷ rules) done = ap (λ t. earlier x y ∷ t) (inner-bubbled (later x y) rules done)

length-bubbled :
    (x : RoutingRule) (rules : List RoutingRule) → length (bubbled x rules) ≡ length rules
unfolding bubbled
length-bubbled x [] = refl
length-bubbled x (y ∷ rules) = ap suc (length-bubbled (later x y) rules)

module _ (P : RoutingRule → Type 0) where
  earlier-All : (x y : RoutingRule) → P x → P y → P (earlier x y)
  unfolding earlier
  earlier-All x y hx hy = elim (Bool-cases (ltb_ℤ x.priority y.priority)) [
    | inl e ↦ rw e hy
    | inr e ↦ rw e hx
  ]

  later-All : (x y : RoutingRule) → P x → P y → P (later x y)
  unfolding later
  later-All x y hx hy = elim (Bool-cases (ltb_ℤ x.priority y.priority)) [
    | inl e ↦ rw e hx
    | inr e ↦ rw e hy
  ]

  bubbled-All :
      (x : RoutingRule) (rules : List RoutingRule)
      → P x
      → All P rules
      → All P (bubbled x rules) × P (carried x rules)
  unfolding bubbled carried
  bubbled-All x [] hx h = (tt, hx)
  bubbled-All x (y ∷ rules) hx h =
      let (rest, last) = bubbled-All (later x y) rules (later-All x y hx h.0) h.1 in
      ((earlier-All x y hx h.0, rest), last)

earlier-Precedes-later : (x y : RoutingRule) → Precedes (earlier x y) (later x y)
unfolding earlier later
earlier-Precedes-later x y = ground arith

later-le : (x y : RoutingRule) → Precedes x (later x y)
unfolding later
later-le x y = ground arith

carried-le : (x : RoutingRule) (rules : List RoutingRule) → Precedes x (carried x rules)
unfolding carried
carried-le x [] = omega arith
carried-le x (y ∷ rules) = omega (arith, later-le x y, carried-le (later x y) rules)

-- Every rule left behind precedes the one carried to the end.
bubbled-Precedes :
    (x : RoutingRule) (rules : List RoutingRule)
    → All (λ w. Precedes w (carried x rules)) (bubbled x rules)
unfolding bubbled carried
bubbled-Precedes x [] = tt
bubbled-Precedes x (y ∷ rules) = (
  omega (arith, earlier-Precedes-later x y, carried-le (later x y) rules),
  bubbled-Precedes (later x y) rules,
)

module _ (rules : List RoutingRule) where
  abbrev AllPrecede : List RoutingRule → Type 0
  AllPrecede = All (λ w. All (Precedes w) rules)

AllPrecede-nil : (rules : List RoutingRule) → AllPrecede [] rules
AllPrecede-nil [] = tt
AllPrecede-nil (w ∷ rules) = (tt, AllPrecede-nil rules)

inner-at :
    (n : ℕ) (x : RoutingRule) (todo done : List RoutingRule)
    → length todo ≡ n
    → inner n (x ∷ (todo ++ done)) ≡ bubbled x todo ++ (carried x todo ∷ done)
inner-at n x todo done e =
    subst (λ k. inner k (x ∷ (todo ++ done)) ≡ bubbled x todo ++ (carried x todo ∷ done)) e
      (inner-bubbled x todo done)

AllPrecede-cons :
    (c : RoutingRule) (done rules : List RoutingRule)
    → All (λ w. Precedes w c) rules
    → AllPrecede done rules
    → AllPrecede (c ∷ done) rules
AllPrecede-cons c done [] h k = tt
AllPrecede-cons c done (w ∷ rules) h k = ((h.0, k.0), AllPrecede-cons c done rules h.1 k.1)

outer-IsSorted :
    (bound : ℕ) (todo done : List RoutingRule)
    → length todo ≡ suc bound
    → AllPrecede done todo
    → IsSorted done
    → IsSorted (outer bound (todo ++ done))
unfolding outer
outer-IsSorted bound [] done h p s = absurd (omega arith)
outer-IsSorted zero (x ∷ []) done h p s = (p.0, s)
outer-IsSorted zero (x ∷ y ∷ todo) done h p s = absurd (omega arith)
outer-IsSorted (suc bound) (x ∷ todo) done h p s =
    let (kept, last) = bubbled-All (λ w. All (Precedes w) done) x todo p.0 p.1 in
    rw (inner-at (suc bound) x todo done (omega arith)) (
      outer-IsSorted bound (bubbled x todo) (carried x todo ∷ done)
        (omega (arith, length-bubbled x todo))
        (AllPrecede-cons (carried x todo) done (bubbled x todo) (bubbled-Precedes x todo) kept)
        (last, s))

-- The sort leaves the rules in descending order of priority.
pub sort_routing_rules-IsSorted : (rules : List RoutingRule) → IsSorted (sort_routing_rules rules)
unfolding sort_routing_rules outer
sort_routing_rules-IsSorted [] = tt
sort_routing_rules-IsSorted (x ∷ rules) =
    let n-1 : length (x ∷ rules) - 1 ≡ length rules = omega arith in
    rw n-1 (
      subst (λ l. IsSorted (outer (length rules) l)) (append-nil (x ∷ rules))
        (outer-IsSorted (length rules) (x ∷ rules) [] refl (AllPrecede-nil (x ∷ rules)) tt))

inner-perm : (n : ℕ) (rules : List RoutingRule) → Perm (inner n rules) rules
unfolding inner earlier later
inner-perm zero rules = Perm.refl rules
inner-perm (suc n) [] = Perm.refl []
inner-perm (suc n) (x ∷ []) = Perm.refl (x ∷ [])
inner-perm (suc n) (x ∷ y ∷ rules) = elim (Bool-cases (ltb_ℤ x.priority y.priority)) [
  | inl e ↦ rw e (Perm.trans (Perm.cons y (inner-perm n (x ∷ rules))) (Perm.swap x y rules))
  | inr e ↦ rw e (Perm.cons x (inner-perm n (y ∷ rules)))
]

outer-perm : (n : ℕ) (rules : List RoutingRule) → Perm (outer n rules) rules
unfolding outer
outer-perm zero rules = Perm.refl rules
outer-perm (suc n) rules =
    Perm.trans (outer-perm n (inner (suc n) rules)) (inner-perm (suc n) rules)

-- The sort keeps every rule, as often as it was there.
pub sort_routing_rules-perm : (rules : List RoutingRule) → Perm (sort_routing_rules rules) rules
unfolding sort_routing_rules
sort_routing_rules-perm rules = outer-perm (length rules - 1) rules

-- The rules of one priority, in their order.
abbrev pub at_priority : ℤ → List RoutingRule → List RoutingRule
at_priority p [] = []
at_priority p (x ∷ rules) =
    let rest = at_priority p rules in if same_ℤ p x.priority then x ∷ rest else rest

at_priority-inner :
    (p : ℤ) (n : ℕ) (rules : List RoutingRule) → at_priority p (inner n rules) ≡ at_priority p rules
unfolding inner earlier later
at_priority-inner p zero rules = refl
at_priority-inner p (suc n) [] = refl
at_priority-inner p (suc n) (x ∷ []) = refl
at_priority-inner p (suc n) (x ∷ y ∷ rules) =
    ground (arith, at_priority-inner p n (x ∷ rules), at_priority-inner p n (y ∷ rules))

at_priority-outer :
    (p : ℤ) (n : ℕ) (rules : List RoutingRule) → at_priority p (outer n rules) ≡ at_priority p rules
unfolding outer
at_priority-outer p zero rules = refl
at_priority-outer p (suc n) rules =
    at_priority-outer p n (inner (suc n) rules) ∙ at_priority-inner p (suc n) rules

-- The sort is stable: the rules of each priority keep their order.
pub sort_routing_rules-stable :
    (p : ℤ) (rules : List RoutingRule)
    → at_priority p (sort_routing_rules rules) ≡ at_priority p rules
unfolding sort_routing_rules
sort_routing_rules-stable p rules = at_priority-outer p (length rules - 1) rules
