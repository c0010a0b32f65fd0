-- ===== src/Runtime/Groups.antt =====
-- The nodes of one name, and the loops that go over them.
use mathlib.Core.List.{Memᴰ}
use reactorcide.Prelude.{
  ◌≡◌, refl, sym, ap, ◌∙◌, inl, inr, String, List, [], ◌∷◌, Bool, true, false, Bool-cases,
  if◌then◌else◌, str_eq, str_eq_iff, All,
}
use reactorcide.Models.Status.{Status}
use reactorcide.Models.Workflow.{WorkflowNode}
use reactorcide.Runtime.Decide.{nodes_by_name}

-- Every node of that name passes the test.
abbrev pub EachNamed : (Status → Bool) → String → List WorkflowNode → Type 0
EachNamed p dep nodes = All (λ n. n.name ≡ dep → p n.status ≡ true) nodes

-- Some node of that name passes the test.
abbrev pub SomeNamed : (Status → Bool) → String → List WorkflowNode → Type 0
SomeNamed p dep nodes = (n : WorkflowNode) × Memᴰ n nodes × (n.name ≡ dep) × (p n.status ≡ true)

abbrev pub any_status : Status → Bool
any_status s = true

-- The test as the loops over a group make it.
unfoldable pub all_of : (Status → Bool) → List WorkflowNode → Bool
all_of p [] = true
all_of p (n ∷ group) = if p n.status then all_of p group else false

pub all_of-named :
    (p : Status → Bool) (dep : String) (nodes : List WorkflowNode)
    → all_of p (nodes_by_name nodes dep) ≡ true
    → EachNamed p dep nodes
unfolding all_of nodes_by_name
all_of-named p dep [] h = tt
all_of-named p dep (n ∷ nodes) h = elim (Bool-cases (str_eq n.name dep)) [
  | inl e ↦ elim (Bool-cases (p n.status)) [
    | inl t ↦ (λ _. t, all_of-named p dep nodes (rw (e, t) at h))
    | inr t ↦ absurd (cc (rw (e, t) at h))
  ]
  | inr e ↦ (λ q. absurd (cc ((str_eq_iff n.name dep).1 q)), all_of-named p dep nodes (rw e at h))
]

pub named-all_of :
    (p : Status → Bool) (dep : String) (nodes : List WorkflowNode)
    → EachNamed p dep nodes
    → all_of p (nodes_by_name nodes dep) ≡ true
unfolding all_of nodes_by_name
named-all_of p dep [] h = refl
named-all_of p dep (n ∷ nodes) h = elim (Bool-cases (str_eq n.name dep)) [
  | inl e ↦ rw (e, h.0 ((str_eq_iff n.name dep).0 e)) (named-all_of p dep nodes h.1)
  | inr e ↦ rw e (named-all_of p dep nodes h.1)
]

unfoldable pub some_of : (Status → Bool) → List WorkflowNode → Bool
some_of p [] = false
some_of p (n ∷ group) = if p n.status then true else some_of p group

pub some_of-named :
    (p : Status → Bool) (dep : String) (nodes : List WorkflowNode)
    → some_of p (nodes_by_name nodes dep) ≡ true
    → SomeNamed p dep nodes
unfolding some_of nodes_by_name
some_of-named p dep [] h = absurd (cc)
some_of-named p dep (n ∷ nodes) h = elim (Bool-cases (str_eq n.name dep)) [
  | inl e ↦ elim (Bool-cases (p n.status)) [
    | inl t ↦ (n, Memᴰ.head refl, (str_eq_iff n.name dep).0 e, t)
    | inr t ↦ later (some_of-named p dep nodes (rw (e, t) at h))
  ]
  | inr e ↦ later (some_of-named p dep nodes (rw e at h))
]
  where
    later : SomeNamed p dep nodes → SomeNamed p dep (n ∷ nodes)
    later (m, i, q, t) = (m, Memᴰ.tail i, q, t)

pub named-some_of :
    (p : Status → Bool) (dep : String) (nodes : List WorkflowNode) (n : WorkflowNode)
    → Memᴰ n nodes
    → n.name ≡ dep
    → p n.status ≡ true
    → some_of p (nodes_by_name nodes dep) ≡ true
unfolding some_of nodes_by_name
named-some_of p dep [] n i q t = elim i [ ]
named-some_of p dep (m ∷ nodes) n (Memᴰ.head e) q t = rw (
  (str_eq_iff m.name dep).1 (ap (λ (k : WorkflowNode). k.name) (sym e) ∙ q),
  ap (λ (k : WorkflowNode). p k.status) (sym e) ∙ t,
)
named-some_of p dep (m ∷ nodes) n (Memᴰ.tail i) q t = elim (Bool-cases (str_eq m.name dep)) [
  | inl e ↦ rw e (or_rest (p m.status) (named-some_of p dep nodes n i q t))
  | inr e ↦ rw e (named-some_of p dep nodes n i q t)
]
  where
    or_rest : (b : Bool) {r : Bool} → r ≡ true → (if b then true else r) ≡ true
    or_rest true h = refl
    or_rest false h = h
