-- ===== src/Runtime/Turns.antt =====
-- A proof rule for what a computation does to the table of nodes, and the row that a key finds in it.
use reactorcide.Prelude.{
  ◌≡◌, ◌≢◌, refl, sym, ap, ◌∙◌, subst, inl, inr, List, [], ◌∷◌, ◌++◌, Bool, true, false, Bool-cases,
  if◌then◌else◌, str_eq, str_eq_iff, All,
}
use reactorcide.Models.Workflow.{WorkflowNode}
use reactorcide.Store.World.{Result, ok, err, World, M, continue, ◌>>=◌, ◌>>◌, return, fail, modify}
use reactorcide.Store.Rows.{put_node, save, update_workflow_node}
use reactorcide.Store.Ensures.{IfOk}
use reactorcide.Runtime.Keeps.{Keeps, gets-Keeps, attempt-Keeps}
use reactorcide.Runtime.Steps.{HasKeys}

-- From a table of nodes where `P` holds, `m` answers an error, or comes to an answer and a table of which `R`
-- holds.
pub record Turns (P : List WorkflowNode → Type 0) {A : Type 0} (m : M A)
    (R : A → List WorkflowNode → Type 0) : Type 0 where
  pub at : (w : World) → P w.nodes → IfOk (λ a. R a (m w).1.nodes) (m w).0

module _ {A B : Type 0} {Q : A → List WorkflowNode → Type 0}
    {R : B → List WorkflowNode → Type 0} where
  continue-Turns :
      (f : A → M B) (r : Result A × World)
      → IfOk (λ a. Q a r.1.nodes) r.0
      → ((a : A) → Turns (Q a) (f a) R)
      → IfOk (λ b. R b (continue f r).1.nodes) (continue f r).0
  unfolding continue
  continue-Turns f (ok a, w) q h = (h a).at w q
  continue-Turns f (err e, w) q h = tt

module _ {P : List WorkflowNode → Type 0} {A B : Type 0} (Q : A → List WorkflowNode → Type 0)
    {R : B → List WorkflowNode → Type 0} where
  pub >>=-Turns :
      {m : M A} (f : A → M B) → Turns P m Q → ((a : A) → Turns (Q a) (f a) R) → Turns P (m >>= f) R
  unfolding ◌>>=◌
  >>=-Turns {m = m} f hm h = record { at = λ w p. continue-Turns f (m w) (hm.at w p) h }

pub >>-Turns :
    {P : List WorkflowNode → Type 0} {B : Type 0} (Q : List WorkflowNode → Type 0)
    {R : B → List WorkflowNode → Type 0} {m : M (Unit {0})} {k : M B}
    → Turns P m (λ _. Q)
    → Turns Q k R
    → Turns P (m >> k) R
unfolding ◌>>◌
>>-Turns Q hm hk = >>=-Turns (λ _. Q) _ hm (λ _. hk)

pub return-Turns :
    {P : List WorkflowNode → Type 0} {A : Type 0} {R : A → List WorkflowNode → Type 0} (a : A)
    → ((table : List WorkflowNode) → P table → R a table)
    → Turns P (return a) R
unfolding return
return-Turns a h = record { at = λ w p. h w.nodes p }

keeps_answer :
    {A : Type 0} (P : List WorkflowNode → Type 0) (r : Result A) (table : List WorkflowNode)
    → P table
    → IfOk (λ _. P table) r
keeps_answer P (ok a) table p = p
keeps_answer P (err e) table p = tt

pub Keeps-Turns :
    {P : List WorkflowNode → Type 0} {A : Type 0} {m : M A} → Keeps P m → Turns P m (λ _. P)
Keeps-Turns {P = P} {m = m} k = record {
  at = λ w p. keeps_answer P (m w).0 (m w).1.nodes (k.at w p);
}

pub if-Turns :
    {P : List WorkflowNode → Type 0} {A : Type 0} {R : A → List WorkflowNode → Type 0} (b : Bool)
    {x y : M A}
    → (b ≡ true → Turns P x R)
    → (b ≡ false → Turns P y R)
    → Turns P (if b then x else y) R
if-Turns true hx hy = hx refl
if-Turns false hx hy = hy refl

All-middle :
    (P : WorkflowNode → Type 0) (front rest : List WorkflowNode) (o : WorkflowNode)
    → All P (front ++ o ∷ rest)
    → P o
All-middle P [] rest o a = a.0
All-middle P (f ∷ front) rest o a = All-middle P front rest o a.1

All-replace :
    (P : WorkflowNode → Type 0) (front rest : List WorkflowNode) (o n : WorkflowNode)
    → P n
    → All P (front ++ o ∷ rest)
    → All P (front ++ n ∷ rest)
All-replace P [] rest o n p a = (p, a.1)
All-replace P (f ∷ front) rest o n p a = (a.0, All-replace P front rest o n p a.1)

-- A row that has another key is left.
put_node-other :
    (n : WorkflowNode) (rest : List WorkflowNode)
    → All (λ m. m.node_id ≢ n.node_id) rest
    → put_node n rest ≡ rest
put_node-other n [] a = refl
put_node-other n (m ∷ rest) a = elim (Bool-cases (str_eq m.node_id n.node_id)) [
  | inl e ↦ absurd (a.0 ((str_eq_iff _ _).0 e))
  | inr e ↦ rw e (ap (λ (t : List WorkflowNode). m ∷ t) (put_node-other n rest a.1))
]

-- The row of a key is the only one.
pub put_node-middle :
    (front rest : List WorkflowNode) (o n : WorkflowNode)
    → n.node_id ≡ o.node_id
    → HasKeys (front ++ o ∷ rest)
    → put_node n (front ++ o ∷ rest) ≡ front ++ n ∷ rest
put_node-middle [] rest o n same keys = rw ((str_eq_iff _ _).1 (sym same)) (
    ap (λ (t : List WorkflowNode). n ∷ t)
      (put_node-other n rest (subst (λ k. All (λ m. m.node_id ≢ k) rest) (sym same) keys.0)))
put_node-middle (f ∷ front) rest o n same keys = elim (Bool-cases (str_eq f.node_id n.node_id)) [
  | inl e ↦ absurd (
      All-middle (λ m. m.node_id ≢ f.node_id) front rest o keys.0
        (sym same ∙ sym ((str_eq_iff _ _).0 e)))
  | inr e ↦
      rw e (ap (λ (t : List WorkflowNode). f ∷ t) (put_node-middle front rest o n same keys.1))
]

-- A row of the same key in its place.
pub HasKeys-replace :
    (front rest : List WorkflowNode) (o n : WorkflowNode)
    → n.node_id ≡ o.node_id
    → HasKeys (front ++ o ∷ rest)
    → HasKeys (front ++ n ∷ rest)
HasKeys-replace [] rest o n same keys =
    (subst (λ k. All (λ m. m.node_id ≢ k) rest) (sym same) keys.0, keys.1)
HasKeys-replace (f ∷ front) rest o n same keys = (
  All-replace (λ m. m.node_id ≢ f.node_id) front rest o n
      (λ e. All-middle (λ m. m.node_id ≢ f.node_id) front rest o keys.0 (sym same ∙ e)) keys.0,
  HasKeys-replace front rest o n same keys.1,
)

-- To write a row in its place.
pub update_workflow_node-Turns :
    (front rest : List WorkflowNode) (o n : WorkflowNode)
    → n.node_id ≡ o.node_id
    → HasKeys (front ++ o ∷ rest)
    → Turns (λ t. t ≡ front ++ o ∷ rest) (update_workflow_node n) (λ _ t. t ≡ front ++ n ∷ rest)
unfolding update_workflow_node save modify fail
update_workflow_node-Turns front rest o n same keys =
    >>-Turns (λ t. t ≡ front ++ o ∷ rest) (Keeps-Turns attempt-Keeps)
      (>>=-Turns (λ _ t. t ≡ front ++ o ∷ rest) _ (Keeps-Turns (gets-Keeps _))
        (λ here.
          if-Turns here
            (λ _. record {
              at = λ w e. ap (put_node n) e ∙ put_node-middle front rest o n same keys;
            })
            (λ _. record { at = λ w e. tt })))
