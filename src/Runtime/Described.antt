-- ===== src/Runtime/Described.antt =====
-- What the rows of new nodes have to be, said without the code that makes them.
use reactorcide.Prelude.{
  ◌≡◌, ◌≢◌, refl, sym, ap, ◌∙◌, inl, inr, ℕ, suc, ◌+◌, String, List, [], ◌∷◌, ◌++◌, false,
  Bool-cases, Option, none, some, if◌then◌else◌, str_eq, str_eq_iff, codes, length, lookup,
  lookup-insert,
}
use reactorcide.Models.Status.{pending}
use reactorcide.Models.Workflow.{WorkflowNode, WorkflowInstance}
use reactorcide.Store.World.{Result, ok, World}
use reactorcide.Runtime.Create.{
  WorkflowValue, MatrixSpec, node_of_spec, item_name, item_var_of, condition_of,
  stringify_workflow_value, create_workflow_nodes,
}
use reactorcide.Runtime.Expansion.{
  item_nodes, spec_nodes, all_nodes, with_keys, with_keys-append, all_added,
}

-- A node that waits to be evaluated, with the name, the dependencies and the work of its specification.
pub record IsNodeOf (wf : WorkflowInstance) (spec : MatrixSpec) (n : WorkflowNode) : Type 0 where
  pub workflow : n.workflow_id ≡ wf.workflow_id
  pub named : n.name ≡ spec.job_spec.job_name
  pub is_pending : n.status ≡ pending
  pub dependencies : n.depends_on ≡ spec.job_spec.depends_on
  pub no_job : n.job_id ≡ none
  pub not_completed : n.completed_at ≡ none
  pub given_condition : spec.job_spec.condition ≢ "" → n.condition ≡ codes spec.job_spec.condition
  pub no_condition : spec.job_spec.condition ≡ "" → n.condition ≡ codes "all_success"
  pub work :
      n.job_spec ≡ record spec.job_spec { condition = n.job_spec.condition; env = n.job_spec.env }

-- The node of a specification without a list.
pub record IsSingle (wf : WorkflowInstance) (spec : MatrixSpec) (n : WorkflowNode) : Type 0 where
  pub node : IsNodeOf wf spec n
  pub shown : n.display_name ≡ spec.job_spec.job_name
  pub no_index : n.item_index ≡ none
  pub same_env : n.job_spec.env ≡ spec.job_spec.env

-- The node of an element of a list: the element is in the variable that the specification names, or in `ITEM`.
pub record IsItem (wf : WorkflowInstance) (spec : MatrixSpec) (index : ℕ) (item : WorkflowValue)
    (n : WorkflowNode) : Type 0 where
  pub node : IsNodeOf wf spec n
  pub shown : n.display_name ≡ item_name spec.job_spec.job_name index
  pub has_index : n.item_index ≡ some index
  pub given_var : spec.item_var ≢ "" → n.item_var ≡ spec.item_var
  pub no_var : spec.item_var ≡ "" → n.item_var ≡ "ITEM"
  pub in_env : lookup n.item_var n.job_spec.env ≡ some (stringify_workflow_value item)
  pub other_env :
      (key : String) → key ≢ n.item_var → lookup key n.job_spec.env ≡ lookup key spec.job_spec.env

module _ (wf : WorkflowInstance) where
  abbrev pub ItemRows : MatrixSpec → ℕ → List WorkflowValue → List WorkflowNode → Type 0
  ItemRows spec index [] rows = rows ≡ []
  ItemRows spec index (item ∷ items) [] = ⊥
  ItemRows spec index (item ∷ items) (n ∷ rows) =
      IsItem wf spec index item n × ItemRows spec (suc index) items rows

  -- One row for each element, in order, or a single one.
  abbrev pub SpecRows : MatrixSpec → List WorkflowValue → List WorkflowNode → Type 0
  SpecRows spec [] rows = (n : WorkflowNode) × ((rows ≡ n ∷ []) × IsSingle wf spec n)
  SpecRows spec (item ∷ items) rows = ItemRows spec 0 (item ∷ items) rows

  -- The rows of the specifications, one after the other.
  abbrev pub AllRows : List MatrixSpec → List WorkflowNode → Type 0
  AllRows [] rows = rows ≡ []
  AllRows (spec ∷ specs) rows =
      (mine : List WorkflowNode) × ((others : List WorkflowNode) × ((rows ≡ mine ++ others)
          × (SpecRows spec spec.for_each mine × AllRows specs others)))

-- The rows have the keys of the supply, from a number on.
abbrev pub HasKeysFrom : (ℕ → String) → ℕ → List WorkflowNode → Type 0
HasKeysFrom ulid k [] = Unit
HasKeysFrom ulid k (n ∷ rows) = (n.node_id ≡ ulid k) × HasKeysFrom ulid (suc k) rows

pub with_keys-HasKeysFrom :
    (ulid : ℕ → String) (k : ℕ) (rows : List WorkflowNode)
    → HasKeysFrom ulid k (with_keys ulid k rows)
with_keys-HasKeysFrom ulid k [] = tt
with_keys-HasKeysFrom ulid k (n ∷ rows) = (refl, with_keys-HasKeysFrom ulid (suc k) rows)

condition_given : (s : String) → s ≢ "" → condition_of s ≡ s
condition_given s h = elim (Bool-cases (str_eq s "")) [
  | inl e ↦ absurd (h ((str_eq_iff _ _).0 e))
  | inr e ↦ rw e refl
]

item_var_given : (s : String) → s ≢ "" → item_var_of s ≡ s
item_var_given s h = elim (Bool-cases (str_eq s "")) [
  | inl e ↦ absurd (h ((str_eq_iff _ _).0 e))
  | inr e ↦ rw e refl
]

differs : (var key : String) → key ≢ var → str_eq var key ≡ false
differs var key h = elim (Bool-cases (str_eq var key)) [
  | inl e ↦ absurd (h (sym ((str_eq_iff _ _).0 e)))
  | inr e ↦ e
]

module _ (to_json : WorkflowValue → String) (history : Option (String → Result (Option ℕ)))
    (wf : WorkflowInstance) (ulid : ℕ → String) where
  abbrev keyed : MatrixSpec → Option (ℕ × WorkflowValue) → ℕ → WorkflowNode
  keyed spec item k = record (node_of_spec to_json history wf spec item) { node_id = ulid k }

  node_of_spec-IsSingle : (spec : MatrixSpec) (k : ℕ) → IsSingle wf spec (keyed spec none k)
  unfolding node_of_spec
  node_of_spec-IsSingle spec k = record {
    node = record {
      workflow = refl;
      named = refl;
      is_pending = refl;
      dependencies = refl;
      no_job = refl;
      not_completed = refl;
      given_condition = λ h. ap codes (condition_given spec.job_spec.condition h);
      no_condition = λ e. ap (λ c. codes (condition_of c)) e;
      work = refl;
    };
    shown = refl;
    no_index = refl;
    same_env = refl;
  }

  node_of_spec-IsItem :
      (spec : MatrixSpec) (index : ℕ) (item : WorkflowValue) (k : ℕ)
      → IsItem wf spec index item (keyed spec (some (index, item)) k)
  unfolding node_of_spec
  node_of_spec-IsItem spec index item k = record {
    node = record {
      workflow = refl;
      named = refl;
      is_pending = refl;
      dependencies = refl;
      no_job = refl;
      not_completed = refl;
      given_condition = λ h. ap codes (condition_given spec.job_spec.condition h);
      no_condition = λ e. ap (λ c. codes (condition_of c)) e;
      work = refl;
    };
    shown = refl;
    has_index = refl;
    given_var = λ h. item_var_given spec.item_var h;
    no_var = λ e. ap item_var_of e;
    in_env =
        lookup-insert (item_var_of spec.item_var) (item_var_of spec.item_var)
          (stringify_workflow_value item) spec.job_spec.env
        ∙ ap
            (λ b.
              if b
              then some (stringify_workflow_value item)
              else lookup (item_var_of spec.item_var) spec.job_spec.env)
            ((str_eq_iff _ _).1 refl);
    other_env = λ key apart.
        lookup-insert (item_var_of spec.item_var) key (stringify_workflow_value item)
          spec.job_spec.env
        ∙ ap (λ b. if b then some (stringify_workflow_value item) else lookup key spec.job_spec.env)
            (differs (item_var_of spec.item_var) key apart);
  }

  item_rows :
      (spec : MatrixSpec) (index : ℕ) (items : List WorkflowValue) (k : ℕ)
      → ItemRows wf spec index items
          (with_keys ulid k (item_nodes to_json history wf spec index items))
  item_rows spec index [] k = refl
  item_rows spec index (item ∷ items) k =
      (node_of_spec-IsItem spec index item k, item_rows spec (suc index) items (suc k))

  spec_rows :
      (spec : MatrixSpec) (items : List WorkflowValue) (k : ℕ)
      → SpecRows wf spec items (with_keys ulid k (spec_nodes to_json history wf spec items))
  spec_rows spec [] k = (keyed spec none k, (refl, node_of_spec-IsSingle spec k))
  spec_rows spec (item ∷ items) k = item_rows spec 0 (item ∷ items) k

  pub with_keys-AllRows :
      (specs : List MatrixSpec) (k : ℕ)
      → AllRows wf specs (with_keys ulid k (all_nodes to_json history wf specs))
  with_keys-AllRows [] k = refl
  with_keys-AllRows (spec ∷ specs) k =
      let mine = spec_nodes to_json history wf spec spec.for_each in
      (
        with_keys ulid k mine,
        (
          with_keys ulid (k + length mine) (all_nodes to_json history wf specs),
          (
            with_keys-append to_json history wf ulid k mine (all_nodes to_json history wf specs),
            (spec_rows spec spec.for_each k, with_keys-AllRows specs (k + length mine)),
          ),
        ),
      )

-- When no database operation fails, registering specifications ends without an error and adds to the
-- table of nodes, in the order of the specifications and with the next keys of the supply, a pending row for each
-- element of a specification's list, or one row if the list is empty. Each has its specification's name,
-- dependencies, condition (`all_success` if it gives none) and work; an element's row shows its index and has the element
-- in its variable.
pub create_workflow_nodes-AllRows :
    (to_json : WorkflowValue → String) (history : Option (String → Result (Option ℕ)))
    (wf : WorkflowInstance) (specs : List MatrixSpec) (w : World)
    → w.faults ≡ []
    → ((create_workflow_nodes to_json history wf specs w).0 ≡ ok tt)
      × ((new : List WorkflowNode) × (((create_workflow_nodes to_json history wf specs w).1.nodes
              ≡ w.nodes ++ new)
            × (AllRows wf specs new × HasKeysFrom w.ulid w.issued new)))
create_workflow_nodes-AllRows to_json history wf specs w calm =
    let run =
      (all_added to_json history wf w.ulid specs w.nodes w.issued).at w
        (record { no_faults = calm; table_is = refl; issued_is = refl; ulid_is = refl }) in
    (
      run.0,
      (
        with_keys w.ulid w.issued (all_nodes to_json history wf specs),
        (
          run.1.table_is,
          (
            with_keys-AllRows to_json history wf w.ulid specs w.issued,
            with_keys-HasKeysFrom w.ulid w.issued (all_nodes to_json history wf specs),
          ),
        ),
      ),
    )
