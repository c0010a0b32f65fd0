-- ===== src/Runtime/Expansion.antt =====
-- The rows that a list of specifications becomes.
use reactorcide.Prelude.{
  ◌≡◌, refl, sym, ap, ◌∙◌, subst, ℕ, suc, ◌+◌, String, List, [], ◌∷◌, ◌++◌, Bool, true, false,
  Option, none, some, if◌then◌else◌, str_eq, length, length-append, arith, ap₂,
}
use mathlib.Core.List.{append_assoc, append-nil}
use reactorcide.Models.Workflow.{WorkflowNode, WorkflowInstance, WorkflowEvent, cause}
use reactorcide.Store.World.{Result, ok, World, M, ◌>>=◌, ◌>>◌, return, ignore}
use reactorcide.Store.Rows.{create_workflow_node, create_workflow_event, rows}
use reactorcide.Store.Leads.{Leads, >>-Leads, return-Leads}
use reactorcide.Runtime.Evaluate.{record_workflow_event}
use reactorcide.Runtime.Create.{
  WorkflowValue, MatrixSpec, node_of_spec, create_node_of_spec, create_items, create_spec,
  create_workflow_nodes,
}

module _ (to_json : WorkflowValue → String) (history : Option (String → Result (Option ℕ)))
    (wf : WorkflowInstance) where
  -- The rows of the items from an index on, of a specification, and of a list of specifications.
  abbrev pub item_nodes : MatrixSpec → ℕ → List WorkflowValue → List WorkflowNode
  item_nodes spec index [] = []
  item_nodes spec index (item ∷ items) =
      node_of_spec to_json history wf spec (some (index, item)) ∷ item_nodes spec (suc index) items

  abbrev pub spec_nodes : MatrixSpec → List WorkflowValue → List WorkflowNode
  spec_nodes spec [] = node_of_spec to_json history wf spec none ∷ []
  spec_nodes spec (item ∷ items) = item_nodes spec 0 (item ∷ items)

  abbrev pub all_nodes : List MatrixSpec → List WorkflowNode
  all_nodes [] = []
  all_nodes (spec ∷ specs) = spec_nodes spec spec.for_each ++ all_nodes specs

-- The keys that the database gives them.
abbrev pub with_keys : (ℕ → String) → ℕ → List WorkflowNode → List WorkflowNode
with_keys ulid n [] = []
with_keys ulid n (node ∷ nodes) = record node { node_id = ulid n } ∷ with_keys ulid (suc n) nodes

plus_zero : (n : ℕ) → n ≡ n + 0
plus_zero n = omega arith

-- No operation fails, and this is the table of nodes, the number of keys given, and their supply.
pub record Made (table : List WorkflowNode) (n : ℕ) (ulid : ℕ → String) (w : World) : Type 0 where
  pub no_faults : w.faults ≡ []
  pub table_is : w.nodes ≡ table
  pub issued_is : w.issued ≡ n
  pub ulid_is : w.ulid ≡ ulid

one_node :
    (to_json : WorkflowValue → String) (history : Option (String → Result (Option ℕ)))
    (wf : WorkflowInstance) (spec : MatrixSpec) (item : Option (ℕ × WorkflowValue))
    (table : List WorkflowNode) (n : ℕ) (ulid : ℕ → String)
    → Leads (Made table n ulid) (create_node_of_spec to_json history wf spec item) tt (
        Made
          (table ++ record (node_of_spec to_json history wf spec item) { node_id = ulid n } ∷ [])
          (suc n)
          ulid)
unfolding rows create_node_of_spec record_workflow_event
one_node to_json history wf spec item table n ulid = record {
  at = λ w m.
      subst
        (λ v.
          ((create_node_of_spec to_json history wf spec item v).0 ≡ ok tt)
          × Made (table ++ new ∷ []) (suc n) ulid
              (create_node_of_spec to_json history wf spec item v).1)
        (λ i. record w { faults = sym m.no_faults i }) (by_case (str_eq wf.workflow_id "") w m);
}
  where
    new : WorkflowNode
    new = record (node_of_spec to_json history wf spec item) { node_id = ulid n }

    event : String → WorkflowEvent
    event id = record {
      workflow_id = wf.workflow_id;
      node_id = some id;
      job_id = none;
      event_type = "node_waiting";
      reason = cause "node registered";
    }

    grown :
        (w : World)
        → Made table n ulid w
        → w.nodes
            ++ record (node_of_spec to_json history wf spec item) { node_id = w.ulid w.issued } ∷ []
          ≡ table ++ new ∷ []
    grown w m =
        ap₂ (λ t id. t ++ record (node_of_spec to_json history wf spec item) { node_id = id } ∷ [])
          m.table_is (ap₂ (λ (u : ℕ → String) k. u k) m.ulid_is m.issued_is)

    by_case :
        (b : Bool) (w : World)
        → Made table n ulid w
        → let run =
            (create_workflow_node (node_of_spec to_json history wf spec item) >>= λ node.
            if b then return tt else ignore (create_workflow_event (event node.node_id)))
              (record w { faults = [] }) in
          (run.0 ≡ ok tt) × Made (table ++ new ∷ []) (suc n) ulid run.1
    by_case true w m = (
      refl,
      record {
        no_faults = refl;
        table_is = grown w m;
        issued_is = ap suc m.issued_is;
        ulid_is = m.ulid_is;
      },
    )
    by_case false w m = (
      refl,
      record {
        no_faults = refl;
        table_is = grown w m;
        issued_is = ap suc m.issued_is;
        ulid_is = m.ulid_is;
      },
    )

module _ (to_json : WorkflowValue → String) (history : Option (String → Result (Option ℕ)))
    (wf : WorkflowInstance) (ulid : ℕ → String) where
  -- The rows are added to the table, with their keys.
  abbrev pub Adds : M (Unit {0}) → List WorkflowNode → Type 0
  Adds m nodes =
      (table : List WorkflowNode) (n : ℕ)
      → Leads (Made table n ulid) m tt
          (Made (table ++ with_keys ulid n nodes) (n + length nodes) ulid)

  nothing_added : Adds (return tt) []
  nothing_added table n =
      subst
        (λ (e : List WorkflowNode × ℕ).
          Leads (Made table n ulid) (return tt) tt (Made e.0 e.1 ulid))
        (λ i. (sym (append-nil table) i, plus_zero n i)) (return-Leads tt)

  pub with_keys-append :
      (n : ℕ) (xs ys : List WorkflowNode)
      → with_keys ulid n (xs ++ ys) ≡ with_keys ulid n xs ++ with_keys ulid (n + length xs) ys
  with_keys-append n [] ys = ap (λ k. with_keys ulid k ys) (plus_zero n)
  with_keys-append n (x ∷ xs) ys =
      ap (λ r. record x { node_id = ulid n } ∷ r)
        (with_keys-append (suc n) xs ys
          ∙ ap (λ k. with_keys ulid (suc n) xs ++ with_keys ulid k ys) (shift n (length xs)))
    where
      shift : (n k : ℕ) → suc n + k ≡ n + suc k
      shift n k = omega arith

  both_add :
      (m k : M (Unit {0})) (xs ys : List WorkflowNode)
      → Adds m xs
      → Adds k ys
      → Adds (m >> k) (xs ++ ys)
  both_add m k xs ys hm hk table n =
      subst
        (λ (e : List WorkflowNode × ℕ). Leads (Made table n ulid) (m >> k) tt (Made e.0 e.1 ulid))
        (λ i. (tables i, counts i))
        (>>-Leads (hm table n) (hk (table ++ with_keys ulid n xs) (n + length xs)))
    where
      tables :
          (table ++ with_keys ulid n xs) ++ with_keys ulid (n + length xs) ys
          ≡ table ++ with_keys ulid n (xs ++ ys)
      tables =
          append_assoc table (with_keys ulid n xs) (with_keys ulid (n + length xs) ys)
          ∙ ap (λ r. table ++ r) (sym (with_keys-append n xs ys))

      counts : (n + length xs) + length ys ≡ n + length (xs ++ ys)
      counts = let l = length-append xs ys in omega arith

  one_added :
      (spec : MatrixSpec) (item : Option (ℕ × WorkflowValue))
      → Adds
          (create_node_of_spec to_json history wf spec item)
          (node_of_spec to_json history wf spec item ∷ [])
  one_added spec item table n =
      subst
        (λ k. Leads (Made table n ulid) (create_node_of_spec to_json history wf spec item) tt (
          Made
            (table ++ record (node_of_spec to_json history wf spec item) { node_id = ulid n } ∷ [])
            k ulid))
        (next n) (one_node to_json history wf spec item table n ulid)
    where
      next : (n : ℕ) → suc n ≡ n + 1
      next n = omega arith

  items_added :
      (spec : MatrixSpec) (index : ℕ) (items : List WorkflowValue)
      → Adds
          (create_items to_json history wf spec index items)
          (item_nodes to_json history wf spec index items)
  unfolding create_items
  items_added spec index [] = nothing_added
  items_added spec index (item ∷ items) =
      both_add _ _ (node_of_spec to_json history wf spec (some (index, item)) ∷ []) _
        (one_added spec (some (index, item))) (items_added spec (suc index) items)

  spec_added :
      (spec : MatrixSpec) (items : List WorkflowValue)
      → Adds (create_spec to_json history wf spec items) (spec_nodes to_json history wf spec items)
  unfolding create_spec
  spec_added spec [] = one_added spec none
  spec_added spec (item ∷ items) = items_added spec 0 (item ∷ items)

  pub all_added :
      (specs : List MatrixSpec)
      → Adds (create_workflow_nodes to_json history wf specs) (all_nodes to_json history wf specs)
  unfolding create_workflow_nodes
  all_added [] = nothing_added
  all_added (spec ∷ specs) =
      both_add _ _ (spec_nodes to_json history wf spec spec.for_each) _
        (spec_added spec spec.for_each) (all_added specs)
