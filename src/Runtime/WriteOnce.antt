-- ===== src/Runtime/WriteOnce.antt =====
-- A variable of a workflow, once set, keeps its value.
use mathlib.Core.Bool.{false≢true}
use reactorcide.Prelude.{
  trim_space, is_empty, ◌≡◌, refl, ap₂, ◌∙◌, inl, inr, String, List, [], ◌∷◌, ◌++◌, Bool, true,
  false, not, ◌&&◌, Option, none, some, str_eq, str_eq_iff, Bytes, bytes_eq, bytes_eq_iff,
  Bool-cases,
}
use reactorcide.Models.Workflow.{WorkflowVar, WorkflowEvent, WorkflowInstance, WorkflowNode, Reason}
use reactorcide.Models.Job.{Job}
use reactorcide.Store.World.{World, modify, next_fault, attempt}
use reactorcide.Store.Rows.{find, create_workflow_event}
use reactorcide.Store.Triple.{
  Triple, Any, >>=-Triple, >>-Triple, return-Triple, fail-Triple, ignore-Triple, gets-Triple,
  if-Triple, unit_answer,
}
use reactorcide.Runtime.Evaluate.{record_workflow_event}
use reactorcide.Runtime.Vars.{
  is_var, find_var, put_var, upsert_found, upsert_workflow_var, merge_existing, merge_workflow_var,
  add_workflow_vars, OutputFile, no_output, bad_output, output, merge_workflow_output_file,
}

find-append :
    (p : WorkflowVar → Bool) (vars : List WorkflowVar) (new found : WorkflowVar)
    → find p vars ≡ some found
    → find p (vars ++ new ∷ []) ≡ some found
find-append p [] new found h = absurd (cc)
find-append p (v ∷ vars) new found h = elim (Bool-cases (p v)) [
  | inl e ↦ rw e (rw e at h)
  | inr e ↦ rw e (find-append p vars new found (rw e at h))
]

both_true : (a b : Bool) → (a && b) ≡ true → (a ≡ true) × (b ≡ true)
both_true true b h = (refl, h)
both_true false b h = absurd (false≢true h)

-- Two variables of one workflow and key pass the same tests.
same_place :
    (id : String) (key : Bytes) (new v : WorkflowVar)
    → is_var new.workflow_id new.key v ≡ true
    → is_var id key v ≡ is_var id key new
same_place id key new v e =
    let both = both_true (str_eq v.workflow_id new.workflow_id) (bytes_eq v.key new.key) e in
    ap₂ (λ w k. str_eq w id && bytes_eq k key) ((str_eq_iff _ _).0 both.0)
      ((bytes_eq_iff v.key new.key).0 both.1)

module _ (id : String) (key : Bytes) (set : WorkflowVar) where
  -- The variable is set.
  abbrev Kept : World → Type 0
  Kept w = find_var id key w.vars ≡ some set

  find_var-put_var :
      (new : WorkflowVar) (vars : List WorkflowVar)
      → is_var id key new ≡ false
      → find_var id key vars ≡ some set
      → find_var id key (put_var new vars) ≡ some set
  find_var-put_var new [] other h = absurd (cc)
  find_var-put_var new (v ∷ vars) other h = elim (Bool-cases (is_var new.workflow_id new.key v)) [
    | inl e ↦
        let apart : is_var id key v ≡ false = same_place id key new v e ∙ other in
        rw (e, other) (find_var-put_var new vars other (rw apart at h))
    | inr e ↦ elim (Bool-cases (is_var id key v)) [
      | inl mine ↦ rw (e, mine) (rw mine at h)
      | inr apart ↦ rw (e, apart) (find_var-put_var new vars other (rw apart at h))
    ]
  ]

  attempt-at : (faults : List Bool) (w : World) → Kept w → Kept (next_fault faults w).1
  unfolding next_fault
  attempt-at [] w s = s
  attempt-at (true ∷ faults) w s = s
  attempt-at (false ∷ faults) w s = s

  attempt-Kept : Triple Kept Any attempt
  unfolding attempt
  attempt-Kept = record {
    at = λ w s. (attempt-at w.faults w s, unit_answer (next_fault w.faults w).0);
  }

  create_workflow_event-Kept :
      (event : WorkflowEvent) → Triple Kept Any (create_workflow_event event)
  unfolding create_workflow_event modify
  create_workflow_event-Kept event = >>-Triple attempt-Kept (record { at = λ w s. (s, tt) })

  record_workflow_event-Kept :
      (wf : String) (at_node at_job : Option String) (kind : String) (why : Reason)
      → Triple Kept Any (record_workflow_event wf at_node at_job kind why)
  unfolding record_workflow_event
  record_workflow_event-Kept wf at_node at_job kind why =
      if-Triple (str_eq wf "") (λ _. return-Triple tt tt)
        (λ _. ignore-Triple (create_workflow_event-Kept _))

  upsert_found-Kept :
      (new : WorkflowVar) (o : Option WorkflowVar)
      → is_var id key new ≡ false
      → Triple Kept Any (upsert_found new o)
  unfolding upsert_found modify
  upsert_found-Kept new (some old) other =
      >>-Triple attempt-Kept (record { at = λ w s. (find_var-put_var new w.vars other s, tt) })
  upsert_found-Kept new none other =
      >>-Triple attempt-Kept
        (record { at = λ w s. (find-append (is_var id key) w.vars new set s, tt) })

  upsert_workflow_var-Kept :
      (new : WorkflowVar) → is_var id key new ≡ false → Triple Kept Any (upsert_workflow_var new)
  unfolding upsert_workflow_var
  upsert_workflow_var-Kept new other =
      >>-Triple attempt-Kept
        (>>=-Triple {P = Any} (gets-Triple _ (λ w s. tt)) (λ o _. upsert_found-Kept new o other))

  module _ (hash : String → String) (at_node at_job : Option String) where
    -- What was looked up is there, if it is this variable.
    abbrev LookedUp : WorkflowVar → Option WorkflowVar → Type 0
    LookedUp new o = is_var id key new ≡ true → o ≡ some set

    merge_existing-Kept :
        (new : WorkflowVar) (o : Option WorkflowVar)
        → LookedUp new o
        → Triple Kept Any (merge_existing hash at_node at_job new o)
    unfolding merge_existing
    merge_existing-Kept new (some existing) found =
        if-Triple (not (str_eq (hash existing.value) (hash new.value)))
          (λ _. >>-Triple (record_workflow_event-Kept _ _ _ _ _) (fail-Triple _))
          (λ _. record_workflow_event-Kept _ _ _ _ _)
    merge_existing-Kept new none found = elim (Bool-cases (is_var id key new)) [
      | inl e ↦ let f = found e in absurd (cc)
      | inr e ↦ >>-Triple (upsert_workflow_var-Kept new e) (record_workflow_event-Kept _ _ _ _ _)
    ]

    merge_workflow_var-Kept :
        (wf : String) (name : Bytes) (value : String)
        → Triple Kept Any (merge_workflow_var hash at_node at_job wf name value)
    unfolding merge_workflow_var
    merge_workflow_var-Kept wf name value =
        if-Triple (is_empty (trim_space name)) (λ _. return-Triple tt tt)
          λ _. >>-Triple attempt-Kept (
            >>=-Triple {P = LookedUp (var_of wf name value)}
              (gets-Triple _ (λ w s e. looked_up w wf (trim_space name) s e))
              (λ o found. merge_existing-Kept (var_of wf name value) o found))
      where
        var_of : String → Bytes → String → WorkflowVar
        var_of wf name value = record {
          workflow_id = wf;
          key = trim_space name;
          value = value;
          source_node_id = at_node;
          source_job_id = at_job;
        }

        looked_up :
            (w : World) (wf : String) (k : Bytes)
            → Kept w
            → (str_eq wf id && bytes_eq k key) ≡ true
            → find_var wf k w.vars ≡ some set
        looked_up w wf k s e =
            let both = both_true (str_eq wf id) (bytes_eq k key) e in
            ap₂ (λ i n. find_var i n w.vars) ((str_eq_iff wf id).0 both.0)
              ((bytes_eq_iff k key).0 both.1)
            ∙ s

    add_workflow_vars-Kept :
        (wf : String) (vars : List (Bytes × String))
        → Triple Kept Any (add_workflow_vars hash at_node at_job wf vars)
    unfolding add_workflow_vars
    add_workflow_vars-Kept wf [] = return-Triple tt tt
    add_workflow_vars-Kept wf ((name, value) ∷ vars) =
        >>-Triple (merge_workflow_var-Kept wf name value) (add_workflow_vars-Kept wf vars)

  merge_workflow_output_file-Kept :
      (hash : String → String) (wf : WorkflowInstance) (node : WorkflowNode) (job : Job)
      (file : OutputFile)
      → Triple Kept Any (merge_workflow_output_file hash wf node job file)
  unfolding merge_workflow_output_file
  merge_workflow_output_file-Kept hash wf node job no_output = return-Triple tt tt
  merge_workflow_output_file-Kept hash wf node job bad_output = fail-Triple _
  merge_workflow_output_file-Kept hash wf node job (output vars outputs) =
      >>-Triple (add_workflow_vars-Kept hash _ _ wf.workflow_id vars)
        (add_workflow_vars-Kept hash _ _ wf.workflow_id _)

-- Merging what a job leaves as output, whatever it is and whichever operations fail, does not change
-- a variable of any workflow that is set already.
pub merge_workflow_output_file-vars :
    (hash : String → String) (wf : WorkflowInstance) (node : WorkflowNode) (job : Job)
    (file : OutputFile) (id : String) (key : Bytes) (set : WorkflowVar) (w : World)
    → find_var id key w.vars ≡ some set
    → find_var id key (merge_workflow_output_file hash wf node job file w).1.vars ≡ some set
merge_workflow_output_file-vars hash wf node job file id key set w s =
    ((merge_workflow_output_file-Kept id key set hash wf node job file).at w s).0
