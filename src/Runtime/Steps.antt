-- ===== src/Runtime/Steps.antt =====
-- What evaluating a workflow may do to a node, whatever fails on the way.
use reactorcide.Prelude.{
  ◌≡◌, refl, sym, subst, ap, ◌∙◌, ◌≢◌, String, List, [], ◌∷◌, ◌++◌, Bool, true, false, Bool-cases,
  ◌||◌, inl, inr, ◌⊎◌, if◌then◌else◌, str_eq, str_eq_iff, All, All-map,
}
use reactorcide.Models.Status.{Status, submitted, failed, waiting, skipped, status_eq}
use reactorcide.Models.Job.{Job}
use reactorcide.Models.Workflow.{WorkflowNode, WorkflowInstance, Reason}
use reactorcide.Store.World.{Result, ok, err, World, M, ◌>>=◌, continue, next_fault, monad}
use reactorcide.Store.Rows.{put_node, select, list_workflow_nodes, update_workflow_node}
use reactorcide.Runtime.Evaluate.{
  bound, broken, settle_submission, submit_to_corndogs, submit_workflow_node, held, passed_over,
  start_or_skip, is_open, hold_or_go, evaluate_node, evaluate_loop, evaluate_workflow,
}
use reactorcide.Runtime.Keeps.{
  Keeps, >>=-Keeps, >>-Keeps, return-Keeps, ignore-Keeps, gets->>=-Keeps, fresh_id-Keeps,
  get_job_by_id-Keeps, create_job-Keeps, update_job-Keeps, update_workflow_node-Keeps,
  refresh_workflow_status-Keeps, if_not-Keeps, keeps_rules,
}

-- The states in which a round of evaluation leaves a node that was open.
abbrev pub is_settled : Status → Bool
is_settled s =
    status_eq s waiting || status_eq s skipped || status_eq s submitted || status_eq s failed

-- `n` is `o`, but for what evaluation writes, and has been settled.
abbrev pub Decided : WorkflowNode → WorkflowNode → Type 0
Decided o n =
    (n ≡ record o {
      status = n.status;
      job_id = n.job_id;
      decision_reason = n.decision_reason;
      completed_at = n.completed_at;
    })
    × (is_settled n.status ≡ true)

-- A node's row is left alone; or it was open, and has been settled.
abbrev pub NodeStep : WorkflowNode → WorkflowNode → Type 0
NodeStep o n = (n ≡ o) ⊎ ((is_open o.status ≡ true) × Decided o n)

-- The same rows in the same order, each after a step.
abbrev pub RowsStep : List WorkflowNode → List WorkflowNode → Type 0
RowsStep [] [] = Unit
RowsStep (o ∷ old) (n ∷ new) = NodeStep o n × RowsStep old new
RowsStep _ _ = ⊥

-- No two rows have one key.
abbrev pub HasKeys : List WorkflowNode → Type 0
HasKeys [] = Unit
HasKeys (n ∷ nodes) = All (λ m. m.node_id ≢ n.node_id) nodes × HasKeys nodes

-- A computation for `node` that may write `node` decided, and no other row of a node.
module _ {Q : List WorkflowNode → Type 0} (wf : WorkflowInstance) (node : WorkflowNode)
    (write : (n : WorkflowNode)
      → Decided node n
      → (rows : List WorkflowNode) → Q rows
      → Q (put_node n rows)) where
  decide-Keeps : (n : WorkflowNode) → Decided node n → Keeps Q (update_workflow_node n)
  decide-Keeps n d = update_workflow_node-Keeps n (write n d)

  settle_submission-Keeps :
      (id : String) (job : Job) (answer : Result (String × Status))
      → Keeps Q (settle_submission wf (bound node id) job answer)
  unfolding settle_submission
  settle_submission-Keeps id job (ok (task_id, state)) = search keeps_rules
  settle_submission-Keeps id job (err e) = >>-Keeps (ignore-Keeps (update_job-Keeps _)) (
      gets->>=-Keeps _ _ λ w.
        >>-Keeps (ignore-Keeps (decide-Keeps (broken (bound node id) w) (refl, refl)))
          (search keeps_rules))

  submit_to_corndogs-Keeps :
      (id : String) (job : Job) (client : Bool)
      → Keeps Q (submit_to_corndogs wf (bound node id) job client)
  unfolding submit_to_corndogs
  submit_to_corndogs-Keeps id job true = search (keeps_rules, settle_submission-Keeps)
  submit_to_corndogs-Keeps id job false = search keeps_rules

  submit_workflow_node-Keeps : Keeps Q (submit_workflow_node wf node)
  unfolding submit_workflow_node
  submit_workflow_node-Keeps = >>=-Keeps (get_job_by_id-Keeps _) λ parent.
      >>=-Keeps fresh_id-Keeps λ run_id. >>=-Keeps (create_job-Keeps _) λ job.
        >>-Keeps (decide-Keeps (bound node job.job_id) (refl, refl))
          (search (keeps_rules, submit_to_corndogs-Keeps))

  start_or_skip-Keeps : (c : Bool × Reason) → Keeps Q (start_or_skip wf node c)
  unfolding start_or_skip
  start_or_skip-Keeps (true, _) = >>=-Keeps submit_workflow_node-Keeps (λ r. return-Keeps _)
  start_or_skip-Keeps (false, reason) =
      gets->>=-Keeps _ _
        λ w. >>-Keeps (decide-Keeps (passed_over node reason w) (refl, refl)) (search keeps_rules)

  hold_or_go-Keeps : (r c : Bool × Reason) → Keeps Q (hold_or_go wf node r c)
  unfolding hold_or_go
  hold_or_go-Keeps (true, _) c = start_or_skip-Keeps c
  hold_or_go-Keeps (false, reason) c =
      >>-Keeps (ignore-Keeps (decide-Keeps (held node reason) (refl, refl))) (search keeps_rules)

-- `n` is the only row with its key.
abbrev IsOnly : List WorkflowNode → WorkflowNode → Type 0
IsOnly rows n = All (λ m. m.node_id ≡ n.node_id → m ≡ n) rows

abbrev MayWrite : List WorkflowNode → WorkflowNode → Type 0
MayWrite old n = All (λ o. o.node_id ≡ n.node_id → NodeStep o n) old

NodeStep-node_id : (o n : WorkflowNode) → NodeStep o n → n.node_id ≡ o.node_id
NodeStep-node_id o n (inl e) = ap (λ (m : WorkflowNode). m.node_id) e
NodeStep-node_id o n (inr (_, (e, _))) = ap (λ (m : WorkflowNode). m.node_id) e

put_node-RowsStep :
    (n : WorkflowNode) (old rows : List WorkflowNode)
    → MayWrite old n
    → RowsStep old rows
    → RowsStep old (put_node n rows)
put_node-RowsStep n [] [] h s = tt
put_node-RowsStep n [] (r ∷ rows) h s = s
put_node-RowsStep n (o ∷ old) [] h s = s
put_node-RowsStep n (o ∷ old) (r ∷ rows) h s = (
  elim (Bool-cases (str_eq r.node_id n.node_id)) [
    | inl e ↦
        subst (λ b. NodeStep o (if b then n else r)) (sym e)
          (h.0 (sym (NodeStep-node_id o r s.0) ∙ (str_eq_iff _ _).0 e))
    | inr e ↦ subst (λ b. NodeStep o (if b then n else r)) (sym e) s.0
  ],
  put_node-RowsStep n old rows h.1 s.1,
)

RowsStep-refl : (rows : List WorkflowNode) → RowsStep rows rows
RowsStep-refl [] = tt
RowsStep-refl (r ∷ rows) = (inl refl, RowsStep-refl rows)

-- To write an open row, decided, is a step of the row of that key, which is the only one.
Decided-MayWrite :
    (old : List WorkflowNode) (node n : WorkflowNode)
    → IsOnly old node
    → is_open node.status ≡ true
    → Decided node n
    → MayWrite old n
Decided-MayWrite old node n only h d =
    All-map old (λ m same e. inr (step m (same (e ∙ ap (λ (k : WorkflowNode). k.node_id) d.0))))
      only
  where
    step : (m : WorkflowNode) → m ≡ node → (is_open m.status ≡ true) × Decided m n
    step m e = subst (λ k. (is_open k.status ≡ true) × Decided k n) (sym e) (h, d)

evaluate_node-Keeps :
    (old : List WorkflowNode) (wf : WorkflowInstance) (nodes : List WorkflowNode)
    (node : WorkflowNode)
    → IsOnly old node
    → Keeps (RowsStep old) (evaluate_node wf nodes node)
unfolding evaluate_node
evaluate_node-Keeps old wf nodes node only =
    if_not-Keeps (is_open node.status) (λ _. return-Keeps ([], node))
      λ e.
        hold_or_go-Keeps wf node
          (λ n d rows. put_node-RowsStep n old rows (Decided-MayWrite old node n only e d)) _ _

evaluate_loop-Keeps :
    (old : List WorkflowNode) (wf : WorkflowInstance) (done todo : List WorkflowNode)
    → All (IsOnly old) todo
    → Keeps (RowsStep old) (evaluate_loop wf done todo)
unfolding evaluate_loop
evaluate_loop-Keeps old wf done [] h = return-Keeps _
evaluate_loop-Keeps old wf done (node ∷ todo) h =
    >>=-Keeps (evaluate_node-Keeps old wf (done ++ node ∷ todo) node h.0)
      λ r. >>=-Keeps (evaluate_loop-Keeps old wf (done ++ r.1 ∷ []) todo h.1) (λ q. return-Keeps _)

All-zip :
    (P Q : WorkflowNode → Type 0) (nodes : List WorkflowNode)
    → All P nodes
    → All Q nodes
    → All (λ n. P n × Q n) nodes
All-zip P Q [] p q = tt
All-zip P Q (n ∷ nodes) p q = ((p.0, q.0), All-zip P Q nodes p.1 q.1)

HasKeys→IsOnly : (nodes : List WorkflowNode) → HasKeys nodes → All (IsOnly nodes) nodes
HasKeys→IsOnly [] h = tt
HasKeys→IsOnly (n ∷ nodes) h = (
  (λ _. refl, All-map nodes (λ m ne e. absurd (ne e)) h.0),
  All-map nodes (λ k b. (λ e. absurd (b.0 (sym e)), b.1))
      (All-zip _ _ nodes h.0 (HasKeys→IsOnly nodes h.1)),
)

select-All :
    (P : WorkflowNode → Type 0) (p : WorkflowNode → Bool) (nodes : List WorkflowNode)
    → All P nodes
    → All P (select p nodes)
select-All P p [] h = tt
select-All P p (n ∷ nodes) h = elim (Bool-cases (p n)) [
  | inl e ↦
      subst (λ b. All P (if b then n ∷ select p nodes else select p nodes)) (sym e)
        (h.0, select-All P p nodes h.1)
  | inr e ↦
      subst (λ b. All P (if b then n ∷ select p nodes else select p nodes)) (sym e)
        (select-All P p nodes h.1)
]

-- The nodes that are listed are those of the state.
list_workflow_nodes-at :
    {Q : List WorkflowNode → Type 0} {B : Type 0} (id : String) (k : List WorkflowNode → M B)
    (w : World)
    → Keeps Q (k (select (λ n. str_eq n.workflow_id id) w.nodes))
    → Q w.nodes
    → Q ((list_workflow_nodes id >>= k) w).1.nodes
unfolding list_workflow_nodes monad
list_workflow_nodes-at {Q} id k w h q = by_fault w.faults
  where
    by_fault :
        (faults : List Bool)
        → Q
            (continue k (
              continue
                (λ _ v. (ok (select (λ n. str_eq n.workflow_id id) v.nodes), v))
                (next_fault faults w))).1.nodes
    by_fault [] = h.at w q
    by_fault (true ∷ faults) = q
    by_fault (false ∷ faults) = h.at (record w { faults = faults }) q

-- Evaluating a workflow, whichever of its database operations and submissions fail: rows of nodes
-- are neither added, removed nor reordered; a row whose status is not pending or waiting is left as
-- it is; and of any other row only status, job, reason and completion time are written, the status
-- being then waiting, skipped, submitted or failed.
pub evaluate_workflow-RowsStep :
    (wf : WorkflowInstance) (w : World)
    → HasKeys w.nodes
    → RowsStep w.nodes (evaluate_workflow wf w).1.nodes
unfolding evaluate_workflow
evaluate_workflow-RowsStep wf w h =
    list_workflow_nodes-at wf.workflow_id _ w
      (>>=-Keeps
        (evaluate_loop-Keeps w.nodes wf []
          (select (λ n. str_eq n.workflow_id wf.workflow_id) w.nodes)
          (select-All _ _ w.nodes (HasKeys→IsOnly w.nodes h)))
        (λ _. >>=-Keeps (refresh_workflow_status-Keeps wf) (λ _. return-Keeps _)))
      (RowsStep-refl w.nodes)
