-- ===== src/Runtime/Status.antt =====
-- What status a workflow has, from the statuses of its nodes.
use reactorcide.Prelude.{
  ◌≡◌, refl, ap, ◌∙◌, List, [], ◌∷◌, Bool, true, false, not, ◌||◌, ◌&&◌, if◌then◌else◌,
}
use reactorcide.Models.Status.{
  Status, running, failed, cancelled, timeout, skipped, success, status_eq,
  is_workflow_node_terminal,
}
use reactorcide.Models.Workflow.{WorkflowNode}
use reactorcide.Runtime.Decide.{final_status, status_loop, compute_workflow_status}

-- Some node passes the test, all nodes pass it.
unfoldable pub any_node : (Status → Bool) → List WorkflowNode → Bool
any_node p [] = false
any_node p (node ∷ nodes) = p node.status || any_node p nodes

unfoldable pub all_nodes : (Status → Bool) → List WorkflowNode → Bool
all_nodes p [] = true
all_nodes p (node ∷ nodes) = p node.status && all_nodes p nodes

abbrev pub broke : Status → Bool
broke s = status_eq s failed || status_eq s timeout

abbrev pub was_cancelled : Status → Bool
was_cancelled s = status_eq s cancelled

abbrev pub was_skipped : Status → Bool
was_skipped s = status_eq s skipped

-- The rule in words: a failure or timeout counts at once; else a node that is not finished; else a
-- cancellation; else that something ran.
unfoldable pub status_rule : List WorkflowNode → Status
unfolding any_node all_nodes
status_rule nodes =
    if any_node broke nodes
    then failed
    else if not (all_nodes is_workflow_node_terminal nodes)
    then running
    else if any_node was_cancelled nodes
    then cancelled
    else if all_nodes was_skipped nodes
    then skipped
    else success

and_true : (b : Bool) → b ≡ (b && true)
and_true true = refl
and_true false = refl

or_false : (b : Bool) → b ≡ (b || false)
or_false true = refl
or_false false = refl

keep_and : (s sk ss : Bool) → ((if not s then false else sk) && ss) ≡ (sk && (s && ss))
keep_and true true ss = refl
keep_and true false ss = refl
keep_and false true ss = refl
keep_and false false ss = refl

keep_or : (c ca cs : Bool) → ((if c then true else ca) || cs) ≡ (ca || (c || cs))
keep_or true true cs = refl
keep_or true false cs = refl
keep_or false true cs = refl
keep_or false false cs = refl

ap₃ :
    {A B C D : Type 0} (f : A → B → C → D) {a a' : A} {b b' : B} {c c' : C}
    → a ≡ a'
    → b ≡ b'
    → c ≡ c'
    → f a b c ≡ f a' b' c'
ap₃ f p q r = λ i. f (p i) (q i) (r i)

-- One round of the loop, over what it asks of the node.
round_lem :
    (b s t c sk te ca bs ss ts cs : Bool)
    → (if b
        then failed
        else if bs
        then failed
        else final_status
            ((if not s then false else sk) && ss)
            ((if not t then false else te) && ts)
            ((if c then true else ca) || cs))
      ≡ (if b || bs
          then failed
          else final_status (sk && (s && ss)) (te && (t && ts)) (ca || (c || cs)))
round_lem true s t c sk te ca bs ss ts cs = refl
round_lem false s t c sk te ca true ss ts cs = refl
round_lem false s t c sk te ca false ss ts cs =
    ap₃ final_status (keep_and s sk ss) (keep_and t te ts) (keep_or c ca cs)

status_loop_lem :
    (nodes : List WorkflowNode) (sk te ca : Bool)
    → status_loop nodes sk te ca ≡ (
        if any_node broke nodes
        then failed
        else final_status
            (sk && all_nodes was_skipped nodes)
            (te && all_nodes is_workflow_node_terminal nodes)
            (ca || any_node was_cancelled nodes))
unfolding status_loop any_node all_nodes
status_loop_lem [] sk te ca = ap₃ final_status (and_true sk) (and_true te) (or_false ca)
status_loop_lem (node ∷ nodes) sk te ca =
    let s = node.status in
    ap (λ r. if broke s then failed else r)
      (status_loop_lem nodes (if not (was_skipped s) then false else sk)
        (if not (is_workflow_node_terminal s) then false else te)
        (if was_cancelled s then true else ca))
    ∙ round_lem (broke s) (was_skipped s) (is_workflow_node_terminal s) (was_cancelled s) sk te ca
        (any_node broke nodes) (all_nodes was_skipped nodes)
        (all_nodes is_workflow_node_terminal nodes) (any_node was_cancelled nodes)

-- A workflow is failed if some of its nodes failed or timed out; else running if some node is not
-- terminal; else cancelled if some node was cancelled; else skipped if all nodes were skipped, as they
-- are where there are none; else a success.
pub compute_workflow_status-eq-status_rule :
    (nodes : List WorkflowNode) → compute_workflow_status nodes ≡ status_rule nodes
unfolding compute_workflow_status status_rule final_status
compute_workflow_status-eq-status_rule [] = refl
compute_workflow_status-eq-status_rule (node ∷ nodes) =
    status_loop_lem (node ∷ nodes) true true false
