-- ===== src/Scheduler/Routes.antt =====
-- Which queue the routing rules choose.
use mathlib.Core.List.{Memᴰ}
use reactorcide.Prelude.{
  ℕ, zero, suc, ◌-◌, length, ltb_ℤ, ◌≡◌, refl, sym, ◌⊎◌, inl, inr, String, List, [], ◌∷◌, ◌++◌,
  Bool, true, false, Bool-cases, Option, some, if◌then◌else◌, lookup, Bytes, codes, All, All-map,
  arith, subst,
}
use reactorcide.Scheduler.Types.{Value, text, RoutingRule}
use reactorcide.Scheduler.Rules.{evaluate_rule, contains_operator}
use reactorcide.Scheduler.State.{
  PriorityScheduler, add_routing_rule, sort_routing_rules, inner, outer, earlier, later,
}
use reactorcide.Scheduler.Defaults.{
  production_deployments, rollbacks, staging_deployments, main_branch_builds, feature_branch_builds,
  scheduled_jobs, new_priority_scheduler,
}
use reactorcide.Scheduler.Submit.{first_match, determine_target_queue}
use reactorcide.Scheduler.Sorted.{Precedes, IsSorted, sort_routing_rules-IsSorted}
use reactorcide.Scheduler.Contains.{Occurs, contains_operator_iff}

Memᴰ-tail :
    (x : RoutingRule) {xs ys : List RoutingRule} (r : RoutingRule)
    → (Memᴰ r xs → Memᴰ r ys)
    → Memᴰ r (x ∷ xs)
    → Memᴰ r (x ∷ ys)
Memᴰ-tail x r f (Memᴰ.head e) = Memᴰ.head e
Memᴰ-tail x r f (Memᴰ.tail m) = Memᴰ.tail (f m)

Memᴰ-swap :
    (x y : RoutingRule) (rules : List RoutingRule) (r : RoutingRule)
    → Memᴰ r (y ∷ x ∷ rules)
    → Memᴰ r (x ∷ y ∷ rules)
Memᴰ-swap x y rules r (Memᴰ.head e) = Memᴰ.tail (Memᴰ.head e)
Memᴰ-swap x y rules r (Memᴰ.tail (Memᴰ.head e)) = Memᴰ.head e
Memᴰ-swap x y rules r (Memᴰ.tail (Memᴰ.tail m)) = Memᴰ.tail (Memᴰ.tail m)

-- A round of the sort, and the sort, have the same rules.
Memᴰ-inner :
    (n : ℕ) (rules : List RoutingRule) (r : RoutingRule) → Memᴰ r (inner n rules) → Memᴰ r rules
unfolding inner earlier later
Memᴰ-inner zero rules r m = m
Memᴰ-inner (suc n) [] r m = m
Memᴰ-inner (suc n) (x ∷ []) r m = m
Memᴰ-inner (suc n) (x ∷ y ∷ rules) r m = elim (Bool-cases (ltb_ℤ x.priority y.priority)) [
  | inl e ↦ Memᴰ-swap x y rules r (Memᴰ-tail y r (Memᴰ-inner n (x ∷ rules) r) (rw e at m))
  | inr e ↦ Memᴰ-tail x r (Memᴰ-inner n (y ∷ rules) r) (rw e at m)
]

All-inner :
    (P : RoutingRule → Type 0) (n : ℕ) (rules : List RoutingRule)
    → All P (inner n rules)
    → All P rules
unfolding inner earlier later
All-inner P zero rules a = a
All-inner P (suc n) [] a = a
All-inner P (suc n) (x ∷ []) a = a
All-inner P (suc n) (x ∷ y ∷ rules) a = elim (Bool-cases (ltb_ℤ x.priority y.priority)) [
  | inl e ↦
      let b : P y × All P (inner n (x ∷ rules)) = rw e at a in
      let rest = All-inner P n (x ∷ rules) b.1 in (rest.0, (b.0, rest.1))
  | inr e ↦
      let b : P x × All P (inner n (y ∷ rules)) = rw e at a in (b.0, All-inner P n (y ∷ rules) b.1)
]

Memᴰ-outer :
    (n : ℕ) (rules : List RoutingRule) (r : RoutingRule) → Memᴰ r (outer n rules) → Memᴰ r rules
unfolding outer
Memᴰ-outer zero rules r m = m
Memᴰ-outer (suc n) rules r m = Memᴰ-inner (suc n) rules r (Memᴰ-outer n (inner (suc n) rules) r m)

All-outer :
    (P : RoutingRule → Type 0) (n : ℕ) (rules : List RoutingRule)
    → All P (outer n rules)
    → All P rules
unfolding outer
All-outer P zero rules a = a
All-outer P (suc n) rules a = All-inner P (suc n) rules (All-outer P n (inner (suc n) rules) a)

-- The rule that was put last.
Memᴰ-last :
    (rule : RoutingRule) (rules : List RoutingRule) (r : RoutingRule)
    → Memᴰ r (rules ++ rule ∷ [])
    → Memᴰ r (rule ∷ rules)
Memᴰ-last rule [] r m = m
Memᴰ-last rule (x ∷ rules) r m = Memᴰ-swap rule x rules r (Memᴰ-tail x r (Memᴰ-last rule rules r) m)

All-last :
    (P : RoutingRule → Type 0) (rule : RoutingRule) (rules : List RoutingRule)
    → All P (rules ++ rule ∷ [])
    → All P (rule ∷ rules)
All-last P rule [] a = a
All-last P rule (x ∷ rules) a = let b = All-last P rule rules a.1 in (b.0, (a.0, b.1))

module _ (match_string : Bytes → Bytes → Option Bool) where
  -- `queue` is the target of a matching rule that no matching rule has more priority than; or no
  -- rule matches, and it is the default.
  abbrev pub Routed : List RoutingRule → List (String × Value) → String → Type 0
  Routed rules metadata queue =
      ((rule : RoutingRule) × Memᴰ rule rules
        × (evaluate_rule match_string rule metadata ≡ true)
        × (rule.target_queue ≡ queue)
        × All (λ r. evaluate_rule match_string r metadata ≡ true → Precedes rule r) rules)
      ⊎ (All (λ r. evaluate_rule match_string r metadata ≡ false) rules × (queue ≡ "normal"))

  Routed-cons :
      (x : RoutingRule) (rules : List RoutingRule) (metadata : List (String × Value))
      (queue : String)
      → evaluate_rule match_string x metadata ≡ false
      → Routed rules metadata queue
      → Routed (x ∷ rules) metadata queue
  Routed-cons x rules metadata queue e (inl (rule, m, h, t, best)) =
      inl (rule, Memᴰ.tail m, h, t, (λ p. absurd (cc), best))
  Routed-cons x rules metadata queue e (inr (h, t)) = inr ((e, h), t)

  abbrev Choice : RoutingRule → List RoutingRule → List (String × Value) → Bool → Type 0
  Choice x rules metadata b =
      Routed (x ∷ rules) metadata
        (if b then x.target_queue else first_match match_string rules metadata)

  first_match-Routed :
      (rules : List RoutingRule) (metadata : List (String × Value))
      → IsSorted rules
      → Routed rules metadata (first_match match_string rules metadata)
  unfolding first_match
  first_match-Routed [] metadata s = inr (tt, refl)
  first_match-Routed (x ∷ rules) metadata s =
      elim (Bool-cases (evaluate_rule match_string x metadata)) [
        | inl e ↦
            subst (Choice x rules metadata) (sym e)
              (inl (x, Memᴰ.head refl, e, refl, (λ _. omega arith, All-map rules (λ r h _. h) s.0)))
        | inr e ↦
            subst (Choice x rules metadata) (sym e)
              (Routed-cons x rules metadata _ e (first_match-Routed rules metadata s.1))
      ]

  -- What is routed by the sorted rules is routed by the rules.
  Routed-sorted :
      (rule : RoutingRule) (rules : List RoutingRule) (metadata : List (String × Value))
      (queue : String)
      → Routed (sort_routing_rules (rules ++ rule ∷ [])) metadata queue
      → Routed (rule ∷ rules) metadata queue
  unfolding sort_routing_rules
  Routed-sorted rule rules metadata queue (inl (r, m, h, t, best)) = inl (
    r,
    Memᴰ-last rule rules r (Memᴰ-outer (length (rules ++ rule ∷ []) - 1) (rules ++ rule ∷ []) r m),
    h,
    t,
    All-last _ rule rules (All-outer _ (length (rules ++ rule ∷ []) - 1) (rules ++ rule ∷ []) best),
  )
  Routed-sorted rule rules metadata queue (inr (h, t)) = inr (
    All-last _ rule rules (All-outer _ (length (rules ++ rule ∷ []) - 1) (rules ++ rule ∷ []) h),
    t,
  )

  -- Whatever rules a scheduler had: after a rule is added to it, a job goes to the queue of the one with
  -- the greatest priority of those that match, among the old rules and the new one, and to `normal` if none
  -- of them matches.
  pub determine_target_queue-add_routing_rule :
      (s : PriorityScheduler) (rule : RoutingRule) (metadata : List (String × Value))
      → Routed
          (rule ∷ s.routing_rules)
          metadata
          (determine_target_queue match_string (add_routing_rule s rule) metadata)
  unfolding determine_target_queue add_routing_rule
  determine_target_queue-add_routing_rule s rule metadata =
      Routed-sorted rule s.routing_rules metadata _
        (first_match-Routed _ metadata (sort_routing_rules-IsSorted (s.routing_rules ++ rule ∷ [])))

  rollback_rule :
      (metadata : List (String × Value)) (job_type : Bytes)
      → lookup "job_type" metadata ≡ some (text job_type)
      → Occurs (codes "rollback") job_type
      → evaluate_rule match_string rollbacks metadata ≡ true
  unfolding evaluate_rule
  rollback_rule metadata job_type e h =
      let found : contains_operator job_type (codes "rollback") ≡ true =
        (contains_operator_iff job_type (codes "rollback")).1 (λ p. cc, h) in
      rw (e, found)

  first_match-head :
      (rule : RoutingRule) (rules : List RoutingRule) (metadata : List (String × Value))
      → evaluate_rule match_string rule metadata ≡ true
      → first_match match_string (rule ∷ rules) metadata ≡ rule.target_queue
  unfolding first_match
  first_match-head rule rules metadata e = rw e

  -- With the default rules a job whose type has the word `rollback` in it goes to the critical
  -- queue, whatever else its metadata says.
  pub rollback_is_critical :
      (metadata : List (String × Value)) (job_type : Bytes)
      → lookup "job_type" metadata ≡ some (text job_type)
      → Occurs (codes "rollback") job_type
      → determine_target_queue match_string new_priority_scheduler metadata ≡ "critical"
  unfolding determine_target_queue new_priority_scheduler
  rollback_is_critical metadata job_type e h =
      first_match-head rollbacks
        (production_deployments ∷ staging_deployments ∷ main_branch_builds ∷ feature_branch_builds
          ∷ scheduled_jobs ∷ [])
        metadata (rollback_rule metadata job_type e h)
