-- ===== src/Dynamic/Claims/Ended.antt =====
-- The gate ends with an answer for every task of a resource, and stands open without a section.
use hermes_n8n_control_plane.Prelude.{
  String, ◌≡◌, refl, sym, subst, Bool, true, false, Option, none, some, List, [], ◌∷◌, ◌==◌,
  text_comparable, keep, strip, All, All-keep, Bool-cases, inl, inr,
}
use hermes_n8n_control_plane.Json.{Value, Fields}
use hermes_n8n_control_plane.Resource.{
  Attempt, done, raised, ◌>>=◌, Ensures, done-Ensures, bind-Ensures, bind-done, done_injective,
}
use hermes_n8n_control_plane.Resource.Config.{Reader, WorkerResource, Pool, sole}
use hermes_n8n_control_plane.Resource.Config.Reading.{IsShort, IsUsable, resource_policies-IsUsable}
use hermes_n8n_control_plane.Resource.Workers.Ending.{Ticks, Ends, quiesce_superseded_worker-Ends}
use hermes_n8n_control_plane.Dynamic.Backends.{Net}
use hermes_n8n_control_plane.Dynamic.Policies.{
  DynamicResource, with_selectors, dynamic_policies, dynamic_name, dynamic_matches,
  dynamic_for_assignee, dynamic_pool,
}
use hermes_n8n_control_plane.Dynamic.Claims.{
  Gate, Ledger, Claimed, resource_for_task, after_quiesce, with_history, continued, locked_claim,
  refused_on_error, claim_under, guarded_claim, or_blank, row_assignee,
}

abbrev PolicyUsable : DynamicResource → Type 0
PolicyUsable r = IsUsable r.policy

AllUsable : List DynamicResource → Type 0
AllUsable rs = All PolicyUsable rs

module _ (net : Net) (rd : Reader) where
  with_selectors-AllUsable :
      (raw : Fields) (ps : List WorkerResource)
      → All IsUsable ps
      → Ensures AllUsable (with_selectors net rd raw ps)
  unfolding with_selectors AllUsable
  with_selectors-AllUsable raw [] u = done-Ensures AllUsable tt
  with_selectors-AllUsable raw (p ∷ ps) u =
      bind-Ensures (λ s. Unit {0}) AllUsable (record { of_value = λ s e. tt })
        (λ s _.
          bind-Ensures AllUsable AllUsable (with_selectors-AllUsable raw ps u.1)
            (λ rest us. done-Ensures AllUsable (u.0, us)))

  sole-PolicyUsable :
      (name : String) (rs : List DynamicResource) (r : DynamicResource)
      → sole dynamic_name rd name rs ≡ done (some r)
      → All PolicyUsable rs
      → PolicyUsable r
  unfolding sole
  sole-PolicyUsable name [] r h us = let wrong : none ≡ some r = done_injective h in cc
  sole-PolicyUsable name (q ∷ []) r h us = subst PolicyUsable (some_lem (done_injective h)) us.0
    where
      some_lem : some q ≡ some r → q ≡ r
      some_lem e = cc
  sole-PolicyUsable name (q ∷ s ∷ rs) r h us = cc

  chosen_chain :
      (cfg : Fields) (a : String) (r : DynamicResource)
      → dynamic_for_assignee net rd cfg a ≡ done (some r)
      → (dynamic_policies net rd cfg >>= λ rs.
          sole dynamic_name rd (strip a) (keep (λ q. dynamic_matches net q (strip a)) rs))
        ≡ done (some r)
  unfolding dynamic_for_assignee
  chosen_chain cfg a r h = elim (Bool-cases (strip a == "")) [
    | inl blank ↦
        let none_given : done none ≡ done (some r) = rw (blank, dynamic_for_assignee) at h in
        let wrong : none ≡ some r = done_injective none_given in cc
    | inr named ↦ rw (named, dynamic_for_assignee) at h
  ]

  dynamic_for_assignee-PolicyUsable :
      (cfg : Fields) (a : String) (r : DynamicResource)
      → dynamic_for_assignee net rd cfg a ≡ done (some r)
      → PolicyUsable r
  unfolding dynamic_policies AllUsable
  dynamic_for_assignee-PolicyUsable cfg a r h =
      let (rs, read, chosen) = bind-done (chosen_chain cfg a r h) in
      let (parsed, p, selected) = bind-done read in
      sole-PolicyUsable (strip a) _ r chosen (
        All-keep PolicyUsable (λ q. dynamic_matches net q (strip a)) rs
          ((with_selectors-AllUsable _ parsed (resource_policies-IsUsable rd cfg parsed p)).of_value
            rs selected))

-- The call ends, and raises nothing.
abbrev pub Answers : Option Claimed → Type 0
Answers o = (answer : Option Value) × (ledger : Ledger) × (o ≡ some (done answer, ledger))

module _ (gate : Gate) (task_id : String) where
  locked_claim-Ends :
      (pool : Pool) (lock : Attempt Bool) (ledger : Ledger)
      → Ticks gate.world
      → IsShort pool.grace
      → Ends (locked_claim 602 gate task_id pool lock ledger)
  unfolding locked_claim
  locked_claim-Ends pool (raised f) ledger t s = (_, refl)
  locked_claim-Ends pool (done false) ledger t s = (_, refl)
  locked_claim-Ends pool (done true) ledger t s =
      let ((reap, h), e) =
        quiesce_superseded_worker-Ends gate.world gate.conn task_id pool.grace ledger.history t s in
      subst (λ o. Ends (continued gate task_id pool ledger o)) (sym e)
        (after_quiesce gate task_id pool reap (with_history h ledger), refl)

  refused_on_error-Answers :
      (pool : Pool) (o : Option Claimed) → Ends o → Answers (refused_on_error gate task_id pool o)
  refused_on_error-Answers pool none e = let no : none ≡ some e.0 = e.1 in cc
  refused_on_error-Answers pool (some (done answer, ledger)) e = (answer, ledger, refl)
  refused_on_error-Answers pool (some (raised f, ledger)) e = (_, _, refl)

  claim_under-Answers :
      (r : DynamicResource) (ledger : Ledger)
      → Ticks gate.world
      → IsShort r.policy.grace
      → Answers (claim_under 602 gate task_id (done (some r)) ledger)
  unfolding claim_under
  claim_under-Answers r ledger t s =
      refused_on_error-Answers (dynamic_pool gate.net r) _
        (locked_claim-Ends (dynamic_pool gate.net r) (gate.resource_lock r.policy.name) ledger t s)

  -- For a task that has a resource, the gate ends with a claim or with none and raises nothing: its
  -- waits take at most 601 rounds each, when the clock runs on and the sleeps take their time.
  pub guarded_claim-Answers :
      (r : DynamicResource) (ledger : Ledger)
      → Ticks gate.world
      → resource_for_task gate task_id ≡ done (some r)
      → Answers (guarded_claim 602 gate task_id ledger)
  unfolding guarded_claim resource_for_task
  guarded_claim-Answers r ledger t chosen =
      let (cfg, _, found) = bind-done chosen in
      subst (λ o. Answers (claim_under 602 gate task_id o ledger)) (sym chosen)
        (claim_under-Answers r ledger t (
          (dynamic_for_assignee-PolicyUsable gate.net gate.reader cfg
            (or_blank (row_assignee gate.reader cfg gate.conn task_id)) r found).waits))
