-- ===== src/Resource/Dispatch/Ending.antt =====
-- The guarded dispatcher ends, lets no admission error out, and is the original dispatcher where no
-- resource is configured.
use hermes_n8n_control_plane.Prelude.{
  ℕ, String, ◌≡◌, refl, sym, ap, subst, Bool, true, false, Option, none, some, List, [], ◌∷◌, ◌==◌,
  text_comparable, strip, Bool-cases, inl, inr,
}
use hermes_n8n_control_plane.Json.{Fields, null, get}
use hermes_n8n_control_plane.Resource.{Attempt, done, raised, admission, os, other}
use hermes_n8n_control_plane.Resource.Config.{
  WorkerResource, resource_for_assignee, resource_policies, read_section, sole,
}
use hermes_n8n_control_plane.Resource.Config.Reading.{IsShort}
use hermes_n8n_control_plane.Resource.Config.Sole.{
  blank_choice, named_choice, resource_for_assignee-IsUsable,
}
use hermes_n8n_control_plane.Resource.Workers.Ending.{Ticks, Ends, quiesce_superseded_worker-Ends}
use hermes_n8n_control_plane.Resource.Dispatch.{
  config_of, assignee_of, under_resource, for_candidates, guarded_dispatch,
}
use hermes_n8n_control_plane.Resource.Dispatch.Admitting.{under_its_resource}
use hermes_n8n_control_plane.Resource.Dispatch.Body.{
  Call, Candidate, Edge, Desk, Answered, delegate, resumed, under_lock, locked_body, guard, guarded,
  entry, resource_lock, proceed, at,
}

module _ (edge : Edge) (call : Call) (ticks : Ticks edge.world) where
  under_lock-Ends :
      (r : WorkerResource) (task_id : String) (dry : Bool) (desk : Desk)
      → IsShort r.grace
      → Ends (under_lock 602 edge call r task_id dry desk)
  unfolding under_lock
  under_lock-Ends r task_id true desk s = (_, refl)
  under_lock-Ends r task_id false desk s =
      let ((reap, h), e) =
        quiesce_superseded_worker-Ends edge.world edge.conn task_id r.grace desk.history ticks s in
      subst (λ o. Ends (resumed edge call r task_id desk o)) (sym e)
        (proceed edge call r task_id reap (at h desk), refl)

  locked_body-Ends :
      (r : WorkerResource) (task_id : String) (lock : Attempt Bool) (desk : Desk)
      → IsShort r.grace
      → Ends (locked_body 602 edge call r task_id lock desk)
  unfolding locked_body
  locked_body-Ends r task_id (raised f) desk s = (_, refl)
  locked_body-Ends r task_id (done false) desk s = (_, refl)
  locked_body-Ends r task_id (done true) desk s = under_lock-Ends r task_id call.dry_run desk s

  guarded-Ends :
      (r : WorkerResource) (task_id : String) (o : Option Answered)
      → Ends o
      → Ends (guarded edge r task_id o)
  guarded-Ends r task_id none e = let no : none ≡ some e.0 = e.1 in cc
  guarded-Ends r task_id (some answered) e = (guard edge r task_id answered, refl)

  under_resource-Ends :
      (task_id : String) (o : Attempt (Option WorkerResource)) (desk : Desk)
      → ((r : WorkerResource) → o ≡ done (some r) → IsShort r.grace)
      → Ends (under_resource 602 edge call task_id o desk)
  unfolding under_resource
  under_resource-Ends task_id (raised (admission text)) desk s = (_, refl)
  under_resource-Ends task_id (raised (os text)) desk s = (_, refl)
  under_resource-Ends task_id (raised (other text)) desk s = (_, refl)
  under_resource-Ends task_id (done none) desk s = (_, refl)
  under_resource-Ends task_id (done (some r)) desk s =
      guarded-Ends r task_id _
        (locked_body-Ends r task_id (resource_lock edge r.name) desk (s r refl))

  for_candidates-Ends :
      (found : Attempt (List Candidate)) (desk : Desk)
      → Ends (for_candidates 602 edge call found desk)
  unfolding for_candidates
  for_candidates-Ends (raised f) desk = (_, refl)
  for_candidates-Ends (done []) desk = (_, refl)
  for_candidates-Ends (done (c ∷ cs)) desk = under_resource-Ends c.id _ desk (λ r e.
      (resource_for_assignee-IsUsable edge.reader (config_of edge call)
        (assignee_of edge.reader (config_of edge call) c) r e).waits)

  -- The guarded dispatcher ends whatever is configured and pending: its waits for an earlier worker
  -- take at most 601 rounds each, when the clock runs on and the sleeps take their time.
  pub guarded_dispatch-Ends : (desk : Desk) → Ends (guarded_dispatch 602 edge call desk)
  unfolding guarded_dispatch
  guarded_dispatch-Ends desk =
      for_candidates-Ends (edge.pending_rework_tasks call.task_ids call.normalized_task_ids) desk

-- No error that the handler names leaves the call.
abbrev pub IsHandled : Option Answered → Type 0
IsHandled none = Unit
IsHandled (some (done values, desk)) = Unit
IsHandled (some (raised (admission text), desk)) = ⊥
IsHandled (some (raised (os text), desk)) = ⊥
IsHandled (some (raised (other text), desk)) = Unit

guarded-IsHandled :
    (edge : Edge) (r : WorkerResource) (task_id : String) (o : Option Answered)
    → IsHandled (guarded edge r task_id o)
unfolding guard entry
guarded-IsHandled edge r task_id none = tt
guarded-IsHandled edge r task_id (some (done values, desk)) = tt
guarded-IsHandled edge r task_id (some (raised (admission text), desk)) = tt
guarded-IsHandled edge r task_id (some (raised (os text), desk)) = tt
guarded-IsHandled edge r task_id (some (raised (other text), desk)) = tt

-- For a candidate with a resource, the dispatcher returns a list whatever admission error or OSError
-- the lock, the earlier worker, the scan or the original dispatcher raises; it ends under the same
-- conditions as above.
pub guarded_dispatch-IsHandled :
    (edge : Edge) (call : Call) (desk : Desk) (c : Candidate) (cs : List Candidate)
    (r : WorkerResource)
    → Ticks edge.world
    → edge.pending_rework_tasks call.task_ids call.normalized_task_ids ≡ done (c ∷ cs)
    → resource_for_assignee edge.reader
        (config_of edge call)
        (assignee_of edge.reader (config_of edge call) c)
      ≡ done (some r)
    → IsHandled (guarded_dispatch 602 edge call desk) × Ends (guarded_dispatch 602 edge call desk)
guarded_dispatch-IsHandled edge call desk c cs r ticks pending chosen = (
  subst IsHandled (sym (under_its_resource 602 edge call desk c cs r pending chosen))
      (guarded-IsHandled edge r c.id _),
  guarded_dispatch-Ends edge call ticks desk,
)

unconfigured :
    (edge : Edge) (cfg : Fields) (a : String)
    → get "worker_resources" cfg ≡ null
    → resource_for_assignee edge.reader cfg a ≡ done none
unfolding resource_policies read_section sole
unconfigured edge cfg a h = elim (Bool-cases (strip a == "")) [
  | inl blank ↦ blank_choice edge.reader cfg a blank
  | inr named ↦ named_choice edge.reader cfg a [] named (ap (read_section edge.reader) h)
]

-- Without a `worker_resources` section the guarded dispatcher is the original one: one call with the
-- same arguments, its answer, and neither an event nor an outcome.
pub guarded_dispatch-unconfigured :
    (fuel : ℕ) (edge : Edge) (call : Call) (desk : Desk)
    → get "worker_resources" (config_of edge call) ≡ null
    → guarded_dispatch fuel edge call desk ≡ some (delegate edge call desk)
unfolding guarded_dispatch for_candidates under_resource
guarded_dispatch-unconfigured fuel edge call desk h =
    by_candidates (edge.pending_rework_tasks call.task_ids call.normalized_task_ids)
  where
    by_candidates :
        (found : Attempt (List Candidate))
        → for_candidates fuel edge call found desk ≡ some (delegate edge call desk)
    by_candidates (raised f) = refl
    by_candidates (done []) = refl
    by_candidates (done (c ∷ cs)) =
        ap (λ o. under_resource fuel edge call c.id o desk)
          (unconfigured edge (config_of edge call) (assignee_of edge.reader (config_of edge call) c)
            h)
