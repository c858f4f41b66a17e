-- ===== src/Resource/Dispatch/Admitting.antt =====
-- The original dispatcher is called for a resource only under its lock, with a free slot, and for the
-- task that was admitted.
use hermes_n8n_control_plane.Prelude.{
  ℕ, ◌<◌, String, ◌≡◌, ◌⊎◌, inl, inr, refl, sym, ap, ◌∙◌, subst, Bool, true, false, Option, none,
  some, List, ◌∷◌, leb, length, Bool-cases, arith,
}
use hermes_n8n_control_plane.Json.{Value}
use hermes_n8n_control_plane.Resource.{Attempt, done, raised, admission, os, other}
use hermes_n8n_control_plane.Resource.Config.{pool_of, WorkerResource, resource_for_assignee}
use hermes_n8n_control_plane.Resource.Workers.{Quiesced, idle, Ran}
use hermes_n8n_control_plane.Resource.Scan.{Active, active_resource_workers}
use hermes_n8n_control_plane.Resource.Outcomes.{Outcome}
use hermes_n8n_control_plane.Resource.Dispatch.{
  config_of, assignee_of, under_resource, for_candidates, guarded_dispatch,
}
use hermes_n8n_control_plane.Resource.Dispatch.Entries.{is_clear}
use hermes_n8n_control_plane.Resource.Dispatch.Body.{
  Call, Candidate, Edge, Desk, Answered, pinned, decorated, entry, delegate, admit, proceed, at,
  resumed, under_lock, locked_body, guard, guarded, resource_lock,
}

-- The one call of the original that was made: for the task alone, while the lock was held, and after
-- a count of the occupied slots below the capacity.
pub record Admission (edge : Edge) (call : Call) (r : WorkerResource) (task_id : String)
    (before after : Desk) : Type 0 where
  pub one_call : after.calls ≡ pinned call task_id ∷ before.calls
  pub lock_held : resource_lock edge r.name ≡ done true
  pub free_slot :
      (found : List Active) × (active_resource_workers edge.boards
          (edge.world after.history)
          (pool_of r)
        ≡ done found)
      × (length found < r.capacity)

decorated_desk :
    (r : WorkerResource) (reap : Quiesced) (a : Attempt (List Value)) (desk : Desk)
    → desk ≡ (decorated r reap (a, desk)).1
decorated_desk r reap (raised f) desk = refl
decorated_desk r reap (done values) desk = refl

-- The run of a candidate that has a resource.
pub under_its_resource :
    (fuel : ℕ) (edge : Edge) (call : Call) (start : Desk) (c : Candidate) (cs : List Candidate)
    (r : WorkerResource)
    → edge.pending_rework_tasks call.task_ids call.normalized_task_ids ≡ done (c ∷ cs)
    → resource_for_assignee edge.reader
        (config_of edge call)
        (assignee_of edge.reader (config_of edge call) c)
      ≡ done (some r)
    → guarded_dispatch fuel edge call start
      ≡ guarded edge r c.id (locked_body fuel edge call r c.id (resource_lock edge r.name) start)
unfolding guarded_dispatch for_candidates under_resource
under_its_resource fuel edge call start c cs r pending chosen =
    ap (λ found. for_candidates fuel edge call found start) pending
    ∙ ap (λ o. under_resource fuel edge call c.id o start) chosen

module _ (edge : Edge) (call : Call) (r : WorkerResource) (task_id : String) (start : Desk) where
  -- No call was made, or an admitted one.
  abbrev pub Decided : Desk → Type 0
  Decided after = (after.calls ≡ start.calls) ⊎ Admission edge call r task_id start after

  abbrev pub DecidedRan : Option Answered → Type 0
  DecidedRan none = Unit
  DecidedRan (some (answer, after)) = Decided after

  module _ (held : resource_lock edge r.name ≡ done true) where
    admit-Decided :
        (reap : Quiesced) (desk : Desk) (o : Attempt (List Active))
        → desk.calls ≡ start.calls
        → active_resource_workers edge.boards (edge.world desk.history) (pool_of r) ≡ o
        → Decided (admit edge call r task_id reap o desk).1
    unfolding admit entry delegate
    admit-Decided reap desk (raised f) same e = inl same
    admit-Decided reap desk (done found) same e =
        elim (Bool-cases (leb r.capacity (length found))) [
          | inl busy ↦ rw (busy, admit) (inl same)
          | inr free ↦
              rw (free, admit)
                (subst Decided (decorated_desk r reap (edge.original (pinned call task_id)) _) (
                  inr (record {
                    one_call = ap (λ calls. pinned call task_id ∷ calls) same;
                    lock_held = held;
                    free_slot = (found, e, ground (arith, free));
                  })))
        ]

    proceed-Decided :
        (reap : Attempt Quiesced) (desk : Desk)
        → desk.calls ≡ start.calls
        → Decided (proceed edge call r task_id reap desk).1
    unfolding proceed entry
    proceed-Decided (raised f) desk same = inl same
    proceed-Decided (done reap) desk same = elim (Bool-cases (is_clear reap)) [
      | inl clear ↦ rw (clear, proceed) (admit-Decided reap desk _ same refl)
      | inr blocked ↦ rw (blocked, proceed) (inl same)
    ]

    resumed-Decided : (o : Ran Quiesced) → DecidedRan (resumed edge call r task_id start o)
    resumed-Decided none = tt
    resumed-Decided (some (reap, h)) = proceed-Decided reap (at h start) refl

    under_lock-Decided :
        (fuel : ℕ) (dry : Bool) → DecidedRan (under_lock fuel edge call r task_id dry start)
    unfolding under_lock
    under_lock-Decided fuel true = proceed-Decided (done idle) start refl
    under_lock-Decided fuel false = resumed-Decided _

  locked_body-Decided :
      (fuel : ℕ) (lock : Attempt Bool)
      → resource_lock edge r.name ≡ lock
      → DecidedRan (locked_body fuel edge call r task_id lock start)
  unfolding locked_body entry
  locked_body-Decided fuel (raised f) e = inl refl
  locked_body-Decided fuel (done false) e = inl refl
  locked_body-Decided fuel (done true) e = under_lock-Decided e fuel call.dry_run

  -- An entry of the handler changes neither the calls nor the history.
  noted :
      (desk : Desk) (outcomes : List Outcome)
      → Decided desk
      → Decided (record { history = desk.history; outcomes = outcomes; calls = desk.calls })
  noted desk outcomes (inl same) = inl same
  noted desk outcomes (inr a) =
      inr (record { one_call = a.one_call; lock_held = a.lock_held; free_slot = a.free_slot })

  guarded-Decided : (o : Option Answered) → DecidedRan o → DecidedRan (guarded edge r task_id o)
  unfolding guard entry
  guarded-Decided none d = tt
  guarded-Decided (some (done values, desk)) d = d
  guarded-Decided (some (raised (other text), desk)) d = d
  guarded-Decided (some (raised (admission text), desk)) d = noted desk _ d
  guarded-Decided (some (raised (os text), desk)) d = noted desk _ d

-- When the first pending task has a resource, the original dispatcher is called at most once, and
-- then only for that task, while the lock of the resource is held, and after a count of the
-- occupied slots on all boards that is below the capacity.
pub guarded_dispatch-Decided :
    (fuel : ℕ) (edge : Edge) (call : Call) (start : Desk) (c : Candidate) (cs : List Candidate)
    (r : WorkerResource)
    → edge.pending_rework_tasks call.task_ids call.normalized_task_ids ≡ done (c ∷ cs)
    → resource_for_assignee edge.reader
        (config_of edge call)
        (assignee_of edge.reader (config_of edge call) c)
      ≡ done (some r)
    → DecidedRan edge call r c.id start (guarded_dispatch fuel edge call start)
guarded_dispatch-Decided fuel edge call start c cs r pending chosen =
    subst (DecidedRan edge call r c.id start)
      (sym (under_its_resource fuel edge call start c cs r pending chosen))
      (guarded-Decided edge call r c.id start _
        (locked_body-Decided edge call r c.id start fuel (resource_lock edge r.name) refl))
