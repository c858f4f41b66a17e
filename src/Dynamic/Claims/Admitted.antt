-- ===== src/Dynamic/Claims/Admitted.antt =====
-- The core claims a task of a resource only under the lock and with a free slot.
use hermes_n8n_control_plane.Prelude.{
  ℕ, ◌<◌, String, ◌≡◌, ◌⊎◌, inl, inr, refl, sym, ap, ◌∙◌, subst, Bool, true, false, Option, none,
  some, List, ◌∷◌, leb, length, Bool-cases, arith,
}
use hermes_n8n_control_plane.Json.{Value}
use hermes_n8n_control_plane.Resource.{Attempt, done, raised}
use hermes_n8n_control_plane.Resource.Config.{Pool}
use hermes_n8n_control_plane.Resource.Workers.{
  Quiesced, idle, worker_active, pid_reused, unverified, reap_failed, reaped, Ran,
}
use hermes_n8n_control_plane.Resource.Scan.{Active}
use hermes_n8n_control_plane.Resource.Dispatch.Entries.{is_clear}
use hermes_n8n_control_plane.Dynamic.Policies.{DynamicResource, dynamic_pool}
use hermes_n8n_control_plane.Dynamic.Claims.{
  Gate, Ledger, Claimed, active_on_all_boards, resource_for_task, tried, noted_claim, claim_if_free,
  noted_reap, after_quiesce, with_history, continued, locked_claim, refused_on_error, claim_under,
  guarded_claim, note_outcome,
}

-- One claim was tried: while the lock was held, and after a count of the occupied slots on all boards
-- below the capacity.
pub record Admitted (gate : Gate) (pool : Pool) (task_id : String) (before after : Ledger)
    : Type 0 where
  pub one_claim : after.claims ≡ task_id ∷ before.claims
  pub lock_held : gate.resource_lock pool.name ≡ done true
  pub free_slot :
      (found : List Active) × (active_on_all_boards gate.boards (gate.world after.history) pool
        ≡ done found)
      × (length found < pool.capacity)

module _ (gate : Gate) (task_id : String) (pool : Pool) (start : Ledger) where
  abbrev pub Decided : Ledger → Type 0
  Decided after = (after.claims ≡ start.claims) ⊎ Admitted gate pool task_id start after

  abbrev pub DecidedRan : Option Claimed → Type 0
  DecidedRan none = Unit
  DecidedRan (some (answer, after)) = Decided after

  -- A diagnostic changes neither the claims nor the history.
  noted :
      (ledger : Ledger) (reason : String) (p : Option Pool) (active : Option ℕ)
      (board : Option String)
      → Decided ledger
      → Decided (note_outcome gate task_id reason p active board ledger)
  unfolding note_outcome
  noted ledger reason p active board (inl same) = inl same
  noted ledger reason p active board (inr a) =
      inr (record { one_claim = a.one_claim; lock_held = a.lock_held; free_slot = a.free_slot })

  noted_claim-Decided :
      (answer : Attempt (Option Value)) (ledger : Ledger)
      → Decided ledger
      → Decided (noted_claim gate task_id pool (answer, ledger)).1
  noted_claim-Decided (raised f) ledger d = d
  noted_claim-Decided (done none) ledger d = d
  noted_claim-Decided (done (some task)) ledger d =
      noted ledger "resource_admitted" (some pool) none (some gate.board) d

  module _ (held : gate.resource_lock pool.name ≡ done true) where
    claim_if_free-Decided :
        (ledger : Ledger) (o : Attempt (List Active))
        → ledger.claims ≡ start.claims
        → active_on_all_boards gate.boards (gate.world ledger.history) pool ≡ o
        → Decided (claim_if_free gate task_id pool o ledger).1
    unfolding claim_if_free note_outcome
    claim_if_free-Decided ledger (raised f) same e = inl same
    claim_if_free-Decided ledger (done found) same e =
        elim (Bool-cases (leb pool.capacity (length found))) [
          | inl busy ↦ rw (busy, claim_if_free) (inl same)
          | inr free ↦
              rw (free, claim_if_free)
                (noted_claim-Decided (gate.claim task_id) (tried gate task_id ledger).1 (
                  inr (record {
                    one_claim = ap (λ claims. task_id ∷ claims) same;
                    lock_held = held;
                    free_slot = (found, e, ground (arith, free));
                  })))
        ]

    reap_kept :
        (reap : Quiesced) (ledger : Ledger)
        → ((noted_reap gate task_id pool reap ledger).claims ≡ ledger.claims)
          × ((noted_reap gate task_id pool reap ledger).history ≡ ledger.history)
    unfolding note_outcome
    reap_kept idle ledger = (refl, refl)
    reap_kept (worker_active run pid) ledger = (refl, refl)
    reap_kept (pid_reused run pid) ledger = (refl, refl)
    reap_kept (unverified run pid) ledger = (refl, refl)
    reap_kept (reap_failed run pid) ledger = (refl, refl)
    reap_kept (reaped run pid outcome) ledger = (refl, refl)

    after_quiesce-Decided :
        (reap : Attempt Quiesced) (ledger : Ledger)
        → ledger.claims ≡ start.claims
        → Decided (after_quiesce gate task_id pool reap ledger).1
    unfolding after_quiesce note_outcome
    after_quiesce-Decided (raised f) ledger same = inl same
    after_quiesce-Decided (done reap) ledger same = elim (Bool-cases (is_clear reap)) [
      | inl clear ↦
          rw (clear, after_quiesce)
            (claim_if_free-Decided (noted_reap gate task_id pool reap ledger) _
              ((reap_kept reap ledger).0 ∙ same)
              (ap (λ h. active_on_all_boards gate.boards (gate.world h) pool)
                (reap_kept reap ledger).1))
      | inr blocked ↦ rw (blocked, after_quiesce) (inl same)
    ]

    continued-Decided : (o : Ran Quiesced) → DecidedRan (continued gate task_id pool start o)
    continued-Decided none = tt
    continued-Decided (some (reap, h)) = after_quiesce-Decided reap (with_history h start) refl

  locked_claim-Decided :
      (fuel : ℕ) (lock : Attempt Bool)
      → gate.resource_lock pool.name ≡ lock
      → DecidedRan (locked_claim fuel gate task_id pool lock start)
  unfolding locked_claim note_outcome
  locked_claim-Decided fuel (raised f) e = inl refl
  locked_claim-Decided fuel (done false) e = inl refl
  locked_claim-Decided fuel (done true) e = continued-Decided e _

  refused_on_error-Decided :
      (o : Option Claimed) → DecidedRan o → DecidedRan (refused_on_error gate task_id pool o)
  refused_on_error-Decided none d = tt
  refused_on_error-Decided (some (done answer, ledger)) d = d
  refused_on_error-Decided (some (raised f, ledger)) d =
      noted ledger "resource_admission_failed" (some pool) none (some gate.board) d

-- For a task that has a resource, the gate lets the core try at most one claim, and then of that
-- task, while the lock of the resource is held, and after a count of the occupied slots on all
-- boards that is below the capacity.
pub guarded_claim-Decided :
    (fuel : ℕ) (gate : Gate) (task_id : String) (r : DynamicResource) (start : Ledger)
    → resource_for_task gate task_id ≡ done (some r)
    → DecidedRan gate task_id
        (dynamic_pool gate.net r)
        start
        (guarded_claim fuel gate task_id start)
unfolding guarded_claim claim_under
guarded_claim-Decided fuel gate task_id r start chosen =
    subst
      (λ o.
        DecidedRan gate task_id (dynamic_pool gate.net r) start
          (claim_under fuel gate task_id o start))
      (sym chosen)
      (refused_on_error-Decided gate task_id (dynamic_pool gate.net r) start _ (
        locked_claim-Decided gate task_id (dynamic_pool gate.net r) start fuel
          (gate.resource_lock r.policy.name) refl))
