-- ===== src/Lease/Pausing.antt =====
-- A pause that was granted is never undone, whatever the threads and the other requests do.
use hermes_n8n_control_plane.Prelude.{
  String, ◌≡◌, refl, sym, subst, ◌≢◌, inl, inr, ap, ◌∙◌, Option, none, some, List, [], ◌∷◌,
  text_comparable, ok, All, eq_refl, arith, Result-cases, ok_injective,
}
use hermes_n8n_control_plane.Json.{Value, Fields}
use hermes_n8n_control_plane.Lease.Defs.{StateFile, load_state, lease_record, text_at}
use hermes_n8n_control_plane.Lease.Handlers.{
  Response, Served, trigger, pause, pause_state, commit, lease_not_active,
}
use hermes_n8n_control_plane.Lease.Moves.{Settled, Paused, Move-Settled, Move-Paused, granted}
use hermes_n8n_control_plane.Lease.Phase.{phase-pause_own, phase-active, phase-pending}
use hermes_n8n_control_plane.Lease.System.{System, Event, occurs, step, run, IsOther}
use hermes_n8n_control_plane.Lease.Steps.{
  file_phase, write-phase, loads-phase, commit-phase, step-Move,
}

module _ (render : Value → String) (l : String) where
  abbrev pub IsSettled : System → Type 0
  IsSettled s = Settled (file_phase render l s.file) (occurs l s.threads)

  abbrev pub IsPaused : System → Type 0
  IsPaused s = Paused (file_phase render l s.file) (occurs l s.threads)

  run-IsPaused :
      (es : List Event) (s : System) → All (IsOther l) es → IsPaused s → IsPaused (run render s es)
  unfolding run
  run-IsPaused [] s hs h = h
  run-IsPaused (e ∷ es) s hs h =
      run-IsPaused es (step render s e) hs.1 (Move-Paused (step-Move render l s e hs.0) h)

  run-IsSettled :
      (es : List Event) (s : System)
      → All (IsOther l) es
      → IsSettled s
      → IsSettled (run render s es)
  unfolding run
  run-IsSettled [] s hs h = h
  run-IsSettled (e ∷ es) s hs h =
      run-IsSettled es (step render s e) hs.1 (Move-Settled (step-Move render l s e hs.0) h)

  started-IsSettled :
      (s : System) (served : Served)
      → occurs l s.threads ≡ 0
      → trigger l s.file ≡ ok served
      → IsSettled (record { file = served.file; threads = l ∷ s.threads })
  unfolding trigger
  started-IsSettled s served new h = elim (Result-cases (load_state s.file)) [
    | inl (state, e) ↦
        subst (λ (v : Served). IsSettled (record { file = v.file; threads = l ∷ s.threads }))
          (ok_injective (rw e at h))
          (rw
            (
              write-phase render l (lease_record l "pending"),
              phase-pending render l,
              eq_refl l,
              new,
            )
            (omega arith))
    | inr (msg, e) ↦ cc (rw e at h)
  ]

  abbrev response_of : Served → Response
  response_of served = served.response

  committed_response :
      (file : StateFile) (done : Option Fields × Response) → (commit file done).response ≡ done.1
  committed_response file (none, response) = refl
  committed_response file (some next, response) = refl

  pause-IsPaused :
      (s : System) (served : Served)
      → l ≢ ""
      → pause render l s.file ≡ ok served
      → served.response ≢ lease_not_active
      → IsSettled s
      → IsPaused (record s { file = served.file })
  unfolding pause
  pause-IsPaused s served ne h accepted settled = elim (Result-cases (load_state s.file)) [
    | inl (state, e) ↦
        let done = pause_state render l state in
        let same : commit s.file done ≡ served = ok_injective (rw e at h) in
        let leaves =
          phase-pause_own render l state ne
            (λ r. accepted (sym (ap response_of same) ∙ committed_response s.file done ∙ r)) in
        subst (λ (v : Served). IsPaused (record s { file = v.file })) same
          (rw (commit-phase render l s.file state done e)
            (granted _ _ _ leaves (rw (loads-phase render l s.file state e) at settled)))
    | inr (msg, e) ↦ cc (rw e at h)
  ]

  Paused-NotActive :
      (s : System) (state : Fields)
      → IsPaused s
      → load_state s.file ≡ ok state
      → text_at render "lease" state ≡ l
      → text_at render "status" state ≢ "active"
  Paused-NotActive s state paused e same active =
      rw (loads-phase render l s.file state e, phase-active render l state same active) at paused

-- Once a lease is drawn as a new UUID, run on under any requests, thread ends and restarts, and
-- then paused with an answer other than `lease_not_active`, it is never active again: whatever
-- follows, in any order, without drawing the same UUID, the file does not show it as active.
pub pause_is_final :
    (render : Value → String) (l : String) (s : System) (drawn granted : Served)
    (before after : List Event)
    → l ≢ ""
    → occurs l s.threads ≡ 0
    → trigger l s.file ≡ ok drawn
    → All (IsOther l) before
    → let s1 = run render (record { file = drawn.file; threads = l ∷ s.threads }) before in
      pause render l s1.file ≡ ok granted
      → granted.response ≢ lease_not_active
      → All (IsOther l) after
      → (state : Fields)
      → load_state (run render (record s1 { file = granted.file }) after).file ≡ ok state
      → text_at render "lease" state ≡ l
      → text_at render "status" state ≢ "active"
pause_is_final render l s drawn granted before after ne new t hb p accepted ha state =
    let settled = run-IsSettled render l before _ hb (started-IsSettled render l s drawn new t) in
    Paused-NotActive render l _ state
      (run-IsPaused render l after _ ha (pause-IsPaused render l _ granted ne p accepted settled))
