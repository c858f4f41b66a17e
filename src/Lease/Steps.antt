-- ===== src/Lease/Steps.antt =====
-- Each step of the lease controller, seen from one lease that it does not draw, is a move of the
-- small machine over the lease's phase and the number of its threads.
use hermes_n8n_control_plane.Prelude.{
  ℕ, suc, ◌≤◌, ◌<◌, String, ◌≡◌, refl, ◌≢◌, inl, inr, true, not, Option, none, some, List, [], ◌∷◌,
  ◌==◌, text_comparable, Result, ok, err, eq_iff, arith, strip, contains, Bool-cases, Result-cases,
  if_both, ne→beq,
}
use hermes_n8n_control_plane.Json.{Value, Fields, get}
use hermes_n8n_control_plane.Lease.Defs.{
  StateFile, Outcome, load_state, write_state, lease_record, apply_outcome, background, is_str,
  resume_state, resume_pending,
}
use hermes_n8n_control_plane.Lease.Handlers.{
  Response, Served, or_unavailable, trigger, pause, pause_state, commit, do_post, authorized,
}
use hermes_n8n_control_plane.Lease.Moves.{Move, stay, replace, fail, finish, ask, close, restart}
use hermes_n8n_control_plane.Lease.Phase.{
  Phase, foreign, waiting, held, closed, other, phase, updated, PauseLeaves, phase-record_error,
  phase-record_status_ne, phase-record_status_own, phase-pause_ne, phase-pause_any, phase-resumed,
  phase-lease_record_ne,
}
use hermes_n8n_control_plane.Lease.System.{
  System, Event, posted, finished, restarted, occurs, erase, with_started, resumed, step, IsOther,
}

module _ (render : Value → String) (l : String) where
  abbrev loaded_phase : Result Fields → Phase
  loaded_phase (ok state) = phase render l state
  loaded_phase (err e) = foreign

  -- The phase of the lease according to a file; none where the file cannot be read.
  unfoldable pub file_phase : StateFile → Phase
  file_phase file = loaded_phase (load_state file)

  -- The step from a system to what a handler leaves.
  abbrev ServedMove : System → Served → Type 0
  ServedMove s served =
      Move (file_phase s.file) (occurs l s.threads) (file_phase served.file)
        (occurs l (with_started served.started s.threads))

  pub write-phase : (state : Fields) → file_phase (write_state state) ≡ phase render l state
  unfolding file_phase load_state write_state
  write-phase state = refl

  pub loads-phase :
      (file : StateFile) (state : Fields)
      → load_state file ≡ ok state
      → file_phase file ≡ phase render l state
  unfolding file_phase
  loads-phase file state e = rw e

  trigger-Move :
      (s : System) (fresh : String)
      → fresh ≢ l
      → ServedMove s (or_unavailable s.file (trigger fresh s.file))
  unfolding trigger
  trigger-Move s fresh ne = elim (Result-cases (load_state s.file)) [
    | inl (state, e) ↦
        rw
          (
            e,
            write-phase (lease_record fresh "pending"),
            phase-lease_record_ne render l fresh "pending" ne,
            ne→beq fresh l ne,
          )
          replace
    | inr (msg, e) ↦ rw e stay
  ]

  PauseLeaves-Move : (p q : Phase) (n : ℕ) → PauseLeaves p q → Move p n q n
  PauseLeaves-Move p foreign n h = replace
  PauseLeaves-Move p held n h = ask
  PauseLeaves-Move p closed n h = close h refl
  PauseLeaves-Move p waiting n h = absurd h
  PauseLeaves-Move p other n h = absurd h

  pause_any-Move :
      (paused : String) (state : Fields) (n : ℕ)
      → paused ≢ ""
      → Move
          (phase render l state)
          n
          (phase render l (updated (pause_state render paused state).0 state))
          n
  pause_any-Move paused state n ne = elim (Bool-cases (paused == l)) [
    | inl same ↦
        let e = (eq_iff paused l).0 same in
        rw e (elim (phase-pause_any render l state (rw e at ne)) [
          | inl kept ↦ rw kept stay
          | inr moved ↦ PauseLeaves-Move _ _ n moved
        ])
    | inr differ ↦
        rw (phase-pause_ne render l paused state (λ e. cc (differ, (eq_iff paused l).1 e))) stay
  ]

  pub commit-phase :
      (file : StateFile) (state : Fields) (done : Option Fields × Response)
      → load_state file ≡ ok state
      → file_phase (commit file done).file ≡ phase render l (updated done.0 state)
  commit-phase file state (none, response) e = loads-phase file state e
  commit-phase file state (some next, response) e = write-phase next

  commit_starts :
      (file : StateFile) (done : Option Fields × Response) → (commit file done).started ≡ none
  commit_starts file (none, response) = refl
  commit_starts file (some next, response) = refl

  pause-Move :
      (s : System) (paused : String)
      → paused ≢ ""
      → ServedMove s (or_unavailable s.file (pause render paused s.file))
  unfolding pause
  pause-Move s paused ne = elim (Result-cases (load_state s.file)) [
    | inl (state, e) ↦
        let done = pause_state render paused state in
        rw
          (
            e,
            commit-phase s.file state done e,
            commit_starts s.file done,
            loads-phase s.file state e,
          )
          (pause_any-Move paused state _ ne)
    | inr (msg, e) ↦ rw e stay
  ]

  do_post-Move :
      (s : System) (fresh : String) (token : Option String) (header path lease : String)
      → fresh ≢ l
      → ServedMove s (do_post render fresh token header path lease s.file)
  unfolding do_post
  do_post-Move s fresh token header path lease ne =
      let P = λ (served : Served). ServedMove s served in
      if_both P (not (authorized token (strip header))) stay (
        if_both P (path == "/trigger") (trigger-Move s fresh ne) (
          if_both P (path == "/pause")
            (elim (Bool-cases (strip lease == "")) [
              | inl blank ↦ rw blank stay
              | inr named ↦
                  rw named
                    (pause-Move s (strip lease) (λ e. cc (named, (eq_iff (strip lease) "").1 e)))
            ])
            stay))

  thread-Move :
      (outcome : Outcome) (state : Fields) (n : ℕ)
      → Move
          (phase render l state)
          (suc n)
          (phase render l (updated (apply_outcome render l outcome state) state))
          n
  unfolding apply_outcome
  thread-Move (err e) state n = rw (phase-record_error render l l e state) fail
  thread-Move (ok (status, body)) state n = elim (phase-record_status_own render l status state) [
    | inl (p, q) ↦ rw (q, p) fail
    | inr (ne, e, ended) ↦ finish e ended ne
  ]

  thread_ne :
      (lease : String) (outcome : Outcome) (state : Fields)
      → lease ≢ l
      → phase render l (updated (apply_outcome render lease outcome state) state)
        ≡ phase render l state
  unfolding apply_outcome
  thread_ne lease (err e) state ne = phase-record_error render l lease e state
  thread_ne lease (ok (status, body)) state ne =
      phase-record_status_ne render l lease status state ne

  background-phase :
      (lease : String) (outcome : Outcome) (file : StateFile) (state : Fields)
      → load_state file ≡ ok state
      → file_phase (background render lease outcome file)
        ≡ phase render l (updated (apply_outcome render lease outcome state) state)
  unfolding background
  background-phase lease outcome file state e =
      rw (e, background) (written (apply_outcome render lease outcome state))
    where
      written :
          (o : Option Fields)
          → file_phase (elim o [ none ↦ file | some next ↦ write_state next ])
            ≡ phase render l (updated o state)
      written none = loads-phase file state e
      written (some next) = write-phase next

  background_unloaded :
      (lease : String) (outcome : Outcome) (file : StateFile) (msg : String)
      → load_state file ≡ err msg
      → background render lease outcome file ≡ file
  unfolding background
  background_unloaded lease outcome file msg e = rw (e, background)

  occurs-erase :
      (threads : List String)
      → contains l threads ≡ true
      → occurs l threads ≡ suc (occurs l (erase l threads))
  occurs-erase [] h = cc
  occurs-erase (x ∷ xs) h = ground (arith, occurs-erase xs)

  occurs-erase_ne :
      (lease : String) (threads : List String)
      → lease ≢ l
      → occurs l (erase lease threads) ≡ occurs l threads
  occurs-erase_ne lease [] ne = refl
  occurs-erase_ne lease (x ∷ xs) ne =
      ground (arith, eq_iff x lease, eq_iff x l, occurs-erase_ne lease xs)

  own-Move :
      (s : System) (outcome : Outcome)
      → contains l s.threads ≡ true
      → Move
          (file_phase s.file)
          (occurs l s.threads)
          (file_phase (background render l outcome s.file))
          (occurs l (erase l s.threads))
  own-Move s outcome running = elim (Result-cases (load_state s.file)) [
    | inl (state, e) ↦
        rw
          (
            occurs-erase s.threads running,
            background-phase l outcome s.file state e,
            loads-phase s.file state e,
          )
          (thread-Move outcome state _)
    | inr (msg, e) ↦
        rw (occurs-erase s.threads running, background_unloaded l outcome s.file msg e) fail
  ]

  ne-Move :
      (s : System) (lease : String) (outcome : Outcome)
      → lease ≢ l
      → Move
          (file_phase s.file)
          (occurs l s.threads)
          (file_phase (background render lease outcome s.file))
          (occurs l (erase lease s.threads))
  ne-Move s lease outcome ne = elim (Result-cases (load_state s.file)) [
    | inl (state, e) ↦
        rw
          (
            occurs-erase_ne lease s.threads ne,
            background-phase lease outcome s.file state e,
            thread_ne lease outcome state ne,
            loads-phase s.file state e,
          )
          stay
    | inr (msg, e) ↦
        rw (occurs-erase_ne lease s.threads ne, background_unloaded lease outcome s.file msg e) stay
  ]

  finished-Move :
      (s : System) (lease : String) (outcome : Outcome)
      → contains lease s.threads ≡ true
      → Move
          (file_phase s.file)
          (occurs l s.threads)
          (file_phase (background render lease outcome s.file))
          (occurs l (erase lease s.threads))
  finished-Move s lease outcome running = elim (Bool-cases (lease == l)) [
    | inl same ↦ let e = (eq_iff lease l).0 same in rw e (own-Move s outcome (rw e at running))
    | inr differ ↦ ne-Move s lease outcome (λ e. cc (differ, (eq_iff lease l).1 e))
  ]

  occurs-resumed : (r : Result (Option (String × String))) → occurs l (resumed r) ≤ 1
  occurs-resumed (ok (some (x, t))) = ground arith
  occurs-resumed (ok none) = omega arith
  occurs-resumed (err e) = omega arith

  resumed-some :
      (r : Result (Option (String × String)))
      → 0 < occurs l (resumed r)
      → (p : String × String) × (r ≡ ok (some p))
  resumed-some (ok (some p)) h = (p, refl)
  resumed-some (ok none) h = absurd (omega arith)
  resumed-some (err e) h = absurd (omega arith)

  resume_only_pending :
      (state : Fields) (token : Option String) (p : String × String)
      → resume_state state token ≡ ok (some p)
      → is_str "pending" (get "status" state) ≡ true
  unfolding resume_state
  resume_only_pending state token p h = ground arith

  restart-Move :
      (s : System) (token : Option String)
      → Move
          (file_phase s.file)
          (occurs l s.threads)
          (file_phase s.file)
          (occurs l (resumed (resume_pending s.file token)))
  unfolding resume_pending
  restart-Move s token = elim (Result-cases (load_state s.file)) [
    | inl (state, e) ↦
        rw (e, loads-phase s.file state e)
          (restart (occurs-resumed (resume_state state token)) (λ h.
            phase-resumed render l state
              (resume_only_pending state token _ (resumed-some (resume_state state token) h).1)))
    | inr (msg, e) ↦ rw e (restart (omega arith) (λ h. absurd (omega arith)))
  ]

  -- Every step of the controller that does not draw the lease is one of its moves.
  pub step-Move :
      (s : System) (e : Event)
      → IsOther l e
      → Move
          (file_phase s.file)
          (occurs l s.threads)
          (file_phase (step render s e).file)
          (occurs l (step render s e).threads)
  unfolding step
  step-Move s (posted fresh token header path lease) h =
      do_post-Move s fresh token header path lease h
  step-Move s (finished lease outcome) h = elim (Bool-cases (contains lease s.threads)) [
    | inl running ↦ rw running (finished-Move s lease outcome running)
    | inr idle ↦ rw idle stay
  ]
  step-Move s (restarted token) h = restart-Move s token
