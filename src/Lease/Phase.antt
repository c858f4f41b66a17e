-- ===== src/Lease/Phase.antt =====
-- How far a lease has come, as the lease file tells it, and how each write moves it.
use hermes_n8n_control_plane.Prelude.{
  ℕ, String, ◌≡◌, refl, ◌≢◌, ◌⊎◌, inl, inr, ap, ◌∙◌, Bool, true, false, not, ◌||◌, Option, none,
  some, ◌==◌, text_comparable, eq_iff, eq_refl, arith, if◌then◌else◌, Bool-cases, ne→beq,
}
use hermes_n8n_control_plane.Json.{Value, Fields, bool, str, get, put, truthy, str_of}
use hermes_n8n_control_plane.Json.Laws.{get_or-put, get-put, get_or-of-get}
use hermes_n8n_control_plane.Lease.Defs.{
  lease_record, closed_record, text_at, record_error, record_status, success, is_str,
}
use hermes_n8n_control_plane.Lease.Handlers.{
  Response, pause_state, lease_not_active, already_paused, pause_queued, paused_now,
}

-- `foreign`: the file holds another lease. `held`: pending, and a pause is asked for. `closed`:
-- paused or failed. `other` is active, or a status that this program does not write.
pub data Phase : Type 0 where
  foreign waiting held closed other : Phase

unfoldable pub phase_of : Bool → String → Bool → Phase
phase_of mine status asked =
    if not mine
    then foreign
    else if status == "pending"
    then (if asked then held else waiting)
    else if status == "paused" || status == "failed"
    then closed
    else other

-- The state that a write leaves, or the old one.
abbrev pub updated : Option Fields → Fields → Fields
updated none state = state
updated (some state') state = state'

-- The phases that a pause may leave behind it.
abbrev pub PauseLeaves : Phase → Phase → Type 0
PauseLeaves before foreign = Unit
PauseLeaves before held = Unit
PauseLeaves before closed = (before ≡ closed) ⊎ (before ≡ other)
PauseLeaves before _ = ⊥

module _ (render : Value → String) (lease : String) where
  unfoldable pub phase : Fields → Phase
  phase state =
      phase_of (text_at render "lease" state == lease) (text_at render "status" state)
        (truthy (get "pause_requested" state))

  text_at-put :
      (k j : String) (v : Value) (state : Fields)
      → text_at render j (put k v state)
        ≡ (if k == j then str_of render v else text_at render j state)
  unfolding text_at
  text_at-put k j v state = ground (arith, get_or-put k j v (str "") state)

  pub phase-error :
      (e : String) (state : Fields) → phase (put "trigger_error" (str e) state) ≡ phase state
  unfolding phase
  phase-error e state = simp (text_at-put, get-put)

  phase-closed_record :
      (l status : String) (n : ℕ)
      → phase (closed_record l status n) ≡ phase_of (l == lease) status false
  unfolding phase closed_record text_at truthy get
  phase-closed_record l status n = refl

  pub phase-lease_record :
      (l status : String) → phase (lease_record l status) ≡ phase_of (l == lease) status false
  unfolding phase lease_record text_at truthy get
  phase-lease_record l status = refl

  pub phase-lease_record_ne :
      (l status : String) → l ≢ lease → phase (lease_record l status) ≡ foreign
  unfolding phase_of
  phase-lease_record_ne l status h = rw (phase-lease_record l status, ne→beq l lease h)

  -- Asking for a pause of a pending lease holds it.
  phase-ask :
      (state : Fields)
      → text_at render "status" state ≡ "pending"
      → phase (put "pause_requested" (bool true) state)
        ≡ (if text_at render "lease" state == lease then held else foreign)
  unfolding phase phase_of truthy
  phase-ask state h = simp (text_at-put, get-put, h) (ground arith)

  -- An error of the actuator moves no lease.
  pub phase-record_error :
      (l e : String) (state : Fields)
      → phase (updated (record_error render l e state) state) ≡ phase state
  unfolding record_error
  phase-record_error l e state = elim (Bool-cases (text_at render "lease" state == l)) [
    | inl same ↦ rw same (phase-error e state)
    | inr differ ↦ rw differ
  ]

  phase-foreign : (state : Fields) → text_at render "lease" state ≢ lease → phase state ≡ foreign
  unfolding phase phase_of
  phase-foreign state h = ground (arith, eq_iff (text_at render "lease" state) lease)

  phase-mine :
      (state : Fields)
      → text_at render "lease" state ≡ lease
      → phase state
        ≡ phase_of true (text_at render "status" state) (truthy (get "pause_requested" state))
  unfolding phase
  phase-mine state h = rw ((eq_iff (text_at render "lease" state) lease).1 h)

  -- The end of another lease's thread does not move this lease.
  pub phase-record_status_ne :
      (l : String) (n : ℕ) (state : Fields)
      → l ≢ lease
      → phase (updated (record_status render l n state) state) ≡ phase state
  unfolding record_status phase_of
  phase-record_status_ne l n state h = ground (
    arith,
    eq_iff (text_at render "lease" state) l,
    eq_iff l lease,
    phase-foreign state,
    phase-closed_record l "failed" n,
    phase-closed_record l "paused" n,
    phase-closed_record l "active" n,
  )

  abbrev verdict : Bool → Bool → String
  verdict good asked = if not good then "failed" else if asked then "paused" else "active"

  record_status_own :
      (n : ℕ) (state : Fields)
      → text_at render "lease" state ≡ lease
      → record_status render lease n state
        ≡ some (closed_record lease (verdict (success n) (truthy (get "pause_requested" state))) n)
  unfolding record_status
  record_status_own n state h =
      rw ((eq_iff (text_at render "lease" state) lease).1 h)
        (by_cases (success n) (truthy (get "pause_requested" state)))
    where
      by_cases :
          (good asked : Bool)
          → (if not good
              then some (closed_record lease "failed" n)
              else if asked
              then some (closed_record lease "paused" n)
              else some (closed_record lease "active" n))
            ≡ some (closed_record lease (verdict good asked) n)
      by_cases false asked = refl
      by_cases true false = refl
      by_cases true true = refl

  verdict_moves :
      (good asked : Bool) (status : String)
      → let next = phase_of true (verdict good asked) false in
        (phase_of true status asked ≡ held → next ≡ closed) × ((next ≡ closed) ⊎ (next ≡ other))
  unfolding phase_of
  verdict_moves false asked status = (λ _. refl, inl refl)
  verdict_moves true true status = (λ _. refl, inl refl)
  verdict_moves true false status = (λ h. ground arith, inr refl)

  phase-not-foreign : (status : String) (asked : Bool) → phase_of true status asked ≢ foreign
  unfolding phase_of
  phase-not-foreign status asked h = ground arith

  record_status-phase :
      (n : ℕ) (state : Fields)
      → text_at render "lease" state ≡ lease
      → phase (updated (record_status render lease n state) state)
        ≡ phase_of true (verdict (success n) (truthy (get "pause_requested" state))) false
  record_status-phase n state h = rw (record_status_own n state h) (
      rw (phase-closed_record lease (verdict (success n) (truthy (get "pause_requested" state))) n)
        (rw (eq_refl lease)))

  lease-cases :
      (state : Fields)
      → (text_at render "lease" state ≡ lease) ⊎ (text_at render "lease" state ≢ lease)
  lease-cases state = elim (Bool-cases (text_at render "lease" state == lease)) [
    | inl same ↦ inl ((eq_iff (text_at render "lease" state) lease).0 same)
    | inr differ ↦ inr (λ h. cc (differ, (eq_iff (text_at render "lease" state) lease).1 h))
  ]

  record_status_foreign :
      (n : ℕ) (state : Fields)
      → text_at render "lease" state ≢ lease
      → record_status render lease n state ≡ none
  unfolding record_status
  record_status_foreign n state h = ground (arith, eq_iff (text_at render "lease" state) lease)

  pause_state_foreign :
      (state : Fields)
      → text_at render "lease" state ≢ lease
      → (pause_state render lease state).0 ≡ none
  unfolding pause_state
  pause_state_foreign state h =
      ground (
        arith,
        eq_iff lease (text_at render "lease" state),
        eq_iff (text_at render "lease" state) "",
      )

  -- The end of the lease's own thread closes it if it was held, and leaves it closed or active
  -- unless another lease has replaced it.
  pub phase-record_status_own :
      (n : ℕ) (state : Fields)
      → let next = phase (updated (record_status render lease n state) state) in
        ((phase state ≡ foreign) × (next ≡ foreign))
        ⊎ ((phase state ≢ foreign)
            × (phase state ≡ held → next ≡ closed)
            × ((next ≡ closed) ⊎ (next ≡ other)))
  phase-record_status_own n state = elim (lease-cases state) [
    | inl same ↦
        let asked : Bool = truthy (get "pause_requested" state) in
        let moves = verdict_moves (success n) asked (text_at render "status" state) in
        rw (record_status-phase n state same, phase-mine state same)
          (inr (phase-not-foreign _ asked, moves.0, moves.1))
    | inr differ ↦
        let e = phase-foreign state differ in inl (e, rw (record_status_foreign n state differ) e)
  ]

  -- A pause of another lease does not move this one.
  pub phase-pause_ne :
      (l : String) (state : Fields)
      → l ≢ lease
      → phase (updated (pause_state render l state).0 state) ≡ phase state
  unfolding pause_state phase_of
  phase-pause_ne l state h = ground (
    arith,
    eq_iff l (text_at render "lease" state),
    eq_iff l lease,
    eq_iff (text_at render "status" state) "pending",
    eq_iff (text_at render "lease" state) lease,
    phase-foreign state,
    phase-ask state,
    phase-lease_record l "paused",
  )

  mine_tests :
      (state : Fields)
      → lease ≢ ""
      → text_at render "lease" state ≡ lease
      → ((text_at render "lease" state == "") ≡ false)
        × ((lease == text_at render "lease" state) ≡ true)
  mine_tests state ne same =
      ground (
        arith,
        eq_iff (text_at render "lease" state) "",
        eq_iff lease (text_at render "lease" state),
      )

  phase_of_closed : (asked : Bool) → phase_of true "paused" asked ≡ closed
  unfolding phase_of
  phase_of_closed asked = refl

  phase_of_other : (asked : Bool) → phase_of true "active" asked ≡ other
  unfolding phase_of
  phase_of_other asked = refl

  -- What a pause of the current lease does, by the tests of its status.
  abbrev choice : Fields → Bool → Bool → Bool → Option Fields × Response
  choice state paused pending active =
      if paused
      then (none, already_paused)
      else if pending
      then (some (put "pause_requested" (bool true) state), pause_queued)
      else if not active
      then (none, lease_not_active)
      else (some (lease_record lease "paused"), paused_now)

  choice_leaves :
      (state : Fields) (paused pending active : Bool)
      → (paused ≡ true → phase state ≡ closed)
      → (pending ≡ true → phase (put "pause_requested" (bool true) state) ≡ held)
      → (active ≡ true → phase state ≡ other)
      → (choice state paused pending active).1 ≢ lease_not_active
      → PauseLeaves (phase state) (phase (updated (choice state paused pending active).0 state))
  choice_leaves state true pending active hp hq ha accepted = rw (hp refl) (inl refl)
  choice_leaves state false true active hp hq ha accepted = rw (hq refl) tt
  choice_leaves state false false true hp hq ha accepted =
      rw (ha refl, phase-lease_record lease "paused", eq_refl lease, phase_of_closed false)
        (inr refl)
  choice_leaves state false false false hp hq ha accepted = absurd (accepted refl)

  choice_moves :
      (state : Fields) (paused pending active : Bool)
      → (paused ≡ true → phase state ≡ closed)
      → (pending ≡ true → phase (put "pause_requested" (bool true) state) ≡ held)
      → (active ≡ true → phase state ≡ other)
      → let next = phase (updated (choice state paused pending active).0 state) in
        (next ≡ phase state) ⊎ PauseLeaves (phase state) next
  choice_moves state true pending active hp hq ha = inl refl
  choice_moves state false true active hp hq ha = inr (rw (hq refl) tt)
  choice_moves state false false true hp hq ha =
      inr (choice_leaves state false false true hp hq ha (λ e. cc))
  choice_moves state false false false hp hq ha = inl refl

  pause_chosen :
      (state : Fields)
      → lease ≢ ""
      → text_at render "lease" state ≡ lease
      → let status = text_at render "status" state in
        pause_state render lease state
        ≡ choice state (status == "paused") (status == "pending") (status == "active")
  unfolding pause_state
  pause_chosen state ne same = let (e1, e2) = mine_tests state ne same in rw (e1, e2)

  module _ (state : Fields) (same : text_at render "lease" state ≡ lease) where
    status_paused : (text_at render "status" state == "paused") ≡ true → phase state ≡ closed
    status_paused h =
        phase-mine state same
        ∙ rw ((eq_iff (text_at render "status" state) "paused").0 h) (phase_of_closed _)

    status_active : (text_at render "status" state == "active") ≡ true → phase state ≡ other
    status_active h =
        phase-mine state same
        ∙ rw ((eq_iff (text_at render "status" state) "active").0 h) (phase_of_other _)

    status_pending :
        (text_at render "status" state == "pending") ≡ true
        → phase (put "pause_requested" (bool true) state) ≡ held
    status_pending h =
        phase-ask state ((eq_iff (text_at render "status" state) "pending").0 h)
        ∙ rw ((eq_iff (text_at render "lease" state) lease).1 same)

  -- A pause of the lease that is not refused leaves it held, closed or replaced, and it closes it
  -- only where it was closed already, or active.
  pub phase-pause_own :
      (state : Fields)
      → lease ≢ ""
      → (pause_state render lease state).1 ≢ lease_not_active
      → PauseLeaves (phase state) (phase (updated (pause_state render lease state).0 state))
  phase-pause_own state ne = elim (lease-cases state) [
    | inl same ↦ rw (pause_chosen state ne same) (
        choice_leaves state _ _ _ (status_paused state same) (status_pending state same)
          (status_active state same))
    | inr differ ↦ λ _. rw (pause_state_foreign state differ, phase-foreign state differ) tt
  ]

  -- A refused one leaves the phase.
  pub phase-pause_any :
      (state : Fields)
      → lease ≢ ""
      → let next = phase (updated (pause_state render lease state).0 state) in
        (next ≡ phase state) ⊎ PauseLeaves (phase state) next
  phase-pause_any state ne = elim (lease-cases state) [
    | inl same ↦ rw (pause_chosen state ne same) (
        choice_moves state _ _ _ (status_paused state same) (status_pending state same)
          (status_active state same))
    | inr differ ↦ inl (rw (pause_state_foreign state differ))
  ]

  is_str_sound : (s : String) (v : Value) → is_str s v ≡ true → v ≡ str s
  unfolding is_str
  is_str_sound s (str t) h = ap str ((eq_iff t s).0 h)
  is_str_sound s _ h = cc

  pending_open :
      (mine asked : Bool) (p : Phase)
      → phase_of mine "pending" asked ≡ p
      → (p ≢ closed) × (p ≢ other)
  unfolding phase_of
  pending_open true true p e = (λ h. cc, λ h. cc)
  pending_open true false p e = (λ h. cc, λ h. cc)
  pending_open false asked p e = (λ h. cc, λ h. cc)

  status_of_pending :
      (state : Fields)
      → is_str "pending" (get "status" state) ≡ true
      → text_at render "status" state ≡ "pending"
  unfolding text_at
  status_of_pending state h = rw (
      get_or-of-get "status" (str "") "pending" state
        (is_str_sound "pending" (get "status" state) h))

  -- A state that a restart resumes is not closed, nor active.
  pub phase-resumed :
      (state : Fields)
      → is_str "pending" (get "status" state) ≡ true
      → (phase state ≢ closed) × (phase state ≢ other)
  unfolding phase
  phase-resumed state h = rw (status_of_pending state h) (
      pending_open (text_at render "lease" state == lease) (truthy (get "pause_requested" state)) _
        refl)

  pub phase-active :
      (state : Fields)
      → text_at render "lease" state ≡ lease
      → text_at render "status" state ≡ "active"
      → phase state ≡ other
  phase-active state same h =
      status_active state same ((eq_iff (text_at render "status" state) "active").1 h)

  pub phase-pending : phase (lease_record lease "pending") ≡ waiting
  unfolding phase_of
  phase-pending = rw (phase-lease_record lease "pending", eq_refl lease)
