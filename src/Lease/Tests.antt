-- ===== src/Lease/Tests.antt =====
-- The theorems on the lease controller at concrete inputs, and runs of its definitions.
use hermes_n8n_control_plane.Prelude.{
  ℕ, ◌≤◌, String, ◌≡◌, refl, ◌≢◌, inl, true, some, List, [], ◌∷◌, length, ok, arith, strip, differ,
  ap, zero, suc,
}
use hermes_n8n_control_plane.Json.{Value, bool, str, obj, end, field}
use hermes_n8n_control_plane.Lease.Defs.{
  StateFile, missing, contents, Outcome, load_state, write_state, closed_record, text_at,
  canonical_lease_id, read_token, resume_pending, background, apply_outcome,
}
use hermes_n8n_control_plane.Lease.Actuator.{busy, call_actuator_serialized, nth, sum, AllBusy}
use hermes_n8n_control_plane.Lease.Actuator.{call_actuator_serialized_bounded}
use hermes_n8n_control_plane.Lease.Handlers.{
  Served, Response, answer, only, pause_queued, authorized, trigger, pause, do_post,
  lease_not_active,
}
use hermes_n8n_control_plane.Lease.System.{System, Event, finished, run}
use hermes_n8n_control_plane.Lease.Pausing.{pause_is_final}
use hermes_n8n_control_plane.Lease.Serving.{Bears, post_needs_token, trigger_resumes}

abbrev show_nothing : Value → String
show_nothing v = ""

abbrev lease_id : String
lease_id = "0f8fad5b-d9cb-469f-a165-70867728950e"

-- The actuator is busy twice, and then done.
abbrev busy_twice : ℕ → Outcome
busy_twice n = elim n [
  | zero ↦ ok (409, [])
  | suc m ↦ elim m [ zero ↦ ok (409, []) | suc k ↦ ok (200, []) ]
]

call_actuator_serialized_bounded_example :
    let (out, slept) = call_actuator_serialized busy_twice in
    (length slept ≤ 6)
    × (sum slept ≤ 231)
    × AllBusy busy_twice 0 (length slept)
    × (out ≡ nth busy_twice 0 (length slept))
    × (busy out ≡ true → length slept ≡ 6)
call_actuator_serialized_bounded_example = call_actuator_serialized_bounded busy_twice

retries_twice : call_actuator_serialized busy_twice ≡ (ok (200, []), 1 ∷ 5 ∷ [])
unfolding call_actuator_serialized
retries_twice = refl

abbrev idle : System
idle = record { file = missing; threads = [] }

abbrev pending_file : StateFile
pending_file =
    contents (some (obj (field "lease" (str lease_id) (field "status" (str "pending") end))))

abbrev asked_file : StateFile
asked_file = contents (
    some (
      obj (
        field "lease" (str lease_id)
          (field "status" (str "pending") (field "pause_requested" (bool true) end)))))

abbrev drawn : Served
drawn = record {
  file = pending_file;
  response =
      answer 202
        (field "ok" (bool true) (field "accepted" (bool true) (field "lease" (str lease_id) end)));
  started = some lease_id;
}

abbrev asked : Served
asked = only asked_file pause_queued

draws : trigger lease_id missing ≡ ok drawn
unfolding trigger load_state write_state
draws = refl

asks : pause show_nothing lease_id pending_file ≡ ok asked
unfolding pause load_state write_state
asks = refl

queued_is_not_refused : pause_queued ≢ lease_not_active
queued_is_not_refused e = omega (arith, ap (λ (r : Response). r.status) e)

abbrev ends_well : List Event
ends_well = finished lease_id (ok (200, [])) ∷ []

ends_paused :
    load_state
      (run show_nothing (record { file = asked_file; threads = lease_id ∷ [] }) ends_well).file
    ≡ ok (closed_record lease_id "paused" 200)
unfolding run background apply_outcome load_state write_state closed_record
ends_paused = refl

pause_is_final_example :
    text_at show_nothing "status" (closed_record lease_id "paused" 200) ≢ "active"
unfolding text_at closed_record run
pause_is_final_example =
    pause_is_final show_nothing lease_id idle drawn asked [] ends_well (differ lease_id "" refl)
      refl draws tt asks queued_is_not_refused (tt, tt) (closed_record lease_id "paused" 200)
      ends_paused refl

canonical_example : canonical_lease_id (str lease_id) ≡ lease_id
unfolding canonical_lease_id
canonical_example = refl

reads_token : read_token (some "secret\n") ≡ ok "secret"
unfolding read_token
reads_token = refl

trigger_resumes_example :
    resume_pending drawn.file (some "secret ") ≡ ok (some (lease_id, "secret"))
unfolding read_token
trigger_resumes_example =
    trigger_resumes lease_id "secret" (some "secret ") missing drawn draws canonical_example
      (differ lease_id "" refl) refl

post_needs_token_example : Bears (some "secret ") (strip "Bearer secret")
unfolding do_post authorized trigger load_state write_state
post_needs_token_example =
    post_needs_token show_nothing lease_id (some "secret ") "Bearer secret" "/trigger" "" missing
      (inl (λ e. cc e))
