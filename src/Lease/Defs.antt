-- ===== src/Lease/Defs.antt =====
-- The lease file of controller.py and what the threads and handlers do to it under `_REQUEST_LOCK`.
use hermes_n8n_control_plane.Prelude.{
  ℕ, String, Bool, true, false, not, ◌&&◌, ◌||◌, Option, none, some, List, [], ◌∷◌, ◌==◌,
  number_comparable, text_comparable, leb, ltb, between, codes, strip, is_digit, Result, ok, err,
  ◌>>=◌, if◌then◌else◌,
}
use hermes_n8n_control_plane.Json.{
  Value, Fields, int, str, obj, end, field, get, get_or, put, truthy, str_of,
}

-- What reading the state file finds; `contents none` is text that is no JSON.
pub data StateFile : Type 0 where
  missing : StateFile
  unreadable : StateFile
  contents : Option Value → StateFile

-- `_load_state`
unfoldable pub load_state : StateFile → Result Fields
load_state missing = ok end
load_state unreadable = err "cannot read lease state"
load_state (contents none) = err "lease state is invalid JSON"
load_state (contents (some (obj fs))) = ok fs
load_state (contents (some _)) = err "lease state must be a JSON object"

-- `_write_state`: the new file replaces the old one whole.
unfoldable pub write_state : Fields → StateFile
write_state fs = contents (some (obj fs))

-- What `_call_actuator_serialized` gives its caller: a status with a body, or an error.
abbrev pub Outcome : Type 0
Outcome = Result (ℕ × List ℕ)

-- The three dicts that the code writes out.
unfoldable pub lease_record : String → String → Fields
lease_record lease status = field "lease" (str lease) (field "status" (str status) end)

unfoldable pub closed_record : String → String → ℕ → Fields
closed_record lease status upstream =
    field "lease" (str lease)
      (field "status" (str status) (field "upstream_status" (int upstream) end))

abbrev pub success : ℕ → Bool
success status = leb 200 status && ltb status 300

module _ (render : Value → String) where
  -- `str(state.get(key, ""))`
  unfoldable pub text_at : String → Fields → String
  unfolding str_of get_or
  text_at key state = str_of render (get_or key state (str ""))

  -- `_trigger_intake_in_background` on an error: only the current lease records it.
  unfoldable pub record_error : String → String → Fields → Option Fields
  unfolding text_at put
  record_error lease e state =
      if text_at "lease" state == lease then some (put "trigger_error" (str e) state) else none

  -- The same on an answer: a superseded lease writes nothing.
  unfoldable pub record_status : String → ℕ → Fields → Option Fields
  unfolding text_at truthy get closed_record
  record_status lease status state =
      if not (text_at "lease" state == lease)
      then none
      else if not (success status)
      then some (closed_record lease "failed" status)
      else if truthy (get "pause_requested" state)
      then some (closed_record lease "paused" status)
      else some (closed_record lease "active" status)

  unfoldable pub apply_outcome : String → Outcome → Fields → Option Fields
  unfolding record_error record_status
  apply_outcome lease (err e) state = record_error lease e state
  apply_outcome lease (ok (status, body)) state = record_status lease status state

  -- `_trigger_intake_in_background`; if the file cannot be loaded the thread dies.
  unfoldable pub background : String → Outcome → StateFile → StateFile
  background lease outcome file = elim (load_state file) [
    | err _ ↦ file
    | ok state ↦ elim (apply_outcome lease outcome state) [
      | none ↦ file
      | some state' ↦ write_state state'
    ]
  ]

-- The text of an UUID, 8-4-4-4-12 lower-case hexadecimal digits: the values that
-- `str(uuid.UUID(value)) == value` accepts.
abbrev pub is_hex : ℕ → Bool
is_hex c = is_digit c || between b'a' b'f' c

unfoldable pub matches_groups : List ℕ → List ℕ → Bool
matches_groups [] [] = true
matches_groups (p ∷ ps) (c ∷ cs) =
    (if p == b'-' then c == b'-' else is_hex c) && matches_groups ps cs
matches_groups _ _ = false

abbrev pub uuid_shape : List ℕ
uuid_shape = codes "xxxxxxxx-xxxx-xxxx-xxxx-xxxxxxxxxxxx"

-- `_canonical_lease_id`: the empty text stands for no lease.
unfoldable pub canonical_lease_id : Value → String
unfolding matches_groups strip
canonical_lease_id (str s) =
    if not (s == strip s) || s == ""
    then ""
    else if matches_groups uuid_shape (codes s)
    then s
    else ""
canonical_lease_id _ = ""

unfoldable pub is_str : String → Value → Bool
is_str s (str t) = t == s
is_str s _ = false

-- `_read_token` on the text of the token file, if it can be read.
unfoldable pub read_token : Option String → Result String
unfolding strip
read_token none = err "intake control token unavailable"
read_token (some text) =
    let value = strip text in if value == "" then err "intake control token empty" else ok value

-- `_resume_pending_trigger_on_startup`: the lease and the token of the thread to start.
unfoldable pub resume_state : Fields → Option String → Result (Option (String × String))
unfolding is_str get canonical_lease_id read_token
resume_state state token =
    let lease = canonical_lease_id (get "lease" state) in
    if not (is_str "pending" (get "status" state))
    then ok none
    else if lease == ""
    then ok none
    else elim (read_token token) [ err e ↦ err e | ok t ↦ ok (some (lease, t)) ]

unfoldable pub resume_pending : StateFile → Option String → Result (Option (String × String))
resume_pending file token = do state ← load_state file; resume_state state token
