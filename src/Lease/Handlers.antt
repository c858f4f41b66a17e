-- ===== src/Lease/Handlers.antt =====
-- The HTTP handlers of controller.py. A handler gives the file that it leaves, its response, and the
-- lease of the background thread that it starts, if any.
use hermes_n8n_control_plane.Prelude.{
  ℕ, String, Bool, true, false, not, ◌&&◌, Option, none, some, ◌==◌, text_comparable, strip,
  drop_prefix, Result, ok, err, ◌>>=◌, if◌then◌else◌,
}
use hermes_n8n_control_plane.Json.{Value, Fields, bool, str, end, field, get_or, put}
use hermes_n8n_control_plane.Lease.Defs.{
  StateFile, load_state, write_state, lease_record, text_at, read_token,
}

pub record Response : Type 0 where
  pub status : ℕ
  pub body : Fields

pub record Served : Type 0 where
  pub file : StateFile
  pub response : Response
  pub started : Option String

abbrev pub answer : ℕ → Fields → Response
answer status body = record { status = status; body = body }

abbrev pub failure : ℕ → String → Response
failure status error = answer status (field "ok" (bool false) (field "error" (str error) end))

-- A handler that leaves the file and starts no thread.
abbrev pub only : StateFile → Response → Served
only file response = record { file = file; response = response; started = none }

-- `_authorized`
unfoldable pub authorized : Option String → String → Bool
unfolding drop_prefix strip read_token
authorized token header = elim (drop_prefix "Bearer " header) [
  | none ↦ false
  | some rest ↦ elim (read_token token) [
    | err _ ↦ false
    | ok expected ↦ not (strip rest == "") && strip rest == expected
  ]
]

-- `_trigger`; `fresh` is the new UUID.
unfoldable pub trigger : String → StateFile → Result Served
unfolding lease_record
trigger fresh file = do
  state ← load_state file
  ok (record {
    file = write_state (lease_record fresh "pending");
    response =
        answer 202
          (field "ok" (bool true) (field "accepted" (bool true) (field "lease" (str fresh) end)));
    started = some fresh;
  })

-- The responses of `_pause`.
abbrev pub pause_answer : ℕ → Bool → Bool → String → Response
pause_answer status good paused reason =
    answer status
      (field "ok" (bool good) (field "paused" (bool paused) (field "reason" (str reason) end)))

abbrev pub superseded : Response
superseded = pause_answer 200 true false "superseded"

abbrev pub already_paused : Response
already_paused = pause_answer 200 true true "already_paused"

abbrev pub pause_queued : Response
pause_queued = pause_answer 202 true false "pause_queued"

abbrev pub lease_not_active : Response
lease_not_active = pause_answer 409 false false "lease_not_active"

abbrev pub paused_now : Response
paused_now = answer 200 (field "ok" (bool true) (field "paused" (bool true) end))

-- A handler that writes a state, or nothing.
abbrev pub commit : StateFile → Option Fields × Response → Served
commit file (none, response) = only file response
commit file (some state, response) = only (write_state state) response

-- `except RuntimeError` of the handlers.
abbrev pub or_unavailable : StateFile → Result Served → Served
or_unavailable file (ok served) = served
or_unavailable file (err e) = only file (failure 503 e)

module _ (render : Value → String) where
  -- `_pause` on the loaded state: what to write, if anything, and the response.
  unfoldable pub pause_state : String → Fields → Option Fields × Response
  unfolding text_at put lease_record
  pause_state lease state =
      let current = text_at render "lease" state in
      let status = text_at render "status" state in
      if current == ""
      then (none, superseded)
      else if not (lease == current)
      then (none, superseded)
      else if status == "paused"
      then (none, already_paused)
      else if status == "pending"
      then (some (put "pause_requested" (bool true) state), pause_queued)
      else if not (status == "active")
      then (none, lease_not_active)
      else (some (lease_record lease "paused"), paused_now)

  unfoldable pub pause : String → StateFile → Result Served
  unfolding pause_state
  pause lease file = do state ← load_state file; ok (commit file (pause_state lease state))

  -- `do_POST`; `lease` is the first `lease` of the query, the empty text if there is none.
  unfoldable pub do_post : String → Option String → String → String → String → StateFile → Served
  unfolding strip
  do_post fresh token header path lease file =
      if not (authorized token (strip header))
      then only file (failure 401 "authorization_required")
      else if path == "/trigger"
      then or_unavailable file (trigger fresh file)
      else if path == "/pause"
      then (if strip lease == ""
          then only file (failure 400 "lease_required")
          else or_unavailable file (pause (strip lease) file))
      else only file (failure 404 "not_found")

-- `do_GET`
unfoldable pub do_get : String → StateFile → Response
unfolding load_state get_or
do_get path file =
    if not (path == "/healthz") then failure 404 "not_found" else elim (load_state file) [
      | err e ↦ failure 503 e
      | ok state ↦
          answer 200
            (field "ok" (bool true) (field "lease_status" (get_or "status" state (str "none")) end))
    ]

-- `do_OPTIONS`: the `Allow` header stands in the body here.
unfoldable pub do_options : String → Response
do_options path =
    if not (path == "/trigger")
    then failure 404 "not_found"
    else answer 204 (field "Allow" (str "POST, OPTIONS") end)
