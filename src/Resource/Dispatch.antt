-- ===== src/Resource/Dispatch.antt =====
-- The guarded dispatcher of the rework lane, which `install_resource_admission` puts in the place of
-- the original one.
pub mod Entries
pub mod Body
pub mod Admitting
pub mod Ending
use hermes_n8n_control_plane.Prelude.{
  ℕ, suc, ◌+◌, String, Bool, true, false, not, Option, none, some, List, [], ◌∷◌, map, ◌==◌,
  text_comparable, if◌then◌else◌, leb, length, strip, Result, ok, err,
}
use hermes_n8n_control_plane.Json.{
  Value, Fields, null, bool, int, str, obj, arr, end, field, get, has_key, put, pack, truthy,
  str_of,
}
use hermes_n8n_control_plane.Resource.{
  Attempt, done, raised, Fault, admission, os, other, ◌>>=◌, ◌>>◌,
}
use hermes_n8n_control_plane.Resource.Config.{Reader, WorkerResource, resource_for_assignee}
use hermes_n8n_control_plane.Resource.Workers.{
  History, World, Tables, Quiesced, idle, worker_active, pid_reused, unverified, reap_failed,
  reaped, quiesce_superseded_worker, Ran,
}
use hermes_n8n_control_plane.Resource.Scan.{Boards, Active, board_db_paths, active_resource_workers}
use hermes_n8n_control_plane.Resource.Outcomes.{Outcome, record_resource_admission_outcome}
use Body.{
  Call, Candidate, Edge, Desk, Answered, resource_lock, delegate, locked_body, guard, guarded,
}
use Prim.Native.String.{◌++◌ as joins}

abbrev pub config_error : Edge → String → String → Value
config_error edge task_id text = obj (
    field "task_id" (str task_id) (
      field "status" (str "ready") (
        field "changed" (bool false) (
          field "reason" (str "resource_config_invalid")
            (field "board" (str edge.board) (field "error" (str text) end))))))

-- What follows the choice of the resource for the candidate.
unfoldable pub under_resource :
    ℕ → Edge → Call → String → Attempt (Option WorkerResource) → Desk → Option Answered
unfolding delegate guard locked_body resource_lock
under_resource fuel edge call task_id (raised (admission text)) desk =
    some (done (config_error edge task_id text ∷ []), desk)
under_resource fuel edge call task_id (raised f) desk = some (raised f, desk)
under_resource fuel edge call task_id (done none) desk = some (delegate edge call desk)
under_resource fuel edge call task_id (done (some r)) desk =
    guarded edge r task_id (locked_body fuel edge call r task_id (resource_lock edge r.name) desk)

-- The configuration: the argument, or the edge module's; no mapping is an empty one.
abbrev pub as_fields : Value → Fields
as_fields (obj fs) = fs
as_fields _ = end

abbrev pub config_of : Edge → Call → Fields
config_of edge call = elim call.cfg [
  | none ↦ as_fields edge.kanban_config
  | some null ↦ as_fields edge.kanban_config
  | some v ↦ as_fields v
]

abbrev pub stripped : Option String → String
stripped none = ""
stripped (some s) = strip s

-- The candidate's assignee, or the configured default.
abbrev pub assignee_of : Reader → Fields → Candidate → String
assignee_of rd cfg c =
    if stripped c.assignee == ""
    then strip (
        if truthy (get "default_assignee" cfg)
        then str_of rd.render (get "default_assignee" cfg)
        else "")
    else stripped c.assignee

-- Only the first pending task is a candidate; without one, or when the look for one raises, the
-- original is called as it is.
unfoldable pub for_candidates : ℕ → Edge → Call → Attempt (List Candidate) → Desk → Option Answered
unfolding under_resource delegate resource_for_assignee strip truthy str_of
for_candidates fuel edge call (raised f) desk = some (delegate edge call desk)
for_candidates fuel edge call (done []) desk = some (delegate edge call desk)
for_candidates fuel edge call (done (c ∷ cs)) desk =
    under_resource fuel edge call c.id
      (resource_for_assignee edge.reader (config_of edge call)
        (assignee_of edge.reader (config_of edge call) c))
      desk

-- `guarded_dispatch`
unfoldable pub guarded_dispatch : ℕ → Edge → Call → Desk → Option Answered
unfolding for_candidates
guarded_dispatch fuel edge call desk =
    for_candidates fuel edge call (edge.pending_rework_tasks call.task_ids call.normalized_task_ids)
      desk
