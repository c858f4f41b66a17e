-- ===== src/Resource/Dispatch/Body.antt =====
-- What the guarded dispatcher does for one candidate under its resource: `_resource_lock`, and the
-- body and the handler of the wrapper's `try` statement.
use hermes_n8n_control_plane.Prelude.{
  ℕ, String, Bool, true, false, Option, none, some, List, [], ◌∷◌, map, text_comparable, leb,
  length, Result,
}
use hermes_n8n_control_plane.Json.{Value, Fields, int, str, arr, end, field, pack}
use hermes_n8n_control_plane.Resource.{Attempt, done, raised, Fault, admission, os, other}
use hermes_n8n_control_plane.Resource.Config.{Reader, pool_of, WorkerResource}
use hermes_n8n_control_plane.Resource.Workers.{
  History, World, Tables, Quiesced, idle, quiesce_superseded_worker, Ran,
}
use hermes_n8n_control_plane.Resource.Scan.{Boards, Active, board_db_paths, active_resource_workers}
use hermes_n8n_control_plane.Resource.Outcomes.{Outcome, record_resource_admission_outcome}
use hermes_n8n_control_plane.Resource.Dispatch.Entries.{
  active_value, entry_value, entry_outcome, is_clear, reason_of, run_and_pid, decorate,
}
use Prim.Native.String.{◌++◌ as joins}

-- The keyword arguments that the wrapper reads.
pub record Call : Type 0 where
  pub cfg : Option Value
  pub task_ids : Option (List String)
  pub normalized_task_ids : Option (List String)
  pub dry_run : Bool

pub record Candidate : Type 0 where
  pub id : String
  pub assignee : Option String

-- What the wrapper is installed in: the edge module's dispatcher and its helpers, the databases, the
-- locks of the host and the system. `flock` is the try for the lock file of a resource beside the
-- first database: false for a BlockingIOError.
pub record Edge : Type 0 where
  pub reader : Reader
  pub board : String
  pub kanban_config : Value
  pub pending_rework_tasks : Option (List String) → Option (List String) → Attempt (List Candidate)
  pub original : Call → Attempt (List Value)
  pub boards : Boards
  pub conn : Result Tables
  pub has_fcntl : Bool
  pub flock : String → String → Attempt Bool
  pub world : World

-- What the wrapper has done: the events of the system, the outcomes, and the calls of the original
-- dispatcher, the latest first.
pub record Desk : Type 0 where
  pub history : History
  pub outcomes : List Outcome
  pub calls : List Call

-- `_resource_lock`, up to the `yield`: whether the lock is held.
unfoldable pub resource_lock : Edge → String → Attempt Bool
unfolding board_db_paths
resource_lock edge name = elim edge.has_fcntl [
  | false ↦ done false
  | true ↦ elim (board_db_paths edge.boards) [
    | raised f ↦ raised f
    | done [] ↦ done false
    | done (p ∷ ps) ↦ edge.flock p name
  ]
]

abbrev pub Answered : Type 0
Answered = Attempt (List Value) × Desk

-- `_entry`, which returns its list and records its outcome.
unfoldable pub entry : Edge → WorkerResource → String → String → Fields → Option ℕ → Desk → Answered
unfolding entry_value entry_outcome record_resource_admission_outcome
entry edge r task_id reason extra active desk = (
  done (entry_value edge.board task_id r reason extra ∷ []),
  record {
    history = desk.history;
    outcomes =
        record_resource_admission_outcome (entry_outcome edge.board task_id r reason active)
          desk.outcomes;
    calls = desk.calls;
  },
)

-- A call of the original dispatcher.
unfoldable pub delegate : Edge → Call → Desk → Answered
delegate edge call desk = (
  edge.original call,
  record { history = desk.history; outcomes = desk.outcomes; calls = call ∷ desk.calls },
)

-- The arguments with the task that the policy was resolved for.
abbrev pub pinned : Call → String → Call
pinned call task_id = record {
  cfg = call.cfg;
  task_ids = some (task_id ∷ []);
  normalized_task_ids = call.normalized_task_ids;
  dry_run = call.dry_run;
}

abbrev pub decorated : WorkerResource → Quiesced → Answered → Answered
decorated r reap (raised f, desk) = (raised f, desk)
decorated r reap (done values, desk) = (done (map (λ v. decorate r reap v) values), desk)

-- The check of the capacity, and the delegation.
unfoldable pub admit :
    Edge → Call → WorkerResource → String → Quiesced → Attempt (List Active) → Desk → Answered
unfolding entry delegate decorate active_value
admit edge call r task_id reap (raised f) desk = (raised f, desk)
admit edge call r task_id reap (done found) desk = elim (leb r.capacity (length found)) [
  | true ↦
      entry edge r task_id "resource_busy"
        (field "resource_active" (int (length found))
          (field "active_workers" (arr (pack (map (λ a. active_value a) found))) end))
        (some (length found)) desk
  | false ↦ decorated r reap (delegate edge (pinned call task_id) desk)
]

-- What follows the step that clears an earlier worker of the task.
unfoldable pub proceed : Edge → Call → WorkerResource → String → Attempt Quiesced → Desk → Answered
unfolding entry admit active_resource_workers
proceed edge call r task_id (raised f) desk = (raised f, desk)
proceed edge call r task_id (done reap) desk = elim (is_clear reap) [
  | false ↦ entry edge r task_id (reason_of reap) (run_and_pid reap) none desk
  | true ↦
      admit edge call r task_id reap
        (active_resource_workers edge.boards (edge.world desk.history) (pool_of r)) desk
]

abbrev pub at : History → Desk → Desk
at h desk = record { history = h; outcomes = desk.outcomes; calls = desk.calls }

abbrev pub resumed : Edge → Call → WorkerResource → String → Desk → Ran Quiesced → Option Answered
resumed edge call r task_id desk none = none
resumed edge call r task_id desk (some (reap, h)) =
    some (proceed edge call r task_id reap (at h desk))

-- Under the lock; a dry run clears no worker.
unfoldable pub under_lock :
    ℕ → Edge → Call → WorkerResource → String → Bool → Desk → Option Answered
unfolding proceed quiesce_superseded_worker
under_lock fuel edge call r task_id true desk = some (proceed edge call r task_id (done idle) desk)
under_lock fuel edge call r task_id false desk =
    resumed edge call r task_id desk
      (quiesce_superseded_worker fuel edge.world edge.conn task_id r.grace desk.history)

unfoldable pub locked_body :
    ℕ → Edge → Call → WorkerResource → String → Attempt Bool → Desk → Option Answered
unfolding entry under_lock
locked_body fuel edge call r task_id (raised f) desk = some (raised f, desk)
locked_body fuel edge call r task_id (done false) desk =
    some (entry edge r task_id "resource_locked" end none desk)
locked_body fuel edge call r task_id (done true) desk =
    under_lock fuel edge call r task_id call.dry_run desk

-- `f"{type(exc).__name__}: {exc}"`
abbrev pub fault_text : Fault → String
fault_text (admission text) = joins "ResourceAdmissionError: " text
fault_text (os text) = text
fault_text (other text) = text

-- `except (ResourceAdmissionError, OSError)`
unfoldable pub guard : Edge → WorkerResource → String → Answered → Answered
unfolding entry
guard edge r task_id (done values, desk) = (done values, desk)
guard edge r task_id (raised (other text), desk) = (raised (other text), desk)
guard edge r task_id (raised f, desk) =
    entry edge r task_id "resource_admission_failed" (field "error" (str (fault_text f)) end) none
      desk

abbrev pub guarded : Edge → WorkerResource → String → Option Answered → Option Answered
guarded edge r task_id none = none
guarded edge r task_id (some answered) = some (guard edge r task_id answered)
