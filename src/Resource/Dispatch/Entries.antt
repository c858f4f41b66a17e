-- ===== src/Resource/Dispatch/Entries.antt =====
-- The entries that the guarded dispatcher returns: `_entry`, and the keys that it adds to the results
-- of the original dispatcher.
use hermes_n8n_control_plane.Prelude.{
  ℕ, String, Bool, true, false, Option, none, some, if◌then◌else◌,
}
use hermes_n8n_control_plane.Json.{
  Value, Fields, null, bool, int, str, obj, end, field, has_key, put,
}
use hermes_n8n_control_plane.Resource.Config.{WorkerResource}
use hermes_n8n_control_plane.Resource.Workers.{
  Quiesced, idle, worker_active, pid_reused, unverified, reap_failed, reaped,
}
use hermes_n8n_control_plane.Resource.Scan.{Active}
use hermes_n8n_control_plane.Resource.Outcomes.{Outcome}

abbrev pub option_int : Option ℕ → Value
option_int none = null
option_int (some n) = int n

abbrev pub option_str : Option String → Value
option_str none = null
option_str (some s) = str s

-- One dict of `active_workers`; a reservation has one key more.
unfoldable pub active_value : Active → Value
active_value a = obj (
    field "board_db" (str a.board_db) (
      field "task_id" (str a.task_id) (
        field "run_id" (option_int a.run_id) (
          field "assignee" (str a.assignee) (
            field "pid" (option_int a.pid) (
              field "terminal" (bool a.terminal) (
                field "identity_verified" (bool a.identity_verified)
                  (if a.reservation then field "reservation" (bool true) end else end))))))))

-- `_entry`, with the keys of `extra` after its own.
unfoldable pub entry_value : String → String → WorkerResource → String → Fields → Value
entry_value board task_id r reason extra = obj (
    field "task_id" (str task_id) (
      field "status" (str "ready") (
        field "changed" (bool false) (
          field "reason" (str reason) (
            field "board" (str board) (
              field "resource_group" (str r.name)
                (field "resource_capacity" (int r.capacity) extra)))))))

-- The outcome that `_entry` records.
unfoldable pub entry_outcome : String → String → WorkerResource → String → Option ℕ → Outcome
entry_outcome board task_id r reason active = record {
  task_id = some task_id;
  board = some board;
  resource_group = some r.name;
  reason = reason;
  lane = some "rework";
  resource_active = active;
  resource_capacity = some r.capacity;
}

-- Whether the dict of a quiesced worker has a true `ok`, and what it has under the other keys.
abbrev pub is_clear : Quiesced → Bool
is_clear (worker_active run pid) = false
is_clear (unverified run pid) = false
is_clear (reap_failed run pid) = false
is_clear _ = true

-- `str(reap.get("reason") or "resource_admission_failed")`
abbrev pub reason_of : Quiesced → String
reason_of (worker_active run pid) = "task_worker_active"
reason_of (unverified run pid) = "superseded_worker_identity_unverified"
reason_of (reap_failed run pid) = "superseded_worker_reap_failed"
reason_of _ = "resource_admission_failed"

abbrev pub run_and_pid : Quiesced → Fields
run_and_pid idle = field "run_id" null (field "pid" null end)
run_and_pid (worker_active run pid) = field "run_id" (int run) (field "pid" (int pid) end)
run_and_pid (pid_reused run pid) = field "run_id" (int run) (field "pid" (int pid) end)
run_and_pid (unverified run pid) = field "run_id" (int run) (field "pid" (int pid) end)
run_and_pid (reap_failed run pid) = field "run_id" (int run) (field "pid" (int pid) end)
run_and_pid (reaped run pid outcome) = field "run_id" (int run) (field "pid" (int pid) end)

-- `item.setdefault(key, value)`
unfoldable pub set_default : String → Value → Fields → Fields
unfolding has_key put
set_default k v fs = if has_key k fs then fs else put k v fs

abbrev pub with_reaped : Quiesced → Fields → Fields
with_reaped (reaped run pid outcome) fs =
    set_default "superseded_run_reaped"
      (obj (
        field "run_id" (int run)
          (field "pid" (int pid) (field "outcome" (option_str outcome) end))))
      fs
with_reaped _ fs = fs

-- One item of the original's result; what is not a dict is left alone.
unfoldable pub decorate : WorkerResource → Quiesced → Value → Value
unfolding set_default
decorate r reap (obj fs) = obj (
    with_reaped reap (
      set_default "resource_capacity" (int r.capacity)
        (set_default "resource_group" (str r.name) fs)))
decorate r reap v = v
