-- ===== src/Dynamic/Claims.antt =====
-- The gate on the claims of the core dispatcher: `_all_board_db_paths`, `_row_assignee`,
-- `_record_resource_diagnostics` and the wrapper of `install_core_claim_admission`.
pub mod Admitted
pub mod Ended
use hermes_n8n_control_plane.Prelude.{
  ℕ, String, Bool, true, false, not, ◌&&◌, Option, none, some, List, [], ◌∷◌, ◌++◌, map, ◌==◌,
  text_comparable, if◌then◌else◌, leb, length, keep, strip, Result, ok, err,
}
use hermes_n8n_control_plane.Json.{Value, Fields, get, truthy, str_of}
use hermes_n8n_control_plane.Router.Events.{text_or_empty}
use hermes_n8n_control_plane.Resource.{Attempt, done, raised, ◌>>=◌}
use hermes_n8n_control_plane.Resource.Config.{Reader, Pool}
use hermes_n8n_control_plane.Resource.Workers.{
  History, World, Tables, TaskRow, Machine, Quiesced, reaped, Ran, quiesce_superseded_worker,
}
use hermes_n8n_control_plane.Resource.Scan.{
  BoardFile, Active, board_db_is_enumerable, first_of_each, scan_boards,
}
use hermes_n8n_control_plane.Resource.Outcomes.{Outcome, record_resource_admission_outcome}
use hermes_n8n_control_plane.Resource.Dispatch.Entries.{is_clear, reason_of}
use hermes_n8n_control_plane.Dynamic.Backends.{Net}
use hermes_n8n_control_plane.Dynamic.Policies.{DynamicResource, dynamic_for_assignee, dynamic_pool}

-- The boards of the host with the default one: the board at hand (an error of its lookup raises),
-- the default board where it is found, the sorted boards below the root, and what each reads as.
pub record AllBoards : Type 0 where
  pub current : Attempt BoardFile
  pub default_board : Option BoardFile
  pub named : List BoardFile
  pub read : String → Result Tables

abbrev pub default_or : BoardFile → Option BoardFile → BoardFile
default_or current none = current
default_or current (some default) = default

abbrev pub if_file : BoardFile → List BoardFile
if_file f = if f.is_file then f ∷ [] else []

-- `_all_board_db_paths`
unfoldable pub all_board_db_paths : AllBoards → Attempt (List String)
unfolding first_of_each board_db_is_enumerable
all_board_db_paths boards = elim boards.current [
  | raised f ↦ raised f
  | done current ↦ done (
      first_of_each [] (
        map (λ (f : BoardFile). f.resolved)
          (keep (λ (f : BoardFile). f.is_file)
            (if_file (default_or current boards.default_board)
              ++ keep (λ (f : BoardFile). f.is_file && board_db_is_enumerable f) boards.named
              ++ if_file current))))
]

-- `_active_resource_workers` with these paths.
unfoldable pub active_on_all_boards : AllBoards → Machine → Pool → Attempt (List Active)
unfolding all_board_db_paths scan_boards
active_on_all_boards boards m pool = do
  paths ← all_board_db_paths boards
  scan_boards m pool boards.read paths []

-- What the gate stands before: the configuration, the board of the connection, its rows, the locks,
-- the system, and the claim of the core, which may raise and may give none.
pub record Gate : Type 0 where
  pub net : Net
  pub reader : Reader
  pub lane : String
  pub kanban_config : Attempt Fields
  pub board : String
  pub conn : Result Tables
  pub boards : AllBoards
  pub resource_lock : String → Attempt Bool
  pub world : World
  pub claim : String → Attempt (Option Value)

-- What the gate has done: the events, the outcomes, and the tasks that it tried to claim.
pub record Ledger : Type 0 where
  pub history : History
  pub outcomes : List Outcome
  pub claims : List String

-- `_row_assignee`: the assignee of the task, or else the default one.
unfoldable pub assigned : Reader → Fields → List TaskRow → String → Option String
unfolding strip truthy str_of get
assigned rd cfg [] task_id = none
assigned rd cfg (t ∷ ts) task_id =
    let rest = assigned rd cfg ts task_id in
    if t.id == task_id then named_or_default t.assignee else rest
  where
    default_name : Option String
    default_name =
        if strip (text_or_empty rd.render (get "default_assignee" cfg)) == ""
        then none
        else some (strip (text_or_empty rd.render (get "default_assignee" cfg)))

    named_or_default : Option String → Option String
    named_or_default none = default_name
    named_or_default (some s) = if strip s == "" then default_name else some (strip s)

unfoldable pub row_assignee : Reader → Fields → Result Tables → String → Option String
unfolding assigned
row_assignee rd cfg (err text) task_id = none
row_assignee rd cfg (ok tables) task_id = assigned rd cfg tables.tasks task_id

abbrev pub or_blank : Option String → String
or_blank none = ""
or_blank (some s) = s

-- The resource of a task: the configuration, its assignee, and the policies.
unfoldable pub resource_for_task : Gate → String → Attempt (Option DynamicResource)
unfolding row_assignee dynamic_for_assignee
resource_for_task gate task_id = do
  cfg ← gate.kanban_config
  dynamic_for_assignee gate.net gate.reader cfg
      (or_blank (row_assignee gate.reader cfg gate.conn task_id))

-- One diagnostic as `_record_resource_diagnostics` records it.
unfoldable pub note_outcome :
    Gate → String → String → Option Pool → Option ℕ → Option String → Ledger → Ledger
unfolding record_resource_admission_outcome
note_outcome gate task_id reason pool active board ledger = record {
  history = ledger.history;
  outcomes =
      record_resource_admission_outcome
        (record {
          task_id = some task_id;
          board = board;
          resource_group = elim pool [ none ↦ none | some p ↦ some p.name ];
          reason = reason;
          lane = some gate.lane;
          resource_active = active;
          resource_capacity = elim pool [ none ↦ none | some p ↦ some p.capacity ];
        })
        ledger.outcomes;
  claims = ledger.claims;
}

abbrev pub Claimed : Type 0
Claimed = Attempt (Option Value) × Ledger

-- A refusal: the diagnostic, and no claim.
abbrev pub refuse : Gate → String → String → Pool → Option ℕ → Ledger → Claimed
refuse gate task_id reason pool active ledger =
    (done none, note_outcome gate task_id reason (some pool) active (some gate.board) ledger)

abbrev pub tried : Gate → String → Ledger → Claimed
tried gate task_id ledger = (
  gate.claim task_id,
  record { history = ledger.history; outcomes = ledger.outcomes; claims = task_id ∷ ledger.claims },
)

-- A claim that was made leaves a diagnostic.
abbrev pub noted_claim : Gate → String → Pool → Claimed → Claimed
noted_claim gate task_id pool (done (some task), ledger) = (
  done (some task),
  note_outcome gate task_id "resource_admitted" (some pool) none (some gate.board) ledger,
)
noted_claim gate task_id pool (answer, ledger) = (answer, ledger)

-- The check of the capacity, and the claim under the lock.
unfoldable pub claim_if_free : Gate → String → Pool → Attempt (List Active) → Ledger → Claimed
unfolding note_outcome
claim_if_free gate task_id pool (raised f) ledger = (raised f, ledger)
claim_if_free gate task_id pool (done found) ledger = elim (leb pool.capacity (length found)) [
  | true ↦ refuse gate task_id "resource_busy" pool (some (length found)) ledger
  | false ↦ noted_claim gate task_id pool (tried gate task_id ledger)
]

-- The diagnostic of an earlier worker that was ended.
abbrev pub noted_reap : Gate → String → Pool → Quiesced → Ledger → Ledger
noted_reap gate task_id pool (reaped run pid outcome) ledger =
    note_outcome gate task_id "superseded_worker_reaped" (some pool) none (some gate.board) ledger
noted_reap gate task_id pool _ ledger = ledger

unfoldable pub after_quiesce : Gate → String → Pool → Attempt Quiesced → Ledger → Claimed
unfolding claim_if_free active_on_all_boards note_outcome
after_quiesce gate task_id pool (raised f) ledger = (raised f, ledger)
after_quiesce gate task_id pool (done reap) ledger = elim (is_clear reap) [
  | false ↦ refuse gate task_id (reason_of reap) pool none ledger
  | true ↦
      claim_if_free gate task_id pool
        (active_on_all_boards gate.boards (gate.world ledger.history) pool)
        (noted_reap gate task_id pool reap ledger)
]

abbrev pub with_history : History → Ledger → Ledger
with_history h ledger = record { history = h; outcomes = ledger.outcomes; claims = ledger.claims }

abbrev pub continued : Gate → String → Pool → Ledger → Ran Quiesced → Option Claimed
continued gate task_id pool ledger none = none
continued gate task_id pool ledger (some (reap, h)) =
    some (after_quiesce gate task_id pool reap (with_history h ledger))

-- The body of the `with` statement.
unfoldable pub locked_claim : ℕ → Gate → String → Pool → Attempt Bool → Ledger → Option Claimed
unfolding after_quiesce quiesce_superseded_worker note_outcome
locked_claim fuel gate task_id pool (raised f) ledger = some (raised f, ledger)
locked_claim fuel gate task_id pool (done false) ledger =
    some (refuse gate task_id "resource_locked" pool none ledger)
locked_claim fuel gate task_id pool (done true) ledger =
    continued gate task_id pool ledger
      (quiesce_superseded_worker fuel gate.world gate.conn task_id pool.grace ledger.history)

-- `except Exception`
abbrev pub refused_on_error : Gate → String → Pool → Option Claimed → Option Claimed
refused_on_error gate task_id pool none = none
refused_on_error gate task_id pool (some (done answer, ledger)) = some (done answer, ledger)
refused_on_error gate task_id pool (some (raised f, ledger)) =
    some (refuse gate task_id "resource_admission_failed" pool none ledger)

unfoldable pub claim_under :
    ℕ → Gate → String → Attempt (Option DynamicResource) → Ledger → Option Claimed
unfolding locked_claim note_outcome
claim_under fuel gate task_id (raised f) ledger =
    some (done none, note_outcome gate task_id "resource_config_invalid" none none none ledger)
claim_under fuel gate task_id (done none) ledger = some (tried gate task_id ledger)
claim_under fuel gate task_id (done (some r)) ledger =
    refused_on_error gate task_id (dynamic_pool gate.net r) (
      locked_claim fuel gate task_id (dynamic_pool gate.net r) (gate.resource_lock r.policy.name)
        ledger)

-- The wrapper round `claim_task` and `claim_review_task`.
unfoldable pub guarded_claim : ℕ → Gate → String → Ledger → Option Claimed
unfolding claim_under resource_for_task
guarded_claim fuel gate task_id ledger =
    claim_under fuel gate task_id (resource_for_task gate task_id) ledger
