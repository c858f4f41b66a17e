-- ===== src/Resource/Scan.antt =====
-- The occupied slots of a resource on every board: `_board_db_is_enumerable`, `_board_db_paths` and
-- `_active_resource_workers`.
pub mod Counting
pub mod Covering
pub mod Reserved
pub mod Occupied
use hermes_n8n_control_plane.Prelude.{
  ℕ, zero, suc, String, Bool, true, false, not, ◌&&◌, Option, none, some, List, [], ◌∷◌, ◌++◌, map,
  ◌==◌, number_comparable, text_comparable, if◌then◌else◌, ltb, contains, keep, drop_prefix, Result,
  ok, err,
}
use hermes_n8n_control_plane.Resource.{Attempt, done, raised, admission, ◌>>=◌}
use hermes_n8n_control_plane.Resource.Config.{Pool, assignee_matches}
use hermes_n8n_control_plane.Resource.Workers.{
  Machine, TaskRun, TaskRow, Tables, pid_alive, worker_identity,
}

-- A `kanban.db` path; `size` is none where `stat` raises an OSError.
pub record BoardFile : Type 0 where
  pub path : String
  pub resolved : String
  pub parent_name : String
  pub is_file : Bool
  pub size : Option ℕ

-- The boards of the host: the board at hand, or the text of the error of its lookup; the sorted
-- matches of the glob; and what each database reads as, or the text of an `sqlite3.Error`.
pub record Boards : Type 0 where
  pub current : Result BoardFile
  pub siblings : List BoardFile
  pub read : String → Result Tables

abbrev has_bytes : Option ℕ → Bool
has_bytes none = false
has_bytes (some zero) = false
has_bytes (some (suc n)) = true

-- `_board_db_is_enumerable`
unfoldable pub board_db_is_enumerable : BoardFile → Bool
board_db_is_enumerable f = elim (drop_prefix "_" f.parent_name) [
  | some rest ↦ false
  | none ↦ has_bytes f.size
]

-- `dict.fromkeys`: the first of equal paths stays.
unfoldable pub first_of_each : List String → List String → List String
first_of_each seen [] = []
first_of_each seen (p ∷ ps) = elim (contains p seen) [
  | true ↦ first_of_each seen ps
  | false ↦ p ∷ first_of_each (p ∷ seen) ps
]

abbrev with_current : BoardFile → List BoardFile → List BoardFile
with_current current candidates =
    if contains current.path (map (λ (f : BoardFile). f.path) candidates)
    then candidates
    else candidates ++ current ∷ []

-- `_board_db_paths`
unfoldable pub board_db_paths : Boards → Attempt (List String)
unfolding board_db_is_enumerable first_of_each
board_db_paths boards = elim boards.current [
  | err text ↦ raised (admission text)
  | ok current ↦ done (
      first_of_each [] (
        map (λ (f : BoardFile). f.resolved)
          (keep (λ (f : BoardFile). f.is_file)
            (with_current current
              (keep (λ (f : BoardFile). f.is_file && board_db_is_enumerable f) boards.siblings)))))
]

-- One entry of the list of occupied slots.
pub record Active : Type 0 where
  pub board_db : String
  pub task_id : String
  pub run_id : Option ℕ
  pub assignee : String
  pub pid : Option ℕ
  pub terminal : Bool
  pub identity_verified : Bool
  pub reservation : Bool

-- `ORDER BY r.id DESC`
unfoldable pub insert_newest : TaskRun → List TaskRun → List TaskRun
insert_newest r [] = r ∷ []
insert_newest r (q ∷ qs) = if ltb r.id q.id then q ∷ insert_newest r qs else r ∷ q ∷ qs

unfoldable pub newest_first : List TaskRun → List TaskRun
unfolding insert_newest
newest_first [] = []
newest_first (r ∷ rs) = insert_newest r (newest_first rs)

-- `LEFT JOIN tasks t ON t.id = r.task_id`: the assignee of the task of a run.
unfoldable pub task_assignee : String → List TaskRow → Option String
task_assignee task_id [] = none
task_assignee task_id (t ∷ ts) = if t.id == task_id then t.assignee else task_assignee task_id ts

-- `row["profile"] or row["assignee"]`
abbrev pub profile_or : Option String → Option String → Option String
profile_or none assignee = assignee
profile_or (some p) assignee = if p == "" then assignee else some p

-- `identity is True`, `identity is not False`, and `is not None`
abbrev pub is_verified : Option Bool → Bool
is_verified (some b) = b
is_verified none = false

abbrev pub not_refuted : Option Bool → Bool
not_refuted (some b) = b
not_refuted none = true

abbrev pub is_some {ℓ} : {A : Type ℓ} → Option A → Bool
is_some none = false
is_some (some a) = true

-- `str(value)` of a column that is a text or null.
abbrev pub shown : Option String → String
shown none = "None"
shown (some s) = s

module _ (m : Machine) (r : Pool) (path : String) where
  -- A run that holds a slot, when its process is not among those seen.
  unfoldable pub counted_pid : TaskRun → Option String → Option ℕ → List ℕ → Option Active
  unfolding pid_alive worker_identity assignee_matches
  counted_pid run assignee none seen = none
  counted_pid run assignee (some pid) seen =
      if assignee_matches r assignee
        && not (contains pid seen)
        && pid_alive m pid
        && not_refuted (worker_identity m pid run.task_id)
      then some (record {
        board_db = path;
        task_id = run.task_id;
        run_id = some run.id;
        assignee = shown assignee;
        pid = some pid;
        terminal = is_some run.ended_at;
        identity_verified = is_verified (worker_identity m pid run.task_id);
        reservation = false;
      })
      else none

  unfoldable pub counted_run : List TaskRow → TaskRun → List ℕ → Option Active
  unfolding counted_pid task_assignee
  counted_run tasks run seen =
      counted_pid run (profile_or run.profile (task_assignee run.task_id tasks)) run.worker_pid seen

  -- A running task that holds a slot: by its process, or by a claim that has none yet.
  unfoldable pub counted_claim : TaskRow → Option ℕ → List ℕ → Option Active
  unfolding pid_alive worker_identity
  counted_claim task (some pid) seen =
      if not (contains pid seen) && pid_alive m pid
      then some (record {
        board_db = path;
        task_id = task.id;
        run_id = task.current_run_id;
        assignee = shown task.assignee;
        pid = some pid;
        terminal = false;
        identity_verified = is_verified (worker_identity m pid task.id);
        reservation = false;
      })
      else none
  counted_claim task none seen = some (record {
    board_db = path;
    task_id = task.id;
    run_id = task.current_run_id;
    assignee = shown task.assignee;
    pid = none;
    terminal = false;
    identity_verified = false;
    reservation = true;
  })

  unfoldable pub counted_task : TaskRow → List ℕ → Option Active
  unfolding counted_claim assignee_matches
  counted_task task seen =
      if task.status == "running" && assignee_matches r task.assignee
      then counted_claim task task.worker_pid seen
      else none

abbrev pub seen_with : Option ℕ → List ℕ → List ℕ
seen_with none seen = seen
seen_with (some pid) seen = pid ∷ seen

abbrev pub prepend {ℓ} : {B : Type ℓ} → Active → List Active × B → List Active × B
prepend a (found, last) = (a ∷ found, last)

-- A loop over rows: the entries that they add, and the processes seen at its end.
module _ {ℓ} {Row : Type ℓ} (counted : Row → List ℕ → Option Active) where
  unfoldable pub scan : List Row → List ℕ → List Active × List ℕ
  scan [] seen = ([], seen)
  scan (row ∷ rows) seen = elim (counted row seen) [
    | none ↦ scan rows seen
    | some a ↦ prepend a (scan rows (seen_with a.pid seen))
  ]

abbrev pub after {ℓ} : {B : Type ℓ} → List Active → List Active × B → List Active × B
after before (found, last) = (before ++ found, last)

-- The second query of a board, after the first.
unfoldable pub scan_claims :
    Machine → Pool → String → Tables → List Active × List ℕ → List Active × List ℕ
unfolding scan counted_task
scan_claims m r path tables (by_runs, seen) =
    after by_runs (scan (counted_task m r path) tables.tasks seen)

unfoldable pub scan_board : Machine → Pool → String → Tables → List ℕ → List Active × List ℕ
unfolding scan_claims counted_run newest_first
scan_board m r path tables seen =
    scan_claims m r path tables
      (scan (counted_run m r path tables.tasks) (newest_first tables.task_runs) seen)

unfoldable pub scan_boards :
    Machine → Pool → (String → Result Tables) → List String → List ℕ → Attempt (List Active)
unfolding scan_board
scan_boards m r read [] seen = done []
scan_boards m r read (p ∷ ps) seen = elim (read p) [
  | err text ↦ raised (admission text)
  | ok tables ↦ do
    rest ← scan_boards m r read ps (scan_board m r p tables seen).1
    done ((scan_board m r p tables seen).0 ++ rest)
]

-- `_active_resource_workers`; the process table is read at one moment.
unfoldable pub active_resource_workers : Boards → Machine → Pool → Attempt (List Active)
unfolding board_db_paths scan_boards
active_resource_workers boards m r = do
  paths ← board_db_paths boards
  scan_boards m r boards.read paths []
