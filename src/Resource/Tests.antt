-- ===== src/Resource/Tests.antt =====
-- Runs of the resource admission on concrete inputs, and its theorems at them.
use mathlib.Core.List.{Permᴰ}
use hermes_n8n_control_plane.Prelude.{
  Option, ℕ, ◌+◌, ◌≤◌, ◌≡◌, refl, Bool, true, false, none, some, List, [], ◌∷◌, strip,
  if◌then◌else◌, All, ok, arith, number_comparable,
}
use hermes_n8n_control_plane.Json.{
  Value, Fields, null, bool, int, str, obj, arr, end, field, nil, cons, get,
}
use hermes_n8n_control_plane.Resource.{done, ◌>>=◌, ◌>>◌, refuse_if}
use hermes_n8n_control_plane.Resource.Glob.{
  fnmatchcase, compile, glob_match, read_set, set_body, before_bracket, spans,
}
use hermes_n8n_control_plane.Resource.Config.{
  Reader, pool_of, resource_matches, number, invalid, nanos, WorkerResource, resource_for_assignee,
  resource_policies, read_section,
}
use hermes_n8n_control_plane.Resource.Config.Reading.{IsUsable, resource_policies-IsUsable}
use hermes_n8n_control_plane.Resource.Config.Sole.{resource_for_assignee-perm}
use hermes_n8n_control_plane.Resource.Workers.{
  History, World, Event, slept, probed, identified, timed, sent, sigterm, answer, no_process,
  contents, TaskRun, TaskRow, Tables, reaped, quiesce_superseded_worker,
}
use hermes_n8n_control_plane.Resource.Workers.Ending.{Ticks, Ends}
use hermes_n8n_control_plane.Resource.Workers.Newest.{Given}
use hermes_n8n_control_plane.Resource.Workers.Sparing.{
  SinceRan, Justified, quiesce_superseded_worker-Justified,
}
use hermes_n8n_control_plane.Resource.Scan.{
  BoardFile, Boards, Active, active_resource_workers, board_db_paths,
}
use hermes_n8n_control_plane.Resource.Scan.Counting.{Distinct, active_resource_workers-Distinct}
use hermes_n8n_control_plane.Resource.Scan.Occupied.{Complete, active_resource_workers-Complete}
use hermes_n8n_control_plane.Resource.Dispatch.{config_of, assignee_of, guarded_dispatch}
use hermes_n8n_control_plane.Resource.Dispatch.Body.{Call, Candidate, Edge, Desk, delegate}
use hermes_n8n_control_plane.Resource.Dispatch.Admitting.{DecidedRan, guarded_dispatch-Decided}
use hermes_n8n_control_plane.Resource.Dispatch.Ending.{
  IsHandled, guarded_dispatch-Ends, guarded_dispatch-IsHandled, guarded_dispatch-unconfigured,
}

star_matches : fnmatchcase "kanban-main" "kanban-*" ≡ true
unfolding fnmatchcase compile glob_match
star_matches = refl

set_matches : fnmatchcase "local-7" "local-[!a-z0-5]" ≡ true
unfolding fnmatchcase compile glob_match read_set set_body before_bracket spans
set_matches = refl

unclosed_set_is_literal : fnmatchcase "a[b" "a[b" ≡ true
unfolding fnmatchcase compile glob_match read_set set_body before_bracket
unclosed_set_is_literal = refl

bracket_first_in_set : fnmatchcase "]" "[]x]" ≡ true
unfolding fnmatchcase compile glob_match read_set set_body before_bracket spans
bracket_first_in_set = refl

abbrev pub reader : Reader
reader = record {
  render = λ v. "";
  quote = λ s. s;
  whole = λ v. invalid;
  seconds = λ v. number (nanos 5_000_000_000);
}

abbrev local : Value
local = obj (field "capacity" (int 1) (field "assignees" (arr (cons (str "kanban-*") nil)) end))

abbrev gpu : Value
gpu = obj (field "capacity" (int 2) (field "assignees" (str " gpu-? ") end))

abbrev pub config : Fields
config = field "worker_resources" (obj (field "local" local (field "gpu" gpu end))) end

abbrev other_config : Fields
other_config = field "worker_resources" (obj (field "gpu" gpu (field "local" local end))) end

abbrev pub local_resource : WorkerResource
local_resource = record {
  name = "local";
  capacity = 1;
  assignees = "kanban-*" ∷ [];
  grace = nanos 5_000_000_000;
}

abbrev gpu_resource : WorkerResource
gpu_resource = record {
  name = "gpu";
  capacity = 2;
  assignees = "gpu-?" ∷ [];
  grace = nanos 5_000_000_000;
}

policies_lem : resource_policies reader config ≡ done (local_resource ∷ gpu_resource ∷ [])
unfolding resource_policies read_section get ◌>>=◌ ◌>>◌ refuse_if strip
policies_lem = refl

other_policies_lem :
    resource_policies reader other_config ≡ done (gpu_resource ∷ local_resource ∷ [])
unfolding resource_policies read_section get ◌>>=◌ ◌>>◌ refuse_if strip
other_policies_lem = refl

pub chosen_lem : resource_for_assignee reader config "kanban-main" ≡ done (some local_resource)
unfolding resource_for_assignee get ◌>>=◌ ◌>>◌ refuse_if strip fnmatchcase
chosen_lem = refl

resource_policies-IsUsable_example : All IsUsable (local_resource ∷ gpu_resource ∷ [])
resource_policies-IsUsable_example =
    resource_policies-IsUsable reader config (local_resource ∷ gpu_resource ∷ []) policies_lem

resource_for_assignee-perm_example :
    resource_for_assignee reader other_config "kanban-main" ≡ done (some local_resource)
resource_for_assignee-perm_example =
    resource_for_assignee-perm reader config other_config (local_resource ∷ gpu_resource ∷ [])
      (gpu_resource ∷ local_resource ∷ []) "kanban-main" (some local_resource) policies_lem
      other_policies_lem (Permᴰ.swap refl refl) chosen_lem

-- The worker of an ended run lives on until it is told to end; a sleep takes its time.
abbrev elapsed : History → ℕ
elapsed [] = 0
elapsed (slept n ∷ h) = elapsed h + n
elapsed (probed p ∷ h) = elapsed h
elapsed (identified p ∷ h) = elapsed h
elapsed (timed ∷ h) = elapsed h
elapsed (sent s p w ∷ h) = elapsed h

abbrev told : History → Bool
told [] = false
told (sent s p w ∷ h) = true
told (slept n ∷ h) = told h
told (probed p ∷ h) = told h
told (identified p ∷ h) = told h
told (timed ∷ h) = told h

abbrev pub world : World
world h = record {
  linux = true;
  now = elapsed h;
  probe = λ p. if told h then no_process else answer tt;
  status = λ p. contents ("Name:\tpython" ∷ "State:\tS (sleeping)" ∷ []);
  cmdline = λ p. contents "Hermes -q work kanban task t1";
  group = λ p. answer p;
  deliver = λ p whole. answer tt;
  fold_table = λ c. c ∷ [];
}

pub world-Ticks : Ticks world
world-Ticks = record { forward = forward; sleeps = λ n h. omega arith }
  where
    forward : (e : Event) (h : History) → elapsed h ≤ elapsed (e ∷ h)
    forward (slept n) h = omega arith
    forward (probed p) h = omega arith
    forward (identified p) h = omega arith
    forward timed h = omega arith
    forward (sent s p w) h = omega arith

abbrev pub ended_run : TaskRun
ended_run = record {
  id = 3;
  task_id = "t1";
  profile = some "kanban-main";
  outcome = some "crashed";
  worker_pid = some 41;
  ended_at = some 900;
}

abbrev busy_run : TaskRun
busy_run = record {
  id = 4;
  task_id = "t2";
  profile = none;
  outcome = none;
  worker_pid = some 42;
  ended_at = none;
}

abbrev claimed_task : TaskRow
claimed_task = record {
  id = "t3";
  assignee = some "kanban-dev";
  status = "running";
  worker_pid = none;
  current_run_id = none;
}

abbrev tables : Tables
tables = record { task_runs = ended_run ∷ busy_run ∷ []; tasks = claimed_task ∷ [] }

abbrev pub board_file : BoardFile
board_file = record {
  path = "/k/boards/a/kanban.db";
  resolved = "/k/boards/a/kanban.db";
  parent_name = "a";
  is_file = true;
  size = some 4096;
}

abbrev boards : Boards
boards = record { current = ok board_file; siblings = []; read = λ p. ok tables }

-- The earlier worker is told to end, and the next probe finds it gone.
reap_runs :
    quiesce_superseded_worker 9 world (ok tables) "t1" (nanos 5_000_000_000) []
    ≡ some (
      done (reaped 3 41 (some "crashed")),
      probed 41
          ∷ probed 41
          ∷ probed 41
          ∷ timed
          ∷ sent sigterm 41 true
          ∷ identified 41
          ∷ probed 41
          ∷ [],
    )
unfolding quiesce_superseded_worker
reap_runs = refl

quiesce_superseded_worker-Justified_example :
    (newest : Option TaskRun) × Given (ok tables) "t1" newest
    × SinceRan
        (Justified world "t1" newest)
        []
        (quiesce_superseded_worker 9 world (ok tables) "t1" (nanos 5_000_000_000) [])
quiesce_superseded_worker-Justified_example =
    quiesce_superseded_worker-Justified 9 world (ok tables) "t1" (nanos 5_000_000_000) []

abbrev occupied : List Active
occupied =
    record {
      board_db = "/k/boards/a/kanban.db";
      task_id = "t1";
      run_id = some 3;
      assignee = "kanban-main";
      pid = some 41;
      terminal = true;
      identity_verified = true;
      reservation = false;
    }
    ∷ record {
      board_db = "/k/boards/a/kanban.db";
      task_id = "t3";
      run_id = none;
      assignee = "kanban-dev";
      pid = none;
      terminal = false;
      identity_verified = false;
      reservation = true;
    }
    ∷ []

occupied_lem : active_resource_workers boards (world []) (pool_of local_resource) ≡ done occupied
unfolding active_resource_workers ◌>>=◌ strip resource_matches fnmatchcase
occupied_lem = refl

active_resource_workers-Distinct_example : Distinct [] occupied
active_resource_workers-Distinct_example =
    active_resource_workers-Distinct (world []) (pool_of local_resource) boards occupied
      occupied_lem

paths_lem : board_db_paths boards ≡ done ("/k/boards/a/kanban.db" ∷ [])
unfolding board_db_paths
paths_lem = refl

active_resource_workers-Complete_example :
    Complete
      (world [])
      (pool_of local_resource)
      boards.read
      ("/k/boards/a/kanban.db" ∷ [])
      []
      occupied
active_resource_workers-Complete_example =
    active_resource_workers-Complete boards (world []) (pool_of local_resource)
      ("/k/boards/a/kanban.db" ∷ []) occupied paths_lem occupied_lem

abbrev call : Call
call = record {
  cfg = some (obj config);
  task_ids = none;
  normalized_task_ids = none;
  dry_run = false;
}

abbrev pending : Candidate
pending = record { id = "t1"; assignee = some "kanban-main" }

abbrev edge : Edge
edge = record {
  reader = reader;
  board = "a";
  kanban_config = null;
  pending_rework_tasks = λ ids normalized. done (pending ∷ []);
  original = λ c. done (obj (field "changed" (bool true) end) ∷ []);
  boards = boards;
  conn = ok tables;
  has_fcntl = true;
  flock = λ path name. done true;
  world = world;
}

abbrev desk : Desk
desk = record { history = []; outcomes = []; calls = [] }

abbrev plain_call : Call
plain_call = record {
  cfg = some (obj end);
  task_ids = none;
  normalized_task_ids = none;
  dry_run = false;
}

chosen_for_pending :
    resource_for_assignee edge.reader
      (config_of edge call)
      (assignee_of edge.reader (config_of edge call) pending)
    ≡ done (some local_resource)
unfolding resource_for_assignee get ◌>>=◌ ◌>>◌ refuse_if strip fnmatchcase
chosen_for_pending = refl

guarded_dispatch-Decided_example :
    DecidedRan edge call local_resource "t1" desk (guarded_dispatch 602 edge call desk)
guarded_dispatch-Decided_example =
    guarded_dispatch-Decided 602 edge call desk pending [] local_resource refl chosen_for_pending

guarded_dispatch-Ends_example : Ends (guarded_dispatch 602 edge call desk)
guarded_dispatch-Ends_example = guarded_dispatch-Ends edge call world-Ticks desk

guarded_dispatch-IsHandled_example :
    IsHandled (guarded_dispatch 602 edge call desk) × Ends (guarded_dispatch 602 edge call desk)
guarded_dispatch-IsHandled_example =
    guarded_dispatch-IsHandled edge call desk pending [] local_resource world-Ticks refl
      chosen_for_pending

guarded_dispatch-unconfigured_example :
    guarded_dispatch 602 edge plain_call desk ≡ some (delegate edge plain_call desk)
unfolding get
guarded_dispatch-unconfigured_example =
    guarded_dispatch-unconfigured 602 edge plain_call desk no_section
  where
    no_section : get "worker_resources" (config_of edge plain_call) ≡ null
    no_section = refl
