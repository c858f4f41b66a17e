-- ===== src/Dynamic/Tests.antt =====
-- Runs of the backend-aware admission on concrete inputs, and its theorems at them.
use hermes_n8n_control_plane.Prelude.{
  String, ◌≡◌, ◌⊎◌, refl, true, false, none, some, [], ◌∷◌, ◌==◌, text_comparable, ok, err, codes,
  strip, if◌then◌else◌,
}
use hermes_n8n_control_plane.Json.{Value, Fields, int, str, obj, arr, end, field, nil, cons, get}
use hermes_n8n_control_plane.Resource.{done, ◌>>=◌, ◌>>◌, refuse_if}
use hermes_n8n_control_plane.Resource.Glob.{fnmatchcase}
use hermes_n8n_control_plane.Resource.Workers.{TaskRun, Tables}
use hermes_n8n_control_plane.Resource.Tests.{
  reader, config, local_resource, world, world-Ticks, chosen_lem, board_file, ended_run,
}
use hermes_n8n_control_plane.Dynamic.Backends.{
  Net, local, unknown, resolve_profile_backend, provider_is_local,
}
use hermes_n8n_control_plane.Dynamic.Policies.{
  DynamicResource, as_mapping, local_only, dynamic_for_assignee, dynamic_pool,
}
use hermes_n8n_control_plane.Dynamic.Policies.Static.{
  NoSelector, unselected_answer, dynamic_for_assignee-static,
}
use hermes_n8n_control_plane.Dynamic.Claims.{Gate, Ledger, resource_for_task, guarded_claim}
use hermes_n8n_control_plane.Dynamic.Claims.Admitted.{DecidedRan, guarded_claim-Decided}
use hermes_n8n_control_plane.Dynamic.Claims.Ended.{Answers, guarded_claim-Answers}
use hermes_n8n_control_plane.Dynamic.Rework.{TaskEvent, Reads, Marks, guarded_check_respawn_guard}
use hermes_n8n_control_plane.Dynamic.Rework.Waived.{
  Requeued, Unblocked, guarded_check_respawn_guard-Waived,
}

abbrev model : Value
model = obj (
    field "model"
      (obj (field "provider" (str "openai") (field "base_url" (str "http://localhost:8080/") end)))
      end)

abbrev net : Net
net = record {
  render = λ v. "";
  lower_table = λ c. c ∷ [];
  hostname = λ url. some "LocalHost.";
  ip_address = λ host. none;
  profile_config = λ profile. if profile == "kanban-main" then some model else none;
}

local_url_wins : (resolve_profile_backend net " kanban-main ").kind ≡ local
unfolding resolve_profile_backend
local_url_wins = refl

unread_profile_is_unknown : (resolve_profile_backend net "other").kind ≡ unknown
unfolding resolve_profile_backend
unread_profile_is_unknown = refl

named_local : provider_is_local (codes "my-ollama") ≡ true
unfolding provider_is_local
named_local = refl

abbrev local_config : Fields
local_config =
    field "worker_resources"
      (obj (
        field "local"
          (obj (
            field "capacity" (int 1) (
              field "backend" (str " Local ")
                (field "assignees" (arr (cons (str "kanban-*") nil)) end))))
          end))
      end

abbrev local_dynamic : DynamicResource
local_dynamic = record { policy = local_resource; backend = local_only }

local_policy :
    dynamic_for_assignee net reader local_config "kanban-main" ≡ done (some local_dynamic)
unfolding dynamic_for_assignee ◌>>=◌ ◌>>◌ refuse_if fnmatchcase
local_policy = refl

dynamic_for_assignee-static_example :
    dynamic_for_assignee net reader config "kanban-main"
    ≡ done (unselected_answer (some local_resource))
unfolding get strip
dynamic_for_assignee-static_example =
    dynamic_for_assignee-static net reader config "kanban-main" (some local_resource) plain refl
      chosen_lem
  where
    plain : NoSelector (as_mapping (get "worker_resources" config))
    plain = (refl, (refl, tt))

abbrev free_tables : Tables
free_tables = record {
  task_runs = ended_run ∷ [];
  tasks =
      record {
        id = "t1";
        assignee = some " kanban-main ";
        status = "ready";
        worker_pid = none;
        current_run_id = none;
      }
      ∷ [];
}

abbrev gate : Gate
gate = record {
  net = net;
  reader = reader;
  lane = "ready";
  kanban_config = done local_config;
  board = "a";
  conn = ok free_tables;
  boards = record {
    current = done board_file;
    default_board = none;
    named = [];
    read = λ p. ok free_tables;
  };
  resource_lock = λ name. done true;
  world = world;
  claim = λ task_id. done (some (str task_id));
}

abbrev ledger : Ledger
ledger = record { history = []; outcomes = []; claims = [] }

gate_resource : resource_for_task gate "t1" ≡ done (some local_dynamic)
unfolding resource_for_task ◌>>=◌ ◌>>◌ refuse_if fnmatchcase
gate_resource = refl

guarded_claim-Decided_example :
    DecidedRan gate "t1"
      (dynamic_pool net local_dynamic)
      ledger
      (guarded_claim 602 gate "t1" ledger)
guarded_claim-Decided_example =
    guarded_claim-Decided 602 gate "t1" local_dynamic ledger gate_resource

guarded_claim-Answers_example : Answers (guarded_claim 602 gate "t1" ledger)
guarded_claim-Answers_example =
    guarded_claim-Answers gate "t1" local_dynamic ledger world-Ticks gate_resource

abbrev rework_payload : Value
rework_payload = obj (
    field "repository" (str "owner/repo") (
      field "issue_number" (int 7) (
        field "pr_number" (int 8) (
          field "rework_round" (int 1)
            (field "head_sha" (str "0123456789abcdef0123456789abcdef01234567") end)))))

abbrev requeue : TaskEvent
requeue = record {
  id = 5;
  task_id = "t1";
  kind = "github_pr_rework";
  created_at = 950;
  payload = some rework_payload;
}

abbrev finished_run : TaskRun
finished_run = record {
  id = 3;
  task_id = "t1";
  profile = none;
  outcome = some "completed";
  worker_pid = none;
  ended_at = some 900;
}

abbrev reads : Reads
reads = record {
  completions = ok (finished_run ∷ []);
  requeues = ok (requeue ∷ []);
  texts = err "database is locked";
  counted = ok (finished_run ∷ []);
}

abbrev marks : Marks
marks = record { fold_table = λ c. c; digit_table = λ c. false }

abbrev held : String
held = "recent_success"

waived_lem : guarded_check_respawn_guard marks reads "t1" (some held) ≡ none
unfolding guarded_check_respawn_guard
waived_lem = refl

guarded_check_respawn_guard-Waived_example :
    ((held ≡ "recent_success") ⊎ (held ≡ "active_pr")) × Requeued reads "t1"
    ⊎ (held ≡ "active_pr") × Unblocked marks reads "t1"
guarded_check_respawn_guard-Waived_example =
    guarded_check_respawn_guard-Waived marks reads "t1" held waived_lem

-- A card that was never run is let through by its text although no requeue can be read.
abbrev unread : Reads
unread = record {
  completions = err "database is locked";
  requeues = ok [];
  texts = ok (record { id = "t1"; title = some "Fix the sync"; body = none } ∷ []);
  counted = ok [];
}

text_waived : guarded_check_respawn_guard marks unread "t1" (some "active_pr") ≡ none
unfolding guarded_check_respawn_guard
text_waived = refl
