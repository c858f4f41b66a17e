-- ===== src/Signals/Tests.antt =====
-- Runs of the searches for signals and of the completion on concrete inputs, and their theorems.
use hermes_n8n_control_plane.Prelude.{
  ℕ, String, ◌≡◌, ◌⊎◌, refl, true, false, none, some, List, [], ◌∷◌, ok, codes_le,
}
use hermes_n8n_control_plane.Json.{Value, int, str, obj, end, field}
use hermes_n8n_control_plane.Router.Deliveries.Capping.{pos}
use hermes_n8n_control_plane.Signals.Asked.{wanted_retry, wanted_supersede}
use hermes_n8n_control_plane.Signals.{Clock, find_rework_retry_signal, find_pr_supersede_signal}
use hermes_n8n_control_plane.Signals.Found.{
  Verdict, find_rework_retry_signal-Verdict, find_pr_supersede_signal-Verdict,
}
use hermes_n8n_control_plane.Signals.Completion.{
  Decision, fetched, Reader, SaysDone, is_parked, ReadCompleted, verify_completion,
  verify_completion-ReadCompleted,
}
use hermes_n8n_control_plane.Signals.Provenance.{Event, has_round_bootstrap}
use hermes_n8n_control_plane.Signals.Provenance.Claimed
use hermes_n8n_control_plane.Signals.Provenance.Claimed.{has_round_bootstrap-Verdict}
use hermes_n8n_control_plane.Signals.Ancestors.{Card, Graph, ancestor_rows}
use hermes_n8n_control_plane.Signals.Ancestors.Reaching.{IsAncestry, ancestor_rows-IsAncestry}

-- Two cards link to each other, and a third one to both.
abbrev card : String → Card
card id = record {
  id = id;
  status = some "done";
  assignee = some "kanban-developer";
  title = none;
  completed_at = some 700;
}

abbrev round_trip : Graph
round_trip = record {
  tasks = card "a" ∷ card "b" ∷ card "c" ∷ card "d" ∷ [];
  task_links =
      record { parent_id = "a"; child_id = "b" }
      ∷ record { parent_id = "b"; child_id = "a" }
      ∷ record { parent_id = "c"; child_id = "a" }
      ∷ [];
}

ancestor_rows-round_trip : ancestor_rows round_trip "b" ≡ some (card "a" ∷ card "c" ∷ [])
unfolding ancestor_rows codes_le
ancestor_rows-round_trip = refl

ancestor_rows-IsAncestry_example :
    (rows : List Card) × (ancestor_rows round_trip "b" ≡ some rows) × IsAncestry round_trip "b" rows
ancestor_rows-IsAncestry_example = ancestor_rows-IsAncestry round_trip "b"

abbrev clock : Clock
clock = record { render = λ v. ""; iso_seconds = λ text. some (pos 500) }

abbrev said : ℕ → String → Value
said id body = obj (
    field "id" (int id) (
      field "user" (obj (field "login" (str "rhgo1749") end))
        (field "created_at" (str "2026-01-01T00:00:00Z") (field "body" (str body) end))))

abbrev comments : List Value
comments =
    said 1 "AGENT_REWORK_RETRY\n task=t1 \n"
    ∷ said 2 "Post AGENT_REWORK_RETRY\ntask=t1\nto retry."
    ∷ said 3 "AGENT_PR_SUPERSEDE\r\npr=8 task=t1"
    ∷ []

-- The comment that documents the marker is passed over.
retry_found :
    find_rework_retry_signal clock "t1" (pos 400) [] comments
    ≡ ok (some (record { comment_id = int 1; author = "rhgo1749"; created_at = pos 500 }))
unfolding find_rework_retry_signal
retry_found = refl

consumed_retry : find_rework_retry_signal clock "t1" (pos 400) (pos 1 ∷ []) comments ≡ ok none
unfolding find_rework_retry_signal
consumed_retry = refl

supersede_found :
    find_pr_supersede_signal clock "8" "t1" (pos 500) [] comments
    ≡ ok (some (record { comment_id = int 3; author = "rhgo1749"; created_at = pos 500 }))
unfolding find_pr_supersede_signal
supersede_found = refl

find_rework_retry_signal-Verdict_example :
    Verdict clock
      (wanted_retry "t1" (pos 400) [])
      comments
      (find_rework_retry_signal clock "t1" (pos 400) [] comments)
find_rework_retry_signal-Verdict_example =
    find_rework_retry_signal-Verdict clock "t1" (pos 400) [] comments

find_pr_supersede_signal-Verdict_example :
    Verdict clock
      (wanted_supersede "8" "t1" (pos 500) [])
      comments
      (find_pr_supersede_signal clock "8" "t1" (pos 500) [] comments)
find_pr_supersede_signal-Verdict_example =
    find_pr_supersede_signal-Verdict clock "8" "t1" (pos 500) [] comments

abbrev completion_reader : Reader
completion_reader = record {
  render = λ v. "";
  fold_table = λ c. c ∷ [];
  issue_text = "GitHub returned incomplete Issue data";
}

abbrev parked : Decision
parked = record {
  desired_status = some "review";
  reason = "no_linked_pr";
  linked_pr_numbers = [];
  pull_requests = [];
  error = none;
}

abbrev closed_issue : Value
closed_issue = obj (
    field "state" (str "Closed") (
      field "state_reason" (str "completed")
        (field "closed_by" (obj (field "login" (str "rhgo1749") end)) end)))

done_lem : SaysDone (verify_completion completion_reader (fetched parked) (fetched closed_issue))
unfolding verify_completion
done_lem = refl

verify_completion-ReadCompleted_example :
    SaysDone (fetched parked)
    ⊎ ((d : Decision) × (fetched parked ≡ fetched d)
        × (is_parked d ≡ true)
        × ReadCompleted completion_reader (fetched closed_issue))
verify_completion-ReadCompleted_example =
    verify_completion-ReadCompleted completion_reader (fetched parked) (fetched closed_issue)
      done_lem

abbrev dispatch : ℕ → Event
dispatch run_id = record {
  task_id = "t1";
  kind = "github_pr_rework_dispatch";
  run_id = some run_id;
  payload = some (
      obj (
        field "source" (str "github_edge_rework_dispatch") (
          field "task_id" (str "t1") (
            field "phase" (str "spawned") (
              field "rework_event_at" (int 500)
                (field "rework_round" (int 2) (field "run_id" (int 7) end)))))));
}

-- The first event names another run than its own.
dispatch_of_other_run : has_round_bootstrap (dispatch 6 ∷ []) "t1" (int 500) (int 2) ≡ ok false
unfolding has_round_bootstrap
dispatch_of_other_run = refl

has_round_bootstrap-Verdict_example :
    Claimed.Verdict
      (dispatch 6 ∷ dispatch 7 ∷ [])
      "t1"
      (int 500)
      (int 2)
      (has_round_bootstrap (dispatch 6 ∷ dispatch 7 ∷ []) "t1" (int 500) (int 2))
has_round_bootstrap-Verdict_example =
    has_round_bootstrap-Verdict (dispatch 6 ∷ dispatch 7 ∷ []) "t1" (int 500) (int 2)
