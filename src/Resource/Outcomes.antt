-- ===== src/Resource/Outcomes.antt =====
-- The bounded trail of admission outcomes: `record_resource_admission_outcome`,
-- `resource_admission_outcomes` and `clear_resource_admission_outcomes`.
use hermes_n8n_control_plane.Prelude.{
  ℕ, ◌≤◌, String, Bool, true, false, Option, none, some, List, [], ◌∷◌, ◌++◌, ◌==◌, text_comparable,
  if◌then◌else◌, keep, last_n, length, length-last_n,
}
use hermes_n8n_control_plane.Router.Deliveries.Capping.{Integer, pos, negsuc}
use hermes_n8n_control_plane.Resource.{Attempt, done, raised, other}
use hermes_n8n_control_plane.Resource.Config.{Number, number, invalid, overflow}

pub record Outcome : Type 0 where
  pub task_id : Option String
  pub board : Option String
  pub resource_group : Option String
  pub reason : String
  pub lane : Option String
  pub resource_active : Option ℕ
  pub resource_capacity : Option ℕ

-- RESOURCE_OUTCOME_LIMIT
abbrev pub outcome_limit : ℕ
outcome_limit = 128

-- `if lane:`
abbrev pub lane_of : Option String → Option String
lane_of none = none
lane_of (some l) = if l == "" then none else some l

-- `record_resource_admission_outcome`, whose deque drops the oldest entry at its limit.
unfoldable pub record_resource_admission_outcome : Outcome → List Outcome → List Outcome
record_resource_admission_outcome o trail = last_n outcome_limit (
    trail
    ++ record {
      task_id = o.task_id;
      board = o.board;
      resource_group = o.resource_group;
      reason = o.reason;
      lane = lane_of o.lane;
      resource_active = o.resource_active;
      resource_capacity = o.resource_capacity;
    }
      ∷ [])

abbrev same_text : Option String → String → Bool
same_text none s = false
same_text (some t) s = t == s

abbrev pub of_task : Option String → Outcome → Bool
of_task none o = true
of_task (some id) o = same_text o.task_id id

abbrev pub of_reason : Option String → Outcome → Bool
of_reason none o = true
of_reason (some reason) o = o.reason == reason

-- `max(0, int(limit))`, or the limit where `int` rejects it.
abbrev pub asked_count : Number Integer → Attempt ℕ
asked_count (number (pos n)) = done n
asked_count (number (negsuc n)) = done 0
asked_count invalid = done outcome_limit
asked_count overflow = raised (other "OverflowError")

-- `resource_admission_outcomes`
unfoldable pub resource_admission_outcomes :
    Option String → Option String → Number Integer → List Outcome → Attempt (List Outcome)
resource_admission_outcomes task_id reason limit trail = elim (asked_count limit) [
  | raised f ↦ raised f
  | done count ↦ done (last_n count (keep (of_reason reason) (keep (of_task task_id) trail)))
]

-- `clear_resource_admission_outcomes`
unfoldable pub clear_resource_admission_outcomes : List Outcome → List Outcome
clear_resource_admission_outcomes trail = []

-- The trail never holds more than its limit, whatever it held before.
pub length-record_outcome :
    (o : Outcome) (trail : List Outcome)
    → length (record_resource_admission_outcome o trail) ≤ outcome_limit
unfolding record_resource_admission_outcome
length-record_outcome o trail = length-last_n outcome_limit (trail ++ _ ∷ [])
