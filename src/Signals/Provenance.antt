-- ===== src/Signals/Provenance.antt =====
-- The edge claim of a rework round: `_json_payload` and `_has_round_bootstrap` of
-- `install_rework_delivery_provenance_guard`.
pub mod Claimed
pub mod Payloads
use hermes_n8n_control_plane.Prelude.{
  ℕ, zero, suc, String, Bool, true, false, not, ◌&&◌, ◌||◌, Option, none, some, List, [], ◌∷◌, ◌==◌,
  text_comparable, number_comparable, if◌then◌else◌, Result, ok, err, ◌>>=◌,
}
use hermes_n8n_control_plane.Json.{
  Value, Fields, null, bool, int, negative, float, str, obj, arr, end, get,
}
use hermes_n8n_control_plane.Router.Deliveries.Capping.{Integer, pos, negsuc}
use hermes_n8n_control_plane.Signals.{integer_beq}

-- `REWORK_DISPATCH_PROVENANCE_KIND`, `REWORK_DISPATCH_PROVENANCE_SOURCE` of the sync.
abbrev pub rework_dispatch_provenance_kind : String
rework_dispatch_provenance_kind = "github_pr_rework_dispatch"

abbrev pub rework_dispatch_provenance_source : String
rework_dispatch_provenance_source = "github_edge_rework_dispatch"

-- A row of `task_events` as the guard reads it; its payload is decoded, none where `json.loads`
-- raises. The table is in the order of the ids.
pub record Event : Type 0 where
  pub task_id : String
  pub kind : String
  pub run_id : Option ℕ
  pub payload : Option Value

-- `_json_payload`
unfoldable pub json_payload : Option Value → Fields
json_payload (some (obj p)) = p
json_payload _ = end

-- `isinstance(v, int) and not isinstance(v, bool)`, with its value.
abbrev pub whole : Value → Option Integer
whole (int n) = some (pos n)
whole (negative n) = some (negsuc n)
whole _ = none

abbrev pub is_text : String → Value → Bool
is_text text (str s) = s == text
is_text text _ = false

abbrev pub is_whole : Integer → Value → Bool
is_whole n v = elim (whole v) [ none ↦ false | some k ↦ integer_beq k n ]

-- `phase in {"claimed", "spawned"}`; a value that cannot be hashed raises.
abbrev pub claimed_phase : Value → Result Bool
claimed_phase (obj p) = err "TypeError"
claimed_phase (arr vs) = err "TypeError"
claimed_phase v = ok (is_text "claimed" v || is_text "spawned" v)

-- The run of the row is that of its payload.
abbrev pub same_run : Option ℕ → Value → Bool
same_run none v = false
same_run (some n) v = is_whole (pos n) v

-- The body of the loop: true where it returns.
unfoldable pub bootstrap_row : String → Integer → Integer → Option ℕ → Fields → Result Bool
unfolding get
bootstrap_row task_id at_time round run_id p =
    if not (is_text rework_dispatch_provenance_source (get "source" p))
    then ok false
    else if not (is_text task_id (get "task_id" p))
    then ok false
    else claimed_phase (get "phase" p) >>= λ inside. ok (
        inside
        && is_whole at_time (get "rework_event_at" p)
        && is_whole round (get "rework_round" p)
        && same_run run_id (get "run_id" p))

abbrev pub or_later : Result Bool → Result Bool → Result Bool
or_later (err text) rest = err text
or_later (ok true) rest = ok true
or_later (ok false) rest = rest

unfoldable pub bootstrap_rows : String → Integer → Integer → List Event → Result Bool
unfolding bootstrap_row json_payload
bootstrap_rows task_id at_time round [] = ok false
bootstrap_rows task_id at_time round (e ∷ es) =
    let rest = bootstrap_rows task_id at_time round es in
    if e.task_id == task_id && e.kind == rework_dispatch_provenance_kind
    then or_later (bootstrap_row task_id at_time round e.run_id (json_payload e.payload)) rest
    else rest

abbrev pub positive : Integer → Bool
positive (pos zero) = false
positive (pos (suc n)) = true
positive (negsuc n) = false

-- The checks of the arguments before the query.
abbrev pub with_round : String → List Event → Option Integer → Option Integer → Result Bool
with_round task_id events none round = ok false
with_round task_id events (some at_time) none = ok false
with_round task_id events (some at_time) (some round) =
    if positive round then bootstrap_rows task_id at_time round events else ok false

-- `_has_round_bootstrap`
unfoldable pub has_round_bootstrap : List Event → String → Value → Value → Result Bool
unfolding bootstrap_rows
has_round_bootstrap events task_id rework_at rework_round =
    with_round task_id events (whole rework_at) (whole rework_round)
