-- ===== src/Signals.antt =====
-- edge/kanban_retry_signal_guard.py: the comments that a trusted maintainer steers the rework with, and
-- the completion of a card whose issue was closed as completed.
pub mod Ancestors
pub mod Asked
pub mod Lines
pub mod Found
pub mod Completion
pub mod Provenance
mod Tests
use hermes_n8n_control_plane.Prelude.{
  ℕ, zero, suc, String, Bool, true, false, not, ◌&&◌, ◌||◌, Option, none, some, List, [], ◌∷◌, ◌++◌,
  ◌==◌, text_comparable, number_comparable, if◌then◌else◌, any, codes, leb, ltb, contains, Result,
  ok, err, ◌>>=◌,
}
use hermes_n8n_control_plane.Json.{
  Value, Fields, null, bool, int, negative, float, str, obj, arr, end, get, truthy, str_of,
}
use hermes_n8n_control_plane.Router.Deliveries.Capping.{Integer, pos, negsuc}
use hermes_n8n_control_plane.Router.Events.{text_or_empty}
use Lines.{stripped_lines, same_lines, reversed}
use Prim.Native.String.{◌++◌ as joins}

-- `TRUSTED_GITHUB_ACTORS`, `REWORK_RETRY_MARKER`, `SUPERSEDE_MARKER` of the sync.
abbrev pub trusted_github_actors : List String
trusted_github_actors = "rhgo1749" ∷ []

abbrev pub rework_retry_marker : String
rework_retry_marker = "AGENT_REWORK_RETRY"

abbrev pub supersede_marker : String
supersede_marker = "AGENT_PR_SUPERSEDE"

-- How values print, and `datetime.fromisoformat` with `timestamp` in whole seconds since 1970.
pub record Clock : Type 0 where
  pub render : Value → String
  pub iso_seconds : List ℕ → Option Integer

abbrev zulu : List ℕ → List ℕ
zulu [] = []
zulu (c ∷ cs) = (if c == b'Z' then codes "+00:00" else c ∷ []) ++ zulu cs

-- `_parse_iso_ts`
unfoldable pub parse_iso_ts : Clock → Value → Option Integer
unfolding truthy str_of
parse_iso_ts clock v =
    if truthy v then clock.iso_seconds (zulu (codes (str_of clock.render v))) else none

-- `str((comment.get("user") or {}).get("login") or "")`; a user that is no mapping raises.
unfoldable pub author_of : Clock → Fields → Result String
unfolding truthy str_of get
author_of clock comment = elim (truthy (get "user" comment)) [
  | false ↦ ok ""
  | true ↦ elim (get "user" comment) [
    | obj user ↦ ok (text_or_empty clock.render (get "login" user))
    | _ ↦ err "AttributeError"
  ]
]

-- `isinstance(v, int)` with its value; a Boolean is an `int`.
abbrev pub as_integer : Value → Option Integer
as_integer (bool false) = some (pos 0)
as_integer (bool true) = some (pos 1)
as_integer (int n) = some (pos n)
as_integer (negative n) = some (negsuc n)
as_integer _ = none

abbrev pub integer_beq : Integer → Integer → Bool
integer_beq (pos a) (pos b) = a == b
integer_beq (negsuc a) (negsuc b) = a == b
integer_beq _ _ = false

abbrev pub integer_lt : Integer → Integer → Bool
integer_lt (pos a) (pos b) = ltb a b
integer_lt (pos a) (negsuc b) = false
integer_lt (negsuc a) (pos b) = true
integer_lt (negsuc a) (negsuc b) = ltb b a

abbrev pub in_set : Integer → List Integer → Bool
in_set n [] = false
in_set n (k ∷ ks) = integer_beq k n || in_set n ks

pub record Signal : Type 0 where
  pub comment_id : Value
  pub author : String
  pub created_at : Integer

-- What one search asks of a comment beside its author: its time, its id, and its lines.
pub record Ask : Type 0 where
  pub in_time : Integer → Bool
  pub id_ok : Value → Bool
  pub lines : List (List ℕ)

-- The retry comes after the baseline, with an integer that was not consumed.
abbrev pub fresh_number : List Integer → Option Integer → Bool
fresh_number consumed none = false
fresh_number consumed (some n) = not (in_set n consumed)

abbrev pub fresh_id : List Integer → Value → Bool
fresh_id consumed v = fresh_number consumed (as_integer v)

abbrev pub retry_ask : String → Integer → List Integer → Ask
retry_ask task_id baseline consumed = record {
  in_time = λ t. integer_lt baseline t;
  id_ok = λ v. fresh_id consumed v;
  lines = codes rework_retry_marker ∷ codes (joins "task=" task_id) ∷ [];
}

-- The supersede may come at the baseline, with a positive integer that is no Boolean.
abbrev pub fresh_positive : List Integer → Value → Bool
fresh_positive consumed (int zero) = false
fresh_positive consumed (int (suc n)) = not (in_set (pos (suc n)) consumed)
fresh_positive consumed _ = false

-- `pr_text` is how the number of the pull request prints.
abbrev pub supersede_ask : String → String → Integer → List Integer → Ask
supersede_ask pr_text task_id baseline consumed = record {
  in_time = λ t. not (integer_lt t baseline);
  id_ok = λ v. fresh_positive consumed v;
  lines =
      codes supersede_marker ∷ codes (joins "pr=" (joins pr_text (joins " task=" task_id))) ∷ [];
}

abbrev pub timely : Ask → Option Integer → Bool
timely ask none = false
timely ask (some t) = ask.in_time t

-- The checks of one comment of a known author.
unfoldable pub accepts : Clock → Ask → Fields → String → Bool
unfolding parse_iso_ts stripped_lines truthy str_of get
accepts clock ask comment author =
    any (λ actor. actor == author) trusted_github_actors
    && timely ask (parse_iso_ts clock (get "created_at" comment))
    && ask.id_ok (get "id" comment)
    && same_lines (stripped_lines (text_or_empty clock.render (get "body" comment))) ask.lines

abbrev pub time_or_zero : Option Integer → Integer
time_or_zero none = pos 0
time_or_zero (some t) = t

abbrev pub signal_of : Clock → Fields → String → Signal
signal_of clock comment author = record {
  comment_id = get "id" comment;
  author = author;
  created_at = time_or_zero (parse_iso_ts clock (get "created_at" comment));
}

unfoldable pub signal_by : Clock → Ask → Fields → Result String → Result (Option Signal)
unfolding accepts
signal_by clock ask comment (err text) = err text
signal_by clock ask comment (ok author) =
    ok (if accepts clock ask comment author then some (signal_of clock comment author) else none)

-- One round of the loop: none to go on.
unfoldable pub signal_in : Clock → Ask → Value → Result (Option Signal)
unfolding author_of signal_by
signal_in clock ask (obj comment) = signal_by clock ask comment (author_of clock comment)
signal_in clock ask _ = ok none

abbrev pub or_next : Result (Option Signal) → Result (Option Signal) → Result (Option Signal)
or_next (err text) rest = err text
or_next (ok none) rest = rest
or_next (ok (some s)) rest = ok (some s)

unfoldable pub first_signal : Clock → Ask → List Value → Result (Option Signal)
unfolding signal_in
first_signal clock ask [] = ok none
first_signal clock ask (c ∷ cs) = or_next (signal_in clock ask c) (first_signal clock ask cs)

-- `find_rework_retry_signal` on the comments of the pull request, the oldest first.
unfoldable pub find_rework_retry_signal :
    Clock → String → Integer → List Integer → List Value → Result (Option Signal)
unfolding first_signal reversed
find_rework_retry_signal clock task_id baseline consumed comments =
    first_signal clock (retry_ask task_id baseline consumed) (reversed comments)

-- `find_pr_supersede_signal`
unfoldable pub find_pr_supersede_signal :
    Clock → String → String → Integer → List Integer → List Value → Result (Option Signal)
unfolding first_signal reversed
find_pr_supersede_signal clock pr_text task_id baseline consumed comments =
    first_signal clock (supersede_ask pr_text task_id baseline consumed) (reversed comments)
