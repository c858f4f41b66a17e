-- ===== src/Dynamic/Rework.antt =====
-- When the duplicate-work guard of the core is waived for a rework: `_valid_rework_requeue_after_completed`
-- and the wrapper of `_install_respawn_guard_overlay`.
pub mod Canonical
pub mod Newest
pub mod Texts
pub mod Waived
use hermes_n8n_control_plane.Prelude.{
  ℕ, zero, suc, ◌+◌, String, Bool, true, false, not, ◌&&◌, ◌||◌, Option, none, some, List, [], ◌∷◌,
  ◌++◌, ◌==◌, number_comparable, text_comparable, if◌then◌else◌, ltb, leb, length, codes, is_upper,
  is_digit, is_space, between, all_codes, contains, Result, ok, err, ◌>>=◌,
}
use hermes_n8n_control_plane.Json.{
  Value, Fields, null, bool, int, negative, float, str, obj, arr, end, get,
}
use hermes_n8n_control_plane.Resource.Workers.{TaskRun}

-- A row of `task_events`; its payload is decoded, none where `json.loads` raises.
pub record TaskEvent : Type 0 where
  pub id : ℕ
  pub task_id : String
  pub kind : String
  pub created_at : ℕ
  pub payload : Option Value

-- A row of `tasks` as the guard reads it.
pub record TaskText : Type 0 where
  pub id : String
  pub title : Option String
  pub body : Option String

-- What the queries of the wrapper read, in their order: the runs for the newest completion, the events,
-- the texts of the tasks, and the runs that are counted; each of them may raise.
pub record Reads : Type 0 where
  pub completions : Result (List TaskRun)
  pub requeues : Result (List TaskEvent)
  pub texts : Result (List TaskText)
  pub counted : Result (List TaskRun)

-- `_positive_json_int`
unfoldable pub positive_json_int : Value → Bool
positive_json_int (int zero) = false
positive_json_int (int (suc n)) = true
positive_json_int _ = false

abbrev pub later_of : ℕ → Option ℕ → Option ℕ
later_of t none = some t
later_of t (some u) = if ltb t u then some u else some t

abbrev pub ended_with : TaskRun → Option ℕ → Option ℕ → Option ℕ
ended_with run none rest = rest
ended_with run (some t) rest = later_of t rest

abbrev pub is_completed : Option String → Bool
is_completed none = false
is_completed (some o) = o == "completed"

-- The time of the newest completed run of the task.
unfoldable pub completed_at : String → List TaskRun → Option ℕ
completed_at task_id [] = none
completed_at task_id (r ∷ rs) =
    let rest = completed_at task_id rs in
    if r.task_id == task_id && is_completed r.outcome then ended_with r r.ended_at rest else rest

abbrev pub is_requeue_kind : String → Bool
is_requeue_kind kind = kind == "github_pr_rework" || kind == "github_pr_rework_retry"

-- `ORDER BY created_at DESC, id DESC`
abbrev pub event_before : TaskEvent → TaskEvent → Bool
event_before e f = ltb e.created_at f.created_at || e.created_at == f.created_at && ltb e.id f.id

abbrev pub later_event : TaskEvent → Option TaskEvent → Option TaskEvent
later_event e none = some e
later_event e (some f) = if event_before e f then some f else some e

abbrev pub is_requeue : String → ℕ → TaskEvent → Bool
is_requeue task_id since e =
    e.task_id == task_id && leb since e.created_at && is_requeue_kind e.kind

unfoldable pub newest_requeue : String → ℕ → List TaskEvent → Option TaskEvent
newest_requeue task_id since [] = none
newest_requeue task_id since (e ∷ es) =
    let rest = newest_requeue task_id since es in
    if is_requeue task_id since e then later_event e rest else rest

abbrev pub starts : ℕ → List ℕ → Bool
starts a [] = false
starts a (c ∷ cs) = c == a

abbrev pub ends : ℕ → List ℕ → Bool
ends a [] = false
ends a (c ∷ []) = c == a
ends a (c ∷ d ∷ cs) = ends a (d ∷ cs)

abbrev pub repository_shape : Value → Bool
repository_shape (str s) =
    contains b'/' (codes s) && not (starts b'/' (codes s)) && not (ends b'/' (codes s))
repository_shape _ = false

abbrev pub is_hex : ℕ → Bool
is_hex c = is_digit c || between b'a' b'f' c

-- `_FULL_SHA_RE.fullmatch`
abbrev pub full_sha : Value → Bool
full_sha (str s) = all_codes is_hex (codes s) && length (codes s) == 40
full_sha _ = false

abbrev pub absent_or_positive : Value → Bool
absent_or_positive null = true
absent_or_positive v = positive_json_int v

-- A retry comment is the request comment.
abbrev pub same_comment : Value → Value → Bool
same_comment request null = true
same_comment (int n) (int k) = n == k
same_comment _ _ = false

abbrev pub is_null : Value → Bool
is_null null = true
is_null _ = false

abbrev pub is_maintainer_retry : Value → Bool
is_maintainer_retry (str s) = s == "maintainer_retry"
is_maintainer_retry _ = false

-- The checks of the payload.
unfoldable pub canonical_payload : Fields → Bool
unfolding positive_json_int get
canonical_payload p =
    repository_shape (get "repository" p)
    && positive_json_int (get "issue_number" p)
    && positive_json_int (get "pr_number" p)
    && positive_json_int (get "rework_round" p)
    && full_sha (get "head_sha" p)
    && absent_or_positive (get "request_comment_id" p)
    && absent_or_positive (get "retry_comment_id" p)
    && same_comment (get "request_comment_id" p) (get "retry_comment_id" p)
    && not (is_maintainer_retry (get "trigger" p) && is_null (get "retry_comment_id" p))

abbrev pub payload_ok : Option Value → Bool
payload_ok (some (obj p)) = canonical_payload p
payload_ok _ = false

abbrev pub event_ok : Option TaskEvent → Bool
event_ok none = false
event_ok (some e) = payload_ok e.payload

abbrev pub requeued_since : Reads → String → Option ℕ → Result Bool
requeued_since reads task_id none = ok false
requeued_since reads task_id (some t) =
    reads.requeues >>= λ events. ok (event_ok (newest_requeue task_id t events))

-- `_valid_rework_requeue_after_completed`
unfoldable pub valid_rework_requeue_after_completed : Reads → String → Result Bool
unfolding newest_requeue completed_at canonical_payload
valid_rework_requeue_after_completed reads task_id =
    reads.completions >>= λ runs. requeued_since reads task_id (completed_at task_id runs)

-- Case folding and decimal digits beyond ASCII, for `re.IGNORECASE` and `\d`.
pub record Marks : Type 0 where
  pub fold_table : ℕ → ℕ
  pub digit_table : ℕ → Bool

abbrev pub fold_one : Marks → ℕ → ℕ
fold_one marks c = if is_upper c then c + 32 else if ltb c 128 then c else marks.fold_table c

-- What follows a text at the front, in any case.
unfoldable pub after_text : Marks → List ℕ → List ℕ → Option (List ℕ)
after_text marks [] cs = some cs
after_text marks (p ∷ ps) [] = none
after_text marks (p ∷ ps) (c ∷ cs) = elim (fold_one marks c == fold_one marks p) [
  | true ↦ after_text marks ps cs
  | false ↦ none
]

abbrev pub found {ℓ} : {A : Type ℓ} → Option A → Bool
found none = false
found (some a) = true

abbrev pub skip_spaces : List ℕ → List ℕ
skip_spaces [] = []
skip_spaces (c ∷ cs) = let rest = skip_spaces cs in if is_space c then rest else c ∷ cs

-- `DEV\s+Round` at the front.
abbrev pub dev_round_here : Marks → Option (List ℕ) → Bool
dev_round_here marks none = false
dev_round_here marks (some []) = false
dev_round_here marks (some (c ∷ cs)) =
    is_space c && found (after_text marks (codes "round") (skip_spaces cs))

abbrev pub digit_first : Marks → List ℕ → Bool
digit_first marks [] = false
digit_first marks (c ∷ cs) = is_digit c || not (ltb c 128) && marks.digit_table c

-- `round[-_ ]?\d+` at the front.
abbrev pub numbered_round : Marks → Option (List ℕ) → Bool
numbered_round marks none = false
numbered_round marks (some []) = false
numbered_round marks (some (c ∷ cs)) =
    digit_first marks (c ∷ cs) || (c == b'-' || c == b'_' || c == b' ') && digit_first marks cs

-- `_REWORK_MARKER_RE` at the front; the alternative `bounded … rework` ends in the first one.
unfoldable pub rework_marker_here : Marks → List ℕ → Bool
unfolding after_text is_space
rework_marker_here marks cs =
    found (after_text marks (codes "rework") cs)
    || found (after_text marks (codes "재작업") cs)
    || dev_round_here marks (after_text marks (codes "dev") cs)
    || numbered_round marks (after_text marks (codes "round") cs)

abbrev pub somewhere : (List ℕ → Bool) → List ℕ → Bool
somewhere here [] = here []
somewhere here (c ∷ cs) = here (c ∷ cs) || somewhere here cs

unfoldable pub has_rework_marker : Marks → List ℕ → Bool
unfolding rework_marker_here
has_rework_marker marks cs = somewhere (λ rest. rework_marker_here marks rest) cs

-- `_INTAKE_MARKER_RE.search`
unfoldable pub has_intake_marker : Marks → List ℕ → Bool
unfolding after_text
has_intake_marker marks cs =
    somewhere (λ rest. found (after_text marks (codes "github issue intake") rest)) cs

abbrev pub text_or_blank : Option String → List ℕ
text_or_blank none = []
text_or_blank (some s) = codes s

unfoldable pub find_text : String → List TaskText → Option TaskText
find_text task_id [] = none
find_text task_id (t ∷ ts) = if t.id == task_id then some t else find_text task_id ts

-- `SELECT COUNT(*) FROM task_runs WHERE task_id = ?` is zero.
unfoldable pub no_runs : String → List TaskRun → Bool
no_runs task_id [] = true
no_runs task_id (r ∷ rs) = not (r.task_id == task_id) && no_runs task_id rs

-- `except Exception: pass`
abbrev pub granted : Result Bool → Bool
granted (err text) = false
granted (ok answer) = answer

-- What lets a task with an active pull request run by its text: a rework, or a task never run. The
-- runs are not counted where the text is that of a rework.
abbrev pub text_waives : Marks → Reads → String → Option TaskText → Result Bool
text_waives marks reads task_id none = ok false
text_waives marks reads task_id (some t) =
    if has_intake_marker marks (text_or_blank t.title)
    then ok false
    else if has_rework_marker marks (text_or_blank t.title ++ 10 ∷ text_or_blank t.body)
    then ok true
    else reads.counted >>= λ runs. ok (no_runs task_id runs)

abbrev pub waives_by_text : Marks → Reads → String → Result Bool
waives_by_text marks reads task_id =
    reads.texts >>= λ texts. text_waives marks reads task_id (find_text task_id texts)

abbrev pub waives : Marks → Reads → String → String → Bool
waives marks reads task_id reason =
    (reason == "recent_success" || reason == "active_pr")
      && granted (valid_rework_requeue_after_completed reads task_id)
    || reason == "active_pr" && granted (waives_by_text marks reads task_id)

-- `guarded_check_respawn_guard` on the answer of the core.
unfoldable pub guarded_check_respawn_guard : Marks → Reads → String → Option String → Option String
unfolding valid_rework_requeue_after_completed find_text has_intake_marker has_rework_marker no_runs
guarded_check_respawn_guard marks reads task_id none = none
guarded_check_respawn_guard marks reads task_id (some reason) =
    if waives marks reads task_id reason then none else some reason
