-- ===== src/Dynamic/Rework/Waived.antt =====
-- What waives the guard: the newest requeue of the task since its newest completion, or its text.
use mathlib.Core.List.{Memᴰ}
use mathlib.Core.List.Memᴰ
use hermes_n8n_control_plane.Prelude.{
  ℕ, String, ◌≡◌, ◌≢◌, ◌⊎◌, inl, inr, refl, sym, subst, Bool, true, false, ◌||◌, Option, none, some,
  List, [], ◌∷◌, ◌++◌, ◌==◌, text_comparable, if◌then◌else◌, and-parts, not-true, Bool-cases,
  Result, ok, err, ok_injective, ◌>>=◌, each-cons,
}
use hermes_n8n_control_plane.Json.{Value, Fields, obj}
use hermes_n8n_control_plane.Resource.Workers.{TaskRun}
use hermes_n8n_control_plane.Dynamic.Rework.{
  TaskEvent, TaskText, Reads, Marks, completed_at, newest_requeue, canonical_payload, payload_ok,
  event_ok, requeued_since, valid_rework_requeue_after_completed, find_text, has_intake_marker,
  has_rework_marker, no_runs, text_or_blank, text_waives, waives_by_text, granted,
  guarded_check_respawn_guard,
}
use hermes_n8n_control_plane.Dynamic.Rework.Canonical.{IsCanonical, canonical_payload-IsCanonical}
use hermes_n8n_control_plane.Dynamic.Rework.Newest.{
  Latest, Newest, completed_at-Latest, newest_requeue-Newest,
}
use hermes_n8n_control_plane.Dynamic.Rework.Texts.{
  Marker, Somewhere, IsIntake, or-parts, no-IsIntake, has_rework_marker-Marker,
}

-- A rework was requeued on purpose: the newest requeue of the task since its newest completion has a
-- canonical payload.
pub record Requeued (reads : Reads) (task_id : String) : Type 0 where
  pub runs : List TaskRun
  pub read_runs : reads.completions ≡ ok runs
  pub since : ℕ
  pub completion : Latest task_id runs (some since)
  pub events : List TaskEvent
  pub read_events : reads.requeues ≡ ok events
  pub event : TaskEvent
  pub newest : Newest task_id since events (some event)
  pub payload : Fields
  pub decoded : event.payload ≡ some (obj payload)
  pub canonical : IsCanonical payload

-- No run of the task is in the table.
abbrev pub NeverRun : Reads → String → Type 0
NeverRun reads task_id =
    (runs : List TaskRun) × (reads.counted ≡ ok runs)
    × ((r : TaskRun) → Memᴰ r runs → r.task_id ≢ task_id)

-- The title and the body with a line feed between them.
abbrev pub whole_text : TaskText → List ℕ
whole_text t = text_or_blank t.title ++ 10 ∷ text_or_blank t.body

-- The text of the task lets it run: its title is no intake, and it has the text of a rework or was
-- never run.
pub record Unblocked (marks : Marks) (reads : Reads) (task_id : String) : Type 0 where
  pub texts : List TaskText
  pub read_texts : reads.texts ≡ ok texts
  pub row : TaskText
  pub listed : Memᴰ row texts
  pub of_task : row.id ≡ task_id
  pub no_intake : ¬ IsIntake marks (text_or_blank row.title)
  pub reworked : Somewhere (Marker marks) (whole_text row) ⊎ NeverRun reads task_id

decoded_payload :
    (o : Option Value)
    → payload_ok o ≡ true
    → (p : Fields) × (o ≡ some (obj p)) × (canonical_payload p ≡ true)
decoded_payload (some (obj p)) h = (p, refl, h)
decoded_payload none h = cc
decoded_payload (some Value.null) h = cc
decoded_payload (some (Value.bool b)) h = cc
decoded_payload (some (Value.int n)) h = cc
decoded_payload (some (Value.negative n)) h = cc
decoded_payload (some (Value.float t)) h = cc
decoded_payload (some (Value.str t)) h = cc
decoded_payload (some (Value.arr vs)) h = cc

bind-true :
    {A : Type 0} (r : Result A) (next : A → Result Bool)
    → (r >>= next) ≡ ok true
    → (a : A) × (r ≡ ok a) × (next a ≡ ok true)
bind-true (ok a) next h = (a, refl, h)
bind-true (err text) next h = cc

granted-true : (r : Result Bool) → granted r ≡ true → r ≡ ok true
granted-true (err text) h = cc
granted-true (ok true) h = refl
granted-true (ok false) h = cc

valid_backing :
    (reads : Reads) (task_id : String)
    → valid_rework_requeue_after_completed reads task_id ≡ ok true
    → Requeued reads task_id
unfolding valid_rework_requeue_after_completed
valid_backing reads task_id h =
    let (runs, read, rest) = bind-true reads.completions _ h in
    by_completion runs read (completed_at task_id runs) (completed_at-Latest task_id runs) rest
  where
    by_event :
        (runs : List TaskRun)
        → reads.completions ≡ ok runs
        → (since : ℕ) → Latest task_id runs (some since)
        → (events : List TaskEvent) → reads.requeues ≡ ok events
        → (o : Option TaskEvent) → Newest task_id since events o
        → event_ok o ≡ true
        → Requeued reads task_id
    by_event runs read_runs since done events read_events none newest h = cc
    by_event runs read_runs since done events read_events (some event) newest h =
        let (payload, decoded, canonical) = decoded_payload event.payload h in
        record {
          runs = runs;
          read_runs = read_runs;
          since = since;
          completion = done;
          events = events;
          read_events = read_events;
          event = event;
          newest = newest;
          payload = payload;
          decoded = decoded;
          canonical = canonical_payload-IsCanonical payload canonical;
        }

    by_completion :
        (runs : List TaskRun)
        → reads.completions ≡ ok runs
        → (o : Option ℕ) → Latest task_id runs o
        → requeued_since reads task_id o ≡ ok true
        → Requeued reads task_id
    by_completion runs read none done h = cc
    by_completion runs read (some since) done h =
        let (events, read_events, ok_event) = bind-true reads.requeues _ h in
        by_event runs read since done events read_events (newest_requeue task_id since events)
          (newest_requeue-Newest task_id since events) (ok_injective ok_event)

find_text-listed :
    (task_id : String) (texts : List TaskText) (t : TaskText)
    → find_text task_id texts ≡ some t
    → Memᴰ t texts × (t.id ≡ task_id)
unfolding find_text
find_text-listed task_id [] t h = cc
find_text-listed task_id (q ∷ texts) t h = elim (Bool-cases (q.id == task_id)) [
  | inl mine ↦
      let same : q ≡ t = some_text (rw mine at h) in
      (
        Memᴰ.head (sym same),
        subst (λ c. c.id ≡ task_id) same ((text_comparable.same_iff q.id task_id).0 mine),
      )
  | inr other ↦
      let (listed, of_task) = find_text-listed task_id texts t (rw other at h) in
      (Memᴰ.tail listed, of_task)
]
  where
    some_text : {a b : TaskText} → some a ≡ some b → a ≡ b
    some_text h = cc

no_runs-never :
    (task_id : String) (runs : List TaskRun)
    → no_runs task_id runs ≡ true
    → (r : TaskRun) → Memᴰ r runs
    → r.task_id ≢ task_id
unfolding no_runs
no_runs-never task_id [] h = λ r m. absurd (Memᴰ.not-nil m)
no_runs-never task_id (r ∷ runs) h =
    let (other, rest) = and-parts _ _ h in
    each-cons (λ q. q.task_id ≢ task_id) r runs
      (λ e.
        let mine = (text_comparable.same_iff r.task_id task_id).1 e in
        let missed = not-true (r.task_id == task_id) other in cc (mine, missed))
      (no_runs-never task_id runs rest)

text_backing :
    (marks : Marks) (reads : Reads) (task_id : String)
    → waives_by_text marks reads task_id ≡ ok true
    → Unblocked marks reads task_id
text_backing marks reads task_id h =
    let (texts, read, rest) = bind-true reads.texts _ h in
    by_row texts read (find_text task_id texts) refl rest
  where
    by_text :
        (t : TaskText)
        → text_waives marks reads task_id (some t) ≡ ok true
        → (has_intake_marker marks (text_or_blank t.title) ≡ false)
          × (Somewhere (Marker marks) (whole_text t) ⊎ NeverRun reads task_id)
    by_text t h = elim (Bool-cases (has_intake_marker marks (text_or_blank t.title))) [
      | inl intake ↦ absurd (cc (rw intake at h))
      | inr free ↦ elim (Bool-cases (has_rework_marker marks (whole_text t))) [
        | inl marked ↦ (free, inl (has_rework_marker-Marker marks (whole_text t) marked))
        | inr unmarked ↦
            let (runs, read, none_run) = bind-true reads.counted _ (rw (free, unmarked) at h) in
            (free, inr (runs, read, no_runs-never task_id runs (ok_injective none_run)))
      ]
    ]

    by_row :
        (texts : List TaskText)
        → reads.texts ≡ ok texts
        → (o : Option TaskText) → find_text task_id texts ≡ o
        → text_waives marks reads task_id o ≡ ok true
        → Unblocked marks reads task_id
    by_row texts read none e h = cc
    by_row texts read (some t) e h =
        let (free, reworked) = by_text t h in
        let (listed, of_task) = find_text-listed task_id texts t e in
        record {
          texts = texts;
          read_texts = read;
          row = t;
          listed = listed;
          of_task = of_task;
          no_intake = no-IsIntake marks (text_or_blank t.title) free;
          reworked = reworked;
        }

-- The wrapper lets a task run that the core's guard holds back only for a recent success or an active
-- pull request whose newest requeue since the newest completion of the task has a canonical payload,
-- or, for an active pull request, by the text of the task: its title is not that of an intake, and its
-- text is that of a rework, or the task was never run. A read that raises waives nothing.
pub guarded_check_respawn_guard-Waived :
    (marks : Marks) (reads : Reads) (task_id reason : String)
    → guarded_check_respawn_guard marks reads task_id (some reason) ≡ none
    → ((reason ≡ "recent_success") ⊎ (reason ≡ "active_pr")) × Requeued reads task_id
      ⊎ (reason ≡ "active_pr") × Unblocked marks reads task_id
unfolding guarded_check_respawn_guard
guarded_check_respawn_guard-Waived marks reads task_id reason h =
    elim (or-parts _ _ (let_none _ h)) [
      | inl both ↦
          let (held, valid) =
            and-parts (reason == "recent_success" || reason == "active_pr") _ both in
          inl (held_reason held, valid_backing reads task_id (granted-true _ valid))
      | inr both ↦
          let (held, waived) = and-parts (reason == "active_pr") _ both in
          inr (
            (text_comparable.same_iff reason "active_pr").0 held,
            text_backing marks reads task_id (granted-true _ waived),
          )
    ]
  where
    let_none : (b : Bool) → (if b then none else some reason) ≡ none → b ≡ true
    let_none true h = refl
    let_none false h = cc

    held_reason :
        (reason == "recent_success" || reason == "active_pr") ≡ true
        → (reason ≡ "recent_success") ⊎ (reason ≡ "active_pr")
    held_reason held = elim (or-parts (reason == "recent_success") _ held) [
      | inl recent ↦ inl ((text_comparable.same_iff reason "recent_success").0 recent)
      | inr active ↦ inr ((text_comparable.same_iff reason "active_pr").0 active)
    ]
