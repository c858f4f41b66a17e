-- ===== src/Dynamic/Rework/Newest.antt =====
-- The rows that the guard reads: the newest completion of the task, and the newest requeue since then.
use mathlib.Core.List.{Memᴰ}
use mathlib.Core.List.Memᴰ
use hermes_n8n_control_plane.Prelude.{
  ℕ, ◌≤◌, ◌<◌, String, ◌≡◌, ◌⊎◌, ◌↔◌, inl, inr, refl, sym, ap, ◌∙◌, true, false, ◌&&◌, Option, none,
  some, List, [], ◌∷◌, ◌==◌, number_comparable, text_comparable, ltb, arith, Bool-cases, each-cons,
  and-parts,
}
use hermes_n8n_control_plane.Resource.Workers.{TaskRun}
use hermes_n8n_control_plane.Dynamic.Rework.{
  TaskEvent, later_of, ended_with, is_completed, completed_at, is_requeue, event_before,
  later_event, newest_requeue,
}

-- A completed run of the task ended then.
abbrev pub Completed : String → TaskRun → ℕ → Type 0
Completed task_id r t =
    (r.task_id ≡ task_id) × (r.outcome ≡ some "completed") × (r.ended_at ≡ some t)

-- The time at which the newest completed run ended; none where no run is completed.
abbrev pub Latest : String → List TaskRun → Option ℕ → Type 0
Latest task_id runs none = (r : TaskRun) → Memᴰ r runs → (t : ℕ) → ¬ Completed task_id r t
Latest task_id runs (some s) =
    ((r : TaskRun) × Memᴰ r runs × Completed task_id r s)
    × ((r : TaskRun) → Memᴰ r runs → (t : ℕ) → Completed task_id r t → t ≤ s)

-- A requeue of the task at that time or later.
abbrev pub Requeues : String → ℕ → TaskEvent → Type 0
Requeues task_id since e =
    (e.task_id ≡ task_id)
    × (since ≤ e.created_at)
    × ((e.kind ≡ "github_pr_rework") ⊎ (e.kind ≡ "github_pr_rework_retry"))

abbrev pub NotAfter : TaskEvent → TaskEvent → Type 0
NotAfter g e = (g.created_at < e.created_at) ⊎ (g.created_at ≡ e.created_at) × (g.id ≤ e.id)

-- The newest requeue; none where there is none.
abbrev pub Newest : String → ℕ → List TaskEvent → Option TaskEvent → Type 0
Newest task_id since events none = (g : TaskEvent) → Memᴰ g events → ¬ Requeues task_id since g
Newest task_id since events (some e) =
    Memᴰ e events
    × Requeues task_id since e
    × ((g : TaskEvent) → Memᴰ g events → Requeues task_id since g → NotAfter g e)

is_completed-eq : (o : Option String) → is_completed o ≡ true → o ≡ some "completed"
is_completed-eq none h = cc
is_completed-eq (some s) h = ap some ((text_comparable.same_iff s "completed").0 h)

some_number : {m n : ℕ} → some m ≡ some n → m ≡ n
some_number h = cc

module _ (task_id : String) where
  Latest-skip :
      (r : TaskRun) (rs : List TaskRun) (o : Option ℕ)
      → ((t : ℕ) → ¬ Completed task_id r t)
      → Latest task_id rs o
      → Latest task_id (r ∷ rs) o
  Latest-skip r rs none other h = each-cons (λ q. (t : ℕ) → ¬ Completed task_id q t) r rs other h
  Latest-skip r rs (some s) other ((q, m, done), last) = (
    (q, Memᴰ.tail m, done),
    each-cons (λ q. (t : ℕ) → Completed task_id q t → t ≤ s) r rs (λ t c. absurd (other t c)) last,
  )

  Latest-take :
      (r : TaskRun) (rs : List TaskRun) (t : ℕ) (o : Option ℕ)
      → Completed task_id r t
      → Latest task_id rs o
      → Latest task_id (r ∷ rs) (later_of t o)
  Latest-take r rs t none done h = (
    (r, Memᴰ.head refl, done),
    each-cons (λ q. (u : ℕ) → Completed task_id q u → u ≤ t) r rs
        (λ u (_, _, e). let same : u ≡ t = some_number (sym e ∙ done.2) in omega (arith, same))
        (λ q m u c. absurd (h q m u c)),
  )
  Latest-take r rs t (some s) done ((q, m, at_s), last) = elim (Bool-cases (ltb t s)) [
    | inl less ↦ rw less (
      (q, Memᴰ.tail m, at_s),
      each-cons (λ q. (u : ℕ) → Completed task_id q u → u ≤ s) r rs
          (λ u (_, _, e).
            let same : u ≡ t = some_number (sym e ∙ done.2) in ground (arith, same, less))
          last,
    )
    | inr more ↦ rw more (
      (r, Memᴰ.head refl, done),
      each-cons (λ q. (u : ℕ) → Completed task_id q u → u ≤ t) r rs
          (λ u (_, _, e). let same : u ≡ t = some_number (sym e ∙ done.2) in omega (arith, same))
          (λ q m u c. let bound = last q m u c in ground (arith, bound, more)),
    )
  ]

  -- The time that is read is that of the newest completed run.
  pub completed_at-Latest : (runs : List TaskRun) → Latest task_id runs (completed_at task_id runs)
  unfolding completed_at
  completed_at-Latest [] = λ r m. absurd (Memᴰ.not-nil m)
  completed_at-Latest (r ∷ rs) =
      elim (Bool-cases (r.task_id == task_id && is_completed r.outcome)) [
        | inr other ↦ rw other (Latest-skip r rs _ (not_mine other) (completed_at-Latest rs))
        | inl mine ↦ rw mine (
            let (of_task, outcome) = and-parts _ _ mine in
            by_end ((text_comparable.same_iff r.task_id task_id).0 of_task)
              (is_completed-eq r.outcome outcome) r.ended_at refl (completed_at-Latest rs))
      ]
    where
      not_mine :
          (r.task_id == task_id && is_completed r.outcome) ≡ false
          → (t : ℕ) → ¬ Completed task_id r t
      not_mine other t (of_task, outcome, _) =
          let mine : (r.task_id == task_id) ≡ true =
            (text_comparable.same_iff r.task_id task_id).1 of_task in
          let both : (r.task_id == task_id && is_completed r.outcome) ≡ true =
            rw (mine, outcome) refl in
          cc (other, both)

      by_end :
          r.task_id ≡ task_id
          → r.outcome ≡ some "completed"
          → (o : Option ℕ) → r.ended_at ≡ o
          → Latest task_id rs (completed_at task_id rs)
          → Latest task_id (r ∷ rs) (ended_with r o (completed_at task_id rs))
      by_end of_task outcome none e rest = Latest-skip r rs _ (λ t (_, _, k). cc (e, k)) rest
      by_end of_task outcome (some t) e rest = Latest-take r rs t _ (of_task, outcome, e) rest

is_requeue_iff :
    (task_id : String) (since : ℕ) (e : TaskEvent)
    → (is_requeue task_id since e ≡ true) ↔ Requeues task_id since e
is_requeue_iff task_id since e = ground (
  arith,
  text_comparable.same_iff e.task_id task_id,
  text_comparable.same_iff e.kind "github_pr_rework",
  text_comparable.same_iff e.kind "github_pr_rework_retry",
)

module _ (task_id : String) (since : ℕ) where
  Newest-skip :
      (e : TaskEvent) (es : List TaskEvent) (o : Option TaskEvent)
      → ¬ Requeues task_id since e
      → Newest task_id since es o
      → Newest task_id since (e ∷ es) o
  Newest-skip e es none other h = each-cons (λ g. ¬ Requeues task_id since g) e es other h
  Newest-skip e es (some f) other (m, is, last) = (
    Memᴰ.tail m,
    is,
    each-cons (λ g. Requeues task_id since g → NotAfter g f) e es (λ r. absurd (other r)) last,
  )

  Newest-take :
      (e : TaskEvent) (es : List TaskEvent) (o : Option TaskEvent)
      → Requeues task_id since e
      → Newest task_id since es o
      → Newest task_id since (e ∷ es) (later_event e o)
  Newest-take e es none is h = (
    Memᴰ.head refl,
    is,
    each-cons (λ g. Requeues task_id since g → NotAfter g e) e es (λ _. ground arith)
        (λ g m r. absurd (h g m r)),
  )
  Newest-take e es (some f) is (m, of_f, last) = elim (Bool-cases (event_before e f)) [
    | inl before ↦ rw before (
      Memᴰ.tail m,
      of_f,
      each-cons (λ g. Requeues task_id since g → NotAfter g f) e es (λ _. ground (arith, before))
          last,
    )
    | inr not_before ↦ rw not_before (
      Memᴰ.head refl,
      is,
      each-cons (λ g. Requeues task_id since g → NotAfter g e) e es (λ _. ground arith)
          (λ g at r. let bound = last g at r in ground (arith, bound, not_before)),
    )
  ]

  -- The requeue that is read is the newest one.
  pub newest_requeue-Newest :
      (es : List TaskEvent) → Newest task_id since es (newest_requeue task_id since es)
  unfolding newest_requeue
  newest_requeue-Newest [] = λ g m. absurd (Memᴰ.not-nil m)
  newest_requeue-Newest (e ∷ es) = elim (Bool-cases (is_requeue task_id since e)) [
    | inl is ↦
        rw is
          (Newest-take e es _ ((is_requeue_iff task_id since e).0 is) (newest_requeue-Newest es))
    | inr other ↦ rw other (
        Newest-skip e es _ (λ r. let is = (is_requeue_iff task_id since e).1 r in cc (is, other))
          (newest_requeue-Newest es))
  ]
