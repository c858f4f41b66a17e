-- ===== src/Resource/Workers/Newest.antt =====
-- The run that `_latest_task_run` reads: the newest one of the task that has a process.
use mathlib.Core.List.{Memᴰ}
use mathlib.Core.List.Memᴰ
use hermes_n8n_control_plane.Prelude.{
  ℕ, ◌≤◌, String, ◌≡◌, inl, inr, refl, ◌&&◌, true, Option, none, some, List, [], ◌∷◌, ◌==◌,
  text_comparable, ltb, arith, Bool-cases, and-parts, each-cons, Result, ok, err,
}
use hermes_n8n_control_plane.Resource.Workers.{TaskRun, Tables, is_given, later_run, newest_run}

-- A run of the task with a process.
abbrev pub HasWorker : String → TaskRun → Type 0
HasWorker task_id r = (r.task_id ≡ task_id) × ((pid : ℕ) × (r.worker_pid ≡ some pid))

-- The one of them with the greatest id; none where there is none.
abbrev pub NewestRun : String → List TaskRun → Option TaskRun → Type 0
NewestRun task_id runs none = (q : TaskRun) → Memᴰ q runs → ¬ HasWorker task_id q
NewestRun task_id runs (some r) =
    Memᴰ r runs
    × HasWorker task_id r
    × ((q : TaskRun) → Memᴰ q runs → HasWorker task_id q → q.id ≤ r.id)

-- The run that the database gives; none where it cannot be read.
abbrev pub Given : Result Tables → String → Option TaskRun → Type 0
Given (ok tables) task_id o = NewestRun task_id tables.task_runs o
Given (err text) task_id o = o ≡ none

given-some : (o : Option ℕ) → is_given o ≡ true → (pid : ℕ) × (o ≡ some pid)
given-some none h = cc
given-some (some pid) h = (pid, refl)

module _ (task_id : String) where
  both_tests :
      (r : TaskRun) → HasWorker task_id r → (r.task_id == task_id && is_given r.worker_pid) ≡ true
  both_tests r (of_task, (pid, given)) =
      let mine : (r.task_id == task_id) ≡ true =
        (text_comparable.same_iff r.task_id task_id).1 of_task in
      rw (mine, given) refl

  skipped :
      (r : TaskRun) (rs : List TaskRun) (o : Option TaskRun)
      → ¬ HasWorker task_id r
      → NewestRun task_id rs o
      → NewestRun task_id (r ∷ rs) o
  skipped r rs none other h = each-cons (λ q. ¬ HasWorker task_id q) r rs other h
  skipped r rs (some s) other (m, of_s, last) = (
    Memᴰ.tail m,
    of_s,
    each-cons (λ q. HasWorker task_id q → q.id ≤ s.id) r rs (λ is. absurd (other is)) last,
  )

  taken :
      (r : TaskRun) (rs : List TaskRun) (o : Option TaskRun)
      → HasWorker task_id r
      → NewestRun task_id rs o
      → NewestRun task_id (r ∷ rs) (later_run r o)
  taken r rs none is h = (
    Memᴰ.head refl,
    is,
    each-cons (λ q. HasWorker task_id q → q.id ≤ r.id) r rs (λ _. omega arith)
        (λ q m has. absurd (h q m has)),
  )
  taken r rs (some s) is (m, of_s, last) = elim (Bool-cases (ltb r.id s.id)) [
    | inl less ↦ rw less (
      Memᴰ.tail m,
      of_s,
      each-cons (λ q. HasWorker task_id q → q.id ≤ s.id) r rs (λ _. ground (arith, less)) last,
    )
    | inr more ↦ rw more (
      Memᴰ.head refl,
      is,
      each-cons (λ q. HasWorker task_id q → q.id ≤ r.id) r rs (λ _. omega arith)
          (λ q at has. let bound = last q at has in ground (arith, bound, more)),
    )
  ]

  pub newest_run-NewestRun :
      (runs : List TaskRun) → NewestRun task_id runs (newest_run task_id runs)
  unfolding newest_run
  newest_run-NewestRun [] = λ q m. absurd (Memᴰ.not-nil m)
  newest_run-NewestRun (r ∷ rs) =
      elim (Bool-cases (r.task_id == task_id && is_given r.worker_pid)) [
        | inl mine ↦
            let (of_task, given) = and-parts _ _ mine in
            rw mine (
              taken r rs _
                (
                  (text_comparable.same_iff r.task_id task_id).0 of_task,
                  given-some r.worker_pid given,
                )
                (newest_run-NewestRun rs))
        | inr other ↦ rw other (
            skipped r rs _ (λ is. let all = both_tests r is in cc (other, all))
              (newest_run-NewestRun rs))
      ]
