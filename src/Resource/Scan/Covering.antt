-- ===== src/Resource/Scan/Covering.antt =====
-- No occupied slot is missed: every process that may hold a slot is counted, and every claim that has
-- no process yet.
use hermes_n8n_control_plane.Prelude.{
  ℕ, String, ◌≡◌, refl, sym, ap, subst, Bool, true, false, not, ◌&&◌, Option, none, some, List, [],
  ◌∷◌, ◌==◌, number_comparable, text_comparable, if◌then◌else◌, contains, All, All-mono,
  let_through, Option-cases, inl, inr, arith, ltb,
}
use hermes_n8n_control_plane.Resource.Config.{Pool, assignee_matches}
use hermes_n8n_control_plane.Resource.Workers.{
  Machine, TaskRun, TaskRow, Tables, pid_alive, worker_identity,
}
use hermes_n8n_control_plane.Resource.Scan.{
  Active, counted_pid, counted_run, counted_task, seen_with, scan, scan_claims, scan_board,
  not_refuted, newest_first, insert_newest, profile_or, task_assignee,
}
use hermes_n8n_control_plane.Resource.Scan.Counting.{seen_after, seen_after-append}

-- The process of a run that may hold a slot: it is alive, an assignee of the run or else of its task
-- matches the resource, and its command line does not refute that it works on the task.
pub record IsBusy (m : Machine) (r : Pool) (tasks : List TaskRow) (run : TaskRun) (pid : ℕ)
    : Type 0 where
  pub of_run : run.worker_pid ≡ some pid
  pub alive : pid_alive m pid ≡ true
  pub matched : assignee_matches r (profile_or run.profile (task_assignee run.task_id tasks)) ≡ true
  pub unrefuted : not_refuted (worker_identity m pid run.task_id) ≡ true

-- A running task that holds a slot by a claim without a process.
pub record IsReserved (r : Pool) (task : TaskRow) : Type 0 where
  pub running : (task.status == "running") ≡ true
  pub matched : assignee_matches r task.assignee ≡ true
  pub no_worker : task.worker_pid ≡ none

seen_with-kept :
    (pid : ℕ) (o : Option ℕ) (seen : List ℕ)
    → contains pid seen ≡ true
    → contains pid (seen_with o seen) ≡ true
seen_with-kept pid none seen h = h
seen_with-kept pid (some q) seen h = ground (arith, h)

pub seen_after-kept :
    (pid : ℕ) (seen : List ℕ) (found : List Active)
    → contains pid seen ≡ true
    → contains pid (seen_after seen found) ≡ true
seen_after-kept pid seen [] h = h
seen_after-kept pid seen (a ∷ found) h =
    seen_after-kept pid (seen_with a.pid seen) found (seen_with-kept pid a.pid seen h)

seen_now :
    (pid : ℕ) (o : Option ℕ) (seen : List ℕ) → o ≡ some pid → contains pid (seen_with o seen) ≡ true
seen_now pid none seen e = cc
seen_now pid (some q) seen e = ground arith

module _ {ℓ} {Row : Type ℓ} (counted : Row → List ℕ → Option Active) where
  -- The row is skipped only for a process that was seen, and else counted by it.
  record Wants (row : Row) (pid : ℕ) : Type ℓ where
    skipped_seen : (seen : List ℕ) → counted row seen ≡ none → contains pid seen ≡ true
    counted_by : (seen : List ℕ) (a : Active) → counted row seen ≡ some a → a.pid ≡ some pid

  -- The process that a row wants is among those of the entries.
  abbrev Seen : List ℕ → List Active → List Row → Type ℓ
  Seen seen found rows =
      All (λ row. (pid : ℕ) → Wants row pid → contains pid (seen_after seen found) ≡ true) rows

  pub scan-skip :
      (row : Row) (rows : List Row) (seen : List ℕ)
      → counted row seen ≡ none
      → (scan counted rows seen).0 ≡ (scan counted (row ∷ rows) seen).0
  unfolding scan
  scan-skip row rows seen e = rw (e, scan)

  pub scan-take :
      (row : Row) (rows : List Row) (seen : List ℕ) (a : Active)
      → counted row seen ≡ some a
      → a ∷ (scan counted rows (seen_with a.pid seen)).0 ≡ (scan counted (row ∷ rows) seen).0
  unfolding scan
  scan-take row rows seen a e = rw (e, scan)

  scan-Seen : (rows : List Row) (seen : List ℕ) → Seen seen (scan counted rows seen).0 rows
  scan-Seen [] seen = tt
  scan-Seen (row ∷ rows) seen = elim (Option-cases (counted row seen)) [
    | inl skipped ↦
        subst (λ found. Seen seen found (row ∷ rows)) (scan-skip row rows seen skipped)
          (
            λ pid wants.
                seen_after-kept pid seen (scan counted rows seen).0
                  (wants.skipped_seen seen skipped),
            scan-Seen rows seen,
          )
    | inr (a, e) ↦
        subst (λ found. Seen seen found (row ∷ rows)) (scan-take row rows seen a e)
          (
            λ pid wants.
                seen_after-kept pid (seen_with a.pid seen)
                  (scan counted rows (seen_with a.pid seen)).0
                  (seen_now pid a.pid seen (wants.counted_by seen a e)),
            scan-Seen rows (seen_with a.pid seen),
          )
  ]

-- A property of all rows in the query's order is one of all rows.
module _ {κ} (P : TaskRun → Type κ) where
  All-insert_newest :
      (r : TaskRun) (qs : List TaskRun) → All P (insert_newest r qs) → P r × All P qs
  unfolding insert_newest
  All-insert_newest r [] h = h
  All-insert_newest r (q ∷ qs) h = by_order (ltb r.id q.id) (All-insert_newest r qs) h
    where
      by_order :
          (b : Bool)
          → (All P (insert_newest r qs) → P r × All P qs)
          → All P (if b then q ∷ insert_newest r qs else r ∷ q ∷ qs)
          → P r × (P q × All P qs)
      by_order true ih h = let (mine, others) = ih h.1 in (mine, (h.0, others))
      by_order false ih h = h

  All-newest_first : (rs : List TaskRun) → All P (newest_first rs) → All P rs
  unfolding newest_first
  All-newest_first [] h = tt
  All-newest_first (r ∷ rs) h =
      let (mine, others) = All-insert_newest r (newest_first rs) h in
      (mine, All-newest_first rs others)

-- A row that meets every other condition is skipped only when its process was seen.
blocked {ℓ} :
    {A : Type ℓ} (x : A) (matches seen alive fits : Bool)
    → matches ≡ true
    → alive ≡ true
    → fits ≡ true
    → (if matches && not seen && alive && fits then some x else none) ≡ none
    → seen ≡ true
blocked x matches true alive fits a l i h = refl
blocked x true false true true a l i h = cc
blocked x false false alive fits a l i h = cc
blocked x true false false fits a l i h = cc
blocked x true false true false a l i h = cc

module _ (m : Machine) (r : Pool) (path : String) where
  counted_run-Wants :
      (tasks : List TaskRow) (run : TaskRun) (pid : ℕ)
      → IsBusy m r tasks run pid
      → Wants (counted_run m r path tasks) run pid
  unfolding counted_run counted_pid
  counted_run-Wants tasks run pid busy = record {
    skipped_seen = λ seen h.
        blocked _ (assignee_matches r assignee) (contains pid seen) (pid_alive m pid)
          (not_refuted (worker_identity m pid run.task_id)) busy.matched busy.alive busy.unrefuted
          (subst (λ o. counted_pid m r path run assignee o seen ≡ none) busy.of_run h);
    counted_by = λ seen a h. sym (
        ap (λ (x : Active). x.pid)
          (let_through _
            (subst (λ o. counted_pid m r path run assignee o seen ≡ some a) busy.of_run h)).1);
  }
    where
      assignee : Option String
      assignee = profile_or run.profile (task_assignee run.task_id tasks)

  -- The processes of the entries of one board, with those seen before.
  pub scan_board-IsBusy :
      (tables : Tables) (seen : List ℕ)
      → All
          (λ run.
            (pid : ℕ)
            → IsBusy m r tables.tasks run pid
            → contains pid (seen_after seen (scan_board m r path tables seen).0) ≡ true)
          tables.task_runs
  unfolding scan_board scan_claims
  scan_board-IsBusy tables seen = All-newest_first _ tables.task_runs (
      All-mono _ _ (newest_first tables.task_runs)
        (λ run covered pid busy.
          subst (λ s. contains pid s ≡ true) (sym (seen_after-append seen runs claims))
            (seen_after-kept pid (seen_after seen runs) claims
              (covered pid (counted_run-Wants tables.tasks run pid busy))))
        (scan-Seen (counted_run m r path tables.tasks) (newest_first tables.task_runs) seen))
    where
      runs : List Active
      runs = (scan (counted_run m r path tables.tasks) (newest_first tables.task_runs) seen).0

      claims : List Active
      claims =
          (scan (counted_task m r path) tables.tasks
            (scan (counted_run m r path tables.tasks) (newest_first tables.task_runs) seen).1).0
