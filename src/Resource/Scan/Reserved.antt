-- ===== src/Resource/Scan/Reserved.antt =====
-- The claims without a process, and the scan of every board: nothing that holds a slot is missed.
use hermes_n8n_control_plane.Prelude.{
  ℕ, String, ◌≡◌, refl, sym, ap, ◌∙◌, subst, Bool, true, ◌&&◌, Option, none, some, List, [], ◌∷◌,
  ◌++◌, ◌==◌, number_comparable, text_comparable, any, All, All-mono, Option-cases, Bool-cases, inl,
  inr, eq_iff,
}
use hermes_n8n_control_plane.Resource.Config.{Pool, assignee_matches}
use hermes_n8n_control_plane.Resource.Workers.{Machine, TaskRow, Tables}
use hermes_n8n_control_plane.Resource.Scan.{
  Active, counted_run, counted_claim, counted_task, seen_with, scan, scan_claims, scan_board,
  newest_first,
}
use hermes_n8n_control_plane.Resource.Scan.Covering.{scan-skip, scan-take}

-- A running task that holds a slot by a claim without a process.
pub record IsReserved (r : Pool) (task : TaskRow) : Type 0 where
  pub running : (task.status == "running") ≡ true
  pub matched : assignee_matches r task.assignee ≡ true
  pub no_worker : task.worker_pid ≡ none

-- The entry of a task's claim.
abbrev pub claim_of : TaskRow → Active → Bool
claim_of task a = a.reservation && a.task_id == task.id

pub any-append_left :
    (p : Active → Bool) (xs ys : List Active) → any p xs ≡ true → any p (xs ++ ys) ≡ true
any-append_left p [] ys h = cc
any-append_left p (x ∷ xs) ys h = elim (Bool-cases (p x)) [
  | inl here ↦ rw here
  | inr other ↦ rw (other, any-append_left p xs ys (rw other at h))
]

pub any-append_right :
    (p : Active → Bool) (xs ys : List Active) → any p ys ≡ true → any p (xs ++ ys) ≡ true
any-append_right p [] ys h = h
any-append_right p (x ∷ xs) ys h = elim (Bool-cases (p x)) [
  | inl here ↦ rw here
  | inr other ↦ rw (other, any-append_right p xs ys h)
]

module _ (counted : TaskRow → List ℕ → Option Active) where
  -- Whatever was seen, the row adds an entry that passes the test.
  Always : TaskRow → Type 0
  Always row =
      (seen : List ℕ) → (a : Active) × (counted row seen ≡ some a) × (claim_of row a ≡ true)

  abbrev Claimed : List Active → List TaskRow → Type 0
  Claimed found rows = All (λ row. Always row → any (claim_of row) found ≡ true) rows

  Claimed-cons :
      (a : Active) (found : List Active) (rows : List TaskRow)
      → Claimed found rows
      → Claimed (a ∷ found) rows
  Claimed-cons a found rows h =
      All-mono _ _ rows
        (λ row claimed always. any-append_right (claim_of row) (a ∷ []) found (claimed always)) h

  scan-Always : (rows : List TaskRow) (seen : List ℕ) → Claimed (scan counted rows seen).0 rows
  unfolding Always
  scan-Always [] seen = tt
  scan-Always (row ∷ rows) seen = elim (Option-cases (counted row seen)) [
    | inl skipped ↦
        subst (λ found. Claimed found (row ∷ rows)) (scan-skip counted row rows seen skipped)
          (
            λ always. let wrong : none ≡ some (always seen).0 = sym skipped ∙ (always seen).1 in cc,
            scan-Always rows seen,
          )
    | inr (a, e) ↦
        subst (λ found. Claimed found (row ∷ rows)) (scan-take counted row rows seen a e)
          (
            λ always. first row a (always seen) e,
            Claimed-cons a (scan counted rows (seen_with a.pid seen)).0 rows
                (scan-Always rows (seen_with a.pid seen)),
          )
  ]
    where
      passes : TaskRow → Option Active → Type 0
      passes row none = Unit
      passes row (some a) = claim_of row a ≡ true

      first :
          (row : TaskRow) (a : Active)
          → (b : Active) × (counted row seen ≡ some b) × (claim_of row b ≡ true)
          → counted row seen ≡ some a
          → any (claim_of row) (a ∷ (scan counted rows (seen_with a.pid seen)).0) ≡ true
      first row a (b, e, claim) h =
          let here : claim_of row a ≡ true = subst (λ o. passes row o) (sym e ∙ h) claim in rw here

module _ (m : Machine) (r : Pool) (path : String) where
  claim_counted :
      (task : TaskRow) (seen : List ℕ)
      → IsReserved r task
      → counted_task m r path task seen ≡ counted_claim m r path task none seen
  unfolding counted_task
  claim_counted task seen reserved =
      rw (reserved.running, counted_task)
        (rw (reserved.matched) (ap (λ o. counted_claim m r path task o seen) reserved.no_worker))

  counted_task-Always : (task : TaskRow) → IsReserved r task → Always (counted_task m r path) task
  unfolding Always counted_claim
  counted_task-Always task reserved seen =
      (_, claim_counted task seen reserved, (eq_iff task.id task.id).1 refl)

  pub scan_board-IsReserved :
      (tables : Tables) (seen : List ℕ)
      → All
          (λ task.
            IsReserved r task → any (claim_of task) (scan_board m r path tables seen).0 ≡ true)
          tables.tasks
  unfolding scan_board scan_claims
  scan_board-IsReserved tables seen =
      All-mono _ _ tables.tasks
        (λ task claimed reserved.
          any-append_right (claim_of task) runs.0 (scan by_task tables.tasks runs.1).0
            (claimed (counted_task-Always task reserved)))
        (scan-Always by_task tables.tasks runs.1)
    where
      by_task : TaskRow → List ℕ → Option Active
      by_task = counted_task m r path

      runs : List Active × List ℕ
      runs = scan (counted_run m r path tables.tasks) (newest_first tables.task_runs) seen
