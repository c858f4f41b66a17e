-- ===== src/Resource/Scan/Counting.antt =====
-- No process is counted twice: the entries of the scan have distinct process numbers.
use hermes_n8n_control_plane.Prelude.{
  ℕ, String, ◌≡◌, refl, sym, ap, ◌∙◌, subst, false, ◌&&◌, Option, none, some, List, [], ◌∷◌, ◌++◌,
  ◌==◌, number_comparable, text_comparable, contains, Result, Option-cases, Bool-cases,
  Result-cases, inl, inr, let_through, and-parts, not-true, and-parts,
}
use hermes_n8n_control_plane.Resource.{
  done, Ensures, done-Ensures, raised-Ensures, bind-Ensures, bind-done,
}
use hermes_n8n_control_plane.Resource.Config.{Pool, assignee_matches}
use hermes_n8n_control_plane.Resource.Workers.{Machine, TaskRun, TaskRow, Tables}
use hermes_n8n_control_plane.Resource.Scan.{
  Active, Boards, counted_pid, counted_run, counted_claim, counted_task, seen_with, scan,
  scan_claims, scan_board, scan_boards, active_resource_workers, newest_first, profile_or,
  task_assignee,
}

-- A process number that is not among those seen.
abbrev pub IsNew : Option ℕ → List ℕ → Type 0
IsNew none seen = Unit
IsNew (some pid) seen = contains pid seen ≡ false

-- Each entry's process is new, after those seen and those of the entries before it.
abbrev pub Distinct : List ℕ → List Active → Type 0
Distinct seen [] = Unit
Distinct seen (a ∷ found) = IsNew a.pid seen × Distinct (seen_with a.pid seen) found

abbrev pub seen_after : List ℕ → List Active → List ℕ
seen_after seen [] = seen
seen_after seen (a ∷ found) = seen_after (seen_with a.pid seen) found

Distinct-append :
    (seen : List ℕ) (xs ys : List Active)
    → Distinct seen xs
    → Distinct (seen_after seen xs) ys
    → Distinct seen (xs ++ ys)
Distinct-append seen [] ys h k = k
Distinct-append seen (x ∷ xs) ys h k = (h.0, Distinct-append (seen_with x.pid seen) xs ys h.1 k)

pub seen_after-append :
    (seen : List ℕ) (xs ys : List Active)
    → seen_after seen (xs ++ ys) ≡ seen_after (seen_after seen xs) ys
seen_after-append seen [] ys = refl
seen_after-append seen (x ∷ xs) ys = seen_after-append (seen_with x.pid seen) xs ys

module _ {ℓ} {Row : Type ℓ} (counted : Row → List ℕ → Option Active) where
  -- The processes seen at the end are those seen before, and those of the entries.
  pub scan-seen_after :
      (rows : List Row) (seen : List ℕ)
      → (scan counted rows seen).1 ≡ seen_after seen (scan counted rows seen).0
  unfolding scan
  scan-seen_after [] seen = refl
  scan-seen_after (row ∷ rows) seen = elim (Option-cases (counted row seen)) [
    | inl skipped ↦ rw (skipped, scan) (scan-seen_after rows seen)
    | inr (a, e) ↦ rw (e, scan) (scan-seen_after rows (seen_with a.pid seen))
  ]

  scan-Distinct :
      (rows : List Row) (seen : List ℕ)
      → ((row : Row) (before : List ℕ) (a : Active)
          → counted row before ≡ some a
          → IsNew a.pid before)
      → Distinct seen (scan counted rows seen).0
  unfolding scan
  scan-Distinct [] seen new = tt
  scan-Distinct (row ∷ rows) seen new = elim (Option-cases (counted row seen)) [
    | inl skipped ↦ rw (skipped, scan) (scan-Distinct rows seen new)
    | inr (a, e) ↦ rw (e, scan) (new row seen a e, scan-Distinct rows (seen_with a.pid seen) new)
  ]

some_injective {ℓ} : {A : Type ℓ} {a b : A} → some a ≡ some b → a ≡ b
some_injective h = cc

pid_of : (a b : Active) (seen : List ℕ) → a ≡ b → IsNew a.pid seen → IsNew b.pid seen
pid_of a b seen e h = subst (λ (x : Active). IsNew x.pid seen) e h

module _ (m : Machine) (r : Pool) (path : String) where
  counted_pid-IsNew :
      (run : TaskRun) (assignee : Option String) (pid : Option ℕ) (seen : List ℕ) (a : Active)
      → counted_pid m r path run assignee pid seen ≡ some a
      → IsNew a.pid seen
  unfolding counted_pid
  counted_pid-IsNew run assignee none seen a h = cc
  counted_pid-IsNew run assignee (some pid) seen a h =
      let (test, same) = let_through _ h in
      let (lives, _) = and-parts _ _ test in
      let (unseen, _) = and-parts _ _ lives in
      let (_, fresh) = and-parts _ _ unseen in
      pid_of _ a seen same (not-true (contains pid seen) fresh)

  counted_claim-IsNew :
      (task : TaskRow) (pid : Option ℕ) (seen : List ℕ) (a : Active)
      → counted_claim m r path task pid seen ≡ some a
      → IsNew a.pid seen
  unfolding counted_claim
  counted_claim-IsNew task none seen a h = pid_of _ a seen (some_injective h) tt
  counted_claim-IsNew task (some pid) seen a h =
      let (test, same) = let_through _ h in
      pid_of _ a seen same (not-true (contains pid seen) (and-parts _ _ test).0)

  counted_task-IsNew :
      (task : TaskRow) (seen : List ℕ) (a : Active)
      → counted_task m r path task seen ≡ some a
      → IsNew a.pid seen
  unfolding counted_task
  counted_task-IsNew task seen a h =
      elim (Bool-cases (task.status == "running" && assignee_matches r task.assignee)) [
        | inl counts ↦
            counted_claim-IsNew task task.worker_pid seen a (rw (counts, counted_task) at h)
        | inr skips ↦ let wrong : none ≡ some a = rw (skips, counted_task) at h in cc
      ]

  pub scan_board-Distinct :
      (tables : Tables) (seen : List ℕ)
      → Distinct seen (scan_board m r path tables seen).0
        × ((scan_board m r path tables seen).1
            ≡ seen_after seen (scan_board m r path tables seen).0)
  unfolding scan_board scan_claims
  scan_board-Distinct tables seen = (
    Distinct-append seen runs.0 claims.0
        (scan-Distinct by_run rows seen (λ run before a h.
          counted_pid-IsNew run (profile_or run.profile (task_assignee run.task_id tables.tasks))
            run.worker_pid before a h))
        (subst (λ s. Distinct s claims.0) runs_seen
          (scan-Distinct by_task tables.tasks runs.1 counted_task-IsNew)),
    scan-seen_after by_task tables.tasks runs.1
        ∙ ap (λ s. seen_after s claims.0) runs_seen
        ∙ sym (seen_after-append seen runs.0 claims.0),
  )
    where
      by_run : TaskRun → List ℕ → Option Active
      by_run = counted_run m r path tables.tasks

      by_task : TaskRow → List ℕ → Option Active
      by_task = counted_task m r path

      rows : List TaskRun
      rows = newest_first tables.task_runs

      runs : List Active × List ℕ
      runs = scan by_run rows seen

      claims : List Active × List ℕ
      claims = scan by_task tables.tasks runs.1

      runs_seen : runs.1 ≡ seen_after seen runs.0
      runs_seen = scan-seen_after by_run rows seen

module _ (m : Machine) (r : Pool) where
  scan_boards-Distinct :
      (read : String → Result Tables) (paths : List String) (seen : List ℕ)
      → Ensures (Distinct seen) (scan_boards m r read paths seen)
  unfolding scan_boards
  scan_boards-Distinct read [] seen = done-Ensures (Distinct seen) tt
  scan_boards-Distinct read (p ∷ ps) seen = elim (Result-cases (read p)) [
    | inr (text, e) ↦ rw (e, scan_boards) (raised-Ensures (Distinct seen))
    | inl (tables, e) ↦
        rw (e, scan_boards)
          (let (here, last) = scan_board-Distinct m r p tables seen in
            bind-Ensures (Distinct (scan_board m r p tables seen).1) (Distinct seen)
              (scan_boards-Distinct read ps (scan_board m r p tables seen).1)
              (λ rest ds. done-Ensures (Distinct seen) (
                Distinct-append seen (scan_board m r p tables seen).0 rest here
                  (subst (λ s. Distinct s rest) last ds))))
  ]

  -- No process is counted twice, on one board or on two.
  pub active_resource_workers-Distinct :
      (boards : Boards) (found : List Active)
      → active_resource_workers boards m r ≡ done found
      → Distinct [] found
  unfolding active_resource_workers
  active_resource_workers-Distinct boards found h =
      let (paths, _, rest) = bind-done h in
      (scan_boards-Distinct boards.read paths []).of_value found rest
