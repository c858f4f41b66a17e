-- ===== src/Resource/Scan/Occupied.antt =====
-- The scan of every board: nothing that holds a slot is missed.
use hermes_n8n_control_plane.Prelude.{
  ℕ, String, ◌≡◌, sym, ◌∙◌, subst, true, List, [], ◌∷◌, ◌++◌, number_comparable, contains, any,
  Result, ok, All, All-mono, Result-cases, inl, inr,
}
use hermes_n8n_control_plane.Resource.{
  done, Ensures, done-Ensures, raised-Ensures, bind-Ensures, bind-done, done_injective,
}
use hermes_n8n_control_plane.Resource.Config.{Pool}
use hermes_n8n_control_plane.Resource.Workers.{Machine, Tables}
use hermes_n8n_control_plane.Resource.Scan.{
  Active, Boards, scan_board, scan_boards, board_db_paths, active_resource_workers,
}
use hermes_n8n_control_plane.Resource.Scan.Counting.{
  seen_after, seen_after-append, scan_board-Distinct,
}
use hermes_n8n_control_plane.Resource.Scan.Covering.{IsBusy, seen_after-kept, scan_board-IsBusy}
use hermes_n8n_control_plane.Resource.Scan.Reserved.{
  IsReserved, claim_of, any-append_left, any-append_right, scan_board-IsReserved,
}

-- Everything on a board that holds a slot is among the entries: the process of each busy run, and
-- the claim of each reserved task. The processes in `seen` were counted before.
pub record Occupied (m : Machine) (r : Pool) (seen : List ℕ) (found : List Active) (tables : Tables)
    : Type 0 where
  pub busy_runs :
      All
        (λ run.
          (pid : ℕ) → IsBusy m r tables.tasks run pid → contains pid (seen_after seen found) ≡ true)
        tables.task_runs
  pub reservations : All (λ task. IsReserved r task → any (claim_of task) found ≡ true) tables.tasks

module _ (m : Machine) (r : Pool) (read : String → Result Tables) where
  abbrev pub Complete : List String → List ℕ → List Active → Type 0
  Complete paths seen found =
      All (λ p. (tables : Tables) × (read p ≡ ok tables) × Occupied m r seen found tables) paths

  here-Occupied :
      (p : String) (tables : Tables) (seen : List ℕ) (rest : List Active)
      → Occupied m r seen ((scan_board m r p tables seen).0 ++ rest) tables
  here-Occupied p tables seen rest = record {
    busy_runs =
        All-mono _ _ tables.task_runs
          (λ run covered pid busy.
            subst (λ s. contains pid s ≡ true) (sym (seen_after-append seen here rest))
              (seen_after-kept pid (seen_after seen here) rest (covered pid busy)))
          (scan_board-IsBusy m r p tables seen);
    reservations =
        All-mono _ _ tables.tasks
          (λ task claimed reserved. any-append_left (claim_of task) here rest (claimed reserved))
          (scan_board-IsReserved m r p tables seen);
  }
    where
      here : List Active
      here = (scan_board m r p tables seen).0

  later-Occupied :
      (here rest : List Active) (seen : List ℕ) (tables : Tables)
      → Occupied m r (seen_after seen here) rest tables
      → Occupied m r seen (here ++ rest) tables
  later-Occupied here rest seen tables h = record {
    busy_runs =
        All-mono _ _ tables.task_runs
          (λ run covered pid busy.
            subst (λ s. contains pid s ≡ true) (sym (seen_after-append seen here rest))
              (covered pid busy))
          h.busy_runs;
    reservations =
        All-mono _ _ tables.tasks
          (λ task claimed reserved. any-append_right (claim_of task) here rest (claimed reserved))
          h.reservations;
  }

  scan_boards-Complete :
      (paths : List String) (seen : List ℕ)
      → Ensures (Complete paths seen) (scan_boards m r read paths seen)
  unfolding scan_boards
  scan_boards-Complete [] seen = done-Ensures (Complete [] seen) tt
  scan_boards-Complete (p ∷ ps) seen = elim (Result-cases (read p)) [
    | inr (text, e) ↦ rw (e, scan_boards) (raised-Ensures (Complete (p ∷ ps) seen))
    | inl (tables, e) ↦
        rw (e, scan_boards)
          (bind-Ensures (Complete ps (scan_board m r p tables seen).1) (Complete (p ∷ ps) seen)
            (scan_boards-Complete ps (scan_board m r p tables seen).1)
            (λ rest h. done-Ensures (Complete (p ∷ ps) seen) (joined p ps tables seen rest e h)))
  ]
    where
      joined :
          (p : String) (ps : List String) (tables : Tables) (seen : List ℕ) (rest : List Active)
          → read p ≡ ok tables
          → Complete ps (scan_board m r p tables seen).1 rest
          → Complete (p ∷ ps) seen ((scan_board m r p tables seen).0 ++ rest)
      joined p ps tables seen rest e h = (
        (tables, e, here-Occupied p tables seen rest),
        All-mono _ _ ps
            (λ q known. (
              known.0,
              known.1,
              later-Occupied (scan_board m r p tables seen).0 rest seen known.0 (
                  subst (λ s. Occupied m r s rest known.0) (scan_board-Distinct m r p tables seen).1
                    known.2),
            ))
            h,
      )

-- When the scan gives a list, every board was read, each process of a matching run that is alive and
-- not refuted by its command line is in the list, and so is every running, matching task that has no
-- process yet.
pub active_resource_workers-Complete :
    (boards : Boards) (m : Machine) (r : Pool) (paths : List String) (found : List Active)
    → board_db_paths boards ≡ done paths
    → active_resource_workers boards m r ≡ done found
    → Complete m r boards.read paths [] found
unfolding active_resource_workers
active_resource_workers-Complete boards m r paths found e h =
    let (others, e', rest) = bind-done h in
    (scan_boards-Complete m r boards.read paths []).of_value found (
      subst (λ ps. scan_boards m r boards.read ps [] ≡ done found) (done_injective (sym e' ∙ e))
        rest)
