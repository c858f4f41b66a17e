-- ===== src/Resource/Workers/Sparing.antt =====
-- Which processes `_quiesce_superseded_worker` signals: none but the verified worker of the newest
-- run of the task, and only when that run has ended.
use hermes_n8n_control_plane.Prelude.{
  ℕ, zero, suc, String, ◌≡◌, ◌≢◌, refl, sym, ◌∙◌, subst, Bool, true, false, Option, none, some, ◌∷◌,
  ◌==◌, number_comparable, Bool-cases, inl, inr, Result, ok, err, ltb, ◌+◌,
}
use hermes_n8n_control_plane.Resource.{Attempt, done, raised}
use hermes_n8n_control_plane.Resource.Config.{Duration, one_second}
use hermes_n8n_control_plane.Resource.Workers.{
  Answer, answer, no_process, not_permitted, os_failed, Event, History, World, slept, probed, timed,
  identified, sent, Signal, pid_alive, await_exit, at_least_zero, tenth, twentieth, killed,
  after_kill, kill_if_alive, awaited, after_term, terminate_verified_worker, Ran, sigterm, sigkill,
  send, send_to, sent_or, TaskRun, reaping, quiesce_ended, quiesce_live, quiesce_pid, quiesce_run,
  quiesce_read, quiesce_superseded_worker, Tables, latest_task_run, newest_run, worker_identity,
}
use hermes_n8n_control_plane.Resource.Workers.Newest.{Given, newest_run-NewestRun}

-- What a later history adds to an earlier one satisfies P.
pub data Since (P : Event → Type 0) (h : History) : History → Type 0 where
  unchanged : Since P h h
  added : {e : Event} {h' : History} → P e → Since P h h' → Since P h (e ∷ h')

abbrev Touches : ℕ → Event → Type 0
Touches target (sent sig pid whole) = pid ≡ target
Touches target _ = Unit

abbrev Quiet : Event → Type 0
Quiet (sent sig pid whole) = ⊥
Quiet _ = Unit

-- What the history adds that a call ends with, when it ends.
abbrev SinceSome : (Event → Type 0) → History → Option History → Type 0
SinceSome P h none = Unit
SinceSome P h (some h') = Since P h h'

abbrev pub SinceRan {ℓ} : {A : Type ℓ} → (Event → Type 0) → History → Ran A → Type 0
SinceRan P h none = Unit
SinceRan P h (some (_, h')) = Since P h h'

module _ (w : World) (target : ℕ) (h0 : History) where
  Started : History → Type 0
  Started h = Since (Touches target) h0 h

  send-Started : (sig : Signal) (h : History) → Started h → Started (send w target sig h).1
  unfolding send Started
  send-Started sig h s = by_group ((w h).group target)
    where
      by_answer :
          (a : Answer (Unit {0})) (whole : Bool)
          → Since (Touches target) h0 (sent_or a (sent sig target whole) h).1
      by_answer (answer _) whole = added refl s
      by_answer no_process whole = s
      by_answer not_permitted whole = s
      by_answer os_failed whole = s

      by_group : (g : Answer ℕ) → Since (Touches target) h0 (send_to w target sig g h).1
      by_group (answer pgid) = by_answer ((w h).deliver target (pgid == target)) (pgid == target)
      by_group no_process = s
      by_group not_permitted = s
      by_group os_failed = s

  await_exit-Started :
      (fuel deadline pause : ℕ) (h : History)
      → Started h
      → SinceSome (Touches target) h0 (await_exit fuel w target deadline pause h)
  unfolding await_exit Started
  await_exit-Started zero deadline pause h s = tt
  await_exit-Started (suc fuel) deadline pause h s = elim (Bool-cases (pid_alive (w h) target)) [
    | inl alive ↦ elim (Bool-cases (ltb (w (probed target ∷ h)).now deadline)) [
      | inl early ↦
          rw (alive, await_exit)
            (rw early (
              await_exit-Started fuel deadline pause (slept pause ∷ timed ∷ probed target ∷ h)
                (added tt (added tt (added tt s)))))
      | inr late ↦ rw (alive, await_exit) (rw late (added tt (added tt s)))
    ]
    | inr gone ↦ rw (gone, await_exit) (added tt s)
  ]

  killed-Started :
      (fuel : ℕ) (o : Option History)
      → SinceSome (Touches target) h0 o
      → SinceRan (Touches target) h0 (killed fuel w target o)
  killed-Started fuel none s = tt
  killed-Started fuel (some h) s = added tt s

  after_kill-Started :
      (fuel : ℕ) (sending : Attempt (Unit {0}) × History)
      → Started sending.1
      → SinceRan (Touches target) h0 (after_kill fuel w target sending)
  unfolding after_kill Started
  after_kill-Started fuel (raised f, h) s = s
  after_kill-Started fuel (done _, h) s =
      killed-Started fuel _
        (await_exit-Started fuel ((w h).now + one_second) twentieth (timed ∷ h) (added tt s))

  kill_if_alive-Started :
      (fuel : ℕ) (h : History)
      → Started h
      → SinceRan (Touches target) h0 (kill_if_alive fuel w target h)
  unfolding kill_if_alive Started
  kill_if_alive-Started fuel h s = elim (Bool-cases (pid_alive (w h) target)) [
    | inl alive ↦
        rw (alive, kill_if_alive)
          (after_kill-Started fuel (send w target sigkill (probed target ∷ h))
            (send-Started sigkill (probed target ∷ h) (added tt s)))
    | inr gone ↦ rw (gone, kill_if_alive) (added tt (added tt s))
  ]

  awaited-Started :
      (fuel : ℕ) (o : Option History)
      → SinceSome (Touches target) h0 o
      → SinceRan (Touches target) h0 (awaited fuel w target o)
  unfolding Started
  awaited-Started fuel none s = tt
  awaited-Started fuel (some h) s = kill_if_alive-Started fuel h s

  after_term-Started :
      (fuel : ℕ) (grace : Duration) (sending : Attempt (Unit {0}) × History)
      → Started sending.1
      → SinceRan (Touches target) h0 (after_term fuel w target grace sending)
  unfolding after_term Started
  after_term-Started fuel grace (raised f, h) s = s
  after_term-Started fuel grace (done _, h) s =
      awaited-Started fuel _
        (await_exit-Started fuel ((w h).now + at_least_zero grace) tenth (timed ∷ h) (added tt s))

  terminate-Started :
      (fuel : ℕ) (grace : Duration) (h : History)
      → Started h
      → SinceRan (Touches target) h0 (terminate_verified_worker fuel w target grace h)
  unfolding terminate_verified_worker
  terminate-Started fuel grace h s =
      after_term-Started fuel grace (send w target sigterm h) (send-Started sigterm h s)

Since-mono :
    (P Q : Event → Type 0) (h : History) {h' : History}
    → ((e : Event) → P e → Q e)
    → Since P h h'
    → Since Q h h'
Since-mono P Q h step unchanged = unchanged
Since-mono P Q h step (added {e} p s) = added (step e p) (Since-mono P Q h step s)

SinceRan-mono {ℓ} :
    {A : Type ℓ} (P Q : Event → Type 0) (h : History) (o : Ran A)
    → ((e : Event) → P e → Q e)
    → SinceRan P h o
    → SinceRan Q h o
SinceRan-mono P Q h none step s = tt
SinceRan-mono P Q h (some (_, h')) step s = Since-mono P Q h step s

-- The run's process may be signalled: the run has ended, and the command line of the process was
-- read and names the task and Hermes.
pub record MayEnd (w : World) (task_id : String) (run : TaskRun) (pid : ℕ) : Type 0 where
  pub is_worker : run.worker_pid ≡ some pid
  pub has_ended : run.ended_at ≢ none
  pub verified : (h : History) × (worker_identity (w h) pid task_id ≡ some true)

-- A signal, if the event is one, goes to the process of the run that was found, and may.
abbrev pub Justified : World → String → Option TaskRun → Event → Type 0
Justified w task_id found (sent sig pid whole) =
    (run : TaskRun) × (found ≡ some run) × MayEnd w task_id run pid
Justified w task_id found _ = Unit

module _ (w : World) (task_id : String) (run : TaskRun) (grace : Duration) (fuel : ℕ) where
  justify :
      (pid : ℕ)
      → MayEnd w task_id run pid
      → (e : Event) → Touches pid e
      → Justified w task_id (some run) e
  justify pid may (sent sig p whole) e = (run, refl, subst (MayEnd w task_id run) (sym e) may)
  justify pid may (probed p) e = tt
  justify pid may (identified p) e = tt
  justify pid may timed e = tt
  justify pid may (slept n) e = tt

  reaping-Since :
      (P : Event → Type 0) (h : History) (pid : ℕ) (o : Ran Bool)
      → SinceRan P h o
      → SinceRan P h (reaping run pid o)
  reaping-Since P h pid none s = s
  reaping-Since P h pid (some (_, h')) s = s

  abbrev Lawful : {A : Type 0} → History → Ran A → Type 0
  Lawful h o = SinceRan (Justified w task_id (some run)) h o

  ended-Justified :
      (pid : ℕ) (h : History) (read : Option Bool)
      → run.worker_pid ≡ some pid
      → run.ended_at ≢ none
      → worker_identity (w (probed pid ∷ h)) pid task_id ≡ read
      → Lawful h (quiesce_ended fuel w run pid grace read (identified pid ∷ probed pid ∷ h))
  unfolding quiesce_ended Started
  ended-Justified pid h (some false) worker ended e = added tt (added tt unchanged)
  ended-Justified pid h none worker ended e = added tt (added tt unchanged)
  ended-Justified pid h (some true) worker ended e =
      SinceRan-mono (Touches pid) (Justified w task_id (some run)) h _
        (justify pid
          (record { is_worker = worker; has_ended = ended; verified = (probed pid ∷ h, e) }))
        (reaping-Since (Touches pid) h pid _ (
          terminate-Started w pid h fuel grace (identified pid ∷ probed pid ∷ h)
            (added tt (added tt unchanged))))

  live-Justified :
      (pid : ℕ) (h : History) (ended : Option ℕ)
      → run.worker_pid ≡ some pid
      → run.ended_at ≡ ended
      → Lawful h (quiesce_live fuel w run pid task_id grace ended (probed pid ∷ h))
  unfolding quiesce_live
  live-Justified pid h none worker e = added tt unchanged
  live-Justified pid h (some t) worker e =
      ended-Justified pid h (worker_identity (w (probed pid ∷ h)) pid task_id) worker
        (λ no. let wrong : none ≡ some t = sym no ∙ e in cc) refl

  pid-Justified :
      (h : History) (worker : Option ℕ)
      → run.worker_pid ≡ worker
      → Lawful h (quiesce_pid fuel w run task_id grace worker h)
  unfolding quiesce_pid
  pid-Justified h none e = unchanged
  pid-Justified h (some pid) e = elim (Bool-cases (pid_alive (w h) pid)) [
    | inr gone ↦ rw (gone, quiesce_pid) (added tt unchanged)
    | inl alive ↦ rw (alive, quiesce_pid) (live-Justified pid h run.ended_at e refl)
  ]

-- Clearing a task's earlier worker sends no signal but to the process of the newest run of the
-- task that has one, and only when that run has ended and the command line of the process was read
-- and names both the task and Hermes. Where the database cannot be read, it sends none.
pub quiesce_superseded_worker-Justified :
    (fuel : ℕ) (w : World) (conn : Result Tables) (task_id : String) (grace : Duration)
    (h : History)
    → (newest : Option TaskRun) × Given conn task_id newest
      × SinceRan
          (Justified w task_id newest)
          h
          (quiesce_superseded_worker fuel w conn task_id grace h)
unfolding quiesce_superseded_worker quiesce_read quiesce_run latest_task_run
quiesce_superseded_worker-Justified fuel w (err text) task_id grace h = (none, refl, unchanged)
quiesce_superseded_worker-Justified fuel w (ok tables) task_id grace h = (
  newest_run task_id tables.task_runs,
  newest_run-NewestRun task_id tables.task_runs,
  by_run (newest_run task_id tables.task_runs),
)
  where
    by_run :
        (found : Option TaskRun)
        → SinceRan (Justified w task_id found) h (quiesce_run fuel w found task_id grace h)
    by_run none = unchanged
    by_run (some run) = pid-Justified w task_id run grace fuel h run.worker_pid refl
