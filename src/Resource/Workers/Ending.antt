-- ===== src/Resource/Workers/Ending.antt =====
-- The loops of `_terminate_verified_worker` end, since the clock runs on while the code sleeps.
use hermes_n8n_control_plane.Prelude.{
  ℕ, zero, suc, ◌+◌, ◌*◌, ◌≤◌, ◌<◌, String, ◌≡◌, refl, sym, subst, Bool, true, false, Option, none,
  some, ◌∷◌, ltb, ltb→lt, arith, Bool-cases, inl, inr, Result,
}
use hermes_n8n_control_plane.Resource.{Attempt, done, raised}
use hermes_n8n_control_plane.Resource.Config.{Duration, nan, below_zero, nanos, one_second}
use hermes_n8n_control_plane.Resource.Config.Reading.{IsShort}
use hermes_n8n_control_plane.Resource.Workers.{
  Event, History, World, slept, probed, timed, pid_alive, await_exit, at_least_zero, tenth,
  twentieth, killed, after_kill, kill_if_alive, awaited, after_term, terminate_verified_worker, Ran,
  sigterm, sigkill, send, check_gone, TaskRun, reaping, reap_result, quiesce_ended, quiesce_pid,
  quiesce_live, quiesce_read, idle, quiesce_run, quiesce_superseded_worker, Tables, latest_task_run,
  worker_identity, identified,
}

-- `time.monotonic` never goes back, and `time.sleep(n)` takes at least n.
pub record Ticks (w : World) : Type 0 where
  pub forward : (e : Event) (h : History) → (w h).now ≤ (w (e ∷ h)).now
  pub sleeps : (n : ℕ) (h : History) → (w h).now + n ≤ (w (slept n ∷ h)).now

-- The run ends with a result.
abbrev pub Ends {ℓ} : {A : Type ℓ} → Option A → Type ℓ
Ends {A = A} o = (a : A) × (o ≡ some a)

module _ (w : World) (ticks : Ticks w) (target : ℕ) where
  round_on :
      (h : History) (pause : ℕ)
      → (w h).now + pause ≤ (w (slept pause ∷ timed ∷ probed target ∷ h)).now
  round_on h pause = omega (
    arith,
    ticks.forward (probed target) h,
    ticks.forward timed (probed target ∷ h),
    ticks.sleeps pause (timed ∷ probed target ∷ h),
  )

  await_step :
      (fuel deadline pause : ℕ) (h : History)
      → ((w (probed target ∷ h)).now < deadline
          → Ends
              (await_exit fuel w target deadline pause (slept pause ∷ timed ∷ probed target ∷ h)))
      → Ends (await_exit (suc fuel) w target deadline pause h)
  unfolding await_exit
  await_step fuel deadline pause h next = elim (Bool-cases (pid_alive (w h) target)) [
    | inl alive ↦ elim (Bool-cases (ltb (w (probed target ∷ h)).now deadline)) [
      | inl early ↦ rw (alive, await_exit) (rw early (next (ltb→lt _ _ early)))
      | inr late ↦ rw (alive, await_exit) (rw late (timed ∷ probed target ∷ h, refl))
    ]
    | inr gone ↦ rw (gone, await_exit) (probed target ∷ h, refl)
  ]

  -- A round for each pause that fits before the deadline, and one more.
  await_exit-Ends :
      (rounds deadline pause : ℕ) (h : History)
      → deadline ≤ (w h).now + rounds * pause
      → Ends (await_exit (suc rounds) w target deadline pause h)
  await_exit-Ends zero deadline pause h bound =
      await_step zero deadline pause h
        (λ early. absurd (omega (arith, ticks.forward (probed target) h)))
  await_exit-Ends (suc rounds) deadline pause h bound =
      await_step (suc rounds) deadline pause h (λ early.
        await_exit-Ends rounds deadline pause (slept pause ∷ timed ∷ probed target ∷ h)
          (omega (arith, round_on h pause)))

  after_kill-Ends :
      (sending : Attempt (Unit {0}) × History) → Ends (after_kill 602 w target sending)
  unfolding after_kill
  after_kill-Ends (raised f, h) = ((raised f, h), refl)
  after_kill-Ends (done _, h) =
      let (h1, e) =
        await_exit-Ends 601 ((w h).now + one_second) twentieth (timed ∷ h)
          (omega (arith, ticks.forward timed h)) in
      subst (λ o. Ends (killed 602 w target o)) (sym e) (check_gone w target h1, refl)

  kill_if_alive-Ends : (h : History) → Ends (kill_if_alive 602 w target h)
  unfolding kill_if_alive
  kill_if_alive-Ends h = elim (Bool-cases (pid_alive (w h) target)) [
    | inl alive ↦
        rw (alive, kill_if_alive) (after_kill-Ends (send w target sigkill (probed target ∷ h)))
    | inr gone ↦ rw (gone, kill_if_alive) (check_gone w target (probed target ∷ h), refl)
  ]

  short : (grace : Duration) → IsShort grace → at_least_zero grace ≤ 60 * one_second
  unfolding IsShort
  short nan s = omega arith
  short below_zero s = omega arith
  short (nanos n) s = s

  after_term-Ends :
      (grace : Duration) (sending : Attempt (Unit {0}) × History)
      → IsShort grace
      → Ends (after_term 602 w target grace sending)
  unfolding after_term
  after_term-Ends grace (raised f, h) s = ((raised f, h), refl)
  after_term-Ends grace (done _, h) s =
      let (h1, e) =
        await_exit-Ends 601 ((w h).now + at_least_zero grace) tenth (timed ∷ h)
          (omega (arith, ticks.forward timed h, short grace s)) in
      subst (λ o. Ends (awaited 602 w target o)) (sym e) (kill_if_alive-Ends h1)

  -- Ending a worker takes at most 601 rounds in each of its two loops, when the clock runs on, the
  -- sleeps take their time and the grace period is at most a minute.
  pub terminate_verified_worker-Ends :
      (grace : Duration) (h : History)
      → IsShort grace
      → Ends (terminate_verified_worker 602 w target grace h)
  unfolding terminate_verified_worker
  terminate_verified_worker-Ends grace h s = after_term-Ends grace (send w target sigterm h) s

reaping-Ends : (run : TaskRun) (pid : ℕ) (o : Ran Bool) → Ends o → Ends (reaping run pid o)
reaping-Ends run pid none e = let no : none ≡ some e.0 = e.1 in cc
reaping-Ends run pid (some (result, h)) e = ((reap_result run pid result, h), refl)

quiesce_ended-Ends :
    (w : World) (run : TaskRun) (pid : ℕ) (grace : Duration) (id : Option Bool) (h : History)
    → Ticks w
    → IsShort grace
    → Ends (quiesce_ended 602 w run pid grace id h)
unfolding quiesce_ended
quiesce_ended-Ends w run pid grace (some false) h t s = (_, refl)
quiesce_ended-Ends w run pid grace none h t s = (_, refl)
quiesce_ended-Ends w run pid grace (some true) h t s =
    reaping-Ends run pid (terminate_verified_worker 602 w pid grace h)
      (terminate_verified_worker-Ends w t pid grace h s)

quiesce_live-Ends :
    (w : World) (run : TaskRun) (pid : ℕ) (task_id : String) (grace : Duration) (ended : Option ℕ)
    (h : History)
    → Ticks w
    → IsShort grace
    → Ends (quiesce_live 602 w run pid task_id grace ended h)
unfolding quiesce_live
quiesce_live-Ends w run pid task_id grace none h t s = (_, refl)
quiesce_live-Ends w run pid task_id grace (some _) h t s =
    quiesce_ended-Ends w run pid grace (worker_identity (w h) pid task_id) (identified pid ∷ h) t s

quiesce_pid-Ends :
    (w : World) (run : TaskRun) (task_id : String) (grace : Duration) (worker : Option ℕ)
    (h : History)
    → Ticks w
    → IsShort grace
    → Ends (quiesce_pid 602 w run task_id grace worker h)
unfolding quiesce_pid
quiesce_pid-Ends w run task_id grace none h t s = (_, refl)
quiesce_pid-Ends w run task_id grace (some pid) h t s = elim (Bool-cases (pid_alive (w h) pid)) [
  | inr gone ↦ rw (gone, quiesce_pid) ((done idle, probed pid ∷ h), refl)
  | inl alive ↦
      rw (alive, quiesce_pid)
        (quiesce_live-Ends w run pid task_id grace run.ended_at (probed pid ∷ h) t s)
]

-- The same fuel serves the whole step that clears a task's earlier worker.
pub quiesce_superseded_worker-Ends :
    (w : World) (conn : Result Tables) (task_id : String) (grace : Duration) (h : History)
    → Ticks w
    → IsShort grace
    → Ends (quiesce_superseded_worker 602 w conn task_id grace h)
unfolding quiesce_superseded_worker quiesce_read quiesce_run
quiesce_superseded_worker-Ends w conn task_id grace h t s = read (latest_task_run conn task_id)
  where
    read : (found : Attempt (Option TaskRun)) → Ends (quiesce_read 602 w found task_id grace h)
    read (raised f) = (_, refl)
    read (done none) = (_, refl)
    read (done (some run)) = quiesce_pid-Ends w run task_id grace run.worker_pid h t s
