-- ===== src/Resource/Workers.antt =====
-- Worker processes as the operating system shows them: `_pid_alive`, `_worker_identity`,
-- `_terminate_verified_worker`, and `_quiesce_superseded_worker` on the rows of `task_runs`.
-- A process number below one is 0 here.
pub mod Ending
pub mod Newest
pub mod Sparing
use hermes_n8n_control_plane.Prelude.{
  ℕ, zero, suc, ◌+◌, String, Bool, true, false, not, ◌&&◌, ◌||◌, Option, none, some, List, [], ◌∷◌,
  ◌==◌, number_comparable, text_comparable, codes_comparable, if◌then◌else◌, any, ltb, codes,
  casefold, drop_prefix, contains, Result, ok, err,
}
use hermes_n8n_control_plane.Resource.{Attempt, done, raised, Fault, admission, os, ◌>>=◌, ◌>>◌}
use hermes_n8n_control_plane.Resource.Config.{Duration, nan, below_zero, nanos, one_second}

-- The answer of `os.kill` or `os.getpgid`.
pub data Answer {ℓ} (A : Type ℓ) : Type ℓ where
  answer : A → Answer A
  no_process : Answer A
  not_permitted : Answer A
  os_failed : Answer A

-- The answer of a read below `/proc`.
pub data Reading {ℓ} (A : Type ℓ) : Type ℓ where
  contents : A → Reading A
  missing : Reading A
  unreadable : Reading A

pub data Signal : Type 0 where
  sigterm : Signal
  sigkill : Signal

-- What the code does to the system, or reads from it.
pub data Event : Type 0 where
  probed : ℕ → Event
  identified : ℕ → Event
  timed : Event
  slept : ℕ → Event
  sent : Signal → ℕ → Bool → Event

abbrev pub History : Type 0
History = List Event

-- The system as it stands after a history: the clock in nanoseconds, and each process by its number.
-- `cmdline` has its NUL bytes replaced by blanks.
pub record Machine : Type 0 where
  pub linux : Bool
  pub now : ℕ
  pub probe : ℕ → Answer (Unit {0})
  pub status : ℕ → Reading (List String)
  pub cmdline : ℕ → Reading String
  pub group : ℕ → Answer ℕ
  pub deliver : ℕ → Bool → Answer (Unit {0})
  pub fold_table : ℕ → List ℕ

abbrev pub World : Type 0
World = History → Machine

-- `line.startswith("State:") and "Z" in line.split(":", 1)[1]`
unfoldable pub is_zombie_line : String → Bool
unfolding drop_prefix
is_zombie_line line = elim (drop_prefix "State:" line) [
  | some state ↦ contains b'Z' (codes state)
  | none ↦ false
]

abbrev pub status_alive : Reading (List String) → Bool
status_alive (contents lines) = not (any (λ l. is_zombie_line l) lines)
status_alive missing = false
status_alive unreadable = true

-- `_pid_alive`
unfoldable pub pid_alive : Machine → ℕ → Bool
unfolding is_zombie_line
pid_alive m zero = false
pid_alive m (suc n) = elim (m.probe (suc n)) [
  | answer _ ↦ if m.linux then status_alive (m.status (suc n)) else true
  | no_process ↦ false
  | not_permitted ↦ true
  | os_failed ↦ false
]

abbrev begins : List ℕ → List ℕ → Bool
begins [] cs = true
begins (p ∷ ps) [] = false
begins (p ∷ ps) (c ∷ cs) = p == c && begins ps cs

-- `piece in text` on code points.
unfoldable pub codes_within : List ℕ → List ℕ → Bool
codes_within piece [] = begins piece []
codes_within piece (c ∷ cs) = begins piece (c ∷ cs) || codes_within piece cs

-- `_worker_identity`; none where the command line cannot be read.
unfoldable pub worker_identity : Machine → ℕ → String → Option Bool
unfolding casefold codes_within
worker_identity m pid task_id = elim m.linux [
  | false ↦ none
  | true ↦ elim (m.cmdline pid) [
    | contents command ↦ some (
        codes_within (codes task_id) (codes command)
        && codes_within (codes "hermes") (casefold m.fold_table command))
    | missing ↦ some false
    | unreadable ↦ none
  ]
]

-- The outcome of a call on a history; none is a loop that has used its fuel.
abbrev pub Ran {ℓ} : Type ℓ → Type ℓ
Ran A = Option (Attempt A × History)

abbrev pub sent_or : Answer (Unit {0}) → Event → History → Attempt (Unit {0}) × History
sent_or (answer _) e h = (done tt, e ∷ h)
sent_or no_process e h = (done tt, h)
sent_or not_permitted e h = (raised (os "PermissionError"), h)
sent_or os_failed e h = (raised (os "OSError"), h)

-- The process group is signalled when its number is the process's own.
abbrev pub send_to : World → ℕ → Signal → Answer ℕ → History → Attempt (Unit {0}) × History
send_to w target sig (answer pgid) h =
    sent_or ((w h).deliver target (pgid == target)) (sent sig target (pgid == target)) h
send_to w target sig no_process h = (done tt, h)
send_to w target sig not_permitted h = (raised (os "PermissionError"), h)
send_to w target sig os_failed h = (raised (os "OSError"), h)

-- `send`
unfoldable pub send : World → ℕ → Signal → History → Attempt (Unit {0}) × History
send w target sig h = send_to w target sig ((w h).group target) h

-- `while _pid_alive(target) and time.monotonic() < deadline: time.sleep(pause)`
unfoldable pub await_exit : ℕ → World → ℕ → ℕ → ℕ → History → Option History
unfolding pid_alive
await_exit zero w target deadline pause h = none
await_exit (suc fuel) w target deadline pause h = elim (pid_alive (w h) target) [
  | false ↦ some (probed target ∷ h)
  | true ↦ elim (ltb (w (probed target ∷ h)).now deadline) [
    | false ↦ some (timed ∷ probed target ∷ h)
    | true ↦ await_exit fuel w target deadline pause (slept pause ∷ timed ∷ probed target ∷ h)
  ]
]

-- `max(0.0, grace_seconds)`
abbrev pub at_least_zero : Duration → ℕ
at_least_zero nan = 0
at_least_zero below_zero = 0
at_least_zero (nanos n) = n

abbrev pub tenth : ℕ
tenth = 100_000_000

abbrev pub twentieth : ℕ
twentieth = 50_000_000

-- The last probe of `_terminate_verified_worker`.
abbrev pub check_gone : World → ℕ → History → Attempt Bool × History
check_gone w target h = (done (not (pid_alive (w h) target)), probed target ∷ h)

abbrev pub killed : ℕ → World → ℕ → Option History → Ran Bool
killed fuel w target none = none
killed fuel w target (some h) = some (check_gone w target h)

-- A signal that was sent starts a wait; an error of the system ends the call.
unfoldable pub after_kill : ℕ → World → ℕ → Attempt (Unit {0}) × History → Ran Bool
unfolding await_exit
after_kill fuel w target (raised f, h) = some (raised f, h)
after_kill fuel w target (done _, h) =
    killed fuel w target (await_exit fuel w target ((w h).now + one_second) twentieth (timed ∷ h))

-- From the check after the first loop on.
unfoldable pub kill_if_alive : ℕ → World → ℕ → History → Ran Bool
unfolding send after_kill
kill_if_alive fuel w target h = elim (pid_alive (w h) target) [
  | false ↦ some (check_gone w target (probed target ∷ h))
  | true ↦ after_kill fuel w target (send w target sigkill (probed target ∷ h))
]

abbrev pub awaited : ℕ → World → ℕ → Option History → Ran Bool
awaited fuel w target none = none
awaited fuel w target (some h) = kill_if_alive fuel w target h

unfoldable pub after_term : ℕ → World → ℕ → Duration → Attempt (Unit {0}) × History → Ran Bool
unfolding await_exit kill_if_alive
after_term fuel w target grace (raised f, h) = some (raised f, h)
after_term fuel w target grace (done _, h) =
    awaited fuel w target
      (await_exit fuel w target ((w h).now + at_least_zero grace) tenth (timed ∷ h))

-- `_terminate_verified_worker`
unfoldable pub terminate_verified_worker : ℕ → World → ℕ → Duration → History → Ran Bool
unfolding after_term
terminate_verified_worker fuel w target grace h =
    after_term fuel w target grace (send w target sigterm h)

-- A row of `task_runs`, and of `tasks`.
pub record TaskRun : Type 0 where
  pub id : ℕ
  pub task_id : String
  pub profile : Option String
  pub outcome : Option String
  pub worker_pid : Option ℕ
  pub ended_at : Option ℕ

pub record TaskRow : Type 0 where
  pub id : String
  pub assignee : Option String
  pub status : String
  pub worker_pid : Option ℕ
  pub current_run_id : Option ℕ

pub record Tables : Type 0 where
  pub task_runs : List TaskRun
  pub tasks : List TaskRow

abbrev pub is_given {ℓ} : {A : Type ℓ} → Option A → Bool
is_given none = false
is_given (some a) = true

abbrev pub later_run : TaskRun → Option TaskRun → Option TaskRun
later_run r none = some r
later_run r (some q) = if ltb r.id q.id then some q else some r

-- `WHERE task_id = ? AND worker_pid IS NOT NULL ORDER BY id DESC LIMIT 1`
unfoldable pub newest_run : String → List TaskRun → Option TaskRun
newest_run task_id [] = none
newest_run task_id (r ∷ rs) =
    let rest = newest_run task_id rs in
    if r.task_id == task_id && is_given r.worker_pid then later_run r rest else rest

-- `_latest_task_run`; err is the text of an `sqlite3.Error`.
unfoldable pub latest_task_run : Result Tables → String → Attempt (Option TaskRun)
unfolding newest_run
latest_task_run (ok tables) task_id = done (newest_run task_id tables.task_runs)
latest_task_run (err text) task_id = raised (admission text)

-- The dict that `_quiesce_superseded_worker` returns, by its shapes.
pub data Quiesced : Type 0 where
  idle : Quiesced
  worker_active : ℕ → ℕ → Quiesced
  pid_reused : ℕ → ℕ → Quiesced
  unverified : ℕ → ℕ → Quiesced
  reap_failed : ℕ → ℕ → Quiesced
  reaped : ℕ → ℕ → Option String → Quiesced

-- What follows a worker that was told to end.
abbrev pub reap_result : TaskRun → ℕ → Attempt Bool → Attempt Quiesced
reap_result run pid (raised f) = raised f
reap_result run pid (done true) = done (reaped run.id pid run.outcome)
reap_result run pid (done false) = done (reap_failed run.id pid)

abbrev pub reaping : TaskRun → ℕ → Ran Bool → Ran Quiesced
reaping run pid none = none
reaping run pid (some (result, h)) = some (reap_result run pid result, h)

-- A live process of an earlier run.
unfoldable pub quiesce_ended :
    ℕ → World → TaskRun → ℕ → Duration → Option Bool → History → Ran Quiesced
unfolding terminate_verified_worker
quiesce_ended fuel w run pid grace (some false) h = some (done (pid_reused run.id pid), h)
quiesce_ended fuel w run pid grace none h = some (done (unverified run.id pid), h)
quiesce_ended fuel w run pid grace (some true) h =
    reaping run pid (terminate_verified_worker fuel w pid grace h)

-- A live worker: of a run that goes on, or of one that has ended.
unfoldable pub quiesce_live :
    ℕ → World → TaskRun → ℕ → String → Duration → Option ℕ → History → Ran Quiesced
unfolding worker_identity quiesce_ended
quiesce_live fuel w run pid task_id grace none h = some (done (worker_active run.id pid), h)
quiesce_live fuel w run pid task_id grace (some _) h =
    quiesce_ended fuel w run pid grace (worker_identity (w h) pid task_id) (identified pid ∷ h)

unfoldable pub quiesce_pid :
    ℕ → World → TaskRun → String → Duration → Option ℕ → History → Ran Quiesced
unfolding pid_alive quiesce_live
quiesce_pid fuel w run task_id grace none h = some (done idle, h)
quiesce_pid fuel w run task_id grace (some pid) h = elim (pid_alive (w h) pid) [
  | false ↦ some (done idle, probed pid ∷ h)
  | true ↦ quiesce_live fuel w run pid task_id grace run.ended_at (probed pid ∷ h)
]

unfoldable pub quiesce_run : ℕ → World → Option TaskRun → String → Duration → History → Ran Quiesced
unfolding quiesce_pid
quiesce_run fuel w none task_id grace h = some (done idle, h)
quiesce_run fuel w (some run) task_id grace h =
    quiesce_pid fuel w run task_id grace run.worker_pid h

unfoldable pub quiesce_read :
    ℕ → World → Attempt (Option TaskRun) → String → Duration → History → Ran Quiesced
unfolding quiesce_run
quiesce_read fuel w (raised f) task_id grace h = some (raised f, h)
quiesce_read fuel w (done run) task_id grace h = quiesce_run fuel w run task_id grace h

-- `_quiesce_superseded_worker`
unfoldable pub quiesce_superseded_worker :
    ℕ → World → Result Tables → String → Duration → History → Ran Quiesced
unfolding latest_task_run quiesce_read
quiesce_superseded_worker fuel w conn task_id grace h =
    quiesce_read fuel w (latest_task_run conn task_id) task_id grace h
