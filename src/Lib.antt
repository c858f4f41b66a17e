-- ===== src/Lib.antt =====
-- Hermes / GitHub event control plane: the two HTTP services of automation/n8n that stand between
-- GitHub, n8n and the Hermes intake actuator, and the guards of edge that decide which kanban task may
-- run on which resource.
--
-- The GitHub router (automation/n8n/github-router/router.py) takes signed webhook deliveries, drops
-- replays and events of foreign repositories, and either hands a pull request on to n8n or queues an
-- intake scope in its state file and wakes the lease controller. The intake worker claims scopes from
-- the queue and acknowledges or requeues them. The lease controller
-- (automation/n8n/lease-controller/controller.py) keeps one lease in its file, calls the actuator in a
-- thread, and lets n8n pause the lease. On the host, the resource admission
-- (edge/kanban_resource_admission.py) stands before the dispatcher of reworked tasks, the dynamic core
-- (edge/kanban_dynamic_resource_core.py) before every claim of the Hermes core; both end a task's earlier
-- worker, count the occupied slots of all boards under a lock, and refuse what does not fit. The retry
-- signal guard (edge/kanban_retry_signal_guard.py) reads the comments that start a rework again, and the
-- links and events of the board that vouch for the delivery of a round.
--
-- Prelude, Prelude/*: Boolean tests, lists and texts over native numbers, `Result` for code that
--   raises, `Option` chains for code that returns None. Python's `str.strip` is written out;
--   `str.casefold` is written out for ASCII and a table (`fold_table`) beyond it.
-- Json, Json/Laws: JSON values as `json.loads` returns them; a dict is a list of its keys in order.
--
-- Lease/Defs: the lease file and the changes under `_REQUEST_LOCK` (`_load_state`, `_write_state`,
--   `_trigger_intake_in_background`, `_resume_pending_trigger_on_startup`, `_canonical_lease_id`).
-- Lease/Actuator: `_call_actuator` and its retries (`_call_actuator_serialized`), the actuator's
--   answers as a function of the attempt.
-- Lease/Handlers: `Handler._trigger`, `Handler._pause`, `do_POST`, `do_GET`, `do_OPTIONS`.
-- Lease/System: the file and the running threads under sequences of requests, thread ends and
--   restarts. Lease/Phase, Moves and Steps: the phases of a lease and the moves that every step
--   makes. Lease/Pausing, Serving: what follows for a paused lease, a restart, and the token.
--
-- Router/Patterns: the environment (`Settings`) and the regular expressions.
-- Router/Scope: `_normalise_scope_item`, with the dict that it builds; Scope/Sorting, RoundTrip, Sound.
-- Router/State: the state file's keys, `_prune_pending_scopes`, `_append_pending_scope`.
-- Router/Recovery: `_recover_queued_scopes_unlocked`, `_recover_scope_claims_unlocked`.
-- Router/Operations: `_claim_scope`, `_ack_scope`, `_requeue_scope`, `_queue_status`.
-- Router/Enqueue: `_enqueue_scope`.
-- Router/Known, Router/Kept/*: which scopes the lists hold, and what the recovery and the operations
--   keep of them.
-- Router/Deliveries: `_prune_deliveries`, `_cap_deliveries` (Capping), `_claim_delivery`,
--   `_release_delivery`; Deliveries/ReadBack, Surviving, Dedupe.
-- Router/Installation: `_parse_installation_id`, `_owner_scope_matches` and the other tests on the
--   App installation. Router/Events: `_event_repositories`, `_normalise_pull_request_event`.
-- Router/Server: secrets, signatures and `_wake`; Server/Webhook: `_github_event`; Server/Control:
--   `do_GET`, `do_POST`; Server/Admission: `_managed_repository`; Server/Admitted, Guarded.
--
-- Resource: `Fault` and `Attempt`, for code that raises. Resource/Glob: `fnmatch.fnmatchcase` of
--   the standard library. Resource/Config: `_resource_policies`, `resource_for_assignee`; Config/Reading,
--   Sole. Resource/Workers: `_pid_alive`, `_worker_identity`, `_terminate_verified_worker`,
--   `_quiesce_superseded_worker`; Workers/Ending, Newest, Sparing. Resource/Scan: `_board_db_paths`,
--   `_active_resource_workers`; Scan/Counting, Covering, Reserved, Occupied. Resource/Outcomes: the trail of
--   outcomes. Resource/Dispatch: `guarded_dispatch`, its body (Body) and its entries (Entries);
--   Dispatch/Admitting, Ending.
-- Dynamic/Backends: `resolve_profile_backend` and the tests on providers and hosts. Dynamic/Policies:
--   `dynamic_policies`; Policies/Static. Dynamic/Claims: `_all_board_db_paths`, `_row_assignee`, the wrapper of
--   `claim_task` and `claim_review_task`; Claims/Admitted, Ended. Dynamic/Rework:
--   `_valid_rework_requeue_after_completed`, `guarded_check_respawn_guard`; Rework/Newest,
--   Canonical, Texts, Waived.
-- Signals: `find_rework_retry_signal`, `find_pr_supersede_signal` (Asked, Found, Lines). Signals/Completion:
--   `verify_completion`. Signals/Ancestors: `_direct_parent_rows` (Rows), `_ancestor_rows` (Ending, Rounds,
--   Reaching). Signals/Provenance: `_has_round_bootstrap` (Payloads, Claimed).
--
-- A well-formed scope has a clean id, consistent times, an attempt left, a creation time that is not
-- in the future, and clean repositories, sorted and without repetition. `_enqueue_scope` writes several
-- repositories in the order of the event; the first recovery sorts them.
--
-- A handler is a function from a request, the state file and what lies outside (`Outside`: the
-- clock, new UUIDs, the HMAC, `json.loads`, the secret files, the exchanges with other services) to
-- the file that it leaves, its answer and what it sent on. The state file is what loading it gives, a
-- state or the error that is raised. `between` is what other threads did to the file before a
-- handler takes the lock again, so the webhook handler is a sequence of transactions with anything in
-- between. Loops run over lists and need no fuel; there are no machine integers.
--
-- The system is a `Machine` (clock, process table, answers to signals) that depends on the history of
-- events, so that it may change between any two reads; the scan of the boards reads it at one moment.
-- Times are nanoseconds, a process number below one is 0, rows of SQLite are records, and an error of
-- SQLite is its text. The two loops that wait for a worker run on fuel: 602 rounds are enough for a grace
-- period of a minute with pauses of a tenth of a second, and for a second with pauses of a twentieth,
-- given that the clock does not go back and a sleep takes its time (`Ticks`). The search for the cards
-- above a card has a round for each card of the table and one more. The locks of the host,
-- the original dispatcher and the claim of the core, `int` and `float` of texts, `urlparse`,
-- `ipaddress` and `datetime.fromisoformat` are values that the definitions take.
--
-- Left out: sockets and response headers, the log lines, failing writes of the files, the message
-- texts that hold a number or a name, `int` of more than 4300 digits in a Content-Length, and the
-- further keys that the answer to an existing scope has; keys of the configuration that are no texts,
-- base URLs that `urlparse` rejects; a state file of the router of more than 8 MiB, and one that
-- has Infinity for the time of a delivery. The reconciliation of webhooks with the GitHub API is a
-- parameter. Of the dynamic core, the classification of pending rows, the diagnostics of a dispatch and
-- its dry run are left out, of the retry signal guard the choice of the runs
-- that back a delivery. The sync and the
-- intake of the board (edge/kanban-github-sync.py, automation/hermes), the other scripts of automation/n8n
-- and the plugins under hermes-plugin are not modelled: most of their code is SQLite, git and gh calls.
mod Prelude
mod Json
pub mod Lease
pub mod Resource
pub mod Dynamic
pub mod Signals
pub mod Router
