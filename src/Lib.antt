-- ===== src/Lib.antt =====
-- A development on the core of the task harness: the worker's retrieval controller, the task ledger with
-- its weekly scheduler, the schema migrations, the execution pause, the egress policy, the run lock, the
-- daily budgets, the mail bus between agents, the store of predictions, the hash chain of a task's
-- trajectory and the admission of a run.
--
-- How the parts interact. The scheduler queues a week's tasks in the ledger and, at every start, puts
-- interrupted rows back; a run takes a task, calls a worker under the retrieval controller and records the
-- outcome in the ledger. The pause and the egress boundary must allow a worker before it is launched:
-- the admission asks both, by the very functions of Pause and Egress. The migrations bring the ledger's
-- file to its schema.
--
-- Prelude             tests, lists, texts (lists of code points, ASCII case and space), stable sorting
-- Retrieval           orchestrator/retrieval_progress.py. Policy: RetrievalPolicy, tool_stage. Extract:
--                     WORD_RE, URL_RE, _fingerprint. State: RetrievalState and the controller, its audit.
--                     Controller: before, _redirect, _advance, batches. After: _after_locked and the
--                     finalization. Budget, Stages, Progress, Run, Decisions, Setup: proofs, where Run
--                     has the step relation of the adapter
-- Ledger              orchestrator/ledger.py, ledger/schema.sql, orchestrator/spotcheck.py. Rows: the
--                     table tasks. Store: queue_task, start_task, finish_task, record_intervention,
--                     update_model_used, scheduler.accumulated_tokens. Verdicts: latest_human_note,
--                     is_ai_performed, cmd_verdict. Pending: pending_rows. Spend: an attempt of
--                     orchestrator/task_runner.py, as far as it writes the row, and its tokens. Keys,
--                     Writes: proofs
-- Scheduler           orchestrator/scheduler.py. Queue: queue_mission_tasks. Parked: expire_stale_parked.
--                     Recovery: reconcile_interrupted_tasks. Fairness, Reconciled: proofs
-- Migrations          orchestrator/migrations.py: migrate, rollback, migrate_all. Forward, Backward: proofs
-- Pause               orchestrator/execution_pause.py. World: files and markers. Checks: pause_engaged,
--                     clear_is_authorized. Actions: verify_pause_integrity, authorize_clear,
--                     authorize_canary, consume_canary_authorization. Closed, Authorized, Canary: proofs
-- Egress              orchestrator/egress_policy.py. Document: the YAML's values. Load: load_policy.
--                     Boundary: boundary_state and the snapshot. Worker: worker_environment,
--                     authorize_destination. Safe, Attested, Destinations: proofs
-- RunLock             orchestrator/runlock.py. Held: _read_lock, _is_stale, acquire and its release.
--                     Race: several processes, step by step. Reclaim: proofs
-- MailBus             orchestrator/mailbus.py. Message: validate_message, compose. Commands: the
--                     patterns of _contains_execution_command. Files: the mailboxes. Retry: the retry
--                     ladder. Router: route_cycle. Agent: send, read_inbox. Deferred: defer_input,
--                     drain_deferred. Paths, Valid, Routed, Delivery, Caps, Cycles, Settled, Guarded,
--                     Sending, Drained: proofs, where Routed has the ways in which the routing of one
--                     file ends and Guarded the step relation of agents and router
-- Predictions         prediction_machine/core/prediction_store.py. Rows, Store: the table predictions,
--                     create_prediction, record_outcome, invalidate_prediction. Queries: the selections.
--                     Versions: model versions. Experiments: experiments. Lookup, Kept, Refined, Ordered,
--                     Active, Interleaved, Selected: proofs, where Kept has the step relation of the
--                     store's users and Refined the register of write-once entries that it implements
-- Trajectory          orchestrator/trajectory.py. Chain: the file and verify_chain. Writer: _resume_state
--                     and emit. Extended, Broken: proofs
-- Admission           orchestrator/runtime_admission.py, orchestrator/dependency_integrity.py.
--                     Dependencies: requirements_lock_state, bootstrap_hash_enforcement_state. Checks:
--                     get_harness_profile, check_admission, enforce_runtime_admission. Admitted,
--                     Scanned, Locked: proofs
-- Budget              orchestrator/policy.py. Limits: the day's tokens, estimates, admission and the
--                     manager's calls. Estimates: proofs
--
-- Every loop is structural recursion over a list, or over a number of rounds: the `while` of
-- `_advance` has three, which are enough as the stages end at 3, and decimal numbers have the number
-- itself as bound. Numbers are natural numbers of any size, as in Python; a time is a number of
-- seconds in the ledger and of microseconds in Pause and Egress. A module Examples under a part has
-- its runs on concrete data.
--
-- Parameters stand for what is not of the repository: SHA-256, URL parsing, IDNA, YAML's scalars,
-- the resolver and the address parser, SQLite's execution of a script, the operating system's
-- inspection of a process and its outcomes for the files of a mailbox, and the matches of the
-- patterns that read a requirement and its hashes. The signing and verification of markers,
-- orchestrator/operator_auth.py, are a parameter too, of which nothing is assumed: they rest on a
-- cryptographic library.
-- Not modelled: the wording of messages and prompts, logging, command lines, subprocesses and
-- network traffic, the prediction machine's statistics, the replication of the audit trail, whose
-- answer is an argument of the admission.
pub mod Prelude
pub mod Retrieval
pub mod Ledger
pub mod Scheduler
pub mod Migrations
pub mod Pause
pub mod Egress
pub mod RunLock
pub mod Budget
pub mod MailBus
pub mod Predictions
pub mod Trajectory
pub mod Admission
