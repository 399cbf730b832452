-- ===== src/Lib.antt =====
-- BeachOps: a Telegram bot and Mini App in front of cloud coding agents (src/beachops). A request
-- becomes a durable job in Postgres, which a worker claims or executes; owners approve plans and
-- results; a user has named agent slots. This library models the parts that decide what may happen
-- to a job, and proves what they promise.
--
-- The parts, and where they are:
--   Base        lists, texts (code points), Boolean tests, and the laws of table reads and writes
--   Security    the vocabulary of src/beachops/domain/security.py and the modes of domain/models.py
--   Authz       roles and rights: src/beachops/services/authz.py
--   Redaction   redaction of stored metadata: src/beachops/services/redaction.py
--   Database    the tables of alembic/versions, as lists of rows in one record `Db`
--   Jobs        JobRepository, src/beachops/db/repositories/jobs.py, by Queries, Runtime and Queue;
--               Audit is the step relation of its writes
--   Approvals   src/beachops/db/repositories/approvals.py: the approvals of a job's gates. Steps has
--               the writes as a step relation, Verdicts what a decision needs and writes, Final what
--               the writes keep.
--   Tokens      src/beachops/db/repositories/callback_tokens.py: the tokens behind Telegram buttons.
--               Steps has the writes as a step relation, Once what a token allows.
--   JobQueue    src/beachops/services/job_queue.py: the in-process queue with one worker task for each
--               user. Steps has the interleavings, Lanes a step as one user sees it; Sound, Fifo and
--               Drain have the bounds, the order and the progress.
--   AgentSlots  src/beachops/db/repositories/agent_slots.py: the named agent slots of a user. Config has
--               the updates of single columns, Delete the deletion; Steps the writes as a relation,
--               Unique the primary key, One and History the active slot, Remove the contract of the deletion,
--               over Next and Kept, which have the active slot and the other slots after it.
--   RiskPolicy  src/beachops/services/risk_policy.py: what a prompt may ask for; Safe has what passes.
--   RepositoryPolicy  src/beachops/services/repository_policy.py: how policies are built (Build; Guard has
--               their protected branches) and where a job may write (Writes).
--   Dispatch    src/beachops/services/durable_dispatch.py: from a prompt to a durable job and ARQ; Outcomes
--               has what it leaves, Gate what is let through. It calls RiskPolicy, RepositoryPolicy and Jobs.
--   Decisions   src/beachops/services/approval_actions.py: what an owner's decision starts; Started
--               and Approve have the change job of a plan, Once a second approval. It calls RepositoryPolicy and Jobs.
--   Labels      src/beachops/services/agent_slot_naming.py: the labels of slots; Bounds has their length.
--   Sse         src/beachops/services/cursor_sse.py: the event stream, from bytes to events. Utf8 decodes,
--               Splits and Blank have the laws of blank lines, Chunks the cut into chunks; Git
--               reads the branch and the pull request of a run.
--   RepoParse   src/beachops/services/repo_parse.py: the arguments of /repo add
--   Repos       src/beachops/db/repositories/repos.py: the repositories of a user. Rows and One have
--               the active one under each write, History the sequences of writes.
--   SlotService src/beachops/services/agent_slots.py: the slots of a user, with their repositories. It
--               calls AgentSlots, Repos and Labels. Parts and Limit have what each call writes, Guards
--               and Counts what such writes keep, Calls the sequences of calls.
--   Runs        src/beachops/services/run_finalizer.py: what a run leaves behind, Plan a plan
--               that is ready. Chain has its writes as
--               those of Jobs, Once the second call, Verdict and Failed where a job ends; Reconciler is
--               src/beachops/services/run_reconciler.py, Settles where it leads a job; Worker
--               is `execute_job` of src/beachops/worker.py, Cancelled its first gate. They call Jobs,
--               Approvals, Tokens, Decisions and SlotService.
--   Cancellation  src/beachops/services/cancel_service.py: /cancel, over JobQueue, Jobs and AgentSlots;
--               Calls has the run that is stopped, Latest the job that runs, Emptied the queue, Stops the
--               whole.
--
-- How code and model correspond. A function or method has the name of its source in snake case, and
-- a class method takes its state first. A repository's SQL statement is a function on the lists of
-- rows; a transaction is one function, and returns the new tables beside the result. `now()`, fresh
-- identifiers and random tokens are arguments. An exception is `raise` with the tables that are left.
-- Rows with equal sort keys keep the order of insertion, which SQL leaves open. Numbers are native
-- natural numbers: identifiers and time stamps are never negative here, and a negative limit is 0.
-- There is no fuel: every loop is a recursion on a list.
--
-- Not modelled: the network, Telegram, Redis and Cursor clients, the web application's routes,
-- rendering of texts, configuration, and the substitution of secrets by regular expressions, which
-- is an argument wherever it is used; the canonical form of a repository's URL in the policies and
-- `json.loads`, arguments too; the texts of messages, the memory index and artifacts at the end of a
-- run; the launch and the observation of a run, which are arguments of the worker, and the tables of
-- users and settings, but for a user's role.
pub mod Base
pub mod Security
pub mod Authz
pub mod Redaction
pub mod Database
pub mod Jobs
pub mod Approvals
pub mod Tokens
pub mod JobQueue
pub mod AgentSlots
pub mod Labels
pub mod Sse
pub mod RepoParse
pub mod Repos
pub mod SlotService
pub mod RiskPolicy
pub mod RepositoryPolicy
pub mod Dispatch
pub mod Decisions
pub mod Runs
pub mod Cancellation
mod Tests
