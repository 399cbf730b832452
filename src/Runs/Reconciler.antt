-- ===== src/Runs/Reconciler.antt =====
-- The poll of the runs that are left over: src/beachops/services/run_reconciler.py. The Cursor API is
-- an argument; `draws` has, for each job, the clock and what the calls for it draw.
pub mod Settles
use beachops.Base.{
  ℕ, ◌==◌, Bool, true, false, not, ◌&&◌, ◌||◌, Option, none, some, is_some, List, [], ◌∷◌, Text,
  text, text_eq, text_in, is_empty, contains, lower, if◌then◌else◌,
}
use beachops.Security.{UserMode, ask, Job, JobStatus, running, planning}
use beachops.Database.{Result, ok, raise, assertion_error, status_in}
use beachops.Jobs.Queries.{list_by_status_internal}
use beachops.Jobs.Runtime.{RunResult, mark_finalized}
use beachops.Decisions.{Crypto}
use beachops.AgentSlots.{SlotDb}
use beachops.Repos.{Settings}
use beachops.SlotService.{get_run_context}
use beachops.Runs.{
  App, Tools, RunOutcome, StreamState, with_db, still_runs, active_statuses, finalize,
}

-- What is read of the dictionary that `get_run_snapshot` returns.
pub record RunInfo : Type 0 where
  pub status : Text
  pub pr_url : Text
  pub gone : Bool

abbrev pub gone_run : RunInfo
gone_run = record { status = text "error"; pr_url = []; gone = true }

pub record CursorCloudError : Type 0 where
  pub message : Text
  pub status_code : Option ℕ
  pub code : Option Text

-- What becomes of a call of `get_run_snapshot`.
pub data Snapshot : Type 0 where
  snapshot : RunInfo → Snapshot
  cloud_error : CursorCloudError → Snapshot
  other_error : Snapshot

pub record UsageBreakdown : Type 0 where
  pub input_tokens : ℕ
  pub output_tokens : ℕ
  pub cache_read_tokens : ℕ
  pub cache_write_tokens : ℕ
  pub total_tokens : ℕ

-- The calls of the Cursor API: the key of the token, the agent and the run.
pub record Api : Type 0 where
  pub get_run_snapshot : Option Text → Text → Text → Snapshot
  pub fetch_run_usage : Option Text → Text → Text → Result (Option UsageBreakdown)

unfoldable pub is_agent_gone_error : CursorCloudError → Bool
unfolding text_in contains lower
is_agent_gone_error e =
    let code = lower (elim e.code [ none ↦ [] | some c ↦ c ]) in
    let message = lower e.message in
    text_in code (text "agent_not_found" ∷ text "not_found" ∷ text "run_not_found" ∷ [])
    || contains message (text "agent not found")
    || contains message (text "run not found")
    || ((elim e.status_code [ none ↦ false | some n ↦ n == 404 ])
        && contains message (text "not found"))

unfoldable pub fetch_run : Snapshot → Option RunInfo
unfolding is_agent_gone_error
fetch_run (snapshot info) = some info
fetch_run (cloud_error e) = if is_agent_gone_error e then some gone_run else none
fetch_run other_error = none

-- `ReconcileResult.action`
pub data Action : Type 0 where
  still_running failed_closed noop already_finalized finalized : Action

pub record ReconcileResult : Type 0 where
  pub job_id : ℕ
  pub action : Action
  pub detail : Text

-- What the status of the job and of the run ask for.
pub data Move : Type 0 where
  report : Action → Move
  close recover : Move

abbrev pub is_failed : JobStatus → Bool
is_failed s = status_in s (JobStatus.failed ∷ [])

unfoldable pub next_move : JobStatus → Bool → Text → Move
unfolding still_runs text_in status_in
next_move s gone status =
    if still_runs status
    then report still_running
    else if is_failed s
    then (if text_in status (text "finished" ∷ text "completed" ∷ text "cancelled" ∷ [])
        then recover
        else if text_in status (text "error" ∷ text "cancelled" ∷ []) || gone
        then close
        else report noop)
    else if not (status_in s active_statuses)
    then report noop
    else recover

-- The mode in the job's payload, or ASK where there is none or it is not read.
unfoldable pub mode_of : Crypto → Job → UserMode
unfolding is_empty
mode_of crypto job = elim job.payload_ciphertext [
  | none ↦ ask
  | some c ↦
      if is_empty c
      then ask
      else elim (crypto.decrypt c) [ none ↦ ask | some payload ↦ payload.mode ]
]

unfoldable pub result_of : RunInfo → Option UsageBreakdown → RunResult
unfolding is_empty
result_of info usage =
    let tokens = (λ (f : UsageBreakdown → ℕ). elim usage as (λ u. Option ℕ) [
      | none ↦ none
      | some u ↦ some (f u)
    ]) in
    record {
      pr_url = if is_empty info.pr_url then none else some info.pr_url;
      total_tokens = tokens (λ u. u.total_tokens);
      input_tokens = tokens (λ u. u.input_tokens);
      output_tokens = tokens (λ u. u.output_tokens);
      cache_read_tokens = tokens (λ u. u.cache_read_tokens);
      cache_write_tokens = tokens (λ u. u.cache_write_tokens);
    }

abbrev pub error_of : RunInfo → Option Text
error_of info =
    if info.gone
    then some (text "Cursor agent disappeared")
    else if text_eq (lower info.status) (text "error")
    then some (text "Run finished with error")
    else none

unfoldable pub outcome_of : Job → RunInfo → Option UsageBreakdown → RunOutcome
unfolding lower text_eq result_of
outcome_of job info usage = record {
  state = record {
    result = result_of info usage;
    agent_id = job.cursor_agent_id;
    run_id = job.cursor_run_id;
    last_event_id = job.cursor_last_event_id;
    status = lower info.status;
  };
  status = lower info.status;
  error_message = error_of info;
}

pub record Draws : Type 0 where
  pub now : ℕ
  pub approval_id : ℕ
  pub repo_id : ℕ
  pub label : Text
  pub tokens : ℕ → Text × Text

-- What the reconciler uses and does not define.
pub record Env : Type 0 where
  pub tools : Tools
  pub api : Api
  pub collate : Text → ℕ
  pub settings : Settings

abbrev pub answer : Job → Action → RunInfo → Result (Option ReconcileResult)
answer job action info =
    ok (some (record { job_id = job.id; action = action; detail = lower info.status }))

abbrev pub with_slots : App → SlotDb → App
with_slots w slots = record w { slots = slots }

abbrev pub reported : Result Bool → Job → RunInfo → Result (Option ReconcileResult)
reported (raise e) job info = raise e
reported (ok done) job info = answer job (if done then finalized else already_finalized) info

-- `reconcile_job` from the call for the usage on.
unfoldable pub recover_run :
    Env → App → Draws → Job → (agent run : Text) → RunInfo → Result (Option ReconcileResult) × App
unfolding get_run_context finalize outcome_of mode_of
recover_run env w d job agent run info =
    elim (env.api.fetch_run_usage job.cursor_token_key agent run) [
      | raise e ↦ (raise e, w)
      | ok usage ↦
          let (ctx, slots) =
            get_run_context env.collate env.settings w.slots d.now d.repo_id job.actor_id d.label in
          elim ctx [
            | raise e ↦ (raise e, with_slots w slots)
            | ok run_ctx ↦
                let (done, after) =
                  finalize env.tools (with_slots w slots) d.now d.approval_id job.id job.actor_id
                    (mode_of env.tools.crypto job) (outcome_of job info usage) d.tokens in
                (reported done job info, after)
          ]
    ]

abbrev pub report_answer : Job → Action → RunInfo → Result (Option ReconcileResult)
report_answer job still_running info =
    ok (some (record { job_id = job.id; action = still_running; detail = [] }))
report_answer job failed_closed info = answer job failed_closed info
report_answer job noop info = answer job noop info
report_answer job already_finalized info = answer job already_finalized info
report_answer job finalized info = answer job finalized info

-- `cursor_agent_id` and `cursor_run_id`, where both are there and not empty.
abbrev pub run_ids : Job → Option (Text × Text)
run_ids job = elim job.cursor_agent_id [
  | none ↦ none
  | some agent ↦ elim job.cursor_run_id [
    | none ↦ none
    | some run ↦ if is_empty agent || is_empty run then none else some (agent, run)
  ]
]

-- `reconcile_job` once the run is fetched.
unfoldable pub moved :
    Env
    → App
    → Draws
    → Job
    → (agent run : Text) → RunInfo
    → Move
    → Result (Option ReconcileResult) × App
unfolding lower mark_finalized recover_run
moved env w d job agent run info (report action) = (report_answer job action info, w)
moved env w d job agent run info close =
    (answer job failed_closed info, with_db w (mark_finalized w.st.db d.now job.actor_id job.id).1)
moved env w d job agent run info recover = recover_run env w d job agent run info

unfoldable pub reconcile_job : Env → App → Draws → Job → Result (Option ReconcileResult) × App
unfolding is_empty fetch_run lower next_move moved
reconcile_job env w d job = elim (run_ids job) [
  | none ↦ (raise assertion_error, w)
  | some ids ↦ elim (fetch_run (env.api.get_run_snapshot job.cursor_token_key ids.0 ids.1)) [
    | none ↦ (ok none, w)
    | some info ↦
        moved env w d job ids.0 ids.1 info (next_move job.status info.gone (lower info.status))
  ]
]

abbrev pub is_left_over : Job → Bool
is_left_over job = is_some (run_ids job) && not (is_some job.finalized_at)

abbrev pub kept_results :
    Result (Option ReconcileResult) → List ReconcileResult → List ReconcileResult
kept_results (raise e) rs = rs
kept_results (ok none) rs = rs
kept_results (ok (some r)) rs = r ∷ rs

-- The loop over the jobs, where an exception is logged.
unfoldable pub reconcile_jobs : Env → App → (ℕ → Draws) → List Job → List ReconcileResult × App
unfolding is_empty reconcile_job
reconcile_jobs env w draws [] = ([], w)
reconcile_jobs env w draws (job ∷ jobs) =
    let (result, after) =
      (if is_left_over job then reconcile_job env w (draws job.id) job else (ok none, w)) in
    let (results, last) = reconcile_jobs env after draws jobs in (kept_results result results, last)

abbrev pub recoverable_statuses : List JobStatus
recoverable_statuses = running ∷ planning ∷ JobStatus.failed ∷ []

unfoldable pub reconcile_stale : Env → App → (ℕ → Draws) → ℕ → List ReconcileResult × App
unfolding list_by_status_internal reconcile_jobs
reconcile_stale env w draws limit =
    reconcile_jobs env w draws (list_by_status_internal w.st.db recoverable_statuses limit)
