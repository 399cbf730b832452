-- ===== src/Tests/Runs.antt =====
-- A run that is finalized, and what the reconciler makes of jobs that are left over
-- (src/beachops/services/run_finalizer.py, run_reconciler.py).
use beachops.Base.{◌≢◌, ◌⊎◌, any, ℕ, ◌≡◌, refl, true, false, none, some, [], ◌∷◌, Text, text}
use beachops.Security.{Job, JobStatus, UserMode, ask, read, low}
use beachops.Database.{ok, status_in}
use beachops.Jobs.{NewJob, new_row}
use beachops.Jobs.Queries.{get, get_internal}
use beachops.Jobs.Unique.{IsUnique}
use beachops.Jobs.Finalize.{IsFinalized}
use beachops.Runs.{App, Tools, RunOutcome, finalize, is_plan, still_runs, verdict}
use beachops.Runs.Chain.{Chain}
use beachops.Runs.Once.{finalize_run_once}
use beachops.Runs.Failed.{HasStatus, finalize-HasStatus}
use beachops.Runs.Reconciler.{Env, Draws, snapshot, finalized, reconcile_job, mode_of, fetch_run}
use beachops.Runs.Reconciler.Settles.{reconcile_job-stays_failed, reconcile_job-settles}
use beachops.SlotService.{get_run_context}
use beachops.Runs.Worker
use beachops.Runs.Worker.Cancelled.{OnlyJobs, execute_job-cancels}
use beachops.Tests.Jobs.{redact, empty}
use beachops.Tests.Gates.{services}
use beachops.Tests.Decisions.{crypto}
use beachops.Tests.Slots.{none_yet}
use beachops.Tests.Service.{collate, settings}

abbrev request : JobStatus → NewJob
request status = record {
  id = 1;
  actor_id = 7;
  kind = read;
  risk_level = low;
  status = status;
  repository_url = none;
  branch = none;
  summary = text "why?";
  payload_ciphertext = none;
  telegram_chat_id = none;
  telegram_message_id = none;
  idempotency_key = none;
  runtime = text "cloud";
}

-- The row of a job that a run was started for.
abbrev row : JobStatus → Job
row status = record (new_row redact 100 (request status)) {
  cursor_agent_id = some (text "a");
  cursor_run_id = some (text "r");
}

abbrev pub app : JobStatus → App
app status = record {
  st = record { db = record empty { jobs = row status ∷ [] }; arq = [] };
  slots = none_yet;
  deferred = [];
  cancel_store = λ uid. false;
}

abbrev tools : Tools
tools = record {
  services = services;
  crypto = crypto;
  digest = λ t. 0;
  settings = record {
    owner_user_ids = [];
    admin_user_ids = [];
    auto_approve_plans = false;
    callback_token_ttl_sec = 60;
  };
  send_message = λ o. ok tt;
}

abbrev outcome : RunOutcome
outcome = record {
  state = record {
    result = record {
      pr_url = none;
      total_tokens = none;
      input_tokens = none;
      output_tokens = none;
      cache_read_tokens = none;
      cache_write_tokens = none;
    };
    agent_id = some (text "a");
    run_id = some (text "r");
    last_event_id = none;
    status = text "finished";
  };
  status = text "finished";
  error_message = none;
}

abbrev tokens : ℕ → Text × Text
tokens i = (text "y", text "n")

found : (status : JobStatus) → get (app status).st.db 7 1 ≡ some (row status)
unfolding get new_row
found status = refl

running_once : IsUnique (app JobStatus.running).st.db
unfolding any new_row
running_once = record { ids = (refl, tt); keys = (refl, tt) }

finalize_run_once_example :
    (t : ℕ) × IsFinalized
      (finalize tools (app JobStatus.running) 200 2 1 7 ask outcome tokens).1.st.db
      7
      1
      t
    × ((v : App) (now' id' : ℕ) (mode' : UserMode) (outcome' : RunOutcome)
          (tokens' : ℕ → Text × Text)
        → Chain
            (finalize tools (app JobStatus.running) 200 2 1 7 ask outcome tokens).1.st.db
            v.st.db
        → finalize tools v now' id' 1 7 mode' outcome' tokens' ≡ (ok false, v))
unfolding still_runs
finalize_run_once_example =
    finalize_run_once tools (app JobStatus.running) 200 2 1 7 ask outcome tokens
      (row JobStatus.running) running_once (found JobStatus.running) refl

finalize-HasStatus_example :
    ((finalize tools (app JobStatus.running) 200 2 1 7 ask outcome tokens).0 ≡ ok true)
    × HasStatus
        (finalize tools (app JobStatus.running) 200 2 1 7 ask outcome tokens).1.st.db
        7
        1
        JobStatus.succeeded
unfolding new_row still_runs is_plan status_in verdict
finalize-HasStatus_example =
    finalize-HasStatus tools (app JobStatus.running) 200 2 1 7 ask outcome tokens
      (row JobStatus.running) (found JobStatus.running) refl refl refl

abbrev env : Text → Env
env status = record {
  tools = tools;
  api = record {
    get_run_snapshot =
        λ key agent run. snapshot (record { status = status; pr_url = []; gone = false });
    fetch_run_usage = λ key agent run. ok none;
  };
  collate = collate;
  settings = settings;
}

abbrev draws : Draws
draws = record { now = 200; approval_id = 2; repo_id = 1; label = text "fox"; tokens = tokens }

-- The run succeeded after all.
reconcile_job-stays_failed_example :
    HasStatus
      (reconcile_job
        (env (text "finished"))
        (app JobStatus.failed)
        draws
        (row JobStatus.failed)).1.st.db
      7
      1
      JobStatus.failed
unfolding new_row is_plan mode_of
reconcile_job-stays_failed_example =
    reconcile_job-stays_failed (env (text "finished")) (app JobStatus.failed) draws
      (row JobStatus.failed) (found JobStatus.failed) refl refl refl

reconcile_job-settles_example :
    ((reconcile_job
        (env (text "CANCELLED"))
        (app JobStatus.running)
        draws
        (row JobStatus.running)).0
      ≡ ok (some (record { job_id = 1; action = finalized; detail = text "cancelled" })))
    × HasStatus
        (reconcile_job
          (env (text "CANCELLED"))
          (app JobStatus.running)
          draws
          (row JobStatus.running)).1.st.db
        7
        1
        JobStatus.cancelled
unfolding new_row status_in is_plan mode_of fetch_run still_runs get_run_context
reconcile_job-settles_example =
    reconcile_job-settles (env (text "CANCELLED")) (app JobStatus.running) draws
      (row JobStatus.running) (text "a") (text "r")
      (record { status = text "CANCELLED"; pr_url = []; gone = false }) none none
      (found JobStatus.running) refl refl refl refl refl refl refl refl

-- A worker whose launch would answer at once.
abbrev worker : Worker.Env
worker = record {
  redact = redact;
  collate = collate;
  settings = settings;
  decrypt = λ t. Worker.unreadable;
  decodes_images = λ p. true;
  launch = λ w j p c. (Worker.launched, w);
}

abbrev flagged : App
flagged = record (app JobStatus.queued) { cancel_store = λ uid. true }

execute_job-cancels_example :
    ((Worker.execute_job worker flagged draws 1 true).0 ≡ ok tt)
    × HasStatus (Worker.execute_job worker flagged draws 1 true).1.st.db 7 1 JobStatus.cancelled
    × OnlyJobs flagged (Worker.execute_job worker flagged draws 1 true).1
    × ((b k : ℕ)
        → (b ≢ 7) ⊎ (k ≢ 1)
        → get (Worker.execute_job worker flagged draws 1 true).1.st.db b k ≡ get flagged.st.db b k)
unfolding new_row get_internal status_in
execute_job-cancels_example =
    execute_job-cancels worker flagged draws true (row JobStatus.queued) refl refl refl
