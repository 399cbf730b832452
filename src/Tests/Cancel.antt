-- ===== src/Tests/Cancel.antt =====
-- /cancel by a user whose job waits behind one that runs (src/beachops/services/cancel_service.py).
use beachops.Base.{ℕ, ◌≡◌, refl, Bool, true, some, Text, text, any}
use beachops.Security.{JobStatus}
use beachops.Database.{Result, ok}
use beachops.Jobs.{new_row}
use beachops.AgentSlots.{create_slot}
use beachops.Jobs.Unique.{IsUnique}
use beachops.JobQueue.{new_queue, submit, JobQueue}
use beachops.Cancellation.{Work, cancel_user_work}
use beachops.Cancellation.Stops.{Cleared, JobStopped, Ended, cancel_user_work-stops}
use beachops.Tests.Jobs.{redact}
use beachops.Tests.Slots.{second}
use beachops.Tests.Runs.{app}

abbrev queue : JobQueue ℕ
queue = (submit (submit (new_queue 5) 7 1).1 7 2).1

abbrev work : Work ℕ
work = record {
  job_queue = queue;
  cancel_store = λ i. Bool.false;
  db = (app JobStatus.queued).st.db;
  slots = second;
  active_runs = λ i. some (record {
    message_id = 1;
    chat_id = 7;
    run_id = some (text "r");
    agent_id = some (text "a");
  });
}

abbrev cancel_run : Text → Text → Text → Result Bool
cancel_run key agent run = ok true

work-IsUnique : IsUnique work.db
unfolding any new_row
work-IsUnique = record { ids = (refl, tt); keys = (refl, tt) }

cancel_user_work-stops_example :
    let out = cancel_user_work redact cancel_run work 200 7 in
    Cleared 7 work out.1
    × JobStopped redact cancel_run 200 7 work out.1.db
    × Ended redact cancel_run 200 7 work out
cancel_user_work-stops_example = cancel_user_work-stops redact cancel_run work 200 7 work-IsUnique

-- The job that waits in the queue of the process, the one in the tables, and the run.
answer :
    (cancel_user_work redact cancel_run work 200 7).0
    ≡ ok (record { cancelled_run = true; cleared_queue = 2; cancel_requested = true })
unfolding cancel_user_work submit new_row create_slot
answer = refl
