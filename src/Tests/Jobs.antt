-- ===== src/Tests/Jobs.antt =====
-- Histories of one user's jobs (src/beachops/db/repositories/jobs.py).
use beachops.Base.{
  ℕ, ◌≡◌, refl, ◌≢◌, ◌==◌, ◌⊎◌, Bool, false, none, some, [], ◌∷◌, Text, text, All, length,
}
use beachops.Security.{Job, JobStatus, owner, read, low, queued, running}
use beachops.Database.{Db, ok, raise, unique_violation}
use beachops.Jobs.{NewJob, create, transition, with_status, new_row}
use beachops.Jobs.Queries.{get, get_internal, list_queued_for_actor, queue_position}
use beachops.Jobs.Runtime.{mark_finalized, with_finalized}
use beachops.Jobs.Queue.{claim_for_worker, is_claimable, with_claim, cancel_queued_for_actor}
use beachops.Jobs.Transition.{Refused, Accepted, Moves, transition-compare_and_set}
use beachops.Jobs.Unique.{IsUnique, History-IsUnique}
use beachops.Jobs.History.{History, begin, later, writes, claims}
use beachops.Jobs.Once.{create_once}
use beachops.Jobs.Claims.{IsOldest, claim_for_worker_lem, claims-apart}
use beachops.Jobs.Cancel.{cancel_queued-empties}
use beachops.Jobs.Finalize.{IsFinalized, finalize_once}
use beachops.Jobs.Audit.{creates, transitions, replay}
use beachops.Jobs.Audit.Trail.{audit_trail}

abbrev pub redact : Text → Text
redact t = t

abbrev pub start : ℕ → ℕ → JobStatus
start a i = queued

abbrev pub empty : Db
empty = record {
  users = record { tg_user_id = 7; role = owner } ∷ [];
  jobs = [];
  job_events = [];
  artifacts = [];
  approvals = [];
  callback_tokens = [];
  next_event_id = 1;
  next_artifact_id = 1;
}

abbrev request : ℕ → Text → NewJob
request i key = record {
  id = i;
  actor_id = 7;
  kind = read;
  risk_level = low;
  status = queued;
  repository_url = none;
  branch = none;
  summary = text "why?";
  payload_ciphertext = none;
  telegram_chat_id = none;
  telegram_message_id = none;
  idempotency_key = some key;
  runtime = text "windows";
}

abbrev first : NewJob
first = request 1 (text "a")

abbrev second : NewJob
second = request 2 (text "b")

abbrev pub one : Db
one = (create redact empty 100 first).1

abbrev two : Db
two = (create redact one 110 second).1

abbrev started : Db
started = (transition redact two 120 7 1 (queued ∷ []) running (text "worker.started") none).1

abbrev done : Db
done = (mark_finalized started 130 7 1).1

-- The second job is claimed by a Windows worker, and the first one starts.
abbrev handed_out : Db
handed_out = (claim_for_worker (λ i. i == 1) started 125 50 (text "windows")).1

abbrev history : History redact start empty handed_out
history =
    later
      (later
        (later (later begin (writes (creates 100 first refl refl)))
          (writes (creates 110 second refl refl)))
        (writes (transitions 120 7 1 (queued ∷ []) running (text "worker.started") none refl)))
      (claims (λ i. i == 1) 125 50 (text "windows") refl)

abbrev started_job : Job
started_job = with_status running 120 (new_row redact 100 first)

started_found : get started 7 1 ≡ some started_job
unfolding get create transition
started_found = refl

handed_out-found : get handed_out 7 1 ≡ some started_job
unfolding get create transition claim_for_worker
handed_out-found = refl

audit_trail_example : replay 7 1 queued handed_out.job_events ≡ some running
unfolding new_row
audit_trail_example =
    audit_trail redact start empty handed_out refl refl history 7 1 started_job handed_out-found
      refl

-- The job of the Windows worker runs, and its events say that it is queued.
claim-unlogged :
    (get handed_out 7 2 ≡ some (with_claim 50 125 (new_row redact 110 second)))
    × (replay 7 2 queued handed_out.job_events ≡ some queued)
unfolding get create transition claim_for_worker replay beachops.Jobs.Audit.apply_event
claim-unlogged = (refl, refl)

started_refused :
    (transition redact started 125 7 1 (queued ∷ []) running (text "again") none).0 ≡ ok none
unfolding create transition
started_refused = refl

transition-compare_and_set_example :
    (Refused one 7 1 queued []
      × (transition redact one 120 7 1 (queued ∷ []) running (text "worker.started") none
          ≡ (ok none, one)))
    ⊎ ((j : Job) × Accepted one 7 1 queued [] j
        × Moves one 120 7 1 running j
            (transition redact one 120 7 1 (queued ∷ []) running (text "worker.started") none))
transition-compare_and_set_example =
    transition-compare_and_set redact one 120 7 1 queued [] running (text "worker.started") none

two-IsUnique : IsUnique two
unfolding create
two-IsUnique = record { ids = (refl, (refl, tt)); keys = (refl, (refl, tt)) }

create_once_example : create redact two 300 (request 3 (text "a")) ≡ (raise unique_violation, two)
create_once_example =
    create_once redact start empty two 100 300 first (request 3 (text "a")) (text "a")
      (new_row redact 100 first) refl refl refl (unfold create in refl)
      (later begin (writes (creates 110 second refl refl)))

abbrev nobody : ℕ → Bool
nobody i = false

abbrev claimed : Db
claimed = (claim_for_worker nobody two 200 50 (text "windows")).1

abbrev claimed_history : History redact start empty claimed
claimed_history =
    later
      (later (later begin (writes (creates 100 first refl refl)))
        (writes (creates 110 second refl refl)))
      (claims nobody 200 50 (text "windows") refl)

History-IsUnique_example : IsUnique claimed
History-IsUnique_example = History-IsUnique claimed_history (record { ids = tt; keys = tt })

claims-apart_example : ◌≢◌ {A = ℕ} 2 1
unfolding create claim_for_worker
claims-apart_example =
    claims-apart nobody nobody two 200 210 50 51 (text "windows") (text "windows")
      (with_claim 50 200 (new_row redact 100 first)) (with_claim 51 210 (new_row redact 110 second))
      claimed (claim_for_worker nobody claimed 210 51 (text "windows")).1 refl refl

claim_for_worker_lem_example :
    let (result, db') = claim_for_worker nobody two 200 50 (text "windows") in
    (All (λ j. is_claimable nobody 50 (text "windows") j ≡ false) two.jobs
      × (result ≡ none)
      × (db' ≡ two))
    ⊎ ((row : Job) × IsOldest nobody two 50 (text "windows") row
        × (get_internal two row.id ≡ some row)
        × (result ≡ some (with_claim 50 200 row))
        × (get_internal db' row.id ≡ some (with_claim 50 200 row))
        × ((k : ℕ) → k ≢ row.id → get_internal db' k ≡ get_internal two k))
claim_for_worker_lem_example = claim_for_worker_lem nobody two 50 (text "windows") 200 two-IsUnique

cancel_queued-empties_example :
    let (count, db') = cancel_queued_for_actor redact two 300 7 in
    (list_queued_for_actor db' 7 ≡ [])
    × (count ≡ length (list_queued_for_actor two 7))
    × ((b k : ℕ) → b ≢ 7 → get db' b k ≡ get two b k)
cancel_queued-empties_example = cancel_queued-empties redact 300 7 two two-IsUnique

cancelled_two : (cancel_queued_for_actor redact two 300 7).0 ≡ 2
unfolding create cancel_queued_for_actor
cancelled_two = refl

second_position : queue_position two 7 2 ≡ 2
unfolding create queue_position
second_position = refl

done-IsUnique : IsUnique done
unfolding create transition mark_finalized
done-IsUnique = record { ids = (refl, (refl, tt)); keys = (refl, (refl, tt)) }

done-IsFinalized : IsFinalized done 7 1 130
unfolding create transition mark_finalized get
done-IsFinalized = (with_finalized 130 started_job, refl, refl)

finalize_once_example : IsFinalized done 7 1 130 × ((mark_finalized done 140 7 1).0 ≡ false)
finalize_once_example =
    finalize_once redact start done done 140 7 1 130 done-IsUnique done-IsFinalized begin
