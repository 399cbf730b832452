-- ===== src/Jobs.antt =====
-- The writes of JobRepository, src/beachops/db/repositories/jobs.py, on one job. A scoped statement
-- is `WHERE id = $1 AND actor_id = $2`. `redact` is `redact_text`, and `now` is SQL's `now()`.
pub mod Queries
pub mod Runtime
pub mod Queue
pub mod Transition
pub mod Create
pub mod Audit
pub mod History
pub mod Unique
pub mod Once
pub mod Claims
pub mod Cancel
pub mod Finalize
use beachops.Base.{
  ℕ, ◌+◌, ◌-◌, ◌==◌, Bool, true, false, ◌&&◌, ◌||◌, not, Option, none, some, List, [], ◌∷◌, ◌++◌,
  Text, text, text_eq, sql_eq, is_empty, any, find?, update_where, if◌then◌else◌, is_some, coalesce,
}
use beachops.Security.{
  Job, JobKind, JobStatus, RiskLevel, queued, approved, revision_requested, running, status_eq,
}
use beachops.Redaction.{Json, obj, end, redact_value}
use beachops.Database.{
  Error, Result, ok, raise, unique_violation, foreign_key_violation, value_error, Db, JobEvent,
  Artifact, has_user, status_in, update_returning,
}

-- The arguments of `create`; `id` is the given identifier or the fresh one.
pub record NewJob : Type 0 where
  pub id : ℕ
  pub actor_id : ℕ
  pub kind : JobKind
  pub risk_level : RiskLevel
  pub status : JobStatus
  pub repository_url : Option Text
  pub branch : Option Text
  pub summary : Text
  pub payload_ciphertext : Option Text
  pub telegram_chat_id : Option ℕ
  pub telegram_message_id : Option ℕ
  pub idempotency_key : Option Text
  pub runtime : Text

abbrev pub owned : ℕ → ℕ → Job → Bool
owned actor_id job_id j = (j.id == job_id) && (j.actor_id == actor_id)

abbrev pub has_id : ℕ → Job → Bool
has_id job_id j = j.id == job_id

-- The unique index on (actor_id, idempotency_key) where the key is not null.
abbrev pub same_key : ℕ → Option Text → Job → Bool
same_key actor_id key j = (j.actor_id == actor_id) && sql_eq j.idempotency_key key

-- The row that `create` inserts, its other columns at their defaults.
unfoldable pub new_row : (Text → Text) → ℕ → NewJob → Job
unfolding is_empty
new_row redact now n = record {
  id = n.id;
  actor_id = n.actor_id;
  kind = n.kind;
  status = n.status;
  risk_level = n.risk_level;
  repository_url = n.repository_url;
  branch = n.branch;
  summary = redact n.summary;
  payload_ciphertext = n.payload_ciphertext;
  cursor_agent_id = none;
  cursor_run_id = none;
  cursor_token_key = none;
  cursor_last_event_id = none;
  cursor_run_status = none;
  pr_url = none;
  total_tokens = none;
  input_tokens = none;
  output_tokens = none;
  cache_read_tokens = none;
  cache_write_tokens = none;
  telegram_chat_id = n.telegram_chat_id;
  telegram_message_id = n.telegram_message_id;
  idempotency_key = n.idempotency_key;
  runtime = (if is_empty n.runtime then text "cloud" else n.runtime);
  worker_node_id = none;
  attempt = 0;
  telegram_updated = false;
  started_at = none;
  finished_at = none;
  finalized_at = none;
  created_at = now;
  updated_at = now;
}

unfoldable pub create : (Text → Text) → Db → ℕ → NewJob → Result Job × Db
unfolding any sql_eq has_user new_row
create redact db now n =
    if any (has_id n.id) db.jobs
    then (raise unique_violation, db)
    else if any (same_key n.actor_id n.idempotency_key) db.jobs
    then (raise unique_violation, db)
    else if not (has_user db n.actor_id)
    then (raise foreign_key_violation, db)
    else (ok (new_row redact now n), record db { jobs = db.jobs ++ new_row redact now n ∷ [] })

abbrev pub with_status : JobStatus → ℕ → Job → Job
with_status to_status now j = record j { status = to_status; updated_at = now }

abbrev pub add_event : Db → JobEvent → Db
add_event db e = record db {
  job_events = db.job_events ++ e ∷ [];
  next_event_id = db.next_event_id + 1;
}

-- `details or {}`
abbrev pub or_empty : Option Json → Json
or_empty none = obj end
or_empty (some details) = details

-- The statements of `transition` after its SELECT has locked the row `current`.
unfoldable pub transition_row :
    (Text → Text) → Db → ℕ → Job → JobStatus → Text → Option Json → Result (Option Job) × Db
unfolding update_where redact_value
transition_row redact db now current to_status event_type details =
    let update =
      update_where (owned current.actor_id current.id) (with_status to_status now) db.jobs in
    let event : JobEvent = record {
      id = db.next_event_id;
      job_id = current.id;
      actor_id = current.actor_id;
      event_type = event_type;
      from_status = some current.status;
      to_status = some to_status;
      details = redact_value redact (or_empty details);
      created_at = now;
    } in
    (ok (some (with_status to_status now current)), add_event (record db { jobs = update }) event)

unfoldable pub transition :
    (Text → Text)
    → Db
    → ℕ
    → (actor_id job_id : ℕ) → List JobStatus
    → JobStatus
    → Text
    → Option Json
    → Result (Option Job) × Db
unfolding find? status_in transition_row
transition redact db now actor_id job_id [] to_status event_type details = (raise value_error, db)
transition redact db now actor_id job_id (s ∷ from) to_status event_type details =
    elim (find? (owned actor_id job_id) db.jobs) [
      | none ↦ (ok none, db)
      | some current ↦
          if status_in current.status (s ∷ from)
          then transition_row redact db now current to_status event_type details
          else (ok none, db)
    ]

unfoldable pub append_event :
    (Text → Text) → Db → ℕ → (actor_id job_id : ℕ) → Text → Option Json → Bool × Db
unfolding find? redact_value
append_event redact db now actor_id job_id event_type details =
    elim (find? (owned actor_id job_id) db.jobs) [
      | none ↦ (false, db)
      | some j ↦ (
        true,
        add_event db (record {
          id = db.next_event_id;
          job_id = j.id;
          actor_id = j.actor_id;
          event_type = event_type;
          from_status = none;
          to_status = none;
          details = redact_value redact (or_empty details);
          created_at = now;
        }),
      )
    ]

-- A scoped `UPDATE … RETURNING id`.
unfoldable pub update_owned : Db → (actor_id job_id : ℕ) → (Job → Bool) → (Job → Job) → Bool × Db
unfolding update_returning
update_owned db actor_id job_id extra f =
    let (row, rows) = update_returning (λ j. owned actor_id job_id j && extra j) f db.jobs in
    (is_some row, record db { jobs = rows })
