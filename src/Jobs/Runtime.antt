-- ===== src/Jobs/Runtime.antt =====
-- The columns that a run fills in: `set_runtime`, `set_result`, `mark_finalized` and `add_artifact`
-- of src/beachops/db/repositories/jobs.py.
use beachops.Base.{
  ℕ, ◌+◌, Bool, true, not, Option, none, some, [], ◌∷◌, ◌++◌, Text, is_empty, find?, is_some,
  coalesce, if◌then◌else◌,
}
use beachops.Security.{Job}
use beachops.Redaction.{Json, redact_value}
use beachops.Database.{Db, Artifact}
use beachops.Jobs.{owned, update_owned, or_empty}

-- The optional arguments of `set_runtime`.
pub record RuntimeColumns : Type 0 where
  pub cursor_agent_id : Option Text
  pub cursor_run_id : Option Text
  pub cursor_token_key : Option Text
  pub cursor_last_event_id : Option Text
  pub cursor_run_status : Option Text
  pub telegram_message_id : Option ℕ
  pub telegram_chat_id : Option ℕ

abbrev pub with_runtime : RuntimeColumns → ℕ → Job → Job
with_runtime c now j = record j {
  cursor_agent_id = coalesce c.cursor_agent_id j.cursor_agent_id;
  cursor_run_id = coalesce c.cursor_run_id j.cursor_run_id;
  cursor_token_key = coalesce c.cursor_token_key j.cursor_token_key;
  cursor_last_event_id = coalesce c.cursor_last_event_id j.cursor_last_event_id;
  cursor_run_status = coalesce c.cursor_run_status j.cursor_run_status;
  telegram_message_id = coalesce c.telegram_message_id j.telegram_message_id;
  telegram_chat_id = coalesce c.telegram_chat_id j.telegram_chat_id;
  updated_at = now;
}

unfoldable pub set_runtime : Db → ℕ → (actor_id job_id : ℕ) → RuntimeColumns → Bool × Db
unfolding update_owned
set_runtime db now actor_id job_id c =
    update_owned db actor_id job_id (λ _. true) (with_runtime c now)

-- The arguments of `set_result`.
pub record RunResult : Type 0 where
  pub pr_url : Option Text
  pub total_tokens : Option ℕ
  pub input_tokens : Option ℕ
  pub output_tokens : Option ℕ
  pub cache_read_tokens : Option ℕ
  pub cache_write_tokens : Option ℕ

-- `redact_text(pr_url) if pr_url else None`
unfoldable pub redact_url : (Text → Text) → Option Text → Option Text
unfolding is_empty
redact_url redact none = none
redact_url redact (some url) = if is_empty url then none else some (redact url)

abbrev pub with_result : (Text → Text) → RunResult → ℕ → Job → Job
with_result redact r now j = record j {
  pr_url = redact_url redact r.pr_url;
  total_tokens = r.total_tokens;
  input_tokens = coalesce r.input_tokens j.input_tokens;
  output_tokens = coalesce r.output_tokens j.output_tokens;
  cache_read_tokens = coalesce r.cache_read_tokens j.cache_read_tokens;
  cache_write_tokens = coalesce r.cache_write_tokens j.cache_write_tokens;
  updated_at = now;
}

unfoldable pub set_result : (Text → Text) → Db → ℕ → (actor_id job_id : ℕ) → RunResult → Bool × Db
unfolding update_owned redact_url
set_result redact db now actor_id job_id r =
    update_owned db actor_id job_id (λ _. true) (with_result redact r now)

abbrev pub with_finalized : ℕ → Job → Job
with_finalized now j = record j {
  finished_at = coalesce j.finished_at (some now);
  finalized_at = coalesce j.finalized_at (some now);
  updated_at = now;
}

unfoldable pub mark_finalized : Db → ℕ → (actor_id job_id : ℕ) → Bool × Db
unfolding update_owned
mark_finalized db now actor_id job_id =
    update_owned db actor_id job_id (λ j. not (is_some j.finalized_at)) (with_finalized now)

unfoldable pub add_artifact :
    (Text → Text)
    → Db
    → ℕ
    → (actor_id job_id : ℕ) → Text
    → Text
    → Option Text
    → Option Json
    → Option ℕ × Db
unfolding find? redact_value
add_artifact redact db now actor_id job_id artifact_kind uri sha256 metadata =
    elim (find? (owned actor_id job_id) db.jobs) [
      | none ↦ (none, db)
      | some j ↦
          let row : Artifact = record {
            id = db.next_artifact_id;
            job_id = j.id;
            artifact_kind = artifact_kind;
            uri = redact uri;
            sha256 = sha256;
            metadata = redact_value redact (or_empty metadata);
            created_at = now;
          } in
          (
            some db.next_artifact_id,
            record db {
              artifacts = db.artifacts ++ row ∷ [];
              next_artifact_id = db.next_artifact_id + 1;
            },
          )
    ]
