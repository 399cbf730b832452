-- ===== src/Database.antt =====
-- The tables that the repositories share (alembic/versions/011, 012, 013 and 018), as lists of rows
-- in the order of insertion, and the errors that the operations raise. A statement that raises
-- leaves the tables as they were; `now()` and fresh identifiers are arguments of the operations.
use beachops.Base.{
  ℕ, ◌≡◌, refl, ◌⊎◌, inl, inr, Bool, Option, none, some, List, Text, ◌==◌, any, find?, update_where,
}
use beachops.Security.{Role, Job, JobStatus, status_eq, Approval}
use beachops.Redaction.{Json}

pub data Error : Type 0 where
  unique_violation foreign_key_violation value_error permission_error lookup_error assertion_error
        index_error attribute_error runtime_error agent_slots_full agent_slot_last :
      Error

pub data Result {ℓ} (A : Type ℓ) : Type ℓ where
  ok : A → Result A
  raise : Error → Result A

pub Result-cases {ℓ} :
    {A : Type ℓ} (r : Result A) → ((e : Error) × (r ≡ raise e)) ⊎ ((a : A) × (r ≡ ok a))
Result-cases (raise e) = inl (e, refl)
Result-cases (ok a) = inr (a, refl)

pub record User : Type 0 where
  pub tg_user_id : ℕ
  pub role : Role

pub record JobEvent : Type 0 where
  pub id : ℕ
  pub job_id : ℕ
  pub actor_id : ℕ
  pub event_type : Text
  pub from_status : Option JobStatus
  pub to_status : Option JobStatus
  pub details : Json
  pub created_at : ℕ

pub record Artifact : Type 0 where
  pub id : ℕ
  pub job_id : ℕ
  pub artifact_kind : Text
  pub uri : Text
  pub sha256 : Option Text
  pub metadata : Json
  pub created_at : ℕ

pub record CallbackToken : Type 0 where
  pub token_digest : ℕ
  pub actor_id : ℕ
  pub job_id : ℕ
  pub action : Text
  pub expires_at : ℕ
  pub consumed_at : Option ℕ
  pub created_at : ℕ

pub record Db : Type 0 where
  pub users : List User
  pub jobs : List Job
  pub job_events : List JobEvent
  pub artifacts : List Artifact
  pub approvals : List Approval
  pub callback_tokens : List CallbackToken
  -- the sequences behind the BIGSERIAL columns
  pub next_event_id : ℕ
  pub next_artifact_id : ℕ

unfoldable pub status_in : JobStatus → List JobStatus → Bool
unfolding status_eq any
status_in s allowed = any (λ t. status_eq t s) allowed

unfoldable pub has_user : Db → ℕ → Bool
unfolding any
has_user db uid = any (λ (u : User). u.tg_user_id == uid) db.users

-- `UPDATE … SET … WHERE … RETURNING *` by a key that at most one row has.
unfoldable pub update_returning {ℓ} :
    {A : Type ℓ} → (A → Bool) → (A → A) → List A → Option A × List A
unfolding find? update_where
update_returning p f rows =
    (elim (find? p rows) [ none ↦ none | some row ↦ some (f row) ], update_where p f rows)
