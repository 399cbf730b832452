-- ===== src/Decisions.antt =====
-- What an owner's decision starts: src/beachops/services/approval_actions.py, over the job repository
-- and the queue of ARQ jobs. `decrypt` answers none where `decrypt_json` raises; `show` prints an
-- identifier; `id` is the fresh identifier of a job, `nonce` a fresh text.
pub mod Started
pub mod Approve
pub mod Once
use beachops.Base.{
  ℕ, Bool, true, false, not, ◌&&◌, ◌||◌, Option, none, some, List, [], ◌∷◌, ◌++◌, Text, text,
  if◌then◌else◌,
}
use beachops.Security.{
  Job, JobKind, JobStatus, ApprovalKind, RiskLevel, do_mode, review_required, awaiting_approval,
}
use beachops.Database.{Db, Error, Result, ok, raise, permission_error, value_error}
use beachops.Jobs.{NewJob, create, transition}
use beachops.RiskPolicy.{RiskAssessment, assess, is_high}
use beachops.RepositoryPolicy.{require_allowed}
use beachops.Dispatch.{PromptBody, Services, State}

-- What the functions return, besides None.
pub data Outcome : Type 0 where
  accepted plan_approved revision_requested : ℕ → Outcome

pub record Crypto : Type 0 where
  pub decrypt : Text → Option PromptBody
  pub show : ℕ → Text

-- `value or ""`
abbrev pub or_blank : Option Text → Text
or_blank none = []
or_blank (some t) = t

-- The payload of the job that follows: the source's, with these three entries.
abbrev pub follow_up : PromptBody → Text → ℕ → PromptBody
follow_up source prompt job_id = record source {
  prompt = prompt;
  mode = do_mode;
  approved_plan_job_id = some job_id;
}

-- A change job of the actor of `job`.
abbrev pub change_job : Job → ℕ → JobStatus → (summary payload key : Text) → NewJob
change_job job id status summary payload key = record {
  id = id;
  actor_id = job.actor_id;
  kind = JobKind.change;
  risk_level = RiskLevel.medium;
  status = status;
  repository_url = job.repository_url;
  branch = job.branch;
  summary = summary;
  payload_ciphertext = some payload;
  telegram_chat_id = job.telegram_chat_id;
  telegram_message_id = none;
  idempotency_key = some key;
  runtime = text "cloud";
}

abbrev pub approval_key : Crypto → Job → Text
approval_key c job = text "approval:" ++ c.show job.id

abbrev pub approved_prompt : Text
approved_prompt = text "Выполни одобренный план. Не выходи за его рамки."

-- The change job of an approved plan.
abbrev pub plan_job : Services → Crypto → Job → PromptBody → ℕ → NewJob
plan_job sv c job source id =
    change_job job id JobStatus.approved (text "Выполнение одобренного плана " ++ c.show job.id)
      (sv.encrypt (follow_up source approved_prompt job.id)) (approval_key c job)

-- `jobs.create`, `jobs.transition` of the decided job, whose answer is dropped, then ARQ.
unfoldable pub start_change :
    Services
    → State
    → ℕ
    → Job
    → NewJob
    → JobStatus
    → JobStatus
    → Text
    → (ℕ → Outcome)
    → Result Outcome × State
unfolding create transition
start_change sv st now job n from to_status event_type answer =
    let (made, db) = create sv.redact st.db now n in
    elim made [
      | raise e ↦ (raise e, record st { db = db })
      | ok change ↦
          let after =
            (transition sv.redact db now job.actor_id job.id (from ∷ []) to_status event_type
              none).1 in
          (ok (answer change.id), record st { db = after; arq = st.arq ++ change.id ∷ [] })
    ]

unfoldable pub approve_plan :
    Services → Crypto → State → (now id : ℕ) → Job → Result Outcome × State
unfolding require_allowed start_change
approve_plan sv c st now id job =
    elim (require_allowed sv.normalize sv.policies (or_blank job.repository_url)
      (or_blank job.branch) true) [
        | none ↦ (raise permission_error, st)
        | some _ ↦ elim (c.decrypt (or_blank job.payload_ciphertext)) [
          | none ↦ (raise value_error, st)
          | some source ↦
              start_change sv st now job (plan_job sv c job source id) awaiting_approval
                JobStatus.approved (text "approval.approved") plan_approved
        ]
      ]

unfoldable pub is_review : ApprovalKind → Bool
is_review ApprovalKind.plan_execution = false
is_review ApprovalKind.result_review = true
is_review ApprovalKind.high_risk = false
is_review ApprovalKind.deploy = false
is_review ApprovalKind.merge = false
is_review ApprovalKind.prod_db = false
is_review ApprovalKind.secrets = false
is_review ApprovalKind.iam = false
is_review ApprovalKind.destructive = false

unfoldable pub approve_job :
    Services → Crypto → State → (now id : ℕ) → Job → ApprovalKind → Result Outcome × State
unfolding is_review transition approve_plan
approve_job sv c st now id job kind =
    if is_review kind
    then (
      ok (accepted job.id),
      record st {
        db =
            (transition sv.redact st.db now job.actor_id job.id (review_required ∷ [])
              JobStatus.accepted (text "review.accepted") none).1;
      },
    )
    else approve_plan sv c st now id job

unfoldable pub reject_job : Services → State → ℕ → Job → State
unfolding transition
reject_job sv st now job = record st {
  db =
      (transition sv.redact st.db now job.actor_id job.id (awaiting_approval ∷ review_required ∷ [])
        JobStatus.rejected (text "approval.rejected") none).1;
}

abbrev pub revision_job :
    Services → Crypto → Job → PromptBody → ℕ → (nonce revision : Text) → NewJob
revision_job sv c job source id nonce revision =
    change_job job id JobStatus.revision_requested (text "Доработка результата " ++ c.show job.id)
      (sv.encrypt (follow_up source revision job.id))
      (text "revision:" ++ c.show job.id ++ text ":" ++ nonce)

unfoldable pub request_revision :
    Services
    → Crypto
    → State
    → (now id : ℕ) → Job
    → (nonce revision : Text) → Result Outcome × State
unfolding assess is_high start_change
request_revision sv c st now id job nonce revision =
    let a = assess sv.patterns revision JobKind.change job.branch true in
    if a.is_blocked || is_high a.level
    then (raise permission_error, st)
    else elim (c.decrypt (or_blank job.payload_ciphertext)) [
      | none ↦ (raise value_error, st)
      | some source ↦
          start_change sv st now job (revision_job sv c job source id nonce revision)
            review_required JobStatus.revision_requested (text "review.revision_requested")
            revision_requested
    ]
