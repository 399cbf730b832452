-- ===== src/Dispatch.antt =====
-- dispatch_prompt, src/beachops/services/durable_dispatch.py, over the job repository and a queue of
-- ARQ jobs, to which the append does not fail (`enqueue_job` may raise after the job is stored).
-- `lower` is that of ASCII. Arguments stand for `redact_text`, `normalize_github_url`, the risk
-- patterns, and `encrypt_json`; `id` is the fresh identifier of the job.
pub mod Outcomes
pub mod Gate
use beachops.Base.{
  ℕ, Bool, true, false, not, ◌&&◌, ◌||◌, Option, none, some, List, [], ◌∷◌, ◌++◌, Text, text,
  text_eq, is_empty, strip, lower, take, starts_with, if◌then◌else◌,
}
use beachops.Security.{UserMode, ask, plan, do_mode, Job, JobKind, JobStatus, RiskLevel}
use beachops.Database.{Db, Result, ok, raise}
use beachops.Jobs.{NewJob, create}
use beachops.AgentSlots.{RepoConfig}
use beachops.RiskPolicy.{Patterns, RiskAssessment, assess, is_high, is_change}
use beachops.RepositoryPolicy.{Policies, require_allowed}

-- Why a prompt is not enqueued: the reason's text is fixed, the exception's, or the assessment's.
pub data Reason : Type 0 where
  secret_input not_allowed : Reason
  by_policy : List Text → Reason

pub record DispatchResult : Type 0 where
  pub job : Job
  pub enqueued : Bool
  pub reason : Option Reason

pub data AgentRuntime : Type 0 where
  cloud windows : AgentRuntime

-- `choose_runtime` ignores its arguments.
unfoldable pub choose_runtime : AgentRuntime
choose_runtime = cloud

unfoldable pub runtime_value : AgentRuntime → Text
runtime_value cloud = text "cloud"
runtime_value windows = text "windows"

unfoldable pub job_kind : UserMode → JobKind
job_kind ask = JobKind.read
job_kind plan = JobKind.plan
job_kind do_mode = JobKind.change

-- The payload before encryption, without `local_path`, which is always None.
pub record PromptBody : Type 0 where
  pub prompt : Text
  pub mode : UserMode
  pub slot_id : ℕ
  pub repo_id : ℕ
  pub runtime : Text
  pub channel : Option Text
  pub approved_plan_job_id : Option ℕ
  pub images : List (List (Text × Text))

pub record Request : Type 0 where
  pub actor_id : ℕ
  pub prompt : Text
  pub mode : UserMode
  pub slot_id : ℕ
  pub repo : RepoConfig
  pub idempotency_key : Option Text
  pub approved_plan_job_id : Option ℕ
  pub display_summary : Option Text
  pub images : List (List (Text × Text))
  pub channel : Option Text

-- What the code that is not the repository's own does, and the policies in force.
pub record Services : Type 0 where
  pub redact : Text → Text
  pub normalize : Text → Option Text
  pub patterns : Patterns
  pub policies : Policies
  pub encrypt : PromptBody → Text

-- The database and the identifiers of the jobs handed to ARQ.
pub record State : Type 0 where
  pub db : Db
  pub arq : List ℕ

-- `display_summary or prompt`
unfoldable pub display_text : Request → Text
unfolding is_empty
display_text r = elim r.display_summary [
  | none ↦ r.prompt
  | some s ↦ if is_empty s then r.prompt else s
]

abbrev pub picture : Text
picture = text "🖼"

-- `(display_summary or "").strip()`
unfoldable pub has_display : Option Text → Bool
unfolding is_empty strip
has_display none = false
has_display (some s) = not (is_empty (strip s))

-- The summary of a job that is enqueued.
unfoldable pub job_summary : (Text → Text) → Request → Text
unfolding display_text strip has_display is_empty starts_with
job_summary redact r =
    let safe = strip (redact (display_text r)) in
    elim r.images [
      | [] ↦ safe
      | _ ∷ _ ↦
          if not (has_display r.display_summary)
          then text "🖼 Скриншот"
          else if not (is_empty safe) && not (starts_with safe picture)
          then text "🖼 " ++ safe
          else safe
    ]

-- `(channel or "").strip().lower() or None`
unfoldable pub channel_of : Option Text → Option Text
unfolding strip lower is_empty
channel_of none = none
channel_of (some c) = let v = lower (strip c) in if is_empty v then none else some v

abbrev pub body_of : Request → PromptBody
body_of r = record {
  prompt = r.prompt;
  mode = r.mode;
  slot_id = r.slot_id;
  repo_id = r.repo.id;
  runtime = runtime_value choose_runtime;
  channel = channel_of r.channel;
  approved_plan_job_id = r.approved_plan_job_id;
  images = r.images;
}

-- A job that is created blocked.
abbrev pub blocked_job : Request → ℕ → RiskLevel → Text → NewJob
blocked_job r id level summary = record {
  id = id;
  actor_id = r.actor_id;
  kind = job_kind r.mode;
  risk_level = level;
  status = JobStatus.blocked;
  repository_url = some r.repo.github_url;
  branch = some r.repo.default_branch;
  summary = summary;
  payload_ciphertext = none;
  telegram_chat_id = none;
  telegram_message_id = none;
  idempotency_key = r.idempotency_key;
  runtime = text "cloud";
}

-- A job that is created to be run.
abbrev pub queued_job : Services → Request → ℕ → RiskLevel → NewJob
queued_job sv r id level = record {
  id = id;
  actor_id = r.actor_id;
  kind = job_kind r.mode;
  risk_level = level;
  status = JobStatus.queued;
  repository_url = some r.repo.github_url;
  branch = some r.repo.default_branch;
  summary = take 300 (job_summary sv.redact r);
  payload_ciphertext = some (sv.encrypt (body_of r));
  telegram_chat_id = some r.actor_id;
  telegram_message_id = none;
  idempotency_key = r.idempotency_key;
  runtime = runtime_value choose_runtime;
}

-- `jobs.create`, then the result without a place in the queue.
unfoldable pub refuse : Services → State → ℕ → NewJob → Reason → Result DispatchResult × State
unfolding create
refuse sv st now n why =
    let (made, db) = create sv.redact st.db now n in
    (
      elim made [
        | raise e ↦ raise e
        | ok job ↦ ok (record { job = job; enqueued = false; reason = some why })
      ],
      record st { db = db },
    )

-- `jobs.create`, then ARQ.
unfoldable pub enqueue : Services → State → ℕ → NewJob → Result DispatchResult × State
unfolding create choose_runtime
enqueue sv st now n =
    let (made, db) = create sv.redact st.db now n in
    elim made [
      | raise e ↦ (raise e, record st { db = db })
      | ok job ↦ (
        ok (record { job = job; enqueued = true; reason = none }),
        record st {
          db = db;
          arq = (elim choose_runtime [ windows ↦ st.arq | cloud ↦ st.arq ++ job.id ∷ [] ]);
        },
      )
    ]

unfoldable pub assess_request : Services → Request → RiskAssessment
unfolding assess job_kind is_change
assess_request sv r =
    assess sv.patterns r.prompt (job_kind r.mode) (some r.repo.default_branch)
      (is_change (job_kind r.mode))

unfoldable pub dispatch_prompt :
    Services → State → (now id : ℕ) → Request → Result DispatchResult × State
unfolding text_eq strip display_text require_allowed assess_request is_high refuse enqueue job_kind
    is_change
dispatch_prompt sv st now id r =
    if not (text_eq (strip (sv.redact r.prompt)) (strip r.prompt))
    then refuse sv st now
        (blocked_job r id RiskLevel.blocked (text "Запрос содержит данные, похожие на секрет."))
        secret_input
    else elim (require_allowed sv.normalize sv.policies r.repo.github_url r.repo.default_branch
        (is_change (job_kind r.mode))) [
          | none ↦
              refuse sv st now
                (blocked_job r id RiskLevel.blocked (take 300 (strip (sv.redact (display_text r)))))
                not_allowed
          | some _ ↦
              let a = assess_request sv r in
              if a.is_blocked || is_high a.level
              then refuse sv st now
                  (blocked_job r id a.level (take 300 (strip (sv.redact (display_text r)))))
                  (by_policy a.reasons)
              else enqueue sv st now (queued_job sv r id a.level)
        ]
