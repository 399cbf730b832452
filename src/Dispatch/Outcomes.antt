-- ===== src/Dispatch/Outcomes.antt =====
-- What src/beachops/services/durable_dispatch.py leaves in the tables and in ARQ: a blocked job, a
-- queued one, or none.
use beachops.Base.{
  ℕ, ◌≡◌, ◌⊎◌, refl, ap, ◌∙◌, inl, inr, true, false, none, some, [], ◌∷◌, ◌++◌, Text, text,
  is_empty, any,
}
use beachops.Security.{UserMode, ask, plan, do_mode, Job, JobKind, JobStatus, RiskLevel}
use beachops.Database.{Db, Error, Result, ok, raise, has_user}
use beachops.Jobs.{NewJob, new_row, has_id, same_key}
use beachops.Jobs.Create.{create-cases, create-why, get-added_old, get-added_new}
use beachops.Jobs.Queries.{get}
use beachops.Dispatch.{
  Reason, DispatchResult, Request, Services, State, job_kind, refuse, enqueue, queued_job,
  blocked_job, choose_runtime, runtime_value, channel_of,
}

abbrev pub kind_of : UserMode → JobKind
kind_of ask = JobKind.read
kind_of plan = JobKind.plan
kind_of do_mode = JobKind.change

job_kind-kind_of : (mode : UserMode) → job_kind mode ≡ kind_of mode
unfolding job_kind
job_kind-kind_of ask = refl
job_kind-kind_of plan = refl
job_kind-kind_of do_mode = refl

module _ (sv : Services) (st : State) (id : ℕ) (r : Request) where
  -- The job of the request.
  abbrev pub IsJob : Job → Type 0
  IsJob job =
      (job.id ≡ id)
      × (job.actor_id ≡ r.actor_id)
      × (job.kind ≡ kind_of r.mode)
      × (job.repository_url ≡ some r.repo.github_url)
      × (job.branch ≡ some r.repo.default_branch)
      × (job.idempotency_key ≡ r.idempotency_key)
      × (job.runtime ≡ text "cloud")

  -- The table has the job, and every job that it had.
  abbrev pub IsStored : Job → State → Type 0
  IsStored job after =
      (get after.db r.actor_id id ≡ some job)
      × ((b k : ℕ) (j : Job) → get st.db b k ≡ some j → get after.db b k ≡ some j)

  -- The job is in the table, blocked and without a payload, and nothing is handed to ARQ.
  pub record IsHeld (out : Result DispatchResult × State) : Type 0 where
    pub held : DispatchResult
    pub result : out.0 ≡ ok held
    pub flag : held.enqueued ≡ false
    pub job : IsJob held.job
    pub status : held.job.status ≡ JobStatus.blocked
    pub payload : held.job.payload_ciphertext ≡ none
    pub stored : IsStored held.job out.1
    pub handed : out.1.arq ≡ st.arq

  -- The job is in the table, queued and with the request as its payload, and it is handed to ARQ.
  pub record IsSent (out : Result DispatchResult × State) : Type 0 where
    pub sent : DispatchResult
    pub result : out.0 ≡ ok sent
    pub flag : sent.enqueued ≡ true
    pub job : IsJob sent.job
    pub status : sent.job.status ≡ JobStatus.queued
    pub payload :
        sent.job.payload_ciphertext
        ≡ some (
            sv.encrypt (record {
              prompt = r.prompt;
              mode = r.mode;
              slot_id = r.slot_id;
              repo_id = r.repo.id;
              runtime = text "cloud";
              channel = channel_of r.channel;
              approved_plan_job_id = r.approved_plan_job_id;
              images = r.images;
            }))
    pub chat : sent.job.telegram_chat_id ≡ some r.actor_id
    pub stored : IsStored sent.job out.1
    pub handed : out.1.arq ≡ st.arq ++ id ∷ []

  -- The identifier is taken, or the actor's idempotency key is, or the actor is no user: an exception,
  -- no job, and nothing is handed to ARQ.
  pub record IsFailed (out : Result DispatchResult × State) : Type 0 where
    pub error : Error
    pub result : out.0 ≡ raise error
    pub why :
        (any (has_id id) st.db.jobs ≡ true)
        ⊎ (any (same_key r.actor_id r.idempotency_key) st.db.jobs ≡ true)
        ⊎ (has_user st.db r.actor_id ≡ false)
    pub tables : out.1.db ≡ st.db
    pub handed : out.1.arq ≡ st.arq

module _ (sv : Services) (st : State) (now id : ℕ) (r : Request) (level : RiskLevel) where
  pub refuse-cases :
      (summary : Text) (why : Reason)
      → IsHeld sv st id r (refuse sv st now (blocked_job r id level summary) why)
        ⊎ IsFailed sv st id r (refuse sv st now (blocked_job r id level summary) why)
  unfolding refuse new_row is_empty
  refuse-cases summary why =
      let n : NewJob = blocked_job r id level summary in
      elim (create-cases sv.redact st.db now n) [
        | inl (e, broken) ↦ inr (record {
          error = e;
          result = rw (broken, refuse) refl;
          why = create-why sv.redact st.db now n e broken;
          tables = ap (λ x. x.1) broken;
          handed = refl;
        })
        | inr (fresh, new_key, known, made) ↦ inl (record {
          held = record { job = new_row sv.redact now n; enqueued = false; reason = some why };
          result = rw (made, refuse) refl;
          flag = refl;
          job = (refl, refl, job_kind-kind_of r.mode, refl, refl, refl, refl);
          status = refl;
          payload = refl;
          stored =
              rw (made, refuse)
                (get-added_new sv.redact st.db now n fresh, get-added_old sv.redact st.db now n);
          handed = refl;
        })
      ]

  pub enqueue-cases :
      IsSent sv st id r (enqueue sv st now (queued_job sv r id level))
      ⊎ IsFailed sv st id r (enqueue sv st now (queued_job sv r id level))
  unfolding enqueue new_row choose_runtime runtime_value is_empty
  enqueue-cases =
      let n : NewJob = queued_job sv r id level in
      elim (create-cases sv.redact st.db now n) [
        | inl (e, broken) ↦ inr (record {
          error = e;
          result = rw (broken, enqueue) refl;
          why = create-why sv.redact st.db now n e broken;
          tables = rw (broken, enqueue) (ap (λ x. x.1) broken);
          handed = rw (broken, enqueue) refl;
        })
        | inr (fresh, new_key, known, made) ↦ inl (record {
          sent = record { job = new_row sv.redact now n; enqueued = true; reason = none };
          result = rw (made, enqueue) refl;
          flag = refl;
          job = (refl, refl, job_kind-kind_of r.mode, refl, refl, refl, refl);
          status = refl;
          payload = refl;
          chat = refl;
          stored =
              rw (made, enqueue)
                (
                  ap (λ (x : Result Job × Db). get x.1 r.actor_id id) made
                      ∙ get-added_new sv.redact st.db now n fresh,
                  λ b k j h.
                      ap (λ (x : Result Job × Db). get x.1 b k) made
                      ∙ get-added_old sv.redact st.db now n b k j h,
                );
          handed = rw (made, enqueue) refl;
        })
      ]
