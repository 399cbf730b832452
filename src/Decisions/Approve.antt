-- ===== src/Decisions/Approve.antt =====
-- What an approved plan starts in src/beachops/services/approval_actions.py.
use beachops.Base.{
  ℕ, ◌≡◌, ◌≢◌, refl, ◌⊎◌, inl, inr, true, false, Option, is_empty, none, some, [], ◌∷◌, ◌++◌, text,
  Option-cases, if◌then◌else◌, arith,
}
use beachops.Security.{Job, JobKind, JobStatus, RiskLevel, do_mode, awaiting_approval}
use beachops.Database.{Result, ok, permission_error, value_error, status_in}
use beachops.Jobs.{new_row}
use beachops.Jobs.Queries.{get}
use beachops.Jobs.Create.{CannotCreate}
use beachops.RiskPolicy.{is_main}
use beachops.RepositoryPolicy.{require_allowed}
use beachops.RepositoryPolicy.Writes.{require_allowed-writes}
use beachops.Dispatch.{PromptBody, Services, State}
use beachops.Decisions.Started.{IsRaised, IsStarted, start_change-cases}
use beachops.Decisions.{Outcome, plan_approved, Crypto, or_blank, plan_job, approve_plan}

-- The change job of the approved plan `job`, whose row was `j` and whose payload was `source`, is in
-- the table and handed over, and the plan is approved if it was awaiting approval.
pub record IsApproved (sv : Services) (c : Crypto) (now id : ℕ) (st : State) (job j : Job)
    (source : PromptBody) (out : Result Outcome × State) : Type 0 where
  pub result : out.0 ≡ ok (plan_approved id)
  pub handed : out.1.arq ≡ st.arq ++ id ∷ []
  pub change : Job
  pub made : get out.1.db job.actor_id id ≡ some change
  pub owner : (change.id ≡ id) × (change.actor_id ≡ job.actor_id)
  pub what :
      (change.kind ≡ JobKind.change)
      × (change.status ≡ JobStatus.approved)
      × (change.risk_level ≡ RiskLevel.medium)
  pub where_to :
      (change.repository_url ≡ job.repository_url)
      × (change.branch ≡ job.branch)
      × (change.telegram_chat_id ≡ job.telegram_chat_id)
      × (change.runtime ≡ text "cloud")
  pub key : change.idempotency_key ≡ some (text "approval:" ++ c.show job.id)
  pub summary : change.summary ≡ sv.redact (text "Выполнение одобренного плана " ++ c.show job.id)
  pub payload :
      change.payload_ciphertext
      ≡ some (
          sv.encrypt (record source {
            prompt = text "Выполни одобренный план. Не выходи за его рамки.";
            mode = do_mode;
            approved_plan_job_id = some job.id;
          }))
  pub decided :
      get out.1.db job.actor_id job.id
      ≡ some (
          if status_in j.status (awaiting_approval ∷ [])
          then record j { status = JobStatus.approved; updated_at = now }
          else j)

module _ (sv : Services) (c : Crypto) (st : State) (now id : ℕ) (job : Job) where
  started-IsApproved :
      (j : Job) (source : PromptBody) {out : Result Outcome × State}
      → IsStarted sv.redact now st job.actor_id job.id j
          (plan_job sv c job source id)
          awaiting_approval
          JobStatus.approved
          (plan_approved id)
          out
      → IsApproved sv c now id st job j source out
  unfolding new_row is_empty
  started-IsApproved j source started = record {
    result = started.result;
    handed = started.handed;
    change = new_row sv.redact now (plan_job sv c job source id);
    made = started.made;
    owner = (refl, refl);
    what = (refl, refl, refl);
    where_to = (refl, refl, refl, refl);
    key = refl;
    summary = refl;
    payload = refl;
    decided = started.decided;
  }

  -- Approving a plan either starts its change job: the repository's policy allows writes to the
  -- branch, which is neither main nor master, and the payload could be decrypted; the change job is
  -- in the database, approved, of the plan's actor, repository and branch, with the plan's payload
  -- but in DO mode; it is handed to ARQ; and the plan is approved if it was awaiting approval.
  -- Whether it was is not asked: a plan in any other status keeps it, and the change job starts all
  -- the same. Or it raises and leaves everything as it was: then the policy forbids the branch, the
  -- payload cannot be decrypted, or the change job cannot be created, because its identifier or the
  -- plan's key is taken or the actor is no user.
  pub approve_plan_lem :
      (j : Job)
      → get st.db job.actor_id job.id ≡ some j
      → let allowed =
          require_allowed sv.normalize sv.policies
            (or_blank job.repository_url)
            (or_blank job.branch)
            true in
        let source = c.decrypt (or_blank job.payload_ciphertext) in
        (IsRaised st (approve_plan sv c st now id job)
          × ((allowed ≡ none)
              ⊎ (source ≡ none)
              ⊎ CannotCreate st.db id job.actor_id (some (text "approval:" ++ c.show job.id))))
        ⊎ ((allowed ≢ none)
            × (is_main (some (or_blank job.branch)) ≡ false)
            × ((body : PromptBody) × (source ≡ some body)
                × IsApproved sv c now id st job j body (approve_plan sv c st now id job)))
  unfolding approve_plan
  approve_plan_lem j found =
      elim (Option-cases (
        require_allowed sv.normalize sv.policies (or_blank job.repository_url) (or_blank job.branch)
          true)) [
            | inl bad ↦ inl ((permission_error, ground arith, ground arith, ground arith), inl bad)
            | inr (policy, allowed) ↦
                elim (Option-cases (c.decrypt (or_blank job.payload_ciphertext))) [
                  | inl bad ↦
                      inl ((value_error, ground arith, ground arith, ground arith), inr (inl bad))
                  | inr (body, read) ↦
                      let (free, _) =
                        require_allowed-writes sv.normalize sv.policies
                          (or_blank job.repository_url) (or_blank job.branch) policy allowed in
                      elim (start_change-cases sv st now job (plan_job sv c job body id)
                        awaiting_approval JobStatus.approved (text "approval.approved")
                        plan_approved j found) [
                          | inl (raised, why) ↦
                              inl (rw (allowed, read, approve_plan) raised, inr (inr why))
                          | inr started ↦ inr (
                            some-other allowed,
                            free,
                            (
                              body,
                              read,
                              rw (allowed, read, approve_plan) (started-IsApproved j body started),
                            ),
                          )
                        ]
                ]
          ]
    where
      some-other : {A : Type 0} {o : Option A} {x : A} → o ≡ some x → o ≢ none
      some-other e n = ground arith
