-- ===== src/Decisions/Once.antt =====
-- A plan that is approved again: src/beachops/services/approval_actions.py.
use beachops.Base.{
  ℕ, ◌≡◌, refl, sym, ◌∙◌, ap, inl, inr, true, none, some, [], ◌∷◌, Text, text, Option-cases, arith,
  ◌++◌,
}
use beachops.Security.{Job, JobStatus, awaiting_approval}
use beachops.Database.{Db, Error, ok, raise, permission_error, value_error, unique_violation}
use beachops.Jobs.{NewJob, create, new_row, transition}
use beachops.Jobs.Create.{create-cases}
use beachops.Jobs.Audit.{transitions}
use beachops.Jobs.History.{History, begin, later, writes}
use beachops.Jobs.Once.{create_once}
use beachops.RepositoryPolicy.{require_allowed}
use beachops.Dispatch.{PromptBody, Services, State}
use beachops.Decisions.{
  Outcome, plan_approved, Crypto, or_blank, plan_job, start_change, approve_plan,
}
use beachops.Decisions.Started.{IsRaised, start_change-made}

History-append :
    {redact : Text → Text} {start : ℕ → ℕ → JobStatus} {t u v : Db}
    → History redact start t u
    → History redact start u v
    → History redact start t v
History-append r begin = r
History-append r (later s step) = later (History-append r s) step

module _ (sv : Services) (st : State) (now : ℕ) (job : Job) (n : NewJob) (from to : JobStatus)
    (event_type : Text) (answer : ℕ → Outcome) where
  abbrev after_create : Db
  after_create = (create sv.redact st.db now n).1

  -- What succeeds has created its job, and then made one transition.
  start_change-created :
      (o : Outcome)
      → (start_change sv st now job n from to event_type answer).0 ≡ ok o
      → ((create sv.redact st.db now n).0 ≡ ok (new_row sv.redact now n))
        × ((start_change sv st now job n from to event_type answer).1.db
            ≡ (transition sv.redact after_create now job.actor_id job.id
                (from ∷ [])
                to
                event_type
                none).1)
  unfolding start_change
  start_change-created o h = elim (create-cases sv.redact st.db now n) [
    | inl (e, broken) ↦ absurd (ground arith)
    | inr (fresh, new_key, known, made) ↦ (
      ap (λ x. x.0) made,
      ap (λ x. x.1.db) (start_change-made sv st now job n from to event_type answer made)
          ∙ ap
              (λ (d : Db).
                (transition sv.redact d now job.actor_id job.id (from ∷ []) to event_type none).1)
              (sym (ap (λ x. x.1) made)),
    )
  ]

  start_change-raises :
      (e : Error)
      → create sv.redact st.db now n ≡ (raise e, st.db)
      → IsRaised st (start_change sv st now job n from to event_type answer)
  unfolding start_change
  start_change-raises e broken = (e, ground arith, ground arith, ground arith)

approve_plan-started :
    (sv : Services) (c : Crypto) (st : State) (now id : ℕ) (job : Job) (o : Outcome)
    → (approve_plan sv c st now id job).0 ≡ ok o
    → (source : PromptBody) × (approve_plan sv c st now id job
        ≡ start_change sv st now job
            (plan_job sv c job source id)
            awaiting_approval
            JobStatus.approved
            (text "approval.approved")
            plan_approved)
unfolding approve_plan
approve_plan-started sv c st now id job o h =
    elim (Option-cases (
      require_allowed sv.normalize sv.policies (or_blank job.repository_url) (or_blank job.branch)
        true)) [
          | inl bad ↦ absurd (ground arith)
          | inr (policy, allowed) ↦
              elim (Option-cases (c.decrypt (or_blank job.payload_ciphertext))) [
                | inl bad ↦ absurd (ground arith)
                | inr (source, read) ↦ (source, rw (allowed, read, approve_plan) refl)
              ]
        ]

-- A plan starts one change job at most. After it has been approved with success, and whatever is
-- written to jobs and events later, approving it again raises, writes nothing and hands nothing over,
-- with whatever row the caller has read for it.
pub approve_plan_once :
    (sv : Services) (c : Crypto) (start : ℕ → ℕ → JobStatus) (st t : State)
    (now id again_at second : ℕ) (job again : Job) (o : Outcome)
    → again.actor_id ≡ job.actor_id
    → again.id ≡ job.id
    → (approve_plan sv c st now id job).0 ≡ ok o
    → History sv.redact start (approve_plan sv c st now id job).1.db t.db
    → IsRaised t (approve_plan sv c t again_at second again)
unfolding approve_plan
approve_plan_once sv c start st t now id again_at second job again o actor same h r =
    let (source, started) = approve_plan-started sv c st now id job o h in
    let n : NewJob = plan_job sv c job source id in
    let (made, moved) =
      start_change-created sv st now job n awaiting_approval JobStatus.approved
        (text "approval.approved") plan_approved o (sym (ap (λ x. x.0) started) ∙ h) in
    let first : History sv.redact start (create sv.redact st.db now n).1
        (approve_plan sv c st now id job).1.db =
      later begin (
        writes (
          transitions now job.actor_id job.id (awaiting_approval ∷ []) JobStatus.approved
            (text "approval.approved") none (ap (λ x. x.1.db) started ∙ moved))) in
    elim (Option-cases (
      require_allowed sv.normalize sv.policies (or_blank again.repository_url)
        (or_blank again.branch) true)) [
          | inl bad ↦ (permission_error, ground arith, ground arith, ground arith)
          | inr (policy, allowed) ↦
              elim (Option-cases (c.decrypt (or_blank again.payload_ciphertext))) [
                | inl bad ↦ (value_error, ground arith, ground arith, ground arith)
                | inr (body, read) ↦
                    rw (allowed, read, approve_plan)
                      (start_change-raises sv t again_at again (plan_job sv c again body second)
                        awaiting_approval JobStatus.approved (text "approval.approved")
                        plan_approved unique_violation
                        (create_once sv.redact start st.db t.db now again_at n
                          (plan_job sv c again body second) (text "approval:" ++ c.show job.id)
                          (new_row sv.redact now n) refl
                          (ap (λ i. some (text "approval:" ++ c.show i)) same) actor made
                          (History-append first r)))
              ]
        ]
