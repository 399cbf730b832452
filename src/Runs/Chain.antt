-- ===== src/Runs/Chain.antt =====
-- What src/beachops/services/run_finalizer.py writes to the table of jobs.
use beachops.Base.{
  ℕ, ◌+◌, ◌*◌, ◌==◌, ◌≡◌, refl, ◌∙◌, inl, inr, true, false, ◌&&◌, ◌||◌, Option, none, some, List,
  [], ◌∷◌, Text, text, any, Bool-cases, Option-cases, arith,
}
use beachops.Redaction.{Json}
use beachops.Security.{
  UserMode, Job, JobStatus, plan_execution, awaiting_approval, planning, running,
}
use beachops.Database.{Db, Result-cases}
use beachops.Jobs.{NewJob, create, transition}
use beachops.Jobs.Queries.{get_internal}
use beachops.Jobs.Audit.{Step, creates, transitions, runs, results}
use beachops.Jobs.Unique.{IsUnique, Rewrites, same, Step-Rewrites, Rewrites-IsUnique}
use beachops.Jobs.Finalize.{IsFinalized, Rewrites-IsFinalized}
use beachops.Approvals
use beachops.Approvals.{conflicts}
use beachops.Tokens.{issue_for_recipient}
use beachops.RepositoryPolicy.{require_allowed}
use beachops.Dispatch.{Services, State}
use beachops.Decisions.{
  Outcome, plan_approved, Crypto, or_blank, plan_job, start_change, approve_plan, approve_job,
}
use beachops.Runs.{
  App, Tools, RunOutcome, StreamState, is_plan, is_success, ensure_owner, distinct_ids, owner_ids,
  notify_owner, notify_owners, request_approval, kind_details, auto_approve, request_plan,
  finalize_plan, verdict, settle, settle_details, active_statuses, columns_of, conclude, store_run,
  finish,
}

-- Writes to the jobs, one after another.
pub data Chain (t : Db) : Db → Type 0 where
  stay : Chain t t
  and_then : {u v : Db} → Chain t u → Rewrites u v → Chain t v

pub Chain-trans : {t u v : Db} → Chain t u → Chain u v → Chain t v
Chain-trans c stay = c
Chain-trans c (and_then d r) = and_then (Chain-trans c d) r

pub Chain-keeps :
    (a i n : ℕ) {t u : Db}
    → Chain t u
    → IsUnique t
    → IsFinalized t a i n
    → IsUnique u × IsFinalized u a i n
Chain-keeps a i n stay unique final = (unique, final)
Chain-keeps a i n (and_then c r) unique final =
    let (kept, still) = Chain-keeps a i n c unique final in
    (Rewrites-IsUnique r kept, Rewrites-IsFinalized a i n r still)

same-Chain : {t u : Db} → u.jobs ≡ t.jobs → Chain t u
same-Chain e = and_then stay (same e)

pub Step-Chain :
    (redact : Text → Text) (start : ℕ → ℕ → JobStatus) {t u : Db}
    → Step redact start t u
    → Chain t u
Step-Chain redact start s = and_then stay (Step-Rewrites s)

transition-Chain :
    (redact : Text → Text) (db : Db) (now a i : ℕ) (from : List JobStatus) (to : JobStatus)
    (event_type : Text) (details : Option Json)
    → Chain db (transition redact db now a i from to event_type details).1
transition-Chain redact db now a i from to event_type details =
    Step-Chain redact (λ x y. to) (transitions now a i from to event_type details refl)

start_change-Chain :
    (sv : Services) (st : State) (now : ℕ) (job : Job) (n : NewJob) (from to : JobStatus)
    (event_type : Text) (answer : ℕ → Outcome)
    → Chain st.db (start_change sv st now job n from to event_type answer).1.db
unfolding start_change
start_change-Chain sv st now job n from to event_type answer =
    let created : Chain st.db (create sv.redact st.db now n).1 =
      Step-Chain sv.redact (λ x y. n.status) (creates now n refl refl) in
    elim (Result-cases (create sv.redact st.db now n).0) [
      | inl (e, refused) ↦ rw (refused, start_change) created
      | inr (change, made) ↦
          rw (made, start_change)
            (Chain-trans created
              (transition-Chain sv.redact _ now job.actor_id job.id (from ∷ []) to event_type none))
    ]

approve_plan-Chain :
    (sv : Services) (c : Crypto) (st : State) (now id : ℕ) (job : Job)
    → Chain st.db (approve_plan sv c st now id job).1.db
unfolding approve_plan
approve_plan-Chain sv c st now id job =
    elim (Option-cases (
      require_allowed sv.normalize sv.policies (or_blank job.repository_url) (or_blank job.branch)
        true)) [
          | inl refused ↦ rw (refused, approve_plan) stay
          | inr (p, allowed) ↦ elim (Option-cases (c.decrypt (or_blank job.payload_ciphertext))) [
            | inl sealed ↦ rw (allowed, sealed, approve_plan) stay
            | inr (source, opened) ↦
                rw (allowed, opened, approve_plan)
                  (start_change-Chain sv st now job (plan_job sv c job source id) awaiting_approval
                    JobStatus.approved (text "approval.approved") plan_approved)
          ]
        ]

approve_job-Chain :
    (sv : Services) (c : Crypto) (st : State) (now id : ℕ) (job : Job)
    → Chain st.db (approve_job sv c st now id job plan_execution).1.db
unfolding approve_job
approve_job-Chain sv c st now id job = approve_plan-Chain sv c st now id job

module _ (k : Tools) (now : ℕ) where
  auto_approve-Chain : (st : State) (id a i : ℕ) → Chain st.db (auto_approve k st now id a i).db
  unfolding auto_approve
  auto_approve-Chain st id a i =
      let db : Db =
        request_approval k st.db now a i (text "approval.auto_requested") (kind_details true) in
      let asked : Chain st.db db =
        transition-Chain k.services.redact st.db now a i (planning ∷ running ∷ []) awaiting_approval
          (text "approval.auto_requested") (some (kind_details true)) in
      elim (Option-cases (get_internal db i)) [
        | inl gone ↦ rw (gone, auto_approve) asked
        | inr (j, found) ↦
            rw (found, auto_approve)
              (Chain-trans asked
                (approve_job-Chain k.services k.crypto (record st { db = db }) now id j))
      ]

  ensure_owner-jobs : (db : Db) (o : ℕ) → (ensure_owner db o).jobs ≡ db.jobs
  unfolding ensure_owner
  ensure_owner-jobs db o = ground arith

  issue_for_recipient-jobs :
      (db : Db) (owner recipient i : ℕ) (action : Text) (ttl : ℕ) (token : Text)
      → (issue_for_recipient k.digest db now owner recipient i action ttl token).1.jobs ≡ db.jobs
  unfolding issue_for_recipient
  issue_for_recipient-jobs db owner recipient i action ttl token = ground arith

  notify_owner-jobs :
      (db : Db) (a i : ℕ) (tokens : ℕ → Text × Text) (o : ℕ)
      → (notify_owner k db now a i tokens o).1.jobs ≡ db.jobs
  unfolding notify_owner
  notify_owner-jobs db a i tokens o =
      let ttl : ℕ = k.settings.callback_token_ttl_sec in
      let ready : Db = ensure_owner db o in
      let first = issue_for_recipient k.digest ready now a o i (text "approve") ttl (tokens o).0 in
      let kept : first.1.jobs ≡ db.jobs =
        issue_for_recipient-jobs ready a o i (text "approve") ttl (tokens o).0
        ∙ ensure_owner-jobs db o in
      let again : (issue_for_recipient k.digest first.1 now a o i (text "reject") ttl
            (tokens o).1).1.jobs
          ≡ db.jobs =
        issue_for_recipient-jobs first.1 a o i (text "reject") ttl (tokens o).1 ∙ kept in
      elim (Result-cases first.0) [
        | inl (e, refused) ↦ rw (refused, notify_owner) kept
        | inr (t, issued) ↦
            elim (Result-cases
              (issue_for_recipient k.digest first.1 now a o i (text "reject") ttl (tokens o).1).0) [
                | inl (e, refused) ↦ rw (issued, refused, notify_owner) again
                | inr (u, also) ↦ rw (issued, also, notify_owner) again
              ]
      ]

  notify_owners-jobs :
      (db : Db) (a i : ℕ) (tokens : ℕ → Text × Text) (os : List ℕ)
      → (notify_owners k db now a i tokens os).1.jobs ≡ db.jobs
  unfolding notify_owners
  notify_owners-jobs db a i tokens [] = refl
  notify_owners-jobs db a i tokens (o ∷ os) =
      elim (Result-cases (notify_owner k db now a i tokens o).0) [
        | inl (e, refused) ↦ rw (refused, notify_owners) (notify_owner-jobs db a i tokens o)
        | inr (done, told) ↦
            rw (told, notify_owners)
              (notify_owners-jobs (notify_owner k db now a i tokens o).1 a i tokens os
                ∙ notify_owner-jobs db a i tokens o)
      ]

  approval-jobs :
      (db : Db) (a i expires_at id : ℕ)
      → (Approvals.create db now a i plan_execution expires_at id).1.jobs ≡ db.jobs
  unfolding Approvals.create
  approval-jobs db a i expires_at id = ground arith

  request_plan-Chain :
      (db : Db) (id a i : ℕ) (tokens : ℕ → Text × Text)
      → Chain db (request_plan k db now id a i tokens).1
  unfolding request_plan
  request_plan-Chain db id a i tokens =
      let made = Approvals.create db now a i plan_execution (now + 30 * 60) id in
      let created : Chain db made.1 = same-Chain (approval-jobs db a i (now + 30 * 60) id) in
      elim (Result-cases made.0) [
        | inl (e, refused) ↦ rw (refused, request_plan) created
        | inr (found, accepted) ↦ elim (Option-cases found) [
          | inl foreign ↦ rw (accepted, foreign, request_plan) created
          | inr (approval, fresh) ↦
              let asked : Db =
                request_approval k made.1 now a i (text "approval.requested")
                  (kind_details false) in
              rw (accepted, fresh, request_plan)
                (Chain-trans created (
                  Chain-trans
                    (transition-Chain k.services.redact made.1 now a i (planning ∷ running ∷ [])
                      awaiting_approval (text "approval.requested") (some (kind_details false)))
                    (same-Chain (
                      notify_owners-jobs asked a i tokens
                        (distinct_ids [] (owner_ids k.settings))))))
        ]
      ]

  finalize_plan-Chain :
      (st : State) (id a i : ℕ) (tokens : ℕ → Text × Text)
      → Chain st.db (finalize_plan k st now id a i tokens).1.db
  unfolding finalize_plan
  finalize_plan-Chain st id a i tokens =
      elim (Bool-cases
        (k.settings.auto_approve_plans || any (λ o. o == a) (owner_ids k.settings))) [
          | inl auto ↦ rw (auto, finalize_plan) (auto_approve-Chain st id a i)
          | inr asks ↦ rw (asks, finalize_plan) (request_plan-Chain st.db id a i tokens)
        ]

  pub settle-Chain :
      (db : Db) (a i : ℕ) (outcome : RunOutcome) → Chain db (settle k db now a i outcome)
  unfolding settle
  settle-Chain db a i outcome =
      transition-Chain k.services.redact db now a i active_statuses (verdict outcome).0
        (verdict outcome).1 (settle_details outcome)

  conclude-Chain :
      (st : State) (id a i : ℕ) (mode : UserMode) (outcome : RunOutcome) (tokens : ℕ → Text × Text)
      → Chain st.db (conclude k st now id a i mode outcome tokens).1.db
  unfolding conclude
  conclude-Chain st id a i mode outcome tokens =
      elim (Bool-cases (is_plan mode && is_success outcome)) [
        | inl planned ↦ rw (planned, conclude) (finalize_plan-Chain st id a i tokens)
        | inr other ↦ rw (other, conclude) (settle-Chain st.db a i outcome)
      ]

  pub store_run-Chain : (db : Db) (a i : ℕ) (s : StreamState) → Chain db (store_run k db now a i s)
  unfolding store_run
  store_run-Chain db a i s =
      Chain-trans (Step-Chain k.services.redact (λ x y. running) (results now a i s.result refl))
        (Step-Chain k.services.redact (λ x y. running) (runs now a i (columns_of s) refl))

  pub finish-Chain :
      (w : App) (id i a : ℕ) (mode : UserMode) (outcome : RunOutcome) (tokens : ℕ → Text × Text)
      → Chain w.st.db (finish k w now id i a mode outcome tokens).1.st.db
  unfolding finish
  finish-Chain w id i a mode outcome tokens =
      let db : Db = store_run k w.st.db now a i outcome.state in
      let stored : Chain w.st.db db = store_run-Chain w.st.db a i outcome.state in
      let st : State = record w.st { db = db } in
      let ended = conclude k st now id a i mode outcome tokens in
      let concluded : Chain w.st.db ended.1.db =
        Chain-trans stored (conclude-Chain st id a i mode outcome tokens) in
      elim (Option-cases (get_internal db i)) [
        | inl gone ↦ rw (gone, finish) stored
        | inr (j, found) ↦ elim (Result-cases ended.0) [
          | inl (e, refused) ↦ rw (found, refused, finish) concluded
          | inr (done, told) ↦ rw (found, told, finish) concluded
        ]
      ]
