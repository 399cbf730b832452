-- ===== src/Decisions/Started.antt =====
-- How a change job is started in src/beachops/services/approval_actions.py.
use beachops.Base.{
  ℕ, ◌≡◌, ◌≢◌, refl, ◌∙◌, ap, ◌⊎◌, inl, inr, false, none, some, [], ◌∷◌, ◌++◌, Text, find?-any-none,
  any, if◌then◌else◌, arith,
}
use beachops.Security.{Job, JobStatus}
use beachops.Database.{Db, Error, Result, ok, raise, status_in}
use beachops.Jobs.{NewJob, create, new_row, transition, owned, has_id, with_status}
use beachops.Jobs.Queries.{get}
use beachops.Jobs.Create.{
  create-cases, create-why, CannotCreate, added, get-added_old, get-added_new,
}
use beachops.Jobs.Transition.{transition-compare_and_set}
use beachops.Dispatch.{Services, State}
use beachops.Decisions.{Outcome, start_change}

-- An exception, and nothing written or handed over.
abbrev pub IsRaised : State → Result Outcome × State → Type 0
IsRaised st (result, st') = (e : Error) × (result ≡ raise e) × (st'.db ≡ st.db) × (st'.arq ≡ st.arq)

-- A row that is there has another identifier than a fresh one.
other_id :
    (db : Db) (a i k : ℕ) (j : Job) → get db a i ≡ some j → any (has_id k) db.jobs ≡ false → k ≢ i
unfolding get
other_id db a i k j found fresh same =
    let missing = find?-any-none (owned a i) (has_id k) db.jobs fresh (λ x h. ground arith) in
    absurd (ground arith)

-- The change job is in the database and handed over, and the job `i` of the actor `a`, which was
-- `j`, moved if its status was the expected one.
pub record IsStarted (redact : Text → Text) (now : ℕ) (st : State) (a i : ℕ) (j : Job) (n : NewJob)
    (from to : JobStatus) (outcome : Outcome) (out : Result Outcome × State) : Type 0 where
  pub result : out.0 ≡ ok outcome
  pub handed : out.1.arq ≡ st.arq ++ n.id ∷ []
  pub made : get out.1.db n.actor_id n.id ≡ some (new_row redact now n)
  pub decided :
      get out.1.db a i ≡ some (if status_in j.status (from ∷ []) then with_status to now j else j)

module _ (sv : Services) (st : State) (now : ℕ) (job : Job) (n : NewJob) (from to : JobStatus)
    (event_type : Text) (answer : ℕ → Outcome) where
  abbrev db1 : Db
  db1 = added sv.redact st.db now n

  abbrev moved_db : Db
  moved_db = (transition sv.redact db1 now job.actor_id job.id (from ∷ []) to event_type none).1

  pub start_change-made :
      create sv.redact st.db now n ≡ (ok (new_row sv.redact now n), db1)
      → start_change sv st now job n from to event_type answer
        ≡ (ok (answer n.id), record st { db = moved_db; arq = st.arq ++ n.id ∷ [] })
  unfolding start_change new_row
  start_change-made made =
      rw (made, start_change)
        (ap
          (λ (d : Db). (
            ok (answer n.id),
            record st {
              db =
                  (transition sv.redact d now job.actor_id job.id (from ∷ []) to event_type none).1;
              arq = st.arq ++ n.id ∷ [];
            },
          ))
          (ap (λ x. x.1) made))

  -- The transition moves the job if its status is `from`, and touches no other job.
  moved_db-decided :
      (j : Job)
      → get db1 job.actor_id job.id ≡ some j
      → n.id ≢ job.id
      → (get moved_db job.actor_id job.id
          ≡ some (if status_in j.status (from ∷ []) then with_status to now j else j))
        × (get moved_db n.actor_id n.id ≡ get db1 n.actor_id n.id)
  moved_db-decided j found apart =
      elim (transition-compare_and_set sv.redact db1 now job.actor_id job.id from [] to event_type
        none) [
          | inl (inl missing, kept) ↦ absurd (ground arith)
          | inl (inr (k, at_k, other), kept) ↦ (ground arith, ground arith)
          | inr (k, (at_k, expected), (answered, after, frame, event)) ↦
              (ground arith, frame n.actor_id n.id (inr apart))
        ]

  pub start_change-cases :
      (j : Job)
      → get st.db job.actor_id job.id ≡ some j
      → (IsRaised st (start_change sv st now job n from to event_type answer)
          × CannotCreate st.db n.id n.actor_id n.idempotency_key)
        ⊎ IsStarted sv.redact now st job.actor_id job.id j n from to
            (answer n.id)
            (start_change sv st now job n from to event_type answer)
  unfolding start_change
  start_change-cases j found = elim (create-cases sv.redact st.db now n) [
    | inl (e, broken) ↦
        inl
          ((e, ground arith, ground arith, ground arith), create-why sv.redact st.db now n e broken)
    | inr (fresh, new_key, known, made) ↦
        let apart = other_id st.db job.actor_id job.id n.id j found fresh in
        let (decided, kept) =
          moved_db-decided j (get-added_old sv.redact st.db now n job.actor_id job.id j found)
            apart in
        inr (
          rw (start_change-made made) (record {
            result = refl;
            handed = refl;
            made = kept ∙ get-added_new sv.redact st.db now n fresh;
            decided = decided;
          }))
  ]
