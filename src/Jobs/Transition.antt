-- ===== src/Jobs/Transition.antt =====
-- `transition` of src/beachops/db/repositories/jobs.py on each of its branches.
use beachops.Base.{
  ℕ, ◌≡◌, refl, ◌≢◌, ◌⊎◌, inl, inr, true, false, Option, none, some, List, [], ◌∷◌, ◌++◌, Text,
  find?-sound, find?-update_where_ne, find?-update_where, Bool-cases, Option-cases, arith,
}
use beachops.Security.{Job, JobStatus}
use beachops.Redaction.{Json}
use beachops.Database.{Result, ok, Db, JobEvent, status_in}
use beachops.Jobs.{owned, with_status, transition_row, transition}
use beachops.Jobs.Queries.{get}

-- The event that a transition of `j` appends.
abbrev pub Records : ℕ → Job → JobStatus → JobEvent → Type 0
Records now j to_status e =
    (e.job_id ≡ j.id)
    × (e.actor_id ≡ j.actor_id)
    × (e.from_status ≡ some j.status)
    × (e.to_status ≡ some to_status)
    × (e.created_at ≡ now)

pub owned_refl : (j : Job) → owned j.actor_id j.id j ≡ true
owned_refl j = ground arith

pub owned-apart :
    (a i b k : ℕ) → (b ≢ a) ⊎ (k ≢ i) → (x : Job) → owned a i x ≡ true → owned b k x ≡ false
owned-apart a i b k apart x h = ground arith

module _ (redact : Text → Text) (db : Db) (now : ℕ) (current : Job) (to_status : JobStatus)
    (event_type : Text) (details : Option Json) where
  abbrev after : Db
  after = (transition_row redact db now current to_status event_type details).1

  transition_row_self :
      (actor_id job_id : ℕ)
      → get db actor_id job_id ≡ some current
      → get after actor_id job_id ≡ some (with_status to_status now current)
  unfolding transition_row get
  transition_row_self actor_id job_id h = ground (
    arith,
    find?-update_where (owned current.actor_id current.id) (owned actor_id job_id)
        (with_status to_status now) db.jobs (λ x. refl),
    owned_refl current,
  )

  transition_row-frame :
      (b k : ℕ) → (b ≢ current.actor_id) ⊎ (k ≢ current.id) → get after b k ≡ get db b k
  unfolding transition_row get
  transition_row-frame b k apart =
      find?-update_where_ne (owned current.actor_id current.id) (owned b k)
        (with_status to_status now) db.jobs (λ x. refl)
        (owned-apart current.actor_id current.id b k apart)

  transition_row-event :
      (e : JobEvent) × (after.job_events ≡ db.job_events ++ e ∷ [])
      × Records now current to_status e
  unfolding transition_row
  transition_row-event = (_, refl, (refl, refl, refl, refl, refl))

module _ (db : Db) (actor_id job_id : ℕ) (s : JobStatus) (from : List JobStatus) where
  -- The actor has no such job, or its status is not expected.
  abbrev pub Refused : Type 0
  Refused =
      (get db actor_id job_id ≡ none)
      ⊎ ((j : Job) × (get db actor_id job_id ≡ some j) × (status_in j.status (s ∷ from) ≡ false))

  abbrev pub Accepted : Job → Type 0
  Accepted j = (get db actor_id job_id ≡ some j) × (status_in j.status (s ∷ from) ≡ true)

  pub Accepted-ids : (j : Job) → Accepted j → (j.actor_id ≡ actor_id) × (j.id ≡ job_id)
  unfolding get
  Accepted-ids j h =
      let o : owned actor_id job_id j ≡ true = find?-sound (owned actor_id job_id) db.jobs h.0 in
      (ground arith, ground arith)

-- What an accepted transition does to the tables.
abbrev pub Moves :
    Db → (now actor_id job_id : ℕ) → JobStatus → Job → Result (Option Job) × Db → Type 0
Moves db now actor_id job_id to_status j (r, db') =
    (r ≡ ok (some (with_status to_status now j)))
    × (get db' actor_id job_id ≡ some (with_status to_status now j))
    × ((b k : ℕ) → (b ≢ actor_id) ⊎ (k ≢ job_id) → get db' b k ≡ get db b k)
    × ((e : JobEvent) × (db'.job_events ≡ db.job_events ++ e ∷ []) × Records now j to_status e)

module _ (redact : Text → Text) (db : Db) (now actor_id job_id : ℕ) (s : JobStatus)
    (from : List JobStatus) (to_status : JobStatus) (event_type : Text)
    (details : Option Json) where
  abbrev result : Result (Option Job) × Db
  result = transition redact db now actor_id job_id (s ∷ from) to_status event_type details

  pub transition-cases :
      (Refused db actor_id job_id s from × (result ≡ (ok none, db)))
      ⊎ ((j : Job) × Accepted db actor_id job_id s from j
          × (result ≡ transition_row redact db now j to_status event_type details))
  unfolding transition get
  transition-cases = elim (Option-cases (get db actor_id job_id)) [
    | inl missing ↦ inl (inl missing, ground arith)
    | inr (j, found) ↦ elim (Bool-cases (status_in j.status (s ∷ from))) [
      | inl expected ↦ inr (j, (found, expected), ground arith)
      | inr other ↦ inl (inr (j, found, other), ground arith)
    ]
  ]

  pub transition_row-Moves :
      (j : Job)
      → Accepted db actor_id job_id s from j
      → Moves db now actor_id job_id to_status j
          (transition_row redact db now j to_status event_type details)
  unfolding transition_row
  transition_row-Moves j h =
      let (a, i) = Accepted-ids db actor_id job_id s from j h in
      (
        refl,
        transition_row_self redact db now j to_status event_type details actor_id job_id h.0,
        λ b k apart.
            transition_row-frame redact db now j to_status event_type details b k (ground arith),
        transition_row-event redact db now j to_status event_type details,
      )

  -- With a non-empty list of expected statuses, `transition` does one of two things. Either the
  -- actor has no such job, or its status is not expected: it returns no job and changes nothing. Or
  -- the status is expected: the job has the new status, it is returned, no other row changes, and
  -- one event is appended, which names the old and the new status.
  pub transition-compare_and_set :
      (Refused db actor_id job_id s from × (result ≡ (ok none, db)))
      ⊎ ((j : Job) × Accepted db actor_id job_id s from j
          × Moves db now actor_id job_id to_status j result)
  transition-compare_and_set = elim transition-cases [
    | inl refused ↦ inl refused
    | inr (j, accepted, moved) ↦ inr (j, accepted, rw moved (transition_row-Moves j accepted))
  ]
