-- ===== src/Jobs/Claims.antt =====
-- `claim_for_worker` of src/beachops/db/repositories/jobs.py: which job it takes, and what a
-- second claim takes.
use beachops.Base.{
  ℕ, ◌≤◌, ◌≡◌, refl, sym, ◌∙◌, ◌≢◌, ◌⊎◌, inl, inr, Bool, true, false, none, some, Text, All,
  All-update_where, All-every, All-head, All-filter, All-sort_by, of-All-filter, filter-All, find?,
  find?-sound, find?-update_where, find?-update_where_ne, update_where, filter, filter-nil,
  sort_by-ne-nil, head?-sort_by-le, Distinct-find?, Option-cases, arith,
}
use beachops.Security.{Job, running}
use beachops.Database.{Db, status_in}
use beachops.Jobs.{has_id}
use beachops.Jobs.Queries.{get_internal, waiting_statuses}
use beachops.Jobs.Queue.{is_claimable, next_claim, claim_for_worker, with_claim}
use beachops.Jobs.Unique.{IsUnique, same_id, same_id_comm}

module _ (locked : ℕ → Bool) (db : Db) (worker : ℕ) (runtime : Text) where
  abbrev claimable : Job → Bool
  claimable = is_claimable locked worker runtime

  -- The row is claimable and no claimable row is older.
  abbrev pub IsOldest : Job → Type 0
  IsOldest row =
      (is_claimable locked worker runtime row ≡ true)
      × All (λ j. is_claimable locked worker runtime j ≡ true → row.created_at ≤ j.created_at)
          db.jobs

  next_claim-All :
      (P : Job → Type 0)
      → All P db.jobs
      → (row : Job) → next_claim locked db worker runtime ≡ some row
      → P row
  unfolding next_claim
  next_claim-All P all row h =
      All-head P _ (All-sort_by P _ _ (All-filter P claimable db.jobs all)) h

  next_claim-IsOldest : (row : Job) → next_claim locked db worker runtime ≡ some row → IsOldest row
  unfolding next_claim
  next_claim-IsOldest row h = (
    All-head (λ j. claimable j ≡ true) _
        (All-sort_by (λ j. claimable j ≡ true) _ _ (filter-All claimable db.jobs)) h,
    of-All-filter (λ j. row.created_at ≤ j.created_at) claimable db.jobs
        (head?-sort_by-le (λ (j : Job). j.created_at) (filter claimable db.jobs) h),
  )

  next_claim-none :
      next_claim locked db worker runtime ≡ none
      → All (λ j. is_claimable locked worker runtime j ≡ false) db.jobs
  unfolding next_claim
  next_claim-none h = filter-nil claimable db.jobs (sort_by-ne-nil _ _ h)

  -- With unique identifiers, the claim takes the oldest claimable job: it is returned running, owned
  -- by the worker, with one attempt more, and no other job changes. If no job is claimable, nothing
  -- is returned and nothing changes.
  pub claim_for_worker_lem :
      (now : ℕ)
      → IsUnique db
      → let (claimed, db') = claim_for_worker locked db now worker runtime in
        (All (λ j. is_claimable locked worker runtime j ≡ false) db.jobs
          × (claimed ≡ none)
          × (db' ≡ db))
        ⊎ ((row : Job) × IsOldest row
            × (get_internal db row.id ≡ some row)
            × (claimed ≡ some (with_claim worker now row))
            × (get_internal db' row.id ≡ some (with_claim worker now row))
            × ((k : ℕ) → k ≢ row.id → get_internal db' k ≡ get_internal db k))
  unfolding claim_for_worker get_internal
  claim_for_worker_lem now u = elim (Option-cases (next_claim locked db worker runtime)) [
    | inl nothing ↦ inl (next_claim-none nothing, ground arith, ground arith)
    | inr (row, next) ↦
        let found : find? (has_id row.id) db.jobs ≡ some row =
          next_claim-All (λ j. find? (has_id j.id) db.jobs ≡ some j)
            (Distinct-find? same_id db.jobs (λ j. ground arith) same_id_comm u.ids) row next in
        inr (
          row,
          next_claim-IsOldest row next,
          found,
          ground arith,
          ground (
            arith,
            find?-update_where (has_id row.id) (has_id row.id) (with_claim worker now) db.jobs
                (λ x. refl),
          ),
          λ k other. ground (
            arith,
            find?-update_where_ne (has_id row.id) (has_id k) (with_claim worker now) db.jobs
                (λ x. refl) (λ x h. ground arith),
          ),
        )
  ]

claim-some :
    (locked : ℕ → Bool) (db : Db) (now worker : ℕ) (runtime : Text) (c : Job) (db' : Db)
    → claim_for_worker locked db now worker runtime ≡ (some c, db')
    → (row : Job) × (next_claim locked db worker runtime ≡ some row)
      × (c.id ≡ row.id)
      × (db'.jobs ≡ update_where (has_id row.id) (with_claim worker now) db.jobs)
unfolding claim_for_worker
claim-some locked db now worker runtime c db' h =
    elim (Option-cases (next_claim locked db worker runtime)) [
      | inl nothing ↦ absurd (ground arith)
      | inr (row, next) ↦ elim (Option-cases (find? (has_id row.id) db.jobs)) [
        | inl lost ↦ absurd (ground arith)
        | inr (x, found) ↦
            let same : has_id row.id x ≡ true = find?-sound (has_id row.id) db.jobs found in
            (row, next, ground arith, ground arith)
      ]
    ]

-- Every row with the identifier that a claim returns is running.
claimed-running :
    (locked : ℕ → Bool) (db : Db) (now worker : ℕ) (runtime : Text) (c : Job) (db' : Db)
    → claim_for_worker locked db now worker runtime ≡ (some c, db')
    → All (λ j. j.id ≡ c.id → j.status ≡ running) db'.jobs
claimed-running locked db now worker runtime c db' h =
    let (row, next, id, rows) = claim-some locked db now worker runtime c db' h in
    rw rows (
      All-update_where (λ j. j.id ≡ c.id → j.status ≡ running) (has_id row.id)
        (with_claim worker now) db.jobs (λ x e i. refl)
        (All-every (λ x. has_id row.id x ≡ false → x.id ≡ c.id → x.status ≡ running)
          (λ x e i. absurd (ground arith)) db.jobs))

claimable-not_running :
    (locked : ℕ → Bool) (worker : ℕ) (runtime : Text) (j : Job)
    → is_claimable locked worker runtime j ≡ true
    → j.status ≢ running
unfolding is_claimable status_in
claimable-not_running locked worker runtime j h e =
    let waits : status_in j.status waiting_statuses ≡ true = ground arith in
    let runs : status_in running waiting_statuses ≡ false = refl in cc

-- Two claims one after the other, by any workers at any times, never take the same job.
pub claims-apart :
    (locked locked' : ℕ → Bool) (db : Db) (now later worker other : ℕ) (runtime runtime' : Text)
    (c d : Job) (db' db'' : Db)
    → claim_for_worker locked db now worker runtime ≡ (some c, db')
    → claim_for_worker locked' db' later other runtime' ≡ (some d, db'')
    → d.id ≢ c.id
claims-apart locked locked' db now later worker other runtime runtime' c d db' db'' h k same =
    let (row, next, id, rows) = claim-some locked' db' later other runtime' d db'' k in
    claimable-not_running locked' other runtime' row
      (next_claim-IsOldest locked' db' other runtime' row next).0
      (next_claim-All locked' db' other runtime' (λ j. j.id ≡ c.id → j.status ≡ running)
        (claimed-running locked db now worker runtime c db' h) row next (sym id ∙ same))
