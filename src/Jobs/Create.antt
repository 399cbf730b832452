-- ===== src/Jobs/Create.antt =====
-- `create` of src/beachops/db/repositories/jobs.py under the unique indexes of
-- alembic/versions/011_beachops_jobs.py.
use beachops.Base.{
  ℕ, ◌≡◌, ◌⊎◌, inl, inr, true, false, Option, some, find?, find?-append, find?-any-none, arith, [],
  ◌∷◌, ◌++◌, Text, any, Bool-cases,
}
use beachops.Security.{Job}
use beachops.Jobs.Queries.{get}
use beachops.Database.{Error, ok, raise, unique_violation, foreign_key_violation, Db, has_user}
use beachops.Jobs.{NewJob, owned, has_id, same_key, new_row, create}

-- The identifier is taken, or the actor's key is, or the actor is no user.
abbrev pub CannotCreate : Db → (id actor_id : ℕ) → Option Text → Type 0
CannotCreate db id actor_id key =
    (any (has_id id) db.jobs ≡ true)
    ⊎ (any (same_key actor_id key) db.jobs ≡ true)
    ⊎ (has_user db actor_id ≡ false)

module _ (redact : Text → Text) (db : Db) (now : ℕ) (n : NewJob) where
  -- Either the insertion is refused and nothing changes, or the identifier and the key are new, the
  -- actor is known, and one row stands at the end of the table.
  pub create-cases :
      ((e : Error) × (create redact db now n ≡ (raise e, db)))
      ⊎ ((any (has_id n.id) db.jobs ≡ false)
          × (any (same_key n.actor_id n.idempotency_key) db.jobs ≡ false)
          × (has_user db n.actor_id ≡ true)
          × (create redact db now n ≡ (
            ok (new_row redact now n),
            record db { jobs = db.jobs ++ new_row redact now n ∷ [] },
          )))
  unfolding create
  create-cases = elim (Bool-cases (any (has_id n.id) db.jobs)) [
    | inl taken ↦ inl (unique_violation, rw taken)
    | inr fresh ↦ elim (Bool-cases (any (same_key n.actor_id n.idempotency_key) db.jobs)) [
      | inl used ↦ inl (unique_violation, rw (fresh, used))
      | inr new_key ↦ elim (Bool-cases (has_user db n.actor_id)) [
        | inl known ↦ inr (fresh, new_key, known, rw (fresh, new_key, known))
        | inr unknown ↦ inl (foreign_key_violation, rw (fresh, new_key, unknown))
      ]
    ]
  ]

  -- Where the insertion is refused, one of the three constraints fails.
  pub create-why :
      (e : Error)
      → create redact db now n ≡ (raise e, db)
      → CannotCreate db n.id n.actor_id n.idempotency_key
  unfolding create
  create-why e broken = elim (Bool-cases (any (has_id n.id) db.jobs)) [
    | inl taken ↦ inl taken
    | inr fresh ↦ elim (Bool-cases (any (same_key n.actor_id n.idempotency_key) db.jobs)) [
      | inl used ↦ inr (inl used)
      | inr new_key ↦ elim (Bool-cases (has_user db n.actor_id)) [
        | inr unknown ↦ inr (inr unknown)
        | inl known ↦ absurd (ground arith)
      ]
    ]
  ]

  -- The tables with the row.
  abbrev pub added : Db
  added = record db { jobs = db.jobs ++ new_row redact now n ∷ [] }

  pub get-added_old : (a i : ℕ) (j : Job) → get db a i ≡ some j → get added a i ≡ some j
  unfolding get
  get-added_old a i j found =
      ground (arith, find?-append (owned a i) db.jobs (new_row redact now n ∷ []))

  pub get-added_new :
      any (has_id n.id) db.jobs ≡ false → get added n.actor_id n.id ≡ some (new_row redact now n)
  unfolding get new_row find?
  get-added_new fresh =
      let missing =
        find?-any-none (owned n.actor_id n.id) (has_id n.id) db.jobs fresh (λ x h. ground arith) in
      ground (arith, find?-append (owned n.actor_id n.id) db.jobs (new_row redact now n ∷ []))
