-- ===== src/Jobs/Unique.antt =====
-- The unique indexes of beachops_jobs (alembic/versions/011_beachops_jobs.py) under the writes of
-- src/beachops/db/repositories/jobs.py, and what they make of a repeated `create`.
use beachops.Base.{
  ℕ, ◌≡◌, refl, inl, inr, Bool, true, false, ◌&&◌, Option, none, some, [], ◌∷◌, ◌++◌, Text, text_eq,
  sql_eq, any, find?, update_where, Distinct, Distinct-update_where, Distinct-snoc, not, is_some,
  Option-cases, arith,
}
use beachops.Security.{Job, JobStatus}
use beachops.Database.{Db}
use beachops.Jobs.{
  owned, has_id, same_key, new_row, transition, transition_row, append_event, update_owned,
  with_status,
}
use beachops.Jobs.Runtime.{
  set_runtime, set_result, mark_finalized, with_runtime, with_result, with_finalized,
}
use beachops.Jobs.Create.{create-cases}
use beachops.Jobs.Transition.{transition-cases}
use beachops.Jobs.History.{Write, writes, claims, History, begin, later}
use beachops.Jobs.Queue.{next_claim, claim_for_worker, with_claim}
use beachops.Jobs.Audit.{Step, creates, transitions, notes, runs, results, finalizes}

abbrev pub same_id : Job → Job → Bool
same_id j k = has_id j.id k

abbrev pub same_keys : Job → Job → Bool
same_keys j k = same_key j.actor_id j.idempotency_key k

-- No two jobs have one identifier, and no two jobs of an actor have one idempotency key.
pub record IsUnique (db : Db) : Type 0 where
  pub ids : Distinct same_id db.jobs
  pub keys : Distinct same_keys db.jobs

text_eq_comm : (s t : Text) → text_eq s t ≡ text_eq t s
unfolding text_eq
text_eq_comm [] [] = refl
text_eq_comm [] (y ∷ ys) = refl
text_eq_comm (x ∷ xs) [] = refl
text_eq_comm (x ∷ xs) (y ∷ ys) = ground (arith, text_eq_comm xs ys)

sql_eq_comm : (s t : Option Text) → sql_eq s t ≡ sql_eq t s
unfolding sql_eq
sql_eq_comm none none = refl
sql_eq_comm none (some t) = refl
sql_eq_comm (some s) none = refl
sql_eq_comm (some s) (some t) = text_eq_comm s t

pub same_id_comm : (j k : Job) → same_id j k ≡ same_id k j
same_id_comm j k = ground arith

same_keys_comm : (j k : Job) → same_keys j k ≡ same_keys k j
same_keys_comm j k = ground (arith, sql_eq_comm j.idempotency_key k.idempotency_key)

-- What the writes do to the rows: some are replaced by rows with the same identifier, actor,
-- key and final time, or one row is added under the checks of `create`.
pub data Rewrites (db db' : Db) : Type 0 where
  same : db'.jobs ≡ db.jobs → Rewrites db db'
  updated :
      (p : Job → Bool) (f : Job → Job)
      → ((j : Job) → (f j).id ≡ j.id)
      → ((j : Job) → (f j).actor_id ≡ j.actor_id)
      → ((j : Job) → (f j).idempotency_key ≡ j.idempotency_key)
      → ((j : Job) (t : ℕ) → j.finalized_at ≡ some t → (f j).finalized_at ≡ some t)
      → db'.jobs ≡ update_where p f db.jobs
      → Rewrites db db'
  added :
      (j : Job)
      → any (has_id j.id) db.jobs ≡ false
      → any (same_key j.actor_id j.idempotency_key) db.jobs ≡ false
      → db'.jobs ≡ db.jobs ++ j ∷ []
      → Rewrites db db'

pub Step-Rewrites :
    {redact : Text → Text} {start : ℕ → ℕ → JobStatus} {t u : Db}
    → Step redact start t u
    → Rewrites t u
unfolding transition transition_row append_event set_runtime set_result mark_finalized update_owned
    new_row
Step-Rewrites {redact} {t = t} (creates now n starts e) = elim (create-cases redact t now n) [
  | inl (x, failed) ↦ same (rw (e, failed))
  | inr (fresh, new_key, known, made) ↦ added (new_row redact now n) fresh new_key (rw (e, made))
]
Step-Rewrites (transitions now a i [] to event_type details e) = same (rw e)
Step-Rewrites {redact} {t = t} (transitions now a i (s ∷ from) to event_type details e) =
    elim (transition-cases redact t now a i s from to event_type details) [
      | inl (why, kept) ↦ same (rw (e, kept))
      | inr (j, accepted, moved) ↦
          updated (owned j.actor_id j.id) (with_status to now) (λ k. refl) (λ k. refl) (λ k. refl)
            (λ k n h. h) (rw (e, moved))
    ]
Step-Rewrites {t = t} (notes now a i event_type details e) =
    elim (Option-cases (find? (owned a i) t.jobs)) [
      | inl missing ↦ same (ground arith)
      | inr (j, found) ↦ same (ground arith)
    ]
Step-Rewrites (runs now a i c e) =
    updated (λ j. owned a i j && true) (with_runtime c now) (λ k. refl) (λ k. refl) (λ k. refl)
      (λ k n h. h) (rw e)
Step-Rewrites {redact} (results now a i r e) =
    updated (λ j. owned a i j && true) (with_result redact r now) (λ k. refl) (λ k. refl)
      (λ k. refl) (λ k n h. h) (rw e)
Step-Rewrites (finalizes now a i e) =
    updated (λ j. owned a i j && not (is_some j.finalized_at)) (with_finalized now) (λ k. refl)
      (λ k. refl) (λ k. refl) (λ k n h. ground arith) (rw e)

pub Rewrites-IsUnique : {t u : Db} → Rewrites t u → IsUnique t → IsUnique u
Rewrites-IsUnique (same e) h = record { ids = rw e h.ids; keys = rw e h.keys }
Rewrites-IsUnique {t} (updated p f id actor key final e) h = record {
  ids = rw e (
      Distinct-update_where same_id p f t.jobs (λ x y. ground (arith, id x))
        (λ x y. ground (arith, id y)) h.ids);
  keys = rw e (
      Distinct-update_where same_keys p f t.jobs (λ x y. ground (arith, actor x, key x))
        (λ x y. ground (arith, actor y, key y)) h.keys);
}
Rewrites-IsUnique {t} (added j fresh new_key e) h = record {
  ids = rw e (Distinct-snoc same_id t.jobs j same_id_comm fresh h.ids);
  keys = rw e (Distinct-snoc same_keys t.jobs j same_keys_comm new_key h.keys);
}

pub Write-Rewrites :
    {redact : Text → Text} {start : ℕ → ℕ → JobStatus} {t u : Db}
    → Write redact start t u
    → Rewrites t u
unfolding claim_for_worker
Write-Rewrites (writes s) = Step-Rewrites s
Write-Rewrites {t = t} (claims locked now worker runtime e) =
    elim (Option-cases (next_claim locked t worker runtime)) [
      | inl nothing ↦ same (ground arith)
      | inr (row, first) ↦
          updated (has_id row.id) (with_claim worker now) (λ k. refl) (λ k. refl) (λ k. refl)
            (λ k n h. h) (ground arith)
    ]

-- Any writes to jobs and events, in any order, keep the identifiers unique, and the idempotency keys
-- of each actor.
pub History-IsUnique :
    {redact : Text → Text} {start : ℕ → ℕ → JobStatus} {db t : Db}
    → History redact start db t
    → IsUnique db
    → IsUnique t
History-IsUnique begin h = h
History-IsUnique (later r w) h = Rewrites-IsUnique (Write-Rewrites w) (History-IsUnique r h)
