-- ===== src/Jobs/Once.antt =====
-- `create` of src/beachops/db/repositories/jobs.py when it is called again with an idempotency key.
use beachops.Base.{
  ℕ, ◌≡◌, ◌∙◌, inl, inr, Bool, true, Option, some, [], ◌∷◌, Text, text_eq_refl, sql_eq, any,
  any-append, any-update_where, Bool-cases, arith,
}
use beachops.Security.{Job, JobStatus}
use beachops.Database.{ok, raise, unique_violation, Db}
use beachops.Jobs.{NewJob, has_id, same_key, new_row, create}
use beachops.Jobs.Create.{create-cases}
use beachops.Jobs.Unique.{Rewrites, same, updated, added, Write-Rewrites}
use beachops.Jobs.History.{History, begin, later}

abbrev pub is_taken : ℕ → Option Text → Db → Bool
is_taken actor_id key db = any (same_key actor_id key) db.jobs

Rewrites-is_taken :
    (a : ℕ) (key : Option Text) {t u : Db}
    → Rewrites t u
    → is_taken a key t ≡ true
    → is_taken a key u ≡ true
Rewrites-is_taken a key (same e) h = rw e h
Rewrites-is_taken a key {t} (updated p f id actor k final e) h =
    rw e (any-update_where p (same_key a key) f t.jobs (λ x. ground (arith, actor x, k x)) ∙ h)
Rewrites-is_taken a key {t} (added j fresh new_key e) h =
    rw e (any-append (same_key a key) t.jobs (j ∷ []) ∙ ground arith)

History-is_taken :
    (a : ℕ) (key : Option Text) {redact : Text → Text} {start : ℕ → ℕ → JobStatus} {db t : Db}
    → History redact start db t
    → is_taken a key db ≡ true
    → is_taken a key t ≡ true
History-is_taken a key begin h = h
History-is_taken a key (later r s) h =
    Rewrites-is_taken a key (Write-Rewrites s) (History-is_taken a key r h)

new_row-same_key :
    (redact : Text → Text) (now : ℕ) (n : NewJob) (k : Text)
    → n.idempotency_key ≡ some k
    → any (same_key n.actor_id (some k)) (new_row redact now n ∷ []) ≡ true
unfolding new_row any sql_eq
new_row-same_key redact now n k key = ground (arith, text_eq_refl k)

create-is_taken :
    (redact : Text → Text) (db : Db) (now : ℕ) (n : NewJob) (k : Text) {j : Job}
    → n.idempotency_key ≡ some k
    → (create redact db now n).0 ≡ ok j
    → is_taken n.actor_id (some k) (create redact db now n).1 ≡ true
create-is_taken redact db now n k key made = elim (create-cases redact db now n) [
  | inl (x, failed) ↦ absurd (ground arith)
  | inr (fresh, new_key, known, e) ↦ rw e (
      any-append (same_key n.actor_id (some k)) db.jobs (new_row redact now n ∷ [])
      ∙ ground (arith, new_row-same_key redact now n k key))
]

-- Once `create` has made a job with an idempotency key, no later `create` for the same actor and key
-- makes another, whatever was written in between: it raises and changes nothing.
pub create_once :
    (redact : Text → Text) (start : ℕ → ℕ → JobStatus) (db t : Db) (now then_at : ℕ) (n m : NewJob)
    (k : Text) (j : Job)
    → n.idempotency_key ≡ some k
    → m.idempotency_key ≡ some k
    → m.actor_id ≡ n.actor_id
    → (create redact db now n).0 ≡ ok j
    → History redact start (create redact db now n).1 t
    → create redact t then_at m ≡ (raise unique_violation, t)
unfolding create
create_once redact start db t now then_at n m k j nk mk actor made r =
    let taken : is_taken n.actor_id (some k) t ≡ true =
      History-is_taken n.actor_id (some k) r (create-is_taken redact db now n k nk made) in
    let used : is_taken m.actor_id m.idempotency_key t ≡ true = rw (actor, mk) taken in
    elim (Bool-cases (any (has_id m.id) t.jobs)) [
      | inl same_id ↦ rw same_id
      | inr fresh ↦ rw (fresh, used)
    ]
