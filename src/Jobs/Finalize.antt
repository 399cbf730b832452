-- ===== src/Jobs/Finalize.antt =====
-- `mark_finalized` of src/beachops/db/repositories/jobs.py on any history of a job.
use beachops.Base.{
  ℕ, ◌≡◌, sym, ◌∙◌, ap, inl, inr, Bool, true, false, not, ◌&&◌, some, [], ◌∷◌, Text, is_some, find?,
  find?-sound, find?-append, find?-update_where, All-find?, Distinct-find?, Option-cases, arith,
  if◌then◌else◌,
}
use beachops.Security.{Job, JobStatus}
use beachops.Database.{Db}
use beachops.Jobs.{owned, has_id}
use beachops.Jobs.Queries.{get}
use beachops.Jobs.Runtime.{mark_finalized}
use beachops.Jobs.Unique.{
  IsUnique, same_id, same_id_comm, Rewrites, same, updated, added, Write-Rewrites, History-IsUnique,
}
use beachops.Jobs.History.{History, begin, later}

-- The actor has the job, and it was finalized at the time `t`.
abbrev pub IsFinalized : Db → (a i t : ℕ) → Type 0
IsFinalized db a i t = (j : Job) × (get db a i ≡ some j) × (j.finalized_at ≡ some t)

pub Rewrites-IsFinalized :
    (a i t : ℕ) {u v : Db} → Rewrites u v → IsFinalized u a i t → IsFinalized v a i t
unfolding get
Rewrites-IsFinalized a i t (same e) (j, found, final) = (j, rw e found, final)
Rewrites-IsFinalized a i t {u} (updated p f id actor key keeps e) (j, found, final) = (
  (if p j then f j else j),
  ap (find? (owned a i)) e
      ∙ ground
          (arith, find?-update_where p (owned a i) f u.jobs (λ x. ground (arith, id x, actor x))),
  ground (arith, keeps j t final),
)
Rewrites-IsFinalized a i t {u} (added k fresh new_key e) (j, found, final) =
    (j, ap (find? (owned a i)) e ∙ ground (arith, find?-append (owned a i) u.jobs (k ∷ [])), final)

History-IsFinalized :
    (a i t : ℕ) {redact : Text → Text} {start : ℕ → ℕ → JobStatus} {u v : Db}
    → History redact start u v
    → IsFinalized u a i t
    → IsFinalized v a i t
History-IsFinalized a i t begin h = h
History-IsFinalized a i t (later r s) h =
    Rewrites-IsFinalized a i t (Write-Rewrites s) (History-IsFinalized a i t r h)

pub mark_finalized-refuses :
    (db : Db) (at_time a i t : ℕ)
    → IsUnique db
    → IsFinalized db a i t
    → (mark_finalized db at_time a i).0 ≡ false
unfolding mark_finalized get
mark_finalized-refuses db at_time a i t u (j, found, final) =
    elim (Option-cases (find? open_row db.jobs)) [
      | inl nothing ↦ ground arith
      | inr (k, again) ↦
          let first = Distinct-find? same_id db.jobs (λ x. ground arith) same_id_comm u.ids in
          let at_j : find? (has_id j.id) db.jobs ≡ some j =
            All-find? (λ x. find? (has_id x.id) db.jobs ≡ some x) (owned a i) db.jobs first found in
          let at_k : find? (has_id k.id) db.jobs ≡ some k =
            All-find? (λ x. find? (has_id x.id) db.jobs ≡ some x) open_row db.jobs first again in
          let own_j : owned a i j ≡ true = find?-sound (owned a i) db.jobs found in
          let own_k : open_row k ≡ true = find?-sound open_row db.jobs again in
          let same_ids : k.id ≡ j.id = ground arith in
          let same_row : some k ≡ some j =
            sym at_k ∙ ap (λ n. find? (has_id n) db.jobs) same_ids ∙ at_j in
          absurd (ground arith)
    ]
  where
    open_row : Job → Bool
    open_row x = owned a i x && not (is_some x.finalized_at)

-- A job that is finalized stays finalized at the same time, whatever is written later, and every
-- later `mark_finalized` answers that it did nothing: of several that race, one wins.
pub finalize_once :
    (redact : Text → Text) (start : ℕ → ℕ → JobStatus) (db v : Db) (at_time a i t : ℕ)
    → IsUnique db
    → IsFinalized db a i t
    → History redact start db v
    → IsFinalized v a i t × ((mark_finalized v at_time a i).0 ≡ false)
finalize_once redact start db v at_time a i t u h r =
    let final = History-IsFinalized a i t r h in
    (final, mark_finalized-refuses v at_time a i t (History-IsUnique r u) final)
