-- ===== src/Runs/Once.antt =====
-- A run that is finalized again: src/beachops/services/run_finalizer.py.
use beachops.Base.{
  ℕ, ◌≡◌, refl, ap, ◌∙◌, inl, inr, Bool, false, not, ◌&&◌, Option, none, some, is_some, List, Text,
  find?, find?-sound, find?-update_where, update_where, update_where-miss, Bool-cases, Option-cases,
  arith, if◌then◌else◌,
}
use beachops.Security.{UserMode, Job, running}
use beachops.Database.{Db, ok}
use beachops.Jobs.{owned}
use beachops.Jobs.Queries.{get}
use beachops.Jobs.Runtime.{mark_finalized, with_finalized}
use beachops.Jobs.Audit.{finalizes}
use beachops.Jobs.Unique.{IsUnique, Step-Rewrites, Rewrites-IsUnique}
use beachops.Jobs.Finalize.{IsFinalized, mark_finalized-refuses}
use beachops.Runs.{App, Tools, RunOutcome, with_db, still_runs, finalize}
use beachops.Runs.Chain.{Chain, stay, Chain-keeps, finish-Chain}

-- Once it is called, `mark_finalized` leaves the job finalized, by this call or before.
mark_finalized-IsFinalized :
    (db : Db) (now a i : ℕ) (j : Job)
    → get db a i ≡ some j
    → (t : ℕ) × IsFinalized (mark_finalized db now a i).1 a i t
unfolding mark_finalized get
mark_finalized-IsFinalized db now a i j found = elim (Option-cases j.finalized_at) [
  | inr (t, done) ↦ (t, (j, row ∙ ground arith, done))
  | inl unset ↦ (
    now,
    (
      with_finalized now j,
      row ∙ ground (arith, find?-sound (owned a i) db.jobs found),
      ground arith,
    ),
  )
]
  where
    p : Job → Bool
    p x = owned a i x && not (is_some x.finalized_at)

    row :
        find? (owned a i) (update_where p (with_finalized now) db.jobs)
        ≡ some (if p j then with_finalized now j else j)
    row = find?-update_where p (owned a i) (with_finalized now) db.jobs (λ x. refl) ∙ rw found refl

mark_finalized-unchanged :
    (db : Db) (now a i : ℕ)
    → (mark_finalized db now a i).0 ≡ false
    → (mark_finalized db now a i).1 ≡ db
unfolding mark_finalized
mark_finalized-unchanged db now a i refused =
    ap (λ (rows : List Job). record db { jobs = rows })
      (update_where-miss (λ x. owned a i x && not (is_some x.finalized_at)) (with_finalized now)
        db.jobs (go _ refused))
  where
    go :
        (o : Option Job)
        → is_some (elim o [ none ↦ none | some row ↦ some (with_finalized now row) ]) ≡ false
        → o ≡ none
    go none e = refl
    go (some row) e = cc

module _ (k : Tools) (now id i a : ℕ) (mode : UserMode) (outcome : RunOutcome)
    (tokens : ℕ → Text × Text) where
  finalize-Chain :
      (w : App)
      → still_runs outcome.status ≡ false
      → Chain
          (mark_finalized w.st.db now a i).1
          (finalize k w now id i a mode outcome tokens).1.st.db
  unfolding finalize
  finalize-Chain w over = elim (Bool-cases (mark_finalized w.st.db now a i).0) [
    | inl claimed ↦
        rw (over, claimed, finalize)
          (finish-Chain k now (with_db w (mark_finalized w.st.db now a i).1) id i a mode outcome
            tokens)
    | inr refused ↦ rw (over, refused, finalize) stay
  ]

  finalize-refuses :
      (w : App) (t : ℕ)
      → IsUnique w.st.db
      → IsFinalized w.st.db a i t
      → finalize k w now id i a mode outcome tokens ≡ (ok false, w)
  unfolding finalize
  finalize-refuses w t unique final = elim (Bool-cases (still_runs outcome.status)) [
    | inl early ↦ rw (early, finalize) refl
    | inr over ↦
        let refused : (mark_finalized w.st.db now a i).0 ≡ false =
          mark_finalized-refuses w.st.db now a i t unique final in
        rw (over, refused, finalize)
          (ap (λ (db : Db). (ok false, with_db w db))
            (mark_finalized-unchanged w.st.db now a i refused))
  ]

-- A run is finalized once. When identifiers are unique, its status is terminal and the actor has the
-- job, the job is finalized
-- after `finalize`, also where it raises on the way; and whatever is written to the jobs later, a
-- second `finalize` of the job, with any outcome, answers false and changes nothing.
pub finalize_run_once :
    (k : Tools) (w : App) (now id i a : ℕ) (mode : UserMode) (outcome : RunOutcome)
    (tokens : ℕ → Text × Text) (j : Job)
    → IsUnique w.st.db
    → get w.st.db a i ≡ some j
    → still_runs outcome.status ≡ false
    → (t : ℕ) × IsFinalized (finalize k w now id i a mode outcome tokens).1.st.db a i t
      × ((v : App) (now' id' : ℕ) (mode' : UserMode) (outcome' : RunOutcome)
            (tokens' : ℕ → Text × Text)
          → Chain (finalize k w now id i a mode outcome tokens).1.st.db v.st.db
          → finalize k v now' id' i a mode' outcome' tokens' ≡ (ok false, v))
finalize_run_once k w now id i a mode outcome tokens j unique found over =
    let (t, final) = mark_finalized-IsFinalized w.st.db now a i j found in
    let marked : IsUnique (mark_finalized w.st.db now a i).1 =
      Rewrites-IsUnique
        (Step-Rewrites {redact = k.services.redact} {start = λ x y. running}
          (finalizes now a i refl))
        unique in
    let (kept, still) =
      Chain-keeps a i t (finalize-Chain k now id i a mode outcome tokens w over) marked final in
    (
      t,
      still,
      λ v now' id' mode' outcome' tokens' later.
          let (unique', final') = Chain-keeps a i t later kept still in
          finalize-refuses k now' id' i a mode' outcome' tokens' v t unique' final',
    )
