-- ===== src/JobQueue/Sound.antt =====
-- What src/beachops/services/job_queue.py keeps for each user.
use beachops.Base.{
  ℕ, ◌+◌, ◌≤◌, ◌≡◌, refl, ◌⊎◌, inl, inr, Bool, true, false, List, [], ◌∷◌, ◌++◌, length, any,
  any-append, arith,
}
use beachops.JobQueue.{JobQueue}
use beachops.JobQueue.Steps.{Event, Reach, here, next}
use beachops.JobQueue.Lanes.{
  lane, LaneStep, same, starts, waits, takes, ends, drops, dies, Step-LaneStep,
  Step-max_queue_depth, is_kill,
}

module _ {J : Type 0} where
  -- Idle: no worker, and nothing waits. Busy: one worker, and at most `depth` jobs wait.
  abbrev pub IsSound : ℕ → List J × Bool × List J → Type 0
  IsSound depth l =
      (l ≡ ([], false, []))
      ⊎ ((job : J) × (waiting : List J) × (l ≡ (waiting, true, job ∷ []))
          × (length waiting ≤ depth))

  length-snoc : (xs : List J) (x : J) → length (xs ++ x ∷ []) ≡ length xs + 1
  length-snoc [] x = refl
  length-snoc (y ∷ ys) x = ground (arith, length-snoc ys x)

  -- The place of a worker when there is one.
  pub alone :
      (before after : List J) (job k : J)
      → before ++ job ∷ after ≡ k ∷ []
      → (before ≡ []) × (after ≡ [])
  alone [] [] job k h = (refl, refl)
  alone [] (x ∷ xs) job k h = absurd cc
  alone (x ∷ []) after job k h = absurd cc
  alone (x ∷ y ∷ xs) after job k h = absurd cc

  pub no_one : (before after : List J) (job : J) → before ++ job ∷ after ≡ [] → ⊥
  no_one [] after job h = cc
  no_one (x ∷ xs) after job h = cc

  LaneStep-IsSound :
      (depth v : ℕ) {l l' : List J × Bool × List J} {es : List (Event J)}
      → any (is_kill v) es ≡ false
      → LaneStep depth v l l' es
      → IsSound depth l
      → IsSound depth l'
  LaneStep-IsSound depth v alive (same e logs) h = rw e h
  LaneStep-IsSound depth v alive (starts job off nil e logs) (inl idle) =
      inr (job, [], ground arith, ground arith)
  LaneStep-IsSound depth v alive (starts job off nil e logs) (inr (k, waiting, busy, fits)) =
      absurd (ground arith)
  LaneStep-IsSound depth v alive (waits job room taken e logs) (inl idle) = absurd (ground arith)
  LaneStep-IsSound depth v alive (waits job room taken e logs) (inr (k, waiting, busy, fits)) =
      inr (k, waiting ++ job ∷ [], ground arith, ground (arith, length-snoc waiting job))
  LaneStep-IsSound depth v alive (takes before job after k rest at waiting e logs) (inl idle) =
      absurd (ground (arith, no_one before after job))
  LaneStep-IsSound depth v alive (takes before job after k rest at more e logs)
        (inr (j, waiting, busy, fits)) =
      let (left, right) = alone before after job j (ground arith) in
      inr (k, rest, ground (arith, left, right), ground arith)
  LaneStep-IsSound depth v alive (ends before job after at nil e logs) (inl idle) =
      absurd (ground (arith, no_one before after job))
  LaneStep-IsSound depth v alive (ends before job after at nil e logs)
        (inr (j, waiting, busy, fits)) =
      let (left, right) = alone before after job j (ground arith) in
      inl (ground (arith, left, right))
  LaneStep-IsSound depth v alive (drops e cleared) (inl idle) = inl (ground arith)
  LaneStep-IsSound depth v alive (drops e cleared) (inr (k, waiting, busy, fits)) =
      inr (k, [], ground arith, ground arith)
  LaneStep-IsSound depth v alive (dies before job after at e logs killed) h = absurd (ground arith)

  -- Of any interleaving of submissions, cancellations and worker turns in which no worker of a user
  -- is killed: the user never has two workers, never more jobs waiting than the queue's depth, and
  -- no job waits when there is no worker to take it.
  pub Reach-IsSound :
      (v : ℕ) {q q' : JobQueue J} {es : List (Event J)}
      → any (is_kill v) es ≡ false
      → Reach q q' es
      → IsSound q.max_queue_depth (lane q v)
      → IsSound q'.max_queue_depth (lane q' v)
  Reach-IsSound v alive here h = h
  Reach-IsSound v alive (next {past = past} {new = new} r s) h =
      let split = any-append (is_kill v) past new in
      rw (Step-max_queue_depth s) (
        LaneStep-IsSound _ v (ground arith) (Step-LaneStep v s)
          (Reach-IsSound v (ground arith) r h))
