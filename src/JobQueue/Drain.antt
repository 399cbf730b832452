-- ===== src/JobQueue/Drain.antt =====
-- Progress of src/beachops/services/job_queue.py: the turns of a user's worker, and its cancellation.
use beachops.Base.{
  ℕ, suc, ◌≡◌, ◌≢◌, refl, sym, ap, ◌∙◌, Bool, true, false, List, [], ◌∷◌, ◌++◌, All, length, any,
  any-append, arith,
}
use beachops.JobQueue.{
  JobQueue, Outcome, returned, failed, killed, worker, take_next, is_empty_list,
}
use beachops.JobQueue.Steps.{Event, Reach, here, next}
use beachops.JobQueue.Lanes.{
  begun, is_clear, lane, LaneStep, same, starts, waits, takes, ends, drops, dies, Step-LaneStep,
}
use beachops.JobQueue.Sound.{no_one}
use beachops.JobQueue.Fifo.{begun-append}

module _ {J : Type 0} where
  -- The first worker of a user has its job end.
  unfoldable pub turn : JobQueue J → ℕ → Outcome → JobQueue J
  unfolding worker
  turn q u outcome = elim (q.workers u) [ [] ↦ q | job ∷ after ↦ worker q u [] after outcome ]

  -- As many turns as there are outcomes.
  unfoldable pub turns : JobQueue J → ℕ → List Outcome → JobQueue J
  unfolding turn
  turns q u [] = q
  turns q u (outcome ∷ rest) = turns (turn q u outcome) u rest

  turn-working :
      (q : JobQueue J) (u : ℕ) (outcome : Outcome) (job : J) (waiting : List J)
      → outcome ≢ killed
      → lane q u ≡ (waiting, true, job ∷ [])
      → lane (turn q u outcome) u
        ≡ (elim waiting [ [] ↦ ([], false, []) | k ∷ rest ↦ (rest, true, k ∷ []) ])
  unfolding turn worker take_next
  turn-working q u returned job [] alive h = ground arith
  turn-working q u returned job (k ∷ rest) alive h = ground arith
  turn-working q u failed job [] alive h = ground arith
  turn-working q u failed job (k ∷ rest) alive h = ground arith
  turn-working q u killed job waiting alive h = absurd (alive refl)

  -- The jobs that the user's worker tasks are at in each of the turns, in order.
  unfoldable pub ran : JobQueue J → ℕ → List Outcome → List J
  unfolding turn
  ran q u [] = []
  ran q u (outcome ∷ rest) = q.workers u ++ ran (turn q u outcome) u rest

  -- The worker of a user, whose jobs return or fail, runs the job it is at and then everything that
  -- waits, in order, each job once, and ends: this takes one turn for the job it is at and one for
  -- each that waits, in which it is at exactly these jobs, and then nothing waits and there is no
  -- worker.
  pub turns-drain :
      (q : JobQueue J) (u : ℕ) (outcomes : List Outcome) (job : J) (waiting : List J)
      → All (λ o. o ≢ killed) outcomes
      → lane q u ≡ (waiting, true, job ∷ [])
      → length outcomes ≡ suc (length waiting)
      → (ran q u outcomes ≡ job ∷ waiting) × (lane (turns q u outcomes) u ≡ ([], false, []))
  unfolding turns ran
  turns-drain q u [] job waiting alive h n = absurd (ground arith)
  turns-drain q u (o ∷ []) job [] alive h n =
      (rw (ap (λ l. l.2) h) refl, turn-working q u o job [] alive.0 h)
  turns-drain q u (o ∷ p ∷ os) job [] alive h n = absurd (ground arith)
  turns-drain q u (o ∷ os) job (k ∷ rest) alive h n =
      let (later, ended) =
        turns-drain (turn q u o) u os k rest alive.1 (turn-working q u o job (k ∷ rest) alive.0 h)
          (ground arith) in
      (rw (ap (λ l. l.2) h) (ap (λ r. job ∷ r) later), ended)

  -- No worker although something waits.
  abbrev pub IsStalled : List J × Bool × List J → Type 0
  IsStalled l = (l.1 ≡ false) × (l.2 ≡ []) × (is_empty_list l.0 ≡ false)

  nonempty-snoc : (xs : List J) (x : J) → is_empty_list (xs ++ x ∷ []) ≡ false
  nonempty-snoc [] x = refl
  nonempty-snoc (y ∷ ys) x = refl

  LaneStep-IsStalled :
      (depth v : ℕ) {l l' : List J × Bool × List J} {es : List (Event J)}
      → any (is_clear v) es ≡ false
      → LaneStep depth v l l' es
      → IsStalled l
      → IsStalled l' × (begun v es ≡ [])
  LaneStep-IsStalled depth v kept (same e logs) h = rw e (h, logs.1)
  LaneStep-IsStalled depth v kept (starts job off nil e logs) h = absurd (ground arith)
  LaneStep-IsStalled depth v {l = l} kept (waits job room taken e logs) h =
      rw e ((h.0, h.1, nonempty-snoc l.0 job), logs.1)
  LaneStep-IsStalled depth v kept (takes before job after k rest at more e logs) h =
      absurd (no_one before after job (sym at ∙ h.1))
  LaneStep-IsStalled depth v kept (ends before job after at nil e logs) h = absurd (ground arith)
  LaneStep-IsStalled depth v kept (drops e cleared) h = absurd (ground arith)
  LaneStep-IsStalled depth v kept (dies before job after at e logs gone) h =
      absurd (no_one before after job (sym at ∙ h.1))

  Reach-IsStalled :
      (v : ℕ) {q q' : JobQueue J} {es : List (Event J)}
      → any (is_clear v) es ≡ false
      → Reach q q' es
      → IsStalled (lane q v)
      → IsStalled (lane q' v) × (begun v es ≡ [])
  unfolding begun
  Reach-IsStalled v kept here h = (h, refl)
  Reach-IsStalled v kept (next {past = past} {new = new} r s) h =
      let split = any-append (is_clear v) past new in
      let (stalled, none_yet) = Reach-IsStalled v (ground arith) r h in
      let (after, none_new) = LaneStep-IsStalled _ v (ground arith) (Step-LaneStep v s) stalled in
      (after, begun-append v past new ∙ rw (none_yet, none_new) refl)

  -- When an exception that is no Exception (CancelledError) ends the one worker of a user while jobs
  -- wait, the user's jobs are stuck: until the queue is cleared, whatever is submitted, no job of the
  -- user begins.
  pub killed-stalls :
      (u : ℕ) (q q' : JobQueue J) (es : List (Event J)) (job k : J) (rest : List J)
      → lane q u ≡ (k ∷ rest, true, job ∷ [])
      → any (is_clear u) es ≡ false
      → Reach (worker q u [] [] killed) q' es
      → (begun u es ≡ []) × (q'.workers u ≡ [])
  unfolding worker
  killed-stalls u q q' es job k rest h kept r =
      let (stalled, none) = Reach-IsStalled u kept r (ground arith, ground arith, ground arith) in
      (none, stalled.1)
