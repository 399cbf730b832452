-- ===== src/JobQueue/Fifo.antt =====
-- The order in which src/beachops/services/job_queue.py runs a user's jobs.
use beachops.Base.{ℕ, ◌≡◌, refl, List, [], ◌∷◌, ◌++◌, arith}
use beachops.JobQueue.{JobQueue}
use beachops.JobQueue.Steps.{Event, accepts, begins, clears, kills}
use beachops.JobQueue.Lanes.{begun}

module _ {J : Type 0} where
  pub begun-append :
      (v : ℕ) (xs ys : List (Event J)) → begun v (xs ++ ys) ≡ begun v xs ++ begun v ys
  unfolding begun
  begun-append v [] ys = refl
  begun-append v (begins u job ∷ xs) ys = ground (arith, begun-append v xs ys)
  begun-append v (accepts u job ∷ xs) ys = begun-append v xs ys
  begun-append v (clears u ∷ xs) ys = begun-append v xs ys
  begun-append v (kills u ∷ xs) ys = begun-append v xs ys
