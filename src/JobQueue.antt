-- ===== src/JobQueue.antt =====
-- JobQueue, src/beachops/services/job_queue.py: one worker task and a bounded FIFO for each user, in
-- one event loop. A stretch of code without an `await` is one step; the lock of `submit` is held
-- over such a stretch only. `J` stands for the coroutine factories.
pub mod Steps
pub mod Lanes
pub mod Sound
pub mod Fifo
pub mod Drain
use beachops.Base.{
  ℕ, suc, Bool, true, false, not, ◌&&◌, ◌||◌, Option, none, some, List, [], ◌∷◌, ◌++◌, ltb, length,
  put, if◌then◌else◌,
}

pub data SubmitResult : Type 0 where
  started queued rejected : SubmitResult

pub record SubmitInfo : Type 0 where
  pub result : SubmitResult
  pub queue_position : ℕ

-- `workers` has the job that each worker task of a user is at; a dictionary without a key reads as
-- its default in the source.
pub record JobQueue (J : Type 0) : Type 0 where
  pub max_queue_depth : ℕ
  pub pending : ℕ → List J
  pub active : ℕ → Bool
  pub cancel_requested : ℕ → Bool
  pub workers : ℕ → List J

-- How an awaited job ends: it returns, raises an Exception, or raises what `except Exception` lets
-- through, such as CancelledError.
pub data Outcome : Type 0 where
  returned failed killed : Outcome

module _ {J : Type 0} where
  abbrev pub new_queue : ℕ → JobQueue J
  new_queue depth = record {
    max_queue_depth = depth;
    pending = λ u. [];
    active = λ u. false;
    cancel_requested = λ u. false;
    workers = λ u. [];
  }

  abbrev pub is_empty_list : List J → Bool
  is_empty_list [] = true
  is_empty_list (x ∷ xs) = false

  unfoldable pub submit : JobQueue J → ℕ → J → SubmitInfo × JobQueue J
  submit q u job =
      if not (q.active u) && is_empty_list (q.pending u)
      then (
        record { result = started; queue_position = 0 },
        record q {
          active = put q.active u true;
          workers = put q.workers u (q.workers u ++ job ∷ []);
        },
      )
      else if ltb (length (q.pending u)) q.max_queue_depth
      then (
        record { result = queued; queue_position = suc (length (q.pending u)) },
        record q { pending = put q.pending u (q.pending u ++ job ∷ []) },
      )
      else (record { result = rejected; queue_position = 0 }, q)

  -- The job of a worker, between the tasks `before` and `after`, has returned or failed: the next
  -- one is taken, or the task ends.
  unfoldable pub take_next : JobQueue J → ℕ → (before after : List J) → JobQueue J
  take_next q u before after = elim (q.pending u) [
    | [] ↦ record q { active = put q.active u false; workers = put q.workers u (before ++ after) }
    | job ∷ rest ↦ record q {
      pending = put q.pending u rest;
      workers = put q.workers u (before ++ job ∷ after);
    }
  ]

  -- `_worker`, from the end of `await job()` to the next one; `finally` runs on every way out.
  unfoldable pub worker : JobQueue J → ℕ → (before after : List J) → Outcome → JobQueue J
  unfolding take_next
  worker q u before after returned = take_next q u before after
  worker q u before after failed = take_next q u before after
  worker q u before after killed = record q {
    active = put q.active u false;
    workers = put q.workers u (before ++ after);
  }

  unfoldable pub clear_pending : JobQueue J → ℕ → ℕ × JobQueue J
  clear_pending q u = (length (q.pending u), record q { pending = put q.pending u [] })

  abbrev pub request_cancel : JobQueue J → ℕ → JobQueue J
  request_cancel q u = record q { cancel_requested = put q.cancel_requested u true }

  abbrev pub clear_cancel : JobQueue J → ℕ → JobQueue J
  clear_cancel q u = record q { cancel_requested = put q.cancel_requested u false }

  abbrev pub is_cancelled : JobQueue J → ℕ → Bool
  is_cancelled q u = q.cancel_requested u

  abbrev pub pending_count : JobQueue J → ℕ → ℕ
  pending_count q u = length (q.pending u)

  abbrev pub is_active : JobQueue J → ℕ → Bool
  is_active q u = q.active u

  abbrev pub is_busy : JobQueue J → ℕ → Bool
  is_busy q u = is_active q u || ltb 0 (pending_count q u)
