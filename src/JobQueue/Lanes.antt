-- ===== src/JobQueue/Lanes.antt =====
-- Each step of src/beachops/services/job_queue.py as one user sees it.
use beachops.Base.{
  ℕ, ◌==◌, ◌<◌, ◌≡◌, ◌⊎◌, refl, inl, inr, Bool, true, false, not, ◌&&◌, List, [], ◌∷◌, ◌++◌, ltb,
  length, any, if◌then◌else◌, Bool-cases, arith,
}
use beachops.JobQueue.{
  JobQueue, returned, failed, killed, is_empty_list, submit, take_next, worker, clear_pending,
}
use beachops.JobQueue.Steps.{
  Event, accepts, begins, clears, kills, submitted, taken, Step, submits, works, clears_pending,
  requests_cancel, clears_cancel,
}

module _ {J : Type 0} where
  -- The jobs of a user that were accepted, in order.
  unfoldable pub accepted : ℕ → List (Event J) → List J
  accepted v [] = []
  accepted v (accepts u job ∷ es) = if u == v then job ∷ accepted v es else accepted v es
  accepted v (begins u job ∷ es) = accepted v es
  accepted v (clears u ∷ es) = accepted v es
  accepted v (kills u ∷ es) = accepted v es

  -- The jobs of a user that a worker began, in order.
  unfoldable pub begun : ℕ → List (Event J) → List J
  begun v [] = []
  begun v (accepts u job ∷ es) = begun v es
  begun v (begins u job ∷ es) = if u == v then job ∷ begun v es else begun v es
  begun v (clears u ∷ es) = begun v es
  begun v (kills u ∷ es) = begun v es

  unfoldable pub is_clear : ℕ → Event J → Bool
  is_clear v (accepts u job) = false
  is_clear v (begins u job) = false
  is_clear v (clears u) = u == v
  is_clear v (kills u) = false

  unfoldable pub is_kill : ℕ → Event J → Bool
  is_kill v (accepts u job) = false
  is_kill v (begins u job) = false
  is_kill v (clears u) = false
  is_kill v (kills u) = u == v

  -- What a user has: the jobs that wait, the flag, the workers' jobs.
  abbrev pub lane : JobQueue J → ℕ → List J × Bool × List J
  lane q v = (q.pending v, q.active v, q.workers v)

  abbrev pub Logs : ℕ → List (Event J) → List J → List J → Type 0
  Logs v es a b = (accepted v es ≡ a) × (begun v es ≡ b)

  pub data LaneStep (depth v : ℕ) (l l' : List J × Bool × List J) (es : List (Event J))
      : Type 0 where
    same : l' ≡ l → Logs v es [] [] → LaneStep depth v l l' es
    starts :
        (job : J)
        → l.1 ≡ false
        → l.0 ≡ []
        → l' ≡ ([], true, l.2 ++ job ∷ [])
        → Logs v es (job ∷ []) (job ∷ [])
        → LaneStep depth v l l' es
    waits :
        (job : J)
        → length l.0 < depth
        → (not l.1 && is_empty_list l.0) ≡ false
        → l' ≡ (l.0 ++ job ∷ [], l.1, l.2)
        → Logs v es (job ∷ []) []
        → LaneStep depth v l l' es
    takes :
        (before : List J) (job : J) (after : List J) (k : J) (rest : List J)
        → l.2 ≡ before ++ job ∷ after
        → l.0 ≡ k ∷ rest
        → l' ≡ (rest, l.1, before ++ k ∷ after)
        → Logs v es [] (k ∷ [])
        → LaneStep depth v l l' es
    ends :
        (before : List J) (job : J) (after : List J)
        → l.2 ≡ before ++ job ∷ after
        → l.0 ≡ []
        → l' ≡ ([], false, before ++ after)
        → Logs v es [] []
        → LaneStep depth v l l' es
    drops : l' ≡ ([], l.1, l.2) → any (is_clear v) es ≡ true → LaneStep depth v l l' es
    dies :
        (before : List J) (job : J) (after : List J)
        → l.2 ≡ before ++ job ∷ after
        → l' ≡ (l.0, false, before ++ after)
        → Logs v es [] []
        → any (is_kill v) es ≡ true
        → LaneStep depth v l l' es

  is_empty_list→nil : (xs : List J) → is_empty_list xs ≡ true → xs ≡ []
  is_empty_list→nil [] h = refl
  is_empty_list→nil (x ∷ xs) h = absurd cc

  List-cases : (xs : List J) → (xs ≡ []) ⊎ ((x : J) × (rest : List J) × (xs ≡ x ∷ rest))
  List-cases [] = inl refl
  List-cases (x ∷ rest) = inr (x, rest, refl)

  submit-LaneStep :
      (q : JobQueue J) (u v : ℕ) (job : J)
      → let (info, q') = submit q u job in
        LaneStep q.max_queue_depth v (lane q v) (lane q' v) (submitted u job info.result)
  unfolding submit accepted begun
  submit-LaneStep q u v job = elim (Bool-cases (not (q.active u) && is_empty_list (q.pending u))) [
    | inl free ↦ elim (Bool-cases (u == v)) [
      | inl mine ↦
          starts job (ground arith) (ground (arith, is_empty_list→nil (q.pending u))) (ground arith)
            (ground arith, ground arith)
      | inr other ↦ same (ground arith) (ground arith, ground arith)
    ]
    | inr taken ↦ elim (Bool-cases (ltb (length (q.pending u)) q.max_queue_depth)) [
      | inl room ↦ elim (Bool-cases (u == v)) [
        | inl mine ↦
            waits job (ground arith) (ground arith) (ground arith) (ground arith, ground arith)
        | inr other ↦ same (ground arith) (ground arith, ground arith)
      ]
      | inr full ↦ same (ground arith) (ground arith, ground arith)
    ]
  ]

  take_next-LaneStep :
      (q : JobQueue J) (u v : ℕ) (before : List J) (job : J) (after : List J)
      → q.workers u ≡ before ++ job ∷ after
      → LaneStep q.max_queue_depth v
          (lane q v)
          (lane (take_next q u before after) v)
          (taken u (q.pending u))
  unfolding take_next accepted begun
  take_next-LaneStep q u v before job after h = elim (List-cases (q.pending u)) [
    | inl none_waits ↦ elim (Bool-cases (u == v)) [
      | inl mine ↦
          ends before job after (ground arith) (ground arith) (ground arith)
            (ground arith, ground arith)
      | inr other ↦ same (ground arith) (ground arith, ground arith)
    ]
    | inr (k, rest, waiting) ↦ elim (Bool-cases (u == v)) [
      | inl mine ↦
          takes before job after k rest (ground arith) (ground arith) (ground arith)
            (ground arith, ground arith)
      | inr other ↦ same (ground arith) (ground arith, ground arith)
    ]
  ]

  killed-LaneStep :
      (q : JobQueue J) (u v : ℕ) (before : List J) (job : J) (after : List J)
      → q.workers u ≡ before ++ job ∷ after
      → LaneStep q.max_queue_depth v
          (lane q v)
          (lane (worker q u before after killed) v)
          (kills u ∷ [])
  unfolding worker accepted begun any is_kill
  killed-LaneStep q u v before job after h = elim (Bool-cases (u == v)) [
    | inl mine ↦ dies before job after (ground arith) (ground arith) (refl, refl) (ground arith)
    | inr other ↦ same (ground arith) (refl, refl)
  ]

  clear_pending-LaneStep :
      (q : JobQueue J) (u v : ℕ)
      → LaneStep q.max_queue_depth v (lane q v) (lane (clear_pending q u).1 v) (clears u ∷ [])
  unfolding clear_pending accepted begun any is_clear
  clear_pending-LaneStep q u v = elim (Bool-cases (u == v)) [
    | inl mine ↦ drops (ground arith) (ground arith)
    | inr other ↦ same (ground arith) (refl, refl)
  ]

  pub Step-LaneStep :
      (v : ℕ) {q q' : JobQueue J} {es : List (Event J)}
      → Step q q' es
      → LaneStep q.max_queue_depth v (lane q v) (lane q' v) es
  unfolding worker accepted begun
  Step-LaneStep v {q = q} (submits u job e) = rw e (submit-LaneStep q u v job)
  Step-LaneStep v {q = q} (works u before job after returned w e) =
      rw e (take_next-LaneStep q u v before job after w)
  Step-LaneStep v {q = q} (works u before job after failed w e) =
      rw e (take_next-LaneStep q u v before job after w)
  Step-LaneStep v {q = q} (works u before job after killed w e) =
      rw e (killed-LaneStep q u v before job after w)
  Step-LaneStep v {q = q} (clears_pending u e) = rw e (clear_pending-LaneStep q u v)
  Step-LaneStep v (requests_cancel u e) = same (rw e) (refl, refl)
  Step-LaneStep v (clears_cancel u e) = same (rw e) (refl, refl)

  pub Step-max_queue_depth :
      {q q' : JobQueue J} {es : List (Event J)}
      → Step q q' es
      → q'.max_queue_depth ≡ q.max_queue_depth
  unfolding submit worker take_next clear_pending
  Step-max_queue_depth {q = q} (submits u job e) = ground arith
  Step-max_queue_depth {q = q} (works u before job after returned w e) =
      elim (List-cases (q.pending u)) [
        | inl nil ↦ ground arith
        | inr (k, rest, more) ↦ ground arith
      ]
  Step-max_queue_depth {q = q} (works u before job after failed w e) =
      elim (List-cases (q.pending u)) [
        | inl nil ↦ ground arith
        | inr (k, rest, more) ↦ ground arith
      ]
  Step-max_queue_depth (works u before job after killed w e) = rw e
  Step-max_queue_depth (clears_pending u e) = rw e
  Step-max_queue_depth (requests_cancel u e) = rw e
  Step-max_queue_depth (clears_cancel u e) = rw e
