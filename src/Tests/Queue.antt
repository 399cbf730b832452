-- ===== src/Tests/Queue.antt =====
-- One user's queue of depth 2 (src/beachops/services/job_queue.py).
use beachops.Base.{ℕ, ◌≡◌, refl, inl, false, List, [], ◌∷◌, any}
use beachops.JobQueue.{JobQueue, new_queue, submit, worker, returned, failed, killed, rejected}
use beachops.JobQueue.Steps.{Event, accepts, begins, Reach, here, next, submits, works}
use beachops.JobQueue.Lanes.{lane, is_kill, is_clear, begun}
use beachops.JobQueue.Sound.{IsSound, Reach-IsSound}
use beachops.JobQueue.Drain.{ran, turns, turns-drain, killed-stalls}

abbrev fresh : JobQueue ℕ
fresh = new_queue 2

abbrev one : JobQueue ℕ
one = (submit fresh 5 10).1

abbrev two : JobQueue ℕ
two = (submit one 5 11).1

abbrev turned_two : JobQueue ℕ
turned_two = worker two 5 [] [] failed

third_info :
    ((submit (submit two 5 12).1 5 13).0 ≡ record { result = rejected; queue_position = 0 })
unfolding submit
third_info = refl

abbrev events : List (Event ℕ)
events = accepts 5 10 ∷ begins 5 10 ∷ accepts 5 11 ∷ begins 5 11 ∷ []

run : Reach fresh turned_two events
unfolding submit
run =
    next (next (next here (submits 5 10 refl)) (submits 5 11 refl))
      (works 5 [] 10 [] failed refl refl)

Reach-IsSound_example : IsSound 2 (lane turned_two 5)
unfolding any is_kill worker submit
Reach-IsSound_example = Reach-IsSound 5 refl run (inl refl)

turns-drain_example :
    (ran two 5 (returned ∷ failed ∷ []) ≡ 10 ∷ 11 ∷ [])
    × (lane (turns two 5 (returned ∷ failed ∷ [])) 5 ≡ ([], false, []))
unfolding submit
turns-drain_example =
    turns-drain two 5 (returned ∷ failed ∷ []) 10 (11 ∷ []) ((λ e. cc), ((λ e. cc), tt)) refl refl

abbrev dead : JobQueue ℕ
dead = worker two 5 [] [] killed

killed-stalls_example :
    (begun {J = ℕ} 5 (accepts 5 12 ∷ []) ≡ []) × ((submit dead 5 12).1.workers 5 ≡ [])
unfolding submit worker any is_clear
killed-stalls_example =
    killed-stalls 5 two (submit dead 5 12).1 (accepts 5 12 ∷ []) 10 11 [] refl refl
      (next here (submits 5 12 refl))
