-- ===== src/Jobs/Cancel.antt =====
-- `cancel_queued_for_actor` of src/beachops/db/repositories/jobs.py and the actor's queue.
use beachops.Base.{
  ℕ, ◌+◌, ◌≡◌, refl, sym, ◌∙◌, ap, ap₂, ◌≢◌, inl, inr, Bool, true, false, Option, none, some, List,
  [], ◌∷◌, Text, text, any, any-sort_by, length, All, All-any, All-update_where, All-filter,
  All-sort_by, of-All-filter, filter-All, All-map, All-map₂, All-of-any-false, find?, find?-narrow,
  find?-update_where_ne, update_where, update_where_none, update_where_twice, filter,
  filter_nil-of-All, sort_by, Distinct, Distinct-find?, Distinct-filter, Distinct-sort_by,
  Bool-cases, arith,
}
use beachops.Security.{Job, JobStatus, cancelled, status_eq_iff}
use beachops.Database.{Db, Result, ok, status_in}
use beachops.Jobs.{has_id, owned, transition, transition_row, with_status}
use beachops.Jobs.Queries.{get, is_waiting_for, list_queued_for_actor}
use beachops.Jobs.Queue.{cancel_jobs, cancel_queued_for_actor}
use beachops.Jobs.Unique.{IsUnique, same_id, same_id_comm}
use beachops.Jobs.Transition.{transition-cases, Accepted-ids, transition_row-Moves}

-- The rows of an actor that are among the given jobs.
abbrev among : ℕ → List Job → Job → Bool
among a ls x = any (λ j. owned a j.id x) ls

pub status_in_self : (s : JobStatus) → status_in s (s ∷ []) ≡ true
unfolding status_in any
status_in_self s = ground (arith, status_eq_iff s s)

module _ (redact : Text → Text) (now a : ℕ) where
  abbrev cancel : Job → Job
  cancel = with_status cancelled now

  -- One round of the loop, on a job that the table holds.
  abbrev round : Db → Job → Result (Option Job) × Db
  round db j =
      transition redact db now a j.id (j.status ∷ []) cancelled (text "user.cancel_queued") none

  round_lem :
      (db : Db) (j : Job)
      → get db a j.id ≡ some j
      → ((round db j).0 ≡ ok (some (cancel j)))
        × ((round db j).1.jobs ≡ update_where (owned a j.id) cancel db.jobs)
        × ((k : ℕ) → k ≢ j.id → get (round db j).1 a k ≡ get db a k)
  round_lem db j found =
      elim (transition-cases redact db now a j.id j.status [] cancelled (text "user.cancel_queued")
        none) [
          | inl (inl missing, kept) ↦ absurd (ground arith)
          | inl (inr (k, same_row, other), kept) ↦ absurd (ground (arith, status_in_self k.status))
          | inr (k, accepted, moved) ↦
              let (ia, ii) = Accepted-ids db a j.id j.status [] k accepted in
              let (returned, self, frame, event) =
                transition_row-Moves redact db now a j.id j.status [] cancelled
                  (text "user.cancel_queued") none k accepted in
              (
                ap (λ r. r.0) moved ∙ returned ∙ ground arith,
                ap (λ r. r.1.jobs) moved
                    ∙ row_jobs k
                    ∙ ap₂ (λ x y. update_where (owned x y) cancel db.jobs) ia ii,
                λ n other. ap (λ r. get r.1 a n) moved ∙ frame a n (inr other),
              )
        ]
    where
      row_jobs :
          (k : Job)
          → (transition_row redact db now k cancelled (text "user.cancel_queued") none).1.jobs
            ≡ update_where (owned k.actor_id k.id) cancel db.jobs
      row_jobs k = unfold transition_row in refl

  -- The loop over jobs that the table holds cancels exactly these, and counts them.
  cancel_jobs-rows :
      (ls : List Job) (db : Db) (count : ℕ)
      → All (λ j. get db a j.id ≡ some j) ls
      → Distinct same_id ls
      → let (total, db') = cancel_jobs redact db now a ls count in
        (total ≡ count + length ls) × (db'.jobs ≡ update_where (among a ls) cancel db.jobs)
  unfolding cancel_jobs any
  cancel_jobs-rows [] db count here apart =
      (omega arith, sym (update_where_none (among a []) cancel db.jobs (λ x. refl)))
  cancel_jobs-rows (j ∷ ls) db count here apart =
      let (result, rows, frame) = round_lem db j here.0 in
      let rest =
        cancel_jobs-rows ls (round db j).1 (count + 1)
          (All-map₂ (λ k. get db a k.id ≡ some k) (λ k. same_id j k ≡ false)
            (λ k. get (round db j).1 a k.id ≡ some k) (λ k at other. frame k.id (ground arith) ∙ at)
            ls here.1 (All-of-any-false (same_id j) ls apart.0))
          apart.1 in
      rw (result, cancel_jobs)
        (
          omega (arith, rest.0),
          rest.1
              ∙ ap (update_where (among a ls) cancel) rows
              ∙ update_where_twice (owned a j.id) (among a ls) cancel db.jobs (λ x. refl)
                  (λ x. refl),
        )

  -- The jobs that the loop runs over.
  queue-here :
      (db : Db) → IsUnique db → All (λ j. get db a j.id ≡ some j) (list_queued_for_actor db a)
  unfolding list_queued_for_actor get
  queue-here db u =
      All-sort_by (λ j. find? (owned a j.id) db.jobs ≡ some j) (λ (j : Job). j.created_at) _
        (All-map₂ (λ j. find? (has_id j.id) db.jobs ≡ some j) (λ j. is_waiting_for a j ≡ true)
          (λ j. find? (owned a j.id) db.jobs ≡ some j)
          (λ j found waits.
            find?-narrow (has_id j.id) (owned a j.id) db.jobs (λ y h. ground arith) found
              (ground arith))
          (filter (is_waiting_for a) db.jobs)
          (All-filter (λ j. find? (has_id j.id) db.jobs ≡ some j) (is_waiting_for a) db.jobs
            (Distinct-find? same_id db.jobs (λ j. ground arith) same_id_comm u.ids))
          (filter-All (is_waiting_for a) db.jobs))

  queue-Distinct : (db : Db) → IsUnique db → Distinct same_id (list_queued_for_actor db a)
  unfolding list_queued_for_actor
  queue-Distinct db u =
      Distinct-sort_by same_id (λ (j : Job). j.created_at) _ same_id_comm
        (Distinct-filter same_id (is_waiting_for a) db.jobs u.ids)

  -- A row that waits is among them.
  queue-among :
      (db : Db)
      → All (λ x. is_waiting_for a x ≡ true → among a (list_queued_for_actor db a) x ≡ true) db.jobs
  unfolding list_queued_for_actor
  queue-among db =
      of-All-filter (λ x. among a (list_queued_for_actor db a) x ≡ true) (is_waiting_for a) db.jobs
        (All-map (λ x. any (λ j. owned a j.id x) (filter (is_waiting_for a) db.jobs) ≡ true)
          (λ x. among a (list_queued_for_actor db a) x ≡ true)
          (λ x h.
            any-sort_by (λ (j : Job). j.created_at) (λ j. owned a j.id x)
              (filter (is_waiting_for a) db.jobs)
            ∙ h)
          (filter (is_waiting_for a) db.jobs)
          (All-any (λ x j. owned a j.id x) (filter (is_waiting_for a) db.jobs)
            (All-map (λ x. is_waiting_for a x ≡ true) (λ x. owned a x.id x ≡ true)
              (λ x h. ground arith) (filter (is_waiting_for a) db.jobs)
              (filter-All (is_waiting_for a) db.jobs))))

  among-actor : (ls : List Job) (x : Job) → among a ls x ≡ true → x.actor_id ≡ a
  unfolding any
  among-actor [] x h = cc
  among-actor (j ∷ ls) x h = ground (arith, among-actor ls x)

  after-idle :
      (db : Db)
      → All
          (λ x. is_waiting_for a x ≡ false)
          (update_where (among a (list_queued_for_actor db a)) cancel db.jobs)
  unfolding status_in any
  after-idle db =
      All-update_where (λ x. is_waiting_for a x ≡ false) (among a (list_queued_for_actor db a))
        cancel db.jobs (λ x e. ground arith)
        (All-map (λ x. is_waiting_for a x ≡ true → among a (list_queued_for_actor db a) x ≡ true)
          (λ x. among a (list_queued_for_actor db a) x ≡ false → is_waiting_for a x ≡ false)
          (λ x h e. elim (Bool-cases (is_waiting_for a x)) [
            | inl waits ↦ let t = h waits in cc
            | inr idle ↦ idle
          ])
          db.jobs (queue-among db))

  -- After a user's `cancel_queued_for_actor` no job of the user waits any more; the count that it
  -- returns is the number of jobs that waited; the jobs of every other user are as they were.
  pub cancel_queued-empties :
      (db : Db)
      → IsUnique db
      → let (count, db') = cancel_queued_for_actor redact db now a in
        (list_queued_for_actor db' a ≡ [])
        × (count ≡ length (list_queued_for_actor db a))
        × ((b k : ℕ) → b ≢ a → get db' b k ≡ get db b k)
  unfolding cancel_queued_for_actor get list_queued_for_actor sort_by
  cancel_queued-empties db u =
      let (count, rows) =
        cancel_jobs-rows (list_queued_for_actor db a) db 0 (queue-here db u)
          (queue-Distinct db u) in
      (
        ap (sort_by (λ (j : Job). j.created_at)) (
            ap (filter (is_waiting_for a)) rows
            ∙ filter_nil-of-All (is_waiting_for a) _ (after-idle db)),
        omega (arith, count),
        λ b k other.
            ap (find? (owned b k)) rows
            ∙ find?-update_where_ne (among a (list_queued_for_actor db a)) (owned b k) cancel
                db.jobs (λ x. refl)
                (λ x h.
                  let e : x.actor_id ≡ a = among-actor (list_queued_for_actor db a) x h in
                  ground arith),
      )
