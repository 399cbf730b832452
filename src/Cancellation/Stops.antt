-- ===== src/Cancellation/Stops.antt =====
-- What is left of a user's work after /cancel: src/beachops/services/cancel_service.py.
use beachops.Base.{
  ℕ, ◌≡◌, ◌≢◌, ◌⊎◌, refl, sym, ap, ap₂, ◌++◌, some, List, ◌∙◌, inl, inr, Bool, true, Option, none,
  [], ◌∷◌, Text, length, ◌+◌, find?, find?-update_where, put, Option-cases, arith, if◌then◌else◌,
}
use beachops.Database.{Db, Error, Result, Result-cases, ok, raise}
use beachops.Jobs.Queries.{list_queued_for_actor, latest_active_for_actor}
use beachops.Jobs.Unique.{IsUnique}
use beachops.Jobs.Cancel.{cancel_queued-empties}
use beachops.JobQueue.{clear_pending}
use beachops.AgentSlots.{SlotDb, SlotRow, active_of, get_active, update_slots, row_to_slot}
use beachops.AgentSlots.Config.{set_active_run, slot_id_is}
use beachops.Jobs.Queue.{cancel_queued_for_actor}
use beachops.Cancellation.Emptied.{Emptied, durable_ids-Emptied}
use beachops.Cancellation.Calls.{
  first_of, asked, job_agent, job_run, or_else-first, stop_run-asked, durable_ids-first,
}
use beachops.Cancellation.Latest.{LatestCancelled, durable_ids-cancels, cancel_queued-IsUnique}
use beachops.Cancellation.{
  slot_run, slot_agent, slot_token_key, memory_agent, memory_run, or_else,
  normalize_cursor_token_key, CancelOutcome, Work, durable_ids, stop_run, release, clear_waiting,
  cancel_user_work,
}

put-here {ℓ} : {A : Type ℓ} (f : ℕ → A) (k : ℕ) (v : A) → put f k v k ≡ v
put-here f k v = ground arith

put-other {ℓ} : {A : Type ℓ} (f : ℕ → A) (k b : ℕ) (v : A) → b ≢ k → put f k v b ≡ f b
put-other f k b v other = ground arith

-- The active slot, once it is released, has no run.
release-unbinds :
    (slots : SlotDb) (now a : ℕ)
    → slot_run (get_active (release slots now (get_active slots a)) a) ≡ none
unfolding get_active set_active_run update_slots row_to_slot
release-unbinds slots now a = elim (Option-cases (find? (active_of a) slots.user_agent_slots)) [
  | inl missing ↦ rw (missing, missing) refl
  | inr (s, there) ↦
      let after =
        find?-update_where (slot_id_is s.id) (active_of a)
          (λ (x : SlotRow). record x { active_run_id = none; updated_at = now })
          slots.user_agent_slots (λ x. refl) in
      rw (there, after, there) (unbound s)
]
  where
    unbound :
        (s : SlotRow)
        → (if slot_id_is s.id s
            then record s { active_run_id = none; updated_at = now }
            else s).active_run_id
          ≡ none
    unbound s = ground arith

abbrev pub counted : Bool → ℕ → Result CancelOutcome
counted stopped n =
    ok (record { cancelled_run = stopped; cleared_queue = n; cancel_requested = true })

module _ {J : Type 0} where
  -- The flags and the queues after /cancel.
  abbrev pub Cleared : (a : ℕ) → Work J → Work J → Type 0
  Cleared a before after =
      Emptied a before.db after.db
      × (after.job_queue.pending a ≡ [])
      × (after.job_queue.cancel_requested a ≡ true)
      × (after.cancel_store a ≡ true)
      × ((b : ℕ)
          → b ≢ a
          → (after.job_queue.pending b ≡ before.job_queue.pending b)
            × (after.job_queue.cancel_requested b ≡ before.job_queue.cancel_requested b)
            × (after.cancel_store b ≡ before.cancel_store b))

-- The tables once the user's queued jobs are cancelled.
abbrev pub without_queue : (Text → Text) → Db → (now a : ℕ) → Db
without_queue redact db now a = (cancel_queued_for_actor redact db now a).1

-- The texts that may name the agent and the run, the preferred ones first.
abbrev pub agents : {J : Type 0} → Work J → ℕ → List (Option Text)
agents w a = slot_agent (get_active w.slots a) ∷ memory_agent (w.active_runs a) ∷ []

abbrev pub runs : {J : Type 0} → Work J → ℕ → List (Option Text)
runs w a = slot_run (get_active w.slots a) ∷ memory_run (w.active_runs a) ∷ []

module _ {J : Type 0} (redact : Text → Text) (cancel_run : Text → Text → Text → Result Bool) where
  -- What becomes of the job that runs: nothing where the slot and the memory of the process name both
  -- the agent and the run; else the latest active job is cancelled.
  abbrev pub JobStopped : (now a : ℕ) → Work J → Db → Type 0
  JobStopped now a before after =
      ((t u : Text) × (first_of (agents before a) ≡ some t)
        × (first_of (runs before a) ≡ some u)
        × (after ≡ without_queue redact before.db now a))
      ⊎ (((first_of (agents before a) ≡ none) ⊎ (first_of (runs before a) ≡ none))
          × LatestCancelled now a (without_queue redact before.db now a) after)

  -- The call for the run: of the agent and the run that the slot, the memory or the latest active job
  -- name, if both are known.
  abbrev pub called : (now a : ℕ) → Work J → Result Bool
  called now a before =
      let latest = latest_active_for_actor (without_queue redact before.db now a) a in
      asked cancel_run (normalize_cursor_token_key (slot_token_key (get_active before.slots a)))
        (first_of (agents before a ++ job_agent latest ∷ []))
        (first_of (runs before a ++ job_run latest ∷ []))

  -- How all ends: the call raises and slots and memory stay, or its answer is in the outcome and the
  -- user's run is let go.
  abbrev pub Ended : (now a : ℕ) → Work J → Result CancelOutcome × Work J → Type 0
  Ended now a before (r, after) =
      ((e : Error) × (called now a before ≡ raise e)
        × (r ≡ raise e)
        × (after.slots ≡ before.slots)
        × (after.active_runs ≡ before.active_runs))
      ⊎ ((stopped : Bool) × (called now a before ≡ ok stopped)
          × (r
              ≡ counted stopped (
                  length (before.job_queue.pending a) + length (list_queued_for_actor before.db a)))
          × (slot_run (get_active after.slots a) ≡ none)
          × (after.active_runs a ≡ none))

module _ {J : Type 0} (redact : Text → Text) (cancel_run : Text → Text → Text → Result Bool) where
  clear_waiting-Cleared :
      (w : Work J) (now a : ℕ)
      → IsUnique w.db
      → ((clear_waiting redact cancel_run w now a).0
          ≡ length (w.job_queue.pending a) + length (list_queued_for_actor w.db a))
        × Cleared a w (clear_waiting redact cancel_run w now a).1
  unfolding clear_waiting clear_pending
  clear_waiting-Cleared w now a unique =
      let (emptied, count, others) = cancel_queued-empties redact now a w.db unique in
      (
        ap (λ n. length (w.job_queue.pending a) + n) count,
        (
          (emptied, others),
          put-here w.job_queue.pending a [],
          put-here w.job_queue.cancel_requested a true,
          put-here w.cancel_store a true,
          λ b other. (
            put-other w.job_queue.pending a b [] other,
            put-other w.job_queue.cancel_requested a b true other,
            put-other w.cancel_store a b true other,
          ),
        ),
      )

  -- `cancel_user_work` makes this call.
  stop_run-called :
      (w : Work J) (now a : ℕ)
      → let agent = or_else (slot_agent (get_active w.slots a)) (memory_agent (w.active_runs a)) in
        let run = or_else (slot_run (get_active w.slots a)) (memory_run (w.active_runs a)) in
        let ids = (durable_ids redact (without_queue redact w.db now a) now a agent run).0 in
        stop_run cancel_run
          (normalize_cursor_token_key (slot_token_key (get_active w.slots a)))
          ids.0
          ids.1
        ≡ called redact cancel_run now a w
  stop_run-called w now a =
      let slot = get_active w.slots a in
      let memory = w.active_runs a in
      let db = without_queue redact w.db now a in
      let latest = latest_active_for_actor db a in
      let (agent, run) =
        durable_ids-first redact db now a (or_else (slot_agent slot) (memory_agent memory))
          (or_else (slot_run slot) (memory_run memory)) in
      stop_run-asked cancel_run _ _ _
      ∙ ap₂ (asked cancel_run _)
          (agent ∙ or_else-first (slot_agent slot) (memory_agent memory) (job_agent latest ∷ []))
          (run ∙ or_else-first (slot_run slot) (memory_run memory) (job_run latest ∷ []))

  durable_ids-JobStopped :
      (w : Work J) (now a : ℕ)
      → IsUnique w.db
      → let agent = or_else (slot_agent (get_active w.slots a)) (memory_agent (w.active_runs a)) in
        let run = or_else (slot_run (get_active w.slots a)) (memory_run (w.active_runs a)) in
        JobStopped redact cancel_run now a w
          (durable_ids redact (without_queue redact w.db now a) now a agent run).1
  durable_ids-JobStopped w now a unique =
      let slot = get_active w.slots a in
      let memory = w.active_runs a in
      rw
        (
          ← or_else-first (slot_agent slot) (memory_agent memory) [],
          ← or_else-first (slot_run slot) (memory_run memory) [],
        )
        (durable_ids-cancels redact now a (without_queue redact w.db now a)
          (or_else (slot_agent slot) (memory_agent memory))
          (or_else (slot_run slot) (memory_run memory))
          (cancel_queued-IsUnique redact now a w.db unique))

  -- Where identifiers are unique, /cancel stops a user's work. No job of the user waits any more in
  -- the tables or in the queue of the process, and both flags are set; the jobs, the queue and the
  -- flags of every other user are as they were. Where the active slot and the memory of the process
  -- do not name both the agent and the run, the user's latest running or planning job, if there is
  -- one, is cancelled and no other job that was left. If slot, memory and that job, in this order,
  -- name both, the API is asked to stop that run: its answer is in the outcome, and an exception of
  -- it is the outcome, with slots and memory as they were. If they do not, nothing is asked and the
  -- outcome says that no run was stopped. Unless the API raises, the outcome counts what waited, and
  -- the active slot and the memory have no run of the user.
  pub cancel_user_work-stops :
      (w : Work J) (now a : ℕ)
      → IsUnique w.db
      → let out = cancel_user_work redact cancel_run w now a in
        Cleared a w out.1
        × JobStopped redact cancel_run now a w out.1.db
        × Ended redact cancel_run now a w out
  unfolding cancel_user_work clear_waiting
  cancel_user_work-stops w now a unique =
      let (count, (emptied, queue, flag, store, others)) = clear_waiting-Cleared w now a unique in
      let slot = get_active w.slots a in
      let active = w.active_runs a in
      let agent = or_else (slot_agent slot) (memory_agent active) in
      let run = or_else (slot_run slot) (memory_run active) in
      let waiting = (clear_waiting redact cancel_run w now a).1.db in
      let ids = (durable_ids redact waiting now a agent run).0 in
      let key = normalize_cursor_token_key (slot_token_key slot) in
      let left = durable_ids-Emptied redact now a w.db waiting agent run emptied in
      let job = durable_ids-JobStopped w now a unique in
      let call = stop_run-called w now a in
      elim (Result-cases (stop_run cancel_run key ids.0 ids.1)) [
        | inl (e, lost) ↦
            rw (lost, cancel_user_work)
              ((left, queue, flag, store, others), job, inl (e, sym call ∙ lost, refl, refl, refl))
        | inr (stopped, told) ↦
            rw (told, cancel_user_work)
              (
                (left, queue, flag, store, others),
                job,
                inr (
                  stopped,
                  sym call ∙ told,
                  ap (counted stopped) count,
                  release-unbinds w.slots now a,
                  put-here w.active_runs a none,
                ),
              )
      ]
