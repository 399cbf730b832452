-- ===== src/Cancellation/Calls.antt =====
-- Which run /cancel stops: src/beachops/services/cancel_service.py.
use beachops.Base.{
  ℕ, ◌≡◌, refl, inl, inr, Bool, true, false, ◌||◌, Option, none, some, List, [], ◌∷◌, Text,
  is_empty, Bool-cases, Option-cases, arith, if◌then◌else◌,
}
use beachops.Security.{Job}
use beachops.Database.{Db, Result, ok}
use beachops.Jobs.Queries.{latest_active_for_actor}
use beachops.Cancellation.{is_missing, or_else, durable_ids, stop_run}

-- The first text that is there and not empty.
unfoldable pub first_of : List (Option Text) → Option Text
first_of [] = none
first_of (none ∷ rest) = first_of rest
first_of (some t ∷ rest) = if is_empty t then first_of rest else some t

-- The API is asked to stop a run whose agent and number are known, and no other.
abbrev pub asked :
    (Text → Text → Text → Result Bool) → Text → (agent run : Option Text) → Result Bool
asked cancel_run key none run = ok false
asked cancel_run key (some agent) none = ok false
asked cancel_run key (some agent) (some run) = cancel_run key agent run

abbrev pub job_agent : Option Job → Option Text
job_agent none = none
job_agent (some job) = job.cursor_agent_id

abbrev pub job_run : Option Job → Option Text
job_run none = none
job_run (some job) = job.cursor_run_id

pub or_else-first :
    (a b : Option Text) (rest : List (Option Text))
    → first_of (or_else a b ∷ rest) ≡ first_of (a ∷ b ∷ rest)
unfolding first_of
or_else-first none b rest = refl
or_else-first (some t) b rest = elim (Bool-cases (is_empty t)) [
  | inl e ↦ rw e refl
  | inr e ↦ rw (e, e) refl
]

first_of-known :
    (a x : Option Text) → is_missing a ≡ false → first_of (a ∷ []) ≡ first_of (a ∷ x ∷ [])
unfolding first_of
first_of-known none x h = absurd (ground arith)
first_of-known (some t) x h = rw h refl

first_of-none : (a : Option Text) → first_of (a ∷ []) ≡ first_of (a ∷ none ∷ [])
unfolding first_of
first_of-none none = refl
first_of-none (some t) = refl

pub is_missing-first : (a : Option Text) → is_missing a ≡ true → first_of (a ∷ []) ≡ none
unfolding first_of
is_missing-first none h = refl
is_missing-first (some t) h = rw h refl

pub known-first :
    (a : Option Text) → is_missing a ≡ false → (t : Text) × (first_of (a ∷ []) ≡ some t)
unfolding first_of
known-first none h = absurd (ground arith)
known-first (some t) h = (t, rw h refl)

pub stop_run-asked :
    (cancel_run : Text → Text → Text → Result Bool) (key : Text) (agent run : Option Text)
    → stop_run cancel_run key agent run
      ≡ asked cancel_run key (first_of (agent ∷ [])) (first_of (run ∷ []))
unfolding stop_run first_of
stop_run-asked cancel_run key none run = refl
stop_run-asked cancel_run key (some g) none = elim (Bool-cases (is_empty g)) [
  | inl e ↦ rw e refl
  | inr e ↦ rw e refl
]
stop_run-asked cancel_run key (some g) (some u) = elim (Bool-cases (is_empty g)) [
  | inl e ↦ rw e refl
  | inr e ↦ elim (Bool-cases (is_empty u)) [ inl f ↦ rw (e, f) refl | inr f ↦ rw (e, f) refl ]
]

-- What `durable_ids` finds is the first known agent and run, where the latest job's come last.
pub durable_ids-first :
    (redact : Text → Text) (db : Db) (now a : ℕ) (agent run : Option Text)
    → let ids = (durable_ids redact db now a agent run).0 in
      let latest = latest_active_for_actor db a in
      (first_of (ids.0 ∷ []) ≡ first_of (agent ∷ job_agent latest ∷ []))
      × (first_of (ids.1 ∷ []) ≡ first_of (run ∷ job_run latest ∷ []))
unfolding durable_ids
durable_ids-first redact db now a agent run =
    elim (Bool-cases (is_missing agent || is_missing run)) [
      | inr e ↦
          rw (e, durable_ids)
            (first_of-known agent _ (ground arith), first_of-known run _ (ground arith))
      | inl e ↦ elim (Option-cases (latest_active_for_actor db a)) [
        | inl nothing ↦ rw (e, nothing, durable_ids) (first_of-none agent, first_of-none run)
        | inr (job, latest) ↦
            rw (e, latest, durable_ids)
              (or_else-first agent job.cursor_agent_id [], or_else-first run job.cursor_run_id [])
      ]
    ]
