-- ===== src/Jobs/Audit.antt =====
-- The events of a job, read as a log of its status: the writes of jobs and events in
-- src/beachops/db/repositories/jobs.py as a step relation.
mod Replay
mod Keep
pub mod Trail
use beachops.Base.{
  ℕ, suc, ◌+◌, ◌==◌, ◌≡◌, refl, sym, ◌∙◌, ap, ◌≢◌, ◌⊎◌, inl, inr, Bool, true, false, not, ◌&&◌,
  Option, none, some, List, [], ◌∷◌, ◌++◌, Text, any, find?, find?-sound, find?-append,
  find?-none_iff, update_where, Bool-cases, Option-cases, is_some, arith, if◌then◌else◌, ==_iff,
}
use beachops.Security.{Job, JobStatus, running, status_eq, status_eq_iff}
use beachops.Redaction.{Json}
use beachops.Database.{Result, ok, raise, Db, JobEvent, status_in, has_user}
use beachops.Jobs.{
  NewJob, owned, has_id, same_key, new_row, create, transition, transition_row, append_event,
  update_owned, with_status, add_event,
}
use beachops.Jobs.Queries.{get}
use beachops.Jobs.Runtime.{RuntimeColumns, set_runtime, RunResult, set_result, mark_finalized}
use beachops.Jobs.Transition.{transition-cases, Accepted-ids, Moves, transition_row-Moves}

abbrev pub is_about : ℕ → ℕ → JobEvent → Bool
is_about actor_id job_id e = (e.job_id == job_id) && (e.actor_id == actor_id)

-- An event that names two statuses applies at its old one; an event that names none is a note.
unfoldable pub apply_statuses : Option JobStatus → Option JobStatus → JobStatus → Option JobStatus
apply_statuses (some old) (some new) s = if status_eq old s then some new else none
apply_statuses (some old) none s = some s
apply_statuses none _ s = some s

unfoldable pub apply_event : ℕ → ℕ → JobStatus → JobEvent → Option JobStatus
unfolding apply_statuses
apply_event actor_id job_id s e =
    if is_about actor_id job_id e then apply_statuses e.from_status e.to_status s else some s

-- The status of a job after its events, from the status that it was created in; `none` if an event
-- does not fit the status before it.
unfoldable pub replay : ℕ → ℕ → JobStatus → List JobEvent → Option JobStatus
replay actor_id job_id s [] = some s
replay actor_id job_id s (e ∷ es) = elim (apply_event actor_id job_id s e) [
  | none ↦ none
  | some t ↦ replay actor_id job_id t es
]

-- The events of every job without a Windows worker lead from the status of its creation to its status,
-- and a job that is not there has no events that change a status.
pub record IsAudited (start : ℕ → ℕ → JobStatus) (db : Db) : Type 0 where
  pub present :
      (a i : ℕ) (j : Job)
      → get db a i ≡ some j
      → j.worker_node_id ≡ none
      → replay a i (start a i) db.job_events ≡ some j.status
  pub absent :
      (a i : ℕ) → get db a i ≡ none → replay a i (start a i) db.job_events ≡ some (start a i)

-- The operations that write jobs or events, apart from the claim of a Windows worker, which
-- Jobs/History.antt adds. `start` is the
-- status that each job is created in.
pub data Step (redact : Text → Text) (start : ℕ → ℕ → JobStatus) (db db' : Db) : Type 0 where
  creates :
      (now : ℕ) (n : NewJob)
      → n.status ≡ start n.actor_id n.id
      → db' ≡ (create redact db now n).1
      → Step redact start db db'
  transitions :
      (now a i : ℕ) (from : List JobStatus) (to : JobStatus) (event_type : Text)
      (details : Option Json)
      → db' ≡ (transition redact db now a i from to event_type details).1
      → Step redact start db db'
  notes :
      (now a i : ℕ) (event_type : Text) (details : Option Json)
      → db' ≡ (append_event redact db now a i event_type details).1
      → Step redact start db db'
  runs :
      (now a i : ℕ) (c : RuntimeColumns)
      → db' ≡ (set_runtime db now a i c).1
      → Step redact start db db'
  results :
      (now a i : ℕ) (r : RunResult)
      → db' ≡ (set_result redact db now a i r).1
      → Step redact start db db'
  finalizes : (now a i : ℕ) → db' ≡ (mark_finalized db now a i).1 → Step redact start db db'
