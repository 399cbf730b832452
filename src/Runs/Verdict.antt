-- ===== src/Runs/Verdict.antt =====
-- The verdict of src/beachops/services/run_finalizer.py on a run, spelled out.
use beachops.Base.{
  ◌≡◌, refl, inl, inr, Bool, true, false, not, ◌&&◌, none, some, Option-cases, if◌then◌else◌, Text,
  text, text_eq, is_empty,
}
use beachops.Security.{JobStatus}
use beachops.Runs.{RunOutcome, is_success, verdict}

-- Where a run leads its job: what was cancelled is cancelled, what finished without an error message
-- (or with an empty one) has succeeded, and all else has failed.
abbrev pub fate : RunOutcome → JobStatus
fate outcome =
    if text_eq outcome.status (text "cancelled")
    then JobStatus.cancelled
    else if text_eq outcome.status (text "finished")
        && elim outcome.error_message [ none ↦ true | some message ↦ is_empty message ]
    then JobStatus.succeeded
    else JobStatus.failed

pub verdict-fate : (outcome : RunOutcome) → (verdict outcome).0 ≡ fate outcome
unfolding verdict is_success
verdict-fate outcome = elim (Option-cases outcome.error_message) [
  | inl missing ↦
      rw (missing, verdict, is_success)
        (go (text_eq outcome.status (text "cancelled")) (text_eq outcome.status (text "finished"))
          true)
  | inr (message, there) ↦
      rw (there, verdict, is_success)
        (go (text_eq outcome.status (text "cancelled")) (text_eq outcome.status (text "finished"))
          (is_empty message))
]
  where
    go :
        (c f e : Bool)
        → let decided : JobStatus × Text =
            (if c
              then (JobStatus.cancelled, text "finalizer.cancelled")
              else if f && not (not e)
              then (JobStatus.succeeded, text "finalizer.finished")
              else (JobStatus.failed, text "finalizer.failed")) in
          decided.0 ≡ (
            if c
            then JobStatus.cancelled
            else if f && e
            then JobStatus.succeeded
            else JobStatus.failed)
    go true f e = refl
    go false true true = refl
    go false true false = refl
    go false false e = refl
