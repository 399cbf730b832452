-- ===== src/Jobs/Audit/Replay.antt =====
-- Laws of `replay`.
use beachops.Base.{
  ℕ, ◌≡◌, inl, inr, true, false, none, some, List, [], ◌∷◌, ◌++◌, Option-cases, arith,
}
use beachops.Security.{JobStatus, status_eq_iff}
use beachops.Database.{JobEvent}
use beachops.Jobs.Audit.{is_about, apply_event, replay}

pub replay-snoc :
    (a i : ℕ) (s : JobStatus) (es : List JobEvent) (e : JobEvent) {t : JobStatus}
    → replay a i s es ≡ some t
    → replay a i s (es ++ e ∷ []) ≡ apply_event a i t e
unfolding replay
replay-snoc a i s [] e {t} h = elim (Option-cases (apply_event a i t e)) [
  | inl stop ↦ ground arith
  | inr (u, go) ↦ ground arith
]
replay-snoc a i s (d ∷ es) e {t} h = elim (Option-cases (apply_event a i s d)) [
  | inl stop ↦ absurd (ground arith)
  | inr (u, go) ↦ ground (arith, replay-snoc a i u es e {t = t})
]

-- An event about another job changes nothing, and one without statuses neither.
pub apply_event-other :
    (a i : ℕ) (s : JobStatus) (e : JobEvent) → is_about a i e ≡ false → apply_event a i s e ≡ some s
unfolding apply_event
apply_event-other a i s e h = rw h

pub apply_event-note :
    (a i : ℕ) (s : JobStatus) (e : JobEvent) → e.from_status ≡ none → apply_event a i s e ≡ some s
unfolding apply_event
apply_event-note a i s e h = ground arith

pub apply_event-move :
    (a i : ℕ) (s t : JobStatus) (e : JobEvent)
    → is_about a i e ≡ true
    → e.from_status ≡ some s
    → e.to_status ≡ some t
    → apply_event a i s e ≡ some t
unfolding apply_event
apply_event-move a i s t e h f g = ground (arith, status_eq_iff s s)
