-- ===== src/Approvals.antt =====
-- ApprovalRepository, src/beachops/db/repositories/approvals.py, over the table of
-- alembic/versions/012_beachops_security.py. `now` is SQL's `now()`.
pub mod Steps
pub mod Verdicts
pub mod Final
use beachops.Base.{
  ℕ, suc, ◌+◌, ◌==◌, Bool, true, false, not, ◌&&◌, ◌||◌, Option, none, some, List, [], ◌∷◌, ◌++◌,
  Text, ltb, leb, if◌then◌else◌, any, find?, filter, sort_by, take, length, update_where,
}
use beachops.Security.{
  Role, owner, Approval, ApprovalKind, Decision, pending, approved, rejected, expired, cancelled,
  kind_eq,
}
use beachops.Authz.{role_eq, require_owner}
use beachops.Database.{
  Error, Result, ok, raise, unique_violation, permission_error, value_error, Db, User,
  update_returning,
}
use beachops.Jobs.{owned}
use beachops.Jobs.Queries.{clamp_limit}

unfoldable pub is_pending : Decision → Bool
is_pending pending = true
is_pending approved = false
is_pending rejected = false
is_pending expired = false
is_pending cancelled = false

-- `decision in {APPROVED, REJECTED}`
unfoldable pub is_verdict : Decision → Bool
is_verdict pending = false
is_verdict approved = true
is_verdict rejected = true
is_verdict expired = false
is_verdict cancelled = false

-- The row that `create` inserts.
abbrev pub new_approval : (id job_id actor_id : ℕ) → ApprovalKind → (expires_at now : ℕ) → Approval
new_approval id job_id actor_id kind expires_at now = record {
  id = id;
  job_id = job_id;
  actor_id = actor_id;
  kind = kind;
  decision = pending;
  requested_at = now;
  expires_at = expires_at;
  decided_by = none;
  decided_at = none;
  reason = none;
}

-- The primary key, and the constraint UNIQUE (job_id, kind).
abbrev pub conflicts : (id job_id : ℕ) → ApprovalKind → Approval → Bool
conflicts id job_id kind a = (a.id == id) || ((a.job_id == job_id) && kind_eq a.kind kind)

unfoldable pub create :
    Db
    → (now actor_id job_id : ℕ) → ApprovalKind
    → (expires_at id : ℕ) → Result (Option Approval) × Db
unfolding find? any
create db now actor_id job_id kind expires_at id = elim (find? (owned actor_id job_id) db.jobs) [
  | none ↦ (ok none, db)
  | some j ↦ if any (conflicts id j.id kind) db.approvals then (raise unique_violation, db) else (
    ok (some (new_approval id j.id j.actor_id kind expires_at now)),
    record db {
      approvals = db.approvals ++ new_approval id j.id j.actor_id kind expires_at now ∷ [];
    },
  )
]

abbrev pub approval_of : (actor_id id : ℕ) → Approval → Bool
approval_of actor_id id a = (a.id == id) && (a.actor_id == actor_id)

unfoldable pub get : Db → (actor_id approval_id : ℕ) → Option Approval
unfolding find?
get db actor_id approval_id = find? (approval_of actor_id approval_id) db.approvals

unfoldable pub get_internal : Db → ℕ → Option Approval
unfolding find?
get_internal db approval_id = find? (λ (a : Approval). a.id == approval_id) db.approvals

-- `decision = 'pending' AND expires_at > now()`
unfoldable pub is_open : ℕ → Approval → Bool
unfolding is_pending
is_open now a = is_pending a.decision && ltb now a.expires_at

unfoldable pub list_pending : Db → (now limit : ℕ) → List Approval
unfolding filter sort_by is_open clamp_limit
list_pending db now limit =
    take (clamp_limit 200 limit)
      (sort_by (λ (a : Approval). a.requested_at) (filter (is_open now) db.approvals))

unfoldable pub get_for_job : Db → (actor_id job_id : ℕ) → ApprovalKind → Option Approval
unfolding find? kind_eq
get_for_job db actor_id job_id kind =
    find?
      (λ (a : Approval). (a.actor_id == actor_id) && (a.job_id == job_id) && kind_eq a.kind kind)
      db.approvals

-- The join of `decide` with the users: the decider is in the table as an owner.
unfoldable pub is_owner : Db → ℕ → Bool
unfolding any role_eq
is_owner db uid = any (λ (u : User). (u.tg_user_id == uid) && role_eq u.role owner) db.users

unfoldable pub is_decidable : Db → (now actor_id approval_id decided_by : ℕ) → Approval → Bool
unfolding is_open is_owner
is_decidable db now actor_id approval_id decided_by a =
    approval_of actor_id approval_id a && is_open now a && is_owner db decided_by

abbrev pub with_decision : Decision → (decided_by now : ℕ) → Option Text → Approval → Approval
with_decision decision decided_by now reason a = record a {
  decision = decision;
  decided_by = some decided_by;
  decided_at = some now;
  reason = reason;
}

-- `redact_text(reason) if reason is not None else None`
abbrev pub safe_reason : (Text → Text) → Option Text → Option Text
safe_reason redact none = none
safe_reason redact (some reason) = some (redact reason)

unfoldable pub decide :
    (Text → Text)
    → Db
    → (now actor_id approval_id decided_by : ℕ) → Role
    → Decision
    → Option Text
    → Result (Option Approval) × Db
unfolding require_owner is_verdict is_decidable update_returning
decide redact db now actor_id approval_id decided_by decider_role decision reason =
    if not (require_owner (some decider_role))
    then (raise permission_error, db)
    else if not (is_verdict decision)
    then (raise value_error, db)
    else (let (row, rows) =
          update_returning (is_decidable db now actor_id approval_id decided_by)
            (with_decision decision decided_by now (safe_reason redact reason)) db.approvals in
        (ok row, record db { approvals = rows }))

-- `decision = 'pending' AND expires_at <= now()`
unfoldable pub is_overdue : ℕ → Approval → Bool
unfolding is_pending
is_overdue now a = is_pending a.decision && leb a.expires_at now

abbrev pub with_expiry : ℕ → Approval → Approval
with_expiry now a = record a { decision = expired; decided_at = some now }

unfoldable pub expire_pending : Db → ℕ → ℕ × Db
unfolding filter update_where is_overdue
expire_pending db now = (
  length (filter (is_overdue now) db.approvals),
  record db { approvals = update_where (is_overdue now) (with_expiry now) db.approvals },
)
