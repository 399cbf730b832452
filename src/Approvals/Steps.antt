-- ===== src/Approvals/Steps.antt =====
-- The writes of src/beachops/db/repositories/approvals.py as a step relation, and the
-- identifiers of its rows.
use beachops.Base.{
  ℕ, ◌==◌, ◌≡◌, refl, inl, inr, ◌⊎◌, Bool, true, false, Option, List, [], ◌∷◌, ◌++◌, Text, any,
  find?, update_where, Distinct, Distinct-update_where, Distinct-snoc, Bool-cases, Option-cases,
  arith,
}
use beachops.Authz.{role_eq}
use beachops.Security.{Role, owner, Approval, ApprovalKind, Decision}
use beachops.Database.{Db, ok, raise, Error, permission_error, value_error, update_returning}
use beachops.Jobs.{owned}
use beachops.Approvals.{
  create, decide, expire_pending, conflicts, new_approval, is_pending, is_open, is_verdict,
  is_decidable, with_decision, safe_reason, is_overdue, with_expiry,
}

pub data Step (redact : Text → Text) (db db' : Db) : Type 0 where
  creates :
      (now a job : ℕ) (kind : ApprovalKind) (expires_at id : ℕ)
      → db' ≡ (create db now a job kind expires_at id).1
      → Step redact db db'
  decides :
      (now a i by : ℕ) (role : Role) (decision : Decision) (reason : Option Text)
      → db' ≡ (decide redact db now a i by role decision reason).1
      → Step redact db db'
  expires : (now : ℕ) → db' ≡ (expire_pending db now).1 → Step redact db db'

pub data Reach (redact : Text → Text) (db : Db) : Db → Type 0 where
  here : Reach redact db db
  next : {t u : Db} → Reach redact db t → Step redact t u → Reach redact db u

-- What the writes do to the rows: open rows are replaced, identifiers kept, or a row is added whose
-- identifier is new.
pub data Rewrites (db db' : Db) : Type 0 where
  same : db'.approvals ≡ db.approvals → Rewrites db db'
  updated :
      (p : Approval → Bool) (f : Approval → Approval)
      → ((x : Approval) → (f x).id ≡ x.id)
      → ((x : Approval) → (f x).actor_id ≡ x.actor_id)
      → ((x : Approval) → p x ≡ true → is_pending x.decision ≡ true)
      → db'.approvals ≡ update_where p f db.approvals
      → Rewrites db db'
  added :
      (x : Approval)
      → any (λ (y : Approval). y.id == x.id) db.approvals ≡ false
      → db'.approvals ≡ db.approvals ++ x ∷ []
      → Rewrites db db'

-- A row that conflicts with nothing has a new identifier.
fresh_id :
    (id job : ℕ) (kind : ApprovalKind) (xs : List Approval)
    → any (conflicts id job kind) xs ≡ false
    → any (λ (y : Approval). y.id == id) xs ≡ false
unfolding any
fresh_id id job kind [] h = refl
fresh_id id job kind (x ∷ xs) h = ground (arith, fresh_id id job kind xs)

module _ (redact : Text → Text) (db : Db) (now a i by : ℕ) (role : Role) (decision : Decision)
    (reason : Option Text) where
  -- The statement of `decide`.
  abbrev statement : Option Approval × List Approval
  statement =
      update_returning (is_decidable db now a i by)
        (with_decision decision by now (safe_reason redact reason)) db.approvals

  pub decide-cases :
      ((e : Error) × (decide redact db now a i by role decision reason ≡ (raise e, db)))
      ⊎ ((role_eq role owner ≡ true)
          × (is_verdict decision ≡ true)
          × (decide redact db now a i by role decision reason
              ≡ (ok statement.0, record db { approvals = statement.1 })))
  unfolding decide
  decide-cases = elim (Bool-cases (role_eq role owner)) [
    | inr other ↦ inl (permission_error, rw (other, decide))
    | inl owns ↦ elim (Bool-cases (is_verdict decision)) [
      | inr other ↦ inl (value_error, rw (owns, other, decide))
      | inl verdict ↦ inr (owns, verdict, rw (owns, verdict, decide))
    ]
  ]

  decides-Rewrites : Rewrites db (decide redact db now a i by role decision reason).1
  unfolding update_returning is_decidable is_open
  decides-Rewrites = elim decide-cases [
    | inl (x, refused) ↦ same (rw refused)
    | inr (owns, verdict, done) ↦
        updated (is_decidable db now a i by)
          (with_decision decision by now (safe_reason redact reason)) (λ x. refl) (λ x. refl)
          (λ x h. ground arith) (rw done)
  ]

pub Step-Rewrites : {redact : Text → Text} {t u : Db} → Step redact t u → Rewrites t u
unfolding create expire_pending
Step-Rewrites {t = t} (creates now a job kind expires_at id e) =
    elim (Option-cases (find? (owned a job) t.jobs)) [
      | inl missing ↦ same (ground arith)
      | inr (j, found) ↦ elim (Bool-cases (any (conflicts id j.id kind) t.approvals)) [
        | inl clash ↦ same (ground arith)
        | inr fresh ↦
            added (new_approval id j.id j.actor_id kind expires_at now)
              (fresh_id id j.id kind t.approvals fresh) (ground arith)
      ]
    ]
Step-Rewrites {redact} {t} (decides now a i by role decision reason e) =
    rw e (decides-Rewrites redact t now a i by role decision reason)
Step-Rewrites (expires now e) =
    updated (is_overdue now) (with_expiry now) (λ x. refl) (λ x. refl) (λ x h. ground arith) (rw e)

abbrev pub same_id : Approval → Approval → Bool
same_id x y = y.id == x.id

pub same_id_comm : (x y : Approval) → same_id x y ≡ same_id y x
same_id_comm x y = ground arith

abbrev pub IsUnique : Db → Type 0
IsUnique db = Distinct same_id db.approvals

Rewrites-IsUnique : {t u : Db} → Rewrites t u → IsUnique t → IsUnique u
Rewrites-IsUnique (same e) h = rw e h
Rewrites-IsUnique {t} (updated p f id actor open_row e) h = rw e (
    Distinct-update_where same_id p f t.approvals (λ x y. ground (arith, id x))
      (λ x y. ground (arith, id y)) h)
Rewrites-IsUnique {t} (added x fresh e) h =
    rw e (Distinct-snoc same_id t.approvals x same_id_comm fresh h)

pub Reach-IsUnique : {redact : Text → Text} {t u : Db} → Reach redact t u → IsUnique t → IsUnique u
Reach-IsUnique here h = h
Reach-IsUnique (next r s) h = Rewrites-IsUnique (Step-Rewrites s) (Reach-IsUnique r h)
