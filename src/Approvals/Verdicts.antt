-- ===== src/Approvals/Verdicts.antt =====
-- What a decision of src/beachops/db/repositories/approvals.py needs and writes, in plain terms.
use beachops.Base.{
  ℕ, ◌<◌, ◌≡◌, refl, ap, ◌∙◌, ◌↔◌, ◌⊎◌, inl, inr, Bool, true, Option, none, some, List, [], ◌∷◌,
  ◌++◌, Text, any, any-append, Bool-cases, arith,
}
use beachops.Security.{Role, owner, Approval, Decision}
use beachops.Authz.{role_eq}
use beachops.Database.{Db, User}
use beachops.Approvals.{get, is_pending, is_owner, is_verdict, with_decision, safe_reason}

any-splits :
    {A : Type 0} (p : A → Bool) (xs : List A)
    → (any p xs ≡ true)
      ↔ ((before after : List A) × (x : A) × (xs ≡ before ++ x ∷ after) × (p x ≡ true))
unfolding any
any-splits {A} p xs = (split xs, joined)
  where
    split :
        (ys : List A)
        → any p ys ≡ true
        → (before after : List A) × (x : A) × (ys ≡ before ++ x ∷ after) × (p x ≡ true)
    split [] h = absurd (ground arith)
    split (y ∷ ys) h = elim (Bool-cases (p y)) [
      | inl e ↦ ([], ys, y, refl, e)
      | inr e ↦
          let (before, after, x, at, hit) = split ys (ground arith) in
          (y ∷ before, after, x, ap (λ zs. y ∷ zs) at, hit)
    ]

    joined :
        (before after : List A) × (x : A) × (xs ≡ before ++ x ∷ after) × (p x ≡ true)
        → any p xs ≡ true
    joined (before, after, x, at, hit) = rw at (any-append p before (x ∷ after) ∙ ground arith)

-- The decider has a row in the table of users, with the role of an owner.
abbrev pub HasOwner : Db → ℕ → Type 0
HasOwner db by =
    (before after : List User) × (u : User) × (db.users ≡ before ++ u ∷ after)
    × (u.tg_user_id ≡ by)
    × (u.role ≡ owner)

pub of_role : (r : Role) → (role_eq r owner ≡ true) ↔ (r ≡ owner)
unfolding role_eq
of_role Role.viewer = (λ h. ground arith, λ h. ground arith)
of_role Role.operator = (λ h. ground arith, λ h. ground arith)
of_role owner = (λ h. refl, λ h. refl)

pub is_owner-HasOwner : (db : Db) (by : ℕ) → (is_owner db by ≡ true) ↔ HasOwner db by
unfolding is_owner role_eq
is_owner-HasOwner db by = (there, back)
  where
    there : is_owner db by ≡ true → HasOwner db by
    there h =
        let (before, after, u, at, hit) = (any-splits _ db.users).0 h in
        (before, after, u, at, ground arith, (of_role u.role).0 (ground arith))

    back : HasOwner db by → is_owner db by ≡ true
    back (before, after, u, at, id, role) =
        (any-splits _ db.users).1 (before, after, u, at, ground arith)

-- The row that `decide` leaves, and what it needs.
abbrev pub Decided :
    (Text → Text) → Db → (now a i by : ℕ) → Role → Decision → Option Text → Approval → Type 0
Decided redact db now a i by role decision reason y =
    (role ≡ owner)
    × ((decision ≡ Decision.approved) ⊎ (decision ≡ Decision.rejected))
    × HasOwner db by
    × ((x : Approval) × (get db a i ≡ some x)
        × (x.decision ≡ Decision.pending)
        × (now < x.expires_at)
        × (y ≡ record {
          id = x.id;
          job_id = x.job_id;
          actor_id = x.actor_id;
          kind = x.kind;
          decision = decision;
          requested_at = x.requested_at;
          expires_at = x.expires_at;
          decided_by = some by;
          decided_at = some now;
          reason = elim reason [ none ↦ none | some t ↦ some (redact t) ];
        }))

pub of_verdict :
    (d : Decision) → (is_verdict d ≡ true) ↔ ((d ≡ Decision.approved) ⊎ (d ≡ Decision.rejected))
unfolding is_verdict
of_verdict Decision.pending = (λ h. ground arith, λ h. ground arith)
of_verdict Decision.approved = (λ h. inl refl, λ h. refl)
of_verdict Decision.rejected = (λ h. inr refl, λ h. refl)
of_verdict Decision.expired = (λ h. ground arith, λ h. ground arith)
of_verdict Decision.cancelled = (λ h. ground arith, λ h. ground arith)

pub of_pending : (d : Decision) → (is_pending d ≡ true) ↔ (d ≡ Decision.pending)
unfolding is_pending
of_pending Decision.pending = (λ h. refl, λ h. refl)
of_pending Decision.approved = (λ h. ground arith, λ h. ground arith)
of_pending Decision.rejected = (λ h. ground arith, λ h. ground arith)
of_pending Decision.expired = (λ h. ground arith, λ h. ground arith)
of_pending Decision.cancelled = (λ h. ground arith, λ h. ground arith)

pub with_decision_lem :
    (redact : Text → Text) (decision : Decision) (by now : ℕ) (reason : Option Text) (x : Approval)
    → with_decision decision by now (safe_reason redact reason) x ≡ record {
      id = x.id;
      job_id = x.job_id;
      actor_id = x.actor_id;
      kind = x.kind;
      decision = decision;
      requested_at = x.requested_at;
      expires_at = x.expires_at;
      decided_by = some by;
      decided_at = some now;
      reason = elim reason [ none ↦ none | some t ↦ some (redact t) ];
    }
with_decision_lem redact decision by now none x = refl
with_decision_lem redact decision by now (some t) x = refl
