-- ===== src/Approvals/Final.antt =====
-- Decisions of src/beachops/db/repositories/approvals.py: who takes them, and what later writes do
-- to them.
use beachops.Base.{
  ℕ, ◌<◌, ◌≤◌, leb, ◌&&◌, ◌≡◌, refl, ◌∙◌, ap, ◌≢◌, inl, inr, Bool, true, false, Option, some, [],
  ◌∷◌, Text, find?, find?-sound, find?-same, find?-narrow, ◌↔◌, ◌⊎◌, sym, Bool-cases,
  find?-update_where, find?-append, update_where, All, All-update_where, All-map, update_where_idle,
  ap₂, All-every, filter, filter_nil-of-All, length, Option-cases, arith, ltb→lt,
}
use beachops.Security.{Role, Approval, Decision}
use beachops.Approvals.Verdicts.{
  Decided, of_role, of_verdict, of_pending, is_owner-HasOwner, with_decision_lem,
}
use beachops.Database.{Db, ok, update_returning}
use beachops.Approvals.{
  get, decide, expire_pending, approval_of, is_pending, is_open, is_decidable, with_decision,
  safe_reason, is_overdue, with_expiry,
}
use beachops.Approvals.Steps.{
  Reach, here, next, Rewrites, same, updated, added, Step-Rewrites, IsUnique, same_id, same_id_comm,
  Reach-IsUnique, decide-cases,
}

Rewrites-keeps_decided :
    (a i : ℕ) (x : Approval) {t u : Db}
    → is_pending x.decision ≡ false
    → Rewrites t u
    → get t a i ≡ some x
    → get u a i ≡ some x
unfolding get
Rewrites-keeps_decided a i x decided (same e) h = rw e h
Rewrites-keeps_decided a i x {t} decided (updated p f id actor open_row e) h =
    ap (find? (approval_of a i)) e
    ∙ ground (
      arith,
      find?-update_where p (approval_of a i) f t.approvals (λ y. ground (arith, id y, actor y)),
      open_row x,
    )
Rewrites-keeps_decided a i x {t} decided (added y fresh e) h =
    ap (find? (approval_of a i)) e
    ∙ ground (arith, find?-append (approval_of a i) t.approvals (y ∷ []))

Reach-keeps_decided :
    (a i : ℕ) (x : Approval) {redact : Text → Text} {t u : Db}
    → is_pending x.decision ≡ false
    → Reach redact t u
    → get t a i ≡ some x
    → get u a i ≡ some x
Reach-keeps_decided a i x decided here h = h
Reach-keeps_decided a i x decided (next r s) h =
    Rewrites-keeps_decided a i x decided (Step-Rewrites s) (Reach-keeps_decided a i x decided r h)

module _ (redact : Text → Text) (db : Db) (now a i by : ℕ) (role : Role) (decision : Decision)
    (reason : Option Text) (y : Approval) (unique : IsUnique db) where
  decidable : Approval → Bool
  decidable = is_decidable db now a i by

  decide-answers :
      (decide redact db now a i by role decision reason).0 ≡ ok (some y)
      → Decided redact db now a i by role decision reason y
        × (get (decide redact db now a i by role decision reason).1 a i ≡ some y)
  unfolding is_decidable is_open get update_returning decidable
  decide-answers h = elim (decide-cases redact db now a i by role decision reason) [
    | inl (x, refused) ↦ absurd (ground arith)
    | inr (owns, verdict, done) ↦ elim (Option-cases (find? decidable db.approvals)) [
      | inl missing ↦ absurd (ground arith)
      | inr (x, found) ↦
          let fits : decidable x ≡ true = find?-sound decidable db.approvals found in
          let at_x : find? (approval_of a i) db.approvals ≡ some x =
            find?-same same_id decidable (approval_of a i) db.approvals (λ w. ground arith)
              same_id_comm unique found (ground arith) (λ w k. ground arith) in
          (
            (
              (of_role role).0 owns,
              (of_verdict decision).0 verdict,
              (is_owner-HasOwner db by).0 (ground arith),
              (
                x,
                at_x,
                (of_pending x.decision).0 (ground arith),
                ground (arith, ltb→lt now x.expires_at),
                ground arith ∙ with_decision_lem redact decision by now reason x,
              ),
            ),
            rw done (
                ground (
                  arith,
                  find?-update_where decidable (approval_of a i)
                      (with_decision decision by now (safe_reason redact reason)) db.approvals
                      (λ w. refl),
                )),
          )
    ]
  ]

  decide-accepts :
      Decided redact db now a i by role decision reason y
      → (decide redact db now a i by role decision reason).0 ≡ ok (some y)
  unfolding decide is_decidable is_open get update_returning decidable
  decide-accepts (owns, verdict, user, (x, at_x, waits, time, written)) =
      let owner_true = (of_role role).1 owns in
      let verdict_true = (of_verdict decision).1 verdict in
      let user_true = (is_owner-HasOwner db by).1 user in
      let pending_true = (of_pending x.decision).1 waits in
      let at_id = find?-sound (approval_of a i) db.approvals at_x in
      let hit : find? decidable db.approvals ≡ some x =
        find?-narrow (approval_of a i) decidable db.approvals (λ w k. ground arith) at_x
          (ground arith) in
      rw (owner_true, verdict_true, decide, update_returning)
        (rw (hit, update_returning)
          (ap (λ z. ok (some z)) (with_decision_lem redact decision by now reason x ∙ sym written)))

  -- `decide` answers a row exactly when the caller acts as an owner and has a user's row with that
  -- role, the decision is approved or rejected, and the actor has an approval of that identifier
  -- which is pending and not past its time. The row holds the decision, who took it, when, and the
  -- redacted reason, and all else as before; it is then the row in the table.
  pub decide_lem : ((decide redact db now a i by role decision reason).0 ≡ ok (some y)) ↔ (
      Decided redact db now a i by role decision reason y
      × (get (decide redact db now a i by role decision reason).1 a i ≡ some y))
  decide_lem = (decide-answers, λ h. decide-accepts h.0)

-- A decision that has been taken, or that has expired, is final: whatever is written later, the
-- approval stays as it is, and no later `decide` on it succeeds.
pub decision_final :
    (redact : Text → Text) (db v : Db) (a i : ℕ) (x : Approval)
    → IsUnique db
    → get db a i ≡ some x
    → is_pending x.decision ≡ false
    → Reach redact db v
    → (get v a i ≡ some x)
      × ((now by : ℕ) (role : Role) (decision : Decision) (reason : Option Text) (y : Approval)
          → (decide redact v now a i by role decision reason).0 ≢ ok (some y))
decision_final redact db v a i x u found decided r =
    let kept = Reach-keeps_decided a i x decided r found in
    (
      kept,
      λ now by role decision reason y h.
          let ((owns, verdict, user, (z, at_z, waits, time, written)), after) =
            (decide_lem redact v now a i by role decision reason y (Reach-IsUnique r u)).0 h in
          absurd (clash at_z kept ((of_pending z.decision).1 waits)),
    )
  where
    clash :
        {o : Option Approval} {z : Approval}
        → o ≡ some z
        → o ≡ some x
        → is_pending z.decision ≡ true
        → ⊥
    clash e f h = ground arith

swept-All :
    (db : Db) (now : ℕ)
    → All
        (λ x. is_overdue now x ≡ false)
        (update_where (is_overdue now) (with_expiry now) db.approvals)
unfolding is_overdue
swept-All db now =
    All-update_where (λ x. is_overdue now x ≡ false) (is_overdue now) (with_expiry now) db.approvals
      (λ x h. refl)
      (All-every (λ x. is_overdue now x ≡ false → is_overdue now x ≡ false) (λ x h. h) db.approvals)

overdue_iff :
    (now : ℕ) (x : Approval)
    → (is_overdue now x ≡ true) ↔ ((x.decision ≡ Decision.pending) × (x.expires_at ≤ now))
unfolding is_overdue is_pending
overdue_iff now x = (
  λ h. ((of_pending x.decision).0 (unfold is_pending in ground arith), ground arith),
  λ h. let p = (of_pending x.decision).1 h.0 in unfold is_pending in ground arith,
)

-- A sweep at the time `now`: every approval that was pending and whose time to expire was not after
-- `now` is expired, decided now and otherwise as it was; every other stays as it was; the count is
-- the number of the former. None that is still pending is past its time, and a second sweep at that
-- time finds nothing.
pub expire_pending-sweeps :
    (db : Db) (now : ℕ)
    → let (count, swept) = expire_pending db now in
      All (λ x. x.decision ≡ Decision.pending → now < x.expires_at) swept.approvals
      × (count ≡ length (filter (λ x. is_pending x.decision && leb x.expires_at now) db.approvals))
      × ((a i : ℕ) (x : Approval)
          → get db a i ≡ some x
          → (x.decision ≢ Decision.pending) ⊎ (now < x.expires_at)
          → get swept a i ≡ some x)
      × ((a i : ℕ) (x : Approval)
          → get db a i ≡ some x
          → x.decision ≡ Decision.pending
          → x.expires_at ≤ now
          → get swept a i ≡ some (record x { decision = Decision.expired; decided_at = some now }))
      × (expire_pending swept now ≡ (0, swept))
unfolding expire_pending get is_overdue
expire_pending-sweeps db now = (
  All-map (λ x. is_overdue now x ≡ false) (λ x. x.decision ≡ Decision.pending → now < x.expires_at)
      (λ x h waits. fresh_time x h waits) _ (swept-All db now),
  refl,
  λ a i x found fresh.
      let idle = stays x fresh in
      find?-update_where (is_overdue now) (approval_of a i) (with_expiry now) db.approvals
        (λ w. refl)
      ∙ rw (found, idle) refl,
  λ a i x found waits late.
      let hit = (overdue_iff now x).1 (waits, late) in
      find?-update_where (is_overdue now) (approval_of a i) (with_expiry now) db.approvals
        (λ w. refl)
      ∙ rw (found, hit) refl,
  ap₂ (λ n xs. (length n, record db { approvals = xs }))
      (filter_nil-of-All (is_overdue now) _ (swept-All db now))
      (update_where_idle (is_overdue now) (with_expiry now) _ (swept-All db now)),
)
  where
    fresh_time :
        (x : Approval)
        → is_overdue now x ≡ false
        → x.decision ≡ Decision.pending
        → now < x.expires_at
    fresh_time x h waits = let p = (of_pending x.decision).1 waits in ground arith

    stays :
        (x : Approval)
        → (x.decision ≢ Decision.pending) ⊎ (now < x.expires_at)
        → is_overdue now x ≡ false
    stays x (inl other) = elim (Bool-cases (is_overdue now x)) [
      | inr e ↦ e
      | inl e ↦ absurd (other ((overdue_iff now x).0 e).0)
    ]
    stays x (inr time) = elim (Bool-cases (is_overdue now x)) [
      | inr e ↦ e
      | inl e ↦ let late = ((overdue_iff now x).0 e).1 in absurd (omega arith)
    ]
