-- ===== src/Tests/Approvals.antt =====
-- Decisions on one job (src/beachops/db/repositories/approvals.py).
use beachops.Base.{
  ℕ, ◌<◌, ◌≤◌, leb, ◌&&◌, ◌⊎◌, ◌↔◌, ◌≡◌, refl, ◌≢◌, Option, none, some, Text, length, filter, All,
}
use beachops.Security.{Role, owner, Approval, Decision, approved, plan_execution}
use beachops.Database.{Db, ok}
use beachops.Approvals.{
  create, get, decide, expire_pending, new_approval, with_decision, is_pending,
}
use beachops.Approvals.Steps.{IsUnique, here}
use beachops.Approvals.Verdicts.{Decided}
use beachops.Approvals.Final.{decision_final, decide_lem, expire_pending-sweeps}
use beachops.Tests.Jobs.{redact, one}

abbrev asked : Db
asked = (create one 100 7 1 plan_execution 150 9).1

abbrev ask : Approval
ask = new_approval 9 1 7 plan_execution 150 100

abbrev answered : Db
answered = (decide redact asked 120 7 9 7 owner approved none).1

abbrev answer : Approval
answer = with_decision approved 7 120 none ask

asked-IsUnique : IsUnique asked
unfolding create beachops.Jobs.create
asked-IsUnique = (refl, tt)

answered-IsUnique : IsUnique answered
unfolding create decide beachops.Jobs.create
answered-IsUnique = (refl, tt)

decide_lem_example : ((decide redact asked 120 7 9 7 owner approved none).0 ≡ ok (some answer)) ↔ (
    Decided redact asked 120 7 9 7 owner approved none answer
    × (get (decide redact asked 120 7 9 7 owner approved none).1 7 9 ≡ some answer))
decide_lem_example = decide_lem redact asked 120 7 9 7 owner approved none answer asked-IsUnique

-- Both sides hold here.
approved_it : (decide redact asked 120 7 9 7 owner approved none).0 ≡ ok (some answer)
unfolding create decide beachops.Jobs.create
approved_it = refl

decision_final_example :
    (get answered 7 9 ≡ some answer)
    × ((now by : ℕ) (role : Role) (decision : Decision) (reason : Option Text) (y : Approval)
        → (decide redact answered now 7 9 by role decision reason).0 ≢ ok (some y))
unfolding create decide get beachops.Jobs.create
decision_final_example =
    decision_final redact answered answered 7 9 answer answered-IsUnique refl refl here

expire_pending-sweeps_example :
    let (count, swept) = expire_pending asked 150 in
    All (λ x. x.decision ≡ Decision.pending → 150 < x.expires_at) swept.approvals
    × (count ≡ length (filter (λ x. is_pending x.decision && leb x.expires_at 150) asked.approvals))
    × ((a i : ℕ) (x : Approval)
        → get asked a i ≡ some x
        → (x.decision ≢ Decision.pending) ⊎ (150 < x.expires_at)
        → get swept a i ≡ some x)
    × ((a i : ℕ) (x : Approval)
        → get asked a i ≡ some x
        → x.decision ≡ Decision.pending
        → x.expires_at ≤ 150
        → get swept a i ≡ some (record x { decision = Decision.expired; decided_at = some 150 }))
    × (expire_pending swept 150 ≡ (0, swept))
expire_pending-sweeps_example = expire_pending-sweeps asked 150

expired_one : (expire_pending asked 150).0 ≡ 1
unfolding create expire_pending beachops.Jobs.create
expired_one = refl
