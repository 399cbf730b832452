-- ===== src/Runs/Plan.antt =====
-- A plan that is ready: `_finalize_plan` of src/beachops/services/run_finalizer.py.
use beachops.Base.{
  ℕ, ◌+◌, ◌*◌, ◌==◌, Bool, true, false, ◌||◌, none, some, List, [], ◌∷◌, ◌++◌, Text, text, any,
  update_where, if◌then◌else◌,
}
use beachops.Security.{owner, plan_execution, running, planning, awaiting_approval}
use beachops.Redaction
use beachops.Redaction.{Json}
use beachops.Database.{Db, User, Result, ok, raise}
use beachops.Jobs.{transition}
use beachops.Jobs.Queries.{get_internal}
use beachops.Approvals
use beachops.Tokens.{issue_for_recipient}
use beachops.Dispatch.{State}
use beachops.Decisions.{approve_job}
use beachops.Runs.Model.{RunSettings, Tools}

-- `UserRepository.ensure_user` for an owner, as far as its row is modelled.
unfoldable pub ensure_owner : Db → ℕ → Db
unfolding any update_where
ensure_owner db uid =
    if any (λ (u : User). u.tg_user_id == uid) db.users
    then record db {
      users =
          update_where (λ (u : User). u.tg_user_id == uid) (λ u. record u { role = owner })
            db.users;
    }
    else record db { users = db.users ++ (record { tg_user_id = uid; role = owner }) ∷ [] }

-- `dict.fromkeys`
unfoldable pub distinct_ids : List ℕ → List ℕ → List ℕ
unfolding any
distinct_ids seen [] = []
distinct_ids seen (i ∷ is) = elim (any (λ j. j == i) seen) [
  | true ↦ distinct_ids seen is
  | false ↦ i ∷ distinct_ids (i ∷ seen) is
]

abbrev pub owner_ids : RunSettings → List ℕ
owner_ids s = s.owner_user_ids ++ s.admin_user_ids

-- One owner's buttons: the tokens to approve and to reject, and the message that carries them, whose
-- exception ends the loop.
unfoldable pub notify_owner :
    Tools → Db → (now actor_id job_id : ℕ) → (ℕ → Text × Text) → ℕ → Result (Unit {0}) × Db
unfolding ensure_owner issue_for_recipient
notify_owner k db now actor_id job_id tokens owner_id =
    let ready = ensure_owner db owner_id in
    let ttl = k.settings.callback_token_ttl_sec in
    let (approve, db1) =
      issue_for_recipient k.digest ready now actor_id owner_id job_id (text "approve") ttl
        (tokens owner_id).0 in
    elim approve [
      | raise e ↦ (raise e, db1)
      | ok _ ↦
          let (reject, db2) =
            issue_for_recipient k.digest db1 now actor_id owner_id job_id (text "reject") ttl
              (tokens owner_id).1 in
          elim reject [ raise e ↦ (raise e, db2) | ok _ ↦ (k.send_message owner_id, db2) ]
    ]

unfoldable pub notify_owners :
    Tools → Db → (now actor_id job_id : ℕ) → (ℕ → Text × Text) → List ℕ → Result (Unit {0}) × Db
unfolding notify_owner
notify_owners k db now actor_id job_id tokens [] = (ok tt, db)
notify_owners k db now actor_id job_id tokens (o ∷ os) =
    let (told, after) = notify_owner k db now actor_id job_id tokens o in
    elim told [
      | raise e ↦ (raise e, after)
      | ok _ ↦ notify_owners k after now actor_id job_id tokens os
    ]

-- The transition that both branches of `_finalize_plan` make.
abbrev pub request_approval : Tools → Db → (now actor_id job_id : ℕ) → Text → Json → Db
request_approval k db now actor_id job_id event_type details =
    (transition k.services.redact db now actor_id job_id (planning ∷ running ∷ []) awaiting_approval
      event_type (some details)).1

abbrev pub kind_details : Bool → Json
kind_details auto = Json.obj (
    Redaction.field (text "kind") (Json.str (text "plan_execution")) (
      if auto then Redaction.field (text "auto") (Json.bool true) Redaction.end else Redaction.end))

-- The branch for owners: the plan is approved at once, and an exception is dropped.
unfoldable pub auto_approve : Tools → State → (now id : ℕ) → (actor_id job_id : ℕ) → State
unfolding transition get_internal approve_job
auto_approve k st now id actor_id job_id =
    let db =
      request_approval k st.db now actor_id job_id (text "approval.auto_requested")
        (kind_details true) in
    let asked = record st { db = db } in
    elim (get_internal db job_id) [
      | none ↦ asked
      | some refreshed ↦ (approve_job k.services k.crypto asked now id refreshed plan_execution).1
    ]

unfoldable pub request_plan :
    Tools → Db → (now id : ℕ) → (actor_id job_id : ℕ) → (ℕ → Text × Text) → Result (Unit {0}) × Db
unfolding Approvals.create transition notify_owners distinct_ids
request_plan k db now id actor_id job_id tokens =
    let (approval, created) =
      Approvals.create db now actor_id job_id plan_execution (now + 30 * 60) id in
    elim approval [
      | raise e ↦ (raise e, created)
      | ok found ↦ elim found [
        | none ↦ (ok tt, created)
        | some a ↦
            notify_owners k
              (request_approval k created now actor_id job_id (text "approval.requested")
                (kind_details false))
              now actor_id job_id tokens (distinct_ids [] (owner_ids k.settings))
      ]
    ]

unfoldable pub finalize_plan :
    Tools
    → State
    → (now id : ℕ) → (actor_id job_id : ℕ) → (ℕ → Text × Text)
    → Result (Unit {0}) × State
unfolding any auto_approve request_plan
finalize_plan k st now id actor_id job_id tokens =
    if k.settings.auto_approve_plans || any (λ o. o == actor_id) (owner_ids k.settings)
    then (ok tt, auto_approve k st now id actor_id job_id)
    else (let (told, db) = request_plan k st.db now id actor_id job_id tokens in
        (told, record st { db = db }))
