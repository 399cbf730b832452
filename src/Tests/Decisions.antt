-- ===== src/Tests/Decisions.antt =====
-- The approval of one plan (src/beachops/services/approval_actions.py).
use beachops.Base.{◌≡◌, ◌≢◌, true, ◌++◌, ◌⊎◌, refl, false, none, some, [], ◌∷◌, text}
use beachops.Security.{Job, JobKind, awaiting_approval, low, plan}
use beachops.Jobs.{NewJob, create, new_row}
use beachops.Jobs.Queries.{get}
use beachops.Jobs.History.{begin}
use beachops.Jobs.Create.{CannotCreate}
use beachops.RepositoryPolicy.{require_allowed}
use beachops.RiskPolicy.{is_main}
use beachops.Dispatch.{PromptBody, State}
use beachops.Decisions.{plan_approved, Crypto, approve_plan}
use beachops.Decisions.Started.{IsRaised}
use beachops.Decisions.Approve.{IsApproved, approve_plan_lem}
use beachops.Decisions.Once.{approve_plan_once}
use beachops.Tests.Jobs.{redact, empty, start}
use beachops.Tests.Gates.{services}

abbrev plan_request : NewJob
plan_request = record {
  id = 1;
  actor_id = 7;
  kind = JobKind.plan;
  risk_level = low;
  status = awaiting_approval;
  repository_url = some (text "u");
  branch = some (text "dev");
  summary = text "plan";
  payload_ciphertext = some (text "c");
  telegram_chat_id = none;
  telegram_message_id = none;
  idempotency_key = none;
  runtime = text "cloud";
}

abbrev plan_row : Job
plan_row = new_row redact 100 plan_request

abbrev body : PromptBody
body = record {
  prompt = text "p";
  mode = plan;
  slot_id = 1;
  repo_id = 1;
  runtime = text "cloud";
  channel = none;
  approved_plan_job_id = none;
  images = [];
}

abbrev pub crypto : Crypto
crypto = record { decrypt = (λ t. some body); show = (λ i. i ∷ []) }

abbrev planned : State
planned = record { db = (create redact empty 100 plan_request).1; arq = [] }

planned-found : get planned.db 7 1 ≡ some plan_row
unfolding create get
planned-found = refl

approve_plan_lem_example :
    let allowed =
      require_allowed services.normalize services.policies (text "u") (text "dev") true in
    (IsRaised planned (approve_plan services crypto planned 200 2 plan_row)
      × ((allowed ≡ none)
          ⊎ (some body ≡ none)
          ⊎ CannotCreate planned.db 2 7 (some (text "approval:" ++ crypto.show 1))))
    ⊎ ((allowed ≢ none)
        × (is_main (some (text "dev")) ≡ false)
        × ((source : PromptBody) × (some body ≡ some source)
            × IsApproved services crypto 200 2 planned plan_row plan_row source
                (approve_plan services crypto planned 200 2 plan_row)))
unfolding new_row
approve_plan_lem_example =
    approve_plan_lem services crypto planned 200 2 plan_row plan_row planned-found

abbrev approved : State
approved = (approve_plan services crypto planned 200 2 plan_row).1

approve_plan_once_example : IsRaised approved (approve_plan services crypto approved 300 3 plan_row)
unfolding approve_plan new_row create
approve_plan_once_example =
    approve_plan_once services crypto start planned approved 200 2 300 3 plan_row plan_row
      (plan_approved 2) refl refl refl begin
