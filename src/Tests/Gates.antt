-- ===== src/Tests/Gates.antt =====
-- One prompt through the policies (src/beachops/services/risk_policy.py,
-- src/beachops/services/repository_policy.py and src/beachops/services/durable_dispatch.py).
use beachops.Base.{
  ◌≡◌, ◌⊎◌, refl, All, Bool, true, false, not, ◌&&◌, ◌||◌, Option, none, some, [], ◌∷◌, Text, text,
  text_in, contains,
}
use beachops.Security.{RepositoryPolicy, do_mode, JobKind}
use beachops.RiskPolicy.{Patterns, assess, is_main}
use beachops.RiskPolicy.Safe.{passes, is_clean, is_agent_kind, passes-assess}
use beachops.RepositoryPolicy.{Policies, require_allowed, policy_for}
use beachops.RepositoryPolicy.Build.{new_policies, with_extra_repository}
use beachops.RepositoryPolicy.Guard.{
  new_policies-IsGuarded, with_extra_repository-IsGuarded, IsGuarded,
}
use beachops.RepositoryPolicy.Writes.{require_allowed-writes}
use beachops.Dispatch.{Request, Services, State, DispatchResult, dispatch_prompt, queued_job}
use beachops.Dispatch.Outcomes.{IsHeld, IsSent, IsFailed}
use beachops.Dispatch.Gate.{IsCleared, IsStopped, dispatch_prompt_lem, dispatch_prompt-writes}
use beachops.Security.{medium}
use beachops.Jobs.{new_row}
use beachops.Tests.Jobs.{redact, one}

abbrev nothing : Text → Bool
nothing t = false

-- Plain searches in place of the regular expressions.
abbrev patterns : Patterns
patterns = record {
  raw_shell = (λ t. contains t (text "rm "));
  force = nothing;
  secret_exfil = nothing;
  destructive = nothing;
  deploy = (λ t. contains t (text "deploy"));
  merge = nothing;
  prod_db = nothing;
  iam = nothing;
  delete = nothing;
  read_only_request = nothing;
  without_negated = (λ t. t);
}

abbrev prompt : Text
prompt = text "fix it"

passes-assess_example : passes (assess patterns prompt JobKind.change (some (text "dev")) true) ≡ (
    not (true && is_main (some (text "dev")))
    && is_agent_kind JobKind.change
    && ((not true && patterns.read_only_request prompt)
        || is_clean patterns (patterns.without_negated prompt)))
passes-assess_example = passes-assess patterns prompt JobKind.change (some (text "dev")) true

-- Stands for the URL's canonical form.
abbrev normalize : Text → Option Text
normalize u = some u

abbrev repo_policy : RepositoryPolicy
repo_policy = record {
  repository_url = text "u";
  allowed_branches = text "dev" ∷ text "main" ∷ [];
  protected_branches = text "main" ∷ text "master" ∷ [];
}

abbrev policies : Policies
policies = record { by_url = repo_policy ∷ []; is_open = false }

require_allowed-writes_example :
    (is_main (some (text "dev")) ≡ false)
    × ((n : Text) × (normalize (text "u") ≡ some n)
        × ((policies.is_open ≡ true)
            ⊎ ((p : RepositoryPolicy) × (some repo_policy ≡ some p)
                × (policy_for normalize policies n ≡ some p)
                × (text_in (text "dev") p.allowed_branches ≡ true)
                × (text_in (text "dev") p.protected_branches ≡ false))))
unfolding require_allowed
require_allowed-writes_example =
    require_allowed-writes normalize policies (text "u") (text "dev") (some repo_policy) refl

-- A write to MAIN is refused.
main_refused : require_allowed normalize policies (text "u") (text "MAIN") true ≡ none
unfolding require_allowed
main_refused = refl

abbrev pub services : Services
services = record {
  redact = redact;
  normalize = normalize;
  patterns = patterns;
  policies = policies;
  encrypt = (λ b. b.prompt);
}

abbrev request : Request
request = record {
  actor_id = 7;
  prompt = prompt;
  mode = do_mode;
  slot_id = 1;
  repo = record {
    id = 1;
    tg_user_id = 7;
    alias = text "r";
    github_url = text "u";
    default_branch = text "dev";
    is_active = true;
  };
  idempotency_key = none;
  approved_plan_job_id = none;
  display_summary = none;
  images = [];
  channel = none;
}

abbrev state : State
state = record { db = one; arq = [] }

dispatch_prompt_lem_example :
    let out = dispatch_prompt services state 200 5 request in
    (IsCleared services state 200 5 request
      × (IsSent services state 5 request out ⊎ IsFailed services state 5 request out))
    ⊎ (IsStopped services state 200 5 request
        × (IsHeld services state 5 request out ⊎ IsFailed services state 5 request out))
dispatch_prompt_lem_example = dispatch_prompt_lem services state 200 5 request

abbrev sent : DispatchResult
sent = record {
  job = new_row redact 200 (queued_job services request 5 medium);
  enqueued = true;
  reason = none;
}

dispatch_prompt-writes_example :
    (is_main (some (text "dev")) ≡ false)
    × (is_clean patterns (patterns.without_negated prompt) ≡ true)
    × ((n : Text) × (normalize (text "u") ≡ some n)
        × ((policies.is_open ≡ true)
            ⊎ ((p : RepositoryPolicy) × (policy_for normalize policies n ≡ some p)
                × (text_in (text "dev") p.allowed_branches ≡ true)
                × (text_in (text "dev") p.protected_branches ≡ false))))
unfolding dispatch_prompt beachops.Jobs.create
dispatch_prompt-writes_example =
    dispatch_prompt-writes services state 200 5 request sent refl refl refl

-- As it is configured: nothing protected.
abbrev configured : RepositoryPolicy
configured = record {
  repository_url = text "u";
  allowed_branches = text "dev" ∷ text "main" ∷ [];
  protected_branches = [];
}

built : new_policies normalize (configured ∷ []) none ≡ some policies
unfolding new_policies
built = refl

new_policies-IsGuarded_example : All IsGuarded policies.by_url
new_policies-IsGuarded_example =
    new_policies-IsGuarded normalize (configured ∷ []) none policies built

abbrev extended : Policies
extended = record {
  by_url =
      (record {
        repository_url = text "u";
        allowed_branches = text "dev" ∷ text "main" ∷ text "next" ∷ [];
        protected_branches = text "main" ∷ text "master" ∷ text "dev" ∷ [];
      })
      ∷ [];
  is_open = false;
}

extends :
    with_extra_repository normalize policies
      (text "u")
      (text "next" ∷ text "dev" ∷ [])
      (text "dev" ∷ [])
    ≡ some extended
unfolding with_extra_repository
extends = refl

with_extra_repository-IsGuarded_example : All IsGuarded extended.by_url
with_extra_repository-IsGuarded_example =
    with_extra_repository-IsGuarded normalize policies extended (text "u")
      (text "next" ∷ text "dev" ∷ []) (text "dev" ∷ [])
      (new_policies-IsGuarded normalize (configured ∷ []) none policies built) extends
