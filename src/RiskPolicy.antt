-- ===== src/RiskPolicy.antt =====
-- RiskPolicy, src/beachops/services/risk_policy.py. The compiled patterns are an argument: what
-- `search`, `match` and `sub` of each answer on a text.
pub mod Safe
use beachops.Base.{
  ℕ, Bool, true, false, not, ◌&&◌, ◌||◌, Option, none, some, List, [], ◌∷◌, Text, text, text_in,
  strip, lower, if◌then◌else◌,
}
use beachops.Security.{
  JobKind, read, plan, change, raw_shell, RiskLevel, low, medium, high, blocked, ApprovalKind,
}

pub record Patterns : Type 0 where
  pub raw_shell : Text → Bool
  pub force : Text → Bool
  pub secret_exfil : Text → Bool
  pub destructive : Text → Bool
  pub deploy : Text → Bool
  pub merge : Text → Bool
  pub prod_db : Text → Bool
  pub iam : Text → Bool
  pub delete : Text → Bool
  pub read_only_request : Text → Bool
  pub without_negated : Text → Text

pub record RiskAssessment : Type 0 where
  pub level : RiskLevel
  pub is_blocked : Bool
  pub reasons : List Text
  pub approval_kind : Option ApprovalKind

abbrev pub block : Text → RiskAssessment
block reason = record {
  level = blocked;
  is_blocked = true;
  reasons = reason ∷ [];
  approval_kind = none;
}

abbrev pub high_risk : Text → ApprovalKind → RiskAssessment
high_risk reason kind = record {
  level = high;
  is_blocked = false;
  reasons = reason ∷ [];
  approval_kind = some kind;
}

abbrev pub plain : RiskLevel → List Text → RiskAssessment
plain level reasons = record {
  level = level;
  is_blocked = false;
  reasons = reasons;
  approval_kind = none;
}

unfoldable pub is_high : RiskLevel → Bool
is_high low = false
is_high medium = false
is_high high = true
is_high blocked = false

unfoldable pub requires_approval : RiskAssessment → Bool
unfolding is_high
requires_approval r = is_high r.level && not r.is_blocked

-- `{"main", "master"}`
abbrev pub main_branches : List Text
main_branches = text "main" ∷ text "master" ∷ []

-- `(branch or "").strip().lower() in {"main", "master"}`
unfoldable pub is_main : Option Text → Bool
unfolding text_in lower strip
is_main none = false
is_main (some branch) = text_in (lower (strip branch)) main_branches

-- The answer of a job's kind alone.
unfoldable pub kind_rule : JobKind → Option RiskAssessment
kind_rule read = none
kind_rule plan = none
kind_rule change = none
kind_rule raw_shell = some (block (text "arbitrary shell execution"))
kind_rule JobKind.secrets = some (block (text "secret access or exfiltration"))
kind_rule JobKind.deploy = some (high_risk (text "production deployment") ApprovalKind.deploy)
kind_rule JobKind.merge = some (high_risk (text "repository merge") ApprovalKind.merge)
kind_rule JobKind.prod_db = some (high_risk (text "production database write") ApprovalKind.prod_db)
kind_rule JobKind.iam = some (high_risk (text "identity or access change") ApprovalKind.iam)
kind_rule JobKind.delete =
    some (high_risk (text "destructive resource change") ApprovalKind.destructive)

-- The tests for approval, in the order of the source.
unfoldable pub high_rule : Patterns → Text → Option RiskAssessment
high_rule p t =
    if p.deploy t
    then some (high_risk (text "production deployment") ApprovalKind.deploy)
    else if p.merge t
    then some (high_risk (text "repository merge") ApprovalKind.merge)
    else if p.prod_db t
    then some (high_risk (text "production database write") ApprovalKind.prod_db)
    else if p.iam t
    then some (high_risk (text "identity or access change") ApprovalKind.iam)
    else if p.delete t
    then some (high_risk (text "destructive resource change") ApprovalKind.destructive)
    else none

-- The tests that block, then those for approval.
unfoldable pub text_rule : Patterns → Text → Option RiskAssessment
unfolding high_rule
text_rule p t =
    if p.raw_shell t
    then some (block (text "arbitrary shell execution"))
    else if p.force t
    then some (block (text "force or protected-branch operation"))
    else if p.secret_exfil t
    then some (block (text "secret access or exfiltration"))
    else if p.destructive t
    then some (block (text "destructive command"))
    else high_rule p t

unfoldable pub is_change : JobKind → Bool
is_change read = false
is_change plan = false
is_change change = true
is_change raw_shell = false
is_change JobKind.deploy = false
is_change JobKind.merge = false
is_change JobKind.prod_db = false
is_change JobKind.secrets = false
is_change JobKind.iam = false
is_change JobKind.delete = false

unfoldable pub assess : Patterns → Text → JobKind → Option Text → Bool → RiskAssessment
unfolding is_main kind_rule text_rule is_change
assess p t kind branch write =
    if write && is_main branch
    then block (text "write to protected branch")
    else elim (kind_rule kind) [
      | some r ↦ r
      | none ↦
          if not write && p.read_only_request t
          then plain low []
          else elim (text_rule p (p.without_negated t)) [
            | some r ↦ r
            | none ↦
                if is_change kind || write
                then plain medium (text "repository write" ∷ [])
                else plain low []
          ]
    ]
