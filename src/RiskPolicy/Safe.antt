-- ===== src/RiskPolicy/Safe.antt =====
-- What src/beachops/services/risk_policy.py lets through.
use beachops.Base.{
  ◌≡◌, refl, inl, inr, Bool, true, false, not, ◌&&◌, ◌||◌, Option, none, some, Text, Option-cases,
  arith,
}
use beachops.Security.{JobKind}
use beachops.RiskPolicy.{
  Patterns, RiskAssessment, is_high, is_main, kind_rule, high_rule, text_rule, assess,
}

-- Neither blocked nor of high risk.
unfoldable pub passes : RiskAssessment → Bool
unfolding is_high
passes r = not (r.is_blocked || is_high r.level)

abbrev rule_passes : Option RiskAssessment → Bool
rule_passes none = true
rule_passes (some r) = passes r

-- The kinds that are jobs of an agent, and no single operation.
unfoldable pub is_agent_kind : JobKind → Bool
is_agent_kind JobKind.read = true
is_agent_kind JobKind.plan = true
is_agent_kind JobKind.change = true
is_agent_kind JobKind.raw_shell = false
is_agent_kind JobKind.deploy = false
is_agent_kind JobKind.merge = false
is_agent_kind JobKind.prod_db = false
is_agent_kind JobKind.secrets = false
is_agent_kind JobKind.iam = false
is_agent_kind JobKind.delete = false

kind_rule_passes : (kind : JobKind) → rule_passes (kind_rule kind) ≡ is_agent_kind kind
unfolding kind_rule is_agent_kind passes
kind_rule_passes JobKind.read = refl
kind_rule_passes JobKind.plan = refl
kind_rule_passes JobKind.change = refl
kind_rule_passes JobKind.raw_shell = refl
kind_rule_passes JobKind.deploy = refl
kind_rule_passes JobKind.merge = refl
kind_rule_passes JobKind.prod_db = refl
kind_rule_passes JobKind.secrets = refl
kind_rule_passes JobKind.iam = refl
kind_rule_passes JobKind.delete = refl

module _ (p : Patterns) where
  -- No pattern of the policy is in the text.
  unfoldable pub is_clean : Text → Bool
  is_clean t = not (
      p.raw_shell t
      || p.force t
      || p.secret_exfil t
      || p.destructive t
      || p.deploy t
      || p.merge t
      || p.prod_db t
      || p.iam t
      || p.delete t)

  text_rule_passes : (t : Text) → rule_passes (text_rule p t) ≡ is_clean t
  unfolding text_rule high_rule is_clean passes
  text_rule_passes t = ground arith

  -- What is neither blocked nor of high risk, exactly: a job of an agent that does not write to main
  -- or master, and that is a read-only request or has none of the patterns, once the clauses that
  -- forbid an action are taken out.
  pub passes-assess :
      (t : Text) (kind : JobKind) (branch : Option Text) (write : Bool)
      → passes (assess p t kind branch write) ≡ (
          not (write && is_main branch)
          && is_agent_kind kind
          && ((not write && p.read_only_request t) || is_clean (p.without_negated t)))
  unfolding assess passes
  passes-assess t kind branch write =
      let by_kind = kind_rule_passes kind in
      let by_text = text_rule_passes (p.without_negated t) in
      elim (Option-cases (kind_rule kind)) [
        | inl no_rule ↦ elim (Option-cases (text_rule p (p.without_negated t))) [
          | inl clean ↦ ground (arith, by_kind, by_text)
          | inr (r, rule) ↦ ground (arith, by_kind, by_text)
        ]
        | inr (r, rule) ↦ ground (arith, by_kind, by_text)
      ]
