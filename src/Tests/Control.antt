-- ===== src/Tests/Control.antt =====
-- Roles (src/beachops/services/authz.py) and redaction (src/beachops/services/redaction.py) at
-- concrete inputs.
use beachops.Base.{[], ◌∷◌, ◌≡◌, ◌≢◌, ◌↔◌, ◌⊎◌, refl, true, some, Text, text}
use beachops.Security.{Role, ask, viewer, operator, owner, do_mode}
use beachops.Authz.{has_role, can_approve, can_use_mode}
use beachops.Authz.Hierarchy.{role_hierarchy}
use beachops.Redaction.{
  Json, obj, arr, str, cons, nil, field, end, redacted, redact_value, is_sensitive_key,
}
use beachops.Redaction.Clean.{is_masked}

role_hierarchy_example :
    ((has_role (some operator) owner ≡ true)
      ↔ ((r : Role) × (some operator ≡ some r) × ((r ≡ owner) ⊎ (r ≡ owner) ⊎ (owner ≡ viewer))))
    × ((can_use_mode (some operator) do_mode ≡ true)
        ↔ ((r : Role) × (some operator ≡ some r) × ((do_mode ≡ ask) ⊎ (r ≢ viewer))))
    × ((can_approve (some operator) ≡ true) ↔ (some operator ≡ some owner))
role_hierarchy_example = role_hierarchy (some operator) owner do_mode

abbrev mask : Text → Text
mask t = text "*"

abbrev metadata : Json
metadata = obj (
    field (text "Access-Token") (str (text "t0"))
      (field (text "note") (arr (cons (str (text "hello")) nil)) end))

masked :
    redact_value mask metadata
    ≡ obj (
        field
          (text "Access-Token")
          (str redacted)
          (field (text "note") (arr (cons (str (text "*")) nil)) end))
unfolding redact_value is_sensitive_key
masked = refl

token_masked : is_masked metadata (0 ∷ []) ≡ true
unfolding is_masked beachops.Base.contains beachops.Base.replace beachops.Base.lower
token_masked = refl
