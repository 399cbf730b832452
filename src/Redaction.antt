-- ===== src/Redaction.antt =====
-- Redaction of metadata before it is stored: `redact_value` and `_is_sensitive_key` of
-- src/beachops/services/redaction.py. The substitution of secrets inside one text (`redact_text`)
-- is an argument, so what is proved holds for whatever the patterns replace.
pub mod Clean
use beachops.Base.{ℕ, Bool, Text, List, [], ◌∷◌, if◌then◌else◌, text, lower, replace, contains, any}

-- What `json.dumps` accepts. A number stands for every value that is returned as it is, also those
-- that are no natural number; a key is its text, by which `_is_sensitive_key` tests it, and is kept.
mutual
  pub data Json : Type 0 where
    null : Json
    bool : Bool → Json
    num : ℕ → Json
    str : Text → Json
    arr : Items → Json
    obj : Fields → Json

  pub data Items : Type 0 where
    nil : Items
    cons : Json → Items → Items

  pub data Fields : Type 0 where
    end : Fields
    field : Text → Json → Fields → Fields

abbrev pub redacted : Text
redacted = text "[REDACTED]"

abbrev pub sensitive_markers : List Text
sensitive_markers =
    text "token"
    ∷ text "secret"
    ∷ text "password"
    ∷ text "passwd"
    ∷ text "api_key"
    ∷ text "private_key"
    ∷ []

unfoldable pub is_sensitive_key : Text → Bool
unfolding any contains lower replace
is_sensitive_key key =
    let normalized = replace b'-' b'_' (lower key) in
    any (λ marker. contains normalized marker) sensitive_markers

unfoldable mutual
  pub redact_value : (Text → Text) → Json → Json
  redact_value redact null = null
  redact_value redact (bool b) = bool b
  redact_value redact (num n) = num n
  redact_value redact (str s) = str (redact s)
  redact_value redact (arr xs) = arr (redact_items redact xs)
  redact_value redact (obj fs) = obj (redact_fields redact fs)

  pub redact_items : (Text → Text) → Items → Items
  redact_items redact nil = nil
  redact_items redact (cons x xs) = cons (redact_value redact x) (redact_items redact xs)

  pub redact_fields : (Text → Text) → Fields → Fields
  redact_fields redact end = end
  redact_fields redact (field key value rest) =
      field key (if is_sensitive_key key then str redacted else redact_value redact value)
        (redact_fields redact rest)
