-- ===== src/Redaction/Clean.antt =====
-- What is found in a value after `redact_value` of src/beachops/services/redaction.py.
use beachops.Base.{
  if◌then◌else◌, ℕ, zero, suc, ◌≡◌, ◌⊎◌, refl, inl, inr, ap, ◌∙◌, Bool, true, false, ◌||◌, Option,
  none, some, List, [], ◌∷◌, Text, text, lower, replace, contains, any, Bool-cases, arith,
}
use beachops.Redaction.{
  Json, null, bool, num, str, arr, obj, Items, nil, cons, Fields, end, field, redacted,
  is_sensitive_key, redact_value, redact_items, redact_fields,
}

-- The value at a path: each number is a position in an array, or among the fields of an object.
unfoldable mutual
  pub lookup : Json → List ℕ → Option Json
  lookup v [] = some v
  lookup null (n ∷ path) = none
  lookup (bool b) (n ∷ path) = none
  lookup (num m) (n ∷ path) = none
  lookup (str s) (n ∷ path) = none
  lookup (arr xs) (n ∷ path) = lookup_item xs n path
  lookup (obj fs) (n ∷ path) = lookup_field fs n path

  pub lookup_item : Items → ℕ → List ℕ → Option Json
  lookup_item nil n path = none
  lookup_item (cons x xs) zero path = lookup x path
  lookup_item (cons x xs) (suc n) path = lookup_item xs n path

  pub lookup_field : Fields → ℕ → List ℕ → Option Json
  lookup_field end n path = none
  lookup_field (field key value rest) zero path = lookup value path
  lookup_field (field key value rest) (suc n) path = lookup_field rest n path

-- A key that names a secret, in any case, and with hyphens for underscores.
abbrev pub names_secret : Text → Bool
names_secret key =
    let name = replace b'-' b'_' (lower key) in
    contains name (text "token")
    || contains name (text "secret")
    || contains name (text "password")
    || contains name (text "passwd")
    || contains name (text "api_key")
    || contains name (text "private_key")

-- A key on the path names a secret.
unfoldable mutual
  pub is_masked : Json → List ℕ → Bool
  is_masked v [] = false
  is_masked null (n ∷ path) = false
  is_masked (bool b) (n ∷ path) = false
  is_masked (num m) (n ∷ path) = false
  is_masked (str s) (n ∷ path) = false
  is_masked (arr xs) (n ∷ path) = is_masked_item xs n path
  is_masked (obj fs) (n ∷ path) = is_masked_field fs n path

  pub is_masked_item : Items → ℕ → List ℕ → Bool
  is_masked_item nil n path = false
  is_masked_item (cons x xs) zero path = is_masked x path
  is_masked_item (cons x xs) (suc n) path = is_masked_item xs n path

  pub is_masked_field : Fields → ℕ → List ℕ → Bool
  is_masked_field end n path = false
  is_masked_field (field key value rest) zero path = names_secret key || is_masked value path
  is_masked_field (field key value rest) (suc n) path = is_masked_field rest n path

is_sensitive_key-names : (key : Text) → is_sensitive_key key ≡ names_secret key
unfolding is_sensitive_key any
is_sensitive_key-names key = ground arith

abbrev redact_found : (Text → Text) → Option Json → Option Json
redact_found redact none = none
redact_found redact (some v) = some (redact_value redact v)

plain_value :
    (redact : Text → Text) (key : Text) (value : Json)
    → is_sensitive_key key ≡ false
    → (if is_sensitive_key key then str redacted else redact_value redact value)
      ≡ redact_value redact value
plain_value redact key value h = rw h refl

secret_value :
    (redact : Text → Text) (key : Text) (value : Json)
    → is_sensitive_key key ≡ true
    → (if is_sensitive_key key then str redacted else redact_value redact value) ≡ str redacted
secret_value redact key value h = rw h refl

or_left : (a b : Bool) → (a || b) ≡ false → a ≡ false
or_left a b h = ground arith

or_right : (a b : Bool) → (a || b) ≡ false → b ≡ false
or_right a b h = ground arith

or_rest : (a b : Bool) → a ≡ false → (a || b) ≡ true → b ≡ true
or_rest a b e h = ground arith

mutual
  unfolding redact_value redact_items redact_fields lookup lookup_item lookup_field is_masked
      is_masked_item is_masked_field

  open_value :
      (redact : Text → Text) (v : Json) (path : List ℕ)
      → is_masked v path ≡ false
      → lookup (redact_value redact v) path ≡ redact_found redact (lookup v path)
  open_value redact v [] h = refl
  open_value redact null (n ∷ path) h = refl
  open_value redact (bool b) (n ∷ path) h = refl
  open_value redact (num m) (n ∷ path) h = refl
  open_value redact (str s) (n ∷ path) h = refl
  open_value redact (arr xs) (n ∷ path) h = open_item redact xs n path h
  open_value redact (obj fs) (n ∷ path) h = open_field redact fs n path h

  open_item :
      (redact : Text → Text) (xs : Items) (n : ℕ) (path : List ℕ)
      → is_masked_item xs n path ≡ false
      → lookup_item (redact_items redact xs) n path ≡ redact_found redact (lookup_item xs n path)
  open_item redact nil n path h = refl
  open_item redact (cons x xs) zero path h = open_value redact x path h
  open_item redact (cons x xs) (suc n) path h = open_item redact xs n path h

  open_field :
      (redact : Text → Text) (fs : Fields) (n : ℕ) (path : List ℕ)
      → is_masked_field fs n path ≡ false
      → lookup_field (redact_fields redact fs) n path ≡ redact_found redact (lookup_field fs n path)
  open_field redact end n path h = refl
  open_field redact (field key value rest) zero path h =
      let plain : is_sensitive_key key ≡ false =
        is_sensitive_key-names key ∙ or_left (names_secret key) (is_masked value path) h in
      ap (λ x. lookup x path) (plain_value redact key value plain)
      ∙ (open_value redact value path (or_right (names_secret key) (is_masked value path) h))
  open_field redact (field key value rest) (suc n) path h = open_field redact rest n path h

-- Nothing is found but the mark.
abbrev IsHidden : Option Json → Type 0
IsHidden found = (found ≡ none) ⊎ (found ≡ some (str (text "[REDACTED]")))

IsHidden-at : {o p : Option Json} → o ≡ p → IsHidden p → IsHidden o
IsHidden-at e h = rw e h

mark-IsHidden : (path : List ℕ) → IsHidden (lookup (str redacted) path)
unfolding lookup
mark-IsHidden [] = inr refl
mark-IsHidden (n ∷ path) = inl refl

mutual
  unfolding redact_value redact_items redact_fields lookup lookup_item lookup_field is_masked
      is_masked_item is_masked_field

  masked_value :
      (redact : Text → Text) (v : Json) (path : List ℕ)
      → is_masked v path ≡ true
      → IsHidden (lookup (redact_value redact v) path)
  masked_value redact v [] h = absurd (ground arith)
  masked_value redact null (n ∷ path) h = inl refl
  masked_value redact (bool b) (n ∷ path) h = inl refl
  masked_value redact (num m) (n ∷ path) h = inl refl
  masked_value redact (str s) (n ∷ path) h = inl refl
  masked_value redact (arr xs) (n ∷ path) h = masked_item redact xs n path h
  masked_value redact (obj fs) (n ∷ path) h = masked_field redact fs n path h

  masked_item :
      (redact : Text → Text) (xs : Items) (n : ℕ) (path : List ℕ)
      → is_masked_item xs n path ≡ true
      → IsHidden (lookup_item (redact_items redact xs) n path)
  masked_item redact nil n path h = inl refl
  masked_item redact (cons x xs) zero path h = masked_value redact x path h
  masked_item redact (cons x xs) (suc n) path h = masked_item redact xs n path h

  masked_field :
      (redact : Text → Text) (fs : Fields) (n : ℕ) (path : List ℕ)
      → is_masked_field fs n path ≡ true
      → IsHidden (lookup_field (redact_fields redact fs) n path)
  masked_field redact end n path h = inl refl
  masked_field redact (field key value rest) zero path h =
      let below = masked_value redact value path in
      elim (Bool-cases (names_secret key)) [
        | inl secret ↦
            let hit : is_sensitive_key key ≡ true = is_sensitive_key-names key ∙ secret in
            IsHidden-at (ap (λ x. lookup x path) (secret_value redact key value hit))
              (mark-IsHidden path)
        | inr plain ↦
            let miss : is_sensitive_key key ≡ false = is_sensitive_key-names key ∙ plain in
            IsHidden-at (ap (λ x. lookup x path) (plain_value redact key value miss))
              (below (or_rest (names_secret key) (is_masked value path) plain h))
      ]
  masked_field redact (field key value rest) (suc n) path h = masked_field redact rest n path h
