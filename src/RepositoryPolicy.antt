-- ===== src/RepositoryPolicy.antt =====
-- RepositoryPolicyService, src/beachops/services/repository_policy.py. `normalize` stands for
-- `normalize_github_url`: the canonical URL, or none where it raises.
pub mod Writes
pub mod Build
pub mod Guard
use beachops.Base.{
  ℕ, ◌==◌, Bool, true, false, not, ◌&&◌, ◌||◌, Option, none, some, List, [], ◌∷◌, ◌++◌, Text, text,
  text_eq, text_in, is_empty, starts_with, ends_with, contains, is_space, strip, lower, length, all,
  any, find?, filter, if◌then◌else◌,
}
use beachops.Security.{RepositoryPolicy}
use beachops.RiskPolicy.{main_branches}

-- `any(char.isspace() or char in "~^:?*[\\" for char in value)`
unfoldable pub has_bad_char : Text → Bool
unfolding any is_space
has_bad_char value = any (λ c. is_space c || any (λ (d : ℕ). c == d) (text "~^:?*[\\")) value

-- The conditions of `_validate_branch` in their order.
unfoldable pub is_bad_branch : Text → Bool
unfolding strip is_empty text_eq starts_with ends_with contains has_bad_char
is_bad_branch branch =
    let value = strip branch in
    is_empty value
    || not (text_eq value branch)
    || starts_with value (text "/")
    || starts_with value (text ".")
    || ends_with value (text "/")
    || ends_with value (text ".")
    || ends_with value (text ".lock")
    || contains value (text "..")
    || contains value (text "@{")
    || contains value (text "//")
    || has_bad_char value

-- none where the source raises RepositoryPolicyError.
unfoldable pub validate_branch : Text → Option Text
unfolding is_bad_branch
validate_branch branch = if is_bad_branch branch then none else some (strip branch)

pub record Policies : Type 0 where
  -- the dictionary, by its keys, which are the URLs
  pub by_url : List RepositoryPolicy
  pub is_open : Bool

unfoldable pub lookup_url : List RepositoryPolicy → Text → Option RepositoryPolicy
unfolding find? text_eq
lookup_url policies url = find? (λ (p : RepositoryPolicy). text_eq p.repository_url url) policies

module _ (normalize : Text → Option Text) where
  unfoldable pub policy_for : Policies → Text → Option RepositoryPolicy
  unfolding lookup_url
  policy_for s url = elim (normalize url) [
    | none ↦ none
    | some normalized ↦ lookup_url s.by_url normalized
  ]

  unfoldable pub is_allowed : Policies → (url branch : Text) → Bool
  unfolding validate_branch policy_for text_in
  is_allowed s url branch = elim (normalize url) [
    | none ↦ false
    | some _ ↦ elim (validate_branch branch) [
      | none ↦ false
      | some _ ↦
          if s.is_open
          then true
          else elim (policy_for s url) [ none ↦ false | some p ↦ text_in branch p.allowed_branches ]
    ]
  ]

  unfoldable pub is_protected : Policies → (url branch : Text) → Bool
  unfolding text_in lower strip policy_for
  is_protected s url branch =
      if text_in (lower (strip branch)) main_branches
      then true
      else elim (policy_for s url) [ none ↦ false | some p ↦ text_in branch p.protected_branches ]

  -- The policy that allows the branch, which an open service need not have; none where the source
  -- raises RepositoryNotAllowedError.
  unfoldable pub require_policy :
      Policies → (url branch : Text) → Bool → Option (Option RepositoryPolicy)
  unfolding policy_for text_in
  require_policy s normalized branch write =
      if s.is_open then some (policy_for s normalized) else elim (policy_for s normalized) [
        | none ↦ none
        | some p ↦
            if not (text_in branch p.allowed_branches)
            then none
            else if write && text_in branch p.protected_branches
            then none
            else some (some p)
      ]

  unfoldable pub require_allowed :
      Policies → (url branch : Text) → Bool → Option (Option RepositoryPolicy)
  unfolding validate_branch text_in lower require_policy
  require_allowed s url branch write = elim (normalize url) [
    | none ↦ none
    | some normalized ↦ elim (validate_branch branch) [
      | none ↦ none
      | some validated ↦
          if write && text_in (lower validated) main_branches
          then none
          else require_policy s normalized validated write
    ]
  ]
