-- ===== src/RepositoryPolicy/Build.antt =====
-- How src/beachops/services/repository_policy.py builds its policies: the constructor and
-- with_extra_repository.
use beachops.Base.{
  ◌==◌, ◌≡◌, refl, ap, ◌∙◌, inl, inr, Bool, false, not, ◌&&◌, ◌||◌, Option, none, some, List, [],
  ◌∷◌, ◌++◌, Text, text, text_eq, text_eq_iff, text_in, length, is_some, filter, update_where,
  Bool-cases, if◌then◌else◌,
}
use beachops.Security.{RepositoryPolicy}
use beachops.RiskPolicy.{main_branches}
use beachops.RepositoryPolicy.{validate_branch, Policies, lookup_url}

-- `tuple(_validate_branch(branch) for branch in branches)`
unfoldable pub validate_all : List Text → Option (List Text)
unfolding validate_branch
validate_all [] = some []
validate_all (b ∷ bs) = elim (validate_branch b) [
  | none ↦ none
  | some v ↦ elim (validate_all bs) [ none ↦ none | some vs ↦ some (v ∷ vs) ]
]

-- `tuple(dict.fromkeys(values))`
unfoldable pub from_keys : List Text → List Text
unfolding filter text_eq
from_keys [] = []
from_keys (v ∷ vs) = v ∷ filter (λ t. not (text_eq t v)) (from_keys vs)

-- One turn of the constructor's loop.
unfoldable pub add_policy :
    (Text → Option Text) → List RepositoryPolicy → RepositoryPolicy → Option (List RepositoryPolicy)
unfolding validate_all from_keys lookup_url
add_policy normalize by_url p = elim (normalize p.repository_url) [
  | none ↦ none
  | some url ↦ elim (validate_all p.allowed_branches) [
    | none ↦ none
    | some branches ↦
        if length branches == 0
        then none
        else if not (length (from_keys branches) == length branches)
        then none
        else if is_some (lookup_url by_url url)
        then none
        else elim (validate_all (p.protected_branches ++ main_branches)) [
          | none ↦ none
          | some protected ↦ some (
              by_url
              ++ (record {
                repository_url = url;
                allowed_branches = branches;
                protected_branches = from_keys protected;
              })
                ∷ [])
        ]
  ]
]

unfoldable pub add_policies :
    (Text → Option Text)
    → List RepositoryPolicy
    → List RepositoryPolicy
    → Option (List RepositoryPolicy)
unfolding add_policy
add_policies normalize by_url [] = some by_url
add_policies normalize by_url (p ∷ ps) = elim (add_policy normalize by_url p) [
  | none ↦ none
  | some more ↦ add_policies normalize more ps
]

-- `RepositoryPolicyService(policies, open_mode=…)`
unfoldable pub new_policies :
    (Text → Option Text) → List RepositoryPolicy → Option Bool → Option Policies
unfolding add_policies
new_policies normalize policies open_mode = elim (add_policies normalize [] policies) [
  | none ↦ none
  | some by_url ↦ some (record {
    by_url = by_url;
    is_open = (elim open_mode [ none ↦ length by_url == 0 | some b ↦ b ]);
  })
]

-- Whether the policy itself lists main and master as protected.
unfoldable pub protects_main : RepositoryPolicy → Bool
unfolding text_in
protects_main p =
    text_in (text "main") p.protected_branches && text_in (text "master") p.protected_branches

text_in-filter :
    (s v : Text) (ts : List Text)
    → text_eq s v ≡ false
    → text_in s (filter (λ t. not (text_eq t v)) ts) ≡ text_in s ts
unfolding text_in filter
text_in-filter s v [] other = refl
text_in-filter s v (t ∷ ts) other = elim (Bool-cases (text_eq t v)) [
  | inr apart ↦ rw apart (ap (λ b. text_eq s t || b) (text_in-filter s v ts other))
  | inl same ↦
      let t_v : t ≡ v = (text_eq_iff t v).0 same in
      let miss : text_eq s t ≡ false = ap (text_eq s) t_v ∙ other in
      rw (same, miss) (text_in-filter s v ts other)
]

pub text_in-from_keys : (s : Text) (ts : List Text) → text_in s (from_keys ts) ≡ text_in s ts
unfolding text_in from_keys
text_in-from_keys s [] = refl
text_in-from_keys s (t ∷ ts) = elim (Bool-cases (text_eq s t)) [
  | inl hit ↦ rw hit refl
  | inr miss ↦ rw miss (text_in-filter s t (from_keys ts) miss ∙ text_in-from_keys s ts)
]

-- The policy that `with_extra_repository` stores: the union with the one that is there.
unfoldable pub merged_policy :
    Option RepositoryPolicy → Text → (allowed protected : List Text) → RepositoryPolicy
unfolding from_keys
merged_policy none url allowed protected = record {
  repository_url = url;
  allowed_branches = allowed;
  protected_branches = from_keys (protected ++ main_branches);
}
merged_policy (some existing) url allowed protected = record {
  repository_url = url;
  allowed_branches = from_keys (existing.allowed_branches ++ allowed);
  protected_branches = from_keys (existing.protected_branches ++ protected);
}

-- `merged[url] = policy`: in place, or at the end.
unfoldable pub store_policy :
    List RepositoryPolicy → Text → RepositoryPolicy → List RepositoryPolicy
unfolding lookup_url update_where text_eq
store_policy by_url url p =
    if is_some (lookup_url by_url url)
    then update_where (λ (q : RepositoryPolicy). text_eq q.repository_url url) (λ q. p) by_url
    else by_url ++ p ∷ []

unfoldable pub with_extra_repository :
    (Text → Option Text) → Policies → Text → (allowed protected : List Text) → Option Policies
unfolding validate_all merged_policy store_policy lookup_url
with_extra_repository normalize s url allowed protected = elim (normalize url) [
  | none ↦ none
  | some normalized ↦ elim (validate_all allowed) [
    | none ↦ none
    | some branches ↦
        if length branches == 0
        then none
        else some (record s {
          by_url =
              store_policy s.by_url normalized
                (merged_policy (lookup_url s.by_url normalized) normalized branches protected);
        })
  ]
]
