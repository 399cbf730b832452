-- ===== src/RepositoryPolicy/Guard.antt =====
-- The protected branches of the policies that src/beachops/services/repository_policy.py builds.
use beachops.Base.{
  ◌==◌, ◌≡◌, refl, sym, ◌∙◌, inl, inr, Bool, true, false, ◌&&◌, ◌||◌, Option, some, List, [], ◌∷◌,
  ◌++◌, Text, text, text_eq, text_in, length, is_some, All, All-append, All-find?,
  All-update_where_kept, Bool-cases, Option-cases, arith,
}
use beachops.Security.{RepositoryPolicy}
use beachops.RiskPolicy.{main_branches}
use beachops.RepositoryPolicy.{validate_branch, Policies, lookup_url}
use beachops.RepositoryPolicy.Build.{
  validate_all, from_keys, add_policy, add_policies, new_policies, protects_main, text_in-from_keys,
  with_extra_repository, merged_policy, store_policy,
}

-- The policy refuses writes to main and master, and allows some branch.
abbrev pub IsGuarded : RepositoryPolicy → Type 0
IsGuarded p = (protects_main p ≡ true) × ((length p.allowed_branches == 0) ≡ false)

text_in-append :
    (s : Text) (xs ys : List Text) → text_in s (xs ++ ys) ≡ (text_in s xs || text_in s ys)
unfolding text_in
text_in-append s [] ys = refl
text_in-append s (x ∷ xs) ys = ground (arith, text_in-append s xs ys)

or_true : (b : Bool) {c : Bool} → c ≡ true → (b || c) ≡ true
or_true true h = refl
or_true false h = h

-- Validation keeps main and master at the end of the list.
validate_all-main :
    (xs vs : List Text)
    → validate_all (xs ++ main_branches) ≡ some vs
    → (text_in (text "main") vs ≡ true) × (text_in (text "master") vs ≡ true)
unfolding validate_all text_in
validate_all-main [] vs h =
    let same : main_branches ≡ vs = ground arith in (rw (sym same) refl, rw (sym same) refl)
validate_all-main (x ∷ xs) vs h = elim (Option-cases (validate_branch x)) [
  | inl bad ↦ absurd (ground arith)
  | inr (v, valid) ↦ elim (Option-cases (validate_all (xs ++ main_branches))) [
    | inl bad ↦ absurd (ground arith)
    | inr (rest, all_valid) ↦
        let (a, b) = validate_all-main xs rest all_valid in
        let same : v ∷ rest ≡ vs = ground arith in
        (
          rw (sym same) (or_true (text_eq (text "main") v) a),
          rw (sym same) (or_true (text_eq (text "master") v) b),
        )
  ]
]

both_true : {b c : Bool} → b ≡ true → c ≡ true → (b && c) ≡ true
both_true h k = ground arith

add_policy-IsGuarded :
    (normalize : Text → Option Text) (by_url more : List RepositoryPolicy) (p : RepositoryPolicy)
    → add_policy normalize by_url p ≡ some more
    → All IsGuarded by_url
    → All IsGuarded more
unfolding add_policy protects_main
add_policy-IsGuarded normalize by_url more p h guarded =
    elim (Option-cases (normalize p.repository_url)) [
      | inl bad ↦ absurd (ground arith)
      | inr (url, url_ok) ↦ elim (Option-cases (validate_all p.allowed_branches)) [
        | inl bad ↦ absurd (ground arith)
        | inr (branches, valid) ↦ elim (Bool-cases (length branches == 0)) [
          | inl empty ↦ absurd (ground arith)
          | inr allowed ↦ elim (Bool-cases (length (from_keys branches) == length branches)) [
            | inr twice ↦ absurd (ground arith)
            | inl once ↦ elim (Bool-cases (is_some (lookup_url by_url url))) [
              | inl taken ↦ absurd (ground arith)
              | inr free ↦
                  elim (Option-cases (validate_all (p.protected_branches ++ main_branches))) [
                    | inl bad ↦ absurd (ground arith)
                    | inr (protected, safe) ↦
                        let (a, b) = validate_all-main p.protected_branches protected safe in
                        let guard : protects_main (record {
                          repository_url = url;
                          allowed_branches = branches;
                          protected_branches = from_keys protected;
                        })
                            ≡ true =
                          both_true (text_in-from_keys (text "main") protected ∙ a)
                            (text_in-from_keys (text "master") protected ∙ b) in
                        let same : by_url
                              ++ (record {
                                repository_url = url;
                                allowed_branches = branches;
                                protected_branches = from_keys protected;
                              })
                                ∷ []
                            ≡ more =
                          ground arith in
                        rw (sym same) (All-append IsGuarded by_url _ guarded ((guard, allowed), tt))
                  ]
            ]
          ]
        ]
      ]
    ]

add_policies-IsGuarded :
    (normalize : Text → Option Text) (by_url more ps : List RepositoryPolicy)
    → add_policies normalize by_url ps ≡ some more
    → All IsGuarded by_url
    → All IsGuarded more
unfolding add_policies
add_policies-IsGuarded normalize by_url more [] h guarded =
    let same : by_url ≡ more = ground arith in rw (sym same) guarded
add_policies-IsGuarded normalize by_url more (p ∷ ps) h guarded =
    elim (Option-cases (add_policy normalize by_url p)) [
      | inl bad ↦ absurd (ground arith)
      | inr (next, added) ↦
          add_policies-IsGuarded normalize next more ps (ground arith)
            (add_policy-IsGuarded normalize by_url next p added guarded)
    ]

-- A service that can be built refuses writes to main and master in every repository that it lists,
-- and allows some branch of each, whatever its configuration says.
pub new_policies-IsGuarded :
    (normalize : Text → Option Text) (ps : List RepositoryPolicy) (open_mode : Option Bool)
    (s : Policies)
    → new_policies normalize ps open_mode ≡ some s
    → All IsGuarded s.by_url
unfolding new_policies
new_policies-IsGuarded normalize ps open_mode s h =
    elim (Option-cases (add_policies normalize [] ps)) [
      | inl bad ↦ absurd (ground arith)
      | inr (by_url, built) ↦
          let same : by_url ≡ s.by_url = ground arith in
          rw (sym same) (add_policies-IsGuarded normalize [] by_url ps built tt)
    ]

from_keys-nonempty :
    (ts : List Text) → (length ts == 0) ≡ false → (length (from_keys ts) == 0) ≡ false
unfolding from_keys
from_keys-nonempty [] h = cc
from_keys-nonempty (t ∷ ts) h = ground arith

length-append_left :
    (xs ys : List Text) → (length xs == 0) ≡ false → (length (xs ++ ys) == 0) ≡ false
length-append_left [] ys h = cc
length-append_left (x ∷ xs) ys h = ground arith

in_union-left :
    (s : Text) (xs ys : List Text) → text_in s xs ≡ true → text_in s (from_keys (xs ++ ys)) ≡ true
in_union-left s xs ys h = text_in-from_keys s (xs ++ ys) ∙ text_in-append s xs ys ∙ rw h refl

in_union-right :
    (s : Text) (xs ys : List Text) → text_in s ys ≡ true → text_in s (from_keys (xs ++ ys)) ≡ true
in_union-right s xs ys h =
    text_in-from_keys s (xs ++ ys) ∙ text_in-append s xs ys ∙ or_true (text_in s xs) h

main_branches-main :
    (text_in (text "main") main_branches ≡ true) × (text_in (text "master") main_branches ≡ true)
unfolding text_in
main_branches-main = (refl, refl)

both_parts : {b c : Bool} → (b && c) ≡ true → (b ≡ true) × (c ≡ true)
both_parts h = (ground arith, ground arith)

merged_policy-IsGuarded :
    (by_url : List RepositoryPolicy) (url : Text) (allowed protected : List Text)
    → All IsGuarded by_url
    → (length allowed == 0) ≡ false
    → IsGuarded (merged_policy (lookup_url by_url url) url allowed protected)
unfolding merged_policy protects_main lookup_url
merged_policy-IsGuarded by_url url allowed protected guarded some_allowed =
    elim (Option-cases (lookup_url by_url url)) [
      | inl fresh ↦
          let (a, b) = main_branches-main in
          rw (fresh, merged_policy)
            (
              both_true (in_union-right (text "main") protected main_branches a)
                  (in_union-right (text "master") protected main_branches b),
              some_allowed,
            )
      | inr (e, found) ↦
          let (guard, wide) =
            All-find? IsGuarded (λ (p : RepositoryPolicy). text_eq p.repository_url url) by_url
              guarded found in
          let (a, b) = both_parts guard in
          rw (found, merged_policy)
            (
              both_true (in_union-left (text "main") e.protected_branches protected a)
                  (in_union-left (text "master") e.protected_branches protected b),
              from_keys-nonempty _ (length-append_left e.allowed_branches allowed wide),
            )
    ]

store_policy-IsGuarded :
    (by_url : List RepositoryPolicy) (url : Text) (p : RepositoryPolicy)
    → All IsGuarded by_url
    → IsGuarded p
    → All IsGuarded (store_policy by_url url p)
unfolding store_policy
store_policy-IsGuarded by_url url p guarded ok =
    elim (Bool-cases (is_some (lookup_url by_url url))) [
      | inl there ↦ rw there (
          All-update_where_kept IsGuarded (λ (q : RepositoryPolicy). text_eq q.repository_url url)
            (λ q. p) by_url (λ q before. ok) guarded)
      | inr free ↦ rw free (All-append IsGuarded by_url _ guarded (ok, tt))
    ]

-- A service extended by a repository, new or listed, still refuses writes to main and master in every
-- repository that it lists and allows some branch of each, when it did before.
pub with_extra_repository-IsGuarded :
    (normalize : Text → Option Text) (s s' : Policies) (url : Text) (allowed protected : List Text)
    → All IsGuarded s.by_url
    → with_extra_repository normalize s url allowed protected ≡ some s'
    → All IsGuarded s'.by_url
unfolding with_extra_repository
with_extra_repository-IsGuarded normalize s s' url allowed protected guarded h =
    elim (Option-cases (normalize url)) [
      | inl bad ↦ absurd (ground arith)
      | inr (n, url_ok) ↦ elim (Option-cases (validate_all allowed)) [
        | inl bad ↦ absurd (ground arith)
        | inr (branches, valid) ↦ elim (Bool-cases (length branches == 0)) [
          | inl empty ↦ absurd (ground arith)
          | inr some_allowed ↦
              let same : store_policy s.by_url n
                    (merged_policy (lookup_url s.by_url n) n branches protected)
                  ≡ s'.by_url =
                ground arith in
              rw (sym same) (
                store_policy-IsGuarded s.by_url n _ guarded
                  (merged_policy-IsGuarded s.by_url n branches protected guarded some_allowed))
        ]
      ]
    ]
