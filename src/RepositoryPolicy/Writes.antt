-- ===== src/RepositoryPolicy/Writes.antt =====
-- Where src/beachops/services/repository_policy.py lets a job write.
use beachops.Base.{
  ◌≡◌, refl, ◌∙◌, ap, ◌⊎◌, inl, inr, true, false, Option, some, Text, text_eq, text_eq_iff, text_in,
  is_empty, sym, strip, lower, Bool-cases, Option-cases, arith,
}
use beachops.Security.{RepositoryPolicy}
use beachops.RiskPolicy.{main_branches, is_main}
use beachops.RepositoryPolicy.{
  Policies, is_bad_branch, validate_branch, policy_for, require_policy, require_allowed,
}

padded-is_bad :
    (branch : Text) → text_eq (strip branch) branch ≡ false → is_bad_branch branch ≡ true
unfolding is_bad_branch
padded-is_bad branch other = elim (Bool-cases (is_empty (strip branch))) [
  | inl e ↦ rw e refl
  | inr e ↦ rw (e, other) refl
]

-- A branch that is valid has no white space around it.
validate_branch-same :
    (branch value : Text)
    → validate_branch branch ≡ some value
    → (value ≡ branch) × (strip branch ≡ branch)
unfolding validate_branch
validate_branch-same branch value h = elim (Bool-cases (text_eq (strip branch) branch)) [
  | inl e ↦
      let same : strip branch ≡ branch = (text_eq_iff (strip branch) branch).0 e in
      elim (Bool-cases (is_bad_branch branch)) [
        | inl bad ↦ absurd (ground arith)
        | inr good ↦ let kept : strip branch ≡ value = ground arith in (sym kept ∙ same, same)
      ]
  | inr other ↦ absurd (ground (arith, padded-is_bad branch other))
]

module _ (normalize : Text → Option Text) (s : Policies) (url branch : Text) where
  is_free :
      (value : Text)
      → value ≡ branch
      → strip branch ≡ branch
      → text_in (lower value) main_branches ≡ false
      → is_main (some branch) ≡ false
  unfolding is_main
  is_free value same stripped free =
      ap (λ b. text_in (lower b) main_branches) (stripped ∙ sym same) ∙ free

  -- Where the policy lets a job write: in no branch that is main or master in any case of letters,
  -- and, unless the service is open, only in a branch that the repository's policy allows and does
  -- not protect.
  pub require_allowed-writes :
      (result : Option RepositoryPolicy)
      → require_allowed normalize s url branch true ≡ some result
      → (is_main (some branch) ≡ false)
        × ((n : Text) × (normalize url ≡ some n)
            × ((s.is_open ≡ true)
                ⊎ ((p : RepositoryPolicy) × (result ≡ some p)
                    × (policy_for normalize s n ≡ some p)
                    × (text_in branch p.allowed_branches ≡ true)
                    × (text_in branch p.protected_branches ≡ false))))
  unfolding require_allowed require_policy is_main
  require_allowed-writes result h = elim (Option-cases (normalize url)) [
    | inl bad ↦ absurd (ground arith)
    | inr (n, url_ok) ↦ elim (Option-cases (validate_branch branch)) [
      | inl bad ↦ absurd (ground arith)
      | inr (value, valid) ↦
          let (same, stripped) = validate_branch-same branch value valid in
          elim (Bool-cases (text_in (lower value) main_branches)) [
            | inl main ↦ absurd (ground arith)
            | inr free ↦ (
              is_free value same stripped free,
              (
                n,
                url_ok,
                elim (Bool-cases s.is_open) [
                  | inl open_to_all ↦ inl open_to_all
                  | inr closed ↦ elim (Option-cases (policy_for normalize s n)) [
                    | inl missing ↦ absurd (ground arith)
                    | inr (p, found) ↦ elim (Bool-cases (text_in value p.allowed_branches)) [
                      | inr other ↦ absurd (ground arith)
                      | inl allowed ↦ elim (Bool-cases (text_in value p.protected_branches)) [
                        | inl guarded ↦ absurd (ground arith)
                        | inr unguarded ↦
                            inr (
                              p,
                              ground arith,
                              found,
                              rw (sym same) allowed,
                              rw (sym same) unguarded,
                            )
                      ]
                    ]
                  ]
                ],
              ),
            )
          ]
    ]
  ]
