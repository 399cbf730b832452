-- ===== src/SlotService/Parts.antt =====
-- The parts of the calls of src/beachops/services/agent_slots.py, as writes to the tables.
use beachops.Base.{
  ℕ, ◌==◌, ◌<◌, ◌≡◌, refl, ap, inl, inr, true, ◌&&◌, Option, none, List, [], ◌∷◌, map, Text, any,
  find?, head?, length, sort_by-ne-nil, Bool-cases, Option-cases,
}
use beachops.Database.{Result, ok, raise, Result-cases}
use beachops.AgentSlots.{
  SlotRow, AgentSlot, RepoConfig, SlotDb, row_to_slot, list_slots, count_slots, set_active,
}
use beachops.AgentSlots.Steps.{creates, sets_active}
use beachops.RepoParse.{normalize_github_repo_url, alias_from_github_url}
use beachops.Repos.{
  Settings, has_default_repo, repo_at, repo_named, deactivate_repos, activate_repo, get_active_repo,
  set_active_by_id, set_active_alias, add_repo, seed_default_repo_for_new_user, list_repos,
  only_repo, no_repos, resolve_active_repo,
}
use beachops.SlotService.{repo_id_of, follow_repo, activate_slot, create_for}
use beachops.SlotService.Guards.{Writes, unchanged, repos, slots, Writes-trans}

-- Only the repositories are written.
abbrev pub ReposOnly : SlotDb → SlotDb → Type 0
ReposOnly t u = (rs : List RepoConfig) × (u ≡ record t { user_repos = rs })

ReposOnly-refl : (t : SlotDb) → ReposOnly t t
ReposOnly-refl t = (t.user_repos, refl)

pub set_active_by_id-ReposOnly :
    (db : SlotDb) (uid k : ℕ) → ReposOnly db (set_active_by_id db uid k).1
unfolding set_active_by_id
set_active_by_id-ReposOnly db uid k = elim (Option-cases (find? (repo_at uid k) db.user_repos)) [
  | inl missing ↦ rw (missing, set_active_by_id) (ReposOnly-refl db)
  | inr (row, found) ↦ rw (found, set_active_by_id) ((activate_repo db uid k).user_repos, refl)
]

set_active_alias-ReposOnly :
    (db : SlotDb) (uid : ℕ) (alias : Text) → ReposOnly db (set_active_alias db uid alias).1
unfolding set_active_alias
set_active_alias-ReposOnly db uid alias =
    elim (Option-cases (find? (repo_named uid alias) db.user_repos)) [
      | inl missing ↦ rw (missing, set_active_alias) (ReposOnly-refl db)
      | inr (row, found) ↦
          rw (found, set_active_alias) ((activate_repo db uid row.id).user_repos, refl)
    ]

add_repo-ReposOnly :
    (db : SlotDb) (id uid : ℕ) (alias url branch : Text)
    → ReposOnly db (add_repo db id uid alias url branch true).1
unfolding add_repo
add_repo-ReposOnly db id uid alias url branch = elim (Bool-cases (any (λ u. u == uid) db.users)) [
  | inr stranger ↦ rw (stranger, add_repo) (_, refl)
  | inl known ↦
      elim (Option-cases (find? (repo_named uid alias) (deactivate_repos db uid).user_repos)) [
        | inl fresh ↦ rw (known, fresh, add_repo) (_, refl)
        | inr (row, found) ↦ rw (known, found, add_repo) (_, refl)
      ]
]

seed-ReposOnly :
    (db : SlotDb) (id uid : ℕ) (settings : Settings)
    → ReposOnly db (seed_default_repo_for_new_user db id uid settings).1
unfolding seed_default_repo_for_new_user
seed-ReposOnly db id uid settings = elim (Bool-cases (has_default_repo settings)) [
  | inr off ↦ rw (off, seed_default_repo_for_new_user) (ReposOnly-refl db)
  | inl on ↦ elim (Result-cases (normalize_github_repo_url settings.default_repo_url)) [
    | inl (e, bad) ↦ rw (on, bad, seed_default_repo_for_new_user) (ReposOnly-refl db)
    | inr (url, good) ↦ elim (Result-cases (alias_from_github_url url)) [
      | inl (e, bad) ↦ rw (on, good, bad, seed_default_repo_for_new_user) (ReposOnly-refl db)
      | inr (alias, named) ↦
          let added = add_repo-ReposOnly db id uid alias url settings.default_branch in
          elim (Result-cases (add_repo db id uid alias url settings.default_branch true).0) [
            | inl (e, refused) ↦ rw (on, good, named, refused, seed_default_repo_for_new_user) added
            | inr (repo, done) ↦ rw (on, good, named, done, seed_default_repo_for_new_user) added
          ]
    ]
  ]
]

pub resolve_active_repo-ReposOnly :
    (collate : Text → ℕ) (db : SlotDb) (id uid : ℕ) (settings : Settings)
    → ReposOnly db (resolve_active_repo collate db id uid settings).1
unfolding resolve_active_repo
resolve_active_repo-ReposOnly collate db id uid settings =
    elim (Option-cases (get_active_repo db uid)) [
      | inr (repo, active) ↦ rw (active, resolve_active_repo) (ReposOnly-refl db)
      | inl inactive ↦ elim (Option-cases (only_repo (list_repos collate db uid))) [
        | inr (repo, only) ↦
            rw (inactive, only, resolve_active_repo) (set_active_alias-ReposOnly db uid repo.alias)
        | inl several ↦
            elim (Bool-cases (no_repos (list_repos collate db uid) && has_default_repo settings)) [
              | inl seeds ↦
                  rw (inactive, several, seeds, resolve_active_repo)
                    (seed-ReposOnly db id uid settings)
              | inr keeps ↦ rw (inactive, several, keeps, resolve_active_repo) (ReposOnly-refl db)
            ]
      ]
    ]

-- Writes to the repositories do not change the number of slots.
pub ReposOnly-count :
    (t : SlotDb) {u : SlotDb} (uid : ℕ) → ReposOnly t u → count_slots u uid ≡ count_slots t uid
unfolding count_slots
ReposOnly-count t uid (rs, e) = rw e refl

module _ (limit : ℕ) where
  pub ReposOnly-Writes : {t u : SlotDb} → ReposOnly t u → Writes limit t u
  ReposOnly-Writes (rs, e) = repos rs unchanged e

  pub follow_repo-Writes :
      (db : SlotDb) (uid : ℕ) (slot : AgentSlot) → Writes limit db (follow_repo db uid slot)
  unfolding follow_repo
  follow_repo-Writes db uid slot = elim (Option-cases slot.repo_id) [
    | inl detached ↦ rw (detached, follow_repo) unchanged
    | inr (k, bound) ↦
        rw (bound, follow_repo) (ReposOnly-Writes (set_active_by_id-ReposOnly db uid k))
  ]

  pub set_active-Writes :
      (db : SlotDb) (now uid i : ℕ) → Writes limit db (set_active db now uid i).1
  set_active-Writes db now uid i = slots unchanged (sets_active now uid i refl) tt

  pub activate_slot-Writes :
      (db : SlotDb) (now uid i : ℕ) → Writes limit db (activate_slot db now uid i).1
  unfolding activate_slot
  activate_slot-Writes db now uid i = elim (Option-cases (set_active db now uid i).0) [
    | inl missing ↦ rw (missing, activate_slot) (set_active-Writes db now uid i)
    | inr (slot, found) ↦
        rw (found, activate_slot)
          (Writes-trans (set_active-Writes db now uid i) (follow_repo-Writes _ uid slot))
  ]

  pub create_for-Writes :
      (db : SlotDb) (now uid : ℕ) (label : Text) (repo : Result (Option RepoConfig))
      → count_slots db uid < limit
      → Writes limit db (create_for db now uid label repo).1
  unfolding create_for
  create_for-Writes db now uid label (raise e) room = unchanged
  create_for-Writes db now uid label (ok repo) room =
      slots unchanged (creates now uid label (repo_id_of repo) true refl) room

-- Without slots there are none to list.
pub list_slots-nil :
    (db : SlotDb) (uid : ℕ) → head? (list_slots db uid) ≡ none → count_slots db uid ≡ 0
unfolding list_slots count_slots
list_slots-nil db uid h = ap length (sort_by-ne-nil _ _ (head-map _ h))
  where
    head-map : (xs : List SlotRow) → head? (map (row_to_slot db) xs) ≡ none → head? xs ≡ none
    head-map [] e = refl
    head-map (x ∷ xs) e = cc
