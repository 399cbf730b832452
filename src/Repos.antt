-- ===== src/Repos.antt =====
-- RepoRepository, src/beachops/db/repositories/repos.py, over the table user_repos of
-- alembic/versions/001_initial_schema.py. `id` is the next value of its sequence; `collate` is the
-- rank of an alias in the database's order.
pub mod Rows
pub mod One
pub mod History
use beachops.Base.{
  ℕ, ◌==◌, Bool, true, false, not, ◌&&◌, ◌||◌, Option, none, some, List, [], ◌∷◌, ◌++◌, Text,
  text_eq, is_empty, strip, any, find?, filter, sort_by, update_where, if◌then◌else◌,
}
use beachops.Database.{Result, ok, raise, foreign_key_violation}
use beachops.AgentSlots.{RepoConfig, SlotDb}
use beachops.RepoParse.{normalize_github_repo_url, alias_from_github_url}

-- The settings that the repositories and the slots read.
pub record Settings : Type 0 where
  pub default_repo_url : Text
  pub default_branch : Text
  pub agent_slots_max : ℕ

unfoldable pub has_default_repo : Settings → Bool
unfolding strip is_empty
has_default_repo settings = not (is_empty (strip settings.default_repo_url))

abbrev pub repo_of : ℕ → RepoConfig → Bool
repo_of uid r = r.tg_user_id == uid

abbrev pub repo_at : (uid repo_id : ℕ) → RepoConfig → Bool
repo_at uid repo_id r = (r.tg_user_id == uid) && (r.id == repo_id)

abbrev pub repo_id_is : ℕ → RepoConfig → Bool
repo_id_is repo_id r = r.id == repo_id

abbrev pub repo_named : ℕ → Text → RepoConfig → Bool
repo_named uid alias r = (r.tg_user_id == uid) && text_eq r.alias alias

abbrev pub active_repo_of : ℕ → RepoConfig → Bool
active_repo_of uid r = (r.tg_user_id == uid) && r.is_active

-- UPDATE user_repos SET … WHERE …
unfoldable pub update_repos : (RepoConfig → Bool) → (RepoConfig → RepoConfig) → SlotDb → SlotDb
unfolding update_where
update_repos p f db = record db { user_repos = update_where p f db.user_repos }

abbrev pub with_repo_active : Bool → RepoConfig → RepoConfig
with_repo_active b r = record r { is_active = b }

abbrev pub deactivate_repos : SlotDb → ℕ → SlotDb
deactivate_repos db uid = update_repos (repo_of uid) (with_repo_active false) db

unfoldable pub list_repos : (Text → ℕ) → SlotDb → ℕ → List RepoConfig
unfolding filter sort_by
list_repos collate db uid =
    sort_by (λ (r : RepoConfig). if r.is_active then 0 else 1)
      (sort_by (λ (r : RepoConfig). collate r.alias) (filter (repo_of uid) db.user_repos))

unfoldable pub get_active_repo : SlotDb → ℕ → Option RepoConfig
unfolding find?
get_active_repo db uid = find? (active_repo_of uid) db.user_repos

unfoldable pub get_repo : SlotDb → (uid repo_id : ℕ) → Option RepoConfig
unfolding find?
get_repo db uid repo_id = find? (repo_at uid repo_id) db.user_repos

-- The two UPDATEs behind `set_active` and `set_active_by_id`.
abbrev pub activate_repo : SlotDb → (uid repo_id : ℕ) → SlotDb
activate_repo db uid repo_id =
    update_repos (repo_id_is repo_id) (with_repo_active true) (deactivate_repos db uid)

unfoldable pub set_active_by_id : SlotDb → (uid repo_id : ℕ) → Option RepoConfig × SlotDb
unfolding get_repo update_repos find?
set_active_by_id db uid repo_id = elim (find? (repo_at uid repo_id) db.user_repos) [
  | none ↦ (none, db)
  | some row ↦ let after = activate_repo db uid repo_id in (get_repo after uid repo_id, after)
]

unfoldable pub set_active_alias : SlotDb → ℕ → Text → Option RepoConfig × SlotDb
unfolding get_active_repo update_repos find? text_eq
set_active_alias db uid alias = elim (find? (repo_named uid alias) db.user_repos) [
  | none ↦ (none, db)
  | some row ↦ let after = activate_repo db uid row.id in (get_active_repo after uid, after)
]

abbrev pub new_repo : (id uid : ℕ) → (alias github_url default_branch : Text) → Bool → RepoConfig
new_repo id uid alias github_url default_branch is_active = record {
  id = id;
  tg_user_id = uid;
  alias = alias;
  github_url = github_url;
  default_branch = default_branch;
  is_active = is_active;
}

-- The UPDATE of `ON CONFLICT`.
abbrev pub with_excluded : (github_url default_branch : Text) → Bool → RepoConfig → RepoConfig
with_excluded github_url default_branch is_active r = record r {
  github_url = github_url;
  default_branch = default_branch;
  is_active = is_active;
}

abbrev pub insert_repo : SlotDb → RepoConfig → SlotDb
insert_repo db r = record db { user_repos = db.user_repos ++ r ∷ [] }

unfoldable pub add_repo :
    SlotDb
    → (id uid : ℕ) → (alias github_url default_branch : Text) → Bool
    → Result RepoConfig × SlotDb
unfolding any find? update_repos text_eq
add_repo db id uid alias github_url default_branch make_active =
    let cleared = (if make_active then deactivate_repos db uid else db) in
    if not (any (λ u. u == uid) db.users)
    then (raise foreign_key_violation, cleared)
    else (elim (find? (repo_named uid alias) cleared.user_repos) [
      | none ↦
          let row = new_repo id uid alias github_url default_branch make_active in
          (ok row, insert_repo cleared row)
      | some row ↦ (
        ok (with_excluded github_url default_branch make_active row),
        update_repos (repo_named uid alias) (with_excluded github_url default_branch make_active)
            cleared,
      )
    ])

abbrev pub branch_given : Option Text → Text → Text
branch_given none current = current
branch_given (some b) current = b

unfoldable pub update_repo :
    SlotDb → (uid repo_id : ℕ) → Option Text → Bool → Option RepoConfig × SlotDb
unfolding get_repo update_repos
update_repo db uid repo_id default_branch make_active = elim (get_repo db uid repo_id) [
  | none ↦ (none, db)
  | some repo ↦
      let cleared = (if make_active then deactivate_repos db uid else db) in
      let branch = branch_given default_branch repo.default_branch in
      let after =
        update_repos (repo_at uid repo_id)
          (λ r. record r { default_branch = branch; is_active = make_active || r.is_active })
          cleared in
      (get_repo after uid repo_id, after)
]

unfoldable pub seed_default_repo_for_new_user :
    SlotDb → (id uid : ℕ) → Settings → Result (Option RepoConfig) × SlotDb
unfolding has_default_repo normalize_github_repo_url alias_from_github_url add_repo
seed_default_repo_for_new_user db id uid settings =
    if not (has_default_repo settings)
    then (ok none, db)
    else (elim (normalize_github_repo_url settings.default_repo_url) [
      | raise e ↦ (raise e, db)
      | ok github_url ↦ elim (alias_from_github_url github_url) [
        | raise e ↦ (raise e, db)
        | ok alias ↦
            let (added, after) = add_repo db id uid alias github_url settings.default_branch true in
            elim added [ raise e ↦ (raise e, after) | ok repo ↦ (ok (some repo), after) ]
      ]
    ])

abbrev pub only_repo : List RepoConfig → Option RepoConfig
only_repo [] = none
only_repo (r ∷ []) = some r
only_repo (r ∷ s ∷ rs) = none

abbrev pub no_repos : List RepoConfig → Bool
no_repos [] = true
no_repos (r ∷ rs) = false

unfoldable pub resolve_active_repo :
    (Text → ℕ) → SlotDb → (id uid : ℕ) → Settings → Result (Option RepoConfig) × SlotDb
unfolding get_active_repo list_repos set_active_alias seed_default_repo_for_new_user
    has_default_repo
resolve_active_repo collate db id uid settings = elim (get_active_repo db uid) [
  | some repo ↦ (ok (some repo), db)
  | none ↦
      let repos = list_repos collate db uid in
      elim (only_repo repos) [
        | some repo ↦ let (active, after) = set_active_alias db uid repo.alias in (ok active, after)
        | none ↦
            if no_repos repos && has_default_repo settings
            then seed_default_repo_for_new_user db id uid settings
            else (ok none, db)
      ]
]
