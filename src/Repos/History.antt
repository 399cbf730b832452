-- ===== src/Repos/History.antt =====
-- Histories of the writes of src/beachops/db/repositories/repos.py.
use beachops.Base.{ℕ, ◌≡◌, inl, inr, Bool, true, ◌&&◌, Option, Text, Bool-cases, Option-cases}
use beachops.Database.{Result-cases}
use beachops.AgentSlots.{SlotDb}
use beachops.Repos.{Settings, set_active_by_id, set_active_alias, add_repo, update_repo}
use beachops.RepoParse.{normalize_github_repo_url, alias_from_github_url}
use beachops.Repos.{
  has_default_repo, get_active_repo, list_repos, only_repo, no_repos,
  seed_default_repo_for_new_user, resolve_active_repo,
}
use beachops.Repos.Rows.{IsSingle}
use beachops.Repos.One.{
  IsFresh, set_active_by_id-IsSingle, set_active_alias-IsSingle, add_repo-IsSingle,
  update_repo-IsSingle,
}

-- One call, with a fresh identifier where it may insert.
pub data Write (collate : Text → ℕ) (settings : Settings) (t u : SlotDb) : Type 0 where
  activates : (uid i : ℕ) → u ≡ (set_active_by_id t uid i).1 → Write collate settings t u
  activates_alias :
      (uid : ℕ) (alias : Text) → u ≡ (set_active_alias t uid alias).1 → Write collate settings t u
  adds :
      (id uid : ℕ) (alias url branch : Text) (make_active : Bool)
      → IsFresh id t
      → u ≡ (add_repo t id uid alias url branch make_active).1
      → Write collate settings t u
  updates :
      (uid i : ℕ) (branch : Option Text) (make_active : Bool)
      → u ≡ (update_repo t uid i branch make_active).1
      → Write collate settings t u
  seeds :
      (id uid : ℕ)
      → IsFresh id t
      → u ≡ (seed_default_repo_for_new_user t id uid settings).1
      → Write collate settings t u
  resolves :
      (id uid : ℕ)
      → IsFresh id t
      → u ≡ (resolve_active_repo collate t id uid settings).1
      → Write collate settings t u

pub data Reach (collate : Text → ℕ) (settings : Settings) (t : SlotDb) : SlotDb → Type 0 where
  here : Reach collate settings t t
  next :
      {u v : SlotDb}
      → Reach collate settings t u
      → Write collate settings u v
      → Reach collate settings t v

seed-IsSingle :
    (v : ℕ) (db : SlotDb) (id uid : ℕ) (settings : Settings)
    → IsFresh id db
    → IsSingle v db
    → IsSingle v (seed_default_repo_for_new_user db id uid settings).1
unfolding seed_default_repo_for_new_user
seed-IsSingle v db id uid settings fresh h = elim (Bool-cases (has_default_repo settings)) [
  | inr off ↦ rw (off, seed_default_repo_for_new_user) h
  | inl on ↦ elim (Result-cases (normalize_github_repo_url settings.default_repo_url)) [
    | inl (e, bad) ↦ rw (on, bad, seed_default_repo_for_new_user) h
    | inr (url, good) ↦ elim (Result-cases (alias_from_github_url url)) [
      | inl (e, bad) ↦ rw (on, good, bad, seed_default_repo_for_new_user) h
      | inr (alias, named) ↦
          let added =
            add_repo-IsSingle v db id uid alias url settings.default_branch true fresh h in
          elim (Result-cases (add_repo db id uid alias url settings.default_branch true).0) [
            | inl (e, refused) ↦ rw (on, good, named, refused, seed_default_repo_for_new_user) added
            | inr (repo, there) ↦ rw (on, good, named, there, seed_default_repo_for_new_user) added
          ]
    ]
  ]
]

resolve-IsSingle :
    (v : ℕ) (collate : Text → ℕ) (db : SlotDb) (id uid : ℕ) (settings : Settings)
    → IsFresh id db
    → IsSingle v db
    → IsSingle v (resolve_active_repo collate db id uid settings).1
unfolding resolve_active_repo
resolve-IsSingle v collate db id uid settings fresh h =
    elim (Option-cases (get_active_repo db uid)) [
      | inr (repo, there) ↦ rw (there, resolve_active_repo) h
      | inl missing ↦ elim (Option-cases (only_repo (list_repos collate db uid))) [
        | inr (repo, single) ↦
            rw (missing, single, resolve_active_repo)
              (set_active_alias-IsSingle v db uid repo.alias h)
        | inl several ↦
            elim (Bool-cases (no_repos (list_repos collate db uid) && has_default_repo settings)) [
              | inl empty ↦
                  rw (missing, several, empty, resolve_active_repo)
                    (seed-IsSingle v db id uid settings fresh h)
              | inr idle ↦ rw (missing, several, idle, resolve_active_repo) h
            ]
      ]
    ]

Write-IsSingle :
    (v : ℕ) {collate : Text → ℕ} {settings : Settings} {t u : SlotDb}
    → Write collate settings t u
    → IsSingle v t
    → IsSingle v u
Write-IsSingle v {t = t} (activates uid i e) h = rw e (set_active_by_id-IsSingle v t uid i h)
Write-IsSingle v {t = t} (activates_alias uid alias e) h =
    rw e (set_active_alias-IsSingle v t uid alias h)
Write-IsSingle v {t = t} (adds id uid alias url branch b fresh e) h =
    rw e (add_repo-IsSingle v t id uid alias url branch b fresh h)
Write-IsSingle v {t = t} (updates uid i branch b e) h =
    rw e (update_repo-IsSingle v t uid i branch b h)
Write-IsSingle v {settings = settings} {t = t} (seeds id uid fresh e) h =
    rw e (seed-IsSingle v t id uid settings fresh h)
Write-IsSingle v {collate} {settings} {t} (resolves id uid fresh e) h =
    rw e (resolve-IsSingle v collate t id uid settings fresh h)

-- Any calls of the repository, in any order and for any users, keep identifiers and each user's
-- aliases unique, and leave no user with two active repositories, where a new row takes an identifier
-- that none has.
pub Reach-IsSingle :
    (v : ℕ) {collate : Text → ℕ} {settings : Settings} {t u : SlotDb}
    → Reach collate settings t u
    → IsSingle v t
    → IsSingle v u
Reach-IsSingle v here h = h
Reach-IsSingle v (next r w) h = Write-IsSingle v w (Reach-IsSingle v r h)
