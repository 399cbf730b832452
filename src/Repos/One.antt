-- ===== src/Repos/One.antt =====
-- The active repository of a user, under the writes of src/beachops/db/repositories/repos.py.
use beachops.Base.{
  ℕ, ◌==◌, ◌≡◌, refl, sym, ap, ◌∙◌, inl, inr, Bool, true, false, ◌||◌, Option, none, some, [], ◌∷◌,
  Text, text_eq_iff, All, All-update_where_kept, All-map, All-every, All-append, Distinct-snoc,
  Distinct-found, any, any-of-All-false, find?, find?-sound, find?-none_iff, Bool-cases,
  Option-cases, arith, if◌then◌else◌,
}
use beachops.AgentSlots.{RepoConfig, SlotDb}
use beachops.Repos.{
  repo_of, repo_at, repo_id_is, repo_named, update_repos, with_repo_active, deactivate_repos,
  activate_repo, set_active_by_id, set_active_alias, new_repo, insert_repo, with_excluded, add_repo,
  get_repo, branch_given, update_repo,
}
use beachops.Repos.Rows.{
  IsOnly, same_id, same_name, same_id_comm, same_name_comm, same_user, update_repos-IsSingle,
  deactivate_repos-IsOnly, deactivate_repos-none, deactivate_repos-IsSingle, Aimed,
  switch_on-IsSingle, IsSingle,
}

-- A row that is found, and the rows with its identifier, after `deactivate_repos`.
found-Aimed :
    (uid : ℕ) (q : RepoConfig → Bool) (db : SlotDb) {x : RepoConfig} (v : ℕ)
    → find? q db.user_repos ≡ some x
    → x.tg_user_id ≡ uid
    → IsSingle v db
    → All (Aimed uid x.id (repo_id_is x.id)) (deactivate_repos db uid).user_repos
unfolding update_repos
found-Aimed uid q db {x} v found mine h =
    All-update_where_kept (Aimed uid x.id (repo_id_is x.id)) (repo_of uid) (with_repo_active false)
      db.user_repos (λ r aim. aim)
      (All-map (λ r. same_id x r ≡ true → r ≡ x) (Aimed uid x.id (repo_id_is x.id))
        (λ r only hit.
          let e = only hit in
          (ap (λ (y : RepoConfig). y.tg_user_id) e ∙ mine, ap (λ (y : RepoConfig). y.id) e))
        db.user_repos (Distinct-found same_id q db.user_repos same_id_comm h.ids found))

activate_repo-IsSingle :
    (v uid : ℕ) (q : RepoConfig → Bool) (db : SlotDb) {x : RepoConfig}
    → find? q db.user_repos ≡ some x
    → x.tg_user_id ≡ uid
    → IsSingle v db
    → IsSingle v (activate_repo db uid x.id)
activate_repo-IsSingle v uid q db {x} found mine h =
    switch_on-IsSingle v uid x.id (repo_id_is x.id) (with_repo_active true) db (λ r. refl)
      (λ r. refl) (λ r. refl) (found-Aimed uid q db v found mine h) h

pub set_active_by_id-IsSingle :
    (v : ℕ) (db : SlotDb) (uid i : ℕ) → IsSingle v db → IsSingle v (set_active_by_id db uid i).1
unfolding set_active_by_id
set_active_by_id-IsSingle v db uid i h = elim (Option-cases (find? (repo_at uid i) db.user_repos)) [
  | inl missing ↦ rw (missing, set_active_by_id) h
  | inr (x, found) ↦
      let at_x : repo_at uid i x ≡ true = find?-sound (repo_at uid i) db.user_repos found in
      let i_x : x.id ≡ i = ground arith in
      rw (found, set_active_by_id) (go x i_x found (ground arith))
]
  where
    go :
        (x : RepoConfig)
        → x.id ≡ i
        → find? (repo_at uid i) db.user_repos ≡ some x
        → x.tg_user_id ≡ uid
        → IsSingle v (activate_repo db uid i)
    go x e found mine = rw (← e) (activate_repo-IsSingle v uid (repo_at uid i) db found mine h)

pub set_active_alias-IsSingle :
    (v : ℕ) (db : SlotDb) (uid : ℕ) (alias : Text)
    → IsSingle v db
    → IsSingle v (set_active_alias db uid alias).1
unfolding set_active_alias
set_active_alias-IsSingle v db uid alias h =
    elim (Option-cases (find? (repo_named uid alias) db.user_repos)) [
      | inl missing ↦ rw (missing, set_active_alias) h
      | inr (x, found) ↦
          let at_x : repo_named uid alias x ≡ true =
            find?-sound (repo_named uid alias) db.user_repos found in
          rw (found, set_active_alias)
            (activate_repo-IsSingle v uid (repo_named uid alias) db found (ground arith) h)
    ]

-- The rows that the UPDATE of `ON CONFLICT` meets: the one with the user's alias.
named-Aimed :
    (v uid : ℕ) (alias : Text) (db : SlotDb) {x : RepoConfig}
    → find? (repo_named uid alias) db.user_repos ≡ some x
    → IsSingle v db
    → All (Aimed uid x.id (repo_named uid alias)) db.user_repos
named-Aimed v uid alias db {x} found h =
    let at_x : repo_named uid alias x ≡ true =
      find?-sound (repo_named uid alias) db.user_repos found in
    let alias_x : x.alias ≡ alias = (text_eq_iff x.alias alias).0 (ground arith) in
    let uid_x : x.tg_user_id ≡ uid = ground arith in
    All-map (λ r. same_name x r ≡ true → r ≡ x) (Aimed uid x.id (repo_named uid alias))
      (λ r only hit.
        let e = only (rw (uid_x, alias_x) hit) in
        (ap (λ (y : RepoConfig). y.tg_user_id) e ∙ uid_x, ap (λ (y : RepoConfig). y.id) e))
      db.user_repos
      (Distinct-found same_name (repo_named uid alias) db.user_repos same_name_comm h.names found)

named_row-IsSingle :
    (v uid : ℕ) (alias url branch : Text) (b : Bool) (db : SlotDb) {x : RepoConfig}
    → find? (repo_named uid alias) (if b then deactivate_repos db uid else db).user_repos ≡ some x
    → IsSingle v db
    → IsSingle v (
        update_repos
          (repo_named uid alias)
          (with_excluded url branch b)
          (if b then deactivate_repos db uid else db))
unfolding update_repos
named_row-IsSingle v uid alias url branch true db {x} found h =
    switch_on-IsSingle v uid x.id (repo_named uid alias) (with_excluded url branch true) db
      (λ r. refl) (λ r. refl) (λ r. refl)
      (named-Aimed v uid alias (deactivate_repos db uid) found
        (deactivate_repos-IsSingle v uid db h))
      h
named_row-IsSingle v uid alias url branch false db found h =
    update_repos-IsSingle v h.one.0 (repo_named uid alias) (with_excluded url branch false) db
      (λ r. refl) (λ r. refl) (λ r. refl) h
      (All-update_where_kept (IsOnly v h.one.0) (repo_named uid alias)
        (with_excluded url branch false) db.user_repos (λ r only owns on. absurd cc) h.one.1)

insert_repo-IsSingle :
    (v k : ℕ) (db : SlotDb) (r : RepoConfig)
    → any (same_id r) db.user_repos ≡ false
    → any (same_name r) db.user_repos ≡ false
    → All (IsOnly v k) db.user_repos
    → IsOnly v k r
    → IsSingle v db
    → IsSingle v (insert_repo db r)
insert_repo-IsSingle v k db r fresh unnamed only new h = record {
  ids = Distinct-snoc same_id db.user_repos r same_id_comm fresh h.ids;
  names = Distinct-snoc same_name db.user_repos r same_name_comm unnamed h.names;
  one = (k, All-append (IsOnly v k) db.user_repos (r ∷ []) only (new, tt));
}

-- No repository has the identifier.
abbrev pub IsFresh : ℕ → SlotDb → Type 0
IsFresh id db = All (λ r. repo_id_is id r ≡ false) db.user_repos

fresh_row-IsSingle :
    (v id uid : ℕ) (alias url branch : Text) (b : Bool) (db : SlotDb)
    → IsFresh id db
    → find? (repo_named uid alias) (if b then deactivate_repos db uid else db).user_repos ≡ none
    → IsSingle v db
    → IsSingle v (
        insert_repo
          (if b then deactivate_repos db uid else db)
          (new_repo id uid alias url branch b))
unfolding update_repos
fresh_row-IsSingle v id uid alias url branch false db fresh missing h =
    insert_repo-IsSingle v h.one.0 db (new_repo id uid alias url branch false)
      (any-of-All-false (repo_id_is id) db.user_repos fresh)
      (find?-none_iff (repo_named uid alias) db.user_repos missing) h.one.1 (λ owns on. absurd cc) h
fresh_row-IsSingle v id uid alias url branch true db fresh missing h =
    elim (Bool-cases (uid == v)) [
      | inl mine ↦
          added id (rw (sym (same_user uid v mine)) (deactivate_repos-none id uid db))
            (λ owns on. refl)
      | inr other ↦
          added h.one.0 (deactivate_repos-IsOnly v h.one.0 uid db h.one.1)
            (λ owns on. absurd (ground arith))
    ]
  where
    added :
        (k : ℕ)
        → All (IsOnly v k) (deactivate_repos db uid).user_repos
        → IsOnly v k (new_repo id uid alias url branch true)
        → IsSingle v (insert_repo (deactivate_repos db uid) (new_repo id uid alias url branch true))
    added k only new =
        insert_repo-IsSingle v k (deactivate_repos db uid) (new_repo id uid alias url branch true)
          (any-of-All-false (repo_id_is id) _ (
            All-update_where_kept (λ r. repo_id_is id r ≡ false) (repo_of uid)
              (with_repo_active false) db.user_repos (λ r e. e) fresh))
          (find?-none_iff (repo_named uid alias) _ missing) only new
          (deactivate_repos-IsSingle v uid db h)

cleared-IsSingle :
    (v uid : ℕ) (b : Bool) (db : SlotDb)
    → IsSingle v db
    → IsSingle v (if b then deactivate_repos db uid else db)
cleared-IsSingle v uid true db h = deactivate_repos-IsSingle v uid db h
cleared-IsSingle v uid false db h = h

pub add_repo-IsSingle :
    (v : ℕ) (db : SlotDb) (id uid : ℕ) (alias url branch : Text) (b : Bool)
    → IsFresh id db
    → IsSingle v db
    → IsSingle v (add_repo db id uid alias url branch b).1
unfolding add_repo
add_repo-IsSingle v db id uid alias url branch b fresh h =
    elim (Bool-cases (any (λ u. u == uid) db.users)) [
      | inr unknown ↦ rw (unknown, add_repo) (cleared-IsSingle v uid b db h)
      | inl known ↦
          elim (Option-cases
            (find? (repo_named uid alias) (if b then deactivate_repos db uid else db).user_repos)) [
              | inl missing ↦
                  rw (known, missing, add_repo)
                    (fresh_row-IsSingle v id uid alias url branch b db fresh missing h)
              | inr (x, found) ↦
                  rw (known, found, add_repo)
                    (named_row-IsSingle v uid alias url branch b db found h)
            ]
    ]

pub update_repo-IsSingle :
    (v : ℕ) (db : SlotDb) (uid i : ℕ) (branch : Option Text) (b : Bool)
    → IsSingle v db
    → IsSingle v (update_repo db uid i branch b).1
unfolding update_repo get_repo update_repos
update_repo-IsSingle v db uid i branch b h = elim (Option-cases (get_repo db uid i)) [
  | inl missing ↦ rw (missing, update_repo) h
  | inr (x, found) ↦ rw (found, update_repo) (written b x)
]
  where
    written :
        (b : Bool) (x : RepoConfig)
        → IsSingle v (
            update_repos
              (repo_at uid i)
              (λ r. record r {
                default_branch = branch_given branch x.default_branch;
                is_active = b || r.is_active;
              })
              (if b then deactivate_repos db uid else db))
    written true x =
        switch_on-IsSingle v uid i (repo_at uid i) _ db (λ r. refl) (λ r. refl) (λ r. refl)
          (All-every (Aimed uid i (repo_at uid i)) (λ r hit. (ground arith, ground arith)) _) h
    written false x =
        update_repos-IsSingle v h.one.0 (repo_at uid i) _ db (λ r. refl) (λ r. refl) (λ r. refl) h
          (All-update_where_kept (IsOnly v h.one.0) (repo_at uid i) _ db.user_repos (λ r only. only)
            h.one.1)
