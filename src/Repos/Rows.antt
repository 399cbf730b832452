-- ===== src/Repos/Rows.antt =====
-- The rows of user_repos under the UPDATEs of src/beachops/db/repositories/repos.py.
use beachops.Base.{
  ℕ, ◌==◌, ◌≡◌, refl, sym, inl, inr, Bool, true, false, Text, text_eq, text_eq_iff, All,
  All-update_where, All-update_where_each, All-map, All-map₂, All-every, Distinct,
  Distinct-update_where, update_where, Bool-cases, arith,
}
use beachops.AgentSlots.{RepoConfig, SlotDb}
use beachops.Repos.{
  repo_of, repo_id_is, repo_named, update_repos, with_repo_active, deactivate_repos,
}

-- If the row is an active repository of `v`, then it is the repository `k`.
abbrev pub IsOnly : (v k : ℕ) → RepoConfig → Type 0
IsOnly v k r = r.tg_user_id ≡ v → r.is_active ≡ true → r.id ≡ k

abbrev pub same_id : RepoConfig → RepoConfig → Bool
same_id x y = repo_id_is x.id y

abbrev pub same_name : RepoConfig → RepoConfig → Bool
same_name x y = repo_named x.tg_user_id x.alias y

-- The keys of the table, and one active repository of `v` at most.
pub record IsSingle (v : ℕ) (db : SlotDb) : Type 0 where
  pub ids : Distinct same_id db.user_repos
  pub names : Distinct same_name db.user_repos
  pub one : (k : ℕ) × All (IsOnly v k) db.user_repos

pub same_id_comm : (x y : RepoConfig) → same_id x y ≡ same_id y x
same_id_comm x y = ground arith

text_eq_comm : (s t : Text) → text_eq s t ≡ text_eq t s
text_eq_comm s t = ground (arith, text_eq_iff s t, text_eq_iff t s)

pub same_name_comm : (x y : RepoConfig) → same_name x y ≡ same_name y x
same_name_comm x y = ground (arith, text_eq_comm x.alias y.alias)

pub same_user : (u v : ℕ) → (u == v) ≡ true → u ≡ v
same_user u v h = ground arith

-- An update that keeps a row's keys, and after which the active rows are one.
pub update_repos-IsSingle :
    (v k : ℕ) (p : RepoConfig → Bool) (f : RepoConfig → RepoConfig) (db : SlotDb)
    → ((r : RepoConfig) → (f r).id ≡ r.id)
    → ((r : RepoConfig) → (f r).tg_user_id ≡ r.tg_user_id)
    → ((r : RepoConfig) → (f r).alias ≡ r.alias)
    → IsSingle v db
    → All (IsOnly v k) (update_repos p f db).user_repos
    → IsSingle v (update_repos p f db)
unfolding update_repos
update_repos-IsSingle v k p f db id user alias h only = record {
  ids =
      Distinct-update_where same_id p f db.user_repos (λ x y. ground (arith, id x))
        (λ x y. ground (arith, id y)) h.ids;
  names =
      Distinct-update_where same_name p f db.user_repos (λ x y. rw (user x, alias x) refl)
        (λ x y. rw (user y, alias y) refl) h.names;
  one = (k, only);
}

-- Without the active flags of `uid`, the other users have what they had.
pub deactivate_repos-IsOnly :
    (v k uid : ℕ) (db : SlotDb)
    → All (IsOnly v k) db.user_repos
    → All (IsOnly v k) (deactivate_repos db uid).user_repos
unfolding update_repos
deactivate_repos-IsOnly v k uid db one =
    All-update_where (IsOnly v k) (repo_of uid) (with_repo_active false) db.user_repos
      (λ r mine owns on. absurd (ground arith))
      (All-map (IsOnly v k) (λ r. repo_of uid r ≡ false → IsOnly v k r) (λ r h other. h)
        db.user_repos one)

pub deactivate_repos-none :
    (k uid : ℕ) (db : SlotDb) → All (IsOnly uid k) (deactivate_repos db uid).user_repos
unfolding update_repos
deactivate_repos-none k uid db =
    All-update_where (IsOnly uid k) (repo_of uid) (with_repo_active false) db.user_repos
      (λ r mine owns on. absurd (ground arith))
      (All-every (λ r. repo_of uid r ≡ false → IsOnly uid k r)
        (λ r other owns on. absurd (ground arith)) db.user_repos)

pub deactivate_repos-IsSingle :
    (v uid : ℕ) (db : SlotDb) → IsSingle v db → IsSingle v (deactivate_repos db uid)
deactivate_repos-IsSingle v uid db h =
    update_repos-IsSingle v h.one.0 (repo_of uid) (with_repo_active false) db (λ r. refl)
      (λ r. refl) (λ r. refl) h (deactivate_repos-IsOnly v h.one.0 uid db h.one.1)

-- Rows of `uid` with the identifier `i`.
abbrev pub Aimed : (uid i : ℕ) → (RepoConfig → Bool) → RepoConfig → Type 0
Aimed uid i p r = p r ≡ true → (r.tg_user_id ≡ uid) × (r.id ≡ i)

-- After `deactivate_repos` such rows may be switched on.
pub switch_on-IsSingle :
    (v uid i : ℕ) (p : RepoConfig → Bool) (f : RepoConfig → RepoConfig) (db : SlotDb)
    → ((r : RepoConfig) → (f r).id ≡ r.id)
    → ((r : RepoConfig) → (f r).tg_user_id ≡ r.tg_user_id)
    → ((r : RepoConfig) → (f r).alias ≡ r.alias)
    → All (Aimed uid i p) (deactivate_repos db uid).user_repos
    → IsSingle v db
    → IsSingle v (update_repos p f (deactivate_repos db uid))
unfolding update_repos
switch_on-IsSingle v uid i p f db id user alias aim h = elim (Bool-cases (uid == v)) [
  | inl mine ↦
      update_repos-IsSingle v i p f (deactivate_repos db uid) id user alias off
        (switched i (λ e. refl) (rw (sym (same_user uid v mine)) (deactivate_repos-none i uid db)))
  | inr other ↦ update_repos-IsSingle v h.one.0 p f (deactivate_repos db uid) id user alias off (
      switched h.one.0 (λ e. absurd (ground arith))
        (deactivate_repos-IsOnly v h.one.0 uid db h.one.1))
]
  where
    off : IsSingle v (deactivate_repos db uid)
    off = deactivate_repos-IsSingle v uid db h

    lit :
        (k : ℕ)
        → (uid ≡ v → k ≡ i)
        → (r : RepoConfig) → Aimed uid i p r
        → p r ≡ true
        → IsOnly v k (f r)
    lit k same r aim hit owns on =
        let (mine, here) = aim hit in let k_i = same (omega (arith, user r)) in omega (arith, id r)

    switched :
        (k : ℕ)
        → (uid ≡ v → k ≡ i)
        → All (IsOnly v k) (deactivate_repos db uid).user_repos
        → All (IsOnly v k) (update_where p f (deactivate_repos db uid).user_repos)
    switched k same only =
        All-update_where_each (IsOnly v k) p f (deactivate_repos db uid).user_repos (
          All-map₂ (Aimed uid i p) (IsOnly v k)
            (λ r. (p r ≡ true → IsOnly v k (f r)) × (p r ≡ false → IsOnly v k r))
            (λ r aim kept. (lit k same r aim, λ missed. kept)) (deactivate_repos db uid).user_repos
            aim only)
