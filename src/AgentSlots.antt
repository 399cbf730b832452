-- ===== src/AgentSlots.antt =====
-- AgentSlotRepository, src/beachops/db/repositories/agent_slots.py: the table user_agent_slots of
-- alembic/versions/002_user_agent_slots.py with the columns of 007, 013 and 018. The table has a
-- sequence of its own, and `now` is SQL's `now()`.
pub mod Config
pub mod Delete
pub mod Steps
pub mod Unique
pub mod One
pub mod History
pub mod Next
pub mod Kept
pub mod Remove
use beachops.Base.{
  ℕ, ◌+◌, ◌==◌, Bool, true, false, not, ◌&&◌, ◌||◌, Option, none, some, List, [], ◌∷◌, ◌++◌, map,
  Text, text, is_empty, is_some, coalesce, ltb, leb, length, if◌then◌else◌, any, find?, filter,
  sort_by, update_where, head?,
}
use beachops.Database.{Error, Result, ok, raise, foreign_key_violation, assertion_error}

pub record SlotRow : Type 0 where
  pub id : ℕ
  pub tg_user_id : ℕ
  pub label : Text
  pub cursor_agent_id : Option Text
  pub repo_id : Option ℕ
  pub active_run_id : Option Text
  pub is_active : Bool
  pub cursor_token_key : Option Text
  pub runtime : Text
  pub local_path : Option Text
  pub preferred_worker_id : Option Text
  pub cloud_status : Text
  pub last_cloud_sync_at : Option ℕ
  pub updated_at : ℕ

pub record RepoConfig : Type 0 where
  pub id : ℕ
  pub tg_user_id : ℕ
  pub alias : Text
  pub github_url : Text
  pub default_branch : Text
  pub is_active : Bool

pub record AgentSlot : Type 0 where
  pub id : ℕ
  pub tg_user_id : ℕ
  pub label : Text
  pub cursor_agent_id : Option Text
  pub repo_id : Option ℕ
  pub active_run_id : Option Text
  pub is_active : Bool
  pub repo_alias : Option Text
  pub cursor_token_key : Option Text
  pub runtime : Text
  pub local_path : Option Text
  pub preferred_worker_id : Option Text
  pub cloud_status : Text
  pub last_cloud_sync_at : Option ℕ

-- The tables, and the sequence behind `id BIGSERIAL`.
pub record SlotDb : Type 0 where
  pub users : List ℕ
  pub user_repos : List RepoConfig
  pub user_agent_slots : List SlotRow
  pub next_slot_id : ℕ

-- `LEFT JOIN user_repos r ON r.id = s.repo_id`
unfoldable pub repo_alias_of : SlotDb → Option ℕ → Option Text
unfolding find?
repo_alias_of db none = none
repo_alias_of db (some k) = elim (find? (λ (r : RepoConfig). r.id == k) db.user_repos) [
  | none ↦ none
  | some r ↦ some r.alias
]

-- `value if value else default`
abbrev pub or_text : Text → Text → Text
or_text value default = if is_empty value then default else value

unfoldable pub row_to_slot : SlotDb → SlotRow → AgentSlot
unfolding repo_alias_of is_empty
row_to_slot db s = record {
  id = s.id;
  tg_user_id = s.tg_user_id;
  label = s.label;
  cursor_agent_id = s.cursor_agent_id;
  repo_id = s.repo_id;
  active_run_id = s.active_run_id;
  is_active = s.is_active;
  repo_alias = repo_alias_of db s.repo_id;
  cursor_token_key = s.cursor_token_key;
  runtime = or_text s.runtime (text "cloud");
  local_path = s.local_path;
  preferred_worker_id = s.preferred_worker_id;
  cloud_status = or_text s.cloud_status (text "unknown");
  last_cloud_sync_at = s.last_cloud_sync_at;
}

abbrev pub slot_of : ℕ → SlotRow → Bool
slot_of uid s = s.tg_user_id == uid

abbrev pub slot_at : (uid slot_id : ℕ) → SlotRow → Bool
slot_at uid slot_id s = (s.tg_user_id == uid) && (s.id == slot_id)

abbrev pub active_of : ℕ → SlotRow → Bool
active_of uid s = (s.tg_user_id == uid) && s.is_active

abbrev pub optional_slot : SlotDb → Option SlotRow → Option AgentSlot
optional_slot db none = none
optional_slot db (some s) = some (row_to_slot db s)

unfoldable pub list_slots : SlotDb → ℕ → List AgentSlot
unfolding filter sort_by row_to_slot
list_slots db uid =
    map (row_to_slot db)
      (sort_by (λ (s : SlotRow). s.id) (filter (slot_of uid) db.user_agent_slots))

unfoldable pub get_by_id : SlotDb → (uid slot_id : ℕ) → Option AgentSlot
unfolding find? row_to_slot
get_by_id db uid slot_id = optional_slot db (find? (slot_at uid slot_id) db.user_agent_slots)

unfoldable pub get_active : SlotDb → ℕ → Option AgentSlot
unfolding find? row_to_slot
get_active db uid = optional_slot db (find? (active_of uid) db.user_agent_slots)

unfoldable pub count_slots : SlotDb → ℕ → ℕ
unfolding filter
count_slots db uid = length (filter (slot_of uid) db.user_agent_slots)

-- UPDATE user_agent_slots SET … WHERE …
unfoldable pub update_slots : (SlotRow → Bool) → (SlotRow → SlotRow) → SlotDb → SlotDb
unfolding update_where
update_slots p f db = record db { user_agent_slots = update_where p f db.user_agent_slots }

abbrev pub with_active : Bool → SlotRow → SlotRow
with_active b s = record s { is_active = b }

unfoldable pub deactivate_all : SlotDb → ℕ → SlotDb
unfolding update_slots
deactivate_all db uid = update_slots (slot_of uid) (with_active false) db

-- The row that `create_slot` inserts, its other columns at their defaults.
abbrev pub new_slot : (id uid : ℕ) → Text → Option ℕ → Bool → ℕ → SlotRow
new_slot id uid label repo_id make_active now = record {
  id = id;
  tg_user_id = uid;
  label = label;
  cursor_agent_id = none;
  repo_id = repo_id;
  active_run_id = none;
  is_active = make_active;
  cursor_token_key = none;
  runtime = text "cloud";
  local_path = none;
  preferred_worker_id = none;
  cloud_status = text "unknown";
  last_cloud_sync_at = none;
  updated_at = now;
}

-- The foreign key on user_repos.
unfoldable pub has_repo : SlotDb → Option ℕ → Bool
unfolding any
has_repo db none = true
has_repo db (some k) = any (λ (r : RepoConfig). r.id == k) db.user_repos

abbrev pub insert_slot : SlotDb → ℕ → Text → Option ℕ → Bool → ℕ → SlotDb
insert_slot db uid label repo_id make_active now = record db {
  user_agent_slots =
      db.user_agent_slots ++ new_slot db.next_slot_id uid label repo_id make_active now ∷ [];
  next_slot_id = db.next_slot_id + 1;
}

-- A failed INSERT rolls the transaction back, but not the sequence.
-- `assert slot is not None`
abbrev pub found_slot : Option AgentSlot → Result AgentSlot
found_slot none = raise assertion_error
found_slot (some slot) = ok slot

unfoldable pub create_slot :
    SlotDb → (now uid : ℕ) → Text → Option ℕ → Bool → Result AgentSlot × SlotDb
unfolding deactivate_all has_repo any get_by_id
create_slot db now uid label repo_id make_active =
    let cleared = (if make_active then deactivate_all db uid else db) in
    if any (λ u. u == uid) db.users && has_repo db repo_id
    then (let after = insert_slot cleared uid label repo_id make_active now in
        (found_slot (get_by_id after uid db.next_slot_id), after))
    else (raise foreign_key_violation, record db { next_slot_id = db.next_slot_id + 1 })

unfoldable pub set_active : SlotDb → (now uid slot_id : ℕ) → Option AgentSlot × SlotDb
unfolding any deactivate_all get_by_id
set_active db now uid slot_id =
    if any (slot_at uid slot_id) db.user_agent_slots
    then (let after =
          update_slots (slot_at uid slot_id) (λ s. record s { is_active = true; updated_at = now })
            (deactivate_all db uid) in
        (get_by_id after uid slot_id, after))
    else (none, db)
