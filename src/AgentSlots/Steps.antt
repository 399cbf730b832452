-- ===== src/AgentSlots/Steps.antt =====
-- The writes of src/beachops/db/repositories/agent_slots.py as a step relation.
use beachops.Base.{ℕ, ◌≡◌, Bool, Option, Text}
use beachops.AgentSlots.{SlotDb, create_slot, set_active}
use beachops.AgentSlots.Config.{
  update_cursor_agent, set_active_run, clear_all_active_runs, update_repo_id, rebind_repo,
  update_label, RuntimePatch, update_runtime_config, set_cloud_status, clear_cursor_agent,
}
use beachops.AgentSlots.Delete.{delete_slot}

pub data Step (db db' : SlotDb) : Type 0 where
  creates :
      (now uid : ℕ) (label : Text) (repo_id : Option ℕ) (make_active : Bool)
      → db' ≡ (create_slot db now uid label repo_id make_active).1
      → Step db db'
  sets_active : (now uid i : ℕ) → db' ≡ (set_active db now uid i).1 → Step db db'
  binds_agent :
      (now i : ℕ) (agent : Text) (token_key : Option Text)
      → db' ≡ update_cursor_agent db now i agent token_key
      → Step db db'
  sets_run : (now i : ℕ) (run : Option Text) → db' ≡ set_active_run db now i run → Step db db'
  clears_runs : db' ≡ clear_all_active_runs db → Step db db'
  sets_repo : (now i : ℕ) (k : Option ℕ) → db' ≡ (update_repo_id db now i k).1 → Step db db'
  rebinds : (now i k : ℕ) → db' ≡ (rebind_repo db now i k).1 → Step db db'
  labels : (now uid i : ℕ) (label : Text) → db' ≡ (update_label db now uid i label).1 → Step db db'
  configures :
      (now uid i : ℕ) (p : RuntimePatch)
      → db' ≡ (update_runtime_config db now uid i p).1
      → Step db db'
  deletes : (now uid i : ℕ) → db' ≡ (delete_slot db now uid i).1 → Step db db'
  sets_cloud : (now i : ℕ) (status : Text) → db' ≡ set_cloud_status db now i status → Step db db'
  clears_agent : (now i : ℕ) → db' ≡ clear_cursor_agent db now i → Step db db'

pub data Reach (db : SlotDb) : SlotDb → Type 0 where
  here : Reach db db
  next : {t u : SlotDb} → Reach db t → Step t u → Reach db u
