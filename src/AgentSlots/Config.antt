-- ===== src/AgentSlots/Config.antt =====
-- The updates of one slot's columns in src/beachops/db/repositories/agent_slots.py.
use beachops.Base.{
  ℕ, ◌==◌, Bool, true, false, not, ◌&&◌, Option, none, some, Text, text, is_empty, is_some,
  coalesce, strip, if◌then◌else◌, any, find?,
}
use beachops.Database.{Result, ok, raise, foreign_key_violation}
use beachops.AgentSlots.{SlotRow, SlotDb, AgentSlot, slot_at, update_slots, get_by_id, has_repo}

abbrev pub slot_id_is : ℕ → SlotRow → Bool
slot_id_is slot_id s = s.id == slot_id

unfoldable pub update_cursor_agent : SlotDb → (now slot_id : ℕ) → Text → Option Text → SlotDb
unfolding update_slots
update_cursor_agent db now slot_id agent_id token_key =
    update_slots (slot_id_is slot_id)
      (λ s. record s {
        cursor_agent_id = some agent_id;
        cursor_token_key = coalesce token_key s.cursor_token_key;
        updated_at = now;
      })
      db

unfoldable pub set_active_run : SlotDb → (now slot_id : ℕ) → Option Text → SlotDb
unfolding update_slots
set_active_run db now slot_id run_id =
    update_slots (slot_id_is slot_id) (λ s. record s { active_run_id = run_id; updated_at = now })
      db

unfoldable pub clear_all_active_runs : SlotDb → SlotDb
unfolding update_slots
clear_all_active_runs db =
    update_slots (λ s. is_some s.active_run_id) (λ s. record s { active_run_id = none }) db

-- An UPDATE of `repo_id` that meets a row checks the foreign key.
unfoldable pub set_repo : SlotDb → ℕ → Option ℕ → (SlotRow → SlotRow) → Result (Unit {0}) × SlotDb
unfolding any has_repo update_slots
set_repo db slot_id repo_id f =
    if any (slot_id_is slot_id) db.user_agent_slots && not (has_repo db repo_id)
    then (raise foreign_key_violation, db)
    else (ok tt, update_slots (slot_id_is slot_id) f db)

unfoldable pub update_repo_id : SlotDb → (now slot_id : ℕ) → Option ℕ → Result (Unit {0}) × SlotDb
unfolding set_repo
update_repo_id db now slot_id repo_id =
    set_repo db slot_id repo_id (λ s. record s { repo_id = repo_id; updated_at = now })

unfoldable pub rebind_repo : SlotDb → (now slot_id repo_id : ℕ) → Result (Unit {0}) × SlotDb
unfolding set_repo
rebind_repo db now slot_id repo_id = set_repo db slot_id (some repo_id) (λ s. record s {
  repo_id = some repo_id;
  cursor_agent_id = none;
  cursor_token_key = none;
  active_run_id = none;
  updated_at = now;
})

unfoldable pub update_label : SlotDb → (now uid slot_id : ℕ) → Text → Bool × SlotDb
unfolding update_slots any
update_label db now uid slot_id label = (
  any (slot_at uid slot_id) db.user_agent_slots,
  update_slots (slot_at uid slot_id) (λ s. record s { label = label; updated_at = now }) db,
)

-- The keyword arguments of `update_runtime_config`.
pub record RuntimePatch : Type 0 where
  pub runtime : Option Text
  pub local_path : Option Text
  pub clear_local_path : Bool
  pub preferred_worker_id : Option Text
  pub clear_preferred_worker : Bool

-- `value.strip() or None`
unfoldable pub strip_or_none : Text → Option Text
unfolding strip is_empty
strip_or_none value = if is_empty (strip value) then none else some (strip value)

-- Cleared, given, or as it was.
unfoldable pub next_value : Bool → Option Text → Option Text → Option Text
unfolding strip_or_none
next_value true given current = none
next_value false (some value) current = strip_or_none value
next_value false none current = current

-- The UPDATE's columns, from the row that the SELECT before it read.
unfoldable pub with_config : ℕ → SlotRow → RuntimePatch → SlotRow → SlotRow
unfolding next_value
with_config now row p s = record s {
  runtime = (elim (coalesce p.runtime (some row.runtime)) [ none ↦ s.runtime | some r ↦ r ]);
  local_path = next_value p.clear_local_path p.local_path row.local_path;
  preferred_worker_id =
      next_value p.clear_preferred_worker p.preferred_worker_id row.preferred_worker_id;
  updated_at = now;
}

unfoldable pub update_runtime_config :
    SlotDb → (now uid slot_id : ℕ) → RuntimePatch → Option AgentSlot × SlotDb
unfolding find? update_slots with_config get_by_id
update_runtime_config db now uid slot_id p =
    elim (find? (slot_at uid slot_id) db.user_agent_slots) [
      | none ↦ (none, db)
      | some row ↦
          let after = update_slots (slot_at uid slot_id) (with_config now row p) db in
          (get_by_id after uid slot_id, after)
    ]

unfoldable pub set_cloud_status : SlotDb → (now slot_id : ℕ) → Text → SlotDb
unfolding update_slots
set_cloud_status db now slot_id cloud_status =
    update_slots (slot_id_is slot_id)
      (λ s. record s {
        cloud_status = cloud_status;
        last_cloud_sync_at = some now;
        updated_at = now;
      })
      db

unfoldable pub clear_cursor_agent : SlotDb → (now slot_id : ℕ) → SlotDb
unfolding update_slots
clear_cursor_agent db now slot_id =
    update_slots (slot_id_is slot_id)
      (λ s. record s {
        cursor_agent_id = none;
        cursor_token_key = none;
        active_run_id = none;
        cloud_status = text "not_found";
        last_cloud_sync_at = some now;
        updated_at = now;
      })
      db
