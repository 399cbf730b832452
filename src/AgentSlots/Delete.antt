-- ===== src/AgentSlots/Delete.antt =====
-- `delete_slot` of src/beachops/db/repositories/agent_slots.py.
use beachops.Base.{
  ℕ, true, not, Option, none, some, leb, if◌then◌else◌, find?, filter, sort_by, head?,
}
use beachops.AgentSlots.{
  SlotRow, SlotDb, AgentSlot, slot_of, slot_at, update_slots, deactivate_all, get_active,
  count_slots,
}
use beachops.AgentSlots.Config.{slot_id_is}

abbrev pub remove_slot : SlotDb → (uid slot_id : ℕ) → SlotDb
remove_slot db uid slot_id = record db {
  user_agent_slots = filter (λ s. not (slot_at uid slot_id s)) db.user_agent_slots;
}

-- `SELECT id … ORDER BY id LIMIT 1`
unfoldable pub next_slot : SlotDb → ℕ → Option SlotRow
unfolding filter sort_by
next_slot db uid =
    head? (sort_by (λ (s : SlotRow). s.id) (filter (slot_of uid) db.user_agent_slots))

abbrev pub activate_id : SlotDb → (now slot_id : ℕ) → SlotDb
activate_id db now slot_id =
    update_slots (slot_id_is slot_id) (λ s. record s { is_active = true; updated_at = now }) db

-- The first of the user's slots becomes the active one.
unfoldable pub activate_next : SlotDb → (now uid : ℕ) → SlotDb
unfolding deactivate_all next_slot update_slots
activate_next db now uid = elim (next_slot (deactivate_all db uid) uid) [
  | none ↦ deactivate_all db uid
  | some s ↦ activate_id (deactivate_all db uid) now s.id
]

unfoldable pub delete_slot : SlotDb → (now uid slot_id : ℕ) → Option AgentSlot × SlotDb
unfolding count_slots find? filter activate_next get_active
delete_slot db now uid slot_id =
    if leb (count_slots db uid) 1
    then (none, db)
    else elim (find? (slot_at uid slot_id) db.user_agent_slots) [
      | none ↦ (none, db)
      | some row ↦
          let removed = remove_slot db uid slot_id in
          let after = (if row.is_active then activate_next removed now uid else removed) in
          (get_active after uid, after)
    ]
