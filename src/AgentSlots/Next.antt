-- ===== src/AgentSlots/Next.antt =====
-- Which slot is active after `delete_slot` of src/beachops/db/repositories/agent_slots.py.
use beachops.Base.{
  ℕ, ◌==◌, ◌≡◌, ◌≢◌, refl, ◌∙◌, ap, inl, inr, Bool, true, false, ◌&&◌, All, any, find?,
  find?-update_where_ne, leb, sort_by-ne-nil, filter-nil, any-update_where, Bool-cases,
  Option-cases, arith, Distinct-alone, All-any, All-every, All-map, any-of-All-false,
  any-update_where_hit, find?-update_where_apart, length-filter-not, length-filter_one,
  any-of-filter,
}
use beachops.AgentSlots.{
  SlotRow, SlotDb, slot_of, slot_at, active_of, update_slots, with_active, deactivate_all,
  count_slots,
}
use beachops.AgentSlots.Config.{slot_id_is}
use beachops.AgentSlots.Delete.{next_slot, activate_next, remove_slot}
use beachops.AgentSlots.Unique.{
  IsUnique, same_slot, same_slot_comm, Rewrites-IsUnique, deactivate_all-Rewrites,
}
use beachops.AgentSlots.One.{next_slot-All}

-- The slot that is removed is one of several.
pub others-left :
    (db : SlotDb) (uid i : ℕ)
    → IsUnique db
    → leb (count_slots db uid) 1 ≡ false
    → any (slot_of uid) (remove_slot db uid i).user_agent_slots ≡ true
unfolding count_slots
others-left db uid i unique many =
    elim (Bool-cases (any (slot_of uid) (remove_slot db uid i).user_agent_slots)) [
      | inl some_left ↦ some_left
      | inr none_left ↦ absurd (
          ground (
            arith,
            any-of-filter (slot_of uid) (remove_slot db uid i).user_agent_slots none_left,
            length-filter-not (slot_at uid i) (slot_of uid) db.user_agent_slots
                (λ s h. ground arith),
            length-filter_one same_slot (slot_at uid i) db.user_agent_slots
                (λ x y h k. ground arith) unique.ids,
          ))
    ]

module _ (db : SlotDb) (now uid : ℕ) (unique : IsUnique db) where
  abbrev off : SlotDb
  off = deactivate_all db uid

  abbrev on : SlotRow → SlotRow
  on s = record s { is_active = true; updated_at = now }

  off-alone :
      All (λ x. All (λ y. same_slot x y ≡ true → y ≡ x) off.user_agent_slots) off.user_agent_slots
  off-alone =
      Distinct-alone same_slot off.user_agent_slots (λ x. ground arith) same_slot_comm
        (Rewrites-IsUnique (deactivate_all-Rewrites db uid) unique).ids

  -- The first of the user's slots that are left is activated.
  pub activate_next-any :
      any (slot_of uid) db.user_agent_slots ≡ true
      → any (active_of uid) (activate_next db now uid).user_agent_slots ≡ true
  unfolding activate_next deactivate_all update_slots next_slot
  activate_next-any some_left = elim (Option-cases (next_slot off uid)) [
    | inl nothing ↦
        let none_left =
          filter-nil (slot_of uid) off.user_agent_slots (sort_by-ne-nil _ _ nothing) in
        absurd (
          ground (
            arith,
            any-of-All-false (slot_of uid) off.user_agent_slots none_left,
            any-update_where (slot_of uid) (slot_of uid) (with_active false) db.user_agent_slots
                (λ s. refl),
          ))
    | inr (s, first) ↦
        let among =
          All-any same_row off.user_agent_slots
            (All-every (λ x. same_row x x ≡ true) (λ x. ground arith) _) in
        let (there, mine) =
          next_slot-All (λ x. any (same_row x) off.user_agent_slots ≡ true) off uid s among first in
        rw (first, activate_next)
          (any-update_where_hit (slot_id_is s.id) (active_of uid) (same_row s) on
            off.user_agent_slots (λ x h. ground arith) (λ x h. ground arith) there)
  ]
    where
      same_row : SlotRow → SlotRow → Bool
      same_row x y = (y.tg_user_id == x.tg_user_id) && (y.id == x.id)

  pub activate_next-others :
      (b k : ℕ)
      → b ≢ uid
      → find? (slot_at b k) (activate_next db now uid).user_agent_slots
        ≡ find? (slot_at b k) db.user_agent_slots
  unfolding activate_next deactivate_all update_slots
  activate_next-others b k other =
      let unseen =
        find?-update_where_ne (slot_of uid) (slot_at b k) (with_active false) db.user_agent_slots
          (λ s. refl) (λ s mine. ground arith) in
      elim (Option-cases (next_slot off uid)) [
        | inl nothing ↦ rw (nothing, activate_next) unseen
        | inr (s, first) ↦
            let (alone, mine) =
              next_slot-All (λ x. All (λ y. same_slot x y ≡ true → y ≡ x) off.user_agent_slots) off
                uid s off-alone first in
            rw (first, activate_next)
              (find?-update_where_apart (slot_id_is s.id) (slot_at b k) on off.user_agent_slots
                  (λ x. refl)
                  (All-map (λ y. same_slot s y ≡ true → y ≡ s)
                    (λ y. slot_id_is s.id y ≡ true → slot_at b k y ≡ false)
                    (λ y alone_y hit.
                      let user : y.tg_user_id ≡ s.tg_user_id =
                        ap (λ (r : SlotRow). r.tg_user_id) (alone_y hit) in
                      ground arith)
                    off.user_agent_slots alone)
                ∙ unseen)
      ]
