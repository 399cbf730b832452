-- ===== src/AgentSlots/Remove.antt =====
-- The contract of `delete_slot` in src/beachops/db/repositories/agent_slots.py.
use beachops.Base.{
  ℕ, ◌≡◌, ◌≢◌, refl, ◌∙◌, ap, ◌⊎◌, inl, inr, true, false, not, Option, none, some, filter-All, any,
  find?, find?-sound, find?-filter, leb, any-update_where, Bool-cases, Option-cases, arith, All-map,
  any-of-All-false, any-filter_keep, Distinct-found,
}
use beachops.AgentSlots.{
  SlotRow, SlotDb, AgentSlot, slot_of, slot_at, active_of, update_slots, with_active,
  deactivate_all, count_slots, get_active,
}
use beachops.AgentSlots.Config.{slot_id_is}
use beachops.AgentSlots.Delete.{next_slot, activate_next, remove_slot, delete_slot}
use beachops.AgentSlots.Next.{others-left, activate_next-any, activate_next-others}
use beachops.AgentSlots.Kept.{IsKept, IsKept-same, removed-other, activate_next-IsKept}
use beachops.AgentSlots.Unique.{IsUnique, same_slot, same_slot_comm, Rewrites-IsUnique, removed}

-- The slot `row` is gone and no other: other users' slots are as they were, and the user's own others
-- are there with all but the active flag and the time of the update as before. The answer is the
-- user's active slot. If the deleted slot was active, the user has an active slot; if it was not, the
-- user's other slots are just as they were.
abbrev pub Deleted : (db : SlotDb) (uid i : ℕ) → SlotRow → Option AgentSlot × SlotDb → Type 0
Deleted db uid i row (slot, after) =
    (any (slot_at uid i) after.user_agent_slots ≡ false)
    × ((b k : ℕ)
        → b ≢ uid
        → find? (slot_at b k) after.user_agent_slots ≡ find? (slot_at b k) db.user_agent_slots)
    × ((k : ℕ)
        → k ≢ i
        → IsKept (find? (slot_at uid k) db.user_agent_slots)
            (find? (slot_at uid k) after.user_agent_slots))
    × (slot ≡ get_active after uid)
    × (((row.is_active ≡ true) × (any (active_of uid) after.user_agent_slots ≡ true))
        ⊎ ((row.is_active ≡ false)
            × (any (active_of uid) after.user_agent_slots ≡ any (active_of uid) db.user_agent_slots)
            × ((k : ℕ)
                → k ≢ i
                → find? (slot_at uid k) after.user_agent_slots
                  ≡ find? (slot_at uid k) db.user_agent_slots)))

module _ (db : SlotDb) (now uid i : ℕ) (unique : IsUnique db) where
  abbrev removed_db : SlotDb
  removed_db = remove_slot db uid i

  removed-others :
      (b k : ℕ)
      → b ≢ uid
      → find? (slot_at b k) removed_db.user_agent_slots ≡ find? (slot_at b k) db.user_agent_slots
  removed-others b k other =
      find?-filter (slot_at b k) (λ s. not (slot_at uid i s)) db.user_agent_slots
        (λ s h. ground arith)

  removed-gone : any (slot_at uid i) removed_db.user_agent_slots ≡ false
  removed-gone = any-of-All-false (slot_at uid i) removed_db.user_agent_slots (
      All-map (λ s. not (slot_at uid i s) ≡ true) (λ s. slot_at uid i s ≡ false)
        (λ s h. ground arith) _ (filter-All (λ s. not (slot_at uid i s)) db.user_agent_slots))

  activate_next-gone :
      (t : SlotDb)
      → any (slot_at uid i) (activate_next t now uid).user_agent_slots
        ≡ any (slot_at uid i) t.user_agent_slots
  unfolding activate_next deactivate_all update_slots
  activate_next-gone t =
      let kept =
        any-update_where (slot_of uid) (slot_at uid i) (with_active false) t.user_agent_slots
          (λ s. refl) in
      elim (Option-cases (next_slot (deactivate_all t uid) uid)) [
        | inl nothing ↦ rw (nothing, activate_next) kept
        | inr (s, first) ↦
            rw (first, activate_next)
              (any-update_where (slot_id_is s.id) (slot_at uid i)
                  (λ x. record x { is_active = true; updated_at = now })
                  (deactivate_all t uid).user_agent_slots (λ x. refl)
                ∙ kept)
      ]

  -- Deleting an inactive slot leaves the active one.
  inactive-keeps :
      (row : SlotRow)
      → find? (slot_at uid i) db.user_agent_slots ≡ some row
      → row.is_active ≡ false
      → any (active_of uid) removed_db.user_agent_slots ≡ any (active_of uid) db.user_agent_slots
  inactive-keeps row found off =
      let at_i : slot_at uid i row ≡ true = find?-sound (slot_at uid i) db.user_agent_slots found in
      any-filter_keep (active_of uid) (λ s. not (slot_at uid i s)) db.user_agent_slots
        (All-map (λ y. same_slot row y ≡ true → y ≡ row)
          (λ y. active_of uid y ≡ true → not (slot_at uid i y) ≡ true)
          (λ y alone is_on. elim (Bool-cases (slot_at uid i y)) [
            | inr apart ↦ ground arith
            | inl hit ↦
                let flag : y.is_active ≡ row.is_active =
                  ap (λ (r : SlotRow). r.is_active) (alone (ground arith)) in
                absurd (ground arith)
          ])
          db.user_agent_slots
          (Distinct-found same_slot (slot_at uid i) db.user_agent_slots same_slot_comm unique.ids
            found))

  -- `delete_slot` refuses, without effect, a user's last slot and a slot that is not the user's. Else
  -- it removes exactly that slot: it is gone, other users' slots are as they were, and the user's
  -- other slots are there with all but the active flag and the time of the update as before. The
  -- answer is the user's active slot. If the deleted slot was active, the user has an active slot
  -- afterwards; if it was not, the user's other slots are just as they were.
  pub delete_slot_lem :
      (((leb (count_slots db uid) 1 ≡ true) ⊎ (find? (slot_at uid i) db.user_agent_slots ≡ none))
        × (delete_slot db now uid i ≡ (none, db)))
      ⊎ ((leb (count_slots db uid) 1 ≡ false)
          × ((row : SlotRow) × (find? (slot_at uid i) db.user_agent_slots ≡ some row)
              × Deleted db uid i row (delete_slot db now uid i)))
  unfolding delete_slot
  delete_slot_lem = elim (Bool-cases (leb (count_slots db uid) 1)) [
    | inl last ↦ inl (inl last, rw (last, delete_slot) refl)
    | inr more ↦ elim (Option-cases (find? (slot_at uid i) db.user_agent_slots)) [
      | inl missing ↦ inl (inr missing, rw (more, missing, delete_slot) refl)
      | inr (row, found) ↦ inr (
        more,
        (
          row,
          found,
          elim (Bool-cases row.is_active) [
            | inr off ↦
                rw (more, found, off, delete_slot)
                  (
                    removed-gone,
                    removed-others,
                    λ k other. IsKept-same _ (removed-other db uid i k other),
                    refl,
                    inr (
                      refl,
                      inactive-keeps row found off,
                      λ k other. removed-other db uid i k other,
                    ),
                  )
            | inl on ↦
                rw (more, found, on, delete_slot)
                  (
                    activate_next-gone removed_db ∙ removed-gone,
                    λ b k other.
                        activate_next-others removed_db now uid left b k other
                        ∙ removed-others b k other,
                    λ k other.
                        activate_next-IsKept removed_db now uid k _
                          (IsKept-same _ (removed-other db uid i k other)),
                    refl,
                    inl (
                      refl,
                      activate_next-any removed_db now uid left (others-left db uid i unique more),
                    ),
                  )
          ],
        ),
      )
    ]
  ]
    where
      left : IsUnique removed_db
      left = Rewrites-IsUnique (removed db uid i) unique
