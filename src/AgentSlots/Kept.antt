-- ===== src/AgentSlots/Kept.antt =====
-- What `delete_slot` of src/beachops/db/repositories/agent_slots.py leaves of the other slots.
use beachops.Base.{
  ℕ, ◌≡◌, ◌≢◌, refl, ap, ◌∙◌, inl, inr, Bool, true, false, not, Option, none, some, List, find?,
  find?-filter, find?-update_where, update_where, Bool-cases, Option-cases, arith, if◌then◌else◌,
}
use beachops.AgentSlots.{
  SlotRow, SlotDb, slot_of, slot_at, update_slots, with_active, deactivate_all,
}
use beachops.AgentSlots.Config.{slot_id_is}
use beachops.AgentSlots.Delete.{next_slot, activate_next, remove_slot}

-- The same row, apart from the active flag and the time of the last update; or no row, as before.
abbrev pub IsKept : (before after : Option SlotRow) → Type 0
IsKept none after = after ≡ none
IsKept (some s) after =
    (t : SlotRow) × (after ≡ some t)
    × (t ≡ record s { is_active = t.is_active; updated_at = t.updated_at })

pub IsKept-same : (o : Option SlotRow) {p : Option SlotRow} → p ≡ o → IsKept o p
IsKept-same none e = e
IsKept-same (some s) e = (s, e, refl)

update_where-IsKept :
    (o : Option SlotRow) (p q : SlotRow → Bool) (f : SlotRow → SlotRow) (rows : List SlotRow)
    → ((x : SlotRow) → q (f x) ≡ q x)
    → ((x : SlotRow)
        → f x ≡ record x { is_active = (f x).is_active; updated_at = (f x).updated_at })
    → IsKept o (find? q rows)
    → IsKept o (find? q (update_where p f rows))
update_where-IsKept none p q f rows keep flags h = find?-update_where p q f rows keep ∙ rw h refl
update_where-IsKept (some s) p q f rows keep flags (t, found, same) = (
  (if p t then f t else t),
  find?-update_where p q f rows keep ∙ rw found refl,
  elim (Bool-cases (p t)) [
    | inr miss ↦ rw miss same
    | inl hit ↦ rw hit (
        flags t
        ∙ ap
            (λ (x : SlotRow). record x {
              is_active = (f t).is_active;
              updated_at = (f t).updated_at;
            })
            same)
  ],
)

pub removed-other :
    (db : SlotDb) (uid i k : ℕ)
    → k ≢ i
    → find? (slot_at uid k) (remove_slot db uid i).user_agent_slots
      ≡ find? (slot_at uid k) db.user_agent_slots
removed-other db uid i k other =
    find?-filter (slot_at uid k) (λ s. not (slot_at uid i s)) db.user_agent_slots
      (λ s h. ground arith)

pub activate_next-IsKept :
    (db : SlotDb) (now uid k : ℕ) (o : Option SlotRow)
    → IsKept o (find? (slot_at uid k) db.user_agent_slots)
    → IsKept o (find? (slot_at uid k) (activate_next db now uid).user_agent_slots)
unfolding activate_next deactivate_all update_slots
activate_next-IsKept db now uid k o h =
    let off : IsKept o (find? (slot_at uid k) (deactivate_all db uid).user_agent_slots) =
      update_where-IsKept o (slot_of uid) (slot_at uid k) (with_active false) db.user_agent_slots
        (λ x. refl) (λ x. refl) h in
    elim (Option-cases (next_slot (deactivate_all db uid) uid)) [
      | inl nothing ↦ rw (nothing, activate_next) off
      | inr (s, first) ↦
          rw (first, activate_next)
            (update_where-IsKept o (slot_id_is s.id) (slot_at uid k)
              (λ x. record x { is_active = true; updated_at = now })
              (deactivate_all db uid).user_agent_slots (λ x. refl) (λ x. refl) off)
    ]
