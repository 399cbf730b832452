-- ===== src/Tests/Slots.antt =====
-- Two slots of one user (src/beachops/db/repositories/agent_slots.py).
use beachops.Base.{◌≡◌, ◌⊎◌, refl, true, false, none, some, [], ◌∷◌, text, any, find?, leb}
use beachops.AgentSlots.{SlotDb, SlotRow, create_slot, slot_at, count_slots}
use beachops.AgentSlots.Delete.{delete_slot}
use beachops.AgentSlots.Steps.{Reach, here, next, creates}
use beachops.AgentSlots.Unique.{IsUnique}
use beachops.AgentSlots.One.{IsOneActive}
use beachops.AgentSlots.History.{Reach-IsOneActive}
use beachops.AgentSlots.Remove.{Deleted, delete_slot_lem}

abbrev pub none_yet : SlotDb
none_yet = record { users = 7 ∷ []; user_repos = []; user_agent_slots = []; next_slot_id = 1 }

abbrev first : SlotDb
first = (create_slot none_yet 100 7 (text "fox") none true).1

abbrev pub second : SlotDb
second = (create_slot first 110 7 (text "owl") none true).1

abbrev history : Reach none_yet second
history =
    next (next here (creates 100 7 (text "fox") none true refl))
      (creates 110 7 (text "owl") none true refl)

Reach-IsOneActive_example : IsUnique second × IsOneActive 7 second
Reach-IsOneActive_example = Reach-IsOneActive 7 history (record { ids = tt; fresh = tt }) (0, tt)

second-IsUnique : IsUnique second
second-IsUnique = (Reach-IsOneActive 7 history (record { ids = tt; fresh = tt }) (0, tt)).0

delete_slot_lem_example :
    (((leb (count_slots second 7) 1 ≡ true) ⊎ (find? (slot_at 7 2) second.user_agent_slots ≡ none))
      × (delete_slot second 120 7 2 ≡ (none, second)))
    ⊎ ((leb (count_slots second 7) 1 ≡ false)
        × ((row : SlotRow) × (find? (slot_at 7 2) second.user_agent_slots ≡ some row)
            × Deleted second 7 2 row (delete_slot second 120 7 2)))
delete_slot_lem_example = delete_slot_lem second 120 7 2 second-IsUnique

-- The slot that is left becomes the active one.
left_active : any (slot_at 7 1) (delete_slot second 120 7 2).1.user_agent_slots ≡ true
unfolding delete_slot create_slot
left_active = refl
