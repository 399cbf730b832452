-- ===== src/Tests/Service.antt =====
-- Calls of the slot service by one user (src/beachops/services/agent_slots.py).
use beachops.Base.{ℕ, ◌≤◌, ◌≡◌, refl, Bool, [], Text, text, leb, arith}
use beachops.AgentSlots.{SlotDb, count_slots}
use beachops.AgentSlots.Unique.{IsUnique}
use beachops.AgentSlots.One.{IsOneActive}
use beachops.Repos.{Settings}
use beachops.SlotService.{ensure_default_slot, create_new_slot}
use beachops.SlotService.Calls.{Calls, start, call, ensures, creates_new, Calls-IsWithin}
use beachops.Tests.Slots.{none_yet}

abbrev pub collate : Text → ℕ
collate t = 0

abbrev pub settings : Settings
settings = record { default_repo_url = []; default_branch = text "dev"; agent_slots_max = 2 }

abbrev is_decimal : ℕ → Bool
is_decimal c = leb 0x30 c

abbrev first : SlotDb
first = (ensure_default_slot collate settings none_yet 100 1 7 (text "fox")).1

abbrev second : SlotDb
second = (create_new_slot collate settings first 110 1 7 (text "owl")).1

-- The third is refused.
abbrev third : SlotDb
third = (create_new_slot collate settings second 120 1 7 (text "elk")).1

abbrev calls : Calls collate settings is_decimal none_yet third
calls =
    call
      (call (call start (ensures 100 1 7 (text "fox") refl))
        (creates_new 110 1 7 (text "owl") refl))
      (creates_new 120 1 7 (text "elk") refl)

Calls-IsWithin_example :
    IsUnique third
    × IsOneActive 7 third
    × (count_slots third 7 ≤ 2)
    × (1 ≤ count_slots none_yet 7 → 1 ≤ count_slots third 7)
unfolding count_slots
Calls-IsWithin_example =
    Calls-IsWithin collate settings is_decimal (omega arith) 7 calls
      (record { ids = tt; fresh = tt }) (0, tt) (omega arith)

two : count_slots third 7 ≡ 2
unfolding count_slots create_new_slot ensure_default_slot
two = refl
