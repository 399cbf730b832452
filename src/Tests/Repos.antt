-- ===== src/Tests/Repos.antt =====
-- A user with two repositories (src/beachops/db/repositories/repos.py).
use beachops.Base.{◌≡◌, refl, true, some, text}
use beachops.AgentSlots.{SlotDb}
use beachops.Repos.{add_repo, set_active_by_id, get_active_repo, new_repo}
use beachops.Repos.Rows.{IsSingle}
use beachops.Repos.History.{Reach, here, next, adds, activates, Reach-IsSingle}
use beachops.Tests.Slots.{none_yet}
use beachops.Tests.Service.{collate, settings}

abbrev first : SlotDb
first = (add_repo none_yet 1 7 (text "shop") (text "u") (text "dev") true).1

abbrev second : SlotDb
second = (add_repo first 2 7 (text "blog") (text "w") (text "dev") true).1

abbrev back : SlotDb
back = (set_active_by_id second 7 1).1

abbrev history : Reach collate settings none_yet back
unfolding add_repo
history =
    next
      (next (next here (adds 1 7 (text "shop") (text "u") (text "dev") true tt refl))
        (adds 2 7 (text "blog") (text "w") (text "dev") true (refl, tt) refl))
      (activates 7 1 refl)

Reach-IsSingle_example : IsSingle 7 back
Reach-IsSingle_example = Reach-IsSingle 7 history (record { ids = tt; names = tt; one = (0, tt) })

active : get_active_repo back 7 ≡ some (new_repo 1 7 (text "shop") (text "u") (text "dev") true)
unfolding get_active_repo set_active_by_id add_repo
active = refl
