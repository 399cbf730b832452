-- ===== src/AgentSlots/Unique.antt =====
-- The primary key of user_agent_slots under the writes of
-- src/beachops/db/repositories/agent_slots.py.
use beachops.Base.{
  ℕ, ◌+◌, ◌==◌, ◌<◌, ◌≡◌, refl, inl, inr, Bool, true, false, not, ◌&&◌, Option, some, Text, All,
  All-update_where_kept, All-map, All-append, All-filter, any-of-All-false, any, find?, leb,
  Bool-cases, Option-cases, arith, Distinct, Distinct-update_where, Distinct-snoc, Distinct-filter,
}
use beachops.AgentSlots.{
  SlotRow, SlotDb, slot_of, slot_at, update_slots, with_active, deactivate_all, create_slot,
  set_active, insert_slot, has_repo, count_slots,
}
use beachops.AgentSlots.Config.{
  slot_id_is, update_cursor_agent, set_active_run, clear_all_active_runs, set_repo, update_repo_id,
  rebind_repo, update_label, RuntimePatch, with_config, update_runtime_config, set_cloud_status,
  clear_cursor_agent,
}
use beachops.AgentSlots.Delete.{next_slot, activate_next, remove_slot, delete_slot}
use beachops.AgentSlots.Steps.{
  Step, creates, sets_active, binds_agent, sets_run, clears_runs, sets_repo, rebinds, labels,
  configures, deletes, sets_cloud, clears_agent,
}

-- What the writes do to the rows: they keep the identifiers, add a row with the next one, remove
-- rows, or do one thing after another.
pub data Rewrites : SlotDb → SlotDb → Type 0 where
  updated :
      (db : SlotDb) (p : SlotRow → Bool) (f : SlotRow → SlotRow)
      → ((s : SlotRow) → (f s).id ≡ s.id)
      → Rewrites db (update_slots p f db)
  added :
      (db : SlotDb) (uid : ℕ) (label : Text) (repo_id : Option ℕ) (make_active : Bool) (now : ℕ)
      → Rewrites db (insert_slot db uid label repo_id make_active now)
  skipped : (db : SlotDb) → Rewrites db (record db { next_slot_id = db.next_slot_id + 1 })
  removed : (db : SlotDb) (uid i : ℕ) → Rewrites db (remove_slot db uid i)
  same : (db : SlotDb) → Rewrites db db
  both : {db t u : SlotDb} → Rewrites db t → Rewrites t u → Rewrites db u

abbrev pub same_slot : SlotRow → SlotRow → Bool
same_slot x y = slot_id_is x.id y

pub same_slot_comm : (x y : SlotRow) → same_slot x y ≡ same_slot y x
same_slot_comm x y = ground arith

-- No two slots have one identifier, and the sequence is past them all.
pub record IsUnique (db : SlotDb) : Type 0 where
  pub ids : Distinct same_slot db.user_agent_slots
  pub fresh : All (λ s. s.id < db.next_slot_id) db.user_agent_slots

pub Rewrites-IsUnique : {t u : SlotDb} → Rewrites t u → IsUnique t → IsUnique u
unfolding update_slots
Rewrites-IsUnique (updated t p f id) h = record {
  ids =
      Distinct-update_where same_slot p f t.user_agent_slots (λ x y. ground (arith, id x))
        (λ x y. ground (arith, id y)) h.ids;
  fresh =
      All-update_where_kept (λ s. s.id < t.next_slot_id) p f t.user_agent_slots
        (λ s below. ground (arith, id s)) h.fresh;
}
Rewrites-IsUnique (added t uid label repo_id make_active now) h = record {
  ids =
      Distinct-snoc same_slot t.user_agent_slots _ same_slot_comm
        (any-of-All-false (slot_id_is t.next_slot_id) t.user_agent_slots (
          All-map (λ s. s.id < t.next_slot_id) (λ s. slot_id_is t.next_slot_id s ≡ false)
            (λ s below. ground arith) t.user_agent_slots h.fresh))
        h.ids;
  fresh =
      All-append (λ s. s.id < t.next_slot_id + 1) t.user_agent_slots _
        (All-map (λ s. s.id < t.next_slot_id) (λ s. s.id < t.next_slot_id + 1)
          (λ s below. ground arith) t.user_agent_slots h.fresh)
        (ground arith, tt);
}
Rewrites-IsUnique (skipped t) h = record {
  ids = h.ids;
  fresh =
      All-map (λ s. s.id < t.next_slot_id) (λ s. s.id < t.next_slot_id + 1)
        (λ s below. ground arith) t.user_agent_slots h.fresh;
}
Rewrites-IsUnique (removed t uid i) h = record {
  ids = Distinct-filter same_slot (λ s. not (slot_at uid i s)) t.user_agent_slots h.ids;
  fresh =
      All-filter (λ s. s.id < t.next_slot_id) (λ s. not (slot_at uid i s)) t.user_agent_slots
        h.fresh;
}
Rewrites-IsUnique (same t) h = h
Rewrites-IsUnique (both r s) h = Rewrites-IsUnique s (Rewrites-IsUnique r h)

pub deactivate_all-Rewrites : (db : SlotDb) (uid : ℕ) → Rewrites db (deactivate_all db uid)
unfolding deactivate_all
deactivate_all-Rewrites db uid = updated db (slot_of uid) (with_active false) (λ s. refl)

create_slot-Rewrites :
    (db : SlotDb) (now uid : ℕ) (label : Text) (repo_id : Option ℕ) (make_active : Bool)
    → Rewrites db (create_slot db now uid label repo_id make_active).1
unfolding create_slot
create_slot-Rewrites db now uid label repo_id make_active =
    elim (Bool-cases (any (λ u. u == uid) db.users && has_repo db repo_id)) [
      | inr refused ↦ rw (refused, create_slot) (skipped db)
      | inl known ↦ elim (Bool-cases make_active) [
        | inr off ↦ rw (known, off, create_slot) (added db uid label repo_id false now)
        | inl on ↦
            rw (known, on, create_slot)
              (both (deactivate_all-Rewrites db uid)
                (added (deactivate_all db uid) uid label repo_id true now))
      ]
    ]

set_active-Rewrites : (db : SlotDb) (now uid i : ℕ) → Rewrites db (set_active db now uid i).1
unfolding set_active
set_active-Rewrites db now uid i = elim (Bool-cases (any (slot_at uid i) db.user_agent_slots)) [
  | inr missing ↦ rw (missing, set_active) (same db)
  | inl found ↦
      rw (found, set_active)
        (both (deactivate_all-Rewrites db uid) (
          updated (deactivate_all db uid) (slot_at uid i)
            (λ s. record s { is_active = true; updated_at = now }) (λ s. refl)))
]

activate_next-Rewrites : (db : SlotDb) (now uid : ℕ) → Rewrites db (activate_next db now uid)
unfolding activate_next
activate_next-Rewrites db now uid = elim (Option-cases (next_slot (deactivate_all db uid) uid)) [
  | inl nothing ↦ rw (nothing, activate_next) (deactivate_all-Rewrites db uid)
  | inr (s, first) ↦
      rw (first, activate_next)
        (both (deactivate_all-Rewrites db uid) (
          updated (deactivate_all db uid) (slot_id_is s.id)
            (λ s. record s { is_active = true; updated_at = now }) (λ s. refl)))
]

delete_slot-Rewrites : (db : SlotDb) (now uid i : ℕ) → Rewrites db (delete_slot db now uid i).1
unfolding delete_slot
delete_slot-Rewrites db now uid i = elim (Bool-cases (leb (count_slots db uid) 1)) [
  | inl last ↦ rw (last, delete_slot) (same db)
  | inr more ↦ elim (Option-cases (find? (slot_at uid i) db.user_agent_slots)) [
    | inl missing ↦ rw (more, missing, delete_slot) (same db)
    | inr (row, found) ↦ elim (Bool-cases row.is_active) [
      | inr off ↦ rw (more, found, off, delete_slot) (removed db uid i)
      | inl on ↦
          rw (more, found, on, delete_slot)
            (both (removed db uid i) (activate_next-Rewrites (remove_slot db uid i) now uid))
    ]
  ]
]

set_repo-Rewrites :
    (db : SlotDb) (i : ℕ) (k : Option ℕ) (f : SlotRow → SlotRow)
    → ((s : SlotRow) → (f s).id ≡ s.id)
    → Rewrites db (set_repo db i k f).1
unfolding set_repo
set_repo-Rewrites db i k f id =
    elim (Bool-cases (any (slot_id_is i) db.user_agent_slots && not (has_repo db k))) [
      | inl bad ↦ rw (bad, set_repo) (same db)
      | inr good ↦ rw (good, set_repo) (updated db (slot_id_is i) f id)
    ]

update_runtime_config-Rewrites :
    (db : SlotDb) (now uid i : ℕ) (p : RuntimePatch)
    → Rewrites db (update_runtime_config db now uid i p).1
unfolding update_runtime_config
update_runtime_config-Rewrites db now uid i p =
    elim (Option-cases (find? (slot_at uid i) db.user_agent_slots)) [
      | inl missing ↦ rw (missing, update_runtime_config) (same db)
      | inr (row, found) ↦
          rw (found, update_runtime_config)
            (updated db (slot_at uid i) (with_config now row p) (λ s. refl))
    ]

pub Step-Rewrites : {t u : SlotDb} → Step t u → Rewrites t u
unfolding update_cursor_agent set_active_run clear_all_active_runs update_repo_id rebind_repo
    update_label set_cloud_status clear_cursor_agent
Step-Rewrites {t} (creates now uid label repo_id make_active e) =
    rw e (create_slot-Rewrites t now uid label repo_id make_active)
Step-Rewrites {t} (sets_active now uid i e) = rw e (set_active-Rewrites t now uid i)
Step-Rewrites {t} (binds_agent now i agent token_key e) =
    rw e (updated t (slot_id_is i) _ (λ s. refl))
Step-Rewrites {t} (sets_run now i run e) = rw e (updated t (slot_id_is i) _ (λ s. refl))
Step-Rewrites {t} (clears_runs e) = rw e (updated t _ _ (λ s. refl))
Step-Rewrites {t} (sets_repo now i k e) = rw e (set_repo-Rewrites t i k _ (λ s. refl))
Step-Rewrites {t} (rebinds now i k e) = rw e (set_repo-Rewrites t i (some k) _ (λ s. refl))
Step-Rewrites {t} (labels now uid i label e) = rw e (updated t (slot_at uid i) _ (λ s. refl))
Step-Rewrites {t} (configures now uid i p e) = rw e (update_runtime_config-Rewrites t now uid i p)
Step-Rewrites {t} (deletes now uid i e) = rw e (delete_slot-Rewrites t now uid i)
Step-Rewrites {t} (sets_cloud now i status e) = rw e (updated t (slot_id_is i) _ (λ s. refl))
Step-Rewrites {t} (clears_agent now i e) = rw e (updated t (slot_id_is i) _ (λ s. refl))

pub Step-IsUnique : {t u : SlotDb} → Step t u → IsUnique t → IsUnique u
Step-IsUnique s h = Rewrites-IsUnique (Step-Rewrites s) h
