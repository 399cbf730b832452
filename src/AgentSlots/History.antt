-- ===== src/AgentSlots/History.antt =====
-- The active slots of a user, over any history of writes to the table of
-- src/beachops/db/repositories/agent_slots.py.
use beachops.Base.{
  ℕ, ◌≡◌, refl, inl, inr, not, ◌&&◌, Option, some, any, find?, Bool-cases, Option-cases,
}
use beachops.AgentSlots.{SlotRow, SlotDb, slot_at, has_repo}
use beachops.AgentSlots.Config.{
  slot_id_is, update_cursor_agent, set_active_run, clear_all_active_runs, set_repo, update_repo_id,
  rebind_repo, update_label, RuntimePatch, with_config, update_runtime_config, set_cloud_status,
  clear_cursor_agent,
}
use beachops.AgentSlots.Unique.{IsUnique, Step-IsUnique}
use beachops.AgentSlots.Steps.{
  Step, creates, sets_active, binds_agent, sets_run, clears_runs, sets_repo, rebinds, labels,
  configures, deletes, sets_cloud, clears_agent, Reach, here, next,
}
use beachops.AgentSlots.One.{
  IsOneActive, update_slots-IsOneActive, create_slot-IsOneActive, set_active-IsOneActive,
  delete_slot-IsOneActive,
}

set_repo-IsOneActive :
    (v : ℕ) (db : SlotDb) (i : ℕ) (k : Option ℕ) (f : SlotRow → SlotRow)
    → ((s : SlotRow) → (f s).tg_user_id ≡ s.tg_user_id)
    → ((s : SlotRow) → (f s).id ≡ s.id)
    → ((s : SlotRow) → (f s).is_active ≡ s.is_active)
    → IsOneActive v db
    → IsOneActive v (set_repo db i k f).1
unfolding set_repo
set_repo-IsOneActive v db i k f user id active h =
    elim (Bool-cases (any (slot_id_is i) db.user_agent_slots && not (has_repo db k))) [
      | inl bad ↦ rw (bad, set_repo) h
      | inr good ↦
          rw (good, set_repo) (update_slots-IsOneActive v (slot_id_is i) f db user id active h)
    ]

update_runtime_config-IsOneActive :
    (v : ℕ) (db : SlotDb) (now uid i : ℕ) (p : RuntimePatch)
    → IsOneActive v db
    → IsOneActive v (update_runtime_config db now uid i p).1
unfolding update_runtime_config with_config
update_runtime_config-IsOneActive v db now uid i p h =
    elim (Option-cases (find? (slot_at uid i) db.user_agent_slots)) [
      | inl missing ↦ rw (missing, update_runtime_config) h
      | inr (row, found) ↦
          rw (found, update_runtime_config)
            (update_slots-IsOneActive v (slot_at uid i) (with_config now row p) db (λ s. refl)
              (λ s. refl) (λ s. refl) h)
    ]

pub Step-IsOneActive :
    (v : ℕ) {t u : SlotDb} → Step t u → IsUnique t → IsOneActive v t → IsOneActive v u
unfolding update_cursor_agent set_active_run clear_all_active_runs update_repo_id rebind_repo
    update_label set_cloud_status clear_cursor_agent
Step-IsOneActive v {t} (creates now uid label repo_id make_active e) unique h =
    rw e (create_slot-IsOneActive v t now uid label repo_id make_active h)
Step-IsOneActive v {t} (sets_active now uid i e) unique h =
    rw e (set_active-IsOneActive v t now uid i h)
Step-IsOneActive v {t} (binds_agent now i agent token_key e) unique h =
    rw e (update_slots-IsOneActive v _ _ t (λ s. refl) (λ s. refl) (λ s. refl) h)
Step-IsOneActive v {t} (sets_run now i run e) unique h =
    rw e (update_slots-IsOneActive v _ _ t (λ s. refl) (λ s. refl) (λ s. refl) h)
Step-IsOneActive v {t} (clears_runs e) unique h =
    rw e (update_slots-IsOneActive v _ _ t (λ s. refl) (λ s. refl) (λ s. refl) h)
Step-IsOneActive v {t} (sets_repo now i k e) unique h =
    rw e (set_repo-IsOneActive v t i k _ (λ s. refl) (λ s. refl) (λ s. refl) h)
Step-IsOneActive v {t} (rebinds now i k e) unique h =
    rw e (set_repo-IsOneActive v t i (some k) _ (λ s. refl) (λ s. refl) (λ s. refl) h)
Step-IsOneActive v {t} (labels now uid i label e) unique h =
    rw e (update_slots-IsOneActive v _ _ t (λ s. refl) (λ s. refl) (λ s. refl) h)
Step-IsOneActive v {t} (configures now uid i p e) unique h =
    rw e (update_runtime_config-IsOneActive v t now uid i p h)
Step-IsOneActive v {t} (deletes now uid i e) unique h =
    rw e (delete_slot-IsOneActive v t now uid i unique h)
Step-IsOneActive v {t} (sets_cloud now i status e) unique h =
    rw e (update_slots-IsOneActive v _ _ t (λ s. refl) (λ s. refl) (λ s. refl) h)
Step-IsOneActive v {t} (clears_agent now i e) unique h =
    rw e (update_slots-IsOneActive v _ _ t (λ s. refl) (λ s. refl) (λ s. refl) h)

-- Any writes to the slots, in any order, keep the identifiers unique, and leave no user with two
-- active slots.
pub Reach-IsOneActive :
    (v : ℕ) {t u : SlotDb} → Reach t u → IsUnique t → IsOneActive v t → IsUnique u × IsOneActive v u
Reach-IsOneActive v here unique h = (unique, h)
Reach-IsOneActive v (next r s) unique h =
    let (kept, one) = Reach-IsOneActive v r unique h in
    (Step-IsUnique s kept, Step-IsOneActive v s kept one)
