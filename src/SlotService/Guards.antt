-- ===== src/SlotService/Guards.antt =====
-- The writes to the tables of slots and repositories that src/beachops/services/agent_slots.py makes,
-- with the guards before them.
use beachops.Base.{ℕ, ◌<◌, ◌≡◌, none, is_some, coalesce, text, refl, some, List}
use beachops.AgentSlots.{RepoConfig, SlotDb, slot_at, count_slots}
use beachops.AgentSlots.Config.{
  slot_id_is, update_cursor_agent, set_active_run, clear_all_active_runs, update_repo_id,
  rebind_repo, update_label, set_cloud_status, clear_cursor_agent,
}
use beachops.AgentSlots.Unique.{IsUnique, Step-IsUnique}
use beachops.AgentSlots.One.{IsOneActive}
use beachops.AgentSlots.History.{Step-IsOneActive}
use beachops.AgentSlots.Steps.{
  Step, creates, sets_active, binds_agent, sets_run, clears_runs, sets_repo, rebinds, labels,
  configures, deletes, sets_cloud, clears_agent,
}
use beachops.SlotService.Counts.{
  KeepsCount, KeepsCount-eq, update_slots-KeepsCount, create_slot-KeepsCount, set_active-count,
  set_repo-count, update_runtime_config-count, delete_slot-KeepsCount,
}

-- A slot is created only for a user who has fewer than the limit.
abbrev pub Guarded : {t u : SlotDb} → ℕ → Step t u → Type 0
Guarded {t} limit (creates now uid label repo_id make_active e) = count_slots t uid < limit
Guarded limit (sets_active now uid i e) = Unit
Guarded limit (binds_agent now i agent token_key e) = Unit
Guarded limit (sets_run now i run e) = Unit
Guarded limit (clears_runs e) = Unit
Guarded limit (sets_repo now i k e) = Unit
Guarded limit (rebinds now i k e) = Unit
Guarded limit (labels now uid i label e) = Unit
Guarded limit (configures now uid i p e) = Unit
Guarded limit (deletes now uid i e) = Unit
Guarded limit (sets_cloud now i status e) = Unit
Guarded limit (clears_agent now i e) = Unit

-- Some writes, one after another.
pub data Writes (limit : ℕ) (t : SlotDb) : SlotDb → Type 0 where
  unchanged : Writes limit t t
  repos :
      {u v : SlotDb} (rs : List RepoConfig)
      → Writes limit t u
      → v ≡ record u { user_repos = rs }
      → Writes limit t v
  slots : {u v : SlotDb} → Writes limit t u → (s : Step u v) → Guarded limit s → Writes limit t v

Step-KeepsCount :
    (limit v : ℕ) {t u : SlotDb} (s : Step t u)
    → Guarded limit s
    → IsUnique t
    → KeepsCount limit v t u
unfolding update_cursor_agent set_active_run clear_all_active_runs update_repo_id rebind_repo
    update_label set_cloud_status clear_cursor_agent
Step-KeepsCount limit v {t} (creates now uid label repo_id make_active e) room unique =
    rw e (create_slot-KeepsCount limit v t now uid label repo_id make_active room)
Step-KeepsCount limit v {t} (sets_active now uid i e) g unique =
    rw e (KeepsCount-eq limit v t _ (set_active-count t now uid i v))
Step-KeepsCount limit v {t} (binds_agent now i agent token_key e) g unique = rw e (
    update_slots-KeepsCount limit v (slot_id_is i)
      (λ s. record s {
        cursor_agent_id = some agent;
        cursor_token_key = coalesce token_key s.cursor_token_key;
        updated_at = now;
      })
      t (λ s. refl))
Step-KeepsCount limit v {t} (sets_run now i run e) g unique = rw e (
    update_slots-KeepsCount limit v (slot_id_is i)
      (λ s. record s { active_run_id = run; updated_at = now }) t (λ s. refl))
Step-KeepsCount limit v {t} (clears_runs e) g unique = rw e (
    update_slots-KeepsCount limit v (λ s. is_some s.active_run_id)
      (λ s. record s { active_run_id = none }) t (λ s. refl))
Step-KeepsCount limit v {t} (sets_repo now i k e) g unique =
    rw e (KeepsCount-eq limit v t _ (set_repo-count t i k _ v (λ s. refl)))
Step-KeepsCount limit v {t} (rebinds now i k e) g unique =
    rw e (KeepsCount-eq limit v t _ (set_repo-count t i (some k) _ v (λ s. refl)))
Step-KeepsCount limit v {t} (labels now uid i label e) g unique = rw e (
    update_slots-KeepsCount limit v (slot_at uid i)
      (λ s. record s { label = label; updated_at = now }) t (λ s. refl))
Step-KeepsCount limit v {t} (configures now uid i p e) g unique =
    rw e (KeepsCount-eq limit v t _ (update_runtime_config-count t now uid i p v))
Step-KeepsCount limit v {t} (deletes now uid i e) g unique =
    rw e (delete_slot-KeepsCount limit v t now uid i unique)
Step-KeepsCount limit v {t} (sets_cloud now i status e) g unique = rw e (
    update_slots-KeepsCount limit v (slot_id_is i)
      (λ s. record s { cloud_status = status; last_cloud_sync_at = some now; updated_at = now }) t
      (λ s. refl))
Step-KeepsCount limit v {t} (clears_agent now i e) g unique = rw e (
    update_slots-KeepsCount limit v (slot_id_is i)
      (λ s. record s {
        cursor_agent_id = none;
        cursor_token_key = none;
        active_run_id = none;
        cloud_status = text "not_found";
        last_cloud_sync_at = some now;
        updated_at = now;
      })
      t (λ s. refl))

-- Writes keep what the tables keep: unique identifiers, one active slot for a user, and the limit.
pub Writes-keep :
    (limit v : ℕ) {t u : SlotDb}
    → Writes limit t u
    → IsUnique t
    → IsOneActive v t
    → IsUnique u × IsOneActive v u × KeepsCount limit v t u
unfolding count_slots
Writes-keep limit v unchanged unique one = (unique, one, (λ h. h, λ h. h))
Writes-keep limit v (repos rs w e) unique one =
    let (kept, still, (upper, lower)) = Writes-keep limit v w unique one in
    rw e (record { ids = kept.ids; fresh = kept.fresh }, still, (upper, lower))
Writes-keep limit v (slots w s room) unique one =
    let (kept, still, (upper, lower)) = Writes-keep limit v w unique one in
    let (more, less) = Step-KeepsCount limit v s room kept in
    (
      Step-IsUnique s kept,
      Step-IsOneActive v s kept still,
      (λ h. more (upper h), λ h. less (lower h)),
    )

pub Writes-trans :
    {limit : ℕ} {t u v : SlotDb} → Writes limit t u → Writes limit u v → Writes limit t v
Writes-trans w unchanged = w
Writes-trans w (repos rs w' e) = repos rs (Writes-trans w w') e
Writes-trans w (slots w' s room) = slots (Writes-trans w w') s room
