-- ===== src/SlotService/Calls.antt =====
-- Calls of src/beachops/services/agent_slots.py, one after another, by any users.
use beachops.Base.{ℕ, ◌≤◌, ◌≡◌, Bool, Option, Text}
use beachops.AgentSlots.{RepoConfig, SlotDb, count_slots}
use beachops.AgentSlots.Config.{
  RuntimePatch, update_cursor_agent, set_active_run, set_cloud_status, clear_cursor_agent,
  clear_all_active_runs,
}
use beachops.AgentSlots.Unique.{IsUnique}
use beachops.AgentSlots.One.{IsOneActive}
use beachops.AgentSlots.Steps.{binds_agent, sets_run, clears_runs, sets_cloud, clears_agent}
use beachops.Repos.{Settings}
use beachops.SlotService.{
  activate_slot, ensure_default_slot, create_new_slot, get_run_context, sync_active_slot_repo,
  rename_slot, rename_active, maybe_autoname_active, configure_runtime, delete_slot,
}
use beachops.SlotService.Guards.{Writes, unchanged, slots, Writes-keep, Writes-trans}
use beachops.SlotService.Parts.{activate_slot-Writes, ReposOnly, ReposOnly-Writes}
use beachops.SlotService.Limit.{
  ensure_default_slot-Writes, create_new_slot-Writes, get_run_context-Writes,
  sync_active_slot_repo-Writes, rename_slot-Writes, rename_active-Writes,
  maybe_autoname_active-Writes, configure_runtime-Writes, delete_slot-Writes,
}

-- One call, or a write to the repositories by another part of the program.
pub data Call (collate : Text → ℕ) (settings : Settings) (is_decimal : ℕ → Bool) (t u : SlotDb)
    : Type 0 where
  ensures :
      (now id uid : ℕ) (label : Text)
      → u ≡ (ensure_default_slot collate settings t now id uid label).1
      → Call collate settings is_decimal t u
  activates :
      (now uid i : ℕ) → u ≡ (activate_slot t now uid i).1 → Call collate settings is_decimal t u
  creates_new :
      (now id uid : ℕ) (label : Text)
      → u ≡ (create_new_slot collate settings t now id uid label).1
      → Call collate settings is_decimal t u
  runs :
      (now id uid : ℕ) (label : Text)
      → u ≡ (get_run_context collate settings t now id uid label).1
      → Call collate settings is_decimal t u
  syncs :
      (now id uid : ℕ) (label : Text) (repo : RepoConfig)
      → u ≡ (sync_active_slot_repo collate settings t now id uid label repo).1
      → Call collate settings is_decimal t u
  renames :
      (now uid i : ℕ) (label : Text)
      → u ≡ (rename_slot t now uid i label).1
      → Call collate settings is_decimal t u
  renames_active :
      (now uid : ℕ) (label : Text)
      → u ≡ (rename_active t now uid label).1
      → Call collate settings is_decimal t u
  autonames :
      (now uid : ℕ) (prompt : Text)
      → u ≡ maybe_autoname_active is_decimal t now uid prompt
      → Call collate settings is_decimal t u
  configures_runtime :
      (now uid i : ℕ) (p : RuntimePatch)
      → u ≡ (configure_runtime t now uid i p).1
      → Call collate settings is_decimal t u
  deletes_slot :
      (now uid i : ℕ) → u ≡ (delete_slot t now uid i).1 → Call collate settings is_decimal t u
  updates_agent :
      (now i : ℕ) (agent : Text) (token_key : Option Text)
      → u ≡ update_cursor_agent t now i agent token_key
      → Call collate settings is_decimal t u
  updates_run :
      (now i : ℕ) (run : Option Text)
      → u ≡ set_active_run t now i run
      → Call collate settings is_decimal t u
  updates_cloud :
      (now i : ℕ) (status : Text)
      → u ≡ set_cloud_status t now i status
      → Call collate settings is_decimal t u
  clears : (now i : ℕ) → u ≡ clear_cursor_agent t now i → Call collate settings is_decimal t u
  clears_stale : u ≡ clear_all_active_runs t → Call collate settings is_decimal t u
  other_repos : ReposOnly t u → Call collate settings is_decimal t u

pub data Calls (collate : Text → ℕ) (settings : Settings) (is_decimal : ℕ → Bool) (t : SlotDb)
    : SlotDb → Type 0 where
  start : Calls collate settings is_decimal t t
  call :
      {u v : SlotDb}
      → Calls collate settings is_decimal t u
      → Call collate settings is_decimal u v
      → Calls collate settings is_decimal t v

module _ (collate : Text → ℕ) (settings : Settings) (is_decimal : ℕ → Bool)
    (some_limit : 1 ≤ settings.agent_slots_max) where
  Call-Writes :
      {t u : SlotDb} → Call collate settings is_decimal t u → Writes settings.agent_slots_max t u
  Call-Writes {t} (ensures now id uid label e) =
      rw e (ensure_default_slot-Writes collate settings t now id uid label some_limit)
  Call-Writes {t} (activates now uid i e) = rw e (activate_slot-Writes _ t now uid i)
  Call-Writes {t} (creates_new now id uid label e) =
      rw e (create_new_slot-Writes collate settings t now id uid label)
  Call-Writes {t} (runs now id uid label e) =
      rw e (get_run_context-Writes collate settings t now id uid label some_limit)
  Call-Writes {t} (syncs now id uid label repo e) =
      rw e (sync_active_slot_repo-Writes collate settings t now id uid label repo some_limit)
  Call-Writes {t} (renames now uid i label e) = rw e (rename_slot-Writes _ t now uid i label)
  Call-Writes {t} (renames_active now uid label e) = rw e (rename_active-Writes _ t now uid label)
  Call-Writes {t} (autonames now uid prompt e) =
      rw e (maybe_autoname_active-Writes _ is_decimal t now uid prompt)
  Call-Writes {t} (configures_runtime now uid i p e) =
      rw e (configure_runtime-Writes _ t now uid i p)
  Call-Writes {t} (deletes_slot now uid i e) = rw e (delete_slot-Writes _ t now uid i)
  Call-Writes (updates_agent now i agent token_key e) =
      slots unchanged (binds_agent now i agent token_key e) tt
  Call-Writes (updates_run now i run e) = slots unchanged (sets_run now i run e) tt
  Call-Writes (updates_cloud now i status e) = slots unchanged (sets_cloud now i status e) tt
  Call-Writes (clears now i e) = slots unchanged (clears_agent now i e) tt
  Call-Writes (clears_stale e) = slots unchanged (clears_runs e) tt
  Call-Writes (other_repos r) = ReposOnly-Writes _ r

  Calls-Writes :
      {t u : SlotDb} → Calls collate settings is_decimal t u → Writes settings.agent_slots_max t u
  Calls-Writes start = unchanged
  Calls-Writes (call cs c) = Writes-trans (Calls-Writes cs) (Call-Writes c)

  -- Where `agent_slots_max` is one at least, identifiers are unique, and a user has at most one active
  -- slot and at most `agent_slots_max` slots: calls of the service, one after another and by any users,
  -- keep all of this, and a user who has a slot keeps one.
  pub Calls-IsWithin :
      (v : ℕ) {t u : SlotDb}
      → Calls collate settings is_decimal t u
      → IsUnique t
      → IsOneActive v t
      → count_slots t v ≤ settings.agent_slots_max
      → IsUnique u
        × IsOneActive v u
        × (count_slots u v ≤ settings.agent_slots_max)
        × (1 ≤ count_slots t v → 1 ≤ count_slots u v)
  Calls-IsWithin v cs unique one within =
      let (kept, still, (upper, lower)) =
        Writes-keep settings.agent_slots_max v (Calls-Writes cs) unique one in
      (kept, still, upper within, lower)
