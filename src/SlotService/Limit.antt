-- ===== src/SlotService/Limit.antt =====
-- Every call of src/beachops/services/agent_slots.py as writes to the tables, and the limit on slots.
use beachops.Base.{
  ℕ, ◌≤◌, ◌<◌, refl, inl, inr, Bool, not, ◌&&◌, Option, none, some, is_some, Text, head?, leb,
  is_empty, strip, Bool-cases, Option-cases, arith,
}
use beachops.Database.{ok, Result-cases}
use beachops.AgentSlots.{
  AgentSlot, RepoConfig, SlotDb, list_slots, get_active, get_by_id, count_slots,
}
use beachops.AgentSlots.Config.{update_repo_id, update_label, RuntimePatch}
use beachops.AgentSlots.Delete
use beachops.AgentSlots.Steps.{sets_repo, rebinds, labels, configures, deletes}
use beachops.Labels.{label_max_len, is_auto_slot_label, label_from_prompt}
use beachops.Repos.{Settings, get_active_repo, resolve_active_repo}
use beachops.SlotService.{
  create_for, ensure_default_slot, create_new_slot, slot_repo, adopt_repo, context_of,
  get_run_context, is_repo, sync_active_slot_repo, cleaned_label, rename_slot, rename_active,
  maybe_autoname_active, known_runtime, is_windows, has_path, path_after, configure_runtime,
  delete_slot,
}
use beachops.SlotService.Guards.{Writes, unchanged, slots, Writes-trans}
use beachops.SlotService.Parts.{
  ReposOnly-count, ReposOnly-Writes, resolve_active_repo-ReposOnly, follow_repo-Writes,
  activate_slot-Writes, create_for-Writes, list_slots-nil,
}

module _ (collate : Text → ℕ) (settings : Settings) where
  abbrev limit : ℕ
  limit = settings.agent_slots_max

  resolve-Writes :
      (db : SlotDb) (id uid : ℕ)
      → Writes limit db (resolve_active_repo collate db id uid settings).1
  resolve-Writes db id uid =
      ReposOnly-Writes limit (resolve_active_repo-ReposOnly collate db id uid settings)

  -- A slot after the repository is resolved.
  resolved-Writes :
      (db : SlotDb) (now id uid : ℕ) (label : Text)
      → count_slots db uid < limit
      → Writes limit db
          (create_for
            (resolve_active_repo collate db id uid settings).1
            now
            uid
            label
            (resolve_active_repo collate db id uid settings).0).1
  resolved-Writes db now id uid label room = Writes-trans (resolve-Writes db id uid) (
      create_for-Writes limit _ now uid label _ (
        omega (
          arith,
          ReposOnly-count db uid (resolve_active_repo-ReposOnly collate db id uid settings),
        )))

  pub ensure_default_slot-Writes :
      (db : SlotDb) (now id uid : ℕ) (label : Text)
      → 1 ≤ limit
      → Writes limit db (ensure_default_slot collate settings db now id uid label).1
  unfolding ensure_default_slot
  ensure_default_slot-Writes db now id uid label some_limit =
      elim (Option-cases (get_active db uid)) [
        | inr (slot, active) ↦ rw (active, ensure_default_slot) unchanged
        | inl inactive ↦ elim (Option-cases (head? (list_slots db uid))) [
          | inr (slot, first) ↦
              rw (inactive, first, ensure_default_slot)
                (activate_slot-Writes limit db now uid slot.id)
          | inl nothing ↦
              rw (inactive, nothing, ensure_default_slot)
                (resolved-Writes db now id uid label (omega (arith, list_slots-nil db uid nothing)))
        ]
      ]

  pub create_new_slot-Writes :
      (db : SlotDb) (now id uid : ℕ) (label : Text)
      → Writes limit db (create_new_slot collate settings db now id uid label).1
  unfolding create_new_slot
  create_new_slot-Writes db now id uid label = elim (Bool-cases (leb limit (count_slots db uid))) [
    | inl full ↦ rw (full, create_new_slot) unchanged
    | inr room ↦ elim (Option-cases (get_active_repo db uid)) [
      | inr (repo, active) ↦
          rw (room, active, create_new_slot)
            (create_for-Writes limit db now uid label (ok (some repo)) (ground arith))
      | inl inactive ↦
          rw (room, inactive, create_new_slot) (resolved-Writes db now id uid label (ground arith))
    ]
  ]

  adopt_repo-Writes :
      (db : SlotDb) (now uid : ℕ) (slot : AgentSlot) (repo : Option RepoConfig)
      → Writes limit db (adopt_repo collate settings db now uid slot repo).1
  unfolding adopt_repo
  adopt_repo-Writes db now uid slot none = unchanged
  adopt_repo-Writes db now uid slot (some repo) = elim (Bool-cases (is_some slot.cursor_agent_id)) [
    | inl agent ↦ rw (agent, adopt_repo) unchanged
    | inr free ↦
        let written = slots unchanged (sets_repo now slot.id (some repo.id) refl) tt in
        elim (Result-cases (update_repo_id db now slot.id (some repo.id)).0) [
          | inl (e, refused) ↦ rw (free, refused, adopt_repo) written
          | inr (done, wrote) ↦ rw (free, wrote, adopt_repo) written
        ]
  ]

  context_of-Writes :
      (db : SlotDb) (now id uid : ℕ) (slot : AgentSlot)
      → Writes limit db (context_of collate settings db now id uid slot).1
  unfolding context_of
  context_of-Writes db now id uid slot =
      elim (Option-cases (slot_repo collate settings db uid slot)) [
        | inr (repo, found) ↦ rw (found, context_of) unchanged
        | inl lost ↦
            let seeded = resolve-Writes db id uid in
            elim (Result-cases (resolve_active_repo collate db id uid settings).0) [
              | inl (e, refused) ↦ rw (lost, refused, context_of) seeded
              | inr (repo, resolved) ↦
                  rw (lost, resolved, context_of)
                    (Writes-trans seeded (
                      adopt_repo-Writes (resolve_active_repo collate db id uid settings).1 now uid
                        slot repo))
            ]
      ]

  pub get_run_context-Writes :
      (db : SlotDb) (now id uid : ℕ) (label : Text)
      → 1 ≤ limit
      → Writes limit db (get_run_context collate settings db now id uid label).1
  unfolding get_run_context
  get_run_context-Writes db now id uid label some_limit =
      let ensured = ensure_default_slot-Writes db now id uid label some_limit in
      elim (Result-cases (ensure_default_slot collate settings db now id uid label).0) [
        | inl (e, refused) ↦ rw (refused, get_run_context) ensured
        | inr (slot, there) ↦
            rw (there, get_run_context)
              (Writes-trans ensured (
                context_of-Writes (ensure_default_slot collate settings db now id uid label).1 now
                  id uid slot))
      ]

  pub sync_active_slot_repo-Writes :
      (db : SlotDb) (now id uid : ℕ) (label : Text) (repo : RepoConfig)
      → 1 ≤ limit
      → Writes limit db (sync_active_slot_repo collate settings db now id uid label repo).1
  unfolding sync_active_slot_repo
  sync_active_slot_repo-Writes db now id uid label repo some_limit =
      let ensured = ensure_default_slot-Writes db now id uid label some_limit in
      elim (Result-cases (ensure_default_slot collate settings db now id uid label).0) [
        | inl (e, refused) ↦ rw (refused, sync_active_slot_repo) ensured
        | inr (slot, there) ↦ elim (Bool-cases (is_repo collate settings slot.repo_id repo.id)) [
          | inl bound ↦ rw (there, bound, sync_active_slot_repo) ensured
          | inr other ↦
              rw (there, other, sync_active_slot_repo)
                (slots ensured (rebinds now slot.id repo.id refl) tt)
        ]
      ]

module _ (limit : ℕ) where
  labels-Writes :
      (db : SlotDb) (now uid i : ℕ) (label : Text)
      → Writes limit db (update_label db now uid i label).1
  labels-Writes db now uid i label = slots unchanged (labels now uid i label refl) tt

  pub rename_slot-Writes :
      (db : SlotDb) (now uid i : ℕ) (label : Text)
      → Writes limit db (rename_slot db now uid i label).1
  unfolding rename_slot
  rename_slot-Writes db now uid i label = elim (Bool-cases (is_empty (strip label))) [
    | inl empty ↦ rw (empty, rename_slot) unchanged
    | inr given ↦ rw (given, rename_slot) (labels-Writes db now uid i (cleaned_label label))
  ]

  pub rename_active-Writes :
      (db : SlotDb) (now uid : ℕ) (label : Text)
      → Writes limit db (rename_active db now uid label).1
  unfolding rename_active
  rename_active-Writes db now uid label = elim (Option-cases (get_active db uid)) [
    | inl inactive ↦ rw (inactive, rename_active) unchanged
    | inr (slot, active) ↦ rw (active, rename_active) (rename_slot-Writes db now uid slot.id label)
  ]

  pub maybe_autoname_active-Writes :
      (is_decimal : ℕ → Bool) (db : SlotDb) (now uid : ℕ) (prompt : Text)
      → Writes limit db (maybe_autoname_active is_decimal db now uid prompt)
  unfolding maybe_autoname_active
  maybe_autoname_active-Writes is_decimal db now uid prompt =
      elim (Option-cases (get_active db uid)) [
        | inl inactive ↦ rw (inactive, maybe_autoname_active) unchanged
        | inr (slot, active) ↦ elim (Bool-cases (is_auto_slot_label is_decimal slot.label)) [
          | inr chosen ↦ rw (active, chosen, maybe_autoname_active) unchanged
          | inl auto ↦ elim (Option-cases (label_from_prompt label_max_len prompt)) [
            | inl none_found ↦ rw (active, auto, none_found, maybe_autoname_active) unchanged
            | inr (label, found) ↦ elim (Bool-cases (is_empty label)) [
              | inl empty ↦ rw (active, auto, found, empty, maybe_autoname_active) unchanged
              | inr given ↦
                  rw (active, auto, found, given, maybe_autoname_active)
                    (labels-Writes db now uid slot.id label)
            ]
          ]
        ]
      ]

  pub configure_runtime-Writes :
      (db : SlotDb) (now uid i : ℕ) (p : RuntimePatch)
      → Writes limit db (configure_runtime db now uid i p).1
  unfolding configure_runtime
  configure_runtime-Writes db now uid i p = elim (Bool-cases (known_runtime p.runtime)) [
    | inr unknown ↦ rw (unknown, configure_runtime) unchanged
    | inl known ↦
        elim (Bool-cases (
          is_windows p.runtime
          && not p.clear_local_path
          && not (has_path (path_after db uid i p.local_path)))) [
            | inl pathless ↦ rw (known, pathless, configure_runtime) unchanged
            | inr fine ↦
                rw (known, fine, configure_runtime)
                  (slots unchanged (configures now uid i p refl) tt)
          ]
  ]

  deletes-Writes :
      (db : SlotDb) (now uid i : ℕ) → Writes limit db (Delete.delete_slot db now uid i).1
  deletes-Writes db now uid i = slots unchanged (deletes now uid i refl) tt

  pub delete_slot-Writes :
      (db : SlotDb) (now uid i : ℕ) → Writes limit db (delete_slot db now uid i).1
  unfolding delete_slot
  delete_slot-Writes db now uid i = elim (Option-cases (get_by_id db uid i)) [
    | inl missing ↦ rw (missing, delete_slot) unchanged
    | inr (slot, found) ↦ elim (Bool-cases (leb (count_slots db uid) 1)) [
      | inl last ↦ rw (found, last, delete_slot) unchanged
      | inr more ↦ elim (Option-cases (Delete.delete_slot db now uid i).0) [
        | inl nothing ↦ rw (found, more, nothing, delete_slot) (deletes-Writes db now uid i)
        | inr (active, left) ↦ elim (Bool-cases active.is_active) [
          | inr off ↦ rw (found, more, left, off, delete_slot) (deletes-Writes db now uid i)
          | inl on ↦
              rw (found, more, left, on, delete_slot)
                (Writes-trans (deletes-Writes db now uid i)
                  (follow_repo-Writes limit (Delete.delete_slot db now uid i).1 uid active))
        ]
      ]
    ]
  ]
