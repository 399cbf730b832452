-- ===== src/SlotService.antt =====
-- AgentSlotService, src/beachops/services/agent_slots.py, over the tables of slots and repositories.
-- `label` is what `random.choice` draws, `id` the next identifier of a repository; `collate` and
-- `is_decimal` are those of Repos and Labels.
pub mod Counts
pub mod Guards
pub mod Parts
pub mod Limit
pub mod Calls
use beachops.Base.{
  ℕ, ◌==◌, ltb, leb, Bool, true, false, not, ◌&&◌, ◌||◌, Option, none, some, is_some, List, [], ◌∷◌,
  Text, text, text_eq, text_in, is_empty, strip, strip_right, take, length, head?, if◌then◌else◌,
}
use beachops.Database.{
  Result, ok, raise, value_error, assertion_error, attribute_error, agent_slots_full,
  agent_slot_last,
}
use beachops.AgentSlots.{
  AgentSlot, RepoConfig, SlotDb, list_slots, get_by_id, get_active, count_slots, create_slot,
  set_active,
}
use beachops.AgentSlots.Config.{
  update_repo_id, rebind_repo, update_label, RuntimePatch, update_runtime_config,
}
use beachops.AgentSlots.Delete
use beachops.Repos.{Settings, get_repo, get_active_repo, set_active_by_id, resolve_active_repo}
use beachops.Labels.{label_max_len, is_auto_slot_label, label_from_prompt}

abbrev pub repo_id_of : Option RepoConfig → Option ℕ
repo_id_of none = none
repo_id_of (some repo) = some repo.id

-- `if slot.repo_id is not None: …set_active_by_id(…)`
unfoldable pub follow_repo : SlotDb → ℕ → AgentSlot → SlotDb
unfolding set_active_by_id
follow_repo db uid slot = elim slot.repo_id [ none ↦ db | some k ↦ (set_active_by_id db uid k).1 ]

unfoldable pub activate_slot : SlotDb → (now uid slot_id : ℕ) → Option AgentSlot × SlotDb
unfolding set_active follow_repo
activate_slot db now uid slot_id =
    let (activated, after) = set_active db now uid slot_id in
    elim activated [ none ↦ (none, after) | some slot ↦ (some slot, follow_repo after uid slot) ]

-- `assert activated is not None`
abbrev pub asserted : Option AgentSlot → Result AgentSlot
asserted none = raise assertion_error
asserted (some slot) = ok slot

-- The new slot of `ensure_default_slot` and `create_new_slot`.
unfoldable pub create_for :
    SlotDb → (now uid : ℕ) → Text → Result (Option RepoConfig) → Result AgentSlot × SlotDb
unfolding create_slot
create_for db now uid label (raise e) = (raise e, db)
create_for db now uid label (ok repo) = create_slot db now uid label (repo_id_of repo) true

module _ (collate : Text → ℕ) (settings : Settings) where
  unfoldable pub ensure_default_slot : SlotDb → (now id uid : ℕ) → Text → Result AgentSlot × SlotDb
  unfolding get_active list_slots activate_slot resolve_active_repo create_for
  ensure_default_slot db now id uid label = elim (get_active db uid) [
    | some active ↦ (ok active, db)
    | none ↦ elim (head? (list_slots db uid)) [
      | some slot ↦
          let (activated, after) = activate_slot db now uid slot.id in (asserted activated, after)
      | none ↦
          let (repo, seeded) = resolve_active_repo collate db id uid settings in
          create_for seeded now uid label repo
    ]
  ]

  unfoldable pub create_new_slot : SlotDb → (now id uid : ℕ) → Text → Result AgentSlot × SlotDb
  unfolding count_slots get_active_repo resolve_active_repo create_for
  create_new_slot db now id uid label =
      if leb settings.agent_slots_max (count_slots db uid)
      then (raise agent_slots_full, db)
      else (elim (get_active_repo db uid) [
        | some repo ↦ create_for db now uid label (ok (some repo))
        | none ↦
            let (repo, seeded) = resolve_active_repo collate db id uid settings in
            create_for seeded now uid label repo
      ])

  abbrev pub slot_repo : SlotDb → ℕ → AgentSlot → Option RepoConfig
  slot_repo db uid slot = elim slot.repo_id [ none ↦ none | some k ↦ get_repo db uid k ]

  -- `await self._slots.get_by_id(…) or slot`
  abbrev pub reread : SlotDb → ℕ → AgentSlot → AgentSlot
  reread db uid slot = elim (get_by_id db uid slot.id) [ none ↦ slot | some fresh ↦ fresh ]

  -- A slot whose repository is gone takes the active one, unless it has an agent.
  unfoldable pub adopt_repo :
      SlotDb
      → (now uid : ℕ) → AgentSlot
      → Option RepoConfig
      → Result (Option (AgentSlot × RepoConfig)) × SlotDb
  unfolding update_repo_id get_by_id
  adopt_repo db now uid slot none = (ok none, db)
  adopt_repo db now uid slot (some repo) =
      if is_some slot.cursor_agent_id
      then (ok (some (slot, repo)), db)
      else (let (written, after) = update_repo_id db now slot.id (some repo.id) in
          elim written [
            | raise e ↦ (raise e, after)
            | ok done ↦ (ok (some (reread after uid slot, repo)), after)
          ])

  -- `get_run_context` after the slot is there.
  unfoldable pub context_of :
      SlotDb → (now id uid : ℕ) → AgentSlot → Result (Option (AgentSlot × RepoConfig)) × SlotDb
  unfolding get_repo resolve_active_repo adopt_repo
  context_of db now id uid slot = elim (slot_repo db uid slot) [
    | some repo ↦ (ok (some (slot, repo)), db)
    | none ↦
        let (resolved, seeded) = resolve_active_repo collate db id uid settings in
        elim resolved [
          | raise e ↦ (raise e, seeded)
          | ok repo ↦ adopt_repo seeded now uid slot repo
        ]
  ]

  unfoldable pub get_run_context :
      SlotDb → (now id uid : ℕ) → Text → Result (Option (AgentSlot × RepoConfig)) × SlotDb
  unfolding ensure_default_slot context_of
  get_run_context db now id uid label =
      let (ensured, after) = ensure_default_slot db now id uid label in
      elim ensured [ raise e ↦ (raise e, after) | ok slot ↦ context_of after now id uid slot ]

  abbrev pub is_repo : Option ℕ → ℕ → Bool
  is_repo none k = false
  is_repo (some j) k = j == k

  unfoldable pub sync_active_slot_repo :
      SlotDb → (now id uid : ℕ) → Text → RepoConfig → Result (Unit {0}) × SlotDb
  unfolding ensure_default_slot rebind_repo
  sync_active_slot_repo db now id uid label repo =
      let (ensured, after) = ensure_default_slot db now id uid label in
      elim ensured [
        | raise e ↦ (raise e, after)
        | ok slot ↦
            if is_repo slot.repo_id repo.id
            then (ok tt, after)
            else rebind_repo after now slot.id repo.id
      ]

-- `label.strip()`, cut to 64 characters.
unfoldable pub cleaned_label : Text → Text
unfolding strip strip_right
cleaned_label label =
    let cleaned = strip label in
    if ltb 64 (length cleaned) then strip_right (take 64 cleaned) else cleaned

unfoldable pub rename_slot : SlotDb → (now uid slot_id : ℕ) → Text → Option AgentSlot × SlotDb
unfolding cleaned_label update_label get_by_id strip is_empty
rename_slot db now uid slot_id label =
    if is_empty (strip label)
    then (none, db)
    else (let (written, after) = update_label db now uid slot_id (cleaned_label label) in
        (if written then get_by_id after uid slot_id else none, after))

unfoldable pub rename_active : SlotDb → (now uid : ℕ) → Text → Option AgentSlot × SlotDb
unfolding get_active rename_slot
rename_active db now uid label = elim (get_active db uid) [
  | none ↦ (none, db)
  | some slot ↦ rename_slot db now uid slot.id label
]

unfoldable pub maybe_autoname_active : (ℕ → Bool) → SlotDb → (now uid : ℕ) → Text → SlotDb
unfolding get_active is_auto_slot_label label_from_prompt update_label
maybe_autoname_active is_decimal db now uid prompt = elim (get_active db uid) [
  | none ↦ db
  | some slot ↦
      if not (is_auto_slot_label is_decimal slot.label)
      then db
      else (elim (label_from_prompt label_max_len prompt) [
        | none ↦ db
        | some label ↦ if is_empty label then db else (update_label db now uid slot.id label).1
      ])
]

abbrev pub known_runtime : Option Text → Bool
known_runtime none = true
known_runtime (some r) = text_in r (text "cloud" ∷ text "windows" ∷ [])

abbrev pub is_windows : Option Text → Bool
is_windows none = false
is_windows (some r) = text_eq r (text "windows")

-- `(path or "").strip()`
abbrev pub has_path : Option Text → Bool
has_path none = false
has_path (some p) = not (is_empty (strip p))

-- The path that a slot has after the update: the one given, or the one that it has.
unfoldable pub path_after : SlotDb → (uid slot_id : ℕ) → Option Text → Option Text
unfolding get_by_id
path_after db uid slot_id (some path) = some path
path_after db uid slot_id none = elim (get_by_id db uid slot_id) [
  | none ↦ none
  | some current ↦ current.local_path
]

unfoldable pub configure_runtime :
    SlotDb → (now uid slot_id : ℕ) → RuntimePatch → Result (Option AgentSlot) × SlotDb
unfolding text_in text_eq path_after strip is_empty update_runtime_config
configure_runtime db now uid slot_id p =
    if not (known_runtime p.runtime)
    then (raise value_error, db)
    else if is_windows p.runtime
        && not p.clear_local_path
        && not (has_path (path_after db uid slot_id p.local_path))
    then (raise value_error, db)
    else (let (slot, after) = update_runtime_config db now uid slot_id p in (ok slot, after))

-- `configure_execution`: `local_path` is none where it is not given. The method that it calls next,
-- `update_execution`, is not there.
unfoldable pub configure_execution :
    SlotDb
    → (uid slot_id : ℕ) → Option Text
    → Option (Option Text)
    → Result (Option AgentSlot) × SlotDb
unfolding text_in text_eq path_after strip is_empty
configure_execution db uid slot_id runtime local_path =
    let resolved : Option Text = (elim local_path [
      | none ↦ path_after db uid slot_id none
      | some given ↦ given
    ]) in
    if not (known_runtime runtime)
    then (raise value_error, db)
    else if is_windows runtime && not (has_path resolved)
    then (raise value_error, db)
    else (raise attribute_error, db)

unfoldable pub delete_slot : SlotDb → (now uid slot_id : ℕ) → Result (Option AgentSlot) × SlotDb
unfolding get_by_id count_slots follow_repo
delete_slot db now uid slot_id = elim (get_by_id db uid slot_id) [
  | none ↦ (ok none, db)
  | some slot ↦
      if leb (count_slots db uid) 1
      then (raise agent_slot_last, db)
      else (let (new_active, after) = Delete.delete_slot db now uid slot_id in
          elim new_active [
            | none ↦ (ok none, after)
            | some active ↦
                (ok (some active), if active.is_active then follow_repo after uid active else after)
          ])
]
