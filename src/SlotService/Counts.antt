-- ===== src/SlotService/Counts.antt =====
-- How many slots the writes of src/beachops/db/repositories/agent_slots.py leave each user.
use beachops.Base.{
  ℕ, ◌+◌, ◌==◌, ◌≤◌, ◌<◌, ◌≡◌, ◌⊎◌, [], ◌∷◌, length-filter-filter_keep, refl, ◌∙◌, ap, inl, inr,
  Bool, true, false, not, ◌&&◌, Option, Text, any, find?, filter, length, leb,
  length-filter-update_where, length-filter-append, length-filter-any, length-filter-filter-le,
  Bool-cases, Option-cases, arith, if◌then◌else◌,
}
use beachops.AgentSlots.{
  SlotRow, SlotDb, slot_of, slot_at, update_slots, with_active, deactivate_all, count_slots,
  has_repo, create_slot, set_active, insert_slot, new_slot,
}
use beachops.AgentSlots.Config.{
  slot_id_is, set_repo, RuntimePatch, with_config, update_runtime_config,
}
use beachops.AgentSlots.Delete.{next_slot, activate_next, remove_slot, delete_slot}
use beachops.AgentSlots.Unique.{IsUnique}
use beachops.AgentSlots.Next.{others-left}

-- A user's slots stay within the limit, and a user who has one keeps one.
abbrev pub KeepsCount : (limit v : ℕ) → (t u : SlotDb) → Type 0
KeepsCount limit v t u =
    (count_slots t v ≤ limit → count_slots u v ≤ limit)
    × (1 ≤ count_slots t v → 1 ≤ count_slots u v)

pub KeepsCount-eq :
    (limit v : ℕ) (t u : SlotDb) → count_slots u v ≡ count_slots t v → KeepsCount limit v t u
KeepsCount-eq limit v t u e = (λ h. omega arith, λ h. omega arith)

count_slots-update_slots :
    (p : SlotRow → Bool) (f : SlotRow → SlotRow) (db : SlotDb) (v : ℕ)
    → ((s : SlotRow) → (f s).tg_user_id ≡ s.tg_user_id)
    → count_slots (update_slots p f db) v ≡ count_slots db v
unfolding count_slots update_slots
count_slots-update_slots p f db v user =
    length-filter-update_where p (slot_of v) f db.user_agent_slots (λ s. rw (user s) refl)

pub update_slots-KeepsCount :
    (limit v : ℕ) (p : SlotRow → Bool) (f : SlotRow → SlotRow) (db : SlotDb)
    → ((s : SlotRow) → (f s).tg_user_id ≡ s.tg_user_id)
    → KeepsCount limit v db (update_slots p f db)
update_slots-KeepsCount limit v p f db user =
    KeepsCount-eq limit v db _ (count_slots-update_slots p f db v user)

count_slots-deactivate_all :
    (db : SlotDb) (uid v : ℕ) → count_slots (deactivate_all db uid) v ≡ count_slots db v
unfolding deactivate_all
count_slots-deactivate_all db uid v =
    count_slots-update_slots (slot_of uid) (with_active false) db v (λ s. refl)

filter-one :
    (uid v : ℕ) (s : SlotRow)
    → s.tg_user_id ≡ uid
    → length (filter (slot_of v) (s ∷ [])) ≡ (if uid == v then 1 else 0)
unfolding filter
filter-one uid v s user =
    rw user (elim (Bool-cases (uid == v)) [ inl e ↦ rw e refl | inr e ↦ rw e refl ])

count_slots-insert_slot :
    (db : SlotDb) (uid : ℕ) (label : Text) (repo_id : Option ℕ) (make_active : Bool) (now v : ℕ)
    → count_slots (insert_slot db uid label repo_id make_active now) v
      ≡ count_slots db v + (if uid == v then 1 else 0)
unfolding count_slots
count_slots-insert_slot db uid label repo_id make_active now v =
    length-filter-append (slot_of v) db.user_agent_slots _
    ∙ ap (λ (n : ℕ). length (filter (slot_of v) db.user_agent_slots) + n)
        (filter-one uid v (new_slot db.next_slot_id uid label repo_id make_active now) refl)

-- A slot is added for the user, or none.
create_slot-count :
    (db : SlotDb) (now uid : ℕ) (label : Text) (repo_id : Option ℕ) (make_active : Bool) (v : ℕ)
    → (count_slots (create_slot db now uid label repo_id make_active).1 v ≡ count_slots db v)
      ⊎ (count_slots (create_slot db now uid label repo_id make_active).1 v
          ≡ count_slots db v + (if uid == v then 1 else 0))
unfolding create_slot
create_slot-count db now uid label repo_id make_active v =
    elim (Bool-cases (any (λ u. u == uid) db.users && has_repo db repo_id)) [
      | inr refused ↦ rw (refused, create_slot) (inl (skip-count db v))
      | inl known ↦ elim (Bool-cases make_active) [
        | inr off ↦
            rw (known, off, create_slot)
              (inr (count_slots-insert_slot db uid label repo_id false now v))
        | inl on ↦
            rw (known, on, create_slot)
              (inr (
                count_slots-insert_slot (deactivate_all db uid) uid label repo_id true now v
                ∙ ap (λ (n : ℕ). n + (if uid == v then 1 else 0))
                    (count_slots-deactivate_all db uid v)))
      ]
    ]
  where
    skip-count :
        (t : SlotDb) (w : ℕ)
        → count_slots (record t { next_slot_id = t.next_slot_id + 1 }) w ≡ count_slots t w
    skip-count t w = unfold count_slots in refl

pub create_slot-KeepsCount :
    (limit v : ℕ) (db : SlotDb) (now uid : ℕ) (label : Text) (repo_id : Option ℕ)
    (make_active : Bool)
    → count_slots db uid < limit
    → KeepsCount limit v db (create_slot db now uid label repo_id make_active).1
create_slot-KeepsCount limit v db now uid label repo_id make_active room =
    elim (create_slot-count db now uid label repo_id make_active v) [
      | inl same ↦ KeepsCount-eq limit v db _ same
      | inr more ↦ elim (Bool-cases (uid == v)) [
        | inr other ↦ KeepsCount-eq limit v db _ (more ∙ rw other (omega arith))
        | inl mine ↦
            let owner : uid ≡ v = ground arith in
            let grown : count_slots (create_slot db now uid label repo_id make_active).1 v
                ≡ count_slots db v + 1 =
              more ∙ rw mine refl in
            (λ h. omega (arith, ap (count_slots db) owner), λ h. omega arith)
      ]
    ]

pub set_active-count :
    (db : SlotDb) (now uid i v : ℕ) → count_slots (set_active db now uid i).1 v ≡ count_slots db v
unfolding set_active
set_active-count db now uid i v = elim (Bool-cases (any (slot_at uid i) db.user_agent_slots)) [
  | inr missing ↦ rw (missing, set_active) refl
  | inl found ↦
      rw (found, set_active)
        (count_slots-update_slots (slot_at uid i)
            (λ s. record s { is_active = true; updated_at = now }) (deactivate_all db uid) v
            (λ s. refl)
          ∙ count_slots-deactivate_all db uid v)
]

pub set_repo-count :
    (db : SlotDb) (i : ℕ) (k : Option ℕ) (f : SlotRow → SlotRow) (v : ℕ)
    → ((s : SlotRow) → (f s).tg_user_id ≡ s.tg_user_id)
    → count_slots (set_repo db i k f).1 v ≡ count_slots db v
unfolding set_repo
set_repo-count db i k f v user =
    elim (Bool-cases (any (slot_id_is i) db.user_agent_slots && not (has_repo db k))) [
      | inl bad ↦ rw (bad, set_repo) refl
      | inr good ↦ rw (good, set_repo) (count_slots-update_slots (slot_id_is i) f db v user)
    ]

pub update_runtime_config-count :
    (db : SlotDb) (now uid i : ℕ) (p : RuntimePatch) (v : ℕ)
    → count_slots (update_runtime_config db now uid i p).1 v ≡ count_slots db v
unfolding update_runtime_config with_config
update_runtime_config-count db now uid i p v =
    elim (Option-cases (find? (slot_at uid i) db.user_agent_slots)) [
      | inl missing ↦ rw (missing, update_runtime_config) refl
      | inr (row, found) ↦
          rw (found, update_runtime_config)
            (count_slots-update_slots (slot_at uid i) (with_config now row p) db v (λ s. refl))
    ]

activate_next-count :
    (db : SlotDb) (now uid v : ℕ) → count_slots (activate_next db now uid) v ≡ count_slots db v
unfolding activate_next
activate_next-count db now uid v = elim (Option-cases (next_slot (deactivate_all db uid) uid)) [
  | inl nothing ↦ rw (nothing, activate_next) (count_slots-deactivate_all db uid v)
  | inr (s, first) ↦
      rw (first, activate_next)
        (count_slots-update_slots (slot_id_is s.id)
            (λ x. record x { is_active = true; updated_at = now }) (deactivate_all db uid) v
            (λ x. refl)
          ∙ count_slots-deactivate_all db uid v)
]

-- A slot that is not the user's last is removed; other users' slots are not.
remove_slot-KeepsCount :
    (limit v : ℕ) (db : SlotDb) (uid i : ℕ)
    → IsUnique db
    → leb (count_slots db uid) 1 ≡ false
    → KeepsCount limit v db (remove_slot db uid i)
unfolding count_slots
remove_slot-KeepsCount limit v db uid i unique more = (
  λ h.
      omega (
        arith,
        length-filter-filter-le (slot_of v) (λ s. not (slot_at uid i s)) db.user_agent_slots,
      ),
  λ h. elim (Bool-cases (uid == v)) [
    | inl mine ↦
        let owner : uid ≡ v = ground arith in
        rw (← owner) (
          length-filter-any (slot_of uid) (remove_slot db uid i).user_agent_slots
            (others-left db uid i unique more))
    | inr other ↦ omega (
      arith,
      length-filter-filter_keep (slot_of v) (λ s. not (slot_at uid i s)) db.user_agent_slots
          (λ s mine. ground arith),
    )
  ],
)

pub delete_slot-KeepsCount :
    (limit v : ℕ) (db : SlotDb) (now uid i : ℕ)
    → IsUnique db
    → KeepsCount limit v db (delete_slot db now uid i).1
unfolding delete_slot
delete_slot-KeepsCount limit v db now uid i unique =
    elim (Bool-cases (leb (count_slots db uid) 1)) [
      | inl last ↦ rw (last, delete_slot) (λ h. h, λ h. h)
      | inr more ↦ elim (Option-cases (find? (slot_at uid i) db.user_agent_slots)) [
        | inl missing ↦ rw (more, missing, delete_slot) (λ h. h, λ h. h)
        | inr (row, found) ↦
            let (upper, lower) = remove_slot-KeepsCount limit v db uid i unique more in
            elim (Bool-cases row.is_active) [
              | inr off ↦ rw (more, found, off, delete_slot) (upper, lower)
              | inl on ↦
                  let same = activate_next-count (remove_slot db uid i) now uid v in
                  rw (more, found, on, delete_slot) (λ h. rw same (upper h), λ h. rw same (lower h))
            ]
      ]
    ]
