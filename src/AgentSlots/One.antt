-- ===== src/AgentSlots/One.antt =====
-- The active slots of a user, under the writes of src/beachops/db/repositories/agent_slots.py.
use beachops.Base.{
  ℕ, ◌==◌, ◌≡◌, refl, sym, ap, All-update_where_each, All-map₂, inl, inr, Bool, true, false, not,
  ◌&&◌, Option, some, List, Text, All, All-update_where, All-update_where_kept, All-map, All-every,
  All-append, All-filter, All-head, All-sort_by, filter-All, Distinct-alone, any, find?, leb,
  update_where, Bool-cases, Option-cases, arith,
}
use beachops.AgentSlots.{
  SlotRow, SlotDb, slot_of, slot_at, update_slots, with_active, deactivate_all, create_slot,
  set_active, has_repo, count_slots,
}
use beachops.AgentSlots.Config.{slot_id_is}
use beachops.AgentSlots.Delete.{next_slot, activate_next, remove_slot, delete_slot}
use beachops.AgentSlots.Unique.{
  IsUnique, same_slot, same_slot_comm, Rewrites-IsUnique, deactivate_all-Rewrites, removed,
}

-- If the row is an active slot of `v`, then it is the slot `k`.
abbrev pub IsOnly : (v k : ℕ) → SlotRow → Type 0
IsOnly v k s = s.tg_user_id ≡ v → s.is_active ≡ true → s.id ≡ k

-- Every active slot of `v` is one and the same.
abbrev pub IsOneActive : ℕ → SlotDb → Type 0
IsOneActive v db = (k : ℕ) × All (IsOnly v k) db.user_agent_slots

-- An update that keeps owner, identifier and flag.
pub update_slots-IsOneActive :
    (v : ℕ) (p : SlotRow → Bool) (f : SlotRow → SlotRow) (db : SlotDb)
    → ((s : SlotRow) → (f s).tg_user_id ≡ s.tg_user_id)
    → ((s : SlotRow) → (f s).id ≡ s.id)
    → ((s : SlotRow) → (f s).is_active ≡ s.is_active)
    → IsOneActive v db
    → IsOneActive v (update_slots p f db)
unfolding update_slots
update_slots-IsOneActive v p f db user id active (k, one) = (
  k,
  All-update_where_kept (IsOnly v k) p f db.user_agent_slots
      (λ s h owns on. ground (arith, user s, id s, active s)) one,
)

deactivate_all-IsOnly :
    (v k uid : ℕ) (db : SlotDb)
    → All (IsOnly v k) db.user_agent_slots
    → All (IsOnly v k) (deactivate_all db uid).user_agent_slots
unfolding deactivate_all update_slots
deactivate_all-IsOnly v k uid db one =
    All-update_where (IsOnly v k) (slot_of uid) (with_active false) db.user_agent_slots
      (λ s mine owns on. absurd (ground arith))
      (All-map (IsOnly v k) (λ s. slot_of uid s ≡ false → IsOnly v k s) (λ s h other. h)
        db.user_agent_slots one)

-- After `deactivate_all`, the user has no active slot.
deactivate_all-none :
    (k uid : ℕ) (db : SlotDb) → All (IsOnly uid k) (deactivate_all db uid).user_agent_slots
unfolding deactivate_all update_slots
deactivate_all-none k uid db =
    All-update_where (IsOnly uid k) (slot_of uid) (with_active false) db.user_agent_slots
      (λ s mine owns on. absurd (ground arith))
      (All-every (λ s. slot_of uid s ≡ false → IsOnly uid k s)
        (λ s other owns on. absurd (ground arith)) db.user_agent_slots)

same_user : (u v : ℕ) → (u == v) ≡ true → u ≡ v
same_user u v h = ground arith

-- Slots of `v` are activated only if they are the slot `k`.
activate-IsOnly :
    (v k : ℕ) (p : SlotRow → Bool) (f : SlotRow → SlotRow) (rows : List SlotRow)
    → ((s : SlotRow) → p s ≡ true → s.tg_user_id ≡ v → s.id ≡ k)
    → ((s : SlotRow) → (f s).tg_user_id ≡ s.tg_user_id)
    → ((s : SlotRow) → (f s).id ≡ s.id)
    → All (IsOnly v k) rows
    → All (IsOnly v k) (update_where p f rows)
activate-IsOnly v k p f rows aim user id one =
    All-update_where (IsOnly v k) p f rows
      (λ s hit owns on. ground (arith, aim s hit, user s, id s))
      (All-map (IsOnly v k) (λ s. p s ≡ false → IsOnly v k s) (λ s h other. h) rows one)

pub create_slot-IsOneActive :
    (v : ℕ) (db : SlotDb) (now uid : ℕ) (label : Text) (repo_id : Option ℕ) (make_active : Bool)
    → IsOneActive v db
    → IsOneActive v (create_slot db now uid label repo_id make_active).1
unfolding create_slot
create_slot-IsOneActive v db now uid label repo_id make_active (k, one) =
    elim (Bool-cases (any (λ u. u == uid) db.users && has_repo db repo_id)) [
      | inr refused ↦ (k, rw (refused, create_slot) one)
      | inl known ↦ elim (Bool-cases make_active) [
        | inr off ↦ (
          k,
          rw (known, off, create_slot)
              (All-append (IsOnly v k) db.user_agent_slots _ one
                ((λ owns on. absurd (ground arith)), tt)),
        )
        | inl on ↦ elim (Bool-cases (uid == v)) [
          | inl mine ↦ (
            db.next_slot_id,
            rw (known, on, create_slot)
                (All-append (IsOnly v db.next_slot_id) (deactivate_all db uid).user_agent_slots _
                  (rw (sym (same_user uid v mine)) (deactivate_all-none db.next_slot_id uid db))
                  ((λ owns is_on. refl), tt)),
          )
          | inr other ↦ (
            k,
            rw (known, on, create_slot)
                (All-append (IsOnly v k) (deactivate_all db uid).user_agent_slots _
                  (deactivate_all-IsOnly v k uid db one)
                  ((λ owns is_on. absurd (ground arith)), tt)),
          )
        ]
      ]
    ]

pub set_active-IsOneActive :
    (v : ℕ) (db : SlotDb) (now uid i : ℕ)
    → IsOneActive v db
    → IsOneActive v (set_active db now uid i).1
unfolding set_active update_slots
set_active-IsOneActive v db now uid i (k, one) =
    elim (Bool-cases (any (slot_at uid i) db.user_agent_slots)) [
      | inr missing ↦ (k, rw (missing, set_active) one)
      | inl found ↦ elim (Bool-cases (uid == v)) [
        | inl mine ↦ (
          i,
          rw (found, set_active)
              (activate-IsOnly v i (slot_at uid i)
                (λ s. record s { is_active = true; updated_at = now }) _
                (λ s hit owns. ground arith) (λ s. refl) (λ s. refl)
                (rw (sym (same_user uid v mine)) (deactivate_all-none i uid db))),
        )
        | inr other ↦ (
          k,
          rw (found, set_active)
              (activate-IsOnly v k (slot_at uid i)
                (λ s. record s { is_active = true; updated_at = now }) _
                (λ s hit owns. absurd (ground arith)) (λ s. refl) (λ s. refl)
                (deactivate_all-IsOnly v k uid db one)),
        )
      ]
    ]

pub next_slot-All :
    (P : SlotRow → Type 0) (db : SlotDb) (uid : ℕ) (s : SlotRow)
    → All P db.user_agent_slots
    → next_slot db uid ≡ some s
    → P s × (slot_of uid s ≡ true)
unfolding next_slot
next_slot-All P db uid s all first = (
  All-head P _ (All-sort_by P _ _ (All-filter P (slot_of uid) db.user_agent_slots all)) first,
  All-head (λ x. slot_of uid x ≡ true) _
      (All-sort_by (λ x. slot_of uid x ≡ true) _ _ (filter-All (slot_of uid) db.user_agent_slots))
      first,
)

pub not_mine :
    (v uid : ℕ) (s x : SlotRow)
    → slot_of uid s ≡ true
    → (uid == v) ≡ false
    → x ≡ s
    → x.tg_user_id ≡ v
    → ⊥
not_mine v uid s x mine other same owns =
    let user : x.tg_user_id ≡ s.tg_user_id = ap (λ (r : SlotRow). r.tg_user_id) same in ground arith

-- The slot that is activated is the user's, and no other has its identifier.
activate_next-IsOneActive :
    (v : ℕ) (db : SlotDb) (now uid : ℕ)
    → IsUnique db
    → IsOneActive v db
    → IsOneActive v (activate_next db now uid)
unfolding activate_next update_slots
activate_next-IsOneActive v db now uid unique (k, one) =
    let off = deactivate_all db uid in
    elim (Option-cases (next_slot off uid)) [
      | inl nothing ↦ (k, rw (nothing, activate_next) (deactivate_all-IsOnly v k uid db one))
      | inr (s, first) ↦
          let ids =
            Distinct-alone same_slot off.user_agent_slots (λ x. ground arith) same_slot_comm
              (Rewrites-IsUnique (deactivate_all-Rewrites db uid) unique).ids in
          let (alone, mine) =
            next_slot-All (λ x. All (λ y. same_slot x y ≡ true → y ≡ x) off.user_agent_slots) off
              uid s ids first in
          elim (Bool-cases (uid == v)) [
            | inl same ↦ (
              s.id,
              rw (first, activate_next)
                  (activate-IsOnly v s.id (slot_id_is s.id)
                    (λ x. record x { is_active = true; updated_at = now }) _
                    (λ x hit owns. ground arith) (λ x. refl) (λ x. refl)
                    (rw (sym (same_user uid v same)) (deactivate_all-none s.id uid db))),
            )
            | inr other ↦ (
              k,
              rw (first, activate_next)
                  (All-update_where_each (IsOnly v k) (slot_id_is s.id)
                    (λ x. record x { is_active = true; updated_at = now }) off.user_agent_slots
                    (All-map₂ (λ y. same_slot s y ≡ true → y ≡ s) (IsOnly v k)
                      (λ x.
                        (slot_id_is s.id x ≡ true
                          → IsOnly v k (record x { is_active = true; updated_at = now }))
                        × (slot_id_is s.id x ≡ false → IsOnly v k x))
                      (λ x same only. (
                        (λ hit owns on. absurd (not_mine v uid s x mine other (same hit) owns)),
                        (λ miss. only),
                      ))
                      off.user_agent_slots alone (deactivate_all-IsOnly v k uid db one))),
            )
          ]
    ]

pub delete_slot-IsOneActive :
    (v : ℕ) (db : SlotDb) (now uid i : ℕ)
    → IsUnique db
    → IsOneActive v db
    → IsOneActive v (delete_slot db now uid i).1
unfolding delete_slot
delete_slot-IsOneActive v db now uid i unique (k, one) =
    let left : IsOneActive v (remove_slot db uid i) =
      (k, All-filter (IsOnly v k) (λ s. not (slot_at uid i s)) db.user_agent_slots one) in
    elim (Bool-cases (leb (count_slots db uid) 1)) [
      | inl last ↦ (k, rw (last, delete_slot) one)
      | inr more ↦ elim (Option-cases (find? (slot_at uid i) db.user_agent_slots)) [
        | inl missing ↦ (k, rw (more, missing, delete_slot) one)
        | inr (row, found) ↦ elim (Bool-cases row.is_active) [
          | inr off ↦ rw (more, found, off, delete_slot) left
          | inl on ↦
              rw (more, found, on, delete_slot)
                (activate_next-IsOneActive v (remove_slot db uid i) now uid
                  (Rewrites-IsUnique (removed db uid i) unique) left)
        ]
      ]
    ]
