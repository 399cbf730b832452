-- ===== src/Authz/Hierarchy.antt =====
-- The rights of src/beachops/services/authz.py, by role.
use beachops.Base.{◌≡◌, refl, ◌⊎◌, inl, inr, ◌≢◌, ◌↔◌, true, Option, some, none, arith}
use beachops.Security.{Role, viewer, operator, owner, UserMode, ask, plan, do_mode}
use beachops.Authz.{has_role, can_read, can_write, can_approve, can_use_mode}

has_role_iff :
    (role : Option Role) (minimum : Role)
    → (has_role role minimum ≡ true)
      ↔ ((r : Role) × (role ≡ some r) × ((r ≡ minimum) ⊎ (r ≡ owner) ⊎ (minimum ≡ viewer)))
unfolding has_role
has_role_iff none minimum = (λ h. ground arith, λ h. ground arith)
has_role_iff (some viewer) viewer = (λ h. (viewer, refl, inl refl), λ h. refl)
has_role_iff (some viewer) operator = (λ h. ground arith, λ h. ground arith)
has_role_iff (some viewer) owner = (λ h. ground arith, λ h. ground arith)
has_role_iff (some operator) viewer = (λ h. (operator, refl, inr (inr refl)), λ h. refl)
has_role_iff (some operator) operator = (λ h. (operator, refl, inl refl), λ h. refl)
has_role_iff (some operator) owner = (λ h. ground arith, λ h. ground arith)
has_role_iff (some owner) minimum = (λ h. (owner, refl, inr (inl refl)), λ h. ground arith)

can_use_mode_iff :
    (role : Option Role) (mode : UserMode)
    → (can_use_mode role mode ≡ true)
      ↔ ((r : Role) × (role ≡ some r) × ((mode ≡ ask) ⊎ (r ≢ viewer)))
unfolding can_use_mode can_read can_write has_role
can_use_mode_iff none mode = (λ h. ground arith, λ h. ground arith)
can_use_mode_iff (some viewer) ask = (λ h. (viewer, refl, inl refl), λ h. refl)
can_use_mode_iff (some viewer) plan = (λ h. ground arith, λ h. ground arith)
can_use_mode_iff (some viewer) do_mode = (λ h. ground arith, λ h. ground arith)
can_use_mode_iff (some operator) mode =
    (λ h. (operator, refl, inr (λ e. ground arith)), λ h. ground arith)
can_use_mode_iff (some owner) mode =
    (λ h. (owner, refl, inr (λ e. ground arith)), λ h. ground arith)

can_approve_iff : (role : Option Role) → (can_approve role ≡ true) ↔ (role ≡ some owner)
unfolding can_approve
can_approve_iff none = (λ h. ground arith, λ h. ground arith)
can_approve_iff (some viewer) = (λ h. ground arith, λ h. ground arith)
can_approve_iff (some operator) = (λ h. ground arith, λ h. ground arith)
can_approve_iff (some owner) = (λ h. refl, λ h. refl)

-- Exactly who has which right. A role meets a minimum if it is that role, or the owner's, or the
-- minimum is the viewer's. Whoever has a role may use the mode ask, and everyone but a viewer the
-- modes plan and do. An owner, and nobody else, may approve. Without a role there is no right.
pub role_hierarchy :
    (role : Option Role) (minimum : Role) (mode : UserMode)
    → ((has_role role minimum ≡ true)
        ↔ ((r : Role) × (role ≡ some r) × ((r ≡ minimum) ⊎ (r ≡ owner) ⊎ (minimum ≡ viewer))))
      × ((can_use_mode role mode ≡ true)
          ↔ ((r : Role) × (role ≡ some r) × ((mode ≡ ask) ⊎ (r ≢ viewer))))
      × ((can_approve role ≡ true) ↔ (role ≡ some owner))
role_hierarchy role minimum mode =
    (has_role_iff role minimum, can_use_mode_iff role mode, can_approve_iff role)
