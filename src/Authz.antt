-- ===== src/Authz.antt =====
-- Who may do what: src/beachops/services/authz.py. An exception is `false` of the `require` tests.
pub mod Hierarchy
use beachops.Base.{ℕ, Bool, true, false, not, ◌&&◌, Option, none, some, leb}
use beachops.Security.{Role, viewer, operator, owner, UserMode, ask}

unfoldable pub role_rank : Role → ℕ
role_rank viewer = 10
role_rank operator = 20
role_rank owner = 30

unfoldable pub role_eq : Role → Role → Bool
role_eq viewer viewer = true
role_eq operator operator = true
role_eq owner owner = true
role_eq _ _ = false

unfoldable pub has_role : Option Role → Role → Bool
unfolding role_rank
has_role none minimum = false
has_role (some role) minimum = leb (role_rank minimum) (role_rank role)

unfoldable pub can_read : Option Role → Bool
unfolding has_role
can_read role = has_role role viewer

unfoldable pub can_write : Option Role → Bool
unfolding has_role
can_write role = has_role role operator

unfoldable pub can_approve : Option Role → Bool
unfolding role_eq
can_approve none = false
can_approve (some role) = role_eq role owner

unfoldable pub can_use_mode : Option Role → UserMode → Bool
unfolding can_read can_write
can_use_mode role ask = can_read role
can_use_mode role _ = can_write role

-- `require_role` and `require_owner` raise AuthorizationError where these are `false`.
unfoldable pub require_role : Option Role → Role → Bool
unfolding has_role
require_role role minimum = has_role role minimum

unfoldable pub require_owner : Option Role → Bool
unfolding can_approve
require_owner role = can_approve role
