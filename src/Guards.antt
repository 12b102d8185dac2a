-- ===== src/Guards.antt =====
-- backend/src/common/guards: who may call a route of the backend. What the decorators of a route
-- say, the row of the tenant and the clock are given.
pub mod Access
use notifymain_wa.Prelude.{
  ℕ, Bool, true, false, ◌&&◌, ◌||◌, Option, none, some, List, [], ◌∷◌, ◌==◌, any, is_empty, ltb,
  if◌then◌else◌,
}

pub data UserRole : Type 0 where
  super_admin tenant_owner tenant_admin manager agent : UserRole

abbrev role_code : UserRole → ℕ
role_code super_admin = 0
role_code tenant_owner = 1
role_code tenant_admin = 2
role_code manager = 3
role_code agent = 4

-- `===` on two roles
abbrev pub same_role : UserRole → UserRole → Bool
same_role a b = role_code a == role_code b

pub record User : Type 0 where
  pub tenant_id : ℕ
  pub role : UserRole

-- The decorators `@Roles` and `@AllowDelegation` of a route.
pub record Route : Type 0 where
  pub required_roles : Option (List UserRole)
  pub allows_delegation : Bool

pub data Verdict : Type 0 where
  granted forbidden : Verdict

abbrev pub includes : List UserRole → UserRole → Bool
includes roles role = any (same_role role) roles

-- `tenant?.ownerAwayUntil && tenant.ownerAwayUntil > new Date()`; the outer option is the row.
abbrev pub owner_away : Option (Option ℕ) → ℕ → Bool
owner_away (some (some until)) now = ltb now until
owner_away _ now = false

-- The part of `canActivate` for a user and a list of roles that is not empty.
unfoldable pub check_role :
    List UserRole → Bool → User → (ℕ → Option (Option ℕ)) → (now : ℕ) → Verdict
check_role roles delegable user owner_away_until now =
    if same_role user.role super_admin
    then granted
    else if includes roles user.role
    then granted
    else if same_role user.role tenant_admin && includes roles tenant_owner
    then (if delegable && owner_away (owner_away_until user.tenant_id) now
        then granted
        else forbidden)
    else forbidden

-- `RolesGuard.canActivate`
unfoldable pub roles_guard : Route → Option User → (ℕ → Option (Option ℕ)) → (now : ℕ) → Verdict
unfolding check_role
roles_guard route user owner_away_until now = elim route.required_roles [
  | none ↦ granted
  | some roles ↦ if is_empty roles then granted else elim user [
    | none ↦ forbidden
    | some u ↦ check_role roles route.allows_delegation u owner_away_until now
  ]
]

-- `TenantGuard.canActivate`
unfoldable pub tenant_guard : (tenant_id : Option ℕ) → Option User → Verdict
tenant_guard none user = forbidden
tenant_guard (some tenant_id) none = forbidden
tenant_guard (some tenant_id) (some user) =
    if user.tenant_id == tenant_id then granted else forbidden
