-- ===== src/Tests/GuardTests.antt =====
-- The theorems on the guards, for an administrator whose owner is away.
use notifymain_wa.Prelude.{ℕ, ◌≡◌, refl, ◌↔◌, true, Option, some, [], ◌∷◌}
use notifymain_wa.Guards.{tenant_owner, tenant_admin, User, Route, granted, roles_guard}
use notifymain_wa.Guards.Access.{MayEnter, roles_guard_iff}

abbrev owners_only : Route
owners_only = record { required_roles = some (tenant_owner ∷ []); allows_delegation = true }

abbrev admin : User
admin = record { tenant_id = 7; role = tenant_admin }

abbrev away : ℕ → Option (Option ℕ)
away tenant_id = some (some 20)

roles_guard_iff_example :
    (roles_guard owners_only (some admin) away 10 ≡ granted)
    ↔ MayEnter (tenant_owner ∷ []) true admin away 10
roles_guard_iff_example = roles_guard_iff owners_only (tenant_owner ∷ []) admin away 10 refl refl
