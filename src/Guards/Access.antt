-- ===== src/Guards/Access.antt =====
-- Who may call a route that names roles.
use notifymain_wa.Prelude.{
  ℕ, ◌<◌, ◌≡◌, refl, ◌⊎◌, ◌↔◌, inl, inr, Bool, true, false, Option, none, some, List, arith,
  is_empty, Bool-cases,
}
use notifymain_wa.Guards.{
  UserRole, super_admin, tenant_owner, tenant_admin, User, Route, granted, includes, same_role,
  owner_away, check_role, roles_guard, tenant_guard,
}

-- An administrator stands in for an owner who is away.
pub record StandsIn (roles : List UserRole) (delegable : Bool) (u : User)
    (owner_away_until : ℕ → Option (Option ℕ)) (now : ℕ) : Type 0 where
  pub is_admin : u.role ≡ tenant_admin
  pub owner_route : includes roles tenant_owner ≡ true
  pub opted_in : delegable ≡ true
  pub until : (at : ℕ) × (owner_away_until u.tenant_id ≡ some (some at)) × (now < at)

same_role-≡ : (a b : UserRole) → same_role a b ≡ true → a ≡ b
same_role-≡ a b h = ground arith

owner_away-later :
    (row : Option (Option ℕ)) (now : ℕ)
    → owner_away row now ≡ true
    → (at : ℕ) × (row ≡ some (some at)) × (now < at)
owner_away-later none now h = cc
owner_away-later (some none) now h = cc
owner_away-later (some (some at)) now h = (at, refl, ground arith)

-- Who may enter a route that names roles.
abbrev pub MayEnter : List UserRole → Bool → User → (ℕ → Option (Option ℕ)) → ℕ → Type 0
MayEnter roles delegable u owner_away_until now =
    (u.role ≡ super_admin)
    ⊎ (includes roles u.role ≡ true)
    ⊎ StandsIn roles delegable u owner_away_until now

check_role-MayEnter :
    (roles : List UserRole) (delegable : Bool) (u : User) (owner_away_until : ℕ → Option (Option ℕ))
    (now : ℕ)
    → check_role roles delegable u owner_away_until now ≡ granted
    → MayEnter roles delegable u owner_away_until now
unfolding check_role
check_role-MayEnter roles delegable u owner_away_until now h =
    elim (Bool-cases (same_role u.role super_admin)) [
      | inl e ↦ inl (same_role-≡ u.role super_admin e)
      | inr e ↦ elim (Bool-cases (includes roles u.role)) [
        | inl k ↦ inr (inl k)
        | inr k ↦ inr (
            inr (record {
              is_admin = same_role-≡ u.role tenant_admin (ground arith);
              owner_route = ground arith;
              opted_in = ground arith;
              until = owner_away-later (owner_away_until u.tenant_id) now (ground arith);
            }))
      ]
    ]

MayEnter-granted :
    (roles : List UserRole) (delegable : Bool) (u : User) (owner_away_until : ℕ → Option (Option ℕ))
    (now : ℕ)
    → MayEnter roles delegable u owner_away_until now
    → check_role roles delegable u owner_away_until now ≡ granted
unfolding check_role
MayEnter-granted roles delegable u owner_away_until now (inl e) = rw e refl
MayEnter-granted roles delegable u owner_away_until now (inr (inl e)) = ground arith
MayEnter-granted roles delegable u owner_away_until now (inr (inr s)) =
    let (at, row, later) = s.until in
    let away : owner_away (owner_away_until u.tenant_id) now ≡ true = rw row (ground arith) in
    ground (arith, s.is_admin, s.owner_route, s.opted_in, away)

-- A user is let into a route that names roles exactly if the user is a SUPER_ADMIN, has one of the
-- roles, or is a TENANT_ADMIN at a route for the TENANT_OWNER that allows delegation while the
-- owner of the tenant is away.
pub roles_guard_iff :
    (route : Route) (roles : List UserRole) (u : User) (owner_away_until : ℕ → Option (Option ℕ))
    (now : ℕ)
    → route.required_roles ≡ some roles
    → is_empty roles ≡ false
    → (roles_guard route (some u) owner_away_until now ≡ granted)
      ↔ MayEnter roles route.allows_delegation u owner_away_until now
unfolding roles_guard
roles_guard_iff route roles u owner_away_until now named some_role = rw (named) (
    rw some_role (
      check_role-MayEnter roles route.allows_delegation u owner_away_until now,
      MayEnter-granted roles route.allows_delegation u owner_away_until now,
    ))

-- A request is let through to a tenant exactly if there is a user, and it is that user's tenant.
pub tenant_guard_iff :
    (tenant_id : Option ℕ) (user : Option User)
    → (tenant_guard tenant_id user ≡ granted)
      ↔ ((u : User) × (user ≡ some u) × (tenant_id ≡ some u.tenant_id))
unfolding tenant_guard
tenant_guard_iff none user = (λ h. cc, λ (u, e, k). cc)
tenant_guard_iff (some t) none = (λ h. cc, λ (u, e, k). cc)
tenant_guard_iff (some t) (some u) = (λ h. (u, refl, ground arith), λ (v, e, k). ground arith)
