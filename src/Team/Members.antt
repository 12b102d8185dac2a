-- ===== src/Team/Members.antt =====
-- backend/src/team/team.service.ts: the roles of members, their managers and their removal.
use notifymain_wa.Prelude.{
  ℕ, suc, Bool, true, false, not, ◌&&◌, Option, none, some, is_some, List, [], ◌∷◌, ◌++◌, ◌==◌, leb,
  if◌then◌else◌, any, keep, map, find_first, count_where,
}
use notifymain_wa.Guards.{UserRole, tenant_owner, manager, agent, same_role}
use notifymain_wa.Team.{
  Member, RefreshToken, TeamEntry, role_changed, manager_changed, removed, unassigned, TeamStore,
  TeamWorld, own_role, user_not_found, last_owner, only_agents, no_such_manager, own_removal,
  owner_removal, Answer, done, refused, is_live, is_user, is_target, edit_users, log,
}

-- The live owners of a tenant.
abbrev pub is_owner : ℕ → Member → Bool
is_owner t u = (u.tenant_id == t) && same_role u.role tenant_owner && is_live u

-- `{ tenantId, managerId: … }`
abbrev pub reports_to : ℕ → ℕ → Member → Bool
reports_to t id u = (u.tenant_id == t) && elim u.manager_id [ none ↦ false | some m ↦ m == id ]

abbrev pub without_manager : Member → Member
without_manager u = record u { manager_id = none }

abbrev pub release : ℕ → ℕ → TeamStore → TeamStore
release t id s = edit_users (reports_to t id) without_manager s

-- One entry for each agent that loses the manager.
abbrev pub release_entries : ℕ → ℕ → ℕ → TeamStore → List TeamEntry
release_entries t actor id s =
    map (λ (u : Member). unassigned actor u.id id) (keep (reports_to t id) s.users)

-- What the update writes, for the target as it was read.
abbrev pub with_role : UserRole → Member → Member → Member
with_role role target u =
    if not (same_role target.role role) && not (same_role role agent) && is_some target.manager_id
    then record u { role = role; manager_id = none }
    else record u { role = role }

unfoldable pub write_role : ℕ → ℕ → UserRole → Member → TeamStore → TeamStore
write_role t actor role target s =
    let leaves = not (same_role target.role role) && same_role target.role manager in
    let entries = if leaves then release_entries t actor target.id s else [] in
    let released = if leaves then release t target.id s else s in
    let written = edit_users (is_user target.id) (with_role role target) released in
    record written {
      audit = written.audit ++ (role_changed actor target.id target.role role ∷ entries);
    }

unfoldable pub update_member_role :
    (t actor id : ℕ) → UserRole → TeamStore → Answer (Unit {0}) × TeamStore
unfolding write_role
update_member_role t actor id role s =
    if actor == id then (refused own_role, s) else elim (find_first (is_target t id) s.users) [
      | none ↦ (refused user_not_found, s)
      | some target ↦
          if same_role target.role tenant_owner && leb (count_where (is_owner t) s.users) 1
          then (refused last_owner, s)
          else (done tt, write_role t actor role target s)
    ]

abbrev pub is_lead : ℕ → ℕ → Member → Bool
is_lead t id u = is_target t id u && same_role u.role manager && u.is_active

abbrev pub with_manager : Option ℕ → Member → Member
with_manager m u = record u { manager_id = m }

abbrev pub has_lead : ℕ → Option ℕ → TeamStore → Bool
has_lead t none s = true
has_lead t (some m) s = any (is_lead t m) s.users

unfoldable pub set_member_manager :
    (t actor id : ℕ) → Option ℕ → TeamStore → Answer (Unit {0}) × TeamStore
set_member_manager t actor id m s = elim (find_first (is_target t id) s.users) [
  | none ↦ (refused user_not_found, s)
  | some target ↦
      if not (same_role target.role agent)
      then (refused only_agents, s)
      else if not (has_lead t m s)
      then (refused no_such_manager, s)
      else (
        done tt,
        log (manager_changed actor id target.manager_id m)
            (edit_users (is_user id) (with_manager m) s),
      )
]

abbrev pub as_removed : ℕ → Member → Member
as_removed now u = record u { is_active = false; deleted_at = some now }

unfoldable pub write_removal : TeamWorld → ℕ → ℕ → Member → TeamStore → TeamStore
write_removal w t actor target s =
    let leads = same_role target.role manager in
    let entries = if leads then release_entries t actor target.id s else [] in
    let released = if leads then release t target.id s else s in
    record (edit_users (is_user target.id) (as_removed (w.now s.draws)) released) {
      refresh_tokens = keep (λ (r : RefreshToken). not (r.user_id == target.id)) s.refresh_tokens;
      audit = s.audit ++ entries ++ (removed actor target.id ∷ []);
      draws = suc s.draws;
    }

unfoldable pub remove_member :
    TeamWorld → (t actor id : ℕ) → TeamStore → Answer (Unit {0}) × TeamStore
unfolding write_removal
remove_member w t actor id s =
    if actor == id then (refused own_removal, s) else elim (find_first (is_target t id) s.users) [
      | none ↦ (refused user_not_found, s)
      | some target ↦
          if same_role target.role tenant_owner
          then (refused owner_removal, s)
          else (done tt, write_removal w t actor target s)
    ]
