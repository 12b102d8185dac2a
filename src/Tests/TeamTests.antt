-- ===== src/Tests/TeamTests.antt =====
-- The requests on a team, at concrete inputs.
use notifymain_wa.Prelude.{
  ℕ, ◌≤◌, ◌≡◌, refl, true, false, none, some, List, [], ◌∷◌, count_where, arith,
}
use notifymain_wa.Text.{codes}
use notifymain_wa.Guards.{UserRole, tenant_owner, manager, agent}
use notifymain_wa.Team.{Member, TeamStore, TeamWorld, refused, last_owner}
use notifymain_wa.Team.Members.{is_owner, update_member_role}
use notifymain_wa.Team.Requests.{changing_role, removing, serve_team}
use notifymain_wa.Team.Owners.{serve_team-owner}

abbrev world : TeamWorld
world = record { now = λ n. n; new_id = λ n. n; random = λ n. []; hash = λ s. s }

abbrev member : ℕ → UserRole → Member
member id role = record {
  id = id;
  tenant_id = 7;
  email = codes "a@b";
  password_hash = [];
  first_name = [];
  last_name = [];
  role = role;
  manager_id = none;
  is_active = true;
  deleted_at = none;
}

abbrev team : List Member → TeamStore
team users = record {
  users = users;
  invitations = [];
  refresh_tokens = [];
  audit = [];
  emails = [];
  draws = 0;
}

abbrev two_owners : TeamStore
two_owners = team (
    member 1 tenant_owner
    ∷ member 2 tenant_owner
    ∷ member 3 manager
    ∷ record (member 4 agent) { manager_id = some 3 }
    ∷ [])

last_owner_stays :
    (update_member_role 7 3 1 agent (team (member 1 tenant_owner ∷ []))).0 ≡ refused last_owner
unfolding update_member_role
last_owner_stays = refl

agent_released :
    (serve_team world 7 1 (removing 3) two_owners).users
    ≡ member 1 tenant_owner
      ∷ member 2 tenant_owner
      ∷ record (member 3 manager) { is_active = false; deleted_at = some 0 }
      ∷ member 4 agent
      ∷ []
unfolding serve_team
agent_released = refl

serve_team-owner_example :
    1 ≤ count_where (is_owner 7) (serve_team world 7 2 (changing_role 1 agent) two_owners).users
serve_team-owner_example =
    serve_team-owner world 7 7 2 (changing_role 1 agent) two_owners
      (refl, (refl, (refl, (refl, tt)))) (omega arith)
