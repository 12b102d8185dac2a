-- ===== src/Team.antt =====
-- backend/src/team/team.service.ts: invitations, the roles of the members of a tenant and their
-- managers. The dashboard's listMembers and getMyAgentsPerformance are queries and left out.
pub mod Members
pub mod Requests
pub mod Losses
pub mod Owners
use notifymain_wa.Prelude.{
  ℕ, suc, ◌+◌, ◌*◌, Bool, true, false, not, ◌&&◌, ◌||◌, Option, none, some, is_some, List, [], ◌∷◌,
  ◌++◌, ◌==◌, ltb, leb, if◌then◌else◌, any, keep, map, find_first, update_where, count_where,
}
use notifymain_wa.Text.{Str, str_eq}
use notifymain_wa.Guards.{UserRole, tenant_owner, manager, agent, same_role}

pub record Member : Type 0 where
  pub id : ℕ
  pub tenant_id : ℕ
  pub email : Str
  pub password_hash : Str
  pub first_name : Str
  pub last_name : Str
  pub role : UserRole
  pub manager_id : Option ℕ
  pub is_active : Bool
  pub deleted_at : Option ℕ

pub record Invitation : Type 0 where
  pub id : ℕ
  pub tenant_id : ℕ
  pub invited_by_id : ℕ
  pub email : Str
  pub role : UserRole
  pub token : Str
  pub expires_at : ℕ
  pub accepted_at : Option ℕ

pub record RefreshToken : Type 0 where
  pub user_id : ℕ
  pub token : Str
  pub expires_at : ℕ

-- The entries of the audit log: who acted, and on whom.
pub data TeamEntry : Type 0 where
  invited joined revoked removed : (actor entity : ℕ) → TeamEntry
  role_changed : (actor entity : ℕ) → (before after : UserRole) → TeamEntry
  manager_changed : (actor entity : ℕ) → (before after : Option ℕ) → TeamEntry
  unassigned : (actor entity former : ℕ) → TeamEntry

pub record TeamStore : Type 0 where
  pub users : List Member
  pub invitations : List Invitation
  pub refresh_tokens : List RefreshToken
  pub audit : List TeamEntry
  pub emails : List (Str × Str)
  pub draws : ℕ

-- The clock, the ids of the database, randomBytes and bcrypt.
pub record TeamWorld : Type 0 where
  pub now : ℕ → ℕ
  pub new_id : ℕ → ℕ
  pub random : ℕ → Str
  pub hash : Str → Str

pub data TeamFailure : Type 0 where
  user_exists invitation_active invitation_not_found invitation_accepted invitation_expired :
      TeamFailure
  own_role user_not_found last_owner only_agents no_such_manager own_removal owner_removal :
      TeamFailure
  unique_key : TeamFailure

pub data Answer (A : Type 0) : Type 0 where
  done : A → Answer A
  refused : TeamFailure → Answer A

-- `INVITE_TTL_HOURS`, in milliseconds.
abbrev pub invite_ttl : ℕ
invite_ttl = 72 * 3600000

abbrev pub refresh_ttl : ℕ
refresh_ttl = 7 * 86400000

abbrev pub is_live : Member → Bool
is_live u = not (is_some u.deleted_at)

abbrev pub is_user : ℕ → Member → Bool
is_user id u = u.id == id

abbrev pub is_target : ℕ → ℕ → Member → Bool
is_target t id u = (u.id == id) && (u.tenant_id == t) && is_live u

abbrev pub invites : ℕ → Str → Invitation → Bool
invites t email i = (i.tenant_id == t) && str_eq i.email email

abbrev pub edit_users : (Member → Bool) → (Member → Member) → TeamStore → TeamStore
edit_users p f s = record s { users = update_where p f s.users }

abbrev pub log : TeamEntry → TeamStore → TeamStore
log e s = record s { audit = s.audit ++ e ∷ [] }

-- `invitation.create`, the email and the entry of the log.
abbrev pub send_invitation :
    TeamWorld → ℕ → ℕ → Str → UserRole → TeamStore → Answer Invitation × TeamStore
send_invitation w t by email role s =
    let i : Invitation = record {
      id = w.new_id s.draws;
      tenant_id = t;
      invited_by_id = by;
      email = email;
      role = role;
      token = w.random s.draws;
      expires_at = w.now s.draws + invite_ttl;
      accepted_at = none;
    } in
    (
      done i,
      record s {
        invitations = s.invitations ++ i ∷ [];
        emails = s.emails ++ (email, i.token) ∷ [];
        audit = s.audit ++ invited by i.id ∷ [];
        draws = suc s.draws;
      },
    )

abbrev pub is_pending : ℕ → Invitation → Bool
is_pending now i = not (is_some i.accepted_at) && ltb now i.expires_at

unfoldable pub invite_member :
    TeamWorld → ℕ → ℕ → Str → UserRole → TeamStore → Answer Invitation × TeamStore
invite_member w t by email role s =
    if any (λ u. (u.tenant_id == t) && str_eq u.email email && is_live u) s.users
    then (refused user_exists, s)
    else elim (find_first (invites t email) s.invitations) [
      | none ↦ send_invitation w t by email role s
      | some old ↦
          if is_pending (w.now s.draws) old
          then (refused invitation_active, s)
          else send_invitation w t by email role (record s {
            invitations = keep (λ (i : Invitation). not (i.id == old.id)) s.invitations;
          })
    ]

-- Why an invitation may not be used, if it may not.
abbrev pub check_invitation : ℕ → Option Invitation → Answer Invitation
check_invitation now none = refused invitation_not_found
check_invitation now (some i) =
    if is_some i.accepted_at
    then refused invitation_accepted
    else if ltb i.expires_at now
    then refused invitation_expired
    else done i

unfoldable pub validate_token : TeamWorld → Str → TeamStore → Answer Invitation
validate_token w token s =
    check_invitation (w.now s.draws)
      (find_first (λ (i : Invitation). str_eq i.token token) s.invitations)

pub record AcceptInvite : Type 0 where
  pub first_name : Str
  pub last_name : Str
  pub password : Str

abbrev pub new_member : TeamWorld → Invitation → AcceptInvite → ℕ → Member
new_member w i dto id = record {
  id = id;
  tenant_id = i.tenant_id;
  email = i.email;
  password_hash = w.hash dto.password;
  first_name = dto.first_name;
  last_name = dto.last_name;
  role = i.role;
  manager_id = none;
  is_active = true;
  deleted_at = none;
}

-- The transaction: the unique key on the tenant and the email counts deleted users too.
abbrev pub join :
    TeamWorld → AcceptInvite → Answer Invitation → TeamStore → Answer Member × TeamStore
join w dto (refused e) s = (refused e, s)
join w dto (done i) s =
    if any (λ u. (u.tenant_id == i.tenant_id) && str_eq u.email i.email) s.users
    then (refused unique_key, s)
    else let u = new_member w i dto (w.new_id s.draws) in
      (
        done u,
        record s {
          users = s.users ++ u ∷ [];
          invitations =
              update_where (λ (j : Invitation). j.id == i.id)
                (λ j. record j { accepted_at = some (w.now s.draws) }) s.invitations;
          refresh_tokens =
              s.refresh_tokens
              ++ record {
                user_id = u.id;
                token = w.random s.draws;
                expires_at = w.now s.draws + refresh_ttl;
              }
                ∷ [];
          audit = s.audit ++ joined u.id u.id ∷ [];
          draws = suc s.draws;
        },
      )

unfoldable pub accept_invite :
    TeamWorld → Str → AcceptInvite → TeamStore → Answer Member × TeamStore
unfolding validate_token
accept_invite w token dto s = join w dto (validate_token w token s) s

unfoldable pub resend_invite : TeamWorld → ℕ → ℕ → TeamStore → Answer (Unit {0}) × TeamStore
resend_invite w t id s =
    elim (find_first
      (λ (i : Invitation). (i.id == id) && (i.tenant_id == t) && not (is_some i.accepted_at))
      s.invitations) [
        | none ↦ (refused invitation_not_found, s)
        | some i ↦ (
          done tt,
          record s {
            invitations =
                update_where (λ (j : Invitation). j.id == id)
                  (λ j. record j {
                    token = w.random s.draws;
                    expires_at = w.now s.draws + invite_ttl;
                  })
                  s.invitations;
            emails = s.emails ++ (i.email, w.random s.draws) ∷ [];
            draws = suc s.draws;
          },
        )
      ]

unfoldable pub revoke_invite : ℕ → ℕ → ℕ → TeamStore → Answer (Unit {0}) × TeamStore
revoke_invite t id actor s =
    elim (find_first (λ (i : Invitation). (i.id == id) && (i.tenant_id == t)) s.invitations) [
      | none ↦ (refused invitation_not_found, s)
      | some i ↦ (
        done tt,
        log (revoked actor id)
            (record s { invitations = keep (λ (j : Invitation). not (j.id == id)) s.invitations }),
      )
    ]
