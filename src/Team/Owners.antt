-- ===== src/Team/Owners.antt =====
-- A tenant keeps an owner.
use notifymain_wa.Prelude.{
  ℕ, ◌≤◌, ◌≡◌, refl, sym, ◌∙◌, &&-parts, inl, inr, true, false, not, ◌&&◌, Option, is_some, List,
  [], ◌∷◌, ◌==◌, ==_iff, leb, any, find_first, count_where, count_where-append,
  count_where-update_where, arith, Bool-cases, Option-cases,
}
use notifymain_wa.Text.{Str, str_eq}
use notifymain_wa.Guards.{UserRole, tenant_owner, manager, agent, same_role}
use notifymain_wa.Team.{
  Member, Invitation, TeamStore, TeamWorld, AcceptInvite, Answer, done, refused, is_live, is_user,
  is_target, new_member, invites, is_pending, invite_member, validate_token, join, accept_invite,
  resend_invite, revoke_invite,
}
use notifymain_wa.Team.Members.{
  is_owner, with_role, write_role, update_member_role, with_manager, has_lead, set_member_manager,
  as_removed, write_removal, remove_member,
}
use notifymain_wa.Team.Requests.{
  TeamRequest, inviting, accepting, resending, revoking, removing, changing_role, assigning,
  serve_team,
}
use notifymain_wa.Team.Losses.{
  IsKeyed, count_where-one, count_where-found, write_loss, target_tenant,
}

-- An owner that passes the guard has another one beside it.
many_owners :
    (t' t : ℕ) (c : Member) (us : List Member)
    → is_owner t' c ≡ true
    → c.tenant_id ≡ t
    → (same_role c.role tenant_owner && leb (count_where (is_owner t) us) 1) ≡ false
    → 2 ≤ count_where (is_owner t') us
many_owners t' t c us o own g =
    let (first, live) =
      &&-parts ((c.tenant_id == t') && same_role c.role tenant_owner) (is_live c) o in
    let (here, role) = &&-parts (c.tenant_id == t') (same_role c.role tenant_owner) first in
    let mine : t' ≡ t = sym ((==_iff c.tenant_id t').0 here) ∙ own in
    let enough : leb (count_where (is_owner t) us) 1 ≡ false = rw role at g in
    rw mine (ground arith)

update_member_role-owner :
    (t' t actor id : ℕ) (role : UserRole) (s : TeamStore)
    → IsKeyed s.users
    → 1 ≤ count_where (is_owner t') s.users
    → 1 ≤ count_where (is_owner t') (update_member_role t actor id role s).1.users
unfolding update_member_role write_role
update_member_role-owner t' t actor id role s k h = elim (Bool-cases (actor == id)) [
  | inl e ↦ rw (update_member_role, e) h
  | inr e ↦ elim (Option-cases (find_first (is_target t id) s.users)) [
    | inl f ↦ rw (update_member_role, e, f) h
    | inr (c, f) ↦
        elim (Bool-cases
          (same_role c.role tenant_owner && leb (count_where (is_owner t) s.users) 1)) [
            | inl g ↦ rw (update_member_role, e, f, g) h
            | inr g ↦
                let leaves = not (same_role c.role role) && same_role c.role manager in
                let loss = write_loss t' t c.id leaves (with_role role c) s in
                rw (update_member_role, e, f, g)
                  (elim (Bool-cases (is_owner t' c)) [
                    | inr o ↦
                        let none_lost =
                          count_where-found (is_target t id) (is_owner t') c s.users k f o in
                        omega arith
                    | inl o ↦
                        let two = many_owners t' t c s.users o (target_tenant t id s c f).0 g in
                        let one = count_where-one c.id (is_owner t') s.users k in omega arith
                  ])
          ]
  ]
]

set_member_manager-owner :
    (t' t actor id : ℕ) (m : Option ℕ) (s : TeamStore)
    → 1 ≤ count_where (is_owner t') s.users
    → 1 ≤ count_where (is_owner t') (set_member_manager t actor id m s).1.users
unfolding set_member_manager
set_member_manager-owner t' t actor id m s h =
    elim (Option-cases (find_first (is_target t id) s.users)) [
      | inl e ↦ rw (set_member_manager, e) h
      | inr (c, e) ↦ elim (Bool-cases (same_role c.role agent)) [
        | inr f ↦ rw (set_member_manager, e, f) h
        | inl f ↦ elim (Bool-cases (has_lead t m s)) [
          | inr g ↦ rw (set_member_manager, e, f, g) h
          | inl g ↦
              let same =
                count_where-update_where (is_owner t') (is_user id) (with_manager m) s.users
                  (λ u. refl) in
              rw (set_member_manager, e, f, g) (omega arith)
        ]
      ]
    ]

remove_member-owner :
    (w : TeamWorld) (t' t actor id : ℕ) (s : TeamStore)
    → IsKeyed s.users
    → 1 ≤ count_where (is_owner t') s.users
    → 1 ≤ count_where (is_owner t') (remove_member w t actor id s).1.users
unfolding remove_member write_removal
remove_member-owner w t' t actor id s k h = elim (Bool-cases (actor == id)) [
  | inl e ↦ rw (remove_member, e) h
  | inr e ↦ elim (Option-cases (find_first (is_target t id) s.users)) [
    | inl f ↦ rw (remove_member, e, f) h
    | inr (c, f) ↦ elim (Bool-cases (same_role c.role tenant_owner)) [
      | inl g ↦ rw (remove_member, e, f, g) h
      | inr g ↦
          let loss =
            write_loss t' t c.id (same_role c.role manager) (as_removed (w.now s.draws)) s in
          let plain : is_owner t' c ≡ false = ground arith in
          let none_lost = count_where-found (is_target t id) (is_owner t') c s.users k f plain in
          rw (remove_member, e, f, g) (omega arith)
    ]
  ]
]

join-owner :
    (w : TeamWorld) (t' : ℕ) (dto : AcceptInvite) (a : Answer Invitation) (s : TeamStore)
    → 1 ≤ count_where (is_owner t') s.users
    → 1 ≤ count_where (is_owner t') (join w dto a s).1.users
join-owner w t' dto (refused e) s h = h
join-owner w t' dto (done i) s h =
    elim (Bool-cases (any (λ u. (u.tenant_id == i.tenant_id) && str_eq u.email i.email) s.users)) [
      | inl e ↦ rw e h
      | inr e ↦
          let added =
            count_where-append (is_owner t') s.users (new_member w i dto (w.new_id s.draws) ∷ []) in
          rw e (omega arith)
    ]

invite_member-users :
    (w : TeamWorld) (t actor : ℕ) (email : Str) (role : UserRole) (s : TeamStore)
    → (invite_member w t actor email role s).1.users ≡ s.users
unfolding invite_member
invite_member-users w t actor email role s =
    elim (Bool-cases (any (λ u. (u.tenant_id == t) && str_eq u.email email && is_live u) s.users)) [
      | inl e ↦ rw (invite_member, e)
      | inr e ↦ elim (Option-cases (find_first (invites t email) s.invitations)) [
        | inl f ↦ rw (invite_member, e, f)
        | inr (i, f) ↦ elim (Bool-cases (is_pending (w.now s.draws) i)) [
          | inl g ↦ rw (invite_member, e, f, g)
          | inr g ↦ rw (invite_member, e, f, g)
        ]
      ]
    ]

resend_invite-users :
    (w : TeamWorld) (t id : ℕ) (s : TeamStore) → (resend_invite w t id s).1.users ≡ s.users
unfolding resend_invite
resend_invite-users w t id s =
    elim (Option-cases (
      find_first
        (λ (i : Invitation). (i.id == id) && (i.tenant_id == t) && not (is_some i.accepted_at))
        s.invitations)) [ inl e ↦ rw (resend_invite, e) | inr (i, e) ↦ rw (resend_invite, e) ]

revoke_invite-users :
    (t id actor : ℕ) (s : TeamStore) → (revoke_invite t id actor s).1.users ≡ s.users
unfolding revoke_invite
revoke_invite-users t id actor s =
    elim (Option-cases
      (find_first (λ (i : Invitation). (i.id == id) && (i.tenant_id == t)) s.invitations)) [
        | inl e ↦ rw (revoke_invite, e)
        | inr (i, e) ↦ rw (revoke_invite, e)
      ]

-- Where no two users have the same id, a tenant that has an owner who is not deleted still has one
-- after any request on a team, of this tenant or of another.
pub serve_team-owner :
    (w : TeamWorld) (t' t actor : ℕ) (q : TeamRequest) (s : TeamStore)
    → IsKeyed s.users
    → 1 ≤ count_where (is_owner t') s.users
    → 1 ≤ count_where (is_owner t') (serve_team w t actor q s).users
unfolding serve_team accept_invite
serve_team-owner w t' t actor (inviting email role) s k h =
    rw (invite_member-users w t actor email role s) h
serve_team-owner w t' t actor (accepting token dto) s k h =
    join-owner w t' dto (validate_token w token s) s h
serve_team-owner w t' t actor (resending id) s k h = rw (resend_invite-users w t id s) h
serve_team-owner w t' t actor (revoking id) s k h = rw (revoke_invite-users t id actor s) h
serve_team-owner w t' t actor (removing id) s k h = remove_member-owner w t' t actor id s k h
serve_team-owner w t' t actor (changing_role id role) s k h =
    update_member_role-owner t' t actor id role s k h
serve_team-owner w t' t actor (assigning id m) s k h = set_member_manager-owner t' t actor id m s h
