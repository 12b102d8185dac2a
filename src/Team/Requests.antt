-- ===== src/Team/Requests.antt =====
-- backend/src/team/team.controller.ts: the requests that change the team, each with its tenant and
-- the user who makes it.
use notifymain_wa.Prelude.{ℕ, Option}
use notifymain_wa.Text.{Str}
use notifymain_wa.Guards.{UserRole}
use notifymain_wa.Team.{
  TeamStore, TeamWorld, AcceptInvite, invite_member, accept_invite, resend_invite, revoke_invite,
}
use notifymain_wa.Team.Members.{update_member_role, set_member_manager, remove_member}

pub data TeamRequest : Type 0 where
  inviting : Str → UserRole → TeamRequest
  accepting : Str → AcceptInvite → TeamRequest
  resending revoking removing : ℕ → TeamRequest
  changing_role : ℕ → UserRole → TeamRequest
  assigning : ℕ → Option ℕ → TeamRequest

unfoldable pub serve_team : TeamWorld → (t actor : ℕ) → TeamRequest → TeamStore → TeamStore
unfolding invite_member accept_invite resend_invite revoke_invite update_member_role
    set_member_manager remove_member
serve_team w t actor (inviting email role) s = (invite_member w t actor email role s).1
serve_team w t actor (accepting token dto) s = (accept_invite w token dto s).1
serve_team w t actor (resending id) s = (resend_invite w t id s).1
serve_team w t actor (revoking id) s = (revoke_invite t id actor s).1
serve_team w t actor (removing id) s = (remove_member w t actor id s).1
serve_team w t actor (changing_role id role) s = (update_member_role t actor id role s).1
serve_team w t actor (assigning id m) s = (set_member_manager t actor id m s).1
