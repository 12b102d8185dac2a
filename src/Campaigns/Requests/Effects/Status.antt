-- ===== src/Campaigns/Requests/Effects/Status.antt =====
-- Requests that change the row of one campaign.
use notifymain_wa.Prelude.{
  ℕ, ◌≡◌, refl, ◌⊎◌, inl, inr, true, Option, none, some, arith, Option-cases, Bool-cases, or_else,
  not, ◌==◌,
}
use notifymain_wa.Campaigns.Data.{
  CampaignStatus, draft, scheduled, running, paused, completed, cancelled, Store,
}
use notifymain_wa.Campaigns.Actions.{World, bind_idle}
use notifymain_wa.Campaigns.Lookup.{
  find_campaign, is_editable, is_cancellable, find_session, session_ready, start_status,
}
use notifymain_wa.Campaigns.Lifecycle.{
  UpdateCampaignDto, breaks_column, status_update, check_session, update_campaign, launch_campaign,
  cancel_campaign,
}
use notifymain_wa.Campaigns.Requests.{
  Allowed, stays, unschedule, schedule, start, stop, Change, idle, edited,
}

cancellable : (a : CampaignStatus) → is_cancellable a ≡ true → (a ≡ running) ⊎ (a ≡ scheduled)
cancellable a h = ground arith

pub cancel_campaign-Change :
    (w : World) (t id u : ℕ) (s : Store) → Change w t s (cancel_campaign t id u s).1
unfolding cancel_campaign
cancel_campaign-Change w t id u s = elim (Option-cases (find_campaign s t id)) [
  | inl e ↦ rw e (idle refl refl (omega arith))
  | inr (c, e) ↦ rw e elim (Bool-cases (is_cancellable c.status)) [
    | inl h ↦ rw h (
        edited id c (λ d. record d { status = cancelled }) e (λ d. (refl, refl, refl))
          (stop (cancellable c.status h)) refl refl (omega arith))
    | inr h ↦ rw h (idle refl refl (omega arith))
  ]
]

start-Allowed :
    (a : CampaignStatus) (at : Option ℕ) → is_editable a ≡ true → Allowed a (start_status at)
start-Allowed a none h = start (ground arith)
start-Allowed draft (some at) h = schedule
start-Allowed scheduled (some at) h = stays
start-Allowed running (some at) h = cc
start-Allowed paused (some at) h = cc
start-Allowed completed (some at) h = cc
start-Allowed cancelled (some at) h = cc

update-Allowed :
    (a : CampaignStatus) (at : Option (Option ℕ)) → Allowed a (or_else (status_update a at) a)
update-Allowed scheduled none = stays
update-Allowed scheduled (some none) = unschedule
update-Allowed scheduled (some (some at)) = stays
update-Allowed draft at = stays
update-Allowed running at = stays
update-Allowed paused at = stays
update-Allowed completed at = stays
update-Allowed cancelled at = stays

pub launch_campaign-Change :
    (w : World) (t id u : ℕ) (s : Store) → Change w t s (launch_campaign w t id u s).1
unfolding launch_campaign
launch_campaign-Change w t id u s = elim (Option-cases (find_campaign s t id)) [
  | inl e ↦ rw e (idle refl refl (omega arith))
  | inr (c, e) ↦ rw e elim (Bool-cases (is_editable c.status)) [
    | inr h ↦ rw h (idle refl refl (omega arith))
    | inl h ↦ rw h elim (Bool-cases (not (c.total_contacts == 0))) [
      | inr empty ↦ rw empty (idle refl refl (omega arith))
      | inl some_contacts ↦
          rw some_contacts elim (Bool-cases (session_ready (find_session s t c.session_id))) [
            | inr off ↦ rw off (idle refl refl (omega arith))
            | inl on ↦ rw on (
                edited id c _ e (λ d. (refl, refl, refl)) (start-Allowed c.status c.scheduled_at h)
                  refl refl (omega arith))
          ]
    ]
  ]
]

check_session-idle : (t : ℕ) (id : Option ℕ) (s : Store) → (check_session t id s).1 ≡ s
unfolding check_session
check_session-idle t id s = ground arith

pub update_campaign-Change :
    (w : World) (t id : ℕ) (dto : UpdateCampaignDto) (s : Store)
    → Change w t s (update_campaign t id dto s).1
unfolding update_campaign
update_campaign-Change w t id dto s = elim (Option-cases (find_campaign s t id)) [
  | inl e ↦ rw e (idle refl refl (omega arith))
  | inr (c, e) ↦ rw e elim (Bool-cases (is_editable c.status)) [
    | inr h ↦ rw h (idle refl refl (omega arith))
    | inl h ↦ rw h (
        bind_idle (Change w t s) s (check_session t (or_else dto.session_id none) s) _
          (check_session-idle t (or_else dto.session_id none) s) (idle refl refl (omega arith))
          (λ _. elim (Bool-cases (breaks_column dto)) [
            | inl b ↦ rw b (idle refl refl (omega arith))
            | inr b ↦ rw b (
                edited id c _ e (λ d. (refl, refl, refl)) (update-Allowed c.status dto.scheduled_at)
                  refl refl (omega arith))
          ]))
  ]
]
