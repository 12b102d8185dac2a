-- ===== src/Campaigns/Requests/Effects.antt =====
-- The changes that requests make.
mod Status
mod Rows
mod Creating
use notifymain_wa.Prelude.{
  ℕ, suc, ◌+◌, ◌≤◌, ◌≡◌, refl, ◌⊎◌, inl, inr, Bool, true, false, Option, none, some, List, [], ◌∷◌,
  ◌++◌, arith, Option-cases, Bool-cases, or_else, ltb, if◌then◌else◌, map, length, length-map,
  ==_iff, keep, ap, sym, ◌∙◌, update_where, not, ◌==◌, is_empty,
}
use mathlib.Core.Path.{fun_ext}
use notifymain_wa.Text.{Str}
use notifymain_wa.Campaigns.Data.{
  CampaignStatus, draft, scheduled, running, paused, completed, cancelled, Campaign, Store,
}
use notifymain_wa.Campaigns.Actions.{World, ok, Result-cases, bind_idle}
use notifymain_wa.Campaigns.Lookup.{
  is_campaign, find_campaign, is_editable, is_cancellable, is_completed, is_connected, find_session,
  session_ready, start_status,
}
use notifymain_wa.Campaigns.Recipients.{
  Recipient, NewContact, insert_new, resolve_recipients, of_recipient,
}
use native.Mathlib.Nat.{add-zero}
use notifymain_wa.Campaigns.Creation.{
  CreateCampaignDto, new_campaign, create_campaign, clone_campaign,
}
use notifymain_wa.Campaigns.Lifecycle.{
  UpdateCampaignDto, status_update, check_session, update_campaign, launch_campaign,
  cancel_campaign,
}
use notifymain_wa.Campaigns.Audience.{
  RecipientRow, add_rows, scan_rows, is_failed_of, add_contacts_to_campaign,
  import_campaign_recipients, retry_failed_campaign,
}
use notifymain_wa.Campaigns.Requests.{
  Request, create, clone, update, launch, cancel, add_contacts, import_csv, retry_failed, serve,
  inserted, grow, Allowed, stays, unschedule, schedule, start, stop, Change, idle, created, edited,
  extended, reset,
}
use notifymain_wa.Campaigns.Requests.Effects.Status.{
  cancel_campaign-Change, launch_campaign-Change, update_campaign-Change,
}
use notifymain_wa.Campaigns.Requests.Effects.Rows.{
  retry_failed_campaign-Change, clone_campaign-Change, add_contacts_to_campaign-Change,
  import_campaign_recipients-Change,
}
use notifymain_wa.Campaigns.Requests.Effects.Creating.{create_campaign-Change}

-- Every request makes a change of one of the kinds.
pub serve-Change : (w : World) (t u : ℕ) (q : Request) (s : Store) → Change w t s (serve w t u q s)
unfolding serve
serve-Change w t u (create dto) s = create_campaign-Change w t u dto s
serve-Change w t u (clone id) s = clone_campaign-Change w t id u s
serve-Change w t u (update id dto) s = update_campaign-Change w t id dto s
serve-Change w t u (launch id) s = launch_campaign-Change w t id u s
serve-Change w t u (cancel id) s = cancel_campaign-Change w t id u s
serve-Change w t u (add_contacts id ids tags) s = add_contacts_to_campaign-Change w t id ids tags s
serve-Change w t u (import_csv id rows) s = import_campaign_recipients-Change w t id rows s
serve-Change w t u (retry_failed id) s = retry_failed_campaign-Change w t id s
