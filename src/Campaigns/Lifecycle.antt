-- ===== src/Campaigns/Lifecycle.antt =====
-- `updateCampaign`, `launchCampaign` and `cancelCampaign` of
-- backend/src/campaigns/campaigns.service.ts.
use notifymain_wa.Prelude.{ℕ, Bool, true, false, not, ◌||◌, Option, none, some, or_else, ◌==◌}
use notifymain_wa.Text.{Str}
use notifymain_wa.Campaigns.Data.{
  CampaignStatus, draft, scheduled, cancelled, Campaign, campaign_start, campaign_stop,
}
use notifymain_wa.Campaigns.Actions.{
  World, session_not_found, session_not_connected, wrong_status, no_recipients, null_column, Action,
  ◌>>=◌, ◌>>◌, pure, found_or, get, modify, require, read_clock,
}
use notifymain_wa.Campaigns.Lookup.{
  update_campaign_row, add_job, log_audit, is_connected, is_editable, is_cancellable,
  find_campaign_or_throw, find_session, session_ready, job_delay, start_status, start_time,
}

-- A field that is not given stays as it is; `some none` stands for `null`, which the checks of the
-- request let pass for every field.
pub record UpdateCampaignDto : Type 0 where
  pub name : Option (Option Str)
  pub session_id : Option (Option ℕ)
  pub message_template : Option (Option Str)
  pub media_url : Option (Option Str)
  pub media_type : Option (Option Str)
  pub link_url : Option (Option Str)
  pub scheduled_at : Option (Option ℕ)
  pub rate_limit_per_min : Option (Option ℕ)

abbrev is_null {ℓ} : {A : Type ℓ} → Option (Option A) → Bool
is_null (some none) = true
is_null field = false

-- The columns that take no `null`: with one of these the update of the row throws.
abbrev pub breaks_column : UpdateCampaignDto → Bool
breaks_column dto =
    is_null dto.name || is_null dto.message_template || is_null dto.rate_limit_per_min

-- `SCHEDULED` with the schedule cleared becomes `DRAFT`; else the status is not written.
abbrev pub status_update : CampaignStatus → Option (Option ℕ) → Option CampaignStatus
status_update scheduled (some none) = some draft
status_update status at = none

abbrev pub apply_update : UpdateCampaignDto → Option CampaignStatus → Campaign → Campaign
apply_update dto status c = record c {
  name = or_else (or_else dto.name none) c.name;
  session_id = or_else dto.session_id c.session_id;
  message_template = or_else (or_else dto.message_template none) c.message_template;
  media_url = or_else dto.media_url c.media_url;
  media_type = or_else dto.media_type c.media_type;
  link_url = or_else dto.link_url c.link_url;
  scheduled_at = or_else dto.scheduled_at c.scheduled_at;
  rate_limit_per_min = or_else (or_else dto.rate_limit_per_min none) c.rate_limit_per_min;
  status = or_else status c.status;
}

unfoldable pub check_session : ℕ → Option ℕ → Action (Unit {0})
check_session tenant_id none = pure tt
check_session tenant_id (some id) = do
  s ← get
  session ← found_or (find_session s tenant_id (some id)) session_not_found
  require (is_connected session.status) session_not_connected

unfoldable pub update_campaign : ℕ → ℕ → UpdateCampaignDto → Action (Unit {0})
unfolding find_campaign_or_throw check_session
update_campaign tenant_id campaign_id dto = do
  campaign ← find_campaign_or_throw tenant_id campaign_id
  require (is_editable campaign.status) (wrong_status campaign.status)
  check_session tenant_id (or_else dto.session_id none)
  require (not (breaks_column dto)) null_column
  modify (
      update_campaign_row campaign_id
        (apply_update dto (status_update campaign.status dto.scheduled_at)))

unfoldable pub launch_campaign : World → ℕ → ℕ → ℕ → Action (Unit {0})
unfolding find_campaign_or_throw
launch_campaign w tenant_id campaign_id user_id = do
  campaign ← find_campaign_or_throw tenant_id campaign_id
  require (is_editable campaign.status) (wrong_status campaign.status)
  require (not (campaign.total_contacts == 0)) no_recipients
  s ← get
  require (session_ready (find_session s tenant_id campaign.session_id)) session_not_connected
  now ← read_clock w
  modify (
      update_campaign_row campaign_id (λ c. record c {
        status = start_status campaign.scheduled_at;
        started_at = start_time campaign.scheduled_at now;
      }))
  later ← read_clock w
  modify (
      add_job (record {
        campaign_id = campaign_id;
        tenant_id = tenant_id;
        delay = job_delay campaign.scheduled_at later;
      }))
  modify (
      log_audit (record {
        tenant_id = tenant_id;
        user_id = user_id;
        action = campaign_start;
        entity_id = campaign_id;
      }))

unfoldable pub cancel_campaign : ℕ → ℕ → ℕ → Action (Unit {0})
unfolding find_campaign_or_throw
cancel_campaign tenant_id campaign_id user_id = do
  campaign ← find_campaign_or_throw tenant_id campaign_id
  require (is_cancellable campaign.status) (wrong_status campaign.status)
  modify (update_campaign_row campaign_id (λ c. record c { status = cancelled }))
  modify (
      log_audit (record {
        tenant_id = tenant_id;
        user_id = user_id;
        action = campaign_stop;
        entity_id = campaign_id;
      }))
