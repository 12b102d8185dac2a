-- ===== src/Campaigns/Creation.antt =====
-- `createCampaign` and `cloneCampaign` of backend/src/campaigns/campaigns.service.ts.
use notifymain_wa.Prelude.{ℕ, ◌+◌, Option, none, some, List, [], ◌∷◌, ◌++◌, map, length, or_else}
use notifymain_wa.Text.{Str, codes}
use notifymain_wa.Campaigns.Data.{draft, Campaign, campaign_start}
use notifymain_wa.Campaigns.Actions.{
  World, session_not_found, session_not_connected, Action, ◌>>=◌, ◌>>◌, pure, lift, found_or, get,
  modify, require, read_clock, generate_id,
}
use notifymain_wa.Campaigns.Recipients.{Recipient, of_recipient, resolve_recipients, insert_all}
use notifymain_wa.Campaigns.Lookup.{
  add_job, log_audit, is_connected, find_campaign_or_throw, find_session, job_delay, start_status,
  start_time,
}

pub record CreateCampaignDto : Type 0 where
  pub name : Str
  pub session_id : ℕ
  pub message_template : Str
  pub media_url : Option Str
  pub media_type : Option Str
  pub link_url : Option Str
  pub contact_ids : Option (List ℕ)
  pub tags : Option (List Str)
  pub scheduled_at : Option ℕ
  pub rate_limit_per_min : Option ℕ

abbrev pub new_campaign : ℕ → ℕ → ℕ → ℕ → CreateCampaignDto → ℕ → Campaign
new_campaign id tenant_id user_id now dto total = record {
  id = id;
  tenant_id = tenant_id;
  session_id = some dto.session_id;
  created_by_id = user_id;
  name = dto.name;
  status = start_status dto.scheduled_at;
  message_template = dto.message_template;
  media_url = dto.media_url;
  media_type = dto.media_type;
  link_url = dto.link_url;
  scheduled_at = dto.scheduled_at;
  started_at = start_time dto.scheduled_at now;
  completed_at = none;
  total_contacts = total;
  rate_limit_per_min = or_else dto.rate_limit_per_min 30;
}

-- The transaction of `createCampaign`: the campaign and its recipients, or neither.
unfoldable pub create_rows : World → ℕ → ℕ → CreateCampaignDto → List Recipient → Action Campaign
unfolding insert_all
create_rows w tenant_id user_id dto contacts = do
  now ← read_clock w
  id ← generate_id w
  s ← get
  table ← lift (insert_all w s.draws id tenant_id (map of_recipient contacts) s.campaign_contacts)
  let created = new_campaign id tenant_id user_id now dto (length contacts)
  modify (λ s. record s {
    campaigns = s.campaigns ++ created ∷ [];
    campaign_contacts = table;
    draws = s.draws + length contacts;
  })
  pure created

unfoldable pub create_campaign : World → ℕ → ℕ → CreateCampaignDto → Action Campaign
unfolding create_rows resolve_recipients
create_campaign w tenant_id user_id dto = do
  s ← get
  session ← found_or (find_session s tenant_id (some dto.session_id)) session_not_found
  require (is_connected session.status) session_not_connected
  contacts ← lift (resolve_recipients s.contacts tenant_id dto.contact_ids dto.tags)
  campaign ← create_rows w tenant_id user_id dto contacts
  now ← read_clock w
  modify (
      add_job (record {
        campaign_id = campaign.id;
        tenant_id = tenant_id;
        delay = job_delay dto.scheduled_at now;
      }))
  modify (
      log_audit (record {
        tenant_id = tenant_id;
        user_id = user_id;
        action = campaign_start;
        entity_id = campaign.id;
      }))
  pure campaign

unfoldable pub clone_campaign : World → ℕ → ℕ → ℕ → Action Campaign
unfolding find_campaign_or_throw
clone_campaign w tenant_id campaign_id user_id = do
  original ← find_campaign_or_throw tenant_id campaign_id
  id ← generate_id w
  let clone : Campaign = record original {
    id = id;
    tenant_id = tenant_id;
    created_by_id = user_id;
    name = original.name ++ codes " (Copy)";
    status = draft;
    scheduled_at = none;
    started_at = none;
    completed_at = none;
    total_contacts = 0;
  }
  modify (λ s. record s { campaigns = s.campaigns ++ clone ∷ [] })
  pure clone
