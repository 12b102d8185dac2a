-- ===== src/Campaigns/Audience.antt =====
-- `addContactsToCampaign`, `importCampaignRecipients` and `retryFailedCampaign` of
-- backend/src/campaigns/campaigns.service.ts.
pub mod Reports
pub mod Retries
use notifymain_wa.Prelude.{
  ℕ, suc, ◌+◌, ◌-◌, Bool, not, ◌&&◌, Option, none, List, [], ◌∷◌, map, length, keep, any, is_empty,
  or_else, ◌==◌, ltb, if◌then◌else◌, update_where,
}
use notifymain_wa.Text.{Str}
use notifymain_wa.Campaigns.Data.{ContactStatus, CampaignContact, CampaignProgress, status_eq}
use notifymain_wa.Campaigns.Progress.{compute_campaign_progress}
use notifymain_wa.Campaigns.Actions.{
  World, wrong_status, nothing_resolved, nothing_failed, malformed_csv, Action, ◌>>=◌, ◌>>◌, pure,
  lift, found_or, get, modify, require,
}
use notifymain_wa.Campaigns.Recipients.{NewContact, of_recipient, resolve_recipients, insert_new}
use notifymain_wa.Campaigns.Lookup.{
  update_campaign_row, add_job, is_editable, is_completed, find_campaign_or_throw,
}

-- What the two forms of adding recipients share: their transaction.
unfoldable pub add_rows : World → ℕ → ℕ → List NewContact → Action ℕ
unfolding insert_new
add_rows w tenant_id campaign_id rows = do
  s ← get
  let (table, count) = insert_new w s.draws campaign_id tenant_id rows s.campaign_contacts
  modify (λ s. record s { campaign_contacts = table; draws = s.draws + count })
  modify (
      update_campaign_row campaign_id
        (λ c. if ltb 0 count then record c { total_contacts = c.total_contacts + count } else c))
  pure count

pub record Added : Type 0 where
  pub added_count : ℕ
  pub skipped_count : ℕ
  pub progress : CampaignProgress

unfoldable pub add_contacts_to_campaign :
    World → ℕ → ℕ → Option (List ℕ) → Option (List Str) → Action Added
unfolding find_campaign_or_throw resolve_recipients add_rows
add_contacts_to_campaign w tenant_id campaign_id contact_ids tags = do
  campaign ← find_campaign_or_throw tenant_id campaign_id
  require (is_editable campaign.status) (wrong_status campaign.status)
  s ← get
  contacts ← lift (resolve_recipients s.contacts tenant_id contact_ids tags)
  require (not (is_empty contacts)) nothing_resolved
  added ← add_rows w tenant_id campaign_id (map of_recipient contacts)
  s' ← get
  pure (record {
    added_count = added;
    skipped_count = length contacts - added;
    progress = compute_campaign_progress w.group_by s'.campaign_contacts campaign_id;
  })

pub record Retried : Type 0 where
  pub retried_count : ℕ
  pub progress : CampaignProgress

-- The failed contacts of a campaign, and the write that makes them pending again.
abbrev pub is_failed_of : ℕ → ℕ → CampaignContact → Bool
is_failed_of tenant_id campaign_id r =
    (r.campaign_id == campaign_id)
    && (r.tenant_id == tenant_id)
    && status_eq r.status ContactStatus.failed

abbrev pub reset_contact : CampaignContact → CampaignContact
reset_contact r = record r {
  status = ContactStatus.pending;
  failed_at = none;
  error_message = none;
  retry_count = suc r.retry_count;
}

abbrev pub among : List ℕ → CampaignContact → Bool
among ids r = any (λ id. r.id == id) ids

unfoldable pub retry_failed_campaign : World → ℕ → ℕ → Action Retried
unfolding find_campaign_or_throw
retry_failed_campaign w tenant_id campaign_id = do
  campaign ← find_campaign_or_throw tenant_id campaign_id
  require (is_completed campaign.status) (wrong_status campaign.status)
  s ← get
  let failed_contacts = keep (is_failed_of tenant_id campaign_id) s.campaign_contacts
  require (not (length failed_contacts == 0)) nothing_failed
  modify (λ s. record s {
    campaign_contacts =
        update_where (among (map (λ r. r.id) failed_contacts)) reset_contact s.campaign_contacts;
  })
  modify (add_job (record { campaign_id = campaign_id; tenant_id = tenant_id; delay = none }))
  s' ← get
  pure (record {
    retried_count = length failed_contacts;
    progress = compute_campaign_progress w.group_by s'.campaign_contacts campaign_id;
  })

-- A row of the parsed file; the column may be missing.
pub record RecipientRow : Type 0 where
  pub phone_number : Option Str

pub record ImportResult : Type 0 where
  pub created : ℕ
  pub skipped : ℕ
  pub errors : List ℕ  -- the numbers of the rows with no phone number

abbrev pub phone_given : RecipientRow → Bool
phone_given row = not (is_empty (or_else row.phone_number []))

-- The loop over the rows: the numbers to insert, and the rows in error. A row's number counts the
-- header line.
unfoldable pub scan_rows : ℕ → List RecipientRow → List NewContact × List ℕ
scan_rows i [] = ([], [])
scan_rows i (row ∷ rows) =
    let (valid, errors) = scan_rows (suc i) rows in
    if phone_given row
    then (record { contact_id = none; phone_number = or_else row.phone_number [] } ∷ valid, errors)
    else (valid, (i + 2) ∷ errors)

-- `parsed` is the answer of the CSV parser, `none` where it throws.
unfoldable pub import_campaign_recipients :
    World → ℕ → ℕ → Option (List RecipientRow) → Action ImportResult
unfolding find_campaign_or_throw add_rows scan_rows
import_campaign_recipients w tenant_id campaign_id parsed = do
  campaign ← find_campaign_or_throw tenant_id campaign_id
  require (is_editable campaign.status) (wrong_status campaign.status)
  rows ← found_or parsed malformed_csv
  let (valid, errors) = scan_rows 0 rows
  if is_empty valid
      then pure (record { created = 0; skipped = length errors; errors = errors })
      else do
        count ← add_rows w tenant_id campaign_id valid
        pure (record {
          created = count;
          skipped = length errors + (length valid - count);
          errors = errors;
        })
