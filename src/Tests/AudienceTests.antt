-- ===== src/Tests/AudienceTests.antt =====
-- The theorems on the recipients of a campaign, at the sample.
use notifymain_wa.Prelude.{◌≡◌, refl, false, none, some, List, [], ◌∷◌, arith}
use notifymain_wa.Text.{codes}
use notifymain_wa.Campaigns.Data.{draft, completed, ContactStatus, Contact, Store}
use notifymain_wa.Campaigns.Actions.{ok}
use notifymain_wa.Campaigns.Recipients.{resolve_recipients}
use notifymain_wa.Campaigns.Recipients.Resolution.{IsResolved, resolve_recipients-IsResolved}
use notifymain_wa.Campaigns.Audience.{
  RecipientRow, ImportResult, import_campaign_recipients, Retried, retry_failed_campaign,
}
use notifymain_wa.Campaigns.Audience.Reports.{IsReported, import_campaign_recipients-IsReported}
use notifymain_wa.Campaigns.Audience.Retries.{IsRetried, retry_failed_campaign-IsRetried}
use notifymain_wa.Tests.Sample.{world, campaign, contact, store}

abbrev ann : Contact
ann = record {
  id = 20;
  tenant_id = 7;
  phone_number = codes "919876543210";
  name = codes "Ann";
  whatsapp_name = none;
  email = none;
  notes = none;
  is_blocked = false;
  is_opted_out = false;
  deleted_at = none;
  tags = codes "vip" ∷ [];
}

resolve_recipients-IsResolved_example :
    IsResolved
      (ann ∷ [])
      7
      (resolve_recipients (ann ∷ []) 7 (some (20 ∷ [])) (some (codes "vip" ∷ [])))
resolve_recipients-IsResolved_example =
    resolve_recipients-IsResolved (ann ∷ []) 7 (some (20 ∷ [])) (some (codes "vip" ∷ []))

-- A file with the number that is there already, a new one, and a row without.
abbrev three_rows : List RecipientRow
three_rows =
    record { phone_number = some (codes "919876543210") }
    ∷ record { phone_number = some (codes "919876543211") }
    ∷ record { phone_number = none }
    ∷ []

import_campaign_recipients-IsReported_example :
    (r : ImportResult) × ((import_campaign_recipients world 7 5 (some three_rows) (store draft)).0
      ≡ ok r)
    × IsReported 5 three_rows
        (store draft)
        (import_campaign_recipients world 7 5 (some three_rows) (store draft)).1
        r
import_campaign_recipients-IsReported_example =
    import_campaign_recipients-IsReported world 7 5 three_rows (store draft) (campaign draft) refl
      refl

abbrev after_failure : Store
after_failure = record (store completed) {
  campaign_contacts = record contact { status = ContactStatus.failed } ∷ [];
}

retry_failed_campaign-IsRetried_example :
    (r : Retried) × ((retry_failed_campaign world 7 5 after_failure).0 ≡ ok r)
    × IsRetried 7 5 after_failure (retry_failed_campaign world 7 5 after_failure).1 r
retry_failed_campaign-IsRetried_example =
    retry_failed_campaign-IsRetried world 7 5 after_failure (campaign completed) refl (refl, tt)
      refl (omega arith)
