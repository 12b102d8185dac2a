-- ===== src/Campaigns/Recipients.antt =====
-- Which contacts a campaign is sent to: `resolveRecipients` of
-- backend/src/campaigns/campaigns.service.ts, and the two forms of
-- `campaignContact.createMany` that the service calls.
pub mod Insertion
pub mod Identity
pub mod Resolution
use notifymain_wa.Prelude.{
  ℕ, zero, suc, ◌+◌, Bool, true, false, not, ◌&&◌, ◌||◌, Option, none, some, List, [], ◌∷◌, ◌++◌,
  map, length, keep, any, is_empty, is_some, ◌==◌, if◌then◌else◌,
}
use notifymain_wa.Text.{Str, str_eq}
use notifymain_wa.Campaigns.Data.{ContactStatus, CampaignContact, Contact}
use notifymain_wa.Campaigns.Actions.{World, Result, ok, throws, invalid_contact_ids, duplicate_key}

-- The row selected from `contacts`: `{ id, phoneNumber }`.
pub record Recipient : Type 0 where
  pub id : ℕ
  pub phone_number : Str

abbrev recipient_of : Contact → Recipient
recipient_of c = record { id = c.id; phone_number = c.phone_number }

-- The rows of the tenant that are not deleted.
abbrev pub is_live : ℕ → Contact → Bool
is_live tenant_id c = (c.tenant_id == tenant_id) && not (is_some c.deleted_at)

abbrev pub has_tag : List Str → Contact → Bool
has_tag tags c = any (λ tag. any (str_eq tag) tags) c.tags

abbrev pub listed : List ℕ → Contact → Bool
listed ids c = any (λ id. c.id == id) ids

-- `Map.set`: an entry keeps the place of its key.
set_recipient : Recipient → List Recipient → List Recipient
set_recipient r [] = r ∷ []
set_recipient r (q ∷ qs) = if q.id == r.id then r ∷ qs else q ∷ set_recipient r qs

-- `Array.from(new Map(contacts.map((c) => [c.id, c])).values())`
unfoldable pub dedupe : List Recipient → List Recipient → List Recipient
unfolding set_recipient
dedupe entries [] = entries
dedupe entries (r ∷ rs) = dedupe (set_recipient r entries) rs

by_id : List Contact → ℕ → Option (List ℕ) → Result (List Recipient)
by_id contacts tenant_id none = ok []
by_id contacts tenant_id (some ids) =
    let rows = keep (λ c. listed ids c && is_live tenant_id c) contacts in
    if is_empty ids
    then ok []
    else if length rows == length ids
    then ok (map recipient_of rows)
    else throws invalid_contact_ids

by_tag : List Contact → ℕ → Option (List Str) → List Recipient
by_tag contacts tenant_id none = []
by_tag contacts tenant_id (some tags) =
    if is_empty tags
    then []
    else map recipient_of (keep (λ c. is_live tenant_id c && has_tag tags c) contacts)

abbrev combine : Result (List Recipient) → List Recipient → Result (List Recipient)
combine (ok found) more = ok (dedupe [] (found ++ more))
combine (throws e) more = throws e

unfoldable pub resolve_recipients :
    List Contact → ℕ → Option (List ℕ) → Option (List Str) → Result (List Recipient)
unfolding dedupe by_id by_tag
resolve_recipients contacts tenant_id contact_ids tags =
    combine (by_id contacts tenant_id contact_ids) (by_tag contacts tenant_id tags)

-- What `createMany` is given for each row; `none` where a recipient has no contact row.
pub record NewContact : Type 0 where
  pub contact_id : Option ℕ
  pub phone_number : Str

abbrev pub of_recipient : Recipient → NewContact
of_recipient r = record { contact_id = some r.id; phone_number = r.phone_number }

-- The unique key of `campaign_contacts`: the campaign and the phone number.
abbrev pub same_key : ℕ → Str → CampaignContact → Bool
same_key campaign_id phone row = (row.campaign_id == campaign_id) && str_eq row.phone_number phone

abbrev pub new_row : ℕ → ℕ → ℕ → NewContact → CampaignContact
new_row id campaign_id tenant_id n = record {
  id = id;
  campaign_id = campaign_id;
  contact_id = n.contact_id;
  tenant_id = tenant_id;
  phone_number = n.phone_number;
  status = ContactStatus.pending;
  message_id = none;
  retry_count = 0;
  sent_at = none;
  delivered_at = none;
  read_at = none;
  failed_at = none;
  error_message = none;
}

-- `createMany` with `skipDuplicates`: the table after it, and how many rows were created.
unfoldable pub insert_new :
    World → ℕ → ℕ → ℕ → List NewContact → List CampaignContact → List CampaignContact × ℕ
insert_new w draw campaign_id tenant_id [] table = (table, 0)
insert_new w draw campaign_id tenant_id (n ∷ ns) table =
    elim (any (same_key campaign_id n.phone_number) table) [
      | true ↦ insert_new w draw campaign_id tenant_id ns table
      | false ↦
          let (table', count) =
            insert_new w (suc draw) campaign_id tenant_id ns
              (table ++ new_row (w.new_id draw) campaign_id tenant_id n ∷ []) in
          (table', suc count)
    ]

-- `createMany` without it: a conflict throws, and its transaction is rolled back.
unfoldable pub insert_all :
    World → ℕ → ℕ → ℕ → List NewContact → List CampaignContact → Result (List CampaignContact)
unfolding insert_new
insert_all w draw campaign_id tenant_id ns table =
    let (table', count) = insert_new w draw campaign_id tenant_id ns table in
    if count == length ns then ok table' else throws duplicate_key
