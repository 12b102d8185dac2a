-- ===== src/Campaigns/Requests.antt =====
-- The requests that a tenant's user can make of CampaignsService, as one type, and how the store
-- changes under one of them.
pub mod Effects
pub mod Tables
pub mod Consistency
pub mod Transitions
use notifymain_wa.Prelude.{
  ℕ, suc, ◌+◌, ◌≤◌, ◌<◌, ◌≡◌, ◌⊎◌, Bool, Option, some, List, [], ◌∷◌, ◌++◌, update_where,
}
use notifymain_wa.Text.{Str}
use notifymain_wa.Campaigns.Data.{
  CampaignStatus, draft, scheduled, running, paused, completed, cancelled, Campaign,
  CampaignContact, Store,
}
use notifymain_wa.Campaigns.Actions.{World}
use notifymain_wa.Campaigns.Lookup.{is_campaign, find_campaign}
use notifymain_wa.Campaigns.Recipients.{NewContact, insert_new}
use notifymain_wa.Campaigns.Creation.{CreateCampaignDto, create_campaign, clone_campaign}
use notifymain_wa.Campaigns.Lifecycle.{
  UpdateCampaignDto, update_campaign, launch_campaign, cancel_campaign,
}
use notifymain_wa.Campaigns.Audience.{
  RecipientRow, reset_contact, add_contacts_to_campaign, import_campaign_recipients,
  retry_failed_campaign,
}

pub data Request : Type 0 where
  create : CreateCampaignDto → Request
  clone : (campaign_id : ℕ) → Request
  update : (campaign_id : ℕ) → UpdateCampaignDto → Request
  launch : (campaign_id : ℕ) → Request
  cancel : (campaign_id : ℕ) → Request
  add_contacts : (campaign_id : ℕ) → Option (List ℕ) → Option (List Str) → Request
  import_csv : (campaign_id : ℕ) → Option (List RecipientRow) → Request
  retry_failed : (campaign_id : ℕ) → Request

-- The store after a request.
unfoldable pub serve : World → (tenant_id user_id : ℕ) → Request → Store → Store
serve w t u (create dto) s = (create_campaign w t u dto s).1
serve w t u (clone id) s = (clone_campaign w t id u s).1
serve w t u (update id dto) s = (update_campaign t id dto s).1
serve w t u (launch id) s = (launch_campaign w t id u s).1
serve w t u (cancel id) s = (cancel_campaign t id u s).1
serve w t u (add_contacts id ids tags) s = (add_contacts_to_campaign w t id ids tags s).1
serve w t u (import_csv id rows) s = (import_campaign_recipients w t id rows s).1
serve w t u (retry_failed id) s = (retry_failed_campaign w t id s).1

-- The changes of a status that a request may make.
pub data Allowed : CampaignStatus → CampaignStatus → Type 0 where
  stays : {a : CampaignStatus} → Allowed a a
  unschedule : Allowed scheduled draft
  schedule : Allowed draft scheduled
  start : {a : CampaignStatus} → (a ≡ draft) ⊎ (a ≡ scheduled) → Allowed a running
  stop : {a : CampaignStatus} → (a ≡ running) ⊎ (a ≡ scheduled) → Allowed a cancelled

-- A write that leaves the key, the owner and the count of a campaign alone.
abbrev pub Keeps : (Campaign → Campaign) → Type 0
Keeps f =
    (c : Campaign)
    → ((f c).id ≡ c.id)
      × ((f c).tenant_id ≡ c.tenant_id)
      × ((f c).total_contacts ≡ c.total_contacts)

abbrev pub grow : ℕ → Campaign → Campaign
grow count c = record c { total_contacts = c.total_contacts + count }

abbrev pub inserted : World → ℕ → ℕ → ℕ → List NewContact → Store → List CampaignContact × ℕ
inserted w draw id tenant_id ns s = insert_new w draw id tenant_id ns s.campaign_contacts

-- What one request of a tenant can do to the campaigns and their contacts.
pub data Change (w : World) (t : ℕ) (s s' : Store) : Type 0 where
  idle :
      s'.campaigns ≡ s.campaigns
      → s'.campaign_contacts ≡ s.campaign_contacts
      → s.draws ≤ s'.draws
      → Change w t s s'
  created :
      (k draw : ℕ) (c : Campaign) (ns : List NewContact)
      → s.draws ≤ k
      → k < s'.draws
      → c.id ≡ w.new_id k
      → c.tenant_id ≡ t
      → ((c.status ≡ draft) ⊎ (c.status ≡ scheduled) ⊎ (c.status ≡ running))
      → c.total_contacts ≡ (inserted w draw (w.new_id k) t ns s).1
      → s'.campaigns ≡ s.campaigns ++ c ∷ []
      → s'.campaign_contacts ≡ (inserted w draw (w.new_id k) t ns s).0
      → s.draws ≤ draw
      → draw + (inserted w draw (w.new_id k) t ns s).1 ≤ s'.draws
      → Change w t s s'
  edited :
      (id : ℕ) (c : Campaign) (f : Campaign → Campaign)
      → find_campaign s t id ≡ some c
      → Keeps f
      → Allowed c.status (f c).status
      → s'.campaigns ≡ update_where (is_campaign id) f s.campaigns
      → s'.campaign_contacts ≡ s.campaign_contacts
      → s.draws ≤ s'.draws
      → Change w t s s'
  extended :
      (id draw : ℕ) (c : Campaign) (ns : List NewContact)
      → find_campaign s t id ≡ some c
      → s'.campaigns
        ≡ update_where (is_campaign id) (grow (inserted w draw id t ns s).1) s.campaigns
      → s'.campaign_contacts ≡ (inserted w draw id t ns s).0
      → s.draws ≤ draw
      → draw + (inserted w draw id t ns s).1 ≤ s'.draws
      → Change w t s s'
  reset :
      (p : CampaignContact → Bool)
      → s'.campaigns ≡ s.campaigns
      → s'.campaign_contacts ≡ update_where p reset_contact s.campaign_contacts
      → s.draws ≤ s'.draws
      → Change w t s s'
