-- ===== src/Campaigns/Requests/Effects/Creating.antt =====
-- The request that creates a campaign.
use notifymain_wa.Prelude.{
  ◌+◌, ℕ, suc, ◌≤◌, ◌≡◌, refl, ◌⊎◌, inl, inr, Bool, Option, some, List, [], ◌∷◌, ◌++◌, arith,
  Option-cases, Bool-cases, map, length, length-map, ==_iff, sym, ◌∙◌, ◌==◌,
}
use notifymain_wa.Campaigns.Data.{draft, scheduled, running, Store}
use notifymain_wa.Campaigns.Actions.{World, Result-cases}
use notifymain_wa.Campaigns.Lookup.{is_connected, find_session, start_status}
use notifymain_wa.Campaigns.Recipients.{Recipient, resolve_recipients, of_recipient}
use notifymain_wa.Campaigns.Creation.{CreateCampaignDto, new_campaign, create_campaign}
use notifymain_wa.Campaigns.Requests.{inserted, Change, idle, created}

start_status-initial :
    (at : Option ℕ)
    → (start_status at ≡ draft) ⊎ (start_status at ≡ scheduled) ⊎ (start_status at ≡ running)
start_status-initial at = ground arith

-- The test of the transaction of `createCampaign`.
abbrev all_new : World → ℕ → List Recipient → Store → Bool
all_new w t found s =
    (inserted w (suc (suc s.draws)) (w.new_id (suc s.draws)) t (map of_recipient found) s).1
    == length (map of_recipient found)

-- A transaction whose recipients are all new.
create_full-Change :
    (w : World) (t u : ℕ) (dto : CreateCampaignDto) (s s' : Store) (found : List Recipient)
    → let id = w.new_id (suc s.draws) in
      (inserted w (suc (suc s.draws)) id t (map of_recipient found) s).1
        ≡ length (map of_recipient found)
      → s'.campaigns ≡ s.campaigns ++ new_campaign id t u (w.now s.draws) dto (length found) ∷ []
      → s'.campaign_contacts ≡ (inserted w (suc (suc s.draws)) id t (map of_recipient found) s).0
      → suc (suc s.draws) + length found ≤ s'.draws
      → Change w t s s'
create_full-Change w t u dto s s' found full ec er d =
    created (suc s.draws) (suc (suc s.draws)) _ (map of_recipient found) (omega arith) (omega arith)
      refl refl (start_status-initial dto.scheduled_at) (sym (full ∙ length-map of_recipient found))
      ec er (omega arith) (omega (arith, full, length-map of_recipient found))

pub create_campaign-Change :
    (w : World) (t u : ℕ) (dto : CreateCampaignDto) (s : Store)
    → Change w t s (create_campaign w t u dto s).1
unfolding create_campaign
create_campaign-Change w t u dto s = elim (Option-cases (find_session s t (some dto.session_id))) [
  | inl e ↦ rw e (idle refl refl (omega arith))
  | inr (session, e) ↦ rw e elim (Bool-cases (is_connected session.status)) [
    | inr off ↦ rw off (idle refl refl (omega arith))
    | inl on ↦
        rw on elim (Result-cases (resolve_recipients s.contacts t dto.contact_ids dto.tags)) [
          | inl (x, bad) ↦ rw bad (idle refl refl (omega arith))
          | inr (found, good) ↦ rw good elim (Bool-cases (all_new w t found s)) [
            | inr some_old ↦ rw some_old (idle refl refl (omega arith))
            | inl full ↦ rw full (
                create_full-Change w t u dto s _ found ((==_iff _ _).0 full) refl refl
                  (omega arith))
          ]
        ]
  ]
]
