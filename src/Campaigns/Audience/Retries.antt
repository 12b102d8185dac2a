-- ===== src/Campaigns/Audience/Retries.antt =====
-- What `retryFailedCampaign` does to the failed recipients.
use notifymain_wa.Prelude.{
  ℕ, suc, ◌<◌, ◌≡◌, refl, subst, true, false, not, none, some, List, [], ◌∷◌, ◌++◌, map, arith,
  length, any, All, All-zip, All-of_any, Bool-cases, inl, inr, ◌==◌, ==_refl, count_where, keep,
  length-keep, update_where,
}
use notifymain_wa.Campaigns.Data.{ContactStatus, Campaign, CampaignContact, Store}
use notifymain_wa.Campaigns.Actions.{World, ok}
use notifymain_wa.Campaigns.Lookup.{find_campaign, is_completed}
use notifymain_wa.Campaigns.Recipients.Identity.{has_row_id, IsIdentified}
use notifymain_wa.Campaigns.Audience.{
  Retried, is_failed_of, reset_contact, among, retry_failed_campaign,
}

-- A failed recipient is pending again, without the time and the text of its error, and with one
-- retry more.
pub record IsAgain (r q : CampaignContact) : Type 0 where
  pub pending : q.status ≡ ContactStatus.pending
  pub retries : q.retry_count ≡ suc r.retry_count
  pub cleared : (q.failed_at ≡ none) × (q.error_message ≡ none)
  pub same :
      (q.id ≡ r.id)
      × (q.campaign_id ≡ r.campaign_id)
      × (q.tenant_id ≡ r.tenant_id)
      × (q.contact_id ≡ r.contact_id)
      × (q.phone_number ≡ r.phone_number)

-- Row by row: the failed recipients of a campaign are made pending, every other row is as it was.
abbrev pub IsReset : (t id : ℕ) → List CampaignContact → List CampaignContact → Type 0
IsReset t id [] [] = Unit
IsReset t id [] (q ∷ qs) = ⊥
IsReset t id (r ∷ rs) [] = ⊥
IsReset t id (r ∷ rs) (q ∷ qs) =
    (is_failed_of t id r ≡ true → IsAgain r q)
    × (is_failed_of t id r ≡ false → q ≡ r)
    × IsReset t id rs qs

module _ (t id : ℕ) where
  abbrev failed_ids : List CampaignContact → List ℕ
  failed_ids rows = map (λ (r : CampaignContact). r.id) (keep (is_failed_of t id) rows)

  absent-among :
      (q : CampaignContact) (rows : List CampaignContact)
      → any (has_row_id q.id) rows ≡ false
      → among (failed_ids rows) q ≡ false
  absent-among q [] h = refl
  absent-among q (r ∷ rows) h =
      let other : (q.id == r.id) ≡ false = ground arith in
      let rest = absent-among q rows (ground arith) in
      elim (Bool-cases (is_failed_of t id r)) [ inl e ↦ rw (e, other) rest | inr e ↦ rw e rest ]

  -- With unique ids, the rows of the failed ids are the failed rows.
  among-failed :
      (rows : List CampaignContact)
      → IsIdentified rows
      → All (λ q. among (failed_ids rows) q ≡ is_failed_of t id q) rows
  among-failed [] h = tt
  among-failed (r ∷ rows) h =
      let fits = λ (ids : List ℕ). All (λ q. among ids q ≡ is_failed_of t id q) (r ∷ rows) in
      elim (Bool-cases (is_failed_of t id r)) [
        | inl e ↦
            let ids : r.id ∷ failed_ids rows ≡ failed_ids (r ∷ rows) = rw (failed_ids, e) refl in
            subst fits ids (
              rw (e, ==_refl r.id) refl,
              All-zip (λ q. among (failed_ids rows) q ≡ is_failed_of t id q)
                  (λ q. has_row_id r.id q ≡ false)
                  (λ q. among (r.id ∷ failed_ids rows) q ≡ is_failed_of t id q) rows
                  (λ q same other. rw other same) (among-failed rows h.1)
                  (All-of_any (has_row_id r.id) rows h.0),
            )
        | inr e ↦
            let ids : failed_ids rows ≡ failed_ids (r ∷ rows) = rw (failed_ids, e) refl in
            subst fits ids (rw e (absent-among r rows h.0), among-failed rows h.1)
      ]

  retried-keep :
      (ids : List ℕ) (rows : List CampaignContact)
      → All (λ q. among ids q ≡ is_failed_of t id q) rows
      → IsReset t id rows (update_where (among ids) reset_contact rows)
  retried-keep ids [] h = tt
  retried-keep ids (r ∷ rows) h = elim (Bool-cases (is_failed_of t id r)) [
    | inl e ↦
        rw (h.0, e)
          (
            λ f. record {
              pending = refl;
              retries = refl;
              cleared = (refl, refl);
              same = (refl, refl, refl, refl, refl);
            },
            λ f. cc,
            retried-keep ids rows h.1,
          )
    | inr e ↦ rw (h.0, e) (λ f. cc, λ f. refl, retried-keep ids rows h.1)
  ]

-- What a retry reports and leaves behind.
pub record IsRetried (t id : ℕ) (s s' : Store) (r : Retried) : Type 0 where
  pub counted : r.retried_count ≡ count_where (is_failed_of t id) s.campaign_contacts
  pub reset : IsReset t id s.campaign_contacts s'.campaign_contacts
  pub queued : s'.jobs ≡ s.jobs ++ record { campaign_id = id; tenant_id = t; delay = none } ∷ []

-- A retry of a completed campaign of the tenant that has failed recipients succeeds, where no two
-- recipients in the table have one id: it reports how many are failed; each of these is pending
-- again, without the time and the text of its error, and with one retry more; every other row of
-- the table is as it was; and one job without delay is queued.
pub retry_failed_campaign-IsRetried :
    (w : World) (t id : ℕ) (s : Store) (c : Campaign)
    → find_campaign s t id ≡ some c
    → IsIdentified s.campaign_contacts
    → is_completed c.status ≡ true
    → 0 < count_where (is_failed_of t id) s.campaign_contacts
    → (r : Retried) × ((retry_failed_campaign w t id s).0 ≡ ok r)
      × IsRetried t id s (retry_failed_campaign w t id s).1 r
unfolding retry_failed_campaign
retry_failed_campaign-IsRetried w t id s c found unique done some_failed =
    let n = length-keep (is_failed_of t id) s.campaign_contacts in
    let full : not (length (keep (is_failed_of t id) s.campaign_contacts) == 0) ≡ true =
      ground arith in
    rw (found) (
      rw done (
        rw full (
          _,
          refl,
          record {
            counted = n;
            reset =
                retried-keep t id _ s.campaign_contacts
                  (among-failed t id s.campaign_contacts unique);
            queued = refl;
          },
        )))
