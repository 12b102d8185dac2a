-- ===== src/Campaigns/Requests/Tables.antt =====
-- What a consistent store is.
use notifymain_wa.Prelude.{
  ℕ, ◌≤◌, ◌≡◌, refl, ap, ◌∙◌, inl, inr, Bool, false, List, [], ◌∷◌, ◌++◌, arith, any, All, ◌==◌,
  Bool-cases, count_where, update_where, any-update_where, any-append,
}
use notifymain_wa.Campaigns.Data.{Campaign, CampaignContact, Store}
use notifymain_wa.Campaigns.Actions.{World}
use notifymain_wa.Campaigns.Lookup.{is_campaign}
use notifymain_wa.Campaigns.Recipients.Insertion.{of_campaign, IsKeyed}
use notifymain_wa.Campaigns.Recipients.Identity.{IsIdentified, IsUnused}

-- No two campaigns have one id.
abbrev pub IsDistinct : List Campaign → Type 0
IsDistinct [] = Unit
IsDistinct (c ∷ cs) = (any (is_campaign c.id) cs ≡ false) × IsDistinct cs

-- The stored number of contacts of a campaign is that of its rows.
abbrev pub IsCountedIn : List CampaignContact → Campaign → Type 0
IsCountedIn rows c = c.total_contacts ≡ count_where (of_campaign c.id) rows

pub record IsConsistentAt (w : World) (campaigns : List Campaign) (rows : List CampaignContact)
    (draws : ℕ) : Type 0 where
  pub counted : All (IsCountedIn rows) campaigns
  pub distinct : IsDistinct campaigns
  pub keyed : IsKeyed rows
  pub identified : IsIdentified rows
  pub unused : IsUnused w draws rows
  pub fresh : (k : ℕ) → draws ≤ k → any (is_campaign (w.new_id k)) campaigns ≡ false
  pub unowned : (k : ℕ) → draws ≤ k → count_where (of_campaign (w.new_id k)) rows ≡ 0

abbrev pub IsConsistent : World → Store → Type 0
IsConsistent w s = IsConsistentAt w s.campaigns s.campaign_contacts s.draws

pub IsDistinct-update_where :
    (p : Campaign → Bool) (f : Campaign → Campaign) (cs : List Campaign)
    → ((c : Campaign) → (f c).id ≡ c.id)
    → IsDistinct cs
    → IsDistinct (update_where p f cs)
IsDistinct-update_where p f [] keeps h = tt
IsDistinct-update_where p f (c ∷ cs) keeps h = elim (Bool-cases (p c)) [
  | inl e ↦
      rw (e, keeps c)
        (
          any-update_where (is_campaign c.id) p f cs (λ d. ap (λ id. id == c.id) (keeps d)) ∙ h.0,
          IsDistinct-update_where p f cs keeps h.1,
        )
  | inr e ↦ rw e (
    any-update_where (is_campaign c.id) p f cs (λ d. ap (λ id. id == c.id) (keeps d)) ∙ h.0,
    IsDistinct-update_where p f cs keeps h.1,
  )
]

pub IsDistinct-snoc :
    (cs : List Campaign) (d : Campaign)
    → IsDistinct cs
    → any (is_campaign d.id) cs ≡ false
    → IsDistinct (cs ++ d ∷ [])
IsDistinct-snoc [] d h free = (refl, tt)
IsDistinct-snoc (c ∷ cs) d h free = (
  ground (arith, any-append (is_campaign c.id) cs (d ∷ [])),
  IsDistinct-snoc cs d h.1 (ground arith),
)
