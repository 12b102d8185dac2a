-- ===== src/Campaigns/Recipients/Identity.antt =====
-- The ids of the rows that `createMany` inserts.
use notifymain_wa.Prelude.{
  ℕ, suc, ◌+◌, ◌≤◌, ◌≡◌, refl, inl, inr, false, List, [], ◌∷◌, ◌++◌, ◌==◌, arith, any, any-append,
  any-update_where, ap, ◌∙◌, Bool, Bool-cases, update_where,
}
use notifymain_wa.Campaigns.Data.{CampaignContact}
use notifymain_wa.Campaigns.Actions.{World}
use notifymain_wa.Campaigns.Recipients.{same_key, NewContact, new_row, insert_new}

-- The database never generates an id twice.
abbrev pub IsGenerator : World → Type 0
IsGenerator w = (m n : ℕ) → w.new_id m ≡ w.new_id n → m ≡ n

abbrev pub has_row_id : ℕ → CampaignContact → Bool
has_row_id id r = r.id == id

-- No two contacts have one id.
abbrev pub IsIdentified : List CampaignContact → Type 0
IsIdentified [] = Unit
IsIdentified (r ∷ rows) = (any (has_row_id r.id) rows ≡ false) × IsIdentified rows

-- No contact has an id that is still to come.
abbrev pub IsUnused : World → ℕ → List CampaignContact → Type 0
IsUnused w draw rows = (k : ℕ) → draw ≤ k → any (has_row_id (w.new_id k)) rows ≡ false

IsIdentified-snoc :
    (rows : List CampaignContact) (q : CampaignContact)
    → IsIdentified rows
    → any (has_row_id q.id) rows ≡ false
    → IsIdentified (rows ++ q ∷ [])
IsIdentified-snoc [] q h free = (refl, tt)
IsIdentified-snoc (r ∷ rows) q h free = (
  ground (arith, any-append (has_row_id r.id) rows (q ∷ [])),
  IsIdentified-snoc rows q h.1 (ground arith),
)

pub IsIdentified-update_where :
    (p : CampaignContact → Bool) (f : CampaignContact → CampaignContact)
    (rows : List CampaignContact)
    → ((r : CampaignContact) → (f r).id ≡ r.id)
    → IsIdentified rows
    → IsIdentified (update_where p f rows)
IsIdentified-update_where p f [] keeps h = tt
IsIdentified-update_where p f (r ∷ rows) keeps h =
    let same = any-update_where (has_row_id r.id) p f rows (λ q. ap (λ i. i == r.id) (keeps q)) in
    elim (Bool-cases (p r)) [
      | inl e ↦ rw (e, keeps r) (same ∙ h.0, IsIdentified-update_where p f rows keeps h.1)
      | inr e ↦ rw e (same ∙ h.0, IsIdentified-update_where p f rows keeps h.1)
    ]

module _ (w : World) (gen : IsGenerator w) (campaign_id tenant_id : ℕ) where
  -- An insertion takes new ids only, from this one on.
  pub insert_new-IsIdentified :
      (draw : ℕ) (ns : List NewContact) (table : List CampaignContact)
      → IsIdentified table
      → IsUnused w draw table
      → let (table', created) = insert_new w draw campaign_id tenant_id ns table in
        IsIdentified table' × IsUnused w (draw + created) table'
  unfolding insert_new
  insert_new-IsIdentified draw [] table h free = (h, λ k le. free k (omega arith))
  insert_new-IsIdentified draw (n ∷ ns) table h free =
      elim (Bool-cases (any (same_key campaign_id n.phone_number) table)) [
        | inl taken ↦ rw (taken, insert_new) (insert_new-IsIdentified draw ns table h free)
        | inr new ↦
            let row = new_row (w.new_id draw) campaign_id tenant_id n in
            let (distinct, unused) =
              insert_new-IsIdentified (suc draw) ns (table ++ row ∷ [])
                (IsIdentified-snoc table row h (free draw (omega arith)))
                (λ k le. ground (
                  arith,
                  any-append (has_row_id (w.new_id k)) table (row ∷ []),
                  free k (omega arith),
                  gen draw k,
                )) in
            rw (new, insert_new) (distinct, λ k le. unused k (omega arith))
      ]
