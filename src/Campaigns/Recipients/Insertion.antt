-- ===== src/Campaigns/Recipients/Insertion.antt =====
-- What the insertion of recipients does to the table of campaign contacts.
use notifymain_wa.Text.Laws.{str_eq_iff}
use notifymain_wa.Prelude.{
  any-append, any, refl, Bool-cases, inl, inr, false, ℕ, suc, ◌+◌, ◌≤◌, ◌≡◌, Bool, List, [], ◌∷◌,
  ◌++◌, length, ◌==◌, if◌then◌else◌, arith, count_where, count_where-append,
}
use notifymain_wa.Campaigns.Data.{CampaignContact}
use notifymain_wa.Campaigns.Actions.{World}
use notifymain_wa.Campaigns.Recipients.{same_key, NewContact, new_row, insert_new}

-- How many contacts a campaign has.
abbrev pub of_campaign : ℕ → CampaignContact → Bool
of_campaign id row = row.campaign_id == id

module _ (w : World) (campaign_id tenant_id : ℕ) where
  -- The campaign has as many more contacts as were created, and every other has what it had.
  pub count-insert_new :
      (draw : ℕ) (ns : List NewContact) (table : List CampaignContact) (other : ℕ)
      → let (table', created) = insert_new w draw campaign_id tenant_id ns table in
        count_where (of_campaign other) table'
        ≡ count_where (of_campaign other) table + (if campaign_id == other then created else 0)
  unfolding insert_new
  count-insert_new draw [] table other = ground arith
  count-insert_new draw (n ∷ ns) table other =
      let row = new_row (w.new_id draw) campaign_id tenant_id n in
      ground (
        arith,
        count-insert_new draw ns table other,
        count-insert_new (suc draw) ns (table ++ row ∷ []) other,
        count_where-append (of_campaign other) table (row ∷ []),
      )

  pub insert_new-le :
      (draw : ℕ) (ns : List NewContact) (table : List CampaignContact)
      → (insert_new w draw campaign_id tenant_id ns table).1 ≤ length ns
  unfolding insert_new
  insert_new-le draw [] table = omega arith
  insert_new-le draw (n ∷ ns) table =
      let row = new_row (w.new_id draw) campaign_id tenant_id n in
      ground (arith, insert_new-le draw ns table, insert_new-le (suc draw) ns (table ++ row ∷ []))

-- No two contacts of a campaign have one phone number.
abbrev pub IsKeyed : List CampaignContact → Type 0
IsKeyed [] = Unit
IsKeyed (r ∷ rows) = (any (same_key r.campaign_id r.phone_number) rows ≡ false) × IsKeyed rows

same_key_sym :
    (r q : CampaignContact)
    → same_key r.campaign_id r.phone_number q ≡ same_key q.campaign_id q.phone_number r
same_key_sym r q =
    ground
      (arith, str_eq_iff r.phone_number q.phone_number, str_eq_iff q.phone_number r.phone_number)

IsKeyed-snoc :
    (rows : List CampaignContact) (q : CampaignContact)
    → IsKeyed rows
    → any (same_key q.campaign_id q.phone_number) rows ≡ false
    → IsKeyed (rows ++ q ∷ [])
IsKeyed-snoc [] q h free = (refl, tt)
IsKeyed-snoc (r ∷ rows) q h free = (
  ground
      (arith, any-append (same_key r.campaign_id r.phone_number) rows (q ∷ []), same_key_sym r q),
  IsKeyed-snoc rows q h.1 (ground arith),
)

module _ (w : World) (campaign_id tenant_id : ℕ) where
  -- The unique key holds after an insertion.
  pub insert_new-IsKeyed :
      (draw : ℕ) (ns : List NewContact) (table : List CampaignContact)
      → IsKeyed table
      → IsKeyed (insert_new w draw campaign_id tenant_id ns table).0
  unfolding insert_new
  insert_new-IsKeyed draw [] table h = h
  insert_new-IsKeyed draw (n ∷ ns) table h =
      elim (Bool-cases (any (same_key campaign_id n.phone_number) table)) [
        | inl taken ↦ rw (taken, insert_new) (insert_new-IsKeyed draw ns table h)
        | inr free ↦
            let row = new_row (w.new_id draw) campaign_id tenant_id n in
            rw (free, insert_new)
              (insert_new-IsKeyed (suc draw) ns (table ++ row ∷ []) (IsKeyed-snoc table row h free))
      ]
