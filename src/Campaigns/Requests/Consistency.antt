-- ===== src/Campaigns/Requests/Consistency.antt =====
-- What holds of the tables between two requests.
pub use notifymain_wa.Campaigns.Requests.Tables.{
  IsDistinct, IsCountedIn, IsConsistentAt, IsConsistent,
}
pub use notifymain_wa.Campaigns.Recipients.Identity.{IsGenerator}
use notifymain_wa.Campaigns.Recipients.Identity.{
  has_row_id, IsIdentified, IsUnused, IsIdentified-update_where, insert_new-IsIdentified,
}
use notifymain_wa.Campaigns.Requests.Tables.{IsDistinct-update_where, IsDistinct-snoc}
use notifymain_wa.Prelude.{
  ◌+◌, ℕ, ◌≤◌, ◌<◌, ◌≡◌, ◌≢◌, refl, sym, ap, ◌∙◌, inl, inr, Bool, true, false, some, List, [], ◌∷◌,
  ◌++◌, arith, any, ◌==◌, Bool-cases, count_where, update_where, count_where-update_where,
  All-update_where, All-map, All-snoc, All-zip, All-of_any, find_first-any, any-update_where,
  any-append,
}
use notifymain_wa.Text.{Str}
use notifymain_wa.Campaigns.Data.{Campaign, CampaignContact, Store}
use notifymain_wa.Campaigns.Actions.{World}
use notifymain_wa.Campaigns.Lookup.{is_campaign, find_campaign}
use notifymain_wa.Campaigns.Audience.{reset_contact}
use notifymain_wa.Campaigns.Recipients.{NewContact, same_key}
use notifymain_wa.Campaigns.Recipients.Insertion.{
  of_campaign, count-insert_new, IsKeyed, insert_new-IsKeyed,
}
use notifymain_wa.Campaigns.Requests.{
  Request, serve, Change, idle, created, edited, extended, reset, Keeps, grow, inserted,
}
use notifymain_wa.Campaigns.Requests.Effects.{serve-Change}

module _ (w : World) (s : Store) (v : IsConsistent w s) where
  open v use {counted, distinct, keyed, identified, unused, fresh, unowned}

  -- The next moment: ids drawn in between stay fresh.
  pub idle-IsConsistent :
      (draws : ℕ) → s.draws ≤ draws → IsConsistentAt w s.campaigns s.campaign_contacts draws
  idle-IsConsistent draws d = record {
    counted = counted;
    distinct = distinct;
    keyed = keyed;
    identified = identified;
    unused = λ k h. unused k (omega arith);
    fresh = λ k h. fresh k (omega arith);
    unowned = λ k h. unowned k (omega arith);
  }

  pub edited-IsConsistent :
      (id draws : ℕ) (f : Campaign → Campaign)
      → Keeps f
      → s.draws ≤ draws
      → IsConsistentAt w (update_where (is_campaign id) f s.campaigns) s.campaign_contacts draws
  edited-IsConsistent id draws f keeps d = record {
    counted =
        All-update_where (IsCountedIn s.campaign_contacts) (IsCountedIn s.campaign_contacts)
          (is_campaign id) f s.campaigns (λ c e h. rw ((keeps c).0, (keeps c).2) h) (λ c e h. h)
          counted;
    distinct = IsDistinct-update_where (is_campaign id) f s.campaigns (λ c. (keeps c).0) distinct;
    keyed = keyed;
    identified = identified;
    unused = λ k h. unused k (omega arith);
    fresh = λ k h.
        any-update_where (is_campaign (w.new_id k)) (is_campaign id) f s.campaigns
          (λ c. ap (λ i. i == w.new_id k) (keeps c).0)
        ∙ fresh k (omega arith);
    unowned = λ k h. unowned k (omega arith);
  }

-- A write that leaves the campaign and the phone number of a contact alone.
abbrev pub KeepsKey : (CampaignContact → CampaignContact) → Type 0
KeepsKey f =
    (r : CampaignContact)
    → ((f r).campaign_id ≡ r.campaign_id)
      × ((f r).phone_number ≡ r.phone_number)
      × ((f r).id ≡ r.id)

module _ (p : CampaignContact → Bool) (f : CampaignContact → CampaignContact)
    (keeps : KeepsKey f) where
  same_key-write :
      (id : ℕ) (phone : Str) (q : CampaignContact) → same_key id phone (f q) ≡ same_key id phone q
  same_key-write id phone q = rw ((keeps q).0, (keeps q).1)

  IsKeyed-update_where :
      (rows : List CampaignContact) → IsKeyed rows → IsKeyed (update_where p f rows)
  IsKeyed-update_where [] h = tt
  IsKeyed-update_where (r ∷ rows) h =
      let unique : any (same_key r.campaign_id r.phone_number) (update_where p f rows) ≡ false =
        any-update_where (same_key r.campaign_id r.phone_number) p f rows
          (same_key-write r.campaign_id r.phone_number)
        ∙ h.0 in
      elim (Bool-cases (p r)) [
        | inl e ↦ rw (e, (keeps r).0, (keeps r).1) (unique, IsKeyed-update_where rows h.1)
        | inr e ↦ rw e (unique, IsKeyed-update_where rows h.1)
      ]

  count-update_where :
      (rows : List CampaignContact) (id : ℕ)
      → count_where (of_campaign id) (update_where p f rows) ≡ count_where (of_campaign id) rows
  count-update_where rows id =
      count_where-update_where (of_campaign id) p f rows (λ r. ap (λ i. i == id) (keeps r).0)

  pub written-IsConsistent :
      (w : World) (s : Store) (draws : ℕ)
      → IsConsistent w s
      → s.draws ≤ draws
      → IsConsistentAt w s.campaigns (update_where p f s.campaign_contacts) draws
  written-IsConsistent w s draws v d = record {
    counted =
        All-map (IsCountedIn s.campaign_contacts) _ s.campaigns
          (λ c h. h ∙ sym (count-update_where s.campaign_contacts c.id)) v.counted;
    distinct = v.distinct;
    keyed = IsKeyed-update_where s.campaign_contacts v.keyed;
    identified = IsIdentified-update_where p f s.campaign_contacts (λ r. (keeps r).2) v.identified;
    unused = λ k h.
        any-update_where (has_row_id (w.new_id k)) p f s.campaign_contacts
          (λ r. ap (λ i. i == w.new_id k) (keeps r).2)
        ∙ v.unused k (omega arith);
    fresh = λ k h. v.fresh k (omega arith);
    unowned =
        λ k h. count-update_where s.campaign_contacts (w.new_id k) ∙ v.unowned k (omega arith);
  }

module _ (w : World) (t : ℕ) (s : Store) (v : IsConsistent w s) where
  open v use {counted, distinct, keyed, identified, unused, fresh, unowned}

  extended-IsConsistent :
      (id draw draws : ℕ) (c : Campaign) (ns : List NewContact)
      → find_campaign s t id ≡ some c
      → IsGenerator w
      → s.draws ≤ draw
      → draw + (inserted w draw id t ns s).1 ≤ draws
      → IsConsistentAt w
          (update_where (is_campaign id) (grow (inserted w draw id t ns s).1) s.campaigns)
          (inserted w draw id t ns s).0
          draws
  extended-IsConsistent id draw draws c ns found gen from to = record {
    counted =
        All-update_where (IsCountedIn s.campaign_contacts) _ (is_campaign id) _ s.campaigns
          (λ b e h. ground (arith, count-insert_new w id t draw ns s.campaign_contacts b.id))
          (λ b e h. ground (arith, count-insert_new w id t draw ns s.campaign_contacts b.id))
          counted;
    distinct = IsDistinct-update_where (is_campaign id) _ s.campaigns (λ b. refl) distinct;
    keyed = insert_new-IsKeyed w id t draw ns s.campaign_contacts keyed;
    identified = rows.0;
    unused = λ k h. rows.1 k (omega arith);
    fresh = λ k h.
        any-update_where (is_campaign (w.new_id k)) (is_campaign id) _ s.campaigns (λ b. refl)
        ∙ fresh k (omega arith);
    unowned = λ k h. other k (omega arith);
  }
    where
      rows :
          let (table, count) = inserted w draw id t ns s in
          IsIdentified table × IsUnused w (draw + count) table
      rows =
          insert_new-IsIdentified w gen id t draw ns s.campaign_contacts identified
            (λ k h. unused k (omega arith))

      listed : any (is_campaign id) s.campaigns ≡ true
      listed = find_first-any _ (is_campaign id) s.campaigns found (λ x h. ground arith)

      differs : (k : ℕ) → s.draws ≤ k → id ≢ w.new_id k
      differs k h e = ground (arith, listed, fresh k h, ap (λ i. any (is_campaign i) s.campaigns) e)

      other :
          (k : ℕ)
          → s.draws ≤ k
          → count_where (of_campaign (w.new_id k)) (inserted w draw id t ns s).0 ≡ 0
      other k h = ground (
        arith,
        count-insert_new w id t draw ns s.campaign_contacts (w.new_id k),
        unowned k h,
        differs k h,
      )

  created-IsConsistent :
      (k draw draws : ℕ) (c : Campaign) (ns : List NewContact)
      → IsGenerator w
      → s.draws ≤ k
      → k < draws
      → c.id ≡ w.new_id k
      → c.total_contacts ≡ (inserted w draw (w.new_id k) t ns s).1
      → s.draws ≤ draw
      → draw + (inserted w draw (w.new_id k) t ns s).1 ≤ draws
      → IsConsistentAt w (s.campaigns ++ c ∷ []) (inserted w draw (w.new_id k) t ns s).0 draws
  created-IsConsistent k draw draws c ns gen lo hi named total from to = record {
    counted =
        All-snoc _ s.campaigns c
          (All-zip (IsCountedIn s.campaign_contacts) _ _ s.campaigns
            (λ b h e.
              ground (arith, count-insert_new w (w.new_id k) t draw ns s.campaign_contacts b.id))
            counted (All-of_any (is_campaign (w.new_id k)) s.campaigns (fresh k lo)))
          (rw named (
            ground (
              arith,
              count-insert_new w (w.new_id k) t draw ns s.campaign_contacts (w.new_id k),
              unowned k lo,
            )));
    distinct = IsDistinct-snoc s.campaigns c distinct (rw named (fresh k lo));
    keyed = insert_new-IsKeyed w (w.new_id k) t draw ns s.campaign_contacts keyed;
    identified =
        (insert_new-IsIdentified w gen (w.new_id k) t draw ns s.campaign_contacts identified
          (λ j h. unused j (omega arith))).0;
    unused = λ j h.
        (insert_new-IsIdentified w gen (w.new_id k) t draw ns s.campaign_contacts identified
            (λ j h. unused j (omega arith))).1
          j (omega arith);
    fresh = λ j h. ground (
      arith,
      any-append (is_campaign (w.new_id j)) s.campaigns (c ∷ []),
      fresh j (omega arith),
      gen k j,
    );
    unowned = λ j h. ground (
      arith,
      count-insert_new w (w.new_id k) t draw ns s.campaign_contacts (w.new_id j),
      unowned j (omega arith),
      gen k j,
    );
  }

  Change-IsConsistent : (s' : Store) → IsGenerator w → Change w t s s' → IsConsistent w s'
  Change-IsConsistent s' gen (idle ec er d) = rw (ec, er) (idle-IsConsistent w s v s'.draws d)
  Change-IsConsistent s' gen (created k draw c ns lo hi named own st total ec er from to) =
      rw (ec, er) (created-IsConsistent k draw s'.draws c ns gen lo hi named total from to)
  Change-IsConsistent s' gen (edited id c f found keeps al ec er d) =
      rw (ec, er) (edited-IsConsistent w s v id s'.draws f keeps d)
  Change-IsConsistent s' gen (extended id draw c ns found ec er from to) =
      rw (ec, er) (extended-IsConsistent id draw s'.draws c ns found gen from to)
  Change-IsConsistent s' gen (reset p ec er d) =
      rw (ec, er) (written-IsConsistent p reset_contact (λ r. (refl, refl, refl)) w s s'.draws v d)

-- Where the database never repeats an id, every request of any user keeps the tables consistent:
-- each campaign stores the number of its contacts, no campaign has two contacts with one phone
-- number, no two campaigns and no two campaign contacts have one id, and no campaign and no
-- campaign contact has, or belongs to, an id not yet given.
pub serve-IsConsistent :
    (w : World) (t u : ℕ) (q : Request) (s : Store)
    → IsGenerator w
    → IsConsistent w s
    → IsConsistent w (serve w t u q s)
serve-IsConsistent w t u q s gen v =
    Change-IsConsistent w t s v (serve w t u q s) gen (serve-Change w t u q s)
