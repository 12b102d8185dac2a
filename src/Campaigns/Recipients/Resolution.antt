-- ===== src/Campaigns/Recipients/Resolution.antt =====
-- Which recipients `resolveRecipients` finds.
use notifymain_wa.Prelude.{
  ℕ, ◌≡◌, refl, sym, ap, ◌∙◌, Bool, true, false, ◌&&◌, ◌||◌, Option, none, some, List, [], ◌∷◌,
  ◌++◌, map, arith, any, keep, All, All-map, Bool-cases, inl, inr, ◌==◌, ==_refl, is_empty, length,
}
use notifymain_wa.Text.{Str, str_eq}
use notifymain_wa.Text.Laws.{str_eq_iff}
use notifymain_wa.Campaigns.Data.{Contact}
use notifymain_wa.Campaigns.Actions.{Result, ok, throws, invalid_contact_ids}
use notifymain_wa.Campaigns.Recipients.{
  Recipient, recipient_of, is_live, has_tag, listed, set_recipient, dedupe, by_id, by_tag, combine,
  resolve_recipients,
}

-- A row of the tenant that is not deleted has the id and the phone number.
abbrev is_row : ℕ → Recipient → Contact → Bool
is_row tenant_id r c = (c.id == r.id) && str_eq c.phone_number r.phone_number && is_live tenant_id c

abbrev pub IsKnown : List Contact → ℕ → Recipient → Type 0
IsKnown contacts tenant_id r = any (is_row tenant_id r) contacts ≡ true

abbrev has_id : ℕ → Recipient → Bool
has_id id r = r.id == id

-- No two recipients are one contact.
abbrev pub AreDistinct : List Recipient → Type 0
AreDistinct [] = Unit
AreDistinct (r ∷ rs) = (any (has_id r.id) rs ≡ false) × AreDistinct rs

set_recipient-any :
    (id : ℕ) (r : Recipient) (rs : List Recipient)
    → any (has_id id) (set_recipient r rs) ≡ (any (has_id id) rs || r.id == id)
unfolding set_recipient
set_recipient-any id r [] = ground arith
set_recipient-any id r (q ∷ qs) = ground (arith, set_recipient-any id r qs)

set_recipient-AreDistinct :
    (r : Recipient) (rs : List Recipient) → AreDistinct rs → AreDistinct (set_recipient r rs)
unfolding set_recipient
set_recipient-AreDistinct r [] h = (refl, tt)
set_recipient-AreDistinct r (q ∷ qs) h = elim (Bool-cases (q.id == r.id)) [
  | inl e ↦
      let same : q.id ≡ r.id = ground arith in
      rw e (ap (λ id. any (has_id id) qs) (sym same) ∙ h.0, h.1)
  | inr e ↦
      rw e (set_recipient-any q.id r qs ∙ ground (arith, h.0), set_recipient-AreDistinct r qs h.1)
]

module _ (P : Recipient → Type 0) where
  set_recipient-All :
      (r : Recipient) (rs : List Recipient) → P r → All P rs → All P (set_recipient r rs)
  unfolding set_recipient
  set_recipient-All r [] h k = (h, tt)
  set_recipient-All r (q ∷ qs) h k = elim (Bool-cases (q.id == r.id)) [
    | inl e ↦ rw e (h, k.1)
    | inr e ↦ rw e (k.0, set_recipient-All r qs h k.1)
  ]

  dedupe-All : (entries rs : List Recipient) → All P entries → All P rs → All P (dedupe entries rs)
  unfolding dedupe
  dedupe-All entries [] h k = h
  dedupe-All entries (r ∷ rs) h k =
      dedupe-All (set_recipient r entries) rs (set_recipient-All r entries k.0 h) k.1

  append-All : (rs qs : List Recipient) → All P rs → All P qs → All P (rs ++ qs)
  append-All [] qs h k = k
  append-All (r ∷ rs) qs h k = (h.0, append-All rs qs h.1 k)

dedupe-AreDistinct :
    (entries rs : List Recipient) → AreDistinct entries → AreDistinct (dedupe entries rs)
unfolding dedupe
dedupe-AreDistinct entries [] h = h
dedupe-AreDistinct entries (r ∷ rs) h =
    dedupe-AreDistinct (set_recipient r entries) rs (set_recipient-AreDistinct r entries h)

-- Rows that are kept by a test which only live rows pass.
keep-IsKnown :
    (tenant_id : ℕ) (p : Contact → Bool) (contacts : List Contact)
    → ((c : Contact) → p c ≡ true → is_live tenant_id c ≡ true)
    → All (IsKnown contacts tenant_id) (map recipient_of (keep p contacts))
keep-IsKnown tenant_id p [] live = tt
keep-IsKnown tenant_id p (c ∷ contacts) live =
    let rest =
      All-map (IsKnown contacts tenant_id) (IsKnown (c ∷ contacts) tenant_id)
        (map recipient_of (keep p contacts)) (λ r h. ground (arith, h))
        (keep-IsKnown tenant_id p contacts live) in
    elim (Bool-cases (p c)) [
      | inl e ↦
          rw e
            (ground (arith, ==_refl c.id, str_eq_iff c.phone_number c.phone_number, live c e), rest)
      | inr e ↦ rw e rest
    ]

by_tag-IsKnown :
    (contacts : List Contact) (tenant_id : ℕ) (tags : Option (List Str))
    → All (IsKnown contacts tenant_id) (by_tag contacts tenant_id tags)
unfolding by_tag
by_tag-IsKnown contacts tenant_id none = tt
by_tag-IsKnown contacts tenant_id (some tags) = elim (Bool-cases (is_empty tags)) [
  | inl e ↦ rw e tt
  | inr e ↦ rw e (
      keep-IsKnown tenant_id (λ c. is_live tenant_id c && has_tag tags c) contacts
        (λ c h. ground arith))
]

-- What a result is to be.
abbrev pub IsResolved : List Contact → ℕ → Result (List Recipient) → Type 0
IsResolved contacts tenant_id (ok rs) = All (IsKnown contacts tenant_id) rs × AreDistinct rs
IsResolved contacts tenant_id (throws e) = e ≡ invalid_contact_ids

combine-IsResolved :
    (contacts : List Contact) (tenant_id : ℕ) (found : List Recipient) (more : List Recipient)
    → All (IsKnown contacts tenant_id) found
    → All (IsKnown contacts tenant_id) more
    → IsResolved contacts tenant_id (combine (ok found) more)
combine-IsResolved contacts tenant_id found more h k = (
  dedupe-All (IsKnown contacts tenant_id) [] (found ++ more) tt
      (append-All (IsKnown contacts tenant_id) found more h k),
  dedupe-AreDistinct [] (found ++ more) tt,
)

-- The recipients that are found are contacts of the tenant which are not deleted, with their phone
-- numbers, and none is found twice; the only failure is that of an invalid contact id.
pub resolve_recipients-IsResolved :
    (contacts : List Contact) (tenant_id : ℕ) (contact_ids : Option (List ℕ))
    (tags : Option (List Str))
    → IsResolved contacts tenant_id (resolve_recipients contacts tenant_id contact_ids tags)
unfolding resolve_recipients by_id
resolve_recipients-IsResolved contacts tenant_id none tags =
    combine-IsResolved contacts tenant_id [] (by_tag contacts tenant_id tags) tt
      (by_tag-IsKnown contacts tenant_id tags)
resolve_recipients-IsResolved contacts tenant_id (some ids) tags =
    let tagged = by_tag contacts tenant_id tags in
    let k = by_tag-IsKnown contacts tenant_id tags in
    let rows = keep (λ c. listed ids c && is_live tenant_id c) contacts in
    elim (Bool-cases (is_empty ids)) [
      | inl e ↦ rw e (combine-IsResolved contacts tenant_id [] tagged tt k)
      | inr e ↦ rw e elim (Bool-cases (length rows == length ids)) [
        | inl all_there ↦ rw all_there (
            combine-IsResolved contacts tenant_id (map recipient_of rows) tagged
              (keep-IsKnown tenant_id (λ c. listed ids c && is_live tenant_id c) contacts
                (λ c h. ground arith))
              k)
        | inr missing ↦ rw missing refl
      ]
    ]
