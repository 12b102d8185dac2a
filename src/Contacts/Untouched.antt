-- ===== src/Contacts/Untouched.antt =====
-- What leaves the rows of other tenants alone: the steps that the operations on contacts are made of.
use notifymain_wa.Prelude.{
  ℕ, suc, ◌≡◌, refl, ◌∙◌, inl, inr, Bool, true, false, ◌&&◌, ◌||◌, Option, none, some, [], ◌∷◌,
  ◌++◌, ◌==◌, ==_iff, any, find_first, find_first-satisfies, update_where, arith, Bool-cases,
  Option-cases,
}
use notifymain_wa.Text.{Str}
use notifymain_wa.Campaigns.Data.{Contact, Conversation, Store}
use notifymain_wa.Campaigns.Actions.{
  Action, Failure, contact_not_found, require, found_or, ◌>>=◌, ◌>>◌, modify,
}
use notifymain_wa.Contacts.{
  has_id, has_phone, has_repeat, is_present, is_unlinked, link, update_contacts,
  find_contact_or_throw, backfill_conversation_links, insert_contact,
}
use notifymain_wa.Contacts.Owners.{
  IsKeyed, others_of, others_of-update_where, others_of-insert, others_of-update_found,
}

abbrev pub contact_key : Contact → ℕ
contact_key c = c.id

abbrev pub contact_owner : Contact → ℕ
contact_owner c = c.tenant_id

abbrev pub conversation_key : Conversation → ℕ
conversation_key c = c.id

abbrev pub conversation_owner : Conversation → ℕ
conversation_owner c = c.tenant_id

-- The contacts and the conversations of the other tenants are the same in both stores.
pub record IsUntouched (t : ℕ) (s next : Store) : Type 0 where
  pub contacts_kept :
      others_of contact_key contact_owner t next.contacts
      ≡ others_of contact_key contact_owner t s.contacts
  pub conversations_kept :
      others_of conversation_key conversation_owner t next.conversations
      ≡ others_of conversation_key conversation_owner t s.conversations

pub IsUntouched-refl : (t : ℕ) (s : Store) → IsUntouched t s s
IsUntouched-refl t s = record { contacts_kept = refl; conversations_kept = refl }

-- The row that was looked for has the id and the tenant that were asked for.
abbrev pub is_wanted : ℕ → ℕ → Contact → Bool
is_wanted t id c = (c.id == id) && (c.tenant_id == t) && is_present c

pub edit-IsUntouched :
    (t id : ℕ) (c : Contact) (f : Contact → Contact) (s : Store)
    → IsKeyed contact_key contact_owner s.contacts
    → find_first (is_wanted t id) s.contacts ≡ some c
    → ((d : Contact) → (f d).tenant_id ≡ d.tenant_id)
    → IsUntouched t s (update_contacts (has_id id) f s)
edit-IsUntouched t id c f s u found keeps =
    let fits = find_first-satisfies (is_wanted t id) s.contacts {r = c} found in
    let named : (c.id == id) ≡ true = ground arith in
    let own : (c.tenant_id == t) ≡ true = ground arith in
    record {
      contacts_kept =
          others_of-update_found contact_key contact_owner t id (is_wanted t id) c f s.contacts u
            found ((==_iff _ _).0 named) ((==_iff _ _).0 own) keeps;
      conversations_kept = refl;
    }

-- What follows a lookup need only be looked at for a contact that was found.
pub find-then :
    {B : Type 0} (P : Store → Type 0) (t id : ℕ) (s : Store) (k : Contact → Action B)
    → P s
    → ((c : Contact) → find_first (is_wanted t id) s.contacts ≡ some c → P (k c s).1)
    → P ((find_contact_or_throw t id >>= k) s).1
unfolding find_contact_or_throw
find-then P t id s k idle go = elim (Option-cases (find_first (is_wanted t id) s.contacts)) [
  | inl e ↦ rw (find_contact_or_throw, e) idle
  | inr (c, e) ↦ rw (find_contact_or_throw, e) (go c e)
]

pub backfill-IsUntouched :
    (t id : ℕ) (phone : Str) (s next : Store)
    → IsUntouched t s next
    → IsUntouched t s (backfill_conversation_links t id phone next)
unfolding backfill_conversation_links
backfill-IsUntouched t id phone s next h = record {
  contacts_kept = h.contacts_kept;
  conversations_kept =
      others_of-update_where conversation_key conversation_owner t (is_unlinked t phone) (link id)
        next.conversations (λ c e. ground arith) (λ c. refl)
      ∙ h.conversations_kept;
}

abbrev pub with_contact : Contact → Store → Store
with_contact c s = record s { contacts = s.contacts ++ c ∷ [] }

-- A new contact of the tenant, if the database takes it.
pub insert-then :
    {B : Type 0} (t : ℕ) (c : Contact) (s now : Store) (k : Unit {0} → Action B)
    → IsUntouched t s now
    → c.tenant_id ≡ t
    → (IsUntouched t s (with_contact c now) → IsUntouched t s (k tt (with_contact c now)).1)
    → IsUntouched t s ((insert_contact c >>= k) now).1
unfolding insert_contact
insert-then t c s now k h own go =
    elim (Bool-cases
      (any (has_phone c.tenant_id c.phone_number) now.contacts || has_repeat c.tags)) [
        | inl refused ↦ rw (insert_contact, refused) h
        | inr free ↦
            rw (insert_contact, free)
              (go (record {
                contacts_kept =
                    others_of-insert contact_key contact_owner t c now.contacts own
                    ∙ h.contacts_kept;
                conversations_kept = h.conversations_kept;
              }))
      ]

pub require-idle : (b : Bool) (e : Failure) (s : Store) → (require b e s).1 ≡ s
require-idle true e s = refl
require-idle false e s = refl

found_or-idle : {A : Type 0} (o : Option A) (e : Failure) (s : Store) → (found_or o e s).1 ≡ s
found_or-idle none e s = refl
found_or-idle (some a) e s = refl

pub drawn : (t : ℕ) (s : Store) → IsUntouched t s (record s { draws = suc s.draws })
drawn t s = record { contacts_kept = refl; conversations_kept = refl }

-- An edit of the contact that was found, before it is read again.
pub edit_and_read :
    (t id : ℕ) (f : Contact → Contact) (s : Store)
    → IsKeyed contact_key contact_owner s.contacts
    → ((d : Contact) → (f d).tenant_id ≡ d.tenant_id)
    → IsUntouched t s
        ((find_contact_or_throw t id
            >> (modify (update_contacts (has_id id) f) >> find_contact_or_throw t id))
          s).1
unfolding find_contact_or_throw
edit_and_read t id f s u keeps =
    find-then (IsUntouched t s) t id s _ (IsUntouched-refl t s) (λ c found.
      let edited = edit-IsUntouched t id c f s u found keeps in
      rw
        (found_or-idle (find_first (is_wanted t id) (update_where (has_id id) f s.contacts))
          contact_not_found (update_contacts (has_id id) f s))
        edited)

-- The conversation is given a contact after a contact was looked up or made.
pub link-IsUntouched :
    (t id : ℕ) (c : Conversation) (key : ℕ) (s now : Store)
    → IsKeyed conversation_key conversation_owner s.conversations
    → find_first (λ (d : Conversation). (d.id == id) && (d.tenant_id == t)) s.conversations ≡ some c
    → now.conversations ≡ s.conversations
    → IsUntouched t s now
    → IsUntouched t s (record now {
      conversations = update_where (λ (d : Conversation). d.id == id) (link key) now.conversations;
    })
link-IsUntouched t id c key s now u found same h =
    let wanted = λ (d : Conversation). (d.id == id) && (d.tenant_id == t) in
    let fits = find_first-satisfies wanted s.conversations {r = c} found in
    let named : (c.id == id) ≡ true = ground arith in
    let own : (c.tenant_id == t) ≡ true = ground arith in
    record {
      contacts_kept = h.contacts_kept;
      conversations_kept = rw same (
          others_of-update_found conversation_key conversation_owner t id wanted c (link key)
            s.conversations u found ((==_iff _ _).0 named) ((==_iff _ _).0 own) (λ d. refl));
    }
