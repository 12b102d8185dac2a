-- ===== src/Contacts.antt =====
-- backend/src/contacts/contacts.service.ts: the operations on contacts that change the database. A
-- phone number of a new contact was normalised before. The rows of the tags are the `tags` of the
-- contact, in the order of their creation.
pub mod Import
pub mod Requests
pub mod Owners
pub mod Untouched
use notifymain_wa.Prelude.{
  ℕ, suc, Bool, true, false, not, ◌&&◌, ◌||◌, Option, none, some, or_else, is_some, List, [], ◌∷◌,
  ◌++◌, ◌==◌, if◌then◌else◌, any, keep, find_first, update_where,
}
use notifymain_wa.Text.{Str, str_eq, before}
use notifymain_wa.Phone.{NormaliseResult, normalise_phone, no_digits}
use notifymain_wa.Campaigns.Data.{Contact, Conversation, Store}
use notifymain_wa.Campaigns.Actions.{
  World, Action, throws, ok, contact_not_found, phone_taken, conversation_not_found, already_linked,
  invalid_phone, duplicate_key, ◌>>=◌, ◌>>◌, pure, throw, found_or, get, modify, require,
  read_clock, generate_id,
}

pub record CreateContact : Type 0 where
  pub phone_number : Str
  pub name : Str
  pub email : Option Str
  pub notes : Option Str
  pub tags : Option (List Str)

pub record UpdateContact : Type 0 where
  pub phone_number : Option Str
  pub name : Option Str
  pub email : Option Str
  pub notes : Option Str
  pub is_blocked : Option Bool
  pub is_opted_out : Option Bool

abbrev pub has_id : ℕ → Contact → Bool
has_id id c = c.id == id

-- `{ tenantId_phoneNumber: … }`, of deleted rows too.
abbrev pub has_phone : ℕ → Str → Contact → Bool
has_phone t phone c = (c.tenant_id == t) && str_eq c.phone_number phone

abbrev pub is_present : Contact → Bool
is_present c = not (is_some c.deleted_at)

abbrev pub update_contacts : (Contact → Bool) → (Contact → Contact) → Store → Store
update_contacts p f s = record s { contacts = update_where p f s.contacts }

unfoldable pub find_contact_or_throw : ℕ → ℕ → Action Contact
find_contact_or_throw t id = get >>= λ s.
    found_or
      (find_first (λ (c : Contact). (c.id == id) && (c.tenant_id == t) && is_present c) s.contacts)
      contact_not_found

abbrev pub is_unlinked : ℕ → Str → Conversation → Bool
is_unlinked t phone c =
    (c.tenant_id == t) && str_eq c.phone_number phone && not (is_some c.contact_id)

abbrev pub link : ℕ → Conversation → Conversation
link id c = record c { contact_id = some id }

unfoldable pub backfill_conversation_links : ℕ → ℕ → Str → Store → Store
backfill_conversation_links t id phone s = record s {
  conversations = update_where (is_unlinked t phone) (link id) s.conversations;
}

abbrev pub new_contact : ℕ → ℕ → Str → Str → Option Str → Option Str → List Str → Contact
new_contact id t phone name email notes tags = record {
  id = id;
  tenant_id = t;
  phone_number = phone;
  name = name;
  whatsapp_name = none;
  email = email;
  notes = notes;
  is_blocked = false;
  is_opted_out = false;
  deleted_at = none;
  tags = tags;
}

-- Whether a text stands twice in a list.
abbrev pub has_repeat : List Str → Bool
has_repeat [] = false
has_repeat (t ∷ ts) = any (λ u. str_eq u t) ts || has_repeat ts

-- `contact.create` with its tags: the keys of the two tables refuse a second row.
unfoldable pub insert_contact : Contact → Action (Unit {0})
insert_contact c = get >>= λ s.
    if any (has_phone c.tenant_id c.phone_number) s.contacts || has_repeat c.tags
    then throw duplicate_key
    else modify (λ s. record s { contacts = s.contacts ++ c ∷ [] })

unfoldable pub create_contact : World → ℕ → CreateContact → Action Contact
unfolding insert_contact backfill_conversation_links
create_contact w t dto = get >>= λ s.
    require (not (any (has_phone t dto.phone_number) s.contacts)) phone_taken
    >> (generate_id w >>= λ id.
        let c =
          new_contact id t dto.phone_number dto.name dto.email dto.notes (or_else dto.tags []) in
        insert_contact c >> (modify (backfill_conversation_links t id dto.phone_number) >> pure c))

-- The phone number to be written, if one is given.
unfoldable pub check_phone : ℕ → Contact → Option Str → Action (Option Str)
unfolding normalise_phone
check_phone t current none = pure none
check_phone t current (some raw) =
    let result = normalise_phone raw in
    if not result.valid
    then throw (invalid_phone (or_else result.reason no_digits))
    else if str_eq result.normalised current.phone_number
    then pure (some result.normalised)
    else (get >>= λ s.
        require (not (any (has_phone t result.normalised) s.contacts)) phone_taken
        >> pure (some result.normalised))

abbrev pub apply_update : UpdateContact → Option Str → Contact → Contact
apply_update dto phone c = record c {
  name = or_else dto.name c.name;
  email = elim dto.email [ none ↦ c.email | some e ↦ some e ];
  notes = elim dto.notes [ none ↦ c.notes | some n ↦ some n ];
  phone_number = or_else phone c.phone_number;
  is_blocked = or_else dto.is_blocked c.is_blocked;
  is_opted_out = or_else dto.is_opted_out c.is_opted_out;
}

abbrev pub is_changed : Contact → Option Str → Bool
is_changed current none = false
is_changed current (some phone) = not (str_eq phone current.phone_number)

unfoldable pub update_contact : ℕ → ℕ → UpdateContact → Action Contact
unfolding find_contact_or_throw check_phone backfill_conversation_links
update_contact t id dto = find_contact_or_throw t id >>= λ current.
    check_phone t current dto.phone_number >>= λ phone.
    modify (update_contacts (has_id id) (apply_update dto phone))
    >> ((if is_changed current phone
          then modify (backfill_conversation_links t id (or_else phone []))
          else pure tt)
        >> pure (apply_update dto phone current))

abbrev pub with_tag : Str → Contact → Contact
with_tag tag c =
    if any (λ u. str_eq u tag) c.tags then c else record c { tags = c.tags ++ tag ∷ [] }

unfoldable pub add_tag : ℕ → ℕ → Str → Action Contact
unfolding find_contact_or_throw
add_tag t id tag =
    find_contact_or_throw t id
    >> (modify (update_contacts (has_id id) (with_tag tag)) >> find_contact_or_throw t id)

unfoldable pub remove_tag : ℕ → ℕ → Str → Action Contact
unfolding find_contact_or_throw
remove_tag t id tag =
    find_contact_or_throw t id
    >> (modify (
          update_contacts (has_id id)
            (λ c. record c { tags = keep (λ u. not (str_eq u tag)) c.tags }))
        >> find_contact_or_throw t id)

unfoldable pub delete_contact : World → ℕ → ℕ → Action (Unit {0})
unfolding find_contact_or_throw
delete_contact w t id =
    find_contact_or_throw t id
    >> (read_clock w >>= λ now.
        modify (update_contacts (has_id id) (λ c. record c { deleted_at = some now })))

unfoldable pub or_create : World → ℕ → Str → Option Contact → Action Contact
unfolding insert_contact
or_create w t phone (some c) = pure c
or_create w t phone none = generate_id w >>= λ id.
    let c = new_contact id t phone (before b'@' phone) none none [] in insert_contact c >> pure c

-- The contact of the phone number that is not deleted, or a new one.
unfoldable pub contact_for : World → ℕ → Str → Action Contact
unfolding or_create
contact_for w t phone = get >>= λ s.
    or_create w t phone (find_first (λ c. has_phone t phone c && is_present c) s.contacts)

unfoldable pub create_from_conversation : World → ℕ → ℕ → Action Contact
unfolding contact_for before
create_from_conversation w t id = get >>= λ s.
    found_or (find_first (λ (c : Conversation). (c.id == id) && (c.tenant_id == t)) s.conversations)
      conversation_not_found
    >>= λ conversation.
        require (not (is_some conversation.contact_id)) already_linked
        >> (contact_for w t conversation.phone_number >>= λ c.
            modify (λ s. record s {
              conversations =
                  update_where (λ (d : Conversation). d.id == id) (link c.id) s.conversations;
            })
            >> pure (record c { tags = [] }))
