-- ===== src/Contacts/Requests/Tenancy.antt =====
-- The rows that a request on a contact leaves alone.
use notifymain_wa.Prelude.{
  ℕ, suc, ◌≡◌, refl, inl, inr, not, ◌&&◌, Option, none, some, or_else, is_some, [], ◌==◌, any,
  find_first, Bool-cases, Option-cases,
}
use notifymain_wa.Text.{Str, str_eq, before}
use notifymain_wa.Phone.{normalise_phone}
use notifymain_wa.Campaigns.Data.{Contact, Conversation, Store}
use notifymain_wa.Campaigns.Actions.{
  World, Action, phone_taken, already_linked, require, bind_idle, ◌>>=◌,
}
use notifymain_wa.Contacts.{
  CreateContact, UpdateContact, has_phone, is_present, new_contact, insert_contact, create_contact,
  check_phone, apply_update, is_changed, update_contact, with_tag, add_tag, remove_tag,
  delete_contact, or_create, contact_for, create_from_conversation,
}
use notifymain_wa.Contacts.Owners.{IsKeyed, others_of-insert}
use notifymain_wa.Contacts.Requests.{
  ContactRequest, creating, updating, tagging, untagging, deleting, from_conversation, importing,
  serve_contact,
}
use notifymain_wa.Campaigns.Recipients.Identity.{IsGenerator}
use notifymain_wa.Contacts.Requests.Importing.{IsUnused, import_contacts-IsUntouched}
use notifymain_wa.Contacts.Untouched.{
  contact_key, contact_owner, conversation_key, conversation_owner, IsUntouched, IsUntouched-refl,
  edit-IsUntouched, find-then, backfill-IsUntouched, with_contact, insert-then, require-idle, drawn,
  edit_and_read, link-IsUntouched,
}

create_contact-IsUntouched :
    (w : World) (t : ℕ) (dto : CreateContact) (s : Store)
    → IsUntouched t s (create_contact w t dto s).1
unfolding create_contact
create_contact-IsUntouched w t dto s =
    let c =
      new_contact (w.new_id s.draws) t dto.phone_number dto.name dto.email dto.notes
        (or_else dto.tags []) in
    bind_idle (IsUntouched t s) s
      (require (not (any (has_phone t dto.phone_number) s.contacts)) phone_taken s) _
      (require-idle (not (any (has_phone t dto.phone_number) s.contacts)) phone_taken s)
      (IsUntouched-refl t s)
      (λ _.
        insert-then t c s (record s { draws = suc s.draws }) _ (drawn t s) refl
          (λ h. backfill-IsUntouched t c.id dto.phone_number s _ h))

check_phone-idle :
    (t : ℕ) (c : Contact) (phone : Option Str) (s : Store) → (check_phone t c phone s).1 ≡ s
unfolding check_phone
check_phone-idle t c none s = refl
check_phone-idle t c (some raw) s =
    let result = normalise_phone raw in
    elim (Bool-cases result.valid) [
      | inr invalid ↦ rw (check_phone, invalid)
      | inl valid ↦ elim (Bool-cases (str_eq result.normalised c.phone_number)) [
        | inl same ↦ rw (check_phone, valid, same)
        | inr new ↦ elim (Bool-cases (any (has_phone t result.normalised) s.contacts)) [
          | inl taken ↦ rw (check_phone, valid, new, taken)
          | inr free ↦ rw (check_phone, valid, new, free)
        ]
      ]
    ]

update_contact-IsUntouched :
    (t id : ℕ) (dto : UpdateContact) (s : Store)
    → IsKeyed contact_key contact_owner s.contacts
    → IsUntouched t s (update_contact t id dto s).1
unfolding update_contact
update_contact-IsUntouched t id dto s u =
    find-then (IsUntouched t s) t id s _ (IsUntouched-refl t s) (λ c found.
      bind_idle (IsUntouched t s) s (check_phone t c dto.phone_number s) _
        (check_phone-idle t c dto.phone_number s) (IsUntouched-refl t s)
        (λ phone.
          let edited = edit-IsUntouched t id c (apply_update dto phone) s u found (λ d. refl) in
          elim (Bool-cases (is_changed c phone)) [
            | inl e ↦ rw e (backfill-IsUntouched t id (or_else phone []) s _ edited)
            | inr e ↦ rw e edited
          ]))

with_tag-owner : (text : Str) (c : Contact) → (with_tag text c).tenant_id ≡ c.tenant_id
with_tag-owner text c = elim (Bool-cases (any (λ u. str_eq u text) c.tags)) [
  | inl e ↦ rw e
  | inr e ↦ rw e
]

add_tag-IsUntouched :
    (t id : ℕ) (text : Str) (s : Store)
    → IsKeyed contact_key contact_owner s.contacts
    → IsUntouched t s (add_tag t id text s).1
unfolding add_tag
add_tag-IsUntouched t id text s u = edit_and_read t id (with_tag text) s u (with_tag-owner text)

remove_tag-IsUntouched :
    (t id : ℕ) (text : Str) (s : Store)
    → IsKeyed contact_key contact_owner s.contacts
    → IsUntouched t s (remove_tag t id text s).1
unfolding remove_tag
remove_tag-IsUntouched t id text s u = edit_and_read t id _ s u (λ d. refl)

delete_contact-IsUntouched :
    (w : World) (t id : ℕ) (s : Store)
    → IsKeyed contact_key contact_owner s.contacts
    → IsUntouched t s (delete_contact w t id s).1
unfolding delete_contact
delete_contact-IsUntouched w t id s u =
    find-then (IsUntouched t s) t id s _ (IsUntouched-refl t s) (λ c found.
      let edited =
        edit-IsUntouched t id c (λ d. record d { deleted_at = some (w.now s.draws) }) s u found
          (λ d. refl) in
      record { contacts_kept = edited.contacts_kept; conversations_kept = refl })

or_create-then :
    {B : Type 0} (w : World) (t : ℕ) (phone : Str) (o : Option Contact) (s : Store)
    (k : Contact → Action B)
    → ((c : Contact) (now : Store)
        → now.conversations ≡ s.conversations
        → IsUntouched t s now
        → IsUntouched t s (k c now).1)
    → IsUntouched t s ((or_create w t phone o >>= k) s).1
unfolding or_create insert_contact
or_create-then w t phone (some c) s k go = go c s refl (IsUntouched-refl t s)
or_create-then w t phone none s k go =
    let c = new_contact (w.new_id s.draws) t phone (before b'@' phone) none none [] in
    let now = record s { draws = suc s.draws } in
    elim (Bool-cases (any (has_phone t phone) s.contacts)) [
      | inl taken ↦ rw taken (drawn t s)
      | inr free ↦ rw free (
          go c (with_contact c now) refl (record {
            contacts_kept = others_of-insert contact_key contact_owner t c s.contacts refl;
            conversations_kept = refl;
          }))
    ]

create_from_conversation-IsUntouched :
    (w : World) (t id : ℕ) (s : Store)
    → IsKeyed conversation_key conversation_owner s.conversations
    → IsUntouched t s (create_from_conversation w t id s).1
unfolding create_from_conversation contact_for
create_from_conversation-IsUntouched w t id s u =
    elim (Option-cases
      (find_first (λ (c : Conversation). (c.id == id) && (c.tenant_id == t)) s.conversations)) [
        | inl e ↦ rw (create_from_conversation, e) (IsUntouched-refl t s)
        | inr (c, e) ↦
            rw (create_from_conversation, e)
              (bind_idle (IsUntouched t s) s (require (not (is_some c.contact_id)) already_linked s)
                _ (require-idle (not (is_some c.contact_id)) already_linked s)
                (IsUntouched-refl t s)
                (λ _.
                  or_create-then w t c.phone_number
                    (find_first (λ d. has_phone t c.phone_number d && is_present d) s.contacts) s _
                    (λ d now same h. link-IsUntouched t id c d.id s now u e same h)))
      ]

-- Where no two contacts and no two conversations have one id, and the database gives no id twice and
-- none that a contact has already, a request of one tenant, an import included, leaves every contact
-- and every conversation of the other tenants as it was.
pub serve_contact-IsUntouched :
    (w : World) (t : ℕ) (q : ContactRequest) (s : Store)
    → IsGenerator w
    → IsKeyed contact_key contact_owner s.contacts
    → IsUnused w s
    → IsKeyed conversation_key conversation_owner s.conversations
    → IsUntouched t s (serve_contact w t q s)
unfolding serve_contact
serve_contact-IsUntouched w t (creating dto) s gen u n v = create_contact-IsUntouched w t dto s
serve_contact-IsUntouched w t (updating id dto) s gen u n v =
    update_contact-IsUntouched t id dto s u
serve_contact-IsUntouched w t (tagging id text) s gen u n v = add_tag-IsUntouched t id text s u
serve_contact-IsUntouched w t (untagging id text) s gen u n v = remove_tag-IsUntouched t id text s u
serve_contact-IsUntouched w t (deleting id) s gen u n v = delete_contact-IsUntouched w t id s u
serve_contact-IsUntouched w t (from_conversation id) s gen u n v =
    create_from_conversation-IsUntouched w t id s v
serve_contact-IsUntouched w t (importing none) s gen u n v = IsUntouched-refl t s
serve_contact-IsUntouched w t (importing (some rows)) s gen u n v =
    import_contacts-IsUntouched w t rows s gen u n
