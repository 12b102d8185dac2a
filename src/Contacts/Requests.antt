-- ===== src/Contacts/Requests.antt =====
-- backend/src/contacts/contacts.controller.ts: the requests of users that change contacts.
pub mod Importing
pub mod Tenancy
use notifymain_wa.Prelude.{ℕ, Option, none, some, List}
use notifymain_wa.Text.{Str}
use notifymain_wa.Campaigns.Data.{Store}
use notifymain_wa.Campaigns.Actions.{World}
use notifymain_wa.Contacts.{
  CreateContact, UpdateContact, create_contact, create_from_conversation, update_contact, add_tag,
  remove_tag, delete_contact,
}
use notifymain_wa.Contacts.Import.{ImportRow, import_contacts}

pub data ContactRequest : Type 0 where
  creating : CreateContact → ContactRequest
  updating : ℕ → UpdateContact → ContactRequest
  tagging untagging : ℕ → Str → ContactRequest
  deleting from_conversation : ℕ → ContactRequest
  -- the rows of the file, or none where the parser throws
  importing : Option (List ImportRow) → ContactRequest

-- The store after a request of the tenant.
unfoldable pub serve_contact : World → ℕ → ContactRequest → Store → Store
unfolding create_contact create_from_conversation update_contact add_tag remove_tag delete_contact
    import_contacts
serve_contact w t (creating dto) s = (create_contact w t dto s).1
serve_contact w t (updating id dto) s = (update_contact t id dto s).1
serve_contact w t (tagging id text) s = (add_tag t id text s).1
serve_contact w t (untagging id text) s = (remove_tag t id text s).1
serve_contact w t (deleting id) s = (delete_contact w t id s).1
serve_contact w t (from_conversation id) s = (create_from_conversation w t id s).1
serve_contact w t (importing none) s = s
serve_contact w t (importing (some rows)) s = (import_contacts w t rows s).1
