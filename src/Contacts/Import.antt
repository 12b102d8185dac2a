-- ===== src/Contacts/Import.antt =====
-- `importContacts` of backend/src/contacts/contacts.service.ts. The parser gives the rows or fails;
-- a column that is missing is absent.
pub mod Accounts
use notifymain_wa.Prelude.{
  ℕ, suc, ◌+◌, ◌≡◌, refl, inl, inr, Bool, true, false, not, ◌&&◌, Option, none, some, or_else,
  is_empty, List, [], ◌∷◌, ◌++◌, ◌==◌, if◌then◌else◌, any, keep, map, find_first, length,
  length-append, arith, Bool-cases, Option-cases,
}
use notifymain_wa.Text.{Str, codes, trim}
use notifymain_wa.Phone.{Reason, normalise_phone}
use notifymain_wa.ApiKeys.Addresses.{split}
use notifymain_wa.Campaigns.Data.{Contact, Store}
use notifymain_wa.Campaigns.Actions.{World, Result, ok, throws, Failure, generate_id}
use notifymain_wa.Contacts.{
  has_id, has_phone, update_contacts, backfill_conversation_links, new_contact, insert_contact,
  with_tag,
}

pub record ImportRow : Type 0 where
  pub phone_number : Option Str
  pub name : Option Str
  pub email : Option Str
  pub tags : Option Str

pub data RowError : Type 0 where
  missing_phone missing_name : RowError
  invalid_phone : Option Reason → RowError
  failed : Failure → RowError

pub record ImportResult : Type 0 where
  pub created : ℕ
  pub updated : ℕ
  pub skipped : ℕ
  pub errors : List (ℕ × RowError)

-- A text that is there and not empty.
abbrev pub given : Option Str → Option Str
given none = none
given (some s) = if is_empty s then none else some s

unfoldable pub tags_of : Option Str → List Str
unfolding split
tags_of raw = elim (given raw) [
  | none ↦ []
  | some s ↦ keep (λ t. not (is_empty t)) (map trim (split b',' s))
]

abbrev pub with_tags : List Str → Contact → Contact
with_tags [] c = c
with_tags (tag ∷ tags) c = with_tags tags (with_tag tag c)

-- The contact of the number, deleted or not, is written and is no longer deleted.
abbrev pub revive : ImportRow → Str → List Str → Contact → Contact
revive row name tags c = with_tags tags (record c {
  name = name;
  email = elim row.email [ none ↦ c.email | some e ↦ some e ];
  deleted_at = none;
})

pub data RowOutcome : Type 0 where
  row_created row_updated : RowOutcome
  row_skipped : RowError → RowOutcome

abbrev pub after_insert : ℕ → ℕ → Str → Result (Unit {0}) × Store → RowOutcome × Store
after_insert t id phone (throws e, s) = (row_skipped (failed e), s)
after_insert t id phone (ok _, s) = (row_created, backfill_conversation_links t id phone s)

unfoldable pub write_row : World → ℕ → ImportRow → (phone name : Str) → Store → RowOutcome × Store
unfolding insert_contact backfill_conversation_links tags_of
write_row w t row phone name s =
    let tags = tags_of row.tags in
    elim (find_first (has_phone t phone) s.contacts) [
      | some c ↦ (row_updated, update_contacts (has_id c.id) (revive row name tags) s)
      | none ↦
          let id = w.new_id s.draws in
          after_insert t id phone (
            insert_contact (new_contact id t phone name (given row.email) none tags)
              (record s { draws = suc s.draws }))
    ]

unfoldable pub import_row : World → ℕ → ImportRow → Store → RowOutcome × Store
unfolding write_row normalise_phone
import_row w t row s = elim (given row.phone_number) [
  | none ↦ (row_skipped missing_phone, s)
  | some raw ↦ elim (given row.name) [
    | none ↦ (row_skipped missing_name, s)
    | some name ↦
        let result = normalise_phone raw in
        if not result.valid
        then (row_skipped (invalid_phone result.reason), s)
        else write_row w t row result.normalised name s
  ]
]

abbrev pub count_row : ℕ → RowOutcome → ImportResult → ImportResult
count_row number row_created r = record r { created = suc r.created }
count_row number row_updated r = record r { updated = suc r.updated }
count_row number (row_skipped e) r = record r {
  skipped = suc r.skipped;
  errors = r.errors ++ (number, e) ∷ [];
}

-- The loop, from a row of this number on.
unfoldable pub import_rows :
    World → ℕ → ℕ → List ImportRow → ImportResult × Store → ImportResult × Store
unfolding import_row
import_rows w t number [] acc = acc
import_rows w t number (row ∷ rows) (r, s) =
    let (outcome, next) = import_row w t row s in
    import_rows w t (suc number) rows (count_row number outcome r, next)

abbrev pub empty_result : ImportResult
empty_result = record { created = 0; updated = 0; skipped = 0; errors = [] }

unfoldable pub import_contacts : World → ℕ → List ImportRow → Store → ImportResult × Store
unfolding import_rows
import_contacts w t rows s = import_rows w t 2 rows (empty_result, s)
