-- ===== src/Contacts/Import/Accounts.antt =====
-- The counts that the import of contacts answers with.
use notifymain_wa.Prelude.{
  ℕ, suc, ◌+◌, ◌≡◌, refl, inl, inr, ◌||◌, none, List, [], ◌∷◌, length, any, find_first,
  length-append, length-update_where, arith, Bool-cases, Option-cases,
}
use notifymain_wa.Text.{Str}
use notifymain_wa.Phone.{normalise_phone}
use notifymain_wa.Campaigns.Data.{Store}
use notifymain_wa.Campaigns.Actions.{World}
use notifymain_wa.Contacts.{
  has_id, has_phone, has_repeat, new_contact, insert_contact, backfill_conversation_links,
}
use notifymain_wa.Contacts.Import.{
  given, tags_of, revive, write_row, ImportRow, ImportResult, RowOutcome, row_created, row_updated,
  row_skipped, import_row, count_row, import_rows, import_contacts, empty_result,
}

-- One more contact after a row that was created, and as many as before after any other.
abbrev created_by : RowOutcome → ℕ
created_by row_created = 1
created_by row_updated = 0
created_by (row_skipped e) = 0

abbrev IsCreated : Store → RowOutcome × Store → Type 0
IsCreated s (o, next) = length next.contacts ≡ created_by o + length s.contacts

write_row-IsCreated :
    (w : World) (t : ℕ) (row : ImportRow) (phone name : Str) (s : Store)
    → IsCreated s (write_row w t row phone name s)
unfolding write_row insert_contact backfill_conversation_links
write_row-IsCreated w t row phone name s =
    elim (Option-cases (find_first (has_phone t phone) s.contacts)) [
      | inr (c, e) ↦
          rw (write_row, e)
            (omega (
              arith,
              length-update_where (has_id c.id) (revive row name (tags_of row.tags)) s.contacts,
            ))
      | inl e ↦
          let id = w.new_id s.draws in
          let c = new_contact id t phone name (given row.email) none (tags_of row.tags) in
          elim (Bool-cases (any (has_phone t phone) s.contacts || has_repeat (tags_of row.tags))) [
            | inl taken ↦ rw (write_row, e, taken) (omega arith)
            | inr free ↦ rw (write_row, e, free) (omega (arith, length-append s.contacts (c ∷ [])))
          ]
    ]

import_row-IsCreated :
    (w : World) (t : ℕ) (row : ImportRow) (s : Store) → IsCreated s (import_row w t row s)
unfolding import_row
import_row-IsCreated w t row s = elim (Option-cases (given row.phone_number)) [
  | inl e ↦ rw (import_row, e) (omega arith)
  | inr (raw, e) ↦ elim (Option-cases (given row.name)) [
    | inl f ↦ rw (import_row, e, f) (omega arith)
    | inr (name, f) ↦
        let result = normalise_phone raw in
        elim (Bool-cases result.valid) [
          | inl valid ↦
              rw (import_row, e, f, valid) (write_row-IsCreated w t row result.normalised name s)
          | inr invalid ↦ rw (import_row, e, f, invalid) (omega arith)
        ]
  ]
]

-- After `n` rows of an import that began at the store `s`: the counts add up to the rows, there is
-- one error for every skipped row, and one more contact for every created one.
pub record IsAccounted (n : ℕ) (s : Store) (r : ImportResult) (next : Store) : Type 0 where
  pub total : r.created + r.updated + r.skipped ≡ n
  pub explained : length r.errors ≡ r.skipped
  pub stored : length next.contacts ≡ r.created + length s.contacts

count_row-IsAccounted :
    (number n : ℕ) (o : RowOutcome) (s : Store) (r : ImportResult) (now next : Store)
    → IsAccounted n s r now
    → IsCreated now (o, next)
    → IsAccounted (suc n) s (count_row number o r) next
count_row-IsAccounted number n row_created s r now next seen one = record {
  total = omega (arith, seen.total);
  explained = seen.explained;
  stored = omega (arith, one, seen.stored);
}
count_row-IsAccounted number n row_updated s r now next seen same = record {
  total = omega (arith, seen.total);
  explained = seen.explained;
  stored = omega (arith, same, seen.stored);
}
count_row-IsAccounted number n (row_skipped e) s r now next seen same = record {
  total = omega (arith, seen.total);
  explained = omega (arith, length-append r.errors ((number, e) ∷ []), seen.explained);
  stored = omega (arith, same, seen.stored);
}

import_rows-IsAccounted :
    (w : World) (t number n m : ℕ) (rows : List ImportRow) (s : Store) (r : ImportResult)
    (now : Store)
    → IsAccounted n s r now
    → m ≡ n + length rows
    → (let (result, next) = import_rows w t number rows (r, now) in IsAccounted m s result next)
unfolding import_rows
import_rows-IsAccounted w t number n m [] s r now seen all = record {
  total = omega (arith, seen.total);
  explained = seen.explained;
  stored = seen.stored;
}
import_rows-IsAccounted w t number n m (row ∷ rows) s r now seen all =
    let step = import_row w t row now in
    import_rows-IsAccounted w t (suc number) (suc n) m rows s (count_row number step.0 r) step.1
      (count_row-IsAccounted number n step.0 s r now step.1 seen (import_row-IsCreated w t row now))
      (omega arith)

-- For every list of rows and every store, the created, the updated and the skipped rows that the
-- import reports add up to the rows of the file, it reports one error for each skipped row, and the
-- store has one more contact for each created row.
pub import_contacts-IsAccounted :
    (w : World) (t : ℕ) (rows : List ImportRow) (s : Store)
    → (let (result, next) = import_contacts w t rows s in IsAccounted (length rows) s result next)
unfolding import_contacts
import_contacts-IsAccounted w t rows s =
    import_rows-IsAccounted w t 2 0 (length rows) rows s empty_result s
      (record { total = refl; explained = refl; stored = omega arith }) (omega arith)
