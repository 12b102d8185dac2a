-- ===== src/Contacts/Requests/Importing.antt =====
-- The rows that the import of contacts leaves alone.
use notifymain_wa.Prelude.{
  ℕ, suc, ◌≤◌, ◌≡◌, refl, ap, ◌∙◌, inl, inr, true, false, ◌||◌, none, List, [], ◌∷◌, ◌==◌, ==_iff,
  any, any-append, any-update_where, find_first, find_first-satisfies, arith, Bool-cases,
  Option-cases,
}
use notifymain_wa.Text.{Str, str_eq}
use notifymain_wa.Phone.{normalise_phone}
use notifymain_wa.Campaigns.Data.{Contact, Store}
use notifymain_wa.Campaigns.Actions.{World}
use notifymain_wa.Campaigns.Recipients.Identity.{IsGenerator}
use notifymain_wa.Contacts.{has_id, has_phone, has_repeat, new_contact, insert_contact, with_tag}
use notifymain_wa.Contacts.Owners.{
  IsKeyed, IsKeyed-snoc, IsKeyed-update_where, others_of-insert, others_of-update_found,
}
use notifymain_wa.Contacts.Untouched.{
  contact_key, contact_owner, IsUntouched, IsUntouched-refl, backfill-IsUntouched, with_contact,
}
use notifymain_wa.Contacts.Import.{
  ImportRow, ImportResult, given, tags_of, with_tags, revive, write_row, import_row, count_row,
  import_rows, import_contacts,
}

-- No contact has an id that is still to come.
abbrev pub IsUnused : World → Store → Type 0
IsUnused w s = (k : ℕ) → s.draws ≤ k → any (has_id (w.new_id k)) s.contacts ≡ false

abbrev KeepsOwner : (Contact → Contact) → Type 0
KeepsOwner f = (c : Contact) → ((f c).id ≡ c.id) × ((f c).tenant_id ≡ c.tenant_id)

with_tag-KeepsOwner : (tag : Str) → KeepsOwner (with_tag tag)
with_tag-KeepsOwner tag c = elim (Bool-cases (any (λ u. str_eq u tag) c.tags)) [
  | inl e ↦ rw e (refl, refl)
  | inr e ↦ rw e (refl, refl)
]

with_tags-KeepsOwner : (tags : List Str) → KeepsOwner (with_tags tags)
with_tags-KeepsOwner [] c = (refl, refl)
with_tags-KeepsOwner (tag ∷ tags) c =
    let rest = with_tags-KeepsOwner tags (with_tag tag c) in
    let here = with_tag-KeepsOwner tag c in (rest.0 ∙ here.0, rest.1 ∙ here.1)

revive-KeepsOwner :
    (row : ImportRow) (name : Str) (tags : List Str) → KeepsOwner (revive row name tags)
revive-KeepsOwner row name tags c = with_tags-KeepsOwner tags _

-- What holds between the rows of an import that began at the store `s`.
record IsBetween (w : World) (t : ℕ) (s now : Store) : Type 0 where
  pub untouched : IsUntouched t s now
  pub keyed : IsKeyed contact_key contact_owner now.contacts
  pub unused : IsUnused w now

module _ (w : World) (gen : IsGenerator w) (t : ℕ) (s : Store) where
  write_row-IsBetween :
      (row : ImportRow) (phone name : Str) (now : Store)
      → IsBetween w t s now
      → IsBetween w t s (write_row w t row phone name now).1
  unfolding write_row insert_contact
  write_row-IsBetween row phone name now h =
      let tags = tags_of row.tags in
      elim (Option-cases (find_first (has_phone t phone) now.contacts)) [
        | inr (c, e) ↦
            let fits = find_first-satisfies (has_phone t phone) now.contacts {r = c} e in
            let own : (c.tenant_id == t) ≡ true = ground arith in
            let f = revive row name tags in
            rw (write_row, e)
              (record {
                untouched = record {
                  contacts_kept =
                      others_of-update_found contact_key contact_owner t c.id (has_phone t phone) c
                        f now.contacts h.keyed e refl ((==_iff _ _).0 own)
                        (λ d. (revive-KeepsOwner row name tags d).1)
                      ∙ h.untouched.contacts_kept;
                  conversations_kept = h.untouched.conversations_kept;
                };
                keyed =
                    IsKeyed-update_where contact_key contact_owner (has_id c.id) f now.contacts
                      (λ d. (revive-KeepsOwner row name tags d).0) h.keyed;
                unused = λ k le.
                    any-update_where (has_id (w.new_id k)) (has_id c.id) f now.contacts
                      (λ d. ap (λ i. i == w.new_id k) (revive-KeepsOwner row name tags d).0)
                    ∙ h.unused k le;
              })
        | inl e ↦
            let id = w.new_id now.draws in
            let c = new_contact id t phone name (given row.email) none tags in
            let drawn : Store = record now { draws = suc now.draws } in
            elim (Bool-cases (any (has_phone t phone) now.contacts || has_repeat tags)) [
              | inl taken ↦
                  rw (write_row, e, taken)
                    (record {
                      untouched = record {
                        contacts_kept = h.untouched.contacts_kept;
                        conversations_kept = h.untouched.conversations_kept;
                      };
                      keyed = h.keyed;
                      unused = λ k le. h.unused k (omega arith);
                    })
              | inr free ↦
                  rw (write_row, e, free)
                    (record {
                      untouched = backfill-IsUntouched t id phone s (with_contact c drawn) (record {
                        contacts_kept =
                            others_of-insert contact_key contact_owner t c now.contacts refl
                            ∙ h.untouched.contacts_kept;
                        conversations_kept = h.untouched.conversations_kept;
                      });
                      keyed =
                          IsKeyed-snoc contact_key contact_owner now.contacts c h.keyed
                            (h.unused now.draws (omega arith));
                      unused = λ k le. ground (
                        arith,
                        any-append (has_id (w.new_id k)) now.contacts (c ∷ []),
                        h.unused k (omega arith),
                        gen now.draws k,
                      );
                    })
            ]
      ]

  import_row-IsBetween :
      (row : ImportRow) (now : Store)
      → IsBetween w t s now
      → IsBetween w t s (import_row w t row now).1
  unfolding import_row
  import_row-IsBetween row now h = elim (Option-cases (given row.phone_number)) [
    | inl e ↦ rw (import_row, e) h
    | inr (raw, e) ↦ elim (Option-cases (given row.name)) [
      | inl f ↦ rw (import_row, e, f) h
      | inr (name, f) ↦
          let result = normalise_phone raw in
          elim (Bool-cases result.valid) [
            | inl valid ↦
                rw (import_row, e, f, valid) (write_row-IsBetween row result.normalised name now h)
            | inr invalid ↦ rw (import_row, e, f, invalid) h
          ]
    ]
  ]

  import_rows-IsBetween :
      (number : ℕ) (rows : List ImportRow) (r : ImportResult) (now : Store)
      → IsBetween w t s now
      → IsBetween w t s (import_rows w t number rows (r, now)).1
  unfolding import_rows
  import_rows-IsBetween number [] r now h = h
  import_rows-IsBetween number (row ∷ rows) r now h =
      let step = import_row w t row now in
      import_rows-IsBetween (suc number) rows (count_row number step.0 r) step.1
        (import_row-IsBetween row now h)

pub import_contacts-IsUntouched :
    (w : World) (t : ℕ) (rows : List ImportRow) (s : Store)
    → IsGenerator w
    → IsKeyed contact_key contact_owner s.contacts
    → IsUnused w s
    → IsUntouched t s (import_contacts w t rows s).1
unfolding import_contacts
import_contacts-IsUntouched w t rows s gen keyed unused =
    (import_rows-IsBetween w gen t s 2 rows _ s
      (record { untouched = IsUntouched-refl t s; keyed = keyed; unused = unused })).untouched
