-- ===== src/Campaigns/Audience/Reports.antt =====
-- What the operations that add or retry recipients report.
use notifymain_wa.Prelude.{
  ℕ, suc, ◌+◌, ◌-◌, ◌≤◌, ◌≡◌, refl, sym, ap₂, Bool, true, not, some, List, [], ◌∷◌, arith, length,
  Bool-cases, inl, inr, is_empty, count_where, ==_refl, map, keep,
}
use notifymain_wa.Campaigns.Data.{Campaign, Store}
use notifymain_wa.Campaigns.Actions.{World, ok}
use notifymain_wa.Campaigns.Lookup.{find_campaign, is_editable}
use notifymain_wa.Campaigns.Recipients.{NewContact, insert_new}
use notifymain_wa.Campaigns.Recipients.Insertion.{of_campaign, count-insert_new, insert_new-le}
use notifymain_wa.Campaigns.Audience.{
  RecipientRow, ImportResult, phone_given, scan_rows, import_campaign_recipients,
}

scan_rows-length :
    (i : ℕ) (rows : List RecipientRow)
    → length (scan_rows i rows).0 + length (scan_rows i rows).1 ≡ length rows
unfolding scan_rows
scan_rows-length i [] = omega arith
scan_rows-length i (row ∷ rows) = ground (arith, scan_rows-length (suc i) rows)

-- The rows under their numbers, the first one under this number.
abbrev pub numbered : ℕ → List RecipientRow → List (ℕ × RecipientRow)
numbered i [] = []
numbered i (row ∷ rows) = (i, row) ∷ numbered (suc i) rows

abbrev pub is_missing : ℕ × RecipientRow → Bool
is_missing (i, row) = not (phone_given row)

-- The numbers of the rows with no phone number, where the header of the file is row 1.
abbrev pub missing : List RecipientRow → List ℕ
missing rows = map (λ (e : ℕ × RecipientRow). e.0) (keep is_missing (numbered 2 rows))

scan_rows-missing :
    (i j : ℕ) (rows : List RecipientRow)
    → j ≡ i + 2
    → (scan_rows i rows).1 ≡ map (λ (e : ℕ × RecipientRow). e.0) (keep is_missing (numbered j rows))
unfolding scan_rows
scan_rows-missing i j [] e = refl
scan_rows-missing i j (row ∷ rows) e =
    let rest = scan_rows-missing (suc i) (suc j) rows (omega arith) in
    elim (Bool-cases (phone_given row)) [
      | inl given ↦ rw given rest
      | inr lacking ↦ rw lacking (ap₂ (λ n ns. n ∷ ns) (sym e) rest)
    ]

is_empty-length : (ns : List NewContact) → is_empty ns ≡ true → length ns ≡ 0
is_empty-length [] h = refl
is_empty-length (n ∷ ns) h = cc

-- What an import of the rows reports, and what it does to the recipients of the campaign.
pub record IsReported (id : ℕ) (rows : List RecipientRow) (s s' : Store) (r : ImportResult)
    : Type 0 where
  pub balance : r.created + r.skipped ≡ length rows
  pub erroneous : r.errors ≡ missing rows
  pub errors_skipped : length r.errors ≤ r.skipped
  pub added :
      count_where (of_campaign id) s'.campaign_contacts
      ≡ count_where (of_campaign id) s.campaign_contacts + r.created

-- An import into a campaign of the tenant that is a draft or scheduled succeeds. Each row is either
-- created or skipped, the errors are the numbers of the rows with no phone number, in order and
-- counted from 2, the rows in error count among the skipped ones, and the campaign has as many recipients more as rows were created.
pub import_campaign_recipients-IsReported :
    (w : World) (t id : ℕ) (rows : List RecipientRow) (s : Store) (c : Campaign)
    → find_campaign s t id ≡ some c
    → is_editable c.status ≡ true
    → (r : ImportResult) × ((import_campaign_recipients w t id (some rows) s).0 ≡ ok r)
      × IsReported id rows s (import_campaign_recipients w t id (some rows) s).1 r
unfolding import_campaign_recipients
import_campaign_recipients-IsReported w t id rows s c found editable =
    let (valid, errors) = scan_rows 0 rows in
    let total = scan_rows-length 0 rows in
    let wrong = scan_rows-missing 0 2 rows refl in
    let le = insert_new-le w id t s.draws valid s.campaign_contacts in
    let count = count-insert_new w id t s.draws valid s.campaign_contacts in
    rw found (
      rw editable elim (Bool-cases (is_empty valid)) [
        | inl nothing ↦
            let none_valid = is_empty-length valid nothing in
            rw nothing (
              record { created = 0; skipped = length errors; errors = errors },
              refl,
              record {
                balance = omega arith;
                erroneous = wrong;
                errors_skipped = omega arith;
                added = omega arith;
              },
            )
        | inr something ↦
            let created = (insert_new w s.draws id t valid s.campaign_contacts).1 in
            let rest = count id in
            rw something (
              record {
                created = created;
                skipped = length errors + (length valid - created);
                errors = errors;
              },
              refl,
              record {
                balance = omega arith;
                erroneous = wrong;
                errors_skipped = omega arith;
                added = ground (arith, ==_refl id);
              },
            )
      ])
