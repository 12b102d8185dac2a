-- ===== src/Tests/ContactTests.antt =====
-- The import of contacts, at the sample.
use notifymain_wa.Prelude.{arith, ◌≡◌, refl, none, some, List, [], ◌∷◌}
use notifymain_wa.Text.{codes}
use notifymain_wa.Campaigns.Data.{running, Store}
use notifymain_wa.Contacts.Import.{ImportRow, import_contacts}
use notifymain_wa.Contacts.Import.Accounts.{IsAccounted, import_contacts-IsAccounted}
use notifymain_wa.Contacts.{new_contact}
use notifymain_wa.Contacts.Untouched.{IsUntouched}
use notifymain_wa.Contacts.Requests.{importing, serve_contact}
use notifymain_wa.Contacts.Requests.Importing.{IsUnused}
use notifymain_wa.Contacts.Requests.Tenancy.{serve_contact-IsUntouched}
use notifymain_wa.Tests.Sample.{world, world-IsGenerator, store}

-- A new number, the same number again, a row without a name and one whose tag is repeated.
abbrev four_rows : List ImportRow
four_rows =
    record {
      phone_number = some (codes "9876543211");
      name = some (codes "Bob");
      email = none;
      tags = some (codes "vip, new");
    }
    ∷ record {
      phone_number = some (codes "+919876543211");
      name = some (codes "Bobby");
      email = none;
      tags = some (codes "vip");
    }
    ∷ record { phone_number = some (codes "9876543212"); name = some []; email = none; tags = none }
    ∷ record {
      phone_number = some (codes "9876543213");
      name = some (codes "Eve");
      email = none;
      tags = some (codes "vip,vip");
    }
    ∷ []

created_one : (import_contacts world 7 four_rows (store running)).0.created ≡ 1
unfolding import_contacts notifymain_wa.Phone.classify notifymain_wa.Phone.strip
    notifymain_wa.Text.starts_with notifymain_wa.Text.trim notifymain_wa.Text.is_space
    notifymain_wa.Text.is_digit notifymain_wa.Text.str_eq
created_one = refl

updated_one : (import_contacts world 7 four_rows (store running)).0.updated ≡ 1
unfolding import_contacts notifymain_wa.Phone.classify notifymain_wa.Phone.strip
    notifymain_wa.Text.starts_with notifymain_wa.Text.trim notifymain_wa.Text.is_space
    notifymain_wa.Text.is_digit notifymain_wa.Text.str_eq
updated_one = refl

skipped_two : (import_contacts world 7 four_rows (store running)).0.skipped ≡ 2
unfolding import_contacts notifymain_wa.Phone.classify notifymain_wa.Phone.strip
    notifymain_wa.Text.starts_with notifymain_wa.Text.trim notifymain_wa.Text.is_space
    notifymain_wa.Text.is_digit notifymain_wa.Text.str_eq
skipped_two = refl

import_contacts-IsAccounted_example :
    (let (result, next) = import_contacts world 7 four_rows (store running) in
      IsAccounted 4 (store running) result next)
import_contacts-IsAccounted_example = import_contacts-IsAccounted world 7 four_rows (store running)

-- A contact of the tenant 7 and one of the tenant 8.
abbrev two_owners : Store
two_owners =
    let row = new_contact 20 7 (codes "919876543210") (codes "Ann") none none [] in
    record (store running) { contacts = row ∷ record row { id = 21; tenant_id = 8 } ∷ [] }

new_ids : IsUnused world two_owners
new_ids k le = ground arith

serve_contact-IsUntouched_example :
    IsUntouched 7 two_owners (serve_contact world 7 (importing (some four_rows)) two_owners)
serve_contact-IsUntouched_example =
    serve_contact-IsUntouched world 7 (importing (some four_rows)) two_owners world-IsGenerator
      (refl, (refl, tt)) new_ids tt
