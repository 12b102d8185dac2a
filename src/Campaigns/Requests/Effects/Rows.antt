-- ===== src/Campaigns/Requests/Effects/Rows.antt =====
-- Requests that clone a campaign or change its recipients.
use notifymain_wa.Prelude.{
  ℕ, ◌+◌, ◌≡◌, refl, inl, inr, false, Option, none, some, List, [], arith, Option-cases, Bool-cases,
  ltb, if◌then◌else◌, map, length, keep, ap, update_where, not, ◌==◌, is_empty,
}
use mathlib.Core.Path.{fun_ext}
use notifymain_wa.Text.{Str}
use notifymain_wa.Campaigns.Data.{Campaign, Store}
use notifymain_wa.Campaigns.Actions.{World, ok, Result-cases}
use notifymain_wa.Campaigns.Lookup.{is_campaign, find_campaign, is_editable, is_completed}
use notifymain_wa.Campaigns.Recipients.{NewContact, insert_new, resolve_recipients, of_recipient}
use native.Mathlib.Nat.{add-zero}
use notifymain_wa.Campaigns.Creation.{clone_campaign}
use notifymain_wa.Campaigns.Audience.{
  RecipientRow, add_rows, scan_rows, is_failed_of, add_contacts_to_campaign,
  import_campaign_recipients, retry_failed_campaign,
}
use notifymain_wa.Campaigns.Requests.{grow, Change, idle, created, extended, reset}

pub retry_failed_campaign-Change :
    (w : World) (t id : ℕ) (s : Store) → Change w t s (retry_failed_campaign w t id s).1
unfolding retry_failed_campaign
retry_failed_campaign-Change w t id s = elim (Option-cases (find_campaign s t id)) [
  | inl e ↦ rw e (idle refl refl (omega arith))
  | inr (c, e) ↦ rw e elim (Bool-cases (is_completed c.status)) [
    | inr h ↦ rw h (idle refl refl (omega arith))
    | inl h ↦
        rw h elim (Bool-cases (not (length (keep (is_failed_of t id) s.campaign_contacts) == 0))) [
          | inr n ↦ rw n (idle refl refl (omega arith))
          | inl n ↦ rw n (reset _ refl refl (omega arith))
        ]
  ]
]

pub clone_campaign-Change :
    (w : World) (t id u : ℕ) (s : Store) → Change w t s (clone_campaign w t id u s).1
unfolding clone_campaign
clone_campaign-Change w t id u s = elim (Option-cases (find_campaign s t id)) [
  | inl e ↦ rw e (idle refl refl (omega arith))
  | inr (c, e) ↦ rw e (
      unfold insert_new in
      created s.draws s.draws _ [] (omega arith) (omega arith) refl refl (inl refl) refl refl refl
        (omega arith) (omega arith))
]

grow-empty : (c : Campaign) (n : ℕ) → ltb 0 n ≡ false → c ≡ grow n c
grow-empty c n h = let e : n ≡ 0 = ground arith in rw (e, add-zero)

grow-or-not :
    (n : ℕ) (c : Campaign)
    → (if ltb 0 n then record c { total_contacts = c.total_contacts + n } else c) ≡ grow n c
grow-or-not n c = elim (Bool-cases (ltb 0 n)) [ inl h ↦ rw h | inr h ↦ rw h (grow-empty c n h) ]

add_rows-Change :
    (w : World) (t id : ℕ) (ns : List NewContact) (s : Store) (c : Campaign)
    → find_campaign s t id ≡ some c
    → Change w t s (add_rows w t id ns s).1
unfolding add_rows
add_rows-Change w t id ns s c e =
    extended id s.draws c ns e
      (ap (λ f. update_where (is_campaign id) f s.campaigns) (fun_ext (grow-or-not _))) refl
      (omega arith) (omega arith)

add_rows-ok :
    (w : World) (t id : ℕ) (ns : List NewContact) (s : Store)
    → (n : ℕ) × ((add_rows w t id ns s).0 ≡ ok n)
unfolding add_rows
add_rows-ok w t id ns s = (_, refl)

pub add_contacts_to_campaign-Change :
    (w : World) (t id : ℕ) (ids : Option (List ℕ)) (tags : Option (List Str)) (s : Store)
    → Change w t s (add_contacts_to_campaign w t id ids tags s).1
unfolding add_contacts_to_campaign
add_contacts_to_campaign-Change w t id ids tags s = elim (Option-cases (find_campaign s t id)) [
  | inl e ↦ rw e (idle refl refl (omega arith))
  | inr (c, e) ↦ rw e elim (Bool-cases (is_editable c.status)) [
    | inr h ↦ rw h (idle refl refl (omega arith))
    | inl h ↦ rw h elim (Result-cases (resolve_recipients s.contacts t ids tags)) [
      | inl (x, bad) ↦ rw bad (idle refl refl (omega arith))
      | inr (found, good) ↦ rw good elim (Bool-cases (not (is_empty found))) [
        | inr none_found ↦ rw none_found (idle refl refl (omega arith))
        | inl any_found ↦ rw any_found (add_rows-Change w t id (map of_recipient found) s c e)
      ]
    ]
  ]
]

pub import_campaign_recipients-Change :
    (w : World) (t id : ℕ) (rows : Option (List RecipientRow)) (s : Store)
    → Change w t s (import_campaign_recipients w t id rows s).1
unfolding import_campaign_recipients
import_campaign_recipients-Change w t id none s = elim (Option-cases (find_campaign s t id)) [
  | inl e ↦ rw e (idle refl refl (omega arith))
  | inr (c, e) ↦ rw e elim (Bool-cases (is_editable c.status)) [
    | inr h ↦ rw h (idle refl refl (omega arith))
    | inl h ↦ rw h (idle refl refl (omega arith))
  ]
]
import_campaign_recipients-Change w t id (some rows) s =
    elim (Option-cases (find_campaign s t id)) [
      | inl e ↦ rw e (idle refl refl (omega arith))
      | inr (c, e) ↦ rw e elim (Bool-cases (is_editable c.status)) [
        | inr h ↦ rw h (idle refl refl (omega arith))
        | inl h ↦ rw h elim (Bool-cases (is_empty (scan_rows 0 rows).0)) [
          | inl nothing ↦ rw nothing (idle refl refl (omega arith))
          | inr something ↦ rw something (add_rows-Change w t id (scan_rows 0 rows).0 s c e)
        ]
      ]
    ]
