-- ===== src/Inbox/Threads/Orphans.antt =====
-- What `reattachOrphan` of backend/src/webhooks/webhooks.processor.ts leaves behind.
use notifymain_wa.Prelude.{
  ℕ, ◌≡◌, refl, sym, ap, ◌∙◌, subst, length, length-keep, inl, inr, Bool, true, false, not, is_some,
  List, [], ◌∷◌, arith, any, keep, All, ◌==◌, ==_refl, Bool-cases, List-cases, find_first,
  update_where, count_where, count_where-no, All-map, All-update_where,
}
use notifymain_wa.Text.{Str}
use notifymain_wa.Campaigns.Data.{Conversation}
use notifymain_wa.Inbox.Threads.{has_key, is_orphan, attach, adopt_first, reattach_orphan}

-- The rows that a test drops are gone.
dropped_gone :
    (p : Conversation → Bool) (table : List Conversation)
    → count_where p (keep (λ c. not (p c)) table) ≡ 0
dropped_gone p [] = refl
dropped_gone p (c ∷ table) = ground (arith, dropped_gone p table)

All-keep :
    (P : Conversation → Type 0) (p : Conversation → Bool) (table : List Conversation)
    → All P table
    → All (λ c. P c × (p c ≡ true)) (keep p table)
All-keep P p [] h = tt
All-keep P p (c ∷ table) h = elim (Bool-cases (p c)) [
  | inl e ↦ rw e ((h.0, e), All-keep P p table h.1)
  | inr e ↦ rw e (All-keep P p table h.1)
]

-- A row that is kept has its id among those kept.
listed :
    (p : Conversation → Bool) (table : List Conversation)
    → All (λ c. p c ≡ true → any (λ (d : Conversation). c.id == d.id) (keep p table) ≡ true) table
listed p [] = tt
listed p (c ∷ table) = (
  λ e. rw e (ground (arith, ==_refl c.id)),
  All-map (λ d. p d ≡ true → any (λ (x : Conversation). d.id == x.id) (keep p table) ≡ true)
      (λ d. p d ≡ true → any (λ (x : Conversation). d.id == x.id) (keep p (c ∷ table)) ≡ true) table
      (λ d h e. elim (Bool-cases (p c)) [ inl f ↦ rw f (ground (arith, h e)) | inr f ↦ rw f (h e) ])
      (listed p table),
)

count-keep :
    (p : Conversation → Bool) (table : List Conversation)
    → keep p table ≡ []
    → count_where p table ≡ 0
count-keep p table h = sym (length-keep p table) ∙ ap length h

module _ (t session : ℕ) (phone : Str) (table : List Conversation) (o : Conversation)
    (others : List Conversation) (first : keep (is_orphan t phone) table ≡ o ∷ others) where
  abbrev among : List Conversation → Conversation → Bool
  among rows c = any (λ (d : Conversation). c.id == d.id) rows

  abbrev IsListed : Conversation → Type 0
  IsListed c = is_orphan t phone c ≡ true → among (o ∷ others) c ≡ true

  staying-IsListed :
      All (λ c. IsListed c × (not (among others c) ≡ true)) (keep (λ c. not (among others c)) table)
  staying-IsListed =
      All-keep IsListed (λ c. not (among others c)) table
        (subst (λ rows. All (λ c. is_orphan t phone c ≡ true → among rows c ≡ true) table) first
          (listed (is_orphan t phone) table))

  adopted-clears :
      count_where
        (is_orphan t phone)
        (update_where (λ c. c.id == o.id) (attach session) (keep (λ c. not (among others c)) table))
      ≡ 0
  adopted-clears =
      count_where-no (is_orphan t phone)
        (update_where (λ c. c.id == o.id) (attach session) (keep (λ c. not (among others c)) table))
        (All-update_where (λ c. IsListed c × (not (among others c) ≡ true))
          (λ c. is_orphan t phone c ≡ false) (λ c. c.id == o.id) (attach session)
          (keep (λ c. not (among others c)) table) (λ c at_o h. ground arith)
          (λ c elsewhere h. elim (Bool-cases (is_orphan t phone c)) [
            | inl e ↦ absurd (ground (arith, h.0 e, h.1))
            | inr e ↦ e
          ])
          staying-IsListed)

-- After `reattachOrphan` the tenant has no conversation without a session for the phone number.
pub reattach_orphan-clears :
    (t session : ℕ) (phone : Str) (table : List Conversation)
    → count_where (is_orphan t phone) (reattach_orphan t session phone table) ≡ 0
unfolding reattach_orphan
reattach_orphan-clears t session phone table =
    elim (Bool-cases (is_some (find_first (has_key t session phone) table))) [
      | inl e ↦ rw e (dropped_gone (is_orphan t phone) table)
      | inr e ↦ rw e (elim (List-cases (keep (is_orphan t phone) table)) [
        | inl f ↦ rw (f, adopt_first) (count-keep (is_orphan t phone) table f)
        | inr (o, others, f) ↦ rw (f, adopt_first) (adopted-clears t session phone table o others f)
      ])
    ]
