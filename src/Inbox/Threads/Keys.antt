-- ===== src/Inbox/Threads/Keys.antt =====
-- The ids and the keys of conversations under the writes of `reattachOrphan` and `upsert` of
-- backend/src/webhooks/webhooks.processor.ts.
use notifymain_wa.Prelude.{
  ℕ, ◌+◌, ◌≤◌, ◌≡◌, refl, sym, ap, ◌∙◌, List-cases, inl, inr, Bool, true, false, not, ◌&&◌, none,
  some, List, [], ◌∷◌, arith, any, keep, All, ◌==◌, ==_refl, Bool-cases, Option-cases, find_first,
  update_where, count_where, count_where-append, count_where-update_where, count_where-keep_le,
  count_where-none, count_where-write_le, count_where-imp, &&-parts, count_where-no,
  find_first-satisfies, keep-find_first, find_first-only, All-map,
}
use notifymain_wa.Text.{Str}
use notifymain_wa.Text.Laws.{str_eq→≡}
use notifymain_wa.Campaigns.Data.{Conversation}
use notifymain_wa.Inbox.Threads.{has_key, is_orphan, attach, adopt_first, reattach_orphan, upsert}

abbrev pub is_row : ℕ → Conversation → Bool
is_row id c = c.id == id

-- No two conversations have one id, and no two of one tenant and session have one phone number.
pub record IsThreaded (table : List Conversation) : Type 0 where
  pub distinct : (id : ℕ) → count_where (is_row id) table ≤ 1
  pub keyed : (t session : ℕ) (phone : Str) → count_where (has_key t session phone) table ≤ 1

-- The key that a row has is its only one.
pub has_key-only :
    (t session t' session' : ℕ) (phone phone' : Str) (c : Conversation)
    → has_key t session phone c ≡ true
    → has_key t' session' phone' c ≡ true
    → (t ≡ t') × (session ≡ session') × (phone ≡ phone')
has_key-only t session t' session' phone phone' c h k = (
  ground arith,
  ground arith,
  sym (str_eq→≡ c.phone_number phone (ground arith))
      ∙ str_eq→≡ c.phone_number phone' (ground arith),
)

attach-orphan :
    (t session : ℕ) (phone : Str) (c : Conversation)
    → is_orphan t phone c ≡ true
    → has_key t session phone (attach session c) ≡ true
attach-orphan t session phone c h = ground (arith, ==_refl session)

-- A write that keeps the ids and the keys.
pub update-IsThreaded :
    (p : Conversation → Bool) (change : Conversation → Conversation) (table : List Conversation)
    → ((c : Conversation) → (change c).id ≡ c.id)
    → ((a b : ℕ) (n : Str) (c : Conversation) → has_key a b n (change c) ≡ has_key a b n c)
    → IsThreaded table
    → IsThreaded (update_where p change table)
update-IsThreaded p change table same_id same_key v = record {
  distinct = λ id.
      rw (count_where-update_where (is_row id) p change table (λ d. ap (λ i. i == id) (same_id d)))
        (v.distinct id);
  keyed = λ a b n.
      rw (count_where-update_where (has_key a b n) p change table (same_key a b n)) (v.keyed a b n);
}

module _ (t session : ℕ) (phone : Str) (table : List Conversation) (v : IsThreaded table) where
  open v use {distinct, keyed}

  module _ (o : Conversation) (others : List Conversation)
      (first : keep (is_orphan t phone) table ≡ o ∷ others)
      (h : find_first (has_key t session phone) table ≡ none) where
    abbrev p : Conversation → Bool
    p c = c.id == o.id

    abbrev staying : Conversation → Bool
    staying c = not (any (λ (d : Conversation). c.id == d.id) others)

    found : find_first (is_orphan t phone) table ≡ some o
    found = keep-find_first (is_orphan t phone) table {ss = others} first

    only_o : All (λ c. p c ≡ true → c ≡ o) table
    only_o = find_first-only (is_orphan t phone) p table o (==_refl o.id) (distinct o.id) found

    own : has_key t session phone (attach session o) ≡ true
    own =
        attach-orphan t session phone o
          (find_first-satisfies (is_orphan t phone) table {r = o} found)

    -- The rows of any one key that the write makes.
    written_le :
        (a b : ℕ) (n : Str)
        → count_where (has_key a b n) table
            + count_where (λ c. p c && has_key a b n (attach session c)) table
          ≤ 1
    written_le a b n = elim (Bool-cases (has_key a b n (attach session o))) [
      | inl hit ↦
          let (e, f, g) = has_key-only t session a b phone n (attach session o) own hit in
          let none_yet : count_where (has_key a b n) table ≡ 0 =
            rw (sym e, sym f, sym g) (count_where-none (has_key t session phone) table h) in
          ground (
            arith,
            distinct o.id,
            count_where-imp (λ c. p c && has_key a b n (attach session c)) p table
                (λ c. λ both. (&&-parts (p c) (has_key a b n (attach session c)) both).0),
          )
      | inr miss ↦
          let nothing : count_where (λ c. p c && has_key a b n (attach session c)) table ≡ 0 =
            count_where-no (λ c. p c && has_key a b n (attach session c)) table
              (All-map (λ c. p c ≡ true → c ≡ o)
                (λ c. (p c && has_key a b n (attach session c)) ≡ false) table
                (λ c same. elim (Bool-cases (p c)) [
                  | inl at_o ↦ rw (same at_o) (ground (arith, miss))
                  | inr other ↦ rw other refl
                ])
                only_o) in
          ground (arith, keyed a b n)
    ]

    adopted-IsThreaded : IsThreaded (update_where p (attach session) (keep staying table))
    adopted-IsThreaded = record {
      distinct = λ id.
          rw
            (count_where-update_where (is_row id) p (attach session) (keep staying table)
              (λ c. refl))
            (ground (arith, distinct id, count_where-keep_le (is_row id) staying table));
      keyed = λ a b n. ground (
        arith,
        written_le a b n,
        count_where-write_le (has_key a b n) p (attach session) (keep staying table),
        count_where-keep_le (has_key a b n) staying table,
        count_where-keep_le (λ c. p c && has_key a b n (attach session c)) staying table,
      );
    }

  adopt_first-IsThreaded :
      find_first (has_key t session phone) table ≡ none
      → IsThreaded (adopt_first t phone session table)
  adopt_first-IsThreaded h = elim (List-cases (keep (is_orphan t phone) table)) [
    | inl e ↦ rw (e, adopt_first) v
    | inr (o, others, e) ↦ rw (e, adopt_first) (adopted-IsThreaded o others e h)
  ]

  adopt_first-ids :
      (id : ℕ)
      → count_where (is_row id) (adopt_first t phone session table) ≤ count_where (is_row id) table
  adopt_first-ids id = elim (List-cases (keep (is_orphan t phone) table)) [
    | inl e ↦ rw (e, adopt_first) (omega arith)
    | inr (o, others, e) ↦
        rw
          (
            e,
            adopt_first,
            count_where-update_where (is_row id) (λ c. c.id == o.id) (attach session)
                (keep (λ (c : Conversation). not (any (λ (d : Conversation). c.id == d.id) others))
                  table)
                (λ c. refl),
          )
          (count_where-keep_le (is_row id)
            (λ (c : Conversation). not (any (λ (d : Conversation). c.id == d.id) others)) table)
  ]

  pub reattach_orphan-IsThreaded : IsThreaded (reattach_orphan t session phone table)
  unfolding reattach_orphan
  reattach_orphan-IsThreaded = elim (Option-cases (find_first (has_key t session phone) table)) [
    | inl e ↦ rw e (adopt_first-IsThreaded e)
    | inr (c, e) ↦ rw e (record {
      distinct = λ id. ground (
        arith,
        distinct id,
        count_where-keep_le (is_row id) (λ d. not (is_orphan t phone d)) table,
      );
      keyed = λ a b n. ground (
        arith,
        keyed a b n,
        count_where-keep_le (has_key a b n) (λ d. not (is_orphan t phone d)) table,
      );
    })
  ]

  pub upsert-IsThreaded :
      (change : Conversation → Conversation) (fresh : Conversation)
      → ((c : Conversation) → (change c).id ≡ c.id)
      → ((a b : ℕ) (n : Str) (c : Conversation) → has_key a b n (change c) ≡ has_key a b n c)
      → count_where (is_row fresh.id) table ≡ 0
      → has_key t session phone fresh ≡ true
      → IsThreaded (upsert t session phone change fresh table).0
  unfolding upsert
  upsert-IsThreaded change fresh same_id same_key new own =
      elim (Option-cases (find_first (has_key t session phone) table)) [
        | inl e ↦
            rw (e, upsert)
              (record {
                distinct = λ id.
                    rw (count_where-append (is_row id) table (fresh ∷ []))
                      (elim (Bool-cases (is_row id fresh)) [
                        | inl hit ↦
                            let same : id ≡ fresh.id = ground arith in
                            let unused : count_where (is_row id) table ≡ 0 = rw same new in
                            ground (arith, distinct id)
                        | inr miss ↦ ground (arith, distinct id)
                      ]);
                keyed = λ a b n.
                    rw (count_where-append (has_key a b n) table (fresh ∷ []))
                      (elim (Bool-cases (has_key a b n fresh)) [
                        | inl hit ↦
                            let (f, g, i) = has_key-only t session a b phone n fresh own hit in
                            let unused : count_where (has_key a b n) table ≡ 0 =
                              rw (sym f, sym g, sym i)
                                (count_where-none (has_key t session phone) table e) in
                            ground (arith, keyed a b n)
                        | inr miss ↦ ground (arith, keyed a b n)
                      ]);
              })
        | inr (c, e) ↦
            rw (e, upsert)
              (update-IsThreaded (has_key t session phone) change table same_id same_key v)
      ]

  -- Ids only go, or come with the fresh row.
  pub reattach_orphan-ids :
      (id : ℕ)
      → count_where (is_row id) (reattach_orphan t session phone table)
        ≤ count_where (is_row id) table
  unfolding reattach_orphan
  reattach_orphan-ids id = elim (Option-cases (find_first (has_key t session phone) table)) [
    | inl e ↦ rw e (adopt_first-ids id)
    | inr (c, e) ↦ rw e (count_where-keep_le (is_row id) (λ d. not (is_orphan t phone d)) table)
  ]

  pub upsert-ids :
      (change : Conversation → Conversation) (fresh : Conversation) (id : ℕ)
      → ((c : Conversation) → (change c).id ≡ c.id)
      → is_row id fresh ≡ false
      → count_where (is_row id) (upsert t session phone change fresh table).0
        ≡ count_where (is_row id) table
  unfolding upsert
  upsert-ids change fresh id same_id other =
      elim (Option-cases (find_first (has_key t session phone) table)) [
        | inl e ↦ rw (e, upsert, count_where-append (is_row id) table (fresh ∷ [])) (ground arith)
        | inr (c, e) ↦
            rw (e, upsert)
              (count_where-update_where (is_row id) (has_key t session phone) change table
                (λ d. ap (λ i. i == id) (same_id d)))
      ]
