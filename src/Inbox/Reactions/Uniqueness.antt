-- ===== src/Inbox/Reactions/Uniqueness.antt =====
-- How often a sender stands among the reactions to a message.
use notifymain_wa.Prelude.{
  ℕ, ◌+◌, ◌≡◌, refl, ◌∙◌, inl, inr, Bool, true, false, not, Option, none, some, List, [], ◌∷◌,
  is_empty, keep, arith, Bool-cases, count_where, count_where-append, if◌then◌else◌,
}
use notifymain_wa.Text.{Str, str_eq, trim}
use notifymain_wa.Text.Laws.{str_eq_refl, str_eq→≡}
use notifymain_wa.Inbox.Reactions.{ReactionTable, clean, put_sender, react}

-- The reactions of a sender with an emoji.
unfoldable pub times : Str → Str → ReactionTable → ℕ
times emoji sender [] = 0
times emoji sender ((other, senders) ∷ table) =
    let rest = times emoji sender table in
    if str_eq other emoji then count_where (λ j. str_eq j sender) senders + rest else rest

-- The reactions of a sender with whatever emoji.
unfoldable pub times_in_all : Str → ReactionTable → ℕ
times_in_all sender [] = 0
times_in_all sender ((other, senders) ∷ table) =
    count_where (λ j. str_eq j sender) senders + times_in_all sender table

abbrev pub is_blank : Option Str → Bool
is_blank none = true
is_blank (some emoji) = is_empty (trim emoji)

keep-own :
    (sender : Str) (senders : List Str)
    → count_where (λ j. str_eq j sender) (keep (λ j. not (str_eq j sender)) senders) ≡ 0
keep-own sender [] = refl
keep-own sender (j ∷ senders) = ground (arith, keep-own sender senders)

clean-own : (sender : Str) (table : ReactionTable) → times_in_all sender (clean sender table) ≡ 0
unfolding clean times_in_all
clean-own sender [] = refl
clean-own sender ((emoji, senders) ∷ table) =
    elim (Bool-cases (is_empty (keep (λ j. not (str_eq j sender)) senders))) [
      | inl e ↦ rw e (clean-own sender table)
      | inr e ↦
          rw (e, times_in_all, keep-own sender senders) (omega (arith, clean-own sender table))
    ]

put_sender-own :
    (emoji sender : Str) (table : ReactionTable)
    → times_in_all sender (put_sender emoji sender table) ≡ 1 + times_in_all sender table
unfolding put_sender times_in_all
put_sender-own emoji sender [] = rw (str_eq_refl sender) refl
put_sender-own emoji sender ((other, senders) ∷ table) = elim (Bool-cases (str_eq other emoji)) [
  | inl e ↦
      rw
        (
          e,
          times_in_all,
          count_where-append (λ j. str_eq j sender) senders (sender ∷ []),
          str_eq_refl sender,
        )
        (omega arith)
  | inr e ↦ rw (e, times_in_all) (omega (arith, put_sender-own emoji sender table))
]

-- A sender has one reaction to a message after an event with an emoji that is not blank, and none
-- after one without, whatever was stored before.
pub react-once :
    (sender : Str) (emoji : Option Str) (table : ReactionTable)
    → times_in_all sender (react sender emoji table) ≡ (if is_blank emoji then 0 else 1)
unfolding react
react-once sender none table = clean-own sender table
react-once sender (some emoji) table = elim (Bool-cases (is_empty (trim emoji))) [
  | inl e ↦ rw e (clean-own sender table)
  | inr e ↦
      rw e (omega (arith, put_sender-own emoji sender (clean sender table), clean-own sender table))
]

keep-other :
    (sender j : Str) (senders : List Str)
    → str_eq sender j ≡ false
    → count_where (λ i. str_eq i j) (keep (λ i. not (str_eq i sender)) senders)
      ≡ count_where (λ i. str_eq i j) senders
keep-other sender j [] h = refl
keep-other sender j (i ∷ senders) h = elim (Bool-cases (str_eq i sender)) [
  | inl e ↦ rw (e, str_eq→≡ i sender e, h) (keep-other sender j senders h)
  | inr e ↦ rw e (ground (arith, keep-other sender j senders h))
]

count-is_empty :
    (j : Str) (senders : List Str)
    → is_empty senders ≡ true
    → count_where (λ k. str_eq k j) senders ≡ 0
count-is_empty j [] h = refl
count-is_empty j (k ∷ senders) h = cc

clean-other :
    (sender j emoji : Str) (table : ReactionTable)
    → str_eq sender j ≡ false
    → times emoji j (clean sender table) ≡ times emoji j table
unfolding clean times
clean-other sender j emoji [] h = refl
clean-other sender j emoji ((other, senders) ∷ table) h =
    elim (Bool-cases (is_empty (keep (λ k. not (str_eq k sender)) senders))) [
      | inl e ↦ rw e (
          ground (
            arith,
            clean-other sender j emoji table h,
            keep-other sender j senders h,
            count-is_empty j (keep (λ k. not (str_eq k sender)) senders) e,
          ))
      | inr e ↦
          rw (e, times)
            (ground (arith, clean-other sender j emoji table h, keep-other sender j senders h))
    ]

put_sender-other :
    (new sender j emoji : Str) (table : ReactionTable)
    → str_eq sender j ≡ false
    → times emoji j (put_sender new sender table) ≡ times emoji j table
unfolding put_sender times
put_sender-other new sender j emoji [] h = rw h (ground arith)
put_sender-other new sender j emoji ((other, senders) ∷ table) h =
    elim (Bool-cases (str_eq other new)) [
      | inl e ↦
          rw (e, times, count_where-append (λ k. str_eq k j) senders (sender ∷ []), h)
            (ground arith)
      | inr e ↦ rw (e, times) (ground (arith, put_sender-other new sender j emoji table h))
    ]

-- A reaction changes nothing of those of another sender.
pub react-others :
    (sender j : Str) (new : Option Str) (emoji : Str) (table : ReactionTable)
    → str_eq sender j ≡ false
    → times emoji j (react sender new table) ≡ times emoji j table
unfolding react
react-others sender j none emoji table h = clean-other sender j emoji table h
react-others sender j (some new) emoji table h = elim (Bool-cases (is_empty (trim new))) [
  | inl e ↦ rw e (clean-other sender j emoji table h)
  | inr e ↦ rw e (
      put_sender-other new sender j emoji (clean sender table) h
      ∙ clean-other sender j emoji table h)
]
