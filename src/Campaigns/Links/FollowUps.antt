-- ===== src/Campaigns/Links/FollowUps.antt =====
-- What the links sent after a message are.
use notifymain_wa.Prelude.{
  ℕ, ◌≡◌, refl, ◌≢◌, true, false, Option, none, some, List, [], ◌∷◌, ◌++◌, arith, inl, inr,
  Bool-cases, Option-cases, sym, ap, ◌∙◌, take, drop, take-append-drop,
}
use mathlib.Core.List.{append_assoc}
use notifymain_wa.Text.{Str, codes, str_eq, is_space}
use notifymain_wa.Text.Laws.{str_eq_iff}
use notifymain_wa.Campaigns.Links.{
  push_urls, take_visible, url_after, starts_with_nocase, find_url, url_here, follow_up_urls,
}

-- At most two links, and no link twice.
abbrev pub IsUnrepeated : List Str → Type 0
IsUnrepeated [] = Unit
IsUnrepeated (a ∷ []) = Unit
IsUnrepeated (a ∷ b ∷ []) = a ≢ b
IsUnrepeated (a ∷ b ∷ c ∷ urls) = ⊥

push_urls-IsUnrepeated : (found url : Option Str) → IsUnrepeated (push_urls found url)
push_urls-IsUnrepeated none none = tt
push_urls-IsUnrepeated none (some url) = tt
push_urls-IsUnrepeated (some found) none = tt
push_urls-IsUnrepeated (some found) (some url) = elim (Bool-cases (str_eq url found)) [
  | inl same ↦ rw same tt
  | inr other ↦ rw other (λ e. false_true (sym other ∙ (str_eq_iff url found).1 (sym e)))
]
  where
    false_true : false ≡ true → ⊥
    false_true h = cc

-- After a message at most two links are sent, and they differ.
pub follow_up_urls-IsUnrepeated :
    (template : Str) (media_url media_type link_url : Option Str)
    → IsUnrepeated (follow_up_urls template media_url media_type link_url)
unfolding follow_up_urls
follow_up_urls-IsUnrepeated template media_url media_type link_url = push_urls-IsUnrepeated _ _

-- The characters of a text up to its end, one of which begins the rest.
abbrev pub Occurs : Str → Str → Type 0
Occurs u s = (before after : Str) × (s ≡ before ++ (u ++ after))

take_visible-append : (s : Str) → (after : Str) × (s ≡ take_visible s ++ after)
unfolding take_visible
take_visible-append [] = ([], refl)
take_visible-append (c ∷ s) = elim (Bool-cases (is_space c)) [
  | inl blank ↦ rw blank (c ∷ s, refl)
  | inr shown ↦ let (after, e) = take_visible-append s in rw shown (after, ap (λ t. c ∷ t) e)
]

url_after-Occurs : (n : ℕ) (s u : Str) → url_after n s ≡ some u → (after : Str) × (s ≡ u ++ after)
unfolding url_after
url_after-Occurs n s u h =
    let (after, e) = take_visible-append (drop n s) in
    let whole : take n s ++ (take_visible (drop n s) ++ after) ≡ s =
      ap (λ t. take n s ++ t) (sym e) ∙ take-append-drop n s in
    let found : take n s ++ take_visible (drop n s) ≡ u = ground arith in
    (after, sym whole ∙ sym (append_assoc (take n s) _ after) ∙ ap (λ t. t ++ after) found)

url_here-Occurs : (s u : Str) → url_here s ≡ some u → (after : Str) × (s ≡ u ++ after)
unfolding url_here
url_here-Occurs s u h = elim (Bool-cases (starts_with_nocase s (codes "https://"))) [
  | inl secure ↦ url_after-Occurs 8 s u (rw secure at h)
  | inr other ↦ elim (Bool-cases (starts_with_nocase s (codes "http://"))) [
    | inl plain ↦ url_after-Occurs 7 s u (rw (other, plain) at h)
    | inr neither ↦ cc (rw (other, neither) at h)
  ]
]

-- The URL found in a caption stands in it.
pub find_url-Occurs : (s u : Str) → find_url s ≡ some u → Occurs u s
unfolding find_url
find_url-Occurs [] u h = cc
find_url-Occurs (c ∷ s) u h = elim (Option-cases (url_here (c ∷ s))) [
  | inr (v, e) ↦
      let same : v ≡ u = ground arith in
      let (after, w) = url_here-Occurs (c ∷ s) u (e ∙ ap some same) in ([], after, w)
  | inl e ↦
      let later : find_url s ≡ some u = ground arith in
      let (before, after, w) = find_url-Occurs s u later in (c ∷ before, after, ap (λ t. c ∷ t) w)
]
