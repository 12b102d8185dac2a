-- ===== src/Interpolation/Laws.antt =====
-- What an interpolated message is.
use notifymain_wa.Prelude.{
  ℕ, zero, suc, ◌≡◌, refl, ap, ◌∙◌, true, false, not, none, some, List, [], ◌∷◌, ◌++◌, drop,
  is_empty, ◌==◌, if◌then◌else◌, all, All, arith,
}
use mathlib.Core.List.{append-nil}
use notifymain_wa.Text.{Str, codes, trim, starts_with}
use notifymain_wa.Interpolation.{
  ContactNames, token, expand, replace_from, interpolate_message, resolve_display_name,
}

abbrev pub IsPlain : ℕ → Str → Type 0
IsPlain u s = all (λ c. not (c == u)) s ≡ true

expand-plain : (before after s : Str) → IsPlain b'$' s → expand before after false s ≡ s
unfolding expand
expand-plain before after [] h = refl
expand-plain before after (c ∷ s) h = ground (arith, expand-plain before after s)

-- For a name with no `$` the text already passed does not matter.
replace_from-before :
    (name b₁ b₂ : Str) (skip : ℕ) (s : Str)
    → IsPlain b'$' name
    → replace_from name b₁ skip s ≡ replace_from name b₂ skip s
unfolding replace_from
replace_from-before name b₁ b₂ skip [] h = refl
replace_from-before name b₁ b₂ (suc skip) (c ∷ s) h =
    replace_from-before name (b₁ ++ c ∷ []) (b₂ ++ c ∷ []) skip s h
replace_from-before name b₁ b₂ zero (c ∷ s) h =
    let found = starts_with (c ∷ s) token in
    rw (expand-plain b₁ (drop 7 s) name h, expand-plain b₂ (drop 7 s) name h)
      (rw (replace_from-before name (b₁ ++ c ∷ []) (b₂ ++ c ∷ []) (if found then 7 else 0) s h))

-- Text with no brace is copied.
replace_from-copy :
    (name a s : Str)
    → IsPlain b'$' name
    → IsPlain b'{' a
    → replace_from name [] 0 (a ++ s) ≡ a ++ replace_from name [] 0 s
unfolding replace_from starts_with
replace_from-copy name [] s d h = refl
replace_from-copy name (c ∷ a) s d h =
    ground (arith, replace_from-copy name a s d, replace_from-before name (c ∷ []) [] 0 (a ++ s) d)

-- A token is replaced by the name.
replace_from-token :
    (name s : Str)
    → IsPlain b'$' name
    → replace_from name [] 0 (token ++ s) ≡ name ++ replace_from name [] 0 s
unfolding replace_from starts_with
replace_from-token name s h =
    rw (expand-plain [] s name h) (ap (λ t. name ++ t) (replace_from-before name token [] 0 s h))

-- The parts of a text, with a separator between each two.
abbrev pub join : Str → List Str → Str
join separator [] = []
join separator (part ∷ []) = part
join separator (part ∷ next ∷ parts) = part ++ (separator ++ join separator (next ∷ parts))

replace_from-end :
    (name a : Str) → IsPlain b'$' name → IsPlain b'{' a → replace_from name [] 0 a ≡ a
unfolding replace_from
replace_from-end name a d h =
    let copied : replace_from name [] 0 (a ++ []) ≡ a ++ [] = replace_from-copy name a [] d h in
    rw append-nil at copied

-- In a template whose parts hold no brace, every token is replaced by the name, which is to hold
-- no `$`; all else is kept.
pub interpolate_message-join :
    (name : Str) (parts : List Str)
    → IsPlain b'$' name
    → All (IsPlain b'{') parts
    → interpolate_message (join token parts) name ≡ join name parts
unfolding interpolate_message
interpolate_message-join name [] d h = refl
interpolate_message-join name (part ∷ []) d h = replace_from-end name part d h.0
interpolate_message-join name (part ∷ next ∷ parts) d h =
    replace_from-copy name part (token ++ join token (next ∷ parts)) d h.0
    ∙ ap (λ t. part ++ t)
        (replace_from-token name (join token (next ∷ parts)) d
          ∙ ap (λ t. name ++ t) (interpolate_message-join name (next ∷ parts) d h.1))

expand-append :
    (before after x s : Str)
    → IsPlain b'$' x
    → expand before after false (x ++ s) ≡ x ++ expand before after false s
unfolding expand
expand-append before after [] s h = refl
expand-append before after (c ∷ x) s h = ground (arith, expand-append before after x s)

-- A display name with one `$$` and no other `$` reaches the message with a single `$` there.
pub interpolate_message_dollars :
    (a b : Str)
    → IsPlain b'$' a
    → IsPlain b'$' b
    → interpolate_message token (a ++ (codes "$$" ++ b)) ≡ a ++ (codes "$" ++ b)
unfolding interpolate_message starts_with
interpolate_message_dollars a b h k =
    append-nil _
    ∙ expand-append [] [] a (codes "$$" ++ b) h
    ∙ ap (λ t. a ++ (codes "$" ++ t)) (expand-plain [] [] b k)

-- The name shown is the trimmed WhatsApp name, where that is missing or blank the trimmed name of
-- the contact, and where both are the phone number.
pub resolve_display_name_priority :
    (c : ContactNames) (phone w n : Str)
    → (c.whatsapp_name ≡ some w
        → is_empty (trim w) ≡ false
        → resolve_display_name (some c) phone ≡ trim w)
      × (c.whatsapp_name ≡ some w
          → is_empty (trim w) ≡ true
          → c.name ≡ some n
          → is_empty (trim n) ≡ false
          → resolve_display_name (some c) phone ≡ trim n)
      × (c.whatsapp_name ≡ none → c.name ≡ none → resolve_display_name (some c) phone ≡ phone)
unfolding resolve_display_name
resolve_display_name_priority c phone w n = ground arith
