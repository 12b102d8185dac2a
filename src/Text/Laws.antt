-- ===== src/Text/Laws.antt =====
-- Laws of the string operations.
use mathlib.Core.List.{reverse, reverse-append, reverse-reverse}
use notifymain_wa.Prelude.{ℕ, ◌≡◌, refl, ◌↔◌, Bool, true, false, [], ◌∷◌, all, arith, all-append}
use notifymain_wa.Text.{Str, str_eq, is_space, is_digit, trim_start, trim}

pub str_eq→≡ : (s t : Str) → str_eq s t ≡ true → s ≡ t
unfolding str_eq
str_eq→≡ [] [] h = refl
str_eq→≡ [] (b ∷ t) h = cc
str_eq→≡ (a ∷ s) [] h = cc
str_eq→≡ (a ∷ s) (b ∷ t) h = ground (arith, str_eq→≡ s t)

pub str_eq_refl : (s : Str) → str_eq s s ≡ true
unfolding str_eq
str_eq_refl [] = refl
str_eq_refl (a ∷ s) = ground (arith, str_eq_refl s)

pub str_eq_iff : (s t : Str) → (str_eq s t ≡ true) ↔ (s ≡ t)
str_eq_iff s t = (str_eq→≡ s t, λ e. rw e (str_eq_refl t))

is_digit-is_space : (c : ℕ) → is_digit c ≡ true → is_space c ≡ false
unfolding is_digit is_space
is_digit-is_space c h = ground arith

pub all-reverse : (p : ℕ → Bool) (s : Str) → all p s ≡ true → all p (reverse s) ≡ true
all-reverse p [] h = refl
all-reverse p (c ∷ s) h =
    rw (reverse-append (c ∷ []) s, all-append p (reverse s) (c ∷ []))
      (ground (arith, all-reverse p s))

trim_start-digits : (s : Str) → all is_digit s ≡ true → trim_start s ≡ s
unfolding trim_start
trim_start-digits [] h = refl
trim_start-digits (c ∷ s) h = ground (arith, is_digit-is_space c)

-- A run of digits has nothing to trim.
pub trim-digits : (s : Str) → all is_digit s ≡ true → trim s ≡ s
unfolding trim
trim-digits s h =
    rw (trim_start-digits s h, trim_start-digits (reverse s) (all-reverse is_digit s h))
      (reverse-reverse s)
