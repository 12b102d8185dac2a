-- ===== src/Phone/Laws.antt =====
-- What `normalisePhone` accepts, and what it returns.
use notifymain_wa.Prelude.{
  ◌≤◌, ◌≡◌, ◌↔◌, ◌⊎◌, true, false, none, [], ◌∷◌, length, all, &&-parts, is_empty, arith, all-keep,
  keep-of_all,
}
use notifymain_wa.Text.{Str, codes, is_digit, starts_with}
use notifymain_wa.Text.Laws.{trim-digits}
use notifymain_wa.Phone.{
  returned, thrown, strip, classify, normalise_phone, normalise_phone_or_throw,
}

classify_valid :
    (d : Str)
    → (classify d).valid ≡ true
    → all is_digit d ≡ true
    → (all is_digit (classify d).normalised ≡ true)
      × (11 ≤ length (classify d).normalised)
      × (length (classify d).normalised ≤ 15)
unfolding classify is_digit
classify_valid d h k = ground arith

strip-digits : (raw : Str) → all is_digit (strip raw) ≡ true
unfolding strip
strip-digits raw = all-keep is_digit _

-- An accepted number consists of 11 to 15 decimal digits.
pub normalise_phone_range :
    (raw : Str)
    → (normalise_phone raw).valid ≡ true
    → (all is_digit (normalise_phone raw).normalised ≡ true)
      × (11 ≤ length (normalise_phone raw).normalised)
      × (length (normalise_phone raw).normalised ≤ 15)
unfolding normalise_phone
normalise_phone_range [] h = cc
normalise_phone_range (c ∷ raw) h = classify_valid (strip (c ∷ raw)) h (strip-digits (c ∷ raw))

-- The digits that a raw number may leave behind for it to be accepted.
abbrev pub IsAcceptable : Str → Type 0
IsAcceptable d =
    (length d ≡ 10) × (starts_with d (codes "0") ≡ false) ⊎ (11 ≤ length d) × (length d ≤ 15)

-- A number is accepted exactly when it is not empty and its stripped digits are ten with no
-- leading 0, or 11 to 15.
pub normalise_phone_valid_iff :
    (raw : Str)
    → ((normalise_phone raw).valid ≡ true) ↔ ((is_empty raw ≡ false) × IsAcceptable (strip raw))
unfolding normalise_phone classify
normalise_phone_valid_iff raw = (λ h. ground arith, λ h. ground arith)

strip-digits_id :
    (d : Str) → all is_digit d ≡ true → starts_with d (codes "00") ≡ false → strip d ≡ d
unfolding strip starts_with is_digit
strip-digits_id [] h z = ground (arith, trim-digits [] h)
strip-digits_id (c ∷ d) h z =
    rw (trim-digits (c ∷ d) h, z)
      (ground (arith, &&-parts (is_digit c) (all is_digit d) h, keep-of_all is_digit (c ∷ d) h))

classify-of_long :
    (d : Str)
    → 11 ≤ length d
    → length d ≤ 15
    → classify d ≡ record { normalised = d; valid = true; reason = none }
unfolding classify
classify-of_long d h k = ground arith

again :
    (n : Str)
    → (all is_digit n ≡ true) × (11 ≤ length n) × (length n ≤ 15)
    → starts_with n (codes "00") ≡ false
    → normalise_phone n ≡ record { normalised = n; valid = true; reason = none }
unfolding normalise_phone
again [] r z = absurd (omega arith)
again (c ∷ n) r z = rw (strip-digits_id (c ∷ n) r.0 z) (classify-of_long (c ∷ n) r.1 r.2)

-- An accepted number that does not begin with `00` is accepted again, and unchanged.
pub normalise_phone_idem :
    (raw : Str)
    → (normalise_phone raw).valid ≡ true
    → starts_with (normalise_phone raw).normalised (codes "00") ≡ false
    → normalise_phone (normalise_phone raw).normalised
      ≡ record { normalised = (normalise_phone raw).normalised; valid = true; reason = none }
normalise_phone_idem raw h z = again _ (normalise_phone_range raw h) z

-- `normalisePhoneOrThrow` throws, with the reason found, exactly when the number is empty or its
-- stripped digits do not fit, and otherwise returns the normalised number.
pub normalise_phone_or_throw_outcome :
    (raw label : Str)
    → (normalise_phone_or_throw raw label ≡ thrown label (normalise_phone raw).reason)
        × ((is_empty raw ≡ true) ⊎ (¬ IsAcceptable (strip raw)))
      ⊎ (normalise_phone_or_throw raw label ≡ returned (normalise_phone raw).normalised)
        × (is_empty raw ≡ false)
        × IsAcceptable (strip raw)
unfolding normalise_phone_or_throw normalise_phone classify
normalise_phone_or_throw_outcome raw label = ground arith
