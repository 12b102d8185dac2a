-- ===== src/Inbox/Addresses/Laws.antt =====
-- The addresses of contacts and the phone numbers they are stored under.
use mathlib.Core.List.{reverse, reverse-append}
use notifymain_wa.Prelude.{
  ℕ, ◌≡◌, refl, sym, ap, ◌∙◌, inl, inr, Bool, true, false, not, none, some, [], ◌∷◌, ◌++◌, all,
  is_empty, arith, ◌==◌, ==_refl, Bool-cases,
}
use notifymain_wa.Text.{Str, codes, is_digit, starts_with, ends_with, before}
use notifymain_wa.Text.Laws.{all-reverse}
use notifymain_wa.Phone.{normalise_phone}
use notifymain_wa.Phone.Laws.{normalise_phone_range, normalise_phone_idem}
use notifymain_wa.Inbox.Addresses.{
  contact_suffix, normalise_jid, accepted_number, resolve_contact_match_phone,
}

abbrev pub is_no_at : ℕ → Bool
is_no_at c = not (c == b'@')

starts_with-append : (p s : Str) → starts_with (p ++ s) p ≡ true
unfolding starts_with
starts_with-append [] s = refl
starts_with-append (c ∷ p) s = rw (==_refl c) (starts_with-append p s)

starts_with-all :
    (q : ℕ → Bool) (s p : Str) → starts_with s p ≡ true → all q s ≡ true → all q p ≡ true
unfolding starts_with
starts_with-all q s [] h a = refl
starts_with-all q [] (b ∷ p) h a = cc
starts_with-all q (c ∷ s) (b ∷ p) h a =
    let same : c ≡ b = ground arith in rw (sym same) (ground (arith, starts_with-all q s p))

before-append : (s t : Str) → all is_no_at s ≡ true → before b'@' (s ++ b'@' ∷ t) ≡ s
unfolding before
before-append [] t h = refl
before-append (c ∷ s) t h = ground (arith, before-append s t)

before-all : (s : Str) → all is_no_at (before b'@' s) ≡ true
unfolding before
before-all [] = refl
before-all (c ∷ s) = elim (Bool-cases (c == b'@')) [
  | inl e ↦ rw e refl
  | inr e ↦ rw e (rw e (before-all s))
]

ends_with-append : (s p : Str) → ends_with (s ++ p) p ≡ true
unfolding ends_with
ends_with-append s p =
    ap (λ r. starts_with r (reverse p)) (reverse-append s p)
    ∙ starts_with-append (reverse p) (reverse s)

normalise_jid-contact :
    (phone : Str) → all is_no_at phone ≡ true → normalise_jid (phone ++ contact_suffix) ≡ phone
unfolding normalise_jid
normalise_jid-contact phone h =
    rw (ends_with-append phone contact_suffix) (before-append phone (codes "s.whatsapp.net") h)

no_suffix : (s : Str) → all is_no_at s ≡ true → ends_with s contact_suffix ≡ false
unfolding ends_with
no_suffix s h = elim (Bool-cases (ends_with s contact_suffix)) [
  | inl e ↦
      let at : all is_no_at (reverse contact_suffix) ≡ true =
        starts_with-all is_no_at (reverse s) (reverse contact_suffix) e
          (all-reverse is_no_at s h) in
      cc
  | inr e ↦ e
]

-- An address that is stored already is left as it is.
pub normalise_jid_idem : (jid : Str) → normalise_jid (normalise_jid jid) ≡ normalise_jid jid
unfolding normalise_jid
normalise_jid_idem jid = elim (Bool-cases (ends_with jid contact_suffix)) [
  | inl e ↦ rw e (rw (no_suffix (before b'@' jid) (before-all jid)) refl)
  | inr e ↦ rw e (rw e refl)
]

digits-no_at : (s : Str) → all is_digit s ≡ true → all is_no_at s ≡ true
unfolding is_digit
digits-no_at [] h = refl
digits-no_at (c ∷ s) h = ground (arith, digits-no_at s)

not_lid : (phone : Str) → ends_with (phone ++ contact_suffix) (codes "@lid") ≡ false
unfolding ends_with starts_with
not_lid phone =
    ap (λ r. starts_with r (reverse (codes "@lid"))) (reverse-append phone contact_suffix)

real_address : (phone : Str) → is_empty (phone ++ contact_suffix) ≡ false
real_address [] = refl
real_address (c ∷ phone) = refl

resolve-contact :
    (phone : Str)
    → all is_no_at phone ≡ true
    → normalise_phone phone ≡ record { normalised = phone; valid = true; reason = none }
    → resolve_contact_match_phone none (phone ++ contact_suffix) ≡ some phone
unfolding resolve_contact_match_phone
resolve-contact phone no_at h =
    rw (not_lid phone, resolve_contact_match_phone, real_address phone)
      (ap (λ n. accepted_number (normalise_phone n))
          (before-append phone (codes "s.whatsapp.net") no_at)
        ∙ ap accepted_number h)

-- An accepted phone number that does not begin with `00` comes back from the address of its
-- contact: as the number that the conversation is stored under, and as the number by which the
-- contact is looked up.
pub contact-address :
    (raw : Str)
    → (normalise_phone raw).valid ≡ true
    → starts_with (normalise_phone raw).normalised (codes "00") ≡ false
    → (normalise_jid ((normalise_phone raw).normalised ++ contact_suffix)
        ≡ (normalise_phone raw).normalised)
      × (resolve_contact_match_phone none ((normalise_phone raw).normalised ++ contact_suffix)
          ≡ some (normalise_phone raw).normalised)
contact-address raw h z =
    let phone = (normalise_phone raw).normalised in
    let no_at = digits-no_at phone (normalise_phone_range raw h).0 in
    (normalise_jid-contact phone no_at, resolve-contact phone no_at (normalise_phone_idem raw h z))
