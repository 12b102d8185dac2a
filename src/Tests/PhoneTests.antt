-- ===== src/Tests/PhoneTests.antt =====
-- The examples of the comment at the head of phone.util.ts.
use notifymain_wa.Prelude.{◌≡◌, refl}
use notifymain_wa.Text.{codes, trim, is_space, is_digit, starts_with}
use notifymain_wa.Phone.{normalise_phone, strip, classify}

phone_code : Unit {0}
unfolding normalise_phone strip classify trim is_space is_digit starts_with
phone_code = tt

international : (normalise_phone (codes "+1 650-555-0123")).normalised ≡ codes "16505550123"
unfolding phone_code
international = refl

double_zero : (normalise_phone (codes "001 650 555 0123")).normalised ≡ codes "16505550123"
unfolding phone_code
double_zero = refl
