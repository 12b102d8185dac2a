-- ===== src/Tests/TextTests.antt =====
-- The theorems on phone numbers and texts, at concrete inputs.
use notifymain_wa.Prelude.{◌≡◌, refl, true, false, some, [], ◌∷◌, all, is_empty, ◌↔◌}
use notifymain_wa.Text.{Str, codes, is_digit, is_space, trim, starts_with}
use notifymain_wa.Phone.{normalise_phone, strip, classify}
use notifymain_wa.Phone.Laws.{normalise_phone_valid_iff, IsAcceptable}
use notifymain_wa.Interpolation.{interpolate_message, token}
use notifymain_wa.Interpolation.Laws.{interpolate_message-join, join}
use notifymain_wa.Campaigns.Links.{find_url}
use notifymain_wa.Bulk.Template.{Variables, is_word}

abbrev plus_one : Str
plus_one = codes "+1 650-555-0123"

plus_one_valid : (normalise_phone plus_one).valid ≡ true
unfolding normalise_phone strip classify trim is_space is_digit starts_with
plus_one_valid = refl

plus_one_plain : starts_with (normalise_phone plus_one).normalised (codes "00") ≡ false
unfolding normalise_phone strip classify trim is_space is_digit starts_with
plus_one_plain = refl

normalise_phone_valid_iff_example :
    ((normalise_phone plus_one).valid ≡ true)
    ↔ ((is_empty plus_one ≡ false) × IsAcceptable (strip plus_one))
normalise_phone_valid_iff_example = normalise_phone_valid_iff plus_one

interpolate_message-join_example :
    interpolate_message (join token (codes "Hi " ∷ codes "!" ∷ [])) (codes "Ann") ≡ codes "Hi Ann!"
interpolate_message-join_example =
    interpolate_message-join (codes "Ann") (codes "Hi " ∷ codes "!" ∷ []) refl (refl, (refl, tt))

url_found : find_url (codes "see https://a.b now") ≡ some (codes "https://a.b")
unfolding find_url is_space
url_found = refl

name_is_word : all is_word (codes "name") ≡ true
unfolding is_word
name_is_word = refl

abbrev ann : Variables
ann = (codes "name", codes "Ann") ∷ []
