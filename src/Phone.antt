-- ===== src/Phone.antt =====
-- backend/src/common/utils/phone.util.ts: phone numbers in bare E.164 form. The file
-- src/common/utils/phone.util.ts is a copy of it. A reason is the template of its message.
pub mod Laws
use notifymain_wa.Prelude.{
  ℕ, Bool, true, false, not, Option, none, some, ◌++◌, [], length, drop, keep, is_empty, ltb, ◌==◌,
  if◌then◌else◌,
}
use notifymain_wa.Text.{Str, codes, is_digit, trim, starts_with}

abbrev pub min_digits : ℕ
min_digits = 10

abbrev pub max_digits : ℕ
max_digits = 15

pub data Reason : Type 0 where
  required no_digits leading_zero : Reason
  too_short too_long : ℕ → Reason

pub record NormaliseResult : Type 0 where
  pub normalised : Str
  pub valid : Bool
  pub reason : Option Reason

abbrev pub rejected : Reason → NormaliseResult
rejected r = record { normalised = []; valid = false; reason = some r }

-- The leading `00`, the leading `+` and what is no digit are stripped, in this order.
unfoldable pub strip : Str → Str
strip raw =
    let trimmed = trim raw in
    let international = if starts_with trimmed (codes "00") then drop 2 trimmed else trimmed in
    let bare =
      if starts_with international (codes "+") then drop 1 international else international in
    keep is_digit bare

-- The length checks at the end of `normalisePhone`.
check_length : Str → NormaliseResult
check_length digits =
    if ltb (length digits) min_digits
    then rejected (too_short (length digits))
    else if ltb max_digits (length digits)
    then rejected (too_long (length digits))
    else record { normalised = digits; valid = true; reason = none }

-- What follows the stripping: no digits, the bare ten digits, the length checks.
unfoldable pub classify : Str → NormaliseResult
unfolding check_length
classify digits =
    if length digits == 0
    then rejected no_digits
    else if length digits == 10
    then if starts_with digits (codes "0")
      then rejected leading_zero
      else check_length (codes "91" ++ digits)
    else check_length digits

unfoldable pub normalise_phone : Str → NormaliseResult
normalise_phone raw = if is_empty raw then rejected required else classify (strip raw)

-- What a `BadRequestException` of `normalisePhoneOrThrow` carries.
pub data Normalised : Type 0 where
  returned : Str → Normalised
  thrown : (label : Str) → Option Reason → Normalised

unfoldable pub normalise_phone_or_throw : Str → Str → Normalised
normalise_phone_or_throw raw label =
    let result = normalise_phone raw in
    if not result.valid then thrown label result.reason else returned result.normalised
