-- ===== src/ApiKeys/Addresses.antt =====
-- `isIpAllowed` of src/modules/auth/auth.service.ts: exact addresses and ranges of addresses.
-- Arithmetic on 32 bits is modulo 2 ^ 32; an octet is not so long that a number loses digits.
use notifymain_wa.Prelude.{
  ℕ, ◌+◌, ◌-◌, ◌*◌, ◌%◌, ◌^◌, Bool, true, false, ◌&&◌, List, [], ◌∷◌, length, ◌==◌, ltb,
  if◌then◌else◌, any,
}
use notifymain_wa.Text.{Str, str_eq, is_digit, trim_start}

-- `s.split(c)`
unfoldable pub split : ℕ → Str → List Str
split c [] = [] ∷ []
split c (d ∷ s) = elim (split c s) [
  | [] ↦ [] ∷ []
  | part ∷ parts ↦ if d == c then [] ∷ part ∷ parts else (d ∷ part) ∷ parts
]

-- What `parseInt(s, 10)` answers.
pub data ParsedInt : Type 0 where
  nan : ParsedInt
  signed : (negative : Bool) → ℕ → ParsedInt

-- The digits at the start, if there is one.
unfoldable pub read_digits : ℕ → Str → ℕ
unfolding is_digit
read_digits acc [] = acc
read_digits acc (c ∷ s) = if is_digit c then read_digits (acc * 10 + (c - b'0')) s else acc

unfoldable pub unsigned : Bool → Str → ParsedInt
unfolding is_digit read_digits
unsigned negative [] = nan
unsigned negative (c ∷ s) = if is_digit c then signed negative (read_digits 0 (c ∷ s)) else nan

abbrev pub with_sign : Str → ParsedInt
with_sign [] = nan
with_sign (c ∷ s) =
    if c == b'-'
    then unsigned true s
    else if c == b'+'
    then unsigned false s
    else unsigned false (c ∷ s)

unfoldable pub parse_int : Str → ParsedInt
unfolding trim_start unsigned
parse_int s = with_sign (trim_start s)

-- `(acc << 8) + n` as 32 bits. NaN counts as 0 in the next shift, and so does a NaN at the end.
abbrev pub shift_in : ℕ → ParsedInt → ℕ
shift_in acc nan = 0
shift_in acc (signed false n) = (acc * 256 + n) % 2 ^ 32
shift_in acc (signed true n) = (acc * 256 + (2 ^ 32 - n % 2 ^ 32)) % 2 ^ 32

unfoldable pub number_of_parts : ℕ → List Str → ℕ
unfolding parse_int
number_of_parts acc [] = acc
number_of_parts acc (part ∷ parts) = number_of_parts (shift_in acc (parse_int part)) parts

unfoldable pub ip_to_number : Str → ℕ
unfolding split number_of_parts
ip_to_number ip =
    let parts = split b'.' ip in if length parts == 4 then number_of_parts 0 parts else 0

-- `n & ~(2 ** k - 1)` on 32 bits
abbrev pub masked : ℕ → ℕ → ℕ
masked k n = n - n % 2 ^ k

-- The range and the number of bits of `range/bits`.
unfoldable pub in_range : Str → Str → ParsedInt → Bool
unfolding ip_to_number
in_range ip range nan = false
in_range ip range (signed negative bits) =
    if negative && ltb 0 bits
    then false
    else if ltb 32 bits
    then false
    else masked (32 - bits) (ip_to_number ip) == masked (32 - bits) (ip_to_number range)

unfoldable pub in_parts : Str → List Str → Bool
unfolding in_range parse_int
in_parts ip (range ∷ bits ∷ rest) = in_range ip range (parse_int bits)
in_parts ip _ = false

unfoldable pub ip_in_cidr : Str → Str → Bool
unfolding in_parts split
ip_in_cidr ip cidr = in_parts ip (split b'/' cidr)

unfoldable pub is_entry : Str → Str → Bool
unfolding ip_in_cidr
is_entry ip entry = if any (λ c. c == b'/') entry then ip_in_cidr ip entry else str_eq ip entry

unfoldable pub is_ip_allowed : Str → List Str → Bool
unfolding is_entry
is_ip_allowed ip entries = any (is_entry ip) entries
