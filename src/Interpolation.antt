-- ===== src/Interpolation.antt =====
-- backend/src/common/utils/message-interpolation.util.ts: the `{{name}}` token of a template.
pub mod Laws
use notifymain_wa.Prelude.{
  ℕ, zero, suc, Bool, true, false, Option, none, some, List, [], ◌∷◌, ◌++◌, drop, is_empty, ◌==◌,
  if◌then◌else◌,
}
use notifymain_wa.Text.{Str, codes, trim, starts_with}

-- The names of the linked contact row; the row itself may be missing.
pub record ContactNames : Type 0 where
  pub whatsapp_name : Option Str
  pub name : Option Str

-- `value?.trim() || other`
unfoldable pub trimmed_or : Option Str → Str → Str
trimmed_or none other = other
trimmed_or (some s) other = if is_empty (trim s) then other else trim s

unfoldable pub resolve_display_name : Option ContactNames → Str → Str
unfolding trimmed_or
resolve_display_name none phone_number = phone_number
resolve_display_name (some c) phone_number =
    trimmed_or c.whatsapp_name (trimmed_or c.name phone_number)

-- The pattern `/\{\{name\}\}/g`.
abbrev pub token : Str
token = codes "{{name}}"

-- The replacement text of `String.replace`: `$$` stands for `$`, `$&` for the match, and
-- `` $` `` and `$'` for the text before and after it. The flag tells that a `$` was just read.
unfoldable pub expand : Str → Str → Bool → Str → Str
expand before after false [] = []
expand before after true [] = codes "$"
expand before after false (c ∷ s) =
    let rest = expand before after (c == b'$') s in if c == b'$' then rest else c ∷ rest
expand before after true (c ∷ s) =
    let rest = expand before after false s in
    if c == b'$'
    then b'$' ∷ rest
    else if c == b'&'
    then token ++ rest
    else if c == b'`'
    then before ++ rest
    else if c == 0x27
    then after ++ rest
    else b'$' ∷ c ∷ rest

-- The scan of a global replace; `skip` units of the last match are still to be passed over.
unfoldable pub replace_from : Str → Str → ℕ → Str → Str
replace_from name before skip [] = []
replace_from name before (suc skip) (c ∷ s) = replace_from name (before ++ c ∷ []) skip s
replace_from name before zero (c ∷ s) =
    let found = starts_with (c ∷ s) token in
    let rest = replace_from name (before ++ c ∷ []) (if found then 7 else 0) s in
    if found then expand before (drop 7 s) false name ++ rest else c ∷ rest

unfoldable pub interpolate_message : Str → Str → Str
unfolding replace_from expand
interpolate_message template display_name = replace_from display_name [] 0 template
