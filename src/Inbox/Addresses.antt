-- ===== src/Inbox/Addresses.antt =====
-- `normaliseJid` and `resolveContactMatchPhone` of backend/src/webhooks/webhooks.processor.ts: the
-- address that WhatsApp gives, as the backend stores it.
pub mod Laws
use notifymain_wa.Prelude.{
  ℕ, Bool, true, false, Option, none, some, List, [], ◌∷◌, is_empty, if◌then◌else◌,
}
use notifymain_wa.Text.{Str, codes, ends_with, before}
use notifymain_wa.Phone.{NormaliseResult, normalise_phone}

abbrev pub contact_suffix : Str
contact_suffix = codes "@s.whatsapp.net"

unfoldable pub normalise_jid : Str → Str
unfolding ends_with before
normalise_jid jid = if ends_with jid contact_suffix then before b'@' jid else jid

-- The address that can stand for a contact: `pn` if it is given, else the jid unless it is a `@lid`.
abbrev pub match_source : Option Str → Str → Option Str
match_source (some pn) jid = some pn
match_source none jid = if ends_with jid (codes "@lid") then none else some jid

abbrev pub accepted_number : NormaliseResult → Option Str
accepted_number r = if r.valid then some r.normalised else none

unfoldable pub resolve_contact_match_phone : Option Str → Str → Option Str
unfolding normalise_phone before
resolve_contact_match_phone pn jid = elim (match_source pn jid) [
  | none ↦ none
  | some raw ↦ if is_empty raw then none else accepted_number (normalise_phone (before b'@' raw))
]
