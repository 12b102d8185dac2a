-- ===== src/Campaigns/Links.antt =====
-- The links of a campaign, from backend/src/campaigns/campaign-processor.ts: the first URL of a
-- caption, the links sent after the message, and the kind of message.
pub mod FollowUps
use notifymain_wa.Prelude.{
  ℕ, ◌+◌, Bool, true, false, not, ◌&&◌, Option, none, some, List, [], ◌∷◌, ◌++◌, leb, ◌==◌,
  is_empty, if◌then◌else◌, drop, take, length,
}
use notifymain_wa.Text.{Str, codes, str_eq, is_space, starts_with}
use notifymain_wa.Campaigns.Data.{MessageType, text, image, video, audio, document}

-- The letters of a match are compared without case.
abbrev lower : ℕ → ℕ
lower c = if leb b'A' c && leb c b'Z' then c + 32 else c

abbrev starts_with_nocase : Str → Str → Bool
starts_with_nocase s [] = true
starts_with_nocase [] (b ∷ p) = false
starts_with_nocase (a ∷ s) (b ∷ p) = (lower a == b) && starts_with_nocase s p

-- `[^\s]+`, greedy.
take_visible : Str → Str
take_visible [] = []
take_visible (c ∷ s) = let rest = take_visible s in if is_space c then [] else c ∷ rest

-- What follows a scheme of n units, as a match; nothing where no visible character does.
url_after : ℕ → Str → Option Str
unfolding take_visible
url_after n s =
    let run = take_visible (drop n s) in if is_empty run then none else some (take n s ++ run)

-- The match of `/https?:\/\/[^\s]+/i` that begins here.
unfoldable pub url_here : Str → Option Str
unfolding url_after
url_here s =
    if starts_with_nocase s (codes "https://")
    then url_after 8 s
    else if starts_with_nocase s (codes "http://")
    then url_after 7 s
    else none

-- `text.match(URL_REGEX)`: the first match.
unfoldable pub find_url : Str → Option Str
unfolding url_here
find_url [] = none
find_url (c ∷ s) = elim (url_here (c ∷ s)) [ some url ↦ some url | none ↦ find_url s ]

abbrev pub is_given : Option Str → Bool
is_given none = false
is_given (some s) = not (is_empty s)

abbrev pub is_text : Str → Option Str → Bool
is_text s none = false
is_text s (some t) = str_eq t s

-- `campaign.mediaType === 'text/link'`
abbrev pub is_link_only : Option Str → Bool
is_link_only media_type = is_text (codes "text/link") media_type

-- The branches on the MIME type at the end of `resolveMessageType`.
abbrev type_of_mime : Str → MessageType
type_of_mime mime =
    if starts_with mime (codes "image/")
    then image
    else if starts_with mime (codes "video/")
    then video
    else if starts_with mime (codes "audio/")
    then audio
    else if str_eq mime (codes "application/pdf")
    then document
    else image

unfoldable pub resolve_message_type : Option Str → Option Str → MessageType
resolve_message_type media_url none = if not (is_given media_url) then text else image
resolve_message_type media_url (some mime) =
    if not (is_given media_url)
    then text
    else if str_eq mime (codes "text/link")
    then text
    else if is_empty mime
    then image
    else type_of_mime mime

-- The pushes onto `followUpUrls`: the explicit link only where it is not the one of the caption.
abbrev pub push_urls : Option Str → Option Str → List Str
push_urls none none = []
push_urls none (some url) = url ∷ []
push_urls (some found) none = found ∷ []
push_urls (some found) (some url) = if str_eq url found then found ∷ [] else found ∷ url ∷ []

-- The links sent as messages of their own, after a message with media: that of the caption, and
-- the explicit one where it is another.
unfoldable pub follow_up_urls :
    (template : Str) (media_url media_type link_url : Option Str) → List Str
unfolding find_url
follow_up_urls template media_url media_type link_url =
    let has_media = is_given media_url && not (is_link_only media_type) in
    let caption_url = if has_media then find_url template else none in
    let explicit = if has_media && is_given link_url then link_url else none in
    push_urls caption_url explicit
