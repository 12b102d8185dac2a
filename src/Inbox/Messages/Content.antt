-- ===== src/Inbox/Messages/Content.antt =====
-- The payloads of messages and `extractMessageContent` of
-- backend/src/webhooks/webhooks.processor.ts, with `ALLOWED_MIME_TYPES` of
-- backend/src/media/media.module.ts. A file is written by a parameter.
use notifymain_wa.Prelude.{
  ℕ, Option, none, some, List, [], ◌∷◌, ◌++◌, or_else, ◌==◌, if◌then◌else◌, is_empty, map,
  find_first,
}
use notifymain_wa.Text.{Str, codes, str_eq, upper, before}
use notifymain_wa.Campaigns.Data.{
  MessageType, image, video, audio, document, location, contact_card, template,
}

pub record MessagePayload : Type 0 where
  pub external_id : Option Str
  pub id : Option Str
  pub serialized_id : Option Str  -- `id._serialized`, where the id is an object
  pub from : Option Str
  pub sender : Option Str
  pub to : Option Str
  pub pn : Option Str
  pub push_name : Option Str
  pub type : Option Str
  pub body : Option Str
  pub text : Option Str
  pub caption : Option Str
  pub mimetype : Option Str
  pub timestamp : Option ℕ

pub record MessageEvent : Type 0 where
  pub session_id : Str
  pub from : Option Str
  pub timestamp : Option ℕ
  pub payload : MessagePayload

pub record MessageContent : Type 0 where
  pub body : Str
  pub media_url : Option Str
  pub media_type : Option Str

-- The file of a tenant with this extension and these Base64 data: its address, or none on an error.
abbrev pub SaveMedia : Type 0
SaveMedia = (tenant_id : ℕ) → (extension base64 : Str) → Option Str

abbrev pub allowed_types : List (Str × MessageType)
allowed_types =
    (codes "TEXT", MessageType.text)
    ∷ (codes "IMAGE", image)
    ∷ (codes "VIDEO", video)
    ∷ (codes "AUDIO", audio)
    ∷ (codes "DOCUMENT", document)
    ∷ (codes "LOCATION", location)
    ∷ (codes "CONTACT_CARD", contact_card)
    ∷ (codes "TEMPLATE", template)
    ∷ []

abbrev pub type_of : Str → MessageType
type_of raw = elim (find_first (λ (e : Str × MessageType). str_eq e.0 raw) allowed_types) [
  | none ↦ MessageType.text
  | some e ↦ e.1
]

abbrev pub message_type : MessagePayload → MessageType
message_type p = elim p.type [ none ↦ MessageType.text | some raw ↦ type_of (map upper raw) ]

abbrev pub allowed_mime_types : List (Str × Str)
allowed_mime_types =
    (codes "image/jpeg", codes ".jpg")
    ∷ (codes "image/png", codes ".png")
    ∷ (codes "image/webp", codes ".webp")
    ∷ (codes "video/mp4", codes ".mp4")
    ∷ (codes "application/pdf", codes ".pdf")
    ∷ (codes "audio/mpeg", codes ".mp3")
    ∷ (codes "audio/ogg", codes ".ogg")
    ∷ []

-- `s.split('/')[1]`
abbrev pub second_part : Str → Option Str
second_part [] = none
second_part (c ∷ s) = if c == b'/' then some (before b'/' s) else second_part s

abbrev pub media_extension : Str → Str
media_extension mimetype =
    elim (find_first (λ (e : Str × Str). str_eq e.0 mimetype) allowed_mime_types) [
      | some e ↦ e.1
      | none ↦ codes "." ++ or_else (second_part mimetype) (codes "bin")
    ]

abbrev pub saved_url : SaveMedia → ℕ → (mimetype base64 : Option Str) → Option Str
saved_url save t none base64 = none
saved_url save t (some mimetype) none = none
saved_url save t (some mimetype) (some base64) =
    if is_empty mimetype
    then none
    else if is_empty base64
    then none
    else save t (media_extension mimetype) base64

-- A body that is no text is media, of which the caption is the body.
abbrev pub extract_message_content : SaveMedia → MessagePayload → ℕ → MessageContent
extract_message_content save p t = elim (message_type p) [
  | MessageType.text ↦ record {
    body = or_else p.body (or_else p.text []);
    media_url = none;
    media_type = none;
  }
  | _ ↦ record {
    body = or_else p.caption [];
    media_url = saved_url save t p.mimetype p.body;
    media_type = p.mimetype;
  }
]
