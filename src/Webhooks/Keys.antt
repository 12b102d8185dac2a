-- ===== src/Webhooks/Keys.antt =====
-- src/modules/webhook/utils/idempotency.util.ts: the key under which a receiver may drop an event
-- that it has seen.
use notifymain_wa.Prelude.{
  ℕ, ◌≡◌, refl, true, false, Option, none, some, List, [], ◌∷◌, ◌++◌, if◌then◌else◌, is_empty,
  find_first, map, ◌==◌,
}
use notifymain_wa.Text.{Str, codes, str_eq}
use notifymain_wa.Webhooks.Data.{Json, null, text, number, boolean, compound, Fields}

-- `data.name`
abbrev pub field : Str → Fields → Option Json
field name fields = elim (find_first (λ (e : Str × Json). str_eq e.0 name) fields) [
  | none ↦ none
  | some e ↦ some e.1
]

abbrev pub to_str : Str → Option Json → Str
to_str fallback none = fallback
to_str fallback (some null) = fallback
to_str fallback (some (text s)) = s
to_str fallback (some (number shown)) = shown
to_str fallback (some (boolean true)) = codes "true"
to_str fallback (some (boolean false)) = codes "false"
to_str fallback (some (compound shown)) = fallback

abbrev pub unknown : Str
unknown = codes "unknown"

abbrev pub shown_field : Str → Fields → Str
shown_field name fields = to_str unknown (field name fields)

-- `a || b` on strings
abbrev pub or_other : Str → Str → Str
or_other a b = if is_empty a then b else a

abbrev pub message_key : Fields → Str
message_key fields =
    codes "msg_"
    ++ or_other (shown_field (codes "messageId") fields) (shown_field (codes "id") fields)

-- `{ name: data.name }`, which has no entry where the value is undefined.
abbrev pub only : Str → Fields → Fields
only name fields = elim (field name fields) [ none ↦ [] | some v ↦ (name, v) ∷ [] ]

abbrev pub group_key : Str → Fields → Str
group_key change fields =
    codes "grp_"
    ++ shown_field (codes "groupId") fields
    ++ codes "_"
    ++ shown_field (codes "participantId") fields
    ++ change

abbrev pub session_key : Str → Str → Fields → Str
session_key kind rest fields = kind ++ shown_field (codes "sessionId") fields ++ codes "_" ++ rest

-- The cases of the `switch`.
abbrev pub rules : (Fields → Str) → Fields → List (Str × Str)
rules hash fields =
    (codes "message.received", message_key fields)
    ∷ (codes "message.sent", message_key fields)
    ∷ (
      codes "message.ack",
      codes "ack_"
          ++ shown_field (codes "messageId") fields
          ++ codes "_"
          ++ to_str (codes "0") (field (codes "ack") fields),
    )
    ∷ (codes "message.revoked", codes "rev_" ++ shown_field (codes "messageId") fields)
    ∷ (
      codes "session.status",
      session_key (codes "sess_") (shown_field (codes "status") fields) fields,
    )
    ∷ (codes "session.qr", session_key (codes "qr_") (hash (only (codes "qr") fields)) fields)
    ∷ (codes "session.authenticated", session_key (codes "auth_") (hash fields) fields)
    ∷ (
      codes "session.disconnected",
      session_key (codes "disc_") (hash (only (codes "reason") fields)) fields,
    )
    ∷ (codes "group.join", group_key (codes "_join") fields)
    ∷ (codes "group.leave", group_key (codes "_leave") fields)
    ∷ (
      codes "group.update",
      codes "grp_" ++ shown_field (codes "groupId") fields ++ codes "_update_" ++ hash fields,
    )
    ∷ []

abbrev pub underscored : ℕ → ℕ
underscored c = if c == b'.' then b'_' else c

unfoldable pub generate_idempotency_key : (Fields → Str) → Str → Fields → Str
generate_idempotency_key hash event fields =
    elim (find_first (λ (e : Str × Str). str_eq e.0 event) (rules hash fields)) [
      | some e ↦ e.1
      | none ↦ codes "evt_" ++ map underscored event ++ codes "_" ++ hash fields
    ]

-- A received message whose `messageId` shows as `unknown`, as one that is absent does, gets one and
-- the same key, whatever its `id` and its other data.
pub generate_idempotency_key-no_message_id :
    (hash : Fields → Str) (fields : Fields)
    → shown_field (codes "messageId") fields ≡ unknown
    → generate_idempotency_key hash (codes "message.received") fields ≡ codes "msg_unknown"
unfolding generate_idempotency_key str_eq
generate_idempotency_key-no_message_id hash fields h = rw h refl
