-- ===== src/Inbox/Messages.antt =====
-- `handleMessageReceived`, `handleMessageOutgoing`, `handleMessageDecryptFailed` and
-- `extractMessageContent` of backend/src/webhooks/webhooks.processor.ts. Calls of the database
-- succeed. A type is in ASCII letters, and what is not text in a payload is absent.
mod Content
pub mod Repetition
use notifymain_wa.Prelude.{
  ℕ, suc, ◌+◌, Bool, true, false, not, ◌&&◌, Option, none, some, List, [], ◌∷◌, ◌++◌, is_some, ◌==◌,
  or_else, if◌then◌else◌, take, is_empty, any, update_where, find_first,
}
use notifymain_wa.Text.{Str, codes, str_eq, ends_with}
use notifymain_wa.Campaigns.Data.{
  inbound, outbound, opened, MessageStatus, Contact, Session, Conversation, Message,
  message_received, message_outgoing_synced, message_decrypt_failed, Store,
}
use notifymain_wa.Campaigns.Actions.{World}
use notifymain_wa.Inbox.Addresses.{normalise_jid, resolve_contact_match_phone}
use notifymain_wa.Inbox.Threads.{has_key, reattach_orphan, upsert}
use notifymain_wa.Inbox.Links.{session_of, emit}
use notifymain_wa.Inbox.Chats.{trimmed}
use notifymain_wa.Inbox.Acks.{has_external_id}
pub use notifymain_wa.Inbox.Messages.Content.*

-- `a ?? b`
abbrev pub first_of {ℓ} : {A : Type ℓ} → Option A → Option A → Option A
first_of none b = b
first_of (some a) b = some a

-- A message with this external id is stored already; an empty id is not looked up.
abbrev pub is_duplicate : Option Str → Store → Bool
is_duplicate none s = false
is_duplicate (some id) s = not (is_empty id) && any (has_external_id id) s.messages

-- `findUnique({ where: { tenantId_phoneNumber } })`
abbrev pub is_contact : ℕ → Str → Contact → Bool
is_contact t phone c = (c.tenant_id == t) && str_eq c.phone_number phone

abbrev pub match_contact : ℕ → Option Str → Str → Store → Option Contact
unfolding resolve_contact_match_phone
match_contact t pn jid s = elim (resolve_contact_match_phone pn jid) [
  | none ↦ none
  | some phone ↦ find_first (is_contact t phone) s.contacts
]

abbrev pub is_known_name : Option Str → Str → Bool
is_known_name none name = false
is_known_name (some known) name = str_eq known name

-- The name that the sender gives, written where it is new.
abbrev pub learn_name : Option Contact → Option Str → List Contact → List Contact
learn_name none push_name table = table
learn_name (some c) none table = table
learn_name (some c) (some name) table =
    if is_known_name c.whatsapp_name name
    then table
    else update_where (λ (d : Contact). d.id == c.id) (λ d. record d { whatsapp_name = some name })
        table

abbrev pub resolved_name : Option Contact → Option Str → Option Str
resolved_name none push_name = push_name
resolved_name (some c) push_name = first_of (trimmed (some c.name)) push_name

abbrev pub contact_id_of : Option Contact → Option ℕ
contact_id_of none = none
contact_id_of (some c) = some c.id

abbrev pub on_inbound : ℕ → Str → Option ℕ → Option Str → Conversation → Conversation
on_inbound now body contact_id name c = record c {
  unread_count = suc c.unread_count;
  last_message_at = some now;
  last_message_text = some (take 500 body);
  contact_id = first_of contact_id c.contact_id;
  contact_name = first_of name c.contact_name;
  status = opened;
}

abbrev pub on_outgoing : ℕ → Str → Option ℕ → Conversation → Conversation
on_outgoing now body contact_id c = record c {
  last_message_at = some now;
  last_message_text = some (take 500 body);
  contact_id = first_of contact_id c.contact_id;
}

abbrev pub new_conversation : ℕ → Session → Str → Option ℕ → Option Str → ℕ → ℕ → Str → Conversation
new_conversation id session phone contact_id name unread now body = record {
  id = id;
  tenant_id = session.tenant_id;
  session_id = some session.id;
  contact_id = contact_id;
  contact_name = name;
  phone_number = phone;
  status = opened;
  unread_count = unread;
  last_message_at = some now;
  last_message_text = some (take 500 body);
}

-- The message before its direction is known.
abbrev pub synced_message : ℕ → Session → ℕ → MessagePayload → MessageContent → Option Str → Message
synced_message id session conversation_id p content external_id = record {
  id = id;
  tenant_id = session.tenant_id;
  session_id = some session.id;
  conversation_id = some conversation_id;
  campaign_id = none;
  direction = inbound;
  type = message_type p;
  from_number = [];
  to_number = [];
  body = content.body;
  media_url = content.media_url;
  media_type = content.media_type;
  status = MessageStatus.delivered;
  external_id = external_id;
  reactions = [];
  sent_at = none;
  delivered_at = none;
  read_at = none;
  failed_at = none;
  error_message = none;
}

-- From the contact on: the payload, the sender's address and the time are known.
unfoldable pub store_received :
    World → SaveMedia → Session → MessagePayload → Str → ℕ → Store → Store
unfolding reattach_orphan upsert normalise_jid
store_received w save session p raw_from now s =
    let t = session.tenant_id in
    let from = normalise_jid raw_from in
    let content = extract_message_content save p t in
    let contact = match_contact t p.pn raw_from s in
    let push_name = trimmed p.push_name in
    let contact_id = contact_id_of contact in
    let name = resolved_name contact push_name in
    let (table, conversation_id) =
      upsert t session.id from (on_inbound now content.body contact_id name)
        (new_conversation (w.new_id (suc s.draws)) session from contact_id name 1 now content.body)
        (reattach_orphan t session.id from s.conversations) in
    let id = w.new_id (suc (suc s.draws)) in
    let message =
      record (synced_message id session conversation_id p content (first_of p.external_id p.id)) {
        from_number = from;
      } in
    emit (message_received t id conversation_id from content.body (message_type p)) (record s {
      contacts = learn_name contact push_name s.contacts;
      conversations = table;
      messages = s.messages ++ message ∷ [];
      draws = suc (suc (suc s.draws));
    })

unfoldable pub handle_message_received : World → SaveMedia → MessageEvent → Store → Store
unfolding store_received
handle_message_received w save e s =
    let p = e.payload in
    if is_duplicate (first_of p.external_id p.id) s then s else elim (session_of e.session_id s) [
      | none ↦ s
      | some session ↦
          let raw_from = or_else (first_of p.from e.from) [] in
          if ends_with raw_from (codes "@newsletter")
          then s
          else store_received w save session p raw_from
              (or_else (first_of p.timestamp e.timestamp) (w.now s.draws)) s
    ]

unfoldable pub store_outgoing :
    World → SaveMedia → Session → MessagePayload → Option Str → ℕ → Store → Store
unfolding reattach_orphan upsert normalise_jid
store_outgoing w save session p external_id now s =
    let t = session.tenant_id in
    let raw_to = or_else p.to [] in
    let to = normalise_jid raw_to in
    let content = extract_message_content save p t in
    let contact_id = contact_id_of (match_contact t p.pn raw_to s) in
    let (table, conversation_id) =
      upsert t session.id to (on_outgoing now content.body contact_id)
        (new_conversation (w.new_id (suc s.draws)) session to contact_id none 0 now content.body)
        (reattach_orphan t session.id to s.conversations) in
    let id = w.new_id (suc (suc s.draws)) in
    let message = record (synced_message id session conversation_id p content external_id) {
      direction = outbound;
      from_number = or_else session.phone_number [];
      to_number = to;
      status = MessageStatus.sent;
      sent_at = some now;
    } in
    emit (message_outgoing_synced t id conversation_id to content.body (message_type p)) (record s {
      conversations = table;
      messages = s.messages ++ message ∷ [];
      draws = suc (suc (suc s.draws));
    })

-- `payload.id?._serialized ?? payload.id`: an object of another form is no id.
unfoldable pub handle_message_outgoing : World → SaveMedia → MessageEvent → Store → Store
unfolding store_outgoing
handle_message_outgoing w save e s =
    let p = e.payload in
    let external_id = first_of p.serialized_id p.id in
    if is_duplicate external_id s then s else elim (session_of e.session_id s) [
      | none ↦ s
      | some session ↦
          store_outgoing w save session p external_id
            (or_else (first_of p.timestamp e.timestamp) (w.now s.draws)) s
    ]

unfoldable pub handle_message_decrypt_failed : MessageEvent → Store → Store
handle_message_decrypt_failed e s = elim (session_of e.session_id s) [
  | none ↦ s
  | some session ↦
      let from = or_else (first_of e.payload.from e.payload.sender) [] in
      let conversation =
        if is_empty from
        then none
        else find_first (has_key session.tenant_id session.id from) s.conversations in
      emit
        (message_decrypt_failed session.tenant_id e.session_id from
          (elim conversation [ none ↦ none | some c ↦ some c.id ]))
        s
]
