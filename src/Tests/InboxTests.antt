-- ===== src/Tests/InboxTests.antt =====
-- The events of the engine at the sample database.
use notifymain_wa.Prelude.{
  ℕ, ◌≡◌, ◌≤◌, ◌+◌, refl, true, false, Option, none, some, List, [], ◌∷◌, ◌++◌, arith, count_where,
  map, if◌then◌else◌, ◌==◌,
}
use notifymain_wa.Text.{
  Str, codes, str_eq, is_digit, is_space, trim, starts_with, ends_with, before,
}
use notifymain_wa.Campaigns.Data.{
  outbound, MessageType, ConversationStatus, message_decrypt_failed, CampaignStatus, Conversation,
  Message, Store, MessageStatus, Session, SessionStatus,
}
use notifymain_wa.Phone.{normalise_phone, strip, classify}
use notifymain_wa.Inbox.Addresses.{contact_suffix, normalise_jid, resolve_contact_match_phone}
use notifymain_wa.Inbox.Addresses.Laws.{contact-address}
use notifymain_wa.Inbox.Threads.{is_orphan, reattach_orphan}
use notifymain_wa.Inbox.Threads.Orphans.{reattach_orphan-clears}
use notifymain_wa.Inbox.Messages.{
  SaveMedia, MessagePayload, MessageEvent, handle_message_received, handle_message_decrypt_failed,
}
use notifymain_wa.Inbox.Messages.Repetition.{handle_message_received-twice}
use notifymain_wa.Inbox.Acks.{device, try_ack, retry_delays_ms}
use notifymain_wa.Inbox.Acks.Arrival.{IsStamped, try_ack-arrives}
use notifymain_wa.Inbox.Reactions.{react}
use notifymain_wa.Inbox.Reactions.Uniqueness.{times_in_all, is_blank, react-once}
use notifymain_wa.Inbox.Chats.{Chat, Turn, sync_batches}
use notifymain_wa.Inbox.Chats.Counts.{real_chats, sync_batches-count}
use notifymain_wa.Inbox.{EngineEvent, process}
use notifymain_wa.Inbox.Soundness.{IsSound}
use notifymain_wa.Inbox.Soundness.Process.{process-IsSound}
use notifymain_wa.Campaigns.Conversations.{adopt_orphans, in_conversation}
use notifymain_wa.Tests.Sample.{world, world-IsGenerator, store}

abbrev phone : Str
phone = codes "919876543210"

abbrev start : Store
start = store CampaignStatus.running

abbrev save : SaveMedia
save tenant_id extension base64 = none

abbrev payload : MessagePayload
payload = record {
  external_id = some (codes "x1");
  id = none;
  serialized_id = none;
  from = some (codes "919876543210@s.whatsapp.net");
  sender = none;
  to = none;
  pn = none;
  push_name = some (codes "Asha");
  type = some (codes "chat");
  body = some (codes "hello");
  text = none;
  caption = none;
  mimetype = none;
  timestamp = some 5;
}

abbrev event : MessageEvent
event = record { session_id = codes "s1"; from = none; timestamp = none; payload = payload }

start-IsSound : IsSound world start
start-IsSound = record {
  threaded = record { distinct = λ id. omega arith; keyed = λ t s n. omega arith };
  fresh = λ k h. refl;
  once = λ id h. omega arith;
}

process-IsSound_example :
    IsSound world
      (process world save (λ n s. s) (λ n. []) (EngineEvent.message_received event) start)
process-IsSound_example =
    process-IsSound world save (λ n s. s) (λ n. []) (EngineEvent.message_received event) start
      world-IsGenerator (λ n s v. v) start-IsSound

handle_message_received-twice_example :
    handle_message_received world save event (handle_message_received world save event start)
    ≡ handle_message_received world save event start
handle_message_received-twice_example =
    handle_message_received-twice world save event (codes "x1") start refl refl

abbrev mail : Message
mail = record {
  id = 40;
  tenant_id = 7;
  session_id = some 1;
  conversation_id = none;
  campaign_id = none;
  direction = outbound;
  type = MessageType.text;
  from_number = [];
  to_number = phone;
  body = codes "hello";
  media_url = none;
  media_type = none;
  status = MessageStatus.read;
  external_id = some (codes "x1");
  reactions = [];
  sent_at = none;
  delivered_at = none;
  read_at = none;
  failed_at = none;
  error_message = none;
}

-- The message arrives during the third pause.
abbrev arrival : ℕ → Store → Store
arrival n s = if n == 600 then record s { messages = mail ∷ [] } else s

try_ack-arrives_example :
    ((try_ack (codes "x1") device 9 arrival retry_delays_ms start).0 ≡ true)
    × IsStamped (codes "x1") device (try_ack (codes "x1") device 9 arrival retry_delays_ms start).1
unfolding str_eq
try_ack-arrives_example = try_ack-arrives (codes "x1") device 9 arrival retry_delays_ms start refl

-- An acknowledgement of delivery after one of reading takes the status back.
late_ack :
    map
      (λ (m : Message). m.status)
      (try_ack (codes "x1") device 9 arrival retry_delays_ms start).1.messages
    ≡ MessageStatus.delivered ∷ []
unfolding try_ack str_eq
late_ack = refl

abbrev thread : (id : ℕ) → Option ℕ → Conversation
thread id session_id = record {
  id = id;
  tenant_id = 7;
  session_id = session_id;
  contact_id = none;
  contact_name = none;
  phone_number = phone;
  status = ConversationStatus.opened;
  unread_count = 0;
  last_message_at = none;
  last_message_text = none;
}

reattach_orphan-clears_example :
    count_where (is_orphan 7 phone) (reattach_orphan 7 1 phone (thread 1 none ∷ thread 2 none ∷ []))
    ≡ 0
reattach_orphan-clears_example =
    reattach_orphan-clears 7 1 phone (thread 1 none ∷ thread 2 none ∷ [])

-- The campaigns give both orphans the session, and so one key to two rows.
two_orphans :
    count_where
      (in_conversation 7 (some 1) phone)
      (adopt_orphans 7 1 phone (thread 1 none ∷ thread 2 none ∷ []))
    ≡ 2
unfolding adopt_orphans str_eq
two_orphans = refl

abbrev reactions : List (Str × List Str)
reactions = (codes "+1", codes "a" ∷ codes "b" ∷ []) ∷ []

react-once_example :
    times_in_all (codes "a") (react (codes "a") (some (codes ":)")) reactions)
    ≡ (if is_blank (some (codes ":)")) then 0 else 1)
react-once_example = react-once (codes "a") (some (codes ":)")) reactions

plain_valid : (normalise_phone phone).valid ≡ true
unfolding normalise_phone strip classify trim is_space is_digit starts_with
plain_valid = refl

plain_no_zeros : starts_with (normalise_phone phone).normalised (codes "00") ≡ false
unfolding normalise_phone strip classify trim is_space is_digit starts_with
plain_no_zeros = refl

contact-address_example :
    (normalise_jid ((normalise_phone phone).normalised ++ contact_suffix)
      ≡ (normalise_phone phone).normalised)
    × (resolve_contact_match_phone none ((normalise_phone phone).normalised ++ contact_suffix)
        ≡ some (normalise_phone phone).normalised)
contact-address_example = contact-address phone plain_valid plain_no_zeros

-- A number of ten digits with its country code is looked up with 91 before it.
ten_digits :
    resolve_contact_match_phone none (codes "6591234567@s.whatsapp.net")
    ≡ some (codes "916591234567")
unfolding resolve_contact_match_phone normalise_phone strip classify trim is_space is_digit
    starts_with before ends_with
ten_digits = refl

-- The conversation of the sender is not found by the sender's address.
decrypt_failed_unknown :
    (handle_message_decrypt_failed event
      (record start { conversations = thread 1 (some 1) ∷ [] })).events
    ≡ message_decrypt_failed 7 (codes "s1") (codes "919876543210@s.whatsapp.net") none ∷ []
unfolding handle_message_decrypt_failed str_eq
decrypt_failed_unknown = refl

abbrev chat : Str → Chat
chat jid = record {
  jid = jid;
  last_message_at = none;
  last_message_text = some (codes "hello");
  unread_count = none;
  contact_name = none;
}

abbrev session : Session
session = record {
  id = 1;
  tenant_id = 1;
  openwa_id = codes "s1";
  phone_number = none;
  engine_instance_id = none;
  status = SessionStatus.connected;
  last_seen_at = none;
}

-- The first chat fails after the second has come further, and the third is skipped.
abbrev turns : ℕ → List Turn
turns n =
    record { position = 1; fails = false }
    ∷ record { position = 0; fails = true }
    ∷ record { position = 1; fails = false }
    ∷ []

abbrev chats : List Chat
chats =
    chat (codes "919876543210@s.whatsapp.net")
    ∷ chat (codes "919876543211@s.whatsapp.net")
    ∷ chat (codes "1@newsletter")
    ∷ []

sync_batches_counts_one : (sync_batches 3 world turns session chats (start, 0)).1 ≡ 1
unfolding sync_batches trim is_space
sync_batches_counts_one = refl

sync_batches-count_example :
    (sync_batches 3 world turns session chats (start, 0)).1 ≤ 0 + real_chats chats
sync_batches-count_example = sync_batches-count world session turns 3 chats (start, 0)
