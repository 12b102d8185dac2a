-- ===== src/Inbox/Chats.antt =====
-- `handleSessionChatsSynced` of backend/src/webhooks/webhooks.processor.ts. The chats of one batch
-- start together: which of them comes further next, and which of them fails, is given as turns.
pub mod Counts
use notifymain_wa.Prelude.{
  ℕ, zero, suc, Bool, true, false, not, ◌||◌, Option, none, some, List, [], ◌∷◌, ◌++◌, is_some,
  ◌==◌, ltb, or_else, length, if◌then◌else◌, take, drop, is_empty, update_where, find_first,
}
use notifymain_wa.Text.{Str, codes, trim, ends_with}
use notifymain_wa.Campaigns.Data.{opened, Session, Conversation, session_sync_complete, Store}
use notifymain_wa.Campaigns.Actions.{World}
use notifymain_wa.Inbox.Addresses.{normalise_jid}
use notifymain_wa.Inbox.Threads.{has_key, reattach_orphan, upsert, set_conversations}
use notifymain_wa.Inbox.Links.{session_of, emit}

-- A field of another type than the source tests for is absent, and so is a negative count.
pub record Chat : Type 0 where
  pub jid : Str
  pub last_message_at : Option ℕ
  pub last_message_text : Option Str
  pub unread_count : Option ℕ
  pub contact_name : Option Str

abbrev pub batch_size : ℕ
batch_size = 20

abbrev pub batch_gap_ms : ℕ
batch_gap_ms = 100

-- A text that is not blank, without the white space around it.
abbrev pub trimmed : Option Str → Option Str
trimmed none = none
trimmed (some text) = if is_empty (trim text) then none else some (trim text)

abbrev pub chat_text : Chat → Str
chat_text chat = take 500 (or_else chat.last_message_text [])

abbrev pub chat_time : ℕ → Chat → ℕ
chat_time now chat = elim chat.last_message_at [
  | none ↦ now
  | some at ↦ if at == 0 then now else at
]

abbrev pub is_skipped : Str → Bool
is_skipped jid =
    is_empty jid || ends_with jid (codes "@newsletter") || ends_with jid (codes "@broadcast")

abbrev pub has_real_content : Chat → Bool
has_real_content chat =
    not (is_empty (trim (chat_text chat)))
    || ltb 0 (or_else chat.unread_count 0)
    || is_some (trimmed chat.contact_name)

abbrev pub refreshed : ℕ → Chat → Conversation → Conversation
refreshed now chat c = record c {
  last_message_at = some (chat_time now chat);
  last_message_text = some (chat_text chat);
  unread_count = or_else chat.unread_count 0;
  contact_name = elim (trimmed chat.contact_name) [ none ↦ c.contact_name | some n ↦ some n ];
}

abbrev pub chat_row : ℕ → Session → Str → ℕ → Chat → Conversation
chat_row id session jid now chat = record {
  id = id;
  tenant_id = session.tenant_id;
  session_id = some session.id;
  contact_id = none;
  contact_name = trimmed chat.contact_name;
  phone_number = jid;
  status = opened;
  unread_count = or_else chat.unread_count 0;
  last_message_at = some (chat_time now chat);
  last_message_text = some (chat_text chat);
}

-- How far a chat has come: it waits for `reattachOrphan`, for the write of its row, or it is over.
pub data Stage : Type 0 where
  orphans row over : Stage

-- A chat of a batch, with the time that was read when it started.
pub record Running : Type 0 where
  pub chat : Chat
  pub now : ℕ
  pub stage : Stage

-- Which chat of a batch comes further, and whether what it waits for throws.
pub record Turn : Type 0 where
  pub position : ℕ
  pub fails : Bool

-- All chats of a batch run up to `reattachOrphan` before any of them goes on.
unfoldable pub begin_batch : World → List Chat → Store → List Running × Store
begin_batch w [] s = ([], s)
begin_batch w (chat ∷ chats) s = elim (is_skipped chat.jid) [
  | true ↦ begin_batch w chats s
  | false ↦
      let (running, after) = begin_batch w chats (record s { draws = suc s.draws }) in
      (record { chat = chat; now = w.now s.draws; stage = orphans } ∷ running, after)
]

-- The conversations after the write of a chat, and whether a row was written.
unfoldable pub write_chat : ℕ → ℕ → Session → Chat → List Conversation → List Conversation × Bool
unfolding upsert normalise_jid
write_chat id now session chat table =
    let jid = normalise_jid chat.jid in
    let key = has_key session.tenant_id session.id jid in
    if has_real_content chat
    then (
      (upsert session.tenant_id session.id jid (refreshed now chat)
          (chat_row id session jid now chat) table).0,
      true,
    )
    else (update_where key (refreshed now chat) table, is_some (find_first key table))

-- A chat comes to its next stage: the store, and `upsertedCount`.
unfoldable pub sync_chat : World → Session → Running → Store × ℕ → Store × ℕ
unfolding write_chat reattach_orphan normalise_jid
sync_chat w session r (s, count) = elim r.stage [
  | orphans ↦ (
    set_conversations
        (reattach_orphan session.tenant_id session.id (normalise_jid r.chat.jid) s.conversations) s,
    count,
  )
  | row ↦
      let (table, written) = write_chat (w.new_id s.draws) r.now session r.chat s.conversations in
      (
        record s { conversations = table; draws = suc s.draws },
        if written then suc count else count,
      )
  | over ↦ (s, count)
]

abbrev pub next_stage : Stage → Stage
next_stage orphans = row
next_stage row = over
next_stage over = over

-- The chat at a position comes further. Where it throws, the error is logged and the chat is over.
unfoldable pub advance :
    World → Session → ℕ → Bool → List Running → Store × ℕ → List Running × (Store × ℕ)
unfolding sync_chat
advance w session position fails [] acc = ([], acc)
advance w session zero true (r ∷ running) acc = (record r { stage = over } ∷ running, acc)
advance w session zero false (r ∷ running) acc =
    (record r { stage = next_stage r.stage } ∷ running, sync_chat w session r acc)
advance w session (suc position) fails (r ∷ running) acc =
    let (rest, after) = advance w session position fails running acc in (r ∷ rest, after)

-- `Promise.all` waits for all: after the turns, what is left of the chats runs in their order.
unfoldable pub finish_chats : World → Session → List Running → Store × ℕ → Store × ℕ
unfolding sync_chat
finish_chats w session [] acc = acc
finish_chats w session (r ∷ running) acc =
    finish_chats w session running
      (sync_chat w session (record r { stage = next_stage r.stage }) (sync_chat w session r acc))

unfoldable pub take_turns : World → Session → List Turn → List Running → Store × ℕ → Store × ℕ
unfolding advance finish_chats
take_turns w session [] running acc = finish_chats w session running acc
take_turns w session (turn ∷ turns) running acc =
    let (after, next) = advance w session turn.position turn.fails running acc in
    take_turns w session turns after next

unfoldable pub sync_batch : World → (ℕ → List Turn) → Session → List Chat → Store × ℕ → Store × ℕ
unfolding take_turns begin_batch
sync_batch w turns session chats (s, count) =
    let (running, begun) = begin_batch w chats (record s { draws = suc s.draws }) in
    take_turns w session (turns s.draws) running (begun, count)

abbrev pub pause_batch : Store × ℕ → Store × ℕ
pause_batch (s, count) = (record s { waits = s.waits ++ batch_gap_ms ∷ [] }, count)

-- The loop over the batches, with as much fuel as there are chats.
unfoldable pub sync_batches :
    ℕ → World → (ℕ → List Turn) → Session → List Chat → Store × ℕ → Store × ℕ
unfolding sync_batch
sync_batches zero w turns session chats acc = acc
sync_batches (suc fuel) w turns session chats acc =
    let done = sync_batch w turns session (take batch_size chats) acc in
    elim (is_empty (drop batch_size chats)) [
      | true ↦ done
      | false ↦ sync_batches fuel w turns session (drop batch_size chats) (pause_batch done)
    ]

-- `chats` is empty where the payload has no array.
unfoldable pub handle_session_chats_synced :
    World → (ℕ → List Turn) → Str → List Chat → Store → Store
unfolding sync_batches
handle_session_chats_synced w turns openwa_id chats s = elim (session_of openwa_id s) [
  | none ↦ s
  | some session ↦
      let (synced, count) = sync_batches (length chats) w turns session chats (s, 0) in
      emit (session_sync_complete session.tenant_id openwa_id count) synced
]
