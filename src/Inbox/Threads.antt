-- ===== src/Inbox/Threads.antt =====
-- The conversations of backend/src/webhooks/webhooks.processor.ts: `reattachOrphan`, and the writes
-- of one row by its key. The rows of a table stand in the order of their creation.
pub mod Keys
pub mod Orphans
use notifymain_wa.Prelude.{
  ℕ, Bool, true, false, not, ◌&&◌, Option, none, some, List, [], ◌∷◌, ◌++◌, is_some, ◌==◌,
  if◌then◌else◌, find_first, keep, update_where, drop, map, any,
}
use notifymain_wa.Text.{Str}
use notifymain_wa.Campaigns.Data.{Conversation, Store}
use notifymain_wa.Campaigns.Conversations.{in_conversation}

-- `{ tenantId_sessionId_phoneNumber: … }`
abbrev pub has_key : ℕ → ℕ → Str → Conversation → Bool
has_key t session phone c = in_conversation t (some session) phone c

abbrev pub is_orphan : ℕ → Str → Conversation → Bool
is_orphan t phone c = in_conversation t none phone c

abbrev pub attach : ℕ → Conversation → Conversation
attach session c = record c { session_id = some session }

-- The orphans after the first are deleted, and the first one gets the session.
abbrev pub adopt_first : ℕ → Str → ℕ → List Conversation → List Conversation
adopt_first t phone session table = elim (keep (is_orphan t phone) table) [
  | [] ↦ table
  | o ∷ others ↦
      update_where (λ (c : Conversation). c.id == o.id) (attach session)
        (keep (λ (c : Conversation). not (any (λ (d : Conversation). c.id == d.id) others)) table)
]

unfoldable pub reattach_orphan : ℕ → ℕ → Str → List Conversation → List Conversation
reattach_orphan t session phone table =
    if is_some (find_first (has_key t session phone) table)
    then keep (λ c. not (is_orphan t phone c)) table
    else adopt_first t phone session table

-- `upsert` by the key: the table, and the id of the row.
unfoldable pub upsert :
    ℕ
    → ℕ
    → Str
    → (Conversation → Conversation)
    → Conversation
    → List Conversation
    → List Conversation × ℕ
upsert t session phone change fresh table = elim (find_first (has_key t session phone) table) [
  | some c ↦ (update_where (has_key t session phone) change table, c.id)
  | none ↦ (table ++ fresh ∷ [], fresh.id)
]

abbrev pub set_conversations : List Conversation → Store → Store
set_conversations table s = record s { conversations = table }
