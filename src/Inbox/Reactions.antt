-- ===== src/Inbox/Reactions.antt =====
-- `handleMessageReaction` of backend/src/webhooks/webhooks.processor.ts. The object of the
-- reactions is the list of its entries; an emoji is the name of no property of every object.
pub mod Uniqueness
use notifymain_wa.Prelude.{
  ℕ, Bool, not, Option, none, some, List, [], ◌∷◌, ◌++◌, ◌==◌, or_else, if◌then◌else◌, is_empty,
  keep, find_first, update_where,
}
use notifymain_wa.Text.{Str, str_eq, trim}
use notifymain_wa.Campaigns.Data.{Message, message_reaction, Store}
use notifymain_wa.Inbox.Acks.{has_external_id}
use notifymain_wa.Inbox.Links.{emit}

-- The senders of each emoji.
abbrev pub ReactionTable : Type 0
ReactionTable = List (Str × List Str)

-- The sender is taken from every emoji, and an emoji without senders goes.
unfoldable pub clean : Str → ReactionTable → ReactionTable
clean sender [] = []
clean sender ((emoji, senders) ∷ table) =
    let rest = clean sender table in
    let filtered = keep (λ j. not (str_eq j sender)) senders in
    if is_empty filtered then rest else (emoji, filtered) ∷ rest

-- `cleaned[emoji] = [...(cleaned[emoji] ?? []), senderJid]`
unfoldable pub put_sender : Str → Str → ReactionTable → ReactionTable
put_sender emoji sender [] = (emoji, sender ∷ []) ∷ []
put_sender emoji sender ((other, senders) ∷ table) =
    let rest = put_sender emoji sender table in
    if str_eq other emoji then (other, senders ++ sender ∷ []) ∷ table else (other, senders) ∷ rest

unfoldable pub react : Str → Option Str → ReactionTable → ReactionTable
unfolding clean put_sender
react sender none table = clean sender table
react sender (some emoji) table =
    if is_empty (trim emoji)
    then clean sender table
    else put_sender emoji sender (clean sender table)

abbrev pub write_reactions : ℕ → ReactionTable → Store → Store
write_reactions id table s = record s {
  messages =
      update_where (λ (m : Message). m.id == id) (λ m. record m { reactions = table }) s.messages;
}

unfoldable pub handle_message_reaction :
    (target sender : Option Str) → (emoji : Option Str) → Store → Store
unfolding react
handle_message_reaction target sender emoji s =
    let id = or_else target [] in
    let from = or_else sender [] in
    if is_empty id
    then s
    else if is_empty from
    then s
    else elim (find_first (has_external_id id) s.messages) [
      | none ↦ s
      | some m ↦
          let table = react from emoji m.reactions in
          let written = write_reactions m.id table s in
          elim m.conversation_id [
            | none ↦ written
            | some c ↦ emit (message_reaction m.tenant_id m.id c table) written
          ]
    ]
