-- ===== src/Campaigns/Conversations.antt =====
-- The conversation that a message of a campaign goes to, from
-- backend/src/campaigns/campaign-processor.ts.
use notifymain_wa.Prelude.{
  ℕ, Bool, not, ◌&&◌, Option, none, some, List, [], ◌∷◌, ◌++◌, is_some, or_else, take, ◌==◌,
  if◌then◌else◌, find_first, keep, update_where,
}
use notifymain_wa.Text.{Str, str_eq}
use notifymain_wa.Campaigns.Data.{CampaignContact, opened, Conversation}

-- The key of a conversation: the tenant, the session and the phone number.
abbrev pub in_conversation : ℕ → Option ℕ → Str → Conversation → Bool
in_conversation t none phone c =
    (c.tenant_id == t) && str_eq c.phone_number phone && not (is_some c.session_id)
in_conversation t (some session) phone c =
    (c.tenant_id == t)
    && str_eq c.phone_number phone
    && (is_some c.session_id && (or_else c.session_id 0 == session))

-- A conversation with no session is adopted where the session has none yet, and else deleted.
unfoldable pub adopt_orphans : ℕ → ℕ → Str → List Conversation → List Conversation
adopt_orphans t session phone table =
    if is_some (find_first (in_conversation t (some session) phone) table)
    then keep (λ c. not (in_conversation t none phone c)) table
    else update_where (in_conversation t none phone) (λ c. record c { session_id = some session })
        table

-- `upsert`: the table and the id of the conversation.
unfoldable pub upsert_conversation :
    ℕ → ℕ → ℕ → CampaignContact → (name body : Str) → ℕ → List Conversation → List Conversation × ℕ
upsert_conversation id t session contact name body now table =
    let key = in_conversation t (some session) contact.phone_number in
    let text = take 500 body in
    elim (find_first key table) [
      | some c ↦ (
        update_where key
            (λ c. record c {
              last_message_at = some now;
              last_message_text = some text;
              contact_id = elim contact.contact_id [ none ↦ c.contact_id | some i ↦ some i ];
            })
            table,
        c.id,
      )
      | none ↦ (
        table
            ++ record {
              id = id;
              tenant_id = t;
              session_id = some session;
              contact_id = contact.contact_id;
              contact_name = some name;
              phone_number = contact.phone_number;
              status = opened;
              unread_count = 0;
              last_message_at = some now;
              last_message_text = some text;
            }
              ∷ [],
        id,
      )
    ]
