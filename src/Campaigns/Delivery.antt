-- ===== src/Campaigns/Delivery.antt =====
-- What backend/src/campaigns/campaign-processor.ts does for one contact of a campaign: the
-- conversation, the message, the request to the engine and what its answer changes, and the
-- links that follow. Calls of the database succeed.
use notifymain_wa.Prelude.{
  ℕ, suc, Option, none, some, List, [], ◌∷◌, ◌++◌, or_else, take, ◌==◌, find_first, update_where,
}
use notifymain_wa.Text.{Str}
use notifymain_wa.Interpolation.{ContactNames, resolve_display_name, interpolate_message}
use notifymain_wa.Campaigns.Data.{
  outbound, ContactStatus, MessageStatus, MessageType, text, Campaign, CampaignContact, Contact,
  Session, Message, message_received, campaign_progress, Post, Store,
}
use notifymain_wa.Campaigns.Progress.{compute_campaign_progress}
use notifymain_wa.Campaigns.Actions.{World, PostResult, accepted, refused}
use notifymain_wa.Campaigns.Lookup.{is_campaign}
use notifymain_wa.Campaigns.Pacing.{rand_int, rand_size}
use notifymain_wa.Campaigns.Conversations.{adopt_orphans, upsert_conversation}

-- What the run of a campaign fixes before its loop.
pub record Run : Type 0 where
  pub campaign : Campaign
  pub session : Session
  pub engine : Str
  pub type : MessageType
  pub base_text : Str
  pub media_url : Option Str  -- as the engine can reach it
  pub links : List Str

abbrev pub new_message : ℕ → ℕ → Run → ℕ → MessageType → (to body : Str) → Option Str → Message
new_message id t run conversation_id type to body media_url = record {
  id = id;
  tenant_id = t;
  session_id = run.campaign.session_id;
  conversation_id = some conversation_id;
  campaign_id = some run.campaign.id;
  direction = outbound;
  type = type;
  from_number = or_else run.session.phone_number [];
  to_number = to;
  body = body;
  media_url = media_url;
  media_type = none;
  status = MessageStatus.pending;
  external_id = none;
  reactions = [];
  sent_at = none;
  delivered_at = none;
  read_at = none;
  failed_at = none;
  error_message = none;
}

abbrev pub update_message : ℕ → (Message → Message) → Store → Store
update_message id f s = record s { messages = update_where (λ m. m.id == id) f s.messages }

abbrev pub update_contact : ℕ → (CampaignContact → CampaignContact) → Store → Store
update_contact id f s = record s {
  campaign_contacts = update_where (λ c. c.id == id) f s.campaign_contacts;
}

abbrev pub mark_message_sent : Option Str → ℕ → Message → Message
mark_message_sent external_id now m = record m {
  status = MessageStatus.sent;
  external_id = external_id;
  sent_at = some now;
}

abbrev pub mark_sent : ℕ → ℕ → CampaignContact → CampaignContact
mark_sent message_id now c = record c {
  status = ContactStatus.sent;
  sent_at = some now;
  message_id = some message_id;
}

abbrev pub mark_failed : Str → ℕ → ℕ → CampaignContact → CampaignContact
mark_failed error message_id now c = record c {
  status = ContactStatus.failed;
  failed_at = some now;
  error_message = some (take 500 error);
  message_id = some message_id;
}

unfoldable pub emit_progress : World → ℕ → ℕ → Store → Store
emit_progress w t id s = elim (find_first (is_campaign id) s.campaigns) [
  | none ↦ s
  | some c ↦ record s {
    events =
        s.events
        ++ campaign_progress t c.id (compute_campaign_progress w.group_by s.campaign_contacts id)
            c.total_contacts c.status
          ∷ [];
  }
]

abbrev pub link_post : Run → ℕ → Str → Str → Post
link_post run id to url = record {
  engine = run.engine;
  session = run.session.openwa_id;
  to = to;
  type = text;
  text = url;
  media_url = none;
  message_id = id;
}

-- One round of the loop over `followUpUrls`. A refusal is only logged.
unfoldable pub send_link : World → ℕ → Run → ℕ → Str → Str → Store → Store
unfolding rand_int
send_link w t run conversation_id to url s =
    let wait = rand_int (w.pick s.draws (rand_size 1500 3000)) 1500 in
    let id = w.new_id (suc s.draws) in
    let now = w.now (suc (suc s.draws)) in
    let post = link_post run id to url in
    let asked = record s {
      waits = s.waits ++ wait ∷ [];
      messages = s.messages ++ new_message id t run conversation_id text to url none ∷ [];
      posts = s.posts ++ post ∷ [];
      draws = suc (suc (suc s.draws));
    } in
    elim (w.post s.draws post) [
      | refused e ↦ asked
      | accepted external_id ↦ update_message id (mark_message_sent external_id now) asked
    ]

unfoldable pub send_links : World → ℕ → Run → ℕ → Str → List Str → Store → Store
unfolding send_link
send_links w t run conversation_id to [] s = s
send_links w t run conversation_id to (url ∷ urls) s =
    send_links w t run conversation_id to urls (send_link w t run conversation_id to url s)

abbrev pub main_post : Run → ℕ → Str → Str → Post
main_post run id to body = record {
  engine = run.engine;
  session = run.session.openwa_id;
  to = to;
  type = run.type;
  text = body;
  media_url = run.media_url;
  message_id = id;
}

-- The linked row of `contacts`, of which the name is shown.
abbrev pub names_of : List Contact → Option ℕ → Option ContactNames
names_of table none = none
names_of table (some id) = elim (find_first (λ c. c.id == id) table) [
  | none ↦ none
  | some c ↦ some (record { whatsapp_name = c.whatsapp_name; name = some c.name })
]

-- The steps before the request: the conversation, and the message as PENDING.
unfoldable pub prepare : World → ℕ → Run → CampaignContact → Str → Str → Store → Store × ℕ
unfolding adopt_orphans upsert_conversation
prepare w t run contact name body s =
    let session = run.session.id in
    let adopted = adopt_orphans t session contact.phone_number s.conversations in
    let (table, conversation_id) =
      upsert_conversation (w.new_id s.draws) t session contact name body (w.now (suc s.draws))
        adopted in
    let id = w.new_id (suc (suc s.draws)) in
    (
      record s {
        conversations = table;
        messages =
            s.messages
            ++ new_message id t run conversation_id run.type contact.phone_number body
                run.campaign.media_url
              ∷ [];
        draws = suc (suc (suc s.draws));
      },
      conversation_id,
    )

-- What the answer of the engine changes.
unfoldable pub settle : World → ℕ → Run → CampaignContact → ℕ → ℕ → Str → PostResult → Store → Store
unfolding send_links emit_progress
settle w t run contact conversation_id id body (refused e) s =
    let now = w.now s.draws in
    emit_progress w t run.campaign.id (
      update_contact contact.id (mark_failed e id now) (
        update_message id
          (λ m. record m {
            status = MessageStatus.failed;
            failed_at = some now;
            error_message = some (take 500 e);
          })
          (record s { draws = suc s.draws })))
settle w t run contact conversation_id id body (accepted external_id) s =
    let now = w.now s.draws in
    let marked =
      update_contact contact.id (mark_sent id now) (
        update_message id (mark_message_sent external_id now) (record s { draws = suc s.draws })) in
    let shown = record marked {
      events =
          s.events ++ message_received t id conversation_id contact.phone_number body run.type ∷ [];
    } in
    emit_progress w t run.campaign.id
      (send_links w t run conversation_id contact.phone_number run.links shown)

-- The whole round for one contact, up to the pause.
unfoldable pub deliver : World → ℕ → Run → CampaignContact → Store → Store
unfolding settle prepare
deliver w t run contact s =
    let name = resolve_display_name (names_of s.contacts contact.contact_id) contact.phone_number in
    let body = interpolate_message run.base_text name in
    let id = w.new_id (suc (suc s.draws)) in
    let post = main_post run id contact.phone_number body in
    let (prepared, conversation_id) = prepare w t run contact name body s in
    settle w t run contact conversation_id id body (w.post prepared.draws post)
      (record prepared { posts = s.posts ++ post ∷ [] })
