-- ===== src/Campaigns/Processor/Steps.antt =====
-- What one round of the loop leaves alone, and what it writes to the contacts.
use notifymain_wa.Prelude.{
  ℕ, suc, ◌≤◌, ◌≡◌, refl, sym, ap, ◌∙◌, ◌⊎◌, map, All, inl, inr, some, List, [], ◌∷◌, ◌++◌, arith,
  take, update_where, ◌==◌,
}
use mathlib.Core.List.{append-nil, append_assoc}
use notifymain_wa.Text.{Str}
use notifymain_wa.Interpolation.{resolve_display_name, interpolate_message}
use notifymain_wa.Campaigns.Data.{
  MessageStatus, ContactStatus, CampaignContact, Contact, Message, Post, message_received, Store,
}
use notifymain_wa.Campaigns.Actions.{World, PostResult, accepted, refused, PostResult-cases}
use notifymain_wa.Campaigns.Delivery.{
  Run, link_post, emit_progress, send_link, send_links, settle, deliver, prepare, names_of,
  main_post, mark_sent, mark_message_sent, mark_failed,
}
use notifymain_wa.Campaigns.Processor.{pace}

-- A step that reads campaigns and contacts only.
pub record Leaves (s s' : Store) : Type 0 where
  pub campaigns : s'.campaigns ≡ s.campaigns
  pub contacts : s'.campaign_contacts ≡ s.campaign_contacts
  pub people : s'.contacts ≡ s.contacts
  pub later : s.draws ≤ s'.draws

Leaves-trans : {s t u : Store} → Leaves s t → Leaves t u → Leaves s u
Leaves-trans a b = record {
  campaigns = b.campaigns ∙ a.campaigns;
  contacts = b.contacts ∙ a.contacts;
  people = b.people ∙ a.people;
  later = omega arith;
}

pub emit_progress-Leaves :
    (w : World) (t id : ℕ) (s : Store)
    → Leaves s (emit_progress w t id s) × ((emit_progress w t id s).posts ≡ s.posts)
unfolding emit_progress
emit_progress-Leaves w t id s = ground arith

send_link-Leaves :
    (w : World) (t : ℕ) (run : Run) (conversation : ℕ) (to url : Str) (s : Store)
    → Leaves s (send_link w t run conversation to url s)
      × ((send_link w t run conversation to url s).posts
          ≡ s.posts ++ link_post run (w.new_id (suc s.draws)) to url ∷ [])
unfolding send_link
send_link-Leaves w t run conversation to url s =
    let post = link_post run (w.new_id (suc s.draws)) to url in
    elim (PostResult-cases (w.post s.draws post)) [
      | inl (e, no_answer) ↦
          rw (no_answer, send_link)
            (record { campaigns = refl; contacts = refl; people = refl; later = omega arith }, refl)
      | inr (x, answer) ↦
          rw (answer, send_link)
            (record { campaigns = refl; contacts = refl; people = refl; later = omega arith }, refl)
    ]

-- Requests to a number that send these links, in their order.
abbrev pub IsLinks : Str → List Str → List Post → Type 0
IsLinks to urls posts =
    All (λ (p : Post). p.to ≡ to) posts × (map (λ (p : Post). p.text) posts ≡ urls)

send_links-Leaves :
    (w : World) (t : ℕ) (run : Run) (conversation : ℕ) (to : Str) (urls : List Str) (s : Store)
    → Leaves s (send_links w t run conversation to urls s)
      × ((more : List Post) × ((send_links w t run conversation to urls s).posts ≡ s.posts ++ more)
          × IsLinks to urls more)
unfolding send_links
send_links-Leaves w t run conversation to [] s = (
  record { campaigns = refl; contacts = refl; people = refl; later = omega arith },
  ([], sym (append-nil s.posts), (tt, refl)),
)
send_links-Leaves w t run conversation to (url ∷ urls) s =
    let after = send_link w t run conversation to url s in
    let (here, one) = send_link-Leaves w t run conversation to url s in
    let (rest, (more, posts, links)) = send_links-Leaves w t run conversation to urls after in
    let post = link_post run (w.new_id (suc s.draws)) to url in
    (
      Leaves-trans here rest,
      (
        post ∷ more,
        posts ∙ ap (λ l. l ++ more) one ∙ append_assoc s.posts (post ∷ []) more,
        ((refl, links.0), ap (λ l. url ∷ l) links.1),
      ),
    )

pub pace-Leaves :
    (w : World) (base sent : ℕ) (s : Store)
    → Leaves s (pace w base sent s) × ((pace w base sent s).posts ≡ s.posts)
unfolding pace
pace-Leaves w base sent s =
    (record { campaigns = refl; contacts = refl; people = refl; later = omega arith }, refl)

-- A write to one contact that settles it: the row becomes SENT or FAILED, and keeps its key.
pub record Settles (f : CampaignContact → CampaignContact) : Type 0 where
  pub keeps :
      (r : CampaignContact)
      → ((f r).campaign_id ≡ r.campaign_id)
        × ((f r).phone_number ≡ r.phone_number)
        × ((f r).id ≡ r.id)
  pub settled :
      (r : CampaignContact)
      → ((f r).status ≡ ContactStatus.sent) ⊎ ((f r).status ≡ ContactStatus.failed)

-- The message of a run for one contact, with the name that the table of contacts has for it.
abbrev pub body_for : Run → List Contact → CampaignContact → Str
body_for run table contact =
    interpolate_message run.base_text
      (resolve_display_name (names_of table contact.contact_id) contact.phone_number)

-- A request with the message of a run to the number of a contact.
pub record IsMessageTo (run : Run) (table : List Contact) (contact : CampaignContact) (p : Post)
    : Type 0 where
  pub to : p.to ≡ contact.phone_number
  pub text : p.text ≡ body_for run table contact
  pub engine : p.engine ≡ run.engine
  pub session : p.session ≡ run.session.openwa_id
  pub type : p.type ≡ run.type
  pub media : p.media_url ≡ run.media_url

-- The links follow, or nothing.
abbrev pub MayFollow : Run → CampaignContact → List Post → Type 0
MayFollow run contact more = (more ≡ []) ⊎ IsLinks contact.phone_number run.links more

-- What a round for one contact does to the campaigns and the contacts, and which requests it
-- makes.
pub record Delivers (run : Run) (contact : CampaignContact) (s s' : Store) : Type 0 where
  pub write : CampaignContact → CampaignContact
  pub settles : Settles write
  pub campaigns : s'.campaigns ≡ s.campaigns
  pub contacts :
      s'.campaign_contacts
      ≡ update_where (λ (r : CampaignContact). r.id == contact.id) write s.campaign_contacts
  pub people : s'.contacts ≡ s.contacts
  pub later : s.draws ≤ s'.draws
  pub first : Post
  pub more : List Post
  pub posts : s'.posts ≡ s.posts ++ first ∷ more
  pub message : IsMessageTo run s.contacts contact first
  pub follow : MayFollow run contact more

mark_sent-Settles : (id now : ℕ) → Settles (mark_sent id now)
mark_sent-Settles id now = record { keeps = λ r. (refl, refl, refl); settled = λ r. inl refl }

mark_failed-Settles : (e : Str) (id now : ℕ) → Settles (mark_failed e id now)
mark_failed-Settles e id now = record { keeps = λ r. (refl, refl, refl); settled = λ r. inr refl }

-- A write to the contact, and then steps that leave the contacts alone.
module _ (w : World) (t : ℕ) (run : Run) (contact : CampaignContact) (conversation id : ℕ)
    (body : Str) (s s₀ : Store) (ec : s.campaigns ≡ s₀.campaigns)
    (er : s.campaign_contacts ≡ s₀.campaign_contacts) (ep : s.contacts ≡ s₀.contacts)
    (d : s₀.draws ≤ s.draws) (first : Post) (asked : s.posts ≡ s₀.posts ++ first ∷ [])
    (message : IsMessageTo run s₀.contacts contact first) where
  marked-Delivers :
      (m s' : Store) (f : CampaignContact → CampaignContact) (more : List Post)
      → Settles f
      → m.campaigns ≡ s₀.campaigns
      → m.campaign_contacts
        ≡ update_where (λ (r : CampaignContact). r.id == contact.id) f s₀.campaign_contacts
      → m.contacts ≡ s₀.contacts
      → s₀.draws ≤ m.draws
      → Leaves m s'
      → s'.posts ≡ s.posts ++ more
      → MayFollow run contact more
      → Delivers run contact s₀ s'
  marked-Delivers m s' f more settles mc mr mp md leaves posts follow = record {
    write = f;
    settles = settles;
    campaigns = leaves.campaigns ∙ mc;
    contacts = leaves.contacts ∙ mr;
    people = leaves.people ∙ mp;
    later = omega (arith, leaves.later);
    first = first;
    more = more;
    posts = posts ∙ ap (λ l. l ++ more) asked ∙ append_assoc s₀.posts (first ∷ []) more;
    message = message;
    follow = follow;
  }

  settle-Delivers :
      (answer : PostResult)
      → Delivers run contact s₀ (settle w t run contact conversation id body answer s)
  unfolding settle
  settle-Delivers (refused e) =
      let marked : Store = record s {
        campaign_contacts =
            update_where (λ (r : CampaignContact). r.id == contact.id)
              (mark_failed e id (w.now s.draws)) s.campaign_contacts;
        messages =
            update_where (λ (m : Message). m.id == id)
              (λ m. record m {
                status = MessageStatus.failed;
                failed_at = some (w.now s.draws);
                error_message = some (take 500 e);
              })
              s.messages;
        draws = suc s.draws;
      } in
      let (leaves, same) = emit_progress-Leaves w t run.campaign.id marked in
      marked-Delivers marked _ (mark_failed e id (w.now s.draws)) []
        (mark_failed-Settles e id (w.now s.draws)) ec
        (ap
          (update_where (λ (r : CampaignContact). r.id == contact.id)
            (mark_failed e id (w.now s.draws)))
          er)
        ep (omega arith) leaves (same ∙ sym (append-nil s.posts)) (inl refl)
  settle-Delivers (accepted x) =
      let marked : Store = record s {
        campaign_contacts =
            update_where (λ (r : CampaignContact). r.id == contact.id)
              (mark_sent id (w.now s.draws)) s.campaign_contacts;
        messages =
            update_where (λ (m : Message). m.id == id) (mark_message_sent x (w.now s.draws))
              s.messages;
        events =
            s.events ++ message_received t id conversation contact.phone_number body run.type ∷ [];
        draws = suc s.draws;
      } in
      let linked = send_links w t run conversation contact.phone_number run.links marked in
      let (links, (more, sent, listed)) =
        send_links-Leaves w t run conversation contact.phone_number run.links marked in
      let (leaves, same) = emit_progress-Leaves w t run.campaign.id linked in
      marked-Delivers marked _ (mark_sent id (w.now s.draws)) more
        (mark_sent-Settles id (w.now s.draws)) ec
        (ap
          (update_where (λ (r : CampaignContact). r.id == contact.id)
            (mark_sent id (w.now s.draws)))
          er)
        ep (omega arith) (Leaves-trans links leaves) (same ∙ sent) (inr listed)

-- A round for a contact settles it: it sends the message of the run to the number of the contact,
-- and then the links of the run or none.
pub deliver-Delivers :
    (w : World) (t : ℕ) (run : Run) (contact : CampaignContact) (s : Store)
    → Delivers run contact s (deliver w t run contact s)
unfolding deliver prepare
deliver-Delivers w t run contact s =
    let name = resolve_display_name (names_of s.contacts contact.contact_id) contact.phone_number in
    let body = interpolate_message run.base_text name in
    let id = w.new_id (suc (suc s.draws)) in
    let post = main_post run id contact.phone_number body in
    let (prepared, conversation_id) = prepare w t run contact name body s in
    settle-Delivers w t run contact conversation_id id body
      (record prepared { posts = s.posts ++ post ∷ [] }) s refl refl refl (omega arith) post refl
      (record { to = refl; text = refl; engine = refl; session = refl; type = refl; media = refl })
      (w.post prepared.draws post)
