-- ===== src/Campaigns/Processor/Stopping.antt =====
-- What becomes of the run of a cancelled campaign.
use notifymain_wa.Prelude.{
  ℕ, ◌≡◌, refl, ap, ◌∙◌, inl, inr, Bool, true, false, not, Option, none, some, List, [], ◌∷◌, arith,
  Option-cases, Bool-cases, find_first, ◌==◌,
}
use notifymain_wa.Text.{Str}
use notifymain_wa.Campaigns.Data.{CampaignStatus, Campaign, CampaignContact, Post, Store}
use notifymain_wa.Campaigns.Actions.{World}
use notifymain_wa.Campaigns.Lookup.{
  is_campaign, find_campaign, is_editable, find_session, session_ready,
}
use notifymain_wa.Campaigns.Delivery.{Run}
use notifymain_wa.Campaigns.Creation.{CreateCampaignDto, create_campaign, clone_campaign}
use notifymain_wa.Campaigns.Lifecycle.{
  UpdateCampaignDto, update_campaign, launch_campaign, cancel_campaign,
}
use notifymain_wa.Campaigns.Audience.{
  RecipientRow, add_contacts_to_campaign, import_campaign_recipients, retry_failed_campaign,
}
use notifymain_wa.Campaigns.Requests.{
  Request, create, clone, update, launch, cancel, add_contacts, import_csv, retry_failed, serve,
  Allowed, stays, unschedule, schedule, start, stop,
}
use notifymain_wa.Campaigns.Requests.Consistency.{IsConsistent, IsGenerator, serve-IsConsistent}
use notifymain_wa.Campaigns.Requests.Transitions.{Evolves, serve-Evolves}
use notifymain_wa.Campaigns.Processor.{
  Incoming, Script, serve_all, arrive, is_cancelled, cancelled_in, send_loop, finish,
}

cancel_campaign-posts : (t id u : ℕ) (s : Store) → (cancel_campaign t id u s).1.posts ≡ s.posts
unfolding cancel_campaign
cancel_campaign-posts t id u s = ground arith

clone_campaign-posts :
    (w : World) (t id u : ℕ) (s : Store) → (clone_campaign w t id u s).1.posts ≡ s.posts
unfolding clone_campaign
clone_campaign-posts w t id u s = ground arith

launch_campaign-posts :
    (w : World) (t id u : ℕ) (s : Store) → (launch_campaign w t id u s).1.posts ≡ s.posts
unfolding launch_campaign
launch_campaign-posts w t id u s = elim (Option-cases (find_campaign s t id)) [
  | inl e ↦ rw (e, launch_campaign)
  | inr (c, e) ↦
      rw (e, launch_campaign)
        elim (Bool-cases (is_editable c.status)) [
          | inr h ↦ rw h
          | inl h ↦ rw h elim (Bool-cases (not (c.total_contacts == 0))) [
            | inr empty ↦ rw empty
            | inl some_contacts ↦
                rw some_contacts elim (Bool-cases (session_ready (find_session s t c.session_id))) [
                  | inr off ↦ rw off
                  | inl on ↦ rw on
                ]
          ]
        ]
]

update_campaign-posts :
    (t id : ℕ) (dto : UpdateCampaignDto) (s : Store)
    → (update_campaign t id dto s).1.posts ≡ s.posts
unfolding update_campaign
update_campaign-posts t id dto s = ground arith

retry_failed_campaign-posts :
    (w : World) (t id : ℕ) (s : Store) → (retry_failed_campaign w t id s).1.posts ≡ s.posts
unfolding retry_failed_campaign
retry_failed_campaign-posts w t id s = ground arith

add_contacts_to_campaign-posts :
    (w : World) (t id : ℕ) (ids : Option (List ℕ)) (tags : Option (List Str)) (s : Store)
    → (add_contacts_to_campaign w t id ids tags s).1.posts ≡ s.posts
unfolding add_contacts_to_campaign
add_contacts_to_campaign-posts w t id ids tags s = ground arith

import_campaign_recipients-posts :
    (w : World) (t id : ℕ) (rows : Option (List RecipientRow)) (s : Store)
    → (import_campaign_recipients w t id rows s).1.posts ≡ s.posts
unfolding import_campaign_recipients
import_campaign_recipients-posts w t id rows s = ground arith

create_campaign-posts :
    (w : World) (t u : ℕ) (dto : CreateCampaignDto) (s : Store)
    → (create_campaign w t u dto s).1.posts ≡ s.posts
unfolding create_campaign
create_campaign-posts w t u dto s = ground arith

serve-posts : (w : World) (t u : ℕ) (q : Request) (s : Store) → (serve w t u q s).posts ≡ s.posts
unfolding serve
serve-posts w t u (create dto) s = create_campaign-posts w t u dto s
serve-posts w t u (clone id) s = clone_campaign-posts w t id u s
serve-posts w t u (update id dto) s = update_campaign-posts t id dto s
serve-posts w t u (launch id) s = launch_campaign-posts w t id u s
serve-posts w t u (cancel id) s = cancel_campaign-posts t id u s
serve-posts w t u (add_contacts id ids tags) s = add_contacts_to_campaign-posts w t id ids tags s
serve-posts w t u (import_csv id rows) s = import_campaign_recipients-posts w t id rows s
serve-posts w t u (retry_failed id) s = retry_failed_campaign-posts w t id s

Allowed-cancelled :
    {a b : CampaignStatus} → Allowed a b → is_cancelled a ≡ true → is_cancelled b ≡ true
Allowed-cancelled stays h = h
Allowed-cancelled unschedule h = cc
Allowed-cancelled schedule h = cc
Allowed-cancelled (start e) h = ground arith
Allowed-cancelled (stop e) h = refl

-- Looking at the campaign row of an id.
abbrev cancelled_row : ℕ → List Campaign → Bool
cancelled_row id cs = elim (find_first (is_campaign id) cs) [
  | none ↦ false
  | some c ↦ is_cancelled c.status
]

Evolves-cancelled :
    (id : ℕ) (cs ds : List Campaign)
    → Evolves cs ds
    → cancelled_row id cs ≡ true
    → cancelled_row id ds ≡ true
Evolves-cancelled id [] ds e h = cc
Evolves-cancelled id (c ∷ cs) [] e h = absurd e
Evolves-cancelled id (c ∷ cs) (d ∷ ds) (same, own, al, e) h = elim (Bool-cases (c.id == id)) [
  | inl hit ↦
      let hit' : (d.id == id) ≡ true = ap (λ i. i == id) same ∙ hit in
      rw (hit', cancelled_row) (Allowed-cancelled al (rw (hit, cancelled_row) at h))
  | inr miss ↦
      let miss' : (d.id == id) ≡ false = ap (λ i. i == id) same ∙ miss in
      rw (miss', cancelled_row) (Evolves-cancelled id cs ds e (rw (miss, cancelled_row) at h))
]

-- What a batch of requests keeps of a cancelled campaign.
pub record Stopped (w : World) (id : ℕ) (posts : List Post) (s : Store) : Type 0 where
  pub consistent : IsConsistent w s
  pub cancelled : cancelled_in id s ≡ true
  pub silent : s.posts ≡ posts

serve_all-Stopped :
    (w : World) (id : ℕ) (posts : List Post) (qs : List Incoming) (s : Store)
    → IsGenerator w
    → Stopped w id posts s
    → Stopped w id posts (serve_all w qs s)
unfolding serve_all
serve_all-Stopped w id posts [] s gen h = h
serve_all-Stopped w id posts (q ∷ qs) s gen h =
    serve_all-Stopped w id posts qs (serve w q.tenant_id q.user_id q.request s) gen (record {
      consistent = serve-IsConsistent w q.tenant_id q.user_id q.request s gen h.consistent;
      cancelled =
          Evolves-cancelled id s.campaigns _
            (serve-Evolves w q.tenant_id q.user_id q.request s h.consistent) h.cancelled;
      silent = serve-posts w q.tenant_id q.user_id q.request s ∙ h.silent;
    })

arrive-Stopped :
    (w : World) (id : ℕ) (posts : List Post) (script : Script) (s : Store)
    → IsGenerator w
    → Stopped w id posts s
    → Stopped w id posts (arrive w script s)
arrive-Stopped w id posts [] s gen h = h
arrive-Stopped w id posts (batch ∷ script) s gen h = serve_all-Stopped w id posts batch s gen h

finish-Stopped :
    (w : World) (t id : ℕ) (posts : List Post) (s : Store)
    → Stopped w id posts s
    → Stopped w id posts (finish w t id s)
unfolding finish
finish-Stopped w t id posts s h = elim (Option-cases (find_first (is_campaign id) s.campaigns)) [
  | inl e ↦ rw (e, finish) h
  | inr (c, e) ↦
      let gone : is_cancelled c.status ≡ true = rw (e, cancelled_in) at (h.cancelled) in
      rw (e, finish) (rw gone h)
]

-- Where the database never repeats an id and the store is consistent: if the campaign of a run is
-- cancelled when the loop comes to its next contact, or to its end, then whatever requests arrive
-- before it looks at the campaign, no further request goes to the engine, and the campaign is
-- still cancelled at the end, in a consistent store. What was begun for the contact before is not
-- the matter here: its message and the links after it are one step.
pub send_loop-Stopped :
    (w : World) (t : ℕ) (run : Run) (base : ℕ) (script : Script) (sent : ℕ)
    (contacts : List CampaignContact) (s : Store)
    → IsGenerator w
    → IsConsistent w s
    → cancelled_in run.campaign.id s ≡ true
    → Stopped w run.campaign.id s.posts (send_loop w t run base script sent contacts s)
unfolding send_loop
send_loop-Stopped w t run base script sent [] s gen v h =
    finish-Stopped w t run.campaign.id s.posts (arrive w script s) (
      arrive-Stopped w run.campaign.id s.posts script s gen
        (record { consistent = v; cancelled = h; silent = refl }))
send_loop-Stopped w t run base script sent (contact ∷ contacts) s gen v h =
    let here =
      arrive-Stopped w run.campaign.id s.posts script s gen
        (record { consistent = v; cancelled = h; silent = refl }) in
    rw (here.cancelled, send_loop) here
