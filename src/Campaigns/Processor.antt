-- ===== src/Campaigns/Processor.antt =====
-- The job `process-campaign` of backend/src/campaigns/campaign-processor.ts. While it runs,
-- requests are served: a script holds those that arrive before each look at the campaign.
pub mod Steps
pub mod Stopping
pub mod Completion
pub mod Keeping
use notifymain_wa.Prelude.{
  ℕ, suc, ◌+◌, ◌-◌, ◌*◌, Bool, true, false, not, ◌&&◌, Option, none, some, List, [], ◌∷◌, ◌++◌,
  is_some, or_else, ◌==◌, if◌then◌else◌, find_first, keep, update_where,
}
use notifymain_wa.Text.{Str, codes}
use notifymain_wa.Campaigns.Data.{
  CampaignStatus, running, completed, cancelled, ContactStatus, Campaign, CampaignContact, Session,
  Store, status_eq,
}
use notifymain_wa.Campaigns.Actions.{World}
use notifymain_wa.Campaigns.Lookup.{is_campaign, update_campaign_row, find_campaign}
use notifymain_wa.Campaigns.Requests.{Request, serve}
use notifymain_wa.Campaigns.Pacing.{
  jittered_delay, jitter_of, base_delay, rest_due, rest_min_ms, rest_max_ms, rand_int, rand_size,
}
use notifymain_wa.Campaigns.Links.{resolve_message_type, follow_up_urls, is_link_only}
use notifymain_wa.Campaigns.Delivery.{Run, deliver, emit_progress}

-- A request, with the tenant and the user that make it.
pub record Incoming : Type 0 where
  pub tenant_id : ℕ
  pub user_id : ℕ
  pub request : Request

abbrev pub Script : Type 0
Script = List (List Incoming)

unfoldable pub serve_all : World → List Incoming → Store → Store
serve_all w [] s = s
serve_all w (q ∷ qs) s = serve_all w qs (serve w q.tenant_id q.user_id q.request s)

-- The requests that arrive before the next look, and the script after it.
abbrev pub arrive : World → Script → Store → Store
arrive w [] s = s
arrive w (batch ∷ script) s = serve_all w batch s

abbrev pub later : Script → Script
later [] = []
later (batch ∷ script) = script

abbrev pub is_cancelled : CampaignStatus → Bool
is_cancelled cancelled = true
is_cancelled _ = false

abbrev pub is_running : CampaignStatus → Bool
is_running running = true
is_running _ = false

-- `current?.status === 'CANCELLED'`
abbrev pub cancelled_in : ℕ → Store → Bool
cancelled_in id s = elim (find_first (is_campaign id) s.campaigns) [
  | none ↦ false
  | some c ↦ is_cancelled c.status
]

-- The pauses after a contact: a rest after every twentieth, and the jittered delay.
unfoldable pub pace : World → ℕ → ℕ → Store → Store
unfolding rest_due jittered_delay rand_int
pace w base sent s =
    let rest = rand_int (w.pick s.draws (rand_size rest_min_ms rest_max_ms)) rest_min_ms in
    let rests = if rest_due sent then rest ∷ [] else [] in
    let delay = jittered_delay (w.pick (suc s.draws) (2 * jitter_of base + 1)) base in
    record s { waits = (s.waits ++ rests) ++ delay ∷ []; draws = suc (suc s.draws) }

-- The end of a run that was not stopped.
unfoldable pub finish : World → ℕ → ℕ → Store → Store
unfolding emit_progress
finish w t id s = elim (find_first (is_campaign id) s.campaigns) [
  | none ↦ s
  | some c ↦
      if is_cancelled c.status
      then s
      else emit_progress w t id (
          update_campaign_row id
            (λ c. record c { status = completed; completed_at = some (w.now s.draws) })
            (record s { draws = suc s.draws }))
]

-- The send loop, and the end.
unfoldable pub send_loop :
    World → ℕ → Run → ℕ → Script → (sent : ℕ) → List CampaignContact → Store → Store
unfolding deliver pace finish serve_all
send_loop w t run base script sent [] s = finish w t run.campaign.id (arrive w script s)
send_loop w t run base script sent (contact ∷ contacts) s =
    let now = arrive w script s in
    elim (cancelled_in run.campaign.id now) [
      | true ↦ now
      | false ↦
          send_loop w t run base (later script) (suc sent) contacts
            (pace w base (suc sent) (deliver w t run contact now))
    ]

-- `include: { session: true }`
abbrev pub linked_session : Store → Option ℕ → Option Session
linked_session s none = none
linked_session s (some id) = find_first (λ c. c.id == id) s.sessions

-- The engine of the session, through the registry or else the instance kept in the database.
unfoldable pub resolve_engine : World → ℕ → Session → Option Str
resolve_engine w draw session = elim (w.instance_for_session draw (some session.id)) [
  | some engine ↦ some engine
  | none ↦ elim session.engine_instance_id [
    | none ↦ none
    | some id ↦ w.instance_by_id (suc draw) id
  ]
]

abbrev pub cancel_row : Campaign → Campaign
cancel_row c = record c { status = cancelled }

-- `status: 'RUNNING', startedAt: campaign.startedAt ?? new Date()`, unless it runs already.
abbrev pub start_row : World → ℕ → Campaign → Campaign → Campaign
start_row w draws seen c =
    if is_running seen.status
    then c
    else record c { status = running; started_at = some (or_else seen.started_at (w.now draws)) }

abbrev pub is_pending_of : ℕ → CampaignContact → Bool
is_pending_of id r = (r.campaign_id == id) && status_eq r.status ContactStatus.pending

abbrev pub run_of : World → Campaign → Session → Str → Run
run_of w c session engine = record {
  campaign = c;
  session = session;
  engine = engine;
  type = resolve_message_type c.media_url c.media_type;
  base_text =
      if is_link_only c.media_type
      then c.message_template ++ (codes "\n\n" ++ or_else c.media_url (codes "null"))
      else c.message_template;
  media_url = w.engine_accessible_url c.media_url;
  links = follow_up_urls c.message_template c.media_url c.media_type c.link_url;
}

-- `campaign.rateLimitPerMin || 30`
abbrev pub rate_of : Campaign → ℕ
rate_of c = if c.rate_limit_per_min == 0 then 30 else c.rate_limit_per_min

-- The job from the moment that the campaign is RUNNING.
unfoldable pub run_campaign : World → ℕ → Script → Campaign → Store → Store
unfolding resolve_engine send_loop base_delay resolve_message_type follow_up_urls
run_campaign w t script c s =
    let asked = record s { draws = suc (suc s.draws) } in
    let pending = keep (is_pending_of c.id) s.campaign_contacts in
    elim (linked_session s c.session_id) [
      | none ↦ update_campaign_row c.id cancel_row asked
      | some session ↦ elim (resolve_engine w s.draws session) [
        | none ↦ update_campaign_row c.id cancel_row asked
        | some engine ↦
            send_loop w t (run_of w c session engine) (base_delay (rate_of c)) script 0 pending
              asked
      ]
    ]

unfoldable pub handle_campaign : World → Script → (tenant_id campaign_id : ℕ) → Store → Store
unfolding run_campaign
handle_campaign w script t id s = elim (find_campaign s t id) [
  | none ↦ s
  | some c ↦
      if is_cancelled c.status
      then s
      else run_campaign w t script c
          (update_campaign_row id (start_row w s.draws c) (record s { draws = suc s.draws }))
]
