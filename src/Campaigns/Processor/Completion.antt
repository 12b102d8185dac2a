-- ===== src/Campaigns/Processor/Completion.antt =====
-- How a run that no request disturbs ends.
use notifymain_wa.Prelude.{
  ℕ, suc, ◌≡◌, refl, sym, ap, ◌∙◌, ◌++◌, inl, inr, Bool, true, false, ◌&&◌, some, List, [], ◌∷◌,
  arith, Bool-cases, any, keep, All, All-map, All-update_where, find_first, find_first-satisfies,
  find_first-update_where, update_where, ◌==◌, ==_iff, ==_refl,
}
use mathlib.Core.Path.{subst}
use mathlib.Core.List.{append-nil, append_assoc}
use notifymain_wa.Text.{Str}
use notifymain_wa.Campaigns.Data.{
  completed, Campaign, CampaignContact, Contact, Post, Session, Store,
}
use notifymain_wa.Campaigns.Actions.{World}
use notifymain_wa.Campaigns.Lookup.{is_campaign, find_campaign, update_campaign_row}
use notifymain_wa.Campaigns.Delivery.{Run, deliver}
use notifymain_wa.Campaigns.Pacing.{base_delay}
use notifymain_wa.Campaigns.Requests.Consistency.{IsDistinct, IsConsistent}
use notifymain_wa.Campaigns.Requests.Transitions.{found-head}
use notifymain_wa.Campaigns.Processor.{
  is_pending_of, is_cancelled, cancelled_in, send_loop, finish, pace, handle_campaign, run_of,
  rate_of, linked_session, resolve_engine, start_row, run_campaign,
}
use notifymain_wa.Campaigns.Processor.Steps.{
  emit_progress-Leaves, pace-Leaves, Settles, deliver-Delivers, IsMessageTo, MayFollow,
}

-- Every pending contact of the campaign is among those still to be visited.
abbrev is_listed : List CampaignContact → CampaignContact → Bool
is_listed contacts r = any (λ (c : CampaignContact). c.id == r.id) contacts

abbrev IsCovered : ℕ → List CampaignContact → CampaignContact → Type 0
IsCovered id contacts r = is_pending_of id r ≡ true → is_listed contacts r ≡ true

IsCovered-keep :
    (id : ℕ) (rows : List CampaignContact) → All (IsCovered id (keep (is_pending_of id) rows)) rows
IsCovered-keep id [] = tt
IsCovered-keep id (r ∷ rows) = (
  λ p. ground (arith, ==_refl r.id),
  All-map (IsCovered id (keep (is_pending_of id) rows)) _ rows (λ q h k. ground (arith, h k))
      (IsCovered-keep id rows),
)

-- A round covers one contact less.
IsCovered-settle :
    (id : ℕ) (contact : CampaignContact) (contacts rows : List CampaignContact)
    (f : CampaignContact → CampaignContact)
    → Settles f
    → All (IsCovered id (contact ∷ contacts)) rows
    → All
        (IsCovered id contacts)
        (update_where (λ (r : CampaignContact). r.id == contact.id) f rows)
IsCovered-settle id contact contacts rows f settles h =
    All-update_where (IsCovered id (contact ∷ contacts)) (IsCovered id contacts) _ f rows
      (λ r hit c p. ground (arith, settles.settled r)) (λ r miss c p. ground (arith, c p)) h

-- The requests for these contacts, one contact after the other: for each the message of the run to
-- its number, and then the links of the run to that number, or none.
pub data AreServed (run : Run) (table : List Contact)
    : List CampaignContact → List Post → Type 0 where
  nobody : AreServed run table [] []
  served :
      (contact : CampaignContact) (contacts : List CampaignContact) (first : Post)
      (more rest : List Post)
      → IsMessageTo run table contact first
      → MayFollow run contact more
      → AreServed run table contacts rest
      → AreServed run table (contact ∷ contacts) (first ∷ (more ++ rest))

-- What a run has done when it ends by itself.
pub record IsDone (run : Run) (id : ℕ) (contacts : List CampaignContact) (s s' : Store)
    : Type 0 where
  pub none_pending : All (λ r. is_pending_of id r ≡ false) s'.campaign_contacts
  pub status :
      (c : Campaign) × (find_first (is_campaign id) s'.campaigns ≡ some c) × (c.status ≡ completed)
  pub requests : List Post
  pub posts : s'.posts ≡ s.posts ++ requests
  pub served : AreServed run s.contacts contacts requests

-- The write that ends a run.
abbrev completed_row : World → Store → Campaign → Campaign
completed_row w s c = record c { status = completed; completed_at = some (w.now s.draws) }

module _ (w : World) (t : ℕ) (run : Run) (base : ℕ) where
  abbrev id : ℕ
  id = run.campaign.id

  finish-IsDone :
      (s : Store) (c : Campaign)
      → find_first (is_campaign id) s.campaigns ≡ some c
      → is_cancelled c.status ≡ false
      → All (IsCovered id []) s.campaign_contacts
      → IsDone run id [] s (finish w t id s)
  unfolding finish
  finish-IsDone s c found live covered =
      let ended : Store =
        update_campaign_row id (completed_row w s) (record s { draws = suc s.draws }) in
      let (leaves, same) = emit_progress-Leaves w t id ended in
      let row =
        find_first-update_where (is_campaign id) (completed_row w s) s.campaigns (λ x. refl)
          found in
      rw (found, finish)
        (rw live (record {
          none_pending =
              rw leaves.contacts (
                All-map (IsCovered id []) _ s.campaign_contacts (λ r h. ground (arith, h)) covered);
          status =
              (completed_row w s c, ap (find_first (is_campaign id)) leaves.campaigns ∙ row, refl);
          requests = [];
          posts = same ∙ sym (append-nil s.posts);
          served = nobody;
        }))

  -- With no request in between, the loop visits every contact and ends the campaign.
  send_loop-IsDone :
      (sent : ℕ) (contacts : List CampaignContact) (s : Store) (c : Campaign)
      → find_first (is_campaign id) s.campaigns ≡ some c
      → is_cancelled c.status ≡ false
      → All (IsCovered id contacts) s.campaign_contacts
      → IsDone run id contacts s (send_loop w t run base [] sent contacts s)
  unfolding send_loop
  send_loop-IsDone sent [] s c found live covered = finish-IsDone s c found live covered
  send_loop-IsDone sent (contact ∷ contacts) s c found live covered =
      let sent_to = deliver w t run contact s in
      let next = pace w base (suc sent) sent_to in
      let round = deliver-Delivers w t run contact s in
      let (paced, quiet) = pace-Leaves w base (suc sent) sent_to in
      let still : find_first (is_campaign id) next.campaigns ≡ some c =
        ap (find_first (is_campaign id)) (paced.campaigns ∙ round.campaigns) ∙ found in
      let covered' : All (IsCovered id contacts) next.campaign_contacts =
        rw (paced.contacts ∙ round.contacts) (
          IsCovered-settle id contact contacts s.campaign_contacts round.write round.settles
            covered) in
      let rest = send_loop-IsDone (suc sent) contacts next c still live covered' in
      let going : cancelled_in id s ≡ false = rw (found, cancelled_in) live in
      let block = round.first ∷ round.more in
      let people : next.contacts ≡ s.contacts = paced.people ∙ round.people in
      rw (going, send_loop)
        (record {
          none_pending = rest.none_pending;
          status = rest.status;
          requests = round.first ∷ (round.more ++ rest.requests);
          posts =
              rest.posts
              ∙ ap (λ l. l ++ rest.requests) (quiet ∙ round.posts)
              ∙ append_assoc s.posts block rest.requests;
          served =
              served contact contacts round.first round.more rest.requests round.message
                round.follow
                (subst (λ table. AreServed run table contacts rest.requests) people rest.served);
        })

-- With unique ids, the campaign found for a tenant is the row of its id.
find_campaign-by_id :
    (t id : ℕ) (c : Campaign) (cs : List Campaign)
    → IsDistinct cs
    → find_first (λ x. (x.id == id) && (x.tenant_id == t)) cs ≡ some c
    → find_first (is_campaign id) cs ≡ some c
find_campaign-by_id t id c [] u h = cc
find_campaign-by_id t id c (b ∷ cs) u h = elim (Bool-cases (b.id == id)) [
  | inl hit ↦ let (same, absent, own) = found-head t id b c cs u.0 hit h in rw hit (ap some same)
  | inr miss ↦ rw miss (find_campaign-by_id t id c cs u.1 (rw miss at h))
]

start_row-live :
    (w : World) (draws : ℕ) (c : Campaign)
    → is_cancelled c.status ≡ false
    → is_cancelled (start_row w draws c c).status ≡ false
start_row-live w draws c h = ground arith

start_row-id : (w : World) (draws : ℕ) (seen c : Campaign) → (start_row w draws seen c).id ≡ c.id
start_row-id w draws seen c = ground arith

started-IsDone :
    (w : World) (t : ℕ) (s : Store) (c : Campaign) (session : Session) (engine : Str)
    → find_first (is_campaign c.id) s.campaigns ≡ some c
    → is_cancelled c.status ≡ false
    → linked_session s c.session_id ≡ some session
    → resolve_engine w (suc s.draws) session ≡ some engine
    → IsDone (run_of w c session engine) c.id (keep (is_pending_of c.id) s.campaign_contacts) s (
        run_campaign w t [] c
          (update_campaign_row c.id (start_row w s.draws c) (record s { draws = suc s.draws })))
unfolding run_campaign
started-IsDone w t s c session engine found live linked reached =
    let started : Store =
      update_campaign_row c.id (start_row w s.draws c)
        (record s { draws = suc (suc (suc s.draws)) }) in
    let row =
      find_first-update_where (is_campaign c.id) (start_row w s.draws c) s.campaigns
        (λ x. ap (λ i. i == c.id) (start_row-id w s.draws c x)) found in
    rw (linked, run_campaign)
      (rw (reached, run_campaign)
        (let done =
            send_loop-IsDone w t (run_of w c session engine) (base_delay (rate_of c)) 0
              (keep (is_pending_of c.id) s.campaign_contacts) started (start_row w s.draws c c) row
              (start_row-live w s.draws c live) (IsCovered-keep c.id s.campaign_contacts) in
          record {
            none_pending = done.none_pending;
            status = done.status;
            requests = done.requests;
            posts = done.posts;
            served = done.served;
          }))

-- In a consistent store, a job for a campaign that is not cancelled, whose session is there and has
-- an engine, run while no request arrives, leaves the campaign COMPLETED with no contact PENDING.
-- The requests that it makes are, for each contact that was PENDING and in their order, the message of
-- the campaign, with the name of the contact, to the number of the contact through the session,
-- followed by the follow-up links to the same number in their order, or by nothing.
pub handle_campaign-IsDone :
    (w : World) (t id : ℕ) (s : Store) (c : Campaign) (session : Session) (engine : Str)
    → IsConsistent w s
    → find_campaign s t id ≡ some c
    → is_cancelled c.status ≡ false
    → linked_session s c.session_id ≡ some session
    → resolve_engine w (suc s.draws) session ≡ some engine
    → IsDone
        (run_of w c session engine)
        id
        (keep (is_pending_of id) s.campaign_contacts)
        s
        (handle_campaign w [] t id s)
unfolding handle_campaign
handle_campaign-IsDone w t id s c session engine v found live linked reached =
    let by_id = find_campaign-by_id t id c s.campaigns v.distinct found in
    let same : c.id ≡ id =
      (==_iff c.id id).0 (find_first-satisfies (is_campaign id) s.campaigns by_id) in
    rw (found, handle_campaign)
      (rw live (
        subst
          (λ i.
            IsDone (run_of w c session engine) i (keep (is_pending_of i) s.campaign_contacts) s (
              run_campaign w t [] c
                (update_campaign_row i (start_row w s.draws c) (record s { draws = suc s.draws }))))
          same (started-IsDone w t s c session engine (rw (← same) at by_id) live linked reached)))
