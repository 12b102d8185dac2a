-- ===== src/Tests/Sample.antt =====
-- A small database: one tenant with one session, a running campaign with one pending contact,
-- and a world to go with it.
use notifymain_wa.Prelude.{
  ℕ, ◌+◌, ◌≡◌, refl, true, false, none, some, List, [], ◌∷◌, arith, any, All, ◌==◌,
}
use notifymain_wa.Text.{codes}
use notifymain_wa.Campaigns.Data.{
  CampaignStatus, ContactStatus, SessionStatus, Campaign, CampaignContact, Session, Store,
}
use notifymain_wa.Campaigns.Progress.{Group, GroupBy, tally, is_group_of, IsGroupBy}
use notifymain_wa.Campaigns.Actions.{World, accepted}
use notifymain_wa.Campaigns.Requests.Consistency.{IsConsistent, IsGenerator}

abbrev pub group_of : List CampaignContact → ℕ → ContactStatus → Group
group_of rows id status = record { campaign_id = id; status = status; count = tally rows id status }

-- A grouping of the rows that lists every status of every campaign asked for.
unfoldable pub group_all : GroupBy
group_all rows [] = []
group_all rows (id ∷ ids) =
    group_of rows id ContactStatus.pending
    ∷ group_of rows id ContactStatus.sent
    ∷ group_of rows id ContactStatus.delivered
    ∷ group_of rows id ContactStatus.read
    ∷ group_of rows id ContactStatus.failed
    ∷ group_of rows id ContactStatus.opted_out
    ∷ group_all rows ids

group_all-exact :
    (rows : List CampaignContact) (ids : List ℕ)
    → All (λ (g : Group). g.count ≡ tally rows g.campaign_id g.status) (group_all rows ids)
unfolding group_all
group_all-exact rows [] = tt
group_all-exact rows (id ∷ ids) =
    (refl, (refl, (refl, (refl, (refl, (refl, group_all-exact rows ids))))))

group_all-total :
    (rows : List CampaignContact) (ids : List ℕ) (id : ℕ) (status : ContactStatus)
    → any (λ other. other == id) ids ≡ true
    → any (is_group_of id status) (group_all rows ids) ≡ false
    → tally rows id status ≡ 0
unfolding group_all
group_all-total rows [] id status listed missing = cc
group_all-total rows (key ∷ ids) id status listed missing =
    ground (arith, group_all-total rows ids id status)

pub group_all-IsGroupBy : IsGroupBy group_all
group_all-IsGroupBy = record { exact = group_all-exact; total = group_all-total }

abbrev pub world : World
world = record {
  now = λ n. n;
  new_id = λ n. 100 + n;
  pick = λ n size. 0;
  group_by = group_all;
  instance_for_session = λ n session. some (codes "http://engine");
  instance_by_id = λ n id. none;
  engine_accessible_url = λ url. url;
  post = λ n post. accepted (some (codes "id"));
}

pub world-IsGenerator : IsGenerator world
world-IsGenerator m n h = omega arith

abbrev pub session : Session
session = record {
  id = 1;
  tenant_id = 7;
  openwa_id = codes "s1";
  phone_number = none;
  engine_instance_id = none;
  status = SessionStatus.connected;
  last_seen_at = none;
}

abbrev pub campaign : CampaignStatus → Campaign
campaign status = record {
  id = 5;
  tenant_id = 7;
  session_id = some 1;
  created_by_id = 3;
  name = codes "c";
  status = status;
  message_template = codes "Hi {{name}}";
  media_url = none;
  media_type = none;
  link_url = none;
  scheduled_at = none;
  started_at = none;
  completed_at = none;
  total_contacts = 1;
  rate_limit_per_min = 30;
}

abbrev pub contact : CampaignContact
contact = record {
  id = 9;
  campaign_id = 5;
  contact_id = none;
  tenant_id = 7;
  phone_number = codes "919876543210";
  status = ContactStatus.pending;
  message_id = none;
  retry_count = 0;
  sent_at = none;
  delivered_at = none;
  read_at = none;
  failed_at = none;
  error_message = none;
}

abbrev pub store : CampaignStatus → Store
store status = record {
  campaigns = campaign status ∷ [];
  campaign_contacts = contact ∷ [];
  contacts = [];
  sessions = session ∷ [];
  conversations = [];
  messages = [];
  jobs = [];
  audit = [];
  events = [];
  posts = [];
  waits = [];
  draws = 0;
}

pub store-IsConsistent : (status : CampaignStatus) → IsConsistent world (store status)
store-IsConsistent status = record {
  counted = (refl, tt);
  distinct = (refl, tt);
  keyed = (refl, tt);
  identified = (refl, tt);
  unused = λ k h. ground arith;
  fresh = λ k h. ground arith;
  unowned = λ k h. ground arith;
}
