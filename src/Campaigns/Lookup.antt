-- ===== src/Campaigns/Lookup.antt =====
-- What the operations of backend/src/campaigns/campaigns.service.ts share: finding a campaign and
-- its session, the tests on a status, the writes of one row, and when a campaign starts.
use notifymain_wa.Prelude.{
  ℕ, ◌-◌, Bool, true, false, ◌&&◌, Option, none, some, [], ◌∷◌, ◌++◌, ◌==◌, find_first,
  update_where,
}
use notifymain_wa.Campaigns.Data.{
  CampaignStatus, draft, scheduled, running, completed, SessionStatus, Campaign, Session, Job,
  AuditEntry, Store,
}
use notifymain_wa.Campaigns.Actions.{campaign_not_found, Action, ◌>>=◌, found_or, get}

abbrev pub is_campaign : ℕ → Campaign → Bool
is_campaign id c = c.id == id

-- `prisma.campaign.update({ where: { id }, data })`
abbrev pub update_campaign_row : ℕ → (Campaign → Campaign) → Store → Store
update_campaign_row id f s = record s { campaigns = update_where (is_campaign id) f s.campaigns }

abbrev pub add_job : Job → Store → Store
add_job job s = record s { jobs = s.jobs ++ job ∷ [] }

abbrev pub log_audit : AuditEntry → Store → Store
log_audit entry s = record s { audit = s.audit ++ entry ∷ [] }

abbrev pub is_connected : SessionStatus → Bool
is_connected SessionStatus.connected = true
is_connected _ = false

-- `['DRAFT', 'SCHEDULED'].includes(status)` and `['RUNNING', 'SCHEDULED'].includes(status)`
abbrev pub is_editable : CampaignStatus → Bool
is_editable draft = true
is_editable scheduled = true
is_editable _ = false

abbrev pub is_cancellable : CampaignStatus → Bool
is_cancellable running = true
is_cancellable scheduled = true
is_cancellable _ = false

abbrev pub is_completed : CampaignStatus → Bool
is_completed completed = true
is_completed _ = false

abbrev pub is_scheduled : CampaignStatus → Bool
is_scheduled scheduled = true
is_scheduled _ = false

abbrev pub find_campaign : Store → ℕ → ℕ → Option Campaign
find_campaign s tenant_id campaign_id =
    find_first (λ c. (c.id == campaign_id) && (c.tenant_id == tenant_id)) s.campaigns

unfoldable pub find_campaign_or_throw : ℕ → ℕ → Action Campaign
find_campaign_or_throw tenant_id campaign_id = do
  s ← get
  found_or (find_campaign s tenant_id campaign_id) campaign_not_found

abbrev pub find_session : Store → ℕ → Option ℕ → Option Session
find_session s tenant_id none = none
find_session s tenant_id (some id) =
    find_first (λ c. (c.id == id) && (c.tenant_id == tenant_id)) s.sessions

-- `!session || session.status !== 'CONNECTED'` is the failure of this test.
abbrev pub session_ready : Option Session → Bool
session_ready none = false
session_ready (some session) = is_connected session.status

-- The delay of the job: none for an immediate start, else the time left, at least 0.
abbrev pub job_delay : Option ℕ → ℕ → Option ℕ
job_delay none now = none
job_delay (some at) now = some (at - now)

abbrev pub start_status : Option ℕ → CampaignStatus
start_status none = running
start_status (some at) = scheduled

abbrev pub start_time : Option ℕ → ℕ → Option ℕ
start_time none now = some now
start_time (some at) now = none
