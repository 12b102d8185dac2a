-- ===== src/Campaigns/Progress.antt =====
-- backend/src/campaigns/utils/campaign-progress.util.ts: the funnel counts of campaigns, from the
-- statuses of their contacts. The database groups the rows; that is a parameter, with
-- `IsGroupBy` for what `groupBy` of the client library answers.
pub mod Counts
use notifymain_wa.Prelude.{
  ℕ, ◌+◌, ◌<◌, ◌≡◌, ◌⊎◌, Bool, true, false, ◌&&◌, Option, none, some, List, [], ◌∷◌, map, ◌==◌,
  if◌then◌else◌, or_else, is_empty, any, count_where, All,
}
use notifymain_wa.Campaigns.Data.{
  ContactStatus, sent, delivered, read, failed, CampaignContact, CampaignProgress, status_eq,
}

-- A row of `groupBy({ by: ['campaignId', 'status'] })`.
pub record Group : Type 0 where
  pub campaign_id : ℕ
  pub status : ContactStatus
  pub count : ℕ

abbrev pub GroupBy : Type 0
GroupBy = List CampaignContact → List ℕ → List Group

-- `bucket[row.status]` of one campaign, and the map from campaigns to buckets.
abbrev pub Bucket : Type 0
Bucket = ContactStatus → Option ℕ

abbrev pub RawCounts : Type 0
RawCounts = ℕ → Option Bucket

abbrev empty_bucket : Bucket
empty_bucket status = none

abbrev put : ℕ → Bucket → RawCounts → RawCounts
put id bucket counts = λ other. if id == other then some bucket else counts other

-- `for (const id of campaignIds) rawCounts.set(id, {})`
empty_counts : List ℕ → RawCounts → RawCounts
empty_counts [] counts = counts
empty_counts (id ∷ ids) counts = empty_counts ids (put id empty_bucket counts)

add_group : Group → RawCounts → RawCounts
add_group row counts =
    let bucket = or_else (counts row.campaign_id) empty_bucket in
    put row.campaign_id
      (λ status. if status_eq row.status status then some row.count else bucket status) counts

-- `for (const row of grouped) …`
fill_counts : List Group → RawCounts → RawCounts
unfolding add_group
fill_counts [] counts = counts
fill_counts (row ∷ rows) counts = fill_counts rows (add_group row counts)

raw_count : RawCounts → ℕ → ContactStatus → ℕ
raw_count counts id status = or_else ((or_else (counts id) empty_bucket) status) 0

progress_of : RawCounts → ℕ → CampaignProgress
unfolding raw_count
progress_of counts id =
    let sent_raw = raw_count counts id sent in
    let delivered_raw = raw_count counts id delivered in
    let read_raw = raw_count counts id read in
    let failed_raw = raw_count counts id failed in
    record {
      sent_count = sent_raw + delivered_raw + read_raw;
      delivered_count = delivered_raw + read_raw;
      read_count = read_raw;
      failed_count = failed_raw;
    }

unfoldable pub compute_campaign_progress_batch :
    GroupBy → List CampaignContact → List ℕ → List (ℕ × CampaignProgress)
unfolding progress_of fill_counts empty_counts
compute_campaign_progress_batch group_by rows ids =
    let counts = fill_counts (group_by rows ids) (empty_counts ids (λ id. none)) in
    if is_empty ids then [] else map (λ id. (id, progress_of counts id)) ids

-- `Map.get` on the entries that the batch set; a later entry of a key replaces an earlier one,
-- and both hold the same counts.
pub get_progress : ℕ → List (ℕ × CampaignProgress) → Option CampaignProgress
get_progress id [] = none
get_progress id ((key, p) ∷ entries) = if key == id then some p else get_progress id entries

unfoldable pub compute_campaign_progress : GroupBy → List CampaignContact → ℕ → CampaignProgress
unfolding compute_campaign_progress_batch get_progress
compute_campaign_progress group_by rows id =
    or_else (get_progress id (compute_campaign_progress_batch group_by rows (id ∷ [])))
      (record { sent_count = 0; delivered_count = 0; read_count = 0; failed_count = 0 })

-- How many contacts of a campaign have a status.
abbrev pub has_status : ℕ → ContactStatus → CampaignContact → Bool
has_status id status row = (row.campaign_id == id) && status_eq row.status status

abbrev pub tally : List CampaignContact → ℕ → ContactStatus → ℕ
tally rows id status = count_where (has_status id status) rows

abbrev pub is_group_of : ℕ → ContactStatus → Group → Bool
is_group_of id status g = (g.campaign_id == id) && status_eq g.status status

-- The documented answer of `groupBy`: each row states the number of contacts of its group, and a
-- group of a listed campaign that has no row is empty.
pub record IsGroupBy (group_by : GroupBy) : Type 0 where
  pub exact :
      (rows : List CampaignContact) (ids : List ℕ)
      → All (λ (g : Group). g.count ≡ tally rows g.campaign_id g.status) (group_by rows ids)
  pub total :
      (rows : List CampaignContact) (ids : List ℕ) (id : ℕ) (status : ContactStatus)
      → any (λ other. other == id) ids ≡ true
      → any (is_group_of id status) (group_by rows ids) ≡ false
      → tally rows id status ≡ 0
