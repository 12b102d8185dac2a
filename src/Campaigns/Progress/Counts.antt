-- ===== src/Campaigns/Progress/Counts.antt =====
-- The funnel counts, and a direct count of the contacts.
use notifymain_wa.Prelude.{
  ℕ, ◌+◌, ◌≤◌, ◌≡◌, refl, Bool, true, false, ◌&&◌, none, some, List, [], ◌∷◌, map, ◌==◌,
  if◌then◌else◌, any, All, arith, Bool-cases, &&-parts, ==_iff, ap, ap₂, inl, inr, ◌∙◌, count_where,
  ==_refl,
}
use notifymain_wa.Campaigns.Data.{
  ContactStatus, pending, sent, delivered, read, failed, opted_out, CampaignContact,
  CampaignProgress, status_eq,
}
use notifymain_wa.Campaigns.Progress.{
  Group, GroupBy, RawCounts, IsGroupBy, fill_counts, empty_counts, add_group, put, empty_bucket,
  raw_count, progress_of, compute_campaign_progress_batch, compute_campaign_progress, get_progress,
  tally, is_group_of,
}

pub status_eq→≡ : (a b : ContactStatus) → status_eq a b ≡ true → a ≡ b
status_eq→≡ a b h = ground arith

raw_count-add_group :
    (g : Group) (counts : RawCounts) (id : ℕ) (status : ContactStatus)
    → raw_count (add_group g counts) id status
      ≡ (if is_group_of id status g then g.count else raw_count counts id status)
unfolding raw_count add_group
raw_count-add_group g counts id status = elim (Bool-cases (g.campaign_id == id)) [
  | inl same ↦ rw same (let e : g.campaign_id ≡ id = ground arith in rw e (ground arith))
  | inr other ↦ rw other
]

tally-of_group :
    (rows : List CampaignContact) (g : Group) (id : ℕ) (status : ContactStatus)
    → is_group_of id status g ≡ true
    → tally rows g.campaign_id g.status ≡ tally rows id status
tally-of_group rows g id status h =
    let parts = &&-parts (g.campaign_id == id) (status_eq g.status status) h in
    let same : g.campaign_id ≡ id = (==_iff g.campaign_id id).0 parts.0 in
    ap₂ (tally rows) same (status_eq→≡ g.status status parts.1)

-- The count read after filling: the tally of its group, or what was there before.
fill_counts-raw_count :
    (rows : List CampaignContact) (groups : List Group) (counts : RawCounts) (id : ℕ)
    (status : ContactStatus)
    → All (λ (g : Group). g.count ≡ tally rows g.campaign_id g.status) groups
    → raw_count (fill_counts groups counts) id status ≡ (
        if any (is_group_of id status) groups
        then tally rows id status
        else raw_count counts id status)
unfolding fill_counts
fill_counts-raw_count rows [] counts id status h = refl
fill_counts-raw_count rows (g ∷ groups) counts id status h = ground (
  arith,
  fill_counts-raw_count rows groups (add_group g counts) id status,
  raw_count-add_group g counts id status,
  tally-of_group rows g id status,
)

raw_count-put_empty :
    (key : ℕ) (counts : RawCounts) (id : ℕ) (status : ContactStatus)
    → raw_count counts id status ≡ 0
    → raw_count (put key empty_bucket counts) id status ≡ 0
unfolding raw_count
raw_count-put_empty key counts id status h = ground arith

raw_count-empty_counts :
    (ids : List ℕ) (counts : RawCounts) (id : ℕ) (status : ContactStatus)
    → raw_count counts id status ≡ 0
    → raw_count (empty_counts ids counts) id status ≡ 0
unfolding empty_counts
raw_count-empty_counts [] counts id status h = h
raw_count-empty_counts (key ∷ ids) counts id status h =
    raw_count-empty_counts ids (put key empty_bucket counts) id status
      (raw_count-put_empty key counts id status h)

-- Counting the contacts of a campaign directly.
abbrev pub count_in : List CampaignContact → ℕ → (ContactStatus → Bool) → ℕ
count_in rows id p = count_where (λ r. (r.campaign_id == id) && p r.status) rows

abbrev pub was_sent : ContactStatus → Bool
was_sent sent = true
was_sent delivered = true
was_sent read = true
was_sent _ = false

abbrev pub was_delivered : ContactStatus → Bool
was_delivered delivered = true
was_delivered read = true
was_delivered _ = false

abbrev pub funnel : List CampaignContact → ℕ → CampaignProgress
funnel rows id = record {
  sent_count = count_in rows id was_sent;
  delivered_count = count_in rows id was_delivered;
  read_count = tally rows id read;
  failed_count = tally rows id failed;
}

count_in-was_delivered :
    (rows : List CampaignContact) (id : ℕ)
    → count_in rows id was_delivered ≡ tally rows id delivered + tally rows id read
count_in-was_delivered [] id = omega arith
count_in-was_delivered (r ∷ rows) id = ground (arith, count_in-was_delivered rows id)

count_in-was_sent :
    (rows : List CampaignContact) (id : ℕ)
    → count_in rows id was_sent ≡ tally rows id sent + tally rows id delivered + tally rows id read
count_in-was_sent [] id = omega arith
count_in-was_sent (r ∷ rows) id = ground (arith, count_in-was_sent rows id)

module _ (group_by : GroupBy) (grouping : IsGroupBy group_by) (rows : List CampaignContact) where
  raw_count-tally :
      (ids : List ℕ) (id : ℕ) (status : ContactStatus)
      → any (λ other. other == id) ids ≡ true
      → raw_count (fill_counts (group_by rows ids) (empty_counts ids (λ id. none))) id status
        ≡ tally rows id status
  raw_count-tally ids id status listed =
      fill_counts-raw_count rows (group_by rows ids) (empty_counts ids (λ id. none)) id status
        (grouping.exact rows ids)
      ∙ elim (Bool-cases (any (is_group_of id status) (group_by rows ids))) [
        | inl some_row ↦ rw some_row
        | inr no_row ↦
            rw (no_row, grouping.total rows ids id status listed no_row)
              (raw_count-empty_counts ids (λ id. none) id status (unfold raw_count in refl))
      ]

  progress_of-funnel :
      (ids : List ℕ) (id : ℕ)
      → any (λ other. other == id) ids ≡ true
      → progress_of (fill_counts (group_by rows ids) (empty_counts ids (λ id. none))) id
        ≡ funnel rows id
  unfolding progress_of
  progress_of-funnel ids id listed = ground (
    arith,
    raw_count-tally ids id sent listed,
    raw_count-tally ids id delivered listed,
    raw_count-tally ids id read listed,
    raw_count-tally ids id failed listed,
    count_in-was_sent rows id,
    count_in-was_delivered rows id,
  )

  get_progress-map :
      (f : ℕ → CampaignProgress) (ids : List ℕ) (id : ℕ)
      → any (λ other. other == id) ids ≡ true
      → get_progress id (map (λ key. (key, f key)) ids) ≡ some (f id)
  unfolding get_progress
  get_progress-map f [] id listed = cc
  get_progress-map f (key ∷ ids) id listed = elim (Bool-cases (key == id)) [
    | inl same ↦ rw same (ap (λ k. some (f k)) ((==_iff key id).0 same))
    | inr other ↦ rw other (get_progress-map f ids id (rw other at listed))
  ]

  -- For a database that groups as documented, the entry of each listed campaign is its funnel:
  -- the contacts that were sent to, those delivered, those read and those that failed, counted
  -- directly in the rows.
  pub compute_campaign_progress_batch-funnel :
      (ids : List ℕ) (id : ℕ)
      → any (λ other. other == id) ids ≡ true
      → get_progress id (compute_campaign_progress_batch group_by rows ids) ≡ some (funnel rows id)
  unfolding compute_campaign_progress_batch
  compute_campaign_progress_batch-funnel [] id listed = cc
  compute_campaign_progress_batch-funnel (key ∷ ids) id listed =
      get_progress-map
        (progress_of
          (fill_counts (group_by rows (key ∷ ids)) (empty_counts (key ∷ ids) (λ id. none))))
        (key ∷ ids) id listed
      ∙ ap some (progress_of-funnel (key ∷ ids) id listed)

  pub compute_campaign_progress-funnel :
      (id : ℕ) → compute_campaign_progress group_by rows id ≡ funnel rows id
  unfolding compute_campaign_progress
  compute_campaign_progress-funnel id =
      rw (compute_campaign_progress_batch-funnel (id ∷ []) id (ground (arith, ==_refl id)))

count_in-all :
    (rows : List CampaignContact) (id : ℕ)
    → count_in rows id (λ status. true)
      ≡ count_where (λ (r : CampaignContact). r.campaign_id == id) rows
count_in-all [] id = refl
count_in-all (r ∷ rows) id = ground (arith, count_in-all rows id)

count_in-partition :
    (rows : List CampaignContact) (id : ℕ)
    → count_in rows id was_sent
        + tally rows id failed
        + tally rows id pending
        + tally rows id opted_out
      ≡ count_in rows id (λ status. true)
count_in-partition [] id = omega arith
count_in-partition (r ∷ rows) id = ground (arith, count_in-partition rows id)

-- For a database that groups as documented, the reported counts are nested (read within delivered
-- within sent), and together with the pending and the opted-out contacts the sent and the failed
-- ones make up all contacts of the campaign.
pub compute_campaign_progress_accounts :
    (group_by : GroupBy) (grouping : IsGroupBy group_by) (rows : List CampaignContact) (id : ℕ)
    → let p = compute_campaign_progress group_by rows id in
      (p.read_count ≤ p.delivered_count)
      × (p.delivered_count ≤ p.sent_count)
      × (p.sent_count + p.failed_count + tally rows id pending + tally rows id opted_out
          ≡ count_where (λ (r : CampaignContact). r.campaign_id == id) rows)
compute_campaign_progress_accounts group_by grouping rows id =
    rw (compute_campaign_progress-funnel group_by grouping rows id) (
      omega (arith, count_in-was_delivered rows id),
      omega (arith, count_in-was_delivered rows id, count_in-was_sent rows id),
      ground (arith, count_in-partition rows id, count_in-all rows id),
    )
