-- ===== src/Tests/CampaignTests.antt =====
-- The theorems on campaigns, at the sample.
use notifymain_wa.Prelude.{◌+◌, ◌*◌, ◌≤◌, ◌<◌, ◌≡◌, refl, some, [], ◌∷◌, keep, arith}
use notifymain_wa.Campaigns.Data.{draft, running, cancelled}
use notifymain_wa.Campaigns.Progress.{
  compute_campaign_progress, compute_campaign_progress_batch, get_progress,
}
use notifymain_wa.Campaigns.Progress.Counts.{
  funnel, compute_campaign_progress_batch-funnel, compute_campaign_progress_accounts,
}
use notifymain_wa.Campaigns.Pacing.{base_delay, jitter_of}
use notifymain_wa.Campaigns.Requests.{serve, cancel, launch}
use notifymain_wa.Campaigns.Requests.Consistency.{IsConsistent, serve-IsConsistent}
use notifymain_wa.Campaigns.Requests.Transitions.{
  Evolves, serve-Evolves, is_foreign, serve-keep_foreign,
}
use notifymain_wa.Campaigns.Processor.{
  Script, handle_campaign, send_loop, run_of, is_pending_of, resolve_engine,
}
use notifymain_wa.Campaigns.Processor.Stopping.{Stopped, send_loop-Stopped}
use notifymain_wa.Campaigns.Processor.Completion.{IsDone, handle_campaign-IsDone}
use notifymain_wa.Campaigns.Processor.Keeping.{handle_campaign-IsConsistent}
use notifymain_wa.Text.{codes}
use notifymain_wa.Tests.Sample.{
  group_all, group_all-IsGroupBy, world, world-IsGenerator, session, campaign, contact, store,
  store-IsConsistent,
}

engine_found : resolve_engine world 1 session ≡ some (codes "http://engine")
unfolding resolve_engine
engine_found = refl

handle_campaign-IsDone_example :
    IsDone
      (run_of world (campaign running) session (codes "http://engine"))
      5
      (keep (is_pending_of 5) (contact ∷ []))
      (store running)
      (handle_campaign world [] 7 5 (store running))
handle_campaign-IsDone_example =
    handle_campaign-IsDone world 7 5 (store running) (campaign running) session
      (codes "http://engine") (store-IsConsistent running) refl refl refl engine_found

-- The user tries to launch the campaign again.
abbrev relaunch : Script
relaunch = (record { tenant_id = 7; user_id = 3; request = launch 5 } ∷ []) ∷ []

-- The user cancels the campaign.
abbrev stop_it : Script
stop_it = (record { tenant_id = 7; user_id = 3; request = cancel 5 } ∷ []) ∷ []

send_loop-Stopped_example : Stopped world 5 [] (
    send_loop world 7
      (run_of world (campaign running) session (codes "http://engine"))
      2000
      relaunch
      0
      (contact ∷ [])
      (store cancelled))
send_loop-Stopped_example =
    send_loop-Stopped world 7 (run_of world (campaign running) session (codes "http://engine")) 2000
      relaunch 0 (contact ∷ []) (store cancelled) world-IsGenerator (store-IsConsistent cancelled)
      refl

handle_campaign-IsConsistent_example :
    IsConsistent world (handle_campaign world stop_it 7 5 (store running))
handle_campaign-IsConsistent_example =
    handle_campaign-IsConsistent world stop_it 7 5 (store running) world-IsGenerator
      (store-IsConsistent running)

serve-IsConsistent_example : IsConsistent world (serve world 7 3 (launch 5) (store draft))
serve-IsConsistent_example =
    serve-IsConsistent world 7 3 (launch 5) (store draft) world-IsGenerator
      (store-IsConsistent draft)

serve-Evolves_example :
    Evolves (store running).campaigns (serve world 7 3 (cancel 5) (store running)).campaigns
serve-Evolves_example =
    serve-Evolves world 7 3 (cancel 5) (store running) (store-IsConsistent running)

serve-keep_foreign_example :
    keep (is_foreign 8) (serve world 8 3 (cancel 5) (store running)).campaigns
    ≡ campaign running ∷ []
serve-keep_foreign_example =
    serve-keep_foreign world 8 3 (cancel 5) (store running) (store-IsConsistent running)

compute_campaign_progress_batch-funnel_example :
    get_progress 5 (compute_campaign_progress_batch group_all (contact ∷ []) (4 ∷ 5 ∷ []))
    ≡ some (funnel (contact ∷ []) 5)
compute_campaign_progress_batch-funnel_example =
    compute_campaign_progress_batch-funnel group_all group_all-IsGroupBy (contact ∷ []) (4 ∷ 5 ∷ [])
      5 refl

compute_campaign_progress_accounts_example :
    let p = compute_campaign_progress group_all (contact ∷ []) 5 in
    (p.read_count ≤ p.delivered_count)
    × (p.delivered_count ≤ p.sent_count)
    × (p.sent_count + p.failed_count + 1 + 0 ≡ 1)
compute_campaign_progress_accounts_example =
    compute_campaign_progress_accounts group_all group_all-IsGroupBy (contact ∷ []) 5

small_enough : 1200 < 2 * jitter_of (base_delay 30) + 1
unfolding base_delay
small_enough = omega arith
