-- ===== src/Campaigns/Processor/Keeping.antt =====
-- The job and the consistency of the tables.
use notifymain_wa.Prelude.{
  ℕ, suc, refl, inl, inr, some, List, [], ◌∷◌, keep, arith, Option-cases, Bool-cases, find_first,
}
use notifymain_wa.Campaigns.Data.{Campaign, CampaignContact, completed, Store}
use notifymain_wa.Campaigns.Actions.{World}
use notifymain_wa.Campaigns.Lookup.{is_campaign, find_campaign}
use notifymain_wa.Campaigns.Pacing.{base_delay}
use notifymain_wa.Campaigns.Delivery.{Run, deliver}
use notifymain_wa.Campaigns.Requests.{Keeps, serve}
use notifymain_wa.Campaigns.Requests.Consistency.{
  IsConsistent, IsGenerator, serve-IsConsistent, idle-IsConsistent, edited-IsConsistent,
  written-IsConsistent,
}
use notifymain_wa.Campaigns.Processor.{
  Incoming, Script, serve_all, arrive, later, is_cancelled, cancelled_in, finish, send_loop,
  handle_campaign, run_campaign, run_of, rate_of, start_row, cancel_row, linked_session,
  resolve_engine, is_pending_of,
}
use notifymain_wa.Campaigns.Processor.Steps.{
  Leaves, emit_progress-Leaves, pace-Leaves, Delivers, deliver-Delivers,
}

module _ (w : World) (gen : IsGenerator w) where
  serve_all-IsConsistent :
      (qs : List Incoming) (s : Store) → IsConsistent w s → IsConsistent w (serve_all w qs s)
  unfolding serve_all
  serve_all-IsConsistent [] s v = v
  serve_all-IsConsistent (q ∷ qs) s v =
      serve_all-IsConsistent qs (serve w q.tenant_id q.user_id q.request s)
        (serve-IsConsistent w q.tenant_id q.user_id q.request s gen v)

  arrive-IsConsistent :
      (script : Script) (s : Store) → IsConsistent w s → IsConsistent w (arrive w script s)
  arrive-IsConsistent [] s v = v
  arrive-IsConsistent (batch ∷ script) s v = serve_all-IsConsistent batch s v

  Leaves-IsConsistent : (s s' : Store) → Leaves s s' → IsConsistent w s → IsConsistent w s'
  Leaves-IsConsistent s s' l v =
      rw (l.campaigns, l.contacts) (idle-IsConsistent w s v s'.draws l.later)

  Delivers-IsConsistent :
      (run : Run) (contact : CampaignContact) (s s' : Store)
      → Delivers run contact s s'
      → IsConsistent w s
      → IsConsistent w s'
  Delivers-IsConsistent run contact s s' d v =
      rw (d.campaigns, d.contacts)
        (written-IsConsistent _ d.write d.settles.keeps w s s'.draws v d.later)

  finish-IsConsistent : (t id : ℕ) (s : Store) → IsConsistent w s → IsConsistent w (finish w t id s)
  unfolding finish
  finish-IsConsistent t id s v = elim (Option-cases (find_first (is_campaign id) s.campaigns)) [
    | inl e ↦ rw (e, finish) v
    | inr (c, e) ↦
        rw (e, finish)
          elim (Bool-cases (is_cancelled c.status)) [
            | inl gone ↦ rw gone v
            | inr live ↦ rw live (
                Leaves-IsConsistent _ _ (emit_progress-Leaves w t id _).0 (
                  edited-IsConsistent w s v id (suc s.draws)
                    (λ c. record c { status = completed; completed_at = some (w.now s.draws) })
                    (λ c. (refl, refl, refl)) (omega arith)))
          ]
  ]

  send_loop-IsConsistent :
      (t : ℕ) (run : Run) (base : ℕ) (script : Script) (sent : ℕ) (contacts : List CampaignContact)
      (s : Store)
      → IsConsistent w s
      → IsConsistent w (send_loop w t run base script sent contacts s)
  unfolding send_loop
  send_loop-IsConsistent t run base script sent [] s v =
      finish-IsConsistent t run.campaign.id (arrive w script s) (arrive-IsConsistent script s v)
  send_loop-IsConsistent t run base script sent (contact ∷ contacts) s v =
      let now = arrive w script s in
      let here = arrive-IsConsistent script s v in
      let sent_to = deliver w t run contact now in
      elim (Bool-cases (cancelled_in run.campaign.id now)) [
        | inl gone ↦ rw (gone, send_loop) here
        | inr live ↦
            rw (live, send_loop)
              (send_loop-IsConsistent t run base (later script) (suc sent) contacts _ (
                Leaves-IsConsistent sent_to _ (pace-Leaves w base (suc sent) sent_to).0 (
                  Delivers-IsConsistent run contact now sent_to
                    (deliver-Delivers w t run contact now) here)))
      ]

  start_row-Keeps : (draws : ℕ) (c : Campaign) → Keeps (start_row w draws c)
  start_row-Keeps draws c d = ground arith

  run_campaign-IsConsistent :
      (t : ℕ) (script : Script) (c : Campaign) (s : Store)
      → IsConsistent w s
      → IsConsistent w (run_campaign w t script c s)
  unfolding run_campaign
  run_campaign-IsConsistent t script c s v =
      let cancelled =
        edited-IsConsistent w s v c.id (suc (suc s.draws)) cancel_row (λ d. (refl, refl, refl))
          (omega arith) in
      elim (Option-cases (linked_session s c.session_id)) [
        | inl e ↦ rw (e, run_campaign) cancelled
        | inr (session, e) ↦
            rw (e, run_campaign)
              elim (Option-cases (resolve_engine w s.draws session)) [
                | inl lost ↦ rw (lost, run_campaign) cancelled
                | inr (engine, reached) ↦
                    rw (reached, run_campaign)
                      (send_loop-IsConsistent t (run_of w c session engine) (base_delay (rate_of c))
                        script 0 (keep (is_pending_of c.id) s.campaign_contacts)
                        (record s { draws = suc (suc s.draws) })
                        (idle-IsConsistent w s v (suc (suc s.draws)) (omega arith)))
              ]
      ]

-- Where the database never repeats an id, a job keeps the tables consistent, on every branch and
-- whatever requests are served while it runs.
pub handle_campaign-IsConsistent :
    (w : World) (script : Script) (t id : ℕ) (s : Store)
    → IsGenerator w
    → IsConsistent w s
    → IsConsistent w (handle_campaign w script t id s)
unfolding handle_campaign
handle_campaign-IsConsistent w script t id s gen v = elim (Option-cases (find_campaign s t id)) [
  | inl e ↦ rw (e, handle_campaign) v
  | inr (c, e) ↦
      rw (e, handle_campaign)
        elim (Bool-cases (is_cancelled c.status)) [
          | inl gone ↦ rw gone v
          | inr live ↦ rw live (
              run_campaign-IsConsistent w gen t script c _ (
                edited-IsConsistent w s v id (suc s.draws) (start_row w s.draws c)
                  (start_row-Keeps w gen s.draws c) (omega arith)))
        ]
]
