-- ===== src/Inbox/Soundness/Acks.antt =====
-- Acknowledgements, reactions and the events of a session change no conversation and no external
-- id.
use notifymain_wa.Prelude.{
  ℕ, ◌≡◌, refl, inl, inr, Bool, true, false, Option, none, some, List, [], ◌∷◌, ◌++◌, or_else,
  is_empty, any, Bool-cases, Option-cases, find_first, ◌==◌, if◌then◌else◌,
}
use notifymain_wa.Text.{Str}
use notifymain_wa.Campaigns.Data.{
  SessionStatus, Session, Message, message_ack, message_reaction, session_status, session_syncing,
  Store,
}
use notifymain_wa.Campaigns.Actions.{World}
use notifymain_wa.Campaigns.Lookup.{is_campaign}
use notifymain_wa.Campaigns.Delivery.{emit_progress}
use notifymain_wa.Inbox.Links.{
  session_of, emit, announce, has_openwa_id, handle_session_connected, handle_session_disconnected,
  handle_session_sync_start, update_sessions, set_connected, set_disconnected,
}
use notifymain_wa.Inbox.Acks.{
  Ack, has_external_id, stamp_message, stamp_messages, retry_delays_ms, message_status,
  mark_recipients, try_ack, ack_campaign, ack_found, handle_message_ack,
}
use notifymain_wa.Inbox.Reactions.{react, write_reactions, handle_message_reaction}
use notifymain_wa.Inbox.Soundness.{IsSound, IsSound-same, IsSound-messages}

stamp_message-external_id :
    (ack : Ack) (at : ℕ) (m : Message) → (stamp_message ack at m).external_id ≡ m.external_id
stamp_message-external_id Ack.server at m = refl
stamp_message-external_id Ack.device at m = refl
stamp_message-external_id Ack.seen at m = refl
stamp_message-external_id Ack.error at m = refl

module _ (w : World) where
  stamp_messages-IsSound :
      (id : Str) (ack : Ack) (at : ℕ) (s : Store)
      → IsSound w s
      → IsSound w (stamp_messages id ack at s)
  stamp_messages-IsSound id ack at s v =
      IsSound-messages w s (has_external_id id) (stamp_message ack at)
        (stamp_message-external_id ack at) v

  try_ack-IsSound :
      (id : Str) (ack : Ack) (at : ℕ) (others : ℕ → Store → Store) (delays : List ℕ) (s : Store)
      → ((n : ℕ) (s : Store) → IsSound w s → IsSound w (others n s))
      → IsSound w s
      → IsSound w (try_ack id ack at others delays s).1
  unfolding try_ack
  try_ack-IsSound id ack at others [] s keeps v = stamp_messages-IsSound id ack at s v
  try_ack-IsSound id ack at others (delay ∷ delays) s keeps v =
      elim (Bool-cases (any (has_external_id id) s.messages)) [
        | inl e ↦ rw (e, try_ack) (stamp_messages-IsSound id ack at s v)
        | inr e ↦
            rw (e, try_ack)
              (try_ack-IsSound id ack at others delays
                (others delay (record s { waits = s.waits ++ delay ∷ [] })) keeps
                (keeps delay (record s { waits = s.waits ++ delay ∷ [] })
                  (IsSound-same w s (record s { waits = s.waits ++ delay ∷ [] }) refl refl refl v)))
      ]

  emit_progress-IsSound : (t id : ℕ) (s : Store) → IsSound w s → IsSound w (emit_progress w t id s)
  unfolding emit_progress
  emit_progress-IsSound t id s v = elim (Option-cases (find_first (is_campaign id) s.campaigns)) [
    | inl e ↦ rw (e, emit_progress) v
    | inr (c, e) ↦
        rw (e, emit_progress) (record { threaded = v.threaded; fresh = v.fresh; once = v.once })
  ]

  mark_recipients-IsSound :
      (campaign_id message_id : ℕ) (ack : Ack) (at : ℕ) (s : Store)
      → IsSound w s
      → IsSound w (mark_recipients campaign_id message_id ack at s)
  mark_recipients-IsSound campaign_id message_id ack at s v =
      IsSound-same w s (mark_recipients campaign_id message_id ack at s) refl refl refl v

  ack_campaign-IsSound :
      (ack : Ack) (at : ℕ) (m : Message) (s : Store)
      → IsSound w s
      → IsSound w (ack_campaign w ack at m s)
  unfolding ack_campaign
  ack_campaign-IsSound ack at m s v = elim (Option-cases m.campaign_id) [
    | inl f ↦ rw (f, ack_campaign) v
    | inr (campaign_id, f) ↦
        let marked = mark_recipients-IsSound campaign_id m.id ack at s v in
        elim (Option-cases (find_first (is_campaign campaign_id) s.campaigns)) [
          | inl h ↦ rw (f, h, ack_campaign) marked
          | inr (c, h) ↦
              rw (f, h, ack_campaign)
                (emit_progress-IsSound c.tenant_id c.id (mark_recipients campaign_id m.id ack at s)
                  marked)
        ]
  ]

  ack_found-IsSound :
      (id : Str) (ack : Ack) (at : ℕ) (s : Store)
      → IsSound w s
      → IsSound w (ack_found w id ack at s)
  unfolding ack_found
  ack_found-IsSound id ack at s v =
      elim (Option-cases (find_first (has_external_id id) s.messages)) [
        | inl e ↦ rw (e, ack_found) v
        | inr (m, e) ↦
            let told = emit (message_ack m.tenant_id m.id id (message_status ack)) s in
            rw (e, ack_found)
              (ack_campaign-IsSound ack at m told (IsSound-same w s told refl refl refl v))
      ]

  finish_ack-IsSound :
      (id : Str) (ack : Ack) (at : ℕ) (r : Bool × Store)
      → IsSound w r.1
      → IsSound w (if r.0 then ack_found w id ack at r.1 else r.1)
  finish_ack-IsSound id ack at (true, s) v = ack_found-IsSound id ack at s v
  finish_ack-IsSound id ack at (false, s) v = v

  pub handle_message_ack-IsSound :
      (others : ℕ → Store → Store) (ack : Option Ack) (id : Option Str) (at : ℕ) (s : Store)
      → ((n : ℕ) (s : Store) → IsSound w s → IsSound w (others n s))
      → IsSound w s
      → IsSound w (handle_message_ack w others ack id at s)
  unfolding handle_message_ack
  handle_message_ack-IsSound others none id at s keeps v = v
  handle_message_ack-IsSound others (some ack) none at s keeps v = v
  handle_message_ack-IsSound others (some ack) (some id) at s keeps v =
      let tried = try_ack-IsSound id ack at others retry_delays_ms s keeps v in
      elim (Bool-cases (is_empty id)) [
        | inl e ↦ rw (e, handle_message_ack) v
        | inr e ↦
            rw (e, handle_message_ack)
              (finish_ack-IsSound id ack at (try_ack id ack at others retry_delays_ms s) tried)
      ]

  pub handle_message_reaction-IsSound :
      (target sender emoji : Option Str) (s : Store)
      → IsSound w s
      → IsSound w (handle_message_reaction target sender emoji s)
  unfolding handle_message_reaction
  handle_message_reaction-IsSound target sender emoji s v =
      let id = or_else target [] in
      let from = or_else sender [] in
      elim (Bool-cases (is_empty id)) [
        | inl e ↦ rw (e, handle_message_reaction) v
        | inr e ↦ elim (Bool-cases (is_empty from)) [
          | inl f ↦ rw (e, f, handle_message_reaction) v
          | inr f ↦ elim (Option-cases (find_first (has_external_id id) s.messages)) [
            | inl h ↦ rw (e, f, h, handle_message_reaction) v
            | inr (m, h) ↦
                let table = react from emoji m.reactions in
                let written =
                  IsSound-messages w s (λ (n : Message). n.id == m.id)
                    (λ n. record n { reactions = table }) (λ n. refl) v in
                elim (Option-cases m.conversation_id) [
                  | inl i ↦ rw (e, f, h, i, handle_message_reaction) written
                  | inr (c, i) ↦
                      rw (e, f, h, i, handle_message_reaction)
                        (IsSound-same w (write_reactions m.id table s)
                          (emit (message_reaction m.tenant_id m.id c table)
                            (write_reactions m.id table s))
                          refl refl refl written)
                ]
          ]
        ]
      ]

-- The events of a session write other tables.
module _ (w : World) (s : Store) (v : IsSound w s) where
  announce-IsSound :
      (id : Str) (status : SessionStatus) (f : Session → Session)
      → IsSound w (announce id status (update_sessions id f s))
  announce-IsSound id status f = elim (Option-cases (session_of id (update_sessions id f s))) [
    | inl e ↦ rw (e, announce) (IsSound-same w s (update_sessions id f s) refl refl refl v)
    | inr (c, e) ↦
        rw (e, announce)
          (IsSound-same w s (emit (session_status c.tenant_id id status) (update_sessions id f s))
            refl refl refl v)
  ]

  pub handle_session_connected-IsSound :
      (id : Str) (at : ℕ) (phone : Option Str) → IsSound w (handle_session_connected id at phone s)
  unfolding handle_session_connected
  handle_session_connected-IsSound id at phone =
      elim (Bool-cases (any (has_openwa_id id) s.sessions)) [
        | inl e ↦
            rw (e, handle_session_connected)
              (announce-IsSound id SessionStatus.connected (set_connected at phone))
        | inr e ↦
            rw (e, handle_session_connected)
              (IsSound-same w s (update_sessions id (set_connected at phone) s) refl refl refl v)
      ]

  pub handle_session_disconnected-IsSound :
      (id : Str) (at : ℕ) → IsSound w (handle_session_disconnected id at s)
  unfolding handle_session_disconnected
  handle_session_disconnected-IsSound id at =
      announce-IsSound id SessionStatus.disconnected (set_disconnected at)

  pub handle_session_sync_start-IsSound : (id : Str) → IsSound w (handle_session_sync_start id s)
  unfolding handle_session_sync_start
  handle_session_sync_start-IsSound id = elim (Option-cases (session_of id s)) [
    | inl e ↦ rw (e, handle_session_sync_start) v
    | inr (c, e) ↦
        rw (e, handle_session_sync_start)
          (IsSound-same w s (emit (session_syncing c.tenant_id id) s) refl refl refl v)
  ]
