-- ===== src/Inbox/Soundness/Chats.antt =====
-- The synchronisation of chats keeps the conversations threaded.
use notifymain_wa.Prelude.{
  ℕ, zero, suc, ◌≤◌, ◌≡◌, refl, ◌∙◌, inl, inr, Bool, true, false, List, [], ◌∷◌, length, take, drop,
  is_empty, arith, Bool-cases, Option-cases, count_where, count_where-update_where, ==_refl, ==_ne,
}
use notifymain_wa.Text.{Str}
use notifymain_wa.Text.Laws.{str_eq_refl}
use notifymain_wa.Campaigns.Data.{Session, Conversation, Store, session_sync_complete}
use notifymain_wa.Campaigns.Actions.{World}
use notifymain_wa.Campaigns.Requests.Consistency.{IsGenerator}
use notifymain_wa.Inbox.Addresses.{normalise_jid}
use notifymain_wa.Inbox.Threads.{has_key, reattach_orphan}
use notifymain_wa.Inbox.Threads.Keys.{
  is_row, IsThreaded, update-IsThreaded, reattach_orphan-IsThreaded, reattach_orphan-ids,
  upsert-IsThreaded, upsert-ids,
}
use notifymain_wa.Inbox.Links.{session_of, emit}
use notifymain_wa.Inbox.Chats.{
  Chat, Turn, Running, Stage, orphans, row, over, next_stage, batch_size, is_skipped,
  has_real_content, refreshed, chat_row, write_chat, begin_batch, sync_chat, advance, finish_chats,
  take_turns, sync_batch, pause_batch, sync_batches, handle_session_chats_synced,
}
use notifymain_wa.Inbox.Soundness.{IsSound, IsSound-same}

module _ (w : World) (g : IsGenerator w) (session : Session) where
  -- The row that a chat makes has the key that it is looked up by.
  chat_row-has_key :
      (id now : ℕ) (jid : Str) (chat : Chat)
      → has_key session.tenant_id session.id jid (chat_row id session jid now chat) ≡ true
  chat_row-has_key id now jid chat =
      ground (arith, ==_refl session.tenant_id, ==_refl session.id, str_eq_refl jid)

  -- A question to the database or the clock uses up an id at most.
  drawn-IsSound : (s : Store) → IsSound w s → IsSound w (record s { draws = suc s.draws })
  drawn-IsSound s v = record {
    threaded = v.threaded;
    fresh = λ k h. v.fresh k (omega arith);
    once = v.once;
  }

  module _ (chat : Chat) (now : ℕ) (s : Store) (v : IsSound w s) where
    abbrev jid : Str
    jid = normalise_jid chat.jid

    abbrev key : Conversation → Bool
    key = has_key session.tenant_id session.id jid

    abbrev change : Conversation → Conversation
    change = refreshed now chat

    abbrev made : Conversation
    made = chat_row (w.new_id s.draws) session jid now chat

    attached-IsSound : IsSound w (record s {
      conversations = reattach_orphan session.tenant_id session.id jid s.conversations;
    })
    attached-IsSound = record {
      threaded =
          reattach_orphan-IsThreaded session.tenant_id session.id jid s.conversations v.threaded;
      fresh = λ k h. ground (
        arith,
        v.fresh k h,
        reattach_orphan-ids session.tenant_id session.id jid s.conversations v.threaded
            (w.new_id k),
      );
      once = v.once;
    }

    write_chat-IsThreaded :
        IsThreaded (write_chat (w.new_id s.draws) now session chat s.conversations).0
    unfolding write_chat
    write_chat-IsThreaded = elim (Bool-cases (has_real_content chat)) [
      | inl e ↦
          rw (e, write_chat)
            (upsert-IsThreaded session.tenant_id session.id jid s.conversations v.threaded change
              made (λ c. refl) (λ a b n c. refl) (v.fresh s.draws (omega arith))
              (chat_row-has_key (w.new_id s.draws) now jid chat))
      | inr e ↦
          rw (e, write_chat)
            (update-IsThreaded key change s.conversations (λ c. refl) (λ a b n c. refl) v.threaded)
    ]

    write_chat-fresh :
        (k : ℕ)
        → suc s.draws ≤ k
        → count_where
            (is_row (w.new_id k))
            (write_chat (w.new_id s.draws) now session chat s.conversations).0
          ≡ 0
    unfolding write_chat
    write_chat-fresh k h = elim (Bool-cases (has_real_content chat)) [
      | inl e ↦
          rw (e, write_chat)
            (upsert-ids session.tenant_id session.id jid s.conversations v.threaded change made
                (w.new_id k) (λ c. refl)
                (==_ne (w.new_id s.draws) (w.new_id k)
                  (λ e. let same : s.draws ≡ k = g s.draws k e in absurd (omega arith)))
              ∙ v.fresh k (omega arith))
      | inr e ↦
          rw
            (
              e,
              write_chat,
              count_where-update_where (is_row (w.new_id k)) key change s.conversations (λ c. refl),
            )
            (v.fresh k (omega arith))
    ]

  sync_chat-IsSound :
      (chat : Chat) (now : ℕ) (stage : Stage) (acc : Store × ℕ)
      → IsSound w acc.0
      → IsSound w (sync_chat w session (record { chat = chat; now = now; stage = stage }) acc).0
  unfolding sync_chat
  sync_chat-IsSound chat now orphans (s, count) v = attached-IsSound chat now s v
  sync_chat-IsSound chat now row (s, count) v = record {
    threaded = write_chat-IsThreaded chat now s v;
    fresh = write_chat-fresh chat now s v;
    once = v.once;
  }
  sync_chat-IsSound chat now over (s, count) v = v

  begin_batch-IsSound :
      (chats : List Chat) (s : Store) → IsSound w s → IsSound w (begin_batch w chats s).1
  unfolding begin_batch
  begin_batch-IsSound [] s v = v
  begin_batch-IsSound (chat ∷ chats) s v = elim (Bool-cases (is_skipped chat.jid)) [
    | inl e ↦ rw (e, begin_batch) (begin_batch-IsSound chats s v)
    | inr e ↦
        rw (e, begin_batch)
          (begin_batch-IsSound chats (record s { draws = suc s.draws }) (drawn-IsSound s v))
  ]

  advance-IsSound :
      (position : ℕ) (fails : Bool) (running : List Running) (acc : Store × ℕ)
      → IsSound w acc.0
      → IsSound w (advance w session position fails running acc).1.0
  unfolding advance
  advance-IsSound position fails [] acc v = v
  advance-IsSound zero true (r ∷ running) acc v = v
  advance-IsSound zero false (r ∷ running) acc v = sync_chat-IsSound r.chat r.now r.stage acc v
  advance-IsSound (suc position) fails (r ∷ running) acc v =
      advance-IsSound position fails running acc v

  finish_chats-IsSound :
      (running : List Running) (acc : Store × ℕ)
      → IsSound w acc.0
      → IsSound w (finish_chats w session running acc).0
  unfolding finish_chats
  finish_chats-IsSound [] acc v = v
  finish_chats-IsSound (r ∷ running) acc v =
      finish_chats-IsSound running
        (sync_chat w session (record r { stage = next_stage r.stage }) (sync_chat w session r acc))
        (sync_chat-IsSound r.chat r.now (next_stage r.stage) (sync_chat w session r acc)
          (sync_chat-IsSound r.chat r.now r.stage acc v))

  take_turns-IsSound :
      (turns : List Turn) (running : List Running) (acc : Store × ℕ)
      → IsSound w acc.0
      → IsSound w (take_turns w session turns running acc).0
  unfolding take_turns
  take_turns-IsSound [] running acc v = finish_chats-IsSound running acc v
  take_turns-IsSound (turn ∷ turns) running acc v =
      let next = advance w session turn.position turn.fails running acc in
      take_turns-IsSound turns next.0 next.1
        (advance-IsSound turn.position turn.fails running acc v)

  pub sync_batch-IsSound :
      (turns : ℕ → List Turn) (chats : List Chat) (acc : Store × ℕ)
      → IsSound w acc.0
      → IsSound w (sync_batch w turns session chats acc).0
  unfolding sync_batch
  sync_batch-IsSound turns chats (s, count) v =
      let begun = begin_batch w chats (record s { draws = suc s.draws }) in
      take_turns-IsSound (turns s.draws) begun.0 (begun.1, count)
        (begin_batch-IsSound chats (record s { draws = suc s.draws }) (drawn-IsSound s v))

  sync_batches-IsSound :
      (turns : ℕ → List Turn) (fuel : ℕ) (chats : List Chat) (acc : Store × ℕ)
      → IsSound w acc.0
      → IsSound w (sync_batches fuel w turns session chats acc).0
  unfolding sync_batches
  sync_batches-IsSound turns zero chats acc v = v
  sync_batches-IsSound turns (suc fuel) chats (s, count) v =
      let done = sync_batch-IsSound turns (take batch_size chats) (s, count) v in
      elim (Bool-cases (is_empty (drop batch_size chats))) [
        | inl e ↦ rw e done
        | inr e ↦ rw e (
            sync_batches-IsSound turns fuel (drop batch_size chats)
              (pause_batch (sync_batch w turns session (take batch_size chats) (s, count)))
              (IsSound-same w (sync_batch w turns session (take batch_size chats) (s, count)).0
                (pause_batch (sync_batch w turns session (take batch_size chats) (s, count))).0 refl
                refl refl done))
      ]

pub handle_session_chats_synced-IsSound :
    (w : World) (turns : ℕ → List Turn) (openwa_id : Str) (chats : List Chat) (s : Store)
    → IsGenerator w
    → IsSound w s
    → IsSound w (handle_session_chats_synced w turns openwa_id chats s)
unfolding handle_session_chats_synced
handle_session_chats_synced-IsSound w turns openwa_id chats s g v =
    elim (Option-cases (session_of openwa_id s)) [
      | inl e ↦ rw (e, handle_session_chats_synced) v
      | inr (session, e) ↦
          rw (e, handle_session_chats_synced)
            (IsSound-same w (sync_batches (length chats) w turns session chats (s, 0)).0
              (emit
                (session_sync_complete session.tenant_id openwa_id
                  (sync_batches (length chats) w turns session chats (s, 0)).1)
                (sync_batches (length chats) w turns session chats (s, 0)).0)
              refl refl refl (sync_batches-IsSound w g session turns (length chats) chats (s, 0) v))
    ]
