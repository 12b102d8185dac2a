-- ===== src/Inbox/Chats/Counts.antt =====
-- How many conversations `handleSessionChatsSynced` reports.
use notifymain_wa.Prelude.{
  ℕ, zero, suc, ◌+◌, ◌≤◌, ◌≡◌, refl, inl, inr, Bool, true, false, List, [], ◌∷◌, take, drop,
  is_empty, arith, Bool-cases,
}
use notifymain_wa.Campaigns.Data.{Session, Store}
use notifymain_wa.Campaigns.Actions.{World}
use notifymain_wa.Inbox.Chats.{
  Chat, Turn, Running, Stage, orphans, row, over, next_stage, batch_size, is_skipped, write_chat,
  begin_batch, sync_chat, advance, finish_chats, take_turns, sync_batch, pause_batch, sync_batches,
}

-- What a chat can still add to the count.
unfoldable open_chat : Stage → ℕ
open_chat orphans = 1
open_chat row = 1
open_chat over = 0

unfoldable open_chats : List Running → ℕ
unfolding open_chat
open_chats [] = 0
open_chats (r ∷ running) = open_chat r.stage + open_chats running

-- The chats that are not skipped.
unfoldable pub real_chats : List Chat → ℕ
real_chats [] = 0
real_chats (chat ∷ chats) = elim (is_skipped chat.jid) [
  | true ↦ real_chats chats
  | false ↦ suc (real_chats chats)
]

module _ (w : World) (session : Session) where
  sync_chat-count :
      (chat : Chat) (now : ℕ) (stage : Stage) (acc : Store × ℕ)
      → (sync_chat w session (record { chat = chat; now = now; stage = stage }) acc).1
          + open_chat (next_stage stage)
        ≤ acc.1 + open_chat stage
  unfolding sync_chat open_chat
  sync_chat-count chat now orphans (s, count) = omega arith
  sync_chat-count chat now row (s, count) =
      elim (Bool-cases (write_chat (w.new_id s.draws) now session chat s.conversations).1) [
        | inl e ↦ rw e (omega arith)
        | inr e ↦ rw e (omega arith)
      ]
  sync_chat-count chat now over (s, count) = omega arith

  begin_batch-open :
      (chats : List Chat) (s : Store) → open_chats (begin_batch w chats s).0 ≡ real_chats chats
  unfolding begin_batch open_chats open_chat real_chats
  begin_batch-open [] s = refl
  begin_batch-open (chat ∷ chats) s = elim (Bool-cases (is_skipped chat.jid)) [
    | inl e ↦ rw (e, begin_batch, real_chats) (begin_batch-open chats s)
    | inr e ↦
        rw (e, begin_batch, real_chats)
          (let rest = begin_batch-open chats (record s { draws = suc s.draws }) in omega arith)
  ]

  advance-count :
      (position : ℕ) (fails : Bool) (running : List Running) (acc : Store × ℕ)
      → (advance w session position fails running acc).1.1
          + open_chats (advance w session position fails running acc).0
        ≤ acc.1 + open_chats running
  unfolding advance open_chats open_chat
  advance-count position fails [] acc = omega arith
  advance-count zero true (r ∷ running) acc = omega arith
  advance-count zero false (r ∷ running) acc =
      let step = sync_chat-count r.chat r.now r.stage acc in omega arith
  advance-count (suc position) fails (r ∷ running) acc =
      let rest = advance-count position fails running acc in omega arith

  finish_chats-count :
      (running : List Running) (acc : Store × ℕ)
      → (finish_chats w session running acc).1 ≤ acc.1 + open_chats running
  unfolding finish_chats open_chats
  finish_chats-count [] acc = omega arith
  finish_chats-count (r ∷ running) acc =
      let first = sync_chat-count r.chat r.now r.stage acc in
      let second = sync_chat-count r.chat r.now (next_stage r.stage) (sync_chat w session r acc) in
      let rest = finish_chats-count running (
        sync_chat w session (record r { stage = next_stage r.stage })
          (sync_chat w session r acc)) in
      omega arith

  take_turns-count :
      (turns : List Turn) (running : List Running) (acc : Store × ℕ)
      → (take_turns w session turns running acc).1 ≤ acc.1 + open_chats running
  unfolding take_turns
  take_turns-count [] running acc = finish_chats-count running acc
  take_turns-count (turn ∷ turns) running acc =
      let next = advance w session turn.position turn.fails running acc in
      let step = advance-count turn.position turn.fails running acc in
      let rest = take_turns-count turns next.0 next.1 in omega arith

  sync_batch-count :
      (turns : ℕ → List Turn) (chats : List Chat) (acc : Store × ℕ)
      → (sync_batch w turns session chats acc).1 ≤ acc.1 + real_chats chats
  unfolding sync_batch
  sync_batch-count turns chats (s, count) =
      let begun = begin_batch w chats (record s { draws = suc s.draws }) in
      let rest = take_turns-count (turns s.draws) begun.0 (begun.1, count) in
      let started = begin_batch-open chats (record s { draws = suc s.draws }) in omega arith

  real_chats-split :
      (n : ℕ) (chats : List Chat)
      → real_chats (take n chats) + real_chats (drop n chats) ≡ real_chats chats
  unfolding real_chats
  real_chats-split zero chats = omega arith
  real_chats-split (suc n) [] = refl
  real_chats-split (suc n) (chat ∷ chats) = elim (Bool-cases (is_skipped chat.jid)) [
    | inl e ↦ rw (e, real_chats) (real_chats-split n chats)
    | inr e ↦ rw (e, real_chats) (let rest = real_chats-split n chats in omega arith)
  ]

  -- However the chats of the batches come further and fail, the count of the conversations grows
  -- by at most the number of the chats that are not skipped: no chat is counted twice.
  pub sync_batches-count :
      (turns : ℕ → List Turn) (fuel : ℕ) (chats : List Chat) (acc : Store × ℕ)
      → (sync_batches fuel w turns session chats acc).1 ≤ acc.1 + real_chats chats
  unfolding sync_batches
  sync_batches-count turns zero chats acc = omega arith
  sync_batches-count turns (suc fuel) chats (s, count) =
      let done = sync_batch w turns session (take batch_size chats) (s, count) in
      let first = sync_batch-count turns (take batch_size chats) (s, count) in
      let split = real_chats-split batch_size chats in
      elim (Bool-cases (is_empty (drop batch_size chats))) [
        | inl e ↦ rw e (omega arith)
        | inr e ↦ rw e (
            let rest = sync_batches-count turns fuel (drop batch_size chats) (pause_batch done) in
            omega arith)
      ]
