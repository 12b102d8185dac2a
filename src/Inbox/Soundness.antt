-- ===== src/Inbox/Soundness.antt =====
-- What the handlers of backend/src/webhooks/webhooks.processor.ts keep of the conversations and
-- of the messages.
pub mod Chats
pub mod Messages
pub mod Acks
pub mod Process
use notifymain_wa.Prelude.{
  ℕ, suc, ◌≤◌, ◌≡◌, ◌≢◌, refl, sym, ap, ◌∙◌, inl, inr, Bool, true, false, Option, none, some, List,
  [], ◌∷◌, ◌++◌, arith, ==_ne, Bool-cases, Option-cases, find_first, update_where, count_where,
  count_where-append, count_where-update_where,
}
use notifymain_wa.Text.{Str, str_eq}
use notifymain_wa.Text.Laws.{str_eq_refl}
use notifymain_wa.Campaigns.Data.{Conversation, Session, Message, Store, Event}
use notifymain_wa.Campaigns.Actions.{World}
use notifymain_wa.Campaigns.Requests.Consistency.{IsGenerator}
use notifymain_wa.Inbox.Threads.{has_key, reattach_orphan, upsert}
use notifymain_wa.Inbox.Threads.Keys.{
  is_row, IsThreaded, reattach_orphan-IsThreaded, upsert-IsThreaded, reattach_orphan-ids,
  upsert-ids,
}
use notifymain_wa.Inbox.Acks.{has_external_id}

-- The conversations are threaded, their ids are not generated again, and no two messages have one
-- external id.
pub record IsSound (w : World) (s : Store) : Type 0 where
  pub threaded : IsThreaded s.conversations
  pub fresh : (k : ℕ) → s.draws ≤ k → count_where (is_row (w.new_id k)) s.conversations ≡ 0
  pub once : (id : Str) → id ≢ [] → count_where (has_external_id id) s.messages ≤ 1

-- The next store differs in other tables.
pub IsSound-same :
    (w : World) (s s' : Store)
    → s'.conversations ≡ s.conversations
    → s'.messages ≡ s.messages
    → s'.draws ≡ s.draws
    → IsSound w s
    → IsSound w s'
IsSound-same w s s' c m d v = record {
  threaded = rw c v.threaded;
  fresh = λ k h. rw c (v.fresh k (rw d at h));
  once = λ id h. rw m (v.once id h);
}

-- A write of messages that keeps their external ids.
pub IsSound-messages :
    (w : World) (s : Store) (p : Message → Bool) (f : Message → Message)
    → ((m : Message) → (f m).external_id ≡ m.external_id)
    → IsSound w s
    → IsSound w (record s { messages = update_where p f s.messages })
IsSound-messages w s p f same v = record {
  threaded = v.threaded;
  fresh = v.fresh;
  once = λ id h.
      rw
        (count_where-update_where (has_external_id id) p f s.messages
          (λ m. ap (λ e. elim e [ none ↦ false | some other ↦ str_eq other id ]) (same m)))
        (v.once id h);
}

-- The conversations after `reattachOrphan` and `upsert`.
module _ (w : World) (g : IsGenerator w) (t session : ℕ) (phone : Str) (table : List Conversation)
    (draws draws' : ℕ) (grows : suc (suc draws) ≤ draws') (threaded : IsThreaded table)
    (unused : (k : ℕ) → draws ≤ k → count_where (is_row (w.new_id k)) table ≡ 0)
    (change : Conversation → Conversation) (fresh : Conversation)
    (same_id : (c : Conversation) → (change c).id ≡ c.id)
    (same_key : (a b : ℕ) (n : Str) (c : Conversation) → has_key a b n (change c) ≡ has_key a b n c)
    (own_id : fresh.id ≡ w.new_id (suc draws))
    (own_key : has_key t session phone fresh ≡ true) where
  attached : List Conversation
  attached = reattach_orphan t session phone table

  still_unused : (k : ℕ) → draws ≤ k → count_where (is_row (w.new_id k)) attached ≡ 0
  unfolding attached
  still_unused k h =
      ground (arith, unused k h, reattach_orphan-ids t session phone table threaded (w.new_id k))

  pub written-IsThreaded :
      IsThreaded (upsert t session phone change fresh (reattach_orphan t session phone table)).0
  unfolding attached
  written-IsThreaded =
      upsert-IsThreaded t session phone attached
        (reattach_orphan-IsThreaded t session phone table threaded) change fresh same_id same_key
        (rw own_id (still_unused (suc draws) (omega arith))) own_key

  pub written-fresh :
      (k : ℕ)
      → draws' ≤ k
      → count_where
          (is_row (w.new_id k))
          (upsert t session phone change fresh (reattach_orphan t session phone table)).0
        ≡ 0
  unfolding attached
  written-fresh k h =
      upsert-ids t session phone attached
        (reattach_orphan-IsThreaded t session phone table threaded) change fresh (w.new_id k)
        same_id
        (rw own_id (
          ==_ne (w.new_id (suc draws)) (w.new_id k)
            (λ e. let same : suc draws ≡ k = g (suc draws) k e in absurd (omega arith))))
      ∙ still_unused k (omega arith)
