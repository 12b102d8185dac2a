-- ===== src/Inbox/Acks/Arrival.antt =====
-- An acknowledgement that comes before its message is stored.
use notifymain_wa.Prelude.{
  ℕ, ◌≡◌, refl, inl, inr, Bool, true, List, [], ◌∷◌, ◌++◌, any, All, update_where, Bool-cases,
}
use notifymain_wa.Text.{Str}
use notifymain_wa.Campaigns.Data.{Message, Store}
use notifymain_wa.Inbox.Acks.{
  Ack, server, device, seen, error, message_status, has_external_id, stamp_message, try_ack,
}

abbrev pub is_stored : Str → Store → Bool
is_stored id s = any (has_external_id id) s.messages

-- The store after all the pauses, where no attempt finds the message.
abbrev pub after_pauses : (ℕ → Store → Store) → List ℕ → Store → Store
after_pauses others [] s = s
after_pauses others (delay ∷ delays) s =
    after_pauses others delays (others delay (record s { waits = s.waits ++ delay ∷ [] }))

-- Every message with the external id has the status of the acknowledgement.
abbrev pub IsStamped : Str → Ack → Store → Type 0
IsStamped id ack s =
    All (λ (m : Message). has_external_id id m ≡ true → m.status ≡ message_status ack) s.messages

stamp_message-status :
    (ack : Ack) (at : ℕ) (m : Message) → (stamp_message ack at m).status ≡ message_status ack
stamp_message-status server at m = refl
stamp_message-status device at m = refl
stamp_message-status seen at m = refl
stamp_message-status error at m = refl

stamp_messages-IsStamped :
    (id : Str) (ack : Ack) (at : ℕ) (table : List Message)
    → All
        (λ (m : Message). has_external_id id m ≡ true → m.status ≡ message_status ack)
        (update_where (has_external_id id) (stamp_message ack at) table)
stamp_messages-IsStamped id ack at [] = tt
stamp_messages-IsStamped id ack at (m ∷ table) = elim (Bool-cases (has_external_id id m)) [
  | inl e ↦ rw e (λ _. stamp_message-status ack at m, stamp_messages-IsStamped id ack at table)
  | inr e ↦ rw e (λ hit. cc, stamp_messages-IsStamped id ack at table)
]

module _ (id : Str) (ack : Ack) (at : ℕ) (others : ℕ → Store → Store) where
  -- Where the message is stored once all the pauses are over, the attempts find it, and then every
  -- message with the external id has the status of the acknowledgement, whatever status it had
  -- before.
  pub try_ack-arrives :
      (delays : List ℕ) (s : Store)
      → is_stored id (after_pauses others delays s) ≡ true
      → ((try_ack id ack at others delays s).0 ≡ true)
        × IsStamped id ack (try_ack id ack at others delays s).1
  unfolding try_ack
  try_ack-arrives [] s h = (h, stamp_messages-IsStamped id ack at s.messages)
  try_ack-arrives (delay ∷ delays) s h = elim (Bool-cases (is_stored id s)) [
    | inl e ↦ rw (e, try_ack) (refl, stamp_messages-IsStamped id ack at s.messages)
    | inr e ↦
        rw (e, try_ack)
          (try_ack-arrives delays (others delay (record s { waits = s.waits ++ delay ∷ [] })) h)
  ]
