-- ===== src/Inbox/Messages/Repetition.antt =====
-- An event that the queue delivers again.
use notifymain_wa.Prelude.{
  ◌≡◌, refl, ap, ◌⊎◌, inl, inr, Bool, true, false, some, List, [], ◌∷◌, ◌++◌, or_else, is_empty,
  any, any-append, Bool-cases, Option-cases, arith,
}
use notifymain_wa.Text.{Str, codes, ends_with}
use notifymain_wa.Text.Laws.{str_eq_refl}
use notifymain_wa.Campaigns.Data.{Message, Store}
use notifymain_wa.Campaigns.Actions.{World}
use notifymain_wa.Inbox.Links.{session_of}
use notifymain_wa.Inbox.Acks.{has_external_id}
use notifymain_wa.Inbox.Messages.{
  SaveMedia, MessageEvent, first_of, is_duplicate, store_received, store_outgoing,
  handle_message_received, handle_message_outgoing,
}

any-snoc :
    (p : Message → Bool) (table : List Message) {m : Message}
    → p m ≡ true
    → any p (table ++ m ∷ []) ≡ true
any-snoc p table {m} h = rw (any-append p table (m ∷ []), h) (ground arith)

module _ (w : World) (save : SaveMedia) (e : MessageEvent) where
  handle_message_received-stored :
      (s : Store)
      → is_duplicate (first_of e.payload.external_id e.payload.id) s ≡ true
      → handle_message_received w save e s ≡ s
  unfolding handle_message_received
  handle_message_received-stored s stored = rw stored refl

  handle_message_received-change :
      (id : Str) (s : Store)
      → first_of e.payload.external_id e.payload.id ≡ some id
      → is_empty id ≡ false
      → (handle_message_received w save e s ≡ s)
        ⊎ (is_duplicate
              (first_of e.payload.external_id e.payload.id)
              (handle_message_received w save e s)
            ≡ true)
  unfolding handle_message_received store_received
  handle_message_received-change id s named real =
      let from = or_else (first_of e.payload.from e.from) [] in
      elim (Bool-cases (is_duplicate (first_of e.payload.external_id e.payload.id) s)) [
        | inl stored ↦ inl (handle_message_received-stored s stored)
        | inr new ↦ elim (Option-cases (session_of e.session_id s)) [
          | inl none_of ↦ inl (rw (new, none_of) refl)
          | inr (session, found) ↦ elim (Bool-cases (ends_with from (codes "@newsletter"))) [
            | inl skip ↦ inl (rw (new, found, skip) refl)
            | inr other ↦ inr (
                rw (new, found, other, named, real)
                  (any-snoc (has_external_id id) s.messages (str_eq_refl id)))
          ]
        ]
      ]

  -- A received message with an external id that is not empty is processed once: where the same event
  -- is processed again, nothing changes.
  pub handle_message_received-twice :
      (id : Str) (s : Store)
      → first_of e.payload.external_id e.payload.id ≡ some id
      → is_empty id ≡ false
      → handle_message_received w save e (handle_message_received w save e s)
        ≡ handle_message_received w save e s
  handle_message_received-twice id s named real =
      elim (handle_message_received-change id s named real) [
        | inl same ↦ ap (handle_message_received w save e) same
        | inr stored ↦ handle_message_received-stored (handle_message_received w save e s) stored
      ]

module _ (w : World) (save : SaveMedia) (e : MessageEvent) where
  handle_message_outgoing-stored :
      (s : Store)
      → is_duplicate (first_of e.payload.serialized_id e.payload.id) s ≡ true
      → handle_message_outgoing w save e s ≡ s
  unfolding handle_message_outgoing
  handle_message_outgoing-stored s stored = rw stored refl

  handle_message_outgoing-change :
      (id : Str) (s : Store)
      → first_of e.payload.serialized_id e.payload.id ≡ some id
      → is_empty id ≡ false
      → (handle_message_outgoing w save e s ≡ s)
        ⊎ (is_duplicate
              (first_of e.payload.serialized_id e.payload.id)
              (handle_message_outgoing w save e s)
            ≡ true)
  unfolding handle_message_outgoing store_outgoing
  handle_message_outgoing-change id s named real =
      elim (Bool-cases (is_duplicate (first_of e.payload.serialized_id e.payload.id) s)) [
        | inl stored ↦ inl (handle_message_outgoing-stored s stored)
        | inr new ↦ elim (Option-cases (session_of e.session_id s)) [
          | inl none_of ↦ inl (rw (new, none_of) refl)
          | inr (session, found) ↦ inr (
              rw (new, found, named, real)
                (any-snoc (has_external_id id) s.messages (str_eq_refl id)))
        ]
      ]

  -- An outgoing message with an external id that is not empty is processed once: where the same event
  -- is processed again, nothing changes.
  pub handle_message_outgoing-twice :
      (id : Str) (s : Store)
      → first_of e.payload.serialized_id e.payload.id ≡ some id
      → is_empty id ≡ false
      → handle_message_outgoing w save e (handle_message_outgoing w save e s)
        ≡ handle_message_outgoing w save e s
  handle_message_outgoing-twice id s named real =
      elim (handle_message_outgoing-change id s named real) [
        | inl same ↦ ap (handle_message_outgoing w save e) same
        | inr stored ↦ handle_message_outgoing-stored (handle_message_outgoing w save e s) stored
      ]
