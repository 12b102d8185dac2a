-- ===== src/Inbox/Soundness/Messages.antt =====
-- A message of the engine keeps the conversations threaded, and is stored once.
use notifymain_wa.Prelude.{
  ℕ, suc, ◌≤◌, ◌≡◌, ◌≢◌, refl, sym, count_where-no, All-of_any, inl, inr, true, false, Option, none,
  some, [], ◌∷◌, ◌++◌, or_else, arith, any, Bool-cases, Option-cases, count_where,
  count_where-append, ==_refl,
}
use notifymain_wa.Text.{Str, codes, str_eq, ends_with}
use notifymain_wa.Text.Laws.{str_eq_refl, str_eq→≡}
use notifymain_wa.Campaigns.Data.{Session, Message, Store}
use notifymain_wa.Campaigns.Actions.{World}
use notifymain_wa.Campaigns.Requests.Consistency.{IsGenerator}
use notifymain_wa.Inbox.Addresses.{normalise_jid}
use notifymain_wa.Inbox.Threads.{has_key}
use notifymain_wa.Inbox.Links.{session_of}
use notifymain_wa.Inbox.Acks.{has_external_id}
use notifymain_wa.Inbox.Messages.{
  SaveMedia, MessagePayload, MessageEvent, extract_message_content, first_of, is_duplicate,
  match_contact, contact_id_of, resolved_name, on_inbound, on_outgoing, new_conversation,
  store_received, store_outgoing, handle_message_received, handle_message_outgoing,
  handle_message_decrypt_failed,
}
use notifymain_wa.Inbox.Chats.{trimmed}
use notifymain_wa.Inbox.Soundness.{IsSound, written-IsThreaded, written-fresh}

not_stored :
    (e : Option Str) (s : Store) (id : Str)
    → is_duplicate e s ≡ false
    → id ≢ []
    → (elim e [ none ↦ false | some other ↦ str_eq other id ]) ≡ true
    → any (has_external_id id) s.messages ≡ false
not_stored none s id new h hit = cc
not_stored (some []) s id new h hit = absurd (h (sym (str_eq→≡ [] id hit)))
not_stored (some (c ∷ cs)) s id new h hit = rw (sym (str_eq→≡ (c ∷ cs) id hit)) new

-- A message that is not stored yet adds the first row with its external id.
pub once-snoc :
    (s : Store) (m : Message)
    → is_duplicate m.external_id s ≡ false
    → ((id : Str) → id ≢ [] → count_where (has_external_id id) s.messages ≤ 1)
    → (id : Str) → id ≢ []
    → count_where (has_external_id id) (s.messages ++ m ∷ []) ≤ 1
once-snoc s m new once id h =
    rw (count_where-append (has_external_id id) s.messages (m ∷ []))
      (elim (Bool-cases (has_external_id id m)) [
        | inl hit ↦
            rw
              (count_where-no (has_external_id id) s.messages (
                All-of_any (has_external_id id) s.messages
                  (not_stored m.external_id s id new h hit)))
              (rw hit (omega arith))
        | inr miss ↦ ground (arith, once id h)
      ])

new_conversation-has_key :
    (id : ℕ) (session : Session) (phone : Str) (contact_id : Option ℕ) (name : Option Str)
    (unread now : ℕ) (body : Str)
    → has_key session.tenant_id session.id phone
        (new_conversation id session phone contact_id name unread now body)
      ≡ true
new_conversation-has_key id session phone contact_id name unread now body =
    ground (arith, ==_refl session.tenant_id, ==_refl session.id, str_eq_refl phone)

module _ (w : World) (save : SaveMedia) (g : IsGenerator w) (s : Store) (v : IsSound w s) where
  store_received-IsSound :
      (session : Session) (p : MessagePayload) (from : Str) (now : ℕ)
      → is_duplicate (first_of p.external_id p.id) s ≡ false
      → IsSound w (store_received w save session p from now s)
  unfolding store_received
  store_received-IsSound session p from now new =
      let content = extract_message_content save p session.tenant_id in
      let contact = match_contact session.tenant_id p.pn from s in
      let name = resolved_name contact (trimmed p.push_name) in
      let change = on_inbound now content.body (contact_id_of contact) name in
      let fresh =
        new_conversation (w.new_id (suc s.draws)) session (normalise_jid from)
          (contact_id_of contact) name 1 now content.body in
      let own =
        new_conversation-has_key (w.new_id (suc s.draws)) session (normalise_jid from)
          (contact_id_of contact) name 1 now content.body in
      record {
        threaded =
            written-IsThreaded w g session.tenant_id session.id (normalise_jid from) s.conversations
              s.draws (suc (suc (suc s.draws))) (omega arith) v.threaded v.fresh change fresh
              (λ c. refl) (λ a b n c. refl) refl own;
        fresh =
            written-fresh w g session.tenant_id session.id (normalise_jid from) s.conversations
              s.draws (suc (suc (suc s.draws))) (omega arith) v.threaded v.fresh change fresh
              (λ c. refl) (λ a b n c. refl) refl own;
        once = once-snoc s _ new v.once;
      }

  store_outgoing-IsSound :
      (session : Session) (p : MessagePayload) (external_id : Option Str) (now : ℕ)
      → is_duplicate external_id s ≡ false
      → IsSound w (store_outgoing w save session p external_id now s)
  unfolding store_outgoing
  store_outgoing-IsSound session p external_id now new =
      let to = normalise_jid (or_else p.to []) in
      let content = extract_message_content save p session.tenant_id in
      let contact_id = contact_id_of (match_contact session.tenant_id p.pn (or_else p.to []) s) in
      let change = on_outgoing now content.body contact_id in
      let fresh =
        new_conversation (w.new_id (suc s.draws)) session to contact_id none 0 now content.body in
      let own =
        new_conversation-has_key (w.new_id (suc s.draws)) session to contact_id none 0 now
          content.body in
      record {
        threaded =
            written-IsThreaded w g session.tenant_id session.id to s.conversations s.draws
              (suc (suc (suc s.draws))) (omega arith) v.threaded v.fresh change fresh (λ c. refl)
              (λ a b n c. refl) refl own;
        fresh =
            written-fresh w g session.tenant_id session.id to s.conversations s.draws
              (suc (suc (suc s.draws))) (omega arith) v.threaded v.fresh change fresh (λ c. refl)
              (λ a b n c. refl) refl own;
        once = once-snoc s _ new v.once;
      }

  pub handle_message_received-IsSound :
      (e : MessageEvent) → IsSound w (handle_message_received w save e s)
  unfolding handle_message_received
  handle_message_received-IsSound e =
      let p = e.payload in
      let from = or_else (first_of p.from e.from) [] in
      elim (Bool-cases (is_duplicate (first_of p.external_id p.id) s)) [
        | inl stored ↦ rw (stored, handle_message_received) v
        | inr new ↦ elim (Option-cases (session_of e.session_id s)) [
          | inl none_of ↦ rw (new, none_of, handle_message_received) v
          | inr (session, found) ↦ elim (Bool-cases (ends_with from (codes "@newsletter"))) [
            | inl skip ↦ rw (new, found, skip, handle_message_received) v
            | inr real ↦
                rw (new, found, real, handle_message_received)
                  (store_received-IsSound session p from
                    (or_else (first_of p.timestamp e.timestamp) (w.now s.draws)) new)
          ]
        ]
      ]

  pub handle_message_outgoing-IsSound :
      (e : MessageEvent) → IsSound w (handle_message_outgoing w save e s)
  unfolding handle_message_outgoing
  handle_message_outgoing-IsSound e =
      let p = e.payload in
      let external_id = first_of p.serialized_id p.id in
      elim (Bool-cases (is_duplicate external_id s)) [
        | inl stored ↦ rw (stored, handle_message_outgoing) v
        | inr new ↦ elim (Option-cases (session_of e.session_id s)) [
          | inl none_of ↦ rw (new, none_of, handle_message_outgoing) v
          | inr (session, found) ↦
              rw (new, found, handle_message_outgoing)
                (store_outgoing-IsSound session p external_id
                  (or_else (first_of p.timestamp e.timestamp) (w.now s.draws)) new)
        ]
      ]

  pub handle_message_decrypt_failed-IsSound :
      (e : MessageEvent) → IsSound w (handle_message_decrypt_failed e s)
  unfolding handle_message_decrypt_failed
  handle_message_decrypt_failed-IsSound e = elim (Option-cases (session_of e.session_id s)) [
    | inl none_of ↦ rw (none_of, handle_message_decrypt_failed) v
    | inr (session, found) ↦
        rw (found, handle_message_decrypt_failed)
          (record { threaded = v.threaded; fresh = v.fresh; once = v.once })
  ]
