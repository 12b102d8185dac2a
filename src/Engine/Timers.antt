-- ===== src/Engine/Timers.antt =====
-- The timers of src/modules/session/session.service.ts that `stop` cancels, and those it does not.
use notifymain_wa.Prelude.{
  ℕ, suc, ◌≡◌, refl, ap, ◌∙◌, inl, inr, Bool, true, false, not, Option, none, some, List, [], ◌∷◌,
  ◌==◌, All, arith, Bool-cases, Option-cases, find_first, keep, any, lookup, delete_entry,
}
use notifymain_wa.Engine.Data.{Session, ReconnectState, Timer, Service, Outside, disconnected}
use notifymain_wa.Engine.Reconnect.{is_session, is_timer, update_status, cancel_reconnect}
use notifymain_wa.Engine.Sessions.{find_one, answer, stop}
use notifymain_wa.Engine.Phases.{known}

abbrev pub is_timer_of : ℕ → Timer → Bool
is_timer_of id t = t.session_id == id

-- The timer that the state of the reconnection holds.
abbrev pub is_held_by : Option ReconnectState → Timer → Bool
is_held_by none t = false
is_held_by (some state) t = elim state.timer [ none ↦ false | some held ↦ is_timer held t ]

pub unknown-find_one :
    (id : ℕ) (rows : List Session)
    → find_first (is_session id) rows ≡ none
    → any (is_session id) rows ≡ false
unknown-find_one id [] e = refl
unknown-find_one id (c ∷ rows) e = ground (arith, unknown-find_one id rows)

answer-timers : (id : ℕ) (s : Service) → (answer id s).1.timers ≡ s.timers
unfolding answer
answer-timers id s = elim (Option-cases (find_one id s)) [
  | inl e ↦ rw (e, answer) refl
  | inr (c, e) ↦ rw (e, answer) refl
]

-- `stop` cancels the reconnection and sets no timer.
pub stop-timers :
    (w : Outside) (id : ℕ) (s : Service)
    → known id s ≡ true
    → (stop w id s).1.timers ≡ (cancel_reconnect id s).timers
unfolding stop update_status find_one
stop-timers w id s k = elim (Option-cases (find_one id s)) [
  | inl e ↦ let un = unknown-find_one id s.rows e in cc
  | inr (session, e) ↦ elim (Option-cases (lookup id s.engines)) [
    | inl f ↦
        rw (e, f, stop) (answer-timers id (update_status id disconnected (cancel_reconnect id s)))
    | inr (engine, f) ↦ elim (Bool-cases (w.disconnect_throws s.draws engine)) [
      | inl h ↦ rw (e, f, h, stop) refl
      | inr h ↦
          rw (e, f, h, stop)
            (answer-timers id (
              update_status id disconnected (record (cancel_reconnect id s) {
                engines = delete_entry id s.engines;
                draws = suc s.draws;
              })))
    ]
  ]
]

keep-unheld :
    (id held : ℕ) (timers : List Timer)
    → All (λ t. is_timer_of id t ≡ true → is_timer held t ≡ true) timers
    → any (is_timer_of id) (keep (λ t. not (is_timer held t)) timers) ≡ false
keep-unheld id held [] h = refl
keep-unheld id held (t ∷ timers) h = ground (arith, h.0, keep-unheld id held timers h.1)

none-held :
    (id : ℕ) (timers : List Timer)
    → All (λ t. is_timer_of id t ≡ true → false ≡ true) timers
    → any (is_timer_of id) timers ≡ false
none-held id [] h = refl
none-held id (t ∷ timers) h = ground (arith, h.0, none-held id timers h.1)

cancel-clears :
    (id : ℕ) (s : Service)
    → All
        (λ t. is_timer_of id t ≡ true → is_held_by (lookup id s.reconnect_states) t ≡ true)
        s.timers
    → any (is_timer_of id) (cancel_reconnect id s).timers ≡ false
unfolding cancel_reconnect
cancel-clears id s h = elim (Option-cases (lookup id s.reconnect_states)) [
  | inl e ↦ rw (e, cancel_reconnect) (none-held id s.timers (rw e at h))
  | inr (state, e) ↦ elim (Option-cases state.timer) [
    | inl f ↦ rw (e, f, cancel_reconnect) (none-held id s.timers (rw (e, f) at h))
    | inr (held, f) ↦ rw (e, f, cancel_reconnect) (keep-unheld id held s.timers (rw (e, f) at h))
  ]
]

-- After `stop` no timer can start the session again, where the only timer set for it was the one
-- that its state of the reconnection holds.
pub stop-quiet :
    (w : Outside) (id : ℕ) (s : Service)
    → known id s ≡ true
    → All
        (λ t. is_timer_of id t ≡ true → is_held_by (lookup id s.reconnect_states) t ≡ true)
        s.timers
    → any (is_timer_of id) (stop w id s).1.timers ≡ false
stop-quiet w id s k h = ap (any (is_timer_of id)) (stop-timers w id s k) ∙ cancel-clears id s h
