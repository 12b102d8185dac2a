-- ===== src/Engine/Disconnects.antt =====
-- What disconnects in a row do to the timers of src/modules/session/session.service.ts.
use notifymain_wa.Prelude.{
  ℕ, zero, suc, ◌+◌, ◌-◌, ◌<◌, ◌≤◌, ◌≡◌, refl, ap, ◌∙◌, inl, inr, Bool, true, false, not, some,
  List, [], ◌∷◌, ◌++◌, ◌==◌, All, arith, Bool-cases, Option-cases, ==_refl, leb, find_first, keep,
  any, length, length-append, min, lookup, delete_entry, has_entry-delete_entry, lookup-set_entry,
}
use notifymain_wa.Text.{Str}
use notifymain_wa.Engine.Data.{
  Session, ReconnectState, Timer, Service, on_disconnected, Outside, disconnected,
}
use notifymain_wa.Engine.Reconnect.{
  is_session, is_timer, update_status, reconnect_delay, schedule_reconnect, cancel_reconnect,
  call_back,
}
use notifymain_wa.Engine.Sessions.{find_one, answer, stop, run_out}
use notifymain_wa.Engine.Phases.{
  Phase, known, running, call_back-phase, update_status-phase, cancel_reconnect-phase,
  execute_reconnect-phase,
}
use notifymain_wa.Engine.Refinement.{answer-service}
use notifymain_wa.Engine.Timers.{unknown-find_one, stop-timers}

abbrev pub next_timer : Outside → ℕ → Session → ReconnectState → ℕ → Timer
next_timer w id session state draws = record {
  id = draws;
  session_id = id;
  session = session;
  delay = reconnect_delay w state draws;
}

abbrev pub next_state : ReconnectState → ℕ → ReconnectState
next_state state draws = record state { attempts = suc state.attempts; timer = some draws }

module _ (w : Outside) (id : ℕ) (session : Session) (reason : Str) where
  abbrev pub disconnect : Service → Service
  disconnect s = call_back w id session (on_disconnected reason) s

  module _ (s : Service) (state : ReconnectState) (e : lookup id s.reconnect_states ≡ some state)
      (may : suc state.attempts ≤ state.max_attempts) where
    patient : leb state.max_attempts state.attempts ≡ false
    patient = ground arith

    pub disconnect-timers :
        (disconnect s).timers ≡ s.timers ++ next_timer w id session state s.draws ∷ []
    unfolding call_back schedule_reconnect update_status
    disconnect-timers = rw (e, schedule_reconnect, patient) refl

    pub disconnect-draws : (disconnect s).draws ≡ suc s.draws
    unfolding call_back schedule_reconnect update_status
    disconnect-draws = rw (e, schedule_reconnect, patient) refl

    pub disconnect-state :
        lookup id (disconnect s).reconnect_states ≡ some (next_state state s.draws)
    unfolding call_back schedule_reconnect update_status
    disconnect-state =
        rw (e, schedule_reconnect, patient)
          (lookup-set_entry id (next_state state s.draws) s.reconnect_states)

-- As many disconnects of one session in a row, without it being ready in between.
module _ (w : Outside) (id : ℕ) (session : Session) (reason : Str) where
  unfoldable pub disconnects : ℕ → Service → Service
  disconnects zero s = s
  disconnects (suc n) s = disconnects n (disconnect w id session reason s)

  -- Where no attempt is left, a disconnect sets no timer.
  module _ (s : Service) (state : ReconnectState) (e : lookup id s.reconnect_states ≡ some state)
      (spent : state.max_attempts ≤ state.attempts) where
    exhausted : leb state.max_attempts state.attempts ≡ true
    exhausted = ground arith

    spent-timers : (disconnect w id session reason s).timers ≡ s.timers
    unfolding call_back schedule_reconnect update_status
    spent-timers = rw (e, schedule_reconnect, exhausted) refl

    spent-state : lookup id (disconnect w id session reason s).reconnect_states ≡ some state
    unfolding call_back schedule_reconnect update_status
    spent-state = rw (e, schedule_reconnect, exhausted) e

  -- However often a session is disconnected in a row without becoming ready, the disconnects set one
  -- timer each as long as attempts are left, and none after that: in all as many as there are
  -- disconnects, or as there were attempts left if these are fewer.
  pub disconnects-timers :
      (n : ℕ) (s : Service) (state : ReconnectState)
      → lookup id s.reconnect_states ≡ some state
      → length (disconnects n s).timers
        ≡ length s.timers + min n (state.max_attempts - state.attempts)
  unfolding disconnects
  disconnects-timers zero s state e = omega arith
  disconnects-timers (suc n) s state e =
      let next = disconnect w id session reason s in
      elim (Bool-cases (leb state.max_attempts state.attempts)) [
        | inl spent ↦
            let over : state.max_attempts ≤ state.attempts = ground arith in
            let rest = disconnects-timers n next state (spent-state s state e over) in
            let same : length next.timers ≡ length s.timers =
              ap (length {A = Timer}) (spent-timers s state e over) in
            omega arith
        | inr left ↦
            let may : suc state.attempts ≤ state.max_attempts = ground arith in
            let rest =
              disconnects-timers n next (next_state state s.draws)
                (disconnect-state w id session reason s state e may) in
            let set : length next.timers ≡ suc (length s.timers) =
              ap (length {A = Timer}) (disconnect-timers w id session reason s state e may)
              ∙ length-append s.timers (next_timer w id session state s.draws ∷ [])
              ∙ omega arith in
            omega arith
      ]

find-kept :
    (id : ℕ) (q : Timer → Bool) (xs ys : List Timer) (t : Timer)
    → All (λ x. x.id < id) xs
    → t.id ≡ id
    → q t ≡ true
    → find_first (is_timer id) (keep q ((xs ++ t ∷ []) ++ ys)) ≡ some t
find-kept id q [] ys t h e k = rw (k, e, ==_refl id) refl
find-kept id q (x ∷ xs) ys t h e k =
    let older : (x.id == id) ≡ false = let lt = h.0 in ground arith in
    elim (Bool-cases (q x)) [
      | inl stays ↦ rw (stays, older) (find-kept id q xs ys t h.1 e k)
      | inr goes ↦ rw goes (find-kept id q xs ys t h.1 e k)
    ]

none-cleared :
    (id : ℕ) (ts : List Timer) → any (is_timer id) (keep (λ t. not (is_timer id t)) ts) ≡ false
none-cleared id [] = refl
none-cleared id (t ∷ ts) = ground (arith, none-cleared id ts)

cancel-timers :
    (id held : ℕ) (s : Service) (state : ReconnectState)
    → lookup id s.reconnect_states ≡ some state
    → state.timer ≡ some held
    → (cancel_reconnect id s).timers ≡ keep (λ t. not (is_timer held t)) s.timers
unfolding cancel_reconnect
cancel-timers id held s state e f = rw (e, cancel_reconnect, f) refl

-- Where the engines do not throw, `stop` leaves a known session without an engine.
stop-halts :
    (w : Outside) (id : ℕ) (s : Service)
    → ((n engine : ℕ) → w.disconnect_throws n engine ≡ false)
    → known id s ≡ true
    → running id (stop w id s).1 ≡ false
unfolding stop find_one answer
stop-halts w id s calm k = elim (Option-cases (find_first (is_session id) s.rows)) [
  | inl e ↦ let un = unknown-find_one id s.rows e in cc
  | inr (session, e) ↦ elim (Option-cases (lookup id s.engines)) [
    | inl f ↦
        rw (e, f, stop)
          (ap (running id)
              (answer-service id (update_status id disconnected (cancel_reconnect id s)))
            ∙ ap (λ (p : Phase). p.1)
                (update_status-phase id id disconnected (cancel_reconnect id s)
                  ∙ cancel_reconnect-phase id id s)
            ∙ rw f refl)
    | inr (engine, f) ↦
        let halted = record (cancel_reconnect id s) {
          engines = delete_entry id s.engines;
          draws = suc s.draws;
        } in
        rw (e, f, calm s.draws engine, stop)
          (ap (running id) (answer-service id (update_status id disconnected halted))
            ∙ ap (λ (p : Phase). p.1) (update_status-phase id id disconnected halted)
            ∙ has_entry-delete_entry id id s.engines
            ∙ rw (==_refl id) refl)
  ]
]

-- Where a session is disconnected twice before the first timer runs out, `stop` clears the second
-- timer only: the session has no engine then, but the first timer is still set, and when it runs
-- out an engine is started for the stopped session. The conditions: the session is known and has
-- two attempts left, no timer has an id that is still to come, and the engines do not throw.
pub stop-leaves_timer :
    (w : Outside) (id : ℕ) (session : Session) (reason : Str) (s : Service) (state : ReconnectState)
    → known id s ≡ true
    → lookup id s.reconnect_states ≡ some state
    → suc (suc state.attempts) ≤ state.max_attempts
    → All (λ t. t.id < s.draws) s.timers
    → ((n engine : ℕ) → w.disconnect_throws n engine ≡ false)
    → let stopped =
        (stop w id (disconnect w id session reason (disconnect w id session reason s))).1 in
      (running id stopped ≡ false)
      × (any (is_timer (suc s.draws)) stopped.timers ≡ false)
      × (find_first (is_timer s.draws) stopped.timers
          ≡ some (next_timer w id session state s.draws))
      × (running id (run_out w s.draws stopped) ≡ true)
unfolding run_out
stop-leaves_timer w id session reason s state k e may older calm =
    let once = disconnect w id session reason s in
    let twice = disconnect w id session reason once in
    let first = next_state state s.draws in
    let second = next_state first once.draws in
    let e' : lookup id once.reconnect_states ≡ some first =
      disconnect-state w id session reason s state e (omega arith) in
    let held : lookup id twice.reconnect_states ≡ some second =
      disconnect-state w id session reason once first e' (omega arith) in
    let still_known : known id twice ≡ true =
      ap (λ (p : Phase). p.0) (call_back-phase w id id session (on_disconnected reason) once)
      ∙ ap (λ (p : Phase). p.0) (call_back-phase w id id session (on_disconnected reason) s)
      ∙ k in
    let timers : twice.timers
        ≡ (s.timers ++ next_timer w id session state s.draws ∷ [])
          ++ next_timer w id session first once.draws ∷ [] =
      disconnect-timers w id session reason once first e' (omega arith)
      ∙ ap (λ l. l ++ next_timer w id session first once.draws ∷ [])
          (disconnect-timers w id session reason s state e (omega arith)) in
    let second_id : once.draws ≡ suc s.draws =
      disconnect-draws w id session reason s state e (omega arith) in
    let other : not (is_timer once.draws (next_timer w id session state s.draws)) ≡ true =
      ap (λ d. not (s.draws == d)) (disconnect-draws w id session reason s state e (omega arith))
      ∙ ground arith in
    let every =
      (s.timers ++ next_timer w id session state s.draws ∷ [])
      ++ next_timer w id session first once.draws ∷ [] in
    let stopped = (stop w id twice).1 in
    let left : stopped.timers
        ≡ keep (λ t. not (is_timer once.draws t))
            ((s.timers ++ next_timer w id session state s.draws ∷ [])
              ++ next_timer w id session first once.draws ∷ []) =
      stop-timers w id twice still_known
      ∙ cancel-timers id once.draws twice second held refl
      ∙ ap (keep (λ t. not (is_timer once.draws t))) timers in
    let found : find_first (is_timer s.draws) stopped.timers
        ≡ some (next_timer w id session state s.draws) =
      ap (find_first (is_timer s.draws)) left
      ∙ find-kept s.draws (λ t. not (is_timer once.draws t)) s.timers
          (next_timer w id session first once.draws ∷ []) (next_timer w id session state s.draws)
          older refl other in
    let rest = record stopped { timers = keep (λ t. not (is_timer s.draws t)) stopped.timers } in
    (
      stop-halts w id twice calm still_known,
      ap (any (is_timer (suc s.draws)))
            (left ∙ ap (λ n. keep (λ t. not (is_timer n t)) every) second_id)
          ∙ none-cleared (suc s.draws) every,
      found,
      rw (found, run_out)
          (ap (λ (p : Phase). p.1) (execute_reconnect-phase w id id session rest)
            ∙ rw (==_refl id) refl),
    )
