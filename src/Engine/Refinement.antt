-- ===== src/Engine/Refinement.antt =====
-- The life of a session as an abstract machine, which src/modules/session/session.service.ts
-- implements.
use notifymain_wa.Prelude.{
  ℕ, ◌≡◌, refl, inl, inr, Bool, true, false, some, Option-cases, find_first,
}
use notifymain_wa.Engine.Data.{CreateSession, Timer, Service}
use notifymain_wa.Engine.Reconnect.{is_timer}
use notifymain_wa.Engine.Sessions.{
  find_one, answer, Command, shut_down, create_session, delete_session, start_session, stop_session,
  timer_runs_out,
}
use notifymain_wa.Engine.Phases.{Phase}

-- What a command may change of one session: nothing, or one of these.
pub data Moves (s : Service) : Command → ℕ → Phase → Phase → Type 0 where
  stays : (c : Command) (i : ℕ) (p : Phase) → Moves s c i p p
  creates :
      (dto : CreateSession) (i : ℕ) (r : Bool) → Moves s (create_session dto) i (false, r) (true, r)
  removes : (i : ℕ) (r : Bool) → Moves s (delete_session i) i (true, r) (false, false)
  starts : (i : ℕ) → Moves s (start_session i) i (true, false) (true, true)
  stops : (i : ℕ) → Moves s (stop_session i) i (true, true) (true, false)
  reconnects :
      (timer i : ℕ) (k : Bool) (t : Timer)
      → find_first (is_timer timer) s.timers ≡ some t
      → t.session_id ≡ i
      → Moves s (timer_runs_out timer) i (k, false) (k, true)
  shuts_down : (i : ℕ) (k : Bool) → Moves s shut_down i (k, true) (k, false)

pub answer-service : (id : ℕ) (s : Service) → (answer id s).1 ≡ s
unfolding answer
answer-service id s = elim (Option-cases (find_one id s)) [
  | inl e ↦ rw (answer, e) refl
  | inr (c, e) ↦ rw (answer, e) refl
]
