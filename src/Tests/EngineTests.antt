-- ===== src/Tests/EngineTests.antt =====
-- The sessions of the engine, at one session that has an engine.
use notifymain_wa.Prelude.{
  ◌≡◌, refl, true, false, none, some, [], ◌∷◌, any, arith, ◌+◌, ◌-◌, min, length, find_first,
}
use notifymain_wa.Text.{codes}
use notifymain_wa.Engine.Data.{
  SessionStatus, Session, ReconnectState, Timer, Service, on_ready, Outside,
}
use notifymain_wa.Engine.Sessions.{stop, run_out, step}
use notifymain_wa.Engine.Phases.{running}
use notifymain_wa.Engine.Reconnect.{is_timer}
use notifymain_wa.Engine.Timers.{is_timer_of, stop-quiet}
use notifymain_wa.Engine.Disconnects.{
  disconnect, disconnects, next_timer, disconnects-timers, stop-leaves_timer,
}

abbrev bot : Session
bot = record {
  id = 3;
  name = codes "bot";
  status = SessionStatus.ready;
  phone = none;
  push_name = none;
  max_reconnect_attempts = none;
  reconnect_base_delay = none;
  proxy_url = none;
  proxy_type = none;
  connected_at = none;
  last_active_at = none;
}

-- The engines become ready at once, and never throw.
abbrev outside : Outside
outside = record {
  now = λ n. n;
  new_id = λ n. n;
  jitter = λ n. 0;
  initialize = λ n session. (on_ready (codes "91") (codes "Bot") ∷ [], true);
  destroy_throws = λ n engine. false;
  disconnect_throws = λ n engine. false;
  message_hook = λ n message. some message;
}

abbrev untried : ReconnectState
untried = record { attempts = 0; timer = none; max_attempts = 5; base_delay = 5000 }

abbrev waiting : Timer
waiting = record { id = 4; session_id = 3; session = bot; delay = 5000 }

abbrev live : Service
live = record {
  rows = bot ∷ [];
  engines = (3, 0) ∷ [];
  reconnect_states = (3, untried) ∷ [];
  timers = [];
  hooks = [];
  statuses = [];
  dispatched = [];
  draws = 1;
}

abbrev lost : Service
lost = record live {
  reconnect_states = (3, record untried { attempts = 1; timer = some 4 }) ∷ [];
  timers = waiting ∷ [];
  draws = 5;
}

-- Eight disconnects, of which five set a timer.
disconnects-timers_example :
    length (disconnects outside 3 bot (codes "lost") 8 live).timers
    ≡ length live.timers + min 8 (untried.max_attempts - untried.attempts)
disconnects-timers_example = disconnects-timers outside 3 bot (codes "lost") 8 live untried refl

five_timers : length (disconnects outside 3 bot (codes "lost") 8 live).timers ≡ 5
unfolding disconnects step
five_timers = refl

stop-quiet_example : any (is_timer_of 3) (stop outside 3 lost).1.timers ≡ false
stop-quiet_example = stop-quiet outside 3 lost refl (λ h. refl, tt)

abbrev stopped : Service
stopped =
    (stop outside 3
      (disconnect outside 3 bot (codes "lost") (disconnect outside 3 bot (codes "lost") live))).1

stop-leaves_timer_example :
    (running 3 stopped ≡ false)
    × (any (is_timer 2) stopped.timers ≡ false)
    × (find_first (is_timer 1) stopped.timers ≡ some (next_timer outside 3 bot untried 1))
    × (running 3 (run_out outside 1 stopped) ≡ true)
stop-leaves_timer_example =
    stop-leaves_timer outside 3 bot (codes "lost") live untried refl refl (omega arith) tt
      (λ n engine. refl)
