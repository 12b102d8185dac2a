-- ===== src/Inbox/Links.antt =====
-- `handleSessionConnected`, `handleSessionDisconnected` and `handleSessionSyncStart` of
-- backend/src/webhooks/webhooks.processor.ts.
use notifymain_wa.Prelude.{
  ℕ, Bool, Option, none, some, [], ◌∷◌, ◌++◌, if◌then◌else◌, find_first, update_where, any,
}
use notifymain_wa.Text.{Str, str_eq}
use notifymain_wa.Campaigns.Data.{
  SessionStatus, connected, disconnected, Session, Event, session_status, session_syncing, Store,
}

abbrev pub has_openwa_id : Str → Session → Bool
has_openwa_id openwa_id c = str_eq c.openwa_id openwa_id

-- `prisma.session.findFirst({ where: { openwaId } })`
abbrev pub session_of : Str → Store → Option Session
session_of openwa_id s = find_first (has_openwa_id openwa_id) s.sessions

abbrev pub emit : Event → Store → Store
emit e s = record s { events = s.events ++ e ∷ [] }

abbrev pub update_sessions : Str → (Session → Session) → Store → Store
update_sessions openwa_id f s = record s {
  sessions = update_where (has_openwa_id openwa_id) f s.sessions;
}

abbrev pub set_connected : ℕ → Option Str → Session → Session
set_connected at phone c = record c {
  status = connected;
  last_seen_at = some at;
  phone_number = phone;
}

abbrev pub set_disconnected : ℕ → Session → Session
set_disconnected at c = record c { status = disconnected; last_seen_at = some at }

-- The status that the tenant is told, where there is a session.
abbrev pub announce : Str → SessionStatus → Store → Store
announce openwa_id status s = elim (session_of openwa_id s) [
  | none ↦ s
  | some c ↦ emit (session_status c.tenant_id openwa_id status) s
]

-- Where no row is written, the event is only logged; then `announce` finds none either.
unfoldable pub handle_session_connected : Str → ℕ → Option Str → Store → Store
handle_session_connected openwa_id at phone s =
    if any (has_openwa_id openwa_id) s.sessions
    then announce openwa_id connected (update_sessions openwa_id (set_connected at phone) s)
    else update_sessions openwa_id (set_connected at phone) s

unfoldable pub handle_session_disconnected : Str → ℕ → Store → Store
handle_session_disconnected openwa_id at s =
    announce openwa_id disconnected (update_sessions openwa_id (set_disconnected at) s)

unfoldable pub handle_session_sync_start : Str → Store → Store
handle_session_sync_start openwa_id s = elim (session_of openwa_id s) [
  | none ↦ s
  | some c ↦ emit (session_syncing c.tenant_id openwa_id) s
]
