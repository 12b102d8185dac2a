-- ===== src/ApiKeys/Access.antt =====
-- src/modules/auth/guards/api-key.guard.ts. A header or parameter that is not sent is absent.
use notifymain_wa.Prelude.{
  ℕ, Bool, true, false, Option, none, some, or_else, List, [], if◌then◌else◌, is_empty, drop,
}
use notifymain_wa.Text.{Str, codes, trim, starts_with, before}
use notifymain_wa.ApiKeys.{
  ApiKeyRole, ApiKey, KeyError, key_required, insufficient, KeyAnswer, accepted, unauthorized,
  validate_api_key, has_permission,
}

pub record HttpRequest : Type 0 where
  pub x_api_key : Option Str
  pub authorization : Option Str
  pub session_param : Option Str
  pub id_param : Option Str
  pub forwarded_for : Option Str
  pub ip : Option Str
  pub remote_address : Option Str

-- `v || next`
abbrev pub or_next : Option Str → Option Str → Option Str
or_next none next = next
or_next (some v) next = if is_empty v then next else some v

abbrev pub bearer_key : Option Str → Option Str
bearer_key none = none
bearer_key (some header) =
    if starts_with header (codes "Bearer ") then some (drop 7 header) else none

abbrev pub extract_api_key : HttpRequest → Option Str
extract_api_key r = or_next r.x_api_key (bearer_key r.authorization)

abbrev pub session_of : HttpRequest → Option Str
session_of r = or_next r.session_param r.id_param

abbrev pub get_client_ip : HttpRequest → Str
get_client_ip r = elim (or_next r.forwarded_for none) [
  | some forwarded ↦ trim (before b',' forwarded)
  | none ↦ or_else (or_next r.ip (or_next r.remote_address none)) []
]

pub data Entrance : Type 0 where
  entered_public : Entrance
  entered : ApiKey → Entrance
  refused : KeyError → Entrance

-- The role that a route requires, if any.
abbrev pub check_role : Option ApiKeyRole → KeyAnswer → Entrance
check_role required (unauthorized e) = refused e
check_role none (accepted k) = entered k
check_role (some role) (accepted k) =
    if has_permission k role then entered k else refused insufficient

unfoldable pub enter_with :
    (now : ℕ)
    → (Str → Str)
    → HttpRequest
    → Option ApiKeyRole
    → Option Str
    → List ApiKey
    → Entrance × List ApiKey
unfolding validate_api_key
enter_with now hash r required none table = (refused key_required, table)
enter_with now hash r required (some raw) table =
    if is_empty raw
    then (refused key_required, table)
    else (let (answer, table') =
          validate_api_key now (hash raw) (some (get_client_ip r)) (session_of r) table in
        (check_role required answer, table'))

unfoldable pub can_activate :
    (now : ℕ)
    → (Str → Str)
    → HttpRequest
    → (is_public : Bool) → Option ApiKeyRole
    → List ApiKey
    → Entrance × List ApiKey
unfolding enter_with
can_activate now hash r true required table = (entered_public, table)
can_activate now hash r false required table =
    enter_with now hash r required (extract_api_key r) table
