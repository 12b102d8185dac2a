-- ===== src/ApiKeys.antt =====
-- src/modules/auth: the API keys of the engine, and the guard before its routes. A key is hashed by
-- a parameter.
pub mod Addresses
pub mod Access
pub mod Entry
use notifymain_wa.Prelude.{
  ℕ, suc, ◌+◌, Bool, true, false, not, ◌&&◌, Option, none, some, or_else, is_some, List, [], ◌∷◌,
  ◌++◌, ◌==◌, ltb, leb, if◌then◌else◌, is_empty, any, take, find_first, update_where, keep,
}
use notifymain_wa.Text.{Str, codes, str_eq}
use notifymain_wa.ApiKeys.Addresses.{is_ip_allowed}

pub data ApiKeyRole : Type 0 where
  admin operator viewer : ApiKeyRole

pub record ApiKey : Type 0 where
  pub id : ℕ
  pub name : Str
  pub key_hash : Str
  pub key_prefix : Str
  pub role : ApiKeyRole
  pub allowed_ips : Option (List Str)
  pub allowed_sessions : Option (List Str)
  pub is_active : Bool
  pub expires_at : Option ℕ
  pub last_used_at : Option ℕ
  pub usage_count : ℕ

pub record CreateApiKey : Type 0 where
  pub name : Str
  pub role : Option ApiKeyRole
  pub allowed_ips : Option (List Str)
  pub allowed_sessions : Option (List Str)
  pub expires_at : Option ℕ

-- What is not given stays; a list or a date may be given as null.
pub record UpdateApiKey : Type 0 where
  pub name : Option Str
  pub role : Option ApiKeyRole
  pub allowed_ips : Option (Option (List Str))
  pub allowed_sessions : Option (Option (List Str))
  pub expires_at : Option (Option ℕ)

pub data KeyError : Type 0 where
  invalid revoked expired ip_not_allowed session_not_allowed key_required insufficient : KeyError

pub data KeyAnswer : Type 0 where
  accepted : ApiKey → KeyAnswer
  unauthorized : KeyError → KeyAnswer

abbrev pub is_key : ℕ → ApiKey → Bool
is_key id k = k.id == id

abbrev pub has_hash : Str → ApiKey → Bool
has_hash hash k = str_eq k.key_hash hash

-- The row of a new key.
abbrev pub key_row : ℕ → Str → (raw hash : Str) → ApiKeyRole → ApiKey
key_row id name raw hash role = record {
  id = id;
  name = name;
  key_hash = hash;
  key_prefix = take 12 raw;
  role = role;
  allowed_ips = none;
  allowed_sessions = none;
  is_active = true;
  expires_at = none;
  last_used_at = none;
  usage_count = 0;
}

-- `raw` is the random key, and `hash` its hash.
unfoldable pub create_api_key :
    ℕ → (raw : Str) → (hash : Str → Str) → CreateApiKey → List ApiKey → ApiKey × List ApiKey
create_api_key id raw hash dto table =
    let row = record (key_row id dto.name raw (hash raw) (or_else dto.role operator)) {
      allowed_ips = dto.allowed_ips;
      allowed_sessions = dto.allowed_sessions;
      expires_at = dto.expires_at;
    } in
    (row, table ++ row ∷ [])

-- The first key, where there is none yet.
unfoldable pub on_module_init : ℕ → (raw : Str) → (hash : Str → Str) → List ApiKey → List ApiKey
on_module_init id raw hash [] = key_row id (codes "Default Admin Key") raw (hash raw) admin ∷ []
on_module_init id raw hash (k ∷ table) = k ∷ table

-- A name that is empty stays as well.
abbrev pub apply_update : UpdateApiKey → ApiKey → ApiKey
apply_update dto k = record k {
  name = elim dto.name [ none ↦ k.name | some n ↦ if is_empty n then k.name else n ];
  role = or_else dto.role k.role;
  allowed_ips = or_else dto.allowed_ips k.allowed_ips;
  allowed_sessions = or_else dto.allowed_sessions k.allowed_sessions;
  expires_at = or_else dto.expires_at k.expires_at;
}

-- `findOne` and `save`: none where the key is not found.
abbrev pub change_key : ℕ → (ApiKey → ApiKey) → List ApiKey → Option ApiKey × List ApiKey
change_key id f table = elim (find_first (is_key id) table) [
  | none ↦ (none, table)
  | some k ↦ (some (f k), update_where (is_key id) f table)
]

unfoldable pub update : ℕ → UpdateApiKey → List ApiKey → Option ApiKey × List ApiKey
update id dto table = change_key id (apply_update dto) table

unfoldable pub revoke : ℕ → List ApiKey → Option ApiKey × List ApiKey
revoke id table = change_key id (λ k. record k { is_active = false }) table

unfoldable pub delete : ℕ → List ApiKey → Bool × List ApiKey
delete id table = elim (find_first (is_key id) table) [
  | none ↦ (false, table)
  | some k ↦ (true, keep (λ other. not (is_key id other)) table)
]

abbrev pub is_expired : ℕ → ApiKey → Bool
is_expired now k = elim k.expires_at [ none ↦ false | some at ↦ ltb at now ]

-- A list that is empty or absent restricts nothing, nor does a list where nothing is to be tested.
abbrev pub passes : (Str → List Str → Bool) → Option (List Str) → Option Str → Bool
passes allowed none value = true
passes allowed (some entries) none = true
passes allowed (some entries) (some value) =
    if is_empty entries then true else if is_empty value then true else allowed value entries

abbrev pub includes : Str → List Str → Bool
includes value entries = any (λ e. str_eq e value) entries

abbrev pub used : ℕ → ApiKey → ApiKey
used now k = record k { last_used_at = some now; usage_count = suc k.usage_count }

-- The tests on a key that is found, in their order.
unfoldable pub check_key : ℕ → (ip session : Option Str) → ApiKey → Option KeyError
check_key now ip session k =
    if not k.is_active
    then some revoked
    else if is_expired now k
    then some expired
    else if not (passes is_ip_allowed k.allowed_ips ip)
    then some ip_not_allowed
    else if not (passes includes k.allowed_sessions session)
    then some session_not_allowed
    else none

unfoldable pub validate_api_key :
    (now : ℕ) (hash : Str) (ip session : Option Str) → List ApiKey → KeyAnswer × List ApiKey
unfolding check_key
validate_api_key now hash ip session table = elim (find_first (has_hash hash) table) [
  | none ↦ (unauthorized invalid, table)
  | some k ↦ elim (check_key now ip session k) [
    | some e ↦ (unauthorized e, table)
    | none ↦ (accepted (used now k), update_where (has_hash hash) (used now) table)
  ]
]

abbrev pub rank : ApiKeyRole → ℕ
rank viewer = 1
rank operator = 2
rank admin = 3

abbrev pub has_permission : ApiKey → ApiKeyRole → Bool
has_permission k required = leb (rank required) (rank k.role)
