-- ===== src/Tests/KeyTests.antt =====
-- A key of the engine, and addresses.
use notifymain_wa.Prelude.{◌≡◌, ◌↔◌, refl, true, false, none, some, [], ◌∷◌, arith}
use notifymain_wa.Text.{codes, str_eq, is_digit, is_space, trim_start}
use notifymain_wa.ApiKeys.Addresses.{
  split, read_digits, unsigned, parse_int, number_of_parts, ip_to_number, in_range, in_parts,
  ip_in_cidr, is_entry, is_ip_allowed,
}
use notifymain_wa.ApiKeys.{ApiKeyRole, ApiKey, used}
use notifymain_wa.ApiKeys.Access.{HttpRequest, can_activate, entered, get_client_ip, session_of}
use notifymain_wa.ApiKeys.Entry.{MayUse, Suffices, can_activate_iff, ip_in_cidr-not_ipv4}

abbrev key : ApiKey
key = record {
  id = 1;
  name = codes "k";
  key_hash = codes "h";
  key_prefix = codes "owa_k1_";
  role = ApiKeyRole.operator;
  allowed_ips = some (codes "10.0.0.0/8" ∷ []);
  allowed_sessions = none;
  is_active = true;
  expires_at = none;
  last_used_at = none;
  usage_count = 0;
}

abbrev request : HttpRequest
request = record {
  x_api_key = some (codes "secret");
  authorization = none;
  session_param = none;
  id_param = none;
  forwarded_for = none;
  ip = some (codes "10.1.2.3");
  remote_address = none;
}

can_activate_iff_example :
    (((can_activate 5 (λ raw. codes "h") request false (some ApiKeyRole.viewer) (key ∷ [])).0
        ≡ entered (used 5 key))
      ↔ (MayUse 5 (some (get_client_ip request)) (session_of request) key
          × Suffices (some ApiKeyRole.viewer) key))
    × (MayUse 5 (some (get_client_ip request)) (session_of request) key
        → (can_activate 5 (λ raw. codes "h") request false (some ApiKeyRole.viewer) (key ∷ [])).1
          ≡ used 5 key ∷ [])
    × (¬ MayUse 5 (some (get_client_ip request)) (session_of request) key
        → (can_activate 5 (λ raw. codes "h") request false (some ApiKeyRole.viewer) (key ∷ [])).1
          ≡ key ∷ [])
unfolding str_eq
can_activate_iff_example =
    can_activate_iff 5 (λ raw. codes "h") request (some ApiKeyRole.viewer) (key ∷ [])
      (codes "secret") key refl refl refl

inside : is_ip_allowed (codes "10.1.2.3") (codes "10.0.0.0/8" ∷ []) ≡ true
unfolding is_ip_allowed is_entry ip_in_cidr in_parts in_range ip_to_number number_of_parts split
    parse_int unsigned read_digits trim_start is_digit is_space
inside = refl

outside : is_ip_allowed (codes "11.1.2.3") (codes "10.0.0.0/8" ∷ []) ≡ false
unfolding is_ip_allowed is_entry ip_in_cidr in_parts in_range ip_to_number number_of_parts split
    parse_int unsigned read_digits trim_start is_digit is_space
outside = refl

ip_in_cidr-not_ipv4_example : in_parts (codes "::1") (codes "2001:db8::" ∷ codes "32" ∷ []) ≡ true
unfolding split parse_int unsigned read_digits trim_start is_digit is_space
ip_in_cidr-not_ipv4_example =
    ip_in_cidr-not_ipv4 (codes "::1") (codes "2001:db8::") (codes "32") 32 refl refl refl
      (omega arith)
