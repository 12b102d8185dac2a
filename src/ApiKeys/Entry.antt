-- ===== src/ApiKeys/Entry.antt =====
-- Who may enter with a key.
use notifymain_wa.Prelude.{
  ℕ, ◌≤◌, ◌≡◌, ◌↔◌, refl, sym, ap, ◌∙◌, inl, inr, Bool, true, false, not, Option, none, some, List,
  [], ◌∷◌, ◌==◌, if◌then◌else◌, is_empty, arith, Bool-cases, Option-cases, find_first, leb, length,
  update_where,
}
use notifymain_wa.Text.{Str}
use notifymain_wa.ApiKeys.Addresses.{
  is_ip_allowed, split, ip_to_number, signed, parse_int, in_range, in_parts,
}
use notifymain_wa.ApiKeys.{
  ApiKeyRole, ApiKey, KeyError, KeyAnswer, revoked, expired, ip_not_allowed, session_not_allowed,
  has_hash, is_expired, passes, includes, used, check_key, validate_api_key, accepted, unauthorized,
  rank,
}
use notifymain_wa.ApiKeys.Access.{
  HttpRequest, Entrance, extract_api_key, session_of, get_client_ip, check_role, entered,
  can_activate, enter_with,
}

-- A list that is there restricts what is there to be tested.
abbrev pub Restricts : (Str → List Str → Bool) → Option (List Str) → Option Str → Type 0
Restricts allowed list value =
    (entries : List Str) (v : Str)
    → list ≡ some entries
    → value ≡ some v
    → is_empty entries ≡ false
    → is_empty v ≡ false
    → allowed v entries ≡ true

pub record MayUse (now : ℕ) (ip session : Option Str) (k : ApiKey) : Type 0 where
  pub active : k.is_active ≡ true
  pub current : (at : ℕ) → k.expires_at ≡ some at → now ≤ at
  pub from_ip : Restricts is_ip_allowed k.allowed_ips ip
  pub for_session : Restricts includes k.allowed_sessions session

passes→Restricts :
    (allowed : Str → List Str → Bool) (list : Option (List Str)) (value : Option Str)
    → passes allowed list value ≡ true
    → Restricts allowed list value
passes→Restricts allowed none value h entries v e f g i = cc
passes→Restricts allowed (some list) none h entries v e f g i = cc
passes→Restricts allowed (some list) (some value) h entries v e f g i =
    let same : list ≡ entries = cc in
    let same_value : value ≡ v = cc in
    let full : is_empty list ≡ false = rw same g in
    let given : is_empty value ≡ false = rw same_value i in
    rw (sym same, sym same_value) (rw (full, given) at h)

Restricts→passes :
    (allowed : Str → List Str → Bool) (list : Option (List Str)) (value : Option Str)
    → Restricts allowed list value
    → passes allowed list value ≡ true
Restricts→passes allowed none value h = refl
Restricts→passes allowed (some list) none h = refl
Restricts→passes allowed (some list) (some value) h = elim (Bool-cases (is_empty list)) [
  | inl e ↦ rw e refl
  | inr e ↦ elim (Bool-cases (is_empty value)) [
    | inl f ↦ rw (e, f) refl
    | inr f ↦ rw (e, f) (h list value refl refl e f)
  ]
]

unexpired→le :
    (now : ℕ) (k : ApiKey) → is_expired now k ≡ false → (at : ℕ) → k.expires_at ≡ some at → now ≤ at
unexpired→le now k h at e = let late = rw e at h in ground arith

le→unexpired :
    (now : ℕ) (k : ApiKey)
    → ((at : ℕ) → k.expires_at ≡ some at → now ≤ at)
    → is_expired now k ≡ false
le→unexpired now k h = elim (Option-cases k.expires_at) [
  | inl e ↦ rw e refl
  | inr (at, e) ↦ let le = h at e in rw e (ground arith)
]

no_error :
    (a b c d : Bool)
    → (if not a
        then some revoked
        else if b
        then some expired
        else if not c
        then some ip_not_allowed
        else if not d
        then some session_not_allowed
        else none)
      ≡ none
    → (a ≡ true) × (b ≡ false) × (c ≡ true) × (d ≡ true)
no_error true false true true h = (refl, refl, refl, refl)
no_error true false true false h = cc
no_error true false false d h = cc
no_error true true c d h = cc
no_error false b c d h = cc

check_key_iff :
    (now : ℕ) (ip session : Option Str) (k : ApiKey)
    → (check_key now ip session k ≡ none) ↔ MayUse now ip session k
unfolding check_key
check_key_iff now ip session k = (
  λ h.
      let passed =
        no_error k.is_active (is_expired now k) (passes is_ip_allowed k.allowed_ips ip)
          (passes includes k.allowed_sessions session) h in
      record {
        active = passed.0;
        current = unexpired→le now k passed.1;
        from_ip = passes→Restricts is_ip_allowed k.allowed_ips ip passed.2;
        for_session = passes→Restricts includes k.allowed_sessions session passed.3;
      },
  λ m.
      rw
        (
          m.active,
          le→unexpired now k m.current,
          Restricts→passes is_ip_allowed k.allowed_ips ip m.from_ip,
          Restricts→passes includes k.allowed_sessions session m.for_session,
        )
        refl,
)

-- The roles that suffice for a route.
abbrev pub Suffices : Option ApiKeyRole → ApiKey → Type 0
Suffices none k = Unit
Suffices (some required) k = rank required ≤ rank k.role

check_role_iff :
    (required : Option ApiKeyRole) (k k' : ApiKey)
    → k'.role ≡ k.role
    → (check_role required (accepted k') ≡ entered k') ↔ Suffices required k
check_role_iff none k k' e = (λ h. tt, λ h. refl)
check_role_iff (some required) k k' e = elim (Bool-cases (leb (rank required) (rank k'.role))) [
  | inl h ↦ (λ _. rw (sym e) (ground arith), λ _. rw h refl)
  | inr h ↦ (λ i. (let j = rw h at i in cc), λ i. absurd (let j = rw (sym e) at i in ground arith))
]

module _ (now : ℕ) (hash : Str → Str) (r : HttpRequest) (required : Option ApiKeyRole)
    (table : List ApiKey) (raw : Str) (k : ApiKey) where
  -- The table with the use of the key counted.
  abbrev pub used_table : List ApiKey
  used_table = update_where (has_hash (hash raw)) (used now) table

  answer-used :
      find_first (has_hash (hash raw)) table ≡ some k
      → check_key now (some (get_client_ip r)) (session_of r) k ≡ none
      → validate_api_key now (hash raw) (some (get_client_ip r)) (session_of r) table
        ≡ (accepted (used now k), used_table)
  unfolding validate_api_key
  answer-used found e = rw (found, validate_api_key, e) refl

  answer-refused :
      (err : KeyError)
      → find_first (has_hash (hash raw)) table ≡ some k
      → check_key now (some (get_client_ip r)) (session_of r) k ≡ some err
      → validate_api_key now (hash raw) (some (get_client_ip r)) (session_of r) table
        ≡ (unauthorized err, table)
  unfolding validate_api_key
  answer-refused err found e = rw (found, validate_api_key, e) refl

  abbrev with_role : KeyAnswer × List ApiKey → Entrance × List ApiKey
  with_role (answer, table') = (check_role required answer, table')

  entered-with :
      extract_api_key r ≡ some raw
      → is_empty raw ≡ false
      → can_activate now hash r false required table
        ≡ with_role (validate_api_key now (hash raw) (some (get_client_ip r)) (session_of r) table)
  unfolding can_activate enter_with
  entered-with given real = rw (given, enter_with, real) refl

  -- At a route that is not public, a request with a key that is stored enters with that key, exactly
  -- when the key is active and not expired; its list of addresses, where it has entries and the
  -- address of the client is not empty, allows that address; its list of sessions, where it has
  -- entries and the route names a session, has that session; and its role is not below the required
  -- one. Where the first three hold, the use of the key is counted in the table, whatever its
  -- role; where one of them does not, the table stays as it is.
  pub can_activate_iff :
      extract_api_key r ≡ some raw
      → is_empty raw ≡ false
      → find_first (has_hash (hash raw)) table ≡ some k
      → (((can_activate now hash r false required table).0 ≡ entered (used now k))
          ↔ (MayUse now (some (get_client_ip r)) (session_of r) k × Suffices required k))
        × (MayUse now (some (get_client_ip r)) (session_of r) k
            → (can_activate now hash r false required table).1 ≡ used_table)
        × (¬ MayUse now (some (get_client_ip r)) (session_of r) k
            → (can_activate now hash r false required table).1 ≡ table)
  can_activate_iff given real found =
      let check = check_key now (some (get_client_ip r)) (session_of r) k in
      let may = check_key_iff now (some (get_client_ip r)) (session_of r) k in
      let start = entered-with given real in
      elim (Option-cases check) [
        | inl e ↦
            let all_same = start ∙ ap with_role (answer-used found e) in
            let same = ap (λ (p : Entrance × List ApiKey). p.0) all_same in
            (
              (
                λ h. (may.0 e, (check_role_iff required k (used now k) refl).0 (sym same ∙ h)),
                λ m. same ∙ (check_role_iff required k (used now k) refl).1 m.1,
              ),
              λ m. ap (λ (p : Entrance × List ApiKey). p.1) all_same,
              λ no_use. absurd (no_use (may.0 e)),
            )
        | inr (err, e) ↦
            let all_same = start ∙ ap with_role (answer-refused err found e) in
            let same = ap (λ (p : Entrance × List ApiKey). p.0) all_same in
            (
              (λ h. let i = sym same ∙ h in cc, λ m. let i = sym e ∙ may.1 m.0 in cc),
              λ m. let i = sym e ∙ may.1 m in cc,
              λ no_use. ap (λ (p : Entrance × List ApiKey). p.1) all_same,
            )
      ]

-- A range whose address has not four parts between dots, as that of an IPv6 range, contains every
-- client address that has not four such parts either, where the number of its bits is at most 32.
pub ip_in_cidr-not_ipv4 :
    (ip range bits : Str) (n : ℕ)
    → (length (split b'.' ip) == 4) ≡ false
    → (length (split b'.' range) == 4) ≡ false
    → parse_int bits ≡ signed false n
    → n ≤ 32
    → in_parts ip (range ∷ bits ∷ []) ≡ true
unfolding in_parts in_range ip_to_number
ip_in_cidr-not_ipv4 ip range bits n h k e le = rw (e, in_range, h, k) (ground arith)
