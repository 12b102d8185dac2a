-- ===== src/Team/Losses.antt =====
-- How many members of a kind a write to one user of the team may take away.
use notifymain_wa.Prelude.{
  ℕ, ◌+◌, ◌≤◌, ◌≡◌, refl, inl, inr, Bool, true, false, ◌&&◌, some, List, [], ◌∷◌, ◌==◌, ==_iff,
  ==_refl, if◌then◌else◌, any, find_first, any-found, find_first-satisfies, update_where,
  count_where, count_where-update_where, arith, Bool-cases,
}
use notifymain_wa.Team.{Member, TeamStore, is_user, is_target}
use notifymain_wa.Team.Members.{is_owner, reports_to, without_manager, release}

-- No two users have the same id.
abbrev pub IsKeyed : List Member → Type 0
IsKeyed [] = Unit
IsKeyed (u ∷ us) = (any (is_user u.id) us ≡ false) × IsKeyed us

-- What an update may lose of a count: the rows it writes.
count_where-loss :
    (q p : Member → Bool) (f : Member → Member) (us : List Member)
    → count_where q us ≤ count_where q (update_where p f us) + count_where (λ u. p u && q u) us
count_where-loss q p f [] = omega arith
count_where-loss q p f (u ∷ us) = ground (arith, count_where-loss q p f us)

count_where-none :
    (id : ℕ) (q : Member → Bool) (us : List Member)
    → any (is_user id) us ≡ false
    → count_where (λ u. is_user id u && q u) us ≡ 0
count_where-none id q [] h = refl
count_where-none id q (u ∷ us) h = ground (arith, count_where-none id q us)

pub count_where-one :
    (id : ℕ) (q : Member → Bool) (us : List Member)
    → IsKeyed us
    → count_where (λ u. is_user id u && q u) us ≤ 1
count_where-one id q [] k = omega arith
count_where-one id q (u ∷ us) k = elim (Bool-cases (u.id == id)) [
  | inr miss ↦ rw miss (count_where-one id q us k.1)
  | inl hit ↦
      let absent : any (is_user id) us ≡ false = rw (← (==_iff u.id id).0 hit) k.0 in
      ground (arith, count_where-none id q us absent)
]

-- No row of the id of a user that was found has what that user has not.
pub count_where-found :
    (p q : Member → Bool) (c : Member) (us : List Member)
    → IsKeyed us
    → find_first p us ≡ some c
    → q c ≡ false
    → count_where (λ u. is_user c.id u && q u) us ≡ 0
count_where-found p q c [] k found h = refl
count_where-found p q c (u ∷ us) k found h = elim (Bool-cases (p u)) [
  | inl hit ↦
      let same : u ≡ c = ground arith in
      let absent : any (is_user c.id) us ≡ false = rw (← same) k.0 in
      rw (same, h, ==_refl c.id) (count_where-none c.id q us absent)
  | inr miss ↦
      let later : find_first p us ≡ some c = rw miss at found in
      let rest = count_where-found p q c us k.1 later h in
      elim (Bool-cases (u.id == c.id)) [
        | inr other ↦ rw (other, rest)
        | inl same ↦
            let there : any (is_user u.id) us ≡ true =
              any-found p (is_user u.id) c us later
                (rw ((==_iff u.id c.id).0 same) (==_refl c.id)) in
            let absent = k.0 in ground arith
      ]
]

released_count :
    (q : Member → Bool) (b : Bool) (t id : ℕ) (s : TeamStore)
    → ((u : Member) → q (without_manager u) ≡ q u)
    → count_where q (if b then release t id s else s).users ≡ count_where q s.users
released_count q true t id s h =
    count_where-update_where q (reports_to t id) without_manager s.users h
released_count q false t id s h = refl

-- How many owners a write to one user may take away, after agents were released.
pub write_loss :
    (t' t id : ℕ) (b : Bool) (f : Member → Member) (s : TeamStore)
    → count_where (is_owner t') s.users
      ≤ count_where
          (is_owner t')
          (update_where (is_user id) f (if b then release t id s else s).users)
        + count_where (λ u. is_user id u && is_owner t' u) s.users
write_loss t' t id b f s =
    let after = (if b then release t id s else s).users in
    omega (
      arith,
      count_where-loss (is_owner t') (is_user id) f after,
      released_count (is_owner t') b t id s (λ u. refl),
      released_count (λ u. is_user id u && is_owner t' u) b t id s (λ u. refl),
    )

pub target_tenant :
    (t id : ℕ) (s : TeamStore) (c : Member)
    → find_first (is_target t id) s.users ≡ some c
    → (c.tenant_id ≡ t) × (c.id ≡ id)
target_tenant t id s c found =
    let fits = find_first-satisfies (is_target t id) s.users {r = c} found in
    let own : (c.tenant_id == t) ≡ true = ground arith in
    let named : (c.id == id) ≡ true = ground arith in ((==_iff _ _).0 own, (==_iff _ _).0 named)
