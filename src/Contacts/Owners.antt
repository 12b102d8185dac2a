-- ===== src/Contacts/Owners.antt =====
-- Tables whose rows have a primary key and an owner.
use notifymain_wa.Prelude.{
  ℕ, ◌≡◌, refl, ◌∙◌, inl, inr, Bool, true, false, not, some, List, [], ◌∷◌, ◌++◌, arith, any,
  any-append, any-update_where, ap, ◌==◌, ==_iff, ==_refl, keep, keep-append, update_where,
  find_first, any-found, Bool-cases,
}
use mathlib.Core.List.{append-nil}

module _ {Row : Type 0} (id_of owner_of : Row → ℕ) where
  -- No two rows have the same key.
  abbrev pub IsKeyed : List Row → Type 0
  IsKeyed [] = Unit
  IsKeyed (r ∷ rs) = (any (λ q. id_of q == id_of r) rs ≡ false) × IsKeyed rs

  abbrev pub others_of : ℕ → List Row → List Row
  others_of t = keep (λ r. not (owner_of r == t))

  -- An update of rows of one owner leaves the rows of the others.
  pub others_of-update_where :
      (t : ℕ) (p : Row → Bool) (f : Row → Row) (rs : List Row)
      → ((r : Row) → p r ≡ true → (owner_of r == t) ≡ true)
      → ((r : Row) → owner_of (f r) ≡ owner_of r)
      → others_of t (update_where p f rs) ≡ others_of t rs
  others_of-update_where t p f [] own keeps = refl
  others_of-update_where t p f (r ∷ rs) own keeps = elim (Bool-cases (p r)) [
    | inl hit ↦ rw (hit, keeps r, own r hit, others_of-update_where t p f rs own keeps)
    | inr miss ↦ rw (miss, others_of-update_where t p f rs own keeps)
  ]

  pub others_of-insert :
      (t : ℕ) (r : Row) (rs : List Row)
      → owner_of r ≡ t
      → others_of t (rs ++ r ∷ []) ≡ others_of t rs
  others_of-insert t r rs own =
      keep-append (λ q. not (owner_of q == t)) rs (r ∷ []) ∙ rw (own, ==_refl t, append-nil)

  absent-update_where :
      (id : ℕ) (f : Row → Row) (rs : List Row)
      → any (λ q. id_of q == id) rs ≡ false
      → update_where (λ q. id_of q == id) f rs ≡ rs
  absent-update_where id f [] h = refl
  absent-update_where id f (r ∷ rs) h = ground (arith, absent-update_where id f rs)

  -- So does an update of the row that was found among those of one owner, by its key.
  pub others_of-update_found :
      (t id : ℕ) (p : Row → Bool) (c : Row) (f : Row → Row) (rs : List Row)
      → IsKeyed rs
      → find_first p rs ≡ some c
      → id_of c ≡ id
      → owner_of c ≡ t
      → ((r : Row) → owner_of (f r) ≡ owner_of r)
      → others_of t (update_where (λ q. id_of q == id) f rs) ≡ others_of t rs
  others_of-update_found t id p c f [] u found named own keeps = refl
  others_of-update_found t id p c f (r ∷ rs) u found named own keeps = elim (Bool-cases (p r)) [
    | inl hit ↦
        let same : r ≡ c = ground arith in
        let absent : any (λ q. id_of q == id) rs ≡ false = rw (← named, ← same) u.0 in
        rw (absent-update_where id f rs absent, same, named, ==_refl id, keeps c, own, ==_refl t)
    | inr miss ↦
        let later : find_first p rs ≡ some c = rw miss at found in
        let rest = others_of-update_found t id p c f rs u.1 later named own keeps in
        elim (Bool-cases (id_of r == id)) [
          | inr other ↦ rw (other, rest)
          | inl same ↦
              let there : any (λ q. id_of q == id_of r) rs ≡ true =
                any-found p (λ q. id_of q == id_of r) c rs later
                  (rw (named, (==_iff (id_of r) id).0 same, ==_refl id)) in
              ground arith
        ]
  ]

  pub IsKeyed-update_where :
      (p : Row → Bool) (f : Row → Row) (rs : List Row)
      → ((r : Row) → id_of (f r) ≡ id_of r)
      → IsKeyed rs
      → IsKeyed (update_where p f rs)
  IsKeyed-update_where p f [] keeps u = tt
  IsKeyed-update_where p f (r ∷ rs) keeps u =
      let same =
        any-update_where (λ q. id_of q == id_of r) p f rs (λ q. ap (λ i. i == id_of r) (keeps q)) in
      elim (Bool-cases (p r)) [
        | inl e ↦ rw (e, keeps r) (same ∙ u.0, IsKeyed-update_where p f rs keeps u.1)
        | inr e ↦ rw e (same ∙ u.0, IsKeyed-update_where p f rs keeps u.1)
      ]

  pub IsKeyed-snoc :
      (rs : List Row) (r : Row)
      → IsKeyed rs
      → any (λ q. id_of q == id_of r) rs ≡ false
      → IsKeyed (rs ++ r ∷ [])
  IsKeyed-snoc [] r u free = (refl, tt)
  IsKeyed-snoc (q ∷ rs) r u free = (
    ground (arith, any-append (λ p. id_of p == id_of q) rs (r ∷ [])),
    IsKeyed-snoc rs r u.1 (ground arith),
  )
