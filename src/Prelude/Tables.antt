-- ===== src/Prelude/Tables.antt =====
-- A database table as the list of its rows, and the queries that the services make on it.
use Prim.Native.Nat.{ℕ, suc, ◌+◌}
use mathlib.Core.Path.{◌≡◌, refl}
use mathlib.Core.Bool.{Bool, true}
use mathlib.Core.Option.{Option, none, some}
use mathlib.Core.List.{List, [], ◌∷◌, ◌++◌}
use native.Mathlib.Omega.{arith}
use mathlib.Core.Path.{subst, ap}
use mathlib.Core.Bool.{◌||◌, false}
use mathlib.Core.Logic.{inl, inr}
use notifymain_wa.Prelude.Tests.{if◌then◌else◌, Bool-cases}
use notifymain_wa.Prelude.Lists.{length, keep, any, All}

module _ {ℓ} {Row : Type ℓ} where
  -- `findFirst` and `findOne`
  abbrev pub find_first : (Row → Bool) → List Row → Option Row
  find_first p [] = none
  find_first p (r ∷ rs) = if p r then some r else find_first p rs

  -- `updateMany`, and `update` where the test is on a unique key
  abbrev pub update_where : (Row → Bool) → (Row → Row) → List Row → List Row
  update_where p f [] = []
  update_where p f (r ∷ rs) = (if p r then f r else r) ∷ update_where p f rs

  -- `count`
  abbrev pub count_where : (Row → Bool) → List Row → ℕ
  count_where p [] = 0
  count_where p (r ∷ rs) = let rest = count_where p rs in if p r then suc rest else rest

  pub length-keep : (p : Row → Bool) (rs : List Row) → length (keep p rs) ≡ count_where p rs
  length-keep p [] = refl
  length-keep p (r ∷ rs) = ground (arith, length-keep p rs)

  pub length-update_where :
      (p : Row → Bool) (f : Row → Row) (rs : List Row) → length (update_where p f rs) ≡ length rs
  length-update_where p f [] = refl
  length-update_where p f (r ∷ rs) = omega (arith, length-update_where p f rs)

  pub count_where-append :
      (p : Row → Bool) (rs ss : List Row)
      → count_where p (rs ++ ss) ≡ count_where p rs + count_where p ss
  count_where-append p [] ss = omega arith
  count_where-append p (r ∷ rs) ss = ground (arith, count_where-append p rs ss)

  -- An update that does not change what is counted.
  pub count_where-update_where :
      (p q : Row → Bool) (f : Row → Row) (rs : List Row)
      → ((r : Row) → p (f r) ≡ p r)
      → count_where p (update_where q f rs) ≡ count_where p rs
  count_where-update_where p q f [] h = refl
  count_where-update_where p q f (r ∷ rs) h =
      ground (arith, h r, count_where-update_where p q f rs h)

  pub find_first-satisfies :
      (p : Row → Bool) (rs : List Row) {r : Row} → find_first p rs ≡ some r → p r ≡ true
  find_first-satisfies p [] h = cc
  find_first-satisfies p (s ∷ rs) {r} h = ground (arith, find_first-satisfies p rs {r = r})

  -- What holds of the rows of a table after an update.
  pub All-update_where {κ μ} :
      (P : Row → Type κ) (Q : Row → Type μ) (p : Row → Bool) (f : Row → Row) (rs : List Row)
      → ((r : Row) → p r ≡ true → P r → Q (f r))
      → ((r : Row) → p r ≡ false → P r → Q r)
      → All P rs
      → All Q (update_where p f rs)
  All-update_where P Q p f [] hit miss h = tt
  All-update_where P Q p f (r ∷ rs) hit miss h = elim (Bool-cases (p r)) [
    | inl e ↦ rw e (hit r e h.0, All-update_where P Q p f rs hit miss h.1)
    | inr e ↦ rw e (miss r e h.0, All-update_where P Q p f rs hit miss h.1)
  ]

  pub All-map {κ μ} :
      (P : Row → Type κ) (Q : Row → Type μ) (rs : List Row)
      → ((r : Row) → P r → Q r)
      → All P rs
      → All Q rs
  All-map P Q [] f h = tt
  All-map P Q (r ∷ rs) f h = (f r h.0, All-map P Q rs f h.1)

  pub All-snoc {κ} :
      (P : Row → Type κ) (rs : List Row) (r : Row) → All P rs → P r → All P (rs ++ r ∷ [])
  All-snoc P [] r h x = (x, tt)
  All-snoc P (q ∷ rs) r h x = (h.0, All-snoc P rs r h.1 x)

  pub any-update_where :
      (p q : Row → Bool) (f : Row → Row) (rs : List Row)
      → ((r : Row) → p (f r) ≡ p r)
      → any p (update_where q f rs) ≡ any p rs
  any-update_where p q f [] h = refl
  any-update_where p q f (r ∷ rs) h = ground (arith, h r, any-update_where p q f rs h)

  pub any-append : (p : Row → Bool) (rs ss : List Row) → any p (rs ++ ss) ≡ (any p rs || any p ss)
  any-append p [] ss = refl
  any-append p (r ∷ rs) ss = ground (arith, any-append p rs ss)

  -- What holds of every row holds of one that is found.
  pub All-find_first {κ} :
      (P : Row → Type κ) (p : Row → Bool) (rs : List Row) (r : Row)
      → All P rs
      → find_first p rs ≡ some r
      → P r
  All-find_first P p [] r h e = cc
  All-find_first P p (q ∷ rs) r h e = elim (Bool-cases (p q)) [
    | inl hit ↦ let same : q ≡ r = ground arith in subst P same h.0
    | inr miss ↦ All-find_first P p rs r h.1 (rw miss at e)
  ]

  pub All-of_any : (p : Row → Bool) (rs : List Row) → any p rs ≡ false → All (λ r. p r ≡ false) rs
  All-of_any p [] h = tt
  All-of_any p (r ∷ rs) h = (ground arith, All-of_any p rs (ground arith))

  pub All-zip {κ μ ν} :
      (P : Row → Type κ) (Q : Row → Type μ) (R : Row → Type ν) (rs : List Row)
      → ((r : Row) → P r → Q r → R r)
      → All P rs
      → All Q rs
      → All R rs
  All-zip P Q R [] f h k = tt
  All-zip P Q R (r ∷ rs) f h k = (f r h.0 k.0, All-zip P Q R rs f h.1 k.1)

  pub find_first-any :
      (p q : Row → Bool) (rs : List Row) {r : Row}
      → find_first p rs ≡ some r
      → ((x : Row) → p x ≡ true → q x ≡ true)
      → any q rs ≡ true
  find_first-any p q [] h imp = cc
  find_first-any p q (x ∷ rs) {r} h imp = ground (arith, imp x, find_first-any p q rs {r = r})

  -- A row that was found is in the table.
  pub any-found :
      (p q : Row → Bool) (c : Row) (rs : List Row)
      → find_first p rs ≡ some c
      → q c ≡ true
      → any q rs ≡ true
  any-found p q c [] found h = cc
  any-found p q c (r ∷ rs) found h = elim (Bool-cases (p r)) [
    | inl hit ↦ let same : r ≡ c = ground arith in rw (same, h)
    | inr miss ↦ ground (arith, any-found p q c rs (rw miss at found) h)
  ]

  pub find_first-update_where :
      (p : Row → Bool) (f : Row → Row) (rs : List Row) {r : Row}
      → ((x : Row) → p (f x) ≡ p x)
      → find_first p rs ≡ some r
      → find_first p (update_where p f rs) ≡ some (f r)
  find_first-update_where p f [] keeps h = cc
  find_first-update_where p f (x ∷ rs) {r} keeps h = elim (Bool-cases (p x)) [
    | inl hit ↦
        let same : x ≡ r = ground arith in rw (hit, keeps x, hit) (ap (λ y. some (f y)) same)
    | inr miss ↦ rw (miss, miss) (find_first-update_where p f rs keeps (rw miss at h))
  ]
