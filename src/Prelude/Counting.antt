-- ===== src/Prelude/Counting.antt =====
-- How many rows of a table pass a test, after a query or a write.
use Prim.Native.Nat.{◌+◌, ◌≤◌}
use mathlib.Core.Path.{◌≡◌, refl}
use mathlib.Core.Bool.{Bool, true, false, ◌&&◌}
use mathlib.Core.Logic.{inl, inr}
use mathlib.Core.Option.{none, some}
use mathlib.Core.List.{List, [], ◌∷◌}
use native.Mathlib.Omega.{arith}
use notifymain_wa.Prelude.Tests.{Bool-cases}
use notifymain_wa.Prelude.Lists.{keep, All}
use notifymain_wa.Prelude.Tables.{find_first, update_where, count_where, All-map}

module _ {ℓ} {Row : Type ℓ} where
  pub count_where-keep_le :
      (p q : Row → Bool) (rs : List Row) → count_where p (keep q rs) ≤ count_where p rs
  count_where-keep_le p q [] = omega arith
  count_where-keep_le p q (r ∷ rs) = ground (arith, count_where-keep_le p q rs)

  pub count_where-none :
      (p : Row → Bool) (rs : List Row) → find_first p rs ≡ none → count_where p rs ≡ 0
  count_where-none p [] h = refl
  count_where-none p (r ∷ rs) h = ground (arith, count_where-none p rs)

  -- A write makes no more rows that satisfy a test than it touches.
  pub count_where-write_le :
      (p q : Row → Bool) (f : Row → Row) (rs : List Row)
      → count_where p (update_where q f rs)
        ≤ count_where p rs + count_where (λ r. q r && p (f r)) rs
  count_where-write_le p q f [] = omega arith
  count_where-write_le p q f (r ∷ rs) = ground (arith, count_where-write_le p q f rs)

  pub count_where-imp :
      (p q : Row → Bool) (rs : List Row)
      → ((r : Row) → p r ≡ true → q r ≡ true)
      → count_where p rs ≤ count_where q rs
  count_where-imp p q [] h = omega arith
  count_where-imp p q (r ∷ rs) h = ground (arith, h r, count_where-imp p q rs h)

  pub count_where-no :
      (p : Row → Bool) (rs : List Row) → All (λ r. p r ≡ false) rs → count_where p rs ≡ 0
  count_where-no p [] h = refl
  count_where-no p (r ∷ rs) h = ground (arith, h.0, count_where-no p rs h.1)

  pub no_count-All :
      (p : Row → Bool) (rs : List Row) → count_where p rs ≡ 0 → All (λ r. p r ≡ false) rs
  no_count-All p [] h = tt
  no_count-All p (r ∷ rs) h = (ground arith, no_count-All p rs (ground arith))

  pub keep-find_first :
      (p : Row → Bool) (rs : List Row) {r : Row} {ss : List Row}
      → keep p rs ≡ r ∷ ss
      → find_first p rs ≡ some r
  keep-find_first p [] h = cc
  keep-find_first p (x ∷ rs) {r} {ss} h = elim (Bool-cases (p x)) [
    | inl hit ↦ ground arith
    | inr miss ↦ rw miss (keep-find_first p rs {ss = ss} (rw miss at h))
  ]

  pub count_where-found :
      (p q : Row → Bool) (rs : List Row) (r : Row)
      → q r ≡ true
      → find_first p rs ≡ some r
      → 1 ≤ count_where q rs
  count_where-found p q [] r own h = cc
  count_where-found p q (x ∷ rs) r own h = elim (Bool-cases (p x)) [
    | inl hit ↦
        let same : x ≡ r = ground arith in let first : q x ≡ true = rw same own in ground arith
    | inr miss ↦ ground (arith, count_where-found p q rs r own (rw miss at h))
  ]

  -- The row found by one test is the only one to pass another that no two rows pass.
  pub find_first-only :
      (p q : Row → Bool) (rs : List Row) (r : Row)
      → q r ≡ true
      → count_where q rs ≤ 1
      → find_first p rs ≡ some r
      → All (λ x. q x ≡ true → x ≡ r) rs
  find_first-only p q [] r own one h = tt
  find_first-only p q (x ∷ rs) r own one h = elim (Bool-cases (p x)) [
    | inl hit ↦
        let same : x ≡ r = ground arith in
        let none_left : count_where q rs ≡ 0 =
          let first : q x ≡ true = rw same own in ground arith in
        (
          λ _. same,
          All-map (λ y. q y ≡ false) (λ y. q y ≡ true → y ≡ r) rs (λ y no yes. cc)
              (no_count-All q rs none_left),
        )
    | inr miss ↦
        let later : find_first p rs ≡ some r = rw miss at h in
        let tail : 1 ≤ count_where q rs = count_where-found p q rs r own later in
        (λ yes. absurd (ground arith), find_first-only p q rs r own (ground arith) later)
  ]
