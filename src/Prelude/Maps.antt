-- ===== src/Prelude/Maps.antt =====
-- A `Map` with numbers as keys, as the list of its entries.
use Prim.Native.Nat.{ℕ}
use mathlib.Core.Path.{◌≡◌, subst}
use mathlib.Core.Logic.{inl, inr}
use mathlib.Core.Bool.{Bool, true, false}
use mathlib.Core.Option.{Option, none, some}
use mathlib.Core.List.{List, [], ◌∷◌}
use native.Mathlib.Omega.{arith}
use notifymain_wa.Prelude.Tests.{◌==◌, if◌then◌else◌, is_some, Bool-cases}
use notifymain_wa.Prelude.Lists.{All}

module _ {ℓ} {V : Type ℓ} where
  -- `m.get(k)`
  abbrev pub lookup : ℕ → List (ℕ × V) → Option V
  lookup k [] = none
  lookup k ((j, v) ∷ m) = if j == k then some v else lookup k m

  -- `m.has(k)`
  abbrev pub has_entry : ℕ → List (ℕ × V) → Bool
  has_entry k m = is_some (lookup k m)

  -- `m.set(k, v)`
  abbrev pub set_entry : ℕ → V → List (ℕ × V) → List (ℕ × V)
  set_entry k v [] = (k, v) ∷ []
  set_entry k v ((j, u) ∷ m) =
      let rest = set_entry k v m in if j == k then (k, v) ∷ m else (j, u) ∷ rest

  -- `m.delete(k)`
  abbrev pub delete_entry : ℕ → List (ℕ × V) → List (ℕ × V)
  delete_entry k [] = []
  delete_entry k ((j, v) ∷ m) =
      let rest = delete_entry k m in if j == k then rest else (j, v) ∷ rest

  pub has_entry-set_entry :
      (k i : ℕ) (v : V) (m : List (ℕ × V))
      → has_entry i (set_entry k v m) ≡ (if k == i then true else has_entry i m)
  has_entry-set_entry k i v [] = ground arith
  has_entry-set_entry k i v ((j, u) ∷ m) = ground (arith, has_entry-set_entry k i v m)

  pub has_entry-delete_entry :
      (k i : ℕ) (m : List (ℕ × V))
      → has_entry i (delete_entry k m) ≡ (if k == i then false else has_entry i m)
  has_entry-delete_entry k i [] = ground arith
  has_entry-delete_entry k i ((j, u) ∷ m) = ground (arith, has_entry-delete_entry k i m)

  -- What holds of every value.
  pub All-set_entry {κ} :
      (P : ℕ × V → Type κ) (k : ℕ) (v : V) (m : List (ℕ × V))
      → P (k, v)
      → All P m
      → All P (set_entry k v m)
  All-set_entry P k v [] p h = (p, tt)
  All-set_entry P k v ((j, u) ∷ m) p h = elim (Bool-cases (j == k)) [
    | inl e ↦ rw e (p, h.1)
    | inr e ↦ rw e (h.0, All-set_entry P k v m p h.1)
  ]

  pub All-delete_entry {κ} :
      (P : ℕ × V → Type κ) (k : ℕ) (m : List (ℕ × V)) → All P m → All P (delete_entry k m)
  All-delete_entry P k [] h = tt
  All-delete_entry P k ((j, u) ∷ m) h = elim (Bool-cases (j == k)) [
    | inl e ↦ rw e (All-delete_entry P k m h.1)
    | inr e ↦ rw e (h.0, All-delete_entry P k m h.1)
  ]

  -- The entry of a key that is found.
  pub All-lookup {κ} :
      (P : V → Type κ) (k : ℕ) (m : List (ℕ × V)) {v : V}
      → All (λ (e : ℕ × V). P e.1) m
      → lookup k m ≡ some v
      → P v
  All-lookup P k [] h e = cc
  All-lookup P k ((j, u) ∷ m) {v} h e = elim (Bool-cases (j == k)) [
    | inl hit ↦ let same : u ≡ v = ground arith in subst P same h.0
    | inr miss ↦ All-lookup P k m h.1 (rw miss at e)
  ]

  pub lookup-set_entry : (k : ℕ) (v : V) (m : List (ℕ × V)) → lookup k (set_entry k v m) ≡ some v
  lookup-set_entry k v [] = ground arith
  lookup-set_entry k v ((j, u) ∷ m) = ground (arith, lookup-set_entry k v m)
