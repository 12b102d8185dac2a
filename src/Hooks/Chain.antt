-- ===== src/Hooks/Chain.antt =====
-- How the handlers of an event are chained.
use notifymain_wa.Prelude.{
  ◌≡◌, refl, Bool, true, false, not, Option, List, [], ◌∷◌, ◌++◌, Bool-cases, inl, inr, keep,
  or_else, ◌⊎◌, All,
}
use notifymain_wa.Hooks.{HookContext, HookResult, answered, threw, HookRegistration, run_hooks}

module _ {D : Type 0} where
  -- What a chain that stands at `r` goes on with.
  abbrev pub go_on : HookContext D → List (HookRegistration D) → Bool × D → Bool × D
  go_on ctx rs (true, current) = run_hooks ctx rs current
  go_on ctx rs (false, current) = (false, current)

  HookResult-cases :
      (a : HookResult D)
      → (a ≡ threw)
        ⊎ ((continues : Bool) × (new : Option D) × (error : Bool) × (a
              ≡ answered continues new error))
  HookResult-cases threw = inl refl
  HookResult-cases (answered continues new error) = inr (continues, new, error, refl)

  -- The hooks of two lists run one after the other: the second list gets the data of the first,
  -- and runs only if the first did not stop.
  pub run_hooks-append :
      (ctx : HookContext D) (rs qs : List (HookRegistration D)) (current : D)
      → run_hooks ctx (rs ++ qs) current ≡ go_on ctx qs (run_hooks ctx rs current)
  unfolding run_hooks
  run_hooks-append ctx [] qs current = refl
  run_hooks-append ctx (r ∷ rs) qs current =
      elim (HookResult-cases (r.handler (record ctx { payload = current }))) [
        | inl e ↦ rw e (run_hooks-append ctx rs qs current)
        | inr (true, new, error, e) ↦ rw e (run_hooks-append ctx rs qs (or_else new current))
        | inr (false, new, error, e) ↦ rw e refl
      ]

  -- Hooks that throw whatever they are called with change nothing: the chain behaves as it does
  -- with any of them left out.
  pub run_hooks-keep :
      (faulty : HookRegistration D → Bool) (ctx : HookContext D) (rs : List (HookRegistration D))
      (current : D)
      → All (λ r. (c : HookContext D) → faulty r ≡ true → r.handler c ≡ threw) rs
      → run_hooks ctx rs current ≡ run_hooks ctx (keep (λ r. not (faulty r)) rs) current
  unfolding run_hooks
  run_hooks-keep faulty ctx [] current h = refl
  run_hooks-keep faulty ctx (r ∷ rs) current h = elim (Bool-cases (faulty r)) [
    | inl bad ↦
        rw (bad, h.0 (record ctx { payload = current }) bad)
          (run_hooks-keep faulty ctx rs current h.1)
    | inr good ↦ rw good elim (HookResult-cases (r.handler (record ctx { payload = current }))) [
      | inl e ↦ rw e (run_hooks-keep faulty ctx rs current h.1)
      | inr (true, new, error, e) ↦ rw e (run_hooks-keep faulty ctx rs (or_else new current) h.1)
      | inr (false, new, error, e) ↦ rw e refl
    ]
  ]
