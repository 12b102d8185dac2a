-- ===== src/Hooks/Order.antt =====
-- The order in which the hooks of an event run.
use notifymain_wa.Prelude.{
  ℕ, ◌≤◌, ◌<◌, ◌≡◌, refl, ap, false, none, some, List, [], ◌∷◌, ◌++◌, arith, Bool-cases, inl, inr,
  ◌==◌, leb, All, find_first, if◌then◌else◌,
}
use notifymain_wa.Hooks.{
  HookContext, HookResult, HookRegistration, Entry, HookManager, insert_by_priority, sort,
  push_hook, register, hooks_of,
}

module _ {D : Type 0} where
  -- All that follow have at least the priority.
  abbrev pub IsBelow : ℕ → List (HookRegistration D) → Type 0
  IsBelow n rs = All (λ (q : HookRegistration D). n ≤ q.priority) rs

  abbrev pub IsSorted : List (HookRegistration D) → Type 0
  IsSorted [] = Unit
  IsSorted (r ∷ rs) = IsBelow r.priority rs × IsSorted rs

  -- Behind all hooks of the same or a lower priority number.
  unfoldable pub insert_after :
      HookRegistration D → List (HookRegistration D) → List (HookRegistration D)
  insert_after r [] = r ∷ []
  insert_after r (q ∷ qs) = if leb q.priority r.priority then q ∷ insert_after r qs else r ∷ q ∷ qs

  IsBelow-weaken : (m n : ℕ) (rs : List (HookRegistration D)) → m ≤ n → IsBelow n rs → IsBelow m rs
  IsBelow-weaken m n [] h k = tt
  IsBelow-weaken m n (r ∷ rs) h k = let first = k.0 in (omega arith, IsBelow-weaken m n rs h k.1)

  insert_after-IsBelow :
      (n : ℕ) (r : HookRegistration D) (rs : List (HookRegistration D))
      → n ≤ r.priority
      → IsBelow n rs
      → IsBelow n (insert_after r rs)
  unfolding insert_after
  insert_after-IsBelow n r [] h k = (h, tt)
  insert_after-IsBelow n r (q ∷ qs) h k = elim (Bool-cases (leb q.priority r.priority)) [
    | inl e ↦ rw e (k.0, insert_after-IsBelow n r qs h k.1)
    | inr e ↦ rw e (h, k)
  ]

  insert_by_priority-least :
      (r : HookRegistration D) (rs : List (HookRegistration D))
      → IsBelow r.priority rs
      → insert_by_priority r rs ≡ r ∷ rs
  unfolding insert_by_priority
  insert_by_priority-least r [] h = refl
  insert_by_priority-least r (q ∷ qs) h = let first = h.0 in ground arith

  insert_after-least :
      (r : HookRegistration D) (n : ℕ) (rs : List (HookRegistration D))
      → r.priority < n
      → IsBelow n rs
      → insert_after r rs ≡ r ∷ rs
  unfolding insert_after
  insert_after-least r n [] h k = refl
  insert_after-least r n (q ∷ qs) h k = let first = k.0 in ground arith

  insert_after-IsSorted :
      (r : HookRegistration D) (rs : List (HookRegistration D))
      → IsSorted rs
      → IsSorted (insert_after r rs)
  unfolding insert_after
  insert_after-IsSorted r [] h = (tt, tt)
  insert_after-IsSorted r (q ∷ qs) h = elim (Bool-cases (leb q.priority r.priority)) [
    | inl e ↦
        rw e
          (insert_after-IsBelow q.priority r qs (ground arith) h.0, insert_after-IsSorted r qs h.1)
    | inr e ↦
        let le : r.priority ≤ q.priority = ground arith in
        rw e ((le, IsBelow-weaken r.priority q.priority qs le h.0), h)
  ]

  greater :
      (q r : HookRegistration D) (qs : List (HookRegistration D))
      → leb q.priority r.priority ≡ false
      → IsBelow q.priority qs
      → insert_by_priority q (r ∷ qs)
        ≡ (if leb q.priority r.priority then q ∷ r ∷ qs else r ∷ q ∷ qs)
  unfolding insert_by_priority
  greater q r qs e h = rw e (ap (λ rest. r ∷ rest) (insert_by_priority-least q qs h))

  -- Pushing to a sorted list and sorting it puts the new hook behind its equals.
  pub sort-snoc :
      (r : HookRegistration D) (rs : List (HookRegistration D))
      → IsSorted rs
      → sort (rs ++ r ∷ []) ≡ insert_after r rs
  unfolding sort insert_after
  sort-snoc r [] h = refl
  sort-snoc r (q ∷ qs) h = elim (Bool-cases (leb q.priority r.priority)) [
    | inl e ↦
        rw (e, sort-snoc r qs h.1)
          (insert_by_priority-least q (insert_after r qs)
            (insert_after-IsBelow q.priority r qs (ground arith) h.0))
    | inr e ↦
        let more : r.priority < q.priority = ground arith in
        rw (sort-snoc r qs h.1, insert_after-least r q.priority qs more h.0) (greater q r qs e h.0)
  ]

  abbrev pub AreSorted : List (Entry D) → Type 0
  AreSorted es = All (λ (e : Entry D). IsSorted e.registrations) es

  pub push_hook-AreSorted :
      (r : HookRegistration D) (es : List (Entry D)) → AreSorted es → AreSorted (push_hook r es)
  unfolding push_hook
  push_hook-AreSorted r [] h = ((tt, tt), tt)
  push_hook-AreSorted r (e ∷ es) h = elim (Bool-cases (e.event == r.event)) [
    | inl same ↦
        rw (same, sort-snoc r e.registrations h.0)
          (insert_after-IsSorted r e.registrations h.0, h.1)
    | inr other ↦ rw other (h.0, push_hook-AreSorted r es h.1)
  ]

  abbrev pub registrations_of : ℕ → List (Entry D) → List (HookRegistration D)
  registrations_of event es = elim (find_first (λ (e : Entry D). e.event == event) es) [
    | none ↦ []
    | some e ↦ e.registrations
  ]

  push_hook-registrations_of :
      (r : HookRegistration D) (es : List (Entry D)) (event : ℕ)
      → AreSorted es
      → registrations_of event (push_hook r es) ≡ (
          if r.event == event
          then insert_after r (registrations_of event es)
          else registrations_of event es)
  unfolding push_hook sort insert_after
  push_hook-registrations_of r [] event h = ground arith
  push_hook-registrations_of r (e ∷ es) event h = elim (Bool-cases (e.event == r.event)) [
    | inl same ↦ rw (same, sort-snoc r e.registrations h.0) (ground arith)
    | inr other ↦ rw other (ground (arith, push_hook-registrations_of r es event h.1))
  ]

-- A new hook runs behind all hooks of its event with the same or a lower priority number and
-- before the others; the hooks of every other event stay as they are. This is for a manager in
-- which the hooks of each event are sorted.
pub register-hooks_of :
    {D : Type 0} (m : HookManager D) (plugin event other priority now : ℕ)
    (handler : HookContext D → HookResult D)
    → AreSorted m.hooks
    → hooks_of other (register plugin event handler priority now m).1 ≡ (
        if event == other
        then insert_after
            (record {
              id = (register plugin event handler priority now m).0;
              plugin_id = plugin;
              event = event;
              handler = handler;
              priority = priority;
            })
            (hooks_of other m)
        else hooks_of other m)
unfolding register
register-hooks_of m plugin event other priority now handler h =
    push_hook-registrations_of _ m.hooks other h
