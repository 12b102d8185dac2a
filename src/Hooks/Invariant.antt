-- ===== src/Hooks/Invariant.antt =====
-- What the manager keeps.
use notifymain_wa.Prelude.{
  ℕ, leb, ◌≡◌, refl, ◌∙◌, Bool, true, false, not, ◌||◌, List, [], ◌∷◌, ◌++◌, map, arith, Bool-cases,
  Option-cases, inl, inr, ◌==◌, ==_refl, All, All-map, keep,
}
use notifymain_wa.Hooks.{
  HookId, HookContext, HookResult, HookRegistration, Entry, Tracked, HookManager, push_hook,
  register, unregister, unregister_plugin, track, untrack, remove_hook, remove_first, holds,
  same_id, is_tracked, is_foreign_hook, without_plugin, found_hook, sort, insert_by_priority,
}
use notifymain_wa.Hooks.Order.{IsSorted, AreSorted, push_hook-AreSorted}

-- The plugin of each registration has an entry in `pluginHooks`.
abbrev pub AreOwned : {D : Type 0} → List Tracked → List (HookRegistration D) → Type 0
AreOwned ts rs = All (λ (r : HookRegistration _). is_tracked r.plugin_id ts ≡ true) rs

abbrev pub IsOwned : {D : Type 0} → List Tracked → Entry D → Type 0
IsOwned ts e = AreOwned ts e.registrations

pub record IsManaged {D : Type 0} (m : HookManager D) : Type 0 where
  pub sorted : AreSorted m.hooks
  pub owned : All (IsOwned m.plugin_hooks) m.hooks

-- The managers that the operations lead to.
pub data Reachable {D : Type 0} : HookManager D → Type 0 where
  initial : Reachable (record { hooks = []; plugin_hooks = [] })
  registered :
      {m : HookManager D} (plugin event : ℕ) (handler : HookContext D → HookResult D)
      (priority now : ℕ)
      → Reachable m
      → Reachable (register plugin event handler priority now m).1
  unregistered : {m : HookManager D} (id : HookId) → Reachable m → Reachable (unregister id m)
  cleaned : {m : HookManager D} (plugin : ℕ) → Reachable m → Reachable (unregister_plugin plugin m)

track-is_tracked :
    (plugin other : ℕ) (id : HookId) (ts : List Tracked)
    → is_tracked other (track plugin id ts) ≡ (is_tracked other ts || plugin == other)
unfolding track
track-is_tracked plugin other id [] = ground arith
track-is_tracked plugin other id (t ∷ ts) = ground (arith, track-is_tracked plugin other id ts)

untrack-is_tracked :
    (plugin other : ℕ) (id : HookId) (ts : List Tracked)
    → is_tracked other (untrack plugin id ts) ≡ is_tracked other ts
unfolding untrack
untrack-is_tracked plugin other id [] = refl
untrack-is_tracked plugin other id (t ∷ ts) = ground (arith, untrack-is_tracked plugin other id ts)

keep-is_tracked :
    (plugin other : ℕ) (ts : List Tracked)
    → (other == plugin) ≡ false
    → is_tracked other (keep (λ (t : Tracked). not (t.plugin_id == plugin)) ts)
      ≡ is_tracked other ts
keep-is_tracked plugin other [] h = refl
keep-is_tracked plugin other (t ∷ ts) h = ground (arith, keep-is_tracked plugin other ts h)

module _ {D : Type 0} where
  All-insert_by_priority :
      (P : HookRegistration D → Type 0) (r : HookRegistration D) (rs : List (HookRegistration D))
      → P r
      → All P rs
      → All P (insert_by_priority r rs)
  unfolding insert_by_priority
  All-insert_by_priority P r [] h k = (h, tt)
  All-insert_by_priority P r (q ∷ qs) h k = elim (Bool-cases (leb r.priority q.priority)) [
    | inl e ↦ rw e (h, k)
    | inr e ↦ rw e (k.0, All-insert_by_priority P r qs h k.1)
  ]

  All-sort :
      (P : HookRegistration D → Type 0) (r : HookRegistration D) (rs : List (HookRegistration D))
      → P r
      → All P rs
      → All P (sort (rs ++ r ∷ []))
  unfolding sort
  All-sort P r [] h k = (h, tt)
  All-sort P r (q ∷ qs) h k =
      All-insert_by_priority P q (sort (qs ++ r ∷ [])) k.0 (All-sort P r qs h k.1)

  All-push_hook :
      (P : HookRegistration D → Type 0) (r : HookRegistration D) (es : List (Entry D))
      → P r
      → All (λ (e : Entry D). All P e.registrations) es
      → All (λ (e : Entry D). All P e.registrations) (push_hook r es)
  unfolding push_hook
  All-push_hook P r [] h k = (All-sort P r [] h tt, tt)
  All-push_hook P r (e ∷ es) h k = elim (Bool-cases (e.event == r.event)) [
    | inl same ↦ rw same (All-sort P r e.registrations h k.0, k.1)
    | inr other ↦ rw other (k.0, All-push_hook P r es h k.1)
  ]

  All-remove_first :
      (P : HookRegistration D → Type 0) (id : HookId) (rs : List (HookRegistration D))
      → All P rs
      → All P (remove_first id rs)
  unfolding remove_first
  All-remove_first P id [] h = tt
  All-remove_first P id (r ∷ rs) h = elim (Bool-cases (same_id r.id id)) [
    | inl e ↦ rw e h.1
    | inr e ↦ rw e (h.0, All-remove_first P id rs h.1)
  ]

  remove_first-IsSorted :
      (id : HookId) (rs : List (HookRegistration D)) → IsSorted rs → IsSorted (remove_first id rs)
  unfolding remove_first
  remove_first-IsSorted id [] h = tt
  remove_first-IsSorted id (r ∷ rs) h = elim (Bool-cases (same_id r.id id)) [
    | inl e ↦ rw e h.1
    | inr e ↦ rw e (All-remove_first _ id rs h.0, remove_first-IsSorted id rs h.1)
  ]

  All-keep :
      (P : HookRegistration D → Type 0) (p : HookRegistration D → Bool)
      (rs : List (HookRegistration D))
      → All P rs
      → All P (keep p rs)
  All-keep P p [] h = tt
  All-keep P p (r ∷ rs) h = elim (Bool-cases (p r)) [
    | inl e ↦ rw e (h.0, All-keep P p rs h.1)
    | inr e ↦ rw e (All-keep P p rs h.1)
  ]

  keep-IsSorted :
      (p : HookRegistration D → Bool) (rs : List (HookRegistration D))
      → IsSorted rs
      → IsSorted (keep p rs)
  keep-IsSorted p [] h = tt
  keep-IsSorted p (r ∷ rs) h = elim (Bool-cases (p r)) [
    | inl e ↦ rw e (All-keep _ p rs h.0, keep-IsSorted p rs h.1)
    | inr e ↦ rw e (keep-IsSorted p rs h.1)
  ]

  All-remove_hook :
      (P : List (HookRegistration D) → Type 0) (id : HookId) (es : List (Entry D))
      → ((rs : List (HookRegistration D)) → P rs → P (remove_first id rs))
      → All (λ (e : Entry D). P e.registrations) es
      → All (λ (e : Entry D). P e.registrations) (remove_hook id es)
  unfolding remove_hook
  All-remove_hook P id [] keeps h = tt
  All-remove_hook P id (e ∷ es) keeps h = elim (Bool-cases (holds id e)) [
    | inl there ↦ rw there (keeps e.registrations h.0, h.1)
    | inr gone ↦ rw gone (h.0, All-remove_hook P id es keeps h.1)
  ]

  All-without_plugin :
      (P Q : List (HookRegistration D) → Type 0) (plugin : ℕ) (es : List (Entry D))
      → ((rs : List (HookRegistration D)) → P rs → Q (keep (is_foreign_hook plugin) rs))
      → All (λ (e : Entry D). P e.registrations) es
      → All (λ (e : Entry D). Q e.registrations) (map (without_plugin plugin) es)
  All-without_plugin P Q plugin [] keeps h = tt
  All-without_plugin P Q plugin (e ∷ es) keeps h =
      (keeps e.registrations h.0, All-without_plugin P Q plugin es keeps h.1)

  -- The hooks of a plugin that stays are still owned after others are removed.
  keep-IsOwned :
      (plugin : ℕ) (ts : List Tracked) (rs : List (HookRegistration D))
      → All (λ (r : HookRegistration D). is_tracked r.plugin_id ts ≡ true) rs
      → All
          (λ (r : HookRegistration D).
            is_tracked r.plugin_id (keep (λ (t : Tracked). not (t.plugin_id == plugin)) ts) ≡ true)
          (keep (is_foreign_hook plugin) rs)
  keep-IsOwned plugin ts [] h = tt
  keep-IsOwned plugin ts (r ∷ rs) h = elim (Bool-cases (r.plugin_id == plugin)) [
    | inl e ↦ rw e (keep-IsOwned plugin ts rs h.1)
    | inr e ↦ rw e (keep-is_tracked plugin r.plugin_id ts e ∙ h.0, keep-IsOwned plugin ts rs h.1)
  ]

register-IsManaged :
    {D : Type 0} (m : HookManager D) (plugin event : ℕ) (handler : HookContext D → HookResult D)
    (priority now : ℕ)
    → IsManaged m
    → IsManaged (register plugin event handler priority now m).1
unfolding register
register-IsManaged m plugin event handler priority now h =
    let id : HookId = record { plugin = plugin; event = event; at = now } in
    record {
      sorted = push_hook-AreSorted _ m.hooks h.sorted;
      owned =
          All-push_hook (λ r. is_tracked r.plugin_id (track plugin id m.plugin_hooks) ≡ true) _
            m.hooks
            (track-is_tracked plugin plugin id m.plugin_hooks ∙ ground (arith, ==_refl plugin))
            (All-map (IsOwned m.plugin_hooks) _ m.hooks
              (λ e k.
                All-map (λ (r : HookRegistration _). is_tracked r.plugin_id m.plugin_hooks ≡ true) _
                  e.registrations
                  (λ r j. track-is_tracked plugin r.plugin_id id m.plugin_hooks ∙ ground (arith, j))
                  k)
              h.owned);
    }

unregister-IsManaged :
    {D : Type 0} (m : HookManager D) (id : HookId) → IsManaged m → IsManaged (unregister id m)
unfolding unregister
unregister-IsManaged m id h = elim (Option-cases (found_hook id m.hooks)) [
  | inl e ↦ rw (e, unregister) h
  | inr (r, e) ↦
      rw (e, unregister)
        (record {
          sorted = All-remove_hook IsSorted id m.hooks (remove_first-IsSorted id) h.sorted;
          owned =
              All-map (IsOwned m.plugin_hooks) (IsOwned (untrack r.plugin_id id m.plugin_hooks)) _
                (λ e k.
                  All-map (λ (q : HookRegistration _). is_tracked q.plugin_id m.plugin_hooks ≡ true)
                    _ e.registrations
                    (λ q j. untrack-is_tracked r.plugin_id q.plugin_id id m.plugin_hooks ∙ j) k)
                (All-remove_hook
                  (All (λ (q : HookRegistration _). is_tracked q.plugin_id m.plugin_hooks ≡ true))
                  id m.hooks (All-remove_first _ id) h.owned);
        })
]

unregister_plugin-IsManaged :
    {D : Type 0} (m : HookManager D) (plugin : ℕ)
    → IsManaged m
    → IsManaged (unregister_plugin plugin m)
unfolding unregister_plugin
unregister_plugin-IsManaged m plugin h = elim (Bool-cases (is_tracked plugin m.plugin_hooks)) [
  | inr e ↦ rw e h
  | inl e ↦ rw e (record {
    sorted =
        All-without_plugin IsSorted IsSorted plugin m.hooks (keep-IsSorted (is_foreign_hook plugin))
          h.sorted;
    owned =
        All-without_plugin (AreOwned m.plugin_hooks)
          (AreOwned (keep (λ (t : Tracked). not (t.plugin_id == plugin)) m.plugin_hooks)) plugin
          m.hooks (keep-IsOwned plugin m.plugin_hooks) h.owned;
  })
]

-- In every manager that registrations, removals and cleanups lead to, the hooks of each event are
-- sorted by priority, and each has a plugin that is tracked.
pub Reachable-IsManaged : {D : Type 0} (m : HookManager D) → Reachable m → IsManaged m
Reachable-IsManaged m initial = record { sorted = tt; owned = tt }
Reachable-IsManaged m (registered plugin event handler priority now h) =
    register-IsManaged _ plugin event handler priority now (Reachable-IsManaged _ h)
Reachable-IsManaged m (unregistered id h) = unregister-IsManaged _ id (Reachable-IsManaged _ h)
Reachable-IsManaged m (cleaned plugin h) =
    unregister_plugin-IsManaged _ plugin (Reachable-IsManaged _ h)
