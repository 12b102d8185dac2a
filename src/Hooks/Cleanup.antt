-- ===== src/Hooks/Cleanup.antt =====
-- What is left after a plugin is removed.
use notifymain_wa.Prelude.{
  ℕ, ◌≡◌, refl, sym, ap, ◌∙◌, true, false, List, [], ◌∷◌, map, arith, Bool-cases, inl, inr, ◌==◌,
  All, keep,
}
use notifymain_wa.Hooks.{
  HookRegistration, Entry, Tracked, HookManager, unregister_plugin, hooks_of, is_tracked,
  is_foreign_hook, without_plugin,
}
use notifymain_wa.Hooks.Order.{registrations_of}
use notifymain_wa.Hooks.Invariant.{IsOwned, Reachable, Reachable-IsManaged}

keep_unowned :
    {D : Type 0} (plugin : ℕ) (ts : List Tracked) (rs : List (HookRegistration D))
    → is_tracked plugin ts ≡ false
    → All (λ (r : HookRegistration D). is_tracked r.plugin_id ts ≡ true) rs
    → keep (is_foreign_hook plugin) rs ≡ rs
keep_unowned plugin ts [] none_there h = refl
keep_unowned plugin ts (r ∷ rs) none_there h = elim (Bool-cases (r.plugin_id == plugin)) [
  | inl e ↦
      let same : r.plugin_id ≡ plugin = ground arith in
      let bad : true ≡ false = sym h.0 ∙ (ap (λ p. is_tracked p ts) same ∙ none_there) in cc
  | inr e ↦ rw e (ap (λ rest. r ∷ rest) (keep_unowned plugin ts rs none_there h.1))
]

map-without_plugin :
    {D : Type 0} (plugin event : ℕ) (es : List (Entry D))
    → registrations_of event (map (without_plugin plugin) es)
      ≡ keep (is_foreign_hook plugin) (registrations_of event es)
map-without_plugin plugin event [] = refl
map-without_plugin plugin event (e ∷ es) = elim (Bool-cases (e.event == event)) [
  | inl here ↦ rw (here, registrations_of) refl
  | inr there ↦ rw (there, registrations_of) (map-without_plugin plugin event es)
]

keep-foreign_hooks :
    {D : Type 0} (plugin event : ℕ) (ts : List Tracked) (es : List (Entry D))
    → is_tracked plugin ts ≡ false
    → All (IsOwned ts) es
    → keep (is_foreign_hook plugin) (registrations_of event es) ≡ registrations_of event es
keep-foreign_hooks plugin event ts [] none_there h = refl
keep-foreign_hooks plugin event ts (e ∷ es) none_there h = elim (Bool-cases (e.event == event)) [
  | inl here ↦ rw (here, registrations_of) (keep_unowned plugin ts e.registrations none_there h.0)
  | inr there ↦ rw (there, registrations_of) (keep-foreign_hooks plugin event ts es none_there h.1)
]

-- After a plugin is removed from a reachable manager, the hooks of every event are those that were
-- there without its own, in the same order.
pub unregister_plugin-hooks_of :
    {D : Type 0} (m : HookManager D) (plugin event : ℕ)
    → Reachable m
    → hooks_of event (unregister_plugin plugin m) ≡ keep (is_foreign_hook plugin) (hooks_of event m)
unfolding unregister_plugin
unregister_plugin-hooks_of m plugin event h = elim (Bool-cases (is_tracked plugin m.plugin_hooks)) [
  | inl e ↦ rw e (map-without_plugin plugin event m.hooks)
  | inr e ↦ rw e (
      sym
        (keep-foreign_hooks plugin event m.plugin_hooks m.hooks e (Reachable-IsManaged m h).owned))
]
