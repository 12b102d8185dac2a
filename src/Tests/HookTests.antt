-- ===== src/Tests/HookTests.antt =====
-- The theorems on hooks, at a manager with two hooks on numbers.
use notifymain_wa.Prelude.{ℕ, suc, ◌≡◌, refl, true, false, none, some, [], ◌∷◌, ◌==◌, keep, All}
use notifymain_wa.Hooks.{
  HookContext, HookResult, answered, threw, HookRegistration, HookManager, register,
  unregister_plugin, hooks_of, is_foreign_hook,
}
use notifymain_wa.Hooks.Order.{insert_after, register-hooks_of}
use notifymain_wa.Hooks.Cleanup.{unregister_plugin-hooks_of}
use notifymain_wa.Hooks.Invariant.{Reachable, initial, registered, IsManaged, Reachable-IsManaged}

abbrev add_one : HookContext ℕ → HookResult ℕ
add_one c = answered true (some (suc c.payload)) false

abbrev fail : HookContext ℕ → HookResult ℕ
fail c = threw

abbrev empty : HookManager ℕ
empty = record { hooks = []; plugin_hooks = [] }

abbrev one_hook : HookManager ℕ
one_hook = (register 1 4 add_one 100 0 empty).1

one_hook-Reachable : Reachable one_hook
one_hook-Reachable = registered 1 4 add_one 100 0 initial

Reachable-IsManaged_example : IsManaged one_hook
Reachable-IsManaged_example = Reachable-IsManaged one_hook one_hook-Reachable

register-hooks_of_example :
    hooks_of 4 (register 2 4 fail 100 1 one_hook).1
    ≡ insert_after
        (record {
          id = (register 2 4 fail 100 1 one_hook).0;
          plugin_id = 2;
          event = 4;
          handler = fail;
          priority = 100;
        })
        (hooks_of 4 one_hook)
register-hooks_of_example =
    register-hooks_of one_hook 2 4 4 100 1 fail
      (Reachable-IsManaged one_hook one_hook-Reachable).sorted

unregister_plugin-hooks_of_example :
    hooks_of 4 (unregister_plugin 1 one_hook) ≡ keep (is_foreign_hook 1) (hooks_of 4 one_hook)
unregister_plugin-hooks_of_example = unregister_plugin-hooks_of one_hook 1 4 one_hook-Reachable

abbrev context : HookContext ℕ
context = record { event = 4; payload = 0; session_id = none; timestamp = 0; source = 0 }

abbrev hook : (HookContext ℕ → HookResult ℕ) → ℕ → HookRegistration ℕ
hook handler plugin = record {
  id = record { plugin = plugin; event = 4; at = 0 };
  plugin_id = plugin;
  event = 4;
  handler = handler;
  priority = 100;
}

-- The hook of plugin 2 throws.
second_throws :
    All
      (λ (r : HookRegistration ℕ).
        (c : HookContext ℕ) → (r.plugin_id == 2) ≡ true → r.handler c ≡ threw)
      (hook add_one 1 ∷ hook fail 2 ∷ [])
second_throws = ((λ c h. cc), ((λ c h. refl), tt))
