-- ===== src/Hooks.antt =====
-- src/core/hooks/hook-manager.service.ts and hook.interfaces.ts: the handlers that plugins register
-- for events of the engine. Plugins, events and sources are numbers, since the code only compares
-- them. The time `Date.now()` is given.
pub mod Order
pub mod Invariant
pub mod Cleanup
pub mod Chain
use notifymain_wa.Prelude.{
  ℕ, ◌+◌, Bool, true, false, not, ◌&&◌, Option, none, some, List, [], ◌∷◌, ◌++◌, map, ◌==◌, leb,
  if◌then◌else◌, length, keep, any, find_first, or_else, is_some, is_empty,
}

-- The id of a hook, `${pluginId}:${event}:${Date.now()}`.
pub record HookId : Type 0 where
  pub plugin : ℕ
  pub event : ℕ
  pub at : ℕ

abbrev pub same_id : HookId → HookId → Bool
same_id a b = (a.plugin == b.plugin) && (a.event == b.event) && (a.at == b.at)

pub record HookContext (D : Type 0) : Type 0 where
  pub event : ℕ
  pub payload : D  -- `data`
  pub session_id : Option ℕ
  pub timestamp : ℕ
  pub source : ℕ

-- What a handler answers, or that it throws.
pub data HookResult (D : Type 0) : Type 0 where
  answered : (continues : Bool) (new : Option D) (error : Bool) → HookResult D
  threw : HookResult D

pub record HookRegistration (D : Type 0) : Type 0 where
  pub id : HookId
  pub plugin_id : ℕ
  pub event : ℕ
  pub handler : HookContext D → HookResult D
  pub priority : ℕ

-- An entry of the map `hooks`, and one of `pluginHooks`.
pub record Entry (D : Type 0) : Type 0 where
  pub event : ℕ
  pub registrations : List (HookRegistration D)

pub record Tracked : Type 0 where
  pub plugin_id : ℕ
  pub hook_ids : List HookId

-- The two maps, in the order of insertion.
pub record HookManager (D : Type 0) : Type 0 where
  pub hooks : List (Entry D)
  pub plugin_hooks : List Tracked

module _ {D : Type 0} where
  -- `sort((a, b) => a.priority - b.priority)`, which is stable.
  unfoldable pub insert_by_priority :
      HookRegistration D → List (HookRegistration D) → List (HookRegistration D)
  insert_by_priority r [] = r ∷ []
  insert_by_priority r (q ∷ qs) =
      if leb r.priority q.priority then r ∷ q ∷ qs else q ∷ insert_by_priority r qs

  unfoldable pub sort : List (HookRegistration D) → List (HookRegistration D)
  unfolding insert_by_priority
  sort [] = []
  sort (r ∷ rs) = insert_by_priority r (sort rs)

  -- The entry of the event, which is made if there is none, with the registration pushed and all
  -- of them sorted.
  unfoldable pub push_hook : HookRegistration D → List (Entry D) → List (Entry D)
  unfolding sort
  push_hook r [] = record { event = r.event; registrations = sort (r ∷ []) } ∷ []
  push_hook r (e ∷ es) =
      if e.event == r.event
      then record e { registrations = sort (e.registrations ++ r ∷ []) } ∷ es
      else e ∷ push_hook r es

-- `Set.add` in the entry of the plugin, which is made if there is none.
abbrev pub add_id : HookId → List HookId → List HookId
add_id id ids = if any (same_id id) ids then ids else ids ++ id ∷ []

unfoldable pub track : ℕ → HookId → List Tracked → List Tracked
track plugin id [] = record { plugin_id = plugin; hook_ids = id ∷ [] } ∷ []
track plugin id (t ∷ ts) =
    if t.plugin_id == plugin
    then record t { hook_ids = add_id id t.hook_ids } ∷ ts
    else t ∷ track plugin id ts

-- `pluginHooks.get(plugin)?.delete(id)`
unfoldable pub untrack : ℕ → HookId → List Tracked → List Tracked
untrack plugin id [] = []
untrack plugin id (t ∷ ts) =
    if t.plugin_id == plugin
    then record t { hook_ids = keep (λ other. not (same_id other id)) t.hook_ids } ∷ ts
    else t ∷ untrack plugin id ts

abbrev pub is_tracked : ℕ → List Tracked → Bool
is_tracked plugin ts = any (λ (t : Tracked). t.plugin_id == plugin) ts

module _ {D : Type 0} where
  unfoldable pub register :
      (plugin event : ℕ)
      → (HookContext D → HookResult D)
      → (priority now : ℕ) → HookManager D
      → HookId × HookManager D
  unfolding push_hook track
  register plugin event handler priority now m =
      let id : HookId = record { plugin = plugin; event = event; at = now } in
      let registration : HookRegistration D = record {
        id = id;
        plugin_id = plugin;
        event = event;
        handler = handler;
        priority = priority;
      } in
      (
        id,
        record {
          hooks = push_hook registration m.hooks;
          plugin_hooks = track plugin id m.plugin_hooks;
        },
      )

  -- `findIndex` and `splice`: the list without the first registration of the id.
  unfoldable pub remove_first : HookId → List (HookRegistration D) → List (HookRegistration D)
  remove_first id [] = []
  remove_first id (r ∷ rs) = if same_id r.id id then rs else r ∷ remove_first id rs

  abbrev pub holds : HookId → Entry D → Bool
  holds id e = any (λ (r : HookRegistration D). same_id r.id id) e.registrations

  -- The loop over the entries stops at the first one that holds the id.
  unfoldable pub remove_hook : HookId → List (Entry D) → List (Entry D)
  unfolding remove_first
  remove_hook id [] = []
  remove_hook id (e ∷ es) =
      if holds id e
      then record e { registrations = remove_first id e.registrations } ∷ es
      else e ∷ remove_hook id es

  -- The registration that `unregister` removes.
  abbrev pub found_hook : HookId → List (Entry D) → Option (HookRegistration D)
  found_hook id es = elim (find_first (holds id) es) [
    | none ↦ none
    | some e ↦ find_first (λ (r : HookRegistration D). same_id r.id id) e.registrations
  ]

  unfoldable pub unregister : HookId → HookManager D → HookManager D
  unfolding remove_hook untrack
  unregister id m = elim (found_hook id m.hooks) [
    | none ↦ m
    | some r ↦ record {
      hooks = remove_hook id m.hooks;
      plugin_hooks = untrack r.plugin_id id m.plugin_hooks;
    }
  ]

  abbrev pub is_foreign_hook : ℕ → HookRegistration D → Bool
  is_foreign_hook plugin r = not (r.plugin_id == plugin)

  abbrev pub without_plugin : ℕ → Entry D → Entry D
  without_plugin plugin e = record e {
    registrations = keep (is_foreign_hook plugin) e.registrations;
  }

  unfoldable pub unregister_plugin : ℕ → HookManager D → HookManager D
  unregister_plugin plugin m =
      if is_tracked plugin m.plugin_hooks
      then record {
        hooks = map (without_plugin plugin) m.hooks;
        plugin_hooks = keep (λ (t : Tracked). not (t.plugin_id == plugin)) m.plugin_hooks;
      }
      else m

  -- The loop of `execute`: whether to continue, and the data.
  unfoldable pub run_hooks : HookContext D → List (HookRegistration D) → D → Bool × D
  run_hooks ctx [] current = (true, current)
  run_hooks ctx (r ∷ rs) current = elim (r.handler (record ctx { payload = current })) [
    | threw ↦ run_hooks ctx rs current
    | answered continues new error ↦
        let changed = or_else new current in
        elim continues [ false ↦ (false, changed) | true ↦ run_hooks ctx rs changed ]
  ]

  abbrev pub hooks_of : ℕ → HookManager D → List (HookRegistration D)
  hooks_of event m = elim (find_first (λ (e : Entry D). e.event == event) m.hooks) [
    | none ↦ []
    | some e ↦ e.registrations
  ]

  unfoldable pub execute : (event : ℕ) → D → Option ℕ → (source now : ℕ) → HookManager D → Bool × D
  unfolding run_hooks
  execute event current session source now m =
      run_hooks
        (record {
          event = event;
          payload = current;
          session_id = session;
          timestamp = now;
          source = source;
        })
        (hooks_of event m) current

  abbrev pub get_hook_count : ℕ → HookManager D → ℕ
  get_hook_count event m = length (hooks_of event m)

  abbrev pub has_hooks : ℕ → HookManager D → Bool
  has_hooks event m = not (is_empty (hooks_of event m))

  unfoldable pub get_plugin_events : ℕ → HookManager D → List ℕ
  get_plugin_events plugin m =
      map (λ (e : Entry D). e.event)
        (keep
          (λ (e : Entry D). any (λ (r : HookRegistration D). r.plugin_id == plugin) e.registrations)
          m.hooks)
