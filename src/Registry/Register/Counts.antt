-- ===== src/Registry/Register/Counts.antt =====
-- The counts that registerRecurfile returns.
use recur.Prelude.{
  ℕ, String, ◌+◌, ◌≡◌, refl, ◌∙◌, Option, List, [], ◌∷◌, ◌++◌, length, length-append, arith,
  String_eq,
}
use recur.Prelude.Dict
use recur.Prelude.Dict.{Dict}
use recur.Config.{Fields}
use recur.Plugins.{InstalledPlugin}
use recur.Recurfile.{RawAction, RawTrigger, RawGroup, RawFile, Warning}
use recur.Recurfile.Settings.{TriggerSettings}
use recur.Registry.{Env, Registry, recurfile_of_path}
use recur.EntityIndex
use recur.EntityIndex.{EntityRef}
use recur.Domain.{Trigger, Action}
use recur.Registry.Register.{
  Source, Progress, add_actions, add_triggers, add_trigger, add_groups, register_resolved,
  new_trigger, add_action, new_action, new_group, settings_for, count_of, bump, entity_id, or_path,
  unload,
}

-- The number of actions in a list of triggers
abbrev pub actions_in : List RawTrigger → ℕ
actions_in [] = 0
actions_in (t ∷ ts) = length t.actions + actions_in ts

-- The number of triggers in a list of groups
abbrev pub all_triggers : List RawGroup → ℕ
all_triggers [] = 0
all_triggers (g ∷ gs) = length g.triggers + all_triggers gs

-- The number of actions in a list of groups
abbrev pub all_actions : List RawGroup → ℕ
all_actions [] = 0
all_actions (g ∷ gs) = actions_in g.triggers + all_actions gs

-- How far a loop has counted on.
abbrev CountsOn : Progress → Progress → ℕ → ℕ → Type 0
CountsOn p q triggers actions =
    (q.trigger_count ≡ p.trigger_count + triggers)
    × (q.action_count ≡ p.action_count + actions)
    × (length q.group.trigger_ids ≡ length p.group.trigger_ids + triggers)
    × (length q.group.action_ids ≡ length p.group.action_ids + actions)

chain_counts :
    (p q s : Progress) (a b c d e f : ℕ)
    → a + c ≡ e
    → b + d ≡ f
    → CountsOn p q a b
    → CountsOn q s c d
    → CountsOn p s e f
chain_counts p q s a b c d e f x y (h0, h1, h2, h3) (k0, k1, k2, k3) =
    (omega arith, omega arith, omega arith, omega arith)

add_action-CountsOn :
    (src : Source) (act : Action) (p : Progress) → CountsOn p (add_action src act p) 0 1
unfolding add_action
add_action-CountsOn src act p =
    (omega arith, refl, omega arith, length-append p.group.action_ids (act.id ∷ []))

add_trigger-CountsOn :
    (src : Source) (tr : Trigger) (p : Progress) → CountsOn p (add_trigger src tr p) 1 0
unfolding add_trigger
add_trigger-CountsOn src tr p =
    (refl, omega arith, length-append p.group.trigger_ids (tr.id ∷ []), omega arith)

add_actions-CountsOn :
    (src : Source) (trigger_id : String) (settings : TriggerSettings) (counts : Dict String ℕ)
    (as' : List RawAction) (p : Progress)
    → CountsOn p (add_actions src trigger_id settings counts as' p) 0 (length as')
unfolding add_actions
add_actions-CountsOn src trigger_id settings counts [] p =
    (omega arith, omega arith, omega arith, omega arith)
add_actions-CountsOn src trigger_id settings counts (a ∷ as') p =
    let act = new_action src p.group trigger_id settings (count_of counts a.type) a in
    let q = add_action src act p in
    chain_counts p q (add_actions src trigger_id settings (bump a.type counts) as' q) 0 1 0
      (length as') 0 (length (a ∷ as')) (omega arith) (omega arith) (add_action-CountsOn src act p)
      (add_actions-CountsOn src trigger_id settings (bump a.type counts) as' q)

add_triggers-CountsOn :
    (src : Source) (g : RawGroup) (counts : Dict String ℕ) (ts : List RawTrigger) (p : Progress)
    → CountsOn p (add_triggers src g counts ts p) (length ts) (actions_in ts)
unfolding add_triggers
add_triggers-CountsOn src g counts [] p = (omega arith, omega arith, omega arith, omega arith)
add_triggers-CountsOn src g counts (t ∷ ts) p =
    let settings = settings_for src g t in
    let tr = new_trigger src p.group settings (count_of counts t.type) t in
    let q = add_trigger src tr p in
    let s = add_actions src tr.id settings [] t.actions q in
    chain_counts p q (add_triggers src g (bump t.type counts) ts s) 1 0 (length ts)
      (length t.actions + actions_in ts) (length (t ∷ ts)) (actions_in (t ∷ ts)) (omega arith)
      (omega arith) (add_trigger-CountsOn src tr p)
      (chain_counts q s (add_triggers src g (bump t.type counts) ts s) 0 (length t.actions)
        (length ts) (actions_in ts) (length ts) (length t.actions + actions_in ts) (omega arith)
        (omega arith) (add_actions-CountsOn src tr.id settings [] t.actions q)
        (add_triggers-CountsOn src g (bump t.type counts) ts s))

add_groups-counts :
    (src : Source) (gs : List RawGroup) (r : Registry) (triggers actions : ℕ) (ids : List String)
    → ((add_groups src gs r triggers actions ids).1 ≡ triggers + all_triggers gs)
      × ((add_groups src gs r triggers actions ids).2 ≡ actions + all_actions gs)
      × (length (add_groups src gs r triggers actions ids).3 ≡ length ids + length gs)
unfolding add_groups
add_groups-counts src [] r triggers actions ids = (omega arith, omega arith, omega arith)
add_groups-counts src (g ∷ gs) r triggers actions ids =
    let p = add_triggers src g [] g.triggers (record {
      registry = r;
      group = new_group src g;
      trigger_count = triggers;
      action_count = actions;
    }) in
    let h = add_triggers-CountsOn src g [] g.triggers (record {
      registry = r;
      group = new_group src g;
      trigger_count = triggers;
      action_count = actions;
    }) in
    let rest =
      add_groups-counts src gs
        (record p.registry {
          groups = Dict.insert p.group.id p.group p.registry.groups;
          index =
              EntityIndex.add src.env.to_lower
                (record { entity_type = "group"; id = p.group.id; name = g.name }) p.registry.index;
        })
        p.trigger_count p.action_count (ids ++ p.group.id ∷ []) in
    (
      omega (arith, rest.0, h.0),
      omega (arith, rest.1, h.1),
      omega (arith, rest.2, length-append ids (p.group.id ∷ [])),
    )

-- registerResolved counts every trigger of the file and every action of its triggers.
pub register_resolved-counts :
    (env : Env) (plugins : List InstalledPlugin) (defaults : Option Fields)
    (plugin_overrides : Dict String Fields) (f : RawFile) (warnings : List Warning) (r : Registry)
    → ((register_resolved env plugins defaults plugin_overrides f warnings r).1.trigger_count
        ≡ all_triggers f.groups)
      × ((register_resolved env plugins defaults plugin_overrides f warnings r).1.action_count
          ≡ all_actions f.groups)
unfolding register_resolved
register_resolved-counts env plugins defaults plugin_overrides f warnings r =
    let path = or_path f.path (env.clean_abs f.path) in
    let h =
      add_groups-counts
        (record {
          env = env;
          plugins = plugins;
          defaults = defaults;
          plugin_overrides = plugin_overrides;
          recurfile_id = entity_id env "recurfile" path;
          path = path;
        })
        f.groups (unload env (recurfile_of_path env path r.recurfiles) r).0 0 0 [] in
    (h.0 ∙ omega arith, h.1 ∙ omega arith)
