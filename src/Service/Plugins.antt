-- ===== src/Service/Plugins.antt =====
-- InstallPlugin and UninstallPlugin of src/app/recurd/daemon/api.go.
pub mod Removal
use Prim.Native.String.{◌++◌ as concat}
use recur.Prelude.{
  ℕ, String, ◌≡◌, ◌≢◌, refl, sym, ap, ◌∙◌, subst, Option, none, some, Bool, true, false, not, ◌&&◌,
  ◌||◌, ◌+◌, List, [], ◌∷◌, ◌++◌, ◌==◌, String_eq, if◌then◌else◌, map, length, In, Bool-cases,
  Option-cases, beq-cases, inl, inr, keep, keep-In,
}
use recur.Prelude.Result.{Resolved, resolved, unresolved}
use recur.Prelude.Dict
use recur.Prelude.Dict.{Dict, keys, lookup-remove, lookup-insert_self}
use recur.Domain.{Trigger, Action, Recurfile, status_active, status_suspended}
use recur.Plugins.{
  InstalledPlugin, Manifest, TriggerDef, ContextDef, find_by_identifier, find_trigger_definition,
}
use recur.Engine.{TriggerEvent}
use recur.Engine.Lifecycle.{Engine, deactivate}
use recur.Engine.Router.{
  Router, Delivery, delivered, not_registered, channel_full, panicked, deliver,
}
use recur.Registry.{Registry}
use recur.Registry.Control.{
  suspend_by_plugin_id, hit, suspend_trigger, Answer, done, found, find_entity_by_type,
}
use recur.Registry.Control.Laws.{suspend_by_plugin_id_lem, swept}
use recur.Registry.Queries.{get_trigger, values}
use recur.Daemon.{World, Daemon, save_state}
use recur.Daemon.Execution.Errors.{lookup-deactivate}
use recur.Service.{
  Reply, reply, refused, crashed, Code, code_invalid_argument, code_not_found, code_already_exists,
  with_identifier, deactivate_all, deactivate_each, suspend_trigger_request, suspended_trigger,
}

has_namespace : String → List InstalledPlugin → Bool
has_namespace namespace [] = false
has_namespace namespace (p ∷ ps) = p.manifest.namespace == namespace || has_namespace namespace ps

-- The id, the name, the namespace and the version of a plugin
abbrev pub PluginReply : Type 0
PluginReply = String × String × String × String

install_loaded : Daemon → Resolved InstalledPlugin → Daemon × Reply PluginReply
unfolding has_namespace
install_loaded d (unresolved e) = (d, refused code_invalid_argument e)
install_loaded d (resolved p) =
    if has_namespace p.manifest.namespace d.plugins
    then (d, refused code_already_exists "plugin namespace already installed")
    else (
      record d { plugins = d.plugins ++ p ∷ [] },
      reply (p.id, p.manifest.name, p.manifest.namespace, p.manifest.version),
    )

-- InstallPlugin, with what LoadPlugin returns for the path
unfoldable pub install_plugin_request :
    (String → Resolved InstalledPlugin) → String → Daemon → Daemon × Reply PluginReply
unfolding install_loaded
install_plugin_request load_plugin path d =
    if path == ""
    then (d, refused code_invalid_argument "path is required")
    else install_loaded d (load_plugin path)

-- The loop that removes a plugin from the slice
unfoldable pub without_plugin : String → List InstalledPlugin → List InstalledPlugin
without_plugin id [] = []
without_plugin id (p ∷ ps) =
    let rest = without_plugin id ps in if p.id == id then rest else p ∷ rest

save_if_any : World → List String → List String → Daemon → Daemon
save_if_any w [] [] d = d
save_if_any w trigger_ids action_ids d = save_state w d

unfoldable pub uninstall_found :
    World → Daemon → Option InstalledPlugin → Daemon × Reply (String × String × String)
unfolding without_plugin deactivate_each save_if_any
uninstall_found w d none = (d, refused code_not_found "plugin not found")
uninstall_found w d (some p) =
    let (r, trigger_ids, action_ids) = suspend_by_plugin_id p.manifest.namespace d.registry in
    (
      save_if_any w trigger_ids action_ids (record d {
        plugins = without_plugin p.id d.plugins;
        registry = r;
        engine = deactivate_each trigger_ids d.engine;
      }),
      reply (p.id, p.manifest.name, p.manifest.namespace),
    )

-- UninstallPlugin
unfoldable pub uninstall_plugin_request :
    World → String → Daemon → Daemon × Reply (String × String × String)
unfolding uninstall_found with_identifier
uninstall_plugin_request w identifier d =
    with_identifier identifier d
      (uninstall_found w d (find_by_identifier w.env.equal_fold d.plugins identifier))
