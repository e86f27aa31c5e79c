-- ===== src/Service/Testing.antt =====
-- TestTrigger and TestAction of src/app/recurd/daemon/api.go. They run the executor directly: no error is
-- counted, and the daemon is as it was.
use Prim.Native.String.{◌++◌ as concat}
use recur.Prelude.{
  String, Option, none, some, true, List, [], ◌∷◌, ◌++◌, ◌==◌, String_eq, if◌then◌else◌,
}
use recur.Prelude.Dict.{Dict}
use recur.Domain.{Trigger, Action, Group}
use recur.Registry.Queries.{find_in}
use recur.Actions.{Context, ExecutionResult}
use recur.Actions.Plugin.{execute_action}
use recur.Daemon.{World, Daemon}
use recur.Daemon.Execution.{resolve_secrets_into}
use recur.Service.{Reply, reply, refused, crashed, code_invalid_argument, code_not_found}

-- The results, as ExecutionResultToProto passes them on, and the warnings
abbrev pub TestReply : Type 0
TestReply = List ExecutionResult × List String

test_context : World → Daemon → String → Dict String String → Context
test_context w d recurfile_id set =
    resolve_secrets_into w d recurfile_id (record { test = true; set = set; secrets = none })

run_test : World → Daemon → Context → Action → TestReply
run_test w d ctx a =
    let (result, warnings) = execute_action w.rt d.executor_config d.executor_plugins a ctx in
    (result ∷ [], warnings)

-- The loop over the action ids; `none` is a panic of the index.
unfoldable pub test_each : World → Daemon → Context → List String → Option TestReply
unfolding run_test
test_each w d ctx [] = some ([], [])
test_each w d ctx (id ∷ ids) =
    let rest = test_each w d ctx ids in
    elim (find_in w.env d.registry "action" id d.registry.actions) [
      | none ↦ none
      | some none ↦ rest
      | some (some a) ↦ elim rest [
        | none ↦ none
        | some (results, warnings) ↦
            let (r, more) = run_test w d ctx a in some (r ++ results, more ++ warnings)
      ]
    ]

reply_or_crash : Option TestReply → Reply TestReply
reply_or_crash none = crashed
reply_or_crash (some r) = reply r

test_group : World → Daemon → Trigger → Dict String String → Option (Option Group) → Reply TestReply
unfolding test_context test_each reply_or_crash
test_group w d t set none = crashed
test_group w d t set (some none) = reply ([], "trigger's group not found" ∷ [])
test_group w d t set (some (some g)) =
    reply_or_crash (test_each w d (test_context w d t.recurfile_id set) g.action_ids)

test_trigger_found :
    World → Daemon → String → Dict String String → Option (Option Trigger) → Reply TestReply
unfolding test_group
test_trigger_found w d identifier set none = crashed
test_trigger_found w d identifier set (some none) =
    refused code_not_found (concat "trigger not found: " identifier)
test_trigger_found w d identifier set (some (some t)) =
    test_group w d t set (find_in w.env d.registry "group" t.group_id d.registry.groups)

-- TestTrigger
unfoldable pub test_trigger_request : World → String → Dict String String → Daemon → Reply TestReply
unfolding test_trigger_found
test_trigger_request w identifier set d =
    if identifier == ""
    then refused code_invalid_argument "identifier is required"
    else test_trigger_found w d identifier set
        (find_in w.env d.registry "trigger" identifier d.registry.triggers)

test_action_found :
    World → Daemon → String → Dict String String → Option (Option Action) → Reply TestReply
unfolding test_context run_test
test_action_found w d identifier set none = crashed
test_action_found w d identifier set (some none) =
    refused code_not_found (concat "action not found: " identifier)
test_action_found w d identifier set (some (some a)) =
    reply (run_test w d (test_context w d a.recurfile_id set) a)

-- TestAction
unfoldable pub test_action_request : World → String → Dict String String → Daemon → Reply TestReply
unfolding test_action_found
test_action_request w identifier set d =
    if identifier == ""
    then refused code_invalid_argument "identifier is required"
    else test_action_found w d identifier set
        (find_in w.env d.registry "action" identifier d.registry.actions)
