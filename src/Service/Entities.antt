-- ===== src/Service/Entities.antt =====
-- The handlers of src/app/recurd/daemon/api.go that take an identifier of any entity: resolveOne,
-- enrichCandidate, InspectEntity, SuspendEntity, ResumeEntity and TestEntity.
use Prim.Native.String.{◌++◌ as concat}
use recur.Prelude.{
  String, Option, none, some, Bool, false, ◌||◌, List, [], ◌∷◌, ◌==◌, String_eq, if◌then◌else◌, map,
  keep,
}
use recur.Prelude.Dict.{Dict}
use recur.Domain.{Trigger, Action, Group, Recurfile}
use recur.EntityIndex
use recur.EntityIndex.{EntityRef}
use recur.Registry.{Registry}
use recur.Registry.Queries.{find_in, get_trigger, recurfile_path_for_group}
use recur.Daemon.{World, Daemon}
use recur.Service.{
  Reply, reply, refused, crashed, Code, code_invalid_argument, code_not_found, code_internal,
  Changed, suspend_trigger_request, suspend_action_request, resume_trigger_request,
  resume_action_request,
}
use recur.Service.Inspection.{
  Detail, GroupDetail, RecurfileDetail, PluginDetail, inspect_trigger_request,
  inspect_action_request, inspect_group_request, inspect_recurfile_request, inspect_plugin_request,
}
use recur.Service.Testing.{TestReply, test_trigger_request, test_action_request}

is_allowed : String → List String → Bool
is_allowed type [] = false
is_allowed type (t ∷ ts) = t == type || is_allowed type ts

-- resolveEntity of registry.go; `none` is a panic of the index.
unfoldable pub resolve_entity : World → Registry → String → List String → Option (List EntityRef)
unfolding is_allowed
resolve_entity w r identifier [] = EntityIndex.resolve w.env.to_lower identifier r.index
resolve_entity w r identifier (t ∷ ts) =
    elim (EntityIndex.resolve w.env.to_lower identifier r.index) [
      | none ↦ none
      | some refs ↦ some (keep (λ ref. is_allowed ref.entity_type (t ∷ ts)) refs)
    ]

-- EntityCandidate
pub record Candidate : Type 0 where
  pub ref : EntityRef
  pub group : String
  pub recurfile : String

of_trigger : EntityRef → Option Trigger → Candidate
of_trigger ref none = record { ref = ref; group = ""; recurfile = "" }
of_trigger ref (some t) = record { ref = ref; group = t.group_name; recurfile = t.recurfile_path }

of_action : EntityRef → Option (Option Action) → Candidate
of_action ref (some (some a)) = record {
  ref = ref;
  group = a.group_name;
  recurfile = a.recurfile_path;
}
of_action ref _ = record { ref = ref; group = ""; recurfile = "" }

of_group : Registry → EntityRef → Option (Option Group) → Candidate
of_group r ref (some (some g)) = record {
  ref = ref;
  group = "";
  recurfile = recurfile_path_for_group r g.recurfile_id;
}
of_group r ref _ = record { ref = ref; group = ""; recurfile = "" }

of_recurfile : EntityRef → Option (Option Recurfile) → Candidate
of_recurfile ref (some (some wf)) = record { ref = ref; group = ""; recurfile = wf.file_path }
of_recurfile ref _ = record { ref = ref; group = ""; recurfile = "" }

-- enrichCandidate. The index has answered before it is called, so a panic of it is not to be expected
-- and counts as nothing found.
unfoldable pub enrich_candidate : World → Registry → EntityRef → Candidate
unfolding of_trigger of_action of_group of_recurfile
enrich_candidate w r ref =
    if ref.entity_type == "trigger"
    then of_trigger ref (get_trigger r ref.id)
    else if ref.entity_type == "action"
    then of_action ref (find_in w.env r "action" ref.id r.actions)
    else if ref.entity_type == "group"
    then of_group r ref (find_in w.env r "group" ref.id r.groups)
    else if ref.entity_type == "recurfile"
    then of_recurfile ref (find_in w.env r "recurfile" ref.id r.recurfiles)
    else record { ref = ref; group = ""; recurfile = "" }

-- What resolveOne returns
pub data One : Type 0 where
  one : EntityRef → One
  absent : One
  ambiguous : List Candidate → One
  index_panic : One

one_of : World → Registry → Option (List EntityRef) → One
unfolding enrich_candidate
one_of w r none = index_panic
one_of w r (some []) = absent
one_of w r (some (ref ∷ [])) = one ref
one_of w r (some (ref ∷ ref' ∷ refs)) = ambiguous (map (enrich_candidate w r) (ref ∷ ref' ∷ refs))

-- resolveOne
unfoldable pub resolve_one : World → Registry → String → List String → One
unfolding one_of resolve_entity
resolve_one w r identifier allowed = one_of w r (resolve_entity w r identifier allowed)

-- The reply of a handler on entities: the entity's type with the inner reply, or the candidates of an
-- ambiguous identifier
pub data EntityReply (A : Type 0) : Type 0 where
  entity : String → A → EntityReply A
  failure : Code → String → EntityReply A
  candidates : List Candidate → EntityReply A
  crash : EntityReply A

unfoldable pub in_entity : {A : Type 0} → String → Reply A → EntityReply A
in_entity type (reply x) = entity type x
in_entity type (refused code message) = failure code message
in_entity type crashed = crash

-- The allowed types of the handlers that suspend, resume and test
abbrev pub allowed_types : String → List String
allowed_types entity_type =
    if entity_type == "" then "trigger" ∷ "action" ∷ [] else entity_type ∷ []

changed_entity :
    String
    → (String → Daemon → Daemon × Reply Changed)
    → (String → Daemon → Daemon × Reply Changed)
    → Daemon
    → EntityRef
    → Daemon × EntityReply Changed
unfolding in_entity
changed_entity verb on_trigger on_action d ref =
    if ref.entity_type == "trigger"
    then (let (d', r) = on_trigger ref.id d in (d', in_entity "trigger" r))
    else if ref.entity_type == "action"
    then (let (d', r) = on_action ref.id d in (d', in_entity "action" r))
    else (
      d,
      failure code_invalid_argument
          (concat "cannot " (concat verb (concat " entity type: " ref.entity_type))),
    )

change_one :
    String
    → (String → Daemon → Daemon × Reply Changed)
    → (String → Daemon → Daemon × Reply Changed)
    → String
    → Daemon
    → One
    → Daemon × EntityReply Changed
unfolding changed_entity
change_one verb on_trigger on_action identifier d (one ref) =
    changed_entity verb on_trigger on_action d ref
change_one verb on_trigger on_action identifier d absent =
    (d, failure code_not_found (concat "entity not found: " identifier))
change_one verb on_trigger on_action identifier d (ambiguous cs) = (d, candidates cs)
change_one verb on_trigger on_action identifier d index_panic = (d, crash)

-- SuspendEntity
unfoldable pub suspend_entity_request :
    World → String → String → Daemon → Daemon × EntityReply Changed
unfolding change_one resolve_one
suspend_entity_request w identifier entity_type d =
    if identifier == ""
    then (d, failure code_invalid_argument "identifier is required")
    else change_one "suspend" (suspend_trigger_request w) (suspend_action_request w) identifier d
        (resolve_one w d.registry identifier (allowed_types entity_type))

-- ResumeEntity
unfoldable pub resume_entity_request :
    World → String → String → Daemon → Daemon × EntityReply Changed
unfolding change_one resolve_one
resume_entity_request w identifier entity_type d =
    if identifier == ""
    then (d, failure code_invalid_argument "identifier is required")
    else change_one "resume" (resume_trigger_request w) (resume_action_request w) identifier d
        (resolve_one w d.registry identifier (allowed_types entity_type))

test_one : World → Dict String String → String → Daemon → One → EntityReply TestReply
unfolding in_entity
test_one w set identifier d (one ref) =
    if ref.entity_type == "trigger"
    then in_entity "trigger" (test_trigger_request w ref.id set d)
    else if ref.entity_type == "action"
    then in_entity "action" (test_action_request w ref.id set d)
    else failure code_invalid_argument (concat "cannot test entity type: " ref.entity_type)
test_one w set identifier d absent = failure code_not_found (concat "entity not found: " identifier)
test_one w set identifier d (ambiguous cs) = candidates cs
test_one w set identifier d index_panic = crash

-- TestEntity
unfoldable pub test_entity_request :
    World → String → String → Dict String String → Daemon → EntityReply TestReply
unfolding test_one resolve_one
test_entity_request w identifier entity_type set d =
    if identifier == ""
    then failure code_invalid_argument "identifier is required"
    else test_one w set identifier d
        (resolve_one w d.registry identifier (allowed_types entity_type))

-- The details of InspectEntityResponse
pub data Inspected : Type 0 where
  trigger_found action_found : Detail → Inspected
  group_found : GroupDetail → Inspected
  recurfile_found : RecurfileDetail → Inspected
  plugin_found : PluginDetail → Inspected

map_reply : {A B : Type 0} → (A → B) → Reply A → Reply B
map_reply f (reply x) = reply (f x)
map_reply f (refused code message) = refused code message
map_reply f crashed = crashed

inspect_one : World → String → Daemon → One → EntityReply Inspected
unfolding in_entity map_reply
inspect_one w identifier d (one ref) = in_entity ref.entity_type (
    if ref.entity_type == "trigger"
    then map_reply trigger_found (inspect_trigger_request w ref.id d)
    else if ref.entity_type == "action"
    then map_reply action_found (inspect_action_request w ref.id d)
    else if ref.entity_type == "group"
    then map_reply group_found (inspect_group_request w ref.id d)
    else if ref.entity_type == "recurfile"
    then map_reply recurfile_found (inspect_recurfile_request w ref.id d)
    else refused code_internal (concat "unknown entity type: " ref.entity_type))
inspect_one w identifier d absent = failure code_not_found (concat "entity not found: " identifier)
inspect_one w identifier d (ambiguous cs) = candidates cs
inspect_one w identifier d index_panic = crash

one_type : String → List String
one_type entity_type = if entity_type == "" then [] else entity_type ∷ []

inspect_plugin_first : World → String → String → Daemon → Reply PluginDetail → EntityReply Inspected
unfolding inspect_one resolve_one one_type
inspect_plugin_first w identifier entity_type d (reply p) = entity "plugin" (plugin_found p)
inspect_plugin_first w identifier entity_type d (refused code message) =
    if entity_type == "plugin"
    then failure code message
    else inspect_one w identifier d (resolve_one w d.registry identifier (one_type entity_type))
inspect_plugin_first w identifier entity_type d crashed = crash

-- InspectEntity: a plugin is looked for first, where the request allows one.
unfoldable pub inspect_entity_request : World → String → String → Daemon → EntityReply Inspected
unfolding inspect_plugin_first
inspect_entity_request w identifier entity_type d =
    if identifier == ""
    then failure code_invalid_argument "identifier is required"
    else if entity_type == "" || entity_type == "plugin"
    then inspect_plugin_first w identifier entity_type d (inspect_plugin_request w identifier d)
    else inspect_one w identifier d (resolve_one w d.registry identifier (one_type entity_type))
