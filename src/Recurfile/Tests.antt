-- ===== src/Recurfile/Tests.antt =====
-- Runs of src/domain/recurfile, and the claims about it at concrete inputs.
use recur.Prelude.{String, ◌≡◌, refl, some, none, [], ◌∷◌, Option, map}
use recur.Prelude.Dict
use recur.Prelude.Dict.{Dict}
use recur.Prelude.Int.{ℤ}
use recur.Config.{Fields, no_fields, field, str, get}
use recur.Config.Overlay.{layered}
use recur.Recurfile.{
  RawAction, RawTrigger, RawFile, resolve, validate, resolve_group, resolve_trigger, expand_type,
  expand_alias, expand_option_aliases,
}
use recur.Recurfile.Seeds.{decimal, trigger_seed}
use recur.Recurfile.Seeds.{decimal}
use recur.Recurfile.Settings.{build_trigger_settings}
use recur.Recurfile.Settings.Precedence.{
  build_trigger_settings_lem, chain, concurrency_mode_most_specific,
}
use recur.Recurfile.Resolution.{
  bare, validate-resolve, action_types, types_in, types_for, resolve-types, resolve_trigger-options,
}

decimal_test : decimal 1207 ≡ "1207"
unfolding decimal
decimal_test = refl

seed_test : trigger_seed "ab" "cron" 1 ≡ "ab:cron:1"
unfolding trigger_seed
seed_test = refl

abbrev fs : Dict String String
fs = ("fs", "com.files") ∷ ("com", "org") ∷ []

expand_test : expand_alias fs "fs.Created" ≡ "com.files.Created"
unfolding expand_alias Dict.lookup
expand_test = refl

abbrev notify : RawAction
notify = record { type = "fs.notify"; name = ""; options = no_fields }

abbrev own_action : RawTrigger
own_action = record { type = "cron"; name = ""; options = no_fields; actions = notify ∷ [] }

abbrev no_action : RawTrigger
no_action = record {
  type = "fs.Created";
  name = "";
  options = field "debounce" (str "1s") no_fields;
  actions = [];
}

-- The same action, written in a trigger and in its group, gets two types.
own_type :
    action_types (resolve_trigger fs no_fields [] own_action).actions ≡ "com.files.notify" ∷ []
unfolding resolve_trigger expand_alias Dict.lookup
own_type = refl

inherited_type :
    action_types
      (resolve_trigger fs no_fields (map (expand_type fs) (notify ∷ [])) no_action).actions
    ≡ "org.files.notify" ∷ []
unfolding resolve_trigger expand_alias expand_type Dict.lookup
inherited_type = refl

abbrev group_options : Fields
group_options = field "debounce" (str "5s") no_fields

resolve_trigger-options_test :
    get "debounce" (resolve_trigger [] group_options [] no_action).options
    ≡ layered
        (layered none (get "debounce" group_options))
        (get "debounce" (expand_option_aliases [] no_action.options))
unfolding get expand_option_aliases
resolve_trigger-options_test =
    resolve_trigger-options [] group_options [] no_action "debounce" (refl, tt) (refl, tt)

abbrev file : RawFile
file = record {
  path = "/r.yaml";
  aliases = fs;
  secrets = [];
  groups =
      (record {
        name = "build";
        aliases = [];
        options = no_fields;
        triggers = own_action ∷ no_action ∷ [];
        actions = notify ∷ [];
      })
      ∷ (record {
        name = "lint";
        aliases = [];
        options = no_fields;
        triggers = no_action ∷ [];
        actions = [];
      })
      ∷ [];
}

resolve-types_test :
    map types_in (resolve file).groups
    ≡ (("com.files.notify" ∷ []) ∷ ("org.files.notify" ∷ []) ∷ []) ∷ ([] ∷ []) ∷ []
unfolding resolve resolve_group resolve_trigger expand_alias expand_type Dict.lookup Dict.insert
resolve-types_test = refl

resolve-types_example : map types_in (resolve file).groups ≡ map (types_for fs) file.groups
resolve-types_example = resolve-types file

validate-resolve_example : validate (resolve file) ≡ bare fs file.groups
validate-resolve_example = validate-resolve file

abbrev no_durations : String → Option ℤ
no_durations s = none

abbrev drop_mode : Fields
drop_mode = field "concurrency_mode" (str "drop") no_fields

build_trigger_settings_lem_example :
    build_trigger_settings no_durations (some drop_mode) none none none (some group_options)
    ≡ chain no_durations (some drop_mode ∷ none ∷ none ∷ none ∷ some group_options ∷ [])
unfolding get
build_trigger_settings_lem_example =
    build_trigger_settings_lem no_durations (some drop_mode) none none none (some group_options)
      ((refl, tt), ((refl, tt), tt))

concurrency_mode_most_specific_test :
    (build_trigger_settings no_durations
      (some drop_mode)
      none
      none
      none
      (some group_options)).concurrency_mode
    ≡ "drop"
unfolding get
concurrency_mode_most_specific_test =
    concurrency_mode_most_specific no_durations (some drop_mode) none none none (some group_options)
      [] drop_mode (none ∷ none ∷ none ∷ some group_options ∷ []) "drop" tt (refl, tt)
      ((refl, tt), tt) refl refl (refl, tt)
