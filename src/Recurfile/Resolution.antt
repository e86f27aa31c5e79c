-- ===== src/Recurfile/Resolution.antt =====
-- What Resolve of resolve.go makes of a recurfile, and what Validate of validate.go then warns of.
use recur.Prelude.{String, ◌≡◌, refl, ap, ◌∙◌, none, some, List, [], ◌∷◌, ◌++◌, map, arith}
use recur.Prelude.Dict.{Dict}
use recur.Config.{Fields, no_fields, get, IsFields}
use recur.Config.Overlay.{layered, get-overlay_layers}
use recur.Recurfile.{
  RawAction, RawTrigger, RawGroup, RawFile, merge_aliases, expand_alias, expand_option_aliases,
  expand_type, resolve_action, inherited, resolve_trigger, resolve_group, resolve, Warning,
  validate_triggers, validate_groups, validate,
}

-- The types of a list of actions.
abbrev pub action_types : List RawAction → List String
action_types [] = []
action_types (a ∷ as') = a.type ∷ action_types as'

-- One expansion of each, and two.
abbrev pub expanded : Dict String String → List String → List String
expanded aliases [] = []
expanded aliases (t ∷ ts) = expand_alias aliases t ∷ expanded aliases ts

-- The types that a trigger's actions get: its own expanded once, those of its group twice.
abbrev pub resolved_types : Dict String String → List RawAction → List RawAction → List String
resolved_types aliases [] group_actions =
    expanded aliases (expanded aliases (action_types group_actions))
resolved_types aliases (a ∷ as') group_actions = expanded aliases (action_types (a ∷ as'))

action_types-resolve_action :
    (aliases : Dict String String) (options : Fields) (as' : List RawAction)
    → action_types (map (resolve_action aliases options) as') ≡ expanded aliases (action_types as')
unfolding resolve_action
action_types-resolve_action aliases options [] = refl
action_types-resolve_action aliases options (a ∷ as') =
    ap (λ l. expand_alias aliases a.type ∷ l) (action_types-resolve_action aliases options as')

action_types-expand_type :
    (aliases : Dict String String) (as' : List RawAction)
    → action_types (map (expand_type aliases) as') ≡ expanded aliases (action_types as')
unfolding expand_type
action_types-expand_type aliases [] = refl
action_types-expand_type aliases (a ∷ as') =
    ap (λ l. expand_alias aliases a.type ∷ l) (action_types-expand_type aliases as')

resolve_trigger-types :
    (aliases : Dict String String) (options : Fields) (group_actions : List RawAction)
    (t : RawTrigger)
    → action_types
        (resolve_trigger aliases options (map (expand_type aliases) group_actions) t).actions
      ≡ resolved_types aliases t.actions group_actions
unfolding resolve_trigger
resolve_trigger-types aliases options group_actions t =
    action_types-resolve_action aliases options
      (inherited t.actions (map (expand_type aliases) group_actions))
    ∙ types_of t.actions
  where
    types_of :
        (own : List RawAction)
        → expanded aliases (action_types (inherited own (map (expand_type aliases) group_actions)))
          ≡ resolved_types aliases own group_actions
    types_of [] = ap (expanded aliases) (action_types-expand_type aliases group_actions)
    types_of (a ∷ as') = refl

-- The types of the actions of each trigger of a group, and those that resolution is to give them.
abbrev pub types_in : RawGroup → List (List String)
types_in g = map (λ t. action_types t.actions) g.triggers

abbrev pub types_for : Dict String String → RawGroup → List (List String)
types_for file_aliases g =
    map (λ t. resolved_types (merge_aliases file_aliases g.aliases) t.actions g.actions) g.triggers

resolve_group-types :
    (file_aliases : Dict String String) (g : RawGroup)
    → types_in (resolve_group file_aliases g) ≡ types_for file_aliases g
unfolding resolve_group
resolve_group-types file_aliases g = by_triggers g.triggers
  where
    aliases : Dict String String
    aliases = merge_aliases file_aliases g.aliases

    options : Fields
    options = expand_option_aliases aliases g.options

    by_triggers :
        (ts : List RawTrigger)
        → map
            (λ t. action_types t.actions)
            (map (resolve_trigger aliases options (map (expand_type aliases) g.actions)) ts)
          ≡ map (λ t. resolved_types aliases t.actions g.actions) ts
    by_triggers [] = refl
    by_triggers (t ∷ ts) =
        ap
          (λ l.
            l
            ∷ map (λ u. action_types u.actions)
                (map (resolve_trigger aliases options (map (expand_type aliases) g.actions)) ts))
          (resolve_trigger-types aliases options g.actions t)
        ∙ ap (λ l. resolved_types aliases t.actions g.actions ∷ l) (by_triggers ts)

-- After Resolve, group by group and trigger by trigger, the types of the actions of a trigger that has
-- actions of its own are theirs, expanded once, and the types of one that has none are those of its
-- group's actions, expanded twice; both by the aliases of the file with those of the group over them.
pub resolve-types :
    (f : RawFile) → map types_in (resolve f).groups ≡ map (types_for f.aliases) f.groups
unfolding resolve
resolve-types f = by_groups f.groups
  where
    by_groups :
        (gs : List RawGroup)
        → map types_in (map (resolve_group f.aliases) gs) ≡ map (types_for f.aliases) gs
    by_groups [] = refl
    by_groups (g ∷ gs) =
        ap (λ l. l ∷ map types_in (map (resolve_group f.aliases) gs))
          (resolve_group-types f.aliases g)
        ∙ ap (λ l. types_for f.aliases g ∷ l) (by_groups gs)

-- After resolution an option of a trigger is the group's, with the trigger's own laid over it.
pub resolve_trigger-options :
    (aliases : Dict String String) (group_options : Fields) (group_actions : List RawAction)
    (t : RawTrigger) (key : String)
    → IsFields group_options
    → IsFields (expand_option_aliases aliases t.options)
    → get key (resolve_trigger aliases group_options group_actions t).options
      ≡ layered
          (layered none (get key group_options))
          (get key (expand_option_aliases aliases t.options))
unfolding resolve_trigger
resolve_trigger-options aliases group_options group_actions t key a b =
    get-overlay_layers key no_fields
      (some group_options ∷ some (expand_option_aliases aliases t.options) ∷ []) (a, (b, tt))
    ∙ ap
        (λ o.
          layered (layered o (get key group_options))
            (get key (expand_option_aliases aliases t.options)))
        nothing
  where
    nothing : get key no_fields ≡ none
    nothing = unfold get in refl

-- The triggers of a group with no actions of their own, where the group has none either, by their
-- expanded types.
abbrev bare_triggers : Dict String String → String → List RawAction → List RawTrigger → List Warning
bare_triggers aliases group actions [] = []
bare_triggers aliases group [] (t ∷ ts) =
    let rest = bare_triggers aliases group [] ts in
    elim t.actions [ [] ↦ (group, expand_alias aliases t.type) ∷ rest | a ∷ as' ↦ rest ]
bare_triggers aliases group (a ∷ as') (t ∷ ts) = bare_triggers aliases group (a ∷ as') ts

-- The triggers of a file that have no action from anywhere.
abbrev pub bare : Dict String String → List RawGroup → List Warning
bare aliases [] = []
bare aliases (g ∷ gs) =
    bare_triggers (merge_aliases aliases g.aliases) g.name g.actions g.triggers ++ bare aliases gs

validate_triggers-resolve :
    (aliases : Dict String String) (group : String) (options : Fields) (actions : List RawAction)
    (ts : List RawTrigger)
    → validate_triggers group
        (map (resolve_trigger aliases options (map (expand_type aliases) actions)) ts)
      ≡ bare_triggers aliases group actions ts
unfolding validate_triggers resolve_trigger
validate_triggers-resolve aliases group options [] [] = refl
validate_triggers-resolve aliases group options (a ∷ as') [] = refl
validate_triggers-resolve aliases group options [] (t ∷ ts) =
    ground (arith, validate_triggers-resolve aliases group options [] ts)
validate_triggers-resolve aliases group options (a ∷ as') (t ∷ ts) =
    ground (arith, validate_triggers-resolve aliases group options (a ∷ as') ts)

-- After resolution Validate warns exactly of the triggers that have no action of their own and none
-- from their group, in order, under their expanded types.
pub validate-resolve : (f : RawFile) → validate (resolve f) ≡ bare f.aliases f.groups
unfolding validate resolve
validate-resolve f = by_groups f.groups
  where
    by_groups :
        (gs : List RawGroup)
        → validate_groups (map (resolve_group f.aliases) gs) ≡ bare f.aliases gs
    by_groups [] = refl
    by_groups (g ∷ gs) =
        ap (λ l. l ++ validate_groups (map (resolve_group f.aliases) gs))
          (validate_triggers-resolve (merge_aliases f.aliases g.aliases) g.name
            (expand_option_aliases (merge_aliases f.aliases g.aliases) g.options) g.actions
            g.triggers)
        ∙ ap
            (λ l.
              bare_triggers (merge_aliases f.aliases g.aliases) g.name g.actions g.triggers ++ l)
            (by_groups gs)
