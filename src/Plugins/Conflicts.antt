-- ===== src/Plugins/Conflicts.antt =====
-- CheckConflicts of src/infra/fs/plugin/discovery.go: names that several plugins declare.
use Prim.Native.String.{◌++◌ as concat}
use recur.Prelude.{String, Option, none, some, List, [], ◌∷◌, ◌++◌, String_eq, map}
use recur.Prelude.Dict
use recur.Prelude.Dict.{Dict}
use recur.Plugins.{InstalledPlugin}
use recur.Yaml.Parse.{join}

owners_or_nil : Option (List String) → List String
owners_or_nil none = []
owners_or_nil (some owners) = owners

-- owners[name] = append(owners[name], namespace) for each name
claim : String → List String → Dict String (List String) → Dict String (List String)
unfolding owners_or_nil
claim namespace [] owners = owners
claim namespace (name ∷ names) owners =
    claim namespace names
      (Dict.insert name (owners_or_nil (Dict.lookup name owners) ++ namespace ∷ []) owners)

-- The loop over the plugins, for the names of triggers or of actions
unfoldable pub owners_of :
    (InstalledPlugin → List String)
    → List InstalledPlugin
    → Dict String (List String)
    → Dict String (List String)
unfolding claim
owners_of names [] owners = owners
owners_of names (p ∷ ps) owners = owners_of names ps (claim p.manifest.namespace (names p) owners)

-- The loops that report the names with several owners
conflicts_in : (String → String) → String → Dict String (List String) → List String
conflicts_in quote kind [] = []
conflicts_in quote kind ((name, owners) ∷ rest) =
    let more = conflicts_in quote kind rest in
    elim owners [
      | [] ↦ more
      | a ∷ others ↦ elim others [
        | [] ↦ more
        | b ∷ bs ↦
            concat kind (
              concat " " (
                concat (quote name)
                  (concat " declared by multiple plugins: " (join ", " (a ∷ b ∷ bs)))))
            ∷ more
      ]
    ]

-- CheckConflicts, with the format %q
unfoldable pub check_conflicts : (String → String) → List InstalledPlugin → List String
unfolding owners_of conflicts_in
check_conflicts quote plugins =
    conflicts_in quote "trigger" (owners_of (λ p. map (λ t. t.name) p.manifest.triggers) plugins [])
    ++ conflicts_in quote "action"
        (owners_of (λ p. map (λ a. a.name) p.manifest.actions) plugins [])
