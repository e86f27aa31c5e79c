-- ===== src/Yaml/Tests.antt =====
-- A recurfile with one group and one trigger, parsed.
use recur.Prelude.{String, ◌≡◌, refl, none, some, false, [], ◌∷◌, String_eq}
use recur.Prelude.Result.{resolved}
use recur.Prelude.Dict
use recur.Config.{no_fields, field, str}
use recur.Recurfile.{RawFile}
use recur.Yaml.{
  Node, Nodes, end, item, document, mapping, sequence, scalar, YamlLibrary, items, pairs, raw_of,
  resolve_node,
}
use recur.Yaml.Parse.File.{parse}
use recur.Yaml.Parse.File.Validity.{IsComplete, parse-IsComplete}

abbrev text_node : String → Node
text_node value = scalar "!!str" value

abbrev entry : String → Node → Nodes → Nodes
entry key n rest = item (text_node key) (item n rest)

-- g: on: [{type: cron, do: [{notify: hello}]}]
abbrev one_trigger : Node
one_trigger = document (
    item
      (mapping (
        entry "g"
          (mapping (
            entry "on"
              (sequence (
                item
                  (mapping (
                    entry "type" (text_node "cron") (
                      entry "do"
                        (sequence (item (mapping (entry "notify" (text_node "hello") end)) end))
                        end)))
                  end))
              end))
          end))
      end)

abbrev pub library : YamlLibrary
library = record {
  unmarshal = λ s. resolved (some one_trigger);
  decode = λ n. resolved no_fields;
  read_file = λ path. resolved "g: ...";
  quote = λ s. s;
  decimal = λ n. "0";
  trim_space = λ s. s;
  env_var = λ s. none;
  is_abs = λ path. false;
  dir = λ path. path;
  join = λ a b. b;
}

abbrev parsed : RawFile
parsed = record {
  path = "";
  aliases = [];
  secrets = [];
  groups =
      (record {
        name = "g";
        aliases = [];
        options = no_fields;
        triggers =
            (record {
              type = "cron";
              name = "";
              options = no_fields;
              actions =
                  (record {
                    type = "notify";
                    name = "";
                    options = field "_shorthand" (str "hello") no_fields;
                  })
                  ∷ [];
            })
            ∷ [];
        actions = [];
      })
      ∷ [];
}

parse_test : parse library "g: ..." ≡ resolved parsed
unfolding parse Dict.lookup Dict.insert raw_of items pairs resolve_node
parse_test = refl

parse-IsComplete_example : IsComplete parsed
parse-IsComplete_example = parse-IsComplete library "g: ..." parsed parse_test
