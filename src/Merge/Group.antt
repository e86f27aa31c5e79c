-- ===== src/Merge/Group.antt =====
-- MergeGroupIntoYAML, RenderGroupContent and Merge of src/domain/recurfile/merge.go. A slice is its lines
-- with the capacity of its array; what lies behind its length is never read.
pub mod Tests
use Prim.Native.Nat.{ℕ}
use Prim.Native.String.{◌++◌ as concat}
use recur.EntityIndex.{has_prefix}
use recur.Prelude.{
  suc, ◌+◌, ◌-◌, String, Option, none, some, Bool, true, false, not, ◌&&◌, ◌||◌, List, [], ◌∷◌,
  ◌++◌, length, leb, ◌==◌, String_eq, if◌then◌else◌, map,
}
use recur.Prelude.Result.{Resolved, resolved, unresolved}
use recur.Config.{Value, Fields, no_fields, field, get}
use recur.Recurfile.{RawAction, RawTrigger, RawGroup, RawFile}
use recur.Merge.{before, after, write}
use recur.Yaml.Parse.{join}

-- strings.TrimSpace, strings.Split at line ends, strings.HasSuffix with a line end, the format %q of a
-- printed value, the registered parser, and the capacity that append gives a new array, from the old
-- capacity and the length that is needed
pub record MergeLibrary : Type 0 where
  pub trim_space : String → String
  pub split_lines : String → List String
  pub ends_line : String → Bool
  pub print_quoted : Value → String
  pub parse : String → Resolved RawFile
  pub grow : ℕ → ℕ → ℕ

pub record Slice : Type 0 where
  pub lines : List String
  pub capacity : ℕ

capacity_after : MergeLibrary → ℕ → ℕ → ℕ
capacity_after lib capacity n = if leb n capacity then capacity else lib.grow capacity n

-- append(append(before, inserted...), after...), where both slices are of one array: the inner append
-- writes into the array if its capacity is enough.
insert_at : MergeLibrary → ℕ → List String → Slice → Slice
unfolding capacity_after before after write
insert_at lib n inserted s =
    let array =
      if leb (n + length inserted) s.capacity then write n inserted s.lines else s.lines in
    record {
      lines = (before n s.lines ++ inserted) ++ after n array;
      capacity =
          capacity_after lib (capacity_after lib s.capacity (n + length inserted))
            (length s.lines + length inserted);
    }

-- The first line that passes the test, by its index
first_from : (String → Bool) → ℕ → List String → Option ℕ
first_from test i [] = none
first_from test i (line ∷ lines) =
    let rest = first_from test (suc i) lines in if test line then some i else rest

or_index : ℕ → Option ℕ → ℕ
or_index i none = i
or_index i (some j) = j

-- A line that starts the next top-level key
is_top_level : String → Bool
is_top_level line =
    not (line == "" || has_prefix " " line || has_prefix "\t" line || has_prefix "#" line)

group_end_from : ℕ → List String → ℕ
unfolding first_from or_index is_top_level has_prefix after
group_end_from group_idx lines =
    or_index (length lines) (first_from is_top_level (group_idx + 1) (after (group_idx + 1) lines))

-- lines[from:to]
lines_between : ℕ → ℕ → List String → List String
lines_between from to lines = before (to - from) (after from lines)

-- The loop that looks for `on:` and, after it, for `do:`
find_triggers : MergeLibrary → Bool → ℕ → List String → Bool × Option ℕ
find_triggers lib found i [] = (found, none)
find_triggers lib found i (line ∷ lines) =
    let now = found || lib.trim_space line == "on:" in
    let rest = find_triggers lib now (suc i) lines in
    if now && lib.trim_space line == "do:" then (now, some i) else rest

merged_options : MergeLibrary → Fields → List String
merged_options lib no_fields = []
merged_options lib (field k v m) =
    concat "        " (concat k (concat ": " (lib.print_quoted v))) ∷ merged_options lib m

options_block : MergeLibrary → Fields → List String
unfolding merged_options
options_block lib no_fields = []
options_block lib (field k v m) = "      options:" ∷ merged_options lib (field k v m)

trigger_lines : MergeLibrary → List RawTrigger → List String
unfolding options_block
trigger_lines lib [] = []
trigger_lines lib (t ∷ ts) =
    concat "    - type: " t.type ∷ (options_block lib t.options ++ trigger_lines lib ts)

action_lines : MergeLibrary → List RawAction → List String
unfolding options_block
action_lines lib [] = []
action_lines lib (a ∷ as') =
    let rest = action_lines lib as' in
    elim (get "_shorthand" a.options) [
      | some sh ↦ concat "    - " (concat a.type (concat ": " (lib.print_quoted sh))) ∷ rest
      | none ↦ concat "    - type: " a.type ∷ (options_block lib a.options ++ rest)
    ]

place_triggers : MergeLibrary → ℕ → ℕ → List String → Bool × Option ℕ → Slice → Slice × ℕ
unfolding insert_at
place_triggers lib group_idx group_end inserted (true, some i) s =
    (insert_at lib i inserted s, group_end + length inserted)
place_triggers lib group_idx group_end inserted (true, none) s =
    (insert_at lib group_end inserted s, group_end + length inserted)
place_triggers lib group_idx group_end inserted (false, i) s =
    (insert_at lib (group_idx + 1) ("  on:" ∷ inserted) s, group_end + suc (length inserted))

-- The part for the triggers: the lines and the end of the group
insert_triggers : MergeLibrary → ℕ → ℕ → List RawTrigger → Slice → Slice × ℕ
unfolding place_triggers find_triggers lines_between trigger_lines
insert_triggers lib group_idx group_end [] s = (s, group_end)
insert_triggers lib group_idx group_end (t ∷ ts) s =
    place_triggers lib group_idx group_end (trigger_lines lib (t ∷ ts))
      (find_triggers lib false (group_idx + 1) (lines_between (group_idx + 1) group_end s.lines)) s

-- A line after which the actions of `do:` have ended
ends_actions : MergeLibrary → String → Bool
ends_actions lib line =
    let trimmed = lib.trim_space line in
    not (trimmed == "" || has_prefix "-" trimmed || has_prefix " " trimmed)

place_actions : MergeLibrary → ℕ → List String → Option ℕ → Slice → Slice
unfolding insert_at first_from or_index lines_between ends_actions before after
place_actions lib group_end inserted none s = insert_at lib group_end ("  do:" ∷ inserted) s
place_actions lib group_end inserted (some i) s =
    insert_at lib
      (or_index group_end
        (first_from (ends_actions lib) (i + 1) (lines_between (i + 1) group_end s.lines)))
      inserted s

-- The part for the actions
insert_actions : MergeLibrary → ℕ → ℕ → List RawAction → Slice → Slice
unfolding place_actions first_from lines_between action_lines
insert_actions lib group_idx group_end [] s = s
insert_actions lib group_idx group_end (a ∷ as') s =
    place_actions lib group_end (action_lines lib (a ∷ as'))
      (first_from (λ line. lib.trim_space line == "do:") (group_idx + 1)
        (lines_between (group_idx + 1) group_end s.lines))
      s

type_lines : String → List String → String
type_lines header [] = ""
type_lines header (t ∷ ts) = concat header (types_of (t ∷ ts))
  where
    types_of : List String → String
    types_of [] = ""
    types_of (u ∷ us) = concat "    - type: " (concat u (concat "\n" (types_of us)))

-- RenderGroupContent
render_group_content : RawGroup → String
unfolding type_lines
render_group_content g =
    concat (type_lines "  on:\n" (map (λ t. t.type) g.triggers))
      (type_lines "  do:\n" (map (λ a. a.type) g.actions))

with_line_end : MergeLibrary → String → String
with_line_end lib s = if lib.ends_line s then s else concat s "\n"

merge_at : MergeLibrary → RawGroup → ℕ → List String → String
unfolding insert_triggers insert_actions group_end_from join
merge_at lib fg group_idx lines =
    let s : Slice = record { lines = lines; capacity = length lines } in
    let (s', group_end) =
      insert_triggers lib group_idx (group_end_from group_idx lines) fg.triggers s in
    join "\n" (insert_actions lib group_idx group_end fg.actions s').lines

has_entries : RawGroup → Bool
has_entries fg = elim fg.triggers [
  | t ∷ ts ↦ true
  | [] ↦ elim fg.actions [ a ∷ as' ↦ true | [] ↦ false ]
]

-- MergeGroupIntoYAML, where a map's pairs are printed in the order of its fields
merge_group_into_yaml : MergeLibrary → String → RawGroup → String
unfolding merge_at render_group_content with_line_end has_entries first_from
merge_group_into_yaml lib existing fg =
    let lines = lib.split_lines existing in
    elim (first_from (λ line. lib.trim_space line == concat fg.name ":") 0 lines) [
      | none ↦
          concat (with_line_end lib existing)
            (concat "\n" (concat fg.name (concat ":\n" (render_group_content fg))))
      | some group_idx ↦ if has_entries fg then merge_at lib fg group_idx lines else existing
    ]

is_existing_group : String → List RawGroup → Bool
is_existing_group name [] = false
is_existing_group name (g ∷ gs) = g.name == name || is_existing_group name gs

-- The loop over the groups of the fragment: the first one that exists is merged, and that is all.
first_existing_group : List RawGroup → List RawGroup → Option RawGroup
unfolding is_existing_group
first_existing_group existing [] = none
first_existing_group existing (fg ∷ fgs) =
    if is_existing_group fg.name existing then some fg else first_existing_group existing fgs

merge_parsed : MergeLibrary → String → String → RawFile → Resolved RawFile → Resolved String
unfolding first_existing_group merge_group_into_yaml with_line_end
merge_parsed lib existing fragment f (unresolved e) = unresolved (concat "fragment is invalid: " e)
merge_parsed lib existing fragment f (resolved g) =
    resolved (elim (first_existing_group f.groups g.groups) [
      | some fg ↦ merge_group_into_yaml lib existing fg
      | none ↦ concat (with_line_end lib existing) (concat "\n" fragment)
    ])

merge_existing : MergeLibrary → String → String → Resolved RawFile → Resolved String
unfolding merge_parsed
merge_existing lib existing fragment (unresolved e) =
    unresolved (concat "existing recurfile is invalid: " e)
merge_existing lib existing fragment (resolved f) =
    merge_parsed lib existing fragment f (lib.parse fragment)

-- Merge
unfoldable pub merge : MergeLibrary → String → String → Resolved String
unfolding merge_existing
merge lib existing fragment =
    if lib.trim_space existing == ""
    then resolved fragment
    else merge_existing lib existing fragment (lib.parse existing)
