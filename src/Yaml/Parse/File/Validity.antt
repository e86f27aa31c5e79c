-- ===== src/Yaml/Parse/File/Validity.antt =====
-- What a recurfile that Parse accepts has.
use recur.Prelude.{
  ℕ, suc, String, ◌≡◌, refl, sym, subst, Option, none, some, Bool, true, false, List, [], ◌∷◌, ◌++◌,
  ◌==◌, String_eq, if◌then◌else◌, Bool-cases, inl, inr, Every, IsNonempty, cons_nil, append_nil,
}
use recur.Prelude.Result.{Resolved, resolved, unresolved}
use recur.Prelude.Dict
use recur.Prelude.Dict.{Dict, keys}
use recur.Recurfile.{RawTrigger, RawGroup, RawFile, SecretDef}
use recur.Yaml.{
  Node, document, sequence, mapping, scalar, alias_node, end, item, YamlLibrary, value_of, items,
  pairs, raw_of, resolve_node,
}
use recur.Yaml.Parse.{
  Parsed, cons_some, labelled, type_errors, trigger_type, parse_each, trigger_of_raw,
  trigger_of_node, parse_trigger, triggers_of, parse_triggers, options_at,
}
use recur.Yaml.Parse.File.{
  aliases_at, triggers_at, group_of_raw, parse_group, file_aliases, file_secrets, file_group,
  parse_key, parse_keys, parse_aliases, parse_secrets, new_file, checked, parse_mapping, parse_root,
  parse,
}

-- There is a value, and the predicate holds of it.
abbrev pub IsJust : {A : Type 0} → (A → Type 0) → Option A → Type 0
IsJust P none = ⊥
IsJust P (some x) = P x

abbrev pub HasType : RawTrigger → Type 0
HasType t = (t.type == "") ≡ false

-- The group has a trigger, and every trigger a type.
abbrev pub HasTriggers : RawGroup → Type 0
HasTriggers g = IsNonempty g.triggers × Every HasType g.triggers

labelled_nil : (label : String) (errs : List String) → labelled label errs ≡ [] → errs ≡ []
labelled_nil label [] h = refl
labelled_nil label (e ∷ errs) h = absurd (cons_nil h)

Every-append :
    {A : Type 0} (P : A → Type 0) (xs ys : List A) → Every P xs → Every P ys → Every P (xs ++ ys)
Every-append P [] ys h k = k
Every-append P (x ∷ xs) ys h k = (h.0, Every-append P xs ys h.1 k)

type_errors_nil : (type : String) → type_errors type ≡ [] → (type == "") ≡ false
type_errors_nil type h = elim (Bool-cases (type == "")) [
  | inl e ↦ absurd (cons_nil (rw e at h))
  | inr e ↦ e
]

trigger_type_nil : (n : Option Node) → (trigger_type n).1 ≡ [] → ((trigger_type n).0 == "") ≡ false
unfolding trigger_type
trigger_type_nil none h = absurd (cons_nil h)
trigger_type_nil (some n) h = type_errors_nil (value_of n) h

trigger_of_raw-HasType :
    (lib : YamlLibrary) (raw : Dict String Node)
    → (trigger_of_raw lib raw).1 ≡ []
    → IsJust HasType (trigger_of_raw lib raw).0
unfolding trigger_of_raw
trigger_of_raw-HasType lib raw h =
    trigger_type_nil (Dict.lookup "type" raw)
      (append_nil (trigger_type (Dict.lookup "type" raw)).1 _ h).0

trigger_of_node-HasType :
    (lib : YamlLibrary) (n : Node)
    → (trigger_of_node lib n).1 ≡ []
    → IsJust HasType (trigger_of_node lib n).0
unfolding trigger_of_node
trigger_of_node-HasType lib (mapping content) h = trigger_of_raw-HasType lib (raw_of content) h
trigger_of_node-HasType lib (document content) h = absurd (cons_nil h)
trigger_of_node-HasType lib (sequence content) h = absurd (cons_nil h)
trigger_of_node-HasType lib (scalar tag value) h = absurd (cons_nil h)
trigger_of_node-HasType lib (alias_node name target) h = absurd (cons_nil h)

cons_some-Every :
    {A : Type 0} (P : A → Type 0) (x : Option A) (xs : List A)
    → IsJust P x
    → Every P xs
    → IsNonempty (cons_some x xs) × Every P (cons_some x xs)
cons_some-Every P none xs h k = absurd h
cons_some-Every P (some x) xs h k = (tt, (h, k))

module _ {A : Type 0} (lib : YamlLibrary) (label : String) (P : A → Type 0)
    (parse : Node → Parsed A) (sound : (n : Node) → (parse n).1 ≡ [] → IsJust P (parse n).0) where
  parse_each-Every :
      (i : ℕ) (ns : List Node)
      → (parse_each lib label parse i ns).1 ≡ []
      → Every P (parse_each lib label parse i ns).0
  unfolding parse_each
  parse_each-Every i [] h = tt
  parse_each-Every i (n ∷ ns) h =
      (cons_some-Every P (parse n).0 (parse_each lib label parse (suc i) ns).0
        (sound n (labelled_nil _ (parse n).1 (append_nil (labelled _ (parse n).1) _ h).0))
        (parse_each-Every (suc i) ns (append_nil (labelled _ (parse n).1) _ h).1)).1

  parse_each-IsNonempty :
      (i : ℕ) (n : Node) (ns : List Node)
      → (parse_each lib label parse i (n ∷ ns)).1 ≡ []
      → IsNonempty (parse_each lib label parse i (n ∷ ns)).0
  unfolding parse_each
  parse_each-IsNonempty i n ns h =
      (cons_some-Every P (parse n).0 (parse_each lib label parse (suc i) ns).0
        (sound n (labelled_nil _ (parse n).1 (append_nil (labelled _ (parse n).1) _ h).0))
        (parse_each-Every (suc i) ns (append_nil (labelled _ (parse n).1) _ h).1)).0

parse_trigger-HasType :
    (lib : YamlLibrary) (n : Node)
    → (parse_trigger lib n).1 ≡ []
    → IsJust HasType (parse_trigger lib n).0
unfolding parse_trigger
parse_trigger-HasType lib n h = trigger_of_node-HasType lib (resolve_node n) h

abbrev pub AreTriggers : List RawTrigger × List String → Type 0
AreTriggers (ts, errs) = errs ≡ [] → IsNonempty ts × Every HasType ts

triggers_of-AreTriggers : (lib : YamlLibrary) (ns : List Node) → AreTriggers (triggers_of lib ns)
unfolding triggers_of
triggers_of-AreTriggers lib [] h = absurd (cons_nil h)
triggers_of-AreTriggers lib (n ∷ ns) h = (
  parse_each-IsNonempty lib "trigger" HasType (parse_trigger lib) (parse_trigger-HasType lib) 0 n ns
      h,
  parse_each-Every lib "trigger" HasType (parse_trigger lib) (parse_trigger-HasType lib) 0 (n ∷ ns)
      h,
)

parse_triggers-AreTriggers : (lib : YamlLibrary) (n : Node) → AreTriggers (parse_triggers lib n)
unfolding parse_triggers
parse_triggers-AreTriggers lib (sequence content) h = triggers_of-AreTriggers lib (items content) h
parse_triggers-AreTriggers lib (document content) h = absurd (cons_nil h)
parse_triggers-AreTriggers lib (mapping content) h = absurd (cons_nil h)
parse_triggers-AreTriggers lib (scalar tag value) h = absurd (cons_nil h)
parse_triggers-AreTriggers lib (alias_node name target) h = absurd (cons_nil h)

triggers_at-AreTriggers :
    (lib : YamlLibrary) (on triggers : Option Node) → AreTriggers (triggers_at lib on triggers)
unfolding triggers_at
triggers_at-AreTriggers lib (some n) triggers h = parse_triggers-AreTriggers lib n h
triggers_at-AreTriggers lib none (some n) h = parse_triggers-AreTriggers lib n h
triggers_at-AreTriggers lib none none h = absurd (cons_nil h)

group_of_raw-HasTriggers :
    (lib : YamlLibrary) (name : String) (raw : Dict String Node)
    → (group_of_raw lib name raw).1 ≡ []
    → IsJust HasTriggers (group_of_raw lib name raw).0
unfolding group_of_raw
group_of_raw-HasTriggers lib name raw h =
    triggers_at-AreTriggers lib on triggers
      (append_nil (triggers_at lib on triggers).1 _
        (append_nil (options_at lib (Dict.lookup "options" raw)).1 _
          (append_nil (aliases_at (Dict.lookup "aliases" raw)).1 _ h).1).1).0
  where
    on : Option Node
    on = Dict.lookup "on" raw

    triggers : Option Node
    triggers = Dict.lookup "triggers" raw

parse_group-HasTriggers :
    (lib : YamlLibrary) (name : String) (n : Node)
    → (parse_group lib name n).1 ≡ []
    → IsJust HasTriggers (parse_group lib name n).0
unfolding parse_group
parse_group-HasTriggers lib name (mapping content) h =
    group_of_raw-HasTriggers lib name (raw_of content) h
parse_group-HasTriggers lib name (document content) h = absurd (cons_nil h)
parse_group-HasTriggers lib name (sequence content) h = absurd (cons_nil h)
parse_group-HasTriggers lib name (scalar tag value) h = absurd (cons_nil h)
parse_group-HasTriggers lib name (alias_node n target) h = absurd (cons_nil h)

-- While no error is reported, every group so far has its triggers.
abbrev pub IsSound : RawFile × List String → Type 0
IsSound (f, errs) = errs ≡ [] → Every HasTriggers f.groups

file_aliases-IsSound :
    (aliases : Resolved (Dict String String)) (p : RawFile × List String)
    → IsSound p
    → IsSound (file_aliases aliases p)
unfolding file_aliases
file_aliases-IsSound (resolved aliases) p s h = s h
file_aliases-IsSound (unresolved e) p s h = s (append_nil p.1 _ h).0

file_secrets-IsSound :
    (defs : List SecretDef × List String) (p : RawFile × List String)
    → IsSound p
    → IsSound (file_secrets defs p)
unfolding file_secrets
file_secrets-IsSound defs p s h = s (append_nil p.1 _ h).0

file_group-IsSound :
    (lib : YamlLibrary) (key : String) (g : Parsed RawGroup) (p : RawFile × List String)
    → (g.1 ≡ [] → IsJust HasTriggers g.0)
    → IsSound p
    → IsSound (file_group lib key g p)
unfolding file_group
file_group-IsSound lib key g p k s h =
    Every-append HasTriggers p.0.groups (cons_some g.0 []) (s (append_nil p.1 _ h).0)
      (cons_some-Every HasTriggers g.0 [] (k (labelled_nil _ g.1 (append_nil p.1 _ h).1)) tt).1

if_lem : {A : Type 0} (P : A → Type 0) (b : Bool) {x y : A} → P x → P y → P (if b then x else y)
if_lem P true h k = h
if_lem P false h k = k

parse_key-IsSound :
    (lib : YamlLibrary) (key : String) (n : Node) (p : RawFile × List String)
    → IsSound p
    → IsSound (parse_key lib key n p)
unfolding parse_key
parse_key-IsSound lib key n p s =
    if_lem IsSound (key == "aliases") (file_aliases-IsSound (parse_aliases n) p s) (
      if_lem IsSound (key == "secrets") (file_secrets-IsSound (parse_secrets lib n) p s) (
        file_group-IsSound lib key (parse_group lib key n) p (parse_group-HasTriggers lib key n) s))

parse_keys-IsSound :
    (lib : YamlLibrary) (kvs : List (String × Node)) (p : RawFile × List String)
    → IsSound p
    → IsSound (parse_keys lib kvs p)
unfolding parse_keys
parse_keys-IsSound lib [] p s = s
parse_keys-IsSound lib ((key, n) ∷ kvs) p s =
    parse_keys-IsSound lib kvs (parse_key lib key n p) (parse_key-IsSound lib key n p s)

resolved_eq : {A : Type 0} {x y : A} → resolved x ≡ resolved y → x ≡ y
resolved_eq h = cc h

unresolved_eq :
    {A : Type 0} {e : String} {y : A} → ◌≡◌ {A = Resolved A} (unresolved e) (resolved y) → ⊥
unresolved_eq h = cc h

-- The file has a group, and every group a trigger; every trigger has a type.
abbrev pub IsComplete : RawFile → Type 0
IsComplete f = IsNonempty f.groups × Every HasTriggers f.groups

checked_groups :
    (f f' : RawFile) (gs : List RawGroup)
    → gs ≡ f.groups
    → Every HasTriggers f.groups
    → checked f [] ≡ resolved f'
    → IsComplete f'
unfolding checked
checked_groups f f' [] e s h = absurd (unresolved_eq (rw (← e) at h))
checked_groups f f' (g ∷ gs) e s h =
    subst IsComplete (resolved_eq (rw (← e) at h)) (tt, subst (Every HasTriggers) (sym e) s)

checked-IsComplete :
    (f f' : RawFile) (errs : List String)
    → IsSound (f, errs)
    → checked f errs ≡ resolved f'
    → IsComplete f'
unfolding checked
checked-IsComplete f f' [] s h = checked_groups f f' f.groups refl (s refl) h
checked-IsComplete f f' (e ∷ errs) s h = absurd (unresolved_eq h)

parse_mapping-IsComplete :
    (lib : YamlLibrary) (n : Node) (f : RawFile) → parse_mapping lib n ≡ resolved f → IsComplete f
unfolding parse_mapping
parse_mapping-IsComplete lib (mapping content) f h =
    checked-IsComplete p.0 f p.1
      (parse_keys-IsSound lib (pairs (items content)) (new_file, []) (λ e. tt)) h
  where
    p : RawFile × List String
    p = parse_keys lib (pairs (items content)) (new_file, [])
parse_mapping-IsComplete lib (document content) f h = absurd (unresolved_eq h)
parse_mapping-IsComplete lib (sequence content) f h = absurd (unresolved_eq h)
parse_mapping-IsComplete lib (scalar tag value) f h = absurd (unresolved_eq h)
parse_mapping-IsComplete lib (alias_node name target) f h = absurd (unresolved_eq h)

parse_root-IsComplete :
    (lib : YamlLibrary) (r : Resolved (Option Node)) (f : RawFile)
    → parse_root lib r ≡ resolved f
    → IsComplete f
unfolding parse_root
parse_root-IsComplete lib (resolved (some (document (item n ns)))) f h =
    parse_mapping-IsComplete lib n f h
parse_root-IsComplete lib (resolved (some (document end))) f h = absurd (unresolved_eq h)
parse_root-IsComplete lib (resolved (some (sequence ns))) f h = absurd (unresolved_eq h)
parse_root-IsComplete lib (resolved (some (mapping ns))) f h = absurd (unresolved_eq h)
parse_root-IsComplete lib (resolved (some (scalar tag value))) f h = absurd (unresolved_eq h)
parse_root-IsComplete lib (resolved (some (alias_node name target))) f h = absurd (unresolved_eq h)
parse_root-IsComplete lib (resolved none) f h = absurd (unresolved_eq h)
parse_root-IsComplete lib (unresolved e) f h = absurd (unresolved_eq h)

-- A recurfile that Parse accepts has a group; every group has a trigger, and every trigger a type that
-- is not empty.
pub parse-IsComplete :
    (lib : YamlLibrary) (text : String) (f : RawFile) → parse lib text ≡ resolved f → IsComplete f
unfolding parse
parse-IsComplete lib text f h = parse_root-IsComplete lib (lib.unmarshal text) f h
