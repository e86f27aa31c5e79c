-- ===== src/Plugins/ManifestFile/Validity.antt =====
-- What a valid manifest is, and the checks of manifest.go on names, types, defaults and options.
use Prim.Native.String.{◌++◌ as concat}
use recur.Prelude.{
  ℕ, suc, ◌≡◌, ◌≢◌, ◌≤◌, ◌⊎◌, refl, sym, ap, subst, ◌∙◌, String, some, Bool, true, false, not, ◌&&◌,
  Bool-cases, inl, inr, List, [], ◌∷◌, length, keep, In, Every, IsNonempty, cons_nil, append_nil,
  ◌==◌, String_eq, beq-cases,
}
use recur.Config.{Value, null, str, int, float, bool, list, object, Fields, no_fields, field, Items}
use recur.Prelude.Int.{ℤ}
use recur.Plugins.{OptionDef, ContextDef, TriggerDef, ConfigEntry, ActionDef, Manifest}
use recur.Plugins.ManifestFile.{
  ManifestLibrary, is_valid_type, has_type, is_nil, error_if, check_default_type, with_prefix,
  check_default, indexed, check_name, check_type, check_config, check_options, shorthand_count,
  trigger_defaults_key, is_string, is_bool, is_number, is_list, is_map,
}

abbrev pub type_names : List String
type_names = "string" ∷ "bool" ∷ "number" ∷ "list" ∷ "map" ∷ []

-- A value of a type that is declared by its name
pub data ValueOf : String → Value → Type 0 where
  text : (s : String) → ValueOf "string" (str s)
  truth : (b : Bool) → ValueOf "bool" (bool b)
  whole : (n : ℤ) → ValueOf "number" (int n)
  fraction : (n : ℤ) (p : ℕ) → ValueOf "number" (float n p)
  items : (l : Items) → ValueOf "list" (list l)
  entries : (m : Fields) → ValueOf "map" (object m)

abbrev pub IsDefault : String → Value → Type 0
IsDefault typ v = (v ≡ null) ⊎ ValueOf typ v

-- A setting of the engine, and a value of its type
abbrev pub IsSetting : String → Value → Type 0
IsSetting key v =
    (In key ("debounce" ∷ "concurrency_mode" ∷ []) × ValueOf "string" v)
    ⊎ (In key ("max_queue_size" ∷ "error_threshold" ∷ []) × ValueOf "number" v)

abbrev pub AreSettings : Fields → Type 0
AreSettings no_fields = Unit {0}
AreSettings (field k v m) = IsSetting k v × AreSettings m

abbrev pub IsOption : Bool → OptionDef → Type 0
IsOption allow_shorthand o =
    (o.name ≢ "")
    × In o.type type_names
    × (allow_shorthand ≡ false → o.shorthand ≡ false)
    × IsDefault o.type o.default

abbrev pub IsContext : ContextDef → Type 0
IsContext c = (c.name ≢ "") × In c.type type_names

abbrev pub IsTrigger : TriggerDef → Type 0
IsTrigger t =
    (t.name ≢ "")
    × Every (IsOption false) t.options
    × AreSettings t.defaults
    × Every IsContext t.context

abbrev pub IsAction : ActionDef → Type 0
IsAction a =
    (a.name ≢ "")
    × Every (IsOption true) a.options
    × (length (keep (λ (o : OptionDef). o.shorthand) a.options) ≤ 1)

abbrev pub IsConfig : ConfigEntry → Type 0
IsConfig c = (c.key ≢ "") × In c.type type_names × IsDefault c.type c.default

pub record IsManifest (m : Manifest) : Type 0 where
  pub named : (m.name ≢ "") × (m.namespace ≢ "") × (m.version ≢ "")
  pub nonempty : IsNonempty m.triggers ⊎ IsNonempty m.actions
  pub configuration : Every IsConfig m.configuration
  pub triggers : Every IsTrigger m.triggers
  pub actions : Every IsAction m.actions

pub error_if_nil : (b : Bool) (e : String) → error_if b e ≡ [] → b ≡ false
error_if_nil true e h = absurd (cons_nil h)
error_if_nil false e h = refl

pub eq_false : (s t : String) → (s == t) ≡ false → s ≢ t
eq_false s t h p = elim (beq-cases s t) [ inl e ↦ cc (e.1, h) | inr e ↦ e.0 p ]

is_valid_type-In : (typ : String) → is_valid_type typ ≡ true → In typ type_names
unfolding is_valid_type
is_valid_type-In typ h = elim (beq-cases typ "string") [
  | inl e ↦ inl e.0
  | inr a ↦ elim (beq-cases typ "bool") [
    | inl e ↦ inr (inl e.0)
    | inr b ↦ elim (beq-cases typ "number") [
      | inl e ↦ inr (inr (inl e.0))
      | inr c ↦ elim (beq-cases typ "list") [
        | inl e ↦ inr (inr (inr (inl e.0)))
        | inr d ↦ elim (beq-cases typ "map") [
          | inl e ↦ inr (inr (inr (inr (inl e.0))))
          | inr e ↦ cc (rw (a.1, b.1, c.1, d.1, e.1) at h)
        ]
      ]
    ]
  ]
]

string-ValueOf : (v : Value) → is_string v ≡ true → ValueOf "string" v
unfolding is_string
string-ValueOf (str s) h = text s
string-ValueOf v h = cc

bool-ValueOf : (v : Value) → is_bool v ≡ true → ValueOf "bool" v
unfolding is_bool
bool-ValueOf (bool b) h = truth b
bool-ValueOf v h = cc

number-ValueOf : (v : Value) → is_number v ≡ true → ValueOf "number" v
unfolding is_number
number-ValueOf (int n) h = whole n
number-ValueOf (float n p) h = fraction n p
number-ValueOf v h = cc

list-ValueOf : (v : Value) → is_list v ≡ true → ValueOf "list" v
unfolding is_list
list-ValueOf (list l) h = items l
list-ValueOf v h = cc

map-ValueOf : (v : Value) → is_map v ≡ true → ValueOf "map" v
unfolding is_map
map-ValueOf (object m) h = entries m
map-ValueOf v h = cc

at_name :
    (typ name : String) (v : Value)
    → (has_type name v ≡ true → ValueOf name v)
    → has_type typ v ≡ true
    → typ ≡ name
    → ValueOf typ v
at_name typ name v k h e = subst (λ u. ValueOf u v) (sym e) (k (ap (λ u. has_type u v) (sym e) ∙ h))

has_type-ValueOf :
    (typ : String) (v : Value) → In typ type_names → has_type typ v ≡ true → ValueOf typ v
unfolding has_type
has_type-ValueOf typ v (inl e) h = at_name typ "string" v (string-ValueOf v) h e
has_type-ValueOf typ v (inr (inl e)) h = at_name typ "bool" v (bool-ValueOf v) h e
has_type-ValueOf typ v (inr (inr (inl e))) h = at_name typ "number" v (number-ValueOf v) h e
has_type-ValueOf typ v (inr (inr (inr (inl e)))) h = at_name typ "list" v (list-ValueOf v) h e
has_type-ValueOf typ v (inr (inr (inr (inr (inl e))))) h = at_name typ "map" v (map-ValueOf v) h e
has_type-ValueOf typ v (inr (inr (inr (inr (inr none_left))))) h = absurd none_left

pub trigger_defaults_key-cases :
    (key : String) {typ : String}
    → trigger_defaults_key key ≡ some typ
    → (In key ("debounce" ∷ "concurrency_mode" ∷ []) × (typ ≡ "string"))
      ⊎ (In key ("max_queue_size" ∷ "error_threshold" ∷ []) × (typ ≡ "number"))
unfolding trigger_defaults_key
trigger_defaults_key-cases key h = elim (beq-cases key "debounce") [
  | inl e ↦ inl (inl e.0, cc (rw e.1 at h))
  | inr a ↦ elim (beq-cases key "concurrency_mode") [
    | inl e ↦ inl (inr (inl e.0), cc (rw (a.1, e.1) at h))
    | inr b ↦ elim (beq-cases key "max_queue_size") [
      | inl e ↦ inr (inl e.0, cc (rw (a.1, b.1, e.1) at h))
      | inr c ↦ elim (beq-cases key "error_threshold") [
        | inl e ↦ inr (inr (inl e.0), cc (rw (a.1, b.1, c.1, e.1) at h))
        | inr d ↦ cc (rw (a.1, b.1, c.1, d.1) at h)
      ]
    ]
  ]
]

pub with_prefix_nil :
    (lib : ManifestLibrary) (p : String) (es : List String) → with_prefix lib p es ≡ [] → es ≡ []
unfolding with_prefix
with_prefix_nil lib p [] h = refl
with_prefix_nil lib p (e ∷ es) h = absurd (cons_nil h)

not-false : (b : Bool) → not b ≡ false → b ≡ true
not-false true h = refl
not-false false h = cc

module _ (lib : ManifestLibrary) where
  pub check_default_type_nil :
      (typ : String) (v : Value)
      → In typ type_names
      → check_default_type lib typ v ≡ []
      → ValueOf typ v
  unfolding check_default_type
  check_default_type_nil typ v i h =
      has_type-ValueOf typ v i
        (not-false (has_type typ v) (error_if_nil (not (has_type typ v)) _ h))

  check_default_nil :
      (p typ : String) (v : Value)
      → In typ type_names
      → check_default lib p typ v ≡ []
      → IsDefault typ v
  unfolding check_default is_nil
  check_default_nil p typ null i h = inl refl
  check_default_nil p typ v i h =
      inr (check_default_type_nil typ v i (with_prefix_nil lib p (check_default_type lib typ v) h))

  pub check_name_nil : (p what name : String) → check_name lib p what name ≡ [] → name ≢ ""
  unfolding check_name
  check_name_nil p what name h = eq_false name "" (error_if_nil (name == "") _ h)

  pub check_type_nil : (p typ : String) → check_type lib p typ ≡ [] → In typ type_names
  unfolding check_type
  check_type_nil p typ h =
      is_valid_type-In typ
        (not-false (is_valid_type typ) (error_if_nil (not (is_valid_type typ)) _ h))

  pub check_config_nil :
      (i : ℕ) (cs : List ConfigEntry) → check_config lib i cs ≡ [] → Every IsConfig cs
  unfolding check_config
  check_config_nil i [] h = tt
  check_config_nil i (c ∷ cs) h =
      let p = indexed lib "configuration" i in
      let (a, h1) = append_nil (check_name lib p "key" c.key) _ h in
      let (b, h2) = append_nil (check_type lib p c.type) _ h1 in
      let (d, rest) = append_nil (check_default lib p c.type c.default) _ h2 in
      let typ = check_type_nil p c.type b in
      (
        (check_name_nil p "key" c.key a, typ, check_default_nil p c.type c.default typ d),
        check_config_nil (suc i) cs rest,
      )

  shorthand_nil :
      (allow shorthand : Bool) → shorthand && not allow ≡ false → allow ≡ false → shorthand ≡ false
  shorthand_nil allow true h a = cc (ap not a)
  shorthand_nil allow false h a = refl

  pub check_options_nil :
      (p : String) (allow : Bool) (j : ℕ) (os : List OptionDef)
      → check_options lib p allow j os ≡ []
      → Every (IsOption allow) os
  unfolding check_options
  check_options_nil p allow j [] h = tt
  check_options_nil p allow j (o ∷ os) h =
      let q = indexed lib (concat p ".options") j in
      let (a, h1) = append_nil (check_name lib q "name" o.name) _ h in
      let (b, h2) = append_nil (check_type lib q o.type) _ h1 in
      let (c, h3) = append_nil (error_if (o.shorthand && not allow) _) _ h2 in
      let (d, rest) = append_nil (check_default lib q o.type o.default) _ h3 in
      let typ = check_type_nil q o.type b in
      (
        (
          check_name_nil q "name" o.name a,
          typ,
          shorthand_nil allow o.shorthand (error_if_nil (o.shorthand && not allow) _ c),
          check_default_nil q o.type o.default typ d,
        ),
        check_options_nil p allow (suc j) os rest,
      )

  pub shorthand_count_lem :
      (os : List OptionDef)
      → shorthand_count lib os ≡ length (keep (λ (o : OptionDef). o.shorthand) os)
  unfolding shorthand_count keep
  shorthand_count_lem [] = refl
  shorthand_count_lem (o ∷ os) = elim (Bool-cases o.shorthand) [
    | inl e ↦ rw e (ap suc (shorthand_count_lem os))
    | inr e ↦ rw e (shorthand_count_lem os)
  ]
