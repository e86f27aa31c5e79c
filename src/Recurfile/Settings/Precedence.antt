-- ===== src/Recurfile/Settings/Precedence.antt =====
-- The precedence chain documented at the top of builder.go: each setting is read through the layers
-- daemon, plugin manifest, plugin override, group, trigger.
use recur.Prelude.{String, ◌≡◌, refl, sym, ap, ◌∙◌, Option, none, some, List, [], ◌∷◌, ◌++◌}
use mathlib.Core.Path.{subst}
use recur.Prelude.Dict
use recur.Prelude.Int.{ℤ}
use recur.Config.{Value, str, Fields, get, IsFields, copy}
use recur.Config.Overlay.{
  AllFields, through, layered, get-copy, Undefined, through_most_specific, AllFields-append,
}
use recur.Config.MapStore.{
  MapStore, set, is_known_layer, get_field, defined_layers, get_all, get_cached,
}
use recur.Config.MapStore.Coherence.{
  IsCoherent, set_layer, recompute, apply, apply-IsCoherent, new-IsCoherent, get_field_fresh,
}
use recur.Recurfile.Settings.{
  TriggerSettings, as_string, as_int, as_duration, layer_names, set_unless_nil, build_store,
  read_settings, build_trigger_settings,
}

-- The layers that are not nil, copied as Set copies them.
abbrev copies : List (Option Fields) → List (Option Fields)
copies [] = []
copies (none ∷ layers) = copies layers
copies (some m ∷ layers) = some (copy m) ∷ copies layers

-- The store holds the five layers in their order, whichever of them are nil.
defined_layers-build_store :
    (a b c d e : Option Fields)
    → defined_layers (build_store a b c d e).layers (build_store a b c d e).layer_names
      ≡ copies (a ∷ b ∷ c ∷ d ∷ e ∷ [])
unfolding build_store set is_known_layer defined_layers Dict.lookup Dict.insert
defined_layers-build_store none none none none none = refl
defined_layers-build_store none none none (some d) none = refl
defined_layers-build_store none none (some c) none none = refl
defined_layers-build_store none none (some c) (some d) none = refl
defined_layers-build_store none (some b) none none none = refl
defined_layers-build_store none (some b) none (some d) none = refl
defined_layers-build_store none (some b) (some c) none none = refl
defined_layers-build_store none (some b) (some c) (some d) none = refl
defined_layers-build_store (some a) none none none none = refl
defined_layers-build_store (some a) none none (some d) none = refl
defined_layers-build_store (some a) none (some c) none none = refl
defined_layers-build_store (some a) none (some c) (some d) none = refl
defined_layers-build_store (some a) (some b) none none none = refl
defined_layers-build_store (some a) (some b) none (some d) none = refl
defined_layers-build_store (some a) (some b) (some c) none none = refl
defined_layers-build_store (some a) (some b) (some c) (some d) none = refl
defined_layers-build_store _ _ _ _ _ = refl

set_unless_nil-IsCoherent :
    (name : String) (o : Option Fields) (r : MapStore)
    → IsCoherent r
    → IsCoherent (set_unless_nil name o r)
unfolding set_unless_nil apply
set_unless_nil-IsCoherent name none r h = h
set_unless_nil-IsCoherent name (some m) r h = apply-IsCoherent (set_layer name m) r h

build_store-IsCoherent : (a b c d e : Option Fields) → IsCoherent (build_store a b c d e)
unfolding build_store
build_store-IsCoherent a b c d e = set_unless_nil-IsCoherent "trigger" e _ (
    set_unless_nil-IsCoherent "group" d _ (
      set_unless_nil-IsCoherent "plugin_override" c _ (
        set_unless_nil-IsCoherent "plugin" b _
          (set_unless_nil-IsCoherent "daemon" a _ (new-IsCoherent layer_names)))))

through-copies :
    (key : String) (o : Option Value) (layers : List (Option Fields))
    → AllFields layers
    → through key o (copies layers) ≡ through key o layers
through-copies key o [] h = refl
through-copies key o (none ∷ layers) h = through-copies key o layers h
through-copies key o (some m ∷ layers) h =
    through-copies key (layered o (get key (copy m))) layers h.1
    ∙ ap (λ v. through key (layered o v) layers) (get-copy key m h.0)

-- A coherent store that reads every key through the given layers.
record ReadsThrough (layers : List (Option Fields)) (r : MapStore) : Type 0 where
  coherent : IsCoherent r
  reads :
      (key : String)
      → through key none (defined_layers r.layers r.layer_names) ≡ through key none layers

build_store-ReadsThrough :
    (a b c d e : Option Fields)
    → AllFields (a ∷ b ∷ c ∷ d ∷ e ∷ [])
    → ReadsThrough (a ∷ b ∷ c ∷ d ∷ e ∷ []) (build_store a b c d e)
build_store-ReadsThrough a b c d e h = record {
  coherent = build_store-IsCoherent a b c d e;
  reads = λ key.
      ap (through key none) (defined_layers-build_store a b c d e)
      ∙ through-copies key none (a ∷ b ∷ c ∷ d ∷ e ∷ []) h;
}

module _ (layers : List (Option Fields)) (key : String) where
  get_field-reads :
      (r : MapStore) → ReadsThrough layers r → (get_field key r).1 ≡ through key none layers
  get_field-reads r h = get_field_fresh key r h.coherent ∙ h.reads key

  cached_reads :
      (o : Option Fields) (r : MapStore)
      → ((k : String)
          → through k none (defined_layers r.layers r.layer_names) ≡ through k none layers)
      → (k : String)
      → through k none (defined_layers (get_cached o r).0.layers (get_cached o r).0.layer_names)
        ≡ through k none layers
  unfolding get_cached
  cached_reads none r h = h
  cached_reads (some c) r h = h

  -- A read changes the cache at most.
  get_field-ReadsThrough :
      (r : MapStore) → ReadsThrough layers r → ReadsThrough layers (get_field key r).0
  unfolding get_field get_all apply
  get_field-ReadsThrough r h = record {
    coherent = apply-IsCoherent recompute r h.coherent;
    reads = cached_reads r.overlay_cache r h.reads;
  }

module _ (parse_duration : String → Option ℤ) (layers : List (Option Fields)) where
  -- The settings that the five layers determine.
  abbrev pub chain : TriggerSettings
  chain = record {
    concurrency_mode = as_string (through "concurrency_mode" none layers);
    max_queue_size = as_int (through "max_queue_size" none layers);
    debounce = as_duration parse_duration (through "debounce" none layers);
    error_threshold = as_int (through "error_threshold" none layers);
    action_error_threshold = as_int (through "action_error_threshold" none layers);
  }

  read_settings_lem :
      (r : MapStore) → ReadsThrough layers r → read_settings parse_duration r ≡ chain
  unfolding read_settings
  read_settings_lem r h =
      let h1 = get_field-ReadsThrough layers "concurrency_mode" r h in
      let h2 = get_field-ReadsThrough layers "max_queue_size" _ h1 in
      let h3 = get_field-ReadsThrough layers "debounce" _ h2 in
      let h4 = get_field-ReadsThrough layers "error_threshold" _ h3 in
      λ i. record {
        concurrency_mode = as_string (get_field-reads layers "concurrency_mode" r h i);
        max_queue_size = as_int (get_field-reads layers "max_queue_size" _ h1 i);
        debounce = as_duration parse_duration (get_field-reads layers "debounce" _ h2 i);
        error_threshold = as_int (get_field-reads layers "error_threshold" _ h3 i);
        action_error_threshold = as_int (get_field-reads layers "action_error_threshold" _ h4 i);
      }

-- Each of the five settings is what its key has through the layers daemon, plugin manifest, plugin
-- override, group and trigger, in that order, whichever of the layers are nil.
pub build_trigger_settings_lem :
    (parse_duration : String → Option ℤ)
    (daemon plugin_manifest plugin_override group trigger : Option Fields)
    → AllFields (daemon ∷ plugin_manifest ∷ plugin_override ∷ group ∷ trigger ∷ [])
    → build_trigger_settings parse_duration daemon plugin_manifest plugin_override group trigger
      ≡ chain parse_duration (daemon ∷ plugin_manifest ∷ plugin_override ∷ group ∷ trigger ∷ [])
unfolding build_trigger_settings
build_trigger_settings_lem parse_duration a b c d e h =
    read_settings_lem parse_duration (a ∷ b ∷ c ∷ d ∷ e ∷ []) (build_store a b c d e)
      (build_store-ReadsThrough a b c d e h)

-- The most specific layer that defines concurrency_mode as a text decides it, whatever the less
-- specific layers hold.
pub concurrency_mode_most_specific :
    (parse_duration : String → Option ℤ)
    (daemon plugin_manifest plugin_override group trigger : Option Fields)
    (lower : List (Option Fields)) (layer : Fields) (higher : List (Option Fields)) (mode : String)
    → AllFields lower
    → IsFields layer
    → AllFields higher
    → daemon ∷ plugin_manifest ∷ plugin_override ∷ group ∷ trigger ∷ []
      ≡ lower ++ some layer ∷ higher
    → get "concurrency_mode" layer ≡ some (str mode)
    → Undefined "concurrency_mode" higher
    → (build_trigger_settings parse_duration daemon plugin_manifest plugin_override group
        trigger).concurrency_mode
      ≡ mode
unfolding as_string
concurrency_mode_most_specific parse_duration a b c d e lower layer higher mode x y z same defines
      above =
    ap (λ (t : TriggerSettings). t.concurrency_mode)
      (build_trigger_settings_lem parse_duration a b c d e
        (subst AllFields (sym same) (AllFields-append lower (some layer ∷ higher) x (y, z))))
    ∙ ap (λ l. as_string (through "concurrency_mode" none l)) same
    ∙ ap as_string (
        through_most_specific "concurrency_mode" (str mode) none lower layer higher defines refl
          above)
