-- ===== src/Plugins/ManifestFile/Acceptance.antt =====
-- What a manifest that Parse of manifest.go accepts has.
use Prim.Native.String.{◌++◌ as concat}
use recur.Prelude.{
  ℕ, suc, ◌≡◌, ◌≤◌, ◌⊎◌, refl, sym, ap, subst, ◌∙◌, String, Option, none, some, Bool, true, false,
  ◌&&◌, inl, inr, List, [], ◌∷◌, length, keep, In, Every, IsNonempty, cons_nil, append_nil, ◌==◌,
  String_eq, ltb, arith,
}
use recur.Prelude.Result.{Resolved, resolved, unresolved}
use recur.Config.{Value, Fields, no_fields, field}
use recur.Plugins.{OptionDef, ContextDef, TriggerDef, ActionDef, Manifest}
use recur.Plugins.ManifestFile.{
  ManifestLibrary, error_if, check_default_type, indexed, check_name, check_type, check_config,
  check_options, shorthand_count, validate_options, check_trigger_default, trigger_defaults_key,
  check_defaults, check_context, check_triggers, check_actions, no_entries, validate, accept,
  parsed, parse_manifest,
}
use recur.Plugins.ManifestFile.Validity.{
  IsOption, IsSetting, AreSettings, IsContext, IsTrigger, IsAction, IsManifest, error_if_nil,
  eq_false, trigger_defaults_key-cases, with_prefix_nil, check_default_type_nil, check_name_nil,
  check_type_nil, check_config_nil, check_options_nil, shorthand_count_lem,
}

no_entries-IsNonempty :
    (ts : List TriggerDef) (as' : List ActionDef)
    → no_entries ts as' ≡ false
    → IsNonempty ts ⊎ IsNonempty as'
unfolding no_entries
no_entries-IsNonempty [] [] h = cc
no_entries-IsNonempty [] (a ∷ as') h = inr tt
no_entries-IsNonempty (t ∷ ts) as' h = inl tt

module _ (lib : ManifestLibrary) where
  trigger_default-IsSetting :
      (key typ : String) (v : Value)
      → check_default_type lib typ v ≡ []
      → (In key ("debounce" ∷ "concurrency_mode" ∷ []) × (typ ≡ "string"))
        ⊎ (In key ("max_queue_size" ∷ "error_threshold" ∷ []) × (typ ≡ "number"))
      → IsSetting key v
  trigger_default-IsSetting key typ v h (inl (i, e)) = inl (
    i,
    check_default_type_nil lib "string" v (inl refl)
        (ap (λ t. check_default_type lib t v) (sym e) ∙ h),
  )
  trigger_default-IsSetting key typ v h (inr (i, e)) = inr (
    i,
    check_default_type_nil lib "number" v (inr (inr (inl refl)))
        (ap (λ t. check_default_type lib t v) (sym e) ∙ h),
  )

  check_trigger_default_nil :
      (p key : String) (v : Value) (o : Option String)
      → trigger_defaults_key key ≡ o
      → check_trigger_default lib p key v o ≡ []
      → IsSetting key v
  unfolding check_trigger_default
  check_trigger_default_nil p key v none e h = absurd (cons_nil h)
  check_trigger_default_nil p key v (some typ) e h =
      trigger_default-IsSetting key typ v (with_prefix_nil lib _ (check_default_type lib typ v) h)
        (trigger_defaults_key-cases key e)

  check_defaults_nil : (p : String) (m : Fields) → check_defaults lib p m ≡ [] → AreSettings m
  unfolding check_defaults
  check_defaults_nil p no_fields h = tt
  check_defaults_nil p (field k v m) h =
      let (a, rest) = append_nil (check_trigger_default lib p k v (trigger_defaults_key k)) _ h in
      (check_trigger_default_nil p k v (trigger_defaults_key k) refl a, check_defaults_nil p m rest)

  check_context_nil :
      (p : String) (j : ℕ) (cs : List ContextDef)
      → check_context lib p j cs ≡ []
      → Every IsContext cs
  unfolding check_context
  check_context_nil p j [] h = tt
  check_context_nil p j (c ∷ cs) h =
      let q = indexed lib (concat p ".context") j in
      let (a, h1) = append_nil (check_name lib q "name" c.name) _ h in
      let (b, rest) = append_nil (check_type lib q c.type) _ h1 in
      (
        (check_name_nil lib q "name" c.name a, check_type_nil lib q c.type b),
        check_context_nil p (suc j) cs rest,
      )

  validate_options_nil :
      (os : List OptionDef) (p : String) (allow : Bool)
      → validate_options lib os p allow ≡ []
      → Every (IsOption allow) os × (allow && ltb 1 (shorthand_count lib os) ≡ false)
  unfolding validate_options
  validate_options_nil os p allow h =
      let (a, b) = append_nil (check_options lib p allow 0 os) _ h in
      (
        check_options_nil lib p allow 0 os a,
        error_if_nil (allow && ltb 1 (shorthand_count lib os)) _ b,
      )

  check_triggers_nil :
      (i : ℕ) (ts : List TriggerDef) → check_triggers lib i ts ≡ [] → Every IsTrigger ts
  unfolding check_triggers
  check_triggers_nil i [] h = tt
  check_triggers_nil i (t ∷ ts) h =
      let p = indexed lib "triggers" i in
      let (a, h1) = append_nil (check_name lib p "name" t.name) _ h in
      let (b, h2) = append_nil (validate_options lib t.options p false) _ h1 in
      let (c, h3) = append_nil (check_defaults lib p t.defaults) _ h2 in
      let (d, rest) = append_nil (check_context lib p 0 t.context) _ h3 in
      (
        (
          check_name_nil lib p "name" t.name a,
          (validate_options_nil t.options p false b).0,
          check_defaults_nil p t.defaults c,
          check_context_nil p 0 t.context d,
        ),
        check_triggers_nil (suc i) ts rest,
      )

  at_most_one :
      (os : List OptionDef)
      → ltb 1 (shorthand_count lib os) ≡ false
      → length (keep (λ (o : OptionDef). o.shorthand) os) ≤ 1
  at_most_one os h = ground (arith, h, shorthand_count_lem lib os)

  check_actions_nil :
      (i : ℕ) (as' : List ActionDef) → check_actions lib i as' ≡ [] → Every IsAction as'
  unfolding check_actions
  check_actions_nil i [] h = tt
  check_actions_nil i (a ∷ as') h =
      let p = indexed lib "actions" i in
      let (n, h1) = append_nil (check_name lib p "name" a.name) _ h in
      let (o, rest) = append_nil (validate_options lib a.options p true) _ h1 in
      let (options, one) = validate_options_nil a.options p true o in
      (
        (check_name_nil lib p "name" a.name n, options, at_most_one a.options one),
        check_actions_nil (suc i) as' rest,
      )

  validate_nil : (m : Manifest) → validate lib m ≡ [] → IsManifest m
  unfolding validate
  validate_nil m h =
      let (a, h1) = append_nil (error_if (m.name == "") _) _ h in
      let (b, h2) = append_nil (error_if (m.namespace == "") _) _ h1 in
      let (c, h3) = append_nil (error_if (m.version == "") _) _ h2 in
      let (d, h4) = append_nil (error_if (no_entries m.triggers m.actions) _) _ h3 in
      let (e, h5) = append_nil (check_config lib 0 m.configuration) _ h4 in
      let (f, g) = append_nil (check_triggers lib 0 m.triggers) _ h5 in
      record {
        named = (
          eq_false m.name "" (error_if_nil (m.name == "") _ a),
          eq_false m.namespace "" (error_if_nil (m.namespace == "") _ b),
          eq_false m.version "" (error_if_nil (m.version == "") _ c),
        );
        nonempty =
            no_entries-IsNonempty m.triggers m.actions
              (error_if_nil (no_entries m.triggers m.actions) _ d);
        configuration = check_config_nil lib 0 m.configuration e;
        triggers = check_triggers_nil 0 m.triggers f;
        actions = check_actions_nil 0 m.actions g;
      }

  accept-IsManifest :
      (m : Manifest) {n : Manifest} (errs : List String)
      → validate lib m ≡ errs
      → accept lib m errs ≡ resolved n
      → IsManifest n
  unfolding accept
  accept-IsManifest m [] e h = subst IsManifest (cc h) (validate_nil m e)
  accept-IsManifest m (x ∷ xs) e h = cc

  parsed-IsManifest :
      (r : Resolved Manifest) {m : Manifest} → parsed lib r ≡ resolved m → IsManifest m
  unfolding parsed
  parsed-IsManifest (unresolved e) h = cc
  parsed-IsManifest (resolved n) h = accept-IsManifest n (validate lib n) refl h

  -- A manifest that Parse accepts has a name, a namespace and a version, and a trigger or an action;
  -- every configuration key, option and context variable has a name and one of the five types; a
  -- default is of the declared type; a trigger sets no more than the four settings of the engine, each
  -- with a value of its type; no option of a trigger is marked shorthand, and at most one of an action.
  pub parse_manifest-IsManifest :
      (text : String) {m : Manifest} → parse_manifest lib text ≡ resolved m → IsManifest m
  unfolding parse_manifest
  parse_manifest-IsManifest text h = parsed-IsManifest (lib.unmarshal text) h
