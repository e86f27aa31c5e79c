-- ===== src/Config/Store/Tests.antt =====
-- The store of the daemon, with a default for one field.
use recur.Prelude.{
  String, ◌≡◌, refl, sym, subst, Option, none, some, false, [], ◌∷◌, ◌==◌, String_eq, inl, inr, In,
  Bool-cases,
}
use recur.Prelude.Dict
use recur.Prelude.Dict.{Dict}
use recur.Config.Store.{
  string_pointer, Struct, zero_config, Store, new_store, set_field, get_field, is_known_layer,
  compute_overlay, inspect,
}
use recur.Config.Store.Inspection.{first_defined, defined_field, first_defined-inspect}
use recur.Config.Store.RoundTrip.Effective.{HasShape}
use recur.Config.Store.RoundTrip.{AreConfigs, LeaveUndefined, get_field-set_field}

abbrev defaults : Struct
defaults = Dict.insert "LogLevel" (string_pointer (some "info")) zero_config

abbrev store : Store
store = record (new_store ("default" ∷ "file" ∷ "cli args" ∷ [])) {
  layers = ("default", defaults) ∷ [];
}

shape_test : HasShape defaults
unfolding Dict.insert
shape_test = refl

configs_test : AreConfigs store
unfolding Dict.lookup Dict.insert
configs_test layer s h = elim (Bool-cases ("default" == layer)) [
  | inl e ↦ subst HasShape (some_struct (rw e at h)) shape_test
  | inr e ↦ absurd (cc (rw e at h))
]
  where
    some_struct : {x y : Struct} → ◌≡◌ {A = Option Struct} (some x) (some y) → x ≡ y
    some_struct p = cc p

written_test : (set_field "file" "LogLevel" (string_pointer (some "debug")) store).1 ≡ none
unfolding set_field is_known_layer Dict.lookup Dict.insert
written_test = refl

apart_test : (l : String) → In l ("cli args" ∷ []) → ("file" == l) ≡ false
apart_test l (inl p) = subst (λ x. ("file" == x) ≡ false) (sym p) refl
apart_test l (inr p) = absurd p

unset_test : LeaveUndefined "LogLevel" ("cli args" ∷ []) store
unfolding Dict.lookup
unset_test layer (inl p) s h = absurd (cc (subst (λ x. Dict.lookup x store.layers ≡ some s) p h))
unset_test layer (inr p) s h = absurd p

get_field-set_field_example :
    (get_field "LogLevel" (set_field "file" "LogLevel" (string_pointer (some "debug")) store).0).1
    ≡ some (string_pointer (some "debug"))
get_field-set_field_example =
    get_field-set_field "LogLevel" "file" ("default" ∷ []) ("cli args" ∷ [])
      (string_pointer (some "debug")) store refl configs_test apart_test unset_test refl
      written_test

no_cache_test : (s : Struct) → store.overlay_cache ≡ some s → s ≡ compute_overlay store
no_cache_test s e = cc e

first_defined-inspect_example :
    first_defined (inspect "LogLevel" store) ≡ defined_field (get_field "LogLevel" store).1
first_defined-inspect_example = first_defined-inspect "LogLevel" store configs_test no_cache_test
