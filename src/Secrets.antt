-- ===== src/Secrets.antt =====
-- src/infra/secret/composite/composite.go: the resolution of the secrets that a recurfile declares. The
-- resolvers of the environment, of files and of the keyring are parameters.
pub mod Sources
pub mod Redactor
pub mod Tests
use recur.Prelude.{
  String, ◌≡◌, refl, sym, ap, ◌∙◌, Option, none, some, List, [], ◌∷◌, ◌++◌, ◌⊎◌, Bool, true, false,
  ◌==◌, String_eq, if◌then◌else◌, In, inl, inr,
}
use recur.Prelude.Dict
use recur.Prelude.Dict.{Dict, lookup-insert}
use recur.Recurfile.{SecretDef}

-- The errors: those of a source, the two of Resolve, and the name that ResolveAll wraps around one
pub data SecretError : Type 0 where
  of_source : String → SecretError
  no_keyring : String → SecretError
  unknown_source : String → String → SecretError
  in_secret : String → SecretError → SecretError

pub data Result (A : Type 0) : Type 0 where
  value : A → Result A
  failed : SecretError → Result A

-- Resolver; `keyring` is nil on a system without one
pub record Resolver : Type 0 where
  pub env : SecretDef → Result String
  pub file : SecretDef → Result String
  pub keyring : Option (SecretDef → Result String)

with_keyring : Option (SecretDef → Result String) → SecretDef → Result String
with_keyring none def = failed (no_keyring def.name)
with_keyring (some keyring) def = keyring def

-- Resolve
unfoldable pub resolve_secret : Resolver → SecretDef → Result String
unfolding with_keyring
resolve_secret r def =
    if def.source == "env"
    then r.env def
    else if def.source == "file"
    then r.file def
    else if def.source == "keyring"
    then with_keyring r.keyring def
    else failed (unknown_source def.source def.name)

-- The loop of ResolveAll: an error ends it
resolve_into : Resolver → Dict String String → List SecretDef → Result (Dict String String)
resolve_into r result [] = value result
resolve_into r result (def ∷ defs) = elim (resolve_secret r def) [
  | failed e ↦ failed (in_secret def.name e)
  | value v ↦ resolve_into r (Dict.insert def.name v result) defs
]

-- ResolveAll; a nil map is an empty one
unfoldable pub resolve_all : Resolver → List SecretDef → Result (Dict String String)
unfolding resolve_into
resolve_all r defs = resolve_into r [] defs

-- The value of a name when the definitions are read in order: the last one that has the name wins.
abbrev pub last_value : Resolver → String → Option String → List SecretDef → Option String
last_value r k old [] = old
last_value r k old (def ∷ defs) =
    last_value r k
      (elim (resolve_secret r def) [
        | failed e ↦ old
        | value v ↦ if def.name == k then some v else old
      ])
      defs

-- Every definition resolves.
abbrev pub AllResolve : Resolver → List SecretDef → Type 0
AllResolve r defs =
    (def : SecretDef) → In def defs → (v : String) × (resolve_secret r def ≡ value v)

Result-cases :
    {A : Type 0} (x : Result A) → ((v : A) × (x ≡ value v)) ⊎ ((e : SecretError) × (x ≡ failed e))
Result-cases (value v) = inl (v, refl)
Result-cases (failed e) = inr (e, refl)

resolve_into-value :
    (r : Resolver) (result : Dict String String) (defs : List SecretDef) (m : Dict String String)
    → resolve_into r result defs ≡ value m
    → AllResolve r defs
      × ((k : String) → Dict.lookup k m ≡ last_value r k (Dict.lookup k result) defs)
unfolding resolve_into
resolve_into-value r result [] m h = (λ def i. absurd i, λ k. ap (Dict.lookup k) (cc h))
resolve_into-value r result (def ∷ defs) m h = elim (Result-cases (resolve_secret r def)) [
  | inr (e, f) ↦ absurd (cc (rw (f, resolve_into) at h))
  | inl (v, f) ↦
      let (all, values) =
        resolve_into-value r (Dict.insert def.name v result) defs m (rw (f, resolve_into) at h) in
      (
        λ d i. elim i [ inl p ↦ (v, rw p f) | inr j ↦ all d j ],
        λ k. values k ∙ rw f (ap (λ o. last_value r k o defs) (lookup-insert def.name k v result)),
      )
]

-- If ResolveAll returns a map, every definition resolved, and the map gives each name the value of the
-- last definition that has it, and no other name a value.
pub resolve_all_lem :
    (r : Resolver) (defs : List SecretDef) (m : Dict String String)
    → resolve_all r defs ≡ value m
    → AllResolve r defs × ((k : String) → Dict.lookup k m ≡ last_value r k none defs)
unfolding resolve_all Dict.lookup
resolve_all_lem r defs m h = resolve_into-value r [] defs m h

resolve_into-failed :
    (r : Resolver) (result : Dict String String) (before : List SecretDef) (def : SecretDef)
    (after : List SecretDef) (e : SecretError)
    → AllResolve r before
    → resolve_secret r def ≡ failed e
    → resolve_into r result (before ++ def ∷ after) ≡ failed (in_secret def.name e)
unfolding resolve_into
resolve_into-failed r result [] def after e all f = rw (f, resolve_into) refl
resolve_into-failed r result (d ∷ before) def after e all f =
    let (v, g) = all d (inl refl) in
    rw (g, resolve_into)
      (resolve_into-failed r (Dict.insert d.name v result) before def after e (λ x i. all x (inr i))
        f)

-- The first definition that does not resolve ends ResolveAll with its error, under its name.
pub resolve_all_first_error :
    (r : Resolver) (before : List SecretDef) (def : SecretDef) (after : List SecretDef)
    (e : SecretError)
    → AllResolve r before
    → resolve_secret r def ≡ failed e
    → resolve_all r (before ++ def ∷ after) ≡ failed (in_secret def.name e)
unfolding resolve_all
resolve_all_first_error r before def after e all f =
    resolve_into-failed r [] before def after e all f
