-- ===== src/Secrets/Sources.antt =====
-- The resolvers of src/infra/secret/env, file and keyring, and New of src/infra/secret/composite, which
-- puts them together. The environment, the file system and the keyring are parameters.
use Prim.Native.String.{len, slice, ◌++◌ as concat}
use text.Mathlib.Text.{find?}
use recur.Prelude.{String, ◌+◌, Option, none, some, ◌==◌, String_eq, if◌then◌else◌}
use recur.Prelude.Result.{Resolved, resolved, unresolved}
use recur.Recurfile.{SecretDef}
use recur.Secrets.{Resolver, Result, value, failed, of_source}

-- os.LookupEnv, os.ReadFile, strings.TrimSpace, the format %q, and the Provider of a keyring
pub record Sources : Type 0 where
  pub lookup_env : String → Option String
  pub read_file : String → Resolved String
  pub trim_space : String → String
  pub quote : String → String
  pub keyring : Option (String → String → Resolved String)

-- A variable that is not set or is empty
unset_variable : SecretDef → Option String → Result String
unset_variable def found =
    if def.default == ""
    then (if def.required
        then failed (
            of_source (
              if def.error_msg == ""
              then concat "required environment variable " (concat def.ref " is not set")
              else def.error_msg))
        else elim found [
          | none ↦
              failed (of_source (concat "environment variable " (concat def.ref " is not set")))
          | some s ↦ value s
        ])
    else value def.default

resolve_variable : SecretDef → Option String → Result String
unfolding unset_variable
resolve_variable def none = unset_variable def none
resolve_variable def (some s) = if s == "" then unset_variable def (some s) else value s

-- Resolve of secretenv
unfoldable pub resolve_env : Sources → SecretDef → Result String
unfolding resolve_variable
resolve_env src def = resolve_variable def (src.lookup_env def.ref)

-- Resolve of secretfile
unfoldable pub resolve_file : Sources → SecretDef → Result String
resolve_file src def = elim (src.read_file def.ref) [
  | unresolved e ↦
      failed (of_source (concat "reading secret file " (concat def.ref (concat ": " e))))
  | resolved text ↦ value (src.trim_space text)
]

keyring_value : Sources → SecretDef → Resolved String → Result String
keyring_value src def (resolved s) = value s
keyring_value src def (unresolved e) =
    failed (of_source (concat "keyring lookup " (concat (src.quote def.ref) (concat ": " e))))

-- Resolve of secretkeyring: the reference is split at its first slash.
unfoldable pub resolve_keyring :
    Sources → (String → String → Resolved String) → SecretDef → Result String
unfolding keyring_value
resolve_keyring src provider def = elim (find? def.ref "/") [
  | none ↦ failed (of_source (concat "keyring ref must be service/key, got " (src.quote def.ref)))
  | some i ↦
      keyring_value src def (provider (slice def.ref 0 i) (slice def.ref (i + 1) (len def.ref)))
]

keyring_resolver :
    Sources → Option (String → String → Resolved String) → Option (SecretDef → Result String)
unfolding resolve_keyring
keyring_resolver src none = none
keyring_resolver src (some provider) = some (resolve_keyring src provider)

-- New of secretcomposite
unfoldable pub new_resolver : Sources → Resolver
unfolding resolve_env resolve_file keyring_resolver
new_resolver src = record {
  env = resolve_env src;
  file = resolve_file src;
  keyring = keyring_resolver src src.keyring;
}
