-- ===== src/Secrets/Tests.antt =====
-- Secrets on concrete definitions, without a keyring.
use recur.Prelude.{
  true, ◌==◌, if◌then◌else◌, String, String_eq, ◌≡◌, refl, none, false, [], ◌∷◌, inl, inr,
}
use recur.Prelude.Dict
use recur.Prelude.Dict.{Dict}
use recur.Recurfile.{SecretDef}
use recur.Secrets.Redactor.{TextLibrary, Redactor, base, new_redactor, with_group, handle}
use recur.Secrets.{
  Resolver, value, failed, no_keyring, in_secret, resolve_secret, resolve_all, AllResolve,
  last_value, resolve_all_lem, resolve_all_first_error,
}

abbrev headless : Resolver
headless = record { env = λ def. value def.ref; file = λ def. value "text"; keyring = none }

abbrev token : SecretDef
token = record {
  name = "token";
  source = "env";
  ref = "TOKEN";
  default = "";
  required = false;
  error_msg = "";
}

abbrev password : SecretDef
password = record token { name = "password"; source = "keyring" }

token_test : resolve_all headless (token ∷ []) ≡ value (("token", "TOKEN") ∷ [])
unfolding resolve_all resolve_secret Dict.insert
token_test = refl

password_test : resolve_secret headless password ≡ failed (no_keyring "password")
unfolding resolve_secret
password_test = refl

token_resolves : AllResolve headless (token ∷ [])
unfolding resolve_secret
token_resolves def (inl p) = ("TOKEN", rw p refl)
token_resolves def (inr i) = absurd i

resolve_all_lem_example :
    AllResolve headless (token ∷ [])
    × ((k : String)
        → Dict.lookup k (("token", "TOKEN") ∷ []) ≡ last_value headless k none (token ∷ []))
resolve_all_lem_example = resolve_all_lem headless (token ∷ []) (("token", "TOKEN") ∷ []) token_test

resolve_all_first_error_test :
    resolve_all headless (token ∷ password ∷ [])
    ≡ failed (in_secret "password" (no_keyring "password"))
resolve_all_first_error_test =
    resolve_all_first_error headless (token ∷ []) password [] (no_keyring "password") token_resolves
      password_test

abbrev text_library : TextLibrary
text_library = record {
  contains = λ s secret. s == "key abcd";
  replace_all = λ s secret mark. if secret == "ab" then "key [REDACTED]cd" else "key [REDACTED]";
}

abbrev updated : Redactor
updated = record { inner = base; secrets = ("abcd", true) ∷ [] }

-- The secret is taken out of what the Redactor handles, and not of what a handler writes that was derived
-- from it before UpdateSecrets.
redacted_test : handle text_library updated "key abcd" [] ≡ ("key [REDACTED]", [])
unfolding handle
redacted_test = refl

derived_test :
    handle text_library (with_group "plugin" (new_redactor base)) "key abcd" [] ≡ ("key abcd", [])
unfolding handle
derived_test = refl

-- Of two secrets that begin alike, the shorter one may be replaced first: the rest of the other stays.
overlap_test :
    handle text_library
      (record updated { secrets = ("ab", true) ∷ ("abcd", true) ∷ [] })
      "key abcd"
      []
    ≡ ("key [REDACTED]cd", [])
unfolding handle
overlap_test = refl
