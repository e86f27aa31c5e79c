-- ===== src/Secrets/Redactor.antt =====
-- src/infra/secret/composite/redactor.go: the secrets that are taken out of log records. A record is its
-- message and the text attributes; strings.Contains and strings.ReplaceAll are
-- parameters.
use recur.Prelude.{String, Bool, true, List, [], ◌∷◌, ◌==◌, String_eq, if◌then◌else◌, map}
use recur.Prelude.Dict
use recur.Prelude.Dict.{Dict, keys}

pub record TextLibrary : Type 0 where
  pub contains : String → String → Bool
  pub replace_all : String → String → String → String

-- An attribute of a record: a text, or a value of another kind, which is passed on
pub data Attr : Type 0 where
  text_attr : String → String → Attr
  other_attr : String → Attr

-- The handler that a Redactor wraps, as it was derived by WithAttrs and WithGroup
pub data Handler : Type 0 where
  base : Handler
  and_attrs : List Attr → Handler → Handler
  and_group : String → Handler → Handler

-- Redactor
pub record Redactor : Type 0 where
  pub inner : Handler
  pub secrets : Dict String Bool

-- NewRedactor
abbrev pub new_redactor : Handler → Redactor
new_redactor inner = record { inner = inner; secrets = [] }

secrets_from : Dict String String → Dict String Bool → Dict String Bool
secrets_from [] secrets = secrets
secrets_from ((name, v) ∷ values) secrets =
    secrets_from values (if v == "" then secrets else Dict.insert v true secrets)

-- UpdateSecrets: the new set replaces the old one.
unfoldable pub update_secrets : Dict String String → Redactor → Redactor
unfolding secrets_from
update_secrets values r = record r { secrets = secrets_from values [] }

-- WithAttrs and WithGroup: the new Redactor has the set of secrets as it is now.
abbrev pub with_attrs : List Attr → Redactor → Redactor
with_attrs attrs r = record r { inner = and_attrs attrs r.inner }

abbrev pub with_group : String → Redactor → Redactor
with_group name r = record r { inner = and_group name r.inner }

-- redact, with the secrets in the order in which the map is ranged over
unfoldable pub redact : TextLibrary → String → List String → String
redact lib s [] = s
redact lib s (secret ∷ secrets) =
    redact lib (if lib.contains s secret then lib.replace_all s secret "[REDACTED]" else s) secrets

redact_attr : TextLibrary → List String → Attr → Attr
unfolding redact
redact_attr lib secrets (text_attr key s) = text_attr key (redact lib s secrets)
redact_attr lib secrets (other_attr key) = other_attr key

-- Handle: the record that the inner handler gets
unfoldable pub handle : TextLibrary → Redactor → String → List Attr → String × List Attr
unfolding redact redact_attr
handle lib r message attrs = elim (keys r.secrets) [
  | [] ↦ (message, attrs)
  | s ∷ secrets ↦ (redact lib message (s ∷ secrets), map (redact_attr lib (s ∷ secrets)) attrs)
]
