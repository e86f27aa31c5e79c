-- ===== src/Prelude/Result.antt =====
-- The pair (value, error) of a Go function that returns one of them.
use recur.Prelude.{String}

pub data Resolved (A : Type 0) : Type 0 where
  resolved : A → Resolved A
  unresolved : String → Resolved A
