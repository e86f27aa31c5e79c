-- ===== src/Recurfile/Seeds.antt =====
-- The seeds of src/domain/recurfile/builder.go from which entity ids are computed. SHA-256 is a
-- parameter where ids are made; the decimal print of an int is written out for `%d`.
use Prim.Native.Nat.{◌/◌, ◌%◌}
use Prim.Native.String.{slice, ◌++◌ as concat}
use recur.Prelude.{ℕ, zero, suc, String, ℕ_eq, ltb, if◌then◌else◌}

digit : ℕ → String
digit d = slice "0123456789" d (suc d)

decimal_fuel : ℕ → ℕ → String
unfolding digit
decimal_fuel zero n = ""
decimal_fuel (suc f) n =
    let high = decimal_fuel f (n / 10) in if ltb n 10 then digit n else concat high (digit (n % 10))

-- `%d` of an int that is not negative. A number has fewer digits than its successor counts.
unfoldable pub decimal : ℕ → String
unfolding decimal_fuel
decimal n = decimal_fuel (suc n) n

-- TriggerSeed
unfoldable pub trigger_seed : String → String → ℕ → String
unfolding decimal
trigger_seed group_id trigger_type occurrence =
    concat group_id (concat ":" (concat trigger_type (concat ":" (decimal occurrence))))

-- ActionSeed
unfoldable pub action_seed : String → String → ℕ → String
unfolding decimal
action_seed trigger_id action_type occurrence =
    concat trigger_id (concat ":" (concat action_type (concat ":" (decimal occurrence))))

-- GroupSeed
unfoldable pub group_seed : String → String → String
group_seed recurfile_id group_name = concat recurfile_id (concat ":" group_name)
