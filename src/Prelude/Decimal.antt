-- ===== src/Prelude/Decimal.antt =====
-- Texts: `strings.TrimSuffix`, and `strconv.Itoa` on numbers that are not negative.
use Prim.Native.Nat.{ℕ, zero, suc, ◌/◌, ◌%◌}
use Prim.Native.String.{String}
use rabbitmq_operator.Prelude.Tests.{ltb, if◌then◌else◌, ◌==◌, ◌<>◌}

-- The rest of a text equals the suffix at one place at most.
unfoldable pub trim_suffix : String → String → String
trim_suffix suffix String.[] = ""
trim_suffix suffix (String.◌∷◌ c s) =
    let kept = trim_suffix suffix s in if String.◌∷◌ c s == suffix then "" else String.◌∷◌ c kept

unfoldable pub digit : ℕ → String
digit zero = "0"
digit (suc zero) = "1"
digit (suc (suc zero)) = "2"
digit (suc (suc (suc zero))) = "3"
digit (suc (suc (suc (suc zero)))) = "4"
digit (suc (suc (suc (suc (suc zero))))) = "5"
digit (suc (suc (suc (suc (suc (suc zero)))))) = "6"
digit (suc (suc (suc (suc (suc (suc (suc zero))))))) = "7"
digit (suc (suc (suc (suc (suc (suc (suc (suc zero)))))))) = "8"
digit _ = "9"

-- A number has fewer digits than the fuel `n + 1`.
unfoldable pub itoa_fuel : ℕ → ℕ → String
unfolding digit
itoa_fuel zero n = ""
itoa_fuel (suc fuel) n =
    let front = itoa_fuel fuel (n / 10) in if ltb n 10 then digit n else front <> digit (n % 10)

unfoldable pub itoa : ℕ → String
unfolding itoa_fuel
itoa n = itoa_fuel (suc n) n
