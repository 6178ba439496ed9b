-- ===== src/Base/Decimal.antt =====
-- `%d` of a number that is not negative, for the messages that the program formats.
use Prim.Native.Nat.{ℕ, zero, suc, ◌/◌, ◌%◌}
use Prim.Native.String.{String}
use metio.Base.Tests.{ltb, if◌then◌else◌}
use metio.Base.Text.{◌+++◌}

digit : ℕ → String
digit zero = "0"
digit (suc zero) = "1"
digit (suc (suc zero)) = "2"
digit (suc (suc (suc zero))) = "3"
digit (suc (suc (suc (suc zero)))) = "4"
digit (suc (suc (suc (suc (suc zero))))) = "5"
digit (suc (suc (suc (suc (suc (suc zero)))))) = "6"
digit (suc (suc (suc (suc (suc (suc (suc zero))))))) = "7"
digit (suc (suc (suc (suc (suc (suc (suc (suc zero)))))))) = "8"
digit _ = "9"

-- A number of at most `fuel` digits.
digits : ℕ → ℕ → String
digits zero n = ""
digits (suc fuel) n =
    let more = digits fuel (n / 10) +++ digit (n % 10) in if ltb n 10 then digit n else more

-- A number has no more digits than its value, and one at least.
unfoldable pub decimal : ℕ → String
unfolding digits digit
decimal n = digits (suc n) n
