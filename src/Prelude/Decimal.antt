-- ===== src/Prelude/Decimal.antt =====
-- How numbers are printed: `%d`, `%02d` and `<<`, for a number that is not negative,
-- and for an `int`.
use rocketmq_proxy.Prelude.Tests.{ltb, if◌then◌else◌}
use rocketmq_proxy.Prelude.Lists.{Bytes}
use Prim.Native.Nat.{ℕ, zero, suc, ◌+◌, ◌-◌, ◌/◌, ◌%◌}
use mathlib.Core.List.{[], ◌∷◌}

-- The digits of `n` before `out`, with fuel: `n` rounds are enough.
unfoldable pub digits : ℕ → ℕ → Bytes → Bytes
digits zero n out = (48 + n % 10) ∷ out
digits (suc f) n out =
    let rest = digits f (n / 10) ((48 + n % 10) ∷ out) in if ltb n 10 then (48 + n) ∷ out else rest

unfoldable pub decimal : ℕ → Bytes
unfolding digits
decimal n = digits n n []

unfoldable pub two_digits : ℕ → Bytes
unfolding decimal
two_digits n = if ltb n 10 then 48 ∷ decimal n else decimal n

-- An `int`, given by its 32-bit pattern.
unfoldable pub signed_decimal : ℕ → Bytes
unfolding decimal
signed_decimal n = if ltb n 2147483648 then decimal n else 45 ∷ decimal (4294967296 - n)
