-- ===== src/Base/Decimal.antt =====
-- Decimal notation (`Display` of the unsigned integers) and a type of signed integers.
use remote_deck.Base.Bools.{ltb, if◌then◌else◌}
use remote_deck.Base.Strings.{Text}
use Prim.Native.Nat.{ℕ, zero, suc, ◌+◌, ◌/◌, ◌%◌}
use mathlib.Core.List.{[], ◌∷◌}

-- By the lowest digit; the fuel is more than the number, so it is never short.
decimal_from : ℕ → ℕ → Text → Text
decimal_from zero n acc = acc
decimal_from (suc f) n acc =
    let digit = (b'0' + n % 10) ∷ acc in
    let rest = decimal_from f (n / 10) digit in if ltb n 10 then digit else rest

unfoldable pub decimal : ℕ → Text
unfolding decimal_from
decimal n = decimal_from (suc n) n []

-- `negsuc n` is -(n + 1).
pub data ℤ : Type 0 where
  pos negsuc : ℕ → ℤ
