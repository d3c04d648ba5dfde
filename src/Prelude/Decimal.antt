-- ===== src/Prelude/Decimal.antt =====
-- Decimal notation, as `%d` prints it.
use Prim.Native.Nat.{ℕ, zero, suc, ◌+◌, ◌/◌, ◌%◌}
use mathlib.Core.List.{[], ◌∷◌}
use firefik.Prelude.Tests.{ltb, if◌then◌else◌}
use firefik.Prelude.Texts.{Text}

-- Decimal notation, the digits in front of `acc`. A number has no more digits than its value + 1.
abbrev pub decimal_onto : ℕ → ℕ → Text → Text
decimal_onto zero n acc = acc
decimal_onto (suc f) n acc =
    let more = decimal_onto f (n / 10) ((b'0' + n % 10) ∷ acc) in
    if ltb n 10 then (b'0' + n) ∷ acc else more

unfoldable pub decimal : ℕ → Text
decimal n = decimal_onto (n + 1) n []
