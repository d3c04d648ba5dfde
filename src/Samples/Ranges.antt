-- ===== src/Samples/Ranges.antt =====
-- The conversion of a range to networks.
use firefik.Prelude.{◌≤◌, ◌≡◌, ◌↔◌, refl, List, [], ◌∷◌, ok, Any, arith}
use firefik.Docker.RuleSet.{IpNet, net4}
use firefik.Docker.Range.{range_to_cidrs}
use firefik.Docker.Range.Cover.{Tiles, Covers, range-Tiles, range-Covers}

-- 10.0.0.1 to 10.0.0.6.
four_blocks :
    range_to_cidrs 167772161 167772166
    ≡ ok (net4 167772161 32 ∷ net4 167772162 31 ∷ net4 167772164 31 ∷ net4 167772166 32 ∷ [])
unfolding range_to_cidrs
four_blocks = refl

range-Tiles_example :
    (nets : List IpNet) × (range_to_cidrs 167772161 167772166 ≡ ok nets)
    × Tiles 167772161 167772166 nets
range-Tiles_example = range-Tiles 167772161 167772166 (omega arith) (omega arith)

range-Covers_example :
    (nets : List IpNet) × (range_to_cidrs 167772161 167772166 ≡ ok nets)
    × (Any (λ n. Covers n 167772163) nets ↔ ((167772161 ≤ 167772163) × (167772163 ≤ 167772166)))
range-Covers_example = range-Covers 167772161 167772166 167772163 (omega arith) (omega arith)
