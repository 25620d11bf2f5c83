-- ===== src/Semantics/Strata/Distances.antt =====
-- Distances of ordinals, where they are small enough for Go's int: no difference wraps around.
use causalontology.Prelude.{
  ℕ, ◌+◌, ◌-◌, ◌<◌, ℤ, pos, negsuc, pos_part, neg_part, sub64, ltb_ℤ, eqb_ℤ, true, ◌≡◌, ◌↔◌, arith,
  ◌-ℤ◌,
}
use Prim.Native.Nat.{◌^◌}
use causalontology.Semantics.Strata.{distance}

-- An int of less than 63 bits.
abbrev pub IsSmall : ℤ → Type 0
IsSmall n = (pos_part n < 2 ^ 62) × (neg_part n < 2 ^ 62)

-- The distance of two integers.
abbrev pub gap_of : ℤ → ℤ → ℕ
gap_of i j =
    (pos_part i + neg_part j - (pos_part j + neg_part i))
    + (pos_part j + neg_part i - (pos_part i + neg_part j))

pub distance-gap_of : (i j : ℤ) → IsSmall i → IsSmall j → distance i j ≡ pos (gap_of i j)
unfolding distance sub64 ◌-ℤ◌
distance-gap_of (pos a) (pos b) p q = ground arith
distance-gap_of (pos a) (negsuc b) p q = ground arith
distance-gap_of (negsuc a) (pos b) p q = ground arith
distance-gap_of (negsuc a) (negsuc b) p q = ground arith

-- The order of the integers.
abbrev pub Less : ℤ → ℤ → Type 0
Less i j = pos_part i + neg_part j < pos_part j + neg_part i

pub ltb_ℤ-iff : (i j : ℤ) → (ltb_ℤ i j ≡ true) ↔ Less i j
ltb_ℤ-iff i j = ground arith

pub rising-Less : (i j : ℤ) → IsSmall i → IsSmall j → ltb_ℤ (pos 0) (sub64 j i) ≡ ltb_ℤ i j
unfolding sub64 ◌-ℤ◌
rising-Less (pos a) (pos b) p q = ground arith
rising-Less (pos a) (negsuc b) p q = ground arith
rising-Less (negsuc a) (pos b) p q = ground arith
rising-Less (negsuc a) (negsuc b) p q = ground arith

pub falling-Less : (i j : ℤ) → IsSmall i → IsSmall j → ltb_ℤ (sub64 j i) (pos 0) ≡ ltb_ℤ j i
unfolding sub64 ◌-ℤ◌
falling-Less (pos a) (pos b) p q = ground arith
falling-Less (pos a) (negsuc b) p q = ground arith
falling-Less (negsuc a) (pos b) p q = ground arith
falling-Less (negsuc a) (negsuc b) p q = ground arith

pub gap_of-zero : (i j : ℤ) → gap_of i j ≡ 0 → i ≡ j
gap_of-zero (pos a) (pos b) h = ground arith
gap_of-zero (pos a) (negsuc b) h = ground arith
gap_of-zero (negsuc a) (pos b) h = ground arith
gap_of-zero (negsuc a) (negsuc b) h = ground arith

pub eqb_ℤ-iff : (i j : ℤ) → (eqb_ℤ i j ≡ true) ↔ (i ≡ j)
eqb_ℤ-iff (pos a) (pos b) = ground arith
eqb_ℤ-iff (pos a) (negsuc b) = ground arith
eqb_ℤ-iff (negsuc a) (pos b) = ground arith
eqb_ℤ-iff (negsuc a) (negsuc b) = ground arith
