-- ===== src/Base/Int.antt =====
-- Signed integers over the native numbers, and the two's complement patterns of common/types.hpp.
use Prim.Native.Nat.{ℕ, ◌+◌, ◌-◌, ◌%◌, ◌<◌}
use mathlib.Core.Path.{◌≡◌}
use native.Mathlib.Omega.{arith}
use native.Mathlib.Nat.{mod-eq_of_lt}
use nexus_mq.Base.Tests.{ltb, if◌then◌else◌}

-- `negsuc n` is -(n + 1).
pub data ℤ : Type 0 where
  pos : ℕ → ℤ
  negsuc : ℕ → ℤ

-- The range of a signed integer, `half` being 2 ^ (width - 1).
abbrev pub Fits : ℕ → ℤ → Type 0
Fits half (pos n) = n < half
Fits half (negsuc n) = n < half

-- static_cast to the unsigned type of twice `half` values, and back.
unfoldable pub to_bits : ℕ → ℤ → ℕ
to_bits half (pos n) = n % (half + half)
to_bits half (negsuc n) = half + half - 1 - n % (half + half)

unfoldable pub of_bits : ℕ → ℕ → ℤ
of_bits half b = if ltb b half then pos b else negsuc (half + half - 1 - b)

pub of_bits-to_bits : (half : ℕ) (v : ℤ) → Fits half v → of_bits half (to_bits half v) ≡ v
unfolding to_bits of_bits
of_bits-to_bits half (pos n) h =
    let e : n % (half + half) ≡ n = mod-eq_of_lt (omega arith) in rw (e, of_bits) (ground arith)
of_bits-to_bits half (negsuc n) h =
    let e : n % (half + half) ≡ n = mod-eq_of_lt (omega arith) in rw (e, of_bits) (ground arith)

pub to_bits-lt : (half : ℕ) (v : ℤ) → 0 < half → to_bits half v < half + half
unfolding to_bits
to_bits-lt half (pos n) h = omega arith
to_bits-lt half (negsuc n) h = omega arith
