-- ===== src/Wire/Varint.antt =====
-- common/varint.cpp: unsigned LEB128. `b % 128` is `b & 0x7f`, and `+ 128` sets the top bit.
use nexus_mq.Base.{
  ℕ, zero, suc, ◌+◌, ◌*◌, ◌/◌, ◌%◌, ◌^◌, ◌≤◌, ◌<◌, ◌≡◌, ◌↔◌, [], ◌∷◌, ◌++◌, arith, length, ltb,
  if◌then◌else◌, Expected, ok, err, ErrorCode, All, ap,
}
use nexus_mq.Wire.Bytes.{Bytes, IsByte}
use native.Mathlib.Numerals.{towards_suc}

abbrev pub max_varint_bytes : ℕ
max_varint_bytes = 10

abbrev pub IsU64 : ℕ → Type 0
IsU64 v = v < 2 ^ 64

-- `while (value >= 0x80)`, on fuel; nine rounds are enough for 64 bits.
put_varint_loop : ℕ → ℕ → Bytes
put_varint_loop zero value = value ∷ []
put_varint_loop (suc fuel) value =
    let rest = put_varint_loop fuel (value / 128) in
    if ltb value 128 then value ∷ [] else (value % 128 + 128) ∷ rest

unfoldable pub put_varint : ℕ → Bytes
unfolding put_varint_loop
put_varint value = put_varint_loop 9 value

-- `result |= payload << shift` sets bits that are still clear, so it is a sum; what passes bit 63
-- is lost. The first argument counts the bytes that may still be read.
get_varint_loop : ℕ → Bytes → ℕ → ℕ → Expected (ℕ × Bytes)
get_varint_loop zero bytes result shift = err ErrorCode.invalid_argument
get_varint_loop (suc left) [] result shift = err ErrorCode.invalid_argument
get_varint_loop (suc left) (b ∷ bytes) result shift =
    let result' = result + b % 128 * 2 ^ shift % 2 ^ 64 in
    let more = get_varint_loop left bytes result' (shift + 7) in
    if ltb b 128 then ok (result', bytes) else more

unfoldable pub get_varint : Bytes → Expected (ℕ × Bytes)
unfolding get_varint_loop
get_varint bytes = get_varint_loop max_varint_bytes bytes 0 0

-- The fuel of `put_varint` is enough: it satisfies the loop's own equation on every 64-bit value.
put_varint_loop_grow :
    (k value : ℕ) → value < 128 ^ suc k → put_varint_loop (suc k) value ≡ put_varint_loop k value
unfolding put_varint_loop
put_varint_loop_grow zero value h = ground arith
put_varint_loop_grow (suc k) value h =
    ground (arith, put_varint_loop_grow k (value / 128) (omega arith))

pub put_varint_step :
    (value : ℕ)
    → IsU64 value
    → put_varint value
      ≡ (if ltb value 128 then value ∷ [] else (value % 128 + 128) ∷ put_varint (value / 128))
unfolding put_varint put_varint_loop
put_varint_step value h = ground (arith, put_varint_loop_grow 8 (value / 128) (omega arith))

put_varint_loop-IsByte : (k value : ℕ) → value < 128 ^ suc k → All IsByte (put_varint_loop k value)
unfolding put_varint_loop
put_varint_loop-IsByte zero value h = omega arith
put_varint_loop-IsByte (suc k) value h =
    ground (arith, put_varint_loop-IsByte k (value / 128) (omega arith))

length-put_varint_loop : (k value : ℕ) → 1 ≤ length (put_varint_loop k value)
unfolding put_varint_loop
length-put_varint_loop zero value = omega arith
length-put_varint_loop (suc k) value = ground (arith, length-put_varint_loop k (value / 128))

power_filled : (n : ℕ) → 1 ≤ 128 ^ n
power_filled zero = omega arith
power_filled (suc n) = omega (arith, power_filled n)

-- How many places the groups of seven bits take.
put_varint_loop_fits :
    (k n value : ℕ)
    → value < 128 ^ suc k
    → (length (put_varint_loop k value) ≤ suc n) ↔ (value < 128 ^ suc n)
unfolding put_varint_loop
put_varint_loop_fits zero zero value h = ground arith
put_varint_loop_fits zero (suc n) value h = omega (arith, power_filled n)
put_varint_loop_fits (suc k) zero value h = ground (arith, length-put_varint_loop k (value / 128))
put_varint_loop_fits (suc k) (suc n) value h =
    ground (arith, put_varint_loop_fits k n (value / 128) (omega arith), power_filled n)

pub put_varint_filled : (value : ℕ) → 1 ≤ length (put_varint value)
unfolding put_varint
put_varint_filled value = length-put_varint_loop 9 value

-- A 64-bit value takes at most `n + 1` places exactly if its groups of seven bits are at most so
-- many, so no more than `max_varint_bytes` in all; it takes at least one, and each is a byte.
pub put_varint_shape :
    (value n : ℕ)
    → IsU64 value
    → All IsByte (put_varint value)
      × (1 ≤ length (put_varint value))
      × (length (put_varint value) ≤ max_varint_bytes)
      × ((length (put_varint value) ≤ suc n) ↔ (value < 128 ^ suc n))
unfolding put_varint
put_varint_shape value n h =
    let ten = put_varint_loop_fits 9 9 value (omega arith) in
    (
      put_varint_loop-IsByte 9 value (omega arith),
      length-put_varint_loop 9 value,
      ten.1 (omega arith),
      put_varint_loop_fits 9 n value (omega arith),
    )

power_up : (bit : ℕ) → 2 ^ (bit + 7) ≡ 2 ^ bit * 128
power_up bit = simp towards_suc (omega arith)

-- Moving a group up by seven bits multiplies it by 128.
up_seven : (group bit : ℕ) → group * 2 ^ (bit + 7) ≡ 128 * group * 2 ^ bit
up_seven group bit = rw (power_up bit) (omega arith)

-- The low seven bits and the others, each at its place, are the value.
joined_groups :
    (bit value : ℕ) → value % 128 * 2 ^ bit + value / 128 * 2 ^ (bit + 7) ≡ value * 2 ^ bit
joined_groups bit value =
    let parts : 128 * (value / 128) + value % 128 ≡ value = omega arith in
    omega (arith, up_seven (value / 128) bit, ap (λ (v : ℕ). v * 2 ^ bit) parts)

-- `value` is what is still to be read, and stands at bit `shift`.
get_varint_loop-put :
    (k left value result shift : ℕ) (rest : Bytes)
    → value < 128 ^ suc k
    → k < left
    → IsU64 (result + value * 2 ^ shift)
    → get_varint_loop left (put_varint_loop k value ++ rest) result shift
      ≡ ok (result + value * 2 ^ shift, rest)
unfolding put_varint_loop get_varint_loop
get_varint_loop-put zero zero value result shift rest h hl fits = absurd (omega arith)
get_varint_loop-put (suc k) zero value result shift rest h hl fits = absurd (omega arith)
get_varint_loop-put zero (suc left) value result shift rest h hl fits = ground arith
get_varint_loop-put (suc k) (suc left) value result shift rest h hl fits = ground (
  arith,
  joined_groups shift value,
  get_varint_loop-put k left (value / 128) (result + value % 128 * 2 ^ shift) (shift + 7) rest
      (omega arith) (omega arith),
)

-- `get_varint` reads back every 64-bit value that `put_varint` wrote, and stops behind it.
pub get_varint-put_varint :
    (value : ℕ)
    → IsU64 value
    → (rest : Bytes) → get_varint (put_varint value ++ rest) ≡ ok (value, rest)
unfolding get_varint put_varint
get_varint-put_varint value h rest =
    ground (arith, get_varint_loop-put 9 10 value 0 0 rest (omega arith) (omega arith))

-- A read that succeeds moves forward, by at most ten bytes, and never past the end.
get_varint_loop_takes :
    (left : ℕ) (bytes : Bytes) (result shift value : ℕ) (rest : Bytes)
    → get_varint_loop left bytes result shift ≡ ok (value, rest)
    → (length rest < length bytes) × (length bytes ≤ length rest + left)
unfolding get_varint_loop
get_varint_loop_takes zero bytes result shift value rest e = cc
get_varint_loop_takes (suc left) [] result shift value rest e = cc
get_varint_loop_takes (suc left) (b ∷ bytes) result shift value rest e = ground (
  arith,
  get_varint_loop_takes left bytes (result + b % 128 * 2 ^ shift % 2 ^ 64) (shift + 7) value rest,
)

-- A varint that is read leaves fewer bytes than there were, by at most `max_varint_bytes`.
pub get_varint_takes :
    (bytes : Bytes) (value : ℕ) (rest : Bytes)
    → get_varint bytes ≡ ok (value, rest)
    → (length rest < length bytes) × (length bytes ≤ length rest + max_varint_bytes)
unfolding get_varint
get_varint_takes bytes value rest e = get_varint_loop_takes 10 bytes 0 0 value rest e
