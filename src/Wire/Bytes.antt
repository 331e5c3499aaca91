-- ===== src/Wire/Bytes.antt =====
-- Little-endian integers (common/types.hpp). A byte string is a list of numbers below 256.
use nexus_mq.Base.{
  ℕ, zero, suc, ◌+◌, ◌*◌, ◌/◌, ◌%◌, ◌^◌, ◌<◌, ◌≡◌, refl, List, [], ◌∷◌, arith, length,
}
use native.Mathlib.Nat.{pow-suc}

abbrev pub Bytes : Type 0
Bytes = List ℕ

abbrev pub IsByte : ℕ → Type 0
IsByte b = b < 256

-- `store_le<T>` for a T of `n` bytes: byte i is `(bits >> 8 * i) & 0xff`. Each round takes the
-- lowest byte and shifts the rest down.
unfoldable pub store_le : ℕ → ℕ → Bytes
store_le zero bits = []
store_le (suc n) bits = (bits % 256) ∷ store_le n (bits / 256)

-- `load_le<T>`: the bytes ored together at their places.
unfoldable pub load_le : Bytes → ℕ
load_le [] = 0
load_le (b ∷ bs) = b + 256 * load_le bs

pub length-store_le : (n bits : ℕ) → length (store_le n bits) ≡ n
unfolding store_le
length-store_le zero bits = refl
length-store_le (suc n) bits = omega (arith, length-store_le n (bits / 256))

pub load_le-store_le : (n bits : ℕ) → bits < 256 ^ n → load_le (store_le n bits) ≡ bits
unfolding load_le store_le
load_le-store_le zero bits h = omega arith
load_le-store_le (suc n) bits h =
    omega (arith, load_le-store_le n (bits / 256) (omega (arith, pow-suc 256 n)))
