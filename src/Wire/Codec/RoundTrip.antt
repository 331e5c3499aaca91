-- ===== src/Wire/Codec/RoundTrip.antt =====
-- Each `get_*` reads back what its `put_*` wrote and stops behind it.
use nexus_mq.Base.{
  ℕ, ◌+◌, ◌^◌, ◌≤◌, ◌<◌, ◌≡◌, refl, sym, List, [], ◌∷◌, ◌++◌, append_assoc, arith, length,
  length-append, take-length-append, drop-length-append, le→ltb, ok, All,
}
use nexus_mq.Base.Int.{ℤ, Fits, to_bits, of_bits-to_bits, to_bits-lt}
use nexus_mq.Wire.Bytes.{Bytes, store_le, load_le, length-store_le, load_le-store_le}
use nexus_mq.Wire.Varint.{IsU64, put_varint, get_varint-put_varint, put_varint_filled}
use nexus_mq.Wire.Codec.{
  Decoder, take_bytes, put_u8, put_u16, put_u32, put_i16, put_i32, put_i64, put_bytes, put_string,
  put_list, put_vector, get_uint, get_sint, get_u8, get_u16, get_u32, get_i16, get_i32, get_i64,
  get_bytes, get_string, get_count, get_list, get_vector,
}

abbrev pub IsU8 : ℕ → Type 0
IsU8 v = v < 2 ^ 8

abbrev pub IsU16 : ℕ → Type 0
IsU16 v = v < 2 ^ 16

abbrev pub IsU32 : ℕ → Type 0
IsU32 v = v < 2 ^ 32

abbrev pub IsI16 : ℤ → Type 0
IsI16 = Fits (2 ^ 15)

abbrev pub IsI32 : ℤ → Type 0
IsI32 = Fits (2 ^ 31)

abbrev pub IsI64 : ℤ → Type 0
IsI64 = Fits (2 ^ 63)

-- A string or byte vector whose size is a `std::size_t`.
abbrev pub IsSized {ℓ} : {A : Type ℓ} → List A → Type 0
IsSized xs = IsU64 (length xs)

-- `get` undoes `put` on the values that satisfy `P`, whatever follows.
abbrev pub Undoes {ℓ κ} : {A : Type ℓ} → (A → Type κ) → (A → Bytes) → Decoder A → Type (ℓ ⊔ κ)
Undoes {A = A} P put get = (a : A) → P a → (rest : Bytes) → get (put a ++ rest) ≡ ok (a, rest)

take_bytes-append :
    (xs rest : Bytes) (n : ℕ) → n ≡ length xs → take_bytes n (xs ++ rest) ≡ ok (xs, rest)
unfolding take_bytes
take_bytes-append xs rest n e =
    rw (e, le→ltb (length (xs ++ rest)) (length xs) (omega (arith, length-append xs rest)))
      (rw (take-length-append xs rest, drop-length-append xs rest))

get_uint-store_le :
    (n v : ℕ) (rest : Bytes) → v < 256 ^ n → get_uint n (store_le n v ++ rest) ≡ ok (v, rest)
unfolding get_uint
get_uint-store_le n v rest h =
    rw (take_bytes-append (store_le n v) rest n (sym (length-store_le n v)), load_le-store_le n v h)

get_sint-store_le :
    (half n : ℕ) (v : ℤ) (rest : Bytes)
    → 0 < half
    → half + half ≤ 256 ^ n
    → Fits half v
    → get_sint half n (store_le n (to_bits half v) ++ rest) ≡ ok (v, rest)
unfolding get_sint
get_sint-store_le half n v rest h0 hn h =
    let small : to_bits half v < 256 ^ n = omega (arith, to_bits-lt half v h0) in
    let len = sym (length-store_le n (to_bits half v)) in
    rw (
      take_bytes-append (store_le n (to_bits half v)) rest n len,
      load_le-store_le n _ small,
      of_bits-to_bits half v h,
    )

pub get_u8-put_u8 : Undoes IsU8 put_u8 get_u8
unfolding get_u8 get_uint put_u8 load_le take_bytes
get_u8-put_u8 v h rest = ground arith

pub get_u16-put_u16 : Undoes IsU16 put_u16 get_u16
unfolding get_u16 put_u16
get_u16-put_u16 v h rest = get_uint-store_le 2 v rest h

pub get_u32-put_u32 : Undoes IsU32 put_u32 get_u32
unfolding get_u32 put_u32
get_u32-put_u32 v h rest = get_uint-store_le 4 v rest h

pub get_i16-put_i16 : Undoes IsI16 put_i16 get_i16
unfolding get_i16 put_i16
get_i16-put_i16 v h rest = get_sint-store_le (2 ^ 15) 2 v rest (omega arith) (omega arith) h

pub get_i32-put_i32 : Undoes IsI32 put_i32 get_i32
unfolding get_i32 put_i32
get_i32-put_i32 v h rest = get_sint-store_le (2 ^ 31) 4 v rest (omega arith) (omega arith) h

pub get_i64-put_i64 : Undoes IsI64 put_i64 get_i64
unfolding get_i64 put_i64
get_i64-put_i64 v h rest = get_sint-store_le (2 ^ 63) 8 v rest (omega arith) (omega arith) h

pub get_bytes-put_bytes : Undoes IsSized put_bytes get_bytes
unfolding get_bytes put_bytes
get_bytes-put_bytes v h rest =
    rw (append_assoc, get_varint-put_varint (length v) h) (take_bytes-append v rest (length v) refl)

pub get_string-put_string : Undoes IsSized put_string get_string
unfolding get_string put_string put_bytes
get_string-put_string = get_bytes-put_bytes

module _ {ℓ κ} {A : Type ℓ} (P : A → Type κ) (put : A → Bytes) (get : Decoder A)
    (undo : Undoes P put get) where
  get_list-put_list :
      (xs : List A)
      → All P xs
      → (rest : Bytes) → get_list get (length xs) (put_list put xs ++ rest) ≡ ok (xs, rest)
  unfolding get_list put_list
  get_list-put_list [] h rest = refl
  get_list-put_list (x ∷ xs) h rest = rw (append_assoc, undo x h.0, get_list-put_list xs h.1 rest)

  length-le-put_list :
      ((a : A) → 1 ≤ length (put a)) → (xs : List A) → length xs ≤ length (put_list put xs)
  unfolding put_list
  length-le-put_list filled [] = omega arith
  length-le-put_list filled (x ∷ xs) =
      omega (arith, filled x, length-le-put_list filled xs, length-append (put x) (put_list put xs))

  -- A vector comes back whole where every element takes at least one byte.
  pub get_vector-put_vector :
      ((a : A) → 1 ≤ length (put a))
      → (xs : List A) → IsSized xs
      → All P xs
      → (rest : Bytes) → get_vector get (put_vector put xs ++ rest) ≡ ok (xs, rest)
  unfolding get_vector put_vector get_count
  get_vector-put_vector filled xs sized h rest =
      rw
        (
          append_assoc,
          get_varint-put_varint (length xs) sized,
          le→ltb (length (put_list put xs ++ rest)) (length xs)
              (omega (arith, length-append (put_list put xs) rest, length-le-put_list filled xs)),
        )
        (get_list-put_list xs h rest)

-- Integers, strings and vectors take at least one byte.
pub put_u16_filled : (v : ℕ) → 1 ≤ length (put_u16 v)
unfolding put_u16
put_u16_filled v = omega (arith, length-store_le 2 v)

pub put_i32_filled : (v : ℤ) → 1 ≤ length (put_i32 v)
unfolding put_i32
put_i32_filled v = omega (arith, length-store_le 4 (to_bits (2 ^ 31) v))

pub put_i64_filled : (v : ℤ) → 1 ≤ length (put_i64 v)
unfolding put_i64
put_i64_filled v = omega (arith, length-store_le 8 (to_bits (2 ^ 63) v))

pub put_string_filled : (v : Bytes) → 1 ≤ length (put_string v)
unfolding put_string
put_string_filled v =
    omega (arith, put_varint_filled (length v), length-append (put_varint (length v)) v)

-- What is appended to a part that takes a byte takes one too.
pub filled-append : (xs ys : Bytes) → 1 ≤ length xs → 1 ≤ length (xs ++ ys)
filled-append xs ys h = omega (arith, length-append xs ys)
