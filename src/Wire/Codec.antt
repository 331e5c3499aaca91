-- ===== src/Wire/Codec.antt =====
-- protocol/codec.cpp. An `Encoder` only appends to its buffer, so a `put_*` is given by the bytes
-- that it appends. A `Decoder` is the part of its input that it has not consumed.
pub mod RoundTrip
pub mod Bounds
use nexus_mq.Base.{
  ℕ, zero, suc, ◌+◌, ◌*◌, ◌-◌, ◌^◌, ◌≤◌, ◌<◌, ◌≡◌, refl, ap, ◌∙◌, List, [], ◌∷◌, ◌++◌, append_assoc,
  arith, length, length-append, take, drop, take-length-append, drop-length-append, length-drop,
  ltb, le→ltb, if◌then◌else◌, Expected, ok, err, ErrorCode, All, Bool, true, false,
}
use nexus_mq.Base.Int.{ℤ, Fits, to_bits, of_bits, of_bits-to_bits, to_bits-lt}
use nexus_mq.Wire.Bytes.{Bytes, store_le, load_le, length-store_le, load_le-store_le}
use nexus_mq.Wire.Varint.{IsU64, put_varint, get_varint, get_varint-put_varint, get_varint_takes}

abbrev pub Decoder {ℓ} : Type ℓ → Type ℓ
Decoder A = Bytes → Expected (A × Bytes)

-- The rest of a decoding step; an error ends the whole decoding.
abbrev pub resume {ℓ κ} :
    {A : Type ℓ} {B : Type κ} → Expected (A × Bytes) → (A → Decoder B) → Expected (B × Bytes)
resume (ok (a, rest)) f = f a rest
resume (err e) f = err e

infixl 5 ◌>>=◌ ◌>>◌
abbrev pub ◌>>=◌ {ℓ κ} : {A : Type ℓ} {B : Type κ} → Decoder A → (A → Decoder B) → Decoder B
◌>>=◌ m f bytes = resume (m bytes) f

abbrev pub ◌>>◌ {ℓ κ} : {A : Type ℓ} {B : Type κ} → Decoder A → Decoder B → Decoder B
◌>>◌ m f bytes = resume (m bytes) (λ _. f)

abbrev pub return {ℓ} : {A : Type ℓ} → A → Decoder A
return a rest = ok (a, rest)

abbrev pub fail {ℓ} : {A : Type ℓ} → ErrorCode → Decoder A
fail e rest = err e

-- `if (!test) return make_error(...)`
abbrev pub ensure : Bool → ErrorCode → Decoder (Unit {0})
ensure true e rest = ok (tt, rest)
ensure false e rest = err e

unfoldable pub take_bytes : ℕ → Decoder Bytes
take_bytes n bytes =
    if ltb (length bytes) n then err ErrorCode.invalid_argument else ok (take n bytes, drop n bytes)

pub put_u8 : ℕ → Bytes
put_u8 value = value ∷ []

pub put_u16 : ℕ → Bytes
put_u16 value = store_le 2 value

pub put_u32 : ℕ → Bytes
put_u32 value = store_le 4 value

pub put_i16 : ℤ → Bytes
put_i16 value = store_le 2 (to_bits (2 ^ 15) value)

pub put_i32 : ℤ → Bytes
put_i32 value = store_le 4 (to_bits (2 ^ 31) value)

pub put_i64 : ℤ → Bytes
put_i64 value = store_le 8 (to_bits (2 ^ 63) value)

pub put_bytes : Bytes → Bytes
put_bytes content = put_varint (length content) ++ content

-- A string is its UTF-8 bytes.
pub put_string : Bytes → Bytes
put_string text = put_varint (length text) ++ text

-- `load_le` of the bytes that `take(sizeof(T))` returns.
unfoldable pub get_uint : ℕ → Decoder ℕ
get_uint size = do bytes ← take_bytes size; return (load_le bytes)

get_sint : ℕ → ℕ → Decoder ℤ
get_sint half size = do bytes ← take_bytes size; return (of_bits half (load_le bytes))

unfoldable pub get_u8 : Decoder ℕ
unfolding get_uint
get_u8 = get_uint 1

pub get_u16 : Decoder ℕ
unfolding get_uint
get_u16 = get_uint 2

pub get_u32 : Decoder ℕ
unfolding get_uint
get_u32 = get_uint 4

pub get_i16 : Decoder ℤ
unfolding get_sint
get_i16 = get_sint (2 ^ 15) 2

pub get_i32 : Decoder ℤ
unfolding get_sint
get_i32 = get_sint (2 ^ 31) 4

pub get_i64 : Decoder ℤ
unfolding get_sint
get_i64 = get_sint (2 ^ 63) 8

unfoldable pub get_bytes : Decoder Bytes
get_bytes = do length ← get_varint; take_bytes length

pub get_string : Decoder Bytes
get_string = get_bytes

-- A count of elements, refused where it passes the bytes that are left.
unfoldable pub get_count : Decoder ℕ
get_count bytes = resume (get_varint bytes) λ count rest.
    if ltb (length rest) count then err ErrorCode.invalid_argument else ok (count, rest)

pub put_list {ℓ} : {A : Type ℓ} → (A → Bytes) → List A → Bytes
put_list put [] = []
put_list put (x ∷ xs) = put x ++ put_list put xs

-- `for (i = 0; i < count; ++i)`: the elements in order.
unfoldable pub get_list {ℓ} : {A : Type ℓ} → Decoder A → ℕ → Decoder (List A)
get_list get zero = return []
get_list get (suc count) = do x ← get; xs ← get_list get count; return (x ∷ xs)

-- A vector travels as its length and its elements.
pub put_vector {ℓ} : {A : Type ℓ} → (A → Bytes) → List A → Bytes
put_vector put xs = put_varint (length xs) ++ put_list put xs

unfoldable pub get_vector {ℓ} : {A : Type ℓ} → Decoder A → Decoder (List A)
get_vector get = do count ← get_count; get_list get count
