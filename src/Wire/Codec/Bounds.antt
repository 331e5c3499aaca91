-- ===== src/Wire/Codec/Bounds.antt =====
-- The decoder is defensive: on any input, a successful read stays inside its input.
use nexus_mq.Base.{
  ℕ, zero, suc, ◌≤◌, ◌<◌, ◌≡◌, refl, List, arith, length, length-take, take-append-drop, take, drop,
  ◌++◌, ◌⊎◌, inl, inr, Bool-cases, ltb, ErrorCode, Expected, ok, err,
}
use nexus_mq.Wire.Bytes.{Bytes}
use nexus_mq.Wire.Varint.{get_varint, get_varint_takes}
use nexus_mq.Wire.Codec.{Decoder, resume, take_bytes, get_bytes, get_count, get_list, get_vector}

-- A read never leaves more bytes than it was given.
abbrev pub Advances {ℓ} : {A : Type ℓ} → Decoder A → Type ℓ
Advances {A = A} get =
    (bytes : Bytes) (a : A) (rest : Bytes) → get bytes ≡ ok (a, rest) → length rest ≤ length bytes

-- The first `n` bytes are taken if there are as many, and otherwise it is an error.
take_bytes_lem :
    (n : ℕ) (bytes : Bytes)
    → ((xs : Bytes) × (rest : Bytes) × (take_bytes n bytes ≡ ok (xs, rest))
        × (length xs ≡ n)
        × (xs ++ rest ≡ bytes))
      ⊎ ((take_bytes n bytes ≡ err ErrorCode.invalid_argument) × (length bytes < n))
unfolding take_bytes
take_bytes_lem n bytes = elim (Bool-cases (ltb (length bytes) n)) [
  | inl short ↦ inr (rw short refl, ground (arith, short))
  | inr enough ↦ inl (
    take n bytes,
    drop n bytes,
    rw enough refl,
    ground (arith, enough, length-take n bytes),
    take-append-drop n bytes,
  )
]

pub resume-eq-ok {ℓ κ} :
    {A : Type ℓ} {B : Type κ} (m : Expected (A × Bytes)) (f : A → Decoder B) {b : B} {rest : Bytes}
    → resume m f ≡ ok (b, rest)
    → (a : A) × (mid : Bytes) × (m ≡ ok (a, mid)) × (f a mid ≡ ok (b, rest))
resume-eq-ok (ok (a, mid)) f h = (a, mid, refl, h)
resume-eq-ok (err e) f h = cc

-- A count that is accepted is at most the number of bytes left behind it.
pub get_count_bound :
    (bytes : Bytes) (count : ℕ) (rest : Bytes)
    → get_count bytes ≡ ok (count, rest)
    → (count ≤ length rest) × (length rest < length bytes)
unfolding get_count
get_count_bound bytes count rest e =
    let (n, mid, e1, e2) = resume-eq-ok (get_varint bytes) _ e in
    ground (arith, get_varint_takes bytes n mid e1, e2)

length-get_list {ℓ} :
    {A : Type ℓ} (get : Decoder A) (count : ℕ) (bytes : Bytes) (xs : List A) (rest : Bytes)
    → get_list get count bytes ≡ ok (xs, rest)
    → length xs ≡ count
unfolding get_list
length-get_list get zero bytes xs rest e = ground arith
length-get_list get (suc count) bytes xs rest e =
    let (x, mid, e1, e2) = resume-eq-ok (get bytes) _ e in
    let (ys, mid', e3, e4) = resume-eq-ok (get_list get count mid) _ e2 in
    ground (arith, length-get_list get count mid ys mid' e3, e4)

-- A vector that is decoded from any input has fewer elements than the input has bytes, so a
-- forged count cannot make the decoder reserve more.
pub length-get_vector {ℓ} :
    {A : Type ℓ} (get : Decoder A) (bytes : Bytes) (xs : List A) (rest : Bytes)
    → get_vector get bytes ≡ ok (xs, rest)
    → length xs < length bytes
unfolding get_vector
length-get_vector get bytes xs rest e =
    let (n, mid, e1, e2) = resume-eq-ok (get_count bytes) _ e in
    omega (arith, get_count_bound bytes n mid e1, length-get_list get n mid xs rest e2)

-- After its length, content is read exactly if the input has as many bytes left: it is then the next
-- bytes of the input, that many, and the rest is what follows them. Otherwise it is an error.
pub get_bytes_content :
    (bytes mid : Bytes) (n : ℕ)
    → get_varint bytes ≡ ok (n, mid)
    → ((xs : Bytes) × (rest : Bytes) × (get_bytes bytes ≡ ok (xs, rest))
        × (length xs ≡ n)
        × (xs ++ rest ≡ mid))
      ⊎ ((get_bytes bytes ≡ err ErrorCode.invalid_argument) × (length mid < n))
unfolding get_bytes
get_bytes_content bytes mid n e = rw e (take_bytes_lem n mid)
