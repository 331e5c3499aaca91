-- ===== src/Wire/Flags.antt =====
-- One-byte fields: a flag as 1 or 0, and `Acks` (common/types.hpp).
use nexus_mq.Base.{ℕ, Bool, true, false, not, ◌==◌, if◌then◌else◌, ErrorCode, arith}
use nexus_mq.Wire.Bytes.{Bytes}
use nexus_mq.Wire.Codec.{Decoder, ◌>>=◌, return, fail, put_u8, get_u8}
use nexus_mq.Wire.Codec.RoundTrip.{Undoes, get_u8-put_u8}

pub data Acks : Type 0 where
  none leader quorum : Acks

acks_code : Acks → ℕ
acks_code none = 0
acks_code leader = 1
acks_code quorum = 2

pub put_acks : Acks → Bytes
unfolding acks_code
put_acks acks = put_u8 (acks_code acks)

-- `if (*acks > Acks::Quorum)` is an error.
check_acks : ℕ → Decoder Acks
check_acks code =
    if code == 0
    then return none
    else if code == 1
    then return leader
    else if code == 2
    then return quorum
    else fail ErrorCode.invalid_argument

pub get_acks : Decoder Acks
unfolding check_acks
get_acks = do code ← get_u8; check_acks code

pub put_bool : Bool → Bytes
put_bool flag = put_u8 (if flag then 1 else 0)

-- Any byte but 0 reads as true.
pub get_bool : Decoder Bool
get_bool = do byte ← get_u8; return (not (byte == 0))

abbrev pub IsAcks : Acks → Type 0
IsAcks acks = Unit

abbrev pub IsBool : Bool → Type 0
IsBool flag = Unit

pub get_acks-put_acks : Undoes IsAcks put_acks get_acks
unfolding get_acks put_acks
get_acks-put_acks none h rest = rw (get_u8-put_u8 0 (omega arith) rest)
get_acks-put_acks leader h rest = rw (get_u8-put_u8 1 (omega arith) rest)
get_acks-put_acks quorum h rest = rw (get_u8-put_u8 2 (omega arith) rest)

pub get_bool-put_bool : Undoes IsBool put_bool get_bool
unfolding get_bool put_bool
get_bool-put_bool true h rest = rw (get_u8-put_u8 1 (omega arith) rest)
get_bool-put_bool false h rest = rw (get_u8-put_u8 0 (omega arith) rest)
