-- ===== src/Wire/Errors.antt =====
-- protocol/error_code.hpp and .cpp: the error codes of the wire and their translation.
use nexus_mq.Base.{
  ℕ, ◌≤◌, ◌<◌, ◌^◌, ◌≡◌, refl, ◌↔◌, ◌⊎◌, inl, inr, List, [], ◌∷◌, none, some, Bool, true, false,
  get_elem?, ErrorCode, arith,
}
use nexus_mq.Base.Int.{ℤ, pos, negsuc}
use nexus_mq.Wire.Bytes.{Bytes}
use nexus_mq.Wire.Codec.{Decoder, ◌>>=◌, return, put_i16, get_i16}
use nexus_mq.Wire.Codec.RoundTrip.{IsI16, Undoes, get_i16-put_i16}

-- The enumeration has a fixed underlying type, so a cast from the wire can also hold a code that
-- has no name.
pub data WireError : Type 0 where
  no_error not_leader_for_partition leader_not_available unknown_topic_or_partition : WireError
  offset_out_of_range not_enough_replicas request_timed_out corrupt_message : WireError
  message_too_large out_of_order_sequence duplicate_sequence throttled : WireError
  rebalance_in_progress unsupported_version unauthorized invalid_request : WireError
  invalid_producer_epoch : WireError
  unlisted : ℤ → WireError

-- In the order of their codes, from 0.
abbrev named : List WireError
named =
    no_error ∷ not_leader_for_partition ∷ leader_not_available ∷ unknown_topic_or_partition
    ∷ offset_out_of_range ∷ not_enough_replicas ∷ request_timed_out ∷ corrupt_message
    ∷ message_too_large ∷ out_of_order_sequence ∷ duplicate_sequence ∷ throttled
    ∷ rebalance_in_progress ∷ unsupported_version ∷ unauthorized ∷ invalid_request
    ∷ invalid_producer_epoch ∷ []

-- static_cast<WireError>(code)
pub wire_error : ℤ → WireError
wire_error (pos n) = elim (get_elem? named n) [ some e ↦ e | none ↦ unlisted (pos n) ]
wire_error (negsuc n) = unlisted (negsuc n)

-- static_cast<std::int16_t>(error)
pub wire_code : WireError → ℤ
wire_code no_error = pos 0
wire_code not_leader_for_partition = pos 1
wire_code leader_not_available = pos 2
wire_code unknown_topic_or_partition = pos 3
wire_code offset_out_of_range = pos 4
wire_code not_enough_replicas = pos 5
wire_code request_timed_out = pos 6
wire_code corrupt_message = pos 7
wire_code message_too_large = pos 8
wire_code out_of_order_sequence = pos 9
wire_code duplicate_sequence = pos 10
wire_code throttled = pos 11
wire_code rebalance_in_progress = pos 12
wire_code unsupported_version = pos 13
wire_code unauthorized = pos 14
wire_code invalid_request = pos 15
wire_code invalid_producer_epoch = pos 16
wire_code (unlisted code) = code

-- A value of the enumeration: a named code, or another one that fits 16 bits.
abbrev pub IsWireError : WireError → Type 0
IsWireError (unlisted (pos n)) = (17 ≤ n) × (n < 2 ^ 15)
IsWireError (unlisted (negsuc n)) = n < 2 ^ 15
IsWireError _ = Unit

pub put_wire_error : WireError → Bytes
put_wire_error e = put_i16 (wire_code e)

pub get_wire_error : Decoder WireError
get_wire_error = do code ← get_i16; return (wire_error code)

get_elem?-named : (n : ℕ) → 17 ≤ n → get_elem? named n ≡ none
get_elem?-named n h = ground arith

wire_error-wire_code : (e : WireError) → IsWireError e → wire_error (wire_code e) ≡ e
unfolding wire_error wire_code
wire_error-wire_code (unlisted (pos n)) h = rw (get_elem?-named n h.0)
wire_error-wire_code (unlisted (negsuc n)) h = refl
wire_error-wire_code _ h = refl

wire_code-IsI16 : (e : WireError) → IsWireError e → IsI16 (wire_code e)
unfolding wire_code
wire_code-IsI16 (unlisted (pos n)) h = h.1
wire_code-IsI16 (unlisted (negsuc n)) h = h
wire_code-IsI16 _ h = omega arith

pub get_wire_error-put_wire_error : Undoes IsWireError put_wire_error get_wire_error
unfolding get_wire_error put_wire_error
get_wire_error-put_wire_error e h rest =
    rw (get_i16-put_i16 (wire_code e) (wire_code-IsI16 e h), wire_error-wire_code e h)

pub is_retryable : WireError → Bool
is_retryable not_leader_for_partition = true
is_retryable leader_not_available = true
is_retryable request_timed_out = true
is_retryable not_enough_replicas = true
is_retryable throttled = true
is_retryable rebalance_in_progress = true
is_retryable _ = false

-- The code of the `Error` that `to_error` builds.
pub to_error : WireError → ErrorCode
to_error unknown_topic_or_partition = ErrorCode.not_found
to_error offset_out_of_range = ErrorCode.out_of_range
to_error out_of_order_sequence = ErrorCode.out_of_range
to_error duplicate_sequence = ErrorCode.out_of_range
to_error corrupt_message = ErrorCode.corrupt
to_error message_too_large = ErrorCode.invalid_argument
to_error unsupported_version = ErrorCode.unsupported
to_error unauthorized = ErrorCode.invalid_argument
to_error invalid_request = ErrorCode.invalid_argument
to_error invalid_producer_epoch = ErrorCode.fenced
to_error not_leader_for_partition = ErrorCode.io_error
to_error leader_not_available = ErrorCode.io_error
to_error request_timed_out = ErrorCode.io_error
to_error not_enough_replicas = ErrorCode.io_error
to_error throttled = ErrorCode.io_error
to_error rebalance_in_progress = ErrorCode.io_error
to_error no_error = ErrorCode.invalid_argument
to_error (unlisted code) = ErrorCode.invalid_argument

pub from_error : ErrorCode → WireError
from_error ErrorCode.corrupt = corrupt_message
from_error ErrorCode.out_of_range = offset_out_of_range
from_error ErrorCode.not_found = unknown_topic_or_partition
from_error ErrorCode.unsupported = unsupported_version
from_error ErrorCode.invalid_argument = invalid_request
from_error ErrorCode.fenced = invalid_producer_epoch
from_error ErrorCode.io_error = leader_not_available
from_error ErrorCode.out_of_space = leader_not_available
from_error ErrorCode.shutdown = leader_not_available

-- A client may retry on exactly the wire codes that it reads back as an I/O error.
pub is_retryable_iff_io_error :
    (e : WireError) → (is_retryable e ≡ true) ↔ (to_error e ≡ ErrorCode.io_error)
unfolding is_retryable to_error
is_retryable_iff_io_error (unlisted code) = (λ h. cc, λ h. cc)
is_retryable_iff_io_error _ = (λ h. ground arith, λ h. ground arith)

-- An error category that crosses the wire comes back as itself, or is one of the two server-side
-- failures that come back as an I/O error.
pub to_error-from_error :
    (e : ErrorCode)
    → (to_error (from_error e) ≡ e)
      ⊎ ((to_error (from_error e) ≡ ErrorCode.io_error)
          × ((e ≡ ErrorCode.out_of_space) ⊎ (e ≡ ErrorCode.shutdown)))
unfolding to_error from_error
to_error-from_error ErrorCode.out_of_space = inr (refl, inl refl)
to_error-from_error ErrorCode.shutdown = inr (refl, inr refl)
to_error-from_error _ = inl refl
