-- ===== src/Base/Errors.antt =====
-- common/error.hpp: the error categories of the core and `expected<T>`. The message text that an
-- `Error` carries for people is left out.
pub data ErrorCode : Type 0 where
  corrupt io_error out_of_space invalid_argument not_found : ErrorCode
  out_of_range unsupported shutdown fenced : ErrorCode

pub data Expected {ℓ} (A : Type ℓ) : Type ℓ where
  ok : A → Expected A
  err : ErrorCode → Expected A
