-- ===== src/ReturnCode.antt =====
-- `kernel::ReturnCode`, which the Tock kernel declares (a submodule that is not part of this
-- repository): the constructors that the modelled code names, and one for every other code.
use tock_on_titan.Common.{ℕ, Bool, true, false}

pub data ReturnCode : Type 0 where
  success fail ebusy esize einval enomem enosupport : ReturnCode
  success_with_value : ℕ → ReturnCode
  other : ℕ → ReturnCode

-- `code == ReturnCode::SUCCESS`
abbrev pub is_success : ReturnCode → Bool
is_success success = true
is_success _ = false

-- The pattern `ReturnCode::SUCCESS | ReturnCode::EBUSY`.
abbrev pub is_success_or_busy : ReturnCode → Bool
is_success_or_busy success = true
is_success_or_busy ebusy = true
is_success_or_busy _ = false
