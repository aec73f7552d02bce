-- ===== src/Shared/Result.antt =====
-- shared/util/result.hpp: a value or an error. Of an error the code is kept, not the message text.
use mathlib.Core.Bool.{Bool, true, false}

pub data ErrorCode : Type 0 where
  success unknown_error out_of_memory network_error timeout : ErrorCode
  invalid_parameter not_implemented system_error : ErrorCode

pub data Result {ℓ} (A : Type ℓ) : Type ℓ where
  ok : A → Result A
  err : ErrorCode → Result A

abbrev pub has_value {ℓ} : {A : Type ℓ} → Result A → Bool
has_value (ok a) = true
has_value (err e) = false

-- UD_TRY and UD_ASSIGN_OR_RETURN: an error ends the function that calls, with that error.
infixl 5 ◌>>=◌
abbrev pub ◌>>=◌ {ℓ κ} : {A : Type ℓ} {B : Type κ} → Result A → (A → Result B) → Result B
ok a >>= f = f a
err e >>= f = err e
