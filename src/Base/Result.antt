-- ===== src/Base/Result.antt =====
-- error.rs: the errors, and the state and error monad in which the operations are written.
-- A storage's own error is reduced to what the library asks of it: `is_interrupted`.
use mathlib.Core.Bool.{Bool, true, false}

pub data IoError : Type 0 where
  interrupted other : IoError

pub data Error : Type 0 where
  io : IoError → Error
  unexpected_eof write_zero invalid_input not_found already_exists : Error
  directory_is_not_empty corrupted_file_system not_enough_space : Error
  invalid_file_name_length unsupported_file_name_character : Error

unfoldable pub is_interrupted : Error → Bool
is_interrupted (io interrupted) = true
is_interrupted _ = false

-- `panic` is a Rust panic. `stuck` is no Rust value: a loop of the model ran out of fuel.
pub data Result {ℓ} (A : Type ℓ) : Type ℓ where
  ok : A → Result A
  err : Error → Result A
  panic : Result A
  stuck : Result A

-- A computation on a mutable state. The state that it leaves is there on every outcome.
abbrev pub M : Type 0 → Type 0 → Type 0
M S A = S → Result A × S

module _ {S : Type 0} where
  abbrev pub pure : {A : Type 0} → A → M S A
  pure a s = (ok a, s)

  abbrev pub fail : {A : Type 0} → Error → M S A
  fail e s = (err e, s)

  abbrev pub fail_panic : {A : Type 0} → M S A
  fail_panic s = (panic, s)

  abbrev pub and_then : {A B : Type 0} → Result A × S → (A → M S B) → Result B × S
  and_then (ok a, s) f = f a s
  and_then (err e, s) f = (err e, s)
  and_then (panic, s) f = (panic, s)
  and_then (stuck, s) f = (stuck, s)

  infixl 5 ◌>>=◌ ◌>>◌
  abbrev pub ◌>>=◌ : {A B : Type 0} → M S A → (A → M S B) → M S B
  ◌>>=◌ m f s = and_then (m s) f

  abbrev pub ◌>>◌ : {A B : Type 0} → M S A → M S B → M S B
  m >> k = m >>= λ _. k
