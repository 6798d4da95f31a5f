-- ===== src/Status.antt =====
-- fs.rs: `FsStatusFlags`.
use rust_fatfs.Base.{ℕ, bit_and, bit_or, Bool, ◌==◌, not, if◌then◌else◌}

pub record FsStatusFlags : Type 0 where
  pub dirty : Bool
  pub io_error : Bool

-- `res |= 1` and `res |= 2`, from 0.
unfoldable pub encode : FsStatusFlags → ℕ
encode flags =
    let res = if flags.dirty then bit_or 0 1 else 0 in if flags.io_error then bit_or res 2 else res

unfoldable pub decode : ℕ → FsStatusFlags
decode flags = record { dirty = not (bit_and flags 1 == 0); io_error = not (bit_and flags 2 == 0) }
