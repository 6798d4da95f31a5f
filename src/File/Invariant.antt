-- ===== src/File/Invariant.antt =====
-- Any sequence of operations on an open file.
use rust_fatfs.Base.{ℕ, List}
use rust_fatfs.Io.{SeekFrom}
use rust_fatfs.File.{Volume, Opened, truncate}
use rust_fatfs.File.Seek.{seek}
use rust_fatfs.File.Transfer.{read, write}
use rust_fatfs.File.Valid.{IsValid, IsVolume}
use rust_fatfs.File.Reading.{read-IsValid}
use rust_fatfs.File.Writing.{write-IsValid}
use rust_fatfs.File.Seeking.{seek-IsValid, truncate-IsValid}

-- A step of a program that has a file open, whatever the outcome, and what such steps reach.
pub data Step {S : Type 0} (v : Volume S) : Opened S → Opened S → Type 0 where
  reads : (n : ℕ) (o : Opened S) → Step v o (read v n o).1
  writes : (bytes : List ℕ) (o : Opened S) → Step v o (write v bytes o).1
  seeks : (pos : SeekFrom) (o : Opened S) → Step v o (seek v pos o).1
  truncates : (o : Opened S) → Step v o (truncate v o).1

pub data Steps {S : Type 0} (v : Volume S) (o : Opened S) : Opened S → Type 0 where
  here : Steps v o o
  next : {p q : Opened S} → Steps v o p → Step v p q → Steps v o q

module _ {S : Type 0} (v : Volume S) (laws : IsVolume v) where
  Step-IsValid : {o p : Opened S} → Step v o p → IsValid o.file → IsValid p.file
  Step-IsValid (reads n o) z = read-IsValid v laws n o z
  Step-IsValid (writes bytes o) z = write-IsValid v laws bytes o z
  Step-IsValid (seeks pos o) z = seek-IsValid v laws pos o z
  Step-IsValid (truncates o) z = truncate-IsValid v laws o z

  -- In a file of a known size that is open on a file system whose transfers are no longer than what
  -- is asked for, reads, writes, seeks and truncations in any order and with any outcomes, errors
  -- included, keep the offset within the size, the size below 2 ^ 32, and the current cluster unset
  -- exactly at offset 0.
  pub Steps-IsValid : {o p : Opened S} → IsValid o.file → Steps v o p → IsValid p.file
  Steps-IsValid z here = z
  Steps-IsValid z (next steps step) = Step-IsValid step (Steps-IsValid z steps)
