-- ===== src/Lib.antt =====
-- A model of the FAT filesystem library, with the theorems that make it correct.
--
-- The parts, from the storage up, each with its file and its code:
--   Base        `src/error.rs`: the errors (`Error`), and the monad `M` on a mutable state in which
--               the operations are written. A state is left on every outcome, errors included.
--   Io          `src/io.rs`: a storage as a record of `read`, `write` and `seek`, the loops
--               `read_exact` and `write_all`, and the little-endian words. `Io.Contract` says what
--               a storage of bytes promises; the theorems on tables and windows ask no more of it.
--   Memory      a storage in memory that keeps that contract, short reads and writes included.
--   Disk        `src/fs.rs`, `DiskSlice`: a window of a storage with mirrors. It is a storage of
--               bytes again (`Disk.Instance`), so that the tables can lie in it.
--   FatType     `src/fs.rs`, `FatType`; Status: `src/fs.rs`, `FsStatusFlags`.
--   Table       `src/table.rs`: the entries, the searches and the counts of FAT12, FAT16 and FAT32,
--               one module each, and what is common: `alloc_cluster`, `count_free_clusters`,
--               `read_fat_flags`, `format_fat`. `Table.Spec` is the plain view, a function from
--               clusters to values; `Table.Interface` is what clients rely on, and
--               `Table.Instance` shows that the three formats give it.
--   Chain       `src/table.rs`, `ClusterIterator`: iteration, `truncate` and `free`.
--   Time        `src/time.rs`: dates and times, and the words that hold them.
--   FsInfo      `src/fs.rs`, `FsInfoSector`: the hints on free clusters, and their sector.
--   Boot        `src/boot_sector.rs`: `BiosParameterBlock` and `BootSector`, what is derived from
--               them, `Boot.Codec` (reading and writing), `Boot.Validate` (`validate`), `Boot.Layout`
--               (`try_fs_layout`, `determine_fs_layout` and what they use) and `Boot.Format`
--               (`format_bpb`, `format_boot_sector`). `Boot.Geometry` has the addresses that
--               `src/fs.rs` computes from it.
--   DirEntry    `src/dir_entry.rs`: `DirFileEntryData`, `DirLfnEntryData` and `DirEntryData`, their
--               fields, `DirEntry.Codec` (reading and writing) and `DirEntry.Editor` (`DirEntryEditor`).
--   Lfn         `src/dir.rs`: `LfnEntriesGenerator` and `LongNameBuilder`, which take a long name apart
--               into entries and put it together again, and `validate_long_name` (`Lfn.Names`).
--   ShortName   `src/dir_entry.rs`, `ShortName`, and `src/dir.rs`, `ShortNameGenerator`: the short name
--               of a new entry. `ShortName.Generator` has the collisions and the choice of a name.
--   File        `src/file.rs`: an open file. `File.Transfer` reads and writes, `File.Seek` seeks,
--               `File.Extents` lists where the bytes lie. The file system is the record `Volume` of
--               the operations that file.rs calls; `File.Valid` and `File.Frozen` state the laws
--               that a theorem asks of it.
--   FileSystem  `src/fs.rs`, `FileSystem`: the table through `FsIoAdapter`, allocation and freeing with
--               the hints, the flags, statistics and the unmount. `FileSystem.Mount` is `new`, and
--               `FileSystem.Opening` gives the operations that an open file needs, and
--               `FileSystem.Format` is `format_volume`. `FileSystem.Reads` and `FileSystem.Walk`
--               take a walk along a chain down to the bytes of the storage, and
--               `FileSystem.Contents` fills the laws of `File.Frozen` with them.
--   Tests       runs at concrete inputs.
--
-- The sectors and entries that are read and written field by field rest on `Io.Codec`: a reader that
-- takes given bytes to a value, a writer that puts bytes, and the sequences of these.
--
-- Numbers are natural numbers. A machine integer keeps its bound as a hypothesis or its wrap-around
-- as `% 2 ^ w`; the arithmetic is that of a build without overflow checks, and a failing `assert!`
-- or `unwrap` is the outcome `panic`.
--
-- Fuel. `read_exact` and `write_all` of n bytes have n rounds and 8 for interruptions
-- (`interruptions`): every other round moves a byte, and a storage that keeps the contract does not
-- interrupt more often. `free` has 2 ^ 28 rounds (`chain_fuel`), one for every number that an entry
-- can hold, since it frees an entry a round. The search for a short name takes its rounds as an
-- argument, and a theorem says how many are enough. The FAT12 search has a round for each cluster.
-- Running out is the outcome `stuck`.
--
-- Not modelled: the log messages, and the effect of a warning; the conversions to and from the
-- standard library's io types, which only forward; the clock and the conversions to and from
-- `chrono`, which are outside code; and, so far, `root_dir` and
-- the volume labels of `src/fs.rs`, and `Dir` and `DirIter` of `src/dir.rs`.
pub mod Base
pub mod Boot
pub mod Chain
pub mod DirEntry
pub mod Disk
pub mod FatType
pub mod File
pub mod FileSystem
pub mod FsInfo
pub mod Io
pub mod Lfn
pub mod Memory
pub mod ShortName
pub mod Status
pub mod Table
pub mod Tests
pub mod Time
