-- ===== src/ShortName/Start.antt =====
-- The generator that `new` makes.
use rust_fatfs.Base.{
  ℕ, ◌+◌, ◌-◌, ◌*◌, ◌/◌, ◌%◌, ◌^◌, ◌≤◌, ◌<◌, ◌≡◌, ◌≢◌, refl, arith, List, [], ◌∷◌, ◌++◌, replicate,
  take, drop, length, length-append, length-replicate, true, false, Bool, Bool-cases, inl, inr,
  some, none, Option, ◌==◌, lt→ltb, if◌then◌else◌, ◌||◌, not, All,
}
use rust_fatfs.Base.Result.{ok}
use rust_fatfs.ShortName.{
  ShortNameGenerator, copy_short_name_part, is_sfn_char, to_ascii_uppercase, checksum,
  checksum_loop, padded, sfn_padding, from_parts, new_short_name_generator, after_first,
}
use rust_fatfs.ShortName.Generator.{short_name_loop}
use rust_fatfs.ShortName.Prefixed.{IsShaped}
use rust_fatfs.ShortName.Loop.{short_name_loop_found}
use rust_fatfs.Lfn.{rposition}
use rust_fatfs.Lfn.Names.{len_utf8}

length-copy_short_name_part :
    (size : ℕ) (dst : List ℕ) (lossy : Bool) (src : List ℕ)
    → length dst ≤ size
    → length (copy_short_name_part size dst lossy src).0 ≤ size
unfolding copy_short_name_part
length-copy_short_name_part size dst lossy [] h = h
length-copy_short_name_part size dst lossy (c ∷ src) h = elim (Bool-cases (length dst == size)) [
  | inl full ↦ rw full h
  | inr room ↦ rw room (elim (Bool-cases (c == b' ' || c == b'.')) [
    | inl stripped ↦ rw stripped (length-copy_short_name_part size dst true src h)
    | inr kept ↦
        let fixed_c = if is_sfn_char c then c else b'_' in
        let dst' = dst ++ (to_ascii_uppercase fixed_c ∷ []) in
        rw kept (
          length-copy_short_name_part size dst' (lossy || not (fixed_c == c)) src
            (ground (arith, length-append dst (to_ascii_uppercase fixed_c ∷ []))))
  ])
]

length-padded : (size : ℕ) (part : List ℕ) → length part ≤ size → length (padded size part) ≡ size
unfolding padded
length-padded size part h = omega (
  arith,
  length-append part (replicate (size - length part) sfn_padding),
  length-replicate (size - length part) sfn_padding,
)

checksum_loop-lt : (c : ℕ) (name : List ℕ) → c < 2 ^ 16 → checksum_loop c name < 2 ^ 16
unfolding checksum_loop
checksum_loop-lt c [] h = h
checksum_loop-lt c (x ∷ name) h =
    checksum_loop-lt ((c / 2 + c * 2 ^ 15 % 2 ^ 16 + x % 2 ^ 16) % 2 ^ 16) name (omega arith)

from_parts-IsShaped : (name : List ℕ) (dot : Option ℕ) → IsShaped (from_parts name dot)
unfolding from_parts checksum
from_parts-IsShaped name none =
    let base = copy_short_name_part 8 [] false name in
    let fits = length-copy_short_name_part 8 [] false name (omega arith) in
    record {
      size = omega (
        arith,
        length-append (padded 8 base.0) (replicate 3 sfn_padding),
        length-padded 8 base.0 fits,
      );
      base = fits;
      sum = checksum_loop-lt 0 name (omega arith);
    }
from_parts-IsShaped name (some dot) =
    let base = copy_short_name_part 8 [] false (take dot name) in
    let ext = copy_short_name_part 3 [] false (drop (dot + 1) name) in
    let fits = length-copy_short_name_part 8 [] false (take dot name) (omega arith) in
    let ext_fits = length-copy_short_name_part 3 [] false (drop (dot + 1) name) (omega arith) in
    record {
      size = omega (
        arith,
        length-append (padded 8 base.0) (padded 3 ext.0),
        length-padded 8 base.0 fits,
        length-padded 3 ext.0 ext_fits,
      );
      base = fits;
      sum = checksum_loop-lt 0 name (omega arith);
    }

from_parts_unmarked :
    (name : List ℕ) (dot : Option ℕ) → (from_parts name dot).prefix_chksum_bitmap ≡ 0
unfolding from_parts
from_parts_unmarked name none = refl
from_parts_unmarked name (some dot) = refl

-- For a new entry whose name starts with an ASCII character: `new` returns a generator, and over
-- the short names of a directory that does not have the long name, the loop ends with a name that
-- is none of them, in any number of rounds up to 65536 of which nine each outnumber the names.
pub short_name_loop_ends :
    (c : ℕ) (name : List ℕ) (existing : List (List ℕ)) (fuel : ℕ)
    → c < 0x80
    → fuel ≤ 2 ^ 16
    → length existing < 9 * fuel
    → (g : ShortNameGenerator) × (new_short_name_generator (c ∷ name) ≡ ok g)
      × ((short_name : List ℕ) × (short_name_loop fuel g existing ≡ ok short_name)
          × All (λ e. e ≢ short_name) existing)
unfolding new_short_name_generator len_utf8
short_name_loop_ends c name existing fuel h small few =
    let dot = after_first (rposition (λ x. x == b'.') name) in
    let g = from_parts (c ∷ name) dot in
    (
      g,
      rw (lt→ltb c 0x80 h) refl,
      short_name_loop_found fuel g existing (from_parts-IsShaped (c ∷ name) dot)
          (from_parts_unmarked (c ∷ name) dot) small few,
    )
