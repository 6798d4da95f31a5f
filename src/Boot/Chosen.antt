-- ===== src/Boot/Chosen.antt =====
-- boot_sector.rs: where the boot sector of a new volume takes its layout from.
use rust_fatfs.Base.{
  ◌*◌, sym, ◌∙◌, Option, some, none, ℕ, ◌/◌, ◌<◌, ◌≡◌, inl, inr, refl, ap, arith, Bool, true, false,
  ltb, if◌then◌else◌, Bool-cases, not, List, [], ◌∷◌,
}
use rust_fatfs.Base.Result.{Result, ok, err, panic, stuck, invalid_input}
use mathlib.Core.Path.{subst}
use rust_fatfs.Base.Outcome.{Gives}
use rust_fatfs.Boot.Valid.{IsPower}
use rust_fatfs.Boot.Power.{IsShifted, determine-IsShifted}
use rust_fatfs.FatType.{FatType, is_fat32_type, from_clusters}
use rust_fatfs.Boot.{BiosParameterBlock, total_clusters}
use rust_fatfs.Boot.Layout.{
  FormatVolumeOptions, FsLayout, determine_fs_layout, same_type, try_fs_layout, select_layout,
  determine_root_dir_sectors, layout_with, determine_bytes_per_cluster, allowed_fat_types,
}
use rust_fatfs.Boot.Format.{bpb_with, accept_bpb, new_bpb, sectors_16}

-- The layout comes from `try_fs_layout` with its own values.
abbrev pub IsChosen : FormatVolumeOptions → ℕ → FsLayout → Type 0
IsChosen o total l =
    try_fs_layout total o.bytes_per_sector l.sectors_per_cluster l.fat_type
      (determine_root_dir_sectors o.max_root_dir_entries o.bytes_per_sector l.fat_type) o.fats
    ≡ ok (l.reserved_sectors, l.sectors_per_fat)

pub ok-injective : {A : Type 0} (a b : A) → ok a ≡ ok b → a ≡ b
ok-injective a b h = ground arith

select_ok :
    (o : FormatVolumeOptions) (total spc : ℕ) (ts : List FatType) (l : FsLayout)
    → select_layout o total spc ts ≡ ok l
    → IsChosen o total l × (l.sectors_per_cluster ≡ spc)
unfolding select_layout
select_ok o total spc [] l h = ground arith
select_ok o total spc (t ∷ ts) l h = ground (arith, select_ok o total spc ts l)

layout_with_ok :
    (o : FormatVolumeOptions) (total : ℕ) (r : Result ℕ) (l : FsLayout)
    → layout_with o total r ≡ ok l
    → IsChosen o total l
      × (l.sectors_per_cluster < 256)
      × ((b : ℕ) × (r ≡ ok b) × (l.sectors_per_cluster ≡ b / o.bytes_per_sector))
unfolding layout_with
layout_with_ok o total (ok b) l h =
    let spc = b / o.bytes_per_sector in
    let s = select_ok o total spc (allowed_fat_types o.fat_type) l in
    elim (Bool-cases (ltb 255 spc)) [
      | inl t ↦ absurd (ground (arith, h, t))
      | inr n ↦ let (x, y) = s (ground (arith, h, n)) in (x, rw y (ground (arith, n)), (b, refl, y))
    ]
layout_with_ok o total (err e) l h = ground arith
layout_with_ok o total panic l h = ground arith
layout_with_ok o total stuck l h = ground arith

-- The bytes of a cluster, as the options have them or as they are computed.
abbrev bytes_per_cluster_of : FormatVolumeOptions → ℕ → Option ℕ → Result ℕ
bytes_per_cluster_of o total (some b) = ok b
bytes_per_cluster_of o total none =
    determine_bytes_per_cluster (total * o.bytes_per_sector) o.bytes_per_sector o.fat_type

bytes_per_cluster_of-IsShifted :
    (o : FormatVolumeOptions) (total : ℕ) (wanted : Option ℕ) (b : ℕ)
    → IsPower o.bytes_per_sector
    → ((x : ℕ) → wanted ≡ some x → IsPower x)
    → bytes_per_cluster_of o total wanted ≡ ok b
    → IsShifted b
bytes_per_cluster_of-IsShifted o total (some x) b p h e =
    let same : x ≡ b = ok-injective x b e in inr (rw (← same) (h x refl))
bytes_per_cluster_of-IsShifted o total none b p h e =
    subst (Gives IsShifted) e
      (determine-IsShifted (total * o.bytes_per_sector) o.bytes_per_sector o.fat_type p)

-- What is known of a layout that is chosen, with the bytes of its cluster.
pub record IsLayout (o : FormatVolumeOptions) (total : ℕ) (l : FsLayout) : Type 0 where
  pub tried : IsChosen o total l
  pub small : l.sectors_per_cluster < 256
  pub bytes : ℕ
  pub shifted : IsShifted bytes
  pub sectors : l.sectors_per_cluster ≡ bytes / o.bytes_per_sector

determined :
    (o : FormatVolumeOptions) (total : ℕ)
    → determine_fs_layout o total
      ≡ layout_with o total (bytes_per_cluster_of o total o.bytes_per_cluster)
unfolding determine_fs_layout
determined o total = split o.bytes_per_cluster
  where
    split :
        (wanted : Option ℕ)
        → layout_with o total (elim wanted [
          | some b ↦ ok b
          | none ↦
              determine_bytes_per_cluster (total * o.bytes_per_sector) o.bytes_per_sector o.fat_type
        ])
          ≡ layout_with o total (bytes_per_cluster_of o total wanted)
    split (some b) = refl
    split none = refl

pub chosen :
    (o : FormatVolumeOptions) (total : ℕ) (l : FsLayout)
    → IsPower o.bytes_per_sector
    → ((x : ℕ) → o.bytes_per_cluster ≡ some x → IsPower x)
    → determine_fs_layout o total ≡ ok l
    → IsLayout o total l
chosen o total l p wanted h =
    let (tried, small, (b, e, sectors)) =
      layout_with_ok o total (bytes_per_cluster_of o total o.bytes_per_cluster) l
        (sym (determined o total) ∙ h) in
    record {
      tried = tried;
      small = small;
      bytes = b;
      shifted = bytes_per_cluster_of-IsShifted o total o.bytes_per_cluster b p wanted e;
      sectors = sectors;
    }

-- The table's sectors as they stand in the field of 16 bits.
abbrev pub sectors_per_fat_16_of : FsLayout → ℕ
sectors_per_fat_16_of l = if is_fat32_type l.fat_type then 0 else l.sectors_per_fat

abbrev pub bpb_of : FormatVolumeOptions → ℕ → FsLayout → BiosParameterBlock
bpb_of o total l = new_bpb o total l (sectors_per_fat_16_of l) (sectors_16 l.fat_type total)

guard_ok :
    {A : Type 0} (test : Bool) (a x : A)
    → (if not test then err invalid_input else ok a) ≡ ok x
    → (test ≡ true) × (a ≡ x)
guard_ok test a x h = ground arith

same_type-eq : (a b : FatType) → same_type a b ≡ true → a ≡ b
unfolding same_type
same_type-eq a b h = ground arith

accept_ok :
    (t : FatType) (b bpb : BiosParameterBlock) (u : FatType)
    → accept_bpb t b ≡ ok (bpb, u)
    → (b ≡ bpb) × (t ≡ u) × (from_clusters (total_clusters b) ≡ t)
unfolding accept_bpb
accept_ok t b bpb u h =
    let (same, e) = guard_ok (same_type (from_clusters (total_clusters b)) t) (b, t) (bpb, u) h in
    (ap (λ p. p.0) e, ap (λ p. p.1) e, same_type-eq _ _ same)

-- The two branches of one function.
branch_ok :
    {A : Type 0} (big wide : Bool) (f : ℕ → Result A) (m n : ℕ) (x : A)
    → (if big then f m else if wide then err invalid_input else f n) ≡ ok x
    → f (if big then m else n) ≡ ok x
branch_ok true wide f m n x h = h
branch_ok false true f m n x h = ground arith
branch_ok false false f m n x h = h

-- What a block that is accepted was made from.
pub bpb_with_ok :
    (o : FormatVolumeOptions) (total : ℕ) (r : Result FsLayout) (bpb : BiosParameterBlock)
    (t : FatType)
    → bpb_with o total r ≡ ok (bpb, t)
    → (l : FsLayout) × (r ≡ ok l)
      × (bpb_of o total l ≡ bpb)
      × (l.fat_type ≡ t)
      × (from_clusters (total_clusters (bpb_of o total l)) ≡ l.fat_type)
unfolding bpb_with
bpb_with_ok o total (ok l) bpb t h =
    let make : ℕ → Result (BiosParameterBlock × FatType) =
      λ n. accept_bpb l.fat_type (new_bpb o total l n (sectors_16 l.fat_type total)) in
    let k =
      branch_ok (is_fat32_type l.fat_type) (ltb 0xFFFF l.sectors_per_fat) make 0 l.sectors_per_fat
        (bpb, t) h in
    let (a, b, c) = accept_ok l.fat_type (bpb_of o total l) bpb t k in (l, refl, a, b, c)
bpb_with_ok o total (err e) bpb t h = ground arith
bpb_with_ok o total panic bpb t h = ground arith
bpb_with_ok o total stuck bpb t h = ground arith
