-- ===== src/SuperImage/Metadata.antt =====
-- The logical-partition metadata, and the extraction of one partition.
pub mod Extraction
pub mod Entries
pub mod Total
pub mod Opened
use ubuntu_install_on_samsun.Prelude.{
  is_ascii, ℕ, zero, suc, ◌+◌, ◌-◌, ◌*◌, min, Bool, not, ◌||◌, List, [], ◌∷◌, ◌++◌, ltb, ◌==◌,
  if◌then◌else◌, length, take, drop, Result, ok, err, ◌>>=◌, ◌>>◌, raise_if, same,
}
use ubuntu_install_on_samsun.Prelude.Blob.{u32, slice}
use mathlib.Core.List.{reverse}
use ubuntu_install_on_samsun.SuperImage.{ImageError, Reader, zeros, read}

pub data MetadataError : Type 0 where
  invalid_geometry geometry_checksum invalid_metadata header_checksum table_checksum : MetadataError
  unsupported_layout extent_overflow unsupported_extent struct_error not_ascii : MetadataError
  output_exists out_of_fuel : MetadataError
  image_failed : ImageError → MetadataError

pub record Extent : Type 0 where
  pub sectors : ℕ
  pub physical_sector : ℕ

pub record Partition : Type 0 where
  pub name : List ℕ
  pub attributes : ℕ
  pub group : ℕ
  pub size : ℕ
  pub extents : List Extent

abbrev pub from_image : {A : Type 0} → Result ImageError A → Result MetadataError A
from_image (ok value) = ok value
from_image (err raised) = err (image_failed raised)

-- `struct.unpack_from` refuses a buffer that ends before its fields.
abbrev pub check_room : List ℕ → ℕ → Result MetadataError (Unit {0})
check_room buffer end = raise_if (ltb (length buffer) end) struct_error

abbrev pub u64 : List ℕ → ℕ → ℕ
u64 blob i = u32 blob i + 4294967296 * u32 blob (i + 4)

-- The loop over the extents of one partition, from table entry `number` on.
unfoldable pub parse_extents : List ℕ → ℕ → ℕ → ℕ → Result MetadataError (List Extent)
parse_extents tables extent_offset number zero = ok []
parse_extents tables extent_offset number (suc more) = do
  let here = extent_offset + number * 24
  check_room tables (here + 24)
  raise_if
      (not (u32 tables (here + 8) == 0)
        || not (u32 tables (here + 20) == 0)
        || u64 tables here == 0)
      unsupported_extent
  later ← parse_extents tables extent_offset (suc number) more
  ok (record { sectors = u64 tables here; physical_sector = u64 tables (here + 12) } ∷ later)

abbrev pub sectors_of : List Extent → ℕ
sectors_of [] = 0
sectors_of (e ∷ es) = e.sectors + sectors_of es

abbrev drop_zeros : List ℕ → List ℕ
drop_zeros [] = []
drop_zeros (c ∷ cs) = let rest = drop_zeros cs in if c == 0 then rest else c ∷ cs

-- `rstrip(b"\0")`
abbrev pub strip_zeros : List ℕ → List ℕ
strip_zeros name = reverse (drop_zeros (reverse name))

-- The loop over the partitions, from table entry `index` on.
unfoldable pub parse_partitions : List ℕ → ℕ → ℕ → ℕ → ℕ → ℕ → Result MetadataError (List Partition)
unfolding parse_extents
parse_partitions tables part_offset extent_offset extent_count index zero = ok []
parse_partitions tables part_offset extent_offset extent_count index (suc more) = do
  let here = part_offset + index * 52
  check_room tables (here + 52)
  let name = strip_zeros (slice tables here 36)
  raise_if (not (is_ascii name)) not_ascii
  raise_if (ltb extent_count (u32 tables (here + 40) + u32 tables (here + 44))) extent_overflow
  extents ← parse_extents tables extent_offset (u32 tables (here + 40)) (u32 tables (here + 44))
  later ← parse_partitions tables part_offset extent_offset extent_count (suc index) more
  ok (
      record {
        name = name;
        attributes = u32 tables (here + 36);
        group = u32 tables (here + 48);
        size = sectors_of extents * 512;
        extents = extents;
      }
      ∷ later)

abbrev pub cleared : List ℕ → ℕ → List ℕ
cleared block start = take start block ++ (zeros 32 ++ drop (start + 32) block)

-- `hashlib.sha256(…).digest()` is an argument.
module _ (sha256 : List ℕ → List ℕ) where
  unfoldable pub parse_metadata : Reader → Result MetadataError (List Partition)
  unfolding parse_partitions
  parse_metadata reader = do
    geometry ← from_image (read reader 4096 52)
    raise_if (not (u32 geometry 0 == 1634485351) || not (u32 geometry 4 == 52)) invalid_geometry
    raise_if (not (same (sha256 (cleared geometry 8)) (slice geometry 8 32))) geometry_checksum
    first ← from_image (read reader 12288 128)
    raise_if (not (u32 first 0 == 1095520304)) invalid_metadata
    header ← from_image (read reader 12288 (u32 first 8))
    raise_if (not (same (sha256 (cleared header 12)) (slice header 12 32))) header_checksum
    check_room header 48
    tables ← from_image (read reader (12288 + u32 first 8) (u32 header 44))
    raise_if (not (same (sha256 tables) (slice header 48 32))) table_checksum
    check_room header 104
    raise_if (not (u32 header 88 == 52) || not (u32 header 100 == 24)) unsupported_layout
    parse_partitions tables (u32 header 80) (u32 header 92) (u32 header 96) 0 (u32 header 84)

-- The `while remaining` loop: at most 4 MiB each round.
unfoldable pub copy_extent : ℕ → Reader → ℕ → ℕ → Result MetadataError (List ℕ)
copy_extent fuel reader offset zero = ok []
copy_extent zero reader offset (suc more) = err out_of_fuel
copy_extent (suc fuel) reader offset (suc more) = do
  part ← from_image (read reader offset (min 4194304 (suc more)))
  rest ← copy_extent fuel reader (offset + length part) (suc more - length part)
  ok (part ++ rest)

unfoldable pub copy_extents : Reader → List Extent → Result MetadataError (List ℕ)
unfolding copy_extent
copy_extents reader [] = ok []
copy_extents reader (e ∷ es) = do
  part ← copy_extent (e.sectors * 512) reader (e.physical_sector * 512) (e.sectors * 512)
  rest ← copy_extents reader es
  ok (part ++ rest)

-- What is written to the new file.
unfoldable pub extract : Reader → Partition → Bool → Result MetadataError (List ℕ)
unfolding copy_extents
extract reader partition exists = do
  raise_if exists output_exists
  copy_extents reader partition.extents

-- The rows of the device-mapper table: first logical sector, sectors, first physical sector.
abbrev pub dm_table : ℕ → List Extent → List (ℕ × (ℕ × ℕ))
dm_table logical [] = []
dm_table logical (e ∷ es) =
    (logical, (e.sectors, e.physical_sector)) ∷ dm_table (logical + e.sectors) es
