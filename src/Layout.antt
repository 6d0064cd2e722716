-- ===== src/Layout.antt =====
-- tools/plan_dualboot_layout.py: the split of the userdata partition into linuxroot and userdata.
-- Python's ints are signed; all are checked to be positive first, and from there on no subtraction
-- goes below zero.
mod Acceptance
mod Partitions
mod Scenarios
use ubuntu_install_on_samsun.Prelude.{
  ℕ, zero, suc, ◌+◌, ◌-◌, ◌*◌, ◌/◌, ◌%◌, ◌^◌, String, List, [], ◌∷◌, leb, ltb, ◌==◌, if◌then◌else◌,
  not, ◌||◌, Result, ok, err, ◌>>=◌, ◌>>◌, raise_if, ℤ, pos, negsuc,
}

abbrev pub sector_bytes : ℕ
sector_bytes = 512

abbrev pub align_sectors : ℕ
align_sectors = 2048

abbrev pub gib : ℕ
gib = 1024 ^ 3

-- The keyword arguments of `plan_layout`.
pub record Request : Type 0 where
  pub disk_sectors : ℤ
  pub current_start : ℤ
  pub current_sectors : ℤ
  pub ubuntu_gib : ℤ
  pub minimum_ext4_blocks : ℤ
  pub ext4_block_bytes : ℤ
  pub gpt_logical_sector_bytes : ℤ

-- The same values once they are known to be positive.
pub record Geometry : Type 0 where
  pub disk_sectors : ℕ
  pub current_start : ℕ
  pub current_sectors : ℕ
  pub ubuntu_gib : ℕ
  pub minimum_ext4_blocks : ℕ
  pub ext4_block_bytes : ℕ
  pub gpt_logical_sector_bytes : ℕ

-- Which boundary the final loop found off the GPT grid.
pub data Boundary : Type 0 where
  disk current_start_edge current_end_plus_one linuxroot_end_plus_one userdata_start : Boundary

pub data LayoutError : Type 0 where
  not_positive start_unaligned beyond_disk target_unaligned android_unaligned : LayoutError
  no_android_left below_ext4_minimum android_too_small : LayoutError
  gpt_unaligned : Boundary → LayoutError

-- The float `numerator / denominator`, kept as the quotient that it rounds.
pub record Ratio : Type 0 where
  pub numerator : ℕ
  pub denominator : ℕ

-- The returned dictionary, a field for each key.
pub record Plan : Type 0 where
  pub status : String
  pub sysfs_sector_bytes : ℕ
  pub sysfs_alignment_sectors : ℕ
  pub sysfs_disk_sectors : ℕ
  pub sysfs_current_partition_start : ℕ
  pub sysfs_current_partition_end : ℕ
  pub gpt_logical_sector_bytes : ℕ
  pub gpt_disk_sectors : ℕ
  pub linuxroot_partition_number : ℕ
  pub sysfs_linuxroot_start : ℕ
  pub sysfs_linuxroot_end : ℕ
  pub sysfs_linuxroot_sectors : ℕ
  pub gpt_linuxroot_start : ℕ
  pub gpt_linuxroot_end : ℕ
  pub linuxroot_gib : Ratio
  pub userdata_partition_number : ℕ
  pub sysfs_userdata_start : ℕ
  pub sysfs_userdata_end : ℕ
  pub sysfs_userdata_sectors : ℕ
  pub gpt_userdata_start : ℕ
  pub gpt_userdata_end : ℕ
  pub userdata_gib : Ratio
  pub ext4_target_blocks : ℕ
  pub ext4_minimum_blocks : ℕ
  pub ext4_headroom_blocks : ℕ

abbrev pub to_positive : ℤ → Result LayoutError ℕ
to_positive (pos zero) = err not_positive
to_positive (pos (suc n)) = ok (suc n)
to_positive (negsuc n) = err not_positive

pub check_positive : Request → Result LayoutError Geometry
check_positive r = do
  disk_sectors ← to_positive r.disk_sectors
  current_start ← to_positive r.current_start
  current_sectors ← to_positive r.current_sectors
  ubuntu_gib ← to_positive r.ubuntu_gib
  minimum_ext4_blocks ← to_positive r.minimum_ext4_blocks
  ext4_block_bytes ← to_positive r.ext4_block_bytes
  gpt_logical_sector_bytes ← to_positive r.gpt_logical_sector_bytes
  ok (record {
    disk_sectors = disk_sectors;
    current_start = current_start;
    current_sectors = current_sectors;
    ubuntu_gib = ubuntu_gib;
    minimum_ext4_blocks = minimum_ext4_blocks;
    ext4_block_bytes = ext4_block_bytes;
    gpt_logical_sector_bytes = gpt_logical_sector_bytes;
  })

-- The loop over the labelled sectors.
pub check_gpt_grid : ℕ → List (Boundary × ℕ) → Result LayoutError (Unit {0})
check_gpt_grid bytes [] = ok tt
check_gpt_grid bytes ((label, sector) ∷ rest) =
    let later = check_gpt_grid bytes rest in
    if sector * sector_bytes % bytes == 0 then later else err (gpt_unaligned label)

abbrev pub gpt_sector : ℕ → ℕ → ℕ
gpt_sector bytes sysfs_sector = sysfs_sector * sector_bytes / bytes

abbrev pub current_end : Geometry → ℕ
current_end g = g.current_start + g.current_sectors - 1

abbrev pub ubuntu_bytes : Geometry → ℕ
ubuntu_bytes g = g.ubuntu_gib * gib

abbrev pub linux_sectors : Geometry → ℕ
linux_sectors g = ubuntu_bytes g / sector_bytes

abbrev pub linux_end : Geometry → ℕ
linux_end g = g.current_start + linux_sectors g - 1

abbrev pub android_start : Geometry → ℕ
android_start g = linux_end g + 1

abbrev pub target_ext4_blocks : Geometry → ℕ
target_ext4_blocks g = ubuntu_bytes g / g.ext4_block_bytes

abbrev pub android_sectors : Geometry → ℕ
android_sectors g = current_end g - android_start g + 1

pub boundaries : Geometry → List (Boundary × ℕ)
boundaries g =
    (disk, g.disk_sectors)
    ∷ (current_start_edge, g.current_start)
    ∷ (current_end_plus_one, current_end g + 1)
    ∷ (linuxroot_end_plus_one, linux_end g + 1)
    ∷ (userdata_start, android_start g)
    ∷ []

pub check_geometry : Geometry → Result LayoutError (Unit {0})
check_geometry g = do
  raise_if (not (g.current_start % align_sectors == 0)) start_unaligned
  raise_if (leb g.disk_sectors (current_end g)) beyond_disk
  raise_if
      (not (ubuntu_bytes g % sector_bytes == 0) || not (ubuntu_bytes g % g.ext4_block_bytes == 0))
      target_unaligned
  raise_if (not (android_start g % align_sectors == 0)) android_unaligned
  raise_if (ltb (current_end g) (android_start g)) no_android_left
  raise_if (leb (target_ext4_blocks g) g.minimum_ext4_blocks) below_ext4_minimum
  raise_if (ltb (android_sectors g * sector_bytes) (16 * gib)) android_too_small
  check_gpt_grid g.gpt_logical_sector_bytes (boundaries g)

pub plan_of : Geometry → Plan
plan_of g =
    let grid = gpt_sector g.gpt_logical_sector_bytes in
    record {
      status = "PLAN_ONLY_NO_DEVICE_WRITES";
      sysfs_sector_bytes = sector_bytes;
      sysfs_alignment_sectors = align_sectors;
      sysfs_disk_sectors = g.disk_sectors;
      sysfs_current_partition_start = g.current_start;
      sysfs_current_partition_end = current_end g;
      gpt_logical_sector_bytes = g.gpt_logical_sector_bytes;
      gpt_disk_sectors = grid g.disk_sectors;
      linuxroot_partition_number = 34;
      sysfs_linuxroot_start = g.current_start;
      sysfs_linuxroot_end = linux_end g;
      sysfs_linuxroot_sectors = linux_sectors g;
      gpt_linuxroot_start = grid g.current_start;
      gpt_linuxroot_end = grid (linux_end g + 1) - 1;
      linuxroot_gib = record { numerator = linux_sectors g * sector_bytes; denominator = gib };
      userdata_partition_number = 35;
      sysfs_userdata_start = android_start g;
      sysfs_userdata_end = current_end g;
      sysfs_userdata_sectors = android_sectors g;
      gpt_userdata_start = grid (android_start g);
      gpt_userdata_end = grid (current_end g + 1) - 1;
      userdata_gib = record { numerator = android_sectors g * sector_bytes; denominator = gib };
      ext4_target_blocks = target_ext4_blocks g;
      ext4_minimum_blocks = g.minimum_ext4_blocks;
      ext4_headroom_blocks = target_ext4_blocks g - g.minimum_ext4_blocks;
    }

pub plan_layout : Request → Result LayoutError Plan
plan_layout r = do g ← check_positive r; check_geometry g; ok (plan_of g)
