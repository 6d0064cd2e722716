-- ===== src/Layout/Acceptance.antt =====
-- When `plan_layout` accepts a request, and what it then returns.
use ubuntu_install_on_samsun.Prelude.{
  ℕ, ◌+◌, ◌*◌, ◌/◌, ◌%◌, ◌≤◌, ◌<◌, ◌≡◌, ◌↔◌, ok, went_through, arith, pos,
}
use ubuntu_install_on_samsun.Layout.{
  Request, Geometry, Plan, boundaries, check_positive, check_gpt_grid, check_geometry, plan_of,
  plan_layout,
}

-- The request holds exactly these values, all of them above zero.
pub record Matches (r : Request) (g : Geometry) : Type 0 where
  pub disk_sectors : r.disk_sectors ≡ pos g.disk_sectors
  pub current_start : r.current_start ≡ pos g.current_start
  pub current_sectors : r.current_sectors ≡ pos g.current_sectors
  pub ubuntu_gib : r.ubuntu_gib ≡ pos g.ubuntu_gib
  pub minimum_ext4_blocks : r.minimum_ext4_blocks ≡ pos g.minimum_ext4_blocks
  pub ext4_block_bytes : r.ext4_block_bytes ≡ pos g.ext4_block_bytes
  pub gpt_logical_sector_bytes : r.gpt_logical_sector_bytes ≡ pos g.gpt_logical_sector_bytes

pub record IsPositive (g : Geometry) : Type 0 where
  pub disk_sectors : 0 < g.disk_sectors
  pub current_start : 0 < g.current_start
  pub current_sectors : 0 < g.current_sectors
  pub ubuntu_gib : 0 < g.ubuntu_gib
  pub minimum_ext4_blocks : 0 < g.minimum_ext4_blocks
  pub ext4_block_bytes : 0 < g.ext4_block_bytes
  pub gpt_logical_sector_bytes : 0 < g.gpt_logical_sector_bytes

-- A sector boundary that falls on the GPT grid.
abbrev pub OnGrid : ℕ → ℕ → Type 0
OnGrid bytes sector = (sector * 512) % bytes ≡ 0

-- The conditions on the geometry, in the terms of the disk.
pub record IsAdmissible (g : Geometry) : Type 0 where
  pub start_aligned : g.current_start % 2048 ≡ 0
  pub within_disk : g.current_start + g.current_sectors ≤ g.disk_sectors
  pub whole_blocks : (g.ubuntu_gib * 1073741824) % g.ext4_block_bytes ≡ 0
  pub above_minimum : g.minimum_ext4_blocks < g.ubuntu_gib * 1073741824 / g.ext4_block_bytes
  pub room_for_android : g.ubuntu_gib * 2097152 + 33554432 ≤ g.current_sectors
  pub disk_grid : OnGrid g.gpt_logical_sector_bytes g.disk_sectors
  pub start_grid : OnGrid g.gpt_logical_sector_bytes g.current_start
  pub end_grid : OnGrid g.gpt_logical_sector_bytes (g.current_start + g.current_sectors)
  pub split_grid : OnGrid g.gpt_logical_sector_bytes (g.current_start + g.ubuntu_gib * 2097152)

pub check_positive_sound :
    (r : Request) (g : Geometry) → check_positive r ≡ ok g → Matches r g × IsPositive g
unfolding check_positive
check_positive_sound r g h = ground arith

pub check_positive_complete :
    (r : Request) (g : Geometry) → Matches r g → IsPositive g → check_positive r ≡ ok g
unfolding check_positive
check_positive_complete r g m p = ground arith

pub check_geometry_sound : (g : Geometry) → IsPositive g → check_geometry g ≡ ok tt → IsAdmissible g
unfolding check_geometry check_gpt_grid boundaries
check_geometry_sound g p h = ground arith

pub check_geometry_complete :
    (g : Geometry) → IsPositive g → IsAdmissible g → check_geometry g ≡ ok tt
unfolding check_geometry check_gpt_grid boundaries
check_geometry_complete g p a = ground arith

plan_layout_complete :
    (r : Request) (g : Geometry)
    → Matches r g
    → IsPositive g
    → IsAdmissible g
    → plan_layout r ≡ ok (plan_of g)
unfolding plan_layout
plan_layout_complete r g m p a =
    ground (arith, check_positive_complete r g, check_geometry_complete g)

pub plan_layout_sound :
    (r : Request) {p : Plan}
    → plan_layout r ≡ ok p
    → (g : Geometry) × Matches r g × IsPositive g × IsAdmissible g × (p ≡ plan_of g)
unfolding plan_layout
plan_layout_sound r h =
    let (g, checked, rest) = went_through (check_positive r) _ h in
    let (done, passed, built) = went_through (check_geometry g) _ rest in
    let (m, p) = check_positive_sound r g checked in (g, m, p, check_geometry_sound g p passed, cc)

-- A plan is returned exactly for a request whose values are all positive and whose geometry is
-- admissible: the start is 1 MiB aligned, the partition lies on the disk, the Ubuntu part is a
-- whole number of ext4 blocks above the minimum, at least 16 GiB are left for Android, and every
-- boundary is on the GPT grid. The plan is then the one of that geometry.
pub plan_layout-accepts :
    (r : Request) (p : Plan)
    → (plan_layout r ≡ ok p)
      ↔ ((g : Geometry) × Matches r g × IsPositive g × IsAdmissible g × (p ≡ plan_of g))
plan_layout-accepts r p = (
  plan_layout_sound r,
  λ found. rw found.4 (plan_layout_complete r found.0 found.1 found.2 found.3),
)
