-- ===== src/Layout/Scenarios.antt =====
-- The split of the reviewed tablet, and requests that are refused.
use ubuntu_install_on_samsun.Prelude.{◌≡◌, refl, ◌↔◌, ok, err, ℤ, pos, negsuc}
use ubuntu_install_on_samsun.Layout.{
  Request, Geometry, not_positive, android_too_small, check_positive, check_geometry,
  check_gpt_grid, boundaries, plan_of, plan_layout, Plan,
}
use ubuntu_install_on_samsun.Layout.Partitions.{
  Tiles, IsExactOnGpt, plan_layout-Tiles, plan_layout-IsExactOnGpt,
}
use ubuntu_install_on_samsun.Layout.Acceptance.{
  Matches, IsPositive, IsAdmissible, plan_layout-accepts,
}

-- The defaults of the command line.
abbrev tablet : ℤ → Request
tablet ubuntu_gib = record {
  disk_sectors = pos 248799232;
  current_start = pos 21880832;
  current_sectors = pos 226918360;
  ubuntu_gib = ubuntu_gib;
  minimum_ext4_blocks = pos 9836055;
  ext4_block_bytes = pos 4096;
  gpt_logical_sector_bytes = pos 4096;
}

abbrev tablet_plan : Plan
tablet_plan = plan_of (record {
  disk_sectors = 248799232;
  current_start = 21880832;
  current_sectors = 226918360;
  ubuntu_gib = 64;
  minimum_ext4_blocks = 9836055;
  ext4_block_bytes = 4096;
  gpt_logical_sector_bytes = 4096;
})

tablet_planned : plan_layout (tablet (pos 64)) ≡ ok tablet_plan
unfolding plan_layout check_positive check_geometry check_gpt_grid boundaries
tablet_planned = refl

tablet_refused :
    (plan_layout (tablet (pos 0)) ≡ err not_positive)
    × (plan_layout (tablet (negsuc 3)) ≡ err not_positive)
    × (plan_layout (tablet (pos 100)) ≡ err android_too_small)
unfolding plan_layout check_positive check_geometry check_gpt_grid boundaries
tablet_refused = (refl, refl, refl)

plan_layout-accepts_example : (plan_layout (tablet (pos 64)) ≡ ok tablet_plan) ↔ (
    (g : Geometry) × Matches (tablet (pos 64)) g
    × IsPositive g
    × IsAdmissible g
    × (tablet_plan ≡ plan_of g))
plan_layout-accepts_example = plan_layout-accepts (tablet (pos 64)) tablet_plan

plan_layout-Tiles_example : Tiles (tablet (pos 64)) tablet_plan
plan_layout-Tiles_example = plan_layout-Tiles (tablet (pos 64)) {p = tablet_plan} tablet_planned

plan_layout-IsExactOnGpt_example : IsExactOnGpt tablet_plan
plan_layout-IsExactOnGpt_example =
    plan_layout-IsExactOnGpt (tablet (pos 64)) {p = tablet_plan} tablet_planned
