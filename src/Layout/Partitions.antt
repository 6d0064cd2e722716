-- ===== src/Layout/Partitions.antt =====
-- What a plan that `plan_layout` returns says about the two partitions.
use native.Mathlib.Nat.{div-add-mod}
use ubuntu_install_on_samsun.Prelude.{ℕ, ◌+◌, ◌*◌, ◌/◌, ◌%◌, ◌≤◌, ◌<◌, ◌≡◌, ok, arith, pos}
use ubuntu_install_on_samsun.Layout.{Request, Plan, plan_of, plan_layout}
use ubuntu_install_on_samsun.Layout.Acceptance.{plan_layout_sound}

exact_quotient :
    (x bytes : ℕ) → 0 < bytes → 0 < x → x % bytes ≡ 0 → (x / bytes * bytes ≡ x) × (0 < x / bytes)
exact_quotient x bytes b h e = ground (arith, div-add-mod x bytes)

-- linuxroot and userdata tile the former partition, without gap or overlap, inside the disk.
pub record Tiles (r : Request) (p : Plan) : Type 0 where
  pub same_start : r.current_start ≡ pos p.sysfs_linuxroot_start
  pub adjacent : p.sysfs_userdata_start ≡ p.sysfs_linuxroot_end + 1
  pub linuxroot_span : p.sysfs_linuxroot_start + p.sysfs_linuxroot_sectors ≡ p.sysfs_userdata_start
  pub userdata_span : p.sysfs_userdata_start + p.sysfs_userdata_sectors ≡ p.sysfs_userdata_end + 1
  pub same_size : r.current_sectors ≡ pos (p.sysfs_linuxroot_sectors + p.sysfs_userdata_sectors)
  pub inside : p.sysfs_userdata_end < p.sysfs_disk_sectors
  pub linuxroot_size : r.ubuntu_gib ≡ pos (p.sysfs_linuxroot_sectors / 2097152)
  pub userdata_size : 16 * 1073741824 ≤ p.sysfs_userdata_sectors * 512
  pub aligned : (p.sysfs_linuxroot_start % 2048 ≡ 0) × (p.sysfs_userdata_start % 2048 ≡ 0)

-- The plan of an accepted request splits the old partition into linuxroot, of the size asked for,
-- followed at once by userdata, of at least 16 GiB; together they have its start and its size,
-- lie inside the disk, and both start on a 1 MiB boundary.
pub plan_layout-Tiles : (r : Request) {p : Plan} → plan_layout r ≡ ok p → Tiles r p
plan_layout-Tiles r h =
    let (g, m, positive, a, e) = plan_layout_sound r h in rw e (unfold plan_of in ground arith)

-- Each boundary in 4096-byte (or other) GPT sectors is the sysfs boundary exactly: no rounding.
pub record IsExactOnGpt (p : Plan) : Type 0 where
  pub disk : p.gpt_disk_sectors * p.gpt_logical_sector_bytes ≡ p.sysfs_disk_sectors * 512
  pub linuxroot_first :
      p.gpt_linuxroot_start * p.gpt_logical_sector_bytes ≡ p.sysfs_linuxroot_start * 512
  pub linuxroot_last :
      (p.gpt_linuxroot_end + 1) * p.gpt_logical_sector_bytes ≡ (p.sysfs_linuxroot_end + 1) * 512
  pub userdata_first :
      p.gpt_userdata_start * p.gpt_logical_sector_bytes ≡ p.sysfs_userdata_start * 512
  pub userdata_last :
      (p.gpt_userdata_end + 1) * p.gpt_logical_sector_bytes ≡ (p.sysfs_userdata_end + 1) * 512
  pub adjacent : p.gpt_userdata_start ≡ p.gpt_linuxroot_end + 1

-- In a returned plan every start, every end and the disk size, given in GPT logical sectors,
-- denote exactly the bytes that the 512-byte sysfs numbers denote, and userdata follows linuxroot
-- there too.
pub plan_layout-IsExactOnGpt : (r : Request) {p : Plan} → plan_layout r ≡ ok p → IsExactOnGpt p
plan_layout-IsExactOnGpt r h =
    let (g, m, positive, a, e) = plan_layout_sound r h in
    let bytes = g.gpt_logical_sector_bytes in
    let split = g.current_start + g.ubuntu_gib * 2097152 in
    let stop = g.current_start + g.current_sectors in
    rw e (
      unfold plan_of in
      ground (
        arith,
        exact_quotient (g.disk_sectors * 512) bytes,
        exact_quotient (g.current_start * 512) bytes,
        exact_quotient (split * 512) bytes,
        exact_quotient (stop * 512) bytes,
      ))

-- A returned plan makes the ext4 file system fill linuxroot to the byte, and leaves blocks above
-- the minimum that the file system can be shrunk to.
pub plan_layout-ext4_fills :
    (r : Request) {p : Plan}
    → plan_layout r ≡ ok p
    → (block : ℕ) × (r.ext4_block_bytes ≡ pos block)
      × (p.ext4_target_blocks * block ≡ p.sysfs_linuxroot_sectors * 512)
      × (0 < p.ext4_headroom_blocks)
      × (p.ext4_target_blocks ≡ p.ext4_minimum_blocks + p.ext4_headroom_blocks)
plan_layout-ext4_fills r h =
    let (g, m, positive, a, e) = plan_layout_sound r h in
    rw e (
      unfold plan_of in
      (
        g.ext4_block_bytes,
        m.ext4_block_bytes,
        ground (arith, exact_quotient (g.ubuntu_gib * 1073741824) g.ext4_block_bytes),
        ground arith,
        ground arith,
      ))
