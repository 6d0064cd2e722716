-- ===== src/SuperImage/Metadata/Entries.antt =====
-- The partitions that the metadata tables yield, and the device-mapper table of one.
use mathlib.Core.Path.{subst}
use ubuntu_install_on_samsun.Prelude.{
  ok_value, is_ascii, ℕ, zero, suc, ◌+◌, ◌-◌, ◌*◌, ◌<◌, ◌≡◌, refl, ap, ◌∙◌, inl, inr, true, false,
  not, ◌||◌, List, [], ◌∷◌, arith, ltb, ◌==◌, if◌then◌else◌, Bool-cases, length, All, ok, raise_if,
  went_through, same,
}
use ubuntu_install_on_samsun.Prelude.Blob.{byte, u32, slice, byte-append}
use ubuntu_install_on_samsun.SuperImage.{Reader, read}
use ubuntu_install_on_samsun.SuperImage.Metadata.{
  not_ascii, extent_overflow, invalid_geometry, geometry_checksum, invalid_metadata,
  header_checksum, table_checksum, unsupported_layout, from_image, Extent, Partition, check_room,
  u64, parse_extents, sectors_of, strip_zeros, parse_partitions, cleared, parse_metadata, dm_table,
}
use ubuntu_install_on_samsun.SuperImage.Metadata.Extraction.{extent_contents, range}

-- What holds of each partition that is listed.
pub record IsSound (p : Partition) : Type 0 where
  pub ascii_name : is_ascii p.name ≡ true
  pub whole_sectors : p.size ≡ sectors_of p.extents * 512
  pub no_empty_extent : All (λ e. 0 < e.sectors) p.extents

parse_extents-filled :
    (tables : List ℕ) (extent_offset number count : ℕ) (es : List Extent)
    → parse_extents tables extent_offset number count ≡ ok es
    → All (λ e. 0 < e.sectors) es × (length es ≡ count)
unfolding parse_extents
parse_extents-filled tables extent_offset number zero es h =
    subst (λ x. All (λ e. 0 < e.sectors) x × (length x ≡ 0)) (ok_value _ [] es refl h) (tt, refl)
parse_extents-filled tables extent_offset number (suc more) es h =
    let here = extent_offset + number * 24 in
    let (u, e₁, r₁) = went_through (check_room tables (here + 24)) _ h in
    let (v, e₂, r₂) =
      went_through
        (raise_if
          (not (u32 tables (here + 8) == 0)
            || not (u32 tables (here + 20) == 0)
            || u64 tables here == 0)
          _)
        _ r₁ in
    let (later, e₃, r₃) =
      went_through (parse_extents tables extent_offset (suc number) more) _ r₂ in
    let (filled, count) = parse_extents-filled tables extent_offset (suc number) more later e₃ in
    let first : 0 < u64 tables here = ground arith in
    subst (λ x. All (λ e. 0 < e.sectors) x × (length x ≡ suc more))
      (ok_value _
        (record { sectors = u64 tables here; physical_sector = u64 tables (here + 12) } ∷ later) es
        refl r₃)
      ((first, filled), omega (arith, count))

parse_partitions-IsSound :
    (tables : List ℕ) (part_offset extent_offset extent_count index count : ℕ) (ps : List Partition)
    → parse_partitions tables part_offset extent_offset extent_count index count ≡ ok ps
    → All IsSound ps × (length ps ≡ count)
unfolding parse_partitions
parse_partitions-IsSound tables part_offset extent_offset extent_count index zero ps h =
    subst (λ x. All IsSound x × (length x ≡ 0)) (ok_value _ [] ps refl h) (tt, refl)
parse_partitions-IsSound tables part_offset extent_offset extent_count index (suc more) ps h =
    let here = part_offset + index * 52 in
    let name = strip_zeros (slice tables here 36) in
    let (u, e₁, r₁) = went_through (check_room tables (here + 52)) _ h in
    let (v, e₂, r₂) = went_through (raise_if (not (is_ascii name)) not_ascii) _ r₁ in
    let (w, e₃, r₃) =
      went_through
        (raise_if (ltb extent_count (u32 tables (here + 40) + u32 tables (here + 44)))
          extent_overflow)
        _ r₂ in
    let (extents, e₄, r₄) =
      went_through
        (parse_extents tables extent_offset (u32 tables (here + 40)) (u32 tables (here + 44))) _
        r₃ in
    let (later, e₅, r₅) =
      went_through (parse_partitions tables part_offset extent_offset extent_count (suc index) more)
        _ r₄ in
    let (sound, count) =
      parse_partitions-IsSound tables part_offset extent_offset extent_count (suc index) more later
        e₅ in
    let p : Partition = record {
      name = name;
      attributes = u32 tables (here + 36);
      group = u32 tables (here + 48);
      size = sectors_of extents * 512;
      extents = extents;
    } in
    let named : is_ascii name ≡ true = ascii_of name e₂ in
    subst (λ x. All IsSound x × (length x ≡ suc more)) (ok_value _ (p ∷ later) ps refl r₅)
      (
        (
          record {
            ascii_name = named;
            whole_sectors = refl;
            no_empty_extent =
                (parse_extents-filled tables extent_offset (u32 tables (here + 40))
                  (u32 tables (here + 44)) extents e₄).0;
          },
          sound,
        ),
        omega (arith, count),
      )
  where
    ascii_of :
        (name : List ℕ) {u : Unit {0}}
        → raise_if (not (is_ascii name)) not_ascii ≡ ok u
        → is_ascii name ≡ true
    ascii_of name h = ground arith

-- Each partition of accepted metadata has an ASCII name, no empty extent, and as its size in bytes
-- 512 times the sectors of its extents.
pub parse_metadata-IsSound :
    (sha256 : List ℕ → List ℕ) (reader : Reader) (ps : List Partition)
    → parse_metadata sha256 reader ≡ ok ps
    → All IsSound ps
unfolding parse_metadata
parse_metadata-IsSound sha256 reader ps h =
    let (geometry, e₁, r₁) = went_through (from_image (read reader 4096 52)) _ h in
    let (t₁, e₂, r₂) =
      went_through
        (raise_if (not (u32 geometry 0 == 1634485351) || not (u32 geometry 4 == 52))
          invalid_geometry)
        _ r₁ in
    let (t₂, e₃, r₃) =
      went_through
        (raise_if (not (same (sha256 (cleared geometry 8)) (slice geometry 8 32)))
          geometry_checksum)
        _ r₂ in
    let (first, e₄, r₄) = went_through (from_image (read reader 12288 128)) _ r₃ in
    let (t₃, e₅, r₅) =
      went_through (raise_if (not (u32 first 0 == 1095520304)) invalid_metadata) _ r₄ in
    let (header, e₆, r₆) = went_through (from_image (read reader 12288 (u32 first 8))) _ r₅ in
    let (t₄, e₇, r₇) =
      went_through
        (raise_if (not (same (sha256 (cleared header 12)) (slice header 12 32))) header_checksum) _
        r₆ in
    let (t₅, e₈, r₈) = went_through (check_room header 48) _ r₇ in
    let (tables, e₉, r₉) =
      went_through (from_image (read reader (12288 + u32 first 8) (u32 header 44))) _ r₈ in
    let (t₆, f₁, s₁) =
      went_through (raise_if (not (same (sha256 tables) (slice header 48 32))) table_checksum) _
        r₉ in
    let (t₇, f₂, s₂) = went_through (check_room header 104) _ s₁ in
    let (t₈, f₃, s₃) =
      went_through
        (raise_if (not (u32 header 88 == 52) || not (u32 header 100 == 24)) unsupported_layout) _
        s₂ in
    (parse_partitions-IsSound tables (u32 header 80) (u32 header 92) (u32 header 96) 0
      (u32 header 84) ps s₃).0

-- The physical sector to which the rows of a device-mapper table send a logical one.
abbrev pub mapped : List (ℕ × (ℕ × ℕ)) → ℕ → ℕ
mapped [] x = 0
mapped ((logical, (count, physical)) ∷ rows) x =
    let later = mapped rows x in if ltb x (logical + count) then physical + (x - logical) else later

byte-range :
    (content : ℕ → ℕ) (offset n k : ℕ)
    → k < n
    → byte (range content offset n) k ≡ content (offset + k)
byte-range content offset zero k h = absurd (omega arith)
byte-range content offset (suc n) zero h = ap content (omega arith)
byte-range content offset (suc n) (suc k) h =
    byte-range content (suc offset) n k (omega arith) ∙ ap content (omega arith)

length-range : (content : ℕ → ℕ) (offset n : ℕ) → length (range content offset n) ≡ n
length-range content offset zero = refl
length-range content offset (suc n) = omega (arith, length-range content (suc offset) n)

mapped_from :
    (content : ℕ → ℕ) (es : List Extent) (logical sector within : ℕ)
    → sector < sectors_of es
    → within < 512
    → byte (extent_contents content es) (sector * 512 + within)
      ≡ content (mapped (dm_table logical es) (logical + sector) * 512 + within)
mapped_from content [] logical sector within h w = absurd (omega arith)
mapped_from content (e ∷ es) logical sector within h w =
    let first = range content (e.physical_sector * 512) (e.sectors * 512) in
    let size = length-range content (e.physical_sector * 512) (e.sectors * 512) in
    let whole = byte-append first (extent_contents content es) (sector * 512 + within) in
    elim (Bool-cases (ltb sector e.sectors)) [
      | inl here ↦
          let low : ltb (sector * 512 + within) (e.sectors * 512) ≡ true = ground arith in
          let row : ltb (logical + sector) (logical + e.sectors) ≡ true = ground arith in
          let inside =
            byte-range content (e.physical_sector * 512) (e.sectors * 512) (sector * 512 + within)
              (ground arith) in
          let place : e.physical_sector * 512 + (sector * 512 + within)
              ≡ (e.physical_sector + (logical + sector - logical)) * 512 + within =
            omega arith in
          whole ∙ rw (size, low) (rw row (inside ∙ ap content place))
      | inr later ↦
          let high : ltb (sector * 512 + within) (e.sectors * 512) ≡ false = ground arith in
          let row : ltb (logical + sector) (logical + e.sectors) ≡ false = ground arith in
          let rest =
            mapped_from content es (logical + e.sectors) (sector - e.sectors) within (ground arith)
              w in
          let place : sector * 512 + within - e.sectors * 512
              ≡ (sector - e.sectors) * 512 + within =
            ground arith in
          let same_sector : logical + e.sectors + (sector - e.sectors) ≡ logical + sector =
            ground arith in
          whole
          ∙ rw (size, high)
              (rw (row, place)
                (rest
                  ∙ ap (λ x. content (mapped (dm_table (logical + e.sectors) es) x * 512 + within))
                      same_sector))
    ]

-- The content of some extents is, byte by byte, what the rows of their device-mapper table map
-- the logical sectors to.
pub dm_table_agrees :
    (content : ℕ → ℕ) (es : List Extent) (sector within : ℕ)
    → sector < sectors_of es
    → within < 512
    → byte (extent_contents content es) (sector * 512 + within)
      ≡ content (mapped (dm_table 0 es) sector * 512 + within)
dm_table_agrees content es sector within h w =
    let same_sector : 0 + sector ≡ sector = omega arith in
    mapped_from content es 0 sector within h w
    ∙ ap (λ x. content (mapped (dm_table 0 es) x * 512 + within)) same_sector
