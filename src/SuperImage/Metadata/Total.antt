-- ===== src/SuperImage/Metadata/Total.antt =====
-- The copy of a partition ends: the rounds of its loops are enough for every image.
use ubuntu_install_on_samsun.Prelude.{
  ℕ, zero, suc, ◌+◌, ◌-◌, ◌*◌, ◌≤◌, min, ◌≡◌, ap, ◌≢◌, inl, inr, Bool, List, [], ◌∷◌, arith, length,
  Result, ok, err, raise_if, went_wrong, raise_if_spares,
}
use ubuntu_install_on_samsun.SuperImage.{ImageError, Reader, read}
use ubuntu_install_on_samsun.SuperImage.Total.{read_total}
use ubuntu_install_on_samsun.SuperImage.Metadata.{
  MetadataError, out_of_fuel, output_exists, from_image, image_failed, Extent, Partition,
  copy_extent, copy_extents, extract,
}
use ubuntu_install_on_samsun.SuperImage.Metadata.Extraction.{from_image-ok, read-length}

-- An error that no read raises, the copy does not raise either, nor does it run out of fuel.
module _ (reader : Reader) (e : MetadataError) (other : output_exists ≢ e)
    (reads_spare : (offset size : ℕ) → from_image (read reader offset size) ≢ err e) where
  copy_extent_spares :
      (fuel offset remaining : ℕ)
      → remaining ≤ fuel
      → copy_extent fuel reader offset remaining ≢ err e
  unfolding copy_extent
  copy_extent_spares fuel offset zero le h = absurd (cc)
  copy_extent_spares zero offset (suc more) le h = absurd (omega arith)
  copy_extent_spares (suc fuel) offset (suc more) le h =
      let size = min 4194304 (suc more) in
      elim (went_wrong (from_image (read reader offset size)) _ h) [
        | inl first ↦ reads_spare offset size first
        | inr (part, done, h₁) ↦
            let long =
              read-length reader offset size part
                (from_image-ok (read reader offset size) part done) in
            elim (went_wrong
              (copy_extent fuel reader (offset + length part) (suc more - length part)) _ h₁) [
                | inl later ↦
                    copy_extent_spares fuel (offset + length part) (suc more - length part)
                      (omega arith) later
                | inr (rest, copied, h₂) ↦ absurd (cc)
              ]
      ]

  copy_extents_spares : (es : List Extent) → copy_extents reader es ≢ err e
  unfolding copy_extents
  copy_extents_spares [] h = absurd (cc)
  copy_extents_spares (x ∷ es) h =
      let copied =
        copy_extent (x.sectors * 512) reader (x.physical_sector * 512) (x.sectors * 512) in
      elim (went_wrong copied _ h) [
        | inl first ↦
            copy_extent_spares (x.sectors * 512) (x.physical_sector * 512) (x.sectors * 512)
              (omega arith) first
        | inr (part, done, h₁) ↦ elim (went_wrong (copy_extents reader es) _ h₁) [
          | inl later ↦ copy_extents_spares es later
          | inr (rest, all, h₂) ↦ absurd (cc)
        ]
      ]

  extract_spares : (partition : Partition) (exists : Bool) → extract reader partition exists ≢ err e
  unfolding extract
  extract_spares partition exists h = elim (went_wrong (raise_if exists output_exists) _ h) [
    | inl there ↦ raise_if_spares exists output_exists e other there
    | inr (u, absent, h₁) ↦ copy_extents_spares partition.extents h₁
  ]

from_image_spares :
    {A : Type 0} (r : Result ImageError A)
    → r ≢ err ImageError.out_of_fuel
    → (from_image r ≢ err out_of_fuel) × (from_image r ≢ err (image_failed ImageError.out_of_fuel))
from_image_spares (ok value) h = (λ k. absurd (cc), λ k. absurd (cc))
from_image_spares (err raised) h = (
  λ k. absurd (cc),
  λ k. let same_error : raised ≡ ImageError.out_of_fuel = cc in h (ap err same_error),
)

-- The copy of every partition from every image ends with bytes or an error of the code: neither
-- the loop of a copy nor that of a sparse read runs out of its rounds.
pub extract_total :
    (reader : Reader) (partition : Partition) (exists : Bool)
    → (extract reader partition exists ≢ err out_of_fuel)
      × (extract reader partition exists ≢ err (image_failed ImageError.out_of_fuel))
extract_total reader partition exists = (
  extract_spares reader out_of_fuel (λ k. absurd (cc))
      (λ offset size.
        (from_image_spares (read reader offset size) (read_total reader offset size)).0)
      partition exists,
  extract_spares reader (image_failed ImageError.out_of_fuel) (λ k. absurd (cc))
      (λ offset size.
        (from_image_spares (read reader offset size) (read_total reader offset size)).1)
      partition exists,
)
