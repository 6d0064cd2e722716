-- ===== src/SuperImage/Metadata/Opened.antt =====
-- Extraction and device-mapper table of a partition, in an image that was opened.
use ubuntu_install_on_samsun.Prelude.{
  ℕ, ◌+◌, ◌*◌, ◌<◌, ◌≡◌, refl, sym, ap, ◌∙◌, inl, inr, Bool, not, ◌&&◌, Option, none, some, List,
  leb, ◌==◌, if◌then◌else◌, Bool-cases, length, Result, ok, raise_if, went_through, ok_value,
}
use mathlib.Core.Path.{subst}
use ubuntu_install_on_samsun.Prelude.Blob.{byte, slice, u32}
use ubuntu_install_on_samsun.SuperImage.{
  ImageError, beyond_image, Span, Reader, read_image, read, parse_sparse, sparse_spans, new_reader,
}
use ubuntu_install_on_samsun.SuperImage.Sparse.{AllPresent, logical_byte, byte-slice}
use ubuntu_install_on_samsun.SuperImage.Metadata.{
  output_exists, Partition, extract, sectors_of, dm_table,
}
use ubuntu_install_on_samsun.SuperImage.Metadata.Extraction.{
  Reads, sparse-Reads, copy_extents-contents,
}
use ubuntu_install_on_samsun.SuperImage.Metadata.Entries.{mapped, dm_table_agrees}

-- The reads of a raw image give the bytes of the file.
raw-Reads : (file : List ℕ) → Reads (record { file = file; spans = none }) (byte file)
unfolding read read_image
raw-Reads file offset size bs h k l =
    let (u, e, r) =
      went_through (raise_if (not (length (slice file offset size) == size)) beyond_image) _ h in
    let same_bytes : slice file offset size ≡ bs = cc in
    ap (λ x. byte x k) (sym same_bytes) ∙ byte-slice file offset size k l

-- The image's byte at an address: of the file, or of what the chunks of a sparse file describe.
abbrev pub image_byte : Reader → ℕ → ℕ
image_byte reader = byte_at reader.file reader.spans
  where
    byte_at : List ℕ → Option (List Span) → ℕ → ℕ
    byte_at file none = byte file
    byte_at file (some spans) = logical_byte file spans

-- The payloads of all chunks of a sparse file stand in it.
abbrev pub IsWhole : Reader → Type 0
IsWhole reader = present reader.file reader.spans
  where
    present : List ℕ → Option (List Span) → Type 0
    present file none = Unit
    present file (some spans) = AllPresent file spans

sparse_spans-Reads :
    (file : List ℕ) (reader : Reader)
    → sparse_spans file ≡ ok reader
    → IsWhole reader
    → Reads reader (image_byte reader)
unfolding sparse_spans
sparse_spans-Reads file reader h whole =
    let (spans, parsed, r) = went_through (parse_sparse file) _ h in
    let opened : Reader = record { file = file; spans = some spans } in
    let same_reader : opened ≡ reader = ok_value _ opened reader refl r in
    subst (λ x. IsWhole x → Reads x (image_byte x)) same_reader
      (λ present. sparse-Reads file spans parsed present) whole

new_reader-Reads :
    (file : List ℕ) (reader : Reader)
    → new_reader file ≡ ok reader
    → IsWhole reader
    → Reads reader (image_byte reader)
unfolding new_reader
new_reader-Reads file reader h whole =
    elim (Bool-cases (leb 28 (length file) && u32 file 0 == 3978755898)) [
      | inl sparse ↦
          sparse_spans-Reads file reader
            (sym (ap (λ (b : Bool). if b then sparse_spans file else plain) sparse) ∙ h) whole
      | inr raw_file ↦
          let opened : Reader = record { file = file; spans = none } in
          let here : ok opened ≡ ok reader =
            sym (ap (λ (b : Bool). if b then sparse_spans file else plain) raw_file) ∙ h in
          subst (λ x. Reads x (image_byte x)) (ok_value plain opened reader refl here)
            (raw-Reads file)
    ]
  where
    plain : Result ImageError Reader
    plain = ok (record { file = file; spans = none })

-- The device-mapper table and the extraction agree, for raw and for sparse images: what a
-- successful extraction writes at a place of the partition is the image's byte at the place to
-- which the table's rows map that sector. The payloads of a sparse file must all stand in it.
pub extract-dm_table :
    (file : List ℕ) (reader : Reader) (partition : Partition) (exists : Bool) (bs : List ℕ)
    (sector within : ℕ)
    → new_reader file ≡ ok reader
    → IsWhole reader
    → extract reader partition exists ≡ ok bs
    → sector < sectors_of partition.extents
    → within < 512
    → byte bs (sector * 512 + within)
      ≡ image_byte reader (mapped (dm_table 0 partition.extents) sector * 512 + within)
unfolding extract
extract-dm_table file reader partition exists bs sector within opened whole h s w =
    let (u, e, r) = went_through (raise_if exists output_exists) _ h in
    let contents =
      copy_extents-contents reader (image_byte reader) (new_reader-Reads file reader opened whole)
        partition.extents bs r in
    ap (λ x. byte x (sector * 512 + within)) contents
    ∙ dm_table_agrees (image_byte reader) partition.extents sector within s w
