-- ===== src/SuperImage/Metadata/Extraction.antt =====
-- What an extraction writes: the bytes of the partition's extents, one behind the other.
use mathlib.Core.Path.{subst}
use ubuntu_install_on_samsun.Prelude.{
  ℕ, zero, suc, ◌+◌, ◌-◌, ◌*◌, ◌<◌, min, ◌≡◌, refl, sym, ap, ◌∙◌, Bool, false, not, Option, none,
  some, List, [], ◌∷◌, ◌++◌, arith, ◌==◌, length, length-append, Result, ok, err, raise_if,
  went_through,
}
use ubuntu_install_on_samsun.Prelude.Blob.{byte, slice}
use ubuntu_install_on_samsun.SuperImage.{
  ImageError, span_gap, truncated_payload, beyond_image, Span, Reader, bisect_right, starts,
  span_at, read_part, read_spans, read_image, read, parse_sparse,
}
use ubuntu_install_on_samsun.SuperImage.Sparse.{AllPresent, logical_byte}
use ubuntu_install_on_samsun.SuperImage.Logical.{read-logical, read_inside, joined_bytes}
use ubuntu_install_on_samsun.SuperImage.Metadata.{
  output_exists, from_image, Extent, Partition, copy_extent, copy_extents, extract,
}

pub from_image-ok :
    {A : Type 0} (r : Result ImageError A) (value : A) → from_image r ≡ ok value → r ≡ ok value
from_image-ok (ok v) value h = cc
from_image-ok (err e) value h = cc

read_spans-length :
    (fuel : ℕ) (file : List ℕ) (spans : List Span) (offset size : ℕ) (bs : List ℕ)
    → read_spans fuel file spans offset size ≡ ok bs
    → length bs ≡ size
unfolding read_spans
read_spans-length fuel file spans offset zero bs h = ground arith
read_spans-length zero file spans offset (suc more) bs h = cc
read_spans-length (suc fuel) file spans offset (suc more) bs h =
    let (s, e₁, r₁) = went_through (span_at (bisect_right (starts spans) offset) spans) _ h in
    let count = min (suc more) (s.start + s.size - offset) in
    let (u, e₂, r₂) = went_through (raise_if (count == 0) span_gap) _ r₁ in
    let part = read_part file s.kind s.position (offset - s.start) count in
    let (v, e₃, r₃) = went_through (raise_if (not (length part == count)) truncated_payload) _ r₂ in
    let (rest, e₄, r₄) =
      went_through (read_spans fuel file spans (offset + count) (suc more - count)) _ r₃ in
    let later = read_spans-length fuel file spans (offset + count) (suc more - count) rest e₄ in
    let whole : length part ≡ count = ground arith in
    let joined : part ++ rest ≡ bs = cc in
    subst (λ x. length x ≡ suc more) joined (omega (arith, length-append part rest))

read_image-length :
    (spans : Option (List Span)) (file : List ℕ) (offset size : ℕ) (bs : List ℕ)
    → read_image spans file offset size ≡ ok bs
    → length bs ≡ size
unfolding read_image
read_image-length none file offset size bs h =
    let (u, e, r) =
      went_through (raise_if (not (length (slice file offset size) == size)) beyond_image) _ h in
    let same_bytes : slice file offset size ≡ bs = cc in
    subst (λ x. length x ≡ size) same_bytes (ground arith)
read_image-length (some spans) file offset size bs h =
    read_spans-length size file spans offset size bs h

-- A read that succeeds gives as many bytes as were asked for, from a raw and from a sparse image.
pub read-length :
    (reader : Reader) (offset size : ℕ) (bs : List ℕ)
    → read reader offset size ≡ ok bs
    → length bs ≡ size
unfolding read
read-length reader offset size bs h = read_image-length reader.spans reader.file offset size bs h

-- The reads of a reader give the bytes of one content.
abbrev pub Reads : Reader → (ℕ → ℕ) → Type 0
Reads reader content =
    (offset size : ℕ) (bs : List ℕ)
    → read reader offset size ≡ ok bs
    → (k : ℕ) → k < size
    → byte bs k ≡ content (offset + k)

-- The content from one address on, and the content of some extents in order.
abbrev pub range : (ℕ → ℕ) → ℕ → ℕ → List ℕ
range content offset zero = []
range content offset (suc n) = content offset ∷ range content (suc offset) n

abbrev pub extent_contents : (ℕ → ℕ) → List Extent → List ℕ
extent_contents content [] = []
extent_contents content (e ∷ es) =
    range content (e.physical_sector * 512) (e.sectors * 512) ++ extent_contents content es

range_unique :
    (content : ℕ → ℕ) (bs : List ℕ) (offset n : ℕ)
    → length bs ≡ n
    → ((k : ℕ) → k < n → byte bs k ≡ content (offset + k))
    → bs ≡ range content offset n
range_unique content [] offset zero l h = refl
range_unique content [] offset (suc n) l h = absurd (omega arith)
range_unique content (b ∷ bs) offset zero l h = absurd (omega arith)
range_unique content (b ∷ bs) offset (suc n) l h =
    let first : b ≡ content offset = h 0 (omega arith) ∙ ap content (omega arith) in
    let rest =
      range_unique content bs (suc offset) n (omega arith)
        (λ k s. h (suc k) (omega arith) ∙ ap content (omega arith)) in
    rw (first, rest) refl

module _ (reader : Reader) (content : ℕ → ℕ) (reads : Reads reader content) where
  copy_extent-bytes :
      (fuel offset remaining : ℕ) (bs : List ℕ)
      → copy_extent fuel reader offset remaining ≡ ok bs
      → (length bs ≡ remaining) × ((k : ℕ) → k < remaining → byte bs k ≡ content (offset + k))
  unfolding copy_extent
  copy_extent-bytes fuel offset zero bs h = (ground arith, λ k l. absurd (omega arith))
  copy_extent-bytes zero offset (suc more) bs h = cc
  copy_extent-bytes (suc fuel) offset (suc more) bs h =
      let size = min 4194304 (suc more) in
      let (part, e₁, r₁) = went_through (from_image (read reader offset size)) _ h in
      let (rest, e₂, r₂) =
        went_through (copy_extent fuel reader (offset + length part) (suc more - length part)) _
          r₁ in
      let done = from_image-ok (read reader offset size) part e₁ in
      let part_size = read-length reader offset size part done in
      let (rest_size, rest_bytes) =
        copy_extent-bytes fuel (offset + length part) (suc more - length part) rest e₂ in
      let joined : part ++ rest ≡ bs = cc in
      subst
        (λ x. (length x ≡ suc more) × ((k : ℕ) → k < suc more → byte x k ≡ content (offset + k)))
        joined
        (
          omega (arith, length-append part rest),
          joined_bytes content part rest offset (length part) (suc more) refl
              (λ k l. reads offset size part done k (omega (arith, l, part_size))) rest_bytes,
        )

  pub copy_extents-contents :
      (es : List Extent) (bs : List ℕ)
      → copy_extents reader es ≡ ok bs
      → bs ≡ extent_contents content es
  unfolding copy_extents
  copy_extents-contents [] bs h = cc
  copy_extents-contents (e ∷ es) bs h =
      let (part, e₁, r₁) =
        went_through
          (copy_extent (e.sectors * 512) reader (e.physical_sector * 512) (e.sectors * 512)) _ h in
      let (rest, e₂, r₂) = went_through (copy_extents reader es) _ r₁ in
      let (size, bytes) =
        copy_extent-bytes (e.sectors * 512) (e.physical_sector * 512) (e.sectors * 512) part e₁ in
      let first =
        range_unique content part (e.physical_sector * 512) (e.sectors * 512) size bytes in
      let later = copy_extents-contents es rest e₂ in
      let joined : bs ≡ part ++ rest = cc in joined ∙ rw (sym first, sym later) refl

-- The reads of a sparse image give its logical bytes.
pub sparse-Reads :
    (file : List ℕ) (spans : List Span)
    → parse_sparse file ≡ ok spans
    → AllPresent file spans
    → Reads (record { file = file; spans = some spans }) (logical_byte file spans)
sparse-Reads file spans parsed present offset size bs h k l =
    let inside = read_inside file spans offset size bs parsed (omega arith) h in
    let (all, again, long, bytes) = read-logical file spans offset size parsed present inside in
    let same_bytes : all ≡ bs = cc in ap (λ x. byte x k) (sym same_bytes) ∙ bytes k l

-- An extraction from a sparse image whose payloads all stand in the file, if it succeeds, writes
-- exactly the logical bytes of the partition's extents in their order, and the output was new.
pub extract-contents :
    (file : List ℕ) (spans : List Span) (partition : Partition) (exists : Bool) (bs : List ℕ)
    → parse_sparse file ≡ ok spans
    → AllPresent file spans
    → extract (record { file = file; spans = some spans }) partition exists ≡ ok bs
    → (bs ≡ extent_contents (logical_byte file spans) partition.extents) × (exists ≡ false)
unfolding extract
extract-contents file spans partition exists bs parsed present h =
    let reader : Reader = record { file = file; spans = some spans } in
    let (u, e, r) = went_through (raise_if exists output_exists) _ h in
    (
      copy_extents-contents reader (logical_byte file spans)
          (sparse-Reads file spans parsed present) partition.extents bs r,
      ground arith,
    )
