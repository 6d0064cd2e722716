-- ===== src/SuperImage.antt =====
-- tools/extract_dynamic_partition.py: reading a super image that is raw or an Android sparse
-- file, and extracting one logical partition from it. The file is the list of its bytes.
pub mod Sparse
pub mod Logical
pub mod Total
pub mod Metadata
mod Scenarios
use ubuntu_install_on_samsun.Prelude.{
  ℕ, zero, suc, ◌+◌, ◌-◌, ◌*◌, ◌/◌, ◌%◌, min, not, ◌&&◌, ◌||◌, Option, none, some, List, [], ◌∷◌,
  ◌++◌, ltb, leb, ◌==◌, if◌then◌else◌, length, get_elem?, Result, ok, err, ◌>>=◌, ◌>>◌, raise_if,
}
use ubuntu_install_on_samsun.Prelude.Blob.{u16, u32, slice}

pub data ImageError : Type 0 where
  invalid_header truncated_chunk unknown_chunk invalid_raw invalid_fill size_mismatch : ImageError
  beyond_image invalid_offset span_gap truncated_payload out_of_fuel : ImageError

-- The chunk types 0xCAC1 to 0xCAC4.
pub data Kind : Type 0 where
  raw fill dont_care crc : Kind

abbrev pub kind_of : ℕ → Result ImageError Kind
kind_of n =
    if n == 51905
    then ok raw
    else if n == 51906
    then ok fill
    else if n == 51907
    then ok dont_care
    else if n == 51908
    then ok crc
    else err unknown_chunk

-- The logical range of a chunk, and where its payload stands in the file.
pub record Span : Type 0 where
  pub start : ℕ
  pub size : ℕ
  pub kind : Kind
  pub position : ℕ

-- `payload` is the chunk's total less its header, which may be negative; the two sides of each
-- comparison are moved so that none is.
abbrev pub check_payload : Kind → ℕ → ℕ → ℕ → Result ImageError (Unit {0})
check_payload raw total chunk_header size =
    raise_if (not (total == chunk_header + size)) invalid_raw
check_payload fill total chunk_header size = raise_if (not (total == chunk_header + 4)) invalid_fill
check_payload other total chunk_header size = ok tt

abbrev pub add_span : Span → List Span × ℕ → List Span × ℕ
add_span span (spans, logical) =
    if span.size == 0 then (spans, logical) else (span ∷ spans, logical)

-- The loop over the chunks. The next header stands `total` bytes behind this one.
unfoldable pub parse_chunks : List ℕ → ℕ → ℕ → ℕ → ℕ → ℕ → Result ImageError (List Span × ℕ)
parse_chunks file chunk_header block_size zero here logical = ok ([], logical)
parse_chunks file chunk_header block_size (suc chunks) here logical = do
  let header = slice file here chunk_header
  raise_if (not (length header == chunk_header)) truncated_chunk
  kind ← kind_of (u16 header 0)
  check_payload kind (u32 header 8) chunk_header (u32 header 4 * block_size)
  parsed ←
      parse_chunks file chunk_header block_size chunks (here + u32 header 8)
        (logical + u32 header 4 * block_size)
  ok (
      add_span
        (record {
          start = logical;
          size = u32 header 4 * block_size;
          kind = kind;
          position = here + chunk_header;
        })
        parsed)

unfoldable pub parse_sparse : List ℕ → Result ImageError (List Span)
unfolding parse_chunks
parse_sparse file = do
  raise_if
      (not (u32 file 0 == 3978755898)
        || not (u16 file 4 == 1)
        || ltb (u16 file 8) 28
        || ltb (u16 file 10) 12)
      invalid_header
  parsed ← parse_chunks file (u16 file 10) (u32 file 12) (u32 file 20) (u16 file 8) 0
  raise_if (not (parsed.1 == u32 file 16 * u32 file 12)) size_mismatch
  ok parsed.0

-- `ImageReader`: the file, and the spans of a sparse one.
pub record Reader : Type 0 where
  pub file : List ℕ
  pub spans : Option (List Span)

abbrev pub sparse_spans : List ℕ → Result ImageError Reader
unfolding parse_sparse
sparse_spans file = do spans ← parse_sparse file; ok (record { file = file; spans = some spans })

unfoldable pub new_reader : List ℕ → Result ImageError Reader
new_reader file =
    if leb 28 (length file) && u32 file 0 == 3978755898
    then sparse_spans file
    else ok (record { file = file; spans = none })

-- `bisect_right`, on starts that grow: how many are at most x.
abbrev pub bisect_right : List ℕ → ℕ → ℕ
bisect_right [] x = 0
bisect_right (y ∷ ys) x = let rest = bisect_right ys x in if leb y x then suc rest else 0

abbrev pub starts : List Span → List ℕ
starts [] = []
starts (span ∷ spans) = span.start ∷ starts spans

abbrev pub span_at : ℕ → List Span → Result ImageError Span
span_at zero spans = err invalid_offset
span_at (suc index) spans = elim (get_elem? spans index) [
  | some span ↦ ok span
  | none ↦ err invalid_offset
]

abbrev pub repeat : List ℕ → ℕ → List ℕ
repeat part zero = []
repeat part (suc n) = part ++ repeat part n

abbrev pub zeros : ℕ → List ℕ
zeros zero = []
zeros (suc n) = 0 ∷ zeros n

-- `count` bytes of a span from `within` on.
abbrev pub read_part : List ℕ → Kind → ℕ → ℕ → ℕ → List ℕ
read_part file raw position within count = slice file (position + within) count
read_part file fill position within count =
    slice (repeat (slice file position 4) ((within % 4 + count + 3) / 4)) (within % 4) count
read_part file other position within count = zeros count

-- The `while size` loop. Each round reads a byte or more.
unfoldable pub read_spans : ℕ → List ℕ → List Span → ℕ → ℕ → Result ImageError (List ℕ)
read_spans fuel file spans offset zero = ok []
read_spans zero file spans offset (suc more) = err out_of_fuel
read_spans (suc fuel) file spans offset (suc more) = do
  span ← span_at (bisect_right (starts spans) offset) spans
  let count = min (suc more) (span.start + span.size - offset)
  raise_if (count == 0) span_gap
  let part = read_part file span.kind span.position (offset - span.start) count
  raise_if (not (length part == count)) truncated_payload
  rest ← read_spans fuel file spans (offset + count) (suc more - count)
  ok (part ++ rest)

abbrev pub read_raw : List ℕ → ℕ → ℕ → Result ImageError (List ℕ)
read_raw file offset size = do
  raise_if (not (length (slice file offset size) == size)) beyond_image
  ok (slice file offset size)

abbrev pub read_image : Option (List Span) → List ℕ → ℕ → ℕ → Result ImageError (List ℕ)
unfolding read_spans
read_image none file offset size = read_raw file offset size
read_image (some spans) file offset size = read_spans size file spans offset size

unfoldable pub read : Reader → ℕ → ℕ → Result ImageError (List ℕ)
unfolding read_image
read reader offset size = read_image reader.spans reader.file offset size
