-- ===== src/SuperImage/Scenarios.antt =====
-- Small sparse images, and the metadata of one partition.
use ubuntu_install_on_samsun.Prelude.{
  ℕ, ◌+◌, ◌*◌, ◌<◌, ◌≡◌, refl, ◌≢◌, false, some, List, [], ◌∷◌, arith, length, ok, err, codes,
}
use ubuntu_install_on_samsun.Prelude.Blob.{byte}
use ubuntu_install_on_samsun.SuperImage.{
  ImageError, raw, fill, dont_care, Span, parse_chunks, parse_sparse, Reader, new_reader, repeat,
  zeros, read, read_spans, span_gap,
}
use ubuntu_install_on_samsun.SuperImage.Sparse.{AllPresent, logical_byte}
use ubuntu_install_on_samsun.SuperImage.Logical.{read-logical}
use ubuntu_install_on_samsun.SuperImage.Metadata.{
  out_of_fuel, image_failed, Partition, parse_extents, parse_partitions, parse_metadata,
  copy_extent, copy_extents, extract, dm_table,
}
use ubuntu_install_on_samsun.SuperImage.Metadata.Extraction.{extent_contents, extract-contents}
use ubuntu_install_on_samsun.SuperImage.Metadata.Total.{extract_total}
use ubuntu_install_on_samsun.SuperImage.Metadata.Opened.{image_byte, extract-dm_table}
use ubuntu_install_on_samsun.SuperImage.Metadata.Entries.{mapped}

-- Blocks of four bytes: two stored, three filled, one of no content.
abbrev tiny : List ℕ
tiny =
    58 ∷ 255 ∷ 38 ∷ 237 ∷ 1 ∷ 0 ∷ 0 ∷ 0 ∷ 28 ∷ 0 ∷ 12 ∷ 0 ∷ 4 ∷ 0 ∷ 0 ∷ 0 ∷ 6 ∷ 0 ∷ 0 ∷ 0 ∷ 3 ∷ 0
    ∷ 0 ∷ 0 ∷ 0 ∷ 0 ∷ 0 ∷ 0 ∷ 193 ∷ 202 ∷ 0 ∷ 0 ∷ 2 ∷ 0 ∷ 0 ∷ 0 ∷ 20 ∷ 0 ∷ 0 ∷ 0 ∷ 10 ∷ 11 ∷ 12 ∷ 13
    ∷ 14 ∷ 15 ∷ 16 ∷ 17 ∷ 194 ∷ 202 ∷ 0 ∷ 0 ∷ 3 ∷ 0 ∷ 0 ∷ 0 ∷ 16 ∷ 0 ∷ 0 ∷ 0 ∷ 1 ∷ 2 ∷ 3 ∷ 4 ∷ 195
    ∷ 202 ∷ 0 ∷ 0 ∷ 1 ∷ 0 ∷ 0 ∷ 0 ∷ 12 ∷ 0 ∷ 0 ∷ 0 ∷ []

abbrev tiny_spans : List Span
tiny_spans =
    record { start = 0; size = 8; kind = raw; position = 40 }
    ∷ record { start = 8; size = 12; kind = fill; position = 60 }
    ∷ record { start = 20; size = 4; kind = dont_care; position = 76 }
    ∷ []

tiny_parses : parse_sparse tiny ≡ ok tiny_spans
unfolding parse_sparse parse_chunks
tiny_parses = refl

tiny_opens : new_reader tiny ≡ ok (record { file = tiny; spans = some tiny_spans })
unfolding new_reader parse_sparse parse_chunks
tiny_opens = refl

abbrev tiny_reader : Reader
tiny_reader = record { file = tiny; spans = some tiny_spans }

tiny_present : AllPresent tiny tiny_spans
tiny_present = (omega arith, (omega arith, (tt, tt)))

-- Fifteen bytes across the three chunks.
tiny_read :
    read tiny_reader 6 15 ≡ ok (16 ∷ 17 ∷ 1 ∷ 2 ∷ 3 ∷ 4 ∷ 1 ∷ 2 ∷ 3 ∷ 4 ∷ 1 ∷ 2 ∷ 3 ∷ 4 ∷ 0 ∷ [])
unfolding read read_spans
tiny_read = refl

tiny_gap : read tiny_reader 20 5 ≡ err span_gap
unfolding read read_spans
tiny_gap = refl

read-logical_example :
    (bs : List ℕ) × (read tiny_reader 6 15 ≡ ok bs)
    × (length bs ≡ 15)
    × ((k : ℕ) → k < 15 → byte bs k ≡ logical_byte tiny tiny_spans (6 + k))
read-logical_example = read-logical tiny tiny_spans 6 15 tiny_parses tiny_present (omega arith)

-- Blocks of a sector: one of no content, two filled.
abbrev filled : List ℕ
filled =
    58 ∷ 255 ∷ 38 ∷ 237 ∷ 1 ∷ 0 ∷ 0 ∷ 0 ∷ 28 ∷ 0 ∷ 12 ∷ 0 ∷ 0 ∷ 2 ∷ 0 ∷ 0 ∷ 3 ∷ 0 ∷ 0 ∷ 0 ∷ 2 ∷ 0
    ∷ 0 ∷ 0 ∷ 0 ∷ 0 ∷ 0 ∷ 0 ∷ 195 ∷ 202 ∷ 0 ∷ 0 ∷ 1 ∷ 0 ∷ 0 ∷ 0 ∷ 12 ∷ 0 ∷ 0 ∷ 0 ∷ 194 ∷ 202 ∷ 0 ∷ 0
    ∷ 2 ∷ 0 ∷ 0 ∷ 0 ∷ 16 ∷ 0 ∷ 0 ∷ 0 ∷ 7 ∷ 8 ∷ 9 ∷ 6 ∷ []

abbrev filled_spans : List Span
filled_spans =
    record { start = 0; size = 512; kind = dont_care; position = 40 }
    ∷ record { start = 512; size = 1024; kind = fill; position = 52 }
    ∷ []

filled_parses : parse_sparse filled ≡ ok filled_spans
unfolding parse_sparse parse_chunks
filled_parses = refl

abbrev system_a : Partition
system_a = record {
  name = codes "system_a";
  attributes = 1;
  group = 0;
  size = 512;
  extents = record { sectors = 1; physical_sector = 1 } ∷ [];
}

abbrev filled_reader : Reader
filled_reader = record { file = filled; spans = some filled_spans }

abbrev one_sector : List ℕ
one_sector = repeat (7 ∷ 8 ∷ 9 ∷ 6 ∷ []) 128

system_a_extracted : extract filled_reader system_a false ≡ ok one_sector
unfolding extract copy_extents copy_extent read read_spans
system_a_extracted = refl

extract-contents_example :
    (one_sector ≡ extent_contents (logical_byte filled filled_spans) system_a.extents)
    × (false ≡ false)
extract-contents_example =
    extract-contents filled filled_spans system_a false one_sector filled_parses
      (tt, (omega arith, tt)) system_a_extracted

extract_total_example :
    (extract filled_reader system_a false ≢ err out_of_fuel)
    × (extract filled_reader system_a false ≢ err (image_failed ImageError.out_of_fuel))
extract_total_example = extract_total filled_reader system_a false

-- Geometry, header and tables as they stand in the file, and a digest of zeros.
abbrev stored : List ℕ
stored =
    103 ∷ 68 ∷ 108 ∷ 97 ∷ 52 ∷ 0 ∷ 0 ∷ 0 ∷ 0 ∷ 0 ∷ 0 ∷ 0 ∷ 0 ∷ 0 ∷ 0 ∷ 0 ∷ 0 ∷ 0 ∷ 0 ∷ 0 ∷ 0 ∷ 0 ∷ 0
    ∷ 0 ∷ 0 ∷ 0 ∷ 0 ∷ 0 ∷ 0 ∷ 0 ∷ 0 ∷ 0 ∷ 0 ∷ 0 ∷ 0 ∷ 0 ∷ 0 ∷ 0 ∷ 0 ∷ 0 ∷ 0 ∷ 0 ∷ 0 ∷ 0 ∷ 0 ∷ 0 ∷ 0
    ∷ 0 ∷ 0 ∷ 0 ∷ 0 ∷ 0 ∷ 48 ∷ 80 ∷ 76 ∷ 65 ∷ 10 ∷ 0 ∷ 0 ∷ 0 ∷ 128 ∷ 0 ∷ 0 ∷ 0 ∷ 0 ∷ 0 ∷ 0 ∷ 0 ∷ 0
    ∷ 0 ∷ 0 ∷ 0 ∷ 0 ∷ 0 ∷ 0 ∷ 0 ∷ 0 ∷ 0 ∷ 0 ∷ 0 ∷ 0 ∷ 0 ∷ 0 ∷ 0 ∷ 0 ∷ 0 ∷ 0 ∷ 0 ∷ 0 ∷ 0 ∷ 0 ∷ 0 ∷ 0
    ∷ 0 ∷ 0 ∷ 0 ∷ 76 ∷ 0 ∷ 0 ∷ 0 ∷ 0 ∷ 0 ∷ 0 ∷ 0 ∷ 0 ∷ 0 ∷ 0 ∷ 0 ∷ 0 ∷ 0 ∷ 0 ∷ 0 ∷ 0 ∷ 0 ∷ 0 ∷ 0 ∷ 0
    ∷ 0 ∷ 0 ∷ 0 ∷ 0 ∷ 0 ∷ 0 ∷ 0 ∷ 0 ∷ 0 ∷ 0 ∷ 0 ∷ 0 ∷ 0 ∷ 0 ∷ 0 ∷ 0 ∷ 0 ∷ 0 ∷ 0 ∷ 1 ∷ 0 ∷ 0 ∷ 0 ∷ 52
    ∷ 0 ∷ 0 ∷ 0 ∷ 52 ∷ 0 ∷ 0 ∷ 0 ∷ 1 ∷ 0 ∷ 0 ∷ 0 ∷ 24 ∷ 0 ∷ 0 ∷ 0 ∷ 0 ∷ 0 ∷ 0 ∷ 0 ∷ 0 ∷ 0 ∷ 0 ∷ 0
    ∷ 0 ∷ 0 ∷ 0 ∷ 0 ∷ 0 ∷ 0 ∷ 0 ∷ 0 ∷ 0 ∷ 0 ∷ 0 ∷ 0 ∷ 0 ∷ 0 ∷ 0 ∷ 0 ∷ 115 ∷ 121 ∷ 115 ∷ 116 ∷ 101
    ∷ 109 ∷ 95 ∷ 97 ∷ 0 ∷ 0 ∷ 0 ∷ 0 ∷ 0 ∷ 0 ∷ 0 ∷ 0 ∷ 0 ∷ 0 ∷ 0 ∷ 0 ∷ 0 ∷ 0 ∷ 0 ∷ 0 ∷ 0 ∷ 0 ∷ 0 ∷ 0
    ∷ 0 ∷ 0 ∷ 0 ∷ 0 ∷ 0 ∷ 0 ∷ 0 ∷ 0 ∷ 1 ∷ 0 ∷ 0 ∷ 0 ∷ 0 ∷ 0 ∷ 0 ∷ 0 ∷ 1 ∷ 0 ∷ 0 ∷ 0 ∷ 0 ∷ 0 ∷ 0 ∷ 0
    ∷ 1 ∷ 0 ∷ 0 ∷ 0 ∷ 0 ∷ 0 ∷ 0 ∷ 0 ∷ 0 ∷ 0 ∷ 0 ∷ 0 ∷ 1 ∷ 0 ∷ 0 ∷ 0 ∷ 0 ∷ 0 ∷ 0 ∷ 0 ∷ 0 ∷ 0 ∷ 0 ∷ 0
    ∷ []

abbrev metadata_reader : Reader
metadata_reader = record {
  file = stored;
  spans = some (
      record { start = 0; size = 4096; kind = dont_care; position = 0 }
      ∷ record { start = 4096; size = 52; kind = raw; position = 0 }
      ∷ record { start = 4148; size = 8140; kind = dont_care; position = 0 }
      ∷ record { start = 12288; size = 204; kind = raw; position = 52 }
      ∷ []);
}

abbrev digest_of : List ℕ → List ℕ
digest_of m = zeros 32

metadata_parses : parse_metadata digest_of metadata_reader ≡ ok (system_a ∷ [])
unfolding parse_metadata parse_partitions parse_extents read read_spans
metadata_parses = refl

filled_opens : new_reader filled ≡ ok filled_reader
unfolding new_reader parse_sparse parse_chunks
filled_opens = refl

extract-dm_table_example :
    byte one_sector (0 * 512 + 130)
    ≡ image_byte filled_reader (mapped (dm_table 0 system_a.extents) 0 * 512 + 130)
extract-dm_table_example =
    extract-dm_table filled filled_reader system_a false one_sector 0 130 filled_opens
      (tt, (omega arith, tt)) system_a_extracted (omega arith) (omega arith)
