-- ===== src/ModuleAbi.antt =====
-- tools/audit_kernel_module_abi.py: the symbol versions of a kernel module against those that the
-- kernel exports. Files are lists of bytes; a dictionary is a list of its entries. A name decoded
-- from ASCII is the list of its codes, and so is a value of .modinfo.
pub mod Audit
pub mod Versions
mod Scenarios
use ubuntu_install_on_samsun.Prelude.Blob.{byte, u16, u32, slice}
use ubuntu_install_on_samsun.Prelude.{
  ℕ, zero, suc, ◌+◌, ◌-◌, ◌*◌, ◌/◌, ◌%◌, ◌^◌, ◌≤◌, ◌<◌, min, max, String, ◌≡◌, refl, sym, ap, ◌∙◌,
  ◌≢◌, ◌↔◌, ◌⊎◌, inl, inr, Bool, true, false, not, ◌&&◌, ◌||◌, Option, none, some, List, [], ◌∷◌,
  ◌++◌, map, append-nil, append_assoc, arith, ltb, leb, ◌==◌, if◌then◌else◌, Bool-cases,
  Option-cases, is_some, tests, ==→≡, length, get_elem?, take, drop, length-append,
  take-append-drop, All, Result, ok, err, ◌>>=◌, ◌>>◌, raise_if, went_through, Result-cases, ℤ, pos,
  negsuc, pos_part, neg_part, leb_ℤ, round_div, passes_below, table_entry, codes, is_ascii, same,
  same_refl, same→≡, is_digit, is_space, split, to_int, split_from, digits_value, lines_from,
}

pub data AbiError : Type 0 where
  too_short not_elf64 unsupported_table truncated_table invalid_name not_ascii : AbiError
  truncated_section not_whole empty_symbol not_32_bit malformed_line not_hexadecimal : AbiError
  no_versions : AbiError

abbrev pub Text : Type 0
Text = List ℕ

abbrev pub Dict : Type 0 → Type 0
Dict V = List (Text × V)

module _ {V : Type 0} where
  -- `key in d`, `d.get(key)`, and `d[key] = value`.
  abbrev pub find : Text → Dict V → Option V
  find key [] = none
  find key ((k, v) ∷ d) = if same k key then some v else find key d

  abbrev pub put : Text → V → Dict V → Dict V
  put key value [] = (key, value) ∷ []
  put key value ((k, v) ∷ d) = if same k key then (k, value) ∷ d else (k, v) ∷ put key value d

abbrev pub u64 : List ℕ → ℕ → ℕ
u64 data_bytes i = u32 data_bytes i + 2 ^ 32 * u32 data_bytes (i + 4)

-- `split(b"\0", 1)[0]`
abbrev pub until_zero : List ℕ → Text
until_zero [] = []
until_zero (c ∷ cs) = if c == 0 then [] else c ∷ until_zero cs

abbrev pub decoded : Text → Result AbiError Text
decoded name = raise_if (not (is_ascii name)) not_ascii >> ok name

-- The fields of a section header that are used.
pub record SectionHeader : Type 0 where
  pub name_offset : ℕ
  pub section_type : ℕ
  pub start : ℕ
  pub size : ℕ

abbrev header_at : List ℕ → ℕ → SectionHeader
header_at file offset = record {
  name_offset = u32 file offset;
  section_type = u32 file (offset + 4);
  start = u64 file (offset + 24);
  size = u64 file (offset + 32);
}

-- The headers from `offset` on; `left` is how many.
unfoldable pub headers_from : List ℕ → ℕ → ℕ → Result AbiError (List SectionHeader)
headers_from file zero offset = ok []
headers_from file (suc left) offset = do
  raise_if (ltb (length file) (offset + 64)) truncated_table
  rest ← headers_from file left (offset + 64)
  ok (header_at file offset ∷ rest)

-- The sections, with the names of the string table.
unfoldable pub sections_of :
    List ℕ → List ℕ → List SectionHeader → Dict (List ℕ) → Result AbiError (Dict (List ℕ))
sections_of file strings [] sections = ok sections
sections_of file strings (h ∷ headers) sections = do
  raise_if (leb (length strings) h.name_offset) invalid_name
  name ← decoded (until_zero (drop h.name_offset strings))
  raise_if (not (h.section_type == 8) && ltb (length file) (h.start + h.size)) truncated_section
  sections_of file strings headers
      (put name (if h.section_type == 8 then [] else slice file h.start h.size) sections)

abbrev header_or_none : Option SectionHeader → Result AbiError SectionHeader
header_or_none none = err unsupported_table
header_or_none (some h) = ok h

unfoldable pub elf_sections : List ℕ → Result AbiError (Dict (List ℕ))
unfolding headers_from sections_of
elf_sections file = do
  raise_if (ltb (length file) 64) too_short
  raise_if (not (same (take 4 file) (127 ∷ codes "ELF") && byte file 4 == 2 && byte file 5 == 1))
      not_elf64
  raise_if (not (u16 file 58 == 64) || leb (u16 file 60) (u16 file 62)) unsupported_table
  headers ← headers_from file (u16 file 60) (u64 file 40)
  strings ← header_or_none (get_elem? headers (u16 file 62))
  sections_of file (slice file strings.start strings.size) headers []

-- The records from `offset` on; `left` is how many.
unfoldable pub versions_from : List ℕ → ℕ → ℕ → Dict ℕ → Result AbiError (Dict ℕ)
versions_from blob zero offset versions = ok versions
versions_from blob (suc left) offset versions = do
  name ← decoded (until_zero (slice blob (offset + 8) 56))
  raise_if (same name []) empty_symbol
  raise_if (leb (2 ^ 32) (u64 blob offset)) not_32_bit
  versions_from blob left (offset + 64) (put name (u64 blob offset) versions)

unfoldable pub parse_versions_blob : List ℕ → Result AbiError (Dict ℕ)
unfolding versions_from
parse_versions_blob blob = do
  raise_if (not (length blob % 64 == 0)) not_whole
  versions_from blob (length blob / 64) 0 []

-- The items between zero bytes; `item` is the one so far.
unfoldable pub items_from : Text → List ℕ → List Text
items_from item [] = item ∷ []
items_from item (c ∷ cs) =
    let ended = item ∷ items_from [] cs in
    let longer = items_from (item ++ c ∷ []) cs in if c == 0 then ended else longer

abbrev with_key : ℕ → Option (Text × Text) → Option (Text × Text)
with_key c none = none
with_key c (some (key, value)) = some (c ∷ key, value)

-- The two sides of the first equals sign.
abbrev split_once : Text → Option (Text × Text)
split_once [] = none
split_once (c ∷ cs) = if c == 61 then some ([], cs) else with_key c (split_once cs)

abbrev pub add_item : Option (Text × Text) → Dict Text → Result AbiError (Dict Text)
add_item none info = ok info
add_item (some (key, value)) info = do name ← decoded key; ok (put name value info)

unfoldable pub modinfo_items : List Text → Dict Text → Result AbiError (Dict Text)
modinfo_items [] info = ok info
modinfo_items (item ∷ items) info = do
  more ← add_item (split_once item) info
  modinfo_items items more

abbrev pub parse_modinfo_blob : List ℕ → Result AbiError (Dict Text)
unfolding items_from modinfo_items
parse_modinfo_blob blob = modinfo_items (items_from [] blob) []

abbrev digit_16 : ℕ → Option ℕ
digit_16 c =
    if is_digit c
    then some (c - 48)
    else if leb 97 c && leb c 102
    then some (c - 87)
    else if leb 65 c && leb c 70
    then some (c - 55)
    else none

-- The digits of `int(…, 16)`, with single underscores between them; `after`: a digit stands
-- before.
unfoldable pub hex_digits : Bool → ℕ → Text → Option ℕ
hex_digits after n [] = if after then some n else none
hex_digits after n (c ∷ cs) =
    let skipped = hex_digits false n cs in
    elim (digit_16 c) [
      | some d ↦ hex_digits true (n * 16 + d) cs
      | none ↦ if after && c == 95 then skipped else none
    ]

abbrev after_prefix : Text → Option ℕ
unfolding hex_digits
after_prefix [] = none
after_prefix (c ∷ cs) = if c == 95 then hex_digits false 0 cs else hex_digits false 0 (c ∷ cs)

abbrev hex_unsigned : Text → Option ℕ
unfolding hex_digits after_prefix
hex_unsigned (c ∷ d ∷ cs) =
    if c == 48 && (d == 120 || d == 88) then after_prefix cs else hex_digits false 0 (c ∷ d ∷ cs)
hex_unsigned cs = hex_digits false 0 cs

abbrev as_int : Bool → Option ℕ → Result AbiError ℤ
as_int minus none = err not_hexadecimal
as_int minus (some zero) = ok (pos 0)
as_int minus (some (suc n)) = ok (if minus then negsuc n else pos (suc n))

-- `int(token, 16)`
abbrev pub to_int_16 : Text → Result AbiError ℤ
unfolding hex_unsigned
to_int_16 [] = err not_hexadecimal
to_int_16 (c ∷ cs) =
    if c == 45
    then as_int true (hex_unsigned cs)
    else if c == 43
    then as_int false (hex_unsigned cs)
    else as_int false (hex_unsigned (c ∷ cs))

abbrev pub add_line : List Text → Dict ℤ → Result AbiError (Dict ℤ)
unfolding to_int_16
add_line [] exports = ok exports
add_line (field ∷ []) exports = err malformed_line
add_line (field ∷ name ∷ fields) exports = do crc ← to_int_16 field; ok (put name crc exports)

unfoldable pub parse_symvers_lines : List Text → Dict ℤ → Result AbiError (Dict ℤ)
unfolding add_line
parse_symvers_lines [] exports = ok exports
parse_symvers_lines (line ∷ lines) exports = do
  more ← add_line (split line) exports
  parse_symvers_lines lines more

abbrev pub parse_symvers_text : Text → Result AbiError (Dict ℤ)
unfolding parse_symvers_lines
parse_symvers_text text = parse_symvers_lines (lines_from [] text) []

-- `sorted` on texts.
abbrev pub text_leb : Text → Text → Bool
text_leb [] ys = true
text_leb (x ∷ xs) [] = false
text_leb (x ∷ xs) (y ∷ ys) = ltb x y || (x == y && text_leb xs ys)

abbrev pub insert : Text → List Text → List Text
insert x [] = x ∷ []
insert x (y ∷ ys) = if text_leb x y then x ∷ y ∷ ys else y ∷ insert x ys

abbrev pub sorted : List Text → List Text
sorted [] = []
sorted (x ∷ xs) = insert x (sorted xs)

abbrev pub crc_differs : ℕ → ℤ → Bool
crc_differs crc (pos n) = not (n == crc)
crc_differs crc (negsuc n) = true

abbrev pub mismatch : ℕ → Option ℤ → Bool
mismatch crc none = false
mismatch crc (some export) = crc_differs crc export

abbrev pub missing_names : Dict ℕ → Dict ℤ → List Text
missing_names [] exports = []
missing_names ((name, crc) ∷ imports) exports =
    if is_some (find name exports)
    then missing_names imports exports
    else name ∷ missing_names imports exports

abbrev pub mismatched_names : Dict ℕ → Dict ℤ → List Text
mismatched_names [] exports = []
mismatched_names ((name, crc) ∷ imports) exports =
    if mismatch crc (find name exports)
    then name ∷ mismatched_names imports exports
    else mismatched_names imports exports

unfoldable pub audit : Dict ℕ → Dict ℤ → List Text × List Text
audit imports exports =
    (sorted (missing_names imports exports), sorted (mismatched_names imports exports))

abbrev section_or_empty : Option (List ℕ) → List ℕ
section_or_empty none = []
section_or_empty (some section) = section

abbrev section_or_raise : Option (List ℕ) → Result AbiError (List ℕ)
section_or_raise none = err no_versions
section_or_raise (some section) = ok section

unfoldable pub read_module : List ℕ → Result AbiError (Dict ℕ × Dict Text)
unfolding elf_sections parse_versions_blob parse_modinfo_blob
read_module file = do
  sections ← elf_sections file
  section ← section_or_raise (find (codes "__versions") sections)
  versions ← parse_versions_blob section
  info ← parse_modinfo_blob (section_or_empty (find (codes ".modinfo") sections))
  ok (versions, info)
