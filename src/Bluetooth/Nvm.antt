-- ===== src/Bluetooth/Nvm.antt =====
-- The NVM image: walking its tags, the XML overrides, and the patch of address, UART and sleep
-- settings. A bytes object is a list of numbers below 256.
pub mod Tags
pub mod Writes
pub mod Flags
pub mod Patch
pub mod Overrides
use ubuntu_install_on_samsun.Prelude.{
  ℕ, zero, suc, ◌+◌, ◌-◌, Bool, true, false, not, ◌&&◌, ◌||◌, Option, none, some, List, [], ◌∷◌,
  ◌++◌, ltb, leb, ◌==◌, if◌then◌else◌, length, Result, ok, err, ◌>>=◌, ◌>>◌, raise_if, ℤ, pos,
  negsuc, leb_ℤ,
}
use Prim.Native.Nat.{bit_and, bit_or}
use mathlib.Core.List.{reverse}
use ubuntu_install_on_samsun.Prelude.Blob.{byte, u16, u24, set, splice}

pub data NvmError : Type 0 where
  not_nvm truncated_tlv truncated_header truncated_tag invalid_length out_of_fuel : NvmError
  absent_tag length_mismatch value_count offset_count offset_range unknown_change : NvmError
  byte_range index_range address_length uart_too_short sleep_too_short : NvmError

-- What the generator yields: the id, the offset of the data, and its length.
pub record Tag : Type 0 where
  pub id : ℕ
  pub start : ℕ
  pub size : ℕ

abbrev pub prepend : Tag → Result NvmError (List Tag) → Result NvmError (List Tag)
prepend tag (ok tags) = ok (tag ∷ tags)
prepend tag (err e) = err e

-- The `while offset < end` loop. A tag takes 12 bytes or more, so `end` rounds are enough.
unfoldable pub walk : ℕ → List ℕ → ℕ → ℕ → Result NvmError (List Tag)
walk zero blob offset end = err out_of_fuel
walk (suc fuel) blob offset end =
    let size = u16 blob (offset + 2) in
    let tag : Tag = record { id = u16 blob offset; start = offset + 12; size = size } in
    let rest = prepend tag (walk fuel blob (offset + 12 + size) end) in
    if ltb offset end
    then (if ltb end (offset + 12)
        then err truncated_header
        else if ltb end (offset + 12 + size)
        then err truncated_tag
        else rest)
    else if offset == end
    then ok []
    else err invalid_length

unfoldable pub iter_nvm_tags : List ℕ → Result NvmError (List Tag)
iter_nvm_tags blob = do
  raise_if (ltb (length blob) 4 || not (byte blob 0 == 2)) not_nvm
  raise_if (ltb (length blob) (u24 blob 1 + 4)) truncated_tlv
  walk (suc (u24 blob 1)) blob 4 (u24 blob 1 + 4)

-- The dictionary of the tags: of two with one id the later counts. `none` is KeyError.
unfoldable pub find_tag : ℕ → List Tag → Option Tag
find_tag id [] = none
find_tag id (tag ∷ tags) = elim (find_tag id tags) [
  | some later ↦ some later
  | none ↦ if tag.id == id then some tag else none
]

abbrev pub required : ℕ → List Tag → Result NvmError Tag
required id tags = elim (find_tag id tags) [ some tag ↦ ok tag | none ↦ err absent_tag ]

-- What ElementTree and `int` read from one child of the XML root: the number of an element
-- named Tag<number>, and the integers of its Length, Changes and Offset parts.
pub data ChangeType : Type 0 where
  entire default unknown : ChangeType

pub record Override : Type 0 where
  pub tag_number : Option ℕ
  pub expected_len : ℤ
  pub values : List ℤ
  pub change_type : ChangeType
  pub offsets : List ℤ

-- A value that fits a byte; `bytes(…)` and an item assignment raise ValueError for any other.
abbrev pub to_byte : ℤ → Result NvmError ℕ
to_byte (pos n) = if ltb n 256 then ok n else err byte_range
to_byte (negsuc n) = err byte_range

abbrev pub to_bytes : List ℤ → Result NvmError (List ℕ)
to_bytes [] = ok []
to_bytes (v ∷ vs) = do b ← to_byte v; bs ← to_bytes vs; ok (b ∷ bs)

-- `blob[start + offset]`: a negative index counts from the end.
abbrev pub index_of : List ℕ → ℕ → ℤ → Result NvmError ℕ
index_of blob start (pos n) =
    if ltb (start + n) (length blob) then ok (start + n) else err index_range
index_of blob start (negsuc n) =
    if leb (suc n) start
    then (if ltb (start - suc n) (length blob) then ok (start - suc n) else err index_range)
    else if leb (suc n) (start + length blob)
    then ok (start + length blob - suc n)
    else err index_range

-- The loop over the zipped offsets and values.
unfoldable pub write_offsets : Tag → List ℤ → List ℤ → List ℕ → Result NvmError (List ℕ)
write_offsets tag (offset ∷ offsets) (value ∷ values) blob = do
  raise_if (leb_ℤ (pos tag.size) offset) offset_range
  v ← to_byte value
  i ← index_of blob tag.start offset
  write_offsets tag offsets values (set blob i v)
write_offsets tag _ _ blob = ok blob

unfoldable pub change : ChangeType → Tag → Override → List ℕ → Result NvmError (List ℕ)
unfolding write_offsets
change entire tag o blob = do
  raise_if (not (length o.values == tag.size)) value_count
  part ← to_bytes o.values
  ok (splice blob tag.start tag.size part)
change default tag o blob = do
  raise_if (not (length o.offsets == length o.values)) offset_count
  write_offsets tag o.offsets o.values blob
change unknown tag o blob = err unknown_change

-- One round of the loop over the XML children, on the tags read at the start.
unfoldable pub override :
    List Tag → Option ℕ → Override → List ℕ × List ℕ → Result NvmError (List ℕ × List ℕ)
unfolding change
override tags none o (blob, changed) = ok (blob, changed)
override tags (some id) o (blob, changed) = do
  tag ← required id tags
  raise_if (not (leb_ℤ o.expected_len (pos tag.size) && leb_ℤ (pos tag.size) o.expected_len))
      length_mismatch
  blob' ← change o.change_type tag o blob
  ok (blob', changed ++ id ∷ [])

unfoldable pub override_all :
    List Tag → List Override → List ℕ × List ℕ → Result NvmError (List ℕ × List ℕ)
unfolding override
override_all tags [] done = ok done
override_all tags (o ∷ os) done = do
  done' ← override tags o.tag_number o done
  override_all tags os done'

unfoldable pub apply_xml_overrides : List ℕ → List Override → Result NvmError (List ℕ × List ℕ)
unfolding override_all
apply_xml_overrides blob overrides = do
  tags ← iter_nvm_tags blob
  override_all tags overrides (blob, [])

-- `blob[i] |= mask` and `blob[i] &= ~mask`, on a byte.
abbrev pub flag : Bool → ℕ → ℕ → ℕ
flag true mask b = bit_or b mask
flag false mask b = bit_and b (255 - mask)

unfoldable pub patch_address : List ℕ → Tag → List ℕ → Result NvmError (List ℕ)
patch_address bdaddr tag blob =
    if tag.size == 6 then ok (splice blob tag.start 6 (reverse bdaddr)) else err address_length

unfoldable pub patch_uart : Bool → ℕ → Tag → List ℕ → Result NvmError (List ℕ)
patch_uart enable_ibs baud_code tag blob =
    if ltb tag.size 2
    then err uart_too_short
    else if leb 256 baud_code
    then err byte_range
    else ok (
        set (set blob tag.start (flag enable_ibs 128 (byte blob tag.start))) (tag.start + 1)
          baud_code)

unfoldable pub patch_sleep : Bool → Tag → List ℕ → Result NvmError (List ℕ)
patch_sleep enable_ibs tag blob =
    if ltb tag.size 1
    then err sleep_too_short
    else ok (set blob tag.start (flag enable_ibs 1 (byte blob tag.start)))

-- The part of `patch_nvm` behind the overrides, on the tags that it reads again.
unfoldable pub patch_tags : List Tag → List ℕ → ℕ → Bool → List ℕ → Result NvmError (List ℕ)
patch_tags tags bdaddr baud_code enable_ibs blob = do
  address ← required 2 tags
  addressed ← patch_address bdaddr address blob
  uart ← required 17 tags
  clocked ← patch_uart enable_ibs baud_code uart addressed
  sleep ← required 27 tags
  patch_sleep enable_ibs sleep clocked

abbrev pub overridden : Option (List Override) → List ℕ → Result NvmError (List ℕ × List ℕ)
overridden none source = ok (source, [])
overridden (some overrides) source = apply_xml_overrides source overrides

-- The patched image and the ids that changed, in the order in which they are added.
unfoldable pub patch_nvm :
    List ℕ → Option (List Override) → List ℕ → ℕ → Bool → Result NvmError (List ℕ × List ℕ)
patch_nvm source overrides bdaddr baud_code enable_ibs = do
  start ← overridden overrides source
  tags ← iter_nvm_tags start.0
  blob ← patch_tags tags bdaddr baud_code enable_ibs start.0
  ok (blob, start.1 ++ 2 ∷ 17 ∷ 27 ∷ [])
