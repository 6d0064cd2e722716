-- ===== src/Bluetooth/Address.antt =====
-- Bluetooth addresses as text, and the address kept in a file. A text is a list of ASCII codes.
pub mod Roundtrip
use ubuntu_install_on_samsun.Prelude.{
  ℕ, zero, suc, ◌+◌, ◌-◌, ◌*◌, ◌/◌, ◌%◌, ◌&&◌, Option, none, some, List, [], ◌∷◌, ◌++◌, ltb, leb,
  ◌==◌, if◌then◌else◌, take, codes, is_space,
}
use Prim.Native.Nat.{bit_and, bit_or}
use mathlib.Core.List.{reverse}

abbrev pub lstrip : List ℕ → List ℕ
lstrip [] = []
lstrip (c ∷ cs) = let rest = lstrip cs in if is_space c then rest else c ∷ cs

-- `strip()`
abbrev pub strip : List ℕ → List ℕ
strip cs = reverse (lstrip (reverse (lstrip cs)))

-- `[0-9A-Fa-f]`, with the value that `bytes.fromhex` gives it.
abbrev pub hex_value : ℕ → Option ℕ
hex_value c =
    if leb 48 c && leb c 57
    then some (c - 48)
    else if leb 65 c && leb c 70
    then some (c - 55)
    else if leb 97 c && leb c 102
    then some (c - 87)
    else none

abbrev pub join_digits : Option ℕ → Option ℕ → Option ℕ
join_digits (some high) (some low) = some (high * 16 + low)
join_digits _ _ = none

abbrev pub prepend_byte : Option ℕ → Option (List ℕ) → Option (List ℕ)
prepend_byte (some b) (some bs) = some (b ∷ bs)
prepend_byte _ _ = none

-- `(?::[0-9A-Fa-f]{2}){n}`, up to the end of the text.
unfoldable pub parse_groups : ℕ → List ℕ → Option (List ℕ)
parse_groups zero [] = some []
parse_groups (suc n) (colon ∷ high ∷ low ∷ rest) =
    let later = parse_groups n rest in
    if colon == 58 then prepend_byte (join_digits (hex_value high) (hex_value low)) later else none
parse_groups _ _ = none

parse_stripped : List ℕ → Option (List ℕ)
unfolding parse_groups
parse_stripped (high ∷ low ∷ rest) =
    prepend_byte (join_digits (hex_value high) (hex_value low)) (parse_groups 5 rest)
parse_stripped _ = none

-- `none` is ValueError.
unfoldable pub parse_bdaddr : List ℕ → Option (List ℕ)
unfolding parse_stripped
parse_bdaddr value = parse_stripped (strip value)

abbrev pub hex_digit : ℕ → ℕ
hex_digit n = if ltb n 10 then 48 + n else 87 + n

-- `f"{byte:02x}"`, for a byte.
abbrev pub hex_byte : ℕ → List ℕ → List ℕ
hex_byte b rest = hex_digit (b / 16) ∷ hex_digit (b % 16) ∷ rest

abbrev pub format_rest : List ℕ → List ℕ
format_rest [] = []
format_rest (b ∷ bs) = 58 ∷ hex_byte b (format_rest bs)

unfoldable pub format_bdaddr : List ℕ → List ℕ
format_bdaddr [] = []
format_bdaddr (b ∷ bs) = hex_byte b (format_rest bs)

-- `address[0] = (address[0] & 0xFE) | 0x02`
abbrev pub local_address : List ℕ → List ℕ
local_address [] = []
local_address (b ∷ bs) = bit_or (bit_and b 254) 2 ∷ bs

-- `hashlib.sha256(…).digest()` is an argument; the seed is the machine id, or random bytes.
module _ (sha256 : List ℕ → List ℕ) where
  unfoldable pub new_address : List ℕ → List ℕ
  new_address seed = local_address (take 6 (sha256 (codes "SM-T630 Bluetooth" ++ 0 ∷ seed)))

  -- The file's content, if it exists, comes back beside the address.
  unfoldable pub persistent_address : Option (List ℕ) → List ℕ → Option (List ℕ) × Option (List ℕ)
  unfolding new_address
  persistent_address (some text) seed = (parse_bdaddr (strip text), some text)
  persistent_address none seed =
      let address = new_address seed in (some address, some (format_bdaddr address ++ 10 ∷ []))
