-- ===== src/Bluetooth/Address/Roundtrip.antt =====
-- A formatted address is parsed back, so the address of the first start is the one of every later.
use mathlib.Core.Path.{subst}
use ubuntu_install_on_samsun.Prelude.{
  ℕ, zero, suc, ◌+◌, ◌*◌, ◌/◌, ◌%◌, ◌<◌, ◌≡◌, refl, sym, ap, ◌∙◌, true, false, none, some, List, [],
  ◌∷◌, ◌++◌, arith, ◌==◌, ==→≡, length, take, All, passes_below, table_entry, codes, same, is_space,
}
use Prim.Native.Nat.{bit_and, bit_or}
use mathlib.Core.List.{reverse, reverse-append, reverse-reverse}
use ubuntu_install_on_samsun.Prelude.Blob.{byte, length-take}
use ubuntu_install_on_samsun.Bluetooth.Address.{
  lstrip, strip, hex_value, join_digits, parse_groups, parse_stripped, parse_bdaddr, hex_digit,
  format_rest, format_bdaddr, local_address, new_address, persistent_address,
}

hex_value-digit : (n : ℕ) → n < 16 → hex_value (hex_digit n) ≡ some n
hex_value-digit n h = ground arith

hex_digit-not-space : (n : ℕ) → n < 16 → is_space (hex_digit n) ≡ false
hex_digit-not-space n h = ground arith

-- The two digits of a byte give the byte back.
hex_pair :
    (b : ℕ)
    → b < 256
    → join_digits (hex_value (hex_digit (b / 16))) (hex_value (hex_digit (b % 16))) ≡ some b
hex_pair b h =
    rw (hex_value-digit (b / 16) (omega arith), hex_value-digit (b % 16) (omega arith))
      (ap some (omega arith))

abbrev pub AreBytes : List ℕ → Type 0
AreBytes = All (λ b. b < 256)

parse_groups-format :
    (bs : List ℕ) → AreBytes bs → parse_groups (length bs) (format_rest bs) ≡ some bs
unfolding parse_groups
parse_groups-format [] h = refl
parse_groups-format (b ∷ bs) h = rw (hex_pair b h.0, parse_groups-format bs h.1)

lstrip-stays : (c : ℕ) (cs : List ℕ) → is_space c ≡ false → lstrip (c ∷ cs) ≡ c ∷ cs
lstrip-stays c cs h = ground arith

-- Text that neither begins nor ends with white space is its own `strip`, and a newline behind it
-- is taken off.
strip_ends :
    (first last : ℕ) (inner : List ℕ)
    → is_space first ≡ false
    → is_space last ≡ false
    → (strip (first ∷ (inner ++ last ∷ [])) ≡ first ∷ (inner ++ last ∷ []))
      × (strip (first ∷ (inner ++ last ∷ []) ++ 10 ∷ []) ≡ first ∷ (inner ++ last ∷ []))
strip_ends first last inner f l =
    let text = first ∷ (inner ++ last ∷ []) in
    let backward : reverse text ≡ last ∷ reverse (first ∷ inner) =
      reverse-append (first ∷ inner) (last ∷ []) in
    let ends : lstrip (reverse text) ≡ reverse text = rw backward (lstrip-stays last _ l) in
    let newline : lstrip (reverse (text ++ 10 ∷ [])) ≡ reverse text =
      rw (reverse-append text (10 ∷ [])) ends in
    (
      rw (lstrip-stays first _ f, ends) (reverse-reverse text),
      rw (lstrip-stays first _ f, newline) (reverse-reverse text),
    )

module _ (a b c d e f : ℕ) (bytes : AreBytes (a ∷ b ∷ c ∷ d ∷ e ∷ f ∷ [])) where
  abbrev address : List ℕ
  address = a ∷ b ∷ c ∷ d ∷ e ∷ f ∷ []

  stripped : parse_stripped (format_bdaddr address) ≡ some address
  unfolding parse_stripped format_bdaddr
  stripped = rw (hex_pair a bytes.0, parse_groups-format (b ∷ c ∷ d ∷ e ∷ f ∷ []) bytes.1)

  strip-format :
      (strip (format_bdaddr address) ≡ format_bdaddr address)
      × (strip (format_bdaddr address ++ 10 ∷ []) ≡ format_bdaddr address)
  unfolding format_bdaddr
  strip-format =
      strip_ends (hex_digit (a / 16)) (hex_digit (f % 16))
        (hex_digit (a % 16) ∷ (format_rest (b ∷ c ∷ d ∷ e ∷ []) ++ 58 ∷ hex_digit (f / 16) ∷ []))
        (hex_digit-not-space (a / 16) (omega arith)) (hex_digit-not-space (f % 16) (omega arith))

  six_bytes_parse :
      (parse_bdaddr (format_bdaddr address) ≡ some address)
      × (parse_bdaddr (strip (format_bdaddr address ++ 10 ∷ [])) ≡ some address)
  unfolding parse_bdaddr
  six_bytes_parse = (rw (strip-format.0) stripped, rw (strip-format.1, strip-format.0) stripped)

six : (bs : List ℕ) → length bs ≡ 6 → (a b c d e f : ℕ) × (bs ≡ a ∷ b ∷ c ∷ d ∷ e ∷ f ∷ [])
six (a ∷ b ∷ c ∷ d ∷ e ∷ f ∷ []) h = (a, b, c, d, e, f, refl)
six (a ∷ b ∷ c ∷ d ∷ e ∷ f ∷ g ∷ bs) h = absurd (omega arith)
six (a ∷ b ∷ c ∷ d ∷ e ∷ []) h = absurd (omega arith)
six (a ∷ b ∷ c ∷ d ∷ []) h = absurd (omega arith)
six (a ∷ b ∷ c ∷ []) h = absurd (omega arith)
six (a ∷ b ∷ []) h = absurd (omega arith)
six (a ∷ []) h = absurd (omega arith)
six [] h = absurd (omega arith)

-- An address of six bytes is parsed back from its text, also when a newline follows the text.
pub parse_bdaddr-format_bdaddr :
    (bs : List ℕ)
    → AreBytes bs
    → length bs ≡ 6
    → (parse_bdaddr (format_bdaddr bs) ≡ some bs)
      × (parse_bdaddr (strip (format_bdaddr bs ++ 10 ∷ [])) ≡ some bs)
parse_bdaddr-format_bdaddr bs bytes h =
    let (a, b, c, d, e, f, same) = six bs h in
    subst
      (λ x.
        (parse_bdaddr (format_bdaddr x) ≡ some x)
        × (parse_bdaddr (strip (format_bdaddr x ++ 10 ∷ [])) ≡ some x))
      (sym same) (six_bytes_parse a b c d e f (subst AreBytes same bytes))

-- The first byte of a local address: bit 0 cleared, bit 1 set, the other six kept.
first_byte_table : passes_below (λ b. bit_or (bit_and b 254) 2 == b / 4 * 4 + 2) 256 ≡ true
unfolding passes_below
first_byte_table = refl

first_byte : (b : ℕ) → b < 256 → bit_or (bit_and b 254) 2 ≡ b / 4 * 4 + 2
first_byte b h =
    ==→≡ _ _ (table_entry (λ k. bit_or (bit_and k 254) 2 == k / 4 * 4 + 2) 256 b h first_byte_table)

take-AreBytes : (n : ℕ) (bs : List ℕ) → AreBytes bs → AreBytes (take n bs)
take-AreBytes zero bs h = tt
take-AreBytes (suc n) [] h = tt
take-AreBytes (suc n) (b ∷ bs) h = (h.0, take-AreBytes n bs h.1)

local_address-AreBytes :
    (bs : List ℕ)
    → AreBytes bs
    → AreBytes (local_address bs) × (length (local_address bs) ≡ length bs)
local_address-AreBytes [] h = (tt, refl)
local_address-AreBytes (b ∷ bs) h = ((omega (arith, first_byte b h.0), h.1), refl)

local_address_bits : (bs : List ℕ) → AreBytes bs → 0 < length bs → byte (local_address bs) 0 % 4 ≡ 2
local_address_bits [] h l = absurd (omega arith)
local_address_bits (b ∷ bs) h l = omega (arith, first_byte b h.0)

-- With a digest of 32 bytes, the first start makes an address of six bytes whose first byte is
-- even (no group address) and has bit 1 set (locally administered), and every later start reads
-- back that address and leaves the file as it is.
pub persistent_address_stable :
    (sha256 : List ℕ → List ℕ)
    (digest : (m : List ℕ) → (length (sha256 m) ≡ 32) × AreBytes (sha256 m)) (seed later : List ℕ)
    → (persistent_address sha256 (persistent_address sha256 none seed).1 later
        ≡ persistent_address sha256 none seed)
      × ((persistent_address sha256 none seed).0 ≡ some (new_address sha256 seed))
      × (length (new_address sha256 seed) ≡ 6)
      × (byte (new_address sha256 seed) 0 % 4 ≡ 2)
unfolding persistent_address new_address
persistent_address_stable sha256 digest seed later =
    let text = codes "SM-T630 Bluetooth" ++ 0 ∷ seed in
    let (long, bytes) = digest text in
    let short = length-take 6 (sha256 text) (omega arith) in
    let (local, same_length) =
      local_address-AreBytes (take 6 (sha256 text)) (take-AreBytes 6 (sha256 text) bytes) in
    let parsed =
      (parse_bdaddr-format_bdaddr (local_address (take 6 (sha256 text))) local
        (same_length ∙ short)).1 in
    (
      rw parsed,
      refl,
      same_length ∙ short,
      local_address_bits (take 6 (sha256 text)) (take-AreBytes 6 (sha256 text) bytes) (omega arith),
    )
