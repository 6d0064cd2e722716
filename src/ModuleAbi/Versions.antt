-- ===== src/ModuleAbi/Versions.antt =====
-- tools/audit_kernel_module_abi.py: what parse_versions_blob lets through.
use mathlib.Core.Path.{subst}
use ubuntu_install_on_samsun.Prelude.{
  ℕ, zero, suc, ◌+◌, ◌/◌, ◌%◌, ◌^◌, ◌<◌, ◌≡◌, refl, sym, ap, ◌∙◌, inl, inr, Bool, true, false, not,
  List, [], ◌∷◌, arith, leb, ◌==◌, Bool-cases, length, All, Result, ok, err, ◌>>◌, raise_if,
  went_through, ok_value, is_ascii, same,
}
use ubuntu_install_on_samsun.Prelude.Blob.{slice}
use ubuntu_install_on_samsun.ModuleAbi.{
  Text, Dict, put, AbiError, until_zero, decoded, u64, not_ascii, empty_symbol, not_32_bit,
  not_whole, versions_from, parse_versions_blob,
}

-- A named symbol in ASCII with a checksum of 32 bits.
abbrev pub IsVersion : Text × ℕ → Type 0
IsVersion entry = (same entry.0 [] ≡ false) × (is_ascii entry.0 ≡ true) × (entry.1 < 2 ^ 32)

put-All :
    (name : Text) (crc : ℕ) (d : Dict ℕ)
    → IsVersion (name, crc)
    → All IsVersion d
    → All IsVersion (put name crc d)
put-All name crc [] v all = (v, tt)
put-All name crc ((k, w) ∷ d) v (here, rest) = elim (Bool-cases (same k name)) [
  | inl h ↦ rw h ((here.0, here.1, v.2), rest)
  | inr h ↦ rw h (here, put-All name crc d v rest)
]

decoded_ascii : (text name : Text) → decoded text ≡ ok name → is_ascii name ≡ true
decoded_ascii text name h = elim (Bool-cases (is_ascii text)) [
  | inl ascii ↦
      let value : ok text ≡ ok name =
        sym (ap (λ b. raise_if (not b) not_ascii >> ok text) ascii) ∙ h in
      let here : Result AbiError Text = ok text in
      let same_name : text ≡ name = ok_value here text name refl value in
      subst (λ x. is_ascii x ≡ true) same_name ascii
  | inr other ↦
      let value : err not_ascii ≡ ok name =
        sym (ap (λ b. raise_if (not b) not_ascii >> ok text) other) ∙ h in
      absurd (cc)
]

not_raised : (test : Bool) (e : AbiError) (u : Unit {0}) → raise_if test e ≡ ok u → test ≡ false
not_raised true e u h = absurd (cc)
not_raised false e u h = refl

small_crc : (bound crc : ℕ) → leb bound crc ≡ false → crc < bound
small_crc bound crc h = ground arith

versions_from-All :
    (blob : List ℕ) (left offset : ℕ) (versions d : Dict ℕ)
    → All IsVersion versions
    → versions_from blob left offset versions ≡ ok d
    → All IsVersion d
unfolding versions_from
versions_from-All blob zero offset versions d all h =
    let here : Result AbiError (Dict ℕ) = ok versions in
    subst (All IsVersion) (ok_value here versions d refl h) all
versions_from-All blob (suc left) offset versions d all h =
    let crc = u64 blob offset in
    let next = λ (name : Text). versions_from blob left (offset + 64) (put name crc versions) in
    let check = λ (name : Text). raise_if (leb (2 ^ 32) crc) not_32_bit >> next name in
    let (name, found, h1) =
      went_through (decoded (until_zero (slice blob (offset + 8) 56)))
        (λ name. raise_if (same name []) empty_symbol >> check name) h in
    let (u, named, h2) = went_through (raise_if (same name []) empty_symbol) (λ _. check name) h1 in
    let (v, small, h3) =
      went_through (raise_if (leb (2 ^ 32) crc) not_32_bit) (λ _. next name) h2 in
    let entry : IsVersion (name, crc) = (
      not_raised (same name []) empty_symbol u named,
      decoded_ascii (until_zero (slice blob (offset + 8) 56)) name found,
      small_crc (2 ^ 32) crc (not_raised (leb (2 ^ 32) crc) not_32_bit v small),
    ) in
    versions_from-All blob left (offset + 64) (put name crc versions) d
      (put-All name crc versions entry all) h3

-- Every import that is read has a name in ASCII and a checksum of 32 bits.
pub parse_versions_blob-All :
    (blob : List ℕ) (d : Dict ℕ) → parse_versions_blob blob ≡ ok d → All IsVersion d
unfolding parse_versions_blob
parse_versions_blob-All blob d h =
    let (u, whole, later) =
      went_through (raise_if (not (length blob % 64 == 0)) not_whole)
        (λ _. versions_from blob (length blob / 64) 0 []) h in
    versions_from-All blob (length blob / 64) 0 [] d tt later
