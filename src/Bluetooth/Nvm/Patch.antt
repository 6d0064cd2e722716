-- ===== src/Bluetooth/Nvm/Patch.antt =====
-- What `patch_nvm` writes, byte by byte, and that the image keeps its structure.
use ubuntu_install_on_samsun.Prelude.{
  ℕ, ◌+◌, ◌-◌, ◌≤◌, ◌≡◌, sym, ◌∙◌, ◌⊎◌, inl, inr, Bool, ◌&&◌, Option, some, List, [], ◌∷◌, ◌++◌,
  arith, ltb, leb, ◌==◌, if◌then◌else◌, length, ok, went_through,
}
use mathlib.Core.Path.{subst}
use mathlib.Core.List.{reverse}
use ubuntu_install_on_samsun.Prelude.Blob.{byte}
use ubuntu_install_on_samsun.Bluetooth.Nvm.{
  Override, Tag, iter_nvm_tags, find_tag, flag, patch_address, patch_uart, patch_tags, patch_nvm,
  required, overridden,
}
use ubuntu_install_on_samsun.Bluetooth.Nvm.Tags.{
  iter_nvm_tags_inside, Member-bounds, find_tag_disjoint, find_tag-Member,
}
use ubuntu_install_on_samsun.Bluetooth.Nvm.Writes.{
  size_of_address, address-AgreesOutside, address_byte, uart-AgreesOutside, uart_byte,
  sleep-AgreesOutside, sleep_byte, required-found, uart_size, sleep_size,
}

-- The byte at j after the patch, from the image before it.
abbrev pub patched_byte : List ℕ → ℕ → Bool → ℕ → ℕ → ℕ → List ℕ → ℕ → ℕ
patched_byte bdaddr baud_code enable_ibs address uart sleep blob j =
    if leb address j && ltb j (address + 6)
    then byte (reverse bdaddr) (j - address)
    else if j == uart
    then flag enable_ibs 128 (byte blob uart)
    else if j == uart + 1
    then baud_code
    else if j == sleep
    then flag enable_ibs 1 (byte blob sleep)
    else byte blob j

-- The image after the patch: it is as long and holds the same tags, and each byte is the one
-- that the patch is meant to leave there.
pub record IsPatched (bdaddr : List ℕ) (baud_code : ℕ) (enable_ibs : Bool) (blob after : List ℕ)
    : Type 0 where
  pub tags : List Tag
  pub address : Tag
  pub uart : Tag
  pub sleep : Tag
  pub address_found : find_tag 2 tags ≡ some address
  pub uart_found : find_tag 17 tags ≡ some uart
  pub sleep_found : find_tag 27 tags ≡ some sleep
  pub address_size : address.size ≡ 6
  pub parsed_before : iter_nvm_tags blob ≡ ok tags
  pub parsed_after : iter_nvm_tags after ≡ ok tags
  pub same_length : length after ≡ length blob
  pub contents :
      (j : ℕ)
      → byte after j
        ≡ patched_byte bdaddr baud_code enable_ibs address.start uart.start sleep.start blob j

-- The three writes together, where their places do not overlap.
three_writes :
    (bdaddr : List ℕ) (baud_code : ℕ) (enable_ibs : Bool) (address uart sleep : ℕ)
    (blob addressed clocked after : List ℕ)
    → (address + 6 ≤ uart) ⊎ (uart + 2 ≤ address)
    → (address + 6 ≤ sleep) ⊎ (sleep + 1 ≤ address)
    → (uart + 2 ≤ sleep) ⊎ (sleep + 1 ≤ uart)
    → ((j : ℕ)
        → byte addressed j ≡ (
            if leb address j && ltb j (address + 6)
            then byte (reverse bdaddr) (j - address)
            else byte blob j))
    → ((j : ℕ)
        → byte clocked j ≡ (
            if j == uart
            then flag enable_ibs 128 (byte addressed uart)
            else if j == uart + 1
            then baud_code
            else byte addressed j))
    → ((j : ℕ)
        → byte after j
          ≡ (if j == sleep then flag enable_ibs 1 (byte clocked sleep) else byte clocked j))
    → (j : ℕ) → byte after j ≡ patched_byte bdaddr baud_code enable_ibs address uart sleep blob j
three_writes bdaddr baud_code enable_ibs address uart sleep blob addressed clocked after au as_ us
      h₁ h₂ h₃ j =
    let addressed_uart : byte addressed uart ≡ byte blob uart = ground (arith, h₁ uart) in
    let clocked_sleep : byte clocked sleep ≡ byte blob sleep = ground (arith, h₂ sleep, h₁ sleep) in
    rw (h₃ j, clocked_sleep, h₂ j, addressed_uart, h₁ j) (ground arith)

patch_tags-IsPatched :
    (tags : List Tag) (bdaddr : List ℕ) (baud_code : ℕ) (enable_ibs : Bool) (blob after : List ℕ)
    → iter_nvm_tags blob ≡ ok tags
    → length bdaddr ≡ 6
    → patch_tags tags bdaddr baud_code enable_ibs blob ≡ ok after
    → IsPatched bdaddr baud_code enable_ibs blob after
unfolding patch_tags
patch_tags-IsPatched tags bdaddr baud_code enable_ibs blob after parsed six h =
    let (address, f₂, r₁) = went_through (required 2 tags) _ h in
    let (addressed, d₁, r₂) = went_through (patch_address bdaddr address blob) _ r₁ in
    let (uart, f₁₇, r₃) = went_through (required 17 tags) _ r₂ in
    let (clocked, d₂, r₅) = went_through (patch_uart enable_ibs baud_code uart addressed) _ r₃ in
    let (sleep, f₂₇, d₃) = went_through (required 27 tags) _ r₅ in
    let e₂ = required-found 2 tags f₂ in
    let e₁₇ = required-found 17 tags f₁₇ in
    let e₂₇ = required-found 27 tags f₂₇ in
    let m₂ = (find_tag-Member 2 tags address e₂).0 in
    let m₁₇ = (find_tag-Member 17 tags uart e₁₇).0 in
    let m₂₇ = (find_tag-Member 27 tags sleep e₂₇).0 in
    let fits₂ = (Member-bounds blob tags address parsed m₂).1 in
    let a₁ = address-AgreesOutside bdaddr six address blob fits₂ d₁ in
    let p₁ =
      iter_nvm_tags_inside blob addressed _ _ tags address a₁ parsed m₂ (omega arith)
        (omega arith) in
    let fits₁₇ = (Member-bounds addressed tags uart p₁ m₁₇).1 in
    let a₂ = uart-AgreesOutside enable_ibs baud_code uart addressed fits₁₇ d₂ in
    let p₂ =
      iter_nvm_tags_inside addressed clocked _ _ tags uart a₂ p₁ m₁₇ (omega arith) (omega arith) in
    let fits₂₇ = (Member-bounds clocked tags sleep p₂ m₂₇).1 in
    let a₃ = sleep-AgreesOutside enable_ibs sleep clocked fits₂₇ d₃ in
    let p₃ =
      iter_nvm_tags_inside clocked after _ _ tags sleep a₃ p₂ m₂₇ (omega arith) (omega arith) in
    let size₂ = (size_of_address bdaddr six address blob fits₂ d₁).0 in
    let apart₁ = find_tag_disjoint blob tags 2 17 address uart parsed e₂ e₁₇ (omega arith) in
    let apart₂ = find_tag_disjoint blob tags 2 27 address sleep parsed e₂ e₂₇ (omega arith) in
    let apart₃ = find_tag_disjoint blob tags 17 27 uart sleep parsed e₁₇ e₂₇ (omega arith) in
    let room₁₇ = uart_size enable_ibs baud_code uart addressed d₂ in
    let room₂₇ = sleep_size enable_ibs sleep clocked d₃ in
    record {
      tags = tags;
      address = address;
      uart = uart;
      sleep = sleep;
      address_found = e₂;
      uart_found = e₁₇;
      sleep_found = e₂₇;
      address_size = size₂;
      parsed_before = parsed;
      parsed_after = p₃;
      same_length = a₃.same_length ∙ a₂.same_length ∙ a₁.same_length;
      contents =
          three_writes bdaddr baud_code enable_ibs address.start uart.start sleep.start blob
            addressed clocked after
            (elim apart₁ [ inl x ↦ inl (omega arith) | inr y ↦ inr (omega arith) ])
            (elim apart₂ [ inl x ↦ inl (omega arith) | inr y ↦ inr (omega arith) ])
            (elim apart₃ [ inl x ↦ inl (omega arith) | inr y ↦ inr (omega arith) ])
            (address_byte bdaddr six address blob fits₂ d₁)
            (uart_byte enable_ibs baud_code uart addressed fits₁₇ d₂)
            (sleep_byte enable_ibs sleep clocked fits₂₇ d₃);
    }

-- A patch that succeeds, with any overrides and a six-byte address, keeps the length and the tags
-- of the overridden image, and leaves in each byte what it is meant to: the address reversed in
-- tag 2, the IBS bit and the baud code in tag 17, the IBS bit in tag 27, and every other byte as
-- it was. The ids 2, 17 and 27 are reported beside those of the overrides.
pub patch_nvm-IsPatched :
    (source : List ℕ) (overrides : Option (List Override)) (bdaddr : List ℕ) (baud_code : ℕ)
    (enable_ibs : Bool) (after changed : List ℕ)
    → length bdaddr ≡ 6
    → patch_nvm source overrides bdaddr baud_code enable_ibs ≡ ok (after, changed)
    → (before ids : List ℕ) × (overridden overrides source ≡ ok (before, ids))
      × IsPatched bdaddr baud_code enable_ibs before after
      × (changed ≡ ids ++ 2 ∷ 17 ∷ 27 ∷ [])
unfolding patch_nvm
patch_nvm-IsPatched source overrides bdaddr baud_code enable_ibs after changed six h =
    let (start, o, r₁) = went_through (overridden overrides source) _ h in
    let (tags, parsed, r₂) = went_through (iter_nvm_tags start.0) _ r₁ in
    let (blob, done, r₃) =
      went_through (patch_tags tags bdaddr baud_code enable_ibs start.0) _ r₂ in
    let same_image : after ≡ blob = cc in
    let same_ids : changed ≡ start.1 ++ 2 ∷ 17 ∷ 27 ∷ [] = cc in
    (
      start.0,
      start.1,
      o,
      patch_tags-IsPatched tags bdaddr baud_code enable_ibs start.0 after parsed six (
          subst (λ b. patch_tags tags bdaddr baud_code enable_ibs start.0 ≡ ok b) (sym same_image)
            done),
      same_ids,
    )
