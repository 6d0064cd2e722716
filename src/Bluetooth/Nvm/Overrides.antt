-- ===== src/Bluetooth/Nvm/Overrides.antt =====
-- The XML overrides write only into the data of their tags, if no offset is negative.
use mathlib.Core.Path.{subst}
use ubuntu_install_on_samsun.Prelude.{
  ℕ, ◌+◌, ◌<◌, ◌≡◌, sym, ap, ◌∙◌, Bool, true, false, not, ◌&&◌, Option, none, some, List, [], ◌∷◌,
  arith, ◌==◌, length, ok, raise_if, went_through, ℤ, pos, negsuc, leb_ℤ, same,
}
use ubuntu_install_on_samsun.Prelude.Blob.{
  set, splice, set-AgreesOutside, splice-AgreesOutside, length-set,
}
use ubuntu_install_on_samsun.Bluetooth.Nvm.{
  ChangeType, entire, default, unknown, Override, Tag, iter_nvm_tags, required, to_byte, to_bytes,
  index_of, write_offsets, change, override, override_all, apply_xml_overrides,
}
use ubuntu_install_on_samsun.Bluetooth.Nvm.Tags.{
  Member, iter_nvm_tags_inside, Member-bounds, find_tag-Member,
}

abbrev is_natural : ℤ → Bool
is_natural (pos n) = true
is_natural (negsuc n) = false

abbrev all_natural : List ℤ → Bool
all_natural [] = true
all_natural (z ∷ zs) = is_natural z && all_natural zs

abbrev pub no_negative_offset : List Override → Bool
no_negative_offset [] = true
no_negative_offset (o ∷ os) = all_natural o.offsets && no_negative_offset os

length-to_bytes : (vs : List ℤ) (bs : List ℕ) → to_bytes vs ≡ ok bs → length bs ≡ length vs
length-to_bytes [] bs h = ground arith
length-to_bytes (v ∷ vs) bs h =
    let (b, e, r) = went_through (to_byte v) _ h in
    let (rest, f, g) = went_through (to_bytes vs) _ r in ground (arith, length-to_bytes vs rest f)

unchanged :
    (tags : List Tag) (blob after : List ℕ)
    → iter_nvm_tags blob ≡ ok tags
    → blob ≡ after
    → (iter_nvm_tags after ≡ ok tags) × (length after ≡ length blob)
unchanged tags blob after parsed same =
    (subst (λ b. iter_nvm_tags b ≡ ok tags) same parsed, ap length (sym same))

module _ (tags : List Tag) (tag : Tag) (m : Member tag tags) where
  write_offsets_keeps :
      (offsets values : List ℤ) (blob after : List ℕ)
      → all_natural offsets ≡ true
      → iter_nvm_tags blob ≡ ok tags
      → write_offsets tag offsets values blob ≡ ok after
      → (iter_nvm_tags after ≡ ok tags) × (length after ≡ length blob)
  unfolding write_offsets
  write_offsets_keeps (pos n ∷ offsets) (value ∷ values) blob after natural parsed h =
      let (u, small, r₁) = went_through (raise_if (leb_ℤ (pos tag.size) (pos n)) _) _ h in
      let (v, e, r₂) = went_through (to_byte value) _ r₁ in
      let (i, f, r₃) = went_through (index_of blob tag.start (pos n)) _ r₂ in
      let place : i ≡ tag.start + n = ground arith in
      let short : n < tag.size = ground arith in
      let again =
        iter_nvm_tags_inside blob (set blob i v) i (i + 1) tags tag (set-AgreesOutside blob i v)
          parsed m (omega arith) (omega arith) in
      let (p, l) = write_offsets_keeps offsets values (set blob i v) after natural again r₃ in
      (p, l ∙ length-set blob i v)
  write_offsets_keeps (negsuc n ∷ offsets) (value ∷ values) blob after natural parsed h = cc
  write_offsets_keeps [] values blob after natural parsed h = unchanged tags blob after parsed (cc)
  write_offsets_keeps (offset ∷ offsets) [] blob after natural parsed h =
      unchanged tags blob after parsed (cc)

  change_keeps :
      (kind : ChangeType) (o : Override) (blob after : List ℕ)
      → all_natural o.offsets ≡ true
      → iter_nvm_tags blob ≡ ok tags
      → change kind tag o blob ≡ ok after
      → (iter_nvm_tags after ≡ ok tags) × (length after ≡ length blob)
  unfolding change
  change_keeps unknown o blob after natural parsed h = cc
  change_keeps default o blob after natural parsed h =
      let (u, same_count, r) =
        went_through (raise_if (not (length o.offsets == length o.values)) _) _ h in
      write_offsets_keeps o.offsets o.values blob after natural parsed r
  change_keeps entire o blob after natural parsed h =
      let (u, same_count, r₁) = went_through (raise_if (not (length o.values == tag.size)) _) _ h in
      let (part, e, r₂) = went_through (to_bytes o.values) _ r₁ in
      let size : length part ≡ tag.size = ground (arith, length-to_bytes o.values part e) in
      let fits = (Member-bounds blob tags tag parsed m).1 in
      let same = splice-AgreesOutside blob tag.start tag.size part fits size in
      let result : after ≡ splice blob tag.start tag.size part = cc in
      (
        subst (λ b. iter_nvm_tags b ≡ ok tags) (sym result)
            (iter_nvm_tags_inside blob _ _ _ tags tag same parsed m (omega arith) (omega arith)),
        subst (λ b. length b ≡ length blob) (sym result) same.same_length,
      )

override_keeps :
    (tags : List Tag) (number : Option ℕ) (o : Override) (blob after changed ids : List ℕ)
    → all_natural o.offsets ≡ true
    → iter_nvm_tags blob ≡ ok tags
    → override tags number o (blob, changed) ≡ ok (after, ids)
    → (iter_nvm_tags after ≡ ok tags) × (length after ≡ length blob)
unfolding override
override_keeps tags none o blob after changed ids natural parsed h =
    unchanged tags blob after parsed (cc)
override_keeps tags (some id) o blob after changed ids natural parsed h =
    let (tag, e, r₁) = went_through (required id tags) _ h in
    let (u, g, r₂) =
      went_through
        (raise_if (not (leb_ℤ o.expected_len (pos tag.size) && leb_ℤ (pos tag.size) o.expected_len))
          _)
        _ r₁ in
    let (blob', c, r₃) = went_through (change o.change_type tag o blob) _ r₂ in
    let m = (find_tag-Member id tags tag (ground arith)).0 in
    let result : after ≡ blob' = cc in
    let (p, l) = change_keeps tags tag m o.change_type o blob blob' natural parsed c in
    (
      subst (λ b. iter_nvm_tags b ≡ ok tags) (sym result) p,
      subst (λ b. length b ≡ length blob) (sym result) l,
    )

override_all_keeps :
    (tags : List Tag) (os : List Override) (blob after changed ids : List ℕ)
    → no_negative_offset os ≡ true
    → iter_nvm_tags blob ≡ ok tags
    → override_all tags os (blob, changed) ≡ ok (after, ids)
    → (iter_nvm_tags after ≡ ok tags) × (length after ≡ length blob)
unfolding override_all
override_all_keeps tags [] blob after changed ids natural parsed h =
    unchanged tags blob after parsed (cc)
override_all_keeps tags (o ∷ os) blob after changed ids natural parsed h =
    let (next, e, r) = went_through (override tags o.tag_number o (blob, changed)) _ h in
    let (p, l) =
      override_keeps tags o.tag_number o blob next.0 changed next.1 (ground arith) parsed e in
    let (q, k) = override_all_keeps tags os next.0 after next.1 ids (ground arith) p r in (q, k ∙ l)

-- Overrides that succeed, and of which no offset is negative, leave an image of the same length
-- with exactly the same tags: they write into the data of tags only.
pub apply_xml_overrides_keeps :
    (blob after ids : List ℕ) (os : List Override) (tags : List Tag)
    → no_negative_offset os ≡ true
    → iter_nvm_tags blob ≡ ok tags
    → apply_xml_overrides blob os ≡ ok (after, ids)
    → (iter_nvm_tags after ≡ ok tags) × (length after ≡ length blob)
unfolding apply_xml_overrides
apply_xml_overrides_keeps blob after ids os tags natural parsed h =
    let (found, e, r) = went_through (iter_nvm_tags blob) _ h in
    let same_tags : found ≡ tags = cc in
    override_all_keeps tags os blob after [] ids natural parsed
      (subst (λ k. override_all k os (blob, []) ≡ ok (after, ids)) same_tags r)
