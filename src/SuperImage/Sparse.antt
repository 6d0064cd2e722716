-- ===== src/SuperImage/Sparse.antt =====
-- The sparse reader against the logical image that the chunks describe.
use mathlib.Core.Path.{subst}
use ubuntu_install_on_samsun.Prelude.{
  ok_value, ℕ, zero, suc, ◌+◌, ◌-◌, ◌*◌, ◌/◌, ◌%◌, ◌≤◌, ◌<◌, ◌≡◌, refl, ap, ◌∙◌, inl, inr, true,
  not, List, [], ◌∷◌, arith, ltb, ◌==◌, if◌then◌else◌, Bool-cases, length, drop, length-append, All,
  ok, raise_if, went_through,
}
use ubuntu_install_on_samsun.Prelude.Blob.{
  byte, u16, u32, slice, byte-append, byte-take, byte-drop, length-take, length-drop,
}
use ubuntu_install_on_samsun.SuperImage.{
  Kind, raw, fill, dont_care, crc, kind_of, Span, check_payload, add_span, parse_chunks, repeat,
  zeros, read_part,
}

-- Spans without a gap, none of them empty.
abbrev pub Contiguous : ℕ → List Span → Type 0
Contiguous base [] = Unit
Contiguous base (s ∷ spans) = (s.start ≡ base) × (0 < s.size) × Contiguous (base + s.size) spans

abbrev pub end_of : ℕ → List Span → ℕ
end_of base [] = base
end_of base (s ∷ spans) = end_of (base + s.size) spans

pub end_of-grows : (base : ℕ) (spans : List Span) → base ≤ end_of base spans
end_of-grows base [] = omega arith
end_of-grows base (s ∷ spans) = omega (arith, end_of-grows (base + s.size) spans)

add_span-Contiguous :
    (s : Span) (parsed : List Span × ℕ) (base : ℕ)
    → s.start ≡ base
    → Contiguous (base + s.size) parsed.0
    → parsed.1 ≡ end_of (base + s.size) parsed.0
    → Contiguous base (add_span s parsed).0
      × ((add_span s parsed).1 ≡ end_of base (add_span s parsed).0)
add_span-Contiguous s (spans, logical) base e c l = elim (Bool-cases (s.size == 0)) [
  | inl none_left ↦
      let same_base : base + s.size ≡ base = ground arith in
      rw none_left (subst (λ b. Contiguous b spans × (logical ≡ end_of b spans)) same_base (c, l))
  | inr some_left ↦ let more : 0 < s.size = ground arith in rw some_left ((e, more, c), l)
]

pub parse_chunks-Contiguous :
    (file : List ℕ) (chunk_header block_size chunks here logical : ℕ) (parsed : List Span × ℕ)
    → parse_chunks file chunk_header block_size chunks here logical ≡ ok parsed
    → Contiguous logical parsed.0 × (parsed.1 ≡ end_of logical parsed.0)
unfolding parse_chunks
parse_chunks-Contiguous file chunk_header block_size zero here logical parsed h =
    subst (λ p. Contiguous logical p.0 × (p.1 ≡ end_of logical p.0))
      (ok_value _ ([], logical) parsed refl h) (tt, refl)
parse_chunks-Contiguous file chunk_header block_size (suc chunks) here logical parsed h =
    let header = slice file here chunk_header in
    let (u, e₁, r₁) = went_through (raise_if (not (length header == chunk_header)) _) _ h in
    let (kind, e₂, r₂) = went_through (kind_of (u16 header 0)) _ r₁ in
    let (v, e₃, r₃) =
      went_through (check_payload kind (u32 header 8) chunk_header (u32 header 4 * block_size)) _
        r₂ in
    let (later, e₄, r₄) =
      went_through
        (parse_chunks file chunk_header block_size chunks (here + u32 header 8)
          (logical + u32 header 4 * block_size))
        _ r₃ in
    let (c, l) =
      parse_chunks-Contiguous file chunk_header block_size chunks _
        (logical + u32 header 4 * block_size) later e₄ in
    let s : Span = record {
      start = logical;
      size = u32 header 4 * block_size;
      kind = kind;
      position = here + chunk_header;
    } in
    subst (λ p. Contiguous logical p.0 × (p.1 ≡ end_of logical p.0))
      (ok_value _ (add_span s later) parsed refl r₄) (add_span-Contiguous s later logical refl c l)

-- The byte of a span, and of the logical image, at an address.
abbrev pub span_byte : List ℕ → Kind → ℕ → ℕ → ℕ
span_byte file raw position within = byte file (position + within)
span_byte file fill position within = byte file (position + within % 4)
span_byte file other position within = 0

abbrev pub logical_byte : List ℕ → List Span → ℕ → ℕ
logical_byte file [] x = 0
logical_byte file (s ∷ spans) x =
    let later = logical_byte file spans x in
    if ltb x (s.start + s.size) then span_byte file s.kind s.position (x - s.start) else later

-- The payload of a chunk of this kind stands in the file.
abbrev pub IsPresent : List ℕ → Kind → ℕ → ℕ → Type 0
IsPresent file raw position size = position + size ≤ length file
IsPresent file fill position size = position + 4 ≤ length file
IsPresent file other position size = Unit

abbrev pub AllPresent : List ℕ → List Span → Type 0
AllPresent file = All (λ s. IsPresent file s.kind s.position s.size)

length-zeros : (n : ℕ) → length (zeros n) ≡ n
length-zeros zero = refl
length-zeros (suc n) = omega (arith, length-zeros n)

byte-zeros : (n k : ℕ) → byte (zeros n) k ≡ 0
byte-zeros zero k = refl
byte-zeros (suc n) zero = refl
byte-zeros (suc n) (suc k) = byte-zeros n k

length-repeat : (part : List ℕ) (n : ℕ) → length part ≡ 4 → length (repeat part n) ≡ 4 * n
length-repeat part zero h = refl
length-repeat part (suc n) h =
    omega (arith, length-append part (repeat part n), length-repeat part n h)

byte-repeat :
    (part : List ℕ) (n k : ℕ)
    → length part ≡ 4
    → k < 4 * n
    → byte (repeat part n) k ≡ byte part (k % 4)
byte-repeat part zero k h l = absurd (omega arith)
byte-repeat part (suc n) k h l = elim (Bool-cases (ltb k 4)) [
  | inl first ↦
      let small : k % 4 ≡ k = ground arith in
      rw small (byte-append part (repeat part n) k ∙ rw h (rw first refl))
  | inr later ↦
      let less : k - 4 < 4 * n = ground arith in
      let wrapped : (k - 4) % 4 ≡ k % 4 = ground arith in
      byte-append part (repeat part n) k
      ∙ rw h (rw later (byte-repeat part n (k - 4) h less ∙ ap (byte part) wrapped))
]

pub length-slice : (xs : List ℕ) (i n : ℕ) → i + n ≤ length xs → length (slice xs i n) ≡ n
length-slice xs i n h = length-take n (drop i xs) (omega (arith, length-drop i xs))

pub byte-slice : (xs : List ℕ) (i n k : ℕ) → k < n → byte (slice xs i n) k ≡ byte xs (i + k)
byte-slice xs i n k h =
    let inside : ltb k n ≡ true = ground arith in
    byte-take n (drop i xs) k ∙ rw inside (byte-drop i xs k)

-- A part of a present span has the asked number of bytes, each the span's byte at its address.
pub read_part-bytes :
    (file : List ℕ) (kind : Kind) (position size within count : ℕ)
    → IsPresent file kind position size
    → within + count ≤ size
    → (length (read_part file kind position within count) ≡ count)
      × ((k : ℕ)
          → k < count
          → byte (read_part file kind position within count) k
            ≡ span_byte file kind position (within + k))
read_part-bytes file raw position size within count p h = (
  length-slice file (position + within) count (omega arith),
  λ k l. byte-slice file (position + within) count k l ∙ ap (byte file) (omega arith),
)
read_part-bytes file fill position size within count p h =
    let four = length-slice file position 4 p in
    let n = (within % 4 + count + 3) / 4 in
    let long = length-repeat (slice file position 4) n four in
    let enough : within % 4 + count ≤ 4 * n = omega arith in
    (
      length-slice (repeat (slice file position 4) n) (within % 4) count (omega arith),
      λ k l.
          byte-slice (repeat (slice file position 4) n) (within % 4) count k l
          ∙ byte-repeat (slice file position 4) n (within % 4 + k) four (omega arith)
          ∙ byte-slice file position 4 ((within % 4 + k) % 4) (omega arith)
          ∙ ap (λ j. byte file (position + j)) (omega arith),
    )
read_part-bytes file dont_care position size within count p h =
    (length-zeros count, λ k l. byte-zeros count k)
read_part-bytes file crc position size within count p h =
    (length-zeros count, λ k l. byte-zeros count k)
