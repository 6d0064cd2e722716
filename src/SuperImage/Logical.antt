-- ===== src/SuperImage/Logical.antt =====
-- A read of a sparse image is a read of the logical image.
use mathlib.Core.Path.{subst}
use ubuntu_install_on_samsun.Prelude.{
  ok_value, ℕ, zero, suc, ◌+◌, ◌-◌, ◌*◌, ◌≤◌, ◌<◌, min, ◌≡◌, refl, sym, ap, ◌∙◌, inl, inr, true,
  false, not, ◌||◌, some, List, [], ◌∷◌, ◌++◌, arith, ltb, leb, ◌==◌, Bool-cases, length,
  length-append, ok, raise_if, went_through,
}
use ubuntu_install_on_samsun.Prelude.Blob.{byte, byte-append, u16, u32}
use ubuntu_install_on_samsun.SuperImage.{
  Span, span_gap, truncated_payload, parse_chunks, parse_sparse, bisect_right, starts, span_at,
  read_part, read_spans, read,
}
use ubuntu_install_on_samsun.SuperImage.Sparse.{
  Contiguous, end_of, end_of-grows, parse_chunks-Contiguous, span_byte, logical_byte, IsPresent,
  AllPresent, read_part-bytes,
}

-- What a lookup gives for an address inside the image: the span that holds it.
record Found (file : List ℕ) (spans : List Span) (offset : ℕ) : Type 0 where
  span : Span
  looked_up : span_at (bisect_right (starts spans) offset) spans ≡ ok span
  above : span.start ≤ offset
  below : offset < span.start + span.size
  present : AllPresent file spans → IsPresent file span.kind span.position span.size
  bytes :
      (x : ℕ)
      → span.start ≤ x
      → x < span.start + span.size
      → logical_byte file spans x ≡ span_byte file span.kind span.position (x - span.start)

bisect_right-none :
    (base offset : ℕ) (spans : List Span)
    → Contiguous base spans
    → offset < base
    → bisect_right (starts spans) offset ≡ 0
bisect_right-none base offset [] c h = refl
bisect_right-none base offset (s ∷ spans) c h = ground (arith, c.0)

span_at-later :
    (n : ℕ) (s t : Span) (spans : List Span)
    → span_at n spans ≡ ok t
    → span_at (suc n) (s ∷ spans) ≡ ok t
span_at-later zero s t spans h = cc
span_at-later (suc n) s t spans h = h

find_span :
    (file : List ℕ) (base offset : ℕ) (spans : List Span)
    → Contiguous base spans
    → base ≤ offset
    → offset < end_of base spans
    → Found file spans offset
find_span file base offset [] c lo hi = absurd (omega arith)
find_span file base offset (s ∷ spans) (e, more, c) lo hi =
    let starts_here : leb s.start offset ≡ true = ground arith in
    elim (Bool-cases (ltb offset (base + s.size))) [
      | inl inside ↦
          let none_later = bisect_right-none (base + s.size) offset spans c (ground arith) in
          record {
            span = s;
            looked_up = rw (none_later, starts_here) refl;
            above = omega arith;
            below = ground arith;
            present = λ p. p.0;
            bytes =
                λ x l h. let here : ltb x (s.start + s.size) ≡ true = ground arith in rw here refl;
          }
      | inr behind ↦
          let later = find_span file (base + s.size) offset spans c (ground arith) hi in
          let lower =
            Contiguous_start (base + s.size) (bisect_right (starts spans) offset) spans later.span c
              later.looked_up in
          record {
            span = later.span;
            looked_up = rw starts_here (
                span_at-later (bisect_right (starts spans) offset) s later.span spans
                  later.looked_up);
            above = later.above;
            below = later.below;
            present = λ p. later.present p.1;
            bytes = λ x l h.
                let away : ltb x (s.start + s.size) ≡ false = ground arith in
                rw away (later.bytes x l h);
          }
    ]
  where
    Contiguous_start :
        (base n : ℕ) (spans : List Span) (t : Span)
        → Contiguous base spans
        → span_at n spans ≡ ok t
        → base ≤ t.start
    Contiguous_start base zero spans t c h = cc
    Contiguous_start base (suc n) [] t c h = cc
    Contiguous_start base (suc zero) (s ∷ spans) t c h = ground (arith, c.0)
    Contiguous_start base (suc (suc n)) (s ∷ spans) t (e, more, c) h =
        omega (arith, Contiguous_start (base + s.size) (suc n) spans t c h)

parse_sparse-Contiguous :
    (file : List ℕ) (spans : List Span)
    → parse_sparse file ≡ ok spans
    → Contiguous 0 spans × (end_of 0 spans ≡ u32 file 16 * u32 file 12)
unfolding parse_sparse
parse_sparse-Contiguous file spans h =
    let (u, e₁, r₁) =
      went_through
        (raise_if
          (not (u32 file 0 == 3978755898)
            || not (u16 file 4 == 1)
            || ltb (u16 file 8) 28
            || ltb (u16 file 10) 12)
          _)
        _ h in
    let (parsed, e₂, r₂) =
      went_through (parse_chunks file (u16 file 10) (u32 file 12) (u32 file 20) (u16 file 8) 0) _
        r₁ in
    let (v, e₃, r₃) =
      went_through (raise_if (not (parsed.1 == u32 file 16 * u32 file 12)) _) _ r₂ in
    let (c, l) =
      parse_chunks-Contiguous file (u16 file 10) (u32 file 12) (u32 file 20) (u16 file 8) 0 parsed
        e₂ in
    let same_size : parsed.1 ≡ u32 file 16 * u32 file 12 = ground arith in
    subst (λ ss. Contiguous 0 ss × (end_of 0 ss ≡ u32 file 16 * u32 file 12))
      (ok_value _ parsed.0 spans refl r₃) (c, sym l ∙ same_size)

-- Two parts that hold the bytes of one content, the second behind the first.
pub joined_bytes :
    (content : ℕ → ℕ) (part rest : List ℕ) (offset count size : ℕ)
    → length part ≡ count
    → ((k : ℕ) → k < count → byte part k ≡ content (offset + k))
    → ((k : ℕ) → k < size - count → byte rest k ≡ content (offset + count + k))
    → (k : ℕ) → k < size
    → byte (part ++ rest) k ≡ content (offset + k)
joined_bytes content part rest offset count size part_size part_bytes rest_bytes k l =
    elim (Bool-cases (ltb k count)) [
      | inl early ↦
          let k_early : k < count = ground arith in
          byte-append part rest k ∙ rw part_size (rw early (part_bytes k k_early))
      | inr late ↦
          let k_late : count ≤ k = ground arith in
          let tail : byte (part ++ rest) k ≡ byte rest (k - count) =
            byte-append part rest k ∙ rw (part_size, late) refl in
          let same_place : offset + count + (k - count) ≡ offset + k = omega arith in
          tail ∙ rest_bytes (k - count) (omega arith) ∙ ap content same_place
    ]

-- Enough fuel, and an address range inside the image, give every byte of the range.
read_spans-logical :
    (fuel : ℕ) (file : List ℕ) (spans : List Span) (offset size : ℕ)
    → Contiguous 0 spans
    → AllPresent file spans
    → size ≤ fuel
    → offset + size ≤ end_of 0 spans
    → (bs : List ℕ) × (read_spans fuel file spans offset size ≡ ok bs)
      × (length bs ≡ size)
      × ((k : ℕ) → k < size → byte bs k ≡ logical_byte file spans (offset + k))
unfolding read_spans
read_spans-logical fuel file spans offset zero c p f h =
    ([], refl, refl, λ k l. absurd (omega arith))
read_spans-logical zero file spans offset (suc more) c p f h = absurd (omega arith)
read_spans-logical (suc fuel) file spans offset (suc more) c p f h =
    let found = find_span file 0 offset spans c (omega arith) (omega arith) in
    let s = found.span in
    let count = min (suc more) (s.start + s.size - offset) in
    let inside : offset - s.start + count ≤ s.size = omega (arith, found.above, found.below) in
    let (part_size, part_bytes) =
      read_part-bytes file s.kind s.position s.size (offset - s.start) count (found.present p)
        inside in
    let part = read_part file s.kind s.position (offset - s.start) count in
    let some_read : (count == 0) ≡ false = ground (arith, found.below) in
    let whole : (length part == count) ≡ true = ground (arith, part_size) in
    let (rest, rest_read, rest_size, rest_bytes) =
      read_spans-logical fuel file spans (offset + count) (suc more - count) c p
        (omega (arith, found.below)) (omega arith) in
    (
      part ++ rest,
      rw (found.looked_up, some_read, whole, rest_read) refl,
      omega (arith, length-append part rest, part_size, rest_size),
      joined_bytes (logical_byte file spans) part rest offset count (suc more) part_size
          (λ k l.
            part_bytes k l
            ∙ ap (span_byte file s.kind s.position) (omega (arith, found.above))
            ∙ sym (
                found.bytes (offset + k) (omega (arith, found.above)) (omega (arith, found.below))))
          rest_bytes,
    )

-- A range of a sparse image whose payloads all stand in the file, inside its logical size, is
-- read whole: each byte is the one that the chunks give to its logical address, whatever chunks
-- the range crosses.
pub read-logical :
    (file : List ℕ) (spans : List Span) (offset size : ℕ)
    → parse_sparse file ≡ ok spans
    → AllPresent file spans
    → offset + size ≤ u32 file 16 * u32 file 12
    → (bs : List ℕ) × (read (record { file = file; spans = some spans }) offset size ≡ ok bs)
      × (length bs ≡ size)
      × ((k : ℕ) → k < size → byte bs k ≡ logical_byte file spans (offset + k))
unfolding read
read-logical file spans offset size h p inside =
    let (c, e) = parse_sparse-Contiguous file spans h in
    read_spans-logical size file spans offset size c p (omega arith) (omega arith)

span_at_end :
    (base n : ℕ) (spans : List Span) (t : Span)
    → Contiguous base spans
    → span_at n spans ≡ ok t
    → t.start + t.size ≤ end_of base spans
span_at_end base zero spans t c h = cc
span_at_end base (suc n) [] t c h = cc
span_at_end base (suc zero) (s ∷ spans) t (e, more, c) h =
    let same_span : s ≡ t = cc in
    subst (λ x. x.start + x.size ≤ end_of (base + s.size) spans) same_span
      (omega (arith, end_of-grows (base + s.size) spans))
span_at_end base (suc (suc n)) (s ∷ spans) t (e, more, c) h =
    span_at_end (base + s.size) (suc n) spans t c h

read_spans_inside :
    (fuel : ℕ) (file : List ℕ) (spans : List Span) (offset size : ℕ) (bs : List ℕ)
    → Contiguous 0 spans
    → 0 < size
    → read_spans fuel file spans offset size ≡ ok bs
    → offset + size ≤ end_of 0 spans
unfolding read_spans
read_spans_inside fuel file spans offset zero bs c some_size h = absurd (omega arith)
read_spans_inside zero file spans offset (suc more) bs c some_size h = cc
read_spans_inside (suc fuel) file spans offset (suc more) bs c some_size h =
    let (s, e₁, r₁) = went_through (span_at (bisect_right (starts spans) offset) spans) _ h in
    let count = min (suc more) (s.start + s.size - offset) in
    let (u, e₂, r₂) = went_through (raise_if (count == 0) span_gap) _ r₁ in
    let part = read_part file s.kind s.position (offset - s.start) count in
    let (v, e₃, r₃) = went_through (raise_if (not (length part == count)) truncated_payload) _ r₂ in
    let (rest, e₄, r₄) =
      went_through (read_spans fuel file spans (offset + count) (suc more - count)) _ r₃ in
    let in_span = span_at_end 0 (bisect_right (starts spans) offset) spans s c e₁ in
    let nonzero : 0 < count = ground arith in
    elim (Bool-cases (ltb 0 (suc more - count))) [
      | inl further ↦
          let later =
            read_spans_inside fuel file spans (offset + count) (suc more - count) rest c
              (ground arith) e₄ in
          omega arith
      | inr done ↦ let nothing_left : suc more ≤ count = ground arith in omega arith
    ]

-- No byte beyond the logical size is ever returned: a read of at least one byte that succeeds
-- lies inside it.
pub read_inside :
    (file : List ℕ) (spans : List Span) (offset size : ℕ) (bs : List ℕ)
    → parse_sparse file ≡ ok spans
    → 0 < size
    → read (record { file = file; spans = some spans }) offset size ≡ ok bs
    → offset + size ≤ u32 file 16 * u32 file 12
unfolding read
read_inside file spans offset size bs h some_size r =
    let (c, e) = parse_sparse-Contiguous file spans h in
    let inside = read_spans_inside size file spans offset size bs c some_size r in omega arith
