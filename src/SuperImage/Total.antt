-- ===== src/SuperImage/Total.antt =====
-- The rounds of a sparse read are enough: each one reads a byte or more.
use ubuntu_install_on_samsun.Prelude.{
  ℕ, zero, suc, ◌+◌, ◌-◌, ◌≤◌, min, ◌≡◌, refl, ◌≢◌, inl, inr, Bool, true, false, not, Option, none,
  some, List, arith, ◌==◌, Option-cases, length, get_elem?, ok, err, raise_if, went_wrong,
  raise_if_spares,
}
use ubuntu_install_on_samsun.SuperImage.{
  beyond_image, span_gap, truncated_payload, out_of_fuel, Span, Reader, bisect_right, starts,
  span_at, read_part, read_spans, read_image, read,
}
use ubuntu_install_on_samsun.Prelude.Blob.{slice}

span_at_total : (n : ℕ) (spans : List Span) → span_at n spans ≢ err out_of_fuel
span_at_total zero spans h = absurd (cc)
span_at_total (suc n) spans h = elim (Option-cases (get_elem? spans n)) [
  | inl absent ↦ absurd (ground (arith, absent, h))
  | inr (s, present) ↦ absurd (ground (arith, present, h))
]

some_count : (test : Bool) (u : Unit {0}) → raise_if test span_gap ≡ ok u → test ≡ false
some_count true u h = absurd (cc)
some_count false u h = refl

read_spans_total :
    (fuel : ℕ) (file : List ℕ) (spans : List Span) (offset size : ℕ)
    → size ≤ fuel
    → read_spans fuel file spans offset size ≢ err out_of_fuel
unfolding read_spans
read_spans_total fuel file spans offset zero enough h = absurd (cc)
read_spans_total zero file spans offset (suc more) enough h = absurd (omega arith)
read_spans_total (suc fuel) file spans offset (suc more) enough h =
    elim (went_wrong (span_at (bisect_right (starts spans) offset) spans) _ h) [
      | inl first ↦ span_at_total (bisect_right (starts spans) offset) spans first
      | inr (s, found, h₁) ↦
          let count = min (suc more) (s.start + s.size - offset) in
          let part = read_part file s.kind s.position (offset - s.start) count in
          elim (went_wrong (raise_if (count == 0) span_gap) _ h₁) [
            | inl gap ↦ raise_if_spares (count == 0) span_gap out_of_fuel (λ e. absurd (cc)) gap
            | inr (u, no_gap, h₂) ↦
                elim (went_wrong (raise_if (not (length part == count)) truncated_payload) _ h₂) [
                  | inl cut ↦
                      raise_if_spares (not (length part == count)) truncated_payload out_of_fuel
                        (λ e. absurd (cc)) cut
                  | inr (v, whole, h₃) ↦
                      let moved = some_count (count == 0) u no_gap in
                      let less : suc more - count ≤ fuel = ground (arith, moved, enough) in
                      elim (went_wrong
                        (read_spans fuel file spans (offset + count) (suc more - count)) _ h₃) [
                          | inl later ↦
                              read_spans_total fuel file spans (offset + count) (suc more - count)
                                less later
                          | inr (rest, done, h₄) ↦ absurd (cc)
                        ]
                ]
          ]
    ]

read_image_total :
    (spans : Option (List Span)) (file : List ℕ) (offset size : ℕ)
    → read_image spans file offset size ≢ err out_of_fuel
unfolding read_image
read_image_total none file offset size h =
    elim (went_wrong (raise_if (not (length (slice file offset size) == size)) beyond_image) _ h) [
      | inl beyond ↦
          raise_if_spares (not (length (slice file offset size) == size)) beyond_image out_of_fuel
            (λ e. absurd (cc)) beyond
      | inr (u, inside, done) ↦ absurd (cc)
    ]
read_image_total (some spans) file offset size h =
    read_spans_total size file spans offset size (omega arith) h

-- Every read, of a raw and of a sparse image, ends with bytes or an error of the code.
pub read_total : (reader : Reader) (offset size : ℕ) → read reader offset size ≢ err out_of_fuel
unfolding read
read_total reader offset size h = read_image_total reader.spans reader.file offset size h
