-- ===== src/Bluetooth/Controller/Answers.antt =====
-- How many events a download waits for, and that it goes through once they are there.
use ubuntu_install_on_samsun.Prelude.{
  ℕ, zero, suc, ◌+◌, ◌*◌, ◌≤◌, min, ◌≡◌, refl, sym, ap, ◌∙◌, Bool, true, false, not, ◌&&◌, List, [],
  ◌∷◌, ◌++◌, map, append-nil, append_assoc, arith, ◌==◌, if◌then◌else◌, length, drop, length-append,
  ok, ◌>>=◌,
}
use ubuntu_install_on_samsun.Bluetooth.Transport.{Uart, send, written}
use ubuntu_install_on_samsun.Bluetooth.Transport.Framing.{event_of, read_event_framed}
use ubuntu_install_on_samsun.Bluetooth.Controller.{
  patch_opcode, skip_event, skip_event_if, segments, total, is_last, download_segment,
  download_segments, mode_of, download_tlv,
}
use ubuntu_install_on_samsun.Bluetooth.Controller.Download.{is_short, all_short, segments-short}

-- The events of some answers, one behind the other.
abbrev pub stream : List (ℕ × List ℕ) → List ℕ
stream [] = []
stream (a ∷ more) = event_of a ++ stream more

abbrev pub download_command : List ℕ → List ℕ
download_command segment = 1 ∷ 0 ∷ 252 ∷ (length segment + 2) ∷ 30 ∷ length segment ∷ segment

-- A quiet patch is answered once, at its end; else a legacy controller answers each segment of
-- the calibration image twice, and there is one answer for a segment in every other case.
abbrev pub answers_needed : Bool → Bool → Bool → ℕ → ℕ
answers_needed unified patch quiet n =
    if quiet then min n 1 else if not unified && not patch then 2 * n else n

send_download :
    (segment : List ℕ) (uart : Uart)
    → is_short segment ≡ true
    → send patch_opcode (30 ∷ length segment ∷ segment) uart
      ≡ ok (written (download_command segment) uart)
send_download segment uart h = ground arith

skip_one :
    (a : ℕ × List ℕ) (rest : List ℕ) (writes : List (List ℕ))
    → skip_event (record { incoming = event_of a ++ rest; writes = writes })
      ≡ ok (record { incoming = rest; writes = writes })
skip_one (code, content) rest writes =
    rw (read_event_framed false [] content rest code writes refl, append-nil writes)

abbrev count : Bool → ℕ
count b = if b then 1 else 0

-- Two waits, either of which may be left out.
skip_twice :
    (first second : Bool) (here : List (ℕ × List ℕ)) (rest : List ℕ) (writes : List (List ℕ))
    → length here ≡ count first + count second
    → (skip_event_if first (record { incoming = stream here ++ rest; writes = writes })
        >>= skip_event_if second)
      ≡ ok (record { incoming = rest; writes = writes })
skip_twice false false [] rest writes h = refl
skip_twice false true (a ∷ []) rest writes h =
    ap (λ s. skip_event (record { incoming = s; writes = writes }))
      (append_assoc (event_of a) [] rest)
    ∙ skip_one a rest writes
skip_twice true false (a ∷ []) rest writes h =
    ap (λ s. skip_event (record { incoming = s; writes = writes }) >>= skip_event_if false)
      (append_assoc (event_of a) [] rest)
    ∙ ap (λ r. r >>= skip_event_if false) (skip_one a rest writes)
skip_twice true true (a ∷ b ∷ []) rest writes h =
    ap (λ s. skip_event (record { incoming = s; writes = writes }) >>= skip_event)
      (append_assoc (event_of a) (event_of b ++ []) rest
        ∙ ap (λ s. event_of a ++ s) (append_assoc (event_of b) [] rest))
    ∙ ap (λ r. r >>= skip_event) (skip_one a (event_of b ++ rest) writes)
    ∙ skip_one b rest writes
skip_twice false false (a ∷ here) rest writes h = absurd (omega arith)
skip_twice false true [] rest writes h = absurd (omega arith)
skip_twice true false [] rest writes h = absurd (omega arith)
skip_twice true true [] rest writes h = absurd (omega arith)
skip_twice true true (a ∷ []) rest writes h = absurd (omega arith)
skip_twice false true (a ∷ b ∷ here) rest writes h = absurd (omega arith)
skip_twice true false (a ∷ b ∷ here) rest writes h = absurd (omega arith)
skip_twice true true (a ∷ b ∷ c ∷ here) rest writes h = absurd (omega arith)

stream-append : (xs ys : List (ℕ × List ℕ)) → stream (xs ++ ys) ≡ stream xs ++ stream ys
stream-append [] ys = refl
stream-append (x ∷ xs) ys = rw (stream-append xs ys) (sym (append_assoc (event_of x) _ _))

cut :
    (k : ℕ) (xs : List (ℕ × List ℕ))
    → k ≤ length xs
    → (front back : List (ℕ × List ℕ)) × (xs ≡ front ++ back) × (length front ≡ k)
cut zero xs h = ([], xs, refl, refl)
cut (suc k) [] h = absurd (omega arith)
cut (suc k) (x ∷ xs) h =
    let (front, back, e, l) = cut k xs (omega arith) in
    (x ∷ front, back, ap (λ ys. x ∷ ys) e, omega arith)

module _ (unified patch quiet : Bool) where
  abbrev answered : Bool → ℕ
  answered last =
      let waits = not (quiet && not last) in
      count waits + count (waits && (not unified && not patch))

  needed : List (List ℕ) → ℕ
  needed [] = 0
  needed (segment ∷ later) = answered (is_last later) + needed later

  download_segment_goes :
      (segment : List ℕ) (last : Bool) (here : List (ℕ × List ℕ)) (rest : List ℕ)
      (writes : List (List ℕ))
      → is_short segment ≡ true
      → length here ≡ answered last
      → download_segment unified patch quiet segment last
          (record { incoming = stream here ++ rest; writes = writes })
        ≡ ok (record { incoming = rest; writes = writes ++ download_command segment ∷ [] })
  unfolding download_segment
  download_segment_goes segment last here rest writes short enough =
      rw (send_download segment (record { incoming = stream here ++ rest; writes = writes }) short)
        (skip_twice _ _ here rest (writes ++ download_command segment ∷ []) enough)

  download_segments_go :
      (parts : List (List ℕ)) (answers : List (ℕ × List ℕ)) (rest : List ℕ) (writes : List (List ℕ))
      → all_short parts ≡ true
      → length answers ≡ needed parts
      → download_segments unified patch quiet parts
          (record { incoming = stream answers ++ rest; writes = writes })
        ≡ ok (record { incoming = rest; writes = writes ++ map download_command parts })
  unfolding download_segments needed
  download_segments_go [] [] rest writes short enough = rw (append-nil writes)
  download_segments_go [] (a ∷ answers) rest writes short enough = absurd (omega arith)
  download_segments_go (segment ∷ later) answers rest writes short enough =
      let (here, back, e, l) = cut (answered (is_last later)) answers (omega arith) in
      let sizes : length answers ≡ length here + length back =
        ap length e ∙ length-append here back in
      let input : stream answers ++ rest ≡ stream here ++ (stream back ++ rest) =
        ap (λ s. stream s ++ rest) e
        ∙ ap (λ s. s ++ rest) (stream-append here back)
        ∙ append_assoc (stream here) (stream back) rest in
      let now =
        download_segment_goes segment (is_last later) here (stream back ++ rest) writes
          (ground arith) l in
      let then_on =
        download_segments_go later back rest (writes ++ download_command segment ∷ [])
          (ground arith) (omega arith) in
      let joined : (writes ++ download_command segment ∷ []) ++ map download_command later
          ≡ writes ++ (download_command segment ∷ map download_command later) =
        append_assoc writes (download_command segment ∷ []) (map download_command later) in
      rw (input, now, then_on, joined)

needed_closed :
    (unified patch three : Bool) (n : ℕ) (blob : List ℕ)
    → needed unified patch (patch && three) (segments n blob)
      ≡ answers_needed unified patch (patch && three) n
unfolding needed
needed_closed true true true zero blob = refl
needed_closed true true false zero blob = refl
needed_closed true false three zero blob = refl
needed_closed false true true zero blob = refl
needed_closed false true false zero blob = refl
needed_closed false false three zero blob = refl
needed_closed true true true (suc zero) blob = refl
needed_closed true true false (suc zero) blob = refl
needed_closed true false three (suc zero) blob = refl
needed_closed false true true (suc zero) blob = refl
needed_closed false true false (suc zero) blob = refl
needed_closed false false three (suc zero) blob = refl
needed_closed true true true (suc (suc n)) blob =
    omega (arith, needed_closed true true true (suc n) (drop 243 blob))
needed_closed true true false (suc (suc n)) blob =
    omega (arith, needed_closed true true false (suc n) (drop 243 blob))
needed_closed true false three (suc (suc n)) blob =
    omega (arith, needed_closed true false three (suc n) (drop 243 blob))
needed_closed false true true (suc (suc n)) blob =
    omega (arith, needed_closed false true true (suc n) (drop 243 blob))
needed_closed false true false (suc (suc n)) blob =
    omega (arith, needed_closed false true false (suc n) (drop 243 blob))
needed_closed false false three (suc (suc n)) blob =
    omega (arith, needed_closed false false three (suc n) (drop 243 blob))

-- A download goes through once its answers are there, any events of the right number: one if it
-- is a patch in mode 3, two for each segment of a calibration image of a legacy controller, and
-- one for each segment else. It sends one command for each 243 bytes and leaves what follows.
pub download_tlv_completes :
    (patch unified : Bool) (blob : List ℕ) (mode : ℕ) (answers : List (ℕ × List ℕ)) (rest : List ℕ)
    (writes : List (List ℕ))
    → mode_of patch blob ≡ ok mode
    → length answers ≡ answers_needed unified patch (patch && mode == 3) (total blob)
    → download_tlv patch blob (record {
      uart = record { incoming = stream answers ++ rest; writes = writes };
      unified = unified;
    })
      ≡ ok (record {
        uart = record {
          incoming = rest;
          writes = writes ++ map download_command (segments (total blob) blob);
        };
        unified = unified;
      })
unfolding download_tlv
download_tlv_completes patch unified blob mode answers rest writes e h =
    let enough = h ∙ sym (needed_closed unified patch (mode == 3) (total blob) blob) in
    let short = segments-short (total blob) blob in
    rw (
      e,
      download_segments_go unified patch (patch && mode == 3) (segments (total blob) blob) answers
          rest writes short enough,
    )
