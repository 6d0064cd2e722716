-- ===== src/PenGuard/Chunks.antt =====
-- The packets do not depend on how the bytes are cut into chunks.
use ubuntu_install_on_samsun.Prelude.{
  concat, ℕ, zero, suc, ◌≤◌, ◌<◌, ◌≡◌, refl, sym, ap, ◌∙◌, inl, inr, true, false, List, [], ◌∷◌,
  ◌++◌, append-nil, append_assoc, arith, leb, Bool-cases, length, take, drop, length-append,
}
use ubuntu_install_on_samsun.Prelude.Blob.{length-drop}
use ubuntu_install_on_samsun.PenGuard.{Packet, take_packets, read_chunks}

-- More fuel than bytes changes nothing.
take_packets_fuel :
    (f g : ℕ) (pending : List ℕ)
    → length pending ≤ f
    → length pending ≤ g
    → take_packets f pending ≡ take_packets g pending
unfolding take_packets
take_packets_fuel zero zero pending p q = refl
take_packets_fuel zero (suc g) pending p q =
    let short : leb 24 (length pending) ≡ false = ground arith in rw short refl
take_packets_fuel (suc f) zero pending p q =
    let short : leb 24 (length pending) ≡ false = ground arith in rw short refl
take_packets_fuel (suc f) (suc g) pending p q = elim (Bool-cases (leb 24 (length pending))) [
  | inl long ↦
      let less = length-drop 24 pending in
      rw (take_packets_fuel f g (drop 24 pending) (ground arith) (ground arith)) refl
  | inr short ↦ rw short refl
]

take-longer : (n : ℕ) (xs ys : List ℕ) → n ≤ length xs → take n (xs ++ ys) ≡ take n xs
take-longer zero xs ys h = refl
take-longer (suc n) [] ys h = absurd (omega arith)
take-longer (suc n) (x ∷ xs) ys h = rw (take-longer n xs ys (omega arith)) refl

drop-longer : (n : ℕ) (xs ys : List ℕ) → n ≤ length xs → drop n (xs ++ ys) ≡ drop n xs ++ ys
drop-longer zero xs ys h = refl
drop-longer (suc n) [] ys h = absurd (omega arith)
drop-longer (suc n) (x ∷ xs) ys h = drop-longer n xs ys (omega arith)

abbrev pub packets : List ℕ → List Packet × List ℕ
packets bytes = take_packets (length bytes) bytes

abbrev glued : List Packet × List ℕ → List ℕ → List Packet × List ℕ
glued now more = (now.0 ++ (packets (now.1 ++ more)).0, (packets (now.1 ++ more)).1)

-- Packets taken first, and then again with more bytes behind what was pending, are those of all
-- the bytes.
take_packets-append :
    (f : ℕ) (pending more : List ℕ)
    → length pending ≤ f
    → packets (pending ++ more) ≡ glued (take_packets f pending) more
unfolding take_packets
take_packets-append zero pending more h = refl
take_packets-append (suc f) pending more h = elim (Bool-cases (leb 24 (length pending))) [
  | inl long ↦
      let whole = length-append pending more in
      let behind = length-drop 24 pending in
      let fits : 24 ≤ length pending = ground arith in
      let rest = drop 24 pending in
      let total = length (pending ++ more) in
      let start : packets (pending ++ more) ≡ take_packets (suc total) (pending ++ more) =
        take_packets_fuel total (suc total) (pending ++ more) (omega arith) (omega arith) in
      let longer : leb 24 (length (pending ++ more)) ≡ true = ground arith in
      let rest_long = length-append rest more in
      let tail : take_packets total (rest ++ more) ≡ glued (take_packets f rest) more =
        take_packets_fuel total (length (rest ++ more)) (rest ++ more) (omega arith) (omega arith)
        ∙ take_packets-append f rest more (omega arith) in
      start
      ∙ rw (longer, long, take-longer 24 pending more fits, drop-longer 24 pending more fits, tail)
          refl
  | inr short ↦ rw short refl
]

packets_short :
    (f : ℕ) (pending : List ℕ) → length pending < 24 → take_packets f pending ≡ ([], pending)
unfolding take_packets
packets_short zero pending h = refl
packets_short (suc f) pending h =
    let short : leb 24 (length pending) ≡ false = ground arith in rw short refl

left_short :
    (f : ℕ) (pending : List ℕ) → length pending ≤ f → length (take_packets f pending).1 < 24
unfolding take_packets
left_short zero pending h = omega arith
left_short (suc f) pending h = elim (Bool-cases (leb 24 (length pending))) [
  | inl long ↦
      let less = length-drop 24 pending in rw long (left_short f (drop 24 pending) (ground arith))
  | inr short ↦ rw short (ground arith)
]

-- Reading chunks, whatever their sizes, gives the packets of all the bytes that were read, in
-- order, and leaves the same bytes pending.
pub read_chunks_any :
    (chunks : List (List ℕ)) (pending : List ℕ)
    → length pending < 24
    → read_chunks pending chunks ≡ packets (pending ++ concat chunks)
unfolding read_chunks
read_chunks_any [] pending short =
    sym (ap packets (append-nil pending) ∙ packets_short (length pending) pending short)
read_chunks_any (chunk ∷ chunks) pending short =
    let bytes = pending ++ chunk in
    let now = take_packets (length bytes) bytes in
    let later = read_chunks_any chunks now.1 (left_short (length bytes) bytes (omega arith)) in
    let whole = take_packets-append (length bytes) bytes (concat chunks) (omega arith) in
    rw later (sym (ap packets (sym (append_assoc pending chunk (concat chunks))) ∙ whole))
