-- ===== src/Display/Socket/Framing.antt =====
-- How a request line is put together from segments, and what a connection can change.
use ubuntu_install_on_samsun.Prelude.{
  is_ascii, ℕ, zero, suc, ◌+◌, ◌-◌, ◌≤◌, ◌<◌, min, ◌≡◌, refl, ap, ◌≢◌, ◌⊎◌, inl, inr, Bool, true,
  false, not, ◌&&◌, none, some, List, [], ◌∷◌, ◌++◌, append-nil, append_assoc, arith, ltb, ◌==◌,
  Bool-cases, length, take, drop, length-append, ok, err, Result-cases,
}
use ubuntu_install_on_samsun.Display.Settings.{Display, Status}
use ubuntu_install_on_samsun.Display.Request.{request}
use ubuntu_install_on_samsun.Display.Socket.{
  out_of_fuel, ends_with_newline, push_back, receive, serve, handle,
}

-- A request line: its only newline is its last character.
abbrev pub is_line : List ℕ → Bool
is_line [] = false
is_line (c ∷ []) = c == 10
is_line (c ∷ rest) = not (c == 10) && is_line rest

abbrev pub flatten : List (List ℕ) → List ℕ
flatten [] = []
flatten (s ∷ rest) = s ++ flatten rest

abbrev pub no_empty : List (List ℕ) → Bool
no_empty [] = true
no_empty ([] ∷ rest) = false
no_empty (s ∷ rest) = no_empty rest

is_line-ends : (line : List ℕ) → is_line line ≡ true → ends_with_newline line ≡ true
is_line-ends [] h = cc
is_line-ends (c ∷ []) h = h
is_line-ends (c ∷ d ∷ rest) h = is_line-ends (d ∷ rest) (ground arith)

part-not-ends :
    (line : List ℕ) (c : ℕ) (rest : List ℕ)
    → is_line (line ++ c ∷ rest) ≡ true
    → ends_with_newline line ≡ false
part-not-ends [] c rest h = refl
part-not-ends (x ∷ []) c rest h = ground arith
part-not-ends (x ∷ y ∷ line) c rest h = part-not-ends (y ∷ line) c rest (ground arith)

take-all : (n : ℕ) (xs : List ℕ) → length xs ≤ n → take n xs ≡ xs
take-all zero [] h = refl
take-all zero (x ∷ xs) h = elim h [ ]
take-all (suc n) [] h = refl
take-all (suc n) (x ∷ xs) h = ap (◌∷◌ x) (take-all n xs (omega arith))

drop-all : (n : ℕ) (xs : List ℕ) → length xs ≤ n → drop n xs ≡ []
drop-all zero [] h = refl
drop-all zero (x ∷ xs) h = elim h [ ]
drop-all (suc n) [] h = refl
drop-all (suc n) (x ∷ xs) h = drop-all n xs (omega arith)

receive_rest :
    (fuel : ℕ) (line : List ℕ) (segments : List (List ℕ))
    → no_empty segments ≡ true
    → is_line (line ++ flatten segments) ≡ true
    → length (line ++ flatten segments) ≤ 64
    → 64 < fuel + length line
    → receive fuel line segments ≡ ok (line ++ flatten segments)
unfolding receive
receive_rest zero line segments full whole short f =
    absurd (omega (arith, length-append line (flatten segments)))
receive_rest (suc fuel) line [] full whole short f =
    rw (append-nil line) (rw (is_line-ends line (rw (← append-nil line) whole)) refl)
receive_rest (suc fuel) line ([] ∷ rest) full whole short f = cc
receive_rest (suc fuel) line ((c ∷ s) ∷ rest) full whole short f =
    let unended = part-not-ends line c (s ++ flatten rest) whole in
    let sizes = length-append line (c ∷ s ++ flatten rest) in
    let parts = length-append s (flatten rest) in
    let fits : length (c ∷ s) ≤ 65 - length line = omega (arith, sizes, parts) in
    let not_long : ltb 64 (length line) ≡ false = ground (arith, sizes) in
    let joined = append_assoc line (c ∷ s) (flatten rest) in
    let ih =
      receive_rest fuel (line ++ c ∷ s) rest full (rw joined whole) (rw joined short)
        (omega (arith, length-append line (c ∷ s))) in
    rw (unended, not_long, take-all _ (c ∷ s) fits, drop-all _ (c ∷ s) fits) (rw joined at ih)

-- A request line of at most 64 bytes is received whole however the peer cuts it into segments.
pub receive_any_segmentation :
    (segments : List (List ℕ))
    → no_empty segments ≡ true
    → is_line (flatten segments) ≡ true
    → length (flatten segments) ≤ 64
    → receive 66 [] segments ≡ ok (flatten segments)
receive_any_segmentation segments full whole short =
    receive_rest 66 [] segments full whole short (omega arith)

length-take : (n : ℕ) (xs : List ℕ) → length (take n xs) ≡ min n (length xs)
length-take zero xs = omega arith
length-take (suc n) [] = omega arith
length-take (suc n) (x ∷ xs) = omega (arith, length-take n xs)

receive_total :
    (fuel : ℕ) (line : List ℕ) (segments : List (List ℕ))
    → length line ≤ 65
    → 65 < fuel + length line
    → receive fuel line segments ≢ err out_of_fuel
unfolding receive
receive_total zero line segments short f e = omega arith
receive_total (suc fuel) line [] short f e = ground arith
receive_total (suc fuel) line ([] ∷ rest) short f e = ground arith
receive_total (suc fuel) line ((c ∷ s) ∷ rest) short f e =
    elim (Bool-cases (ltb 64 (length line))) [
      | inl long ↦ ground arith
      | inr room ↦
          let part = take (65 - length line) (c ∷ s) in
          let sizes = length-append line part in
          let size = length-take (65 - length line) (c ∷ s) in
          let not_long : length line ≤ 64 = ground arith in
          let ih =
            receive_total fuel (line ++ part) (push_back (drop (65 - length line) (c ∷ s)) rest)
              (omega (arith, sizes, size)) (omega (arith, sizes, size)) in
          ground arith
    ]

receive_result :
    (fuel : ℕ) (line : List ℕ) (segments : List (List ℕ)) (l : List ℕ)
    → receive fuel line segments ≡ ok l
    → (ends_with_newline l ≡ true) ⊎ (64 < length l)
unfolding receive
receive_result zero line segments l e = cc
receive_result (suc fuel) line [] l e = ground arith
receive_result (suc fuel) line ([] ∷ rest) l e = ground arith
receive_result (suc fuel) line ((c ∷ s) ∷ rest) l e = ground (
  arith,
  receive_result fuel (line ++ take (65 - length line) (c ∷ s))
      (push_back (drop (65 - length line) (c ∷ s)) rest) l,
)

-- A connection that was answered: from root or the owner, with a whole ASCII line of at most 64
-- bytes that the request handler accepted.
pub record IsAnswered (owner_uid uid now : ℕ) (segments : List (List ℕ)) (d d' : Display)
    (answer : Status) : Type 0 where
  pub line : List ℕ
  pub authorized : (uid ≡ 0) ⊎ (uid ≡ owner_uid)
  pub received : receive 66 [] segments ≡ ok line
  pub ended : ends_with_newline line ≡ true
  pub bounded : length line ≤ 64
  pub ascii : is_ascii line ≡ true
  pub accepted : request now line d ≡ ok (answer, d')

serve-IsAnswered :
    (owner_uid uid now : ℕ) (segments : List (List ℕ)) (d d' : Display) (answer : Status)
    → serve owner_uid uid now segments d ≡ ok (answer, d')
    → IsAnswered owner_uid uid now segments d d' answer
unfolding serve
serve-IsAnswered owner_uid uid now segments d d' answer h =
    elim (Result-cases (receive 66 [] segments)) [
      | inl (line, e) ↦ record {
        line = line;
        authorized = ground arith;
        received = e;
        ended = ground (arith, receive_result 66 [] segments line e);
        bounded = ground arith;
        ascii = ground arith;
        accepted = ground arith;
      }
      | inr (e, failed) ↦ absurd (ground arith)
    ]

-- Whatever bytes a peer sends and whoever it is, a connection either gets the error line and
-- leaves the state as it was, or comes from root or the owner, holds one whole ASCII line of at
-- most 64 bytes that the request handler accepts, and has exactly that request's effect.
pub handle_outcome :
    (owner_uid uid now : ℕ) (segments : List (List ℕ)) (d : Display)
    → (handle owner_uid uid now segments d ≡ (none, d))
      ⊎ ((answer : Status) × (d' : Display) × IsAnswered owner_uid uid now segments d d' answer
          × (handle owner_uid uid now segments d ≡ (some answer, d')))
unfolding handle
handle_outcome owner_uid uid now segments d =
    elim (Result-cases (serve owner_uid uid now segments d)) [
      | inl ((answer, d'), e) ↦
          inr (answer, d', serve-IsAnswered owner_uid uid now segments d d' answer e, rw e)
      | inr (x, e) ↦ inl (rw e)
    ]
