-- ===== src/Bluetooth/Transport/Framing.antt =====
-- The wait for an event: it takes the event whole, whatever stands before it, and writes nothing
-- but wake acknowledgements.
use ubuntu_install_on_samsun.Prelude.{
  ℕ, ◌≡◌, refl, sym, ap, ◌∙◌, inl, inr, Bool, true, false, not, ◌&&◌, ◌||◌, List, [], ◌∷◌, ◌++◌,
  append-nil, append_assoc, arith, ltb, ◌==◌, if◌then◌else◌, Bool-cases, length, take, drop,
  length-append, ok,
}
use ubuntu_install_on_samsun.Bluetooth.Transport.{Uart, wake_ack, read_body, read_from, read_event}

-- An event as it comes from the controller.
abbrev pub event_of : ℕ × List ℕ → List ℕ
event_of (code, content) = 4 ∷ code ∷ length content ∷ content

-- A byte that no wait stops at.
abbrev pub is_noise : Bool → ℕ → Bool
is_noise allow_ibs_ack b = not (b == 4) && not ((b == wake_ack || b == 254) && allow_ibs_ack)

abbrev pub all_noise : Bool → List ℕ → Bool
all_noise allow_ibs_ack [] = true
all_noise allow_ibs_ack (b ∷ bs) = is_noise allow_ibs_ack b && all_noise allow_ibs_ack bs

-- One acknowledgement for each wake indication.
abbrev pub acknowledgements : List ℕ → List (List ℕ)
acknowledgements [] = []
acknowledgements (b ∷ bs) =
    let later = acknowledgements bs in if b == 253 then (wake_ack ∷ []) ∷ later else later

read_from_noise :
    (allow_ibs_ack : Bool) (noise rest : List ℕ) (writes : List (List ℕ))
    → all_noise allow_ibs_ack noise ≡ true
    → read_from allow_ibs_ack (noise ++ 4 ∷ rest) writes
      ≡ read_body rest (writes ++ acknowledgements noise)
unfolding read_from
read_from_noise allow_ibs_ack [] rest writes h = rw (append-nil writes)
read_from_noise allow_ibs_ack (b ∷ noise) rest writes h = elim (Bool-cases (b == 253)) [
  | inl wake ↦
      let ih =
        read_from_noise allow_ibs_ack noise rest (writes ++ (wake_ack ∷ []) ∷ []) (ground arith) in
      let joined : (writes ++ (wake_ack ∷ []) ∷ []) ++ acknowledgements noise
          ≡ writes ++ acknowledgements (b ∷ noise) =
        rw wake (append_assoc writes _ _) in
      let both = ih ∙ ap (read_body rest) joined in ground (arith, both)
  | inr other ↦
      let ih = read_from_noise allow_ibs_ack noise rest writes (ground arith) in ground (arith, ih)
]

take-front : (xs ys : List ℕ) → take (length xs) (xs ++ ys) ≡ xs
take-front [] ys = refl
take-front (x ∷ xs) ys = rw (take-front xs ys)

drop-front : (xs ys : List ℕ) → drop (length xs) (xs ++ ys) ≡ ys
drop-front [] ys = refl
drop-front (x ∷ xs) ys = drop-front xs ys

-- An event is returned whole behind any bytes that are no packet start, and what follows it stays
-- to be read; every wake indication before it is acknowledged, once and in order.
pub read_event_framed :
    (allow_ibs_ack : Bool) (noise content rest : List ℕ) (code : ℕ) (writes : List (List ℕ))
    → all_noise allow_ibs_ack noise ≡ true
    → read_event allow_ibs_ack
        (record { incoming = noise ++ (event_of (code, content) ++ rest); writes = writes })
      ≡ ok (
          (
            event_of (code, content),
            record { incoming = rest; writes = writes ++ acknowledgements noise },
          ))
read_event_framed allow_ibs_ack noise content rest code writes h =
    let long : ltb (length (content ++ rest)) (length content) ≡ false =
      ground (arith, length-append content rest) in
    read_from_noise allow_ibs_ack noise (code ∷ length content ∷ (content ++ rest)) writes h
    ∙ rw (long, take-front content rest, drop-front content rest)

-- What the download commands among some writes carry, in order.
abbrev pub payload : List ℕ → List ℕ
payload (packet ∷ low ∷ high ∷ size ∷ request ∷ count ∷ segment) =
    if packet == 1 && low == 0 && high == 252 && request == 30 then segment else []
payload _ = []

abbrev pub payloads : List (List ℕ) → List ℕ
payloads [] = []
payloads (w ∷ ws) = payload w ++ payloads ws

pub payloads-append : (xs ys : List (List ℕ)) → payloads (xs ++ ys) ≡ payloads xs ++ payloads ys
payloads-append [] ys = refl
payloads-append (x ∷ xs) ys = rw (payloads-append xs ys) (sym (append_assoc (payload x) _ _))

pub payloads-one :
    (xs : List (List ℕ)) (w : List ℕ) → payloads (xs ++ w ∷ []) ≡ payloads xs ++ payload w
payloads-one xs w =
    payloads-append xs (w ∷ []) ∙ ap (λ p. payloads xs ++ p) (append-nil (payload w))

read_body-payloads :
    (rest : List ℕ) (writes : List (List ℕ)) (event : List ℕ) (after : Uart)
    → read_body rest writes ≡ ok ((event, after))
    → after.writes ≡ writes
read_body-payloads [] writes event after h = cc
read_body-payloads (code ∷ []) writes event after h = cc
read_body-payloads (code ∷ size ∷ rest) writes event after h = ground arith

pub read_from-payloads :
    (allow_ibs_ack : Bool) (incoming : List ℕ) (writes : List (List ℕ)) (event : List ℕ)
    (after : Uart)
    → read_from allow_ibs_ack incoming writes ≡ ok ((event, after))
    → payloads after.writes ≡ payloads writes
unfolding read_from
read_from-payloads allow_ibs_ack [] writes event after h = cc
read_from-payloads allow_ibs_ack (packet_type ∷ rest) writes event after h =
    elim (Bool-cases (packet_type == 4)) [
      | inl start ↦ ap payloads (read_body-payloads rest writes event after (ground arith))
      | inr other ↦
          elim (Bool-cases ((packet_type == wake_ack || packet_type == 254) && allow_ibs_ack)) [
            | inl single ↦
                let none_written : after.writes ≡ writes = ground arith in ap payloads none_written
            | inr more ↦ elim (Bool-cases (packet_type == 253)) [
              | inl wake ↦
                  read_from-payloads allow_ibs_ack rest (writes ++ (wake_ack ∷ []) ∷ []) event after
                    (ground arith)
                  ∙ payloads-one writes (wake_ack ∷ [])
                  ∙ append-nil (payloads writes)
              | inr ignored ↦
                  read_from-payloads allow_ibs_ack rest writes event after (ground arith)
            ]
          ]
    ]
