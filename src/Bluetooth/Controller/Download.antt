-- ===== src/Bluetooth/Controller/Download.antt =====
-- What a download sends and how many answers it waits for, and what a whole start loads.
use mathlib.Core.Path.{subst}
use ubuntu_install_on_samsun.Prelude.{
  concat, ℕ, zero, suc, ◌*◌, ◌/◌, ◌%◌, ◌≤◌, ◌≡◌, refl, sym, ap, ◌∙◌, Bool, true, false, not, ◌&&◌,
  ◌||◌, List, [], ◌∷◌, ◌++◌, append-nil, append_assoc, arith, leb, ◌==◌, length, take, drop,
  take-append-drop, ok, raise_if, went_through,
}
use ubuntu_install_on_samsun.Prelude.Blob.{length-drop}
use ubuntu_install_on_samsun.Bluetooth.Transport.{Uart, send, written, hci_command, read_event}
use ubuntu_install_on_samsun.Bluetooth.Transport.Framing.{
  payload, payloads, payloads-one, read_from-payloads,
}
use ubuntu_install_on_samsun.Bluetooth.Controller.{
  Controller, patch_opcode, skip_event, skip_event_if, max_tlv_segment, segments, total, is_last,
  download_segment, download_segments, mode_of, download_tlv,
}

concat-segments : (n : ℕ) (blob : List ℕ) → length blob ≤ 243 * n → concat (segments n blob) ≡ blob
concat-segments zero [] h = refl
concat-segments zero (b ∷ blob) h = absurd (omega arith)
concat-segments (suc n) blob h =
    rw (concat-segments n (drop 243 blob) (omega (arith, length-drop 243 blob)))
      (take-append-drop 243 blob)

total_enough : (blob : List ℕ) → length blob ≤ 243 * total blob
total_enough blob = omega arith

abbrev pub is_short : List ℕ → Bool
is_short segment = leb (length segment) max_tlv_segment

abbrev pub all_short : List (List ℕ) → Bool
all_short [] = true
all_short (s ∷ ss) = is_short s && all_short ss

take-is_short : (n : ℕ) (xs : List ℕ) → length (take n xs) ≤ n
take-is_short zero xs = omega arith
take-is_short (suc n) [] = omega arith
take-is_short (suc n) (x ∷ xs) = omega (arith, take-is_short n xs)

pub segments-short : (n : ℕ) (blob : List ℕ) → all_short (segments n blob) ≡ true
segments-short zero blob = refl
segments-short (suc n) blob =
    ground (arith, take-is_short 243 blob, segments-short n (drop 243 blob))

pub skip_event-payloads :
    (uart after : Uart) → skip_event uart ≡ ok after → payloads after.writes ≡ payloads uart.writes
skip_event-payloads uart after h =
    let (answer, e, r) = went_through (read_event false uart) _ h in
    let same_uart : answer.1 ≡ after = cc in
    subst (λ u. payloads u.writes ≡ payloads uart.writes) same_uart
      (read_from-payloads false uart.incoming uart.writes answer.0 answer.1 e)

pub skip_event_if-payloads :
    (skips : Bool) (uart after : Uart)
    → skip_event_if skips uart ≡ ok after
    → payloads after.writes ≡ payloads uart.writes
skip_event_if-payloads true uart after h = skip_event-payloads uart after h
skip_event_if-payloads false uart after h =
    let same_uart : uart ≡ after = cc in ap (λ u. payloads u.writes) (sym same_uart)

-- A command that went out is one more write, of its four bytes of header and its parameters.
send-written :
    (opcode : ℕ) (params : List ℕ) (uart after : Uart)
    → send opcode params uart ≡ ok after
    → after ≡ written (1 ∷ opcode % 256 ∷ opcode / 256 ∷ length params ∷ params) uart
send-written opcode params uart after h =
    let (bytes, e, r) = went_through (hci_command opcode params) _ h in
    let (u, g, r₂) = went_through (raise_if (leb 65536 opcode || leb 256 (length params)) _) _ e in
    cc

pub send-payloads :
    (opcode : ℕ) (params : List ℕ) (uart after : Uart)
    → send opcode params uart ≡ ok after
    → payloads after.writes
      ≡ payloads uart.writes ++ payload (1 ∷ opcode % 256 ∷ opcode / 256 ∷ length params ∷ params)
send-payloads opcode params uart after h =
    subst
      (λ u.
        payloads u.writes
        ≡ payloads uart.writes
          ++ payload (1 ∷ opcode % 256 ∷ opcode / 256 ∷ length params ∷ params))
      (sym (send-written opcode params uart after h)) (payloads-one uart.writes _)

module _ (unified patch quiet : Bool) where
  download_segment-payloads :
      (segment : List ℕ) (last : Bool) (uart after : Uart)
      → download_segment unified patch quiet segment last uart ≡ ok after
      → payloads after.writes ≡ payloads uart.writes ++ segment
  unfolding download_segment
  download_segment-payloads segment last uart after h =
      let (sent, e, r₁) =
        went_through (send patch_opcode (30 ∷ length segment ∷ segment) uart) _ h in
      let (answered, f, r₂) = went_through (skip_event_if (not (quiet && not last)) sent) _ r₁ in
      skip_event_if-payloads _ answered after r₂
      ∙ skip_event_if-payloads _ sent answered f
      ∙ send-payloads patch_opcode (30 ∷ length segment ∷ segment) uart sent e

  download_segments-payloads :
      (parts : List (List ℕ)) (uart after : Uart)
      → download_segments unified patch quiet parts uart ≡ ok after
      → payloads after.writes ≡ payloads uart.writes ++ concat parts
  unfolding download_segments
  download_segments-payloads [] uart after h =
      let same_uart : uart ≡ after = cc in
      ap (λ u. payloads u.writes) (sym same_uart) ∙ sym (append-nil (payloads uart.writes))
  download_segments-payloads (segment ∷ later) uart after h =
      let (next, e, r) =
        went_through (download_segment unified patch quiet segment (is_last later) uart) _ h in
      download_segments-payloads later next after r
      ∙ ap (λ p. p ++ concat later) (download_segment-payloads segment (is_last later) uart next e)
      ∙ append_assoc (payloads uart.writes) segment (concat later)

-- A download that succeeds, whatever the controller answers, has sent the whole image: the
-- segments that its commands carry are the image, in order.
pub download_tlv_sends :
    (patch : Bool) (blob : List ℕ) (self after : Controller)
    → download_tlv patch blob self ≡ ok after
    → payloads after.uart.writes ≡ payloads self.uart.writes ++ blob
unfolding download_tlv
download_tlv_sends patch blob self after h =
    let (mode, e, r₁) = went_through (mode_of patch blob) _ h in
    let (uart, f, r₂) =
      went_through
        (download_segments self.unified patch (patch && mode == 3) (segments (total blob) blob)
          self.uart)
        _ r₁ in
    let same_uart : after.uart ≡ uart = cc in
    ap (λ u. payloads u.writes) same_uart
    ∙ download_segments-payloads self.unified patch (patch && mode == 3)
        (segments (total blob) blob) self.uart uart f
    ∙ ap (λ p. payloads self.uart.writes ++ p)
        (concat-segments (total blob) blob (total_enough blob))
