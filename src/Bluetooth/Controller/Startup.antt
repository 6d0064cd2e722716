-- ===== src/Bluetooth/Controller/Startup.antt =====
-- What a whole start of the controller loads.
use mathlib.Core.Path.{subst}
use ubuntu_install_on_samsun.Prelude.{
  ℕ, ◌/◌, ◌%◌, ◌≤◌, ◌≡◌, refl, sym, ap, ◌∙◌, Bool, true, false, not, ◌&&◌, ◌||◌, Option, none, some,
  List, [], ◌∷◌, ◌++◌, append-nil, append_assoc, arith, ◌==◌, if◌then◌else◌, length, Result, ok,
  err, raise_if, went_through, same,
}
use ubuntu_install_on_samsun.Prelude.Blob.{byte}
use ubuntu_install_on_samsun.Bluetooth.Nvm.{NvmError, Override, patch_nvm}
use ubuntu_install_on_samsun.Bluetooth.Transport.{
  Uart, send, written, read_event, wake_ack, is_unified_version_event, Version, parse_version_event,
  refuses_reset,
}
use ubuntu_install_on_samsun.Bluetooth.Transport.Framing.{payload, payloads, read_from-payloads}
use ubuntu_install_on_samsun.Bluetooth.Controller.{
  Controller, patch_opcode, skip_event_if, legacy_answer, query_version, set_high_speed,
  download_tlv, query_board_id, reset, nvm_file, read_nvm, from_nvm, bring_up,
}
use ubuntu_install_on_samsun.Bluetooth.Controller.Download.{
  skip_event-payloads, skip_event_if-payloads, send-payloads, download_tlv_sends,
}

-- A short command and the event behind it carry no part of an image.
module _ (opcode : ℕ) (params : List ℕ) (short : length params ≤ 1) where
  exchange-payloads :
      (allow_ibs_ack : Bool) (uart sent : Uart) (answer : List ℕ × Uart)
      → send opcode params uart ≡ ok sent
      → read_event allow_ibs_ack sent ≡ ok answer
      → payloads answer.1.writes ≡ payloads uart.writes
  exchange-payloads allow_ibs_ack uart sent answer e f =
      read_from-payloads allow_ibs_ack sent.incoming sent.writes answer.0 answer.1 f
      ∙ send-payloads opcode params uart sent e
      ∙ no_payload params short
    where
      no_payload :
          (ps : List ℕ)
          → length ps ≤ 1
          → payloads uart.writes ++ payload (1 ∷ opcode % 256 ∷ opcode / 256 ∷ length ps ∷ ps)
            ≡ payloads uart.writes
      no_payload [] l = append-nil (payloads uart.writes)
      no_payload (p ∷ []) l = append-nil (payloads uart.writes)
      no_payload (p ∷ q ∷ ps) l = absurd (omega arith)

ok_pair :
    {E A B : Type 0} (r : Result E (A × B)) (a b : A) (c d : B)
    → r ≡ ok ((a, c))
    → r ≡ ok ((b, d))
    → (a ≡ b) × (c ≡ d)
ok_pair r a b c d h k = (cc, cc)

legacy_answer-payloads :
    (first : List ℕ) (uart after : Uart)
    → legacy_answer first uart ≡ ok after
    → payloads after.writes ≡ payloads uart.writes
legacy_answer-payloads first uart after h =
    let (u, g, r) = went_through (raise_if (not (byte first 1 == 255)) _) _ h in
    skip_event-payloads uart after r

version_answer-payloads :
    (unified : Bool) (first : List ℕ) (uart after : Uart)
    → (if unified then ok uart else legacy_answer first uart) ≡ ok after
    → payloads after.writes ≡ payloads uart.writes
version_answer-payloads true first uart after h =
    let same_uart : uart ≡ after = cc in ap (λ u. payloads u.writes) (sym same_uart)
version_answer-payloads false first uart after h = legacy_answer-payloads first uart after h

query_version-payloads :
    (self after : Controller) (version : Version)
    → query_version self ≡ ok ((version, after))
    → payloads after.uart.writes ≡ payloads self.uart.writes
unfolding query_version
query_version-payloads self after version h =
    let sent = written (1 ∷ 0 ∷ 252 ∷ 1 ∷ 25 ∷ []) self.uart in
    let (first, f, r₂) = went_through (read_event false sent) _ h in
    let (uart, g, r₃) =
      went_through
        (if is_unified_version_event first.0 then ok first.1 else legacy_answer first.0 first.1) _
        r₂ in
    let (parsed, k, r₄) =
      went_through (parse_version_event first.0 (is_unified_version_event first.0)) _ r₃ in
    let same_uart = ap (λ c. c.uart) (sym (ok_pair _ parsed version _ after refl r₄).1) in
    ap (λ u. payloads u.writes) same_uart
    ∙ version_answer-payloads (is_unified_version_event first.0) first.0 first.1 uart g
    ∙ exchange-payloads patch_opcode (25 ∷ []) (omega arith) false self.uart sent first refl f

set_high_speed-payloads :
    (self after : Controller)
    → set_high_speed self ≡ ok after
    → payloads after.uart.writes ≡ payloads self.uart.writes
unfolding set_high_speed
set_high_speed-payloads self after h =
    let sent = written (1 ∷ 72 ∷ 252 ∷ 1 ∷ 17 ∷ []) self.uart in
    let (response, f, r₂) = went_through (read_event true sent) _ h in
    let skips =
      not (same response.0 (wake_ack ∷ []) || same response.0 (254 ∷ [])) && not self.unified in
    let (uart, g, r₃) = went_through (skip_event_if skips response.1) _ r₂ in
    let same_uart : after.uart ≡ uart = cc in
    ap (λ u. payloads u.writes) same_uart
    ∙ skip_event_if-payloads skips response.1 uart g
    ∙ exchange-payloads 64584 (17 ∷ []) (omega arith) true self.uart sent response refl f

query_board_id-payloads :
    (self after : Controller) (board : Option ℕ)
    → query_board_id self ≡ ok ((board, after))
    → payloads after.uart.writes ≡ payloads self.uart.writes
unfolding query_board_id
query_board_id-payloads self after board h =
    let sent = written (1 ∷ 0 ∷ 252 ∷ 1 ∷ 35 ∷ []) self.uart in
    let (first, f, r₂) = went_through (read_event false sent) _ h in
    let (uart, g, r₃) = went_through (skip_event_if (not self.unified) first.1) _ r₂ in
    let same_uart : after.uart ≡ uart = cc in
    ap (λ u. payloads u.writes) same_uart
    ∙ skip_event_if-payloads (not self.unified) first.1 uart g
    ∙ exchange-payloads patch_opcode (35 ∷ []) (omega arith) false self.uart sent first refl f

reset-payloads :
    (self after : Controller)
    → reset self ≡ ok after
    → payloads after.uart.writes ≡ payloads self.uart.writes
unfolding reset
reset-payloads self after h =
    let sent = written (1 ∷ 3 ∷ 12 ∷ 0 ∷ []) self.uart in
    let (event, f, r₂) = went_through (read_event false sent) _ h in
    let (u, g, r₃) = went_through (raise_if (refuses_reset event.0) _) _ r₂ in
    let same_uart : after.uart ≡ event.1 = cc in
    ap (λ u. payloads u.writes) same_uart
    ∙ exchange-payloads 3075 [] (omega arith) false self.uart sent event refl f

from_nvm_ok :
    {A : Type 0} (r : Result NvmError A) (value : A) → from_nvm r ≡ ok value → r ≡ ok value
from_nvm_ok (ok v) value h = cc
from_nvm_ok (err e) value h = cc

read_nvm-some :
    (image : Option (List ℕ)) (blob : List ℕ) → read_nvm image ≡ ok blob → image ≡ some blob
read_nvm-some none blob h = cc
read_nvm-some (some b) blob h = cc

-- What a start has done: the version, the board number and the controller between the commands are
-- those of the answers on the UART, the image is the one for that board or the named one, and the
-- payloads of all download commands are the firmware and the patched image.
pub record IsLoaded (firmware : List ℕ) (named : Option (Option (List ℕ)))
    (directory : Option ℕ → Option (List ℕ)) (overrides : Option (List Override)) (bdaddr : List ℕ)
    (enable_ibs : Bool) (uart : Uart) (nvm : List ℕ) (after : Controller) : Type 0 where
  pub version : Version
  pub queried : Controller
  pub fast : Controller
  pub running : Controller
  pub board : Option ℕ
  pub asked : Controller
  pub loaded : Controller
  pub image : List ℕ
  pub changed : List ℕ
  pub version_answered :
      query_version (record { uart = uart; unified = false }) ≡ ok ((version, queried))
  pub at_speed : set_high_speed queried ≡ ok fast
  pub firmware_loaded : download_tlv true firmware fast ≡ ok running
  pub board_answered : query_board_id running ≡ ok ((board, asked))
  pub image_chosen : nvm_file named directory board ≡ some image
  pub image_patched : patch_nvm image overrides bdaddr 17 enable_ibs ≡ ok ((nvm, changed))
  pub image_loaded : download_tlv false nvm asked ≡ ok loaded
  pub restarted : reset loaded ≡ ok after
  pub sent : payloads after.uart.writes ≡ payloads uart.writes ++ (firmware ++ nvm)

-- A start that goes through has loaded exactly the firmware and, behind it, the calibration image
-- named on the command line or else chosen for the board number that the controller answered once
-- the firmware was loaded, patched without an error; and the controller was reset after it.
pub bring_up_loads :
    (firmware : List ℕ) (named : Option (Option (List ℕ))) (directory : Option ℕ → Option (List ℕ))
    (overrides : Option (List Override)) (bdaddr : List ℕ) (enable_ibs : Bool) (uart : Uart)
    (nvm : List ℕ) (after : Controller)
    → bring_up firmware named directory overrides bdaddr enable_ibs uart ≡ ok ((nvm, after))
    → IsLoaded firmware named directory overrides bdaddr enable_ibs uart nvm after
unfolding bring_up
bring_up_loads firmware named directory overrides bdaddr enable_ibs uart nvm after h =
    let begin : Controller = record { uart = uart; unified = false } in
    let (queried, e₁, r₁) = went_through (query_version begin) _ h in
    let (fast, e₂, r₂) = went_through (set_high_speed queried.1) _ r₁ in
    let (patched, e₃, r₃) = went_through (download_tlv true firmware fast) _ r₂ in
    let (board, e₄, r₄) = went_through (query_board_id patched) _ r₃ in
    let (image, e₅, r₅) = went_through (read_nvm (nvm_file named directory board.0)) _ r₄ in
    let (made, e₆, r₆) =
      went_through (from_nvm (patch_nvm image overrides bdaddr 17 enable_ibs)) _ r₅ in
    let (loaded, e₇, r₇) = went_through (download_tlv false made.0 board.1) _ r₆ in
    let (ready, e₈, r₈) = went_through (reset loaded) _ r₇ in
    let (same_nvm, same_ready) = ok_pair _ made.0 nvm ready after refl r₈ in
    let sent_all =
      reset-payloads loaded ready e₈
      ∙ download_tlv_sends false made.0 board.1 loaded e₇
      ∙ ap (λ p. p ++ made.0)
          (query_board_id-payloads patched board.1 board.0 e₄
            ∙ download_tlv_sends true firmware fast patched e₃
            ∙ ap (λ p. p ++ firmware)
                (set_high_speed-payloads queried.1 fast e₂
                  ∙ query_version-payloads begin queried.1 queried.0 e₁))
      ∙ append_assoc (payloads uart.writes) firmware made.0 in
    let goal : List ℕ → Controller → Type 0 =
      IsLoaded firmware named directory overrides bdaddr enable_ibs uart in
    let done : goal made.0 ready = record {
      version = queried.0;
      queried = queried.1;
      fast = fast;
      running = patched;
      board = board.0;
      asked = board.1;
      loaded = loaded;
      image = image;
      changed = made.1;
      version_answered = e₁;
      at_speed = e₂;
      firmware_loaded = e₃;
      board_answered = e₄;
      image_chosen = read_nvm-some (nvm_file named directory board.0) image e₅;
      image_patched = from_nvm_ok (patch_nvm image overrides bdaddr 17 enable_ibs) made e₆;
      image_loaded = e₇;
      restarted = e₈;
      sent = sent_all;
    } in
    subst (λ n. goal n after) same_nvm (subst (λ c. goal made.0 c) same_ready done)
