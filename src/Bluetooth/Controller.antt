-- ===== src/Bluetooth/Controller.antt =====
-- The controller's start: version, high speed, the two downloads, board id and reset, in the
-- order of `main`. The line's speed and flow control are not part of the state.
pub mod Download
pub mod Answers
pub mod Startup
use ubuntu_install_on_samsun.Prelude.{
  ℕ, zero, suc, ◌+◌, ◌-◌, ◌/◌, Bool, true, false, not, ◌&&◌, ◌||◌, Option, none, some, List, [],
  ◌∷◌, ◌==◌, if◌then◌else◌, length, take, drop, Result, ok, err, ◌>>=◌, ◌>>◌, raise_if, same,
}
use ubuntu_install_on_samsun.Bluetooth.Nvm.{NvmError, Override, patch_nvm}
use ubuntu_install_on_samsun.Bluetooth.Transport.{
  UartError, unexpected_version, reset_refused, nvm_absent, nvm_failed, Uart, send, read_event,
  wake_ack, is_unified_version_event, Version, parse_version_event, parse_board_id, firmware_info,
  refuses_reset,
}
use ubuntu_install_on_samsun.Prelude.Blob.{byte}

pub record Controller : Type 0 where
  pub uart : Uart
  pub unified : Bool

abbrev pub patch_opcode : ℕ
patch_opcode = 64512

-- An answer whose content is not looked at.
abbrev pub skip_event : Uart → Result UartError Uart
skip_event uart = do answer ← read_event false uart; ok answer.1

abbrev pub skip_event_if : Bool → Uart → Result UartError Uart
skip_event_if true uart = skip_event uart
skip_event_if false uart = ok uart

-- Legacy controllers answer with a vendor event and a following command-complete.
abbrev pub legacy_answer : List ℕ → Uart → Result UartError Uart
legacy_answer first uart = do
  raise_if (not (byte first 1 == 255)) unexpected_version
  skip_event uart

unfoldable pub query_version : Controller → Result UartError (Version × Controller)
query_version self = do
  sent ← send patch_opcode (25 ∷ []) self.uart
  first ← read_event false sent
  uart ← if is_unified_version_event first.0 then ok first.1 else legacy_answer first.0 first.1
  version ← parse_version_event first.0 (is_unified_version_event first.0)
  ok ((version, record { uart = uart; unified = is_unified_version_event first.0 }))

unfoldable pub set_high_speed : Controller → Result UartError Controller
set_high_speed self = do
  sent ← send 64584 (17 ∷ []) self.uart
  response ← read_event true sent
  uart ←
      skip_event_if
        (not (same response.0 (wake_ack ∷ []) || same response.0 (254 ∷ [])) && not self.unified)
        response.1
  ok (record self { uart = uart })

abbrev pub max_tlv_segment : ℕ
max_tlv_segment = 243

-- `blob[offset : offset + MAX_TLV_SEGMENT]` for the offsets of the range, n of them.
abbrev pub segments : ℕ → List ℕ → List (List ℕ)
segments zero blob = []
segments (suc n) blob = take max_tlv_segment blob ∷ segments n (drop max_tlv_segment blob)

abbrev pub total : List ℕ → ℕ
total blob = (length blob + (max_tlv_segment - 1)) / max_tlv_segment

abbrev pub is_last : List (List ℕ) → Bool
is_last [] = true
is_last (segment ∷ later) = false

-- One round: the command, and the events that answer it. With `quiet`, which is download mode 3
-- of a patch, only the last segment is answered.
unfoldable pub download_segment : Bool → Bool → Bool → List ℕ → Bool → Uart → Result UartError Uart
download_segment unified patch quiet segment last uart = do
  sent ← send patch_opcode (30 ∷ length segment ∷ segment) uart
  answered ← skip_event_if (not (quiet && not last)) sent
  skip_event_if (not (quiet && not last) && (not unified && not patch)) answered

unfoldable pub download_segments : Bool → Bool → Bool → List (List ℕ) → Uart → Result UartError Uart
download_segments unified patch quiet [] uart = ok uart
download_segments unified patch quiet (segment ∷ later) uart = do
  uart' ← download_segment unified patch quiet segment (is_last later) uart
  download_segments unified patch quiet later uart'

-- `mode`, 0 for an image that is no patch
abbrev pub mode_of : Bool → List ℕ → Result UartError ℕ
mode_of true blob = do info ← firmware_info blob; ok info.download_mode
mode_of false blob = ok 0

unfoldable pub download_tlv : Bool → List ℕ → Controller → Result UartError Controller
download_tlv patch blob self = do
  mode ← mode_of patch blob
  uart ←
      download_segments self.unified patch (patch && mode == 3) (segments (total blob) blob)
        self.uart
  ok (record self { uart = uart })

unfoldable pub query_board_id : Controller → Result UartError (Option ℕ × Controller)
query_board_id self = do
  sent ← send patch_opcode (35 ∷ []) self.uart
  first ← read_event false sent
  uart ← skip_event_if (not self.unified) first.1
  ok ((parse_board_id first.0 self.unified, record self { uart = uart }))

unfoldable pub reset : Controller → Result UartError Controller
reset self = do
  sent ← send 3075 [] self.uart
  event ← read_event false sent
  raise_if (refuses_reset event.0) reset_refused
  ok (record self { uart = event.1 })

abbrev or_else : Option (List ℕ) → Option (List ℕ) → Option (List ℕ)
or_else (some image) fallback = some image
or_else none fallback = fallback

-- The directory maps a board number to the content of hpnv10.b<board>, and no number to that of
-- hpnv10.bin.
abbrev pub choose_nvm : (Option ℕ → Option (List ℕ)) → Option ℕ → Option (List ℕ)
choose_nvm directory none = directory none
choose_nvm directory (some board) = or_else (directory (some board)) (directory none)

abbrev pub read_nvm : Option (List ℕ) → Result UartError (List ℕ)
read_nvm none = err nvm_absent
read_nvm (some image) = ok image

abbrev pub from_nvm : {A : Type 0} → Result NvmError A → Result UartError A
from_nvm (ok value) = ok value
from_nvm (err raised) = err (nvm_failed raised)

-- `args.nvm or choose_nvm(args.firmware_dir, board_id)`: an image that is named on the command line
-- is taken whatever the board. None inside the option where the named file does not exist.
abbrev pub nvm_file :
    Option (Option (List ℕ)) → (Option ℕ → Option (List ℕ)) → Option ℕ → Option (List ℕ)
nvm_file none directory board = choose_nvm directory board
nvm_file (some named) directory board = named

-- `main` from the first command to the reset, with the image that it loaded.
unfoldable pub bring_up :
    List ℕ
    → Option (Option (List ℕ))
    → (Option ℕ → Option (List ℕ))
    → Option (List Override)
    → List ℕ
    → Bool
    → Uart
    → Result UartError (List ℕ × Controller)
bring_up firmware named directory overrides bdaddr enable_ibs uart = do
  queried ← query_version (record { uart = uart; unified = false })
  fast ← set_high_speed queried.1
  patched ← download_tlv true firmware fast
  board ← query_board_id patched
  image ← read_nvm (nvm_file named directory board.0)
  nvm ← from_nvm (patch_nvm image overrides bdaddr 17 enable_ibs)
  loaded ← download_tlv false nvm.0 board.1
  ready ← reset loaded
  ok ((nvm.0, ready))
