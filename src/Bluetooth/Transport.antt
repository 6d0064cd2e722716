-- ===== src/Bluetooth/Transport.antt =====
-- HCI packets on the UART: commands, the wait for an event with its in-band sleep bytes, and the
-- fields of the answers.
pub mod Framing
use ubuntu_install_on_samsun.Prelude.{
  ℕ, ◌+◌, ◌*◌, ◌/◌, ◌%◌, Bool, true, false, not, ◌&&◌, ◌||◌, Option, none, some, List, [], ◌∷◌,
  ◌++◌, ltb, leb, ◌==◌, if◌then◌else◌, length, take, drop, Result, ok, err, ◌>>=◌, ◌>>◌, raise_if,
}
use ubuntu_install_on_samsun.Prelude.Blob.{byte, u16, u24, u32}
use ubuntu_install_on_samsun.Bluetooth.Nvm.{NvmError}

pub data UartError : Type 0 where
  timed_out pack_range not_firmware unexpected_version short_version reset_refused : UartError
  nvm_absent : UartError
  nvm_failed : NvmError → UartError

-- The bytes that the controller still sends, and what was written, one entry for each write.
pub record Uart : Type 0 where
  pub incoming : List ℕ
  pub writes : List (List ℕ)

abbrev pub wake_ack : ℕ
wake_ack = 252

abbrev pub written : List ℕ → Uart → Uart
written bytes uart = record uart { writes = uart.writes ++ bytes ∷ [] }

-- `struct.pack` refuses what does not fit its field.
abbrev pub hci_command : ℕ → List ℕ → Result UartError (List ℕ)
hci_command opcode params = do
  raise_if (leb 65536 opcode || leb 256 (length params)) pack_range
  ok (1 ∷ opcode % 256 ∷ opcode / 256 ∷ length params ∷ params)

-- `_write_all(fd, hci_command(…))`
abbrev pub send : ℕ → List ℕ → Uart → Result UartError Uart
send opcode params uart = do bytes ← hci_command opcode params; ok (written bytes uart)

-- What follows the packet type of an event: its code, its length, and the data.
abbrev pub read_body : List ℕ → List (List ℕ) → Result UartError (List ℕ × Uart)
read_body (code ∷ size ∷ rest) writes =
    if ltb (length rest) size
    then err timed_out
    else ok
        ((4 ∷ code ∷ size ∷ take size rest, record { incoming = drop size rest; writes = writes }))
read_body _ writes = err timed_out

-- A wait ends with the bytes that arrive before its deadline; an end of file and a read that raises
-- are the same error.
unfoldable pub read_from : Bool → List ℕ → List (List ℕ) → Result UartError (List ℕ × Uart)
read_from allow_ibs_ack [] writes = err timed_out
read_from allow_ibs_ack (packet_type ∷ rest) writes =
    let acknowledged = read_from allow_ibs_ack rest (writes ++ (wake_ack ∷ []) ∷ []) in
    let ignored = read_from allow_ibs_ack rest writes in
    if packet_type == 4
    then read_body rest writes
    else if (packet_type == wake_ack || packet_type == 254) && allow_ibs_ack
    then ok ((packet_type ∷ [], record { incoming = rest; writes = writes }))
    else if packet_type == 253
    then acknowledged
    else ignored

abbrev pub read_event : Bool → Uart → Result UartError (List ℕ × Uart)
read_event allow_ibs_ack uart = read_from allow_ibs_ack uart.incoming uart.writes

abbrev pub event_opcode : List ℕ → Option ℕ
event_opcode event = if leb 6 (length event) && byte event 1 == 14 then some (u16 event 4) else none

abbrev is_value : ℕ → Option ℕ → Bool
is_value n none = false
is_value n (some m) = m == n

abbrev pub is_unified_version_event : List ℕ → Bool
is_unified_version_event event =
    ltb 7 (length event)
    && byte event 1 == 14
    && is_value 64512 (event_opcode event)
    && byte event 7 == 25

pub record Version : Type 0 where
  pub product_id : ℕ
  pub patch_version : ℕ
  pub rom_build : ℕ
  pub soc_id : ℕ

abbrev version_at : List ℕ → ℕ → ℕ → ℕ → ℕ → Result UartError Version
version_at event product patch rom soc = do
  raise_if (ltb (length event) (soc + 4)) short_version
  ok (record {
    product_id = u32 event product;
    patch_version = u16 event patch;
    rom_build = u16 event rom;
    soc_id = u32 event soc;
  })

abbrev pub parse_version_event : List ℕ → Bool → Result UartError Version
parse_version_event event true = version_at event 9 13 15 17
parse_version_event event false = version_at event 5 9 11 13

-- The number whose hexadecimal text is the board id.
abbrev board_number : ℕ → ℕ → ℕ → Option ℕ
board_number size msb lsb = if size == 2 then some (msb * 256 + lsb) else none

abbrev pub parse_board_id : List ℕ → Bool → Option ℕ
parse_board_id event true =
    if ltb (length event) 11 || not (byte event 7 == 35)
    then none
    else board_number (byte event 8) (byte event 9) (byte event 10)
parse_board_id event false =
    if ltb (length event) 8 || not (byte event 4 == 35)
    then none
    else board_number (byte event 5) (byte event 6) (byte event 7)

pub record Firmware : Type 0 where
  pub type_byte : ℕ
  pub size : ℕ
  pub download_mode : ℕ
  pub product_id : ℕ
  pub rom_build : ℕ
  pub patch_version : ℕ

abbrev pub firmware_info : List ℕ → Result UartError Firmware
firmware_info blob = do
  raise_if (ltb (length blob) 24 || not (byte blob 0 == 1 || byte blob 0 == 5)) not_firmware
  ok (record {
    type_byte = byte blob 0;
    size = u24 blob 1;
    download_mode = byte blob 14;
    product_id = u16 blob 16;
    rom_build = u16 blob 18;
    patch_version = u16 blob 20;
  })

-- `event_opcode(event) != 0x0C03 or len(event) < 7 or event[6] != 0`
abbrev pub refuses_reset : List ℕ → Bool
refuses_reset event =
    not (is_value 3075 (event_opcode event)) || ltb (length event) 7 || not (byte event 6 == 0)
