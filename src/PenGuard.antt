-- ===== src/PenGuard.antt =====
-- ubuntu/t630-pen-touch-guard.py: touch is switched off while the pen is near. The pen's event
-- node sends packets of 24 bytes, in chunks of any size.
pub mod Chunks
pub mod Touch
mod Scenarios
use ubuntu_install_on_samsun.Prelude.{
  ℕ, zero, suc, Bool, true, false, not, ◌&&◌, ◌||◌, Option, none, some, List, [], ◌∷◌, ◌++◌, leb,
  ◌==◌, if◌then◌else◌, length, take, drop, Result, ok, err,
}
use ubuntu_install_on_samsun.Prelude.Blob.{u16, u32}

pub data GuardError : Type 0 where
  unexpected_state not_changed : GuardError

-- What a packet asks for: a new look at the pen after lost events, or a key of the pen with
-- whether its value is 0; all else is discarded.
pub data Packet : Type 0 where
  lost : Packet
  tool : Bool → Packet
  discarded : Packet

abbrev pub event_size : ℕ
event_size = 24

-- `EVENT.unpack(packet)` behind the two times.
abbrev pub unpack : List ℕ → Packet
unpack packet =
    let type_code = u16 packet 16 in
    let code = u16 packet 18 in
    if type_code == 0 && code == 3
    then lost
    else if type_code == 1 && (code == 320 || code == 321)
    then tool (u32 packet 20 == 0)
    else discarded

-- The `while len(pending) >= EVENT.size` loop: the packets, and what stays pending. Each round
-- takes 24 bytes.
unfoldable pub take_packets : ℕ → List ℕ → List Packet × List ℕ
take_packets zero pending = ([], pending)
take_packets (suc fuel) pending =
    let rest = take_packets fuel (drop event_size pending) in
    if leb event_size (length pending)
    then (unpack (take event_size pending) ∷ rest.0, rest.1)
    else ([], pending)

-- The packets of the chunks that are read one after the other.
unfoldable pub read_chunks : List ℕ → List (List ℕ) → List Packet × List ℕ
read_chunks pending [] = ([], pending)
read_chunks pending (chunk ∷ chunks) =
    let now = take_packets (length (pending ++ chunk)) (pending ++ chunk) in
    let later = read_chunks now.1 chunks in (now.0 ++ later.0, later.1)

-- The touchscreen's control: its text, none if it is neither 0 nor 1, and what a write leaves.
abbrev pub Control : Type 0
Control = Option Bool

abbrev pub differs : Bool → Bool → Bool
differs true b = not b
differs false b = b

-- `sticks` says whether a write takes effect. The control comes back beside the error.
unfoldable pub set_touch_enabled : Bool → Bool → Control → Result GuardError (Unit {0}) × Control
set_touch_enabled enabled sticks none = (err unexpected_state, none)
set_touch_enabled enabled sticks (some current) =
    if differs current enabled && not sticks
    then (err not_changed, some current)
    else (ok tt, some enabled)

-- What a packet makes of the control; `near` is what the pen's key state then says.
unfoldable pub handle_packet :
    Packet → Bool → Bool → Control → Result GuardError (Unit {0}) × Control
unfolding set_touch_enabled
handle_packet lost near sticks c = set_touch_enabled (not near) sticks c
handle_packet (tool is_zero) near sticks c = set_touch_enabled (is_zero && not near) sticks c
handle_packet discarded near sticks c = (ok tt, c)

-- A packet with the answers at its time.
pub record Step : Type 0 where
  pub packet : Packet
  pub near : Bool
  pub sticks : Bool

abbrev pub then_go :
    Result GuardError (Unit {0}) × Control
    → (Control → Result GuardError (Unit {0}) × Control)
    → Result GuardError (Unit {0}) × Control
then_go (ok u, c) next = next c
then_go (err e, c) next = (err e, c)

unfoldable pub handle_packets : List Step → Control → Result GuardError (Unit {0}) × Control
handle_packets [] c = (ok tt, c)
handle_packets (s ∷ ss) c = then_go (handle_packet s.packet s.near s.sticks c) (handle_packets ss)

-- What raises in `finally` takes the place of what the `try` block raised.
abbrev pub ended :
    Result GuardError (Unit {0})
    → Result GuardError (Unit {0}) × Control
    → Result GuardError (Unit {0}) × Control
ended outcome (ok u, c) = (outcome, c)
ended outcome (err e, c) = (err e, c)

-- The `try` block and its `finally`, which ends every run: `near` and `sticks` are the answers
-- for the first setting, `last` whether the write of the last one takes effect.
unfoldable pub run :
    Bool → Bool → List Step → Bool → Control → Result GuardError (Unit {0}) × Control
unfolding handle_packets
run near sticks steps last c =
    let body = then_go (set_touch_enabled (not near) sticks c) (handle_packets steps) in
    ended body.0 (set_touch_enabled true last body.1)
