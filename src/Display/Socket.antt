-- ===== src/Display/Socket.antt =====
-- ControlSocket.handle: one accepted connection of the control socket.
-- What the peer sends is a list of segments, an empty segment or none when it closes, times out or
-- fails; a call of `recv(n)` returns at most n bytes of the first one. The sending of the answer,
-- which follows every change of state, succeeds.
pub mod Framing
use ubuntu_install_on_samsun.Prelude.{
  is_ascii, ℕ, zero, suc, ◌-◌, Bool, false, not, ◌&&◌, ◌||◌, Option, none, some, List, [], ◌∷◌,
  ◌++◌, ltb, ◌==◌, if◌then◌else◌, length, take, drop, Result, ok, err, ◌>>=◌, ◌>>◌, raise_if,
}
use ubuntu_install_on_samsun.Display.Settings.{Display, Status, DisplayError}
use ubuntu_install_on_samsun.Display.Request.{request}

pub data SocketError : Type 0 where
  unauthorized incomplete too_long not_ascii out_of_fuel : SocketError
  rejected : DisplayError → SocketError

abbrev pub ends_with_newline : List ℕ → Bool
ends_with_newline [] = false
ends_with_newline (c ∷ []) = c == 10
ends_with_newline (c ∷ rest) = ends_with_newline rest

-- What a received part leaves of its segment.
abbrev pub push_back : List ℕ → List (List ℕ) → List (List ℕ)
push_back [] rest = rest
push_back left rest = left ∷ rest

-- The `while` loop. Each round adds a byte or more, so 66 rounds reach its end.
unfoldable pub receive : ℕ → List ℕ → List (List ℕ) → Result SocketError (List ℕ)
receive zero line segments = err out_of_fuel
receive (suc fuel) line [] =
    if ends_with_newline line || ltb 64 (length line) then ok line else err incomplete
receive (suc fuel) line ([] ∷ rest) =
    if ends_with_newline line || ltb 64 (length line) then ok line else err incomplete
receive (suc fuel) line (segment ∷ rest) =
    let room = 65 - length line in
    let next = receive fuel (line ++ take room segment) (push_back (drop room segment) rest) in
    if ends_with_newline line || ltb 64 (length line) then ok line else next

abbrev pub rejecting {ℓ} : {A : Type ℓ} → Result DisplayError A → Result SocketError A
rejecting (ok a) = ok a
rejecting (err e) = err (rejected e)

-- The `try` block up to the answer.
unfoldable pub serve : ℕ → ℕ → ℕ → List (List ℕ) → Display → Result SocketError (Status × Display)
serve owner_uid uid now segments d = do
  raise_if (not (uid == 0) && not (uid == owner_uid)) unauthorized
  line ← receive 66 [] segments
  raise_if (ltb 64 (length line)) too_long
  raise_if (not (is_ascii line)) not_ascii
  rejecting (request now line d)

-- The answer, none for the error line, beside the state; the handler changes nothing.
abbrev pub answered : Display → Result SocketError (Status × Display) → Option Status × Display
answered d (ok (answer, d')) = (some answer, d')
answered d (err e) = (none, d)

unfoldable pub handle : ℕ → ℕ → ℕ → List (List ℕ) → Display → Option Status × Display
handle owner_uid uid now segments d = answered d (serve owner_uid uid now segments d)
