-- ===== src/Display/Request/Safety.antt =====
-- What no request can do, whatever its text.
use ubuntu_install_on_samsun.Prelude.{
  ℕ, ◌≤◌, ◌<◌, ◌≡◌, refl, true, Option, none, some, List, [], ◌∷◌, arith, is_some, Result, ok, err,
  pos, split,
}
use ubuntu_install_on_samsun.Display.Flashlight.{Flashlight, FlashlightError}
use ubuntu_install_on_samsun.Display.Flashlight.Lease.{IsSafe}
use ubuntu_install_on_samsun.Display.Settings.{
  maximum, Value, is_idle_choice, DisplayError, Display, Status, SystemAction, status,
  set_brightness, take_system_action,
}
use ubuntu_install_on_samsun.Display.Request.{
  Command, flashlight_brightness, command, with_flashlight, perform, request,
}

-- The value to restore is not dark and lies on the panel's scale.
abbrev pub Restorable : Option ℕ → Type 0
Restorable none = Unit
Restorable (some raw) = (0 < raw) × (raw ≤ maximum)

abbrev pub TorchIsSafe : Option Flashlight → Type 0
TorchIsSafe none = Unit
TorchIsSafe (some f) = IsSafe f

-- The states that the monitor keeps.
pub record IsValid (d : Display) : Type 0 where
  pub light_range : d.light ≤ maximum
  pub restore : Restorable d.off_state
  pub idle_choice : is_idle_choice (pos d.idle_seconds) ≡ true
  pub torch : TorchIsSafe d.flashlight

set_brightness-IsValid :
    (v : Value) (persist : Option ℕ) (d : Display) {d' : Display}
    → IsValid d
    → set_brightness v persist d ≡ ok d'
    → IsValid d'
unfolding set_brightness
set_brightness-IsValid v persist d valid h = ground arith

with_flashlight-IsValid :
    (method : Flashlight → Result FlashlightError Flashlight) (d : Display) {d' : Display}
    → ((f f' : Flashlight) → IsSafe f → method f ≡ ok f' → IsSafe f')
    → IsValid d
    → with_flashlight method d ≡ ok d'
    → IsValid d'
with_flashlight-IsValid method d keeps valid h = grind arith

pub perform-IsValid :
    (now : ℕ) (c : Command) (d : Display) {d' : Display}
    → IsValid d
    → perform now c d ≡ ok d'
    → IsValid d'
unfolding perform
perform-IsValid now (flashlight_brightness token) d valid h = ground arith
perform-IsValid now c d valid h = ground arith

request-performed :
    (now : ℕ) (text : List ℕ) (d : Display) {answer : Status} {d' : Display}
    → request now text d ≡ ok (answer, d')
    → (perform now (command (split text)) d ≡ ok d') × (answer ≡ status d')
unfolding request
request-performed now text d h = ground arith

-- Whatever bytes a request holds, an accepted one keeps the panel and the value to restore on the
-- panel's scale, the latter above 0, the idle timeout one of the choices, and the torch safe.
pub request-IsValid :
    (now : ℕ) (text : List ℕ) (d : Display) {answer : Status} {d' : Display}
    → IsValid d
    → request now text d ≡ ok (answer, d')
    → IsValid d'
request-IsValid now text d valid h =
    perform-IsValid now (command (split text)) d valid (request-performed now text d h).0

perform_blanked :
    (now : ℕ) (c : Command) (d : Display) {d' : Display}
    → is_some d.off_state ≡ true
    → perform now c d ≡ ok d'
    → (d'.light ≡ d.light) × (is_some d'.off_state ≡ true)
unfolding perform
perform_blanked now (flashlight_brightness token) d blanked h = ground arith
perform_blanked now c d blanked h = ground arith

-- While the panel is blanked, no request lights it or ends the blanking: the node keeps its value,
-- and the answer says that the panel is blanked.
pub request_blanked :
    (now : ℕ) (text : List ℕ) (d : Display) {answer : Status} {d' : Display}
    → is_some d.off_state ≡ true
    → request now text d ≡ ok (answer, d')
    → (d'.light ≡ d.light) × (answer.blanked ≡ true)
unfolding status
request_blanked now text d blanked h =
    let (done, answered) = request-performed now text d h in
    let (dark, still) = perform_blanked now (command (split text)) d blanked done in
    (dark, rw answered still)

abbrev kept : Display → Result DisplayError (Status × Display) → Display
kept d (ok (answer, d')) = d'
kept d (err e) = d

-- A request line over the state, where one that raises changes nothing.
pub after_request : ℕ → List ℕ → Display → Display
after_request now text d = kept d (request now text d)

pub after_requests : List (ℕ × List ℕ) → Display → Display
after_requests [] d = d
after_requests ((now, text) ∷ rest) d = after_requests rest (after_request now text d)

perform-pending :
    (now : ℕ) (c : Command) (d : Display) {d' : Display} (a : SystemAction)
    → d.system_action ≡ some a
    → perform now c d ≡ ok d'
    → d'.system_action ≡ some a
unfolding perform
perform-pending now (flashlight_brightness token) d a h e = ground arith
perform-pending now c d a h e = ground arith

kept-pending :
    (r : Result DisplayError (Status × Display)) (d : Display) (a : SystemAction)
    → d.system_action ≡ some a
    → ((answer : Status) (d' : Display) → r ≡ ok (answer, d') → d'.system_action ≡ some a)
    → (kept d r).system_action ≡ some a
kept-pending (ok (answer, d')) d a h keeps = keeps answer d' refl
kept-pending (err e) d a h keeps = h

after_request-pending :
    (now : ℕ) (text : List ℕ) (d : Display) (a : SystemAction)
    → d.system_action ≡ some a
    → (after_request now text d).system_action ≡ some a
unfolding after_request
after_request-pending now text d a h = kept-pending (request now text d) d a h λ answer d' e.
    perform-pending now (command (split text)) d a h (request-performed now text d e).0

-- A power off or restart that was accepted stays the pending action through any later requests,
-- and is handed out once: the next call of `take_system_action` finds nothing.
pub system_action_kept :
    (a : SystemAction) (later : List (ℕ × List ℕ)) (d : Display)
    → d.system_action ≡ some a
    → let d' = after_requests later d in
      ((take_system_action d').0 ≡ some a)
      × ((take_system_action (take_system_action d').1).0 ≡ none)
unfolding after_requests take_system_action
system_action_kept a [] d h = (h, refl)
system_action_kept a ((now, text) ∷ rest) d h =
    system_action_kept a rest (after_request now text d) (after_request-pending now text d a h)
