-- ===== src/Session.antt =====
-- ubuntu/t630-session-manager.py: the confirmation state machine behind org.gnome.SessionManager.
-- The D-Bus connection, the GLib idle queue and the dialog are the environment: a step is one
-- callback, and what the callback sends out is returned beside the new state.
mod Confirmation
mod Requests
mod Scenarios
use text.Mathlib.Text.{◌==◌ as str_eq}
use ubuntu_install_on_samsun.Prelude.{
  ℕ, ◌+◌, String, Bool, true, false, ◌||◌, Option, none, some, List, [], ◌∷◌, ◌++◌, if◌then◌else◌,
  length, ◌>>=◌, ◌>>◌,
}

pub data Action : Type 0 where
  logout poweroff reboot : Action

abbrev pub same_action : Action → Action → Bool
same_action logout logout = true
same_action poweroff poweroff = true
same_action reboot reboot = true
same_action _ _ = false

-- The module's globals. `queued` holds the actions given to `GLib.idle_add`, `opening` the
-- dialogs whose `Open` call has not returned.
pub record Session : Type 0 where
  pub clients : List ℕ
  pub pending_action : Option Action
  pub queued : List Action
  pub opening : List Action

pub data Reply : Type 0 where
  none_value : Reply
  bool_value : Bool → Reply
  -- the object path /org/gnome/SessionManager/Client and this number
  client_path : ℕ → Reply
  busy unsupported : Reply

pub data Effect : Type 0 where
  reply : Reply → Effect
  open_dialog : Action → ℕ → Effect
  lock_screen : Effect
  run_power : Action → Effect
  print_failure : Effect

abbrev pub start : Session
start = record { clients = []; pending_action = none; queued = []; opening = [] }

-- The dictionary that `manager_method` reads, and its test `method in (…)`.
pub requested_action : String → Option Action
requested_action method =
    if str_eq method "Logout"
    then some logout
    else if str_eq method "Shutdown"
    then some poweroff
    else if str_eq method "Reboot"
    then some reboot
    else none

-- The dictionary that `confirmed_dialog` reads.
pub confirmed_action : String → Option Action
confirmed_action signal_name =
    if str_eq signal_name "ConfirmedLogout"
    then some logout
    else if str_eq signal_name "ConfirmedShutdown"
    then some poweroff
    else if str_eq signal_name "ConfirmedReboot"
    then some reboot
    else none

abbrev pub dialog_type : Action → ℕ
dialog_type logout = 0
dialog_type poweroff = 1
dialog_type reboot = 2

request_action : Action → Option Action → Session → Session × List Effect
request_action action none s = (
  record s { pending_action = some action; queued = s.queued ++ action ∷ [] },
  reply none_value ∷ [],
)
request_action action (some _) s = (s, reply busy ∷ [])

-- `reg_id` is what `bus.register_object` returns.
register_client : ℕ → String → Session → Session × List Effect
register_client reg_id method s =
    if str_eq method "RegisterClient"
    then (
      record s { clients = s.clients ++ reg_id ∷ [] },
      reply (client_path (length s.clients + 1)) ∷ [],
    )
    else (s, reply unsupported ∷ [])

other_method : Option Action → ℕ → String → Session → Session × List Effect
other_method (some action) reg_id method s = request_action action s.pending_action s
other_method none reg_id method s = register_client reg_id method s

pub manager_method : ℕ → String → Session → Session × List Effect
unfolding request_action register_client other_method
manager_method reg_id method s =
    if str_eq method "CanShutdown"
    then (s, reply (bool_value true) ∷ [])
    else if str_eq method "IsInhibited"
    then (s, reply (bool_value false) ∷ [])
    else other_method (requested_action method) reg_id method s

-- What a confirmed action does; `done` says whether the command returned normally.
perform : Action → Bool → List Effect
perform logout done = lock_screen ∷ []
perform action done = run_power action ∷ (if done then [] else print_failure ∷ [])

confirm : Option Action → Option Action → Bool → Session → Session × List Effect
confirm (some expected) (some pending) done s =
    if same_action pending expected
    then (record s { pending_action = none }, perform expected done)
    else (s, [])
confirm _ _ done s = (s, [])

pub confirmed_dialog : String → Bool → Session → Session × List Effect
unfolding confirm perform
confirmed_dialog signal_name done s =
    if str_eq signal_name "Canceled" || str_eq signal_name "Closed"
    then (record s { pending_action = none }, [])
    else confirm (confirmed_action signal_name) s.pending_action done s

-- The main loop runs the first queued `open_end_session_dialog`.
pub open_end_session_dialog : List Action → Session → Session × List Effect
open_end_session_dialog [] s = (s, [])
open_end_session_dialog (action ∷ rest) s = (
  record s { queued = rest; opening = s.opening ++ action ∷ [] },
  open_dialog action (dialog_type action) ∷ [],
)

-- The oldest open call returns; `succeeded` is false when `call_finish` raises.
pub end_session_dialog_opened : List Action → Bool → Session → Session × List Effect
end_session_dialog_opened [] succeeded s = (s, [])
end_session_dialog_opened (action ∷ rest) true s = (record s { opening = rest }, [])
end_session_dialog_opened (action ∷ rest) false s =
    (record s { opening = rest; pending_action = none }, print_failure ∷ [])

pub data Event : Type 0 where
  method_call : ℕ → String → Event
  dialog_signal : String → Bool → Event
  idle : Event
  opened : Bool → Event

pub step : Event → Session → Session × List Effect
unfolding manager_method confirmed_dialog open_end_session_dialog end_session_dialog_opened
step (method_call reg_id method) s = manager_method reg_id method s
step (dialog_signal signal_name done) s = confirmed_dialog signal_name done s
step idle s = open_end_session_dialog s.queued s
step (opened succeeded) s = end_session_dialog_opened s.opening succeeded s

-- The main loop over the callbacks that arrive, with all that they send out in order.
pub run : List Event → Session → Session × List Effect
run [] s = (s, [])
run (e ∷ es) s = let (s', sent) = step e s in let (last, later) = run es s' in (last, sent ++ later)
