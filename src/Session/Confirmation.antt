-- ===== src/Session/Confirmation.antt =====
-- An action is carried out only after it was asked for and confirmed, and at most once for each
-- request.
use text.Mathlib.TextEquality.{eq_iff}
use ubuntu_install_on_samsun.Prelude.{
  ℕ, ◌+◌, ◌≤◌, String, ◌≡◌, ◌⊎◌, Bool, Option, none, some, List, [], ◌∷◌, ◌++◌, arith,
  if◌then◌else◌,
}
use ubuntu_install_on_samsun.Session.{
  Action, logout, poweroff, reboot, same_action, Session, Effect, lock_screen, run_power, start,
  Event, method_call, dialog_signal, requested_action, confirmed_action, confirmed_dialog, step,
  run,
}

-- How often an effect carries out the action: a logout is carried out as a screen lock.
abbrev pub carries_out : Action → Effect → ℕ
carries_out logout lock_screen = 1
carries_out poweroff (run_power poweroff) = 1
carries_out reboot (run_power reboot) = 1
carries_out _ _ = 0

pub performed : Action → List Effect → ℕ
performed a [] = 0
performed a (e ∷ es) = carries_out a e + performed a es

performed-append :
    (a : Action) (xs ys : List Effect) → performed a (xs ++ ys) ≡ performed a xs + performed a ys
unfolding performed
performed-append a [] ys = omega arith
performed-append a (x ∷ xs) ys = omega (arith, performed-append a xs ys)

abbrev asks : Action → Option Action → ℕ
asks a none = 0
asks a (some b) = if same_action a b then 1 else 0

-- How often the events ask for the action by a method call.
unfoldable pub requests : Action → List Event → ℕ
requests a [] = 0
requests a (method_call _ method ∷ es) = asks a (requested_action method) + requests a es
requests a (_ ∷ es) = requests a es

abbrev pub waits : Action → Session → ℕ
waits a s = asks a s.pending_action

step-performed :
    (a : Action) (e : Event) (s : Session)
    → performed a (step e s).1 + waits a (step e s).0 ≤ requests a (e ∷ []) + waits a s
unfolding step performed requests
step-performed logout e s = ground arith
step-performed poweroff e s = ground arith
step-performed reboot e s = ground arith

requests-cons :
    (a : Action) (e : Event) (es : List Event)
    → requests a (e ∷ es) ≡ requests a (e ∷ []) + requests a es
unfolding requests
requests-cons a e es = ground arith

run-performed :
    (a : Action) (es : List Event) (s : Session)
    → performed a (run es s).1 + waits a (run es s).0 ≤ requests a es + waits a s
unfolding run performed
run-performed a [] s = omega arith
run-performed a (e ∷ es) s = omega (
  arith,
  step-performed a e s,
  run-performed a es (step e s).0,
  requests-cons a e es,
  performed-append a (step e s).1 (run es (step e s).0).1,
)

-- The dialog signals that confirm the action.
pub confirmations : Action → List Event → ℕ
confirmations a [] = 0
confirmations a (dialog_signal signal_name _ ∷ es) =
    asks a (confirmed_action signal_name) + confirmations a es
confirmations a (_ ∷ es) = confirmations a es

confirmations-cons :
    (a : Action) (e : Event) (es : List Event)
    → confirmations a (e ∷ es) ≡ confirmations a (e ∷ []) + confirmations a es
unfolding confirmations
confirmations-cons a e es = ground arith

step-confirmed :
    (a : Action) (e : Event) (s : Session) → performed a (step e s).1 ≤ confirmations a (e ∷ [])
unfolding step performed confirmations
step-confirmed logout e s = ground arith
step-confirmed poweroff e s = ground arith
step-confirmed reboot e s = ground arith

run-confirmed :
    (a : Action) (es : List Event) (s : Session) → performed a (run es s).1 ≤ confirmations a es
unfolding run performed
run-confirmed a [] s = omega arith
run-confirmed a (e ∷ es) s = omega (
  arith,
  step-confirmed a e s,
  run-confirmed a es (step e s).0,
  confirmations-cons a e es,
  performed-append a (step e s).1 (run es (step e s).0).1,
)

-- Whatever callbacks arrive after the start, the lock, the power off and the restart are each
-- carried out at most as often as they were asked for by a method call, and at most as often as
-- the dialog confirmed them.
pub run_performs_confirmed_requests :
    (a : Action) (es : List Event)
    → (performed a (run es start).1 ≤ requests a es)
      × (performed a (run es start).1 ≤ confirmations a es)
run_performs_confirmed_requests a es =
    (omega (arith, run-performed a es start), run-confirmed a es start)

-- After the dialog is canceled or closed, in any state, no action is carried out until it is asked
-- for again: not by a late confirmation, nor by a dialog that is still opening.
pub canceled_until_requested :
    (a : Action) (signal_name : String) (done : Bool) (es : List Event) (s : Session)
    → (signal_name ≡ "Canceled") ⊎ (signal_name ≡ "Closed")
    → requests a es ≡ 0
    → performed a (run (dialog_signal signal_name done ∷ es) s).1 ≡ 0
unfolding run step performed
canceled_until_requested a signal_name done es s cancel quiet = ground (
  arith,
  eq_iff signal_name "Canceled",
  eq_iff signal_name "Closed",
  run-performed a es (confirmed_dialog signal_name done s).0,
  performed-append a (confirmed_dialog signal_name done s).1
      (run es (confirmed_dialog signal_name done s).0).1,
)
