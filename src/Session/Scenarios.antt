-- ===== src/Session/Scenarios.antt =====
-- Sessions in which requests are made, confirmed, canceled and refused.
use ubuntu_install_on_samsun.Prelude.{◌≤◌, ◌≡◌, refl, true, some, List, [], ◌∷◌}
use ubuntu_install_on_samsun.Session.{
  poweroff, reboot, Session, reply, client_path, none_value, busy, open_dialog, run_power, start,
  Event, method_call, dialog_signal, idle, opened, manager_method, step, run, requested_action,
  confirmed_action,
}
use ubuntu_install_on_samsun.Session.Confirmation.{
  performed, requests, confirmations, run_performs_confirmed_requests,
}

-- Two clients register; a power off is asked for twice and confirmed twice.
abbrev evening : List Event
evening =
    method_call 7 "RegisterClient"
    ∷ method_call 0 "Shutdown"
    ∷ idle
    ∷ opened true
    ∷ method_call 9 "RegisterClient"
    ∷ method_call 0 "Reboot"
    ∷ dialog_signal "ConfirmedReboot" true
    ∷ dialog_signal "ConfirmedShutdown" true
    ∷ dialog_signal "ConfirmedShutdown" true
    ∷ []

evening_runs :
    (run evening start).1
    ≡ reply (client_path 1)
      ∷ reply none_value
      ∷ open_dialog poweroff 1
      ∷ reply (client_path 2)
      ∷ reply busy
      ∷ run_power poweroff
      ∷ []
unfolding run step manager_method requested_action confirmed_action
evening_runs = refl

run_performs_confirmed_requests_example :
    (performed poweroff (run evening start).1 ≤ requests poweroff evening)
    × (performed poweroff (run evening start).1 ≤ confirmations poweroff evening)
run_performs_confirmed_requests_example = run_performs_confirmed_requests poweroff evening

abbrev asked : Session
asked = record start { pending_action = some reboot; opening = reboot ∷ [] }

abbrev late : List Event
late = opened true ∷ dialog_signal "ConfirmedReboot" true ∷ method_call 3 "RegisterClient" ∷ []
