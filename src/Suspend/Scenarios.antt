-- ===== src/Suspend/Scenarios.antt =====
-- A night's sleep of a locked tablet, and a freeze that times out.
use ubuntu_install_on_samsun.Prelude.{
  ℕ, ◌≡◌, refl, sym, ap, ◌∙◌, ◌≢◌, Bool, true, false, Option, some, List, [], ◌∷◌, ltb, ok, err,
  codes,
}
use ubuntu_install_on_samsun.Suspend.{
  power_connected, timeout_expired, os_error, can_suspend, Interface, wifi_interface, Readings,
  ready_session, ready_hardware, ready, Act, kill_sensors, remove_ready, add_pattern, freeze,
  disable_alarm, remove_pattern, start_sensors, Course, refused, woke, poll_stopped,
  stop_sensor_bridge, main,
}
use ubuntu_install_on_samsun.Suspend.Guarded.{IsSafe, main-IsSafe}

abbrev two : List ℕ
two = codes "0a"

abbrev wlan : Interface
wlan = record {
  index = 3;
  has_vendor_files = true;
  carrier = true;
  address = two ∷ two ∷ two ∷ two ∷ two ∷ two ∷ [];
}

abbrev tablet : Readings
tablet = record {
  is_root = true;
  arguments_known = true;
  validated_installation = true;
  expected_release = true;
  enabled = true;
  disabled = false;
  sleep_disabled = true;
  offers_freeze = true;
  rtc_may_wake = true;
  interfaces = record wlan { has_vendor_files = false } ∷ wlan ∷ [];
  discharging = true;
  usb_attached = false ∷ [];
  ipa_online = true;
  screen_saver_active = true;
  locked_hint = true;
  commands_answer = true;
  streams_listed = true;
  streams = record { is_dictionary = true; corked = some true } ∷ [];
  marked_off = true;
  brightness_zero = true;
  alarm_set = false;
  check = false;
}

abbrev still_there : ℕ → Option Bool
still_there n = some (ltb n 2)

abbrev night : Bool → Course
night ends = record {
  lock_free = true;
  bridge_active = some true;
  kill_succeeds = true;
  looks = still_there;
  pattern_added = true;
  freeze_ends = ends;
  exit_zero = true;
  asleep = 300000;
  reason_readable = true;
  reason_has_power_key = false;
  alarm_disabled = true;
  pattern_removed = true;
  sensors_started = true;
}

abbrev all_acts : List Act
all_acts =
    kill_sensors ∷ remove_ready ∷ add_pattern ∷ freeze ∷ disable_alarm ∷ remove_pattern
    ∷ start_sensors ∷ []

sleeps : main tablet (night true) ≡ (ok (woke true 300000 true false), all_acts)
unfolding main ready ready_hardware ready_session can_suspend wifi_interface poll_stopped
    stop_sensor_bridge
sleeps = refl

times_out : main tablet (night false) ≡ (err timeout_expired, all_acts)
unfolding main ready ready_hardware ready_session can_suspend wifi_interface poll_stopped
    stop_sensor_bridge
times_out = refl

plugged_in :
    main (record tablet { usb_attached = true ∷ [] }) (night true)
    ≡ (ok (refused power_connected), [])
unfolding main ready ready_hardware ready_session can_suspend wifi_interface poll_stopped
    stop_sensor_bridge
plugged_in = refl

-- A pattern that cannot be removed leaves the sensors stopped, and no answer.
sensors_left :
    main tablet (record (night true) { pattern_removed = false })
    ≡ (err os_error, kill_sensors ∷ remove_ready ∷ add_pattern ∷ freeze ∷ disable_alarm ∷ [])
unfolding main ready ready_hardware ready_session can_suspend wifi_interface poll_stopped
    stop_sensor_bridge
sensors_left = refl

some_acts : (main tablet (night true)).1 ≢ []
some_acts h = let acts : all_acts ≡ [] = sym (ap (λ r. r.1) sleeps) ∙ h in absurd (cc)

main-IsSafe_example : IsSafe tablet
main-IsSafe_example = main-IsSafe tablet (night true) some_acts
