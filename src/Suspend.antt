-- ===== src/Suspend.antt =====
-- ubuntu/t630-suspend.py: one guarded suspend. What the device answers is an argument; the result
-- is the printed answer beside what was done to the device, oldest first.
pub mod Guarded
pub mod RolledBack
mod Scenarios
use ubuntu_install_on_samsun.Prelude.{
  ℕ, zero, suc, ◌+◌, ◌-◌, ◌*◌, ◌/◌, ◌%◌, ◌^◌, ◌≤◌, ◌<◌, min, max, String, ◌≡◌, refl, sym, ap, ◌∙◌,
  ◌≢◌, ◌↔◌, ◌⊎◌, inl, inr, Bool, true, false, not, ◌&&◌, ◌||◌, Option, none, some, List, [], ◌∷◌,
  ◌++◌, map, append-nil, append_assoc, arith, ltb, leb, ◌==◌, if◌then◌else◌, Bool-cases,
  Option-cases, is_some, tests, ==→≡, length, get_elem?, take, drop, length-append,
  take-append-drop, All, Result, ok, err, ◌>>=◌, ◌>>◌, raise_if, went_through, Result-cases, ℤ, pos,
  negsuc, pos_part, neg_part, leb_ℤ, round_div, passes_below, table_entry, codes, same, same_refl,
  same→≡, is_digit, is_space, split, to_int, split_from, digits_value,
}

-- The exceptions that end `main`, and the reasons that it returns.
pub data Reason : Type 0 where
  policy_disabled power_connected not_ready check_only : Reason

pub data Failure : Type 0 where
  assertion_error runtime_error os_error timeout_expired called_process_error : Failure

abbrev pub all_of {ℓ} : {A : Type ℓ} → (A → Bool) → List A → Bool
all_of test [] = true
all_of test (x ∷ xs) = test x && all_of test xs

abbrev pub any_of {ℓ} : {A : Type ℓ} → (A → Bool) → List A → Bool
any_of test [] = false
any_of test (x ∷ xs) = test x || any_of test xs

abbrev pub is_empty {ℓ} : {A : Type ℓ} → List A → Bool
is_empty [] = true
is_empty (x ∷ xs) = false

-- `attached`: whether the state of a USB controller is other than `not attached`.
unfoldable pub can_suspend : Bool → List Bool → Bool → Bool → Bool → Bool → Bool
can_suspend discharging attached ipa_online locked blanked audio_active =
    discharging
    && not (is_empty attached)
    && all_of not attached
    && ipa_online
    && locked
    && blanked
    && not audio_active

-- A network interface: its carrier, the parts of its address, and whether it has the four files
-- of the vendor's driver.
pub record Interface : Type 0 where
  pub index : ℕ
  pub has_vendor_files : Bool
  pub carrier : Bool
  pub address : List (List ℕ)

abbrev pub is_candidate : Interface → Bool
is_candidate i =
    i.has_vendor_files
    && i.carrier
    && length i.address == 6
    && all_of (λ part. length part == 2) i.address

abbrev pub candidates : List Interface → List Interface
candidates [] = []
candidates (i ∷ rest) = if is_candidate i then i ∷ candidates rest else candidates rest

abbrev pub the_only : List Interface → Result Failure Interface
the_only (i ∷ []) = ok i
the_only _ = err runtime_error

unfoldable pub wifi_interface : List Interface → Result Failure Interface
wifi_interface entries = the_only (candidates entries)

-- A stream of the audio server: whether it is a dictionary, and its field `corked` if it is a
-- Boolean.
pub record Stream : Type 0 where
  pub is_dictionary : Bool
  pub corked : Option Bool

abbrev pub is_well_formed : Stream → Bool
is_well_formed stream = stream.is_dictionary && is_some stream.corked

abbrev pub plays : Option Bool → Bool
plays (some false) = true
plays _ = false

-- What the device answers before the lock file is taken.
pub record Readings : Type 0 where
  pub is_root : Bool
  pub arguments_known : Bool
  pub validated_installation : Bool
  pub expected_release : Bool
  pub enabled : Bool
  pub disabled : Bool
  pub sleep_disabled : Bool
  pub offers_freeze : Bool
  pub rtc_may_wake : Bool
  pub interfaces : List Interface
  pub discharging : Bool
  pub usb_attached : List Bool
  pub ipa_online : Bool
  pub screen_saver_active : Bool
  pub locked_hint : Bool
  pub commands_answer : Bool
  pub streams_listed : Bool
  pub streams : List Stream
  pub marked_off : Bool
  pub brightness_zero : Bool
  pub alarm_set : Bool
  pub check : Bool

abbrev pub assert : Bool → Result Failure (Unit {0})
assert test = raise_if (not test) assertion_error

abbrev pub audio_active : List Stream → Bool
audio_active streams = any_of (λ stream. plays stream.corked) streams

-- The last guards; a reason where the code returns one, none to go on.
unfoldable pub ready_session : Readings → Result Failure (Option Reason)
unfolding can_suspend
ready_session r = do
  raise_if (not r.commands_answer) called_process_error
  assert (r.streams_listed && all_of is_well_formed r.streams)
  let able =
      can_suspend r.discharging r.usb_attached r.ipa_online (r.screen_saver_active && r.locked_hint)
        (r.marked_off && r.brightness_zero) (audio_active r.streams)
  assert (not able || not r.alarm_set)
  ok (if not able then some not_ready else if r.check then some check_only else none)

unfoldable pub ready_hardware : Readings → Result Failure (Option Reason)
unfolding wifi_interface ready_session
ready_hardware r = do
  assert r.sleep_disabled
  assert r.offers_freeze
  assert r.rtc_may_wake
  _ ← wifi_interface r.interfaces
  let session = ready_session r
  if not r.discharging || is_empty r.usb_attached || any_of (λ s. s) r.usb_attached
      then ok (some power_connected)
      else session

-- All guards, in the order of the code.
unfoldable pub ready : Readings → Result Failure (Option Reason)
unfolding ready_hardware
ready r = do
  assert r.is_root
  assert r.arguments_known
  assert r.validated_installation
  assert r.expected_release
  let hardware = ready_hardware r
  if not r.enabled || r.disabled then ok (some policy_disabled) else hardware

-- What was done. Writes to the driver, the disabling of the alarm and the start of the sensors stand
-- here once they have succeeded, the kill and the freeze once they have been called.
pub data Act : Type 0 where
  kill_sensors remove_ready add_pattern freeze disable_alarm remove_pattern start_sensors : Act

-- How the part under the lock file goes: the first look at the sensor bridge and the looks after
-- the kill, none where pgrep fails, and whether each write and command succeeds. Times are
-- milliseconds.
pub record Course : Type 0 where
  pub lock_free : Bool
  pub bridge_active : Option Bool
  pub kill_succeeds : Bool
  pub looks : ℕ → Option Bool
  pub pattern_added : Bool
  pub freeze_ends : Bool
  pub exit_zero : Bool
  pub asleep : ℕ
  pub reason_readable : Bool
  pub reason_has_power_key : Bool
  pub alarm_disabled : Bool
  pub pattern_removed : Bool
  pub sensors_started : Bool

pub data Answer : Type 0 where
  refused : Reason → Answer
  woke : (slept : Bool) → (seconds : ℕ) → (exit_zero : Bool) → (power_wake : Bool) → Answer

-- A part of the `try`, with what it did and whether the wake pattern is installed.
pub record Tried (A : Type 0) : Type 0 where
  pub result : Result Failure A
  pub done : List Act
  pub installed : Bool

abbrev pub after_look : Result Failure (Unit {0}) → Option Bool → Result Failure (Unit {0})
after_look later none = err runtime_error
after_look later (some false) = ok tt
after_look later (some true) = later

module _ (c : Course) where
  -- The looks left of the twenty; `n` is the number of the next.
  unfoldable pub poll_stopped : ℕ → ℕ → Result Failure (Unit {0})
  poll_stopped zero n = err runtime_error
  poll_stopped (suc left) n = after_look (poll_stopped left (suc n)) (c.looks n)

  abbrev pub after_kill : Result Failure (Unit {0}) → Tried (Unit {0})
  after_kill (ok _) = record {
    result = ok tt;
    done = kill_sensors ∷ remove_ready ∷ [];
    installed = false;
  }
  after_kill (err e) = record { result = err e; done = kill_sensors ∷ []; installed = false }

  unfoldable pub stop_sensor_bridge : Tried (Unit {0})
  unfolding poll_stopped
  stop_sensor_bridge = after_kill (if c.kill_succeeds then poll_stopped 20 0 else err os_error)

  -- From the pattern to the answer.
  abbrev pub sleep : Tried Answer
  sleep =
      if not c.pattern_added
      then record { result = err os_error; done = []; installed = false }
      else record {
        result =
            if not c.freeze_ends
            then err timeout_expired
            else if not c.reason_readable
            then err os_error
            else ok
                (woke (c.exit_zero && ltb 50 c.asleep) c.asleep c.exit_zero c.reason_has_power_key);
        done = add_pattern ∷ freeze ∷ [];
        installed = true;
      }

  abbrev pub sleep_after : List Act → Result Failure (Unit {0}) → Tried Answer
  sleep_after before (ok _) = record sleep { done = before ++ sleep.done }
  sleep_after before (err e) = record { result = err e; done = before; installed = false }

  abbrev pub body : Bool → Tried Answer
  unfolding stop_sensor_bridge
  body restart_sensors =
      if restart_sensors
      then sleep_after stop_sensor_bridge.done stop_sensor_bridge.result
      else sleep

  -- The result after a statement of a `finally`.
  abbrev pub unless_raised : {A : Type 0} → Bool → Failure → Result Failure A → Result Failure A
  unless_raised succeeds e r = if succeeds then r else err e

  abbrev pub if_done : Bool → Act → List Act
  if_done succeeds act = if succeeds then act ∷ [] else []

  abbrev pub end_sensors :
      Bool → Result Failure Answer → List Act → Result Failure Answer × List Act
  end_sensors restart r done =
      if restart
      then (
        unless_raised c.sensors_started os_error r,
        done ++ if_done c.sensors_started start_sensors,
      )
      else (r, done)

  abbrev pub end_pattern :
      Bool → Bool → Result Failure Answer → List Act → Result Failure Answer × List Act
  end_pattern restart installed r done =
      if not installed
      then end_sensors restart r done
      else if c.pattern_removed
      then end_sensors restart r (done ++ remove_pattern ∷ [])
      else (err os_error, done)

  -- The `finally` blocks.
  abbrev pub clean_up : Bool → Tried Answer → Result Failure Answer × List Act
  clean_up restart t =
      end_pattern restart t.installed (unless_raised c.alarm_disabled timeout_expired t.result)
        (t.done ++ if_done c.alarm_disabled disable_alarm)

  abbrev pub with_bridge : Option Bool → Result Failure Answer × List Act
  unfolding body
  with_bridge none = (err runtime_error, [])
  with_bridge (some restart_sensors) = clean_up restart_sensors (body restart_sensors)

  abbrev pub under_lock : Result Failure Answer × List Act
  unfolding with_bridge
  under_lock = if c.lock_free then with_bridge c.bridge_active else (err os_error, [])

  abbrev pub unless_refused : Result Failure (Option Reason) → Result Failure Answer × List Act
  unfolding under_lock
  unless_refused (err e) = (err e, [])
  unless_refused (ok (some reason)) = (ok (refused reason), [])
  unless_refused (ok none) = under_lock

unfoldable pub main : Readings → Course → Result Failure Answer × List Act
unfolding ready unless_refused
main r c = unless_refused c (ready r)
