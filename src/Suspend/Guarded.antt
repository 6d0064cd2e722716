-- ===== src/Suspend/Guarded.antt =====
-- ubuntu/t630-suspend.py: the device is touched only when every guard holds.
use mathlib.Core.Path.{subst}
use ubuntu_install_on_samsun.Prelude.{
  ◌≡◌, refl, sym, ap, ◌≢◌, inl, inr, Bool, true, false, ◌&&◌, Option, none, some, List, [], ◌∷◌,
  arith, ◌==◌, if◌then◌else◌, Bool-cases, length, All, Result, ok, err, ok_value, Result-cases,
}
use ubuntu_install_on_samsun.Suspend.{
  all_of, is_well_formed, is_candidate, Reason, Failure, any_of, is_empty, can_suspend, Interface,
  candidates, the_only, wifi_interface, Readings, assert, audio_active, ready_session,
  ready_hardware, ready, Course, unless_refused, main,
}

-- What must hold of the device.
pub record IsSafe (r : Readings) : Type 0 where
  pub root : r.is_root ≡ true
  pub arguments : r.arguments_known ≡ true
  pub installation : r.validated_installation ≡ true
  pub release : r.expected_release ≡ true
  pub enabled : r.enabled ≡ true
  pub not_disabled : r.disabled ≡ false
  pub no_deep_sleep : r.sleep_disabled ≡ true
  pub freeze_offered : r.offers_freeze ≡ true
  pub alarm_may_wake : r.rtc_may_wake ≡ true
  pub interface : Interface
  pub one_interface : candidates r.interfaces ≡ interface ∷ []
  pub vendor_files : interface.has_vendor_files ≡ true
  pub connected : interface.carrier ≡ true
  pub six_parts : length interface.address ≡ 6
  pub parts_of_two : all_of (λ part. length part == 2) interface.address ≡ true
  pub on_battery : r.discharging ≡ true
  pub no_usb : any_of (λ s. s) r.usb_attached ≡ false
  pub usb_seen : is_empty r.usb_attached ≡ false
  pub ipa : r.ipa_online ≡ true
  pub saver : r.screen_saver_active ≡ true
  pub hint : r.locked_hint ≡ true
  pub off_state : r.marked_off ≡ true
  pub commands : r.commands_answer ≡ true
  pub streams_are_list : r.streams_listed ≡ true
  pub streams_well_formed : all_of is_well_formed r.streams ≡ true
  pub dark : r.brightness_zero ≡ true
  pub silent : audio_active r.streams ≡ false
  pub no_alarm : r.alarm_set ≡ false
  pub no_check : r.check ≡ false

asserted : (test : Bool) → assert test ≡ ok tt → test ≡ true
asserted true h = refl
asserted false h = cc

one_candidate : (is : List Interface) (i : Interface) → the_only is ≡ ok i → is ≡ i ∷ []
one_candidate (j ∷ []) i h = ap (λ x. x ∷ []) (ok_value (the_only (j ∷ [])) j i refl h)
one_candidate [] i h = cc
one_candidate (j ∷ k ∷ is) i h = cc

-- The guards that the last part checks.
session_safe :
    (r : Readings)
    → ready_session r ≡ ok none
    → (can_suspend r.discharging r.usb_attached r.ipa_online
          (r.screen_saver_active && r.locked_hint)
          (r.marked_off && r.brightness_zero)
          (audio_active r.streams)
        ≡ true)
      × (r.alarm_set ≡ false)
      × (r.check ≡ false)
      × (r.commands_answer ≡ true)
      × (r.streams_listed ≡ true)
      × (all_of is_well_formed r.streams ≡ true)
unfolding ready_session
session_safe r h =
    (ground arith, ground arith, ground arith, ground arith, ground arith, ground arith)

hardware_safe :
    (r : Readings)
    → ready_hardware r ≡ ok none
    → (r.sleep_disabled ≡ true)
      × (r.offers_freeze ≡ true)
      × (r.rtc_may_wake ≡ true)
      × (i : Interface) × (wifi_interface r.interfaces ≡ ok i)
      × (r.discharging ≡ true)
      × (is_empty r.usb_attached ≡ false)
      × (any_of (λ s. s) r.usb_attached ≡ false)
      × (ready_session r ≡ ok none)
unfolding ready_hardware
hardware_safe r h = elim (Result-cases (wifi_interface r.interfaces)) [
  | inl (i, found) ↦ (
    ground arith,
    ground arith,
    ground arith,
    i,
    found,
    ground arith,
    ground arith,
    ground arith,
    ground arith,
  )
  | inr (e, failed) ↦ absurd (ground (arith, failed, h))
]

policy_safe :
    (r : Readings)
    → ready r ≡ ok none
    → (r.is_root ≡ true)
      × (r.arguments_known ≡ true)
      × (r.validated_installation ≡ true)
      × (r.expected_release ≡ true)
      × (r.enabled ≡ true)
      × (r.disabled ≡ false)
      × (ready_hardware r ≡ ok none)
unfolding ready
policy_safe r h = (
  ground arith,
  ground arith,
  ground arith,
  ground arith,
  ground arith,
  ground arith,
  ground arith,
)

suspend_parts :
    (discharging ipa saver hint off zero_brightness audio : Bool) (usb : List Bool)
    → can_suspend discharging usb ipa (saver && hint) (off && zero_brightness) audio ≡ true
    → (ipa ≡ true)
      × (saver ≡ true)
      × (hint ≡ true)
      × (off ≡ true)
      × (zero_brightness ≡ true)
      × (audio ≡ false)
unfolding can_suspend
suspend_parts discharging ipa saver hint off zero_brightness audio usb h =
    (ground arith, ground arith, ground arith, ground arith, ground arith, ground arith)

unique_interface :
    (is : List Interface) (i : Interface) → wifi_interface is ≡ ok i → candidates is ≡ i ∷ []
unfolding wifi_interface
unique_interface is i h = one_candidate (candidates is) i h

candidates-All : (is : List Interface) → All (λ i. is_candidate i ≡ true) (candidates is)
candidates-All [] = tt
candidates-All (i ∷ is) = elim (Bool-cases (is_candidate i)) [
  | inl h ↦
      subst (All (λ j. is_candidate j ≡ true))
        (sym (ap (λ (b : Bool). if b then i ∷ candidates is else candidates is) h))
        (h, candidates-All is)
  | inr h ↦
      subst (All (λ j. is_candidate j ≡ true))
        (sym (ap (λ (b : Bool). if b then i ∷ candidates is else candidates is) h))
        (candidates-All is)
]

the_candidate :
    (is : List Interface) (i : Interface) → wifi_interface is ≡ ok i → is_candidate i ≡ true
the_candidate is i h =
    (subst (All (λ j. is_candidate j ≡ true)) (unique_interface is i h) (candidates-All is)).0

interface_parts :
    (i : Interface)
    → is_candidate i ≡ true
    → (i.has_vendor_files ≡ true)
      × (i.carrier ≡ true)
      × (length i.address ≡ 6)
      × (all_of (λ part. length part == 2) i.address ≡ true)
interface_parts i h = (ground arith, ground arith, ground arith, ground arith)

ready-IsSafe : (r : Readings) → ready r ≡ ok none → IsSafe r
ready-IsSafe r h =
    let (root, arguments, installation, release, enabled, not_disabled, hardware) =
      policy_safe r h in
    let (no_deep_sleep, freeze_offered, alarm, i, found, battery, seen, usb, session) =
      hardware_safe r hardware in
    let (vendor_files, connected, six_parts, parts_of_two) =
      interface_parts i (the_candidate r.interfaces i found) in
    let (able, no_alarm, no_check, commands, listed, formed) = session_safe r session in
    let (ipa, saver, hint, off_state, dark, silent) =
      suspend_parts r.discharging r.ipa_online r.screen_saver_active r.locked_hint r.marked_off
        r.brightness_zero (audio_active r.streams) r.usb_attached able in
    record {
      root = root;
      arguments = arguments;
      installation = installation;
      release = release;
      enabled = enabled;
      not_disabled = not_disabled;
      no_deep_sleep = no_deep_sleep;
      freeze_offered = freeze_offered;
      alarm_may_wake = alarm;
      interface = i;
      one_interface = unique_interface r.interfaces i found;
      vendor_files = vendor_files;
      connected = connected;
      six_parts = six_parts;
      parts_of_two = parts_of_two;
      on_battery = battery;
      no_usb = usb;
      usb_seen = seen;
      ipa = ipa;
      saver = saver;
      hint = hint;
      off_state = off_state;
      commands = commands;
      streams_are_list = listed;
      streams_well_formed = formed;
      dark = dark;
      silent = silent;
      no_alarm = no_alarm;
      no_check = no_check;
    }

pub refused_acts :
    (c : Course) (v : Result Failure (Option Reason)) → (unless_refused c v).1 ≢ [] → v ≡ ok none
unfolding unless_refused
refused_acts c (err e) h = absurd (h refl)
refused_acts c (ok (some reason)) h = absurd (h refl)
refused_acts c (ok none) h = refl

-- Nothing at all is done to the device, the sensors included, unless every guard holds: root, known
-- arguments, the validated installation and kernel, an enabled policy, the deep sleep off, freeze
-- and the wake alarm on offer, one connected Wi-Fi interface of the vendor, on battery with every
-- USB controller unattached, the modem online, locked by both accounts, the display dark and
-- marked off, the streams well formed and none playing, no alarm that somebody else has set, and
-- no mere check.
pub main-IsSafe : (r : Readings) (c : Course) → (main r c).1 ≢ [] → IsSafe r
unfolding main
main-IsSafe r c acts = ready-IsSafe r (refused_acts c (ready r) acts)
