-- ===== src/Power/Scenarios.antt =====
-- A short press that locks and blanks, and one that wakes; a press that is held too long.
use ubuntu_install_on_samsun.Prelude.{
  ℕ, ◌≡◌, refl, true, false, none, some, List, [], ◌∷◌, arith, ok, err,
}
use ubuntu_install_on_samsun.Display.Settings.{absent, Display}
use ubuntu_install_on_samsun.Power.{
  not_verified, restore, LockAnswers, lock_and_blank, Monitor, Answers, KeyEvent, key_event,
  auto_suspend_step, idle_check, Round, key_events, round, rounds,
}
use ubuntu_install_on_samsun.Power.Loop.{ever_locked, rounds_blank_locked}

abbrev lit : Display
lit = record {
  light = 200;
  off_state = none;
  preferences = absent;
  flashlight = none;
  idle_seconds = 300;
  auto_suspend = false;
  inhibit_until = 0;
  dirty_at = none;
  system_action = none;
}

abbrev dark : Display
dark = record lit { light = 0; off_state = some 200 }

abbrev start : Monitor
start = record {
  pressed_at = none;
  last_action = none;
  next_idle_check = 60000;
  previous_idle = none;
  auto_suspend_at = none;
}

abbrev locks : LockAnswers
locks = record {
  active_before = some false;
  lock_done = true;
  active_after = some true;
  locked_hint = some true;
}

abbrev unlocked : LockAnswers
unlocked = record locks { locked_hint = some false }

abbrev no_suspend : Answers
no_suspend = record {
  lock = locks;
  suspend = some (record { slept = false; power_wake = false });
  wake_key = true;
  later = 5000;
}

abbrev key : ℕ → ℕ → KeyEvent
key value now = record { type_code = 1; code = 116; value = value; now = now; answers = no_suspend }

abbrev quiet_round : List KeyEvent → Round
quiet_round keys = record {
  now = 1000;
  auto_answers = no_suspend;
  idle = some 40;
  playing = some false;
  idle_answers = record no_suspend { lock = unlocked };
  keys = keys;
}

locks_blank : lock_and_blank locks lit ≡ ok dark
unfolding lock_and_blank
locks_blank = refl

-- An unverified lock leaves the panel on.
unverified_stays_lit : lock_and_blank unlocked lit ≡ err not_verified
unfolding lock_and_blank
unverified_stays_lit = refl

abbrev acted : Monitor
acted = record start { last_action = some 2300; next_idle_check = 5300 }

one_press :
    rounds (quiet_round [] ∷ quiet_round (key 1 2000 ∷ key 0 2300 ∷ []) ∷ []) (start, lit)
    ≡ ok ((acted, dark))
unfolding rounds round key_events key_event auto_suspend_step idle_check lock_and_blank restore
one_press = refl

rounds_blank_locked_example :
    ever_locked (quiet_round [] ∷ quiet_round (key 1 2000 ∷ key 0 2300 ∷ []) ∷ []) ≡ true
rounds_blank_locked_example =
    rounds_blank_locked (quiet_round [] ∷ quiet_round (key 1 2000 ∷ key 0 2300 ∷ []) ∷ []) start
      acted lit dark (omega arith) refl one_press refl

abbrev held : Monitor
held = record start { pressed_at = some 2000 }

key_event_runs : key_event (key 0 2300) held lit ≡ ok ((acted, dark))
unfolding key_event lock_and_blank restore
key_event_runs = refl

long_press_ignored : key_event (key 0 3600) held lit ≡ ok ((start, lit))
unfolding key_event
long_press_ignored = refl
