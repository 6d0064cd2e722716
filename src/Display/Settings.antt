-- ===== src/Display/Settings.antt =====
-- class DisplaySettings: construction from the preferences file, status, brightness, and saving.
-- The backlight node and the file of the blanked brightness hold a number; its writes succeed.
-- A save goes through or raises OSError, as an argument says.
pub mod Roundtrip
use ubuntu_install_on_samsun.Prelude.{
  ℕ, ◌+◌, ◌*◌, min, max, Bool, true, false, not, ◌&&◌, ◌||◌, Option, none, some, leb, ◌==◌,
  if◌then◌else◌, is_some, Result, ok, err, ◌>>=◌, ◌>>◌, raise_if, ℤ, pos, negsuc, pos_part, leb_ℤ,
  round_div,
}
use ubuntu_install_on_samsun.Display.Flashlight
use ubuntu_install_on_samsun.Display.Flashlight.{Flashlight, second}

abbrev pub maximum : ℕ
maximum = 306

abbrev pub is_idle_choice : ℤ → Bool
is_idle_choice (pos n) = n == 0 || n == 120 || n == 300 || n == 600 || n == 1800
is_idle_choice (negsuc n) = false

-- A value of the JSON file.
pub data Value : Type 0 where
  int : ℤ → Value
  bool : Bool → Value
  other : Value

pub data DisplayError : Type 0 where
  unexpected_backlight brightness_range unsupported_idle suspend_not_bool : DisplayError
  missing_key bad_json unsupported_request not_a_number action_pending : DisplayError
  flashlight_error : Flashlight.FlashlightError → DisplayError

pub data SystemAction : Type 0 where
  poweroff reboot : SystemAction

-- The preferences file: absent, not readable as an object, or an object with these keys.
pub data Preferences : Type 0 where
  absent : Preferences
  invalid : Preferences
  object : Option Value → Option Value → Option Value → Preferences

pub record Display : Type 0 where
  -- the backlight's `brightness` node, and the file that holds the value to restore
  pub light : ℕ
  pub off_state : Option ℕ
  pub preferences : Preferences
  pub flashlight : Option Flashlight
  pub idle_seconds : ℕ
  pub auto_suspend : Bool
  pub inhibit_until : ℕ
  pub dirty_at : Option ℕ
  pub system_action : Option SystemAction

pub record FlashlightStatus : Type 0 where
  pub available : Bool
  pub enabled : Bool
  pub brightness : ℕ

pub record Status : Type 0 where
  pub brightness : ℕ
  pub idle_seconds : ℕ
  pub auto_suspend : Bool
  pub blanked : Bool
  pub flashlight : FlashlightStatus

abbrev pub check_percent : Value → Result DisplayError ℕ
check_percent (int percent) =
    if leb_ℤ (pos 5) percent && leb_ℤ percent (pos 100)
    then ok (pos_part percent)
    else err brightness_range
check_percent _ = err brightness_range

abbrev pub check_idle : Value → Result DisplayError ℕ
check_idle (int idle) = if is_idle_choice idle then ok (pos_part idle) else err unsupported_idle
check_idle _ = err unsupported_idle

abbrev pub check_suspend : Value → Result DisplayError Bool
check_suspend (bool b) = ok b
check_suspend _ = err suspend_not_bool

-- `validate` also hands back the checked values, by their types.
unfoldable pub validate : Value → Value → Value → Result DisplayError (ℕ × ℕ × Bool)
validate percent idle auto_suspend = do
  p ← check_percent percent
  i ← check_idle idle
  a ← check_suspend auto_suspend
  ok (p, i, a)

abbrev pub get_or : Option ℕ → ℕ → ℕ
get_or none n = n
get_or (some m) n = m

abbrev pub flashlight_status : Option Flashlight → FlashlightStatus
flashlight_status none = record { available = false; enabled = false; brightness = 20 }
flashlight_status (some f) = record {
  available = true;
  enabled = f.enabled;
  brightness = f.percent;
}

abbrev pub percent_of : ℕ → ℕ
percent_of raw = max 5 (min 100 (round_div (raw * 100) maximum))

abbrev pub raw_of : ℕ → ℕ
raw_of percent = round_div (maximum * percent) 100

unfoldable pub status : Display → Status
status d = record {
  brightness = percent_of (get_or d.off_state d.light);
  idle_seconds = d.idle_seconds;
  auto_suspend = d.auto_suspend;
  blanked = is_some d.off_state;
  flashlight = flashlight_status d.flashlight;
}

-- While blanked, the value to restore is changed and the panel stays dark.
unfoldable pub write_brightness : ℕ → Display → Display
write_brightness percent d =
    if is_some d.off_state
    then record d { off_state = some (raw_of percent) }
    else record d { light = raw_of percent }

-- `persist` is the time of the call, or none for `persist=False`.
unfoldable pub set_brightness : Value → Option ℕ → Display → Result DisplayError Display
unfolding validate write_brightness
set_brightness percent persist d = do
  checked ← validate percent (int (pos d.idle_seconds)) (bool d.auto_suspend)
  let d' = write_brightness checked.0 d
  ok (if is_some persist then record d' { dirty_at = persist } else d')

abbrev pub required : Option Value → Result DisplayError Value
required none = err missing_key
required (some v) = ok v

abbrev pub defaulted : Option Value → Value
defaulted none = bool false
defaulted (some v) = v

-- What the `try` block of the constructor finds; none if there is no file.
unfoldable pub load : Preferences → Option (Result DisplayError (ℕ × ℕ × Bool))
unfolding validate
load absent = none
load invalid = some (err bad_json)
load (object brightness idle_seconds auto_suspend) = some (do
  percent ← required brightness
  idle ← required idle_seconds
  validate percent idle (defaulted auto_suspend))

-- The `else` block; an invalid file is ignored.
adopt : Option (Result DisplayError (ℕ × ℕ × Bool)) → Display → Result DisplayError Display
unfolding set_brightness
adopt (some (ok (percent, idle, auto_suspend))) d =
    set_brightness (int (pos percent)) none
      (record d { idle_seconds = idle; auto_suspend = auto_suspend })
adopt (some (err e)) d = ok d
adopt none d = ok d

-- `light` and `off_state` are what the files hold when the monitor starts.
unfoldable pub init :
    ℕ → ℕ → Option ℕ → Preferences → Option Flashlight → Result DisplayError Display
unfolding load adopt
init max_brightness light off_state preferences flashlight = do
  raise_if (not (max_brightness == maximum)) unexpected_backlight
  adopt (load preferences) (record {
    light = light;
    off_state = off_state;
    preferences = preferences;
    flashlight = flashlight;
    idle_seconds = 300;
    auto_suspend = false;
    inhibit_until = 0;
    dirty_at = none;
    system_action = none;
  })

unfoldable pub take_system_action : Display → Option SystemAction × Display
take_system_action d = (d.system_action, record d { system_action = none })

abbrev pub map_flashlight : (Flashlight → Flashlight) → Option Flashlight → Option Flashlight
map_flashlight g none = none
map_flashlight g (some f) = some (g f)

unfoldable pub tick : ℕ → Display → Display
unfolding Flashlight.expire
tick now d = record d { flashlight = map_flashlight (Flashlight.expire now) d.flashlight }

unfoldable pub close : Display → Display
unfolding Flashlight.off
close d = record d { flashlight = map_flashlight Flashlight.off d.flashlight }

-- Whether `flush` has something to save by now.
abbrev pub is_due : Bool → ℕ → Option ℕ → Bool
is_due force now none = false
is_due force now (some dirty_at) = force || leb (dirty_at + 2 * second) now

-- `saved` tells whether the file was written and renamed; `later` is the time of the handler.
unfoldable pub flush : Bool → ℕ → ℕ → Bool → Display → Option Bool × Display
unfolding status
flush force now later saved d =
    if is_due force now d.dirty_at
    then (if saved
        then (
          some true,
          record d {
            preferences =
                object (some (int (pos (status d).brightness))) (some (int (pos d.idle_seconds)))
                  (some (bool d.auto_suspend));
            dirty_at = none;
          },
        )
        else (some false, record d { dirty_at = some later }))
    else (none, d)
