-- ===== src/Display/Flashlight.antt =====
-- class FlashlightSettings: the two sysfs nodes of the rear torch, and the lease on the light.
-- A write to a node succeeds; a time is a number of milliseconds.
pub mod Lease
use text.Mathlib.Text.{◌==◌ as str_eq}
use ubuntu_install_on_samsun.Prelude.{
  ℕ, ◌+◌, ◌*◌, max, String, Bool, true, false, not, ◌&&◌, ◌||◌, leb, ◌==◌, if◌then◌else◌, Result,
  ok, err, ◌>>=◌, ◌>>◌, raise_if, ℤ, pos, pos_part, leb_ℤ, round_div,
}

abbrev pub second : ℕ
second = 1000

abbrev pub lease_seconds : ℕ
lease_seconds = 15

abbrev pub safe_max : ℕ
safe_max = 300

pub data FlashlightError : Type 0 where
  unexpected_nodes different_controllers unexpected_torch_limit unexpected_switch : FlashlightError
  brightness_range flashlight_is_off : FlashlightError

-- What the constructor reads about the two nodes.
pub record Nodes : Type 0 where
  pub torch_name : String
  pub switch_name : String
  pub same_parent : Bool
  pub torch_max_brightness : ℕ
  pub switch_max_brightness : ℕ

pub record Flashlight : Type 0 where
  -- the two `brightness` nodes
  pub torch : ℕ
  pub switch : ℕ
  pub percent : ℕ
  pub enabled : Bool
  pub lease_until : ℕ

-- Clears both controls whatever the memory says.
unfoldable pub off : Flashlight → Flashlight
off f = record f { torch = 0; switch = 0; enabled = false; lease_until = 0 }

-- `torch` and `switch` are what the nodes hold when the monitor starts.
unfoldable pub init : Nodes → ℕ → ℕ → Result FlashlightError Flashlight
unfolding off
init n torch switch = do
  raise_if (not (str_eq n.torch_name "led:torch_0") || not (str_eq n.switch_name "led:switch_0"))
      unexpected_nodes
  raise_if (not n.same_parent) different_controllers
  raise_if (not (n.torch_max_brightness == 500)) unexpected_torch_limit
  raise_if (not (n.switch_max_brightness == 255)) unexpected_switch
  ok (
      off
        (record { torch = torch; switch = switch; percent = 20; enabled = false; lease_until = 0 }))

abbrev pub current_of : ℕ → ℕ
current_of percent = max 1 (round_div (safe_max * percent) 100)

unfoldable pub write_current : Flashlight → Flashlight
write_current f = record f { torch = current_of f.percent }

-- `renew` once the light is known to be on.
unfoldable pub extend : ℕ → Flashlight → Flashlight
extend now f = record f { lease_until = now + lease_seconds * second }

unfoldable pub renew : ℕ → Flashlight → Result FlashlightError Flashlight
unfolding extend
renew now f = if f.enabled then ok (extend now f) else err flashlight_is_off

-- `percent` is a Python int: `int(…)` of a token.
unfoldable pub set_brightness : ℤ → ℕ → Flashlight → Result FlashlightError Flashlight
unfolding write_current renew
set_brightness percent now f =
    if leb_ℤ (pos 5) percent && leb_ℤ percent (pos 100)
    then (let f' = record f { percent = pos_part percent } in
        if f.enabled then renew now (write_current f') else ok f')
    else err brightness_range

-- The current first, the switch last.
unfoldable pub on : ℕ → Flashlight → Flashlight
unfolding write_current extend
on now f = extend now (record (write_current f) { switch = 1; enabled = true })

unfoldable pub expire : ℕ → Flashlight → Flashlight
unfolding off
expire now f = if f.enabled && leb f.lease_until now then off f else f
