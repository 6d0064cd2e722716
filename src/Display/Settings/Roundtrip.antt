-- ===== src/Display/Settings/Roundtrip.antt =====
-- A brightness that is set is the one reported, saved and found again.
use ubuntu_install_on_samsun.Prelude.{
  ℕ, ◌≤◌, ◌≡◌, refl, Bool, true, ◌||◌, Option, none, some, arith, ltb, ◌==◌, if◌then◌else◌, is_some,
  ok, pos, passes_below, table_entry,
}
use ubuntu_install_on_samsun.Display.Flashlight.{Flashlight}
use ubuntu_install_on_samsun.Display.Settings.{
  maximum, int, bool, is_idle_choice, object, Display, get_or, percent_of, raw_of, status,
  write_brightness, set_brightness, load, init, flush, is_due,
}

-- The raw value of a percentage lies on the panel's scale and is not dark.
raw_of_range : (p : ℕ) → 5 ≤ p → p ≤ 100 → (15 ≤ raw_of p) × (raw_of p ≤ maximum)
raw_of_range p low high = ground arith

percent-raw_table : passes_below (λ p. ltb p 5 || percent_of (raw_of p) == p) 101 ≡ true
unfolding passes_below
percent-raw_table = refl

pub percent-raw : (p : ℕ) → 5 ≤ p → p ≤ 100 → percent_of (raw_of p) ≡ p
percent-raw p low high =
    let entry = table_entry (λ q. ltb q 5 || percent_of (raw_of q) == q) 101 p in
    ground (arith, entry (omega arith) percent-raw_table)

-- Setting a brightness of 5 to 100 percent succeeds, and the status reports it back exactly,
-- blanked or not. While blanked the panel node is not touched.
pub set_brightness-status :
    (p : ℕ) (persist : Option ℕ) (d : Display)
    → 5 ≤ p
    → p ≤ 100
    → is_idle_choice (pos d.idle_seconds) ≡ true
    → (d' : Display) × (set_brightness (int (pos p)) persist d ≡ ok d')
      × (status d' ≡ record (status d) { brightness = p })
      × (d'.light ≡ (if is_some d.off_state then d.light else raw_of p))
unfolding set_brightness status
set_brightness-status p persist d low high idle =
    let d₁ = write_brightness p d in
    let d' = if is_some persist then record d₁ { dirty_at = persist } else d₁ in
    (d', ground arith, ground (arith, percent-raw p), ground arith)

percent_of_range : (raw : ℕ) → (5 ≤ percent_of raw) × (percent_of raw ≤ 100)
percent_of_range raw = omega arith

-- A start from a valid file adopts its three values.
init-object :
    (p idle light : ℕ) (auto_suspend : Bool) (off_state : Option ℕ) (f : Option Flashlight)
    → 5 ≤ p
    → p ≤ 100
    → is_idle_choice (pos idle) ≡ true
    → (d : Display) × (init maximum light off_state
          (object (some (int (pos p))) (some (int (pos idle))) (some (bool auto_suspend)))
          f
        ≡ ok d)
      × ((status d).brightness ≡ p)
      × (d.idle_seconds ≡ idle)
      × (d.auto_suspend ≡ auto_suspend)
unfolding init load status set_brightness
init-object p idle light auto_suspend off_state f low high choice =
    let base : Display = record {
      light = light;
      off_state = off_state;
      preferences = object (some (int (pos p))) (some (int (pos idle))) (some (bool auto_suspend));
      flashlight = f;
      idle_seconds = idle;
      auto_suspend = auto_suspend;
      inhibit_until = 0;
      dirty_at = none;
      system_action = none;
    } in
    (
      write_brightness p base,
      ground arith,
      ground (arith, percent-raw p),
      ground arith,
      ground arith,
    )

-- Preferences that `flush` saved are found again by the next start, whatever the panel shows then:
-- the brightness in percent, the idle timeout and the suspend switch.
pub flush-init :
    (now later light : ℕ) (off_state : Option ℕ) (f : Option Flashlight) (d : Display)
    → is_idle_choice (pos d.idle_seconds) ≡ true
    → is_some d.dirty_at ≡ true
    → let (r, d') = flush true now later true d in
      (r ≡ some true)
      × (d'.dirty_at ≡ none)
      × (again : Display) × (init maximum light off_state d'.preferences f ≡ ok again)
      × ((status again).brightness ≡ (status d).brightness)
      × (again.idle_seconds ≡ d.idle_seconds)
      × (again.auto_suspend ≡ d.auto_suspend)
unfolding flush
flush-init now later light off_state f d idle dirty =
    let range = percent_of_range (get_or d.off_state d.light) in
    let (again, e, b, i, a) =
      init-object (status d).brightness d.idle_seconds light d.auto_suspend off_state f range.0
        range.1 idle in
    let due : is_due true now d.dirty_at ≡ true = ground arith in
    rw due (refl, refl, again, e, b, i, a)
