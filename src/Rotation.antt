-- ===== src/Rotation.antt =====
-- ubuntu/t630-rotation-controller.py: the debounced rotation of the panel. Times are clock ticks of
-- a millisecond. What the sensor, the lock switch, GNOME, xrandr and the module that turns the
-- panel answer in one turn is an argument.
mod Settled
mod Applied
mod Scenarios
use ubuntu_install_on_samsun.Prelude.{
  ℕ, zero, suc, ◌+◌, ◌-◌, ◌*◌, ◌/◌, ◌%◌, ◌^◌, ◌≤◌, ◌<◌, min, max, String, ◌≡◌, refl, sym, ap, ◌∙◌,
  ◌≢◌, ◌↔◌, ◌⊎◌, inl, inr, Bool, true, false, not, ◌&&◌, ◌||◌, Option, none, some, List, [], ◌∷◌,
  ◌++◌, map, append-nil, append_assoc, arith, ltb, leb, ◌==◌, if◌then◌else◌, Bool-cases,
  Option-cases, is_some, tests, ==→≡, length, get_elem?, take, drop, length-append,
  take-append-drop, All, Result, ok, err, ◌>>=◌, ◌>>◌, raise_if, went_through, Result-cases, ℤ, pos,
  negsuc, pos_part, neg_part, leb_ℤ, round_div, passes_below, table_entry, codes, same, same_refl,
  same→≡, is_digit, is_space, split, to_int, split_from, digits_value,
}

pub data Orientation : Type 0 where
  normal bottom_up left_up right_up undefined : Orientation

-- ORIENTATION_TRANSFORMS.get; any other text than the four is `undefined`.
abbrev pub mapped_transform : Orientation → Option ℕ
mapped_transform normal = some 0
mapped_transform bottom_up = some 2
mapped_transform left_up = some 1
mapped_transform right_up = some 3
mapped_transform undefined = none

-- TRANSFORM_MODES: width and height.
abbrev pub transform_mode : ℕ → ℕ × ℕ
transform_mode target = if target % 2 == 0 then (1200, 1920) else (1920, 1200)

abbrev pub settle_ticks : ℕ
settle_ticks = 1000

pub record State : Type 0 where
  pub pending : Option Orientation
  pub since : ℕ
  pub last_applied : Option ℕ
  pub last_verify : ℕ
  pub claimed : Bool

abbrev pub init : State
init = record { pending = none; since = 0; last_applied = none; last_verify = 0; claimed = false }

abbrev pub same_orientation : Orientation → Orientation → Bool
same_orientation normal normal = true
same_orientation bottom_up bottom_up = true
same_orientation left_up left_up = true
same_orientation right_up right_up = true
same_orientation undefined undefined = true
same_orientation _ _ = false

abbrev pub is_pending : Option Orientation → Orientation → Bool
is_pending none orientation = false
is_pending (some o) orientation = same_orientation o orientation

abbrev usable : Orientation → Bool
usable orientation = is_some (mapped_transform orientation)

unfoldable pub queue_rotation : State → Orientation → Bool → ℕ → State
queue_rotation s orientation locked now =
    if locked
    then record s { pending = none }
    else if not (usable orientation)
    then s
    else if is_pending s.pending orientation
    then s
    else record s { pending = some orientation; since = now }

-- A mode of a monitor: its name as a number, its size, and whether it is the current one.
pub record Mode : Type 0 where
  pub mode_id : ℕ
  pub width : ℕ
  pub height : ℕ
  pub is_current : Bool

-- What GetCurrentState answers: whether the one monitor and the one logical monitor are the
-- expected, the monitor's modes, and the logical monitor's transform; none for a D-Bus error.
pub record GnomeState : Type 0 where
  pub expected_monitor : Bool
  pub expected_layout : Bool
  pub modes : List Mode
  pub transform : ℕ

-- The answers in one turn. A FIFO that cannot be written raises OSError.
pub record Answers : Type 0 where
  pub claim_succeeds : Bool
  pub orientation : Orientation
  pub locked : Bool
  pub xrandr_succeeds : Bool
  pub gnome : Option GnomeState
  pub configure_succeeds : Bool
  pub rotation_state : Option ℕ
  pub fifo_writable : Bool

-- What a turn does to the outside: a mode of XWAYLAND0, a mode that GNOME gets with transform 0, a
-- transform sent to the panel.
pub data Effect : Type 0 where
  new_mode add_mode : Effect
  output_mode : ℕ → ℕ → Effect
  configure : ℕ → Effect
  send_transform : ℕ → Effect

pub data Retry : Type 0 where
  glib_error os_error monitor_identity logical_layout mode_unavailable xrandr_failed : Retry

-- A call with its effects, oldest first; those before an exception have happened.
abbrev pub Call : Type 0 → Type 0
Call A = Result Retry A × List Effect

abbrev pub then_call : {A B : Type 0} → Call A → (A → Call B) → Call B
then_call (ok a, done) next = let rest = next a in (rest.0, done ++ rest.1)
then_call (err e, done) next = (err e, done)

abbrev find_size : List Mode → ℕ × ℕ → Option ℕ
find_size [] size = none
find_size (mode ∷ modes) size =
    if mode.width == size.0 && mode.height == size.1
    then some mode.mode_id
    else find_size modes size

abbrev find_current : List Mode → Option ℕ
find_current [] = none
find_current (mode ∷ modes) = if mode.is_current then some mode.mode_id else find_current modes

abbrev pub is_target : Option ℕ → ℕ → Bool
is_target none target = false
is_target (some current) target = current == target

module _ (answers : Answers) where
  -- The portrait mode is made and added first, whether or not it exists already.
  abbrev pub ensure_xwayland_mode : ℕ × ℕ → Call (Unit {0})
  ensure_xwayland_mode size = (
    if answers.xrandr_succeeds then ok tt else err xrandr_failed,
    (if size.0 == 1920 && size.1 == 1200 then [] else new_mode ∷ add_mode ∷ [])
        ++ output_mode size.0 size.1 ∷ [],
  )

  abbrev pub configure_mode : GnomeState → Option ℕ → Call Bool
  configure_mode g none = (err mode_unavailable, [])
  configure_mode g (some mode) =
      if is_target (find_current g.modes) mode && g.transform == 0
      then (ok false, [])
      else if answers.configure_succeeds
      then (ok true, configure mode ∷ [])
      else (err glib_error, configure mode ∷ [])

  abbrev pub check_gnome : Option GnomeState → ℕ × ℕ → Call Bool
  check_gnome none size = (err glib_error, [])
  check_gnome (some g) size =
      if not g.expected_monitor
      then (err monitor_identity, [])
      else if not g.expected_layout
      then (err logical_layout, [])
      else configure_mode g (find_size g.modes size)

  abbrev pub ensure_gnome_mode : ℕ × ℕ → Call Bool
  ensure_gnome_mode size = check_gnome answers.gnome size

  -- The panel is told only what its state file does not say already.
  abbrev pub send : ℕ → Bool → Call Bool
  send target gnome_changed =
      if is_target answers.rotation_state target
      then (ok gnome_changed, [])
      else if answers.fifo_writable
      then (ok true, send_transform target ∷ [])
      else (err os_error, [])

  abbrev pub to_panel : ℕ → Unit {0} → Call Bool
  to_panel target _ = then_call (ensure_gnome_mode (transform_mode target)) (send target)

  abbrev pub prepare_xwayland : State → ℕ → Call (Unit {0})
  prepare_xwayland s target =
      if is_target s.last_applied target
      then (ok tt, [])
      else ensure_xwayland_mode (transform_mode target)

  unfoldable pub apply_transform : State → ℕ → Call Bool
  apply_transform s target = then_call (prepare_xwayland s target) (to_panel target)

  -- After apply_transform, or the exception that it raised.
  abbrev pub applied : State → ℕ → ℕ → Call Bool → State × List Effect
  applied s target now (ok changed, done) =
      (record s { last_applied = some target; last_verify = now }, done)
  applied s target now (err e, done) = (record s { last_applied = none }, done)

  abbrev pub is_due : State → ℕ → ℕ → Bool
  is_due s target now = not (is_target s.last_applied target) || leb 1000 (now - s.last_verify)

  abbrev pub verify_target : State → ℕ → Option ℕ → State × List Effect
  verify_target s now none = (s, [])
  verify_target s now (some target) =
      if is_due s target now then applied s target now (apply_transform s target) else (s, [])

  abbrev pub settled : State → ℕ → Option Orientation → State × List Effect
  settled s now none = (s, [])
  settled s now (some o) =
      if leb settle_ticks (now - s.since) then verify_target s now (mapped_transform o) else (s, [])

  abbrev pub observe : State → ℕ → State
  unfolding queue_rotation
  observe s now = queue_rotation s answers.orientation answers.locked now

  abbrev pub after_claim : State → ℕ → State × List Effect
  after_claim s now =
      let seen = observe s now in
      if answers.locked then (seen, []) else settled seen now seen.pending

  -- One call of `poll` at one time; the sensor is claimed in the first that succeeds.
  unfoldable pub poll : State → ℕ → State × List Effect
  unfolding apply_transform
  poll s now =
      if s.claimed
      then after_claim s now
      else if answers.claim_succeeds
      then after_claim (observe (record s { claimed = true }) now) now
      else (record s { last_applied = none }, [])

  -- The callback on a change of the sensor's property.
  unfoldable pub properties_changed : State → ℕ → State
  properties_changed s now = observe s now
