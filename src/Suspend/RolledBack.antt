-- ===== src/Suspend/RolledBack.antt =====
-- ubuntu/t630-suspend.py: what the `finally` blocks undo.
use ubuntu_install_on_samsun.Prelude.{
  ℕ, ◌≡◌, Bool, true, false, not, ◌&&◌, ◌||◌, List, [], ◌∷◌, ◌==◌, Result, ok,
}
use ubuntu_install_on_samsun.Suspend.{
  Failure, Answer, Act, kill_sensors, remove_ready, add_pattern, freeze, disable_alarm,
  remove_pattern, start_sensors, Course,
}

abbrev code_of : Act → ℕ
code_of kill_sensors = 0
code_of remove_ready = 1
code_of add_pattern = 2
code_of freeze = 3
code_of disable_alarm = 4
code_of remove_pattern = 5
code_of start_sensors = 6

abbrev pub has : Act → List Act → Bool
has a [] = false
has a (b ∷ acts) = code_of a == code_of b || has a acts

-- Each `a` has a `b` after it.
abbrev pub followed : Act → Act → List Act → Bool
followed a b [] = true
followed a b (x ∷ acts) = (not (code_of a == code_of x) || has b acts) && followed a b acts

-- The pattern that was added is removed later, the alarm of the freeze disabled, and the sensors that
-- were stopped started.
abbrev pub all_undone : List Act → Bool
all_undone acts =
    followed add_pattern remove_pattern acts
    && followed freeze disable_alarm acts
    && followed kill_sensors start_sensors acts

-- An answer comes only behind a complete undoing. Where something raised, what could be undone
-- is: the removal of the pattern waits for no other step, nor does the disabling of the alarm,
-- and the start of the sensors only for the removal.
pub record IsUndone (c : Course) (r : Result Failure Answer × List Act) : Type 0 where
  pub answered : (a : Answer) → r.0 ≡ ok a → all_undone r.1 ≡ true
  pub pattern : c.pattern_removed ≡ true → followed add_pattern remove_pattern r.1 ≡ true
  pub alarm : c.alarm_disabled ≡ true → followed freeze disable_alarm r.1 ≡ true
  pub sensors :
      c.pattern_removed ≡ true
      → c.sensors_started ≡ true
      → followed kill_sensors start_sensors r.1 ≡ true
