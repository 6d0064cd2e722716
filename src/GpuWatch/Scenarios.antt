-- ===== src/GpuWatch/Scenarios.antt =====
-- A desktop that starts and then hangs, and one that keeps answering.
use ubuntu_install_on_samsun.Prelude.{
  ℕ, ◌+◌, ◌≡◌, refl, Bool, true, false, none, some, List, [], ◌∷◌, arith, pos,
}
use ubuntu_install_on_samsun.GpuWatch.{Turn, exits, watch_start, supervise}
use ubuntu_install_on_samsun.GpuWatch.Hangs.{supervise_hung}

abbrev turn : Bool → ℕ → Turn
turn answers time = record {
  returncode = none;
  stopping = false;
  ready = answers;
  now = time;
  later = time + 10;
}

-- Turns a quarter of a second and more apart, of which the second, the fourth and the last are due.
abbrev hung_turns : List Turn
hung_turns =
    turn false 5250
    ∷ turn false 5510
    ∷ turn false 5770
    ∷ turn false 10600
    ∷ turn false 15400
    ∷ turn false 15660
    ∷ []

supervise_hung_example : supervise 0 45000 5000 3 (turn true 500 ∷ hung_turns) ≡ exits (pos 1)
supervise_hung_example =
    supervise_hung 0 45000 5000 3 (turn true 500) hung_turns refl refl refl refl (omega arith)
      (omega arith)

-- No answer before the deadline, and an end of the child with code 0 during the start.
silent_start : supervise 0 45000 5000 3 (turn false 500 ∷ turn false 45000 ∷ []) ≡ exits (pos 1)
unfolding supervise watch_start
silent_start = refl

early_end :
    supervise 0 45000 5000 3 (record (turn false 500) { returncode = some (pos 0) } ∷ [])
    ≡ exits (pos 1)
unfolding supervise watch_start
early_end = refl
