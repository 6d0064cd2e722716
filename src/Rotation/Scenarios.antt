-- ===== src/Rotation/Scenarios.antt =====
-- The sensor names one orientation for a second, and the panel turns; a lock in between stops it.
use ubuntu_install_on_samsun.Prelude.{
  ℕ, ◌+◌, ◌≤◌, ◌≡◌, refl, Bool, true, false, none, some, [], ◌∷◌,
}
use ubuntu_install_on_samsun.Rotation.{
  Orientation, left_up, mapped_transform, settle_ticks, State, init, queue_rotation, Mode,
  GnomeState, Answers, output_mode, send_transform, apply_transform, poll,
}
use ubuntu_install_on_samsun.Rotation.Settled.{Steady, observation, Reached, started, claimed_now}
use ubuntu_install_on_samsun.Rotation.Applied.{sends, poll-sends_settled}

abbrev landscape : Mode
landscape = record { mode_id = 7; width = 1920; height = 1200; is_current = true }

abbrev monitors : GnomeState
monitors = record {
  expected_monitor = true;
  expected_layout = true;
  modes = landscape ∷ [];
  transform = 0;
}

abbrev answers : Orientation → Bool → Answers
answers o lock = record {
  claim_succeeds = true;
  orientation = o;
  locked = lock;
  xrandr_succeeds = true;
  gnome = some monitors;
  configure_succeeds = true;
  rotation_state = some 0;
  fifo_writable = true;
}

abbrev left : Answers
left = answers left_up false

abbrev begun : State
begun = (poll left init 500).0

begun_claimed : begun.claimed ≡ true
unfolding poll apply_transform queue_rotation
begun_claimed = refl

begun-Reached : Reached (observation left 500 ∷ observation left 500 ∷ []) begun
begun-Reached = claimed_now [] init left 500 refl refl started

turns : (poll left begun 1500).1 ≡ output_mode 1920 1200 ∷ send_transform 1 ∷ []
unfolding poll apply_transform queue_rotation
turns = refl

too_early : (poll left begun 1499).1 ≡ []
unfolding poll apply_transform queue_rotation
too_early = refl

locked_turn : poll (answers left_up true) begun 1500 ≡ (record begun { pending = none }, [])
unfolding poll apply_transform queue_rotation
locked_turn = refl

sent : sends 1 (poll left begun 1500).1 ≡ true
sent = rw turns refl

poll-sends_settled_example :
    (false ≡ false)
    × (o : Orientation) × (since : ℕ) × (mapped_transform o ≡ some 1)
    × Steady o since (observation left 1500 ∷ observation left 500 ∷ observation left 500 ∷ [])
    × (since + settle_ticks ≤ 1500)
poll-sends_settled_example =
    poll-sends_settled (observation left 500 ∷ observation left 500 ∷ []) begun left 1500 1
      begun-Reached begun_claimed sent
