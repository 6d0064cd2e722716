-- ===== src/PenGuard/Scenarios.antt =====
-- The pen comes near, moves, and events are lost.
use ubuntu_install_on_samsun.Prelude.{
  concat, ℕ, ◌≡◌, refl, true, false, some, List, [], ◌∷◌, arith, ok,
}
use ubuntu_install_on_samsun.PenGuard.{
  lost, tool, discarded, take_packets, read_chunks, Control, set_touch_enabled, handle_packet, Step,
  handle_packets, run,
}
use ubuntu_install_on_samsun.PenGuard.Chunks.{packets, read_chunks_any}
use ubuntu_install_on_samsun.PenGuard.Touch.{run_restores, handle_packets_near}

abbrev chunks : List (List ℕ)
chunks =
    (0 ∷ 0 ∷ 0 ∷ 0 ∷ 0 ∷ 0 ∷ 0 ∷ 0 ∷ 0 ∷ 0 ∷ 0 ∷ 0 ∷ 0 ∷ 0 ∷ 0 ∷ 0 ∷ 1 ∷ 0 ∷ 64 ∷ 1 ∷ 1 ∷ 0 ∷ 0 ∷ 0
      ∷ 0 ∷ 0 ∷ 0 ∷ 0 ∷ 0 ∷ 0 ∷ [])
    ∷ (0 ∷ [])
    ∷ (0 ∷ 0 ∷ 0 ∷ 0 ∷ 0 ∷ 0 ∷ 0 ∷ 0 ∷ 0 ∷ 3 ∷ 0 ∷ 0 ∷ 0 ∷ 77 ∷ 0 ∷ 0 ∷ 0 ∷ 0 ∷ 0 ∷ 0 ∷ 0 ∷ 0 ∷ 0
        ∷ 0 ∷ 0 ∷ 0 ∷ 0 ∷ 0 ∷ 0 ∷ 0 ∷ 0 ∷ 0 ∷ 0 ∷ 0 ∷ 0 ∷ 3 ∷ 0 ∷ 0 ∷ 0 ∷ 0 ∷ 0 ∷ 5 ∷ 6 ∷ [])
    ∷ []

chunks_read : read_chunks [] chunks ≡ (tool false ∷ discarded ∷ lost ∷ [], 5 ∷ 6 ∷ [])
unfolding read_chunks take_packets
chunks_read = refl

read_chunks_any_example : read_chunks [] chunks ≡ packets (concat chunks)
read_chunks_any_example = read_chunks_any chunks [] (omega arith)

abbrev near_step : Step
near_step = record { packet = tool false; near = true; sticks = true }

abbrev move : Step
move = record { packet = discarded; near = true; sticks = true }

abbrev stuck : Step
stuck = record { packet = lost; near = true; sticks = false }

-- A packet that finds the pen near, and one that is discarded.
near_runs : handle_packets (near_step ∷ move ∷ []) (some true) ≡ (ok tt, some false)
unfolding handle_packets handle_packet set_touch_enabled
near_runs = refl

run_restores_example :
    (run false true (near_step ∷ move ∷ stuck ∷ []) true (some true)).1 ≡ some true
run_restores_example = run_restores false true true (near_step ∷ move ∷ stuck ∷ [])

abbrev near_after : Control
near_after = some false

handle_packets_near_example : near_after ≡ some false
handle_packets_near_example =
    handle_packets_near [] (move ∷ []) near_step (some true) near_after refl refl refl near_runs
