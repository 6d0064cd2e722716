-- ===== src/Display/Scenarios.antt =====
-- Requests to a tablet whose display is on or blanked, and a lease that runs out.
use ubuntu_install_on_samsun.Prelude.{
  ℕ, ◌≡◌, refl, true, false, none, some, List, [], ◌∷◌, arith, if◌then◌else◌, is_some, ok, pos,
  codes, split_from, digits_value,
}
use ubuntu_install_on_samsun.Display.Flashlight
use ubuntu_install_on_samsun.Display.Flashlight.{Flashlight, Nodes, safe_max}
use ubuntu_install_on_samsun.Display.Flashlight.Lease.{
  IsSafe, call_on, call_brightness, Call, apply_all, expire_ends_lease,
}
use ubuntu_install_on_samsun.Display.Settings.{
  absent, Display, poweroff, int, status, maximum, raw_of, set_brightness, init, flush,
}
use ubuntu_install_on_samsun.Display.Settings.Roundtrip.{set_brightness-status, flush-init}
use ubuntu_install_on_samsun.Display.Request.{command, perform, request}
use ubuntu_install_on_samsun.Display.Request.Safety.{IsValid, request-IsValid, request_blanked}
use ubuntu_install_on_samsun.Display.Socket.{receive, handle, serve}
use ubuntu_install_on_samsun.Display.Socket.Framing.{receive_any_segmentation}

abbrev nodes : Nodes
nodes = record {
  torch_name = "led:torch_0";
  switch_name = "led:switch_0";
  same_parent = true;
  torch_max_brightness = 500;
  switch_max_brightness = 255;
}

abbrev torch_off : Flashlight
torch_off = record { torch = 0; switch = 0; percent = 20; enabled = false; lease_until = 0 }

abbrev evening : List Call
evening = call_on 1000 ∷ call_brightness (pos 100) 4000 ∷ call_brightness (pos 101) 5000 ∷ []

evening_current : ((apply_all evening torch_off).torch ≡ 300) × (Flashlight.current_of 20 ≡ 60)
unfolding apply_all
evening_current = (refl, refl)

torch_off-IsSafe : IsSafe torch_off
torch_off-IsSafe = ground arith

expire_ends_lease_example :
    let f' = Flashlight.expire 20000 (apply_all evening torch_off) in
    (f'.enabled ≡ false) × (f'.torch ≡ 0) × (f'.switch ≡ 0)
expire_ends_lease_example =
    expire_ends_lease 0 20000 evening torch_off torch_off-IsSafe (omega arith) (omega arith)

abbrev bright : Display
bright = record {
  light = 153;
  off_state = none;
  preferences = absent;
  flashlight = some torch_off;
  idle_seconds = 300;
  auto_suspend = false;
  inhibit_until = 0;
  dirty_at = some 5;
  system_action = none;
}

abbrev blanked : Display
blanked = record bright { light = 0; off_state = some 153 }

blanked-IsValid : IsValid blanked
blanked-IsValid = record {
  light_range = omega arith;
  restore = omega arith;
  idle_choice = refl;
  torch = torch_off-IsSafe;
}

set_brightness-status_example :
    (d' : Display) × (set_brightness (int (pos 40)) (some 7) blanked ≡ ok d')
    × (status d' ≡ record (status blanked) { brightness = 40 })
    × (d'.light ≡ (if is_some blanked.off_state then blanked.light else raw_of 40))
set_brightness-status_example =
    set_brightness-status 40 (some 7) blanked (omega arith) (omega arith) refl

flush-init_example :
    let (r, d') = flush true 9 9 true bright in
    (r ≡ some true)
    × (d'.dirty_at ≡ none)
    × (again : Display) × (init maximum 200 none d'.preferences none ≡ ok again)
    × ((status again).brightness ≡ (status bright).brightness)
    × (again.idle_seconds ≡ bright.idle_seconds)
    × (again.auto_suspend ≡ bright.auto_suspend)
flush-init_example = flush-init 9 9 200 none none bright refl refl

abbrev after : Display
after = record blanked { off_state = some 184; dirty_at = some 7 }

blanked_request : request 7 (codes "BRIGHTNESS 60\n") blanked ≡ ok (status after, after)
unfolding request command perform split_from digits_value
blanked_request = refl

request-IsValid_example : IsValid after
request-IsValid_example =
    request-IsValid 7 (codes "BRIGHTNESS 60\n") blanked {answer = status after} {d' = after}
      blanked-IsValid blanked_request

request_blanked_example : (after.light ≡ blanked.light) × ((status after).blanked ≡ true)
request_blanked_example =
    request_blanked 7 (codes "BRIGHTNESS 60\n") blanked {answer = status after} {d' = after} refl
      blanked_request

abbrev leaving : Display
leaving = record bright { system_action = some poweroff }

abbrev later : List (ℕ × List ℕ)
later = (8, codes "SYSTEM REBOOT\n") ∷ (9, codes "AUTO_SUSPEND ON\n") ∷ []

abbrev segments : List (List ℕ)
segments = codes "STA" ∷ codes "TUS" ∷ codes "\n" ∷ codes "junk" ∷ []

answered_owner : (handle 1000 1000 5 segments blanked).0 ≡ some (status blanked)
unfolding handle serve receive request command perform split_from
answered_owner = refl

refused_stranger : handle 1000 1001 5 segments blanked ≡ (none, blanked)
unfolding handle serve
refused_stranger = refl

receive_any_segmentation_example :
    receive 66 [] (codes "STA" ∷ codes "TUS" ∷ codes "\n" ∷ []) ≡ ok (codes "STATUS\n")
receive_any_segmentation_example =
    receive_any_segmentation (codes "STA" ∷ codes "TUS" ∷ codes "\n" ∷ []) refl refl (omega arith)
