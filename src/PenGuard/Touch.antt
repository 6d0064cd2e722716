-- ===== src/PenGuard/Touch.antt =====
-- Touch is off while the pen is near, and on after the guard.
use mathlib.Core.Path.{subst}
use ubuntu_install_on_samsun.Prelude.{
  ◌≡◌, refl, sym, ap, ◌∙◌, Bool, true, false, not, ◌&&◌, none, some, List, [], ◌∷◌, ◌++◌, arith,
  is_some, Result, ok, err,
}
use ubuntu_install_on_samsun.PenGuard.{
  GuardError, Packet, lost, tool, discarded, Control, set_touch_enabled, handle_packet, Step,
  then_go, handle_packets, ended, run,
}

set_touch_enabled-readable :
    (enabled sticks current : Bool)
    → is_some (set_touch_enabled enabled sticks (some current)).1 ≡ true
unfolding set_touch_enabled
set_touch_enabled-readable enabled sticks current = ground arith

handle_packet-readable :
    (p : Packet) (near sticks : Bool) (c : Control)
    → is_some c ≡ true
    → is_some (handle_packet p near sticks c).1 ≡ true
unfolding handle_packet
handle_packet-readable p near sticks none h = cc
handle_packet-readable lost near sticks (some b) h = set_touch_enabled-readable (not near) sticks b
handle_packet-readable (tool z) near sticks (some b) h =
    set_touch_enabled-readable (z && not near) sticks b
handle_packet-readable discarded near sticks (some b) h = refl

then_go-readable :
    (first : Result GuardError (Unit {0}) × Control)
    (next : Control → Result GuardError (Unit {0}) × Control)
    → is_some first.1 ≡ true
    → ((c : Control) → is_some c ≡ true → is_some (next c).1 ≡ true)
    → is_some (then_go first next).1 ≡ true
then_go-readable (ok u, c) next h f = f c h
then_go-readable (err e, c) next h f = h

handle_packets-readable :
    (ss : List Step) (c : Control) → is_some c ≡ true → is_some (handle_packets ss c).1 ≡ true
unfolding handle_packets
handle_packets-readable [] c h = h
handle_packets-readable (s ∷ ss) c h =
    then_go-readable (handle_packet s.packet s.near s.sticks c) (handle_packets ss)
      (handle_packet-readable s.packet s.near s.sticks c h) (handle_packets-readable ss)

set_true : (c : Control) → is_some c ≡ true → set_touch_enabled true true c ≡ (ok tt, some true)
unfolding set_touch_enabled
set_true none h = cc
set_true (some b) h = ground arith

-- However a run went, through whatever packets, failed writes and errors: if the control was
-- readable and the last write takes effect, touch is on at the end.
pub run_restores :
    (near sticks current : Bool) (steps : List Step)
    → (run near sticks steps true (some current)).1 ≡ some true
unfolding run
run_restores near sticks current steps =
    let body =
      then_go (set_touch_enabled (not near) sticks (some current)) (handle_packets steps) in
    ap (λ r. (ended body.0 r).1)
      (set_true body.1 (
        then_go-readable (set_touch_enabled (not near) sticks (some current)) (handle_packets steps)
          (set_touch_enabled-readable (not near) sticks current) (handle_packets-readable steps)))

-- Whether a packet asks for the touchscreen at all.
abbrev pub decides : Packet → Bool
decides lost = true
decides (tool z) = true
decides discarded = false

abbrev pub none_decides : List Step → Bool
none_decides [] = true
none_decides (s ∷ ss) = not (decides s.packet) && none_decides ss

handle_packet-idle :
    (p : Packet) (near sticks : Bool) (c : Control)
    → decides p ≡ false
    → handle_packet p near sticks c ≡ (ok tt, c)
unfolding handle_packet
handle_packet-idle lost near sticks c h = cc
handle_packet-idle (tool z) near sticks c h = cc
handle_packet-idle discarded near sticks c h = refl

handle_packets-idle :
    (ss : List Step) (c : Control) → none_decides ss ≡ true → handle_packets ss c ≡ (ok tt, c)
unfolding handle_packets
handle_packets-idle [] c h = refl
handle_packets-idle (s ∷ ss) c h =
    ap (λ r. then_go r (handle_packets ss))
      (handle_packet-idle s.packet s.near s.sticks c (ground arith))
    ∙ handle_packets-idle ss c (ground arith)

then_went :
    (first : Result GuardError (Unit {0}) × Control)
    (next : Control → Result GuardError (Unit {0}) × Control) (c : Control)
    → then_go first next ≡ (ok tt, c)
    → (next first.1 ≡ (ok tt, c)) × (first.0 ≡ ok tt)
then_went (ok u, d) next c h = (h, refl)
then_went (err e, d) next c h = cc

near_turns_off :
    (p : Packet) (sticks : Bool) (c : Control)
    → decides p ≡ true
    → (handle_packet p true sticks c).0 ≡ ok tt
    → (handle_packet p true sticks c).1 ≡ some false
unfolding handle_packet set_touch_enabled
near_turns_off lost sticks c d h = ground arith
near_turns_off (tool z) sticks c d h = ground arith
near_turns_off discarded sticks c d h = cc

-- If packets are handled without an error, and at the last one that asks for the touchscreen the
-- pen is near, then touch is off, whatever came before.
pub handle_packets_near :
    (before after : List Step) (s : Step) (c c' : Control)
    → decides s.packet ≡ true
    → s.near ≡ true
    → none_decides after ≡ true
    → handle_packets (before ++ s ∷ after) c ≡ (ok tt, c')
    → c' ≡ some false
unfolding handle_packets
handle_packets_near [] after s c c' d n idle h =
    let (later, went) =
      then_went (handle_packet s.packet s.near s.sticks c) (handle_packets after) c' h in
    let stays = handle_packets-idle after (handle_packet s.packet s.near s.sticks c).1 idle in
    let off =
      near_turns_off s.packet s.sticks c d
        (subst (λ b. (handle_packet s.packet b s.sticks c).0 ≡ ok tt) n went) in
    ap (λ r. r.1) (sym later ∙ stays) ∙ ap (λ b. (handle_packet s.packet b s.sticks c).1) n ∙ off
handle_packets_near (b ∷ before) after s c c' d n idle h =
    let (later, went) =
      then_went (handle_packet b.packet b.near b.sticks c) (handle_packets (before ++ s ∷ after)) c'
        h in
    handle_packets_near before after s (handle_packet b.packet b.near b.sticks c).1 c' d n idle
      later
