-- ===== src/Power/Loop.antt =====
-- The main loop as a whole, and which key events act.
use mathlib.Core.Path.{subst}
use ubuntu_install_on_samsun.Prelude.{
  ℕ, ◌+◌, ◌-◌, ◌≤◌, ◌≡◌, refl, ◌⊎◌, inl, inr, Bool, true, false, not, ◌||◌, Option, none, some,
  List, [], ◌∷◌, arith, ltb, leb, ◌==◌, if◌then◌else◌, Bool-cases, is_some, ok, went_through,
}
use ubuntu_install_on_samsun.Display.Settings.{Display}
use ubuntu_install_on_samsun.Power.{
  Monitor, Answers, too_soon, KeyEvent, release, key_event, auto_suspend_step, idle_seen, or_forget,
  idle_check, Round, round, rounds,
}
use ubuntu_install_on_samsun.Power.Locking.{is_locked, IsConsistent, Kept, Kept-refl, Kept-trans}
use ubuntu_install_on_samsun.Power.Rounds.{
  any_locked, choose_state-Kept, key_events-Kept, auto_suspend_step-Kept, idle_body-Kept,
}

or_forget-Kept :
    (locked : Bool) (m : Monitor) (d : Display) (seen : Option (Monitor × Display))
    → IsConsistent d
    → ((m' : Monitor) (d' : Display) → seen ≡ some ((m', d')) → Kept d d' locked)
    → Kept d (or_forget m d seen).1 locked
or_forget-Kept locked m d none c f = Kept-refl d locked c
or_forget-Kept locked m d (some (m', d')) c f = f m' d' refl

idle_seen-Kept :
    (now : ℕ) (idle : Option ℕ) (playing : Option Bool) (a : Answers) (m m' : Monitor)
    (d d' : Display)
    → IsConsistent d
    → idle_seen now idle playing a m d ≡ some ((m', d'))
    → Kept d d' (is_locked a.lock)
idle_seen-Kept now none playing a m m' d d' c h = cc
idle_seen-Kept now (some current) playing a m m' d d' c h =
    idle_body-Kept now current playing a m m' d d' c h

idle_check-Kept :
    (now : ℕ) (idle : Option ℕ) (playing : Option Bool) (a : Answers) (m : Monitor) (d : Display)
    → IsConsistent d
    → Kept d (idle_check now idle playing a m d).1 (is_locked a.lock)
unfolding idle_check
idle_check-Kept now idle playing a m d c =
    let checked = record m {
      next_idle_check = now + (if is_some d.off_state then 2000 else 5000);
    } in
    choose_state-Kept d (is_locked a.lock) (leb m.next_idle_check now)
      (or_forget checked d (idle_seen now idle playing a checked d)) (m, d)
      (or_forget-Kept (is_locked a.lock) checked d (idle_seen now idle playing a checked d) c
        (λ m' d'. idle_seen-Kept now idle playing a checked m' d d' c))
      (Kept-refl d (is_locked a.lock) c)

-- Whether a lock was verified in a round, and in some rounds.
abbrev pub locked_in : Round → Bool
locked_in r = is_locked r.idle_answers.lock || any_locked r.keys

abbrev pub ever_locked : List Round → Bool
ever_locked [] = false
ever_locked (r ∷ rs) = locked_in r || ever_locked rs

round-Kept :
    (r : Round) (m m' : Monitor) (d d' : Display)
    → IsConsistent d
    → round r (m, d) ≡ ok ((m', d'))
    → Kept d d' (locked_in r)
unfolding round
round-Kept r m m' d d' c h =
    let slept = auto_suspend_step r.now r.auto_answers m d in
    let seen = idle_check r.now r.idle r.playing r.idle_answers slept.0 slept.1 in
    let first = auto_suspend_step-Kept r.now r.auto_answers m d c in
    let second = idle_check-Kept r.now r.idle r.playing r.idle_answers slept.0 slept.1 first.0 in
    let third = key_events-Kept r.keys seen.0 m' seen.1 d' second.0 h in
    Kept-trans d slept.1 d' false (locked_in r) first (
      Kept-trans slept.1 seen.1 d' (is_locked r.idle_answers.lock) (any_locked r.keys) second third)

rounds-Kept :
    (rs : List Round) (m m' : Monitor) (d d' : Display)
    → IsConsistent d
    → rounds rs (m, d) ≡ ok ((m', d'))
    → Kept d d' (ever_locked rs)
unfolding rounds
rounds-Kept [] m m' d d' c h =
    let same_display : d ≡ d' = cc in subst (λ x. Kept d x false) same_display (Kept-refl d false c)
rounds-Kept (r ∷ rs) m m' d d' c h =
    let (next, e, s) = went_through (round r (m, d)) _ h in
    let first = round-Kept r m next.0 d next.1 c e in
    Kept-trans d next.1 d' (locked_in r) (ever_locked rs) first
      (rounds-Kept rs next.0 m' next.1 d' first.0 s)

-- Over any rounds of the loop, with whatever answers, failures and key events: a panel that was
-- lit ends dark only if a password lock was verified in one of them.
pub rounds_blank_locked :
    (rs : List Round) (m m' : Monitor) (d d' : Display)
    → IsConsistent d
    → is_some d.off_state ≡ false
    → rounds rs (m, d) ≡ ok ((m', d'))
    → is_some d'.off_state ≡ true
    → ever_locked rs ≡ true
rounds_blank_locked rs m m' d d' c lit h dark = ground (arith, rounds-Kept rs m m' d d' c h)

release_acts :
    (held : Option ℕ) (k : KeyEvent) (m m' : Monitor) (d d' : Display)
    → release held k m d ≡ ok ((m', d'))
    → (d' ≡ d)
      ⊎ ((pressed : ℕ) × (held ≡ some pressed)
          × (k.now - pressed ≤ 1500)
          × (too_soon k.now m.last_action ≡ false))
release_acts none k m m' d d' h = inl (cc)
release_acts (some pressed) k m m' d d' h =
    elim (Bool-cases (ltb 1500 (k.now - pressed) || too_soon k.now m.last_action)) [
      | inl ignored ↦ inl (ground arith)
      | inr acted ↦ inr (pressed, refl, ground arith, ground arith)
    ]

-- A key event changes the panel only if it is the release of the Power key after a press of at
-- most 1.5 seconds, and half a second or more after the last action.
pub key_event_acts :
    (k : KeyEvent) (m m' : Monitor) (d d' : Display)
    → key_event k m d ≡ ok ((m', d'))
    → (d' ≡ d)
      ⊎ ((pressed : ℕ) × (k.type_code ≡ 1)
          × (k.code ≡ 116)
          × (k.value ≡ 0)
          × (m.pressed_at ≡ some pressed)
          × (k.now - pressed ≤ 1500)
          × (too_soon k.now m.last_action ≡ false))
unfolding key_event
key_event_acts k m m' d d' h =
    elim (Bool-cases (not (k.type_code == 1) || not (k.code == 116) || not (k.value == 0))) [
      | inl other ↦ inl (ground arith)
      | inr power ↦
          let released : release m.pressed_at k m d ≡ ok ((m', d')) = ground arith in
          elim (release_acts m.pressed_at k m m' d d' released) [
            | inl same_display ↦ inl same_display
            | inr (pressed, held, short, late) ↦
                inr (pressed, ground arith, ground arith, ground arith, held, short, late)
          ]
    ]
