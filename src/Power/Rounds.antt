-- ===== src/Power/Rounds.antt =====
-- Every round of the main loop keeps the panel consistent and blanks it only behind a lock.
use mathlib.Core.Path.{subst}
use ubuntu_install_on_samsun.Prelude.{
  ℕ, ◌+◌, ◌-◌, ◌≡◌, refl, inl, inr, Bool, true, false, not, ◌&&◌, ◌||◌, Option, none, some, List,
  [], ◌∷◌, arith, ltb, leb, ◌==◌, if◌then◌else◌, is_some, Result, ok, went_through, Result-cases,
}
use ubuntu_install_on_samsun.Display.Settings.{Display}
use ubuntu_install_on_samsun.Power.{
  PowerError, restore, lock_and_blank, Suspend, Monitor, Answers, Outcome, woken, wake,
  after_suspend, then_suspend, blank, resumed, short_press, settle, too_soon, KeyEvent, release,
  key_event, retry, or_retry, reported, due_suspend, auto_suspend_step, idle_body, key_events,
}
use ubuntu_install_on_samsun.Power.Locking.{
  is_locked, IsConsistent, Kept, Kept-refl, Kept-trans, Kept-weaken, restore-Kept,
  lock_and_blank-Kept, wake-Kept, settle-Kept,
}

module _ (d : Display) (locked : Bool) where
  choose-Kept :
      (test : Bool) (o p : Outcome)
      → Kept d o.1.1 locked
      → Kept d p.1.1 locked
      → Kept d (if test then o else p).1.1 locked
  choose-Kept true o p h k = h
  choose-Kept false o p h k = k

  pub choose_state-Kept :
      (test : Bool) (o p : Monitor × Display)
      → Kept d o.1 locked
      → Kept d p.1 locked
      → Kept d (if test then o else p).1 locked
  choose_state-Kept true o p h k = h
  choose_state-Kept false o p h k = k

  choose_result-Kept :
      (test : Bool) (r s : Result PowerError (Monitor × Display)) (m' : Monitor) (d' : Display)
      → (r ≡ ok ((m', d')) → Kept d d' locked)
      → (s ≡ ok ((m', d')) → Kept d d' locked)
      → (if test then r else s) ≡ ok ((m', d'))
      → Kept d d' locked
  choose_result-Kept true r s m' d' f g h = f h
  choose_result-Kept false r s m' d' f g h = g h

  unchanged-Kept :
      (r : Result PowerError (Monitor × Display)) (m m' : Monitor) (d' : Display)
      → IsConsistent d
      → r ≡ ok ((m, d))
      → r ≡ ok ((m', d'))
      → Kept d d' locked
  unchanged-Kept r m m' d' c k h =
      let same_display : d ≡ d' = cc in
      subst (λ x. Kept d x locked) same_display (Kept-refl d locked c)

after_suspend-Kept :
    (a : Answers) (s : Suspend) (m : Monitor) (d : Display)
    → IsConsistent d
    → Kept d (after_suspend a s m d).1.1 false
after_suspend-Kept a s m d c =
    choose-Kept d false (s.slept && s.power_wake) (wake a.wake_key (λ n. n) (woken a.later) m d) _
      (wake-Kept a.wake_key (λ n. n) (woken a.later) m d c) (Kept-refl d false c)

then_suspend-Kept :
    (a : Answers) (s : Option Suspend) (m : Monitor) (d : Display)
    → IsConsistent d
    → Kept d (then_suspend a s m d).1.1 false
then_suspend-Kept a none m d c = Kept-refl d false c
then_suspend-Kept a (some s) m d c = after_suspend-Kept a s m d c

blank-Kept :
    (a : Answers) (m : Monitor) (d : Display)
    → IsConsistent d
    → Kept d (blank a m d).1.1 (is_locked a.lock)
blank-Kept a m d c = elim (Result-cases (lock_and_blank a.lock d)) [
  | inl (d', e) ↦
      let last = (then_suspend a a.suspend m d').1.1 in
      let dark = lock_and_blank-Kept a.lock d d' c e in
      let later = then_suspend-Kept a a.suspend m d' dark.0 in
      let both : Kept d last (is_locked a.lock) =
        ground (arith, Kept-trans d d' last (is_locked a.lock) false dark later) in
      rw (blank, e) both
  | inr (raised, e) ↦ rw (blank, e) (Kept-refl d (is_locked a.lock) c)
]

short_press-Kept :
    (a : Answers) (m : Monitor) (d : Display)
    → IsConsistent d
    → Kept d (short_press a m d).1.1 (is_locked a.lock)
short_press-Kept a m d c =
    choose-Kept d (is_locked a.lock) (is_some d.off_state) (wake a.wake_key resumed resumed m d)
      (blank a m d)
      (Kept-weaken d (wake a.wake_key resumed resumed m d).1.1 (is_locked a.lock)
        (wake-Kept a.wake_key resumed resumed m d c))
      (blank-Kept a m d c)

release-Kept :
    (pressed : Option ℕ) (k : KeyEvent) (m m' : Monitor) (d d' : Display)
    → IsConsistent d
    → release pressed k m d ≡ ok ((m', d'))
    → Kept d d' (is_locked k.answers.lock)
release-Kept none k m m' d d' c h = unchanged-Kept d (is_locked k.answers.lock) _ m m' d' c refl h
release-Kept (some pressed) k m m' d d' c h =
    let up = record m { pressed_at = none } in
    let acted = record up {
      last_action = some k.now;
      previous_idle = none;
      next_idle_check = k.now + 3000;
    } in
    let pressing = short_press k.answers acted d in
    choose_result-Kept d (is_locked k.answers.lock)
      (ltb 1500 (k.now - pressed) || too_soon k.now m.last_action) (ok ((up, d))) (settle pressing)
      m' d' (unchanged-Kept d (is_locked k.answers.lock) _ up m' d' c refl)
      (settle-Kept pressing d (is_locked k.answers.lock) m' d'
        (short_press-Kept k.answers acted d c))
      h

key_event-Kept :
    (k : KeyEvent) (m m' : Monitor) (d d' : Display)
    → IsConsistent d
    → key_event k m d ≡ ok ((m', d'))
    → Kept d d' (is_locked k.answers.lock)
unfolding key_event
key_event-Kept k m m' d d' c =
    let locked = is_locked k.answers.lock in
    let down = record m { pressed_at = some k.now } in
    choose_result-Kept d locked (not (k.type_code == 1) || not (k.code == 116)) (ok ((m, d))) _ m'
      d' (unchanged-Kept d locked _ m m' d' c refl)
      (choose_result-Kept d locked (k.value == 1) (ok ((down, d))) _ m' d'
        (unchanged-Kept d locked _ down m' d' c refl)
        (choose_result-Kept d locked (k.value == 0) (release m.pressed_at k m d) (ok ((m, d))) m' d'
          (release-Kept m.pressed_at k m m' d d' c) (unchanged-Kept d locked _ m m' d' c refl)))

-- Whether a lock was verified at one of the key events.
abbrev pub any_locked : List KeyEvent → Bool
any_locked [] = false
any_locked (k ∷ ks) = is_locked k.answers.lock || any_locked ks

pub key_events-Kept :
    (ks : List KeyEvent) (m m' : Monitor) (d d' : Display)
    → IsConsistent d
    → key_events ks m d ≡ ok ((m', d'))
    → Kept d d' (any_locked ks)
unfolding key_events
key_events-Kept [] m m' d d' c h = unchanged-Kept d false _ m m' d' c refl h
key_events-Kept (k ∷ ks) m m' d d' c h =
    let (next, e, r) = went_through (key_event k m d) _ h in
    let first = key_event-Kept k m next.0 d next.1 c e in
    Kept-trans d next.1 d' (is_locked k.answers.lock) (any_locked ks) first
      (key_events-Kept ks next.0 m' next.1 d' first.0 r)

or_retry-Kept :
    (later : ℕ) (o : Outcome) (d : Display) → Kept d o.1.1 false → Kept d (or_retry later o).1 false
or_retry-Kept later (true, (m, e)) d p = p
or_retry-Kept later (false, (m, e)) d p = p

reported-Kept :
    (a : Answers) (s : Option Suspend) (m : Monitor) (d : Display)
    → IsConsistent d
    → Kept d (reported a s m d).1 false
reported-Kept a none m d c = Kept-refl d false c
reported-Kept a (some s) m d c =
    choose_state-Kept d false (s.slept && s.power_wake)
      (or_retry a.later (wake a.wake_key (λ n. n) (woken a.later) m d)) (retry a.later m, d)
      (or_retry-Kept a.later (wake a.wake_key (λ n. n) (woken a.later) m d) d
        (wake-Kept a.wake_key (λ n. n) (woken a.later) m d c))
      (Kept-refl d false c)

due_suspend-Kept :
    (at : Option ℕ) (now : ℕ) (a : Answers) (m : Monitor) (d : Display)
    → IsConsistent d
    → Kept d (due_suspend at now a m d).1 false
due_suspend-Kept none now a m d c = Kept-refl d false c
due_suspend-Kept (some at) now a m d c =
    choose_state-Kept d false (leb at now) (reported a a.suspend m d) (m, d)
      (reported-Kept a a.suspend m d c) (Kept-refl d false c)

pub auto_suspend_step-Kept :
    (now : ℕ) (a : Answers) (m : Monitor) (d : Display)
    → IsConsistent d
    → Kept d (auto_suspend_step now a m d).1 false
unfolding auto_suspend_step
auto_suspend_step-Kept now a m d c =
    choose_state-Kept d false (not d.auto_suspend || not (is_some d.off_state))
      (record m { auto_suspend_at = none }, d) (due_suspend m.auto_suspend_at now a m d)
      (Kept-refl d false c) (due_suspend-Kept m.auto_suspend_at now a m d c)

pub idle_body-Kept :
    (now current : ℕ) (playing : Option Bool) (a : Answers) (m m' : Monitor) (d d' : Display)
    → IsConsistent d
    → idle_body now current playing a m d ≡ some ((m', d'))
    → Kept d d' (is_locked a.lock)
idle_body-Kept now current playing a m m' d d' c h = elim (Result-cases (restore d)) [
  | inl (lit, e) ↦ elim (Result-cases (lock_and_blank a.lock d)) [
    | inl (dark, f) ↦ ground (arith, restore-Kept d lit c e, lock_and_blank-Kept a.lock d dark c f)
    | inr (raised, f) ↦ ground (arith, restore-Kept d lit c e)
  ]
  | inr (raised, e) ↦ elim (Result-cases (lock_and_blank a.lock d)) [
    | inl (dark, f) ↦ ground (arith, lock_and_blank-Kept a.lock d dark c f)
    | inr (raised', f) ↦ ground arith
  ]
]
