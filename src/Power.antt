-- ===== src/Power.antt =====
-- ubuntu/t630-power-button.py: the monitor that locks and blanks the tablet, and the round of its
-- main loop. The panel, its saved brightness and the settings are those of Display. Times are
-- milliseconds; what a command answers, and whether it raises, is an argument.
pub mod Locking
pub mod Rounds
pub mod Loop
mod Scenarios
use ubuntu_install_on_samsun.Prelude.{
  ℕ, ◌+◌, ◌-◌, ◌*◌, Bool, true, false, not, ◌&&◌, ◌||◌, Option, none, some, List, [], ◌∷◌, ltb, leb,
  ◌==◌, if◌then◌else◌, is_some, Result, ok, err, ◌>>=◌, ◌>>◌, raise_if,
}
use ubuntu_install_on_samsun.Display.Settings.{Display, maximum}

pub data PowerError : Type 0 where
  invalid_saved not_verified already_dark state_exists command_failed : PowerError

-- Puts the saved brightness back and removes the file.
unfoldable pub restore : Display → Result PowerError Display
restore d = elim d.off_state [
  | none ↦ ok d
  | some value ↦
      if ltb 0 value && leb value maximum
      then ok (record d { light = value; off_state = none })
      else err invalid_saved
]

-- The answers of the screen saver and of logind, none where the command raises.
pub record LockAnswers : Type 0 where
  pub active_before : Option Bool
  pub lock_done : Bool
  pub active_after : Option Bool
  pub locked_hint : Option Bool

abbrev pub answer : Option Bool → Result PowerError Bool
answer none = err command_failed
answer (some b) = ok b

-- `screen('GetActive') != '(true,)' or not locked_hint()`
abbrev pub verify : Bool → Option Bool → Result PowerError (Unit {0})
verify false hint = err not_verified
verify true hint = do locked ← answer hint; raise_if (not locked) not_verified

unfoldable pub lock_and_blank : LockAnswers → Display → Result PowerError Display
lock_and_blank a d = do
  before ← answer a.active_before
  raise_if (not before && not a.lock_done) command_failed
  after ← answer a.active_after
  verify after a.locked_hint
  raise_if (d.light == 0) already_dark
  raise_if (is_some d.off_state) state_exists
  ok (record d { light = 0; off_state = some d.light })

-- What the suspend helper reports; with the policy disabled it has not slept.
pub record Suspend : Type 0 where
  pub slept : Bool
  pub power_wake : Bool

-- The variables of `main`. `last_action` is none for its first value of -1.0.
pub record Monitor : Type 0 where
  pub pressed_at : Option ℕ
  pub last_action : Option ℕ
  pub next_idle_check : ℕ
  pub previous_idle : Option ℕ
  pub auto_suspend_at : Option ℕ

-- The answers during one action: the lock, the suspend helper (none where it raises), whether
-- the wake key was sent, and the time of the next look at the clock.
pub record Answers : Type 0 where
  pub lock : LockAnswers
  pub suspend : Option Suspend
  pub wake_key : Bool
  pub later : ℕ

-- The state that an action leaves, and whether it went through or raised.
abbrev pub Outcome : Type 0
Outcome = Bool × (Monitor × Display)

-- The wake press is accounted for.
abbrev pub woken : ℕ → Monitor → Monitor
woken later m = record m {
  pressed_at = none;
  last_action = some later;
  previous_idle = none;
  next_idle_check = later + 3000;
  auto_suspend_at = none;
}

-- `restore()` and the wake key; `after` is what a success makes of the variables.
abbrev pub wake : Bool → (Monitor → Monitor) → (Monitor → Monitor) → Monitor → Display → Outcome
wake wake_key shown after m d = elim (restore d) [
  | err e ↦ (false, (m, d))
  | ok d' ↦ if wake_key then (true, (after m, d')) else (false, (shown m, d'))
]

abbrev pub after_suspend : Answers → Suspend → Monitor → Display → Outcome
after_suspend a s m d =
    if s.slept && s.power_wake then wake a.wake_key (λ n. n) (woken a.later) m d else (
      true,
      (
        if d.auto_suspend && is_some d.off_state
            then record m { auto_suspend_at = some (a.later + 15000) }
            else m,
        d,
      ),
    )

abbrev pub then_suspend : Answers → Option Suspend → Monitor → Display → Outcome
then_suspend a none m d = (false, (m, d))
then_suspend a (some s) m d = after_suspend a s m d

-- A short press while the panel is lit.
abbrev pub blank : Answers → Monitor → Display → Outcome
blank a m d = elim (lock_and_blank a.lock d) [
  | err e ↦ (false, (m, d))
  | ok d' ↦ then_suspend a a.suspend m d'
]

abbrev pub resumed : Monitor → Monitor
resumed m = record m { auto_suspend_at = none }

-- The body of the `try` block of a short press.
abbrev pub short_press : Answers → Monitor → Display → Outcome
short_press a m d = if is_some d.off_state then wake a.wake_key resumed resumed m d else blank a m d

-- Its handler: what raised is followed by `restore()`.
abbrev pub settle : Outcome → Result PowerError (Monitor × Display)
settle (true, (m, d)) = ok (m, d)
settle (false, (m, d)) = do d' ← restore d; ok (m, d')

abbrev pub too_soon : ℕ → Option ℕ → Bool
too_soon now none = false
too_soon now (some last) = ltb (now - last) 500

pub record KeyEvent : Type 0 where
  pub type_code : ℕ
  pub code : ℕ
  pub value : ℕ
  pub now : ℕ
  pub answers : Answers

abbrev pub release : Option ℕ → KeyEvent → Monitor → Display → Result PowerError (Monitor × Display)
release none k m d = ok (m, d)
release (some pressed) k m d =
    let up = record m { pressed_at = none } in
    let acted = record up {
      last_action = some k.now;
      previous_idle = none;
      next_idle_check = k.now + 3000;
    } in
    if ltb 1500 (k.now - pressed) || too_soon k.now m.last_action
    then ok (up, d)
    else settle (short_press k.answers acted d)

-- One event of the loop over the packets.
unfoldable pub key_event : KeyEvent → Monitor → Display → Result PowerError (Monitor × Display)
key_event k m d =
    if not (k.type_code == 1) || not (k.code == 116)
    then ok (m, d)
    else if k.value == 1
    then ok (record m { pressed_at = some k.now }, d)
    else if k.value == 0
    then release m.pressed_at k m d
    else ok (m, d)

-- The automatic suspend of a round. A success resets the variables; anything that raises, and
-- every other report, asks again after a minute.
abbrev pub retry : ℕ → Monitor → Monitor
retry later m = record m { auto_suspend_at = some (later + 60000) }

abbrev pub or_retry : ℕ → Outcome → Monitor × Display
or_retry later (true, (m, d)) = (m, d)
or_retry later (false, (m, d)) = (retry later m, d)

abbrev pub reported : Answers → Option Suspend → Monitor → Display → Monitor × Display
reported a none m d = (retry a.later m, d)
reported a (some s) m d =
    if s.slept && s.power_wake
    then or_retry a.later (wake a.wake_key (λ n. n) (woken a.later) m d)
    else (retry a.later m, d)

abbrev pub due_suspend : Option ℕ → ℕ → Answers → Monitor → Display → Monitor × Display
due_suspend none now a m d = (record m { auto_suspend_at = some (now + 15000) }, d)
due_suspend (some at) now a m d = if leb at now then reported a a.suspend m d else (m, d)

unfoldable pub auto_suspend_step : ℕ → Answers → Monitor → Display → Monitor × Display
auto_suspend_step now a m d =
    if not d.auto_suspend || not (is_some d.off_state)
    then (record m { auto_suspend_at = none }, d)
    else due_suspend m.auto_suspend_at now a m d

-- The idle check of a round. `idle` and `playing` are the answers of Mutter and of the mixer.
abbrev pub was_active : Option ℕ → ℕ → Bool
was_active none current = false
was_active (some previous) current = ltb (current + 500) previous

-- What the `try` block does; none where it raises.
abbrev pub idle_body :
    ℕ → ℕ → Option Bool → Answers → Monitor → Display → Option (Monitor × Display)
idle_body now current playing a m d =
    if is_some d.off_state
    then (if was_active m.previous_idle current
        then elim (restore d) [
          | err e ↦ none
          | ok d' ↦ some (record m { auto_suspend_at = none; previous_idle = some current }, d')
        ]
        else some (record m { previous_idle = some current }, d))
    else if not (d.idle_seconds == 0)
        && leb (d.idle_seconds * 1000) current
        && leb d.inhibit_until now
    then elim playing [
      | none ↦ none
      | some true ↦ some (record m { previous_idle = some current }, d)
      | some false ↦ elim (lock_and_blank a.lock d) [
        | err e ↦ none
        | ok d' ↦ some (
          if d.auto_suspend
              then record m { auto_suspend_at = some (a.later + 15000); previous_idle = none }
              else record m { previous_idle = none },
          d',
        )
      ]
    ]
    else some (record m { previous_idle = some current }, d)

abbrev pub idle_seen :
    ℕ → Option ℕ → Option Bool → Answers → Monitor → Display → Option (Monitor × Display)
idle_seen now none playing a m d = none
idle_seen now (some current) playing a m d = idle_body now current playing a m d

abbrev pub or_forget : Monitor → Display → Option (Monitor × Display) → Monitor × Display
or_forget m d none = (record m { previous_idle = none }, d)
or_forget m d (some next) = next

unfoldable pub idle_check :
    ℕ → Option ℕ → Option Bool → Answers → Monitor → Display → Monitor × Display
idle_check now idle playing a m d =
    let checked = record m {
      next_idle_check = now + (if is_some d.off_state then 2000 else 5000);
    } in
    if leb m.next_idle_check now
    then or_forget checked d (idle_seen now idle playing a checked d)
    else (m, d)

-- What a round of the main loop meets behind the control socket: the time, the answers of the
-- automatic suspend, of the idle monitor, the mixer and the idle lock, and the key events read.
pub record Round : Type 0 where
  pub now : ℕ
  pub auto_answers : Answers
  pub idle : Option ℕ
  pub playing : Option Bool
  pub idle_answers : Answers
  pub keys : List KeyEvent

unfoldable pub key_events :
    List KeyEvent → Monitor → Display → Result PowerError (Monitor × Display)
unfolding key_event
key_events [] m d = ok (m, d)
key_events (k ∷ ks) m d = do next ← key_event k m d; key_events ks next.0 next.1

-- A round from the automatic suspend on.
unfoldable pub round : Round → Monitor × Display → Result PowerError (Monitor × Display)
unfolding key_events
round r (m, d) =
    let (m₁, d₁) = auto_suspend_step r.now r.auto_answers m d in
    let (m₂, d₂) = idle_check r.now r.idle r.playing r.idle_answers m₁ d₁ in key_events r.keys m₂ d₂

-- The loop; what raises ends it.
unfoldable pub rounds : List Round → Monitor × Display → Result PowerError (Monitor × Display)
unfolding round
rounds [] state = ok state
rounds (r ∷ rs) state = do next ← round r state; rounds rs next
