-- ===== src/Power/Locking.antt =====
-- The panel goes dark only behind a verified lock, and comes back as it was.
use mathlib.Core.Path.{subst}
use ubuntu_install_on_samsun.Prelude.{
  ℕ, ◌≤◌, ◌<◌, ◌≡◌, inl, inr, Bool, true, false, not, ◌&&◌, ◌||◌, Option, none, some, arith,
  is_some, ok, went_through, Result-cases,
}
use ubuntu_install_on_samsun.Display.Settings.{Display, maximum}
use ubuntu_install_on_samsun.Power.{
  restore, LockAnswers, lock_and_blank, Monitor, Outcome, wake, settle,
}

-- The screen saver is active and logind says that the session is locked.
abbrev pub is_locked : LockAnswers → Bool
is_locked a = is_true a.active_after && is_true a.locked_hint
  where
    is_true : Option Bool → Bool
    is_true none = false
    is_true (some b) = b

-- While blanked the panel is dark and the value to restore is on its scale.
abbrev pub IsDark : ℕ → Option ℕ → Type 0
IsDark light none = light ≤ maximum
IsDark light (some value) = (light ≡ 0) × (0 < value) × (value ≤ maximum)

abbrev pub IsConsistent : Display → Type 0
IsConsistent d = IsDark d.light d.off_state

-- Blanking succeeds only behind a verified lock, on a panel that is lit; and `restore` then gives
-- back exactly the display that there was.
pub lock_and_blank-restore :
    (a : LockAnswers) (d d' : Display)
    → IsConsistent d
    → lock_and_blank a d ≡ ok d'
    → (is_locked a ≡ true) × (d'.light ≡ 0) × IsConsistent d' × (restore d' ≡ ok d)
unfolding lock_and_blank restore
lock_and_blank-restore a d d' c h = ground arith

-- The brightness that the panel has or, while it is dark, that is saved for it.
abbrev pub nominal : Display → ℕ
nominal d = saved_or d.light d.off_state
  where
    saved_or : ℕ → Option ℕ → ℕ
    saved_or light none = light
    saved_or light (some value) = value

-- From d to d', the panel stays consistent, goes dark only if it was or if `locked`, and keeps its
-- nominal brightness.
abbrev pub allowed : Display → Display → Bool → Bool
allowed d d' locked = not (is_some d'.off_state) || (is_some d.off_state || locked)

abbrev pub Kept : Display → Display → Bool → Type 0
Kept d d' locked = IsConsistent d' × (allowed d d' locked ≡ true) × (nominal d' ≡ nominal d)

pub Kept-refl : (d : Display) (locked : Bool) → IsConsistent d → Kept d d locked
Kept-refl d locked c = ground arith

pub Kept-trans :
    (d d₁ d₂ : Display) (l₁ l₂ : Bool) → Kept d d₁ l₁ → Kept d₁ d₂ l₂ → Kept d d₂ (l₁ || l₂)
Kept-trans d d₁ d₂ l₁ l₂ p q = ground arith

pub Kept-weaken : (d d' : Display) (locked : Bool) → Kept d d' false → Kept d d' locked
Kept-weaken d d' locked p = ground arith

pub restore-Kept : (d d' : Display) → IsConsistent d → restore d ≡ ok d' → Kept d d' false
unfolding restore
restore-Kept d d' c h = ground arith

restore-lit : (d d' : Display) → restore d ≡ ok d' → is_some d'.off_state ≡ false
unfolding restore
restore-lit d d' h = ground arith

pub lock_and_blank-Kept :
    (a : LockAnswers) (d d' : Display)
    → IsConsistent d
    → lock_and_blank a d ≡ ok d'
    → Kept d d' (is_locked a)
unfolding lock_and_blank
lock_and_blank-Kept a d d' c h = ground arith

pub wake-Kept :
    (wake_key : Bool) (shown after : Monitor → Monitor) (m : Monitor) (d : Display)
    → IsConsistent d
    → Kept d (wake wake_key shown after m d).1.1 false
wake-Kept true shown after m d c = elim (Result-cases (restore d)) [
  | inl (d', e) ↦ rw (wake, e) (restore-Kept d d' c e)
  | inr (raised, e) ↦ rw (wake, e) (Kept-refl d false c)
]
wake-Kept false shown after m d c = elim (Result-cases (restore d)) [
  | inl (d', e) ↦ rw (wake, e) (restore-Kept d d' c e)
  | inr (raised, e) ↦ rw (wake, e) (Kept-refl d false c)
]

pub settle-Kept :
    (o : Outcome) (d : Display) (locked : Bool) (m' : Monitor) (d' : Display)
    → Kept d o.1.1 locked
    → settle o ≡ ok ((m', d'))
    → Kept d d' locked
settle-Kept (true, (m, e)) d locked m' d' p h =
    let same_display : e ≡ d' = cc in subst (λ x. Kept d x locked) same_display p
settle-Kept (false, (m, e)) d locked m' d' p h =
    let (x, r, s) = went_through (restore e) _ h in
    let same_display : x ≡ d' = cc in
    let step = Kept-trans d e x locked false p (restore-Kept e x p.0 r) in
    subst (λ y. Kept d y locked) same_display (ground arith)
