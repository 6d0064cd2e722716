-- ===== src/Rotation/Applied.antt =====
-- ubuntu/t630-rotation-controller.py: which transform a turn sends to the panel, and when.
use ubuntu_install_on_samsun.Prelude.{
  ℕ, ◌+◌, ◌-◌, ◌≤◌, ◌≡◌, refl, sym, ap, ◌∙◌, inl, inr, Bool, true, false, not, ◌||◌, Option, none,
  some, List, [], ◌∷◌, ◌++◌, arith, leb, ◌==◌, if◌then◌else◌, Bool-cases, ok, err,
}
use ubuntu_install_on_samsun.Rotation.{
  Orientation, mapped_transform, transform_mode, settle_ticks, State, GnomeState, Answers, Effect,
  new_mode, add_mode, output_mode, configure, send_transform, Call, then_call, is_target,
  ensure_xwayland_mode, configure_mode, check_gnome, ensure_gnome_mode, send, prepare_xwayland,
  to_panel, find_size, monitor_identity, logical_layout, apply_transform, applied, verify_target,
  settled, observe, after_claim, poll, is_due,
}
use ubuntu_install_on_samsun.Rotation.Settled.{
  Observation, observation, Steady, Reached, Reached-IsSteady, observe-IsSteady, poll_claimed,
}

-- The transform is among those that the effects send.
abbrev pub sends : ℕ → List Effect → Bool
sends t [] = false
sends t (send_transform target ∷ rest) = target == t || sends t rest
sends t (new_mode ∷ rest) = sends t rest
sends t (add_mode ∷ rest) = sends t rest
sends t (output_mode w h ∷ rest) = sends t rest
sends t (configure mode ∷ rest) = sends t rest

or_unit : (b : Bool) → (b || false) ≡ b
or_unit true = refl
or_unit false = refl

sends-append : (t : ℕ) (xs ys : List Effect) → sends t (xs ++ ys) ≡ (sends t xs || sends t ys)
sends-append t [] ys = refl
sends-append t (send_transform target ∷ xs) ys =
    let rest = sends-append t xs ys in ground (arith, rest)
sends-append t (new_mode ∷ xs) ys = sends-append t xs ys
sends-append t (add_mode ∷ xs) ys = sends-append t xs ys
sends-append t (output_mode w h ∷ xs) ys = sends-append t xs ys
sends-append t (configure mode ∷ xs) ys = sends-append t xs ys

-- A call that sends nothing leaves what the next one sends.
then_call-sends :
    {A B : Type 0} (t : ℕ) (first : Call A) (next : A → Call B)
    → sends t first.1 ≡ false
    → sends t (then_call first next).1 ≡ true
    → (a : A) × (sends t (next a).1 ≡ true)
then_call-sends t (ok a, done) next quiet h =
    (a, sym (ap (λ b. b || sends t (next a).1) quiet) ∙ sym (sends-append t done (next a).1) ∙ h)
then_call-sends t (err e, done) next quiet h = absurd (cc)

quiet_if :
    {A : Type 0} (t : ℕ) (test : Bool) (x y : Call A)
    → sends t x.1 ≡ false
    → sends t y.1 ≡ false
    → sends t (if test then x else y).1 ≡ false
quiet_if t true x y p q = p
quiet_if t false x y p q = q

settled_time : (since now : ℕ) → leb settle_ticks (now - since) ≡ true → since + settle_ticks ≤ now
settled_time since now h = ground arith

module _ (a : Answers) (t : ℕ) where
  quiet_xwayland : (size : ℕ × ℕ) → sends t (ensure_xwayland_mode a size).1 ≡ false
  quiet_xwayland size = ground arith

  quiet_prepare : (s : State) (target : ℕ) → sends t (prepare_xwayland a s target).1 ≡ false
  quiet_prepare s target =
      quiet_if t (is_target s.last_applied target) (ok tt, []) _ refl
        (quiet_xwayland (transform_mode target))

  quiet_configure : (g : GnomeState) (mode : Option ℕ) → sends t (configure_mode a g mode).1 ≡ false
  quiet_configure g none = refl
  quiet_configure g (some mode) = ground arith

  quiet_gnome : (g : Option GnomeState) (size : ℕ × ℕ) → sends t (check_gnome a g size).1 ≡ false
  quiet_gnome none size = refl
  quiet_gnome (some g) size =
      quiet_if t (not g.expected_monitor) (err monitor_identity, []) _ refl
        (quiet_if t (not g.expected_layout) (err logical_layout, []) _ refl
          (quiet_configure g (find_size g.modes size)))

  send_target :
      (target : ℕ) (changed : Bool) → sends t (send a target changed).1 ≡ true → target ≡ t
  send_target target changed h = ground (arith, h)

  apply_transform-sends :
      (s : State) (target : ℕ) → sends t (apply_transform a s target).1 ≡ true → target ≡ t
  unfolding apply_transform
  apply_transform-sends s target h =
      let to_gnome =
        then_call-sends t (prepare_xwayland a s target) (to_panel a target) (quiet_prepare s target)
          h in
      let (changed, last) =
        then_call-sends t (ensure_gnome_mode a (transform_mode target)) (send a target)
          (quiet_gnome a.gnome (transform_mode target)) to_gnome.1 in
      send_target target changed last

  applied_sends : (s : State) (target now : ℕ) (c : Call Bool) → (applied a s target now c).1 ≡ c.1
  applied_sends s target now (ok changed, done) = refl
  applied_sends s target now (err e, done) = refl

  verify_sends :
      (s : State) (now : ℕ) (mapped : Option ℕ)
      → sends t (verify_target a s now mapped).1 ≡ true
      → mapped ≡ some t
  verify_sends s now none h = absurd (cc)
  verify_sends s now (some target) h = elim (Bool-cases (is_due a s target now)) [
    | inl due ↦
        let turn = λ (b : Bool).
          if b then applied a s target now (apply_transform a s target) else (s, []) in
        let sent = sym (ap (λ b. sends t (turn b).1) due) ∙ h in
        ap some (
          apply_transform-sends s target
            (sym (ap (sends t) (applied_sends s target now (apply_transform a s target))) ∙ sent))
    | inr idle ↦
        let turn = λ (b : Bool).
          if b then applied a s target now (apply_transform a s target) else (s, []) in
        let sent : false ≡ true = sym (ap (λ b. sends t (turn b).1) idle) ∙ h in absurd (cc)
  ]

  settled-sends :
      (s : State) (now : ℕ) (p : Option Orientation)
      → sends t (settled a s now p).1 ≡ true
      → (o : Orientation) × (p ≡ some o)
        × (mapped_transform o ≡ some t)
        × (s.since + settle_ticks ≤ now)
  settled-sends s now none h = absurd (cc)
  settled-sends s now (some o) h =
      let turn = λ (b : Bool). if b then verify_target a s now (mapped_transform o) else (s, []) in
      elim (Bool-cases (leb settle_ticks (now - s.since))) [
        | inl long ↦ (
          o,
          refl,
          verify_sends s now (mapped_transform o) (sym (ap (λ b. sends t (turn b).1) long) ∙ h),
          settled_time s.since now long,
        )
        | inr brief ↦
            let sent : false ≡ true = sym (ap (λ b. sends t (turn b).1) brief) ∙ h in absurd (cc)
      ]

  after_claim-sends :
      (s : State) (now : ℕ)
      → sends t (after_claim a s now).1 ≡ true
      → (a.locked ≡ false)
        × (sends t (settled a (observe a s now) now (observe a s now).pending).1 ≡ true)
  after_claim-sends s now h =
      let seen = observe a s now in
      let branch = λ (b : Bool). if b then (seen, []) else settled a seen now seen.pending in
      elim (Bool-cases a.locked) [
        | inl locked ↦
            let sent : false ≡ true = sym (ap (λ b. sends t (branch b).1) locked) ∙ h in absurd (cc)
        | inr free ↦ (free, sym (ap (λ b. sends t (branch b).1) free) ∙ h)
      ]

-- In every state that callbacks and turns reach with the sensor claimed, a turn sends a transform
-- to the panel only while the rotation is unlocked, and only that of an
-- orientation that the sensor has named, with nothing else of use in between and no lock, for a
-- second or more.
pub poll-sends_settled :
    (h : List Observation) (s : State) (a : Answers) (now t : ℕ)
    → Reached h s
    → s.claimed ≡ true
    → sends t (poll a s now).1 ≡ true
    → (a.locked ≡ false)
      × (o : Orientation) × (since : ℕ) × (mapped_transform o ≡ some t)
      × Steady o since (observation a now ∷ h)
      × (since + settle_ticks ≤ now)
poll-sends_settled h s a now t reached claimed sent =
    let (free, later) =
      after_claim-sends a t s now
        (sym (ap (λ r. sends t r.1) (poll_claimed s a now claimed)) ∙ sent) in
    let seen = observe a s now in
    let (o, pending, target, long) = settled-sends a t seen now seen.pending later in
    (
      free,
      o,
      seen.since,
      target,
      observe-IsSteady s a now h (Reached-IsSteady h s reached) o pending,
      long,
    )
