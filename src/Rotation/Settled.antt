-- ===== src/Rotation/Settled.antt =====
-- ubuntu/t630-rotation-controller.py: only an orientation that stayed for a second turns the panel,
-- and nothing turns it while the rotation is locked.
use mathlib.Core.Path.{subst}
use ubuntu_install_on_samsun.Prelude.{
  ℕ, ◌≡◌, refl, sym, ap, ◌∙◌, ◌⊎◌, inl, inr, Bool, true, false, Option, none, some, List, [], ◌∷◌,
  arith, if◌then◌else◌, Bool-cases, Option-cases, is_some,
}
use ubuntu_install_on_samsun.Rotation.{
  Orientation, normal, bottom_up, left_up, right_up, undefined, mapped_transform, State, init,
  same_orientation, is_pending, queue_rotation, Answers, Effect, apply_transform, settled, observe,
  after_claim, poll, properties_changed,
}

-- One look at the sensor and the switch.
pub record Observation : Type 0 where
  pub orientation : Orientation
  pub locked : Bool
  pub time : ℕ

abbrev pub observation : Answers → ℕ → Observation
observation a now = record { orientation = a.orientation; locked = a.locked; time = now }

-- From the time t to the last look, the newest first, the rotation was unlocked and the sensor
-- named o or nothing of use; at t it named o.
pub data Steady (o : Orientation) (t : ℕ) : List Observation → Type 0 where
  began :
      (x : Observation) (h : List Observation)
      → x.orientation ≡ o
      → x.locked ≡ false
      → x.time ≡ t
      → Steady o t (x ∷ h)
  stayed :
      (x : Observation) (h : List Observation)
      → x.locked ≡ false
      → (x.orientation ≡ o) ⊎ (mapped_transform x.orientation ≡ none)
      → Steady o t h
      → Steady o t (x ∷ h)

-- The states that callbacks and turns lead to, with the looks that they took.
pub data Reached : List Observation → State → Type 0 where
  started : Reached [] init
  changed :
      (h : List Observation) (s : State) (a : Answers) (now : ℕ)
      → Reached h s
      → Reached (observation a now ∷ h) (properties_changed a s now)
  turned :
      (h : List Observation) (s : State) (a : Answers) (now : ℕ)
      → s.claimed ≡ true
      → Reached h s
      → Reached (observation a now ∷ h) (poll a s now).0
  claimed_now :
      (h : List Observation) (s : State) (a : Answers) (now : ℕ)
      → s.claimed ≡ false
      → a.claim_succeeds ≡ true
      → Reached h s
      → Reached (observation a now ∷ observation a now ∷ h) (poll a s now).0
  unclaimed :
      (h : List Observation) (s : State) (a : Answers) (now : ℕ)
      → s.claimed ≡ false
      → a.claim_succeeds ≡ false
      → Reached h s
      → Reached h (poll a s now).0

same_orientation→≡ : (a b : Orientation) → same_orientation a b ≡ true → a ≡ b
same_orientation→≡ normal normal h = refl
same_orientation→≡ bottom_up bottom_up h = refl
same_orientation→≡ left_up left_up h = refl
same_orientation→≡ right_up right_up h = refl
same_orientation→≡ undefined undefined h = refl
same_orientation→≡ a b h = ground arith

some_value : {A : Type 0} {a b : A} → some a ≡ some b → a ≡ b
some_value h = cc

-- What is pending has been steady.
abbrev pub IsSteady : List Observation → State → Type 0
IsSteady h s = (o : Orientation) → s.pending ≡ some o → Steady o s.since h

the_pending :
    (now : Orientation) {pending : Option Orientation} {o : Orientation}
    → pending ≡ some o
    → is_pending pending now ≡ true
    → same_orientation o now ≡ true
the_pending now p h = subst (λ x. is_pending x now ≡ true) p h

useful_some : {A : Type 0} {o : Option A} {a : A} → o ≡ some a → is_some o ≡ true
useful_some h = rw h refl

useless_none : {A : Type 0} {o : Option A} → o ≡ none → is_some o ≡ false
useless_none h = rw h refl

-- What a look makes of the state, in each of its cases.
module _ (s : State) (a : Answers) (now : ℕ) where
  observe_locked : a.locked ≡ true → observe a s now ≡ record s { pending = none }
  unfolding queue_rotation
  observe_locked locked = rw locked refl

  observe_useless : a.locked ≡ false → mapped_transform a.orientation ≡ none → observe a s now ≡ s
  unfolding queue_rotation
  observe_useless free useless = rw free (rw (useless_none useless) refl)

  observe_same :
      (target : ℕ)
      → a.locked ≡ false
      → mapped_transform a.orientation ≡ some target
      → is_pending s.pending a.orientation ≡ true
      → observe a s now ≡ s
  unfolding queue_rotation
  observe_same target free useful same_one = rw free (rw (useful_some useful) (rw same_one refl))

  observe_new :
      (target : ℕ)
      → a.locked ≡ false
      → mapped_transform a.orientation ≡ some target
      → is_pending s.pending a.orientation ≡ false
      → observe a s now ≡ record s { pending = some a.orientation; since = now }
  unfolding queue_rotation
  observe_new target free useful other = rw free (rw (useful_some useful) (rw other refl))

  pub observe-IsSteady :
      (h : List Observation) → IsSteady h s → IsSteady (observation a now ∷ h) (observe a s now)
  observe-IsSteady h steady =
      let Here = IsSteady (observation a now ∷ h) in
      elim (Bool-cases a.locked) [
        | inl locked ↦ subst Here (sym (observe_locked locked)) (λ o p. cc)
        | inr free ↦ elim (Option-cases (mapped_transform a.orientation)) [
          | inl useless ↦
              subst Here (sym (observe_useless free useless))
                (λ o p. stayed (observation a now) h free (inr useless) (steady o p))
          | inr (target, useful) ↦ elim (Bool-cases (is_pending s.pending a.orientation)) [
            | inl same_one ↦ subst Here (sym (observe_same target free useful same_one)) (λ o p.
                stayed (observation a now) h free
                  (inl (
                    sym
                      (same_orientation→≡ o a.orientation (the_pending a.orientation p same_one))))
                  (steady o p))
            | inr other ↦
                subst Here (sym (observe_new target free useful other))
                  (λ o p. began (observation a now) h (some_value p) free refl)
          ]
        ]
      ]

kept_by_settled :
    (a : Answers) (s : State) (now : ℕ) (p : Option Orientation)
    → ((settled a s now p).0.pending ≡ s.pending) × ((settled a s now p).0.since ≡ s.since)
unfolding apply_transform
kept_by_settled a s now none = (refl, refl)
kept_by_settled a s now (some o) = (ground arith, ground arith)

module _ (h : List Observation) (s : State) (a : Answers) (now : ℕ) where
  after_claim-IsSteady : IsSteady h (observe a s now) → IsSteady h (after_claim a s now).0
  after_claim-IsSteady steady =
      let seen = observe a s now in
      let branch = λ (b : Bool). if b then (seen, []) else settled a seen now seen.pending in
      elim (Bool-cases a.locked) [
        | inl locked ↦ subst (λ r. IsSteady h r.0) (sym (ap branch locked)) steady
        | inr free ↦
            let kept = kept_by_settled a seen now seen.pending in
            subst (λ r. IsSteady h r.0) (sym (ap branch free))
              (λ o p. subst (λ t. Steady o t h) (sym kept.1) (steady o (sym kept.0 ∙ p)))
      ]

-- The three kinds of turn.
module _ (s : State) (a : Answers) (now : ℕ) where
  branch_on_claim : Bool → State × List Effect
  branch_on_claim claim =
      if claim
      then after_claim a (observe a (record s { claimed = true }) now) now
      else (record s { last_applied = none }, [])

  pub poll_claimed : s.claimed ≡ true → poll a s now ≡ after_claim a s now
  unfolding poll branch_on_claim
  poll_claimed c =
      ap (λ (b : Bool). if b then after_claim a s now else branch_on_claim a.claim_succeeds) c

  poll_claims :
      s.claimed ≡ false
      → a.claim_succeeds ≡ true
      → poll a s now ≡ after_claim a (observe a (record s { claimed = true }) now) now
  unfolding poll branch_on_claim
  poll_claims c d =
      ap (λ (b : Bool). if b then after_claim a s now else branch_on_claim a.claim_succeeds) c
      ∙ ap branch_on_claim d

  poll_unclaimed :
      s.claimed ≡ false
      → a.claim_succeeds ≡ false
      → poll a s now ≡ (record s { last_applied = none }, [])
  unfolding poll branch_on_claim
  poll_unclaimed c d =
      ap (λ (b : Bool). if b then after_claim a s now else branch_on_claim a.claim_succeeds) c
      ∙ ap branch_on_claim d

-- In every state that is reached, the pending orientation has been steady since its time.
pub Reached-IsSteady : (h : List Observation) (s : State) → Reached h s → IsSteady h s
unfolding properties_changed
Reached-IsSteady h s started = λ o p. cc
Reached-IsSteady h s (changed h' s' a now r) =
    observe-IsSteady s' a now h' (Reached-IsSteady h' s' r)
Reached-IsSteady h s (turned h' s' a now c r) =
    subst (λ x. IsSteady (observation a now ∷ h') x.0) (sym (poll_claimed s' a now c))
      (after_claim-IsSteady (observation a now ∷ h') s' a now
        (observe-IsSteady s' a now h' (Reached-IsSteady h' s' r)))
Reached-IsSteady h s (claimed_now h' s' a now c d r) =
    let here = observation a now in
    let ready = record s' { claimed = true } in
    let once = observe-IsSteady ready a now h' (Reached-IsSteady h' s' r) in
    subst (λ x. IsSteady (here ∷ here ∷ h') x.0) (sym (poll_claims s' a now c d))
      (after_claim-IsSteady (here ∷ here ∷ h') (observe a ready now) a now
        (observe-IsSteady (observe a ready now) a now (here ∷ h') once))
Reached-IsSteady h s (unclaimed h' s' a now c d r) =
    subst (λ x. IsSteady h' x.0) (sym (poll_unclaimed s' a now c d)) (Reached-IsSteady h' s' r)
