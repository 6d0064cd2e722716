-- ===== src/Prelude/Outcome.antt =====
-- Code that may raise: a result, its `do` block, and what is known of a block that went through.
use mathlib.Core.Path.{◌≡◌, refl, ap}
use mathlib.Core.Logic.{◌≢◌, ◌⊎◌, inl, inr}
use mathlib.Core.Bool.{Bool, true, false}

-- Either the returned value or the raised exception.
pub data Result {ℓ κ} (E : Type ℓ) (A : Type κ) : Type (ℓ ⊔ κ) where
  ok : A → Result E A
  err : E → Result E A

module _ {ε α β} {E : Type ε} {A : Type α} {B : Type β} where
  infixl 5 ◌>>=◌ ◌>>◌
  abbrev pub ◌>>=◌ : Result E A → (A → Result E B) → Result E B
  ok value >>= next = next value
  err raised >>= next = err raised

  abbrev pub ◌>>◌ : Result E A → Result E B → Result E B
  first >> next = first >>= λ _. next

  -- Both parts of a sequence went through if the whole did.
  pub went_through :
      (first : Result E A) (next : A → Result E B) {last : B}
      → (first >>= next) ≡ ok last
      → (value : A) × (first ≡ ok value) × (next value ≡ ok last)
  went_through (ok value) next whole = (value, refl, whole)
  went_through (err raised) next whole = cc

-- `if test: raise e`
abbrev pub raise_if {ε} : {E : Type ε} → Bool → E → Result E (Unit {0})
raise_if true e = err e
raise_if false e = ok tt

pub Result-cases {ε α} :
    {E : Type ε} {A : Type α} (r : Result E A) → ((a : A) × (r ≡ ok a)) ⊎ ((e : E) × (r ≡ err e))
Result-cases (ok a) = inl (a, refl)
Result-cases (err e) = inr (e, refl)

-- A result has one value.
pub ok_value {ε α} :
    {E : Type ε} {A : Type α} (r : Result E A) (a b : A) → r ≡ ok a → r ≡ ok b → a ≡ b
ok_value r a b h k = cc

-- A result has one exception.
pub err_value {ε α} :
    {E : Type ε} {A : Type α} (r : Result E A) (x e : E) → r ≡ err x → r ≡ err e → x ≡ e
err_value r x e h k = cc

-- A sequence that raised did so in its first part or in the rest of it.
pub went_wrong {ε α β} :
    {E : Type ε} {A : Type α} {B : Type β} (r : Result E A) (next : A → Result E B) {e : E}
    → (r >>= next) ≡ err e
    → (r ≡ err e) ⊎ ((a : A) × (r ≡ ok a) × (next a ≡ err e))
went_wrong (ok a) next h = inr (a, refl, h)
went_wrong (err x) next {e = e} h = inl (ap err (err_value (err x >>= next) x e refl h))

pub raise_if_spares {ε} : {E : Type ε} (test : Bool) (x e : E) → x ≢ e → raise_if test x ≢ err e
raise_if_spares true x e other h = other (err_value (raise_if true x) x e refl h)
raise_if_spares false x e other h = absurd (cc)
