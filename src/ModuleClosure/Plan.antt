-- ===== src/ModuleClosure/Plan.antt =====
-- tools/audit_waydroid_module_closure.py: the split of the selected modules.
use ubuntu_install_on_samsun.Prelude.{
  ◌≡◌, refl, sym, ap, ◌∙◌, ◌≢◌, ◌⊎◌, inl, inr, Bool, true, false, not, ◌&&◌, ◌||◌, List, [], ◌∷◌,
  arith, if◌then◌else◌, Bool-cases, All, ok, ok_value, codes, same, same→≡,
}
use mathlib.Core.Path.{subst}
use ubuntu_install_on_samsun.ModuleAbi.{Text}
use ubuntu_install_on_samsun.ModuleClosure.{
  contains, wlan_module, permitted_unused_modules, is_coverable, keep_if, is_unexpected,
  unless_unexpected, plan_closure,
}

keep_if-contains :
    (test : Text → Bool) (names : List Text) (x : Text)
    → contains x names ≡ true
    → ((contains x (keep_if test names) ≡ true)
        ⊎ (contains x (keep_if (λ y. not (test y)) names) ≡ true))
keep_if-contains test [] x h = absurd (cc)
keep_if-contains test (y ∷ names) x h = ground (arith, keep_if-contains test names x)

keep_if-All :
    (test : Text → Bool) (names : List Text) → All (λ x. test x ≡ true) (keep_if test names)
keep_if-All test [] = tt
keep_if-All test (x ∷ names) = elim (Bool-cases (test x)) [
  | inl h ↦ rw h (h, keep_if-All test names)
  | inr h ↦ rw h (keep_if-All test names)
]

none_kept :
    (test : Text → Bool) (names : List Text)
    → keep_if test names ≡ []
    → All (λ x. test x ≡ false) names
none_kept test [] h = tt
none_kept test (x ∷ names) h = elim (Bool-cases (test x)) [
  | inl taken ↦
      let step = λ (b : Bool). if b then x ∷ keep_if test names else keep_if test names in
      let some_kept : x ∷ keep_if test names ≡ [] = sym (ap step taken) ∙ h in absurd (cc)
  | inr passed ↦
      let step = λ (b : Bool). if b then x ∷ keep_if test names else keep_if test names in
      (passed, none_kept test names (sym (ap step passed) ∙ h))
]

went_expected :
    (unexpected : List Text) (plan last : List Text × List Text)
    → unless_unexpected unexpected plan ≡ ok last
    → (unexpected ≡ []) × (plan ≡ last)
went_expected [] plan last h = (refl, ok_value (unless_unexpected [] plan) plan last refl h)
went_expected (x ∷ xs) plan last h = absurd (cc)

-- The names that the gate's documentation permits to leave out.
abbrev pub IsPermitted : Text → Type 0
IsPermitted x =
    (x ≡ codes "rmnet_core.ko")
    ⊎ ((x ≡ codes "rmnet_ctl.ko")
        ⊎ ((x ≡ codes "rmnet_offload.ko")
            ⊎ ((x ≡ codes "rmnet_shs.ko") ⊎ (x ≡ codes "tas256x_dlkm.ko"))))

-- Built for this product: by the kernel build, and not the amplifier of another product; or the
-- wireless module, which is built outside.
abbrev pub IsBuilt : List Text → Text → Type 0
IsBuilt built x =
    (x ≡ codes "qca_cld3_wlan.ko") ⊎ ((contains x built ≡ true) × (x ≢ codes "tas256x_dlkm.ko"))

coverable-IsBuilt : (built : List Text) (x : Text) → is_coverable built x ≡ true → IsBuilt built x
coverable-IsBuilt built x h = elim (Bool-cases (same x (codes "qca_cld3_wlan.ko"))) [
  | inl wlan ↦ inl (same→≡ x (codes "qca_cld3_wlan.ko") wlan)
  | inr other ↦
      let both =
        coverable_parts (contains x built) (same (codes "tas256x_dlkm.ko") x)
          (same x (codes "qca_cld3_wlan.ko")) other h in
      inr (both.0, λ amplifier. not_other x both.1 amplifier)
]
  where
    coverable_parts :
        (b t w : Bool)
        → w ≡ false
        → ((b && not (t || false)) || w) ≡ true
        → (b ≡ true) × (t ≡ false)
    coverable_parts true false w p q = (refl, refl)
    coverable_parts true true w p q = absurd (cc)
    coverable_parts false t w p q = absurd (cc)

    not_other : (x : Text) → same (codes "tas256x_dlkm.ko") x ≡ false → x ≢ codes "tas256x_dlkm.ko"
    not_other x no_match e =
        let found : same (codes "tas256x_dlkm.ko") x ≡ true =
          subst (λ y. same (codes "tas256x_dlkm.ko") y ≡ true) (sym e) refl in
        absurd (cc)

not-false : (b : Bool) → not b ≡ false → b ≡ true
not-false true h = refl
not-false false h = absurd (cc)

either_same :
    {P : Type 0} (y x : Text) (b : Bool) → (same y x || b) ≡ true → (b ≡ true → P) → (x ≡ y) ⊎ P
either_same y x b h later = elim (Bool-cases (same y x)) [
  | inl here ↦ inl (sym (same→≡ y x here))
  | inr other ↦ inr (later (sym (ap (λ c. c || b) other) ∙ h))
]

last_same : (y x : Text) → (same y x || false) ≡ true → x ≡ y
last_same y x h = elim (Bool-cases (same y x)) [
  | inl here ↦ sym (same→≡ y x here)
  | inr other ↦ let never : false ≡ true = sym (ap (λ c. c || false) other) ∙ h in absurd (cc)
]

expected-IsPermitted : (x : Text) → is_unexpected x ≡ false → IsPermitted x
expected-IsPermitted x h =
    let among = not-false (contains x permitted_unused_modules) h in
    either_same (codes "rmnet_core.ko") x (after_core x) among (λ h₁.
      either_same (codes "rmnet_ctl.ko") x (after_ctl x) h₁ (λ h₂.
        either_same (codes "rmnet_offload.ko") x (after_offload x) h₂ (λ h₃.
          either_same (codes "rmnet_shs.ko") x (same (codes "tas256x_dlkm.ko") x || false) h₃
            (last_same (codes "tas256x_dlkm.ko") x))))
  where
    after_offload : Text → Bool
    after_offload x = contains x (codes "rmnet_shs.ko" ∷ codes "tas256x_dlkm.ko" ∷ [])

    after_ctl : Text → Bool
    after_ctl x =
        contains x (codes "rmnet_offload.ko" ∷ codes "rmnet_shs.ko" ∷ codes "tas256x_dlkm.ko" ∷ [])

    after_core : Text → Bool
    after_core x = contains x (
        codes "rmnet_ctl.ko"
        ∷ codes "rmnet_offload.ko"
        ∷ codes "rmnet_shs.ko"
        ∷ codes "tas256x_dlkm.ko"
        ∷ [])

-- Not in the kernel build, or the amplifier of the other product.
abbrev pub IsUnbuilt : List Text → Text → Type 0
IsUnbuilt built x = (contains x built ≡ false) ⊎ (x ≡ codes "tas256x_dlkm.ko")

uncoverable-IsUnbuilt :
    (built : List Text) (x : Text) → not (is_coverable built x) ≡ true → IsUnbuilt built x
uncoverable-IsUnbuilt built x h = elim (Bool-cases (contains x built)) [
  | inr absent ↦ inl absent
  | inl present ↦ inr (
      last_same (codes "tas256x_dlkm.ko") x (
        excluded (contains x built) (same (codes "tas256x_dlkm.ko") x || false) (same x wlan_module)
          present h))
]
  where
    excluded : (b t w : Bool) → b ≡ true → not ((b && not t) || w) ≡ true → t ≡ true
    excluded true true w p q = refl
    excluded true false w p q = absurd (cc)
    excluded false t w p q = absurd (cc)

keep_if-within :
    (test : Text → Bool) (names : List Text) (x : Text)
    → contains x (keep_if test names) ≡ true
    → contains x names ≡ true
keep_if-within test [] x h = h
keep_if-within test (y ∷ names) x h = ground (arith, keep_if-within test names x)

All-map : {P Q : Text → Type 0} (xs : List Text) → ((x : Text) → P x → Q x) → All P xs → All Q xs
All-map [] f all = tt
All-map (x ∷ xs) f (p, all) = (f x p, All-map xs f all)

-- What a plan promises, in the names of the modules.
pub record IsPlan (selected built covered omitted : List Text) : Type 0 where
  pub covered_built : All (IsBuilt built) covered
  pub omitted_permitted : All IsPermitted omitted
  pub omitted_unbuilt : All (IsUnbuilt built) omitted
  pub complete :
      (x : Text)
      → contains x selected ≡ true
      → ((contains x covered ≡ true) ⊎ (contains x omitted ≡ true))
  pub only_selected :
      (x : Text)
      → ((contains x covered ≡ true) ⊎ (contains x omitted ≡ true))
      → contains x selected ≡ true

-- A plan that is made covers only modules in the kernel build that are not the other product's
-- amplifier, and the wireless module. It leaves out only the five modules that are permitted, and
-- of the kernel build only the amplifier. Each selected module is covered or left out, and no
-- other is.
pub plan_closure-IsPlan :
    (selected built covered omitted : List Text)
    → plan_closure selected built ≡ ok (covered, omitted)
    → IsPlan selected built covered omitted
unfolding plan_closure
plan_closure-IsPlan selected built covered omitted h =
    let test = is_coverable built in
    let missing = keep_if (λ x. not (test x)) selected in
    let (expected, made) =
      went_expected (keep_if is_unexpected missing) (keep_if test selected, missing)
        (covered, omitted) h in
    subst (λ plan. IsPlan selected built plan.0 plan.1) made
      record {
        covered_built =
            All-map (keep_if test selected) (coverable-IsBuilt built) (keep_if-All test selected);
        omitted_permitted =
            All-map missing expected-IsPermitted (none_kept is_unexpected missing expected);
        omitted_unbuilt =
            All-map missing (uncoverable-IsUnbuilt built)
              (keep_if-All (λ x. not (test x)) selected);
        complete = keep_if-contains test selected;
        only_selected = λ x either. elim either [
          | inl c ↦ keep_if-within test selected x c
          | inr o ↦ keep_if-within (λ y. not (test y)) selected x o
        ];
      }
