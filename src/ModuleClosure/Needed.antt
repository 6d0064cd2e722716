-- ===== src/ModuleClosure/Needed.antt =====
-- tools/audit_waydroid_module_closure.py: the expansion adds nothing that is not needed.
use ubuntu_install_on_samsun.Prelude.{
  ℕ, zero, suc, ◌+◌, ◌≡◌, refl, ap, inl, inr, true, Option, none, some, List, [], ◌∷◌, arith,
  Bool-cases, length, All, ok, ◌>>=◌, went_through, ok_value, same_refl,
}
use mathlib.Core.Path.{subst}
use ubuntu_install_on_samsun.ModuleAbi.{Text, Dict, find}
use ubuntu_install_on_samsun.ModuleClosure.{
  contains, or_key_error, take_file, or_unavailable, take_dependencies, expand_round, expand_loop,
}
use ubuntu_install_on_samsun.ModuleClosure.Expansion.{available}

-- The files that the initial ones need: those themselves, and the file of each dependency of a
-- file that is needed.
pub data Needed (initial : List Text) (file_to_internal files : Dict Text)
    (dependencies : Dict (List Text)) : Text → Type 0 where
  given :
      (x : Text) → contains x initial ≡ true → Needed initial file_to_internal files dependencies x
  depended :
      (f internal d g : Text) (names : List Text)
      → Needed initial file_to_internal files dependencies f
      → find f file_to_internal ≡ some internal
      → find internal dependencies ≡ some names
      → contains d names ≡ true
      → find d files ≡ some g
      → Needed initial file_to_internal files dependencies g

pub key_found : {A : Type 0} (o : Option A) (a : A) → or_key_error o ≡ ok a → o ≡ some a
key_found none a h = absurd (cc)
key_found (some b) a h = ap some (ok_value (or_key_error (some b)) b a refl h)

module _ (initial : List Text) (file_to_internal files : Dict Text)
    (dependencies : Dict (List Text)) where
  abbrev IsNeeded : Text → Type 0
  IsNeeded = Needed initial file_to_internal files dependencies

  abbrev BothNeeded : List Text × List Text → Type 0
  BothNeeded sets = All IsNeeded sets.0 × All IsNeeded sets.1

  take_file_needed :
      (g : Text) (sets : List Text × List Text)
      → IsNeeded g
      → BothNeeded sets
      → BothNeeded (take_file g sets)
  take_file_needed g (expanded, pending) needed (e, p) = elim (Bool-cases (contains g expanded)) [
    | inl old ↦ rw old (e, p)
    | inr new ↦ rw new ((needed, e), (needed, p))
  ]

  take_dependencies_needed :
      (f internal : Text) (names rest : List Text) (sets last : List Text × List Text)
      → IsNeeded f
      → find f file_to_internal ≡ some internal
      → find internal dependencies ≡ some names
      → ((d : Text) → contains d rest ≡ true → contains d names ≡ true)
      → BothNeeded sets
      → take_dependencies files f rest sets ≡ ok last
      → BothNeeded last
  unfolding take_dependencies
  take_dependencies_needed f internal names [] sets last needed i n within both h =
      subst BothNeeded (ok_value (take_dependencies files f [] sets) sets last refl h) both
  take_dependencies_needed f internal names (d ∷ rest) sets last needed i n within both h =
      let (g, here, later) =
        went_through (or_unavailable f d (find d files))
          (λ found. take_dependencies files f rest (take_file found sets)) h in
      let known = available f d g (find d files) here in
      let first : contains d (d ∷ rest) ≡ true = rw (same_refl d) refl in
      let next : IsNeeded g = depended f internal d g names needed i n (within d first) known in
      take_dependencies_needed f internal names rest (take_file g sets) last needed i n
        (λ x inside. within x (ground (arith, inside))) (take_file_needed g sets next both) later

  round_needed :
      (f : Text) (sets last : List Text × List Text)
      → IsNeeded f
      → BothNeeded sets
      → expand_round file_to_internal files dependencies f sets ≡ ok last
      → BothNeeded last
  unfolding expand_round
  round_needed f sets last needed both h =
      let (internal, known, h1) =
        went_through (or_key_error (find f file_to_internal))
          (λ internal. or_key_error (find internal dependencies) >>= λ names.
            take_dependencies files f names sets)
          h in
      let (names, listed, h2) =
        went_through (or_key_error (find internal dependencies))
          (λ names. take_dependencies files f names sets) h1 in
      take_dependencies_needed f internal names names sets last needed
        (key_found (find f file_to_internal) internal known)
        (key_found (find internal dependencies) names listed) (λ d inside. inside) both h2

  expand_loop-IsNeeded :
      (fuel : ℕ) (expanded pending result : List Text)
      → BothNeeded (expanded, pending)
      → expand_loop file_to_internal files dependencies fuel expanded pending ≡ ok result
      → All IsNeeded result
  unfolding expand_loop
  expand_loop-IsNeeded fuel expanded [] result both h =
      subst (All IsNeeded)
        (ok_value (expand_loop file_to_internal files dependencies fuel expanded []) expanded result
          refl h)
        both.0
  expand_loop-IsNeeded zero expanded (f ∷ pending) result both h = absurd (cc)
  expand_loop-IsNeeded (suc fuel) expanded (f ∷ pending) result (e, (needed, p)) h =
      let (sets, taken, later) =
        went_through (expand_round file_to_internal files dependencies f (expanded, pending))
          (λ sets. expand_loop file_to_internal files dependencies fuel sets.0 sets.1) h in
      expand_loop-IsNeeded fuel sets.0 sets.1 result
        (round_needed f (expanded, pending) sets needed (e, p) taken) later

  All-given :
      (xs : List Text)
      → ((x : Text) → contains x xs ≡ true → contains x initial ≡ true)
      → All IsNeeded xs
  All-given [] within = tt
  All-given (x ∷ xs) within =
      let first : contains x (x ∷ xs) ≡ true = rw (same_refl x) refl in
      (given x (within x first), All-given xs (λ y inside. within y (ground (arith, inside))))

-- Every file that the loop ends with is needed by the initial ones.
pub loop_needed :
    (initial : List Text) (file_to_internal files : Dict Text) (dependencies : Dict (List Text))
    (result : List Text)
    → expand_loop file_to_internal files dependencies
        (length initial + length files)
        initial
        initial
      ≡ ok result
    → All (Needed initial file_to_internal files dependencies) result
loop_needed initial file_to_internal files dependencies result h =
    let here = All-given initial file_to_internal files dependencies initial (λ x inside. inside) in
    expand_loop-IsNeeded initial file_to_internal files dependencies (length initial + length files)
      initial initial result (here, here) h
