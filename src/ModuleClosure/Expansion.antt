-- ===== src/ModuleClosure/Expansion.antt =====
-- tools/audit_waydroid_module_closure.py: the expansion ends, whatever the dependencies.
use mathlib.Core.Path.{subst}
use ubuntu_install_on_samsun.Prelude.{
  ℕ, zero, suc, ◌+◌, ◌≤◌, ◌≡◌, refl, sym, ap, ◌∙◌, ◌≢◌, inl, inr, Bool, false, Option, none, some,
  List, [], ◌∷◌, arith, if◌then◌else◌, Bool-cases, Option-cases, is_some, length, Result, ok, err,
  ◌>>=◌, ◌>>◌, raise_if, went_through, ok_value, same, same_refl,
}
use ubuntu_install_on_samsun.ModuleAbi.{Text, Dict, find, put}
use ubuntu_install_on_samsun.ModuleClosure.{
  contains, ClosureError, out_of_fuel, duplicate_internal, inverse, or_key_error, take_file,
  or_unavailable, take_dependencies, expand_round, expand_loop, expand_dependency_filenames,
}

-- How many of the files are not among the expanded.
abbrev unseen : List Text → Dict Text → ℕ
unseen expanded [] = 0
unseen expanded ((internal, file) ∷ files) =
    let rest = unseen expanded files in if contains file expanded then rest else suc rest

unseen_more : (f : Text) (e : List Text) (files : Dict Text) → unseen (f ∷ e) files ≤ unseen e files
unseen_more f e [] = omega arith
unseen_more f e ((k, v) ∷ files) = ground (arith, unseen_more f e files)

some_value : {A : Type 0} {a b : A} → some a ≡ some b → a ≡ b
some_value h = cc

unseen_less :
    (k f : Text) (e : List Text) (files : Dict Text)
    → find k files ≡ some f
    → contains f e ≡ false
    → suc (unseen (f ∷ e) files) ≤ unseen e files
unseen_less k f e [] found new = absurd (cc)
unseen_less k f e ((k', v) ∷ files) found new = elim (Bool-cases (same k' k)) [
  | inl here ↦
      let value : some v ≡ some f =
        sym (ap (λ (b : Bool). if b then some v else find k files) here) ∙ found in
      let this : v ≡ f = some_value value in
      subst (λ x. suc (unseen (f ∷ e) ((k', x) ∷ files)) ≤ unseen e ((k', x) ∷ files)) (sym this)
        (ground (arith, same_refl f, new, unseen_more f e files))
  | inr other ↦
      let later : find k files ≡ some f =
        sym (ap (λ (b : Bool). if b then some v else find k files) other) ∙ found in
      ground (arith, unseen_less k f e files later new)
]

-- The work that is left: a round for each pending file and for each that may still be taken.
abbrev work : Dict Text → List Text × List Text → ℕ
work files sets = unseen sets.0 files + length sets.1

work-take_file :
    (files : Dict Text) (k f : Text) (sets : List Text × List Text)
    → find k files ≡ some f
    → work files (take_file f sets) ≤ work files sets
work-take_file files k f (expanded, pending) found = elim (Bool-cases (contains f expanded)) [
  | inl old ↦ rw old (omega arith)
  | inr new ↦ rw new (omega (arith, unseen_less k f expanded files found new))
]

pub available :
    (file dependency found : Text) (o : Option Text)
    → or_unavailable file dependency o ≡ ok found
    → o ≡ some found
available file dependency found none h = absurd (cc)
available file dependency found (some f) h =
    ap some (ok_value (or_unavailable file dependency (some f)) f found refl h)

module _ (files : Dict Text) (file : Text) where
  take_dependencies-work :
      (names : List Text) (sets last : List Text × List Text)
      → take_dependencies files file names sets ≡ ok last
      → work files last ≤ work files sets
  unfolding take_dependencies
  take_dependencies-work [] sets last h =
      subst (λ x. work files x ≤ work files sets)
        (ok_value (take_dependencies files file [] sets) sets last refl h) (omega arith)
  take_dependencies-work (name ∷ names) sets last h =
      let (found, here, later) =
        went_through (or_unavailable file name (find name files))
          (λ found. take_dependencies files file names (take_file found sets)) h in
      let known = available file name found (find name files) here in
      omega (
        arith,
        work-take_file files name found sets known,
        take_dependencies-work names (take_file found sets) last later,
      )

  -- An error of a round is none of the loop's.
  take_dependencies_fuel :
      (names : List Text) (sets : List Text × List Text)
      → take_dependencies files file names sets ≢ err out_of_fuel
  unfolding take_dependencies
  take_dependencies_fuel [] sets h = absurd (cc)
  take_dependencies_fuel (name ∷ names) sets h = elim (Option-cases (find name files)) [
    | inl none_found ↦ absurd (ground (arith, none_found, h))
    | inr (f, found) ↦
        let next = λ (o : Option Text). or_unavailable file name o >>= λ found.
        take_dependencies files file names (take_file found sets) in
        take_dependencies_fuel names (take_file f sets) (sym (ap next found) ∙ h)
  ]

-- A lookup that raises KeyError does not run out of fuel, and what follows does not either.
key_fuel :
    {A : Type 0} (o : Option A) (next : A → Result ClosureError (List Text × List Text))
    → ((a : A) → next a ≢ err out_of_fuel)
    → (or_key_error o >>= next) ≢ err out_of_fuel
key_fuel none next all h = absurd (cc)
key_fuel (some a) next all h = all a h

error_value :
    {A : Type 0} (a b : ClosureError) (r : Result ClosureError A) → r ≡ err a → r ≡ err b → a ≡ b
error_value a b r h k = cc

round_fails :
    {A : Type 0} (r : Result ClosureError A) (next : A → Result ClosureError (List Text))
    → r ≢ err out_of_fuel
    → ((a : A) → r ≡ ok a → next a ≢ err out_of_fuel)
    → (r >>= next) ≢ err out_of_fuel
round_fails (ok a) next first later h = later a refl h
round_fails (err e) next first later h =
    let failed : Result ClosureError (List Text) = err e in
    let same_error : e ≡ out_of_fuel = error_value e out_of_fuel failed refl h in
    first (ap err same_error)

module _ (file_to_internal files : Dict Text) (dependencies : Dict (List Text)) where
  abbrev one_round : Text → List Text × List Text → Result ClosureError (List Text × List Text)
  one_round = expand_round file_to_internal files dependencies

  round_fuel : (file : Text) (sets : List Text × List Text) → one_round file sets ≢ err out_of_fuel
  unfolding expand_round
  round_fuel file sets =
      key_fuel (find file file_to_internal)
        (λ internal. or_key_error (find internal dependencies) >>= λ names.
          take_dependencies files file names sets)
        (λ internal.
          key_fuel (find internal dependencies) (λ names. take_dependencies files file names sets)
            (λ names. take_dependencies_fuel files file names sets))

  round-work :
      (file : Text) (sets last : List Text × List Text)
      → one_round file sets ≡ ok last
      → work files last ≤ work files sets
  unfolding expand_round
  round-work file sets last h =
      let (internal, known, h1) =
        went_through (or_key_error (find file file_to_internal))
          (λ internal. or_key_error (find internal dependencies) >>= λ names.
            take_dependencies files file names sets)
          h in
      let (names, listed, h2) =
        went_through (or_key_error (find internal dependencies))
          (λ names. take_dependencies files file names sets) h1 in
      take_dependencies-work files file names sets last h2

  expand_loop_fuel :
      (fuel : ℕ) (expanded pending : List Text)
      → work files (expanded, pending) ≤ fuel
      → expand_loop file_to_internal files dependencies fuel expanded pending ≢ err out_of_fuel
  unfolding expand_loop
  expand_loop_fuel fuel expanded [] enough h = absurd (cc)
  expand_loop_fuel zero expanded (file ∷ pending) enough h = absurd (omega arith)
  expand_loop_fuel (suc fuel) expanded (file ∷ pending) enough h =
      round_fails (one_round file (expanded, pending))
        (λ sets. expand_loop file_to_internal files dependencies fuel sets.0 sets.1)
        (round_fuel file (expanded, pending))
        (λ sets taken.
          expand_loop_fuel fuel sets.0 sets.1
            (omega (arith, round-work file (expanded, pending) sets taken)))
        h

unseen_bound : (e : List Text) (files : Dict Text) → unseen e files ≤ length files
unseen_bound e [] = omega arith
unseen_bound e ((k, v) ∷ files) = ground (arith, unseen_bound e files)

inverse_fuel :
    (files done : Dict Text) (next : Dict Text → Result ClosureError (List Text))
    → ((d : Dict Text) → next d ≢ err out_of_fuel)
    → (inverse files done >>= next) ≢ err out_of_fuel
unfolding inverse
inverse_fuel [] done next all h = all done h
inverse_fuel ((file, internal) ∷ files) done next all h =
    elim (Bool-cases (is_some (find internal done))) [
      | inl twice ↦
          let step = λ (b : Bool).
            (raise_if b (duplicate_internal internal) >> inverse files (put internal file done))
            >>= next in
          let raised : err (duplicate_internal internal) ≡ err out_of_fuel =
            sym (ap step twice) ∙ h in
          absurd (cc)
      | inr once ↦
          let step = λ (b : Bool).
            (raise_if b (duplicate_internal internal) >> inverse files (put internal file done))
            >>= next in
          inverse_fuel files (put internal file done) next all (sym (ap step once) ∙ h)
    ]

-- The rounds that are given, one for each file that is there at first and each that a dependency
-- may add, are enough, whatever the dependencies, cycles included.
pub expand_dependency_filenames_ends :
    (initial : List Text) (file_to_internal : Dict Text) (dependencies : Dict (List Text))
    → expand_dependency_filenames initial file_to_internal dependencies ≢ err out_of_fuel
unfolding expand_dependency_filenames
expand_dependency_filenames_ends initial file_to_internal dependencies =
    inverse_fuel file_to_internal []
      (λ files.
        expand_loop file_to_internal files dependencies (length initial + length files) initial
          initial)
      (λ files.
        expand_loop_fuel file_to_internal files dependencies (length initial + length files) initial
          initial (omega (arith, unseen_bound initial files)))
