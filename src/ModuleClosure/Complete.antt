-- ===== src/ModuleClosure/Complete.antt =====
-- tools/audit_waydroid_module_closure.py: the expansion has all that is needed.
use ubuntu_install_on_samsun.Prelude.{
  ℕ, zero, suc, ◌+◌, ◌≡◌, refl, ◌⊎◌, inl, inr, true, some, List, [], ◌∷◌, arith, Bool-cases, length,
  All, ok, ◌>>=◌, went_through, ok_value, same, same_refl, same→≡,
}
use mathlib.Core.Path.{subst}
use ubuntu_install_on_samsun.ModuleAbi.{Text, Dict, find}
use ubuntu_install_on_samsun.ModuleClosure.{
  contains, or_key_error, take_file, or_unavailable, take_dependencies, expand_round, expand_loop,
  inverse, expand_dependency_filenames,
}
use ubuntu_install_on_samsun.ModuleClosure.Expansion.{available}
use ubuntu_install_on_samsun.ModuleClosure.Needed.{Needed, key_found, loop_needed}

-- What is in one list is in the other.
abbrev Within : List Text → List Text → Type 0
Within xs ys = (x : Text) → contains x xs ≡ true → contains x ys ≡ true

-- The files of all these dependencies are among the expanded.
abbrev pub Provided : Dict Text → List Text → List Text → Type 0
Provided files expanded =
    All (λ d. (g : Text) × (find d files ≡ some g) × (contains g expanded ≡ true))

Provided-Within :
    (files : Dict Text) (e e' names : List Text)
    → Within e e'
    → Provided files e names
    → Provided files e' names
Provided-Within files e e' [] w all = tt
Provided-Within files e e' (d ∷ names) w ((g, found, inside), all) =
    ((g, found, w g inside), Provided-Within files e e' names w all)

contains_first : (x : Text) (xs : List Text) → contains x (x ∷ xs) ≡ true
contains_first x xs = rw (same_refl x) refl

-- From the sets before to those after some dependencies.
record Grown (before after : List Text × List Text) : Type 0 where
  expanded : Within before.0 after.0
  pending : Within before.1 after.1
  new :
      (x : Text)
      → contains x after.0 ≡ true
      → (contains x before.0 ≡ true) ⊎ (contains x after.1 ≡ true)

Grown-refl : (sets : List Text × List Text) → Grown sets sets
Grown-refl sets = record { expanded = λ x h. h; pending = λ x h. h; new = λ x h. inl h }

Grown-trans : (a b c : List Text × List Text) → Grown a b → Grown b c → Grown a c
Grown-trans a b c p q = record {
  expanded = λ x h. q.expanded x (p.expanded x h);
  pending = λ x h. q.pending x (p.pending x h);
  new = λ x h. elim (q.new x h) [
    | inl old ↦ elim (p.new x old) [ inl older ↦ inl older | inr waits ↦ inr (q.pending x waits) ]
    | inr waits ↦ inr waits
  ];
}

take_file-Grown :
    (g : Text) (sets : List Text × List Text)
    → Grown sets (take_file g sets) × (contains g (take_file g sets).0 ≡ true)
take_file-Grown g (e, p) = elim (Bool-cases (contains g e)) [
  | inl old ↦ rw old (Grown-refl (e, p), old)
  | inr fresh ↦ rw fresh (
    record {
      expanded = λ x h. ground (arith, h);
      pending = λ x h. ground (arith, h);
      new = λ x h. elim (Bool-cases (same g x)) [
        | inl this ↦ inr (rw this refl)
        | inr other ↦ inl (ground (arith, other, h))
      ];
    },
    contains_first g e,
  )
]

module _ (files : Dict Text) (f : Text) where
  take_dependencies-Grown :
      (names : List Text) (sets last : List Text × List Text)
      → take_dependencies files f names sets ≡ ok last
      → Grown sets last × Provided files last.0 names
  unfolding take_dependencies
  take_dependencies-Grown [] sets last h = (
    subst (Grown sets) (ok_value (take_dependencies files f [] sets) sets last refl h)
        (Grown-refl sets),
    tt,
  )
  take_dependencies-Grown (d ∷ names) sets last h =
      let (g, here, later) =
        went_through (or_unavailable f d (find d files))
          (λ found. take_dependencies files f names (take_file found sets)) h in
      let (step, inside) = take_file-Grown g sets in
      let (rest, provided) = take_dependencies-Grown names (take_file g sets) last later in
      (
        Grown-trans sets (take_file g sets) last step rest,
        ((g, available f d g (find d files) here, rest.expanded g inside), provided),
      )

module _ (file_to_internal files : Dict Text) (dependencies : Dict (List Text)) where
  -- The file's dependencies are known and their files are among the expanded.
  pub record IsComplete (expanded : List Text) (f : Text) : Type 0 where
    pub internal : Text
    pub names : List Text
    pub named : find f file_to_internal ≡ some internal
    pub listed : find internal dependencies ≡ some names
    pub provided : Provided files expanded names

  IsComplete-Within : (e e' : List Text) (f : Text) → Within e e' → IsComplete e f → IsComplete e' f
  IsComplete-Within e e' f w c = record {
    internal = c.internal;
    names = c.names;
    named = c.named;
    listed = c.listed;
    provided = Provided-Within files e e' c.names w c.provided;
  }

  round-Grown :
      (f : Text) (sets last : List Text × List Text)
      → expand_round file_to_internal files dependencies f sets ≡ ok last
      → Grown sets last × IsComplete last.0 f
  unfolding expand_round
  round-Grown f sets last h =
      let (internal, known, h1) =
        went_through (or_key_error (find f file_to_internal))
          (λ internal. or_key_error (find internal dependencies) >>= λ names.
            take_dependencies files f names sets)
          h in
      let (names, listed, h2) =
        went_through (or_key_error (find internal dependencies))
          (λ names. take_dependencies files f names sets) h1 in
      let (grown, provided) = take_dependencies-Grown files f names sets last h2 in
      (
        grown,
        record {
          internal = internal;
          names = names;
          named = key_found (find f file_to_internal) internal known;
          listed = key_found (find internal dependencies) names listed;
          provided = provided;
        },
      )

  -- Each expanded file waits or is complete.
  abbrev IsUnderWay : List Text → List Text → Type 0
  IsUnderWay e p = (x : Text) → contains x e ≡ true → (contains x p ≡ true) ⊎ IsComplete e x

  round-IsUnderWay :
      (f : Text) (e p : List Text) (last : List Text × List Text)
      → IsUnderWay e (f ∷ p)
      → Grown (e, p) last
      → IsComplete last.0 f
      → IsUnderWay last.0 last.1
  round-IsUnderWay f e p last before grown complete x h = elim (grown.new x h) [
    | inr waits ↦ inl waits
    | inl old ↦ elim (before x old) [
      | inr done ↦ inr (IsComplete-Within e last.0 x grown.expanded done)
      | inl waits ↦ elim (Bool-cases (same f x)) [
        | inl this ↦ inr (subst (IsComplete last.0) (same→≡ f x this) complete)
        | inr other ↦ inl (grown.pending x (ground (arith, other, waits)))
      ]
    ]
  ]

  expand_loop-IsComplete :
      (fuel : ℕ) (e p result : List Text)
      → IsUnderWay e p
      → expand_loop file_to_internal files dependencies fuel e p ≡ ok result
      → Within e result × ((x : Text) → contains x result ≡ true → IsComplete result x)
  unfolding expand_loop
  expand_loop-IsComplete fuel e [] result before h =
      let same_list =
        ok_value (expand_loop file_to_internal files dependencies fuel e []) e result refl h in
      subst (λ r. Within e r × ((x : Text) → contains x r ≡ true → IsComplete r x)) same_list
        (
          λ x inside. inside,
          λ x inside. elim (before x inside) [ inl waits ↦ absurd (cc) | inr done ↦ done ],
        )
  expand_loop-IsComplete zero e (f ∷ p) result before h = absurd (cc)
  expand_loop-IsComplete (suc fuel) e (f ∷ p) result before h =
      let (sets, taken, later) =
        went_through (expand_round file_to_internal files dependencies f (e, p))
          (λ sets. expand_loop file_to_internal files dependencies fuel sets.0 sets.1) h in
      let (grown, complete) = round-Grown f (e, p) sets taken in
      let (within, done) =
        expand_loop-IsComplete fuel sets.0 sets.1 result
          (round-IsUnderWay f e p sets before grown complete) later in
      (λ x inside. within x (grown.expanded x inside), done)

-- The expansion is the least set that has the initial files and, with a file, those of its
-- dependencies.
pub record IsLeast (initial : List Text) (file_to_internal files : Dict Text)
    (dependencies : Dict (List Text)) (result : List Text) : Type 0 where
  pub needed : All (Needed initial file_to_internal files dependencies) result
  pub has_initial : (x : Text) → contains x initial ≡ true → contains x result ≡ true
  pub complete :
      (x : Text)
      → contains x result ≡ true
      → IsComplete file_to_internal files dependencies result x

-- An expansion that went through is the least set that has the initial files and, with a file, the
-- files of its dependencies, for the dictionary from internal names to files.
pub expand_dependency_filenames-IsLeast :
    (initial : List Text) (file_to_internal : Dict Text) (dependencies : Dict (List Text))
    (result : List Text)
    → expand_dependency_filenames initial file_to_internal dependencies ≡ ok result
    → (files : Dict Text) × (inverse file_to_internal [] ≡ ok files)
      × IsLeast initial file_to_internal files dependencies result
unfolding expand_dependency_filenames
expand_dependency_filenames-IsLeast initial file_to_internal dependencies result h =
    let (files, inverted, later) =
      went_through (inverse file_to_internal [])
        (λ files.
          expand_loop file_to_internal files dependencies (length initial + length files) initial
            initial)
        h in
    let (within, complete) =
      expand_loop-IsComplete file_to_internal files dependencies (length initial + length files)
        initial initial result (λ x inside. inl inside) later in
    (
      files,
      inverted,
      record {
        needed = loop_needed initial file_to_internal files dependencies result later;
        has_initial = within;
        complete = complete;
      },
    )
