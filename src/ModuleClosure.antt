-- ===== src/ModuleClosure.antt =====
-- tools/audit_waydroid_module_closure.py: which modules the payload takes, and the modules that
-- those depend on. A set is a list; `pending` is a stack, its last element first.
pub mod Plan
pub mod Expansion
pub mod Needed
pub mod Complete
mod Scenarios
use ubuntu_install_on_samsun.ModuleAbi.{Text, Dict, find, put, insert, sorted}
use ubuntu_install_on_samsun.Prelude.{
  ℕ, zero, suc, ◌+◌, ◌-◌, ◌*◌, ◌/◌, ◌%◌, ◌^◌, ◌≤◌, ◌<◌, min, max, String, ◌≡◌, refl, sym, ap, ◌∙◌,
  ◌≢◌, ◌↔◌, ◌⊎◌, inl, inr, Bool, true, false, not, ◌&&◌, ◌||◌, Option, none, some, List, [], ◌∷◌,
  ◌++◌, map, append-nil, append_assoc, arith, ltb, leb, ◌==◌, if◌then◌else◌, Bool-cases,
  Option-cases, is_some, tests, ==→≡, length, get_elem?, take, drop, length-append,
  take-append-drop, All, Result, ok, err, ◌>>=◌, ◌>>◌, raise_if, went_through, Result-cases, ℤ, pos,
  negsuc, pos_part, neg_part, leb_ℤ, round_div, passes_below, table_entry, codes, is_ascii, same,
  same_refl, same→≡, is_digit, is_space, split, to_int, split_from, digits_value, lines_from,
}

abbrev pub contains : Text → List Text → Bool
contains name [] = false
contains name (x ∷ xs) = same x name || contains name xs

-- `value.replace("-", "_")`
abbrev pub canonical_name : Text → Text
canonical_name [] = []
canonical_name (c ∷ cs) = (if c == 45 then 95 else c) ∷ canonical_name cs

pub data ClosureError : Type 0 where
  duplicate_basename : Text → ClosureError
  unresolved : List Text → ClosureError
  duplicate_internal : Text → ClosureError
  unavailable_dependency : Text → Text → ClosureError
  key_error out_of_fuel : ClosureError

-- The entries are the names of the paths, with the paths.
unfoldable pub unique_by_name : Dict Text → Dict Text → Result ClosureError (Dict Text)
unique_by_name [] result = ok result
unique_by_name ((name, path) ∷ paths) result = do
  raise_if (is_some (find name result)) (duplicate_basename name)
  unique_by_name paths (put name path result)

abbrev pub wlan_module : Text
wlan_module = codes "qca_cld3_wlan.ko"

abbrev pub unused_other_product_modules : List Text
unused_other_product_modules = codes "tas256x_dlkm.ko" ∷ []

abbrev pub permitted_unused_modules : List Text
permitted_unused_modules =
    codes "rmnet_core.ko"
    ∷ codes "rmnet_ctl.ko"
    ∷ codes "rmnet_offload.ko"
    ∷ codes "rmnet_shs.ko"
    ∷ unused_other_product_modules

-- Membership in `eligible_built | {"qca_cld3_wlan.ko"}`.
abbrev pub is_coverable : List Text → Text → Bool
is_coverable built name =
    (contains name built && not (contains name unused_other_product_modules))
    || same name wlan_module

abbrev pub keep_if : (Text → Bool) → List Text → List Text
keep_if test [] = []
keep_if test (x ∷ xs) = let rest = keep_if test xs in if test x then x ∷ rest else rest

abbrev pub is_unexpected : Text → Bool
is_unexpected name = not (contains name permitted_unused_modules)

abbrev pub unless_unexpected :
    List Text → List Text × List Text → Result ClosureError (List Text × List Text)
unless_unexpected [] plan = ok plan
unless_unexpected (x ∷ xs) plan = err (unresolved (sorted (x ∷ xs)))

unfoldable pub plan_closure : List Text → List Text → Result ClosureError (List Text × List Text)
plan_closure selected built =
    let covered = keep_if (is_coverable built) selected in
    let missing = keep_if (λ x. not (is_coverable built x)) selected in
    unless_unexpected (keep_if is_unexpected missing) (covered, missing)

abbrev first_field : List Text → List Text → List Text
first_field [] loaded = loaded
first_field (field ∷ fields) loaded = field ∷ loaded

abbrev loaded_names : List Text → List Text
loaded_names [] = []
loaded_names (line ∷ lines) = first_field (split line) (loaded_names lines)

abbrev pub parse_loaded : Text → List Text
parse_loaded text = loaded_names (lines_from [] text)

-- The file of each internal name.
unfoldable pub inverse : Dict Text → Dict Text → Result ClosureError (Dict Text)
inverse [] internal_to_file = ok internal_to_file
inverse ((file, internal) ∷ files) internal_to_file = do
  raise_if (is_some (find internal internal_to_file)) (duplicate_internal internal)
  inverse files (put internal file internal_to_file)

abbrev pub or_key_error : {A : Type 0} → Option A → Result ClosureError A
or_key_error none = err key_error
or_key_error (some a) = ok a

-- The sets `expanded` and `pending` while a module's dependencies are taken.
abbrev pub take_file : Text → List Text × List Text → List Text × List Text
take_file file (expanded, pending) =
    if contains file expanded then (expanded, pending) else (file ∷ expanded, file ∷ pending)

abbrev pub or_unavailable : Text → Text → Option Text → Result ClosureError Text
or_unavailable file dependency none = err (unavailable_dependency file dependency)
or_unavailable file dependency (some dependency_file) = ok dependency_file

unfoldable pub take_dependencies :
    Dict Text
    → Text
    → List Text
    → List Text × List Text
    → Result ClosureError (List Text × List Text)
take_dependencies internal_to_file file [] sets = ok sets
take_dependencies internal_to_file file (dependency ∷ rest) sets = do
  found ← or_unavailable file dependency (find dependency internal_to_file)
  take_dependencies internal_to_file file rest (take_file found sets)

module _ (file_to_internal internal_to_file : Dict Text) (dependencies : Dict (List Text)) where
  -- One round of the loop, after `file` has been popped.
  abbrev pub expand_round :
      Text → List Text × List Text → Result ClosureError (List Text × List Text)
  unfolding take_dependencies
  expand_round file sets = do
    internal ← or_key_error (find file file_to_internal)
    names ← or_key_error (find internal dependencies)
    take_dependencies internal_to_file file names sets

  unfoldable pub expand_loop : ℕ → List Text → List Text → Result ClosureError (List Text)
  unfolding expand_round
  expand_loop fuel expanded [] = ok expanded
  expand_loop zero expanded (file ∷ pending) = err out_of_fuel
  expand_loop (suc fuel) expanded (file ∷ pending) = do
    sets ← expand_round file (expanded, pending)
    expand_loop fuel sets.0 sets.1

unfoldable pub expand_dependency_filenames :
    List Text → Dict Text → Dict (List Text) → Result ClosureError (List Text)
unfolding inverse expand_loop
expand_dependency_filenames initial file_to_internal dependencies = do
  internal_to_file ← inverse file_to_internal []
  expand_loop file_to_internal internal_to_file dependencies
      (length initial + length internal_to_file) initial initial
