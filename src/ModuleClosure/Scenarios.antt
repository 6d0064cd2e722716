-- ===== src/ModuleClosure/Scenarios.antt =====
-- Two modules that need each other, one that is not available, and a small plan.
use ubuntu_install_on_samsun.Prelude.{
  ◌≡◌, refl, ◌≢◌, List, [], ◌∷◌, ok, err, codes, split_from, lines_from,
}
use ubuntu_install_on_samsun.ModuleAbi.{Text, Dict}
use ubuntu_install_on_samsun.ModuleClosure.{
  unresolved, unavailable_dependency, out_of_fuel, duplicate_internal, canonical_name, plan_closure,
  parse_loaded, inverse, take_dependencies, expand_loop, expand_dependency_filenames,
}
use ubuntu_install_on_samsun.ModuleClosure.Plan.{IsPlan, plan_closure-IsPlan}
use ubuntu_install_on_samsun.ModuleClosure.Complete.{IsLeast, expand_dependency_filenames-IsLeast}
use ubuntu_install_on_samsun.ModuleClosure.Expansion.{expand_dependency_filenames_ends}

abbrev a_ko : Text
a_ko = codes "a.ko"

abbrev b_ko : Text
b_ko = codes "b.ko"

abbrev files_of : Text → Dict Text
files_of second = (a_ko, codes "a") ∷ (b_ko, second) ∷ (codes "c.ko", codes "c") ∷ []

abbrev cyclic : Dict (List Text)
cyclic =
    (codes "a", codes "b" ∷ []) ∷ (codes "b", codes "a" ∷ []) ∷ (codes "c", codes "d" ∷ []) ∷ []

expands :
    expand_dependency_filenames (a_ko ∷ []) (files_of (codes "b")) cyclic ≡ ok (b_ko ∷ a_ko ∷ [])
unfolding expand_dependency_filenames expand_loop take_dependencies inverse
expands = refl

unavailable :
    expand_dependency_filenames (codes "c.ko" ∷ []) (files_of (codes "b")) cyclic
    ≡ err (unavailable_dependency (codes "c.ko") (codes "d"))
unfolding expand_dependency_filenames expand_loop take_dependencies inverse
unavailable = refl

named_twice :
    expand_dependency_filenames [] (files_of (codes "a")) cyclic
    ≡ err (duplicate_internal (codes "a"))
unfolding expand_dependency_filenames inverse
named_twice = refl

expand_dependency_filenames_ends_example :
    expand_dependency_filenames (a_ko ∷ []) (files_of (codes "b")) cyclic ≢ err out_of_fuel
expand_dependency_filenames_ends_example =
    expand_dependency_filenames_ends (a_ko ∷ []) (files_of (codes "b")) cyclic

expand_dependency_filenames-IsLeast_example :
    (files : Dict Text) × (inverse (files_of (codes "b")) [] ≡ ok files)
    × IsLeast (a_ko ∷ []) (files_of (codes "b")) files cyclic (b_ko ∷ a_ko ∷ [])
expand_dependency_filenames-IsLeast_example =
    expand_dependency_filenames-IsLeast (a_ko ∷ []) (files_of (codes "b")) cyclic (b_ko ∷ a_ko ∷ [])
      expands

abbrev chosen : List Text
chosen = a_ko ∷ codes "rmnet_shs.ko" ∷ codes "tas256x_dlkm.ko" ∷ codes "qca_cld3_wlan.ko" ∷ []

plans :
    plan_closure chosen (a_ko ∷ codes "tas256x_dlkm.ko" ∷ [])
    ≡ ok (a_ko ∷ codes "qca_cld3_wlan.ko" ∷ [], codes "rmnet_shs.ko" ∷ codes "tas256x_dlkm.ko" ∷ [])
unfolding plan_closure
plans = refl

not_built : plan_closure chosen [] ≡ err (unresolved (a_ko ∷ []))
unfolding plan_closure
not_built = refl

plan_closure-IsPlan_example :
    IsPlan chosen
      (a_ko ∷ codes "tas256x_dlkm.ko" ∷ [])
      (a_ko ∷ codes "qca_cld3_wlan.ko" ∷ [])
      (codes "rmnet_shs.ko" ∷ codes "tas256x_dlkm.ko" ∷ [])
plan_closure-IsPlan_example =
    plan_closure-IsPlan chosen (a_ko ∷ codes "tas256x_dlkm.ko" ∷ [])
      (a_ko ∷ codes "qca_cld3_wlan.ko" ∷ []) (codes "rmnet_shs.ko" ∷ codes "tas256x_dlkm.ko" ∷ [])
      plans

loaded :
    parse_loaded (codes "qca_cld3_wlan 8 0\n\nsnd 1\n") ≡ codes "qca_cld3_wlan" ∷ codes "snd" ∷ []
unfolding lines_from split_from
loaded = refl

canonical : canonical_name (codes "snd-soc-core") ≡ codes "snd_soc_core"
canonical = refl
