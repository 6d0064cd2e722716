-- ===== src/Installer/Gates.antt =====
-- What is known once a tool was started: above all the one that authorizes the installation.
use ubuntu_install_on_samsun.Prelude.{
  String, ◌≡◌, ◌⊎◌, inl, inr, Bool, true, false, ◌||◌, Option, none, some, List, [], ◌∷◌, ◌++◌,
  arith, if◌then◌else◌, Bool-cases, Option-cases, All, ok,
}
use ubuntu_install_on_samsun.Installer.{
  Tool, verify_bundle, stage_bundle, stage_bundle_local, prepare_staged_install,
  authorize_staged_install, Ending, installation_verified, gate_passed, bundle_staged, Options,
  workflow,
}

abbrev is_authorization : Tool → Bool
is_authorization authorize_staged_install = true
is_authorization _ = false

-- The installation was authorized: the tool that formats was started.
unfoldable pub authorized : List Tool → Bool
authorized [] = false
authorized (tool ∷ rest) = is_authorization tool || authorized rest

abbrev local_gates : Options → Option String → List Tool
local_gates o none = []
local_gates o (some bundle) =
    stage_bundle_local bundle ∷ (if o.prepare || o.install then prepare_staged_install ∷ [] else [])

abbrev host_gates : Options → Option String → List Tool
host_gates o (some bundle) = stage_bundle bundle ∷ []
host_gates o none = local_gates o o.tablet_bundle

-- The tools that stand before the authorization, by the options.
unfoldable pub gates : Options → List Tool
gates o =
    if o.staged
    then (if o.prepare then prepare_staged_install ∷ [] else [])
    else host_gates o o.host_bundle

-- What the command line must satisfy for the workflow to begin.
pub data HasSource (o : Options) : Type 0 where
  from_ram : o.staged ≡ true → (o.prepare ≡ true) ⊎ (o.install ≡ true) → HasSource o
  from_host :
      (bundle : String)
      → o.staged ≡ false
      → o.host_bundle ≡ some bundle
      → o.prepare ≡ false
      → HasSource o
  from_tablet :
      (bundle : String)
      → o.staged ≡ false
      → o.host_bundle ≡ none
      → o.tablet_bundle ≡ some bundle
      → HasSource o

pub record IsUsable (o : Options) : Type 0 where
  pub acts : o.verify_only ≡ false
  pub acknowledged : o.install ≡ o.acknowledge_stock_recovery
  pub source : HasSource o

abbrev pub expected_ending : Options → Ending
expected_ending o =
    if o.install then installation_verified else if o.prepare then gate_passed else bundle_staged

module _ (present succeeds : Tool → Bool) where
  abbrev pub Passes : Tool → Type 0
  Passes tool = (present tool ≡ true) × (succeeds tool ≡ true)

  -- The tool that authorizes the installation is started only with --install and
  -- --acknowledge-stock-recovery, without --verify-only, and after every gate of the chosen
  -- source was started in order, was the expected file and succeeded; and nothing else is run.
  pub authorization_gated :
      (o : Options)
      → authorized (workflow present succeeds o).1 ≡ true
      → (o.install ≡ true)
        × (o.acknowledge_stock_recovery ≡ true)
        × (o.verify_only ≡ false)
        × All Passes (gates o)
        × ((workflow present succeeds o).1 ≡ gates o ++ authorize_staged_install ∷ [])
  unfolding workflow authorized gates
  authorization_gated o h = ground arith

  -- A usable command line, when every tool is the expected file and succeeds, ends in success:
  -- with all gates run, then the authorization if it was asked for.
  pub workflow-IsUsable :
      (o : Options)
      → IsUsable o
      → All Passes (gates o)
      → Passes authorize_staged_install
      → workflow present succeeds o ≡ (
        ok (expected_ending o),
        gates o ++ (if o.install then authorize_staged_install ∷ [] else []),
      )
  unfolding workflow gates
  workflow-IsUsable o usable passed final = ground arith

  -- With --verify-only no tool but the bundle's verification is ever started.
  pub verify_only_touches_nothing :
      (o : Options)
      → o.verify_only ≡ true
      → ((workflow present succeeds o).1 ≡ [])
        ⊎ ((bundle : String) × (o.host_bundle ≡ some bundle)
            × ((workflow present succeeds o).1 ≡ verify_bundle bundle ∷ []))
  unfolding workflow
  verify_only_touches_nothing o h = elim (Option-cases o.host_bundle) [
    | inl e ↦ inl (ground arith)
    | inr (bundle, e) ↦ elim (Bool-cases (o.prepare || o.install || o.acknowledge_stock_recovery)) [
      | inl refused ↦ inl (ground arith)
      | inr allowed ↦ elim (Bool-cases (present (verify_bundle bundle))) [
        | inl there ↦ inr (bundle, e, ground arith)
        | inr gone ↦ inl (ground arith)
      ]
    ]
  ]
