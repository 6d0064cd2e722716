-- ===== src/Installer/Scenarios.antt =====
-- Command lines, and the tools that they start.
use ubuntu_install_on_samsun.Prelude.{
  ◌≡◌, refl, Bool, true, false, none, some, [], ◌∷◌, ◌++◌, All, err,
}
use ubuntu_install_on_samsun.Installer.{
  Tool, stage_bundle_local, prepare_staged_install, authorize_staged_install, usage, tool_failed,
  Options, workflow, install_needs_acknowledge,
}
use ubuntu_install_on_samsun.Installer.Gates.{
  authorized, gates, Passes, HasSource, IsUsable, authorization_gated,
}

abbrev every : Tool → Bool
every _ = true

abbrev not_prepare : Tool → Bool
not_prepare prepare_staged_install = false
not_prepare _ = true

abbrev from_tablet_install : Options
from_tablet_install = record {
  host_bundle = none;
  tablet_bundle = some "/run/ubuntu/bundle";
  staged = false;
  verify_only = false;
  prepare = false;
  install = true;
  acknowledge_stock_recovery = true;
}

abbrev verify : Options
verify = record {
  host_bundle = some "bundle";
  tablet_bundle = none;
  staged = false;
  verify_only = true;
  prepare = false;
  install = false;
  acknowledge_stock_recovery = false;
}

refused :
    (workflow every every (record from_tablet_install { acknowledge_stock_recovery = false })
      ≡ (err (usage install_needs_acknowledge), []))
    × (workflow every not_prepare from_tablet_install
        ≡ (err tool_failed, stage_bundle_local "/run/ubuntu/bundle" ∷ prepare_staged_install ∷ []))
unfolding workflow
refused = (refl, refl)

authorization_gated_example :
    (true ≡ true)
    × (true ≡ true)
    × (false ≡ false)
    × All (Passes every every) (gates from_tablet_install)
    × ((workflow every every from_tablet_install).1
        ≡ gates from_tablet_install ++ authorize_staged_install ∷ [])
unfolding workflow authorized
authorization_gated_example = authorization_gated every every from_tablet_install refl

from_tablet_install-IsUsable : IsUsable from_tablet_install
from_tablet_install-IsUsable = record {
  acts = refl;
  acknowledged = refl;
  source = HasSource.from_tablet "/run/ubuntu/bundle" refl refl refl;
}
