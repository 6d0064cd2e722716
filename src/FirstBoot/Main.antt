-- ===== src/FirstBoot/Main.antt =====
-- ubuntu/t630_first_boot.py: the command line. The profile's file is read and parsed outside.
use ubuntu_install_on_samsun.Prelude.{Bool, [], ◌∷◌, ◌==◌, if◌then◌else◌, Result, ok, err}
use ubuntu_install_on_samsun.Account.{Text}
use ubuntu_install_on_samsun.FirstBoot.Profile.{SetupProfile, SetupError, validate_profile}
use ubuntu_install_on_samsun.FirstBoot.Machine.{Machine}
use ubuntu_install_on_samsun.FirstBoot.Apply.{Surroundings, apply_profile}

-- What is printed before the exit with 0, or the message of the exit with 1.
pub data Ending : Type 0 where
  profile_valid first_boot_complete : Ending
  exit_1 : SetupError → Ending

-- `password[:-1]` if it ends with a newline.
abbrev without_newline : Text → Text
without_newline [] = []
without_newline (c ∷ []) = if c == 10 then [] else c ∷ []
without_newline (c ∷ d ∷ cs) = c ∷ without_newline (d ∷ cs)

abbrev ended : Result SetupError (Unit {0}) × Machine → Ending × Machine
ended (ok _, m) = (first_boot_complete, m)
ended (err e, m) = (exit_1 e, m)

module _ (world : Surroundings) where
  abbrev with_valid :
      SetupProfile → Bool → Text → Machine → Result SetupError (Unit {0}) → Ending × Machine
  with_valid profile validate_only typed m (err e) = (exit_1 e, m)
  with_valid profile validate_only typed m (ok _) =
      if validate_only
      then (profile_valid, m)
      else ended (apply_profile world profile (without_newline typed) m)

  -- `payload`: the profile in the file, or the exception of reading it; `typed`: what is read from
  -- the standard input.
  pub main : Result SetupError SetupProfile → Bool → Text → Machine → Ending × Machine
  main (err e) validate_only typed m = (exit_1 e, m)
  main (ok profile) validate_only typed m =
      with_valid profile validate_only typed m (validate_profile world.zoneinfo profile)
