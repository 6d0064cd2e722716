-- ===== src/FirstBoot/Machine/Atomic.antt =====
-- ubuntu/t630_first_boot.py: write_atomic, whichever of its steps fails.
use ubuntu_install_on_samsun.Prelude.{
  ◌≡◌, Bool, false, Option, none, some, arith, Result, ok, err, same, same_refl,
}
use ubuntu_install_on_samsun.Account.{Text}
use ubuntu_install_on_samsun.FirstBoot.Profile.{SetupError}
use ubuntu_install_on_samsun.FirstBoot.Machine.{Machine, WriteStep, write_atomic}

-- What is at a path after a write: the new text if it went through, else what was there.
abbrev pub landed : {A : Type 0} → Result SetupError A → Text → Option Text → Option Text
landed (ok _) value before = some value
landed (err _) value before = before

module _ (temporary : Text → Text) (fails : Text → WriteStep → Bool) (partial : Text → Text)
    (path value : Text) (apart : same path (temporary path) ≡ false) where
  abbrev written : Machine → Result SetupError (Unit {0}) × Machine
  written = write_atomic temporary fails partial path value

  -- The path holds all of the new text after a success, and what it held before after a failure
  -- at any step; the temporary file has another name.
  pub write_atomic-lands :
      (m : Machine) → (written m).1.files path ≡ landed (written m).0 value (m.files path)
  unfolding write_atomic
  write_atomic-lands m = ground (arith, apart, same_refl path, same_refl (temporary path))

  -- No temporary file is left, if none had the name before.
  pub write_atomic-cleans :
      (m : Machine) → m.files (temporary path) ≡ none → (written m).1.files (temporary path) ≡ none
  unfolding write_atomic
  write_atomic-cleans m fresh = ground (arith, fresh, same_refl (temporary path))

-- No other file changes.
pub write_atomic-spares :
    (temporary : Text → Text) (fails : Text → WriteStep → Bool) (partial : Text → Text)
    (path value : Text) (m : Machine) (other : Text)
    → same other path ≡ false
    → same other (temporary path) ≡ false
    → (write_atomic temporary fails partial path value m).1.files other ≡ m.files other
unfolding write_atomic
write_atomic-spares temporary fails partial path value m other p q = ground (arith, p, q)
