-- ===== src/FirstBoot/Machine.antt =====
-- ubuntu/t630_first_boot.py: the machine that the setup changes, and the atomic write of a file.
pub mod Atomic
use ubuntu_install_on_samsun.Prelude.{
  Bool, ◌||◌, Option, none, some, List, [], ◌∷◌, if◌then◌else◌, Result, ok, err, same,
}
use ubuntu_install_on_samsun.Account.{Text, Entry}
use ubuntu_install_on_samsun.FirstBoot.Profile.{SetupError, os_error}

pub record Machine : Type 0 where
  pub files : Text → Option Text
  pub accounts : Text → Option Entry
  pub groups : List Text
  pub localtime : Option Text

-- A part of the setup: whether it raised, and the machine that it leaves.
abbrev pub Setup : Type 0 → Type 0
Setup A = Machine → Result SetupError A × Machine

abbrev pub continue :
    {A B : Type 0} → Result SetupError A × Machine → (A → Setup B) → Result SetupError B × Machine
continue (ok a, m) next = next a m
continue (err e, m) next = (err e, m)

abbrev pub and_then : {A B : Type 0} → Setup A → (A → Setup B) → Setup B
and_then first next m = continue (first m) next

-- Statements one after the other, up to the first that raises.
abbrev pub in_order : List (Setup (Unit {0})) → Setup (Unit {0})
in_order [] m = (ok tt, m)
in_order (part ∷ parts) m = continue (part m) (λ _. in_order parts)

abbrev pub place : Text → Option Text → (Text → Option Text) → Text → Option Text
place path value files other = if same other path then value else files other

abbrev pub with_files : (Text → Option Text) → Machine → Machine
with_files files m = record m { files = files }

-- The steps of write_atomic that may raise OSError, in their order.
pub data WriteStep : Type 0 where
  make_parent make_temporary set_mode write_value sync rename : WriteStep

-- `temporary` is the name that mkstemp makes for a path, `fails` tells which step of its write
-- raises. A partial write leaves `partial` in the temporary file.
module _ (temporary : Text → Text) (fails : Text → WriteStep → Bool) (partial : Text → Text) where
  abbrev pub unlink_temporary : Text → Machine → Machine
  unlink_temporary path m = with_files (place (temporary path) none m.files) m

  -- os.replace: the target takes the temporary file's value, and its name goes.
  abbrev pub replace_target : Text → Machine → Machine
  replace_target path m =
      with_files (place (temporary path) none (place path (m.files (temporary path)) m.files)) m

  abbrev pub holding : Text → Text → Machine → Machine
  holding path value m = with_files (place (temporary path) (some value) m.files) m

  -- What stands inside the `try`, from the empty temporary file on.
  abbrev pub attempt_write : Text → Text → Setup (Unit {0})
  attempt_write path value m =
      if fails path set_mode
      then (err os_error, m)
      else if fails path write_value
      then (err os_error, holding path (partial value) m)
      else if fails path sync
      then (err os_error, holding path value m)
      else if fails path rename
      then (err os_error, holding path value m)
      else (ok tt, replace_target path (holding path value m))

  abbrev pub finally_unlink :
      Text → Result SetupError (Unit {0}) × Machine → Result SetupError (Unit {0}) × Machine
  finally_unlink path (r, m) = (r, unlink_temporary path m)

  unfoldable pub write_atomic : Text → Text → Setup (Unit {0})
  write_atomic path value m =
      if fails path make_parent || fails path make_temporary
      then (err os_error, m)
      else finally_unlink path (attempt_write path value (holding path [] m))
