-- ===== src/FirstBoot/Apply.antt =====
-- ubuntu/t630_first_boot.py: the commands of the setup, and apply_profile, which runs them.
pub mod Commit
use ubuntu_install_on_samsun.Prelude.{
  ℕ, Bool, true, false, not, ◌&&◌, ◌||◌, Option, none, some, List, [], ◌∷◌, ◌++◌, map, ltb, leb,
  ◌==◌, if◌then◌else◌, is_some, length, Result, ok, err, ◌>>=◌, ◌>>◌, raise_if, codes, same,
  is_digit,
}
use ubuntu_install_on_samsun.Account.{Text, Entry, all_of, strip, expected_home, join}
use ubuntu_install_on_samsun.FirstBoot.Profile.{
  SetupProfile, SetupError, owner_group, validate_profile, validate_password, Zone, os_error,
  subprocess_error, existing_not_unprivileged, existing_unexpected_home,
  machine_identity_not_created, machine_identity_invalid, not_root, not_validated_installation,
  already_complete,
}
use ubuntu_install_on_samsun.FirstBoot.Machine.{
  Machine, Setup, and_then, continue, in_order, WriteStep, write_atomic,
}

abbrev pub contains : Text → List Text → Bool
contains name [] = false
contains name (x ∷ xs) = same name x || contains name xs

abbrev pub existing : List Text → List Text → List Text
existing [] known = []
existing (name ∷ names) known =
    if contains name known then name ∷ existing names known else existing names known

abbrev pub optional_groups : List Text
optional_groups =
    codes "audio"
    ∷ codes "video"
    ∷ codes "input"
    ∷ codes "render"
    ∷ codes "plugdev"
    ∷ codes "netdev"
    ∷ codes "sudo"
    ∷ []

abbrev pub groups_for_owner : List Text → List Text
groups_for_owner known = owner_group ∷ existing optional_groups known

abbrev pub Command : Type 0
Command = List Text

abbrev pub add_group : List Text → List Command
add_group known =
    if contains owner_group known
    then []
    else (codes "/usr/sbin/groupadd" ∷ codes "--system" ∷ owner_group ∷ []) ∷ []

abbrev pub add_user : SetupProfile → Bool → List Command
add_user profile account_exists =
    if account_exists
    then []
    else (codes "/usr/sbin/useradd"
        ∷ codes "--create-home"
        ∷ codes "--user-group"
        ∷ codes "--shell"
        ∷ codes "/bin/bash"
        ∷ codes "--comment"
        ∷ profile.full_name
        ∷ profile.username
        ∷ [])
      ∷ []

abbrev pub join_groups : List Text → SetupProfile → Command
join_groups known profile =
    codes "/usr/sbin/usermod"
    ∷ codes "--append"
    ∷ codes "--groups"
    ∷ join (codes ",") (groups_for_owner known)
    ∷ profile.username
    ∷ []

unfoldable pub command_plan : List Text → SetupProfile → Bool → List Command
command_plan known profile account_exists =
    add_group known ++ (add_user profile account_exists ++ join_groups known profile ∷ [])

-- The entry that the name of the profile has, if any, is that of an owner.
abbrev pub check_existing : SetupProfile → Option Entry → Result SetupError Bool
check_existing profile none = ok false
check_existing profile (some entry) = do
  raise_if (not (leb 1000 entry.pw_uid && ltb entry.pw_uid 60000)) existing_not_unprivileged
  raise_if (not (same entry.pw_dir (expected_home profile.username))) existing_unexpected_home
  ok true

abbrev pub is_hex : ℕ → Bool
is_hex c = is_digit c || (leb 97 c && leb c 102)

-- MACHINE_ID.fullmatch
abbrev pub is_machine_id : Text → Bool
is_machine_id cs = all_of is_hex cs && length cs == 32

abbrev pub check_machine_id : Option Text → Result SetupError (Unit {0})
check_machine_id none = err machine_identity_not_created
check_machine_id (some value) =
    raise_if (not (same value (strip value ++ codes "\n")) || not (is_machine_id (strip value)))
      machine_identity_invalid

abbrev pub install_id : Text
install_id = codes "SM-T630-T630XXSBDZE3-Ubuntu-v1"

abbrev pub check_install_id : Option Text → Result SetupError (Unit {0})
check_install_id none = err os_error
check_install_id (some text) =
    raise_if (not (same (strip text) install_id)) not_validated_installation

abbrev pub owner_path : Text
owner_path = codes "/etc/t630/owner"

abbrev pub keyboard_text : SetupProfile → Text
keyboard_text profile =
    codes "XKBLAYOUT=\"" ++ (profile.keyboard_layout ++ codes "\"\nXKBVARIANT=\"\"\n")

-- What the setup meets outside: `dumps` is `json.dumps` of the profile with sorted keys;
-- `execute` runs a command with what it reads on its standard input and tells whether it ended
-- with 0 within 30 seconds; `unlink_fails`, `link_fails`: the old link of the time zone cannot be
-- removed, the new one not made; the others are those of validate_profile and write_atomic.
pub record Surroundings : Type 0 where
  pub euid : ℕ
  pub zoneinfo : Text → Zone
  pub temporary : Text → Text
  pub fails : Text → WriteStep → Bool
  pub partial : Text → Text
  pub unlink_fails : Bool
  pub link_fails : Bool
  pub dumps : SetupProfile → Text
  pub execute : Command → Option Text → Machine → Bool × Machine

module _ (world : Surroundings) where
  abbrev pub checked : Bool × Machine → Result SetupError (Unit {0}) × Machine
  checked (done, m) = (if done then ok tt else err subprocess_error, m)

  unfoldable pub run_checked : Command → Option Text → Setup (Unit {0})
  run_checked command secret_input m = checked (world.execute command secret_input m)

  unfoldable pub run_plan : SetupProfile → Bool → Setup (Unit {0})
  unfolding run_checked
  run_plan profile account_exists m =
      in_order
        (map (λ command. run_checked command none) (command_plan m.groups profile account_exists)) m

  abbrev pub check_identity : Unit {0} → Setup (Unit {0})
  check_identity _ m = (check_machine_id (m.files (codes "/etc/machine-id")), m)

  unfoldable pub initialize_machine_identity : Setup (Unit {0})
  unfolding run_checked
  initialize_machine_identity =
      and_then (run_checked (codes "/usr/bin/systemd-machine-id-setup" ∷ []) none) check_identity

  unfoldable pub link_localtime : SetupProfile → Setup (Unit {0})
  link_localtime profile m =
      if world.unlink_fails
      then (err os_error, m)
      else if world.link_fails
      then (err os_error, record m { localtime = none })
      else (ok tt, record m { localtime = some (codes "/usr/share/zoneinfo/" ++ profile.timezone) })

  unfoldable pub store : Text → Text → Setup (Unit {0})
  store = write_atomic world.temporary world.fails world.partial

  -- The machine is the validated one and has no owner yet.
  unfoldable pub check_machine : Machine → Result SetupError (Unit {0})
  check_machine m = do
    raise_if (not (world.euid == 0)) not_root
    check_install_id (m.files (codes "/etc/t630-install-id"))
    raise_if (is_some (m.files owner_path)) already_complete

  abbrev pub check_password : SetupProfile → Text → Machine → Result SetupError Bool
  check_password profile password m = do
    validate_password password
    check_existing profile (m.accounts profile.username)

  -- The guards that come before the first change, and whether the account exists.
  unfoldable pub accept : SetupProfile → Text → Machine → Result SetupError Bool
  unfolding check_machine
  accept profile password m = do
    check_machine m
    validate_profile world.zoneinfo profile
    check_password profile password m

  -- From the first command to the profile's record.
  unfoldable pub set_up_steps : SetupProfile → Text → Bool → List (Setup (Unit {0}))
  unfolding run_plan run_checked store link_localtime initialize_machine_identity
  set_up_steps profile password account_exists =
      run_plan profile account_exists
      ∷ run_checked (codes "/usr/sbin/chpasswd" ∷ [])
          (some (profile.username ++ (codes ":" ++ (password ++ codes "\n"))))
      ∷ run_checked (codes "/usr/sbin/locale-gen" ∷ profile.locale ∷ []) none
      ∷ store (codes "/etc/hostname") (profile.hostname ++ codes "\n")
      ∷ store (codes "/etc/timezone") (profile.timezone ++ codes "\n")
      ∷ store (codes "/etc/default/locale") (codes "LANG=" ++ (profile.locale ++ codes "\n"))
      ∷ store (codes "/etc/default/keyboard") (keyboard_text profile)
      ∷ link_localtime profile
      ∷ run_checked (codes "/bin/hostname" ∷ profile.hostname ∷ []) none
      ∷ initialize_machine_identity
      ∷ store (codes "/etc/t630/first-boot-profile.json") (world.dumps profile ++ codes "\n")
      ∷ []

  -- What follows the guards; the owner file is written last.
  unfoldable pub commit : SetupProfile → Text → Bool → Setup (Unit {0})
  unfolding set_up_steps store
  commit profile password account_exists =
      and_then (in_order (set_up_steps profile password account_exists))
        (λ _. store owner_path (profile.username ++ codes "\n"))

  unfoldable pub apply_profile : SetupProfile → Text → Setup (Unit {0})
  unfolding accept commit
  apply_profile profile password m =
      continue (accept profile password m, m) (commit profile password)
