-- ===== src/FirstBoot/Scenarios.antt =====
-- The setup of one profile: it completes, or a command fails.
use ubuntu_install_on_samsun.Prelude.{
  String, ◌≡◌, refl, inl, inr, Bool, true, false, not, Option, none, some, [], ◌∷◌, ◌++◌, arith,
  if◌then◌else◌, Bool-cases, ok, err, codes, same,
}
use ubuntu_install_on_samsun.Account.{
  Text, Entry, account_of, is_username, is_language_locale, is_white, lstrip, rstrip, parts_at,
  normpath, expected_home, resolve_owner,
}
use ubuntu_install_on_samsun.FirstBoot.Profile.{
  SetupProfile, subprocess_error, inside, is_hostname, is_keyboard, is_timezone, validate_profile,
  validate_password,
}
use ubuntu_install_on_samsun.FirstBoot.Machine.{
  Machine, place, with_files, rename, WriteStep, write_atomic,
}
use ubuntu_install_on_samsun.FirstBoot.Machine.Atomic.{landed, write_atomic-lands}
use ubuntu_install_on_samsun.FirstBoot.Apply.{
  Command, Surroundings, owner_path, command_plan, apply_profile, commit, set_up_steps,
  initialize_machine_identity, link_localtime, store, run_plan, run_checked, accept, check_machine,
}
use ubuntu_install_on_samsun.FirstBoot.Apply.Commit.{
  LeaveOwner, apply_profile-commits, apply_profile-resolve_owner,
}

abbrev profile : SetupProfile
profile = record {
  username = codes "mia";
  full_name = codes "Mia Muster";
  hostname = codes "tablet-1";
  timezone = codes "Europe/Berlin";
  locale = codes "en_US.UTF-8";
  keyboard_layout = codes "us";
  location_services = false;
  large_text = false;
  high_contrast = false;
  screen_reader = false;
}

abbrev account : Entry
account = record {
  pw_name = codes "mia";
  pw_uid = 1000;
  pw_gid = 1000;
  pw_dir = codes "/home/mia";
  pw_shell = codes "/bin/bash";
}

abbrev with_account : Machine → Machine
with_account m = record m {
  accounts = λ name. if same name (codes "mia") then some account else none;
}

abbrev machine_id : Text
machine_id = codes "/etc/machine-id"

abbrev with_machine_id : Machine → Machine
with_machine_id m =
    with_files (place machine_id (some (codes "0123456789abcdef0123456789abcdef\n")) m.files) m

abbrev is_call : String → Command → Bool
is_call tool [] = false
is_call tool (word ∷ words) = same word (codes tool)

-- useradd adds the account, the identity tool writes its file, `broken` fails.
abbrev run : String → Command → Option Text → Machine → Bool × Machine
run broken command input m = (
  not (is_call broken command),
  if is_call "/usr/sbin/useradd" command
      then with_account m
      else if is_call "/usr/bin/systemd-machine-id-setup" command
      then with_machine_id m
      else m,
)

abbrev temporary : Text → Text
temporary path = codes "." ++ path

abbrev world : String → Surroundings
world broken = record {
  euid = 0;
  zoneinfo = λ _. inside;
  temporary = temporary;
  fails = λ _ _. false;
  partial = λ _. [];
  unlink_fails = false;
  link_fails = false;
  dumps = λ _. codes "{}";
  execute = run broken;
}

abbrev start : Machine
start = record {
  files =
      place (codes "/etc/t630-install-id") (some (codes "SM-T630-T630XXSBDZE3-Ubuntu-v1\n"))
        (λ _. none);
  accounts = λ _. none;
  groups = codes "sudo" ∷ codes "video" ∷ [];
  localtime = none;
}

run_spares :
    (broken : String) (command : Command) (input : Option Text) (m : Machine)
    → (run broken command input m).1.files owner_path ≡ m.files owner_path
run_spares broken command input m = elim (Bool-cases (is_call "/usr/sbin/useradd" command)) [
  | inl h ↦ rw h refl
  | inr h ↦ elim (Bool-cases (is_call "/usr/bin/systemd-machine-id-setup" command)) [
    | inl k ↦ rw h (rw k refl)
    | inr k ↦ rw h (rw k refl)
  ]
]

outside : (broken : String) → LeaveOwner (world broken)
outside broken = record { aside = λ path. refl; commands = run_spares broken }

abbrev password : Text
password = codes "sesame-8"

abbrev after : String → Machine
after broken = (apply_profile (world broken) profile password start).1

completes : (apply_profile (world "") profile password start).0 ≡ ok tt
unfolding apply_profile commit set_up_steps initialize_machine_identity link_localtime store
    write_atomic run_plan run_checked accept check_machine command_plan is_username
    is_language_locale is_white lstrip rstrip is_hostname is_keyboard is_timezone validate_profile
    validate_password
completes = refl

fails_late : (apply_profile (world "/bin/hostname") profile password start).0 ≡ err subprocess_error
unfolding apply_profile commit set_up_steps initialize_machine_identity link_localtime store
    write_atomic run_plan run_checked accept check_machine command_plan is_username
    is_language_locale is_white lstrip rstrip is_hostname is_keyboard is_timezone validate_profile
    validate_password
fails_late = refl

added : (after "").accounts (codes "mia") ≡ some account
unfolding apply_profile commit set_up_steps initialize_machine_identity link_localtime store
    write_atomic run_plan run_checked accept check_machine command_plan is_username
    is_language_locale is_white lstrip rstrip is_hostname is_keyboard is_timezone validate_profile
    validate_password
added = refl

at_home : same (normpath account.pw_dir) (expected_home profile.username) ≡ true
unfolding normpath parts_at
at_home = refl

apply_profile-commits_example :
    (after "/bin/hostname").files owner_path
    ≡ landed (apply_profile (world "/bin/hostname") profile password start).0 (codes "mia\n") none
apply_profile-commits_example =
    apply_profile-commits (world "/bin/hostname") (outside "/bin/hostname") profile password start

apply_profile-resolve_owner_example :
    resolve_owner (after "").accounts ((after "").files owner_path) ≡ ok (account_of account)
apply_profile-resolve_owner_example =
    apply_profile-resolve_owner (world "") (outside "") profile password start completes account
      added (omega arith) (omega arith) (omega arith) at_home refl

-- A rename that fails.
abbrev rename_fails : Text → WriteStep → Bool
rename_fails path rename = true
rename_fails path _ = false

abbrev target : Text
target = codes "/etc/hostname"

write_atomic-lands_example :
    (write_atomic temporary rename_fails (λ _. []) target (codes "new") start).1.files target
    ≡ landed
        (write_atomic temporary rename_fails (λ _. []) target (codes "new") start).0
        (codes "new")
        none
write_atomic-lands_example =
    write_atomic-lands temporary rename_fails (λ _. []) target (codes "new") refl start
