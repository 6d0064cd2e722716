-- ===== src/FirstBoot/Apply/Commit.antt =====
-- ubuntu/t630_first_boot.py: the owner file is committed last.
use mathlib.Core.Path.{subst}
use ubuntu_install_on_samsun.Prelude.{
  ◌≤◌, ◌<◌, ◌≡◌, refl, ap, ◌∙◌, inl, inr, Bool, true, false, Option, none, some, List, [], ◌∷◌,
  ◌++◌, map, arith, Bool-cases, All, Result, ok, err, ◌>>◌, went_through, codes, same, same_refl,
}
use ubuntu_install_on_samsun.Account.{
  Text, Entry, account_of, is_username, expected_home, normpath, refuses_login, resolve_owner,
}
use ubuntu_install_on_samsun.Account.Plain.{strip_line}
use ubuntu_install_on_samsun.Account.Owner.{IsHuman, IsHuman-resolve_owner}
use ubuntu_install_on_samsun.FirstBoot.Profile.{SetupProfile, SetupError, Zone, validate_profile}
use ubuntu_install_on_samsun.FirstBoot.Machine.{Machine, Setup, continue, in_order}
use ubuntu_install_on_samsun.FirstBoot.Machine.Atomic.{
  landed, write_atomic-lands, write_atomic-spares,
}
use ubuntu_install_on_samsun.FirstBoot.Apply.{
  Command, owner_path, run_checked, run_plan, check_identity, initialize_machine_identity,
  link_localtime, store, accept, check_machine, check_password, set_up_steps, commit, checked,
  apply_profile, command_plan, Surroundings,
}

-- The part leaves the owner file as it was, however it ends.
abbrev pub Spares : {A : Type 0} → Setup A → Type 0
Spares part = (m : Machine) → (part m).1.files owner_path ≡ m.files owner_path

continue-Spares :
    {A B : Type 0} (r : Result SetupError A × Machine) (next : A → Setup B)
    → ((a : A) → Spares (next a))
    → (continue r next).1.files owner_path ≡ r.1.files owner_path
continue-Spares (ok a, m) next spared = spared a m
continue-Spares (err e, m) next spared = refl

in_order-Spares : (parts : List (Setup (Unit {0}))) → All Spares parts → Spares (in_order parts)
in_order-Spares [] spared m = refl
in_order-Spares (part ∷ parts) (first, rest) m =
    continue-Spares (part m) (λ _. in_order parts) (λ _. in_order-Spares parts rest) ∙ first m

-- What the last write of a sequence makes of the owner file.
continue_last :
    {A : Type 0} (r : Result SetupError A × Machine) (last : Setup (Unit {0})) (value : Text)
    (before : Option Text)
    → ((m : Machine) → (last m).1.files owner_path ≡ landed (last m).0 value (m.files owner_path))
    → r.1.files owner_path ≡ before
    → (continue r (λ _. last)).1.files owner_path ≡ landed (continue r (λ _. last)).0 value before
continue_last (ok a, m) last value before lands spared =
    subst (λ x. (last m).1.files owner_path ≡ landed (last m).0 value x) spared (lands m)
continue_last (err e, m) last value before lands spared = spared

-- Outside the setup nothing writes the owner file: no command does, and the names that mkstemp
-- makes are others.
pub record LeaveOwner (world : Surroundings) : Type 0 where
  pub aside : (path : Text) → same owner_path (world.temporary path) ≡ false
  pub commands :
      (command : Command) (input : Option Text) (m : Machine)
      → (world.execute command input m).1.files owner_path ≡ m.files owner_path

checked_file :
    (r : Bool × Machine) (world : Surroundings)
    → (checked world r).1.files owner_path ≡ r.1.files owner_path
checked_file (done, m) world = refl

module _ (world : Surroundings) (outside : LeaveOwner world) where
  run_checked-Spares :
      (command : Command) (input : Option Text) → Spares (run_checked world command input)
  unfolding run_checked
  run_checked-Spares command input m =
      checked_file (world.execute command input m) world ∙ outside.commands command input m

  commands-Spares :
      (commands : List Command)
      → All Spares (map (λ command. run_checked world command none) commands)
  commands-Spares [] = tt
  commands-Spares (command ∷ commands) = (run_checked-Spares command none, commands-Spares commands)

  run_plan-Spares :
      (profile : SetupProfile) (account_exists : Bool)
      → Spares (run_plan world profile account_exists)
  unfolding run_plan
  run_plan-Spares profile account_exists m =
      let plan = command_plan m.groups profile account_exists in
      in_order-Spares (map (λ command. run_checked world command none) plan) (commands-Spares plan)
        m

  store-lands :
      (value : Text) (m : Machine)
      → (store world owner_path value m).1.files owner_path
        ≡ landed (store world owner_path value m).0 value (m.files owner_path)
  unfolding store
  store-lands value m =
      write_atomic-lands world.temporary world.fails world.partial owner_path value
        (outside.aside owner_path) m

  store-Spares :
      (path value : Text) → same owner_path path ≡ false → Spares (store world path value)
  unfolding store
  store-Spares path value other m =
      write_atomic-spares world.temporary world.fails world.partial path value m owner_path other
        (outside.aside path)

  link_localtime-Spares : (profile : SetupProfile) → Spares (link_localtime world profile)
  unfolding link_localtime
  link_localtime-Spares profile m = ground arith

  initialize_machine_identity-Spares : Spares (initialize_machine_identity world)
  unfolding initialize_machine_identity
  initialize_machine_identity-Spares m =
      let setup = codes "/usr/bin/systemd-machine-id-setup" ∷ [] in
      continue-Spares (run_checked world setup none m) (check_identity world) (λ _ m'. refl)
      ∙ run_checked-Spares setup none m

  set_up_steps-Spares :
      (profile : SetupProfile) (password : Text) (account_exists : Bool)
      → All Spares (set_up_steps world profile password account_exists)
  unfolding set_up_steps
  set_up_steps-Spares profile password account_exists = (
    run_plan-Spares profile account_exists,
    (
      run_checked-Spares _ _,
      (
        run_checked-Spares _ _,
        (
          store-Spares _ _ refl,
          (
            store-Spares _ _ refl,
            (
              store-Spares _ _ refl,
              (
                store-Spares _ _ refl,
                (
                  link_localtime-Spares profile,
                  (
                    run_checked-Spares _ _,
                    (initialize_machine_identity-Spares, (store-Spares _ _ refl, tt)),
                  ),
                ),
              ),
            ),
          ),
        ),
      ),
    ),
  )

  commit_accepted :
      (profile : SetupProfile) (password : Text) (m : Machine) (r : Result SetupError Bool)
      → (continue (r, m) (commit world profile password)).1.files owner_path
        ≡ landed
            (continue (r, m) (commit world profile password)).0
            (profile.username ++ codes "\n")
            (m.files owner_path)
  unfolding commit
  commit_accepted profile password m (err e) = refl
  commit_accepted profile password m (ok account_exists) =
      continue_last (in_order (set_up_steps world profile password account_exists) m)
        (store world owner_path (profile.username ++ codes "\n")) (profile.username ++ codes "\n")
        (m.files owner_path) (store-lands (profile.username ++ codes "\n"))
        (in_order-Spares (set_up_steps world profile password account_exists)
          (set_up_steps-Spares profile password account_exists) m)

  -- However the setup ends, the owner file holds the profile's user name if every step went
  -- through, and what it held before otherwise, when nothing outside the setup writes it.
  pub apply_profile-commits :
      (profile : SetupProfile) (password : Text) (m : Machine)
      → (apply_profile world profile password m).1.files owner_path
        ≡ landed
            (apply_profile world profile password m).0
            (profile.username ++ codes "\n")
            (m.files owner_path)
  unfolding apply_profile
  apply_profile-commits profile password m =
      commit_accepted profile password m (accept world profile password m)

accepted_first :
    {A : Type 0} (r : Result SetupError A) (m : Machine) (next : A → Setup (Unit {0}))
    → (continue (r, m) next).0 ≡ ok tt
    → (a : A) × (r ≡ ok a)
accepted_first (ok a) m next h = (a, refl)
accepted_first (err e) m next h = cc

went_valid :
    (zoneinfo : Text → Zone) (profile : SetupProfile)
    → validate_profile zoneinfo profile ≡ ok tt
    → is_username profile.username ≡ true
unfolding validate_profile
went_valid zoneinfo profile h = elim (Bool-cases (is_username profile.username)) [
  | inl valid ↦ valid
  | inr invalid ↦ absurd (ground (arith, invalid, h))
]

module _ (world : Surroundings) (outside : LeaveOwner world) (profile : SetupProfile)
    (password : Text) (m : Machine)
    (done : (apply_profile world profile password m).0 ≡ ok tt) where
  accept_done : (b : Bool) × (accept world profile password m ≡ ok b)
  unfolding apply_profile
  accept_done =
      accepted_first (accept world profile password m) m (commit world profile password) done

  abbrev after_machine : Result SetupError Bool
  after_machine = do
    validate_profile world.zoneinfo profile
    check_password world profile password m

  name_valid : is_username profile.username ≡ true
  unfolding accept
  name_valid =
      let (b, accepted) = accept_done in
      let (_, _, later) = went_through (check_machine world m) (λ _. after_machine) accepted in
      let (_, valid, _) =
        went_through (validate_profile world.zoneinfo profile)
          (λ _. check_password world profile password m) later in
      went_valid world.zoneinfo profile valid

  owner_written :
      (apply_profile world profile password m).1.files owner_path
      ≡ some (profile.username ++ codes "\n")
  owner_written =
      apply_profile-commits world outside profile password m
      ∙ ap (λ r. landed r (profile.username ++ codes "\n") (m.files owner_path)) done

  -- The device services resolve the owner that a completed setup left, when nothing outside the
  -- setup writes the owner file and the account that then has the name is a person's: numbers
  -- from 1000, the home folder of the name, and a shell to log in with.
  pub apply_profile-resolve_owner :
      (entry : Entry)
      → (apply_profile world profile password m).1.accounts profile.username ≡ some entry
      → 1000 ≤ entry.pw_uid
      → entry.pw_uid < 60000
      → 1000 ≤ entry.pw_gid
      → same (normpath entry.pw_dir) (expected_home profile.username) ≡ true
      → refuses_login entry.pw_shell ≡ false
      → resolve_owner
          (apply_profile world profile password m).1.accounts
          ((apply_profile world profile password m).1.files owner_path)
        ≡ ok (account_of entry)
  apply_profile-resolve_owner entry known low high group at_home logs_in =
      let accounts = (apply_profile world profile password m).1.accounts in
      let raw = profile.username ++ codes "\n" in
      let human : IsHuman accounts raw (account_of entry) = record {
        name = profile.username;
        entry = entry;
        one_line = same_refl raw;
        valid_name = name_valid;
        known = known;
        low = low;
        high = high;
        group = group;
        at_home = at_home;
        logs_in = logs_in;
        taken = refl;
      } in
      rw owner_written (
        IsHuman-resolve_owner accounts raw (account_of entry) human
          (strip_line profile.username name_valid))
