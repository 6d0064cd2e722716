-- ===== src/Account/Scenarios.antt =====
-- The owner file of one user, and its environment for a shell.
use ubuntu_install_on_samsun.Prelude.{
  false, ℕ, ◌≡◌, refl, Option, none, some, if◌then◌else◌, ok, err, codes, same, lines_from,
  digits_value, [], ◌∷◌,
}
use ubuntu_install_on_samsun.Account.{
  Text, OwnerAccount, Entry, account_of, not_unprivileged, not_one_username, is_username,
  is_language_locale, is_white, lstrip, rstrip, parts_at, normpath, is_locale, check_entry,
  resolve_owner,
}
use ubuntu_install_on_samsun.Account.Owner.{IsHuman, resolve_owner-IsHuman}
use ubuntu_install_on_samsun.Account.Locale.{resolve_locale}
use ubuntu_install_on_samsun.Account.Environment.{decimal, shell_environment}
use ubuntu_install_on_samsun.Account.Environment.Reading.{
  read_assignments, shell_environment-read_assignments,
}

abbrev entry_of : ℕ → Entry
entry_of uid = record {
  pw_name = codes "mia";
  pw_uid = uid;
  pw_gid = 1000;
  pw_dir = codes "/home//mia/";
  pw_shell = codes "/bin/bash";
}

abbrev accounts : ℕ → Text → Option Entry
accounts uid name = if same name (codes "mia") then some (entry_of uid) else none

resolves : resolve_owner (accounts 1000) (some (codes "mia\n")) ≡ ok (account_of (entry_of 1000))
unfolding is_username is_white lstrip rstrip parts_at normpath check_entry resolve_owner
resolves = refl

refuses_system : resolve_owner (accounts 999) (some (codes "mia\n")) ≡ err not_unprivileged
unfolding is_username is_white lstrip rstrip parts_at normpath check_entry resolve_owner
refuses_system = refl

refuses_space : resolve_owner (accounts 1000) (some (codes "mia \n")) ≡ err not_one_username
unfolding is_username is_white lstrip rstrip parts_at normpath check_entry resolve_owner
refuses_space = refl

resolve_owner-IsHuman_example : IsHuman (accounts 1000) (codes "mia\n") (account_of (entry_of 1000))
resolve_owner-IsHuman_example =
    resolve_owner-IsHuman (accounts 1000) (codes "mia\n") (account_of (entry_of 1000)) resolves

abbrev quoted_home : OwnerAccount
quoted_home = record (account_of (entry_of 1000)) { home = codes "/home/o'neil $x" }

shell_environment-read_assignments_example :
    (read_assignments 5 (shell_environment quoted_home none)
      ≡ some (
          (codes "T630_OWNER", codes "mia")
          ∷ (codes "T630_OWNER_UID", decimal 1000)
          ∷ (codes "T630_OWNER_GID", decimal 1000)
          ∷ (codes "T630_OWNER_HOME", codes "/home/o'neil $x")
          ∷ (codes "T630_LOCALE", resolve_locale none)
          ∷ []))
    × (digits_value false 0 (decimal 1000) ≡ some 1000)
    × (digits_value false 0 (decimal 1000) ≡ some 1000)
shell_environment-read_assignments_example = shell_environment-read_assignments quoted_home none

one_locale : resolve_locale (some (codes "LANG=\"de_DE.UTF-8\"\n")) ≡ codes "de_DE.UTF-8"
unfolding is_language_locale is_locale lines_from resolve_locale
one_locale = refl

two_locales : resolve_locale (some (codes "LANG=de_DE.UTF-8\nLANG=fr_FR.UTF-8\n")) ≡ codes "C.UTF-8"
unfolding is_language_locale is_locale lines_from resolve_locale
two_locales = refl
