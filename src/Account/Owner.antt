-- ===== src/Account/Owner.antt =====
-- ubuntu/t630_account.py: who resolve_owner accepts.
use ubuntu_install_on_samsun.Prelude.{
  ◌≤◌, ◌<◌, ◌≡◌, refl, inl, inr, Bool, true, false, Option, some, ◌++◌, arith, Option-cases, ok,
  raise_if, codes, same,
}
use ubuntu_install_on_samsun.Account.{
  Text, Entry, OwnerAccount, account_of, expected_home, refuses_login, normpath, strip, is_username,
  check_entry, resolve_owner,
}

-- The account of an unprivileged person: the file is its name on one line, the database has the
-- name, the numbers are those of people, the home is the name's folder and the shell one to log
-- in with.
pub record IsHuman (getpwnam : Text → Option Entry) (raw : Text) (account : OwnerAccount)
    : Type 0 where
  pub name : Text
  pub entry : Entry
  pub one_line : same raw (name ++ codes "\n") ≡ true
  pub valid_name : is_username name ≡ true
  pub known : getpwnam name ≡ some entry
  pub low : 1000 ≤ entry.pw_uid
  pub high : entry.pw_uid < 60000
  pub group : 1000 ≤ entry.pw_gid
  pub at_home : same (normpath entry.pw_dir) (expected_home name) ≡ true
  pub logs_in : refuses_login entry.pw_shell ≡ false
  pub taken : account ≡ account_of entry

not_raised : {E : Type 0} (test : Bool) (e : E) → raise_if test e ≡ ok tt → test ≡ false
not_raised true e h = cc
not_raised false e h = refl

module _ (getpwnam : Text → Option Entry) where
  -- Every account that is resolved is of an unprivileged person.
  pub resolve_owner-IsHuman :
      (raw : Text) (account : OwnerAccount)
      → resolve_owner getpwnam (some raw) ≡ ok account
      → IsHuman getpwnam raw account
  unfolding resolve_owner check_entry
  resolve_owner-IsHuman raw account h = elim (Option-cases (getpwnam (strip raw))) [
    | inl absent ↦ absurd (ground arith)
    | inr (entry, known) ↦ record {
      name = strip raw;
      entry = entry;
      one_line = ground arith;
      valid_name = ground arith;
      known = known;
      low = ground arith;
      high = ground arith;
      group = ground arith;
      at_home = ground arith;
      logs_in = ground arith;
      taken = ground arith;
    }
  ]

  -- Every such account is resolved.
  pub IsHuman-resolve_owner :
      (raw : Text) (account : OwnerAccount)
      → (h : IsHuman getpwnam raw account) → strip raw ≡ h.name
      → resolve_owner getpwnam (some raw) ≡ ok account
  unfolding resolve_owner check_entry
  IsHuman-resolve_owner raw account h plain = rw plain (
      rw h.one_line (
        rw h.valid_name (
          rw h.known
            (rw h.at_home (rw h.logs_in (ground (arith, h.low, h.high, h.group, h.taken)))))))
