-- ===== src/Account/Environment.antt =====
-- ubuntu/t630_account.py: the environment that is printed for a shell to read.
pub mod Reading
use ubuntu_install_on_samsun.Prelude.{
  ℕ, zero, suc, ◌+◌, ◌-◌, ◌*◌, ◌/◌, ◌%◌, ◌^◌, ◌≤◌, ◌<◌, min, max, String, ◌≡◌, refl, sym, ap, ◌∙◌,
  ◌≢◌, ◌↔◌, ◌⊎◌, inl, inr, Bool, true, false, not, ◌&&◌, ◌||◌, Option, none, some, List, [], ◌∷◌,
  ◌++◌, map, append-nil, append_assoc, arith, ltb, leb, ◌==◌, if◌then◌else◌, Bool-cases,
  Option-cases, is_some, tests, ==→≡, length, get_elem?, take, drop, length-append,
  take-append-drop, All, Result, ok, err, ◌>>=◌, ◌>>◌, raise_if, went_through, ok_value, err_value,
  went_wrong, raise_if_spares, Result-cases, ℤ, pos, negsuc, pos_part, neg_part, leb_ℤ, round_div,
  passes_below, table_entry, codes, is_ascii, same, same_refl, same→≡, is_digit, is_space, split,
  to_int, split_from, digits_value, lines_from,
}
use ubuntu_install_on_samsun.Account.{Text, is_name_rest, is_upper, all_of, OwnerAccount}
use ubuntu_install_on_samsun.Account.Locale.{resolve_locale}

-- The characters that `shlex.quote` leaves bare: [\w@%+=:,./-] in ASCII.
unfoldable pub is_bare : ℕ → Bool
is_bare c =
    is_name_rest c
    || is_upper c
    || c == 64
    || c == 37
    || c == 43
    || c == 61
    || c == 58
    || c == 44
    || c == 46
    || c == 47

abbrev escaped : Text → Text
escaped [] = []
escaped (c ∷ cs) = if c == 39 then codes "'\"'\"'" ++ escaped cs else c ∷ escaped cs

abbrev in_quotes : Text → Text
in_quotes cs = codes "'" ++ (escaped cs ++ codes "'")

-- `shlex.quote`
unfoldable pub quote : Text → Text
quote [] = codes "''"
quote (c ∷ cs) = if all_of is_bare (c ∷ cs) then c ∷ cs else in_quotes (c ∷ cs)

-- `str` of an integer that is not negative, in front of `rest`; every round drops a digit.
unfoldable pub decimal_from : ℕ → ℕ → Text → Text
decimal_from zero n rest = rest
decimal_from (suc fuel) n rest =
    let more = decimal_from fuel (n / 10) ((48 + n % 10) ∷ rest) in
    if ltb n 10 then (48 + n) ∷ rest else more

abbrev pub decimal : ℕ → Text
decimal n = decimal_from (suc n) n []

abbrev pub assignment : Text × Text → Text
assignment (key, value) = key ++ (codes "=" ++ quote value)

-- `"\n".join(...)`
unfoldable pub joined : List (Text × Text) → Text
joined [] = []
joined (v ∷ []) = assignment v
joined (v ∷ w ∷ values) = assignment v ++ (codes "\n" ++ joined (w ∷ values))

unfoldable pub shell_environment : OwnerAccount → Option Text → Text
shell_environment account config = joined (
    (codes "T630_OWNER", account.username)
    ∷ (codes "T630_OWNER_UID", decimal account.uid)
    ∷ (codes "T630_OWNER_GID", decimal account.gid)
    ∷ (codes "T630_OWNER_HOME", account.home)
    ∷ (codes "T630_LOCALE", resolve_locale config)
    ∷ [])
