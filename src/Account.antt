-- ===== src/Account.antt =====
-- ubuntu/t630_account.py: the owner account that the device services run for, and the session's
-- locale. Texts are lists of code points; `getpwnam` and the contents of the two files (none
-- where reading raises OSError) are arguments.
pub mod Owner
pub mod Locale
pub mod Environment
pub mod Plain
mod Scenarios
use ubuntu_install_on_samsun.Prelude.{
  ℕ, Bool, true, false, not, ◌&&◌, ◌||◌, Option, none, some, List, [], ◌∷◌, ◌++◌, ltb, leb, ◌==◌,
  if◌then◌else◌, length, Result, ok, err, ◌>>=◌, ◌>>◌, raise_if, codes, same, is_digit, is_space,
}

abbrev pub Text : Type 0
Text = List ℕ

abbrev pub is_lower : ℕ → Bool
is_lower c = leb 97 c && leb c 122

abbrev pub is_upper : ℕ → Bool
is_upper c = leb 65 c && leb c 90

abbrev pub all_of : (ℕ → Bool) → Text → Bool
all_of test [] = true
all_of test (c ∷ cs) = test c && all_of test cs

-- [a-z0-9_-]
abbrev pub is_name_rest : ℕ → Bool
is_name_rest c = is_lower c || is_digit c || c == 95 || c == 45

-- USERNAME.fullmatch
unfoldable pub is_username : Text → Bool
is_username [] = false
is_username (c ∷ cs) = (is_lower c || c == 95) && all_of is_name_rest cs && leb (length cs) 31

-- \.UTF-8\Z
abbrev utf_8 : Text → Bool
utf_8 cs = same cs (codes ".UTF-8")

-- (?:_[A-Z]{2})?\.UTF-8\Z
abbrev territory : Text → Bool
territory (a ∷ b ∷ c ∷ cs) =
    (a == 95 && is_upper b && is_upper c && utf_8 cs) || utf_8 (a ∷ b ∷ c ∷ cs)
territory cs = utf_8 cs

-- [a-z]{2,3}(?:_[A-Z]{2})?\.UTF-8\Z, which the first-boot backend names LOCALE.
unfoldable pub is_language_locale : Text → Bool
is_language_locale (a ∷ b ∷ c ∷ cs) =
    is_lower a && is_lower b && (territory (c ∷ cs) || (is_lower c && territory cs))
is_language_locale _ = false

-- LOCALE.fullmatch
unfoldable pub is_locale : Text → Bool
unfolding is_language_locale
is_locale cs = same cs (codes "C.UTF-8") || is_language_locale cs

-- `str.isspace` of one character.
unfoldable pub is_white : ℕ → Bool
is_white c =
    is_space c
    || c == 133
    || c == 160
    || c == 5760
    || (leb 8192 c && leb c 8202)
    || c == 8232
    || c == 8233
    || c == 8239
    || c == 8287
    || c == 12288

unfoldable pub lstrip : Text → Text
lstrip [] = []
lstrip (c ∷ cs) = let rest = lstrip cs in if is_white c then rest else c ∷ cs

abbrev pub keep_unless_white : ℕ → Text → Text
keep_unless_white c [] = if is_white c then [] else c ∷ []
keep_unless_white c (d ∷ ds) = c ∷ d ∷ ds

unfoldable pub rstrip : Text → Text
rstrip [] = []
rstrip (c ∷ cs) = keep_unless_white c (rstrip cs)

-- `str.strip()`
abbrev pub strip : Text → Text
strip cs = rstrip (lstrip cs)

abbrev pub starts_with : Text → Text → Bool
starts_with [] cs = true
starts_with (p ∷ ps) [] = false
starts_with (p ∷ ps) (c ∷ cs) = p == c && starts_with ps cs

-- `text.split(separator)` for a separator of one character; `part` is the part so far.
unfoldable pub parts_at : ℕ → Text → Text → List Text
parts_at separator part [] = part ∷ []
parts_at separator part (c ∷ cs) =
    let ended = part ∷ parts_at separator [] cs in
    let longer = parts_at separator (part ++ c ∷ []) cs in if c == separator then ended else longer

abbrev pub join : Text → List Text → Text
join separator [] = []
join separator (x ∷ []) = x
join separator (x ∷ y ∷ rest) = x ++ (separator ++ join separator (y ∷ rest))

-- The components that `os.path.normpath` keeps, the last one first.
abbrev step_component : Bool → List Text → Text → List Text
step_component rooted [] part = if rooted then [] else part ∷ []
step_component rooted (last ∷ kept) part =
    if same last (codes "..") then part ∷ last ∷ kept else kept

abbrev add_component : Bool → List Text → Text → List Text
add_component rooted kept part =
    if same part [] || same part (codes ".")
    then kept
    else if same part (codes "..")
    then step_component rooted kept part
    else part ∷ kept

abbrev kept_components : Bool → List Text → List Text → List Text
kept_components rooted kept [] = kept
kept_components rooted kept (part ∷ parts) =
    kept_components rooted (add_component rooted kept part) parts

abbrev reverse_onto : List Text → List Text → List Text
reverse_onto done [] = done
reverse_onto done (x ∷ xs) = reverse_onto (x ∷ done) xs

-- Two slashes at the start are kept, one or more than two are one.
abbrev root_of : Text → Text
root_of path =
    if starts_with (codes "//") path && not (starts_with (codes "///") path)
    then codes "//"
    else if starts_with (codes "/") path
    then codes "/"
    else []

abbrev or_dot : Text → Text
or_dot [] = codes "."
or_dot path = path

-- `os.path.normpath`
unfoldable pub normpath : Text → Text
normpath path = or_dot (
    root_of path
    ++ join (codes "/")
        (reverse_onto [] (kept_components (starts_with (codes "/") path) [] (parts_at 47 [] path))))

-- An entry of the password database, and the fields that an OwnerAccount takes from it.
pub record Entry : Type 0 where
  pub pw_name : Text
  pub pw_uid : ℕ
  pub pw_gid : ℕ
  pub pw_dir : Text
  pub pw_shell : Text

pub record OwnerAccount : Type 0 where
  pub username : Text
  pub uid : ℕ
  pub gid : ℕ
  pub home : Text
  pub shell : Text

pub data AccountError : Type 0 where
  cannot_read not_one_username owner_does_not_exist : AccountError
  not_unprivileged unexpected_home no_interactive_shell : AccountError

abbrev pub account_of : Entry → OwnerAccount
account_of entry = record {
  username = entry.pw_name;
  uid = entry.pw_uid;
  gid = entry.pw_gid;
  home = entry.pw_dir;
  shell = entry.pw_shell;
}

abbrev pub expected_home : Text → Text
expected_home name = codes "/home/" ++ name

-- The shell lets nobody log in.
abbrev pub refuses_login : Text → Bool
refuses_login shell =
    same shell [] || same shell (codes "/bin/false") || same shell (codes "/usr/sbin/nologin")

abbrev or_raise : {A : Type 0} → AccountError → Option A → Result AccountError A
or_raise e none = err e
or_raise e (some a) = ok a

module _ (getpwnam : Text → Option Entry) where
  -- The checks of the entry of one name.
  unfoldable pub check_entry : Text → Entry → Result AccountError OwnerAccount
  check_entry name entry = do
    raise_if (not (leb 1000 entry.pw_uid && ltb entry.pw_uid 60000) || ltb entry.pw_gid 1000)
        not_unprivileged
    raise_if (not (same (normpath entry.pw_dir) (expected_home name))) unexpected_home
    raise_if (refuses_login entry.pw_shell) no_interactive_shell
    ok (account_of entry)

  unfoldable pub resolve_owner : Option Text → Result AccountError OwnerAccount
  resolve_owner config = do
    raw ← or_raise cannot_read config
    raise_if (not (same raw (strip raw ++ codes "\n")) || not (is_username (strip raw)))
        not_one_username
    entry ← or_raise owner_does_not_exist (getpwnam (strip raw))
    check_entry (strip raw) entry
