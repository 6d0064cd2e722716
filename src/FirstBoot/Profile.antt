-- ===== src/FirstBoot/Profile.antt =====
-- ubuntu/t630_first_boot.py: the profile of the owner and its checks.
use ubuntu_install_on_samsun.Prelude.{
  ℕ, Bool, true, false, not, ◌&&◌, ◌||◌, [], ◌∷◌, ltb, leb, ◌==◌, if◌then◌else◌, length, Result, ok,
  err, ◌>>◌, raise_if, codes, same, is_digit,
}
use ubuntu_install_on_samsun.Account.{
  Text, all_of, is_lower, is_upper, is_username, is_language_locale, strip,
}

pub record SetupProfile : Type 0 where
  pub username : Text
  pub full_name : Text
  pub hostname : Text
  pub timezone : Text
  pub locale : Text
  pub keyboard_layout : Text
  pub location_services : Bool
  pub large_text : Bool
  pub high_contrast : Bool
  pub screen_reader : Bool

-- The messages of SetupError, and the other exceptions that end the setup.
pub data SetupError : Type 0 where
  username_letters reserved_username full_name_space full_name_characters : SetupError
  invalid_computer_name invalid_locale invalid_keyboard invalid_timezone : SetupError
  timezone_not_installed timezone_leaves_directory : SetupError
  password_too_short password_characters : SetupError
  existing_not_unprivileged existing_unexpected_home : SetupError
  machine_identity_not_created machine_identity_invalid : SetupError
  not_root not_validated_installation already_complete : SetupError
  os_error subprocess_error : SetupError

abbrev pub owner_group : Text
owner_group = codes "t630-owner"

-- [a-z0-9]
abbrev is_host_end : ℕ → Bool
is_host_end c = is_lower c || is_digit c

-- [a-z0-9-]{0,61}[a-z0-9] of what follows the first character.
abbrev host_rest : Text → Bool
host_rest [] = false
host_rest (c ∷ []) = is_host_end c
host_rest (c ∷ d ∷ cs) = (is_host_end c || c == 45) && host_rest (d ∷ cs)

-- HOSTNAME.fullmatch
unfoldable pub is_hostname : Text → Bool
is_hostname [] = false
is_hostname (c ∷ []) = is_host_end c
is_hostname (c ∷ d ∷ cs) = is_host_end c && host_rest (d ∷ cs) && leb (length (d ∷ cs)) 62

-- KEYBOARD.fullmatch
unfoldable pub is_keyboard : Text → Bool
is_keyboard [] = false
is_keyboard (c ∷ cs) =
    is_lower c
    && all_of (λ d. is_lower d || is_digit d || d == 95 || d == 45) cs
    && leb (length cs) 15

-- [A-Za-z0-9_+.-]
abbrev is_zone_char : ℕ → Bool
is_zone_char c = is_lower c || is_upper c || is_digit c || c == 95 || c == 43 || c == 46 || c == 45

-- The rest of a zone; `filled`: the part before has a character, `slash`: a slash stood before.
abbrev zone_rest : Bool → Bool → Text → Bool
zone_rest filled slash [] = filled && slash
zone_rest filled slash (c ∷ cs) =
    let after = zone_rest true slash cs in
    let next_part = zone_rest false true cs in
    if is_zone_char c then after else if c == 47 && filled then next_part else false

-- TIMEZONE.fullmatch
unfoldable pub is_timezone : Text → Bool
is_timezone cs = zone_rest false false cs

-- `".." in timezone`
abbrev pub has_double_dot : Text → Bool
has_double_dot [] = false
has_double_dot (c ∷ []) = false
has_double_dot (c ∷ d ∷ cs) = (c == 46 && d == 46) || has_double_dot (d ∷ cs)

abbrev pub is_reserved : Text → Bool
is_reserved name = same name (codes "root") || same name (codes "nobody") || same name owner_group

-- One of the characters that end a line of a password file.
abbrev pub ends_line : ℕ → Bool
ends_line c = c == 10 || c == 13 || c == 0

-- What the time zone directory holds under a name: nothing that resolves, something that is no
-- file below the directory, or a file below it.
pub data Zone : Type 0 where
  missing elsewhere inside : Zone

abbrev check_zone : Zone → Result SetupError (Unit {0})
check_zone missing = err timezone_not_installed
check_zone elsewhere = err timezone_leaves_directory
check_zone inside = ok tt

module _ (zoneinfo : Text → Zone) where
  unfoldable pub validate_profile : SetupProfile → Result SetupError (Unit {0})
  validate_profile profile = do
    raise_if (not (is_username profile.username)) username_letters
    raise_if (is_reserved profile.username) reserved_username
    raise_if
        (same (strip profile.full_name) []
          || not (same profile.full_name (strip profile.full_name)))
        full_name_space
    raise_if
        (ltb 128 (length profile.full_name)
          || not (all_of (λ c. not (c == 58 || ends_line c)) profile.full_name))
        full_name_characters
    raise_if (not (is_hostname profile.hostname) || all_of is_digit profile.hostname)
        invalid_computer_name
    raise_if (not (is_language_locale profile.locale)) invalid_locale
    raise_if (not (is_keyboard profile.keyboard_layout)) invalid_keyboard
    raise_if (not (is_timezone profile.timezone) || has_double_dot profile.timezone)
        invalid_timezone
    check_zone (zoneinfo profile.timezone)

unfoldable pub validate_password : Text → Result SetupError (Unit {0})
validate_password password = do
  raise_if (ltb (length password) 8) password_too_short
  raise_if (ltb 1024 (length password) || not (all_of (λ c. not (ends_line c)) password))
      password_characters
