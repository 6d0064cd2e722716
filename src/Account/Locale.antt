-- ===== src/Account/Locale.antt =====
-- ubuntu/t630_account.py: the locale of the session.
use ubuntu_install_on_samsun.Prelude.{
  ℕ, ◌≡◌, refl, inl, inr, true, ◌&&◌, ◌||◌, Option, none, some, List, [], ◌∷◌, ◌==◌, if◌then◌else◌,
  Bool-cases, length, take, drop, codes, lines_from,
}
use ubuntu_install_on_samsun.Account.{Text, is_locale, starts_with}

-- `[line.removeprefix("LANG=") for line in lines if line.startswith("LANG=")]`
abbrev lang_values : List Text → List Text
lang_values [] = []
lang_values (line ∷ lines) =
    if starts_with (codes "LANG=") line then drop 5 line ∷ lang_values lines else lang_values lines

abbrev last_of : ℕ → Text → ℕ
last_of c [] = c
last_of c (d ∷ ds) = last_of d ds

-- The part between two equal quotes, or all of a value that has none.
abbrev unquoted : Text → Text
unquoted (c ∷ d ∷ ds) =
    if c == last_of d ds && (c == 34 || c == 39) then take (length ds) (d ∷ ds) else c ∷ d ∷ ds
unquoted value = value

abbrev c_utf_8 : Text
c_utf_8 = codes "C.UTF-8"

abbrev accepted : Text → Text
accepted value = if is_locale value then value else c_utf_8

abbrev the_locale : List Text → Text
the_locale (value ∷ []) = accepted (unquoted value)
the_locale _ = c_utf_8

unfoldable pub resolve_locale : Option Text → Text
resolve_locale none = c_utf_8
resolve_locale (some text) = the_locale (lang_values (lines_from [] text))

accepted-is_locale : (value : Text) → is_locale (accepted value) ≡ true
unfolding is_locale
accepted-is_locale value = elim (Bool-cases (is_locale value)) [
  | inl h ↦ rw h h
  | inr h ↦ rw h refl
]

the_locale-is_locale : (values : List Text) → is_locale (the_locale values) ≡ true
unfolding is_locale
the_locale-is_locale [] = refl
the_locale-is_locale (value ∷ []) = accepted-is_locale (unquoted value)
the_locale-is_locale (value ∷ other ∷ values) = refl

-- Whatever the file holds, the locale is one that the pattern accepts.
pub resolve_locale-is_locale : (config : Option Text) → is_locale (resolve_locale config) ≡ true
unfolding resolve_locale is_locale
resolve_locale-is_locale none = refl
resolve_locale-is_locale (some text) = the_locale-is_locale (lang_values (lines_from [] text))
