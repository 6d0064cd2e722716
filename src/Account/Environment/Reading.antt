-- ===== src/Account/Environment/Reading.antt =====
-- What a POSIX shell makes of the printed environment.
use ubuntu_install_on_samsun.Prelude.{
  ℕ, zero, suc, ◌+◌, ◌-◌, ◌*◌, ◌/◌, ◌%◌, ◌<◌, ◌≡◌, refl, sym, ap, ◌∙◌, inl, inr, Bool, true, false,
  ◌&&◌, ◌||◌, Option, none, some, List, [], ◌∷◌, ◌++◌, append-nil, append_assoc, arith, ltb, leb,
  ◌==◌, if◌then◌else◌, Bool-cases, ==→≡, length, codes, is_digit, digits_value,
}
use ubuntu_install_on_samsun.Account.{Text, is_lower, is_upper, all_of, OwnerAccount}
use ubuntu_install_on_samsun.Account.Locale.{resolve_locale}
use ubuntu_install_on_samsun.Account.Environment.{
  is_bare, escaped, quote, decimal_from, decimal, assignment, joined, shell_environment,
}

-- Where in a word the shell is: outside quotes, inside single or inside double ones.
pub data Quoting : Type 0 where
  bare single double : Quoting

abbrev with_first : ℕ → Option (Text × Text) → Option (Text × Text)
with_first c none = none
with_first c (some (cs, rest)) = some (c ∷ cs, rest)

-- Reads one word up to the end of its line, and gives what stands behind it. None where a quote is
-- not closed, or where the word has a character that the shell would act on.
unfoldable pub read_word : Quoting → Text → Option (Text × Text)
read_word bare [] = some ([], [])
read_word single [] = none
read_word double [] = none
read_word bare (c ∷ cs) =
    let in_single = read_word single cs in
    let in_double = read_word double cs in
    let next = read_word bare cs in
    if c == 10
    then some ([], cs)
    else if c == 39
    then in_single
    else if c == 34
    then in_double
    else if is_bare c
    then with_first c next
    else none
read_word single (c ∷ cs) =
    let ended = read_word bare cs in
    let next = read_word single cs in if c == 39 then ended else with_first c next
read_word double (c ∷ cs) =
    let ended = read_word bare cs in
    let next = read_word double cs in
    if c == 34 then ended else if c == 92 || c == 36 || c == 96 then none else with_first c next

-- The characters of a variable's name.
abbrev is_name_char : ℕ → Bool
is_name_char c = is_lower c || is_upper c || (leb 48 c && leb c 57) || c == 95

-- Reads the name of a variable and the sign behind it.
unfoldable pub read_name : Text → Option (Text × Text)
read_name [] = none
read_name (c ∷ cs) =
    let next = read_name cs in
    if c == 61 then some ([], cs) else if is_name_char c then with_first c next else none

abbrev pub with_pair : Text → Text → Option (List (Text × Text)) → Option (List (Text × Text))
with_pair name value none = none
with_pair name value (some values) = some ((name, value) ∷ values)

abbrev pub with_value :
    Text → Option (Text × Text) → (Text → Option (List (Text × Text))) → Option (List (Text × Text))
with_value name none later = none
with_value name (some (value, rest)) later = with_pair name value (later rest)

-- Reads so many assignments, with nothing behind them.
unfoldable pub read_assignments : ℕ → Text → Option (List (Text × Text))
read_assignments zero [] = some []
read_assignments zero (c ∷ cs) = none
read_assignments (suc n) text = elim (read_name text) [
  | none ↦ none
  | some (name, rest) ↦ with_value name (read_word bare rest) (read_assignments n)
]

-- A bare character is none that the test refuses.
is_bare_distinct : (c d : ℕ) → is_bare d ≡ false → is_bare c ≡ true → (c == d) ≡ false
is_bare_distinct c d refused bare_c = elim (Bool-cases (c == d)) [
  | inl h ↦ let same_char : c ≡ d = ==→≡ c d h in absurd (cc)
  | inr h ↦ h
]

and_left : (a b : Bool) → (a && b) ≡ true → (a ≡ true) × (b ≡ true)
and_left true b h = (refl, h)
and_left false b h = cc

refused : (is_bare 39 ≡ false) × (is_bare 34 ≡ false) × (is_bare 10 ≡ false)
unfolding is_bare
refused = (refl, refl, refl)

module _ (tail after : Text) (ends : read_word bare tail ≡ some ([], after)) where
  bare-read_word :
      (cs : Text) → all_of is_bare cs ≡ true → read_word bare (cs ++ tail) ≡ some (cs, after)
  unfolding read_word
  bare-read_word [] h = ends
  bare-read_word (c ∷ cs) h =
      let both = and_left (is_bare c) (all_of is_bare cs) h in
      let rest : read_word bare (cs ++ tail) ≡ some (cs, after) = bare-read_word cs both.1 in
      let no_quote = is_bare_distinct c 39 refused.0 both.0 in
      let no_double = is_bare_distinct c 34 refused.1 both.0 in
      let no_end = is_bare_distinct c 10 refused.2 both.0 in
      rw no_end (rw no_quote (rw no_double (rw both.0 (rw rest refl))))

  escaped-read_word : (cs : Text) → read_word single (escaped cs ++ (39 ∷ tail)) ≡ some (cs, after)
  unfolding read_word
  escaped-read_word [] = ends
  escaped-read_word (c ∷ cs) =
      let rest : read_word single (escaped cs ++ (39 ∷ tail)) ≡ some (cs, after) =
        escaped-read_word cs in
      elim (Bool-cases (c == 39)) [
        | inl h ↦ let at : c ≡ 39 = ==→≡ c 39 h in rw h (rw rest (rw at refl))
        | inr h ↦ rw h (rw h (rw rest refl))
      ]

  -- A shell reads a quoted text as the word that was quoted, whatever its characters.
  quote-read_word : (cs : Text) → read_word bare (quote cs ++ tail) ≡ some (cs, after)
  unfolding quote read_word
  quote-read_word [] = ends
  quote-read_word (c ∷ cs) = elim (Bool-cases (all_of is_bare (c ∷ cs))) [
    | inl h ↦ rw h (bare-read_word (c ∷ cs) h)
    | inr h ↦
        rw h (rw (append_assoc (escaped (c ∷ cs)) (codes "'") tail) (escaped-read_word (c ∷ cs)))
  ]

name-read_name :
    (name rest : Text)
    → all_of is_name_char name ≡ true
    → read_name (name ++ (codes "=" ++ rest)) ≡ some (name, rest)
unfolding read_name
name-read_name [] rest h = refl
name-read_name (c ∷ cs) rest h =
    let both = and_left (is_name_char c) (all_of is_name_char cs) h in
    let later : read_name (cs ++ (codes "=" ++ rest)) ≡ some (cs, rest) =
      name-read_name cs rest both.1 in
    let no_sign : (c == 61) ≡ false = ground arith in rw no_sign (rw both.0 (rw later refl))

named-read_assignments :
    (n : ℕ) (text name rest : Text)
    → read_name text ≡ some (name, rest)
    → read_assignments (suc n) text ≡ with_value name (read_word bare rest) (read_assignments n)
unfolding read_assignments
named-read_assignments n text name rest h = rw (read_assignments, h) refl

-- One assignment and the end of its line.
module _ (name value tail after : Text) (ends : read_word bare tail ≡ some ([], after))
    (named : all_of is_name_char name ≡ true) where
  assignment-read_assignments :
      (n : ℕ)
      → read_assignments (suc n) (assignment (name, value) ++ tail)
        ≡ with_pair name value (read_assignments n after)
  assignment-read_assignments n =
      let text = name ++ (codes "=" ++ (quote value ++ tail)) in
      ap (read_assignments (suc n)) (append_assoc name (codes "=" ++ quote value) tail)
      ∙ named-read_assignments n text name (quote value ++ tail)
          (name-read_name name (quote value ++ tail) named)
      ∙ ap (λ word. with_value name word (read_assignments n))
          (quote-read_word tail after ends value)

abbrev all_named : List (Text × Text) → Bool
all_named [] = true
all_named ((name, value) ∷ values) = all_of is_name_char name && all_named values

joined-read_assignments :
    (values : List (Text × Text))
    → all_named values ≡ true
    → read_assignments (length values) (joined values) ≡ some values
unfolding joined read_assignments read_word
joined-read_assignments [] h = refl
joined-read_assignments ((name, value) ∷ []) h =
    let named = and_left (all_of is_name_char name) true h in
    ap (read_assignments 1) (sym (append-nil (assignment (name, value))))
    ∙ assignment-read_assignments name value [] [] refl named.0 0
joined-read_assignments ((name, value) ∷ w ∷ values) h =
    let named = and_left (all_of is_name_char name) (all_named (w ∷ values)) h in
    assignment-read_assignments name value (10 ∷ joined (w ∷ values)) (joined (w ∷ values)) refl
      named.0 (length (w ∷ values))
    ∙ rw (joined-read_assignments (w ∷ values) named.1) refl

decimal_from-digits_value :
    (fuel n : ℕ) (rest : Text) (later : Bool)
    → n < fuel
    → digits_value later 0 (decimal_from fuel n rest) ≡ digits_value true n rest
unfolding decimal_from digits_value
decimal_from-digits_value zero n rest later h = absurd (omega arith)
decimal_from-digits_value (suc fuel) n rest later h = elim (Bool-cases (ltb n 10)) [
  | inl last ↦
      let digit : is_digit (48 + n) ≡ true = ground arith in
      let value : 0 * 10 + (48 + n - 48) ≡ n = omega arith in
      rw last (rw digit (ap (λ x. digits_value true x rest) value))
  | inr more ↦
      let digit : is_digit (48 + n % 10) ≡ true = ground arith in
      let value : n / 10 * 10 + (48 + n % 10 - 48) ≡ n = omega arith in
      let smaller : n / 10 < fuel = ground arith in
      let first = decimal_from-digits_value fuel (n / 10) ((48 + n % 10) ∷ rest) later smaller in
      rw more (first ∙ rw digit (ap (λ x. digits_value true x rest) value))
]

decimal-digits_value : (n : ℕ) → digits_value false 0 (decimal n) ≡ some n
unfolding digits_value
decimal-digits_value n = decimal_from-digits_value (suc n) n [] false (omega arith)

-- A shell that reads the printed environment sets exactly the five variables, to the owner's name,
-- user and group number and home and to the locale, whatever characters they have; and the two
-- numbers, read as integers, are those of the account.
pub shell_environment-read_assignments :
    (account : OwnerAccount) (config : Option Text)
    → (read_assignments 5 (shell_environment account config)
        ≡ some (
            (codes "T630_OWNER", account.username)
            ∷ (codes "T630_OWNER_UID", decimal account.uid)
            ∷ (codes "T630_OWNER_GID", decimal account.gid)
            ∷ (codes "T630_OWNER_HOME", account.home)
            ∷ (codes "T630_LOCALE", resolve_locale config)
            ∷ []))
      × (digits_value false 0 (decimal account.uid) ≡ some account.uid)
      × (digits_value false 0 (decimal account.gid) ≡ some account.gid)
unfolding shell_environment
shell_environment-read_assignments account config = (
  joined-read_assignments _ refl,
  decimal-digits_value account.uid,
  decimal-digits_value account.gid,
)
