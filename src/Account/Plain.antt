-- ===== src/Account/Plain.antt =====
-- ubuntu/t630_account.py: a valid user name on a line of its own is read back as it was.
use ubuntu_install_on_samsun.Prelude.{
  ℕ, ◌≤◌, ◌≡◌, refl, Bool, true, false, ◌&&◌, ◌||◌, [], ◌∷◌, ◌++◌, arith, leb, ◌==◌, length, codes,
}
use ubuntu_install_on_samsun.Account.{
  Text, is_lower, all_of, is_name_rest, is_username, is_white, lstrip, rstrip, strip,
  keep_unless_white,
}

name_range : (c : ℕ) → is_name_rest c ≡ true → (45 ≤ c) × (c ≤ 122)
name_range c h = (ground arith, ground arith)

range_dark : (c : ℕ) → 45 ≤ c → c ≤ 122 → is_white c ≡ false
unfolding is_white
range_dark c low high = ground arith

name_dark : (c : ℕ) → is_name_rest c ≡ true → is_white c ≡ false
name_dark c h = range_dark c (name_range c h).0 (name_range c h).1

keep_dark : (c : ℕ) (cs : Text) → is_white c ≡ false → keep_unless_white c cs ≡ c ∷ cs
keep_dark c [] h = rw h refl
keep_dark c (d ∷ ds) h = refl

rstrip_line : (cs : Text) → all_of is_name_rest cs ≡ true → rstrip (cs ++ codes "\n") ≡ cs
unfolding rstrip is_white
rstrip_line [] h = refl
rstrip_line (c ∷ cs) h =
    let head : is_name_rest c ≡ true = ground arith in
    let rest : rstrip (cs ++ codes "\n") ≡ cs = rstrip_line cs (ground arith) in
    rw rest (keep_dark c cs (name_dark c head))

first_rest : (c : ℕ) → (is_lower c || c == 95) ≡ true → is_name_rest c ≡ true
first_rest c h = ground arith

lstrip_dark : (c : ℕ) (cs : Text) → is_white c ≡ false → lstrip (c ∷ cs) ≡ c ∷ cs
unfolding lstrip
lstrip_dark c cs h = rw h refl

first_parts : (a b c : Bool) → (a && b && c) ≡ true → (a ≡ true) × (b ≡ true)
first_parts true true c h = (refl, refl)
first_parts true false c h = cc
first_parts false b c h = cc

pub strip_line : (name : Text) → is_username name ≡ true → strip (name ++ codes "\n") ≡ name
unfolding is_username
strip_line [] h = cc
strip_line (c ∷ cs) h =
    let parts =
      first_parts (is_lower c || c == 95) (all_of is_name_rest cs) (leb (length cs) 31) h in
    let first : is_name_rest c ≡ true = first_rest c parts.0 in
    let whole : all_of is_name_rest (c ∷ cs) ≡ true = rw first parts.1 in
    rw (lstrip_dark c (cs ++ codes "\n") (name_dark c first)) (rstrip_line (c ∷ cs) whole)
