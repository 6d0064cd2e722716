-- ===== src/Prelude/Bytes.antt =====
-- Byte strings as lists of numbers, and the parts of Python's str that the programs call on ASCII.
use Prim.Native.Nat.{ℕ, zero, suc, ◌+◌, ◌-◌, ◌*◌}
use Prim.Native.Char.{code}
use Prim.Native.String.{String}
use mathlib.Core.Bool.{Bool, true, false, ◌&&◌, ◌||◌}
use mathlib.Core.Option.{Option, none, some}
use mathlib.Core.List.{List, [], ◌∷◌, ◌++◌}
use ubuntu_install_on_samsun.Prelude.Tests.{ltb, leb, ◌==◌, if◌then◌else◌, ==→≡}
use native.Mathlib.Omega.{arith}
use mathlib.Core.Path.{◌≡◌, refl}
use ubuntu_install_on_samsun.Prelude.Int.{ℤ, pos, negsuc}

-- The code points of a literal.
abbrev pub codes : String → List ℕ
codes String.[] = []
codes (String.◌∷◌ c s) = code c ∷ codes s

-- `==` on two byte strings.
abbrev pub same : List ℕ → List ℕ → Bool
same [] [] = true
same (x ∷ xs) (y ∷ ys) = x == y && same xs ys
same _ _ = false

pub same_refl : (xs : List ℕ) → same xs xs ≡ true
same_refl [] = refl
same_refl (x ∷ xs) = let rest : same xs xs ≡ true = same_refl xs in ground (arith, rest)

pub same→≡ : (xs ys : List ℕ) → same xs ys ≡ true → xs ≡ ys
same→≡ [] [] h = refl
same→≡ [] (y ∷ ys) h = cc
same→≡ (x ∷ xs) [] h = cc
same→≡ (x ∷ xs) (y ∷ ys) h =
    let heads : x ≡ y = ==→≡ x y (ground arith) in
    let tails : xs ≡ ys = same→≡ xs ys (ground arith) in cc

-- `decode("ascii")` accepts it.
abbrev pub is_ascii : List ℕ → Bool
is_ascii [] = true
is_ascii (c ∷ cs) = ltb c 128 && is_ascii cs

abbrev pub is_digit : ℕ → Bool
is_digit c = leb 48 c && leb c 57

-- `str.isspace` on ASCII: tab to carriage return, the four separators, and space.
abbrev pub is_space : ℕ → Bool
is_space c = (leb 9 c && leb c 13) || (leb 28 c && leb c 31) || c == 32

abbrev push : List ℕ → List (List ℕ) → List (List ℕ)
push [] tokens = tokens
push token tokens = token ∷ tokens

-- `split()`: the maximal runs of characters that are no white space; `token` is the run so far.
unfoldable pub split_from : List ℕ → List ℕ → List (List ℕ)
split_from token [] = push token []
split_from token (c ∷ cs) =
    let run = split_from (token ++ c ∷ []) cs in
    let next = push token (split_from [] cs) in if is_space c then next else run

abbrev pub split : List ℕ → List (List ℕ)
split = split_from []

-- The digits of `int(…)`, with the single underscores that it allows between two of them.
-- `after` says whether a digit stands just before.
unfoldable pub digits_value : Bool → ℕ → List ℕ → Option ℕ
digits_value after n [] = if after then some n else none
digits_value after n (c ∷ cs) =
    let digit = digits_value true (n * 10 + (c - 48)) cs in
    let underscore = digits_value false n cs in
    if is_digit c then digit else if after && c == 95 then underscore else none

abbrev negated : Option ℕ → Option ℤ
negated none = none
negated (some zero) = some (pos zero)
negated (some (suc n)) = some (negsuc n)

abbrev signed : Option ℕ → Option ℤ
signed none = none
signed (some n) = some (pos n)

-- `int(token)`, none for ValueError.
abbrev pub to_int : List ℕ → Option ℤ
to_int [] = none
to_int (c ∷ cs) =
    if c == 45
    then negated (digits_value false 0 cs)
    else if c == 43
    then signed (digits_value false 0 cs)
    else signed (digits_value false 0 (c ∷ cs))

-- The characters at which `str.splitlines` ends a line.
abbrev is_line_end : ℕ → Bool
is_line_end c =
    (leb 10 c && leb c 13) || (leb 28 c && leb c 30) || c == 133 || c == 8232 || c == 8233

abbrev push_line : List ℕ → List (List ℕ) → List (List ℕ)
push_line [] lines = lines
push_line (c ∷ line) lines = (c ∷ line) ∷ lines

-- `line` is the line so far; an end of line after a carriage return is one with it.
unfoldable pub lines_from : List ℕ → List ℕ → List (List ℕ)
lines_from line [] = push_line line []
lines_from line (c ∷ []) = if is_line_end c then line ∷ [] else (line ++ c ∷ []) ∷ []
lines_from line (c ∷ d ∷ cs) =
    let longer = lines_from (line ++ c ∷ []) (d ∷ cs) in
    let after = lines_from [] (d ∷ cs) in
    let after_both = lines_from [] cs in
    if is_line_end c then line ∷ (if c == 13 && d == 10 then after_both else after) else longer
