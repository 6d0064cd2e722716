-- ===== src/Prelude/Blob.antt =====
-- A binary image as a list of bytes: little-endian fields, writes, and blobs that agree outside a
-- range.
use Prim.Native.Nat.{ℕ, zero, suc, ◌+◌, ◌-◌, ◌*◌, ◌≤◌, ◌<◌}
use mathlib.Core.Path.{◌≡◌, refl, ◌∙◌}
use mathlib.Core.Logic.{◌⊎◌, inl, inr}
use mathlib.Core.Bool.{true, false, ◌&&◌}
use mathlib.Core.List.{List, [], ◌∷◌, ◌++◌}
use native.Mathlib.Omega.{arith}
use ubuntu_install_on_samsun.Prelude.Tests.{ltb, ◌==◌, if◌then◌else◌}
use ubuntu_install_on_samsun.Prelude.Lists.{length, take, drop, length-append}

-- `blob[i]` where the code has checked that i lies inside; 0 outside.
abbrev pub byte : List ℕ → ℕ → ℕ
byte [] i = 0
byte (x ∷ xs) zero = x
byte (x ∷ xs) (suc i) = byte xs i

abbrev pub u16 : List ℕ → ℕ → ℕ
u16 blob i = byte blob i + 256 * byte blob (i + 1)

abbrev pub u24 : List ℕ → ℕ → ℕ
u24 blob i = byte blob i + 256 * byte blob (i + 1) + 65536 * byte blob (i + 2)

abbrev pub u32 : List ℕ → ℕ → ℕ
u32 blob i = u16 blob i + 65536 * u16 blob (i + 2)

-- `blob[i] = v` inside the blob; nothing outside.
abbrev pub set : List ℕ → ℕ → ℕ → List ℕ
set [] i v = []
set (x ∷ xs) zero v = v ∷ xs
set (x ∷ xs) (suc i) v = x ∷ set xs i v

-- `blob[i : i + n] = part`
abbrev pub splice : List ℕ → ℕ → ℕ → List ℕ → List ℕ
splice blob i n part = take i blob ++ (part ++ drop (i + n) blob)

-- `blob[i : i + n]`
abbrev pub slice : List ℕ → ℕ → ℕ → List ℕ
slice blob i n = take n (drop i blob)

pub length-set : (xs : List ℕ) (i v : ℕ) → length (set xs i v) ≡ length xs
length-set [] i v = refl
length-set (x ∷ xs) zero v = refl
length-set (x ∷ xs) (suc i) v = omega (arith, length-set xs i v)

pub byte-set :
    (xs : List ℕ) (i j v : ℕ)
    → byte (set xs i v) j ≡ (if i == j && ltb i (length xs) then v else byte xs j)
byte-set [] i j v = ground arith
byte-set (x ∷ xs) zero zero v = ground arith
byte-set (x ∷ xs) zero (suc j) v = ground arith
byte-set (x ∷ xs) (suc i) zero v = ground arith
byte-set (x ∷ xs) (suc i) (suc j) v = ground (arith, byte-set xs i j v)

pub byte-append :
    (xs ys : List ℕ) (j : ℕ)
    → byte (xs ++ ys) j ≡ (if ltb j (length xs) then byte xs j else byte ys (j - length xs))
byte-append [] ys j = ground arith
byte-append (x ∷ xs) ys zero = ground arith
byte-append (x ∷ xs) ys (suc j) = ground (arith, byte-append xs ys j)

pub byte-take :
    (n : ℕ) (xs : List ℕ) (j : ℕ) → byte (take n xs) j ≡ (if ltb j n then byte xs j else 0)
byte-take zero xs j = ground arith
byte-take (suc n) [] j = ground arith
byte-take (suc n) (x ∷ xs) zero = ground arith
byte-take (suc n) (x ∷ xs) (suc j) = ground (arith, byte-take n xs j)

pub byte-drop : (n : ℕ) (xs : List ℕ) (j : ℕ) → byte (drop n xs) j ≡ byte xs (n + j)
byte-drop zero xs j = ground arith
byte-drop (suc n) [] j = ground arith
byte-drop (suc n) (x ∷ xs) j = ground (arith, byte-drop n xs j)

pub length-take : (n : ℕ) (xs : List ℕ) → n ≤ length xs → length (take n xs) ≡ n
length-take zero xs h = refl
length-take (suc n) [] h = elim h [ ]
length-take (suc n) (x ∷ xs) h = omega (arith, length-take n xs (omega arith))

pub length-drop : (n : ℕ) (xs : List ℕ) → length (drop n xs) ≡ length xs - n
length-drop zero xs = omega arith
length-drop (suc n) [] = omega arith
length-drop (suc n) (x ∷ xs) = omega (arith, length-drop n xs)

-- Two images of one size that agree outside the bytes from `low` up to `high`.
pub record AgreesOutside (low high : ℕ) (a b : List ℕ) : Type 0 where
  pub same_length : length b ≡ length a
  pub same_byte : (j : ℕ) → (j < low) ⊎ (high ≤ j) → byte b j ≡ byte a j

pub set-AgreesOutside : (xs : List ℕ) (i v : ℕ) → AgreesOutside i (i + 1) xs (set xs i v)
set-AgreesOutside xs i v = record {
  same_length = length-set xs i v;
  same_byte = λ j away. ground (arith, byte-set xs i j v);
}

module _ (blob : List ℕ) (i n : ℕ) (part : List ℕ) (fits : i + n ≤ length blob)
    (size : length part ≡ n) where
  head_size : length (take i blob) ≡ i
  head_size = length-take i blob (omega arith)

  length-splice : length (splice blob i n part) ≡ length blob
  length-splice = omega (
    arith,
    length-append (take i blob) (part ++ drop (i + n) blob),
    length-append part (drop (i + n) blob),
    length-drop (i + n) blob,
    head_size,
  )

  -- Each byte of the part, in its place.
  pub byte-splice_in : (k : ℕ) → k < n → byte (splice blob i n part) (i + k) ≡ byte part k
  byte-splice_in k h =
      let whole = byte-append (take i blob) (part ++ drop (i + n) blob) (i + k) in
      let tail = byte-append part (drop (i + n) blob) (i + k - length (take i blob)) in
      let place : i + k - length (take i blob) ≡ k = omega (arith, head_size) in
      let behind : ltb (i + k) (length (take i blob)) ≡ false = ground (arith, head_size) in
      let within : ltb k (length part) ≡ true = ground arith in
      rw whole (rw behind (rw tail (rw place (rw within refl))))

  pub splice-AgreesOutside : AgreesOutside i (i + n) blob (splice blob i n part)
  splice-AgreesOutside = record {
    same_length = length-splice;
    same_byte = λ j away. ground (
      arith,
      head_size,
      byte-append (take i blob) (part ++ drop (i + n) blob) j,
      byte-append part (drop (i + n) blob) (j - length (take i blob)),
      byte-take i blob j,
      byte-drop (i + n) blob (j - length (take i blob) - length part),
    );
  }

pub AgreesOutside-trans :
    (low high : ℕ) (a b c : List ℕ)
    → AgreesOutside low high a b
    → AgreesOutside low high b c
    → AgreesOutside low high a c
AgreesOutside-trans low high a b c p q = record {
  same_length = q.same_length ∙ p.same_length;
  same_byte = λ j away. q.same_byte j away ∙ p.same_byte j away;
}

-- A wider range allows more.
pub AgreesOutside-widen :
    (low high low' high' : ℕ) (a b : List ℕ)
    → low' ≤ low
    → high ≤ high'
    → AgreesOutside low high a b
    → AgreesOutside low' high' a b
AgreesOutside-widen low high low' high' a b l h p = record {
  same_length = p.same_length;
  same_byte =
      λ j away. p.same_byte j (elim away [ inl x ↦ inl (omega arith) | inr y ↦ inr (omega arith) ]);
}
