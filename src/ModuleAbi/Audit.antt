-- ===== src/ModuleAbi/Audit.antt =====
-- tools/audit_kernel_module_abi.py: what an empty audit says.
use ubuntu_install_on_samsun.Prelude.{
  ℕ, ◌≡◌, refl, ap, ◌≢◌, ◌↔◌, inl, inr, Bool, true, false, Option, none, some, List, [], ◌∷◌, arith,
  if◌then◌else◌, Bool-cases, is_some, ==→≡, All, ℤ, pos, negsuc,
}
use ubuntu_install_on_samsun.ModuleAbi.{
  Text, Dict, find, text_leb, insert, sorted, crc_differs, mismatch, missing_names,
  mismatched_names, audit,
}

-- The kernel exports every import, with the checksum that the module was built for.
abbrev pub Matches : Dict ℤ → Dict ℕ → Type 0
Matches exports = All (λ entry. find entry.0 exports ≡ some (pos entry.1))

insert_some : (x : Text) (ys : List Text) → insert x ys ≢ []
insert_some x [] h = absurd (cc)
insert_some x (y ∷ ys) h = elim (Bool-cases (text_leb x y)) [
  | inl before ↦ absurd (ground (arith, before, h))
  | inr after ↦ absurd (ground (arith, after, h))
]

sorted_empty : (xs : List Text) → sorted xs ≡ [] → xs ≡ []
sorted_empty [] h = refl
sorted_empty (x ∷ xs) h = absurd (insert_some x (sorted xs) h)

crc_equal : (crc : ℕ) (export : ℤ) → crc_differs crc export ≡ false → export ≡ pos crc
crc_equal crc (pos n) h = ap pos (==→≡ n crc (ground (arith, h)))
crc_equal crc (negsuc n) h = absurd (cc)

crc_same : (crc : ℕ) → crc_differs crc (pos crc) ≡ false
crc_same crc = ground arith

exported : (crc : ℕ) (o : Option ℤ) → is_some o ≡ true → mismatch crc o ≡ false → o ≡ some (pos crc)
exported crc none s m = absurd (cc)
exported crc (some export) s m = ap some (crc_equal crc export m)

-- A filtered list that came out empty has dropped its first entry.
dropped :
    (test : Bool) (x : Text) (xs : List Text)
    → (if test then x ∷ xs else xs) ≡ []
    → (test ≡ false) × (xs ≡ [])
dropped true x xs h = absurd (cc)
dropped false x xs h = (refl, h)

kept :
    (test : Bool) (x : Text) (xs : List Text)
    → (if test then xs else x ∷ xs) ≡ []
    → (test ≡ true) × (xs ≡ [])
kept true x xs h = (refl, h)
kept false x xs h = absurd (cc)

empty-Matches :
    (imports : Dict ℕ) (exports : Dict ℤ)
    → missing_names imports exports ≡ []
    → mismatched_names imports exports ≡ []
    → Matches exports imports
empty-Matches [] exports p q = tt
empty-Matches ((name, crc) ∷ imports) exports p q =
    let here = kept (is_some (find name exports)) name (missing_names imports exports) p in
    let right =
      dropped (mismatch crc (find name exports)) name (mismatched_names imports exports) q in
    (exported crc (find name exports) here.0 right.0, empty-Matches imports exports here.1 right.1)

Matches-missing :
    (imports : Dict ℕ) (exports : Dict ℤ)
    → Matches exports imports
    → missing_names imports exports ≡ []
Matches-missing [] exports m = refl
Matches-missing ((name, crc) ∷ imports) exports (here, rest) =
    rw here (Matches-missing imports exports rest)

Matches-mismatched :
    (imports : Dict ℕ) (exports : Dict ℤ)
    → Matches exports imports
    → mismatched_names imports exports ≡ []
Matches-mismatched [] exports m = refl
Matches-mismatched ((name, crc) ∷ imports) exports (here, rest) =
    rw here (rw (crc_same crc) (Matches-mismatched imports exports rest))

-- The audit reports nothing exactly when the kernel exports every import of the module with the
-- checksum that the module asks for.
pub audit-Matches :
    (imports : Dict ℕ) (exports : Dict ℤ)
    → (audit imports exports ≡ ([], [])) ↔ Matches exports imports
unfolding audit
audit-Matches imports exports = (
  λ clean.
      empty-Matches imports exports
        (sorted_empty (missing_names imports exports) (ap (λ r. r.0) clean))
        (sorted_empty (mismatched_names imports exports) (ap (λ r. r.1) clean)),
  λ m. rw (Matches-missing imports exports m) (rw (Matches-mismatched imports exports m) refl),
)
