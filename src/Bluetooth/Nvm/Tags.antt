-- ===== src/Bluetooth/Nvm/Tags.antt =====
-- The walk over the tags: it ends, its tags tile the body, and it reads nothing of their data.
use ubuntu_install_on_samsun.Prelude.{
  ℕ, zero, suc, ◌+◌, ◌≤◌, ◌<◌, ◌≡◌, refl, sym, ap, ◌∙◌, ◌≢◌, ◌⊎◌, inl, inr, some, List, [], ◌∷◌,
  arith, ltb, Bool-cases, Option-cases, length, ok, err, Result-cases, same,
}
use mathlib.Core.Path.{subst}
use ubuntu_install_on_samsun.Prelude.Blob.{u16, u24, AgreesOutside}
use ubuntu_install_on_samsun.Bluetooth.Nvm.{out_of_fuel, Tag, walk, iter_nvm_tags, find_tag}

abbrev pub Member : Tag → List Tag → Type 0
Member t [] = ⊥
Member t (x ∷ xs) = (t ≡ x) ⊎ Member t xs

-- Each tag's data begins 12 bytes behind the end of the one before, and the last one ends at the
-- end of the body.
abbrev pub Tiled : ℕ → ℕ → List Tag → Type 0
Tiled offset end [] = offset ≡ end
Tiled offset end (t ∷ ts) = (t.start ≡ offset + 12) × Tiled (t.start + t.size) end ts

abbrev tag_at : List ℕ → ℕ → Tag
tag_at blob offset = record {
  id = u16 blob offset;
  start = offset + 12;
  size = u16 blob (offset + 2);
}

-- A walk that succeeds is at the end, or reads a tag that fits and goes on behind it.
walk_inversion :
    (fuel : ℕ) (blob : List ℕ) (offset end : ℕ) (tags : List Tag)
    → walk (suc fuel) blob offset end ≡ ok tags
    → ((offset ≡ end) × (tags ≡ []))
      ⊎ ((rest : List Tag) × (offset < end)
          × (offset + 12 + u16 blob (offset + 2) ≤ end)
          × (tags ≡ tag_at blob offset ∷ rest)
          × (walk fuel blob (offset + 12 + u16 blob (offset + 2)) end ≡ ok rest))
unfolding walk
walk_inversion fuel blob offset end tags h =
    elim (Result-cases (walk fuel blob (offset + 12 + u16 blob (offset + 2)) end)) [
      | inl (rest, e) ↦ elim (Bool-cases (ltb offset end)) [
        | inl more ↦ inr (rest, ground arith, ground arith, ground arith, e)
        | inr done ↦ inl (ground arith, ground arith)
      ]
      | inr (x, e) ↦ inl (ground arith, ground arith)
    ]

walk_end : (fuel : ℕ) (blob : List ℕ) (end : ℕ) → walk (suc fuel) blob end end ≡ ok []
unfolding walk
walk_end fuel blob end = ground arith

walk_more :
    (fuel : ℕ) (blob : List ℕ) (offset end : ℕ) (rest : List Tag)
    → offset < end
    → offset + 12 + u16 blob (offset + 2) ≤ end
    → walk fuel blob (offset + 12 + u16 blob (offset + 2)) end ≡ ok rest
    → walk (suc fuel) blob offset end ≡ ok (tag_at blob offset ∷ rest)
unfolding walk
walk_more fuel blob offset end rest more fits h = ground arith

walk-Tiled :
    (fuel : ℕ) (blob : List ℕ) (offset end : ℕ) (tags : List Tag)
    → walk fuel blob offset end ≡ ok tags
    → Tiled offset end tags
walk-Tiled zero blob offset end tags h = unfold walk in cc
walk-Tiled (suc fuel) blob offset end tags h = elim (walk_inversion fuel blob offset end tags h) [
  | inl (stop, none_left) ↦ rw none_left stop
  | inr (rest, more, fits, e, h') ↦
      rw e (refl, walk-Tiled fuel blob (offset + 12 + u16 blob (offset + 2)) end rest h')
]

-- Enough fuel: the walk gains 12 bytes a round.
walk_total :
    (fuel : ℕ) (blob : List ℕ) (offset end : ℕ)
    → offset ≤ end
    → end < fuel + offset
    → walk fuel blob offset end ≢ err out_of_fuel
unfolding walk
walk_total zero blob offset end le f e = absurd (omega arith)
walk_total (suc fuel) blob offset end le f e =
    ground (arith, walk_total fuel blob (offset + 12 + u16 blob (offset + 2)) end)

-- The walk over the tags of any image ends within its fuel: it yields tags or raises.
pub iter_nvm_tags_total : (blob : List ℕ) → iter_nvm_tags blob ≢ err out_of_fuel
unfolding iter_nvm_tags
iter_nvm_tags_total blob e =
    ground
      (arith, walk_total (suc (u24 blob 1)) blob 4 (u24 blob 1 + 4) (omega arith) (omega arith))

-- The tags that an accepted image yields lie one behind another from offset 4, each behind a
-- 12-byte header, up to the end of the declared body, which is inside the image.
pub iter_nvm_tags-Tiled :
    (blob : List ℕ) (tags : List Tag)
    → iter_nvm_tags blob ≡ ok tags
    → Tiled 4 (u24 blob 1 + 4) tags × (u24 blob 1 + 4 ≤ length blob)
unfolding iter_nvm_tags
iter_nvm_tags-Tiled blob tags h =
    (walk-Tiled (suc (u24 blob 1)) blob 4 (u24 blob 1 + 4) tags (ground arith), ground arith)

Tiled-le : (offset end : ℕ) (tags : List Tag) → Tiled offset end tags → offset ≤ end
Tiled-le offset end [] tiled = omega arith
Tiled-le offset end (x ∷ xs) tiled = omega (arith, Tiled-le (x.start + x.size) end xs tiled.1)

-- A member lies within the part that is tiled.
Tiled-bounds :
    (offset end : ℕ) (tags : List Tag) (t : Tag)
    → Tiled offset end tags
    → Member t tags
    → (offset + 12 ≤ t.start) × (t.start + t.size ≤ end)
Tiled-bounds offset end [] t tiled m = absurd m
Tiled-bounds offset end (x ∷ xs) t tiled (inl e) =
    rw e (omega (arith, Tiled-le (x.start + x.size) end xs tiled.1))
Tiled-bounds offset end (x ∷ xs) t tiled (inr m) =
    let ih = Tiled-bounds (x.start + x.size) end xs t tiled.1 m in omega arith

pub Tiled-disjoint :
    (offset end : ℕ) (tags : List Tag) (t u : Tag)
    → Tiled offset end tags
    → Member t tags
    → Member u tags
    → t.id ≢ u.id
    → (t.start + t.size ≤ u.start) ⊎ (u.start + u.size ≤ t.start)
Tiled-disjoint offset end [] t u tiled m n ne = absurd m
Tiled-disjoint offset end (x ∷ xs) t u tiled (inl e) (inl f) ne = absurd (ne (ground arith))
Tiled-disjoint offset end (x ∷ xs) t u tiled (inl e) (inr n) ne =
    let below = Tiled-bounds (x.start + x.size) end xs u tiled.1 n in inl (rw e (omega arith))
Tiled-disjoint offset end (x ∷ xs) t u tiled (inr m) (inl f) ne =
    let below = Tiled-bounds (x.start + x.size) end xs t tiled.1 m in inr (rw f (omega arith))
Tiled-disjoint offset end (x ∷ xs) t u tiled (inr m) (inr n) ne =
    Tiled-disjoint (x.start + x.size) end xs t u tiled.1 m n ne

pub find_tag-Member :
    (id : ℕ) (tags : List Tag) (t : Tag) → find_tag id tags ≡ some t → Member t tags × (t.id ≡ id)
unfolding find_tag
find_tag-Member id [] t h = cc
find_tag-Member id (x ∷ xs) t h = elim (Option-cases (find_tag id xs)) [
  | inl gone ↦ (inl (ground arith), ground arith)
  | inr (later, e) ↦
      let (m, i) = find_tag-Member id xs later e in
      let same_tag : t ≡ later = ground arith in
      (inr (subst (λ k. Member k xs) (sym same_tag) m), ground arith)
]

-- A change behind the walk's start, or before it, that no header sees.
walk_before :
    (fuel : ℕ) (a b : List ℕ) (low high offset end : ℕ)
    → AgreesOutside low high a b
    → high ≤ offset
    → walk fuel b offset end ≡ walk fuel a offset end
unfolding walk
walk_before zero a b low high offset end same le = refl
walk_before (suc fuel) a b low high offset end same le =
    let id_low = same.same_byte offset (inr le) in
    let id_high = same.same_byte (offset + 1) (inr (omega arith)) in
    let size_low = same.same_byte (offset + 2) (inr (omega arith)) in
    let size_high = same.same_byte (offset + 2 + 1) (inr (omega arith)) in
    let ih =
      walk_before fuel a b low high (offset + 12 + u16 a (offset + 2)) end same (omega arith) in
    rw (id_low, id_high, size_low, size_high, ih)

-- A change inside the data of one tag is not seen by the walk.
walk_inside :
    (fuel : ℕ) (a b : List ℕ) (low high offset end : ℕ) (tags : List Tag) (t : Tag)
    → AgreesOutside low high a b
    → walk fuel a offset end ≡ ok tags
    → Member t tags
    → t.start ≤ low
    → high ≤ t.start + t.size
    → walk fuel b offset end ≡ ok tags
walk_inside zero a b low high offset end tags t same h m lo hi = unfold walk in cc
walk_inside (suc fuel) a b low high offset end tags t same h m lo hi =
    elim (walk_inversion fuel a offset end tags h) [
      | inl (stop, none_left) ↦ absurd (subst (Member t) none_left m)
      | inr (rest, more, fits, e, h') ↦
          let next = offset + 12 + u16 a (offset + 2) in
          let inside =
            Tiled-bounds offset end tags t (walk-Tiled (suc fuel) a offset end tags h) m in
          let id_low = same.same_byte offset (inl (omega arith)) in
          let id_high = same.same_byte (offset + 1) (inl (omega arith)) in
          let size_low = same.same_byte (offset + 2) (inl (omega arith)) in
          let size_high = same.same_byte (offset + 2 + 1) (inl (omega arith)) in
          let same_size : u16 b (offset + 2) ≡ u16 a (offset + 2) = rw (size_low, size_high) in
          let same_id : u16 b offset ≡ u16 a offset = rw (id_low, id_high) in
          let later : walk fuel b next end ≡ ok rest = elim (subst (Member t) e m) [
            | inl here ↦ walk_before fuel a b low high next end same (ground arith) ∙ h'
            | inr there ↦ walk_inside fuel a b low high next end rest t same h' there lo hi
          ] in
          walk_more fuel b offset end rest more (rw same_size fits) (rw same_size later)
          ∙ ap ok (rw (same_id, same_size) (sym e))
    ]

pub iter_nvm_tags_inside :
    (a b : List ℕ) (low high : ℕ) (tags : List Tag) (t : Tag)
    → AgreesOutside low high a b
    → iter_nvm_tags a ≡ ok tags
    → Member t tags
    → t.start ≤ low
    → high ≤ t.start + t.size
    → iter_nvm_tags b ≡ ok tags
unfolding iter_nvm_tags
iter_nvm_tags_inside a b low high tags t same h m lo hi =
    let end = u24 a 1 + 4 in
    let walked : walk (suc (u24 a 1)) a 4 end ≡ ok tags = ground arith in
    let inside = Tiled-bounds 4 end tags t (walk-Tiled (suc (u24 a 1)) a 4 end tags walked) m in
    let again = walk_inside (suc (u24 a 1)) a b low high 4 end tags t same walked m lo hi in
    rw
      (
        same.same_length,
        same.same_byte 0 (inl (omega arith)),
        same.same_byte 1 (inl (omega arith)),
        same.same_byte 2 (inl (omega arith)),
        same.same_byte 3 (inl (omega arith)),
      )
      (ground arith)

-- The data of a tag that the walk found lies in the image, behind the first 16 bytes.
pub Member-bounds :
    (blob : List ℕ) (tags : List Tag) (t : Tag)
    → iter_nvm_tags blob ≡ ok tags
    → Member t tags
    → (16 ≤ t.start) × (t.start + t.size ≤ length blob)
Member-bounds blob tags t h m =
    let (tiled, fits) = iter_nvm_tags-Tiled blob tags h in
    omega (arith, Tiled-bounds 4 (u24 blob 1 + 4) tags t tiled m)

pub find_tag_disjoint :
    (blob : List ℕ) (tags : List Tag) (i j : ℕ) (t u : Tag)
    → iter_nvm_tags blob ≡ ok tags
    → find_tag i tags ≡ some t
    → find_tag j tags ≡ some u
    → i ≢ j
    → (t.start + t.size ≤ u.start) ⊎ (u.start + u.size ≤ t.start)
find_tag_disjoint blob tags i j t u h p q ne =
    let (m, e) = find_tag-Member i tags t p in
    let (n, f) = find_tag-Member j tags u q in
    Tiled-disjoint 4 (u24 blob 1 + 4) tags t u (iter_nvm_tags-Tiled blob tags h).0 m n
      (λ same. ne (sym e ∙ same ∙ f))
