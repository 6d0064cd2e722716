-- ===== src/Bluetooth/Nvm/Writes.antt =====
-- What each of the three writes of `patch_nvm` leaves in every byte.
use ubuntu_install_on_samsun.Prelude.{
  ℕ, ◌+◌, ◌-◌, ◌≤◌, ◌<◌, ◌≡◌, refl, ap, ◌∙◌, ◌⊎◌, inl, inr, Bool, ◌&&◌, some, List, [], ◌∷◌, arith,
  ltb, leb, ◌==◌, if◌then◌else◌, Bool-cases, length, length-append, ok,
}
use mathlib.Core.Path.{subst}
use mathlib.Core.List.{reverse, reverse-append}
use ubuntu_install_on_samsun.Prelude.Blob.{
  byte, set, splice, length-set, byte-set, AgreesOutside, set-AgreesOutside, byte-splice_in,
  splice-AgreesOutside, AgreesOutside-trans, AgreesOutside-widen,
}
use ubuntu_install_on_samsun.Bluetooth.Nvm.{
  Tag, find_tag, flag, patch_address, patch_uart, patch_sleep, required,
}

length-reverse : (xs : List ℕ) → length (reverse xs) ≡ length xs
length-reverse [] = refl
length-reverse (x ∷ xs) =
    ap length (reverse-append (x ∷ []) xs)
    ∙ omega (arith, length-append (reverse xs) (x ∷ []), length-reverse xs)

module _ (bdaddr : List ℕ) (six : length bdaddr ≡ 6) (tag : Tag) (blob : List ℕ) {after : List ℕ}
    (fits : tag.start + tag.size ≤ length blob)
    (done : patch_address bdaddr tag blob ≡ ok after) where
  pub size_of_address : (tag.size ≡ 6) × (after ≡ splice blob tag.start 6 (reverse bdaddr))
  unfolding patch_address
  size_of_address = ground arith

  pub address-AgreesOutside : AgreesOutside tag.start (tag.start + tag.size) blob after
  address-AgreesOutside =
      let (size, e) = size_of_address in
      rw (e, size)
        (splice-AgreesOutside blob tag.start 6 (reverse bdaddr) (rw (← size) fits)
          (length-reverse bdaddr ∙ six))

  pub address_byte :
      (j : ℕ)
      → byte after j ≡ (
          if leb tag.start j && ltb j (tag.start + 6)
          then byte (reverse bdaddr) (j - tag.start)
          else byte blob j)
  address_byte j =
      let (size, e) = size_of_address in
      let part = length-reverse bdaddr ∙ six in
      let room = subst (λ n. tag.start + n ≤ length blob) size fits in
      let inside = byte-splice_in blob tag.start 6 (reverse bdaddr) room part (j - tag.start) in
      let outside =
        (splice-AgreesOutside blob tag.start 6 (reverse bdaddr) room part).same_byte j in
      elim (Bool-cases (leb tag.start j && ltb j (tag.start + 6))) [
        | inl within ↦
            let place : tag.start + (j - tag.start) ≡ j = ground arith in
            rw (within, e)
              (subst
                (λ i.
                  byte (splice blob tag.start 6 (reverse bdaddr)) i
                  ≡ byte (reverse bdaddr) (j - tag.start))
                place (inside (ground arith)))
        | inr away ↦
            let apart : (j < tag.start) ⊎ (tag.start + 6 ≤ j) = ground arith in
            rw (away, e) (outside apart)
      ]

module _ (enable_ibs : Bool) (baud_code : ℕ) (tag : Tag) (blob : List ℕ) {after : List ℕ}
    (fits : tag.start + tag.size ≤ length blob)
    (done : patch_uart enable_ibs baud_code tag blob ≡ ok after) where
  pub uart-AgreesOutside : AgreesOutside tag.start (tag.start + tag.size) blob after
  unfolding patch_uart
  uart-AgreesOutside =
      let first = set blob tag.start (flag enable_ibs 128 (byte blob tag.start)) in
      let size : 2 ≤ tag.size = ground arith in
      let e : after ≡ set first (tag.start + 1) baud_code = ground arith in
      rw e (
        AgreesOutside-trans tag.start (tag.start + tag.size) blob first _
          (AgreesOutside-widen tag.start (tag.start + 1) _ _ blob first (omega arith) (omega arith)
            (set-AgreesOutside blob tag.start _))
          (AgreesOutside-widen (tag.start + 1) (tag.start + 1 + 1) _ _ first _ (omega arith)
            (omega arith) (set-AgreesOutside first (tag.start + 1) baud_code)))

  pub uart_byte :
      (j : ℕ)
      → byte after j ≡ (
          if j == tag.start
          then flag enable_ibs 128 (byte blob tag.start)
          else if j == tag.start + 1
          then baud_code
          else byte blob j)
  unfolding patch_uart
  uart_byte j =
      let v = flag enable_ibs 128 (byte blob tag.start) in
      let first = set blob tag.start v in
      let size : 2 ≤ tag.size = ground arith in
      let e : after ≡ set first (tag.start + 1) baud_code = ground arith in
      let one = byte-set blob tag.start j v in
      let two = byte-set first (tag.start + 1) j baud_code in
      let sized = length-set blob tag.start v in rw e (ground (arith, one, two, sized))

module _ (enable_ibs : Bool) (tag : Tag) (blob : List ℕ) {after : List ℕ}
    (fits : tag.start + tag.size ≤ length blob)
    (done : patch_sleep enable_ibs tag blob ≡ ok after) where
  pub sleep-AgreesOutside : AgreesOutside tag.start (tag.start + tag.size) blob after
  unfolding patch_sleep
  sleep-AgreesOutside =
      let size : 1 ≤ tag.size = ground arith in
      let v = flag enable_ibs 1 (byte blob tag.start) in
      let e : after ≡ set blob tag.start v = ground arith in
      rw e (
        AgreesOutside-widen tag.start (tag.start + 1) _ _ blob _ (omega arith) (omega arith)
          (set-AgreesOutside blob tag.start v))

  pub sleep_byte :
      (j : ℕ)
      → byte after j
        ≡ (if j == tag.start then flag enable_ibs 1 (byte blob tag.start) else byte blob j)
  unfolding patch_sleep
  sleep_byte j =
      let size : 1 ≤ tag.size = ground arith in
      let v = flag enable_ibs 1 (byte blob tag.start) in
      let e : after ≡ set blob tag.start v = ground arith in
      rw e (ground (arith, byte-set blob tag.start j v))

pub required-found :
    (id : ℕ) (tags : List Tag) {tag : Tag} → required id tags ≡ ok tag → find_tag id tags ≡ some tag
required-found id tags h = ground arith

pub uart_size :
    (enable_ibs : Bool) (baud_code : ℕ) (tag : Tag) (blob : List ℕ) {after : List ℕ}
    → patch_uart enable_ibs baud_code tag blob ≡ ok after
    → 2 ≤ tag.size
unfolding patch_uart
uart_size enable_ibs baud_code tag blob done = ground arith

pub sleep_size :
    (enable_ibs : Bool) (tag : Tag) (blob : List ℕ) {after : List ℕ}
    → patch_sleep enable_ibs tag blob ≡ ok after
    → 1 ≤ tag.size
unfolding patch_sleep
sleep_size enable_ibs tag blob done = ground arith
