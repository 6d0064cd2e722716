-- ===== src/Display/Flashlight/Lease.antt =====
-- The torch never exceeds the safe current, and never outlives its lease.
use ubuntu_install_on_samsun.Prelude.{
  if◌then◌else◌, ℕ, ◌+◌, ◌*◌, ◌≤◌, max, ◌≡◌, false, List, [], ◌∷◌, arith, Result, ok, err, ℤ,
}
use ubuntu_install_on_samsun.Display.Flashlight.{
  second, lease_seconds, safe_max, FlashlightError, Nodes, Flashlight, off, init, current_of, renew,
  set_brightness, on, expire,
}

-- The nodes agree with the memory, and the current is the one for the chosen percentage.
pub record IsSafe (f : Flashlight) : Type 0 where
  pub percent_low : 5 ≤ f.percent
  pub percent_high : f.percent ≤ 100
  pub torch_node : f.torch ≡ (if f.enabled then current_of f.percent else 0)
  pub switch_node : f.switch ≡ (if f.enabled then 1 else 0)

pub current_range : (p : ℕ) → 5 ≤ p → p ≤ 100 → (1 ≤ current_of p) × (current_of p ≤ 300)
current_range p low high = ground arith

-- What any sequence of the calls is made of; a call that raises leaves the object as it was.
pub data Call : Type 0 where
  call_on call_off call_renew call_expire : ℕ → Call
  call_brightness : ℤ → ℕ → Call

abbrev kept : Flashlight → Result FlashlightError Flashlight → Flashlight
kept f (ok f') = f'
kept f (err _) = f

unfoldable pub apply : Call → Flashlight → Flashlight
unfolding off renew set_brightness on expire
apply (call_on now) f = on now f
apply (call_off now) f = off f
apply (call_renew now) f = kept f (renew now f)
apply (call_expire now) f = expire now f
apply (call_brightness percent now) f = kept f (set_brightness percent now f)

unfoldable pub apply_all : List Call → Flashlight → Flashlight
unfolding apply
apply_all [] f = f
apply_all (c ∷ cs) f = apply_all cs (apply c f)

-- The methods one by one, for an object that holds the flashlight.
pub on-IsSafe : (now : ℕ) (f : Flashlight) → IsSafe f → IsSafe (on now f)
unfolding on
on-IsSafe now f s = ground arith

pub off-IsSafe : (f : Flashlight) → IsSafe f → IsSafe (off f)
unfolding off
off-IsSafe f s = ground arith

pub expire-IsSafe : (now : ℕ) (f : Flashlight) → IsSafe f → IsSafe (expire now f)
unfolding expire
expire-IsSafe now f s = ground arith

pub renew-IsSafe :
    (now : ℕ) (f : Flashlight) {f' : Flashlight} → IsSafe f → renew now f ≡ ok f' → IsSafe f'
unfolding renew
renew-IsSafe now f s h = ground arith

pub set_brightness-IsSafe :
    (percent : ℤ) (now : ℕ) (f : Flashlight) {f' : Flashlight}
    → IsSafe f
    → set_brightness percent now f ≡ ok f'
    → IsSafe f'
unfolding set_brightness
set_brightness-IsSafe percent now f s h = ground arith

pub apply-IsSafe : (c : Call) (f : Flashlight) → IsSafe f → IsSafe (apply c f)
unfolding apply
apply-IsSafe c f s = ground arith

apply_all-IsSafe : (cs : List Call) (f : Flashlight) → IsSafe f → IsSafe (apply_all cs f)
unfolding apply_all
apply_all-IsSafe [] f s = s
apply_all-IsSafe (c ∷ cs) f s = apply_all-IsSafe cs (apply c f) (apply-IsSafe c f s)

-- Whatever calls follow the constructor, the torch node holds at most the safe current of 300 mA,
-- it holds exactly the current of the chosen percentage while the light is on, with the switch
-- set, and both nodes hold 0 while it is off.
pub calls-IsSafe :
    (n : Nodes) (torch switch : ℕ) (cs : List Call) {f : Flashlight}
    → init n torch switch ≡ ok f
    → IsSafe (apply_all cs f) × ((apply_all cs f).torch ≤ safe_max)
unfolding init
calls-IsSafe n torch switch cs {f} h =
    let start : IsSafe f = ground arith in
    let kept_safe = apply_all-IsSafe cs f start in
    (kept_safe, ground (arith, kept_safe, current_range (apply_all cs f).percent))

-- The latest time at which the lease may have been renewed: by switching on, by RENEW, or by a
-- change of brightness.
abbrev pub renewed : ℕ → List Call → ℕ
renewed t [] = t
renewed t (call_on now ∷ cs) = renewed (max t now) cs
renewed t (call_renew now ∷ cs) = renewed (max t now) cs
renewed t (call_brightness percent now ∷ cs) = renewed (max t now) cs
renewed t (_ ∷ cs) = renewed t cs

-- The lease runs out at most 15 seconds after the given time.
abbrev pub Leased : ℕ → Flashlight → Type 0
Leased t f = (if f.enabled then f.lease_until else 0) ≤ t + lease_seconds * second

apply-Leased :
    (t : ℕ) (c : Call) (f : Flashlight) → Leased t f → Leased (renewed t (c ∷ [])) (apply c f)
unfolding apply
apply-Leased t c f h = ground arith

apply_all-Leased :
    (t : ℕ) (cs : List Call) (f : Flashlight) → Leased t f → Leased (renewed t cs) (apply_all cs f)
unfolding apply_all
apply_all-Leased t [] f h = h
apply_all-Leased t (call_on now ∷ cs) f h =
    apply_all-Leased (max t now) cs (apply (call_on now) f) (apply-Leased t (call_on now) f h)
apply_all-Leased t (call_off now ∷ cs) f h =
    apply_all-Leased t cs (apply (call_off now) f) (apply-Leased t (call_off now) f h)
apply_all-Leased t (call_renew now ∷ cs) f h =
    apply_all-Leased (max t now) cs (apply (call_renew now) f) (apply-Leased t (call_renew now) f h)
apply_all-Leased t (call_expire now ∷ cs) f h =
    apply_all-Leased t cs (apply (call_expire now) f) (apply-Leased t (call_expire now) f h)
apply_all-Leased t (call_brightness percent now ∷ cs) f h =
    apply_all-Leased (max t now) cs (apply (call_brightness percent now) f)
      (apply-Leased t (call_brightness percent now) f h)

-- Whatever calls were made, a tick 15 seconds or more after the last one that renews the lease
-- finds or leaves the light off, with 0 in both nodes.
pub expire_ends_lease :
    (t now : ℕ) (cs : List Call) (f : Flashlight)
    → IsSafe f
    → Leased t f
    → renewed t cs + lease_seconds * second ≤ now
    → let f' = expire now (apply_all cs f) in
      (f'.enabled ≡ false) × (f'.torch ≡ 0) × (f'.switch ≡ 0)
unfolding expire off
expire_ends_lease t now cs f s h late =
    ground (arith, apply_all-IsSafe cs f s, apply_all-Leased t cs f h)
