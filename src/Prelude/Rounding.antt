-- ===== src/Prelude/Rounding.antt =====
-- Python's `round(a / b)` for natural numbers: to the nearest, a tie to the even neighbour. The
-- float quotient rounds to the same integer as the exact one for the sizes used here.
use Prim.Native.Nat.{ℕ, ◌+◌, ◌*◌, ◌/◌, ◌%◌}
use ubuntu_install_on_samsun.Prelude.Tests.{ltb, ◌==◌, if◌then◌else◌}

abbrev pub round_div : ℕ → ℕ → ℕ
round_div a b =
    let q = a / b in
    let r = a % b in
    if ltb (2 * r) b then q else if ltb b (2 * r) then q + 1 else if q % 2 == 0 then q else q + 1
