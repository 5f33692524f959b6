-- ===== src/Agent/Room.antt =====
-- ossRoundUptoMultipleX, and the receive buffer that pmdAgentEntryPoint makes for a message
-- (pmd/pmdAgent.cpp).
use edbc.Base.{
  ℕ, ◌+◌, ◌-◌, ◌*◌, ◌/◌, ◌%◌, ◌^◌, ◌≤◌, ◌<◌, ◌≡◌, refl, ap, ◌∙◌, false, leb, ◌==◌, arith,
}
use native.Mathlib.Omega.{div_any}
use native.Mathlib.Nat.{mod-lt, mul-mod_right}
use edbc.Base.Outcome.{Outcome, returns, throws, blocked, fault, starved, Rc}
use edbc.Base.Outcome.Rc.{edb_ok, edb_oom}
use edbc.Msg.Buffer.{Allocator}
use edbc.Agent.Request.{oss_round_upto_multiple_x}
use edbc.Agent.Loop.{Agent, edb_page_size}

-- The least multiple of `y` that is not below `x`.
unfoldable pub rounded_up : ℕ → ℕ → ℕ
rounded_up x y = x + y - 1 - (x + y - 1) % y

pub rounded_up-bounds :
    (x y : ℕ) → 0 < y → (rounded_up x y % y ≡ 0) × (x ≤ rounded_up x y) × (rounded_up x y < x + y)
unfolding rounded_up
rounded_up-bounds x y h =
    let n = x + y - 1 in
    let parts : y * (n / y) + n % y ≡ n = div_any n y in
    let whole : n - n % y ≡ y * (n / y) = omega (arith, parts) in
    let low : n % y < y = mod-lt n h in
    (ap (λ k. k % y) whole ∙ mul-mod_right y (n / y), omega arith, omega arith)

-- ossRoundUptoMultipleX of two ints that are not negative, with a multiple that is not 0 and a sum
-- that is an int.
pub round_upto-rounded_up :
    (x y : ℕ) → 0 < y → x + y < 2 ^ 31 → oss_round_upto_multiple_x x y ≡ returns (rounded_up x y)
unfolding oss_round_upto_multiple_x rounded_up
round_upto-rounded_up x y h k =
    let s : (x + y) % 2 ^ 32 ≡ x + y = omega (arith, k) in
    let n : (x + y + (2 ^ 32 - 1)) % 2 ^ 32 ≡ x + y - 1 = omega (arith, h, k) in
    let pos_x : leb (2 ^ 31) x ≡ false = ground (arith, k) in
    let pos_y : leb (2 ^ 31) y ≡ false = ground (arith, k) in
    let pos_s : leb (2 ^ 31) (x + y) ≡ false = ground (arith, k) in
    let pos_n : leb (2 ^ 31) (x + y - 1) ≡ false = ground (arith, k) in
    let not_least : ((x + y) == 2 ^ 31) ≡ false = ground (arith, k) in
    let not_zero : (y == 0) ≡ false = ground (arith, h) in
    let not_least' : ((x + y - 1) == 2 ^ 31) ≡ false = ground (arith, k) in
    rw (s, n, pos_x, pos_y, pos_s, not_least, not_zero, not_least', pos_n) refl

-- What is promised of the receive buffer for a message of `len` bytes.
abbrev pub IsRoomy : Allocator → Agent → ℕ → Outcome (Rc × Agent) → Type 0
IsRoomy alloc a len (returns (edb_ok, a')) =
    (len < a'.recv_buf.capacity)
    × (a'.recv_size ≡ a'.recv_buf.capacity)
    × (a.recv_size ≤ a'.recv_size)
    × (len + 4097 < 2 ^ 31)
IsRoomy alloc a len (returns (edb_oom, a')) =
    (a' ≡ a) × (alloc.grants (rounded_up (len + 1) edb_page_size) ≡ false)
IsRoomy alloc a len (returns (_, a')) = ⊥
IsRoomy alloc a len throws = ⊥
IsRoomy alloc a len blocked = ⊥
IsRoomy alloc a len fault = 2 ^ 31 ≤ len + 4097
IsRoomy alloc a len starved = ⊥
