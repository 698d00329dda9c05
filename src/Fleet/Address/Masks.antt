-- ===== src/Fleet/Address/Masks.antt =====
-- The networks of hub/internal/fleet/address.go: an address under a mask of four or of sixteen bytes.
use Prim.Native.Nat.{◌^◌, ◌≤◌, ◌<◌, ◌/◌}
use native.Mathlib.Nat.{mul-div_cancel, div-eq_of_lt}
use homedash.Prelude.{
  ℕ, zero, suc, ◌+◌, ◌-◌, ◌*◌, ap, none, false, ◌==◌, ==_iff, ◌≡◌, refl, arith, subst, Bool-cases,
  inl, inr,
}
use homedash.Fleet.Address.{
  size_of, network, broadcast, four, sixteen, in_sixteen, equal, masked, to4, broadcast_of,
}

pub pos_power : (k : ℕ) → 0 < 2 ^ k
pos_power zero = omega arith
pos_power (suc k) = omega (arith, pos_power k)

-- The address of a network is in that network.
network-network : (ip ones : ℕ) → network (network ip ones) ones ≡ network ip ones
unfolding network size_of
network-network ip ones =
    ap (λ n. n * 2 ^ (32 - ones)) (mul-div_cancel (ip / 2 ^ (32 - ones)) (pos_power (32 - ones)))

pub broadcast-network : (ip ones : ℕ) → broadcast (network ip ones) ones ≡ broadcast ip ones
unfolding broadcast
broadcast-network ip ones = ap (λ n. n + (size_of ones - 1)) (network-network ip ones)

pub equal-four : (ip n : ℕ) → equal (sixteen (in_sixteen ip)) (four n) ≡ false → (ip == n) ≡ false
unfolding equal
equal-four ip n h = elim (Bool-cases (ip == n)) [
  | inr e ↦ e
  | inl e ↦
      let same : ip ≡ n = (==_iff ip n).0 e in
      let again = (==_iff (in_sixteen n) (in_sixteen n)).1 refl in
      let h' : (in_sixteen n == in_sixteen n) ≡ false =
        subst (λ m. (in_sixteen m == in_sixteen n) ≡ false) same h in
      cc
]

power_above : (k : ℕ) → 2 ^ 48 ≤ 2 ^ (48 + k)
power_above zero = omega arith
power_above (suc k) =
    let next : 48 + suc k ≡ suc (48 + k) = omega arith in rw (next) (omega (arith, power_above k))

in_sixteen-lt : (ip : ℕ) → in_sixteen ip < 2 ^ 48
unfolding in_sixteen
in_sixteen-lt ip = omega arith

-- A mask of at most thirty bits leaves nothing of the sixteen bytes, which start with ten of 0.
masked-zero : (ip ones : ℕ) → ones ≤ 30 → masked ip ones ≡ sixteen 0
unfolding masked
masked-zero ip ones h =
    let wide : 128 - ones ≡ 48 + (80 - ones) = omega arith in
    let less : in_sixteen ip < 2 ^ (48 + (80 - ones)) =
      omega (arith, in_sixteen-lt ip, power_above (80 - ones)) in
    rw (wide, div-eq_of_lt less) (ap sixteen (omega arith))

pub masked-broadcast : (ip ones : ℕ) → ones ≤ 30 → broadcast_of ones (masked ip ones) ≡ none
unfolding broadcast_of to4
masked-broadcast ip ones h = rw (masked-zero ip ones h) refl

pub masked-equal :
    (ip ones : ℕ) → ones ≤ 30 → equal (sixteen (in_sixteen ip)) (masked ip ones) ≡ false
unfolding equal in_sixteen
masked-equal ip ones h = rw (masked-zero ip ones h) (ground arith)
