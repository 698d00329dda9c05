-- ===== src/Fleet/Address/Range.antt =====
-- hub/internal/fleet/address.go: what an address that Validate takes is, and when the host's row moves.
use Prim.Native.Nat.{◌^◌, ◌≤◌, ◌<◌}
use native.Mathlib.Nat.{div-mul-le_self, lt-div-mul-add}
use homedash.Prelude.{
  ℕ, ◌-◌, sym, none, some, String, Bool, true, false, not, ◌||◌, Option, List, ltb, ◌==◌, ==_iff,
  if◌then◌else◌, ◌≡◌, ◌≢◌, ◌⊎◌, refl, arith, subst, Bool-cases, inl, inr,
}
use homedash.Prelude.Text.{trim_space, is_empty}
use homedash.Fleet.Address.Masks.{
  pos_power, broadcast-network, equal-four, masked-broadcast, masked-equal,
}
use homedash.Fleet.Address.{
  Address, Ip, ipv4, ipv6, Cidr, plain, mapped, other, Checked, valid, refused, panics, size_of,
  network, broadcast, four, sixteen, in_sixteen, equal, masked, to4, broadcast_of, in_network,
  static_in, gateway_of, static_of, with_dns, clean_dns, trimmed, validate, is_iface_name,
}

differs : (m n : ℕ) → (m == n) ≡ false → m ≢ n
differs m n e h = ground arith

not_valid : (e : String) (v : Address) → ¬ (refused e ≡ valid v)
not_valid e v h = cc

between :
    (ip ones : ℕ)
    → (ip == network ip ones) ≡ false
    → (ip == broadcast ip ones) ≡ false
    → (network ip ones < ip) × (ip < broadcast ip ones)
unfolding network broadcast size_of
between ip ones n b =
    let lo = div-mul-le_self ip (2 ^ (32 - ones)) in
    let p = pos_power (32 - ones) in
    let hi = lt-div-mul-add {a = ip} p in (ground arith, ground arith)

module _ (parse_ip : String → Option Ip) (parse_cidr : String → Option Cidr) where
  -- The gateway, where there is one, is another address of the network.
  abbrev pub GatewayFits : Address → ℕ → ℕ → Type 0
  GatewayFits v ip ones =
      (is_empty v.gateway ≡ true)
      ⊎ ((gw : ℕ) × (parse_ip v.gateway ≡ some (ipv4 gw))
          × (network gw ones ≡ network ip ones)
          × (gw ≢ ip))

  -- A host's address in its prefix, neither the network's nor the broadcast address.
  pub record IsHostAddress (v : Address) : Type 0 where
    pub ip : ℕ
    pub ones : ℕ
    pub parsed : parse_cidr v.cidr ≡ some (plain ip ones)
    pub at_least : 1 ≤ ones
    pub at_most : ones ≤ 30
    pub above : network ip ones < ip
    pub below : ip < broadcast ip ones
    pub gateway : GatewayFits v ip ones

  abbrev HoldsFor : Address → Checked → Type 0
  HoldsFor b (valid v) = IsHostAddress v
  HoldsFor b (refused e) = Unit
  HoldsFor b panics = Unit

  gateway-Holds :
      (a : Address) (ip ones : ℕ) (o : Option Ip)
      → parse_cidr a.cidr ≡ some (plain ip ones)
      → parse_ip a.gateway ≡ o
      → (1 ≤ ones) × (ones ≤ 30) × (network ip ones < ip) × (ip < broadcast ip ones)
      → HoldsFor a (gateway_of parse_ip parse_cidr a ip ones o)
  unfolding gateway_of
  gateway-Holds a ip ones none c e h = tt
  gateway-Holds a ip ones (some ipv6) c e h = tt
  gateway-Holds a ip ones (some (ipv4 gw)) c e (lo, hi, over, under) =
      elim (Bool-cases (network gw ones == network ip ones)) [
        | inl n ↦ elim (Bool-cases (gw == ip)) [
          | inl q ↦ rw (n, q) tt
          | inr q ↦
              rw (n, q)
                (record {
                  ip = ip;
                  ones = ones;
                  parsed = c;
                  at_least = lo;
                  at_most = hi;
                  above = over;
                  below = under;
                  gateway = inr (
                    gw,
                    e,
                    (==_iff (network gw ones) (network ip ones)).0 n,
                    λ x. differs gw ip q x,
                  );
                })
        ]
        | inr n ↦ rw (n) tt
      ]

  -- `broadcast` of a network in sixteen bytes panics.
  masked_panics :
      (a : Address) (ip ones : ℕ)
      → (ltb ones 1 || ltb 30 ones) ≡ false
      → static_in parse_ip parse_cidr a ip ones (masked ip ones) ≡ panics
  unfolding static_in in_network
  masked_panics a ip ones r =
      let most : ones ≤ 30 = ground arith in
      rw (r, masked-equal ip ones most, masked-broadcast ip ones most) refl

  static-Holds :
      (a : Address) (c : Option Cidr)
      → parse_cidr a.cidr ≡ c
      → HoldsFor a (static_of parse_ip parse_cidr a c)
  unfolding static_of static_in in_network broadcast_of to4
  static-Holds a none e = tt
  static-Holds a (some (other ones)) e = tt
  static-Holds a (some (mapped ip ones)) e = elim (Bool-cases (ltb ones 1 || ltb 30 ones)) [
    | inl r ↦ rw (r) tt
    | inr r ↦ subst (HoldsFor a) (sym (masked_panics a ip ones r)) tt
  ]
  static-Holds a (some (plain ip ones)) e = elim (Bool-cases (ltb ones 1 || ltb 30 ones)) [
    | inl r ↦ rw (r) tt
    | inr r ↦ elim (Bool-cases (equal (sixteen (in_sixteen ip)) (four (network ip ones)))) [
      | inl q ↦ rw (r, q) tt
      | inr q ↦
          rw (r, q, broadcast-network ip ones)
            (elim (Bool-cases (equal (sixteen (in_sixteen ip)) (four (broadcast ip ones)))) [
              | inl l ↦ rw (l) tt
              | inr l ↦
                  let b =
                    between ip ones (equal-four ip (network ip ones) q)
                      (equal-four ip (broadcast ip ones) l) in
                  elim (Bool-cases (is_empty a.gateway)) [
                    | inl g ↦
                        rw (l, g)
                          (record {
                            ip = ip;
                            ones = ones;
                            parsed = e;
                            at_least = ground arith;
                            at_most = ground arith;
                            above = b.0;
                            below = b.1;
                            gateway = inl g;
                          })
                    | inr g ↦
                        rw (l, g)
                          (gateway-Holds a ip ones (parse_ip a.gateway) e refl
                            (ground arith, ground arith, b.0, b.1))
                  ]
            ])
    ]
  ]

  with_dns-Holds :
      (a : Address) (o : Option (List String))
      → is_empty a.cidr ≡ false
      → HoldsFor a (with_dns parse_ip parse_cidr a o)
  unfolding with_dns
  with_dns-Holds a none e = tt
  with_dns-Holds a (some ds) e =
      rw (e) (static-Holds (record a { dns = ds }) (parse_cidr a.cidr) refl)

  valid-Holds :
      (b : Bool) (a v : Address) (e : String) (c : Checked)
      → HoldsFor a c
      → (if b then refused e else c) ≡ valid v
      → IsHostAddress v
  valid-Holds true a v e c k h = absurd (not_valid e v h)
  valid-Holds false a v e c k h = subst (HoldsFor a) h k

  -- What Validate takes, of an address that is not blank, is a host's address in an IPv4 prefix
  -- between /1 and /30: strictly between the network's address and the broadcast address, with a
  -- gateway, if any, that is another address of the same network.
  pub validate-IsHostAddress :
      (a v : Address)
      → is_empty (trim_space a.cidr) ≡ false
      → validate parse_ip parse_cidr a ≡ valid v
      → IsHostAddress v
  unfolding validate
  validate-IsHostAddress a v n h =
      let t = trimmed parse_ip parse_cidr a in
      valid-Holds (not (is_iface_name (trim_space a.interface))) t v
        "interface: a name such as eth0 or enp3s0"
        (with_dns parse_ip parse_cidr t (clean_dns parse_ip parse_cidr a.dns))
        (with_dns-Holds t (clean_dns parse_ip parse_cidr a.dns) n) h

  -- An IPv4 address written as IPv6, with a prefix between /1 and /30, makes Validate panic once the
  -- interface and the servers are in order: its network has no four bytes, and `broadcast` indexes
  -- them.
  pub validate_panics :
      (a : Address) (ds : List String) (ip ones : ℕ)
      → is_iface_name (trim_space a.interface) ≡ true
      → clean_dns parse_ip parse_cidr a.dns ≡ some ds
      → is_empty (trim_space a.cidr) ≡ false
      → parse_cidr (trim_space a.cidr) ≡ some (mapped ip ones)
      → 1 ≤ ones
      → ones ≤ 30
      → validate parse_ip parse_cidr a ≡ panics
  unfolding validate with_dns static_of
  validate_panics a ds ip ones i d n c lo hi =
      let r : (ltb ones 1 || ltb 30 ones) ≡ false = ground arith in
      rw (i, d, n, c) (masked_panics _ ip ones r)
