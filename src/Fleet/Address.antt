-- ===== src/Fleet/Address.antt =====
-- hub/internal/fleet/address.go: the check of an address a machine is to hold, and the change itself.
-- What `net` reads of a text is an argument; an IPv4 address is its number. What the machine and SSH
-- answer is in the arguments.
pub mod Masks
pub mod Range
pub mod Moves
use Prim.Native.Char.{Char, code}
use Prim.Native.Nat.{◌/◌, ◌%◌, ◌^◌, ◌≤◌, ◌<◌}
use Prim.Native.String
use homedash.Prelude.{
  ℕ, zero, suc, ◌+◌, ◌-◌, ◌*◌, String, Bool, true, false, not, ◌&&◌, ◌||◌, Option, none, some, List,
  [], ◌∷◌, ltb, leb, ◌==◌, str_eq, if◌then◌else◌,
}
use homedash.Prelude.Text.{trim_space, is_empty}

pub record Address : Type 0 where
  pub interface : String
  pub cidr : String
  pub gateway : String
  pub dns : List String

-- `net.ParseIP`: an IPv4 address in either notation, or another one.
pub data Ip : Type 0 where
  ipv4 : ℕ → Ip
  ipv6 : Ip

-- `net.ParseCIDR`: an IPv4 address and the length of its prefix; one written as IPv6, whose prefix is
-- of 128 bits; or another IPv6 address.
pub data Cidr : Type 0 where
  plain : ℕ → ℕ → Cidr
  mapped : ℕ → ℕ → Cidr
  other : ℕ → Cidr

unfoldable pub within : ℕ → ℕ → ℕ → Bool
within lo hi c = leb lo c && leb c hi

-- A character of `[A-Za-z0-9_.:-]`.
unfoldable pub is_name_char : Char → Bool
unfolding within
is_name_char ch =
    let c = code ch in
    within 65 90 c || within 97 122 c || within 48 57 c || c == 95 || c == 46 || c == 58 || c == 45

-- Up to `most` characters of the kind, and no more text.
unfoldable pub name_chars : ℕ → String → Bool
unfolding is_name_char
name_chars most String.[] = true
name_chars zero (String.◌∷◌ c s) = false
name_chars (suc most) (String.◌∷◌ c s) = let rest = name_chars most s in is_name_char c && rest

-- `ifaceName`.
unfoldable pub is_iface_name : String → Bool
unfolding name_chars
is_iface_name s = not (is_empty s) && name_chars 15 s

-- The outcome of a check: the address with its texts trimmed, an error, or an index out of range.
pub data Checked : Type 0 where
  valid : Address → Checked
  refused : String → Checked
  panics : Checked

-- The network's address and the broadcast address of a prefix in IPv4.
unfoldable pub size_of : ℕ → ℕ
size_of ones = 2 ^ (32 - ones)

unfoldable pub network : ℕ → ℕ → ℕ
unfolding size_of
network ip ones = ip / size_of ones * size_of ones

unfoldable pub broadcast : ℕ → ℕ → ℕ
unfolding network size_of
broadcast ip ones = network ip ones + (size_of ones - 1)

-- `net.IP`: the number of four bytes, or of sixteen.
pub data Bytes : Type 0 where
  four : ℕ → Bytes
  sixteen : ℕ → Bytes

-- An IPv4 address in sixteen bytes: ten of 0, two of 255, and its own.
unfoldable pub in_sixteen : ℕ → ℕ
in_sixteen ip = 65535 * 2 ^ 32 + ip % 2 ^ 32

-- `To4`: none is nil.
unfoldable pub to4 : Bytes → Option ℕ
to4 (four n) = some n
to4 (sixteen n) = if n / 2 ^ 32 == 65535 then some (n % 2 ^ 32) else none

-- `IP.Equal`: four bytes are the same address as the sixteen that hold them.
unfoldable pub equal : Bytes → Bytes → Bool
unfolding in_sixteen
equal (four m) (four n) = m == n
equal (four m) (sixteen n) = in_sixteen m == n
equal (sixteen m) (four n) = m == in_sixteen n
equal (sixteen m) (sixteen n) = m == n

-- The network of `net.ParseCIDR`: the bytes of the address under the mask, which has four bytes for a
-- text in IPv4 and sixteen for one in IPv6.
unfoldable pub masked : ℕ → ℕ → Bytes
unfolding in_sixteen
masked ip ones = sixteen (in_sixteen ip / 2 ^ (128 - ones) * 2 ^ (128 - ones))

-- The function `broadcast`: none is the index out of range, where the network has no four bytes.
unfoldable pub broadcast_of : ℕ → Bytes → Option ℕ
unfolding to4 broadcast
broadcast_of ones net = elim (to4 net) [ none ↦ none | some n ↦ some (broadcast n ones) ]

module _ (parse_ip : String → Option Ip) (parse_cidr : String → Option Cidr) where
  abbrev pub is_ipv4 : Option Ip → Bool
  is_ipv4 (some (ipv4 n)) = true
  is_ipv4 _ = false

  unfoldable pub keep_dns : Bool → String → Option (List String) → Option (List String)
  keep_dns ok d none = none
  keep_dns false d (some ds) = none
  keep_dns true d (some ds) = some (d ∷ ds)

  -- The servers that are not blank: none where one is no IPv4 address.
  unfoldable pub clean_dns : List String → Option (List String)
  unfolding keep_dns
  clean_dns [] = some []
  clean_dns (d ∷ ds) =
      let rest = clean_dns ds in
      if is_empty (trim_space d)
      then rest
      else keep_dns (is_ipv4 (parse_ip (trim_space d))) (trim_space d) rest

  unfoldable pub gateway_of : Address → ℕ → ℕ → Option Ip → Checked
  unfolding network
  gateway_of a ip ones none = refused "gateway: an IPv4 address"
  gateway_of a ip ones (some ipv6) = refused "gateway: an IPv4 address"
  gateway_of a ip ones (some (ipv4 gw)) =
      if not (network gw ones == network ip ones)
      then refused "gateway: not inside the prefix"
      else if gw == ip
      then refused "gateway: the same as the address"
      else valid a

  unfoldable pub in_network : Address → ℕ → ℕ → Option ℕ → Checked
  unfolding gateway_of
  in_network a ip ones none = panics
  in_network a ip ones (some last) =
      if equal (sixteen (in_sixteen ip)) (four last)
      then refused "address: the network or broadcast address of its own prefix"
      else if is_empty a.gateway
      then valid a
      else gateway_of a ip ones (parse_ip a.gateway)

  -- An address that `To4` takes, in its network.
  unfoldable pub static_in : Address → ℕ → ℕ → Bytes → Checked
  unfolding in_network equal in_sixteen broadcast_of
  static_in a ip ones net =
      if ltb ones 1 || ltb 30 ones
      then refused "address: a prefix between /1 and /30"
      else if equal (sixteen (in_sixteen ip)) net
      then refused "address: the network or broadcast address of its own prefix"
      else in_network a ip ones (broadcast_of ones net)

  unfoldable pub static_of : Address → Option Cidr → Checked
  unfolding network masked static_in
  static_of a none = refused "address: an IPv4 address with its prefix, such as 192.168.1.20/24"
  static_of a (some (other ones)) =
      refused "address: an IPv4 address with its prefix, such as 192.168.1.20/24"
  static_of a (some (mapped ip ones)) = static_in a ip ones (masked ip ones)
  static_of a (some (plain ip ones)) = static_in a ip ones (four (network ip ones))

  abbrev has_any : List String → Bool
  has_any [] = false
  has_any (d ∷ ds) = true

  unfoldable pub with_dns : Address → Option (List String) → Checked
  unfolding static_of
  with_dns a none = refused "dns: not an IPv4 address"
  with_dns a (some ds) =
      if is_empty a.cidr
      then (if not (is_empty a.gateway) || has_any ds
          then refused "back to DHCP takes no gateway or DNS"
          else valid (record a { dns = ds }))
      else static_of (record a { dns = ds }) (parse_cidr a.cidr)

  abbrev pub trimmed : Address → Address
  trimmed a = record {
    interface = trim_space a.interface;
    cidr = trim_space a.cidr;
    gateway = trim_space a.gateway;
    dns = a.dns;
  }

  -- `Validate`.
  unfoldable pub validate : Address → Checked
  unfolding with_dns is_iface_name clean_dns
  validate a =
      if not (is_iface_name (trim_space a.interface))
      then refused "interface: a name such as eth0 or enp3s0"
      else with_dns (trimmed a) (clean_dns a.dns)

-- What one try at the confirmation meets at the address: nothing, a key that is not the machine's, an
-- SSH error while it runs, or the script's exit code.
pub data Try : Type 0 where
  no_answer : Try
  other_key : Try
  broken : Try
  ran : ℕ → Try

pub data Outcome : Type 0 where
  changed : Outcome
  fails : String → Outcome
  crashed : Outcome

abbrev pub exit_zero : Try → Bool
exit_zero (ran code) = code == 0
exit_zero _ = false

abbrev is_other_key : Try → Bool
is_other_key other_key = true
is_other_key _ = false

-- The tries that fit in the window, in order.
unfoldable pub confirm_tries : List Try → Outcome
confirm_tries [] = fails "the hub could not reach it"
confirm_tries (t ∷ ts) =
    let rest = confirm_tries ts in
    if exit_zero t
    then changed
    else if is_other_key t
    then fails "a different host key answered"
    else rest

-- `confirmAddress`: every try dials the address it is given. What tries meet at each address is an
-- argument.
unfoldable pub confirm_address : (String → List Try) → String → Outcome
unfolding confirm_tries
confirm_address tries at = confirm_tries (tries at)

-- The answer of address.sh on the machine: an error of SSH, or its exit code.
pub data Launch : Type 0 where
  unreached : Launch
  exited : ℕ → Launch

-- `launchAddress`.
unfoldable pub launch_address : Launch → Option String
launch_address unreached = some "unreached"
launch_address (exited code) =
    if code == 0 then none else some "address change refused, machine unchanged"

-- The address that the host's row has after the change, if the row takes it.
moved : Bool → String → String → Outcome → String × Outcome
moved saves addr want (fails e) = (addr, fails e)
moved saves addr want crashed = (addr, crashed)
moved saves addr want changed =
    if str_eq want addr
    then (addr, changed)
    else if saves
    then (want, changed)
    else (addr, fails "the row was not written")

launched : Bool → String → String → (String → List Try) → Option String → String × Outcome
unfolding moved confirm_address
launched saves addr want tries (some e) = (addr, fails e)
launched saves addr want tries none = moved saves addr want (confirm_address tries want)

module _ (parse_ip : String → Option Ip) (parse_cidr : String → Option Cidr)
    (show_ip : ℕ → String) where
  -- `ip.String()` of the address, or the address the host had.
  unfoldable pub wanted : String → Option Cidr → String
  wanted addr (some (plain ip ones)) = show_ip ip
  wanted addr (some (mapped ip ones)) = show_ip ip
  wanted addr _ = addr

  unfoldable pub want_of : String → Address → String
  unfolding wanted
  want_of addr a = if is_empty a.cidr then addr else wanted addr (parse_cidr a.cidr)

  set_checked : Bool → String → Launch → (String → List Try) → Checked → String × Outcome
  unfolding launched launch_address want_of
  set_checked saves addr launch tries (refused e) = (addr, fails e)
  set_checked saves addr launch tries panics = (addr, crashed)
  set_checked saves addr launch tries (valid a) =
      launched saves addr (want_of addr a) tries (launch_address launch)

  -- `SetAddress`: the address of the host's row after it, and the outcome.
  unfoldable pub set_address :
      Bool → String → Launch → (String → List Try) → Address → String × Outcome
  unfolding set_checked validate
  set_address saves addr launch tries a =
      set_checked saves addr launch tries (validate parse_ip parse_cidr a)
