-- ===== src/Fleet/Examples.antt =====
-- Enrollment at concrete reports.
use homedash.Prelude.{List, String, Bool, true, false, ◌+◌, ◌≤◌, none, some, [], ◌∷◌, length}
use homedash.Prelude.{Option, str_eq, if◌then◌else◌, ◌≡◌, refl, arith}
use homedash.Prelude.Text.{trim_space, trim_left, trim_right, is_space}
use homedash.Fleet.{Registry}
use homedash.Fleet.Address.{
  Address, Ip, ipv4, Cidr, plain, mapped, panics, size_of, network, broadcast, is_name_char,
  name_chars, within, is_iface_name, keep_dns, clean_dns, gateway_of, in_sixteen, to4, equal,
  broadcast_of, in_network, static_in, static_of, with_dns, validate, Try, no_answer, ran, exited,
  set_address,
}
use homedash.Fleet.Address.Range.{IsHostAddress, validate-IsHostAddress, validate_panics}
use homedash.Fleet.Address.Moves.{RightlyFor, set_address-RightlyFor}
use homedash.Hosts.{offline}
use homedash.Fleet.Mobile.{Phone, find_phone, put_online, push_from, push, is_stale, mark_stale}
use homedash.Fleet.Once.{Call, reports, unused, reports-unused}

abbrev any_key : String → Bool
any_key key = true

abbrev registry : Registry
registry = record {
  codes =
      record {
        code = "abc23";
        name = "attic";
        is_mobile = false;
        rebuild_from = 0;
        expires = 900;
        used = false;
      }
      ∷ [];
  hosts = [];
  notes = [];
}

abbrev call : Call
call = record {
  now = 5;
  code = "abc23";
  ip = "10.0.0.7";
  body = some (record { port = 0; host_key = "ssh-ed25519 AAAA"; facts = none });
}

reports-unused_example :
    length (reports any_key (call ∷ call ∷ []) registry).hosts
      + unused (reports any_key (call ∷ call ∷ []) registry).codes
    ≤ length registry.hosts + unused registry.codes
reports-unused_example = reports-unused any_key (call ∷ call ∷ []) registry

-- 192.168.1.20, and the gateway 192.168.1.1.
abbrev read_ip : String → Option Ip
read_ip s = if str_eq s "192.168.1.1" then some (ipv4 3232235777) else none

abbrev read_cidr : String → Option Cidr
read_cidr s =
    if str_eq s "192.168.1.20/24"
    then some (plain 3232235796 24)
    else if str_eq s "::ffff:192.168.1.20/24"
    then some (mapped 3232235796 24)
    else none

abbrev wished : Address
wished = record { interface = "eth0"; cidr = " 192.168.1.20/24"; gateway = "192.168.1.1"; dns = [] }

abbrev taken : Address
taken = record { interface = "eth0"; cidr = "192.168.1.20/24"; gateway = "192.168.1.1"; dns = [] }

abbrev in_ipv6 : Address
in_ipv6 = record {
  interface = "eth0";
  cidr = "::ffff:192.168.1.20/24";
  gateway = "";
  dns = "192.168.1.1" ∷ [];
}

validate-IsHostAddress_example : IsHostAddress read_ip read_cidr taken
unfolding validate is_iface_name name_chars is_name_char within clean_dns with_dns static_of
    static_in in_network in_sixteen to4 equal broadcast_of gateway_of network broadcast size_of
    trim_space trim_left trim_right is_space
validate-IsHostAddress_example = validate-IsHostAddress read_ip read_cidr wished taken refl refl

validate_panics_example : validate read_ip read_cidr in_ipv6 ≡ panics
unfolding is_iface_name name_chars is_name_char within clean_dns keep_dns trim_space trim_left
    trim_right is_space
validate_panics_example =
    validate_panics read_ip read_cidr in_ipv6 ("192.168.1.1" ∷ []) 3232235796 24 refl refl refl refl
      (omega arith) (omega arith)

-- Nothing answers at the old address, and the second try at the new one confirms.
abbrev at_new : String → List Try
at_new at = if str_eq at "192.168.1.20" then no_answer ∷ ran 0 ∷ [] else no_answer ∷ []

set_address-RightlyFor_example :
    RightlyFor read_ip read_cidr
      (λ n. "192.168.1.20")
      "10.0.0.7"
      at_new
      (validate read_ip read_cidr wished)
      (set_address read_ip read_cidr (λ n. "192.168.1.20") true "10.0.0.7" (exited 0) at_new wished)
set_address-RightlyFor_example =
    set_address-RightlyFor read_ip read_cidr (λ n. "192.168.1.20") true "10.0.0.7" (exited 0) at_new
      wished

abbrev pixel : Phone
pixel = record {
  id = 3;
  name = "pixel";
  is_mobile = true;
  device_key = "k1";
  status = offline;
  last_seen = none;
  facts = "{}";
}

quiet_test :
    (mark_stale 280 (push (λ old new. new) 100 3 "k1" "{}" (pixel ∷ [])).1).1
    ≡ ("host.offline", "pixel") ∷ []
unfolding mark_stale is_stale push push_from put_online find_phone
quiet_test = refl
