-- ===== src/Netutil/HostValidation.antt =====
-- netutil/host_validation.go: the addresses that a host resolves to are checked against a policy. An
-- IPv6 address is its eight groups of 16 bits; parsing and the resolution of names are parameters.
pub mod Destination
mod Examples
use rayavriti_netmonitor.Common.{
  ℕ, ◌+◌, ◌*◌, ◌/◌, ◌%◌, Bool, true, false, not, ◌&&◌, ◌||◌, String, str_eq, Option, none, some,
  List, [], ◌∷◌, ◌==◌, ltb, leb, if◌then◌else◌,
}

pub data Addr : Type 0 where
  v4 : ℕ → ℕ → ℕ → ℕ → Addr
  v6 : ℕ → ℕ → ℕ → ℕ → ℕ → ℕ → ℕ → ℕ → Addr

pub record HostPolicy : Type 0 where
  pub reject_loopback : Bool
  pub reject_link_local : Bool
  pub reject_unspecified : Bool
  pub reject_private : Bool

abbrev pub default_host_policy : HostPolicy
default_host_policy = record {
  reject_loopback = true;
  reject_link_local = true;
  reject_unspecified = true;
  reject_private = false;
}

abbrev pub strict_host_policy : HostPolicy
strict_host_policy = record default_host_policy { reject_private = true }

-- The errors, by what they say.
pub data Verdict : Type 0 where
  allowed : Verdict
  metadata_blocked unspecified_blocked loopback_blocked link_local_blocked private_blocked : Verdict
  empty_host unresolved no_addresses not_absolute unsupported_scheme no_host : Verdict

-- The two bytes of a group, and the IPv4 address of two groups.
abbrev pub embedded : ℕ → ℕ → Addr
embedded g h = v4 (g / 256) (g % 256) (h / 256) (h % 256)

-- netip's Unmap: ::ffff:a.b.c.d is an IPv4 address.
unfoldable pub unmap : Addr → Addr
unmap (v4 a b c d) = v4 a b c d
unmap (v6 a b c d e f g h) =
    if (a + b + c + d + e == 0) && (f == 65535) then embedded g h else v6 a b c d e f g h

abbrev pub is_loopback : Addr → Bool
is_loopback (v4 a b c d) = a == 127
is_loopback (v6 a b c d e f g h) = (a + b + c + d + e + f + g == 0) && (h == 1)

abbrev pub is_unspecified : Addr → Bool
is_unspecified (v4 a b c d) = a + b + c + d == 0
is_unspecified (v6 a b c d e f g h) = a + b + c + d + e + f + g + h == 0

abbrev pub in_this_network : Addr → Bool
in_this_network (v4 a b c d) = a == 0
in_this_network (v6 a b c d e f g h) = false

-- fe80::/10
abbrev pub is_link_local_unicast : Addr → Bool
is_link_local_unicast (v4 a b c d) = (a == 169) && (b == 254)
is_link_local_unicast (v6 a b c d e f g h) = a / 64 == 1018

abbrev pub is_link_local_multicast : Addr → Bool
is_link_local_multicast (v4 a b c d) = (a == 224) && ((b == 0) && (c == 0))
is_link_local_multicast (v6 a b c d e f g h) = (a / 256 == 255) && (a % 16 == 2)

-- 10/8, 172.16/12, 192.168/16 and fc00::/7
abbrev pub is_private_range : Addr → Bool
is_private_range (v4 a b c d) =
    (a == 10) || (((a == 172) && (b / 16 == 1)) || ((a == 192) && (b == 168)))
is_private_range (v6 a b c d e f g h) = a / 512 == 126

-- 100.64.0.0/10
abbrev pub in_cgnat : Addr → Bool
in_cgnat (v4 a b c d) = (a == 100) && (b / 64 == 1)
in_cgnat (v6 a b c d e f g h) = false

unfoldable pub is_private : Addr → Bool
is_private ip = if is_loopback ip then false else is_private_range ip || in_cgnat ip

-- 100.100.100.200 and fd00:ec2::254
abbrev pub is_metadata : Addr → Bool
is_metadata (v4 a b c d) = (a == 100) && ((b == 100) && ((c == 100) && (d == 200)))
is_metadata (v6 a b c d e f g h) =
    (a == 64768) && ((b == 3778) && ((c + d + e + f + g == 0) && (h == 596)))

-- The checks of an address that embeds no other.
unfoldable pub check_class : Addr → HostPolicy → Verdict
unfolding is_private
check_class ip p =
    if is_metadata ip && (p.reject_link_local || p.reject_private)
    then metadata_blocked
    else if p.reject_unspecified && (is_unspecified ip || in_this_network ip)
    then unspecified_blocked
    else if p.reject_loopback && is_loopback ip
    then loopback_blocked
    else if p.reject_link_local && (is_link_local_unicast ip || is_link_local_multicast ip)
    then link_local_blocked
    else if p.reject_private && is_private ip
    then private_blocked
    else allowed

-- 64:ff9b::/96 and 2002::/16
unfoldable pub check_unmapped : Addr → HostPolicy → Verdict
unfolding check_class
check_unmapped (v4 a b c d) p = check_class (v4 a b c d) p
check_unmapped (v6 a b c d e f g h) p =
    if (a == 100) && ((b == 65435) && (c + d + e + f == 0))
    then check_class (embedded g h) p
    else if a == 8194
    then check_class (embedded b c) p
    else check_class (v6 a b c d e f g h) p

unfoldable pub check_addr : Addr → HostPolicy → Verdict
unfolding unmap check_unmapped
check_addr ip p = check_unmapped (unmap ip) p

-- net.SplitHostPort, netip.ParseAddr and net.LookupIP.
pub record World : Type 0 where
  pub split_host_port : String → Option String
  pub parse_addr : String → Option Addr
  pub lookup_ip : String → Option (List Addr)

abbrev pub host_or : String → Option String → String
host_or host none = host
host_or host (some h) = h

abbrev pub is_allowed : Verdict → Bool
is_allowed v = elim v [ Verdict.allowed ↦ true | _ ↦ false ]

unfoldable pub check_each : List Addr → HostPolicy → Verdict
check_each [] p = allowed
check_each (ip ∷ ips) p =
    let rest = check_each ips p in if is_allowed (check_addr ip p) then rest else check_addr ip p

unfoldable pub check_resolved : Option (List Addr) → HostPolicy → Verdict
unfolding check_each
check_resolved none p = unresolved
check_resolved (some []) p = no_addresses
check_resolved (some (ip ∷ ips)) p = check_each (ip ∷ ips) p

unfoldable pub check_literal : World → String → Option Addr → HostPolicy → Verdict
unfolding check_addr check_resolved
check_literal w name (some ip) p = check_addr ip p
check_literal w name none p = check_resolved (w.lookup_ip name) p

unfoldable pub validate_host : World → String → HostPolicy → Verdict
unfolding check_literal
validate_host w host p =
    let name = host_or host (w.split_host_port host) in
    if str_eq name "" then empty_host else check_literal w name (w.parse_addr name) p
