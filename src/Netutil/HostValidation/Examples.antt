-- ===== src/Netutil/HostValidation/Examples.antt =====
-- Addresses and hosts at concrete inputs.
use rayavriti_netmonitor.Common.{◌≡◌, refl, none, some, [], ◌∷◌}
use rayavriti_netmonitor.Netutil.HostValidation.{
  v4, v6, default_host_policy, strict_host_policy, allowed, loopback_blocked, link_local_blocked,
  World, unmap, is_private, check_class, check_unmapped, check_addr, check_each, check_resolved,
  check_literal, validate_host,
}
use rayavriti_netmonitor.Netutil.HostValidation.Destination.{
  AllPermitted, validate_host-destination,
}

-- 64:ff9b::7f00:1 and ::ffff:169.254.169.254
nat64_loopback : check_addr (v6 100 65435 0 0 0 0 32512 1) default_host_policy ≡ loopback_blocked
unfolding check_addr unmap check_unmapped check_class
nat64_loopback = refl

mapped_link_local :
    check_addr (v6 0 0 0 0 0 65535 43518 43518) default_host_policy ≡ link_local_blocked
unfolding check_addr unmap check_unmapped check_class
mapped_link_local = refl

abbrev public : World
public = record {
  split_host_port = λ s. none;
  parse_addr = λ s. none;
  lookup_ip = λ s. some (v4 93 184 216 34 ∷ []);
}

public_accepted : validate_host public "example.org" strict_host_policy ≡ allowed
unfolding validate_host check_literal check_resolved check_each check_addr unmap check_unmapped
    check_class is_private
public_accepted = refl

validate_host-destination_example : AllPermitted strict_host_policy (some (v4 93 184 216 34 ∷ []))
validate_host-destination_example =
    validate_host-destination public "example.org" strict_host_policy refl public_accepted
