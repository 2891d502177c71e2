-- ===== src/Netutil/HostValidation/Destination.antt =====
-- host_validation.go: what an address that is allowed is not.
use rayavriti_netmonitor.Common.{
  ◌+◌, ◌≡◌, ◌↔◌, refl, sym, ap, ◌∙◌, Bool, true, false, ◌&&◌, ◌||◌, ◌==◌, if◌then◌else◌, Bool-cases,
  inl, inr, String, str_eq, Option, none, some, List, [], ◌∷◌, All,
}
use rayavriti_netmonitor.Netutil.HostValidation.{
  Addr, v4, v6, HostPolicy, Verdict, allowed, metadata_blocked, unspecified_blocked,
  loopback_blocked, link_local_blocked, private_blocked, empty_host, unresolved, no_addresses,
  not_absolute, unsupported_scheme, no_host, is_allowed, World, host_or, check_each, check_resolved,
  check_literal, validate_host, embedded, unmap, is_loopback, is_unspecified, in_this_network,
  is_link_local_unicast, is_link_local_multicast, is_private, is_metadata, check_class,
  check_unmapped, check_addr,
}

-- Where a packet to an address ends: at the IPv4 address that it embeds, if any.
unfoldable pub destination_of : Addr → Addr
destination_of (v4 a b c d) = v4 a b c d
destination_of (v6 a b c d e f g h) =
    if (a == 100) && ((b == 65435) && (c + d + e + f == 0))
    then embedded g h
    else if a == 8194
    then embedded b c
    else v6 a b c d e f g h

unfoldable pub destination : Addr → Addr
unfolding destination_of unmap
destination ip = destination_of (unmap ip)

check_unmapped-check_class :
    (ip : Addr) (p : HostPolicy) → check_unmapped ip p ≡ check_class (destination_of ip) p
unfolding check_unmapped destination_of
check_unmapped-check_class (v4 a b c d) p = refl
check_unmapped-check_class (v6 a b c d e f g h) p =
    elim (Bool-cases ((a == 100) && ((b == 65435) && (c + d + e + f == 0)))) [
      | inl n ↦ rw n refl
      | inr n ↦ elim (Bool-cases (a == 8194)) [
        | inl s ↦ rw n (rw s refl)
        | inr s ↦ rw n (rw s refl)
      ]
    ]

-- The address is in no class that the policy rejects.
abbrev pub IsPermitted : Addr → HostPolicy → Type 0
IsPermitted ip p =
    (is_metadata ip && (p.reject_link_local || p.reject_private) ≡ false)
    × (p.reject_unspecified && (is_unspecified ip || in_this_network ip) ≡ false)
    × (p.reject_loopback && is_loopback ip ≡ false)
    × (p.reject_link_local && (is_link_local_unicast ip || is_link_local_multicast ip) ≡ false)
    × (p.reject_private && is_private ip ≡ false)

-- The checks of checkAddr, in their order.
first_blocked : Bool → Bool → Bool → Bool → Bool → Verdict
first_blocked a b c d e =
    if a
    then metadata_blocked
    else if b
    then unspecified_blocked
    else if c
    then loopback_blocked
    else if d
    then link_local_blocked
    else if e
    then private_blocked
    else allowed

first_blocked-allowed :
    (a b c d e : Bool)
    → first_blocked a b c d e ≡ allowed
    → (a ≡ false) × (b ≡ false) × (c ≡ false) × (d ≡ false) × (e ≡ false)
unfolding first_blocked
first_blocked-allowed true b c d e h = cc
first_blocked-allowed false true c d e h = cc
first_blocked-allowed false false true d e h = cc
first_blocked-allowed false false false true e h = cc
first_blocked-allowed false false false false true h = cc
first_blocked-allowed false false false false false h = (refl, refl, refl, refl, refl)

none_blocked :
    (a b c d e : Bool)
    → a ≡ false
    → b ≡ false
    → c ≡ false
    → d ≡ false
    → e ≡ false
    → first_blocked a b c d e ≡ allowed
unfolding first_blocked
none_blocked a b c d e ha hb hc hd he = rw ha (rw hb (rw hc (rw hd (rw he refl))))

is_allowed-true : (v : Verdict) → is_allowed v ≡ true → v ≡ allowed
is_allowed-true allowed h = refl
is_allowed-true metadata_blocked h = cc
is_allowed-true unspecified_blocked h = cc
is_allowed-true loopback_blocked h = cc
is_allowed-true link_local_blocked h = cc
is_allowed-true private_blocked h = cc
is_allowed-true empty_host h = cc
is_allowed-true unresolved h = cc
is_allowed-true no_addresses h = cc
is_allowed-true not_absolute h = cc
is_allowed-true unsupported_scheme h = cc
is_allowed-true no_host h = cc

-- An address is allowed exactly if its destination, which for a mapped, NAT64 or 6to4 address is the
-- IPv4 address that it embeds, is in none of the classes that the policy rejects: the metadata
-- services, the unspecified addresses, loopback, link-local and private addresses.
pub check_addr-destination :
    (ip : Addr) (p : HostPolicy) → (check_addr ip p ≡ allowed) ↔ IsPermitted (destination ip) p
unfolding check_addr destination check_class first_blocked
check_addr-destination ip p =
    let d = destination_of (unmap ip) in
    let same = check_unmapped-check_class (unmap ip) p in
    (
      (λ h. first_blocked-allowed _ _ _ _ _ (sym same ∙ h)),
      (λ (m, u, l, k, v). same ∙ none_blocked _ _ _ _ _ m u l k v),
    )

check_each-All :
    (ips : List Addr) (p : HostPolicy)
    → check_each ips p ≡ allowed
    → All (λ ip. IsPermitted (destination ip) p) ips
unfolding check_each
check_each-All [] p h = tt
check_each-All (ip ∷ ips) p h = elim (Bool-cases (is_allowed (check_addr ip p))) [
  | inl e ↦ (
    (check_addr-destination ip p).0 (is_allowed-true (check_addr ip p) e),
    check_each-All ips p (rw e at h),
  )
  | inr e ↦ let bad : ⊥ = cc (e, ap is_allowed (rw e at h)) in elim bad [ ]
]

-- The addresses of an answer, each permitted.
abbrev pub AllPermitted : HostPolicy → Option (List Addr) → Type 0
AllPermitted p o =
    (ip : Addr) × (ips : List Addr) × (o ≡ some (ip ∷ ips))
    × All (λ a. IsPermitted (destination a) p) (ip ∷ ips)

check_resolved-AllPermitted :
    (o : Option (List Addr)) (p : HostPolicy) → check_resolved o p ≡ allowed → AllPermitted p o
unfolding check_resolved
check_resolved-AllPermitted none p h = let bad : ⊥ = cc h in elim bad [ ]
check_resolved-AllPermitted (some []) p h = let bad : ⊥ = cc h in elim bad [ ]
check_resolved-AllPermitted (some (ip ∷ ips)) p h = (ip, ips, refl, check_each-All (ip ∷ ips) p h)

-- A host name that is valid leads nowhere else: if ValidateHost accepts a name that is not an address,
-- then the name resolves to at least one address, and the destination of every address that it
-- resolves to is in no class that the policy rejects.
pub validate_host-destination :
    (w : World) (host : String) (p : HostPolicy)
    → w.parse_addr (host_or host (w.split_host_port host)) ≡ none
    → validate_host w host p ≡ allowed
    → AllPermitted p (w.lookup_ip (host_or host (w.split_host_port host)))
unfolding validate_host check_literal
validate_host-destination w host p name h =
    let host_name = host_or host (w.split_host_port host) in
    elim (Bool-cases (str_eq host_name "")) [
      | inl e ↦ let bad : ⊥ = cc (rw e at h) in elim bad [ ]
      | inr e ↦ check_resolved-AllPermitted (w.lookup_ip host_name) p (rw name at (rw e at h))
    ]
