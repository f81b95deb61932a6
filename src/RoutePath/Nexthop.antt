-- ===== src/RoutePath/Nexthop.antt =====
-- `GetNexthop` and `SetNexthop` of internal/pkg/table/path.go. An empty address is no address.
use goplane.Prelude.{Bool, true, List, [], ◌∷◌, none, some, ◌==◌, ◌&&◌, if◌then◌else◌}
use goplane.Bgp.{Ip, no_ip, to4, Nlri, Attr, attr_next_hop, attr_mp_reach_nlri, rf_ipv4_uc}
use goplane.RoutePath.{RoutePath, get_path_attr, set_path_attr, del_path_attr}

abbrev pub next_hop_of : Attr → Ip
next_hop_of (Attr.next_hop ip) = ip
next_hop_of (Attr.mp_reach_nlri ip nlris) = ip
next_hop_of _ = no_ip

abbrev pub mp_nlris_of : Attr → List Nlri
mp_nlris_of (Attr.mp_reach_nlri ip nlris) = nlris
mp_nlris_of _ = []

unfoldable pub get_nexthop : RoutePath → Ip
get_nexthop p = elim (get_path_attr p attr_next_hop) [
  | some a ↦ next_hop_of a
  | none ↦ elim (get_path_attr p attr_mp_reach_nlri) [ some a ↦ next_hop_of a | none ↦ no_ip ]
]

abbrev pub is_not_ipv4 : Ip → Bool
is_not_ipv4 ip = elim (to4 ip) [ none ↦ true | some n ↦ Bool.false ]

-- An attribute that is there gets the new next hop.
unfoldable pub set_next_hop_attr : Ip → RoutePath → RoutePath
set_next_hop_attr ip p = elim (get_path_attr p attr_next_hop) [
  | none ↦ p
  | some a ↦ set_path_attr p (Attr.next_hop ip)
]

unfoldable pub set_mp_reach_attr : Ip → RoutePath → RoutePath
set_mp_reach_attr ip p = elim (get_path_attr p attr_mp_reach_nlri) [
  | none ↦ p
  | some a ↦ set_path_attr p (Attr.mp_reach_nlri ip (mp_nlris_of a))
]

unfoldable pub set_nexthop : Ip → RoutePath → RoutePath
set_nexthop ip p =
    if p.info.nlri.family == rf_ipv4_uc && is_not_ipv4 ip
    then set_path_attr (del_path_attr p attr_next_hop) (Attr.mp_reach_nlri ip (p.info.nlri ∷ []))
    else set_mp_reach_attr ip (set_next_hop_attr ip p)
