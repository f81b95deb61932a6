-- ===== src/RoutePath/Advertise.antt =====
-- `UpdatePathAttrs` of internal/pkg/table/path.go: the attributes of a path for a peer that it is sent
-- to. `none` is a run-time panic. Of the package bgp the code asks whether it knows a type of
-- attribute, and whether an attribute is transitive.
use goplane.Prelude.{
  ℕ, Bool, true, false, List, [], ◌∷◌, Option, none, some, ◌==◌, ◌&&◌, ◌||◌, not, any,
  if◌then◌else◌, ◌>>=◌,
}
use goplane.Bgp.{
  Ip, is_unspecified, Attr, get_type, attr_cluster_list, attr_originator_id, attr_multi_exit_disc,
  attr_as_path, attr_local_pref, rf_rtc_uc,
}
use goplane.RoutePath.{
  RoutePath, PeerInfo, clone, get_path_attr, set_path_attr, del_path_attr, is_local,
}
use goplane.RoutePath.Attrs.{get_path_attrs}
use goplane.RoutePath.AsPath.{prepend_asn}
use goplane.RoutePath.Values.{default_local_pref}
use goplane.RoutePath.Rewrite.{RemovePrivateAsOption, remove_private_as, remove_confed_as}
use goplane.RoutePath.Nexthop.{get_nexthop, set_nexthop}
pub mod Kept
pub mod Once
pub mod External

pub data PeerType : Type 0 where
  internal_peer external_peer unset_peer : PeerType

-- What the code reads of the configurations, the global one and the neighbor's.
pub record Neighbor : Type 0 where
  pub peer_type : PeerType
  pub route_server_client : Bool
  pub route_reflector_client : Bool
  pub cluster_id : Ip
  pub local_as : ℕ
  pub remove_private : RemovePrivateAsOption
  pub peer_as : ℕ
  pub member_as_list : List ℕ
  pub router_id : Ip

-- `IsConfederationMember` of internal/pkg/config/util.go.
abbrev pub is_confederation_member : Neighbor → Bool
is_confederation_member n = any (λ member. member == n.peer_as) n.member_as_list

pub record AttrFlags : Type 0 where
  pub is_known : ℕ → Bool
  pub is_transitive : Attr → Bool

abbrev pub is_internal : PeerType → Bool
is_internal internal_peer = true
is_internal _ = false

-- The first loop: what is not passed on is deleted.
unfoldable pub drops : AttrFlags → Neighbor → Attr → Bool
drops flags peer a =
    if flags.is_known (get_type a)
    then (get_type a == attr_cluster_list || get_type a == attr_originator_id)
      && not (is_internal peer.peer_type && peer.route_reflector_client)
    else not (flags.is_transitive a)

unfoldable pub strip : AttrFlags → Neighbor → List Attr → RoutePath → RoutePath
strip flags peer [] p = p
strip flags peer (a ∷ l) p =
    strip flags peer l (if drops flags peer a then del_path_attr p (get_type a) else p)

abbrev pub is_some : Option Attr → Bool
is_some none = false
is_some (some a) = true

unfoldable pub drop_med : RoutePath → RoutePath
drop_med p =
    if is_some (get_path_attr p attr_multi_exit_disc) && not (is_local p)
    then del_path_attr p attr_multi_exit_disc
    else p

unfoldable pub for_external : Neighbor → Ip → RoutePath → Option RoutePath
for_external peer local_address p = do
  let hopped =
      if not (is_local p) || is_unspecified (get_nexthop p) then set_nexthop local_address p else p
  let without = remove_private_as peer.local_as peer.remove_private hopped
  prepended ← prepend_asn peer.local_as 1 (is_confederation_member peer) without
  let final = if is_confederation_member peer then prepended else remove_confed_as prepended
  some (drop_med final)

abbrev pub cluster_list_of : Attr → List Ip
cluster_list_of (Attr.cluster_list l) = l
cluster_list_of _ = []

-- RFC 4456: the originator of a reflected route, and the clusters that it went through.
unfoldable pub set_originator : Neighbor → Ip → RoutePath → RoutePath
set_originator peer local_address p =
    if p.info.nlri.family == rf_rtc_uc
    then set_path_attr (set_nexthop local_address p) (Attr.originator_id p.info.source.local_id)
    else if is_some (get_path_attr p attr_originator_id)
    then p
    else set_path_attr p
        (Attr.originator_id (if is_local p then peer.router_id else p.info.source.id))

unfoldable pub add_cluster : Ip → RoutePath → RoutePath
add_cluster id p = elim (get_path_attr p attr_cluster_list) [
  | none ↦ set_path_attr p (Attr.cluster_list (id ∷ []))
  | some a ↦ set_path_attr p (Attr.cluster_list (id ∷ cluster_list_of a))
]

unfoldable pub reflect : Neighbor → Ip → RoutePath → RoutePath
reflect peer local_address p = add_cluster peer.cluster_id (set_originator peer local_address p)

unfoldable pub for_internal : Neighbor → Ip → RoutePath → Option RoutePath
for_internal peer local_address p = do
  let hopped =
      if is_local p && is_unspecified (get_nexthop p) then set_nexthop local_address p else p
  pathed ←
      if is_some (get_path_attr hopped attr_as_path)
      then some hopped
      else prepend_asn 0 0 false hopped
  let preferred =
      if is_some (get_path_attr pathed attr_local_pref)
      then pathed
      else set_path_attr pathed (Attr.local_pref default_local_pref)
  some (if peer.route_reflector_client then reflect peer local_address preferred else preferred)

unfoldable pub for_peer : PeerType → Neighbor → Ip → RoutePath → Option RoutePath
for_peer external_peer peer local_address p = for_external peer local_address p
for_peer internal_peer peer local_address p = for_internal peer local_address p
for_peer unset_peer peer local_address p = some p

unfoldable pub update_path_attrs : AttrFlags → Neighbor → PeerInfo → RoutePath → Option RoutePath
update_path_attrs flags peer info original =
    let path = clone original original.is_withdraw in
    if peer.route_server_client
    then some original
    else for_peer peer.peer_type peer info.local_address
        (strip flags peer (get_path_attrs path) path)
