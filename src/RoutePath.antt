-- ===== src/RoutePath.antt =====
-- internal/pkg/table/path.go: a path, its origin, and the chain of path attributes.
-- A `*Path` that `Clone` made points to its parent; the model keeps the parent chain as a list of
-- layers, the nearest parent first and the root last, and the root's `originInfo` beside it.
use goplane.Prelude.{
  ℕ, Bool, true, false, List, [], ◌∷◌, Option, none, some, ◌==◌, leb, if◌then◌else◌, any, ◌>>=◌,
  ◌++◌, keep, not, ◌||◌,
}
use goplane.Bgp.{Ip, no_ip, is_nil, ip_equal, Nlri, Attr, get_type}
pub mod Attrs
pub mod Access
pub mod AsPath
pub mod Values
pub mod Rewrite
pub mod Nexthop
pub mod Advertise
pub mod Med
pub mod Compare
pub mod Prepend

-- `type PeerInfo` of destination.go.
pub record PeerInfo : Type 0 where
  pub asn : ℕ
  pub id : Ip
  pub local_as : ℕ
  pub local_id : Ip
  pub address : Ip
  pub local_address : Ip
  pub route_reflector_client : Bool
  pub route_reflector_cluster_id : Ip
  pub multihop_ttl : ℕ
  pub confederation : Bool

-- `(lhs *PeerInfo) Equal`, on two peers that are not nil; equal pointers have equal fields.
unfoldable pub peer_equal : PeerInfo → PeerInfo → Bool
peer_equal lhs rhs =
    if lhs.asn == rhs.asn
    then (if ip_equal lhs.id rhs.id
        then (if ip_equal lhs.local_id rhs.local_id
            then ip_equal lhs.address rhs.address
            else false)
        else false)
    else false

pub record OriginInfo : Type 0 where
  pub nlri : Nlri
  pub source : PeerInfo
  pub timestamp : ℕ
  pub no_implicit_withdraw : Bool
  pub is_from_external : Bool
  pub eor : Bool
  pub stale : Bool

-- The `pathAttrs` and `dels` of one link of the chain.
pub record Layer : Type 0 where
  pub path_attrs : List Attr
  pub dels : List ℕ

pub record RoutePath : Type 0 where
  pub info : OriginInfo
  pub top : Layer
  pub parents : List Layer
  pub attrs_hash : ℕ
  pub rejected : Bool
  pub dropped : Bool
  pub is_nexthop_invalid : Bool
  pub is_withdraw : Bool

abbrev pub layers : RoutePath → List Layer
layers p = p.top ∷ p.parents

-- `NewPath`, with a source and with attributes (a withdrawal may have none).
unfoldable pub new_path : PeerInfo → Nlri → Bool → List Attr → ℕ → Bool → RoutePath
new_path source nlri is_withdraw pattrs timestamp no_implicit_withdraw = record {
  info = record {
    nlri = nlri;
    source = source;
    timestamp = timestamp;
    no_implicit_withdraw = no_implicit_withdraw;
    is_from_external = false;
    eor = false;
    stale = false;
  };
  top = record { path_attrs = pattrs; dels = [] };
  parents = [];
  attrs_hash = 0;
  rejected = false;
  dropped = false;
  is_nexthop_invalid = false;
  is_withdraw = is_withdraw;
}

-- `Clone`
unfoldable pub clone : RoutePath → Bool → RoutePath
clone p is_withdraw = record {
  info = p.info;
  top = record { path_attrs = []; dels = [] };
  parents = layers p;
  attrs_hash = p.attrs_hash;
  rejected = false;
  dropped = false;
  is_nexthop_invalid = p.is_nexthop_invalid;
  is_withdraw = is_withdraw;
}

abbrev pub is_local : RoutePath → Bool
is_local p = is_nil p.info.source.address

abbrev pub is_ibgp : RoutePath → Bool
is_ibgp p =
    if p.info.source.asn == p.info.source.local_as then not (p.info.source.asn == 0) else false

abbrev pub set_nlri : RoutePath → Nlri → RoutePath
set_nlri p n = let i = p.info in record p { info = record i { nlri = n } }

-- `path.GetNlri().SetPathLocalIdentifier(id)`
abbrev pub set_path_local_id : RoutePath → ℕ → RoutePath
set_path_local_id p id = let n = p.info.nlri in set_nlri p (record n { path_local_id = id })

abbrev pub set_timestamp : RoutePath → ℕ → RoutePath
set_timestamp p t = let i = p.info in record p { info = record i { timestamp = t } }

abbrev pub mark_stale : RoutePath → Bool → RoutePath
mark_stale p s = let i = p.info in record p { info = record i { stale = s } }

-- `getPathAttr`: the nearest layer that deletes or sets the type decides.
unfoldable pub find_attr : ℕ → List Attr → Option Attr
find_attr typ [] = none
find_attr typ (a ∷ l) = let rest = find_attr typ l in if get_type a == typ then some a else rest

abbrev pub has : ℕ → List ℕ → Bool
has t = any (λ u. u == t)

unfoldable pub find_in_layers : ℕ → List Layer → Option Attr
unfolding find_attr
find_in_layers typ [] = none
find_in_layers typ (l ∷ ls) =
    let rest = find_in_layers typ ls in
    if has typ l.dels
    then none
    else elim (find_attr typ l.path_attrs) [ some a ↦ some a | none ↦ rest ]

unfoldable pub get_path_attr : RoutePath → ℕ → Option Attr
unfolding find_in_layers
get_path_attr p typ = find_in_layers typ (layers p)

-- The loop of `setPathAttr`: the first attribute of the type is replaced, else one is added.
unfoldable pub put_attr : Attr → List Attr → List Attr
put_attr a [] = a ∷ []
put_attr a (b ∷ bs) =
    let rest = put_attr a bs in if get_type a == get_type b then a ∷ bs else b ∷ rest

unfoldable pub set_path_attr : RoutePath → Attr → RoutePath
unfolding put_attr
set_path_attr p a =
    let l = p.top in record p { top = record l { path_attrs = put_attr a l.path_attrs } }

unfoldable pub del_path_attr : RoutePath → ℕ → RoutePath
del_path_attr p typ = let l = p.top in record p { top = record l { dels = l.dels ++ typ ∷ [] } }
