-- ===== src/Bgp.antt =====
-- What the code uses of the packages that it only calls: net.IP of the standard library, and the
-- values of github.com/osrg/gobgp/pkg/packet/bgp that internal/pkg/table reads and builds. The
-- numbers of attributes, segments, families and communities are those of the IANA registries. What
-- that package computes is a parameter, `Packet`.
use goplane.Prelude.{
  ℕ, ◌+◌, ◌/◌, ◌%◌, ◌^◌, Bool, true, false, List, Option, none, some, ◌==◌, if◌then◌else◌,
}

-- net.IP: a nil slice, four bytes or sixteen, as numbers in network order.
pub data Ip : Type 0 where
  no_ip : Ip
  v4 : ℕ → Ip
  v6 : ℕ → Ip

-- The sixteen-byte form ::ffff:a.b.c.d of an IPv4 address.
abbrev pub mapped : ℕ → ℕ
mapped n = 0xffff_0000_0000 + n

-- `ip.Equal(x)`: an IPv4 address and its sixteen-byte form are equal.
abbrev pub ip_equal : Ip → Ip → Bool
ip_equal no_ip no_ip = true
ip_equal (v4 a) (v4 b) = a == b
ip_equal (v6 a) (v6 b) = a == b
ip_equal (v4 a) (v6 b) = mapped a == b
ip_equal (v6 a) (v4 b) = a == mapped b
ip_equal _ _ = false

abbrev pub is_nil : Ip → Bool
is_nil no_ip = true
is_nil _ = false

-- `ip.To4()`
abbrev pub to4 : Ip → Option ℕ
to4 no_ip = none
to4 (v4 a) = some a
to4 (v6 a) = if a / 2 ^ 32 == 0xffff then some (a % 2 ^ 32) else none

-- `ip.IsUnspecified()`: the address 0.0.0.0 or ::.
abbrev pub is_unspecified : Ip → Bool
is_unspecified no_ip = false
is_unspecified (v4 a) = a == 0
is_unspecified (v6 a) = if a == 0 then true else a == mapped 0

-- `binary.BigEndian.Uint32(ip)`: the first four bytes; a shorter slice is a run-time panic, `none`.
abbrev pub big_endian_uint32 : Ip → Option ℕ
big_endian_uint32 no_ip = none
big_endian_uint32 (v4 a) = some a
big_endian_uint32 (v6 a) = some (a / 2 ^ 96)

-- Path attribute types (bgp.BGP_ATTR_TYPE_*).
abbrev pub attr_origin : ℕ
attr_origin = 1

abbrev pub attr_as_path : ℕ
attr_as_path = 2

abbrev pub attr_next_hop : ℕ
attr_next_hop = 3

abbrev pub attr_multi_exit_disc : ℕ
attr_multi_exit_disc = 4

abbrev pub attr_local_pref : ℕ
attr_local_pref = 5

abbrev pub attr_aggregator : ℕ
attr_aggregator = 7

abbrev pub attr_communities : ℕ
attr_communities = 8

abbrev pub attr_originator_id : ℕ
attr_originator_id = 9

abbrev pub attr_cluster_list : ℕ
attr_cluster_list = 10

abbrev pub attr_mp_reach_nlri : ℕ
attr_mp_reach_nlri = 14

abbrev pub attr_extended_communities : ℕ
attr_extended_communities = 16

abbrev pub attr_as4_path : ℕ
attr_as4_path = 17

abbrev pub attr_as4_aggregator : ℕ
attr_as4_aggregator = 18

abbrev pub attr_large_community : ℕ
attr_large_community = 32

-- Segment types of an AS path (bgp.BGP_ASPATH_ATTR_TYPE_*).
abbrev pub seg_set : ℕ
seg_set = 1

abbrev pub seg_seq : ℕ
seg_seq = 2

abbrev pub seg_confed_seq : ℕ
seg_confed_seq = 3

abbrev pub seg_confed_set : ℕ
seg_confed_set = 4

-- Address families, `AFI << 16 | SAFI` (bgp.RF_*).
abbrev pub rf_ipv4_uc : ℕ
rf_ipv4_uc = 65537

abbrev pub rf_ipv6_uc : ℕ
rf_ipv6_uc = 131073

abbrev pub rf_rtc_uc : ℕ
rf_rtc_uc = 65668

-- Well-known communities (RFC 9494), and AS_TRANS (RFC 6793).
abbrev pub community_llgr_stale : ℕ
community_llgr_stale = 0xffff_0006

abbrev pub community_no_llgr : ℕ
community_no_llgr = 0xffff_0007

abbrev pub as_trans : ℕ
as_trans = 23456

-- A segment of an AS path: `*bgp.AsPathParam` holds two-byte numbers, `*bgp.As4PathParam` four-byte.
pub data AsKind : Type 0 where
  as2 as4 : AsKind

pub record AsPathParam : Type 0 where
  pub kind : AsKind
  pub seg_type : ℕ
  pub asns : List ℕ

-- bgp.NewAs4PathParam and bgp.NewAsPathParam.
abbrev pub new_as4_path_param : ℕ → List ℕ → AsPathParam
new_as4_path_param t l = record { kind = as4; seg_type = t; asns = l }

abbrev pub new_as_path_param : ℕ → List ℕ → AsPathParam
new_as_path_param t l = record { kind = as2; seg_type = t; asns = l }

-- What the code reads of a bgp.AddrPrefixInterface: its family, its table key, and the two
-- identifiers of add-path.
pub record Nlri : Type 0 where
  pub family : ℕ
  pub key : ℕ
  pub path_id : ℕ
  pub path_local_id : ℕ

-- The path attributes by the Go types that the code casts to; `unknown` is any other.
pub data Attr : Type 0 where
  origin : ℕ → Attr
  as_path : List AsPathParam → Attr
  next_hop : Ip → Attr
  multi_exit_disc : ℕ → Attr
  local_pref : ℕ → Attr
  aggregator : AsKind → ℕ → Ip → Attr
  communities : List ℕ → Attr
  originator_id : Ip → Attr
  cluster_list : List Ip → Attr
  mp_reach_nlri : Ip → List Nlri → Attr
  extended_communities : List ℕ → Attr
  as4_path : List AsPathParam → Attr
  as4_aggregator : ℕ → Ip → Attr
  large_communities : List ℕ → Attr
  unknown : ℕ → ℕ → List ℕ → Attr

-- `a.GetType()`; the first argument of `unknown` is the type that it came with.
abbrev pub get_type : Attr → ℕ
get_type (origin _) = attr_origin
get_type (as_path _) = attr_as_path
get_type (next_hop _) = attr_next_hop
get_type (multi_exit_disc _) = attr_multi_exit_disc
get_type (local_pref _) = attr_local_pref
get_type (aggregator _ _ _) = attr_aggregator
get_type (communities _) = attr_communities
get_type (originator_id _) = attr_originator_id
get_type (cluster_list _) = attr_cluster_list
get_type (mp_reach_nlri _ _) = attr_mp_reach_nlri
get_type (extended_communities _) = attr_extended_communities
get_type (as4_path _) = attr_as4_path
get_type (as4_aggregator _ _) = attr_as4_aggregator
get_type (large_communities _) = attr_large_community
get_type (unknown t _ _) = t

-- What the package computes: the length that a segment counts for in an AS path (`ASLen`), and the
-- bytes of an attribute (`Serialize`).
pub record Packet : Type 0 where
  pub as_len : AsPathParam → ℕ
  pub serialize : Attr → List ℕ
