-- ===== src/Tests/Data.antt =====
-- Paths of two external peers and one that is made locally, and a destination that knows one of them.
use goplane.Prelude.{
  ℕ, true, false, List, [], ◌∷◌, replicate, length, ◌==◌, if◌then◌else◌, inr, refl, arith,
}
use goplane.Bgp.{
  no_ip, v4, Attr, Nlri, Packet, new_as4_path_param, seg_seq, seg_set, get_type, rf_ipv4_uc,
}
use goplane.Bitmap.{Bitmap, get_flag}
use goplane.RoutePath.{RoutePath, PeerInfo}
use goplane.Destination.{SelectionOptions}
use goplane.Destination.Calculate.{Destination}
use goplane.Destination.Calculate.Entered.{IsValid, IsIncoming}

-- A set counts one in an AS path, a sequence its numbers, and a confederation segment nothing.
abbrev pub packet : Packet
packet = record {
  as_len =
      λ s. if s.seg_type == seg_seq then length s.asns else if s.seg_type == seg_set then 1 else 0;
  serialize = λ a. get_type a ∷ [];
}

abbrev pub options : SelectionOptions
options = record {
  always_compare_med = false;
  ignore_as_path_length = false;
  external_compare_router_id = false;
  disable_best_path_selection = false;
}

abbrev pub peer : ℕ → ℕ → PeerInfo
peer asn host = record {
  asn = asn;
  id = v4 host;
  local_as = 65000;
  local_id = v4 1;
  address = v4 host;
  local_address = v4 1;
  route_reflector_client = false;
  route_reflector_cluster_id = no_ip;
  multihop_ttl = 0;
  confederation = false;
}

abbrev pub prefix : ℕ → Nlri
prefix local_id = record { family = rf_ipv4_uc; key = 10; path_id = 0; path_local_id = local_id }

abbrev pub as_sequence : List ℕ → Attr
as_sequence l = Attr.as_path (new_as4_path_param seg_seq l ∷ [])

abbrev pub route : PeerInfo → ℕ → List ℕ → RoutePath
route source local_id asns = record {
  info = record {
    nlri = prefix local_id;
    source = source;
    timestamp = 1000;
    no_implicit_withdraw = false;
    is_from_external = false;
    eor = false;
    stale = false;
  };
  top = record {
    path_attrs = Attr.origin 0 ∷ as_sequence asns ∷ Attr.next_hop (v4 7) ∷ [];
    dels = [];
  };
  parents = [];
  attrs_hash = 0;
  rejected = false;
  dropped = false;
  is_nexthop_invalid = false;
  is_withdraw = false;
}

abbrev pub from_one : RoutePath
from_one = route (peer 65001 11) 1 (65001 ∷ 65003 ∷ [])

abbrev pub from_two : RoutePath
from_two = route (peer 65002 12) 0 (65002 ∷ 65003 ∷ [])

abbrev pub withdrawn : RoutePath
withdrawn = let p = route (peer 65001 11) 0 [] in record p { is_withdraw = true; dropped = true }

-- Positions 0 and 1 are taken.
abbrev pub two_taken : Bitmap
two_taken = (true ∷ true ∷ replicate 62 false) ∷ []

abbrev pub known_one : Destination
known_one = record { known_path_list = from_one ∷ []; local_id_map = two_taken }

pub known_one-IsValid : IsValid known_one
unfolding get_flag
known_one-IsValid = record {
  words = (refl, tt);
  zero_taken = refl;
  have_ids = ((omega arith, refl), tt);
  ids_differ = (tt, tt);
  keys_differ = (tt, tt);
  routers = (inr (11, refl), tt);
}

pub from_two-IsIncoming : IsIncoming from_two
from_two-IsIncoming = record { no_id = refl; replaces = refl; router = inr (12, refl) }

pub withdrawn-IsIncoming : IsIncoming withdrawn
withdrawn-IsIncoming = record { no_id = refl; replaces = refl; router = inr (11, refl) }
