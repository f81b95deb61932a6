-- ===== src/Tests/Packing.antt =====
-- The packing of updates, and what an external peer is sent, at the test data.
use mathlib.Core.List.{Perm}
use goplane.Prelude.{
  true, false, List, [], ◌∷◌, ◌++◌, some, ◌≡◌, refl, arith, ◌+◌, ◌*◌, ◌≤◌, ◌<◌, ◌==◌, length, map,
  All,
}
use goplane.Bgp.{Attr, as4, v4, Nlri, get_type, attr_as_path, no_ip}
use goplane.RoutePath.{RoutePath, get_path_attr}
use goplane.RoutePath.Attrs.{get_path_attrs, note_attrs, merge_root, sort_by_type, insert_by_type}
use goplane.RoutePath.Prepend.{flat, IsBounded}
use goplane.RoutePath.AsPath.{get_as_path}
use goplane.RoutePath.Rewrite.{remove_all}
use goplane.RoutePath.Rewrite.AsNumbers.{after_removal}
use goplane.RoutePath.Advertise.{Neighbor, AttrFlags, external_peer, update_path_attrs}
use goplane.RoutePath.Advertise.Kept.{segments}
use goplane.RoutePath.Advertise.Once.{sent}
use goplane.RoutePath.Advertise.External.{update_path_attrs-external}
use goplane.Message.Aggregator.{update_path_aggregator_2byte_as, update_path_aggregator_4byte_as}
use goplane.Message.Aggregator.RoundTrip.{update_path_aggregator-round_trip}
use goplane.Message.Packer.{
  Codec, BgpMessage, chunks, nlri_of, nlri_size, create_update_msg_from_paths,
}
use goplane.Message.Packer.Chunks.{joined, chunks-fit}
use goplane.Message.Packer.Cages.{Fits}
use goplane.Message.Packer.Held.{contents}
use goplane.Message.Packer.Announced.{told_by, create_update_msg_from_paths-told}
use goplane.Tests.Data.{from_one, from_two, withdrawn, peer}

abbrev codec : Codec
codec = record { serialize = λ a. get_type a ∷ []; attr_len = λ a. 7 }

chunks-fit_example :
    (l : List (List Nlri)) × (chunks true 4040 (from_one ∷ from_two ∷ []) ≡ some l)
    × (joined l ≡ map nlri_of (from_one ∷ from_two ∷ []))
    × All (λ nlris. (0 < length nlris) × (23 + 4040 + nlri_size true * length nlris ≤ 4096)) l
chunks-fit_example = chunks-fit true 4040 (from_one ∷ from_two ∷ []) (omega arith)

one-Fits : Fits codec false from_one
unfolding get_path_attrs note_attrs merge_root sort_by_type insert_by_type
one-Fits = omega arith

two-Fits : Fits codec false from_two
unfolding get_path_attrs note_attrs merge_root sort_by_type insert_by_type
two-Fits = omega arith

withdrawn-Fits : Fits codec false withdrawn
unfolding get_path_attrs note_attrs merge_root sort_by_type insert_by_type
withdrawn-Fits = omega arith

create_update_msg_from_paths-told_example :
    (ms : List BgpMessage) × (create_update_msg_from_paths codec false
        (from_one ∷ withdrawn ∷ from_two ∷ [])
      ≡ some ms)
    × Perm (contents codec ms) (told_by codec (from_one ∷ withdrawn ∷ from_two ∷ []))
create_update_msg_from_paths-told_example =
    create_update_msg_from_paths-told codec false (from_one ∷ withdrawn ∷ from_two ∷ [])
      (one-Fits, (withdrawn-Fits, (two-Fits, tt)))

update_path_aggregator-round_trip_example :
    update_path_aggregator_4byte_as (
      update_path_aggregator_2byte_as (
        (Attr.origin 0 ∷ []) ++ Attr.aggregator as4 4200000001 (v4 5) ∷ (Attr.local_pref 100 ∷ [])))
    ≡ some
        ((Attr.origin 0 ∷ []) ++ Attr.aggregator as4 4200000001 (v4 5) ∷ (Attr.local_pref 100 ∷ []))
update_path_aggregator-round_trip_example =
    update_path_aggregator-round_trip (Attr.origin 0 ∷ []) (Attr.local_pref 100 ∷ []) 4200000001
      (v4 5) (tt, tt) (tt, tt)

abbrev flags : AttrFlags
flags = record { is_known = λ t. t == attr_as_path; is_transitive = λ a. true }

abbrev neighbor : Neighbor
neighbor = record {
  peer_type = external_peer;
  route_server_client = false;
  route_reflector_client = false;
  cluster_id = no_ip;
  local_as = 65000;
  remove_private = remove_all;
  peer_as = 65002;
  member_as_list = 65010 ∷ [];
  router_id = v4 1;
}

one-IsBounded : IsBounded (segments from_one)
unfolding get_as_path get_path_attr
one-IsBounded = (omega arith, tt)

update_path_attrs-external_example :
    (r : RoutePath) × (update_path_attrs flags neighbor (peer 65002 12) from_one ≡ some r)
    × (flat (segments r) ≡ 65000 ∷ after_removal 65000 remove_all (sent false (segments from_one)))
update_path_attrs-external_example =
    update_path_attrs-external flags neighbor (peer 65002 12) from_one refl refl refl one-IsBounded
