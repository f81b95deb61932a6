-- ===== src/Tests/RoutePaths.antt =====
-- The attribute chain and the AS path operations at the test data.
use goplane.Prelude.{
  ℕ, false, List, [], ◌∷◌, ◌++◌, none, some, ◌≡◌, refl, arith, ◌==◌, if◌then◌else◌, replicate, ◌-◌,
}
use mathlib.Core.Logic.{◌≢◌}
use goplane.Bgp.{
  Attr, get_type, AsPathParam, new_as4_path_param, seg_seq, attr_as_path, attr_communities,
}
use goplane.RoutePath.{RoutePath, clone, has, find_attr, get_path_attr, set_path_attr}
use goplane.RoutePath.Attrs.{get_path_attrs, find-get_path_attrs}
use goplane.RoutePath.Access.{get_path_attr-set_path_attr}
use goplane.RoutePath.AsPath.{get_as_path, or_nil, prepend_asn, prepend_segments}
use goplane.RoutePath.Prepend.{flat, IsPrepended, prepend_asn_lem, prepend_segments_overwrites}
use goplane.Tests.Data.{from_one}

abbrev changed : RoutePath
changed = set_path_attr (clone from_one false) (Attr.communities (7 ∷ []))

find-get_path_attrs_example :
    find_attr attr_communities (get_path_attrs changed) ≡ get_path_attr changed attr_communities
find-get_path_attrs_example = find-get_path_attrs changed attr_communities

get_path_attr-set_path_attr_example :
    get_path_attr (set_path_attr changed (Attr.communities [])) attr_communities ≡ (
      if has attr_communities changed.top.dels
      then none
      else if get_type (Attr.communities []) == attr_communities
      then some (Attr.communities [])
      else get_path_attr changed attr_communities)
get_path_attr-set_path_attr_example =
    get_path_attr-set_path_attr changed (Attr.communities []) attr_communities

prepend_asn_lem_example :
    (p' : RoutePath) × (prepend_asn 65000 3 false from_one ≡ some p')
    × IsPrepended 3 65000 (or_nil (get_as_path from_one)) (or_nil (get_as_path p'))
    × ((typ : ℕ) → typ ≢ attr_as_path → get_path_attr p' typ ≡ get_path_attr from_one typ)
unfolding get_as_path get_path_attr
prepend_asn_lem_example = prepend_asn_lem 65000 3 false from_one (omega arith) refl (omega arith)

prepend_segments_overwrites_example :
    (l' : List AsPathParam) × (prepend_segments seg_seq 65000 255
        (new_as4_path_param seg_seq (65001 ∷ 65003 ∷ []) ∷ [])
      ≡ some l')
    × (flat l'
        ≡ (65001 ∷ 65003 ∷ []) ++ ((replicate (255 - 2) 65000 ++ (65001 ∷ 65003 ∷ [])) ++ flat []))
prepend_segments_overwrites_example =
    prepend_segments_overwrites 65000 (new_as4_path_param seg_seq (65001 ∷ 65003 ∷ [])) []
      (omega arith) (omega arith)
