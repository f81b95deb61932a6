-- ===== src/Tests/Rewrites.antt =====
-- The rewriting of attributes at the test data.
use goplane.Prelude.{
  All2, ℕ, true, false, [], ◌∷◌, ◌++◌, none, some, ◌≡◌, refl, arith, if◌then◌else◌, ◌≢◌, ◌<◌,
}
use goplane.Prelude.Int.{pos, negsuc, ◌+ℤ◌, ltb_ℤ}
use goplane.Bgp.{Attr, attr_communities}
use goplane.RoutePath.{RoutePath, clone, has, get_path_attr, set_path_attr}
use goplane.RoutePath.Values.{get_communities, get_med, get_local_pref}
use goplane.RoutePath.Rewrite.{
  remove_private_as, replace, replace_as, set_communities, remove_communities,
}
use goplane.RoutePath.Rewrite.AsNumbers.{numbers, after_removal, numbers-remove_private_as}
use goplane.RoutePath.Rewrite.Replacement.{SegmentSwapped, segments, segments-replace_as}
use goplane.RoutePath.Rewrite.Communities.{
  Removed, get_communities-set_communities, remove_communities-Removed,
}
use goplane.RoutePath.Med.{set_med, current_med, set_med-in_range, set_med-refused}
use goplane.RoutePath.Compare.{compare, compare-local_pref}
use goplane.Tests.Data.{route, peer, from_one, packet}

abbrev private_route : RoutePath
private_route = route (peer 65001 11) 1 (64600 ∷ 3000 ∷ [])

numbers-remove_private_as_example :
    numbers (remove_private_as 65000 replace private_route)
    ≡ after_removal 65000 replace (numbers private_route)
numbers-remove_private_as_example = numbers-remove_private_as 65000 replace private_route

segments-replace_as_example :
    All2
      (SegmentSwapped 65000 3000)
      (segments private_route)
      (segments (replace_as 65000 3000 private_route))
segments-replace_as_example = segments-replace_as 65000 3000 private_route

abbrev coloured : RoutePath
coloured = set_path_attr (clone from_one false) (Attr.communities (7 ∷ 8 ∷ []))

get_communities-set_communities_example :
    get_communities (set_communities (9 ∷ []) false coloured) ≡ (
      if has attr_communities coloured.top.dels
      then []
      else if false
      then 9 ∷ []
      else get_communities coloured ++ 9 ∷ [])
get_communities-set_communities_example = get_communities-set_communities (9 ∷ []) false coloured

remove_communities-Removed_example :
    Removed (8 ∷ []) coloured (remove_communities (8 ∷ []) coloured)
remove_communities-Removed_example = remove_communities-Removed (8 ∷ []) coloured

abbrev metered : RoutePath
metered = set_path_attr (clone from_one false) (Attr.multi_exit_disc 100)

sum_in_range : pos (current_med metered) +ℤ negsuc 9 ≡ pos 90
unfolding ◌+ℤ◌ get_path_attr set_path_attr clone goplane.RoutePath.Med.med_or_zero
sum_in_range = refl

set_med-in_range_example :
    (p' : RoutePath) × (set_med (negsuc 9) false metered ≡ some p') × (get_med p' ≡ some 90)
unfolding clone set_path_attr
set_med-in_range_example = set_med-in_range metered (negsuc 9) 90 (omega arith) sum_in_range refl

small_med : current_med metered < 4294967296
unfolding get_path_attr set_path_attr clone goplane.RoutePath.Med.med_or_zero
small_med = omega arith

sum_out : (v : ℕ) → v < 4294967296 → pos (current_med metered) +ℤ negsuc 200 ≢ pos v
unfolding ◌+ℤ◌ get_path_attr set_path_attr clone goplane.RoutePath.Med.med_or_zero
sum_out v h e = cc

set_med-refused_example : set_med (negsuc 200) false metered ≡ none
set_med-refused_example =
    set_med-refused metered (negsuc 200) small_med (omega arith) (omega arith) sum_out

abbrev preferred : RoutePath
preferred = set_path_attr (clone from_one false) (Attr.local_pref 200)

compare-local_pref_example :
    (ltb_ℤ (pos 0) (compare packet preferred from_one) ≡ true)
    × (ltb_ℤ (pos 0) (compare packet from_one preferred) ≡ true)
unfolding get_local_pref get_path_attr set_path_attr clone
compare-local_pref_example =
    compare-local_pref packet preferred from_one refl refl (omega arith) (omega arith)
