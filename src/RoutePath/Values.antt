-- ===== src/RoutePath/Values.antt =====
-- The attributes of internal/pkg/table/path.go that single out a path: communities, local
-- preference, MED and origin. A failed cast is read as the attribute's absence: an attribute of a
-- type is never of another Go type.
use goplane.Prelude.{ℕ, Bool, List, [], Option, none, some, ◌>>=◌}
use goplane.Bgp.{
  Attr, attr_communities, attr_local_pref, attr_multi_exit_disc, attr_origin, community_llgr_stale,
  community_no_llgr,
}
use goplane.RoutePath.{RoutePath, get_path_attr, has}

-- DEFAULT_LOCAL_PREF
abbrev pub default_local_pref : ℕ
default_local_pref = 100

-- `GetCommunities`
abbrev pub communities_of : Attr → List ℕ
communities_of (Attr.communities l) = l
communities_of _ = []

unfoldable pub get_communities : RoutePath → List ℕ
get_communities p = elim (get_path_attr p attr_communities) [
  | none ↦ []
  | some a ↦ communities_of a
]

unfoldable pub is_llgr_stale : RoutePath → Bool
unfolding get_communities
is_llgr_stale p = has community_llgr_stale (get_communities p)

unfoldable pub has_no_llgr : RoutePath → Bool
unfolding get_communities
has_no_llgr p = has community_no_llgr (get_communities p)

abbrev pub local_pref_of : Attr → ℕ
local_pref_of (Attr.local_pref n) = n
local_pref_of _ = default_local_pref

-- `GetLocalPref`, which never returns an error.
unfoldable pub get_local_pref : RoutePath → ℕ
get_local_pref p = elim (get_path_attr p attr_local_pref) [
  | none ↦ default_local_pref
  | some a ↦ local_pref_of a
]

abbrev pub med_of : Attr → Option ℕ
med_of (Attr.multi_exit_disc n) = some n
med_of _ = none

-- `GetMed`; `none` is its error.
unfoldable pub get_med : RoutePath → Option ℕ
get_med p = do a ← get_path_attr p attr_multi_exit_disc; med_of a

abbrev pub origin_of : Attr → Option ℕ
origin_of (Attr.origin n) = some n
origin_of _ = none

-- `GetOrigin`; `none` is its error.
unfoldable pub get_origin : RoutePath → Option ℕ
get_origin p = do a ← get_path_attr p attr_origin; origin_of a
