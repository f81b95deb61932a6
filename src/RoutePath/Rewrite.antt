-- ===== src/RoutePath/Rewrite.antt =====
-- The methods of internal/pkg/table/path.go that rewrite the AS path and the communities.
use mathlib.Core.List.{append_assoc, append-nil}
use goplane.Prelude.{
  ℕ, Bool, true, false, List, [], ◌∷◌, ◌++◌, Option, none, some, ◌≡◌, refl, sym, ap, ◌∙◌, arith,
  ◌==◌, leb, ltb, if◌then◌else◌, ◌>>=◌, ◌&&◌, ◌||◌, ◌+◌, not, any, map, keep, length, Bool-cases,
  inl, inr,
}
use goplane.Bgp.{
  Attr, AsPathParam, new_as4_path_param, seg_seq, seg_set, attr_communities, attr_large_community,
  attr_local_pref, attr_extended_communities,
}
use goplane.RoutePath.{RoutePath, has, get_path_attr, set_path_attr, del_path_attr, clone}
use goplane.RoutePath.AsPath.{get_as_path}
use goplane.RoutePath.Values.{communities_of}
pub mod AsNumbers
pub mod Communities
pub mod Replacement

unfoldable pub is_private_as : ℕ → Bool
is_private_as n = (leb 64512 n && leb n 65534) || (leb 4200000000 n && leb n 4294967294)

-- `config.RemovePrivateAsOption`; `other` is any other value of the string.
pub data RemovePrivateAsOption : Type 0 where
  remove_all replace other : RemovePrivateAsOption

-- The numbers of a segment without the private ones, or with `local_as` in their place.
unfoldable pub without_private : ℕ → Bool → List ℕ → List ℕ
without_private local_as replacing [] = []
without_private local_as replacing (n ∷ l) =
    let rest = without_private local_as replacing l in
    if is_private_as n then (if replacing then local_as ∷ rest else rest) else n ∷ rest

-- A segment that is left empty is dropped.
unfoldable pub public_params : ℕ → Bool → List AsPathParam → List AsPathParam
public_params local_as replacing [] = []
public_params local_as replacing (s ∷ l) =
    let rest = public_params local_as replacing l in
    let asns = without_private local_as replacing s.asns in
    if ltb 0 (length asns) then new_as4_path_param s.seg_type asns ∷ rest else rest

unfoldable pub remove_private_as : ℕ → RemovePrivateAsOption → RoutePath → RoutePath
remove_private_as local_as option p = elim (get_as_path p) [
  | none ↦ p
  | some l ↦ elim option [
    | remove_all ↦ set_path_attr p (Attr.as_path (public_params local_as false l))
    | replace ↦ set_path_attr p (Attr.as_path (public_params local_as true l))
    | other ↦ p
  ]
]

-- `removeConfedAs`
unfoldable pub remove_confed_as : RoutePath → RoutePath
remove_confed_as p = elim (get_as_path p) [
  | none ↦ p
  | some l ↦
      set_path_attr p (Attr.as_path (keep (λ s. s.seg_type == seg_seq || s.seg_type == seg_set) l))
]

-- `ReplaceAS`: the peer's number becomes the local one.
unfoldable pub replace_number : ℕ → ℕ → ℕ → ℕ
replace_number local_as peer_as n = if n == peer_as then local_as else n

unfoldable pub replace_params : ℕ → ℕ → List AsPathParam → List AsPathParam
replace_params local_as peer_as =
    map (λ s. new_as4_path_param s.seg_type (map (replace_number local_as peer_as) s.asns))

-- `changed`
unfoldable pub has_peer : ℕ → List AsPathParam → Bool
has_peer peer_as = any (λ s. any (λ n. n == peer_as) s.asns)

-- The path itself, or a changed clone of it.
unfoldable pub replace_as : ℕ → ℕ → RoutePath → RoutePath
replace_as local_as peer_as p = elim (get_as_path p) [
  | none ↦ p
  | some l ↦
      if has_peer peer_as l
      then set_path_attr (clone p p.is_withdraw) (Attr.as_path (replace_params local_as peer_as l))
      else p
]

unfoldable pub set_communities : List ℕ → Bool → RoutePath → RoutePath
set_communities [] true p = del_path_attr p attr_communities
set_communities communities do_replace p = set_path_attr p (
    Attr.communities (elim (get_path_attr p attr_communities) [
      | none ↦ communities
      | some a ↦ if do_replace then communities else communities_of a ++ communities
    ]))

-- The path and the count of what is removed.
unfoldable pub remove_communities : List ℕ → RoutePath → RoutePath × ℕ
remove_communities [] p = (p, 0)
remove_communities (c ∷ cs) p = elim (get_path_attr p attr_communities) [
  | none ↦ (p, 0)
  | some a ↦
      let new_list = keep (λ v. not (has v (c ∷ cs))) (communities_of a) in
      (
        if ltb 0 (length new_list)
            then set_path_attr p (Attr.communities new_list)
            else del_path_attr p attr_communities,
        length (keep (λ v. has v (c ∷ cs)) (communities_of a)),
      )
]

abbrev pub ext_communities_of : Attr → List ℕ
ext_communities_of (Attr.extended_communities l) = l
ext_communities_of _ = []

unfoldable pub get_ext_communities : RoutePath → List ℕ
get_ext_communities p = elim (get_path_attr p attr_extended_communities) [
  | none ↦ []
  | some a ↦ ext_communities_of a
]

unfoldable pub set_ext_communities : List ℕ → Bool → RoutePath → RoutePath
set_ext_communities exts do_replace p = set_path_attr p (
    Attr.extended_communities (elim (get_path_attr p attr_extended_communities) [
      | none ↦ exts
      | some a ↦ if do_replace then exts else ext_communities_of a ++ exts
    ]))

abbrev pub large_communities_of : Attr → List ℕ
large_communities_of (Attr.large_communities l) = l
large_communities_of _ = []

unfoldable pub get_large_communities : RoutePath → List ℕ
get_large_communities p = elim (get_path_attr p attr_large_community) [
  | none ↦ []
  | some a ↦ large_communities_of a
]

unfoldable pub set_large_communities : List ℕ → Bool → RoutePath → RoutePath
set_large_communities [] true p = del_path_attr p attr_large_community
set_large_communities cs do_replace p = set_path_attr p (
    Attr.large_communities (elim (get_path_attr p attr_large_community) [
      | none ↦ cs
      | some a ↦ if do_replace then cs else large_communities_of a ++ cs
    ]))

unfoldable pub remove_local_pref : RoutePath → RoutePath
remove_local_pref p = elim (get_path_attr p attr_local_pref) [
  | none ↦ p
  | some a ↦ del_path_attr p attr_local_pref
]
