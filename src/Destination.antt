-- ===== src/Destination.antt =====
-- internal/pkg/table/destination.go: how two paths to one destination are compared. A comparison
-- returns the pointer of the better path or nil; the model returns which of the two it is.
use goplane.Prelude.{
  ℕ, Bool, true, false, List, [], ◌∷◌, Option, none, some, ◌==◌, ltb, if◌then◌else◌, ◌>>=◌, not,
  ◌||◌, ◌&&◌,
}
use goplane.Bgp.{AsPathParam, Packet, seg_confed_set, seg_confed_seq, big_endian_uint32}
use goplane.RoutePath.{RoutePath, peer_equal, is_local, is_ibgp}
use goplane.RoutePath.AsPath.{get_as_path, get_as_path_len, or_nil}
use goplane.RoutePath.Values.{is_llgr_stale, get_local_pref, get_origin, get_med}
pub mod Flips
pub mod Rank
pub mod Best
pub mod Calculate
pub mod Changes

-- What the code reads of `SelectionOptions`.
pub record SelectionOptions : Type 0 where
  pub always_compare_med : Bool
  pub ignore_as_path_length : Bool
  pub external_compare_router_id : Bool
  pub disable_best_path_selection : Bool

pub data BestPathReason : Type 0 where
  unknown disabled only_path reachable_next_hop highest_weight local_pref local_origin :
      BestPathReason
  as_path origin med asn igp_cost router_id older non_llgr_stale : BestPathReason

-- Which of two paths is better.
pub data Better : Type 0 where
  path1 path2 : Better

-- The lower number wins; equal numbers do not decide.
abbrev pub lower : ℕ → ℕ → Option Better
lower a b = if a == b then none else if ltb a b then some path1 else some path2

-- The path for which the test fails wins; two equal answers do not decide.
abbrev pub prefer_false : Bool → Bool → Option Better
prefer_false b1 b2 =
    if b1 then (if b2 then none else some path2) else (if b2 then some path1 else none)

unfoldable pub compare_by_llgr_stale_community : RoutePath → RoutePath → Option Better
compare_by_llgr_stale_community p q = prefer_false (is_llgr_stale p) (is_llgr_stale q)

unfoldable pub compare_by_reachable_nexthop : RoutePath → RoutePath → Option Better
compare_by_reachable_nexthop p q = prefer_false p.is_nexthop_invalid q.is_nexthop_invalid

-- Weights are not implemented: `compareByHighestWeight` returns nil.
unfoldable pub compare_by_highest_weight : RoutePath → RoutePath → Option Better
compare_by_highest_weight p q = none

unfoldable pub compare_by_local_pref : RoutePath → RoutePath → Option Better
compare_by_local_pref p q = lower (get_local_pref q) (get_local_pref p)

unfoldable pub compare_by_local_origin : RoutePath → RoutePath → Option Better
compare_by_local_origin p q =
    if peer_equal p.info.source q.info.source
    then none
    else if is_local p
    then some path1
    else if is_local q
    then some path2
    else none

unfoldable pub compare_by_as_path :
    Packet → SelectionOptions → RoutePath → RoutePath → Option Better
compare_by_as_path pkt opts p q =
    if opts.ignore_as_path_length
    then none
    else lower (get_as_path_len pkt p) (get_as_path_len pkt q)

-- An origin that is not present does not decide.
unfoldable pub compare_by_origin : RoutePath → RoutePath → Option Better
compare_by_origin p q = do o1 ← get_origin p; o2 ← get_origin q; lower o1 o2

-- `firstAS`: the first number of the first segment that has one and is not of a confederation.
unfoldable pub first_as_of : AsPathParam → ℕ → ℕ
first_as_of s rest = elim s.asns [
  | [] ↦ rest
  | a ∷ _ ↦ if s.seg_type == seg_confed_set || s.seg_type == seg_confed_seq then rest else a
]

unfoldable pub first_as : List AsPathParam → ℕ
unfolding first_as_of
first_as [] = 0
first_as (s ∷ l) = first_as_of s (first_as l)

abbrev pub or_zero : Option ℕ → ℕ
or_zero none = 0
or_zero (some n) = n

-- When two MEDs are compared: always, between internal paths, or within one neighbouring AS.
unfoldable pub med_comparable : Packet → SelectionOptions → RoutePath → RoutePath → Bool
unfolding first_as
med_comparable pkt opts p q =
    opts.always_compare_med
    || (get_as_path_len pkt p == 0 && get_as_path_len pkt q == 0)
    || (not (first_as (or_nil (get_as_path p)) == 0)
        && first_as (or_nil (get_as_path p)) == first_as (or_nil (get_as_path q)))

unfoldable pub compare_by_med : Packet → SelectionOptions → RoutePath → RoutePath → Option Better
unfolding med_comparable
compare_by_med pkt opts p q =
    if med_comparable pkt opts p q then lower (or_zero (get_med p)) (or_zero (get_med q)) else none

-- A path from a confederation member counts as internal.
abbrev pub is_internal_path : RoutePath → Bool
is_internal_path p = p.info.source.confederation || is_ibgp p

unfoldable pub compare_by_as_number : RoutePath → RoutePath → Option Better
compare_by_as_number p q = prefer_false (is_internal_path p) (is_internal_path q)

-- There is no IGP cost: `compareByIGPCost` returns nil.
unfoldable pub compare_by_igp_cost : RoutePath → RoutePath → Option Better
compare_by_igp_cost p q = none

unfoldable pub compare_by_age : SelectionOptions → RoutePath → RoutePath → Option Better
compare_by_age opts p q =
    if not (is_ibgp p) && not (is_ibgp q) && not opts.external_compare_router_id
    then lower p.info.timestamp q.info.timestamp
    else none

-- `compareByRouterID` decides or not, returns an error, or panics on an identifier that is too short.
pub data RouterIdResult : Type 0 where
  result : Option Better → RouterIdResult
  not_supported panics : RouterIdResult

abbrev pub same : Bool → Bool → Bool
same a b = if a then b else not b

unfoldable pub compare_ids : Option ℕ → Option ℕ → RouterIdResult
compare_ids (some id1) (some id2) = result (lower id1 id2)
compare_ids _ _ = panics

unfoldable pub compare_by_router_id : SelectionOptions → RoutePath → RoutePath → RouterIdResult
unfolding compare_ids
compare_by_router_id opts p q =
    if is_local p && is_local q
    then result none
    else if not opts.external_compare_router_id && not (is_ibgp p) && not (is_ibgp q)
    then result none
    else if not opts.external_compare_router_id && not (same (is_ibgp p) (is_ibgp q))
    then not_supported
    else compare_ids (big_endian_uint32 p.info.source.id) (big_endian_uint32 q.info.source.id)

-- The steps before the router identifier, in order: the first that decides gives the reason.
unfoldable pub first_decision :
    List (Option Better × BestPathReason) → Option (Better × BestPathReason)
first_decision [] = none
first_decision ((none, _) ∷ l) = first_decision l
first_decision ((some b, reason) ∷ l) = some (b, reason)

unfoldable pub steps :
    Packet → SelectionOptions → RoutePath → RoutePath → List (Option Better × BestPathReason)
steps pkt opts p q =
    (compare_by_llgr_stale_community p q, non_llgr_stale)
    ∷ (compare_by_reachable_nexthop p q, reachable_next_hop)
    ∷ (compare_by_highest_weight p q, highest_weight)
    ∷ (compare_by_local_pref p q, local_pref)
    ∷ (compare_by_local_origin p q, local_origin)
    ∷ (compare_by_as_path pkt opts p q, as_path)
    ∷ (compare_by_origin p q, origin)
    ∷ (compare_by_med pkt opts p q, med)
    ∷ (compare_by_as_number p q, asn)
    ∷ (compare_by_igp_cost p q, igp_cost)
    ∷ (compare_by_age opts p q, older)
    ∷ []

-- The last step; where it does not decide either, or fails, the first path is taken.
unfoldable pub by_router_id : RouterIdResult → Option (Better × BestPathReason)
by_router_id (result (some b)) = some (b, router_id)
by_router_id (result none) = some (path1, unknown)
by_router_id not_supported = some (path1, unknown)
by_router_id panics = none

-- The function that `sort` compares by; `none` is a panic.
unfoldable pub decide :
    Packet → SelectionOptions → RoutePath → RoutePath → Option (Better × BestPathReason)
decide pkt opts p q = elim (first_decision (steps pkt opts p q)) [
  | some d ↦ some d
  | none ↦ by_router_id (compare_by_router_id opts p q)
]
