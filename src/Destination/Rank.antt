-- ===== src/Destination/Rank.antt =====
-- What the order of the comparisons in internal/pkg/table/destination.go means for the winner, and
-- that no comparison panics between paths whose peers have a router identifier.
use mathlib.Core.Option.{some-injective}
use goplane.Prelude.{
  ℕ, Bool, true, false, none, some, ◌≡◌, refl, arith, ◌⊎◌, inl, inr, Option-cases, ap, ◌∙◌, ◌≤◌,
}
use goplane.Bgp.{Ip, no_ip, v4, v6, ip_equal, Packet, is_nil, big_endian_uint32}
use goplane.RoutePath.{RoutePath, peer_equal, is_local}
use goplane.RoutePath.Values.{get_local_pref, is_llgr_stale}
use goplane.Destination.{
  SelectionOptions, Better, path1, compare_by_llgr_stale_community, compare_by_reachable_nexthop,
  compare_by_highest_weight, compare_by_local_pref, compare_by_local_origin, compare_ids,
  compare_by_router_id, first_decision, steps, by_router_id, decide, BestPathReason,
}

-- The path was made here, or its peer's router identifier can be read.
abbrev pub HasRouterId : RoutePath → Type 0
HasRouterId p = (is_local p ≡ true) ⊎ ((n : ℕ) × (big_endian_uint32 p.info.source.id ≡ some n))

ip_equal-is_nil : (a b : Ip) → ip_equal a b ≡ true → is_nil a ≡ is_nil b
ip_equal-is_nil no_ip no_ip h = refl
ip_equal-is_nil no_ip (v4 b) h = cc
ip_equal-is_nil no_ip (v6 b) h = cc
ip_equal-is_nil (v4 a) no_ip h = cc
ip_equal-is_nil (v4 a) (v4 b) h = refl
ip_equal-is_nil (v4 a) (v6 b) h = refl
ip_equal-is_nil (v6 a) no_ip h = cc
ip_equal-is_nil (v6 a) (v4 b) h = refl
ip_equal-is_nil (v6 a) (v6 b) h = refl

-- Where the step on local origin does not decide, both paths are local or neither is.
local_origin_tie : (p q : RoutePath) → compare_by_local_origin p q ≡ none → is_local p ≡ is_local q
unfolding compare_by_local_origin peer_equal
local_origin_tie p q h = ground (arith, ip_equal-is_nil p.info.source.address q.info.source.address)

tie-local_origin :
    (pkt : Packet) (opts : SelectionOptions) (p q : RoutePath)
    → first_decision (steps pkt opts p q) ≡ none
    → compare_by_local_origin p q ≡ none
unfolding first_decision steps
tie-local_origin pkt opts p q h = ground arith

router_id_total :
    (opts : SelectionOptions) (p q : RoutePath)
    → HasRouterId p
    → HasRouterId q
    → is_local p ≡ is_local q
    → (d : Better × BestPathReason) × (by_router_id (compare_by_router_id opts p q) ≡ some d)
unfolding by_router_id compare_by_router_id compare_ids
router_id_total opts p q hp hq same =
    elim (Option-cases (by_router_id (compare_by_router_id opts p q))) [
      | inl panicked ↦ absurd (ground arith)
      | inr found ↦ found
    ]

-- Between paths with router identifiers the comparison never panics.
pub decide_total :
    (pkt : Packet) (opts : SelectionOptions) (p q : RoutePath)
    → HasRouterId p
    → HasRouterId q
    → (d : Better × BestPathReason) × (decide pkt opts p q ≡ some d)
unfolding decide
decide_total pkt opts p q hp hq = elim (Option-cases (first_decision (steps pkt opts p q))) [
  | inl tied ↦
      let (d, e) =
        router_id_total opts p q hp hq
          (local_origin_tie p q (tie-local_origin pkt opts p q tied)) in
      (d, rw (tied, decide) e)
  | inr (d, decided) ↦ (d, rw (decided, decide))
]

-- The criteria that come before the AS path, as one number to be maximal: not stale, reachable, the
-- local preference, locally originated.
abbrev pub bit : Bool → ℕ
bit true = 1
bit false = 0

pub record RankLe (q p : RoutePath) : Type 0 where
  pub stale : bit (is_llgr_stale p) ≤ bit (is_llgr_stale q)
  pub reachable :
      is_llgr_stale p ≡ is_llgr_stale q → bit p.is_nexthop_invalid ≤ bit q.is_nexthop_invalid
  pub preferred :
      is_llgr_stale p ≡ is_llgr_stale q
      → p.is_nexthop_invalid ≡ q.is_nexthop_invalid
      → get_local_pref q ≤ get_local_pref p
  pub local :
      is_llgr_stale p ≡ is_llgr_stale q
      → p.is_nexthop_invalid ≡ q.is_nexthop_invalid
      → get_local_pref p ≡ get_local_pref q
      → bit (is_local q) ≤ bit (is_local p)

local_origin_first :
    (p q : RoutePath) → compare_by_local_origin p q ≡ some path1 → is_local p ≡ true
unfolding compare_by_local_origin
local_origin_first p q h = ground arith

decided-RankLe :
    (pkt : Packet) (opts : SelectionOptions) (p q : RoutePath) (r : BestPathReason)
    → first_decision (steps pkt opts p q) ≡ some (path1, r)
    → RankLe q p
unfolding first_decision steps compare_by_llgr_stale_community compare_by_reachable_nexthop
    compare_by_highest_weight compare_by_local_pref
decided-RankLe pkt opts p q r h = record {
  stale = ground arith;
  reachable = λ e. ground arith;
  preferred = λ e f. ground arith;
  local = λ e f g. ground (arith, local_origin_tie p q, local_origin_first p q);
}

pub RankLe-trans : (a b c : RoutePath) → RankLe b a → RankLe c b → RankLe c a
RankLe-trans a b c h k = record {
  stale = omega arith;
  reachable = λ e. ground arith;
  preferred = λ e f. ground arith;
  local = λ e f g. ground arith;
}

tied-RankLe :
    (pkt : Packet) (opts : SelectionOptions) (p q : RoutePath)
    → first_decision (steps pkt opts p q) ≡ none
    → RankLe q p
unfolding first_decision steps compare_by_llgr_stale_community compare_by_reachable_nexthop
    compare_by_highest_weight compare_by_local_pref
tied-RankLe pkt opts p q h = record {
  stale = ground arith;
  reachable = λ e. ground arith;
  preferred = λ e f. ground arith;
  local = λ e f g. ground (arith, local_origin_tie p q);
}

-- A path that is taken, by a decision or on a tie, ranks at least as high as the other.
pub decide-RankLe :
    (pkt : Packet) (opts : SelectionOptions) (p q : RoutePath) (r : BestPathReason)
    → decide pkt opts p q ≡ some (path1, r)
    → RankLe q p
unfolding decide
decide-RankLe pkt opts p q r h = elim (Option-cases (first_decision (steps pkt opts p q))) [
  | inl tied ↦ tied-RankLe pkt opts p q tied
  | inr (d, decided) ↦
      let same : d ≡ (path1, r) = some-injective _ _ (rw (decided, decide) at h) in
      decided-RankLe pkt opts p q r (decided ∙ ap some same)
]
