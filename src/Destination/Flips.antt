-- ===== src/Destination/Flips.antt =====
-- The comparisons of internal/pkg/table/destination.go with the two paths exchanged.
use goplane.Prelude.{
  ℕ, Bool, List, [], ◌∷◌, Option, none, some, ◌≡◌, refl, arith, inl, inr, Option-cases, ap, ◌∙◌,
}
use mathlib.Core.Option.{some-injective}
use goplane.Bgp.{Ip, no_ip, v4, v6, ip_equal, Packet}
use goplane.RoutePath.{RoutePath, PeerInfo, peer_equal}
use goplane.RoutePath.Values.{get_local_pref}
use goplane.Destination.{
  SelectionOptions, Better, path1, path2, lower, prefer_false, compare_by_llgr_stale_community,
  compare_by_reachable_nexthop, compare_by_highest_weight, compare_by_local_pref,
  compare_by_local_origin, compare_by_as_path, compare_by_origin, med_comparable, compare_by_med,
  compare_by_as_number, compare_by_igp_cost, compare_by_age, compare_ids, compare_by_router_id,
  first_decision, steps, by_router_id, decide, BestPathReason,
}

-- The second answer is to the same question with the paths exchanged.
pub record Flipped (o o' : Option Better) : Type 0 where
  pub second : o ≡ some path2 → o' ≡ some path1
  pub tie : o ≡ none → o' ≡ none

lower-Flipped : (a b : ℕ) → Flipped (lower a b) (lower b a)
lower-Flipped a b = ground arith

prefer_false-Flipped : (a b : Bool) → Flipped (prefer_false a b) (prefer_false b a)
prefer_false-Flipped a b = ground arith

pub ip_equal_symm : (a b : Ip) → ip_equal a b ≡ ip_equal b a
ip_equal_symm no_ip no_ip = refl
ip_equal_symm no_ip (v4 b) = refl
ip_equal_symm no_ip (v6 b) = refl
ip_equal_symm (v4 a) no_ip = refl
ip_equal_symm (v4 a) (v4 b) = ground arith
ip_equal_symm (v4 a) (v6 b) = ground arith
ip_equal_symm (v6 a) no_ip = refl
ip_equal_symm (v6 a) (v4 b) = ground arith
ip_equal_symm (v6 a) (v6 b) = ground arith

pub peer_equal_symm : (a b : PeerInfo) → peer_equal a b ≡ peer_equal b a
unfolding peer_equal
peer_equal_symm a b = ground (
  arith,
  ip_equal_symm a.id b.id,
  ip_equal_symm a.local_id b.local_id,
  ip_equal_symm a.address b.address,
)

local_origin-Flipped :
    (p q : RoutePath) → Flipped (compare_by_local_origin p q) (compare_by_local_origin q p)
unfolding compare_by_local_origin
local_origin-Flipped p q = ground (arith, peer_equal_symm p.info.source q.info.source)

as_path-Flipped :
    (pkt : Packet) (opts : SelectionOptions) (p q : RoutePath)
    → Flipped (compare_by_as_path pkt opts p q) (compare_by_as_path pkt opts q p)
unfolding compare_by_as_path
as_path-Flipped pkt opts p q = ground arith

origin-Flipped : (p q : RoutePath) → Flipped (compare_by_origin p q) (compare_by_origin q p)
unfolding compare_by_origin
origin-Flipped p q = ground arith

med_comparable_symm :
    (pkt : Packet) (opts : SelectionOptions) (p q : RoutePath)
    → med_comparable pkt opts p q ≡ med_comparable pkt opts q p
unfolding med_comparable
med_comparable_symm pkt opts p q = ground arith

med-Flipped :
    (pkt : Packet) (opts : SelectionOptions) (p q : RoutePath)
    → Flipped (compare_by_med pkt opts p q) (compare_by_med pkt opts q p)
unfolding compare_by_med
med-Flipped pkt opts p q = ground (arith, med_comparable_symm pkt opts p q)

age-Flipped :
    (opts : SelectionOptions) (p q : RoutePath)
    → Flipped (compare_by_age opts p q) (compare_by_age opts q p)
unfolding compare_by_age
age-Flipped opts p q = ground arith

abbrev FlippedSteps :
    List (Option Better × BestPathReason) → List (Option Better × BestPathReason) → Type 0
FlippedSteps [] [] = Unit
FlippedSteps ((o, r) ∷ l) ((o', r') ∷ l') = Flipped o o' × FlippedSteps l l'
FlippedSteps _ _ = ⊥

steps-Flipped :
    (pkt : Packet) (opts : SelectionOptions) (p q : RoutePath)
    → FlippedSteps (steps pkt opts p q) (steps pkt opts q p)
unfolding steps compare_by_llgr_stale_community compare_by_reachable_nexthop
    compare_by_highest_weight compare_by_local_pref compare_by_as_number compare_by_igp_cost
steps-Flipped pkt opts p q = (
  prefer_false-Flipped _ _,
  (
    prefer_false-Flipped _ _,
    (
      record { second = λ e. cc; tie = λ e. refl },
      (
        lower-Flipped (get_local_pref q) (get_local_pref p),
        (
          local_origin-Flipped p q,
          (
            as_path-Flipped pkt opts p q,
            (
              origin-Flipped p q,
              (
                med-Flipped pkt opts p q,
                (
                  prefer_false-Flipped _ _,
                  (record { second = λ e. cc; tie = λ e. refl }, (age-Flipped opts p q, tt)),
                ),
              ),
            ),
          ),
        ),
      ),
    ),
  ),
)

first-Flipped :
    (l l' : List (Option Better × BestPathReason))
    → FlippedSteps l l'
    → ((r : BestPathReason)
        → first_decision l ≡ some (path2, r)
        → (r' : BestPathReason) × (first_decision l' ≡ some (path1, r')))
      × (first_decision l ≡ none → first_decision l' ≡ none)
unfolding first_decision
first-Flipped [] [] h = ((λ r e. cc), λ e. refl)
first-Flipped ((none, r) ∷ l) ((o', r') ∷ l') h =
    let e : o' ≡ none = h.0.tie refl in rw e (first-Flipped l l' h.1)
first-Flipped ((some path1, r) ∷ l) ((o', r') ∷ l') h = ((λ s e. cc), λ e. cc)
first-Flipped ((some path2, r) ∷ l) ((o', r') ∷ l') h =
    let e : o' ≡ some path1 = h.0.second refl in ((λ s d. (r', rw e)), λ d. cc)
first-Flipped [] (x ∷ l') h = absurd h
first-Flipped (x ∷ l) [] h = absurd h

router_id_flips :
    (opts : SelectionOptions) (p q : RoutePath) (r : BestPathReason)
    → by_router_id (compare_by_router_id opts p q) ≡ some (path2, r)
    → (r' : BestPathReason) × (by_router_id (compare_by_router_id opts q p) ≡ some (path1, r'))
unfolding by_router_id compare_by_router_id compare_ids
router_id_flips opts p q r e = (BestPathReason.router_id, ground arith)

-- Where the second path is better, it is better as the first path too.
pub decide_flips :
    (pkt : Packet) (opts : SelectionOptions) (p q : RoutePath) (r : BestPathReason)
    → decide pkt opts p q ≡ some (path2, r)
    → (r' : BestPathReason) × (decide pkt opts q p ≡ some (path1, r'))
unfolding decide
decide_flips pkt opts p q r e =
    let f = first-Flipped (steps pkt opts p q) (steps pkt opts q p) (steps-Flipped pkt opts p q) in
    elim (Option-cases (first_decision (steps pkt opts p q))) [
      | inl tied ↦
          let (r', g) = router_id_flips opts p q r (rw (tied, decide) at e) in
          (r', rw (f.1 tied, decide) g)
      | inr (d, decided) ↦
          let same : d ≡ (path2, r) = some-injective _ _ (rw (decided, decide) at e) in
          let (r', g) = f.0 r (decided ∙ ap some same) in (r', rw (g, decide))
    ]
