-- ===== src/Policy.antt =====
-- internal/pkg/table/policy.go: conditions, actions, statements and policies, as they are applied.
-- A compiled regular expression is the test that it makes of what is printed; a net.IPNet is the test
-- whether it contains an address. A prefix set's tree of networks is the function that finds the
-- entries of the longest network that holds one.
use goplane.Prelude.{
  ℕ, zero, suc, Bool, true, false, List, [], ◌∷◌, ◌++◌, Option, none, some, ◌==◌, ltb, leb,
  if◌then◌else◌, ◌>>=◌, ◌&&◌, ◌||◌, ◌%◌, ◌^◌, not, any, keep, length,
}
use goplane.Prelude.Int.{ℤ}
use goplane.Bgp.{Ip, no_ip, is_nil, ip_equal, is_unspecified, Nlri, AsPathParam, Attr, Packet}
use goplane.RoutePath.{RoutePath, PeerInfo, clone, set_path_attr, is_local, is_ibgp, has}
use goplane.RoutePath.AsPath.{
  get_as_path, get_as_path_len, get_as_list_of_specific_type, prepend_asn,
}
use goplane.RoutePath.Values.{get_communities}
use goplane.RoutePath.Rewrite.{
  set_communities, get_ext_communities, set_ext_communities, get_large_communities,
  set_large_communities,
}
use goplane.RoutePath.Nexthop.{get_nexthop, set_nexthop}
use goplane.RoutePath.Med.{set_med}
use goplane.Roa.{Network, Status, Validation, valid, invalid, not_found}
pub mod Actions
pub mod Statements
pub mod Conditions
pub mod Edit
pub mod Assignments

pub data MatchOption : Type 0 where
  match_any match_all match_invert : MatchOption

pub data AttributeComparison : Type 0 where
  attribute_eq attribute_ge attribute_le : AttributeComparison

-- `singleAsPathMatch`
pub data SingleMode : Type 0 where
  include left_most origin only : SingleMode

pub record SingleAsPathMatch : Type 0 where
  pub asn : ℕ
  pub mode : SingleMode

abbrev pub is_last : ℕ → List ℕ → Bool
is_last asn [] = false
is_last asn (n ∷ []) = asn == n
is_last asn (n ∷ m ∷ l) = is_last asn (m ∷ l)

unfoldable pub match_single : SingleMode → ℕ → List ℕ → Bool
match_single mode asn [] = false
match_single include asn (n ∷ l) = any (λ v. asn == v) (n ∷ l)
match_single left_most asn (n ∷ l) = asn == n
match_single origin asn (n ∷ l) = is_last asn (n ∷ l)
match_single only asn (n ∷ l) = length (n ∷ l) == 1 && asn == n

-- config.RouteType
pub data RouteKind : Type 0 where
  internal external local : RouteKind

-- An entry of a prefix set: the bounds of the mask's length.
pub record MaskRange : Type 0 where
  pub range_min : ℕ
  pub range_max : ℕ

pub data Condition : Type 0 where
  next_hop : List (Ip → Bool) → Condition
  prefix : ℕ → (Network → Option (List MaskRange)) → MatchOption → Condition
  neighbor : List (Ip → Bool) → MatchOption → Condition
  as_path :
      List SingleAsPathMatch → List (Option (List AsPathParam) → Bool) → MatchOption → Condition
  community : List (ℕ → Bool) → MatchOption → Condition
  ext_community : List (ℕ × (ℕ → Bool)) → MatchOption → Condition
  large_community : List (ℕ → Bool) → MatchOption → Condition
  as_path_length : ℕ → AttributeComparison → Condition
  rpki : Status → Condition
  route_type : RouteKind → Condition
  afi_safi_in : List ℕ → Condition

-- `PolicyOptions`; the fields may be nil.
pub record PolicyOptions : Type 0 where
  pub info : Option PeerInfo
  pub old_next_hop : Ip
  pub validate : Option (RoutePath → Option Validation)

-- What the package bgp tells of an extended community, and the network of an NLRI.
pub record Library : Type 0 where
  pub packet : Packet
  pub ext_type : ℕ → ℕ
  pub ext_subtype : ℕ → ℕ
  pub nlri_to_ip_net : Nlri → Network

abbrev pub inverted : MatchOption → Bool → Bool
inverted match_invert b = not b
inverted _ b = b

-- A list of tests on one value.
abbrev pub passes {ℓ} : {A : Type ℓ} → A → List (A → Bool) → Bool
passes a = any (λ f. f a)

unfoldable pub in_range : ℕ → MaskRange → Bool
in_range masklen p = leb p.range_min masklen && leb masklen p.range_max

abbrev pub ranges_of : Option (List MaskRange) → List MaskRange
ranges_of none = []
ranges_of (some l) = l

unfoldable pub evaluate_prefix :
    Library → ℕ → (Network → Option (List MaskRange)) → MatchOption → RoutePath → Bool
evaluate_prefix lib family longest option p =
    let r = lib.nlri_to_ip_net p.info.nlri in
    if p.info.nlri.family == family
    then inverted option (any (in_range (r.prefix_len % 2 ^ 8)) (ranges_of (longest r)))
    else false

-- The next hop before it was set for the peer, if there is one and it was changed.
unfoldable pub condition_nexthop : PolicyOptions → RoutePath → Ip
condition_nexthop options p =
    let old = options.old_next_hop in
    if not (is_nil old) && (not (is_unspecified old) && not (ip_equal old (get_nexthop p)))
    then old
    else get_nexthop p

unfoldable pub evaluate_next_hop : List (Ip → Bool) → PolicyOptions → RoutePath → Bool
evaluate_next_hop l options p =
    if length l == 0
    then true
    else if is_nil (condition_nexthop options p)
    then false
    else passes (condition_nexthop options p) l

unfoldable pub condition_neighbor : PolicyOptions → RoutePath → Ip
condition_neighbor options p = elim (options.info) [
  | none ↦ p.info.source.address
  | some peer ↦ if is_nil peer.address then p.info.source.address else peer.address
]

unfoldable pub evaluate_neighbor : List (Ip → Bool) → MatchOption → PolicyOptions → RoutePath → Bool
evaluate_neighbor l option options p =
    if length l == 0
    then true
    else if is_nil (condition_neighbor options p)
    then false
    else inverted option (passes (condition_neighbor options p) l)

-- A loop over tests of the AS path: `some` is its early return.
unfoldable pub as_path_loop {ℓ} : {A : Type ℓ} → MatchOption → (A → Bool) → List A → Option Bool
as_path_loop option f [] = none
as_path_loop match_any f (x ∷ l) =
    let rest = as_path_loop match_any f l in if f x then some true else rest
as_path_loop match_all f (x ∷ l) =
    let rest = as_path_loop match_all f l in if f x then rest else some false
as_path_loop match_invert f (x ∷ l) =
    let rest = as_path_loop match_invert f l in if f x then some false else rest

abbrev pub get_as_seq_list : RoutePath → List ℕ
get_as_seq_list = get_as_list_of_specific_type true false

abbrev pub is_not_any : MatchOption → Bool
is_not_any match_any = false
is_not_any _ = true

unfoldable pub evaluate_as_path :
    List SingleAsPathMatch
    → List (Option (List AsPathParam) → Bool)
    → MatchOption
    → RoutePath
    → Bool
evaluate_as_path singles regexps option p =
    elim (as_path_loop option
      (λ (m : SingleAsPathMatch). match_single m.mode m.asn (get_as_seq_list p)) singles) [
        | some b ↦ b
        | none ↦
            elim (as_path_loop option (λ (r : Option (List AsPathParam) → Bool). r (get_as_path p))
              regexps) [ some b ↦ b | none ↦ is_not_any option ]
      ]

-- The loop of the community conditions over the set, with the result so far.
unfoldable pub community_loop : MatchOption → List ℕ → List (ℕ → Bool) → Bool → Bool
community_loop option cs [] result = result
community_loop match_all cs (x ∷ l) result =
    let rest = community_loop match_all cs l true in if any x cs then rest else false
community_loop match_any cs (x ∷ l) result =
    let rest = community_loop match_any cs l false in if any x cs then true else rest
community_loop match_invert cs (x ∷ l) result =
    let rest = community_loop match_invert cs l false in if any x cs then true else rest

unfoldable pub evaluate_communities : List (ℕ → Bool) → MatchOption → List ℕ → Bool
evaluate_communities l option cs = inverted option (community_loop option cs l false)

module _ (lib : Library) where
  -- The test of one extended community against the set.
  unfoldable pub matches_ext : List (ℕ × (ℕ → Bool)) → ℕ → Bool
  matches_ext l x = any (λ y. lib.ext_subtype x == y.0 && y.1 x) l

  abbrev pub is_transitive : ℕ → Bool
  is_transitive x = ltb (lib.ext_type x) 0x3f

  -- The loop over the path's communities: one that is not transitive clears the result.
  unfoldable pub ext_loop : MatchOption → List (ℕ × (ℕ → Bool)) → List ℕ → Bool → Bool
  ext_loop option l [] result = result
  ext_loop match_all l (x ∷ xs) result =
      let skip = ext_loop match_all l xs false in
      let next = ext_loop match_all l xs true in
      if is_transitive x then (if matches_ext l x then next else false) else skip
  ext_loop match_any l (x ∷ xs) result =
      let next = ext_loop match_any l xs false in
      if is_transitive x && matches_ext l x then true else next
  ext_loop match_invert l (x ∷ xs) result =
      ext_loop match_invert l xs (is_transitive x && matches_ext l x)

  unfoldable pub evaluate_ext_communities : List (ℕ × (ℕ → Bool)) → MatchOption → List ℕ → Bool
  evaluate_ext_communities l option es = inverted option (ext_loop option l es false)

unfoldable pub evaluate_length : ℕ → AttributeComparison → ℕ → Bool
evaluate_length bound attribute_eq n = bound == n
evaluate_length bound attribute_ge n = leb bound n
evaluate_length bound attribute_le n = leb n bound

unfoldable pub evaluate_route_type : RouteKind → RoutePath → Bool
evaluate_route_type local p = is_local p
evaluate_route_type internal p = not (is_local p) && is_ibgp p
evaluate_route_type external p = not (is_local p) && not (is_ibgp p)

abbrev pub same_status : Status → Status → Bool
same_status valid valid = true
same_status invalid invalid = true
same_status not_found not_found = true
same_status _ _ = false

-- A validation that is nil is dereferenced: `none`.
unfoldable pub evaluate_rpki : Status → PolicyOptions → RoutePath → Option Bool
evaluate_rpki result options p = elim (options.validate) [
  | none ↦ some false
  | some f ↦ (do v ← f p; some (same_status result v.status))
]

-- `Evaluate` of a condition.
unfoldable pub evaluate : Library → PolicyOptions → Condition → RoutePath → Option Bool
evaluate lib options (Condition.next_hop l) p = some (evaluate_next_hop l options p)
evaluate lib options (Condition.prefix family longest o) p =
    some (evaluate_prefix lib family longest o p)
evaluate lib options (Condition.neighbor l o) p = some (evaluate_neighbor l o options p)
evaluate lib options (Condition.as_path singles regexps o) p =
    some (evaluate_as_path singles regexps o p)
evaluate lib options (Condition.community l o) p =
    some (evaluate_communities l o (get_communities p))
evaluate lib options (Condition.ext_community l o) p =
    some (evaluate_ext_communities lib l o (get_ext_communities p))
evaluate lib options (Condition.large_community l o) p =
    some (evaluate_communities l o (get_large_communities p))
evaluate lib options (Condition.as_path_length n op) p =
    some (evaluate_length n op (get_as_path_len lib.packet p % 2 ^ 32))
evaluate lib options (Condition.rpki s) p = evaluate_rpki s options p
evaluate lib options (Condition.route_type k) p = some (evaluate_route_type k p)
evaluate lib options (Condition.afi_safi_in l) p = some (has p.info.nlri.family l)
