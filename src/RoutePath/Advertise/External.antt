-- ===== src/RoutePath/Advertise/External.antt =====
-- The AS path that `UpdatePathAttrs` of internal/pkg/table/path.go sends to an external peer.
use goplane.Prelude.{
  ℕ, Bool, true, false, List, [], ◌∷◌, Option, none, some, ◌≡◌, refl, sym, ap, ◌∙◌, arith, ◌||◌,
  not, if◌then◌else◌, keep, ◌≤◌, ltb, length, Bool-cases, inl, inr,
}
use goplane.Bgp.{Ip, is_unspecified, Attr, AsPathParam, attr_as_path}
use goplane.RoutePath.{RoutePath, PeerInfo, clone, set_path_attr, is_local}
use goplane.RoutePath.Attrs.{get_path_attrs}
use goplane.RoutePath.AsPath.{get_as_path, or_nil, prepend_asn}
use goplane.RoutePath.Prepend.{flat, IsBounded}
use goplane.RoutePath.Nexthop.{get_nexthop, set_nexthop}
use goplane.RoutePath.Rewrite.{
  RemovePrivateAsOption, remove_all, replace, other, remove_private_as, remove_confed_as,
  public_params, without_private,
}
use goplane.RoutePath.Rewrite.AsNumbers.{after_removal, left, flat-left, get_as_path-clone}
use goplane.RoutePath.Advertise.{
  is_confederation_member, Neighbor, AttrFlags, external_peer, strip, drop_med, for_external,
  update_path_attrs, for_peer,
}
use goplane.RoutePath.Advertise.Kept.{
  segments, HasPath, is_public, left_of, HasPath-set, HasPath-strip, HasPath-set_nexthop,
  HasPath-drop_med, HasPath-remove_private_as, HasPath-remove_confed_as, either_path,
}
use goplane.RoutePath.Advertise.Once.{seen, sent, prepend_once}

without_private-length : (n : ℕ) (r : Bool) (l : List ℕ) → length (without_private n r l) ≤ length l
unfolding without_private
without_private-length n r [] = omega arith
without_private-length n true (x ∷ l) = ground (arith, without_private-length n true l)
without_private-length n false (x ∷ l) = ground (arith, without_private-length n false l)

IsBounded-public_params :
    (n : ℕ) (r : Bool) (l : List AsPathParam) → IsBounded l → IsBounded (public_params n r l)
unfolding public_params
IsBounded-public_params n r [] b = tt
IsBounded-public_params n r (s ∷ l) b =
    let rest = IsBounded-public_params n r l b.1 in
    let small : length (without_private n r s.asns) ≤ 255 =
      let shrunk = without_private-length n r s.asns in let small = b.0 in omega arith in
    elim (Bool-cases (ltb 0 (length (without_private n r s.asns)))) [
      | inl e ↦ rw e (small, rest)
      | inr e ↦ rw e rest
    ]

IsBounded-left_of :
    (n : ℕ) (option : RemovePrivateAsOption) (o : Option (List AsPathParam))
    → IsBounded (or_nil o)
    → IsBounded (or_nil (left_of n option o))
IsBounded-left_of n option none b = tt
IsBounded-left_of n remove_all (some l) b = IsBounded-public_params n false l b
IsBounded-left_of n replace (some l) b = IsBounded-public_params n true l b
IsBounded-left_of n other (some l) b = b

keep-public_params :
    (n : ℕ) (r : Bool) (l : List AsPathParam)
    → keep is_public (public_params n r l) ≡ public_params n r (keep is_public l)
unfolding public_params
keep-public_params n r [] = refl
keep-public_params n r (s ∷ l) = ground (arith, keep-public_params n r l)

seen-left :
    (confed : Bool) (n : ℕ) (option : RemovePrivateAsOption) (l : List AsPathParam)
    → seen confed (left n option l) ≡ left n option (seen confed l)
seen-left true n option l = refl
seen-left false n remove_all l = keep-public_params n false l
seen-left false n replace l = keep-public_params n true l
seen-left false n other l = refl

after_removal-nil : (n : ℕ) (option : RemovePrivateAsOption) → after_removal n option [] ≡ []
after_removal-nil n remove_all = refl
after_removal-nil n replace = refl
after_removal-nil n other = refl

sent_nil : (confed : Bool) → sent confed [] ≡ []
sent_nil true = refl
sent_nil false = refl

-- Private numbers are removed from what the peer sees.
sent-left_of :
    (confed : Bool) (n : ℕ) (option : RemovePrivateAsOption) (o : Option (List AsPathParam))
    → sent confed (or_nil (left_of n option o)) ≡ after_removal n option (sent confed (or_nil o))
sent-left_of confed n option none =
    sent_nil confed
    ∙ sym (ap (after_removal n option) (sent_nil confed) ∙ after_removal-nil n option)
sent-left_of confed n option (some l) =
    ap flat (seen-left confed n option l) ∙ flat-left n option (seen confed l)

HasPath-seen :
    (confed : Bool) (l : List AsPathParam) (q : RoutePath)
    → HasPath (some l) q
    → HasPath (some (seen confed l)) (if confed then q else remove_confed_as q)
HasPath-seen true l q h = h
HasPath-seen false l q h = HasPath-remove_confed_as l q h

prepend_found :
    (confed : Bool) (asn : ℕ) (o : Option (List AsPathParam)) (q : RoutePath)
    → HasPath o q
    → IsBounded (or_nil o)
    → (l : List AsPathParam) × (prepend_asn asn 1 confed q
        ≡ some (set_path_attr q (Attr.as_path l)))
      × (sent confed l ≡ asn ∷ sent confed (or_nil o))
unfolding prepend_asn
prepend_found confed asn o q h b =
    let (l, e, f) = prepend_once confed asn (or_nil o) b in
    (l, rw (prepend_asn, h.found, e) refl, f)

module _ (peer : Neighbor) (ip : Ip) where
  -- The path with the local number in front, without the confederation's segments.
  for_external_step :
      (o : Option (List AsPathParam)) (q : RoutePath)
      → HasPath o q
      → IsBounded (or_nil o)
      → (r : RoutePath) × (for_external peer ip q ≡ some r)
        × (flat (segments r)
            ≡ peer.local_as
              ∷ after_removal peer.local_as peer.remove_private
                  (sent (is_confederation_member peer) (or_nil o)))
  unfolding for_external
  for_external_step o q h b =
      let c = (is_confederation_member peer) in
      let hopped =
        if not (is_local q) || is_unspecified (get_nexthop q) then set_nexthop ip q else q in
      let without = remove_private_as peer.local_as peer.remove_private hopped in
      let o' = left_of peer.local_as peer.remove_private o in
      let h1 : HasPath o' without =
        HasPath-remove_private_as peer.local_as peer.remove_private o hopped (
          either_path o (not (is_local q) || is_unspecified (get_nexthop q)) (set_nexthop ip q) q
            (HasPath-set_nexthop o ip q h) h) in
      let (l, e, f) =
        prepend_found c peer.local_as o' without h1
          (IsBounded-left_of peer.local_as peer.remove_private o b) in
      let prepended = set_path_attr without (Attr.as_path l) in
      let final = if c then prepended else remove_confed_as prepended in
      let h2 : HasPath (some (seen c l)) (drop_med final) =
        HasPath-drop_med (some (seen c l)) final
          (HasPath-seen c l prepended (HasPath-set o' l without h1)) in
      (
        drop_med final,
        rw e refl,
        ap (λ x. flat (or_nil x)) h2.found
            ∙ f
            ∙ ap (◌∷◌ peer.local_as) (sent-left_of c peer.local_as peer.remove_private o),
      )

-- An external neighbor that is no client of the route server is sent a path, and its AS numbers are
-- the local number followed by those that are left of the original's after the private numbers are
-- removed or replaced, confederation segments counting only for a member of the confederation; the
-- segments of the original must hold at most 255 numbers each, and the package bgp must know the
-- attribute AS_PATH.
pub update_path_attrs-external :
    (flags : AttrFlags) (peer : Neighbor) (info : PeerInfo) (p : RoutePath)
    → peer.peer_type ≡ external_peer
    → peer.route_server_client ≡ false
    → flags.is_known attr_as_path ≡ true
    → IsBounded (segments p)
    → (r : RoutePath) × (update_path_attrs flags peer info p ≡ some r)
      × (flat (segments r)
          ≡ peer.local_as
            ∷ after_removal peer.local_as peer.remove_private
                (sent (is_confederation_member peer) (segments p)))
unfolding update_path_attrs for_peer clone
update_path_attrs-external flags peer info p external no_client known b =
    let path = clone p p.is_withdraw in
    let o = get_as_path p in
    let h : HasPath o path = record {
      found = get_as_path-clone p p.is_withdraw;
      not_deleted = refl;
    } in
    let stripped = strip flags peer (get_path_attrs path) path in
    let (r, e, f) =
      for_external_step peer info.local_address o stripped
        (HasPath-strip flags peer known o (get_path_attrs path) path h) b in
    (
      r,
      ap (λ b. if b then some p else for_peer peer.peer_type peer info.local_address stripped)
            no_client
          ∙ ap (λ t. for_peer t peer info.local_address stripped) external
          ∙ e,
      f,
    )
