-- ===== src/RoutePath/Advertise/Kept.antt =====
-- The AS path of internal/pkg/table/path.go is kept by what `UpdatePathAttrs` does to the other
-- attributes.
use mathlib.Core.Path.{subst}
use goplane.Prelude.{
  ℕ, Bool, true, false, List, [], ◌∷◌, Option, none, some, ◌≡◌, ◌≢◌, refl, sym, ap, ◌∙◌, arith,
  ◌==◌, ◌&&◌, ◌||◌, not, if◌then◌else◌, ◌>>=◌, keep, ==_iff, Bool-cases, inl, inr,
}
use goplane.Bgp.{
  Ip, Attr, get_type, AsPathParam, attr_as_path, attr_next_hop, attr_mp_reach_nlri,
  attr_multi_exit_disc, attr_cluster_list, attr_originator_id, rf_ipv4_uc, seg_seq, seg_set,
}
use goplane.RoutePath.{RoutePath, has, get_path_attr, set_path_attr, del_path_attr, is_local}
use goplane.RoutePath.Access.{
  get_path_attr-set_path_attr, get_path_attr-set_ne, get_path_attr-del_path_attr, has-snoc,
}
use goplane.RoutePath.AsPath.{get_as_path, as_path_of, or_nil}
use goplane.RoutePath.Nexthop.{
  set_nexthop, set_next_hop_attr, set_mp_reach_attr, is_not_ipv4, mp_nlris_of,
}
use goplane.RoutePath.Rewrite.{
  RemovePrivateAsOption, remove_all, replace, other, remove_private_as, remove_confed_as,
  public_params,
}
use goplane.RoutePath.Rewrite.AsNumbers.{
  left, remove_private_as-missing, remove_private_as-all, remove_private_as-replace,
  remove_private_as-other,
}
use goplane.RoutePath.Advertise.{Neighbor, AttrFlags, drops, strip, drop_med, is_some, is_internal}

abbrev pub segments : RoutePath → List AsPathParam
segments p = or_nil (get_as_path p)

-- A path with the AS path of another, which its own link of the chain does not delete.
pub record HasPath (o : Option (List AsPathParam)) (q : RoutePath) : Type 0 where
  pub found : get_as_path q ≡ o
  pub not_deleted : has attr_as_path q.top.dels ≡ false

pub HasPath-set :
    (o : Option (List AsPathParam)) (l : List AsPathParam) (q : RoutePath)
    → HasPath o q
    → HasPath (some l) (set_path_attr q (Attr.as_path l))
unfolding get_as_path
HasPath-set o l q h = record {
  found =
      ground (arith, get_path_attr-set_path_attr q (Attr.as_path l) attr_as_path, h.not_deleted);
  not_deleted = unfold set_path_attr in h.not_deleted;
}

as_path_from :
    (p q : RoutePath)
    → get_path_attr q attr_as_path ≡ get_path_attr p attr_as_path
    → get_as_path q ≡ get_as_path p
unfolding get_as_path
as_path_from p q e = ap (λ (x : Option Attr). x >>= as_path_of) e

HasPath-set_ne :
    (o : Option (List AsPathParam)) (a : Attr) (q : RoutePath)
    → attr_as_path ≢ get_type a
    → HasPath o q
    → HasPath o (set_path_attr q a)
HasPath-set_ne o a q n h = record {
  found = as_path_from q (set_path_attr q a) (get_path_attr-set_ne q a attr_as_path n) ∙ h.found;
  not_deleted = unfold set_path_attr in h.not_deleted;
}

HasPath-del :
    (o : Option (List AsPathParam)) (t : ℕ) (q : RoutePath)
    → (t == attr_as_path) ≡ false
    → HasPath o q
    → HasPath o (del_path_attr q t)
HasPath-del o t q n h =
    let same : get_path_attr (del_path_attr q t) attr_as_path ≡ get_path_attr q attr_as_path =
      get_path_attr-del_path_attr q t attr_as_path
      ∙ ap (λ b. if b then none else get_path_attr q attr_as_path) n in
    record {
      found = as_path_from q (del_path_attr q t) same ∙ h.found;
      not_deleted =
          unfold del_path_attr in
          ground (arith, has-snoc attr_as_path t q.top.dels, h.not_deleted, n);
    }

module _ (flags : AttrFlags) (peer : Neighbor) (known : flags.is_known attr_as_path ≡ true) where
  kept_type :
      (t : ℕ) (a b : Bool)
      → t ≡ attr_as_path
      → (if flags.is_known t then (t == attr_cluster_list || t == attr_originator_id) && a else b)
        ≡ false
  kept_type t a b e = rw e (ground (arith, known))

  drops-not_as_path : (a : Attr) → drops flags peer a ≡ true → (get_type a == attr_as_path) ≡ false
  unfolding drops
  drops-not_as_path a h = elim (Bool-cases (get_type a == attr_as_path)) [
    | inr e ↦ e
    | inl e ↦ absurd (
        true_false (
          sym h
          ∙ kept_type (get_type a) (not (is_internal peer.peer_type && peer.route_reflector_client))
              (not (flags.is_transitive a)) ((==_iff (get_type a) attr_as_path).0 e)))
  ]
    where
      true_false : true ≢ false
      true_false e = cc

  pub HasPath-strip :
      (o : Option (List AsPathParam)) (l : List Attr) (q : RoutePath)
      → HasPath o q
      → HasPath o (strip flags peer l q)
  unfolding strip
  HasPath-strip o [] q h = h
  HasPath-strip o (a ∷ l) q h = elim (Bool-cases (drops flags peer a)) [
    | inl e ↦ rw e (
        HasPath-strip o l (del_path_attr q (get_type a))
          (HasPath-del o (get_type a) q (drops-not_as_path a e) h))
    | inr e ↦ rw e (HasPath-strip o l q h)
  ]

HasPath-next_hop_attr :
    (o : Option (List AsPathParam)) (ip : Ip) (q : RoutePath)
    → HasPath o q
    → HasPath o (set_next_hop_attr ip q)
unfolding set_next_hop_attr
HasPath-next_hop_attr o ip q h = by_attr (get_path_attr q attr_next_hop)
  where
    by_attr :
        (m : Option Attr)
        → HasPath o (elim m [ none ↦ q | some a ↦ set_path_attr q (Attr.next_hop ip) ])
    by_attr none = h
    by_attr (some a) = HasPath-set_ne o (Attr.next_hop ip) q (omega arith) h

HasPath-mp_reach_attr :
    (o : Option (List AsPathParam)) (ip : Ip) (q : RoutePath)
    → HasPath o q
    → HasPath o (set_mp_reach_attr ip q)
unfolding set_mp_reach_attr
HasPath-mp_reach_attr o ip q h = by_attr (get_path_attr q attr_mp_reach_nlri)
  where
    by_attr :
        (m : Option Attr)
        → HasPath o
            (elim m [ none ↦ q | some a ↦ set_path_attr q (Attr.mp_reach_nlri ip (mp_nlris_of a)) ])
    by_attr none = h
    by_attr (some a) = HasPath-set_ne o (Attr.mp_reach_nlri ip (mp_nlris_of a)) q (omega arith) h

pub either_path :
    (o : Option (List AsPathParam)) (b : Bool) (p q : RoutePath)
    → HasPath o p
    → HasPath o q
    → HasPath o (if b then p else q)
either_path o true p q h k = h
either_path o false p q h k = k

pub HasPath-set_nexthop :
    (o : Option (List AsPathParam)) (ip : Ip) (q : RoutePath)
    → HasPath o q
    → HasPath o (set_nexthop ip q)
unfolding set_nexthop
HasPath-set_nexthop o ip q h =
    either_path o (q.info.nlri.family == rf_ipv4_uc && is_not_ipv4 ip) _ _
      (HasPath-set_ne o (Attr.mp_reach_nlri ip (q.info.nlri ∷ [])) (del_path_attr q attr_next_hop)
        (omega arith) (HasPath-del o attr_next_hop q refl h))
      (HasPath-mp_reach_attr o ip (set_next_hop_attr ip q) (HasPath-next_hop_attr o ip q h))

pub HasPath-drop_med :
    (o : Option (List AsPathParam)) (q : RoutePath) → HasPath o q → HasPath o (drop_med q)
unfolding drop_med
HasPath-drop_med o q h =
    either_path o (is_some (get_path_attr q attr_multi_exit_disc) && not (is_local q))
      (del_path_attr q attr_multi_exit_disc) q (HasPath-del o attr_multi_exit_disc q refl h) h

-- What removing the private numbers leaves of an AS path, which may be missing.
abbrev pub left_of :
    ℕ → RemovePrivateAsOption → Option (List AsPathParam) → Option (List AsPathParam)
left_of n option none = none
left_of n option (some l) = some (left n option l)

pub HasPath-remove_private_as :
    (n : ℕ) (option : RemovePrivateAsOption) (o : Option (List AsPathParam)) (q : RoutePath)
    → HasPath o q
    → HasPath (left_of n option o) (remove_private_as n option q)
HasPath-remove_private_as n option none q h =
    subst (HasPath none) (sym (remove_private_as-missing n option q h.found)) h
HasPath-remove_private_as n remove_all (some l) q h =
    subst (HasPath (some (public_params n false l))) (sym (remove_private_as-all n q l h.found))
      (HasPath-set (some l) (public_params n false l) q h)
HasPath-remove_private_as n replace (some l) q h =
    subst (HasPath (some (public_params n true l))) (sym (remove_private_as-replace n q l h.found))
      (HasPath-set (some l) (public_params n true l) q h)
HasPath-remove_private_as n other (some l) q h =
    subst (HasPath (some l)) (sym (remove_private_as-other n q l h.found)) h

-- The segments that are no confederation's.
abbrev pub is_public : AsPathParam → Bool
is_public s = s.seg_type == seg_seq || s.seg_type == seg_set

pub HasPath-remove_confed_as :
    (l : List AsPathParam) (q : RoutePath)
    → HasPath (some l) q
    → HasPath (some (keep is_public l)) (remove_confed_as q)
unfolding remove_confed_as
HasPath-remove_confed_as l q h =
    let e : remove_confed_as q ≡ set_path_attr q (Attr.as_path (keep is_public l)) =
      rw (remove_confed_as, h.found) refl in
    subst (HasPath (some (keep is_public l))) (sym e) (HasPath-set (some l) (keep is_public l) q h)
