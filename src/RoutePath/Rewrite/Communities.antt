-- ===== src/RoutePath/Rewrite/Communities.antt =====
-- The communities of a path after `SetCommunities` and `RemoveCommunities` of
-- internal/pkg/table/path.go.
use goplane.Prelude.{
  ℕ, Bool, true, false, List, [], ◌∷◌, ◌++◌, none, some, ◌≡◌, refl, sym, ap, ◌∙◌, arith, ltb,
  if◌then◌else◌, ◌+◌, not, keep, length, Option-cases, inl, inr,
}
use goplane.Bgp.{Attr, attr_communities}
use goplane.RoutePath.{RoutePath, has, get_path_attr, set_path_attr, del_path_attr}
use goplane.RoutePath.Access.{
  get_path_attr-set_path_attr, get_path_attr-del_path_attr, deleted_none,
}
use goplane.RoutePath.Values.{communities_of, get_communities}
use goplane.RoutePath.Rewrite.{set_communities, remove_communities}

get_communities-set :
    (p : RoutePath) (l : List ℕ)
    → get_communities (set_path_attr p (Attr.communities l))
      ≡ (if has attr_communities p.top.dels then [] else l)
unfolding get_communities
get_communities-set p l =
    ground (arith, get_path_attr-set_path_attr p (Attr.communities l) attr_communities)

get_communities-del : (p : RoutePath) → get_communities (del_path_attr p attr_communities) ≡ []
unfolding get_communities
get_communities-del p =
    ground (arith, get_path_attr-del_path_attr p attr_communities attr_communities)

get_communities-none :
    (p : RoutePath) → get_path_attr p attr_communities ≡ none → get_communities p ≡ []
unfolding get_communities
get_communities-none p e = rw (get_communities, e) refl

get_communities-some :
    (p : RoutePath) (a : Attr)
    → get_path_attr p attr_communities ≡ some a
    → get_communities p ≡ communities_of a
unfolding get_communities
get_communities-some p a e = rw (get_communities, e) refl

-- The list that `SetCommunities` stores.
stored :
    (cs : List ℕ) (r : Bool) (p : RoutePath)
    → (elim (get_path_attr p attr_communities) [
      | none ↦ cs
      | some a ↦ if r then cs else communities_of a ++ cs
    ])
      ≡ (if r then cs else get_communities p ++ cs)
stored cs r p = elim (Option-cases (get_path_attr p attr_communities)) [
  | inl e ↦ ground (arith, e, get_communities-none p e)
  | inr (a, e) ↦ ground (arith, e, get_communities-some p a e)
]

-- After `SetCommunities` a path has the given communities, behind the old ones unless they are
-- replaced; where this link of the chain deletes the communities it has none.
pub get_communities-set_communities :
    (cs : List ℕ) (r : Bool) (p : RoutePath)
    → get_communities (set_communities cs r p)
      ≡ (if has attr_communities p.top.dels then [] else if r then cs else get_communities p ++ cs)
unfolding set_communities
get_communities-set_communities [] true p = ground (arith, get_communities-del p)
get_communities-set_communities [] false p =
    ap (λ (l : List ℕ). get_communities (set_path_attr p (Attr.communities l))) (stored [] false p)
    ∙ get_communities-set p (get_communities p ++ [])
get_communities-set_communities (c ∷ cs) r p =
    ap (λ (l : List ℕ). get_communities (set_path_attr p (Attr.communities l)))
      (stored (c ∷ cs) r p)
    ∙ get_communities-set p (if r then c ∷ cs else get_communities p ++ c ∷ cs)

keep-partition :
    (f : ℕ → Bool) (l : List ℕ) → length (keep (λ v. not (f v)) l) + length (keep f l) ≡ length l
keep-partition f [] = omega arith
keep-partition f (x ∷ l) = ground (arith, keep-partition f l)

pub record Removed (cs : List ℕ) (p : RoutePath) (r : RoutePath × ℕ) : Type 0 where
  pub left : get_communities r.0 ≡ keep (λ v. not (has v cs)) (get_communities p)
  pub counted : length (get_communities r.0) + r.1 ≡ length (get_communities p)

remove_communities-missing :
    (c : ℕ) (cs : List ℕ) (p : RoutePath)
    → get_path_attr p attr_communities ≡ none
    → remove_communities (c ∷ cs) p ≡ (p, 0)
unfolding remove_communities
remove_communities-missing c cs p e = rw (remove_communities, e) refl

-- What `RemoveCommunities` leaves is stored, or the attribute is deleted.
store_rest : List ℕ → RoutePath → RoutePath
store_rest l p =
    if ltb 0 (length l)
    then set_path_attr p (Attr.communities l)
    else del_path_attr p attr_communities

remove_communities-found :
    (c : ℕ) (cs : List ℕ) (p : RoutePath) (a : Attr)
    → get_path_attr p attr_communities ≡ some a
    → remove_communities (c ∷ cs) p ≡ (
      store_rest (keep (λ v. not (has v (c ∷ cs))) (communities_of a)) p,
      length (keep (λ v. has v (c ∷ cs)) (communities_of a)),
    )
unfolding remove_communities store_rest
remove_communities-found c cs p a e = rw (remove_communities, e) refl

get_communities-store_rest :
    (l : List ℕ) (p : RoutePath) (a : Attr)
    → get_path_attr p attr_communities ≡ some a
    → get_communities (store_rest l p) ≡ l
unfolding store_rest
get_communities-store_rest [] p a e = get_communities-del p
get_communities-store_rest (x ∷ l) p a e =
    let open_ : ltb 0 (length (x ∷ l)) ≡ true = ground arith in
    rw open_ (ground (arith, get_communities-set p (x ∷ l), deleted_none p attr_communities, e))

keep-none : (l : List ℕ) → keep (λ v. not (has v [])) l ≡ l
keep-none [] = refl
keep-none (x ∷ l) = ap (◌∷◌ x) (keep-none l)

-- `RemoveCommunities` removes the given communities and no other, and returns how many it removed.
pub remove_communities-Removed :
    (cs : List ℕ) (p : RoutePath) → Removed cs p (remove_communities cs p)
unfolding remove_communities
remove_communities-Removed [] p = record {
  left = sym (keep-none (get_communities p));
  counted = omega arith;
}
remove_communities-Removed (c ∷ cs) p = elim (Option-cases (get_path_attr p attr_communities)) [
  | inl e ↦
      rw (remove_communities-missing c cs p e)
        (record { left = rw (get_communities-none p e) refl; counted = omega arith })
  | inr (a, e) ↦
      let l = keep (λ v. not (has v (c ∷ cs))) (communities_of a) in
      rw (remove_communities-found c cs p a e) (record {
        left =
            get_communities-store_rest l p a e
            ∙ ap (keep (λ v. not (has v (c ∷ cs)))) (sym (get_communities-some p a e));
        counted = omega (
          arith,
          ap length (get_communities-store_rest l p a e),
          ap length (get_communities-some p a e),
          keep-partition (λ v. has v (c ∷ cs)) (communities_of a),
        );
      })
]
