-- ===== src/RoutePath/Access.antt =====
-- What `getPathAttr` of internal/pkg/table/path.go finds after `Clone`, `setPathAttr` and
-- `delPathAttr`.
use goplane.Prelude.{
  ℕ, Bool, true, List, [], ◌∷◌, ◌++◌, none, some, ◌≡◌, refl, ◌==◌, if◌then◌else◌, arith, ◌≢◌,
}
use goplane.Bgp.{Attr, get_type}
use goplane.RoutePath.{
  RoutePath, find_attr, has, get_path_attr, put_attr, set_path_attr, del_path_attr, clone,
}

-- A clone shows every attribute of the path that it was made from.
pub get_path_attr-clone :
    (p : RoutePath) (w : Bool) (typ : ℕ) → get_path_attr (clone p w) typ ≡ get_path_attr p typ
unfolding get_path_attr clone
get_path_attr-clone p w typ = refl

find-put_attr :
    (a : Attr) (l : List Attr) (typ : ℕ)
    → find_attr typ (put_attr a l) ≡ (if get_type a == typ then some a else find_attr typ l)
unfolding find_attr put_attr
find-put_attr a [] typ = refl
find-put_attr a (b ∷ l) typ = ground (arith, find-put_attr a l typ)

-- What is set is found, and no other type is touched, unless this link of the chain deletes the
-- type: then it stays deleted.
pub get_path_attr-set_path_attr :
    (p : RoutePath) (a : Attr) (typ : ℕ)
    → get_path_attr (set_path_attr p a) typ ≡ (
        if has typ p.top.dels
        then none
        else if get_type a == typ
        then some a
        else get_path_attr p typ)
unfolding get_path_attr set_path_attr
get_path_attr-set_path_attr p a typ = ground (arith, find-put_attr a p.top.path_attrs typ)

pub has-snoc : (t u : ℕ) (l : List ℕ) → has t (l ++ u ∷ []) ≡ (if has t l then true else u == t)
has-snoc t u [] = ground arith
has-snoc t u (x ∷ l) = ground (arith, has-snoc t u l)

-- A deleted type is gone, and no other type is touched.
pub get_path_attr-del_path_attr :
    (p : RoutePath) (u typ : ℕ)
    → get_path_attr (del_path_attr p u) typ ≡ (if u == typ then none else get_path_attr p typ)
unfolding get_path_attr del_path_attr
get_path_attr-del_path_attr p u typ = ground (arith, has-snoc typ u p.top.dels)

pub deleted_none :
    (p : RoutePath) (typ : ℕ) → has typ p.top.dels ≡ true → get_path_attr p typ ≡ none
unfolding get_path_attr
deleted_none p typ h = ground arith

-- Another type is found as before.
pub get_path_attr-set_ne :
    (p : RoutePath) (a : Attr) (typ : ℕ)
    → typ ≢ get_type a
    → get_path_attr (set_path_attr p a) typ ≡ get_path_attr p typ
get_path_attr-set_ne p a typ ne =
    ground (arith, get_path_attr-set_path_attr p a typ, deleted_none p typ, ne)
