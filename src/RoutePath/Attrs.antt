-- ===== src/RoutePath/Attrs.antt =====
-- `GetPathAttrs`, `getPathAttr`, `setPathAttr` and `delPathAttr` of internal/pkg/table/path.go.
-- The positions flagged in the bitmap `deleted` are kept as a list, and the map `modified` as the
-- list of its values, since each is stored under its own type.
use goplane.Prelude.{
  ℕ, Bool, true, false, List, [], ◌∷◌, ◌++◌, Option, none, some, ◌≡◌, refl, ◌==◌, leb,
  if◌then◌else◌, arith, Bool-cases, Option-cases, inl, inr,
}
use mathlib.Core.List.{append-nil}
use goplane.Bgp.{Attr, get_type}
use goplane.RoutePath.{RoutePath, Layer, find_attr, has, find_in_layers, get_path_attr}

unfoldable pub is_none {ℓ} : {A : Type ℓ} → Option A → Bool
is_none none = true
is_none (some _) = false

-- A link above the root: an attribute is noted unless its type was deleted or noted nearer.
unfoldable pub note_attrs : List ℕ → List Attr → List Attr → List Attr
unfolding find_attr is_none
note_attrs deleted modified [] = modified
note_attrs deleted modified (a ∷ l) =
    note_attrs deleted
      (if has (get_type a) deleted
        then modified
        else if is_none (find_attr (get_type a) modified)
        then a ∷ modified
        else modified)
      l

-- `delete(modified, typ)`
unfoldable pub delete : ℕ → List Attr → List Attr
delete typ [] = []
delete typ (a ∷ l) = let rest = delete typ l in if get_type a == typ then rest else a ∷ rest

-- The root: each attribute is replaced by the one noted, kept, or dropped if deleted. The second
-- result is what stays in `modified`.
unfoldable pub merge_root : List ℕ → List Attr → List Attr → List Attr × List Attr
unfolding find_attr delete
merge_root deleted modified [] = ([], modified)
merge_root deleted modified (a ∷ l) = elim (find_attr (get_type a) modified) [
  | some m ↦ let r = merge_root deleted (delete (get_type a) modified) l in (m ∷ r.0, r.1)
  | none ↦
      let r = merge_root deleted modified l in
      if has (get_type a) deleted then r else (a ∷ r.0, r.1)
]

-- `sort.Sort(list)`, by type.
unfoldable pub insert_by_type : Attr → List Attr → List Attr
insert_by_type a [] = a ∷ []
insert_by_type a (b ∷ l) =
    let rest = insert_by_type a l in if leb (get_type a) (get_type b) then a ∷ b ∷ l else b ∷ rest

unfoldable pub sort_by_type : List Attr → List Attr
unfolding insert_by_type
sort_by_type [] = []
sort_by_type (a ∷ l) = insert_by_type a (sort_by_type l)

abbrev pub is_empty {ℓ} : {A : Type ℓ} → List A → Bool
is_empty [] = true
is_empty (_ ∷ _) = false

unfoldable pub finish : List Attr × List Attr → List Attr
unfolding sort_by_type
finish r = if is_empty r.1 then r.0 else sort_by_type (r.0 ++ r.1)

unfoldable pub attrs_from : List ℕ → List Attr → Layer → List Layer → List Attr
unfolding note_attrs merge_root finish
attrs_from deleted modified l [] = finish (merge_root (l.dels ++ deleted) modified l.path_attrs)
attrs_from deleted modified l (parent ∷ ls) =
    attrs_from (l.dels ++ deleted) (note_attrs (l.dels ++ deleted) modified l.path_attrs) parent ls

unfoldable pub get_path_attrs : RoutePath → List Attr
unfolding attrs_from
get_path_attrs p = attrs_from [] [] p.top p.parents

or_else : Option Attr → Option Attr → Option Attr
or_else (some a) o = some a
or_else none o = o

find-append :
    (t : ℕ) (xs ys : List Attr) → find_attr t (xs ++ ys) ≡ or_else (find_attr t xs) (find_attr t ys)
unfolding find_attr or_else
find-append t [] ys = refl
find-append t (a ∷ xs) ys = ground (arith, find-append t xs ys)

find-insert :
    (t : ℕ) (a : Attr) (l : List Attr)
    → find_attr t (insert_by_type a l) ≡ (if get_type a == t then some a else find_attr t l)
unfolding find_attr insert_by_type
find-insert t a [] = refl
find-insert t a (b ∷ l) = ground (arith, find-insert t a l)

find-sort : (t : ℕ) (l : List Attr) → find_attr t (sort_by_type l) ≡ find_attr t l
unfolding find_attr sort_by_type
find-sort t [] = refl
find-sort t (a ∷ l) = ground (arith, find-insert t a (sort_by_type l), find-sort t l)

find-finish :
    (t : ℕ) (r : List Attr × List Attr) → find_attr t (finish r) ≡ find_attr t (r.0 ++ r.1)
unfolding finish
find-finish t (xs, []) = rw append-nil
find-finish t (xs, y ∷ ys) = find-sort t (xs ++ y ∷ ys)

find-delete :
    (t u : ℕ) (l : List Attr) → find_attr t (delete u l) ≡ (if t == u then none else find_attr t l)
unfolding find_attr delete
find-delete t u [] = ground arith
find-delete t u (a ∷ l) = ground (arith, find-delete t u l)

find-get_type : (t : ℕ) (l : List Attr) (a : Attr) → find_attr t l ≡ some a → get_type a ≡ t
unfolding find_attr
find-get_type t [] a h = cc
find-get_type t (b ∷ l) a h = ground (arith, find-get_type t l a)

has-append : (t : ℕ) (xs ys : List ℕ) → has t (xs ++ ys) ≡ (if has t xs then true else has t ys)
has-append t [] ys = refl
has-append t (x ∷ xs) ys = ground (arith, has-append t xs ys)

find-note :
    (t : ℕ) (d : List ℕ) (m l : List Attr)
    → find_attr t (note_attrs d m l)
      ≡ or_else (find_attr t m) (if has t d then none else find_attr t l)
unfolding find_attr note_attrs or_else
find-note t d m [] = ground arith
find-note t d m (a ∷ l) = elim (Bool-cases (has (get_type a) d)) [
  | inl gone ↦ rw gone (ground (arith, find-note t d m l))
  | inr kept ↦ elim (Option-cases (find_attr (get_type a) m)) [
    | inl new ↦ rw (kept, new) (ground (arith, find-note t d (a ∷ m) l))
    | inr (b, old) ↦ rw (kept, old) (ground (arith, find-note t d m l))
  ]
]

find-merge :
    (t : ℕ) (d : List ℕ) (m l : List Attr)
    → find_attr t ((merge_root d m l).0 ++ (merge_root d m l).1)
      ≡ or_else (find_attr t m) (if has t d then none else find_attr t l)
unfolding find_attr merge_root or_else
find-merge t d m [] = ground arith
find-merge t d m (a ∷ l) = elim (Option-cases (find_attr (get_type a) m)) [
  | inl new ↦ ground (arith, find-merge t d m l)
  | inr (b, old) ↦ ground (
    arith,
    find-merge t d (delete (get_type a) m) l,
    find-get_type (get_type a) m b old,
    find-delete t (get_type a) m,
  )
]

find-attrs_from :
    (t : ℕ) (d : List ℕ) (m : List Attr) (l : Layer) (ls : List Layer)
    → find_attr t (attrs_from d m l ls)
      ≡ or_else (find_attr t m) (if has t d then none else find_in_layers t (l ∷ ls))
unfolding attrs_from find_in_layers or_else
find-attrs_from t d m l [] = ground (
  arith,
  find-finish t (merge_root (l.dels ++ d) m l.path_attrs),
  find-merge t (l.dels ++ d) m l.path_attrs,
  has-append t l.dels d,
)
find-attrs_from t d m l (parent ∷ ls) = ground (
  arith,
  find-attrs_from t (l.dels ++ d) (note_attrs (l.dels ++ d) m l.path_attrs) parent ls,
  find-note t (l.dels ++ d) m l.path_attrs,
  has-append t l.dels d,
)

-- The list that `get_path_attrs` flattens the chain into and the walk of `get_path_attr` agree: of
-- every type, both have the same attribute or none.
pub find-get_path_attrs :
    (p : RoutePath) (typ : ℕ) → find_attr typ (get_path_attrs p) ≡ get_path_attr p typ
unfolding get_path_attrs get_path_attr or_else
find-get_path_attrs p typ = ground (arith, find-attrs_from typ [] [] p.top p.parents)
