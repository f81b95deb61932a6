-- ===== src/RoutePath/Rewrite/AsNumbers.antt =====
-- The AS numbers of a path after `RemovePrivateAS` of internal/pkg/table/path.go.
use goplane.Prelude.{
  ℕ, Bool, true, false, List, [], ◌∷◌, ◌++◌, Option, none, some, ◌≡◌, refl, sym, ap, ◌∙◌, arith,
  ltb, if◌then◌else◌, ◌>>=◌, not, map, keep, length, Option-cases, inl, inr,
}
use goplane.Bgp.{Attr, get_type, AsPathParam, attr_as_path}
use goplane.RoutePath.{RoutePath, get_path_attr, set_path_attr, clone}
use goplane.RoutePath.Access.{get_path_attr-set_path_attr, get_path_attr-clone, deleted_none}
use goplane.RoutePath.AsPath.{get_as_path, or_nil, as_path_of}
use goplane.RoutePath.Prepend.{flat}
use goplane.RoutePath.Rewrite.{
  is_private_as, RemovePrivateAsOption, remove_all, replace, other, without_private, public_params,
  remove_private_as,
}

-- The numbers of the AS path.
abbrev pub numbers : RoutePath → List ℕ
numbers p = flat (or_nil (get_as_path p))

pub found-set :
    (p : RoutePath) (a b : Attr)
    → get_path_attr p (get_type a) ≡ some b
    → get_path_attr (set_path_attr p a) (get_type a) ≡ some a
found-set p a b h =
    ground (arith, get_path_attr-set_path_attr p a (get_type a), deleted_none p (get_type a))

numbers-set :
    (p : RoutePath) (l l' : List AsPathParam)
    → get_as_path p ≡ some l
    → numbers (set_path_attr p (Attr.as_path l')) ≡ flat l'
unfolding get_as_path
numbers-set p l l' h = elim (Option-cases (get_path_attr p attr_as_path)) [
  | inl missing ↦ ground arith
  | inr (a, e) ↦ rw (found-set p (Attr.as_path l') a e) refl
]

without_private-append :
    (n : ℕ) (r : Bool) (xs ys : List ℕ)
    → without_private n r (xs ++ ys) ≡ without_private n r xs ++ without_private n r ys
unfolding without_private
without_private-append n r [] ys = refl
without_private-append n r (x ∷ xs) ys = ground (arith, without_private-append n r xs ys)

flat-public_params :
    (n : ℕ) (r : Bool) (l : List AsPathParam)
    → flat (public_params n r l) ≡ without_private n r (flat l)
unfolding public_params
flat-public_params n r [] = unfold without_private in refl
flat-public_params n r (s ∷ l) = sym (
    without_private-append n r s.asns (flat l)
    ∙ ap (◌++◌ (without_private n r s.asns)) (sym (flat-public_params n r l))
    ∙ kept (without_private n r s.asns))
  where
    kept :
        (asns : List ℕ)
        → asns ++ flat (public_params n r l)
          ≡ flat (
              if ltb 0 (length asns)
              then record { kind = goplane.Bgp.as4; seg_type = s.seg_type; asns = asns }
                ∷ public_params n r l
              else public_params n r l)
    kept [] = refl
    kept (x ∷ xs) = ground arith

-- What an option does to the numbers.
abbrev pub after_removal : ℕ → RemovePrivateAsOption → List ℕ → List ℕ
after_removal n remove_all l = keep (λ x. not (is_private_as x)) l
after_removal n replace l = map (λ x. if is_private_as x then n else x) l
after_removal n other l = l

without_private-keep :
    (n : ℕ) (l : List ℕ) → without_private n false l ≡ keep (λ x. not (is_private_as x)) l
unfolding without_private
without_private-keep n [] = refl
without_private-keep n (x ∷ l) = ground (arith, without_private-keep n l)

without_private-map :
    (n : ℕ) (l : List ℕ) → without_private n true l ≡ map (λ x. if is_private_as x then n else x) l
unfolding without_private
without_private-map n [] = refl
without_private-map n (x ∷ l) = ground (arith, without_private-map n l)

pub remove_private_as-missing :
    (n : ℕ) (option : RemovePrivateAsOption) (p : RoutePath)
    → get_as_path p ≡ none
    → remove_private_as n option p ≡ p
unfolding remove_private_as
remove_private_as-missing n option p e = rw (remove_private_as, e) refl

-- The segments that an option leaves.
abbrev pub left : ℕ → RemovePrivateAsOption → List AsPathParam → List AsPathParam
left n remove_all l = public_params n false l
left n replace l = public_params n true l
left n other l = l

pub flat-left :
    (n : ℕ) (option : RemovePrivateAsOption) (l : List AsPathParam)
    → flat (left n option l) ≡ after_removal n option (flat l)
flat-left n remove_all l = flat-public_params n false l ∙ without_private-keep n (flat l)
flat-left n replace l = flat-public_params n true l ∙ without_private-map n (flat l)
flat-left n other l = refl

pub remove_private_as-all :
    (n : ℕ) (p : RoutePath) (l : List AsPathParam)
    → get_as_path p ≡ some l
    → remove_private_as n remove_all p ≡ set_path_attr p (Attr.as_path (public_params n false l))
unfolding remove_private_as
remove_private_as-all n p l e = rw (remove_private_as, e) refl

pub remove_private_as-replace :
    (n : ℕ) (p : RoutePath) (l : List AsPathParam)
    → get_as_path p ≡ some l
    → remove_private_as n replace p ≡ set_path_attr p (Attr.as_path (public_params n true l))
unfolding remove_private_as
remove_private_as-replace n p l e = rw (remove_private_as, e) refl

pub remove_private_as-other :
    (n : ℕ) (p : RoutePath) (l : List AsPathParam)
    → get_as_path p ≡ some l
    → remove_private_as n other p ≡ p
unfolding remove_private_as
remove_private_as-other n p l e = rw (remove_private_as, e) refl

numbers-remove_found :
    (n : ℕ) (option : RemovePrivateAsOption) (p : RoutePath) (l : List AsPathParam)
    → get_as_path p ≡ some l
    → numbers (remove_private_as n option p) ≡ flat (left n option l)
numbers-remove_found n remove_all p l e =
    ap numbers (remove_private_as-all n p l e) ∙ numbers-set p l (public_params n false l) e
numbers-remove_found n replace p l e =
    ap numbers (remove_private_as-replace n p l e) ∙ numbers-set p l (public_params n true l) e
numbers-remove_found n other p l e =
    ap numbers (remove_private_as-other n p l e) ∙ ap (λ o. flat (or_nil o)) e

numbers_of :
    (p : RoutePath) (o : Option (List AsPathParam))
    → get_as_path p ≡ o
    → numbers p ≡ flat (or_nil o)
numbers_of p o e = ap (λ x. flat (or_nil x)) e

-- `RemovePrivateAS` filters the private numbers out of the path, or puts the local one in their
-- place, and changes no other number; with any other option the path stays.
pub numbers-remove_private_as :
    (n : ℕ) (option : RemovePrivateAsOption) (p : RoutePath)
    → numbers (remove_private_as n option p) ≡ after_removal n option (numbers p)
numbers-remove_private_as n option p = elim (Option-cases (get_as_path p)) [
  | inl e ↦
      ap numbers (remove_private_as-missing n option p e)
      ∙ numbers_of p none e
      ∙ sym (ap (after_removal n option) (numbers_of p none e) ∙ none_left option)
  | inr (l, e) ↦
      numbers-remove_found n option p l e
      ∙ flat-left n option l
      ∙ ap (after_removal n option) (sym (numbers_of p (some l) e))
]
  where
    none_left : (o : RemovePrivateAsOption) → after_removal n o [] ≡ []
    none_left remove_all = refl
    none_left replace = refl
    none_left other = refl

pub get_as_path-clone : (p : RoutePath) (w : Bool) → get_as_path (clone p w) ≡ get_as_path p
unfolding get_as_path
get_as_path-clone p w =
    ap (λ (o : Option Attr). o >>= as_path_of) (get_path_attr-clone p w attr_as_path)
