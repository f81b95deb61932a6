-- ===== src/RoutePath/Rewrite/Replacement.antt =====
-- The segments of a path's AS path after `ReplaceAS` of internal/pkg/table/path.go.
use mathlib.Core.Path.{subst₂}
use goplane.Prelude.{
  All2, ◌≢◌, ◌⊎◌, ℕ, true, false, List, [], ◌∷◌, Option, none, some, ◌≡◌, refl, sym, ap, ◌∙◌, arith,
  ◌==◌, any, map, Bool-cases, Option-cases, inl, inr,
}
use goplane.Bgp.{Attr, AsPathParam, attr_as_path}
use goplane.RoutePath.{RoutePath, get_path_attr, set_path_attr, clone}
use goplane.RoutePath.AsPath.{get_as_path, or_nil}
use goplane.RoutePath.Rewrite.{replace_number, replace_params, has_peer, replace_as}
use goplane.RoutePath.Rewrite.AsNumbers.{found-set, get_as_path-clone}

-- The number is the local one where it was the peer's, and else as it was.
abbrev pub Swapped : ℕ → ℕ → ℕ → ℕ → Type 0
Swapped local_as peer_as x y = ((x ≡ peer_as) × (y ≡ local_as)) ⊎ ((x ≢ peer_as) × (y ≡ x))

abbrev pub SegmentSwapped : ℕ → ℕ → AsPathParam → AsPathParam → Type 0
SegmentSwapped local_as peer_as s t =
    (t.seg_type ≡ s.seg_type) × All2 (Swapped local_as peer_as) s.asns t.asns

-- The segments of the AS path.
abbrev pub segments : RoutePath → List AsPathParam
segments p = or_nil (get_as_path p)

replace_number-Swapped : (n m : ℕ) (l : List ℕ) → All2 (Swapped n m) l (map (replace_number n m) l)
unfolding replace_number
replace_number-Swapped n m [] = tt
replace_number-Swapped n m (x ∷ l) = (
  elim (Bool-cases (x == m)) [
    | inl e ↦ simp (e) (inl (ground arith, refl))
    | inr e ↦ simp (e) (inr (ground arith, refl))
  ],
  replace_number-Swapped n m l,
)

replace_params-Swapped :
    (n m : ℕ) (l : List AsPathParam) → All2 (SegmentSwapped n m) l (replace_params n m l)
unfolding replace_params
replace_params-Swapped n m [] = tt
replace_params-Swapped n m (s ∷ l) =
    ((refl, replace_number-Swapped n m s.asns), replace_params-Swapped n m l)

absent_number-Swapped :
    (n m : ℕ) (l : List ℕ) → any (λ x. x == m) l ≡ false → All2 (Swapped n m) l l
absent_number-Swapped n m [] h = tt
absent_number-Swapped n m (x ∷ l) h =
    (inr (ground arith, refl), absent_number-Swapped n m l (ground arith))

absent_peer-Swapped :
    (n m : ℕ) (l : List AsPathParam) → has_peer m l ≡ false → All2 (SegmentSwapped n m) l l
unfolding has_peer
absent_peer-Swapped n m [] h = tt
absent_peer-Swapped n m (s ∷ l) h = (
  (refl, absent_number-Swapped n m s.asns (ground arith)),
  absent_peer-Swapped n m l (ground arith),
)

replace_as-missing : (n m : ℕ) (p : RoutePath) → get_as_path p ≡ none → replace_as n m p ≡ p
unfolding replace_as
replace_as-missing n m p e = rw (replace_as, e) refl

replace_as-same :
    (n m : ℕ) (p : RoutePath) (l : List AsPathParam)
    → get_as_path p ≡ some l
    → has_peer m l ≡ false
    → replace_as n m p ≡ p
unfolding replace_as
replace_as-same n m p l e h = rw (replace_as, e, h) refl

replace_as-changed :
    (n m : ℕ) (p : RoutePath) (l : List AsPathParam)
    → get_as_path p ≡ some l
    → has_peer m l ≡ true
    → replace_as n m p ≡ set_path_attr (clone p p.is_withdraw) (Attr.as_path (replace_params n m l))
unfolding replace_as
replace_as-changed n m p l e h = rw (replace_as, e, h) refl

segments-set :
    (p : RoutePath) (l l' : List AsPathParam)
    → get_as_path p ≡ some l
    → get_as_path (set_path_attr p (Attr.as_path l')) ≡ some l'
unfolding get_as_path
segments-set p l l' h = elim (Option-cases (get_path_attr p attr_as_path)) [
  | inl missing ↦ ground arith
  | inr (a, e) ↦ rw (found-set p (Attr.as_path l') a e) refl
]

abbrev ChangesTo : ℕ → ℕ → Option (List AsPathParam) → Option (List AsPathParam) → Type 0
ChangesTo n m o o' = All2 (SegmentSwapped n m) (or_nil o) (or_nil o')

-- `ReplaceAS` keeps the segments of the AS path, with their types and their lengths; where the
-- peer's number stands it puts the local one, and every other number it leaves.
pub segments-replace_as :
    (n m : ℕ) (p : RoutePath) → All2 (SegmentSwapped n m) (segments p) (segments (replace_as n m p))
segments-replace_as n m p = elim (Option-cases (get_as_path p)) [
  | inl e ↦
      subst₂ (ChangesTo n m) (sym e) (sym (ap get_as_path (replace_as-missing n m p e) ∙ e)) tt
  | inr (l, e) ↦ elim (Bool-cases (has_peer m l)) [
    | inr h ↦
        subst₂ (ChangesTo n m) (sym e) (sym (ap get_as_path (replace_as-same n m p l e h) ∙ e))
          (absent_peer-Swapped n m l h)
    | inl h ↦
        subst₂ (ChangesTo n m) (sym e)
          (sym (
            ap get_as_path (replace_as-changed n m p l e h)
            ∙ segments-set (clone p p.is_withdraw) l (replace_params n m l)
                (get_as_path-clone p p.is_withdraw ∙ e)))
          (replace_params-Swapped n m l)
  ]
]
