-- ===== src/Policy/Conditions.antt =====
-- What the conditions of internal/pkg/table/policy.go on sets mean.
use goplane.Prelude.{
  ℕ, Bool, true, false, List, [], ◌∷◌, ◌++◌, Option, none, some, ◌≡◌, refl, ap, ◌∙◌, arith,
  if◌then◌else◌, ◌&&◌, ◌||◌, not, any, length, ◌==◌,
}
use goplane.Bgp.{AsPathParam}
use goplane.RoutePath.{RoutePath}
use goplane.RoutePath.AsPath.{get_as_path}
use goplane.Policy.{
  MatchOption, match_any, match_all, match_invert, inverted, as_path_loop, community_loop,
  evaluate_communities, SingleAsPathMatch, match_single, get_as_seq_list, evaluate_as_path, Library,
  is_transitive, matches_ext, ext_loop, evaluate_ext_communities,
}

abbrev pub every {ℓ} : {A : Type ℓ} → (A → Bool) → List A → Bool
every f l = not (any (λ x. not (f x)) l)

-- The three options on the tests of a set: one of them, each of them, or none of them passes.
abbrev pub by_option : MatchOption → List (ℕ → Bool) → (((ℕ → Bool)) → Bool) → Bool
by_option match_any l f = any f l
by_option match_all l f = every f l
by_option match_invert l f = not (any f l)

loop-any :
    (cs : List ℕ) (l : List (ℕ → Bool))
    → community_loop match_any cs l false ≡ any (λ x. any x cs) l
unfolding community_loop
loop-any cs [] = refl
loop-any cs (x ∷ l) = ground (arith, loop-any cs l)

loop-invert :
    (cs : List ℕ) (l : List (ℕ → Bool))
    → community_loop match_invert cs l false ≡ any (λ x. any x cs) l
unfolding community_loop
loop-invert cs [] = refl
loop-invert cs (x ∷ l) = ground (arith, loop-invert cs l)

loop-all :
    (cs : List ℕ) (l : List (ℕ → Bool))
    → community_loop match_all cs l true ≡ every (λ x. any x cs) l
unfolding community_loop
loop-all cs [] = refl
loop-all cs (x ∷ l) = ground (arith, loop-all cs l)

first_of_all :
    (cs : List ℕ) (x : ℕ → Bool) (l : List (ℕ → Bool))
    → community_loop match_all cs (x ∷ l) false
      ≡ (if any x cs then community_loop match_all cs l true else false)
unfolding community_loop
first_of_all cs x l = refl

evaluate_communities_lem :
    (option : MatchOption) (cs : List ℕ) (l : List (ℕ → Bool))
    → evaluate_communities l option cs
      ≡ (if length l == 0 then inverted option false else by_option option l (λ x. any x cs))
unfolding evaluate_communities
evaluate_communities_lem match_any cs [] = unfold community_loop in refl
evaluate_communities_lem match_all cs [] = unfold community_loop in refl
evaluate_communities_lem match_invert cs [] = unfold community_loop in refl
evaluate_communities_lem match_any cs (x ∷ l) = ground (arith, loop-any cs (x ∷ l))
evaluate_communities_lem match_all cs (x ∷ l) = ground (arith, first_of_all cs x l, loop-all cs l)
evaluate_communities_lem match_invert cs (x ∷ l) = ground (arith, loop-invert cs (x ∷ l))

loop_lem {ℓ} :
    {A : Type ℓ} (option : MatchOption) (f : A → Bool) (l : List A)
    → as_path_loop option f l ≡ (elim option [
      | match_any ↦ if any f l then some true else none
      | match_all ↦ if every f l then none else some false
      | match_invert ↦ if any f l then some false else none
    ])
unfolding as_path_loop
loop_lem match_any f [] = refl
loop_lem match_all f [] = refl
loop_lem match_invert f [] = refl
loop_lem match_any f (x ∷ l) = ground (arith, loop_lem match_any f l)
loop_lem match_all f (x ∷ l) = ground (arith, loop_lem match_all f l)
loop_lem match_invert f (x ∷ l) = ground (arith, loop_lem match_invert f l)

module _ (singles : List SingleAsPathMatch) (regexps : List (Option (List AsPathParam) → Bool))
    (p : RoutePath) where
  abbrev pub single_passes : SingleAsPathMatch → Bool
  single_passes m = match_single m.mode m.asn (get_as_seq_list p)

  abbrev pub regexp_passes : (Option (List AsPathParam) → Bool) → Bool
  regexp_passes r = r (get_as_path p)

  abbrev pub as_path_by_option : MatchOption → Bool
  as_path_by_option match_any = any single_passes singles || any regexp_passes regexps
  as_path_by_option match_all = every single_passes singles && every regexp_passes regexps
  as_path_by_option match_invert = not (any single_passes singles || any regexp_passes regexps)

  evaluate_as_path_lem :
      (option : MatchOption) → evaluate_as_path singles regexps option p ≡ as_path_by_option option
  unfolding evaluate_as_path
  evaluate_as_path_lem match_any =
      ground
        (arith, loop_lem match_any single_passes singles, loop_lem match_any regexp_passes regexps)
  evaluate_as_path_lem match_all =
      ground
        (arith, loop_lem match_all single_passes singles, loop_lem match_all regexp_passes regexps)
  evaluate_as_path_lem match_invert = ground (
    arith,
    loop_lem match_invert single_passes singles,
    loop_lem match_invert regexp_passes regexps,
  )

  -- The conditions on the AS path and on communities hold if one, each, or none of the set's
  -- expressions passes, by their option; a community condition with the empty set holds only if it
  -- is inverted.
  pub set_conditions_lem :
      (option : MatchOption) (l : List (ℕ → Bool)) (cs : List ℕ)
      → (evaluate_as_path singles regexps option p ≡ as_path_by_option option)
        × (evaluate_communities l option cs
            ≡ (if length l == 0 then inverted option false else by_option option l (λ x. any x cs)))
  set_conditions_lem option l cs =
      (evaluate_as_path_lem option, evaluate_communities_lem option cs l)

ext_loop-last :
    (lib : Library) (l : List (ℕ × (ℕ → Bool))) (es : List ℕ) (last : ℕ) (r : Bool)
    → ext_loop lib match_invert l (es ++ last ∷ []) r
      ≡ (is_transitive lib last && matches_ext lib l last)
unfolding ext_loop
ext_loop-last lib l [] last r = refl
ext_loop-last lib l (x ∷ es) last r =
    ext_loop-last lib l es last (is_transitive lib x && matches_ext lib l x)

-- An inverted condition on extended communities holds whenever the last community of the path does
-- not match, whatever those before it do.
pub evaluate_ext-invert :
    (lib : Library) (l : List (ℕ × (ℕ → Bool))) (es : List ℕ) (last : ℕ)
    → (is_transitive lib last && matches_ext lib l last) ≡ false
    → evaluate_ext_communities lib l match_invert (es ++ last ∷ []) ≡ true
unfolding evaluate_ext_communities
evaluate_ext-invert lib l es last h = ap not (ext_loop-last lib l es last false ∙ h)
