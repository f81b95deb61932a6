-- ===== src/Destination/Best.antt =====
-- `sort` and `computeKnownBestPath` of internal/pkg/table/destination.go. `none` is a panic of a
-- comparison. The reason that `sort` returns is left out: `Calculate` does not use it.
use mathlib.Core.List.{Permᴰ}
use mathlib.Core.List.Permᴰ
use goplane.Prelude.{
  Bool, true, false, List, [], ◌∷◌, Option, none, some, ◌≡◌, arith, if◌then◌else◌, ◌>>=◌, All,
  Option-cases, inl, inr,
}
use goplane.Bgp.{Packet}
use goplane.RoutePath.{RoutePath}
use goplane.SliceStable.{slice_stable, insert_all, insert_back, rev_onto}
use goplane.SliceStable.Laws.{Chain, slice_stable_lem, Chain-map, Chain-first}
use goplane.Destination.{SelectionOptions, Better, path1, path2, decide, BestPathReason}
use goplane.Destination.Flips.{decide_flips}
use goplane.Destination.Rank.{HasRouterId, decide_total, RankLe, RankLe-trans, decide-RankLe}

abbrev pub is_path1 : Better → Bool
is_path1 path1 = true
is_path1 path2 = false

-- `return better == path1`
unfoldable pub less : Packet → SelectionOptions → RoutePath → RoutePath → Option Bool
less pkt opts p q = do d ← decide pkt opts p q; some (is_path1 d.0)

unfoldable pub sort_paths : Packet → SelectionOptions → List RoutePath → Option (List RoutePath)
sort_paths pkt opts l = slice_stable (less pkt opts) l

-- The list of known paths after `computeKnownBestPath`, with the best path that it returns.
unfoldable pub best_of : List RoutePath → Option RoutePath
best_of [] = none
best_of (p ∷ l) = if p.is_nexthop_invalid then none else some p

-- One path is not sorted.
unfoldable pub sort_known : Packet → SelectionOptions → List RoutePath → Option (List RoutePath)
sort_known pkt opts [] = some []
sort_known pkt opts (p ∷ []) = some (p ∷ [])
sort_known pkt opts (p ∷ q ∷ l) = sort_paths pkt opts (p ∷ q ∷ l)

unfoldable pub compute_known_best_path :
    Packet → SelectionOptions → List RoutePath → Option (List RoutePath × Option RoutePath)
compute_known_best_path pkt opts l =
    if opts.disable_best_path_selection
    then some (l, none)
    else (do l' ← sort_known pkt opts l; some (l', best_of l'))

less_total :
    (pkt : Packet) (opts : SelectionOptions) (p q : RoutePath)
    → HasRouterId p
    → HasRouterId q
    → (b : Bool) × (less pkt opts p q ≡ some b)
unfolding less
less_total pkt opts p q hp hq =
    let (d, e) = decide_total pkt opts p q hp hq in (is_path1 d.0, rw (e, less))

less_cases :
    (pkt : Packet) (opts : SelectionOptions) (p q : RoutePath) (b : Bool)
    → less pkt opts p q ≡ some b
    → (r : BestPathReason) × (decide pkt opts p q ≡ some ((if b then path1 else path2), r))
unfolding less
less_cases pkt opts p q b h = elim (Option-cases (decide pkt opts p q)) [
  | inl out ↦ absurd (ground arith)
  | inr ((path1, r), e) ↦ (r, ground arith)
  | inr ((path2, r), e) ↦ (r, ground arith)
]

less_flips :
    (pkt : Packet) (opts : SelectionOptions) (p q : RoutePath)
    → less pkt opts p q ≡ some false
    → less pkt opts q p ≡ some true
unfolding less
less_flips pkt opts p q h =
    let (r, e) = less_cases pkt opts p q false h in
    let (r', e') = decide_flips pkt opts p q r e in rw (e', less)

-- `sort` answers with the same paths, in an order in which no path is better than its predecessor
-- unless they tie.
pub sort_paths_lem :
    (pkt : Packet) (opts : SelectionOptions) (l : List RoutePath)
    → All HasRouterId l
    → (l' : List RoutePath) × (sort_paths pkt opts l ≡ some l')
      × Chain (λ p q. less pkt opts p q ≡ some true) l'
      × Permᴰ l l'
unfolding sort_paths
sort_paths_lem pkt opts l h =
    slice_stable_lem (less pkt opts) HasRouterId (less_total pkt opts) (less_flips pkt opts) l h

abbrev pub RanksFirst : List RoutePath → Type 0
RanksFirst [] = Unit
RanksFirst (p ∷ l) = All (λ q. RankLe q p) l

Chain-RanksFirst :
    (pkt : Packet) (opts : SelectionOptions) (l : List RoutePath)
    → Chain (λ p q. less pkt opts p q ≡ some true) l
    → RanksFirst l
Chain-RanksFirst pkt opts [] c = tt
Chain-RanksFirst pkt opts (p ∷ l) c =
    Chain-first (λ p q. RankLe q p) p l RankLe-trans
      (Chain-map _ (λ p q. RankLe q p) (p ∷ l)
        (λ a b e. let (r, d) = less_cases pkt opts a b true e in decide-RankLe pkt opts a b r d) c)

-- The best path of `compute_known_best_path`: the first of the sorted paths, none of which ranks
-- above it.
pub compute_known_best_path_lem :
    (pkt : Packet) (opts : SelectionOptions) (l : List RoutePath)
    → opts.disable_best_path_selection ≡ false
    → All HasRouterId l
    → (l' : List RoutePath) × (compute_known_best_path pkt opts l ≡ some (l', best_of l'))
      × RanksFirst l'
      × Permᴰ l l'
unfolding compute_known_best_path sort_known
compute_known_best_path_lem pkt opts [] on h = ([], ground arith, tt, Permᴰ.nil)
compute_known_best_path_lem pkt opts (p ∷ []) on h = (p ∷ [], ground arith, tt, Permᴰ.refl (p ∷ []))
compute_known_best_path_lem pkt opts (p ∷ q ∷ l) on h =
    let (l', e, c, perm) = sort_paths_lem pkt opts (p ∷ q ∷ l) h in
    (l', ground (arith, e), Chain-RanksFirst pkt opts l' c, perm)

-- Two paths that tie change places.
pub sort_paths_tie :
    (pkt : Packet) (opts : SelectionOptions) (p q : RoutePath)
    → decide pkt opts q p ≡ some (path1, BestPathReason.unknown)
    → sort_paths pkt opts (p ∷ q ∷ []) ≡ some (q ∷ p ∷ [])
unfolding sort_paths slice_stable insert_all insert_back rev_onto less
sort_paths_tie pkt opts p q tie = ground arith
