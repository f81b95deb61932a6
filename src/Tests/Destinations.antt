-- ===== src/Tests/Destinations.antt =====
-- `Calculate` and the choice of the best path at the test data.
use mathlib.Core.List.{Permᴰ, Memᴰ}
use goplane.Prelude.{ℕ, true, List, [], ◌∷◌, some, ◌≡◌, refl, inr, arith, All}
use goplane.RoutePath.{RoutePath, set_path_local_id, peer_equal, get_path_attr}
use goplane.RoutePath.AsPath.{get_as_path, get_as_path_len}
use goplane.RoutePath.Values.{is_llgr_stale, get_local_pref, get_origin, get_med}
use goplane.SliceStable.Laws.{Chain}
use goplane.Destination.{
  Better, path1, BestPathReason, decide, first_decision, steps, by_router_id,
  compare_by_llgr_stale_community, compare_by_reachable_nexthop, compare_by_highest_weight,
  compare_by_local_pref, compare_by_local_origin, compare_by_as_path, compare_by_origin,
  compare_by_med, compare_by_as_number, compare_by_igp_cost, compare_by_age, compare_by_router_id,
  compare_ids,
}
use goplane.Destination.Flips.{decide_flips}
use goplane.Destination.Rank.{decide_total}
use goplane.Destination.Best.{
  less, sort_paths, compute_known_best_path, best_of, RanksFirst, sort_paths_lem,
  compute_known_best_path_lem, sort_paths_tie,
}
use goplane.Destination.Calculate.{Destination, Update, calculate}
use goplane.Destination.Calculate.Keys.{Differ}
use goplane.Destination.Calculate.Entered.{IsValid}
use goplane.Destination.Calculate.Valid.{calculate-IsValid, calculate-withdraw, calculate-update}
use goplane.Tests.Data.{
  packet, options, from_one, from_two, withdrawn, known_one, known_one-IsValid, from_two-IsIncoming,
  withdrawn-IsIncoming,
}

program : Unit {0}
unfolding decide first_decision steps by_router_id compare_by_llgr_stale_community
    compare_by_reachable_nexthop compare_by_highest_weight compare_by_local_pref
    compare_by_local_origin compare_by_as_path compare_by_origin compare_by_med compare_by_as_number
    compare_by_igp_cost compare_by_age compare_by_router_id compare_ids is_llgr_stale get_local_pref
    get_origin get_med get_as_path get_as_path_len get_path_attr peer_equal less
program = tt

-- Two external paths of the same second tie, either way round.
tie : decide packet options from_two from_one ≡ some (path1, BestPathReason.unknown)
unfolding program
tie = refl

sort_paths_tie_example :
    sort_paths packet options (from_one ∷ from_two ∷ []) ≡ some (from_two ∷ from_one ∷ [])
sort_paths_tie_example = sort_paths_tie packet options from_one from_two tie

sort_paths_lem_example :
    (l' : List RoutePath) × (sort_paths packet options (from_one ∷ from_two ∷ []) ≡ some l')
    × Chain (λ p q. less packet options p q ≡ some true) l'
    × Permᴰ (from_one ∷ from_two ∷ []) l'
sort_paths_lem_example =
    sort_paths_lem packet options (from_one ∷ from_two ∷ []) (inr (11, refl), (inr (12, refl), tt))

compute_known_best_path_lem_example :
    (l' : List RoutePath) × (compute_known_best_path packet options (from_one ∷ from_two ∷ [])
      ≡ some (l', best_of l'))
    × RanksFirst l'
    × Permᴰ (from_one ∷ from_two ∷ []) l'
compute_known_best_path_lem_example =
    compute_known_best_path_lem packet options (from_one ∷ from_two ∷ []) refl
      (inr (11, refl), (inr (12, refl), tt))

decide_total_example :
    (d : Better × BestPathReason) × (decide packet options from_one from_two ≡ some d)
decide_total_example =
    decide_total packet options from_one from_two (inr (11, refl)) (inr (12, refl))

decide_flips_example :
    (r' : BestPathReason) × (decide packet options withdrawn from_one ≡ some (path1, r'))
unfolding program
decide_flips_example = decide_flips packet options from_one withdrawn BestPathReason.as_path refl

calculate-IsValid_example :
    (r : Destination × Update) × (calculate packet options from_two known_one ≡ some r)
    × IsValid r.0
    × RanksFirst r.0.known_path_list
    × (r.1 ≡ record {
      known_path_list = r.0.known_path_list;
      old_known_path_list = known_one.known_path_list;
    })
calculate-IsValid_example =
    calculate-IsValid packet options from_two known_one refl known_one-IsValid from_two-IsIncoming
      (omega arith)

calculate-withdraw_example :
    (r : Destination × Update) × (calculate packet options withdrawn known_one ≡ some r)
    × All (λ p. Differ p withdrawn) r.0.known_path_list
calculate-withdraw_example =
    calculate-withdraw packet options withdrawn known_one refl known_one-IsValid
      withdrawn-IsIncoming (omega arith) refl

calculate-update_example :
    (r : Destination × Update) × (calculate packet options from_two known_one ≡ some r)
    × ((id : ℕ) × Memᴰ (set_path_local_id from_two id) r.0.known_path_list)
calculate-update_example =
    calculate-update packet options from_two known_one refl known_one-IsValid from_two-IsIncoming
      (omega arith) refl
