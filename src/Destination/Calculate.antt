-- ===== src/Destination/Calculate.antt =====
-- `Calculate` of internal/pkg/table/destination.go: a new path or a withdrawal enters a destination.
-- The identifiers in an NLRI object are kept in each path that holds it. `none` is a panic.
use goplane.Prelude.{
  ℕ, zero, suc, Bool, true, false, List, [], ◌∷◌, ◌++◌, Option, none, some, ◌==◌, if◌then◌else◌,
  ◌>>=◌, ◌%◌, ◌^◌, get_elem?, remove_at, not, ◌&&◌,
}
use goplane.Bgp.{Packet}
use goplane.Bitmap.{Bitmap, find_and_set_zero_bit, expand, unflag, new_bitmap, flag}
use goplane.RoutePath.{RoutePath, peer_equal, set_path_local_id}
use goplane.Destination.{SelectionOptions}
use goplane.Destination.Best.{compute_known_best_path}
pub mod Keys
pub mod Ids
pub mod Entered
pub mod Valid

pub record Destination : Type 0 where
  pub known_path_list : List RoutePath
  pub local_id_map : Bitmap

pub record Update : Type 0 where
  pub known_path_list : List RoutePath
  pub old_known_path_list : List RoutePath

-- `NewDestination`; the identifier zero means that none is allocated yet.
unfoldable pub new_destination : ℕ → List RoutePath → Option Destination
new_destination map_size known = do
  m ← if map_size == 0 then some (new_bitmap map_size) else flag (new_bitmap map_size) 0
  some (record { known_path_list = known; local_id_map = m })

abbrev pub path_id : RoutePath → ℕ
path_id p = p.info.nlri.path_id

abbrev pub local_id : RoutePath → ℕ
local_id p = p.info.nlri.path_local_id

-- A path takes the place of another if it has its source and its path identifier.
unfoldable pub matches : RoutePath → RoutePath → Bool
matches p q = if peer_equal p.info.source q.info.source then path_id p == path_id q else false

-- The loop of `explicitWithdraw`: it keeps the last match.
unfoldable pub last_match : RoutePath → List RoutePath → Option ℕ
last_match w [] = none
last_match w (p ∷ l) = elim (last_match w l) [
  | some i ↦ some (suc i)
  | none ↦ if matches p w then some 0 else none
]

-- The entry that a loop found, with its index.
unfoldable pub entry_at : List RoutePath → Option ℕ → Option (ℕ × RoutePath)
entry_at l none = none
entry_at l (some i) = do p ← get_elem? l i; some (i, p)

-- The withdrawal with the local identifier of the match, the list without it, and the match.
pub record Withdrawn : Type 0 where
  pub withdraw : RoutePath
  pub rest : List RoutePath
  pub removed : Option RoutePath

unfoldable pub explicit_withdraw : RoutePath → List RoutePath → Withdrawn
explicit_withdraw w l = elim (entry_at l (last_match w l)) [
  | none ↦ record { withdraw = w; rest = l; removed = none }
  | some (i, p) ↦ record {
    withdraw = set_path_local_id w (local_id p);
    rest = remove_at i l;
    removed = some p;
  }
]

-- The loop of `implicitWithdraw`: it stops at the first match.
unfoldable pub first_match : RoutePath → List RoutePath → Option ℕ
first_match new [] = none
first_match new (p ∷ l) =
    let rest = (do i ← first_match new l; some (suc i)) in if matches new p then some 0 else rest

pub record Replaced : Type 0 where
  pub new : RoutePath
  pub rest : List RoutePath

unfoldable pub implicit_withdraw : RoutePath → List RoutePath → Replaced
implicit_withdraw new l =
    elim (entry_at l (if new.info.no_implicit_withdraw then none else first_match new l)) [
      | none ↦ record { new = new; rest = l }
      | some (i, p) ↦ record { new = set_path_local_id new (local_id p); rest = remove_at i l }
    ]

-- A free identifier; where there is none the bitmap grows. The second error is dropped, as is the
-- identifier zero that comes with it.
unfoldable pub allocate : Bitmap → Bitmap × ℕ
allocate b = elim (find_and_set_zero_bit b) [
  | some r ↦ r
  | none ↦ elim (find_and_set_zero_bit (expand b)) [ some r ↦ r | none ↦ (expand b, 0) ]
]

-- Every known path without a local identifier gets one, a uint32.
unfoldable pub give_id : Bitmap → RoutePath → Bitmap × RoutePath
give_id b p =
    let r = allocate b in
    if local_id p == 0 then (r.0, set_path_local_id p (r.1 % 2 ^ 32)) else (b, p)

unfoldable pub assign_ids : Bitmap → List RoutePath → Bitmap × List RoutePath
assign_ids b [] = (b, [])
assign_ids b (p ∷ l) = let r = give_id b p in let rest = assign_ids r.0 l in (rest.0, r.1 ∷ rest.1)

-- A withdrawal of a dropped path frees the identifier of the path that it removes.
unfoldable pub free_id : RoutePath → Option RoutePath → Bitmap → Option Bitmap
free_id w none b = some b
free_id w (some p) b = if w.dropped && not (local_id p == 0) then unflag b (local_id p) else some b

-- The paths and the bitmap before identifiers are given and the best path is found.
unfoldable pub enter : RoutePath → Destination → Option Destination
enter new d =
    if new.is_withdraw
    then (do
      m ← free_id new (explicit_withdraw new d.known_path_list).removed d.local_id_map
      some (record {
        known_path_list = (explicit_withdraw new d.known_path_list).rest;
        local_id_map = m;
      }))
    else some (record {
      known_path_list =
          (implicit_withdraw new d.known_path_list).rest
          ++ (implicit_withdraw new d.known_path_list).new ∷ [];
      local_id_map = d.local_id_map;
    })

unfoldable pub calculate :
    Packet → SelectionOptions → RoutePath → Destination → Option (Destination × Update)
calculate pkt opts new d = do
  entered ← enter new d
  let given = assign_ids entered.local_id_map entered.known_path_list
  best ← compute_known_best_path pkt opts given.1
  some (
    record { known_path_list = best.0; local_id_map = given.0 },
    record { known_path_list = best.0; old_known_path_list = d.known_path_list },
  )
