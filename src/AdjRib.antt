-- ===== src/AdjRib.antt =====
-- internal/pkg/table/adj.go: the routes received from a peer (or sent to it), with a count of the
-- accepted ones for each family. The tables of all families are one list of destinations, which
-- stands for Go's maps; a count that is missing is zero. A nil path in a list is skipped by the
-- source, and no list of the model has one.
use goplane.Prelude.{
  ℕ, zero, suc, Bool, true, false, List, [], ◌∷◌, ◌++◌, Option, none, some, ◌==◌, if◌then◌else◌,
  ◌>>=◌, ◌&&◌, ◌+◌, not, any, length, remove_at, set, get_elem?,
}
use goplane.Prelude.Int.{ℤ, pos, negsuc, ◌+ℤ◌}
use goplane.Bgp.{Packet}
use goplane.RoutePath.{RoutePath, set_timestamp, clone, has}
use goplane.Destination.Calculate.{path_id, entry_at}
use goplane.Destination.Changes.{path_equal}
pub mod Accepted
pub mod Stale
pub mod Lifecycle

pub record Dest : Type 0 where
  pub family : ℕ
  pub key : ℕ
  pub known_path_list : List RoutePath

pub record AdjRib : Type 0 where
  pub families : List ℕ
  pub accepted : ℕ → ℤ
  pub dests : List Dest

abbrev pub is_dest : ℕ → ℕ → Dest → Bool
is_dest rf key d = d.family == rf && d.key == key

-- `getOrCreateDest`: a new destination is empty.
unfoldable pub known_at : ℕ → ℕ → List Dest → List RoutePath
known_at rf key [] = []
known_at rf key (d ∷ l) =
    let rest = known_at rf key l in if is_dest rf key d then d.known_path_list else rest

unfoldable pub put_dest : ℕ → ℕ → List RoutePath → List Dest → List Dest
put_dest rf key paths [] = record { family = rf; key = key; known_path_list = paths } ∷ []
put_dest rf key paths (d ∷ l) =
    let rest = put_dest rf key paths l in
    if is_dest rf key d then record d { known_path_list = paths } ∷ l else d ∷ rest

-- `deleteDest`, on a destination without identifiers.
unfoldable pub delete_dest : ℕ → ℕ → List Dest → List Dest
delete_dest rf key [] = []
delete_dest rf key (d ∷ l) =
    let rest = delete_dest rf key l in if is_dest rf key d then l else d ∷ rest

-- The first known path with the path identifier.
unfoldable pub index_of : ℕ → List RoutePath → Option ℕ
index_of id [] = none
index_of id (p ∷ l) =
    let rest = (do i ← index_of id l; some (suc i)) in if path_id p == id then some 0 else rest

-- The known paths, the change of the count, and the path as it is stored.
pub record Stored : Type 0 where
  pub paths : List RoutePath
  pub change : ℤ
  pub path : RoutePath

abbrev pub drop_path : RoutePath → RoutePath
drop_path p = record p { dropped = true }

unfoldable pub store_withdraw : RoutePath → List RoutePath → Option (ℕ × RoutePath) → Stored
store_withdraw path l none = record { paths = l; change = pos 0; path = drop_path path }
store_withdraw path l (some (i, old)) = record {
  paths = remove_at i l;
  change = if old.rejected then pos 0 else negsuc 0;
  path = drop_path path;
}

unfoldable pub count_change : Bool → Bool → ℤ
count_change true false = pos 1
count_change false true = negsuc 0
count_change _ _ = pos 0

unfoldable pub store_update : Packet → RoutePath → List RoutePath → Option (ℕ × RoutePath) → Stored
store_update pkt path l none = record {
  paths = l ++ path ∷ [];
  change = if path.rejected then pos 0 else pos 1;
  path = path;
}
store_update pkt path l (some (i, old)) =
    let timed =
      if path_equal pkt old (some path) then set_timestamp path old.info.timestamp else path in
    record { paths = set l i timed; change = count_change old.rejected path.rejected; path = timed }

unfoldable pub store : Packet → RoutePath → List RoutePath → Stored
store pkt path l =
    let found = entry_at l (index_of (path_id path) l) in
    if path.is_withdraw then store_withdraw path l found else store_update pkt path l found

-- A withdrawal that leaves no path deletes the destination.
abbrev pub emptied : RoutePath → List RoutePath → List RoutePath → Bool
emptied path before after = path.is_withdraw && not (length before == 0) && length after == 0

abbrev pub add_count : ℕ → ℤ → (ℕ → ℤ) → ℕ → ℤ
add_count rf change accepted f = if f == rf then accepted f +ℤ change else accepted f

-- One path of `Update`; `none` is a panic, on a family without a table.
unfoldable pub update_one : Packet → RoutePath → AdjRib → Option AdjRib
update_one pkt path adj =
    let rf = path.info.nlri.family in
    let key = path.info.nlri.key in
    let known = known_at rf key adj.dests in
    let stored = store pkt path known in
    if path.info.eor
    then some adj
    else if has rf adj.families
    then some (record adj {
      accepted = add_count rf stored.change adj.accepted;
      dests =
          if emptied path known stored.paths
          then delete_dest rf key adj.dests
          else put_dest rf key stored.paths adj.dests;
    })
    else none

unfoldable pub update : Packet → List RoutePath → AdjRib → Option AdjRib
update pkt [] adj = some adj
update pkt (path ∷ l) adj = do adj' ← update_one pkt path adj; update pkt l adj'

-- `Accepted` and `Count`.
unfoldable pub accepted_of : List ℕ → AdjRib → ℤ
accepted_of [] adj = pos 0
accepted_of (rf ∷ l) adj = adj.accepted rf +ℤ accepted_of l adj
