-- ===== src/Table.antt =====
-- internal/pkg/table/table.go and `update` of table_manager.go: the destinations of one address
-- family. Go's map of destinations is a list by their keys (`tableKey`). `none` is a panic, or the end
-- of the process where the code logs a fatal error.
use goplane.Prelude.{
  ℕ, zero, suc, Bool, true, false, List, [], ◌∷◌, Option, none, some, ◌==◌, if◌then◌else◌, ◌>>=◌,
  ◌&&◌, not, ◌+◌, length, keep, any,
}
use goplane.Bgp.{Packet, Attr, AsPathParam, attr_as_path, attr_as4_path}
use goplane.Bitmap.{Bitmap, Word}
use goplane.RoutePath.{RoutePath, get_path_attr}
use goplane.RoutePath.AsPath.{as_path_of}
use goplane.Message.{is_as4}
use goplane.Destination.{SelectionOptions}
use goplane.Destination.Calculate.{Destination, Update, new_destination, calculate}
pub mod Lookup
pub mod Updated

pub record Table : Type 0 where
  pub route_family : ℕ
  pub destinations : List (ℕ × Destination)

-- `GetDestination`
unfoldable pub get_destination : ℕ → List (ℕ × Destination) → Option Destination
get_destination key [] = none
get_destination key (e ∷ l) =
    let rest = get_destination key l in if e.0 == key then some e.1 else rest

-- `setDestination`
unfoldable pub set_destination : ℕ → Destination → List (ℕ × Destination) → List (ℕ × Destination)
set_destination key d [] = (key, d) ∷ []
set_destination key d (e ∷ l) =
    let rest = set_destination key d l in if e.0 == key then (key, d) ∷ l else e ∷ rest

-- `getOrCreateDest`, without the storing of a new destination.
unfoldable pub get_or_create_dest : ℕ → ℕ → List (ℕ × Destination) → Option Destination
get_or_create_dest key size l = elim (get_destination key l) [
  | some d ↦ some d
  | none ↦ new_destination size []
]

-- `bits.OnesCount64`
unfoldable pub ones_count : Word → ℕ
ones_count [] = 0
ones_count (b ∷ w) = if b then suc (ones_count w) else ones_count w

unfoldable pub taken_count : Bitmap → ℕ
taken_count [] = 0
taken_count (w ∷ b) = ones_count w + taken_count b

-- A destination whose bitmap has an identifier in use is kept: withdrawn paths may still be told.
unfoldable pub delete_unused_dest :
    ℕ → Destination → List (ℕ × Destination) → List (ℕ × Destination)
delete_unused_dest key d l =
    if not (length d.local_id_map == 0) && not (taken_count d.local_id_map == 1)
    then l
    else keep (λ e. not (e.0 == key)) l

abbrev pub all_as4 : Option (List AsPathParam) → Bool
all_as4 none = true
all_as4 (some l) = not (any (λ s. not (is_as4 s)) l)

abbrev pub is_missing : Option Attr → Bool
is_missing none = true
is_missing (some _) = false

-- `validatePath`, of a path with an NLRI: whether the process goes on. Another family is only logged.
unfoldable pub validate_path : RoutePath → Bool
validate_path p =
    all_as4 (get_path_attr p attr_as_path >>= as_path_of)
    && is_missing (get_path_attr p attr_as4_path)

unfoldable pub store_dest : ℕ → Destination → List (ℕ × Destination) → List (ℕ × Destination)
store_dest key d l =
    let stored = set_destination key d l in
    if length d.known_path_list == 0 then delete_unused_dest key d stored else stored

-- `(tm *TableManager) update`, on the table of the path's family.
unfoldable pub update_table :
    Packet → SelectionOptions → RoutePath → Table → Option (Table × Update)
update_table pkt opts new t = do
  d ← if validate_path new then get_or_create_dest new.info.nlri.key 64 t.destinations else none
  r ← calculate pkt opts new d
  some (record t { destinations = store_dest new.info.nlri.key r.0 t.destinations }, r.1)
