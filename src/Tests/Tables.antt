-- ===== src/Tests/Tables.antt =====
-- A table that knows one path of a prefix, and gets another.
use goplane.Prelude.{ℕ, true, [], ◌∷◌, some, ◌≡◌, ◌≢◌, refl, arith}
use goplane.Bgp.{rf_ipv4_uc}
use goplane.RoutePath.{get_path_attr}
use goplane.Destination.Best.{RanksFirst}
use goplane.Destination.Calculate.{Update}
use goplane.Table.{Table, get_destination, validate_path, update_table}
use goplane.Table.Lookup.{known_of}
use goplane.Table.Updated.{AreValid, update_table_lem}
use goplane.Tests.Data.{
  packet, options, known_one, known_one-IsValid, from_two, from_two-IsIncoming,
}

abbrev table : Table
table = record { route_family = rf_ipv4_uc; destinations = (10, known_one) ∷ [] }

accepted : validate_path from_two ≡ true
unfolding validate_path get_path_attr
accepted = refl

update_table_lem_example :
    (t' : Table) × (u : Update) × (update_table packet options from_two table ≡ some (t', u))
    × AreValid t'.destinations
    × (u.old_known_path_list ≡ known_of (get_destination 10 table.destinations))
    × (u.known_path_list ≡ known_of (get_destination 10 t'.destinations))
    × RanksFirst u.known_path_list
    × ((k : ℕ) → k ≢ 10 → get_destination k t'.destinations ≡ get_destination k table.destinations)
update_table_lem_example =
    update_table_lem packet options from_two table refl accepted from_two-IsIncoming
      (known_one-IsValid, tt) (omega arith, tt)
