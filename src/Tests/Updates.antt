-- ===== src/Tests/Updates.antt =====
-- What peers are told, at the test data.
use goplane.Prelude.{[], ◌∷◌, false, refl}
use goplane.Destination.Calculate.{Update}
use goplane.Destination.Changes.{
  RibId, global_rib, best_path_in, told, IsInSync, get_changes, get_changes-IsInSync,
}
use goplane.Tests.Data.{packet, from_one, from_two}

abbrev replaced_best : Update
replaced_best = record {
  known_path_list = from_two ∷ from_one ∷ [];
  old_known_path_list = from_one ∷ [];
}

get_changes-IsInSync_example :
    IsInSync packet (best_path_in global_rib 65001 replaced_best.known_path_list) (
      told
        (best_path_in global_rib 65001 replaced_best.old_known_path_list)
        (get_changes packet global_rib 65001 false replaced_best).0)
unfolding best_path_in goplane.Destination.Changes.rs_filter
get_changes-IsInSync_example =
    get_changes-IsInSync packet global_rib 65001 false replaced_best (refl, refl)
