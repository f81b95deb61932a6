-- ===== src/Tests/AdjRibs.antt =====
-- A table of one family that receives a path and its replacement.
use goplane.Prelude.{[], ◌∷◌, some, ◌≡◌, refl}
use goplane.Prelude.Int.{pos}
use goplane.Bgp.{rf_ipv4_uc}
use goplane.AdjRib.{
  AdjRib, update, update_one, store, store_update, index_of, known_at, put_dest, add_count,
}
use goplane.AdjRib.Stale.{drop_all, stale_all}
use goplane.AdjRib.Lifecycle.{start, step, updated, staled, dropped, Reaches-IsCounted}
use goplane.AdjRib.Accepted.{IsCounted, update-IsCounted}
use goplane.Tests.Data.{packet, from_one, from_two, withdrawn}

abbrev empty_rib : AdjRib
empty_rib = record { families = rf_ipv4_uc ∷ []; accepted = λ rf. pos 0; dests = [] }

update-IsCounted_example :
    (adj' : AdjRib) × (update packet (from_one ∷ from_two ∷ withdrawn ∷ []) empty_rib ≡ some adj')
    × IsCounted adj'
update-IsCounted_example =
    update-IsCounted packet (from_one ∷ from_two ∷ withdrawn ∷ []) empty_rib (λ rf. refl)
      (refl, (refl, (refl, tt)))

abbrev one_rib : AdjRib
one_rib = record {
  families = rf_ipv4_uc ∷ [];
  accepted = add_count rf_ipv4_uc (pos 1) (λ rf. pos 0);
  dests = record { family = rf_ipv4_uc; key = 10; known_path_list = from_one ∷ [] } ∷ [];
}

one_received : update packet (from_one ∷ []) empty_rib ≡ some one_rib
unfolding update update_one store store_update index_of known_at put_dest
    goplane.Destination.Calculate.entry_at
one_received = refl

abbrev stale_rib : AdjRib
stale_rib = (stale_all (rf_ipv4_uc ∷ []) one_rib).0

Reaches-IsCounted_example : IsCounted (drop_all (rf_ipv4_uc ∷ []) stale_rib).0
Reaches-IsCounted_example =
    Reaches-IsCounted packet empty_rib (drop_all (rf_ipv4_uc ∷ []) stale_rib).0
      (step (updated (from_one ∷ []) one_received)
        (step (staled (rf_ipv4_uc ∷ [])) (step (dropped (rf_ipv4_uc ∷ [])) start)))
      (λ rf. refl)
