-- ===== src/Tests/Messages.antt =====
-- The AS path conversions at an update with a four-byte number.
use goplane.Prelude.{List, [], ◌∷◌, ◌++◌, some, ◌≡◌, refl, arith, ◌-◌, length, take}
use goplane.Bgp.{Attr, AsPathParam, new_as4_path_param, Packet, seg_seq}
use goplane.RoutePath.Prepend.{flat}
use goplane.Message.{update_path_attrs_2byte_as, update_path_attrs_4byte_as, reconstruct}
use goplane.Message.Reconstruct.{reconstruct-sequences}
use goplane.Message.RoundTrip.{update_path_attrs-round_trip}

abbrev counting : Packet
counting = record { as_len = λ s. length s.asns; serialize = λ a. [] }

abbrev wide : List AsPathParam
wide = new_as4_path_param seg_seq (4200000001 ∷ 65001 ∷ []) ∷ []

abbrev narrow : List AsPathParam
narrow = new_as4_path_param seg_seq (65009 ∷ 23456 ∷ 65001 ∷ []) ∷ []

update_path_attrs-round_trip_example :
    (l' : List AsPathParam) × (update_path_attrs_4byte_as counting (
        update_path_attrs_2byte_as
          ((Attr.origin 0 ∷ []) ++ Attr.as_path wide ∷ (Attr.communities (7 ∷ []) ∷ [])))
      ≡ some ((Attr.origin 0 ∷ []) ++ Attr.as_path l' ∷ (Attr.communities (7 ∷ []) ∷ [])))
    × (flat l' ≡ flat wide)
update_path_attrs-round_trip_example =
    update_path_attrs-round_trip counting (Attr.origin 0 ∷ []) (Attr.communities (7 ∷ []) ∷ []) wide
      (tt, tt) (tt, tt) (λ s e. refl) (refl, tt) (omega arith, tt) (refl, tt) (λ e. cc)

reconstruct-sequences_example :
    (l' : List AsPathParam) × (reconstruct counting narrow wide ≡ some l')
    × (flat l' ≡ take (length (flat narrow) - length (flat wide)) (flat narrow) ++ flat wide)
reconstruct-sequences_example =
    reconstruct-sequences counting narrow wide (λ s e. refl) (refl, tt) (refl, tt) (omega arith, tt)
      (omega arith, tt) (λ e. cc)
