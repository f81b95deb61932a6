-- ===== src/Message/Aggregator.antt =====
-- `UpdatePathAggregator2ByteAs` and `UpdatePathAggregator4ByteAs` of internal/pkg/table/message.go:
-- the AGGREGATOR attribute for and from a speaker of two-byte AS numbers.
use goplane.Prelude.{
  ℕ, suc, Bool, true, false, List, [], ◌∷◌, ◌++◌, Option, none, some, ◌≡◌, refl, sym, ap, ◌∙◌,
  arith, ◌==◌, ltb, if◌then◌else◌, ◌+◌, ◌<◌, length, map, All, remove_at, set, remove_at-last,
  length-append,
}
use mathlib.Core.List.{map-append, append_assoc, append-nil}
use goplane.Bgp.{Ip, no_ip, Attr, AsKind, as2, as4, as_trans}
use goplane.Message.{two_byte}
pub mod RoundTrip

-- `NewPathAttributeAggregator(uint16(…))` holds a two-byte number.
unfoldable pub two_byte_aggregator : Attr → Attr
two_byte_aggregator (Attr.aggregator kind n ip) = Attr.aggregator as2 (two_byte n) ip
two_byte_aggregator a = a

-- The variables `as` and `addr` of the loop: the last number above 65535, the last address.
unfoldable pub note_aggregator : Attr → ℕ × Ip → ℕ × Ip
note_aggregator (Attr.aggregator kind n ip) s = (if ltb 65535 n then n else s.0, ip)
note_aggregator a s = s

unfoldable pub note_aggregators : List Attr → ℕ × Ip → ℕ × Ip
note_aggregators [] s = s
note_aggregators (a ∷ l) s = note_aggregators l (note_aggregator a s)

unfoldable pub update_path_aggregator_2byte_as : List Attr → List Attr
update_path_aggregator_2byte_as attrs =
    let s = note_aggregators attrs (0, no_ip) in
    map two_byte_aggregator attrs ++ (if s.0 == 0 then [] else Attr.as4_aggregator s.0 s.1 ∷ [])

-- `aggAttr.Value.Askind = reflect.Uint32`
unfoldable pub four_byte_aggregator : Attr → Attr
four_byte_aggregator (Attr.aggregator as2 n ip) = Attr.aggregator as4 n ip
four_byte_aggregator a = a

-- The last two-byte AGGREGATOR and the last AS4_AGGREGATOR, with their positions.
pub record Found : Type 0 where
  pub aggregator : Option (ℕ × Ip)
  pub as4_aggregator : Option (ℕ × ℕ)

unfoldable pub note_found : ℕ → Attr → Found → Found
note_found i (Attr.aggregator as2 n ip) f = record f { aggregator = some (i, ip) }
note_found i (Attr.as4_aggregator n ip) f = record f { as4_aggregator = some (i, n) }
note_found i a f = f

unfoldable pub find_from : ℕ → List Attr → Found → Found
find_from i [] f = f
find_from i (a ∷ l) f = find_from (suc i) l (note_found i a f)

-- `none` is the error of an AS4_AGGREGATOR without an AGGREGATOR.
unfoldable pub combine_aggregators :
    List Attr → Option (ℕ × Ip) → Option (ℕ × ℕ) → Option (List Attr)
combine_aggregators attrs agg none = some attrs
combine_aggregators attrs none (some (i, n)) = none
combine_aggregators attrs (some (j, ip)) (some (i, n)) =
    some (remove_at i (set attrs j (Attr.aggregator as4 n ip)))

unfoldable pub update_path_aggregator_4byte_as : List Attr → Option (List Attr)
update_path_aggregator_4byte_as attrs =
    let found = find_from 0 attrs (record { aggregator = none; as4_aggregator = none }) in
    combine_aggregators (map four_byte_aggregator attrs) found.aggregator found.as4_aggregator
