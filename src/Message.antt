-- ===== src/Message.antt =====
-- internal/pkg/table/message.go: the AS path of an update for and from a speaker of two-byte AS
-- numbers (RFC 6793). `none` is a run-time panic.
use goplane.Prelude.{
  ℕ, zero, suc, Bool, true, false, List, [], ◌∷◌, ◌++◌, Option, none, some, ◌==◌, ltb, leb,
  if◌then◌else◌, ◌>>=◌, ◌||◌, ◌&&◌, ◌+◌, ◌-◌, length, take, drop, map, keep, any, not, remove_at,
  set,
}
use goplane.Bgp.{
  Attr, AsPathParam, AsKind, as2, as4, new_as4_path_param, new_as_path_param, Packet, as_trans,
  seg_seq, seg_confed_seq, seg_confed_set,
}
use goplane.SliceStable.{rev_onto}
pub mod Packer
pub mod Aggregator
pub mod Reconstruct
pub mod RoundTrip

-- A number above 65535 is sent as AS_TRANS.
unfoldable pub two_byte : ℕ → ℕ
two_byte as_number = if ltb 65535 as_number then as_trans else as_number

abbrev pub is_confed : AsPathParam → Bool
is_confed s = s.seg_type == seg_confed_seq || s.seg_type == seg_confed_set

abbrev pub is_as4 : AsPathParam → Bool
is_as4 s = elim (s.kind) [ as2 ↦ false | as4 ↦ true ]

unfoldable pub two_byte_params : List AsPathParam → List AsPathParam
two_byte_params = map (λ s. new_as_path_param s.seg_type (map two_byte s.asns))

-- The segments of the AS4_PATH attribute: no confederation segments, and four-byte ones only.
unfoldable pub as4_params : List AsPathParam → List AsPathParam
as4_params = keep (λ s. not (is_confed s) && is_as4 s)

-- `mkAs4`
unfoldable pub needs_as4 : List AsPathParam → Bool
needs_as4 = any (λ s. any (λ n. ltb 65535 n) s.asns)

-- The first attribute that is an AS path is replaced.
unfoldable pub first_as_path : List Attr → Option (List AsPathParam)
first_as_path [] = none
first_as_path (Attr.as_path l ∷ rest) = some l
first_as_path (_ ∷ rest) = first_as_path rest

unfoldable pub replace_first : List AsPathParam → List Attr → List Attr
replace_first new [] = []
replace_first new (Attr.as_path l ∷ rest) = Attr.as_path new ∷ rest
replace_first new (a ∷ rest) = a ∷ replace_first new rest

-- `UpdatePathAttrs2ByteAs`
unfoldable pub update_path_attrs_2byte_as : List Attr → List Attr
update_path_attrs_2byte_as attrs = elim (first_as_path attrs) [
  | none ↦ attrs
  | some l ↦
      replace_first (two_byte_params l) attrs
      ++ (if needs_as4 l then Attr.as4_path (as4_params l) ∷ [] else [])
]

-- `UpdatePathAttrs4ByteAs`: two-byte segments become four-byte ones.
abbrev pub four_byte : AsPathParam → AsPathParam
four_byte s = elim (s.kind) [ as2 ↦ new_as4_path_param s.seg_type s.asns | as4 ↦ s ]

unfoldable pub four_byte_attr : Attr → Attr
four_byte_attr (Attr.as_path l) = Attr.as_path (map four_byte l)
four_byte_attr a = a

-- The last AS_PATH and the last AS4_PATH, with their positions, `i` being that of the head.
pub record Positions : Type 0 where
  pub as_attr : Option (ℕ × List AsPathParam)
  pub as4_attr : Option (ℕ × List AsPathParam)

unfoldable pub note_position : ℕ → Attr → Positions → Positions
note_position i (Attr.as_path l) p = record p { as_attr = some (i, l) }
note_position i (Attr.as4_path l) p = record p { as4_attr = some (i, l) }
note_position i _ p = p

unfoldable pub positions_from : ℕ → List Attr → Positions → Positions
positions_from i [] p = p
positions_from i (a ∷ l) p = positions_from (suc i) l (note_position i a p)

module _ (pkt : Packet) where
  unfoldable pub total_as_len : List AsPathParam → ℕ
  total_as_len [] = 0
  total_as_len (s ∷ l) = pkt.as_len s + total_as_len l

  -- `asConfedLen`
  unfoldable pub confed_len : List AsPathParam → ℕ
  confed_len [] = 0
  confed_len (s ∷ l) =
      (if s.seg_type == seg_confed_set
        then 1
        else if s.seg_type == seg_confed_seq
        then length s.asns
        else 0)
      + confed_len l

  -- The loop that keeps the leading `keep_num` numbers of the AS path.
  unfoldable pub leading : ℕ → List AsPathParam → Option (List AsPathParam)
  leading keep_num [] = some []
  leading keep_num (s ∷ l) =
      let rest = (do l' ← leading (keep_num - pkt.as_len s) l; some (s ∷ l')) in
      if leb (pkt.as_len s) keep_num
      then (if keep_num - pkt.as_len s == 0 then some (s ∷ []) else rest)
      else if ltb (length s.asns) keep_num
      then none
      else some (new_as4_path_param s.seg_type (take keep_num s.asns) ∷ [])

-- The loop that adds the segments of the AS4_PATH; the list is kept from its last segment on.
unfoldable pub add_segment : AsPathParam → List AsPathParam → Option (List AsPathParam)
add_segment s [] = none
add_segment s (last ∷ l) =
    if s.seg_type == last.seg_type && s.seg_type == seg_seq
    then (if ltb 255 (length last.asns + length s.asns)
        then (if ltb 255 (length last.asns)
            then none
            else some (
                new_as4_path_param s.seg_type (drop (255 - length last.asns) s.asns)
                ∷ new_as4_path_param s.seg_type (last.asns ++ take (255 - length last.asns) s.asns)
                ∷ l))
        else some (new_as4_path_param s.seg_type (last.asns ++ s.asns) ∷ l))
    else some (s ∷ last ∷ l)

unfoldable pub add_segments : List AsPathParam → List AsPathParam → Option (List AsPathParam)
add_segments [] acc = some acc
add_segments (s ∷ l) acc = do acc' ← add_segment s acc; add_segments l acc'

-- The segments of an AS4_PATH that count: those of a confederation are discarded.
abbrev pub carried : List AsPathParam → List AsPathParam
carried = keep (λ s. not (is_confed s))

unfoldable pub available : Packet → List AsPathParam → ℕ
available pkt as_params = total_as_len pkt as_params + confed_len pkt as_params

-- An AS4_PATH that is longer than the AS path is ignored.
unfoldable pub is_longer : Packet → List AsPathParam → List AsPathParam → Bool
is_longer pkt as_params as4_value =
    ltb (available pkt as_params) (total_as_len pkt (carried as4_value))

-- The new AS path from both attributes.
unfoldable pub reconstruct :
    Packet → List AsPathParam → List AsPathParam → Option (List AsPathParam)
reconstruct pkt as_params as4_value = do
  kept ← leading pkt (available pkt as_params - total_as_len pkt (carried as4_value)) as_params
  acc ← add_segments (carried as4_value) (rev_onto kept [])
  some (rev_onto acc [])

-- `attrs[i] = a`
unfoldable pub set_at : ℕ → Attr → List Attr → Option (List Attr)
set_at i a l = if ltb i (length l) then some (set l i a) else none

-- What is done with the two attributes. The position of the AS path is not moved when the AS4_PATH
-- is taken out before it.
unfoldable pub combine :
    Packet
    → List Attr
    → Option (ℕ × List AsPathParam)
    → Option (ℕ × List AsPathParam)
    → Option (List Attr)
combine pkt attrs as_attr none = some attrs
combine pkt attrs none (some (i, as4_value)) = some (remove_at i attrs)
combine pkt attrs (some (j, as_params)) (some (i, as4_value)) =
    if is_longer pkt as_params as4_value then some (remove_at i attrs) else (do
      value ← reconstruct pkt as_params as4_value
      set_at j (Attr.as_path value) (remove_at i attrs))

unfoldable pub update_path_attrs_4byte_as : Packet → List Attr → Option (List Attr)
update_path_attrs_4byte_as pkt attrs =
    let converted = map four_byte_attr attrs in
    let found = positions_from 0 converted (record { as_attr = none; as4_attr = none }) in
    combine pkt converted found.as_attr found.as4_attr
