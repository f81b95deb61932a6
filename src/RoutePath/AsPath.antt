-- ===== src/RoutePath/AsPath.antt =====
-- The AS path of internal/pkg/table/path.go: reading it, prepending to it, and its filters.
use goplane.Prelude.{
  ℕ, Bool, true, false, List, [], ◌∷◌, ◌++◌, Option, none, some, ◌==◌, leb, ltb, if◌then◌else◌,
  ◌>>=◌, ◌+◌, ◌-◌, ◌%◌, length, take, drop, replicate, map,
}
use goplane.Bgp.{
  Attr, AsPathParam, new_as4_path_param, Packet, attr_as_path, seg_seq, seg_set, seg_confed_seq,
}
use goplane.RoutePath.{RoutePath, get_path_attr, set_path_attr}

-- `attr.(*bgp.PathAttributeAsPath)`; an attribute of this type is never of another Go type.
abbrev pub as_path_of : Attr → Option (List AsPathParam)
as_path_of (Attr.as_path l) = some l
as_path_of _ = none

unfoldable pub get_as_path : RoutePath → Option (List AsPathParam)
get_as_path p = do a ← get_path_attr p attr_as_path; as_path_of a

abbrev pub or_nil {ℓ} : {A : Type ℓ} → Option (List A) → List A
or_nil none = []
or_nil (some l) = l

module _ (pkt : Packet) where
  unfoldable pub sum_as_len : List AsPathParam → ℕ
  sum_as_len [] = 0
  sum_as_len (s ∷ l) = pkt.as_len s + sum_as_len l

  -- `GetAsPathLen`
  unfoldable pub get_as_path_len : RoutePath → ℕ
  unfolding sum_as_len get_as_path
  get_as_path_len p = sum_as_len (or_nil (get_as_path p))

-- The loop of `getAsListOfSpecificType`.
unfoldable pub as_list_of_segments : Bool → Bool → List AsPathParam → List ℕ
as_list_of_segments get_as_seq get_as_set [] = []
as_list_of_segments get_as_seq get_as_set (s ∷ l) =
    (if (if get_as_seq then s.seg_type == seg_seq else false)
      then s.asns
      else if (if get_as_set then s.seg_type == seg_set else false)
      then s.asns
      else 0 ∷ [])
    ++ as_list_of_segments get_as_seq get_as_set l

unfoldable pub get_as_list_of_specific_type : Bool → Bool → RoutePath → List ℕ
unfolding as_list_of_segments get_as_path
get_as_list_of_specific_type get_as_seq get_as_set p =
    as_list_of_segments get_as_seq get_as_set (or_nil (get_as_path p))

-- `GetAsList`
abbrev pub get_as_list : RoutePath → List ℕ
get_as_list p = get_as_list_of_specific_type true true p

-- `append(asns[:k], l...)` where `asns` has no spare capacity: the result, and the array of `asns`
-- after it. What fits is written into that array; `none` is the slice bound out of range.
unfoldable pub append_at : ℕ → List ℕ → List ℕ → Option (List ℕ × List ℕ)
append_at k asns l =
    if ltb (length asns) k
    then none
    else some (
      take k asns ++ l,
      if leb (k + length l) (length asns)
          then take k asns ++ (l ++ drop (k + length l) asns)
          else asns,
    )

-- How many numbers `PrependAsn` puts into the first segment: `repeat`, or what 255 leaves room for
-- (`uint8(255 - len(asList))`).
unfoldable pub fitting : ℕ → List ℕ → ℕ
fitting repeat asns =
    if ltb 255 (repeat + length asns) then (255 + 256 - length asns % 256) % 256 else repeat

-- `PrependAsn` where the first segment has the type: it is extended, and what does not fit goes into
-- a segment of its own.
unfoldable pub extend_first : ℕ → ℕ → ℕ → List ℕ → List AsPathParam → Option (List AsPathParam)
extend_first seg_type asn repeat asns l = do
  let k = fitting repeat asns
  (joined, array) ← append_at k (replicate repeat asn) asns
  let rest = drop k array
  let value = new_as4_path_param seg_type joined ∷ l
  some (if length rest == 0 then value else new_as4_path_param seg_type rest ∷ value)

-- The segments that `PrependAsn` builds from those of the path. `repeat` is a uint8.
unfoldable pub prepend_segments : ℕ → ℕ → ℕ → List AsPathParam → Option (List AsPathParam)
prepend_segments seg_type asn repeat [] =
    some (if repeat == 0 then [] else new_as4_path_param seg_type (replicate repeat asn) ∷ [])
prepend_segments seg_type asn repeat (s ∷ l) =
    if s.seg_type == seg_type
    then extend_first seg_type asn repeat s.asns l
    else some
        (if repeat == 0 then s ∷ l else new_as4_path_param seg_type (replicate repeat asn) ∷ s ∷ l)

-- `cloneAsPath` copies every segment into a four-byte one.
abbrev pub clone_as_path : List AsPathParam → List AsPathParam
clone_as_path = map (λ s. new_as4_path_param s.seg_type s.asns)

unfoldable pub prepend_asn : ℕ → ℕ → Bool → RoutePath → Option RoutePath
prepend_asn asn repeat confed p = do
  let seg_type = if confed then seg_confed_seq else seg_seq
  value ← prepend_segments seg_type asn repeat (clone_as_path (or_nil (get_as_path p)))
  some (set_path_attr p (Attr.as_path value))
