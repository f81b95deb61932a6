-- ===== src/RoutePath/Prepend.antt =====
-- What `PrependAsn` of internal/pkg/table/path.go does to the numbers of an AS path.
use mathlib.Core.List.{append_assoc, append-nil}
use mathlib.Core.Path.{subst}
use native.Mathlib.Nat.{add-zero, add_comm}
use goplane.Prelude.{
  ℕ, zero, suc, Bool, true, false, List, [], ◌∷◌, ◌++◌, some, ◌≡◌, refl, ◌==◌, leb, ltb,
  if◌then◌else◌, ◌+◌, ◌-◌, ◌≤◌, ◌<◌, length, drop, replicate, arith, All, sym, length-replicate,
  take-replicate, drop-replicate, replicate-add, drop_all, length-append, Bool-cases, inl, inr,
  ==_refl,
}
use mathlib.Core.Logic.{◌≢◌}
use goplane.Bgp.{Attr, AsPathParam, new_as4_path_param, attr_as_path, seg_seq, seg_confed_seq}
use goplane.RoutePath.{RoutePath, has, get_path_attr, set_path_attr}
use goplane.RoutePath.Access.{get_path_attr-set_path_attr, get_path_attr-set_ne}
use mathlib.Core.Logic.{◌⊎◌}
use goplane.RoutePath.AsPath.{
  append_at, fitting, extend_first, prepend_segments, clone_as_path, prepend_asn, get_as_path,
  or_nil,
}

-- The AS numbers of a path, in order.
abbrev pub flat : List AsPathParam → List ℕ
flat [] = []
flat (s ∷ l) = s.asns ++ flat l

-- A segment's length is sent as one byte.
abbrev pub IsBounded : List AsPathParam → Type 0
IsBounded = All (λ s. length s.asns ≤ 255)

-- Where the joined list is longer than the array of `asns`, that array is left alone.
append_at_copies :
    (k m asn : ℕ) (asns : List ℕ)
    → (m ≡ 0) ⊎ (m < length asns)
    → append_at k (replicate (k + m) asn) asns
      ≡ some (replicate k asn ++ asns, replicate (k + m) asn)
unfolding append_at
append_at_copies k m asn [] h =
    let short : ltb (k + m) k ≡ false = ground arith in
    let fits : leb k (k + m) ≡ true = ground arith in
    rw (
      take-replicate k (k + m) asn (omega arith),
      length-replicate,
      short,
      add-zero,
      fits,
      drop-replicate,
      ← replicate-add,
    )
append_at_copies k m asn (x ∷ xs) h =
    let short : ltb (k + m) k ≡ false = ground arith in
    let grows : leb (k + suc (length xs)) (k + m) ≡ false = ground arith in
    rw (take-replicate k (k + m) asn (omega arith), length-replicate, short, grows)

pub extend_first_fits :
    (t asn k m : ℕ) (asns : List ℕ) (l : List AsPathParam)
    → fitting (k + m) asns ≡ k
    → (m ≡ 0) ⊎ (m < length asns)
    → extend_first t asn (k + m) asns l
      ≡ some (
          if m == 0
          then new_as4_path_param t (replicate k asn ++ asns) ∷ l
          else new_as4_path_param t (replicate m asn)
            ∷ new_as4_path_param t (replicate k asn ++ asns)
            ∷ l)
unfolding extend_first
extend_first_fits t asn k m asns l f h =
    rw (f, append_at_copies k m asn asns h, drop-replicate, length-replicate)

-- How `fitting` splits `repeat`, when the array of the copies is shorter than 255.
pub fitting_split :
    (repeat : ℕ) (asns : List ℕ)
    → repeat < 255
    → length asns ≤ 255
    → (k : ℕ) × (m : ℕ) × (repeat ≡ k + m)
      × (fitting repeat asns ≡ k)
      × ((m ≡ 0) ⊎ (m < length asns))
      × (length asns + k ≤ 255)
unfolding fitting
fitting_split repeat asns r l = elim (Bool-cases (ltb 255 (repeat + length asns))) [
  | inl over ↦ (
    255 - length asns,
    repeat - (255 - length asns),
    ground arith,
    rw over (omega arith),
    inr (ground arith),
    omega arith,
  )
  | inr fits ↦ (repeat, 0, omega arith, rw fits, inl refl, ground arith)
]

flat-clone : (l : List AsPathParam) → flat (clone_as_path l) ≡ flat l
flat-clone [] = refl
flat-clone (s ∷ l) = rw (flat-clone l)

IsBounded-clone : (l : List AsPathParam) → IsBounded l → IsBounded (clone_as_path l)
IsBounded-clone [] h = tt
IsBounded-clone (s ∷ l) h = (h.0, IsBounded-clone l h.1)

-- What `PrependAsn` promises of the segments that it builds.
pub record IsPrepended (repeat asn : ℕ) (l l' : List AsPathParam) : Type 0 where
  pub numbers : flat l' ≡ replicate repeat asn ++ flat l
  pub bounded : IsBounded l'

extended :
    (t asn k m : ℕ) (asns : List ℕ) (l : List AsPathParam)
    → k + m ≤ 255
    → length asns + k ≤ 255
    → IsBounded l
    → IsPrepended (k + m) asn (new_as4_path_param t asns ∷ l) (
        if m == 0
        then new_as4_path_param t (replicate k asn ++ asns) ∷ l
        else new_as4_path_param t (replicate m asn)
          ∷ new_as4_path_param t (replicate k asn ++ asns)
          ∷ l)
extended t asn k m asns l small fits b = elim (Bool-cases (m == 0)) [
  | inl zero_left ↦
      let e : k + m ≡ k = ground arith in
      rw (zero_left, e)
        (record {
          numbers = append_assoc (replicate k asn) asns (flat l);
          bounded = (joined_bounded, b);
        })
  | inr more ↦ rw more (record {
    numbers = rw (add_comm k m, replicate-add m k asn) (simp append_assoc);
    bounded = (omega (arith, length-replicate m asn), (joined_bounded, b));
  })
]
  where
    joined_bounded : length (replicate k asn ++ asns) ≤ 255
    joined_bounded = omega (arith, length-append (replicate k asn) asns, length-replicate k asn)

fresh :
    (t asn repeat : ℕ) (l : List AsPathParam)
    → repeat ≤ 255
    → IsBounded l
    → IsPrepended repeat asn l
        (if repeat == 0 then l else new_as4_path_param t (replicate repeat asn) ∷ l)
fresh t asn repeat l small b = elim (Bool-cases (repeat == 0)) [
  | inl nothing ↦
      let e : repeat ≡ 0 = ground arith in rw nothing (record { numbers = rw e; bounded = b })
  | inr some_left ↦
      rw some_left
        (record { numbers = refl; bounded = (omega (arith, length-replicate repeat asn), b) })
]

abbrev Extends : ℕ → ℕ → List ℕ → List AsPathParam → ℕ → Type 0
Extends t asn asns l repeat =
    (l' : List AsPathParam) × (extend_first t asn repeat asns l ≡ some l')
    × IsPrepended repeat asn (new_as4_path_param t asns ∷ l) l'

extend_first_lem :
    (t asn repeat : ℕ) (asns : List ℕ) (l : List AsPathParam)
    → repeat < 255
    → length asns ≤ 255
    → IsBounded l
    → Extends t asn asns l repeat
extend_first_lem t asn repeat asns l r a b =
    let (k, m, e, f, h, fits) = fitting_split repeat asns r a in
    subst (Extends t asn asns l) (sym e) (
      (if m == 0
          then new_as4_path_param t (replicate k asn ++ asns) ∷ l
          else new_as4_path_param t (replicate m asn)
            ∷ new_as4_path_param t (replicate k asn ++ asns)
            ∷ l),
      extend_first_fits t asn k m asns l (rw (← e) f) h,
      extended t asn k m asns l (omega arith) fits b,
    )

-- The numbers of a path are those of its clone.
of_clone :
    (repeat asn : ℕ) (l l' : List AsPathParam)
    → IsPrepended repeat asn (clone_as_path l) l'
    → IsPrepended repeat asn l l'
of_clone repeat asn l l' p = record {
  numbers = rw (flat-clone l) at p.numbers;
  bounded = p.bounded;
}

abbrev Prepends : ℕ → ℕ → ℕ → List AsPathParam → Type 0
Prepends seg_type asn repeat l =
    (l' : List AsPathParam) × (prepend_segments seg_type asn repeat (clone_as_path l) ≡ some l')
    × IsPrepended repeat asn l l'

-- Up to 254 repetitions: `prepend_segments` never leaves a slice bound, puts exactly `repeat` copies
-- of the number in front of the path's numbers, and leaves no segment with more than 255.
pub prepend_segments_lem :
    (seg_type asn repeat : ℕ) (l : List AsPathParam)
    → repeat < 255
    → IsBounded l
    → (l' : List AsPathParam) × (prepend_segments seg_type asn repeat (clone_as_path l) ≡ some l')
      × IsPrepended repeat asn l l'
unfolding prepend_segments
prepend_segments_lem t asn repeat [] r b = (_, refl, fresh t asn repeat [] (omega arith) tt)
prepend_segments_lem t asn repeat (s ∷ l) r b = elim (Bool-cases (s.seg_type == t)) [
  | inl same ↦
      let (l', e, p) =
        extend_first_lem t asn repeat s.asns (clone_as_path l) r b.0 (IsBounded-clone l b.1) in
      (
        l',
        rw same e,
        of_clone repeat asn (s ∷ l) l' (record { numbers = p.numbers; bounded = p.bounded }),
      )
  | inr other ↦ (
    (if repeat == 0
        then clone_as_path (s ∷ l)
        else new_as4_path_param t (replicate repeat asn) ∷ clone_as_path (s ∷ l)),
    rw other,
    of_clone repeat asn (s ∷ l) _
        (fresh t asn repeat (clone_as_path (s ∷ l)) (omega arith) (IsBounded-clone (s ∷ l) b)),
  )
]

drop_front : (k asn : ℕ) (asns : List ℕ) → drop k (replicate k asn ++ asns) ≡ asns
drop_front zero asn asns = refl
drop_front (suc k) asn asns = drop_front k asn asns

-- Where the joined list just fills the array of the copies, it is written into that array.
append_at_overwrites :
    (k asn : ℕ) (asns : List ℕ)
    → append_at k (replicate (k + length asns) asn) asns
      ≡ some (replicate k asn ++ asns, replicate k asn ++ asns)
unfolding append_at
append_at_overwrites k asn asns =
    let n = k + length asns in
    let short : ltb n k ≡ false = ground arith in
    let fits : leb n n ≡ true = ground arith in
    rw (
      take-replicate k n asn (omega arith),
      length-replicate,
      short,
      fits,
      drop_all n (replicate n asn) (omega (arith, length-replicate n asn)),
      append-nil,
    )

extend_first_overwrites :
    (t asn r k : ℕ) (asns : List ℕ) (l : List AsPathParam)
    → fitting r asns ≡ k
    → r ≡ k + length asns
    → 0 < length asns
    → extend_first t asn r asns l
      ≡ some (new_as4_path_param t asns ∷ new_as4_path_param t (replicate k asn ++ asns) ∷ l)
unfolding extend_first
extend_first_overwrites t asn r k asns l f e h =
    let rest : drop k (replicate k asn ++ asns) ≡ asns = drop_front k asn asns in
    let more : (length asns == 0) ≡ false = ground arith in
    rw (f, e, append_at_overwrites k asn asns, rest, more)

-- With 255 repetitions onto a first segment that has numbers, the joined segment fills the array
-- that the remaining copies are then read from: they are lost, and the segment's numbers stand
-- twice.
pub prepend_segments_overwrites :
    (asn : ℕ) (s : AsPathParam) (l : List AsPathParam)
    → 0 < length s.asns
    → length s.asns ≤ 255
    → (l' : List AsPathParam) × (prepend_segments s.seg_type asn 255 (s ∷ l) ≡ some l')
      × (flat l' ≡ s.asns ++ ((replicate (255 - length s.asns) asn ++ s.asns) ++ flat l))
unfolding prepend_segments
prepend_segments_overwrites asn s l h b =
    let k = 255 - length s.asns in
    (
      new_as4_path_param s.seg_type s.asns
          ∷ new_as4_path_param s.seg_type (replicate k asn ++ s.asns)
          ∷ l,
      rw (==_refl s.seg_type) (
          extend_first_overwrites s.seg_type asn 255 k s.asns l (unfold fitting in ground arith)
            (omega arith) h),
      refl,
    )

-- Prepending fewer than 255 times to a path whose AS path this link of the chain does not delete
-- succeeds: the numbers of the AS path are preceded by `repeat` copies of the new one, no segment
-- grows beyond 255, and every other attribute stays.
pub prepend_asn_lem :
    (asn repeat : ℕ) (confed : Bool) (p : RoutePath)
    → repeat < 255
    → has attr_as_path p.top.dels ≡ false
    → IsBounded (or_nil (get_as_path p))
    → (p' : RoutePath) × (prepend_asn asn repeat confed p ≡ some p')
      × IsPrepended repeat asn (or_nil (get_as_path p)) (or_nil (get_as_path p'))
      × ((typ : ℕ) → typ ≢ attr_as_path → get_path_attr p' typ ≡ get_path_attr p typ)
unfolding prepend_asn
prepend_asn_lem asn repeat confed p small kept bounded =
    let seg = if confed then seg_confed_seq else seg_seq in
    let (l', e, h) = prepend_segments_lem seg asn repeat (or_nil (get_as_path p)) small bounded in
    let p' = set_path_attr p (Attr.as_path l') in
    let found : get_as_path p' ≡ some l' =
      unfold get_as_path in
      ground (arith, get_path_attr-set_path_attr p (Attr.as_path l') attr_as_path) in
    (
      p',
      ground (arith, e),
      rw found h,
      λ typ other. get_path_attr-set_ne p (Attr.as_path l') typ other,
    )
