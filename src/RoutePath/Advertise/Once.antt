-- ===== src/RoutePath/Advertise/Once.antt =====
-- `PrependAsn` of internal/pkg/table/path.go with one number.
use goplane.Prelude.{
  ℕ, Bool, true, false, List, [], ◌∷◌, ◌++◌, some, ◌≡◌, refl, sym, ap, ◌∙◌, arith, ◌==◌,
  if◌then◌else◌, keep, ◌≤◌, ◌<◌, length, ==_iff, Bool-cases, inl, inr, replicate, ◌+◌, ◌⊎◌,
}
use goplane.Bgp.{AsPathParam, new_as4_path_param, seg_seq, seg_confed_seq}
use goplane.RoutePath.AsPath.{prepend_segments, clone_as_path, extend_first, fitting}
use goplane.RoutePath.Prepend.{flat, IsBounded, fitting_split, extend_first_fits}
use goplane.RoutePath.Advertise.Kept.{is_public}

-- One number goes into the first segment, or into a segment of its own.
extend_once :
    (t asn : ℕ) (asns : List ℕ) (l : List AsPathParam)
    → length asns ≤ 255
    → (extend_first t asn 1 asns l ≡ some (new_as4_path_param t (asn ∷ asns) ∷ l))
      ⊎ (extend_first t asn 1 asns l
          ≡ some (new_as4_path_param t (asn ∷ []) ∷ new_as4_path_param t asns ∷ l))
extend_once t asn asns l b =
    let (k, m, e, f, h, fits) = fitting_split 1 asns (omega arith) b in
    elim (Bool-cases (m == 0)) [
      | inl z ↦
          let one : k ≡ 1 = ground arith in
          let none_left : m ≡ 0 = ground arith in inl (split k m e f h ∙ rw (none_left, one) refl)
      | inr z ↦
          let none_fit : k ≡ 0 = ground arith in
          let one : m ≡ 1 = ground arith in inr (split k m e f h ∙ rw (one, none_fit) refl)
    ]
  where
    split :
        (k m : ℕ)
        → 1 ≡ k + m
        → fitting 1 asns ≡ k
        → (m ≡ 0) ⊎ (m < length asns)
        → extend_first t asn 1 asns l
          ≡ some (
              if m == 0
              then new_as4_path_param t (replicate k asn ++ asns) ∷ l
              else new_as4_path_param t (replicate m asn)
                ∷ new_as4_path_param t (replicate k asn ++ asns)
                ∷ l)
    split k m e f h =
        ap (λ r. extend_first t asn r asns l) e
        ∙ extend_first_fits t asn k m asns l (ap (λ r. fitting r asns) (sym e) ∙ f) h

keep_public-clone :
    (l : List AsPathParam) → flat (keep is_public (clone_as_path l)) ≡ flat (keep is_public l)
keep_public-clone [] = refl
keep_public-clone (s ∷ l) = ground (arith, keep_public-clone l)

flat-clone_as_path : (l : List AsPathParam) → flat (clone_as_path l) ≡ flat l
flat-clone_as_path [] = refl
flat-clone_as_path (s ∷ l) = ap (◌++◌ s.asns) (flat-clone_as_path l)

-- The numbers that an external peer sees: all, or those outside of confederation segments.
abbrev pub seen : Bool → List AsPathParam → List AsPathParam
seen true l = l
seen false l = keep is_public l

abbrev pub sent : Bool → List AsPathParam → List ℕ
sent confed l = flat (seen confed l)

abbrev pub segment_type : Bool → ℕ
segment_type confed = if confed then seg_confed_seq else seg_seq

sent-fresh :
    (confed : Bool) (asns : List ℕ) (l : List AsPathParam)
    → sent confed (new_as4_path_param (segment_type confed) asns ∷ l) ≡ asns ++ sent confed l
sent-fresh true asns l = refl
sent-fresh false asns l = refl

sent-clone : (confed : Bool) (l : List AsPathParam) → sent confed (clone_as_path l) ≡ sent confed l
sent-clone true l = flat-clone_as_path l
sent-clone false l = keep_public-clone l

pub prepend_once :
    (confed : Bool) (asn : ℕ) (l : List AsPathParam)
    → IsBounded l
    → (l' : List AsPathParam) × (prepend_segments (segment_type confed) asn 1 (clone_as_path l)
        ≡ some l')
      × (sent confed l' ≡ asn ∷ sent confed l)
unfolding prepend_segments
prepend_once confed asn [] b = (
  new_as4_path_param (segment_type confed) (asn ∷ []) ∷ [],
  refl,
  sent-fresh confed (asn ∷ []) [],
)
prepend_once confed asn (s ∷ l) b = elim (Bool-cases (s.seg_type == segment_type confed)) [
  | inr apart ↦ (
    new_as4_path_param (segment_type confed) (asn ∷ []) ∷ clone_as_path (s ∷ l),
    rw apart refl,
    sent-fresh confed (asn ∷ []) (clone_as_path (s ∷ l)) ∙ ap (◌∷◌ asn) (sent-clone confed (s ∷ l)),
  )
  | inl same ↦
      let t : s.seg_type ≡ segment_type confed = (==_iff s.seg_type (segment_type confed)).0 same in
      elim (extend_once (segment_type confed) asn s.asns (clone_as_path l) b.0) [
        | inl e ↦ (
          new_as4_path_param (segment_type confed) (asn ∷ s.asns) ∷ clone_as_path l,
          rw same e,
          sent-fresh confed (asn ∷ s.asns) (clone_as_path l) ∙ ap (◌∷◌ asn) (joined confed s l t),
        )
        | inr e ↦ (
          new_as4_path_param (segment_type confed) (asn ∷ [])
              ∷ new_as4_path_param (segment_type confed) s.asns
              ∷ clone_as_path l,
          rw same e,
          sent-fresh confed (asn ∷ [])
                (new_as4_path_param (segment_type confed) s.asns ∷ clone_as_path l)
              ∙ ap (◌∷◌ asn) (sent-fresh confed s.asns (clone_as_path l) ∙ joined confed s l t),
        )
      ]
]
  where
    joined :
        (c : Bool) (s : AsPathParam) (l : List AsPathParam)
        → s.seg_type ≡ segment_type c
        → s.asns ++ sent c (clone_as_path l) ≡ sent c (s ∷ l)
    joined true s l e = ap (◌++◌ s.asns) (flat-clone_as_path l)
    joined false s l e = ground (arith, e, keep_public-clone l)
