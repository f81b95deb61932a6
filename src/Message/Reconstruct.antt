-- ===== src/Message/Reconstruct.antt =====
-- What `UpdatePathAttrs4ByteAs` of internal/pkg/table/message.go makes of the numbers of the two
-- AS paths.
use mathlib.Core.List.{append_assoc, append-nil}
use goplane.Prelude.{
  ℕ, false, List, [], ◌∷◌, ◌++◌, some, ◌≡◌, refl, ◌≢◌, sym, ap, ◌∙◌, arith, ◌==◌, ltb, leb, ◌+◌,
  ◌-◌, ◌≤◌, length, take, drop, All, Bool-cases, inl, inr, length-append, take-append-drop,
  length-drop, take-append_ge, take-append_le, take-nil, length-take-le, ◌&&◌,
}
use goplane.Bgp.{AsPathParam, new_as4_path_param, Packet, seg_seq}
use goplane.SliceStable.{rev_onto}
use goplane.RoutePath.Prepend.{flat, IsBounded}
use goplane.Message.{
  total_as_len, confed_len, leading, add_segment, add_segments, carried, available, reconstruct,
}

-- The numbers of segments that are kept from the last one on.
abbrev flat_back : List AsPathParam → List ℕ
flat_back [] = []
flat_back (s ∷ l) = flat_back l ++ s.asns

flat-rev_onto : (l acc : List AsPathParam) → flat (rev_onto l acc) ≡ flat_back l ++ flat acc
unfolding rev_onto
flat-rev_onto [] acc = refl
flat-rev_onto (s ∷ l) acc =
    flat-rev_onto l (s ∷ acc) ∙ sym (append_assoc (flat_back l) s.asns (flat acc))

flat_back-rev_onto :
    (l acc : List AsPathParam) → flat_back (rev_onto l acc) ≡ flat_back acc ++ flat l
unfolding rev_onto
flat_back-rev_onto [] acc = sym (append-nil (flat_back acc))
flat_back-rev_onto (s ∷ l) acc =
    flat_back-rev_onto l (s ∷ acc) ∙ append_assoc (flat_back acc) s.asns (flat l)

-- Segments to add to: there is one, and the last has at most 255 numbers.
abbrev IsOpen : List AsPathParam → Type 0
IsOpen [] = ⊥
IsOpen (s ∷ l) = length s.asns ≤ 255

record Added (s : AsPathParam) (acc acc' : List AsPathParam) : Type 0 where
  pub numbers : flat_back acc' ≡ flat_back acc ++ s.asns
  pub still_open : IsOpen acc'

split_numbers :
    (before last : List ℕ) (n : ℕ) (l : List ℕ)
    → (before ++ (last ++ take n l)) ++ drop n l ≡ (before ++ last) ++ l
split_numbers before last n l =
    simp append_assoc (ap (λ (x : List ℕ). before ++ (last ++ x)) (take-append-drop n l))

add_segment_total :
    (s : AsPathParam) (acc : List AsPathParam)
    → length s.asns ≤ 255
    → IsOpen acc
    → (acc' : List AsPathParam) × (add_segment s acc ≡ some acc') × Added s acc acc'
unfolding add_segment
add_segment_total s [] b o = absurd o
add_segment_total s (last ∷ l) b o =
    elim (Bool-cases (s.seg_type == last.seg_type && s.seg_type == seg_seq)) [
      | inr apart ↦ (s ∷ last ∷ l, rw apart, record { numbers = refl; still_open = b })
      | inl same ↦ elim (Bool-cases (ltb 255 (length last.asns + length s.asns))) [
        | inr fits ↦ (
          new_as4_path_param s.seg_type (last.asns ++ s.asns) ∷ l,
          rw (same, fits),
          record {
            numbers = sym (append_assoc (flat_back l) last.asns s.asns);
            still_open = ground (arith, length-append last.asns s.asns);
          },
        )
        | inl over ↦
            let n = 255 - length last.asns in
            let short : ltb 255 (length last.asns) ≡ false = ground arith in
            (
              new_as4_path_param s.seg_type (drop n s.asns)
                  ∷ new_as4_path_param s.seg_type (last.asns ++ take n s.asns)
                  ∷ l,
              rw (same, over, short),
              record {
                numbers = split_numbers (flat_back l) last.asns n s.asns;
                still_open = omega (arith, length-drop n s.asns);
              },
            )
      ]
    ]

add_segments_total :
    (l acc : List AsPathParam)
    → IsBounded l
    → IsOpen acc
    → (acc' : List AsPathParam) × (add_segments l acc ≡ some acc')
      × (flat_back acc' ≡ flat_back acc ++ flat l)
unfolding add_segments
add_segments_total [] acc b o = (acc, refl, sym (append-nil (flat_back acc)))
add_segments_total (s ∷ l) acc b o =
    let (next, e, a) = add_segment_total s acc b.0 o in
    let (acc', e', numbers) = add_segments_total l next b.1 a.still_open in
    (
      acc',
      rw e e',
      numbers
          ∙ ap (λ (x : List ℕ). x ++ flat l) a.numbers
          ∙ append_assoc (flat_back acc) s.asns (flat l),
    )

-- The documented length of a sequence: its numbers.
abbrev pub CountsSequences : Packet → Type 0
CountsSequences pkt = (s : AsPathParam) → s.seg_type ≡ seg_seq → pkt.as_len s ≡ length s.asns

abbrev pub AreSequences : List AsPathParam → Type 0
AreSequences = All (λ s. s.seg_type ≡ seg_seq)

pub total_as_len_lem :
    (pkt : Packet) (l : List AsPathParam)
    → CountsSequences pkt
    → AreSequences l
    → total_as_len pkt l ≡ length (flat l)
unfolding total_as_len
total_as_len_lem pkt [] c h = refl
total_as_len_lem pkt (s ∷ l) c h =
    omega (arith, c s h.0, total_as_len_lem pkt l c h.1, length-append s.asns (flat l))

confed_len-zero : (pkt : Packet) (l : List AsPathParam) → AreSequences l → confed_len pkt l ≡ 0
unfolding confed_len
confed_len-zero pkt [] h = refl
confed_len-zero pkt (s ∷ l) h = ground (arith, h.0, confed_len-zero pkt l h.1)

pub carried-all : (l : List AsPathParam) → AreSequences l → carried l ≡ l
carried-all [] h = refl
carried-all (s ∷ l) h = ground (arith, h.0, carried-all l h.1)

take_exactly : (k : ℕ) (xs ys : List ℕ) → k ≡ length xs → xs ++ [] ≡ take k (xs ++ ys)
take_exactly k xs ys e =
    let none_left : k - length xs ≡ 0 = omega arith in
    sym (take-append_ge k xs ys (omega arith) ∙ ap (λ n. xs ++ take n ys) none_left)

leading_sequences :
    (pkt : Packet) (k : ℕ) (l : List AsPathParam)
    → CountsSequences pkt
    → AreSequences l
    → IsBounded l
    → (l' : List AsPathParam) × (leading pkt k l ≡ some l')
      × (flat l' ≡ take k (flat l))
      × IsBounded l'
      × (l ≢ [] → l' ≢ [])
unfolding leading
leading_sequences pkt k [] c h b = ([], refl, sym (take-nil k), tt, λ n e. n e)
leading_sequences pkt k (s ∷ l) c h b = elim (Bool-cases (leb (pkt.as_len s) k)) [
  | inr ends ↦
      let in_first : ltb (length s.asns) k ≡ false = ground (arith, c s h.0) in
      (
        new_as4_path_param s.seg_type (take k s.asns) ∷ [],
        rw (ends, in_first),
        append-nil (take k s.asns)
            ∙ sym (take-append_le k s.asns (flat l) (ground (arith, c s h.0))),
        (omega (arith, length-take-le k s.asns, b.0), tt),
        λ _ e. cc,
      )
  | inl whole ↦ elim (Bool-cases (k - pkt.as_len s == 0)) [
    | inl done ↦ (
      s ∷ [],
      rw (whole, done),
      take_exactly k s.asns (flat l) (ground (arith, c s h.0)),
      (b.0, tt),
      λ _ e. cc,
    )
    | inr more ↦
        let (l', e, numbers, b', _) = leading_sequences pkt (k - pkt.as_len s) l c h.1 b.1 in
        (
          s ∷ l',
          rw (whole, more, e),
          ap (◌++◌ s.asns) (numbers ∙ ap (λ n. take (k - n) (flat l)) (c s h.0))
              ∙ sym (take-append_ge k s.asns (flat l) (ground (arith, c s h.0))),
          (b.0, b'),
          λ _ e. cc,
        )
  ]
]

IsOpen-rev_onto : (l acc : List AsPathParam) → IsBounded l → IsOpen acc → IsOpen (rev_onto l acc)
unfolding rev_onto
IsOpen-rev_onto [] acc b o = o
IsOpen-rev_onto (s ∷ l) acc b o = IsOpen-rev_onto l (s ∷ acc) b.1 b.0

IsOpen-rev : (l : List AsPathParam) → IsBounded l → l ≢ [] → IsOpen (rev_onto l [])
unfolding rev_onto
IsOpen-rev [] b n = n refl
IsOpen-rev (s ∷ l) b n = IsOpen-rev_onto l (s ∷ []) b.1 b.0

-- From an AS path and an AS4_PATH of sequences, with at most 255 numbers each, the first not empty:
-- the leading numbers of the AS path that the AS4_PATH does not cover, then those of the AS4_PATH.
pub reconstruct-sequences :
    (pkt : Packet) (as_params as4_value : List AsPathParam)
    → CountsSequences pkt
    → AreSequences as_params
    → AreSequences as4_value
    → IsBounded as_params
    → IsBounded as4_value
    → as_params ≢ []
    → (l' : List AsPathParam) × (reconstruct pkt as_params as4_value ≡ some l')
      × (flat l'
          ≡ take (length (flat as_params) - length (flat as4_value)) (flat as_params)
            ++ flat as4_value)
unfolding reconstruct available
reconstruct-sequences pkt l m c hl hm bl bm n =
    let k = length (flat l) - length (flat m) in
    let same : total_as_len pkt l + confed_len pkt l - total_as_len pkt (carried m) ≡ k = omega (
      arith,
      total_as_len_lem pkt l c hl,
      confed_len-zero pkt l hl,
      ap (total_as_len pkt) (carried-all m hm),
      total_as_len_lem pkt m c hm,
    ) in
    let (kept, e, numbers, bk, nk) = leading_sequences pkt k l c hl bl in
    let (acc, e', added) = add_segments_total m (rev_onto kept []) bm (IsOpen-rev kept bk (nk n)) in
    (
      rev_onto acc [],
      rw (same, e, carried-all m hm, e'),
      flat-rev_onto acc []
          ∙ append-nil (flat_back acc)
          ∙ added
          ∙ ap (λ (x : List ℕ). x ++ flat m) (flat_back-rev_onto kept [] ∙ numbers),
    )
