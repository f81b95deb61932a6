-- ===== src/Message/RoundTrip.antt =====
-- An update sent to a speaker of two-byte AS numbers and read back (internal/pkg/table/message.go).
use mathlib.Core.List.{append_assoc, append-nil, map-append}
use mathlib.Core.Path.{ap₂}
use native.Mathlib.Nat.{add-zero, zero-add}
use goplane.Prelude.{
  remove_at-last, ℕ, suc, true, false, List, [], ◌∷◌, ◌++◌, none, some, ◌≡◌, refl, ◌≢◌, sym, ap,
  ◌∙◌, arith, ltb, ◌+◌, ◌-◌, length, take, map, All, Bool-cases, inl, inr, length-append, remove_at,
  set, any,
}
use goplane.Bgp.{Attr, AsPathParam, as4, Packet}
use goplane.RoutePath.Prepend.{flat, IsBounded}
use goplane.Message.{
  two_byte, two_byte_params, as4_params, needs_as4, first_as_path, replace_first,
  update_path_attrs_2byte_as, four_byte, four_byte_attr, Positions, note_position, positions_from,
  is_longer, reconstruct, set_at, combine, update_path_attrs_4byte_as, total_as_len, available,
}
use goplane.Message.Reconstruct.{
  CountsSequences, AreSequences, total_as_len_lem, reconstruct-sequences, carried-all,
}

-- Neither of the two attributes that hold an AS path.
abbrev pub IsOther : Attr → Type 0
IsOther (Attr.as_path _) = ⊥
IsOther (Attr.as4_path _) = ⊥
IsOther _ = Unit

first_as_path-found :
    (pre post : List Attr) (l : List AsPathParam)
    → All IsOther pre
    → first_as_path (pre ++ Attr.as_path l ∷ post) ≡ some l
unfolding first_as_path
first_as_path-found [] post l h = refl
first_as_path-found (Attr.as_path _ ∷ pre) post l h = absurd h.0
first_as_path-found (a ∷ pre) post l h = first_as_path-found pre post l h.1

replace_first-found :
    (pre post : List Attr) (l new : List AsPathParam)
    → All IsOther pre
    → replace_first new (pre ++ Attr.as_path l ∷ post) ≡ pre ++ Attr.as_path new ∷ post
unfolding replace_first
replace_first-found [] post l new h = refl
replace_first-found (Attr.as_path _ ∷ pre) post l new h = absurd h.0
replace_first-found (a ∷ pre) post l new h = ap (◌∷◌ a) (replace_first-found pre post l new h.1)

four_byte_attr-other : (l : List Attr) → All IsOther l → map four_byte_attr l ≡ l
unfolding four_byte_attr
four_byte_attr-other [] h = refl
four_byte_attr-other (Attr.as_path _ ∷ l) h = absurd h.0
four_byte_attr-other (a ∷ l) h = ap (◌∷◌ a) (four_byte_attr-other l h.1)

positions_from-other :
    (i : ℕ) (l rest : List Attr) (p : Positions)
    → All IsOther l
    → positions_from i (l ++ rest) p ≡ positions_from (i + length l) rest p
unfolding positions_from note_position
positions_from-other i [] rest p h = rw add-zero
positions_from-other i (Attr.as_path _ ∷ l) rest p h = absurd h.0
positions_from-other i (Attr.as4_path _ ∷ l) rest p h = absurd h.0
positions_from-other i (a ∷ l) rest p h =
    positions_from-other (suc i) l rest p h.1 ∙ ap (λ j. positions_from j rest p) (omega arith)

set_at-middle :
    (pre post : List Attr) (a b : Attr)
    → set_at (length pre) a (pre ++ b ∷ post) ≡ some (pre ++ a ∷ post)
unfolding set_at
set_at-middle pre post a b =
    let inside : ltb (length pre) (length (pre ++ b ∷ post)) ≡ true =
      ground (arith, length-append pre (b ∷ post)) in
    rw inside (ap some (set-middle pre))
  where
    set-middle : (l : List Attr) → set (l ++ b ∷ post) (length l) a ≡ l ++ a ∷ post
    set-middle [] = refl
    set-middle (x ∷ l) = ap (◌∷◌ x) (set-middle l)

-- A path of four-byte sequences, as the rest of the program keeps it.
abbrev pub IsFourByte : List AsPathParam → Type 0
IsFourByte = All (λ s. s.kind ≡ as4)

as4_params-all : (l : List AsPathParam) → AreSequences l → IsFourByte l → as4_params l ≡ l
unfolding as4_params
as4_params-all [] h k = refl
as4_params-all (s ∷ l) h k = ground (arith, h.0, k.0, as4_params-all l h.1 k.1)

-- What comes back of the two-byte segments.
abbrev back : List AsPathParam → List AsPathParam
back l = map four_byte (two_byte_params l)

back-sequences : (l : List AsPathParam) → AreSequences l → AreSequences (back l)
unfolding two_byte_params
back-sequences [] h = tt
back-sequences (s ∷ l) h = (h.0, back-sequences l h.1)

back-nonempty : (l : List AsPathParam) → l ≢ [] → back l ≢ []
unfolding two_byte_params
back-nonempty [] n e = n refl
back-nonempty (s ∷ l) n e = cc

length-map : (f : ℕ → ℕ) (l : List ℕ) → length (map f l) ≡ length l
length-map f [] = refl
length-map f (x ∷ l) = ap suc (length-map f l)

back-IsBounded : (l : List AsPathParam) → IsBounded l → IsBounded (back l)
unfolding two_byte_params
back-IsBounded [] b = tt
back-IsBounded (s ∷ l) b = (omega (arith, length-map two_byte s.asns, b.0), back-IsBounded l b.1)

flat-back : (l : List AsPathParam) → flat (back l) ≡ map two_byte (flat l)
unfolding two_byte_params
flat-back [] = refl
flat-back (s ∷ l) =
    ap (◌++◌ (map two_byte s.asns)) (flat-back l) ∙ sym (map-append two_byte s.asns (flat l))

small_same : (l : List ℕ) → any (λ n. ltb 65535 n) l ≡ false → map two_byte l ≡ l
unfolding two_byte
small_same [] h = refl
small_same (n ∷ l) h = ground (arith, small_same l)

flat-small : (l : List AsPathParam) → needs_as4 l ≡ false → map two_byte (flat l) ≡ flat l
unfolding needs_as4
flat-small [] h = refl
flat-small (s ∷ l) h =
    map-append two_byte s.asns (flat l)
    ∙ ap₂ ◌++◌ (small_same s.asns (ground arith)) (flat-small l (ground arith))

abbrev fresh_positions : Positions
fresh_positions = record { as_attr = none; as4_attr = none }

read_as :
    (pkt : Packet) (attrs converted : List Attr) (p : Positions)
    → map four_byte_attr attrs ≡ converted
    → positions_from 0 converted fresh_positions ≡ p
    → update_path_attrs_4byte_as pkt attrs ≡ combine pkt converted p.as_attr p.as4_attr
unfolding update_path_attrs_4byte_as
read_as pkt attrs converted p e e' =
    ap
      (λ (c : List Attr).
        combine pkt c (positions_from 0 c fresh_positions).as_attr
          (positions_from 0 c fresh_positions).as4_attr)
      e
    ∙ ap (λ (q : Positions). combine pkt converted q.as_attr q.as4_attr) e'

positions_from-both :
    (pre post rest : List Attr) (l : List AsPathParam)
    → All IsOther pre
    → All IsOther post
    → positions_from 0 (pre ++ Attr.as_path l ∷ (post ++ rest)) fresh_positions
      ≡ positions_from
          (suc (length pre) + length post)
          rest
          (record { as_attr = some (length pre, l); as4_attr = none })
unfolding positions_from note_position
positions_from-both pre post rest l h k =
    positions_from-other 0 pre (Attr.as_path l ∷ (post ++ rest)) fresh_positions h
    ∙ ap (λ n. positions_from n (Attr.as_path l ∷ (post ++ rest)) fresh_positions)
        (zero-add (length pre))
    ∙ positions_from-other (suc (length pre)) post rest
        (record { as_attr = some (length pre, l); as4_attr = none }) k

map-append_attrs :
    (pre post : List Attr) (a : Attr)
    → All IsOther pre
    → map four_byte_attr post ≡ post
    → map four_byte_attr (pre ++ a ∷ post) ≡ pre ++ four_byte_attr a ∷ post
map-append_attrs pre post a h k =
    map-append four_byte_attr pre (a ∷ post)
    ∙ ap₂ ◌++◌ (four_byte_attr-other pre h) (ap (◌∷◌ (four_byte_attr a)) k)

module _ (pkt : Packet) (pre post : List Attr) (l : List AsPathParam) (h : All IsOther pre)
    (k : All IsOther post) where
  sent_small :
      needs_as4 l ≡ false
      → update_path_attrs_2byte_as (pre ++ Attr.as_path l ∷ post)
        ≡ pre ++ Attr.as_path (two_byte_params l) ∷ post
  unfolding update_path_attrs_2byte_as
  sent_small e = rw (
    update_path_attrs_2byte_as,
    first_as_path-found pre post l h,
    e,
    replace_first-found pre post l (two_byte_params l) h,
    append-nil (pre ++ Attr.as_path (two_byte_params l) ∷ post),
  )

  sent_large :
      needs_as4 l ≡ true
      → AreSequences l
      → IsFourByte l
      → update_path_attrs_2byte_as (pre ++ Attr.as_path l ∷ post)
        ≡ pre ++ Attr.as_path (two_byte_params l) ∷ (post ++ Attr.as4_path l ∷ [])
  unfolding update_path_attrs_2byte_as
  sent_large e s f =
      rw
        (
          update_path_attrs_2byte_as,
          first_as_path-found pre post l h,
          e,
          replace_first-found pre post l (two_byte_params l) h,
          as4_params-all l s f,
        )
        (append_assoc pre (Attr.as_path (two_byte_params l) ∷ post) (Attr.as4_path l ∷ []))

  abbrev sent : List Attr
  sent = pre ++ Attr.as_path (two_byte_params l) ∷ post

  read_small : update_path_attrs_4byte_as pkt sent ≡ some (pre ++ Attr.as_path (back l) ∷ post)
  unfolding combine positions_from four_byte_attr
  read_small =
      read_as pkt sent (pre ++ Attr.as_path (back l) ∷ post)
        (record { as_attr = some (length pre, back l); as4_attr = none })
        (map-append_attrs pre post (Attr.as_path (two_byte_params l)) h
          (four_byte_attr-other post k))
        (rw (sym (append-nil post)) (positions_from-both pre post [] (back l) h k))

  read_large :
      update_path_attrs_4byte_as pkt
        (pre ++ Attr.as_path (two_byte_params l) ∷ (post ++ Attr.as4_path l ∷ []))
      ≡ combine pkt
          (pre ++ Attr.as_path (back l) ∷ (post ++ Attr.as4_path l ∷ []))
          (some (length pre, back l))
          (some (suc (length pre) + length post, l))
  unfolding positions_from note_position four_byte_attr
  read_large =
      read_as pkt (pre ++ Attr.as_path (two_byte_params l) ∷ (post ++ Attr.as4_path l ∷ []))
        (pre ++ Attr.as_path (back l) ∷ (post ++ Attr.as4_path l ∷ []))
        (record {
          as_attr = some (length pre, back l);
          as4_attr = some (suc (length pre) + length post, l);
        })
        (map-append_attrs pre (post ++ Attr.as4_path l ∷ []) (Attr.as_path (two_byte_params l)) h (
          map-append four_byte_attr post (Attr.as4_path l ∷ [])
          ∙ ap (λ (x : List Attr). x ++ Attr.as4_path l ∷ []) (four_byte_attr-other post k)))
        (positions_from-both pre post (Attr.as4_path l ∷ []) (back l) h k)

  removed :
      remove_at
        (suc (length pre) + length post)
        (pre ++ Attr.as_path (back l) ∷ (post ++ Attr.as4_path l ∷ []))
      ≡ pre ++ Attr.as_path (back l) ∷ post
  removed =
      ap₂ remove_at (omega (arith, length-append pre (Attr.as_path (back l) ∷ post)))
        (sym (append_assoc pre (Attr.as_path (back l) ∷ post) (Attr.as4_path l ∷ [])))
      ∙ remove_at-last (pre ++ Attr.as_path (back l) ∷ post) (Attr.as4_path l)

  module _ (c : CountsSequences pkt) (s : AreSequences l) (b : IsBounded l) (f : IsFourByte l) where
    same_length : length (flat (back l)) ≡ length (flat l)
    same_length = ap length (flat-back l) ∙ length-map two_byte (flat l)

    not_longer : is_longer pkt (back l) l ≡ false
    unfolding is_longer available
    not_longer = ground (
      arith,
      total_as_len_lem pkt (back l) c (back-sequences l s),
      total_as_len_lem pkt l c s,
      same_length,
      ap (total_as_len pkt) (carried-all l s),
    )

    rebuilt :
        l ≢ []
        → (l' : List AsPathParam) × (reconstruct pkt (back l) l ≡ some l') × (flat l' ≡ flat l)
    rebuilt n =
        let (l', e, numbers) =
          reconstruct-sequences pkt (back l) l c (back-sequences l s) s (back-IsBounded l b) b
            (back-nonempty l n) in
        let none_kept : length (flat (back l)) - length (flat l) ≡ 0 = omega (arith, same_length) in
        (l', e, numbers ∙ ap (λ i. take i (flat (back l)) ++ flat l) none_kept)

    -- An update whose one AS path consists of non-empty four-byte sequences of at most 255 numbers
    -- each comes back from its two-byte form with the same numbers, and with its other attributes.
    pub update_path_attrs-round_trip :
        l ≢ []
        → (l' : List AsPathParam) × (update_path_attrs_4byte_as pkt
              (update_path_attrs_2byte_as (pre ++ Attr.as_path l ∷ post))
            ≡ some (pre ++ Attr.as_path l' ∷ post))
          × (flat l' ≡ flat l)
    unfolding combine
    update_path_attrs-round_trip n = elim (Bool-cases (needs_as4 l)) [
      | inr small ↦ (
        back l,
        ap (update_path_attrs_4byte_as pkt) (sent_small small) ∙ read_small,
        flat-back l ∙ flat-small l small,
      )
      | inl large ↦
          let (l', e, numbers) = rebuilt n in
          (
            l',
            ap (update_path_attrs_4byte_as pkt) (sent_large large s f)
                ∙ read_large
                ∙ rw (not_longer, e, removed)
                    (set_at-middle pre post (Attr.as_path l') (Attr.as_path (back l))),
            numbers,
          )
    ]
