-- ===== src/Message/Aggregator/RoundTrip.antt =====
-- The AGGREGATOR attribute of internal/pkg/table/message.go survives a two-byte session.
use goplane.Prelude.{
  ℕ, suc, List, [], ◌∷◌, ◌++◌, none, some, ◌≡◌, refl, sym, ap, ◌∙◌, arith, ◌==◌, ltb, if◌then◌else◌,
  ◌+◌, ◌<◌, length, map, All, remove_at, set, remove_at-last, length-append, Bool-cases, inl, inr,
}
use native.Mathlib.Nat.{zero-add}
use mathlib.Core.List.{map-append, append_assoc, append-nil}
use goplane.Bgp.{Ip, no_ip, Attr, as2, as4}
use goplane.Message.{two_byte}
use goplane.Message.Aggregator.{
  two_byte_aggregator, note_aggregator, note_aggregators, update_path_aggregator_2byte_as,
  four_byte_aggregator, Found, note_found, find_from, combine_aggregators,
  update_path_aggregator_4byte_as,
}

-- Neither of the two attributes.
abbrev pub IsPlain : Attr → Type 0
IsPlain (Attr.aggregator _ _ _) = ⊥
IsPlain (Attr.as4_aggregator _ _) = ⊥
IsPlain _ = Unit

map_plain-two_byte : (l : List Attr) → All IsPlain l → map two_byte_aggregator l ≡ l
unfolding two_byte_aggregator
map_plain-two_byte [] h = refl
map_plain-two_byte (Attr.aggregator _ _ _ ∷ l) h = absurd h.0
map_plain-two_byte (a ∷ l) h = ap (◌∷◌ a) (map_plain-two_byte l h.1)

map_plain-four_byte : (l : List Attr) → All IsPlain l → map four_byte_aggregator l ≡ l
unfolding four_byte_aggregator
map_plain-four_byte [] h = refl
map_plain-four_byte (Attr.aggregator _ _ _ ∷ l) h = absurd h.0
map_plain-four_byte (a ∷ l) h = ap (◌∷◌ a) (map_plain-four_byte l h.1)

note_plain :
    (l rest : List Attr) (s : ℕ × Ip)
    → All IsPlain l
    → note_aggregators (l ++ rest) s ≡ note_aggregators rest s
unfolding note_aggregators note_aggregator
note_plain [] rest s h = refl
note_plain (Attr.aggregator _ _ _ ∷ l) rest s h = absurd h.0
note_plain (a ∷ l) rest s h = note_plain l rest s h.1

find_plain :
    (i : ℕ) (l rest : List Attr) (f : Found)
    → All IsPlain l
    → find_from i (l ++ rest) f ≡ find_from (i + length l) rest f
unfolding find_from note_found
find_plain i [] rest f h = ap (λ j. find_from j rest f) (omega arith)
find_plain i (Attr.aggregator _ _ _ ∷ l) rest f h = absurd h.0
find_plain i (Attr.as4_aggregator _ _ ∷ l) rest f h = absurd h.0
find_plain i (a ∷ l) rest f h =
    find_plain (suc i) l rest f h.1 ∙ ap (λ j. find_from j rest f) (omega arith)

set_middle :
    (pre post : List Attr) (a b : Attr) → set (pre ++ b ∷ post) (length pre) a ≡ pre ++ a ∷ post
set_middle [] post a b = refl
set_middle (x ∷ pre) post a b = ap (◌∷◌ x) (set_middle pre post a b)

abbrev nothing_found : Found
nothing_found = record { aggregator = none; as4_aggregator = none }

module _ (pre post : List Attr) (n : ℕ) (ip : Ip) (h : All IsPlain pre) (k : All IsPlain post) where
  abbrev original : List Attr
  original = pre ++ Attr.aggregator as4 n ip ∷ post

  abbrev tail_for : ℕ → List Attr
  tail_for m = if m == 0 then [] else Attr.as4_aggregator m ip ∷ []

  abbrev sent_with : List Attr → List Attr
  sent_with tail = pre ++ Attr.aggregator as2 (two_byte n) ip ∷ (post ++ tail)

  noted : note_aggregators original (0, no_ip) ≡ (if ltb 65535 n then n else 0, ip)
  unfolding note_aggregators note_aggregator
  noted =
      note_plain pre (Attr.aggregator as4 n ip ∷ post) (0, no_ip) h
      ∙ ap (λ x. note_aggregators x (if ltb 65535 n then n else 0, ip)) (sym (append-nil post))
      ∙ note_plain post [] (if ltb 65535 n then n else 0, ip) k

  two : map two_byte_aggregator original ≡ pre ++ Attr.aggregator as2 (two_byte n) ip ∷ post
  unfolding two_byte_aggregator
  two =
      map-append two_byte_aggregator pre (Attr.aggregator as4 n ip ∷ post)
      ∙ ap (λ x. x ++ Attr.aggregator as2 (two_byte n) ip ∷ map two_byte_aggregator post)
          (map_plain-two_byte pre h)
      ∙ ap (λ x. pre ++ Attr.aggregator as2 (two_byte n) ip ∷ x) (map_plain-two_byte post k)

  sent_aggregator :
      update_path_aggregator_2byte_as original ≡ sent_with (tail_for (if ltb 65535 n then n else 0))
  unfolding update_path_aggregator_2byte_as
  sent_aggregator =
      ap
        (λ (s : ℕ × Ip).
          map two_byte_aggregator original
          ++ (if s.0 == 0 then [] else Attr.as4_aggregator s.0 s.1 ∷ []))
        noted
      ∙ ap (λ x. x ++ tail_for (if ltb 65535 n then n else 0)) two
      ∙ append_assoc pre (Attr.aggregator as2 (two_byte n) ip ∷ post)
          (tail_for (if ltb 65535 n then n else 0))

  received_two :
      (tail : List Attr)
      → map four_byte_aggregator tail ≡ tail
      → map four_byte_aggregator (sent_with tail)
        ≡ pre ++ Attr.aggregator as4 (two_byte n) ip ∷ (post ++ tail)
  unfolding four_byte_aggregator
  received_two tail e =
      map-append four_byte_aggregator pre (Attr.aggregator as2 (two_byte n) ip ∷ (post ++ tail))
      ∙ ap (λ x. x ++ Attr.aggregator as4 (two_byte n) ip ∷ map four_byte_aggregator (post ++ tail))
          (map_plain-four_byte pre h)
      ∙ ap (λ x. pre ++ Attr.aggregator as4 (two_byte n) ip ∷ x)
          (map-append four_byte_aggregator post tail
            ∙ ap (λ x. x ++ map four_byte_aggregator tail) (map_plain-four_byte post k)
            ∙ ap (◌++◌ post) e)

  found_in :
      (tail : List Attr)
      → find_from 0 (sent_with tail) nothing_found
        ≡ find_from
            (suc (length pre) + length post)
            tail
            (record { aggregator = some (length pre, ip); as4_aggregator = none })
  unfolding find_from note_found
  found_in tail =
      find_plain 0 pre (Attr.aggregator as2 (two_byte n) ip ∷ (post ++ tail)) nothing_found h
      ∙ ap (λ j. find_from j (Attr.aggregator as2 (two_byte n) ip ∷ (post ++ tail)) nothing_found)
          (zero-add (length pre))
      ∙ find_plain (suc (length pre)) post tail
          (record { aggregator = some (length pre, ip); as4_aggregator = none }) k

  read_aggregators :
      (tail : List Attr) (f : Found)
      → map four_byte_aggregator tail ≡ tail
      → find_from
          (suc (length pre) + length post)
          tail
          (record { aggregator = some (length pre, ip); as4_aggregator = none })
        ≡ f
      → update_path_aggregator_4byte_as (sent_with tail)
        ≡ combine_aggregators
            (pre ++ Attr.aggregator as4 (two_byte n) ip ∷ (post ++ tail))
            f.aggregator
            f.as4_aggregator
  unfolding update_path_aggregator_4byte_as
  read_aggregators tail f e g =
      ap
        (λ (x : List Attr).
          combine_aggregators x (find_from 0 (sent_with tail) nothing_found).aggregator
            (find_from 0 (sent_with tail) nothing_found).as4_aggregator)
        (received_two tail e)
      ∙ ap
          (λ (x : Found).
            combine_aggregators (pre ++ Attr.aggregator as4 (two_byte n) ip ∷ (post ++ tail))
              x.aggregator x.as4_aggregator)
          (found_in tail ∙ g)

  without_tail : n < 65536 → update_path_aggregator_4byte_as (sent_with []) ≡ some original
  unfolding find_from combine_aggregators two_byte
  without_tail small =
      read_aggregators [] (record { aggregator = some (length pre, ip); as4_aggregator = none })
        refl refl
      ∙ ap (λ m. some (pre ++ Attr.aggregator as4 m ip ∷ (post ++ []))) (ground arith)
      ∙ ap (λ x. some (pre ++ Attr.aggregator as4 n ip ∷ x)) (append-nil post)

  with_tail :
      65535 < n
      → update_path_aggregator_4byte_as (sent_with (Attr.as4_aggregator n ip ∷ [])) ≡ some original
  unfolding find_from note_found combine_aggregators four_byte_aggregator
  with_tail large =
      let last = Attr.as4_aggregator n ip in
      let a = Attr.aggregator as4 n ip in
      let b = Attr.aggregator as4 (two_byte n) ip in
      read_aggregators (last ∷ [])
        (record {
          aggregator = some (length pre, ip);
          as4_aggregator = some (suc (length pre) + length post, n);
        })
        refl refl
      ∙ ap (λ x. some (remove_at (suc (length pre) + length post) x))
          (set_middle pre (post ++ last ∷ []) a b ∙ sym (append_assoc pre (a ∷ post) (last ∷ [])))
      ∙ ap (λ i. some (remove_at i (original ++ last ∷ [])))
          (omega (arith, length-append pre (a ∷ post)))
      ∙ ap some (remove_at-last original last)

-- Four-byte attributes with one AGGREGATOR and no AS4_AGGREGATOR come back as they were, when
-- they are sent to a speaker of two-byte numbers and read again.
pub update_path_aggregator-round_trip :
    (pre post : List Attr) (n : ℕ) (ip : Ip)
    → All IsPlain pre
    → All IsPlain post
    → update_path_aggregator_4byte_as
        (update_path_aggregator_2byte_as (pre ++ Attr.aggregator as4 n ip ∷ post))
      ≡ some (pre ++ Attr.aggregator as4 n ip ∷ post)
update_path_aggregator-round_trip pre post n ip h k = elim (Bool-cases (ltb 65535 n)) [
  | inl large ↦
      ap update_path_aggregator_4byte_as
        (sent_aggregator pre post n ip h k ∙ ap (sent_with pre post n ip h k) (ground arith))
      ∙ with_tail pre post n ip h k (ground arith)
  | inr small ↦
      ap update_path_aggregator_4byte_as
        (sent_aggregator pre post n ip h k ∙ ap (sent_with pre post n ip h k) (ground arith))
      ∙ without_tail pre post n ip h k (ground arith)
]
