-- ===== src/Bitmap/Alloc.antt =====
-- `FindandSetZeroBit` and `Expand` of path.go: which position is handed out, and when there is one.
use goplane.Prelude.{
  ℕ, zero, suc, ◌+◌, ◌-◌, ◌*◌, ◌/◌, ◌%◌, ◌<◌, ◌≤◌, ◌≡◌, refl, ◌≢◌, Bool, true, false, Option, none,
  some, [], ◌∷◌, length, get_elem?, get_elem?_bound, get_elem?-append, get_elem?-length,
  length-append, All-append, arith, Option-cases, inl, inr, Bool-cases, ◌==◌, ap, ◌∙◌, ltb, sym,
  ◌↔◌,
}
use mathlib.Core.Path.{subst}
use mathlib.Core.Option.{some-injective}
use goplane.Bitmap.{
  Bitmap, Word, get_flag, IsWordList, is_max_uint64, zero_bit_from, zero_position_from,
  find_and_set_zero_bit, expand, zero_word,
}
use goplane.Bitmap.Flags.{write_bit_total, get_flag-write_bit_ne}

is_max_uint64_bits :
    (w : Word) (q : ℕ) → is_max_uint64 w ≡ true → q < length w → get_elem? w q ≡ some true
unfolding is_max_uint64
is_max_uint64_bits [] q h lt = elim lt [ ]
is_max_uint64_bits (x ∷ w) zero h lt = ground arith
is_max_uint64_bits (x ∷ w) (suc q) h lt = is_max_uint64_bits w q (ground arith) (omega arith)

-- The bit that the inner loop stops at is the first zero.
pub record IsFirstZero (at : ℕ → Option Bool) (p : ℕ) : Type 0 where
  pub clear : at p ≡ some false
  pub ones_before : (q : ℕ) → q < p → at q ≡ some true

zero_bit_from_lem :
    (j r : ℕ) (w : Word)
    → zero_bit_from j w ≡ some r
    → (p : ℕ) × (r ≡ j + p) × IsFirstZero (get_elem? w) p
unfolding zero_bit_from
zero_bit_from_lem j r [] h = cc
zero_bit_from_lem j r (false ∷ w) h =
    (0, ground arith, record { clear = refl; ones_before = λ q lt. elim lt [ ] })
zero_bit_from_lem j r (true ∷ w) h =
    let (p, e, f) = zero_bit_from_lem (suc j) r w h in
    (
      suc p,
      omega arith,
      record {
        clear = f.clear;
        ones_before = elim [ zero ↦ λ lt. refl | suc q ↦ λ lt. f.ones_before q (omega arith) ];
      },
    )

zero_bit_from_total :
    (j : ℕ) (w : Word) → is_max_uint64 w ≡ false → (r : ℕ) × (zero_bit_from j w ≡ some r)
unfolding zero_bit_from is_max_uint64
zero_bit_from_total j [] h = cc
zero_bit_from_total j (false ∷ w) h = (j, refl)
zero_bit_from_total j (true ∷ w) h = zero_bit_from_total (suc j) w h

-- The positions of a bitmap: those of its first word, and those behind.
get_flag-head : (w : Word) (b : Bitmap) (q : ℕ) → q < 64 → get_flag (w ∷ b) q ≡ get_elem? w q
unfolding get_flag
get_flag-head w b q lt =
    let word : q / 64 ≡ 0 = omega arith in let bit : q % 64 ≡ q = omega arith in rw (word, bit)

get_flag-tail : (w : Word) (b : Bitmap) (q : ℕ) → get_flag (w ∷ b) (64 + q) ≡ get_flag b q
unfolding get_flag
get_flag-tail w b q =
    let word : (64 + q) / 64 ≡ suc (q / 64) = omega arith in
    let bit : (64 + q) % 64 ≡ q % 64 = omega arith in rw (word, bit)

get_flag-past : (w : Word) (b : Bitmap) (q : ℕ) → 64 ≤ q → get_flag (w ∷ b) q ≡ get_flag b (q - 64)
get_flag-past w b q h =
    let e : q ≡ 64 + (q - 64) = omega arith in ap (get_flag (w ∷ b)) e ∙ get_flag-tail w b (q - 64)

-- A zero of the bitmap behind a full word.
IsFirstZero-past :
    (w : Word) (b : Bitmap) (p : ℕ)
    → length w ≡ 64
    → is_max_uint64 w ≡ true
    → IsFirstZero (get_flag b) p
    → IsFirstZero (get_flag (w ∷ b)) (64 + p)
IsFirstZero-past w b p l full z = record {
  clear = get_flag-tail w b p ∙ z.clear;
  ones_before = λ q lt. elim (Bool-cases (ltb q 64)) [
    | inl here ↦ get_flag-head w b q (ground arith) ∙ is_max_uint64_bits w q full (ground arith)
    | inr there ↦ get_flag-past w b q (ground arith) ∙ z.ones_before (q - 64) (ground arith)
  ];
}

IsFirstZero-here :
    (w : Word) (b : Bitmap) (p : ℕ)
    → length w ≡ 64
    → IsFirstZero (get_elem? w) p
    → IsFirstZero (get_flag (w ∷ b)) p
IsFirstZero-here w b p l z =
    let lt : p < 64 = omega (arith, get_elem?_bound w p z.clear) in
    record {
      clear = get_flag-head w b p lt ∙ z.clear;
      ones_before = λ q less. get_flag-head w b q (omega arith) ∙ z.ones_before q less;
    }

pub zero_position_from_lem :
    (i r : ℕ) (b : Bitmap)
    → IsWordList b
    → zero_position_from i b ≡ some r
    → (p : ℕ) × (r ≡ i * 64 + p) × IsFirstZero (get_flag b) p
unfolding zero_position_from
zero_position_from_lem i r [] h e = cc
zero_position_from_lem i r (w ∷ b) h e = elim (Bool-cases (is_max_uint64 w)) [
  | inl full ↦
      let (p, e', z) = zero_position_from_lem (suc i) r b h.1 (ground arith) in
      (64 + p, omega arith, IsFirstZero-past w b p h.0 full z)
  | inr room ↦
      let (j, at) = zero_bit_from_total 0 w room in
      let (p, e', z) = zero_bit_from_lem 0 j w at in (p, ground arith, IsFirstZero-here w b p h.0 z)
]

pub zero_position_from-none :
    (i q : ℕ) (b : Bitmap)
    → IsWordList b
    → zero_position_from i b ≡ none
    → q < length b * 64
    → get_flag b q ≡ some true
unfolding zero_position_from
zero_position_from-none i q [] h e lt = absurd (omega arith)
zero_position_from-none i q (w ∷ b) h e lt = elim (Bool-cases (is_max_uint64 w)) [
  | inl full ↦ elim (Bool-cases (ltb q 64)) [
    | inl here ↦ get_flag-head w b q (ground arith) ∙ is_max_uint64_bits w q full (ground arith)
    | inr there ↦
        get_flag-past w b q (ground arith)
        ∙ zero_position_from-none (suc i) (q - 64) b h.1 (ground arith) (ground arith)
  ]
  | inr room ↦ let (j, at) = zero_bit_from_total 0 w room in absurd (ground arith)
]

pub get_flag_bound : (b : Bitmap) (i : ℕ) {v : Bool} → get_flag b i ≡ some v → i < length b * 64
unfolding get_flag
get_flag_bound b i h = elim (Option-cases (get_elem? b (i / 64))) [
  | inl out ↦ cc
  | inr (w, found) ↦ omega (arith, get_elem?_bound b (i / 64) found)
]

-- What the allocator promises of the position that it hands out.
pub record IsAllocated (b b' : Bitmap) (r : ℕ) : Type 0 where
  pub lowest : IsFirstZero (get_flag b) r
  pub taken : get_flag b' r ≡ some true
  pub others : (j : ℕ) → r ≢ j → get_flag b' j ≡ get_flag b j
  pub words : IsWordList b'
  pub size : length b' ≡ length b

find_at :
    (b : Bitmap) (r : ℕ)
    → IsWordList b
    → zero_position_from 0 b ≡ some r
    → (b' : Bitmap) × (find_and_set_zero_bit b ≡ some (b', r)) × IsAllocated b b' r
unfolding find_and_set_zero_bit
find_at b r h at =
    let (p, e, z) = zero_position_from_lem 0 r b h at in
    let same : p ≡ r = omega arith in
    let z' = subst (IsFirstZero (get_flag b)) same z in
    let (b', e', words, size, taken) = write_bit_total true b r h (get_flag_bound b r z'.clear) in
    (
      b',
      rw (at, e'),
      record {
        lowest = z';
        taken = taken;
        others = λ j ne. get_flag-write_bit_ne true b r j b' e' ne;
        words = words;
        size = size;
      },
    )

-- `find_and_set_zero_bit` hands out the lowest position that is clear, and sets that bit alone.
pub find_and_set_zero_bit_lem :
    (b b' : Bitmap) (r : ℕ)
    → IsWordList b
    → find_and_set_zero_bit b ≡ some (b', r)
    → IsAllocated b b' r
find_and_set_zero_bit_lem b b' r h e = elim (Option-cases (zero_position_from 0 b)) [
  | inl out ↦ absurd (unfold find_and_set_zero_bit in ground arith)
  | inr (p, at) ↦
      let (c, e', a) = find_at b p h at in
      let same : (c, p) ≡ (b', r) = some-injective _ _ (sym e' ∙ e) in
      subst (λ (x : Bitmap × ℕ). IsAllocated b x.0 x.1) same a
]

-- It fails exactly when every position of the bitmap is taken.
pub find_and_set_zero_bit-none :
    (b : Bitmap)
    → IsWordList b
    → (find_and_set_zero_bit b ≡ none) ↔ ((q : ℕ) → q < length b * 64 → get_flag b q ≡ some true)
find_and_set_zero_bit-none b h = (
  λ e q lt. elim (Option-cases (zero_position_from 0 b)) [
    | inl out ↦ zero_position_from-none 0 q b h out lt
    | inr (p, at) ↦ let (c, e', a) = find_at b p h at in absurd (ground arith)
  ],
  λ full. elim (Option-cases (zero_position_from 0 b)) [
    | inl out ↦ unfold find_and_set_zero_bit in rw out
    | inr (p, at) ↦
        let (c, e', a) = find_at b p h at in
        absurd (ground (arith, full p (get_flag_bound b p a.lowest.clear), a.lowest.clear))
  ],
)

IsWordList-expand : (b : Bitmap) → IsWordList b → IsWordList (expand b)
unfolding expand
IsWordList-expand b h = All-append (λ w. length w ≡ 64) b (zero_word ∷ []) h (refl, tt)

get_flag-expand_end : (b : Bitmap) → get_flag (expand b) (length b * 64) ≡ some false
unfolding expand get_flag
get_flag-expand_end b =
    let word : length b * 64 / 64 ≡ length b + 0 = omega arith in
    let bit : length b * 64 % 64 ≡ 0 = omega arith in
    rw (word, bit) (rw (get_elem?-length b (zero_word ∷ []) 0))

pub get_flag-expand :
    (b : Bitmap) (q : ℕ) → q < length b * 64 → get_flag (expand b) q ≡ get_flag b q
unfolding expand get_flag
get_flag-expand b q lt = rw (get_elem?-append b (zero_word ∷ []) (q / 64) (omega arith))

first_zero_end :
    (b : Bitmap)
    → IsWordList b
    → find_and_set_zero_bit b ≡ none
    → (p : ℕ) → IsFirstZero (get_flag (expand b)) p
    → p ≡ length b * 64
first_zero_end b h e p z = elim (Bool-cases (ltb p (length b * 64))) [
  | inl low ↦
      let full = (find_and_set_zero_bit-none b h).0 e p (ground arith) in
      absurd (ground (arith, get_flag-expand b p (ground arith), z.clear))
  | inr high ↦ elim (Bool-cases (p == length b * 64)) [
    | inl same ↦ ground arith
    | inr above ↦
        absurd (ground (arith, z.ones_before (length b * 64) (ground arith), get_flag-expand_end b))
  ]
]

-- After `expand` there is always room, and what was there before stays.
pub find-expand :
    (b : Bitmap)
    → IsWordList b
    → find_and_set_zero_bit b ≡ none
    → (b' : Bitmap) × (find_and_set_zero_bit (expand b) ≡ some (b', length b * 64))
      × IsAllocated (expand b) b' (length b * 64)
find-expand b h e = elim (Option-cases (zero_position_from 0 (expand b))) [
  | inl out ↦
      let t =
        zero_position_from-none 0 (length b * 64) (expand b) (IsWordList-expand b h) out
          (get_flag_bound (expand b) (length b * 64) (get_flag-expand_end b)) in
      absurd (ground (arith, get_flag-expand_end b))
  | inr (p, at) ↦
      let (b', found, a) = find_at (expand b) p (IsWordList-expand b h) at in
      let same : p ≡ length b * 64 = first_zero_end b h e p a.lowest in
      (b', found ∙ ap (λ (r : ℕ). some (b', r)) same, subst (IsAllocated (expand b) b') same a)
]

pub length-expand : (b : Bitmap) → length (expand b) ≡ length b + 1
unfolding expand
length-expand b = omega (arith, length-append b (zero_word ∷ []))
