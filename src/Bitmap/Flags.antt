-- ===== src/Bitmap/Flags.antt =====
-- What `Flag`, `Unflag` and `GetFlag` of path.go do to one another.
use goplane.Prelude.{
  ℕ, ◌*◌, ◌/◌, ◌%◌, ◌<◌, ◌≡◌, ◌≢◌, Bool, some, length, get_elem?, set, length-set,
  get_elem?-set_self, get_elem?-set_ne, get_elem?_total, All-get_elem?, All-set, arith,
  Option-cases, inl, inr, Bool-cases, ◌==◌,
}
use goplane.Bitmap.{Bitmap, Word, write_bit, get_flag, IsWordList}

-- A position inside the bitmap is that of a word and a bit.
pub word_of :
    (b : Bitmap) (i : ℕ)
    → IsWordList b
    → i < length b * 64
    → (w : Word) × (get_elem? b (i / 64) ≡ some w) × (length w ≡ 64)
word_of b i h lt =
    let (w, e) = get_elem?_total b (i / 64) (omega arith) in
    (w, e, All-get_elem? (λ w. length w ≡ 64) b (i / 64) w h e)

module _ (v : Bool) (b : Bitmap) (i : ℕ) (h : IsWordList b) (lt : i < length b * 64) where
  -- A write inside the bitmap succeeds, keeps its shape, and is read back.
  pub write_bit_total :
      (b' : Bitmap) × (write_bit v b i ≡ some b')
      × IsWordList b'
      × (length b' ≡ length b)
      × (get_flag b' i ≡ some v)
  unfolding write_bit get_flag word_of
  write_bit_total =
      let (w, e, l) = word_of b i h lt in
      let (x, ex) = get_elem?_total w (i % 64) (omega arith) in
      (
        set b (i / 64) (set w (i % 64) v),
        rw e,
        All-set (λ w. length w ≡ 64) b (i / 64) _ h (omega (arith, length-set w (i % 64) v)),
        length-set b (i / 64) _,
        rw (get_elem?-set_self b (i / 64) (set w (i % 64) v) w e)
            (get_elem?-set_self w (i % 64) v x ex),
      )

module _ (v : Bool) (b : Bitmap) (i : ℕ) where
  -- A write changes no other position.
  pub get_flag-write_bit_ne :
      (j : ℕ) (b' : Bitmap) → write_bit v b i ≡ some b' → i ≢ j → get_flag b' j ≡ get_flag b j
  unfolding write_bit get_flag
  get_flag-write_bit_ne j b' e ne = elim (Option-cases (get_elem? b (i / 64))) [
    | inl out ↦ cc
    | inr (w, found) ↦ elim (Bool-cases (i / 64 == j / 64)) [
      | inl same ↦ ground (
        arith,
        get_elem?-set_self b (i / 64) (set w (i % 64) v) w found,
        get_elem?-set_ne w (i % 64) (j % 64) v (ground arith),
      )
      | inr other ↦
          ground (arith, get_elem?-set_ne b (i / 64) (j / 64) (set w (i % 64) v) (ground arith))
    ]
  ]
