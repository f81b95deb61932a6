-- ===== src/Roa/Entries.antt =====
-- `Add` and `Delete` of internal/pkg/table/roa.go: what a bucket holds after them.
use mathlib.Core.List.{Permᴰ}
use mathlib.Core.Path.{ap₂}
use goplane.Prelude.{
  Bool, true, false, List, [], ◌∷◌, ◌++◌, ◌≡◌, refl, sym, ◌≢◌, ◌∙◌, arith, if◌then◌else◌, ◌&&◌,
  ◌||◌, not, any, All, AllPairs, AllPairs-perm, AllPairs-snoc, Bool-cases, inl, inr,
}
use goplane.Roa.{Roa, roa_equal, roa_less, add_entry, delete_entry}

-- A bucket holds an entry if it has an equal one.
abbrev pub holds : Roa → List Roa → Bool
holds roa = any (λ r. roa_equal r roa)

abbrev pub Apart : Roa → Roa → Type 0
Apart r q = roa_equal r q ≡ false

-- No two entries of a bucket are equal.
abbrev pub IsBucket : List Roa → Type 0
IsBucket = AllPairs Apart

equal_symm : (r q : Roa) → roa_equal r q ≡ roa_equal q r
unfolding roa_equal
equal_symm r q = ground arith

Apart-symm : (r q : Roa) → Apart r q → Apart q r
Apart-symm r q h = equal_symm q r ∙ h

equal_trans : (r q s : Roa) → roa_equal r q ≡ true → roa_equal r s ≡ roa_equal q s
unfolding roa_equal
equal_trans r q s h = ground arith

any-perm : (f : Roa → Bool) {l l' : List Roa} → Permᴰ l l' → any f l ≡ any f l'
any-perm f Permᴰ.nil = refl
any-perm f (Permᴰ.cons e d) = ap₂ (λ r b. if f r then true else b) e (any-perm f d)
any-perm f (Permᴰ.swap {a = a} {b = b} {a' = a'} {b' = b'} {l = l} e e') = rw (e, e') (ground arith)
any-perm f (Permᴰ.trans d d') = any-perm f d ∙ any-perm f d'

holds-snoc : (q roa : Roa) (l : List Roa) → holds q (l ++ roa ∷ []) ≡ (holds q l || roa_equal roa q)
holds-snoc q roa [] = ground arith
holds-snoc q roa (r ∷ l) = ground (arith, holds-snoc q roa l)

absent : (roa : Roa) (l : List Roa) → holds roa l ≡ false → All (λ r. Apart r roa) l
absent roa [] h = tt
absent roa (r ∷ l) h = (ground arith, absent roa l (ground arith))

found_equal :
    (roa q : Roa) (l : List Roa) → holds roa l ≡ true → roa_equal roa q ≡ true → holds q l ≡ true
found_equal roa q [] h k = absurd (false_true h)
  where
    false_true : false ≢ true
    false_true e = cc
found_equal roa q (r ∷ l) h k =
    let same : roa_equal r roa ≡ roa_equal r q =
      equal_symm r roa ∙ equal_trans roa q r k ∙ equal_symm q r in
    ground (arith, found_equal roa q l, same)

still_there :
    (roa q : Roa) (l : List Roa) → holds roa l ≡ true → holds q l ≡ (holds q l || roa_equal roa q)
still_there roa q l h = elim (Bool-cases (roa_equal roa q)) [
  | inl k ↦ ground (arith, k, found_equal roa q l h k)
  | inr k ↦ ground (arith, k)
]

gone : (roa q : Roa) (l : List Roa) → All (Apart roa) l → roa_equal roa q ≡ true → holds q l ≡ false
gone roa q [] h k = refl
gone roa q (r ∷ l) h k =
    let other : roa_equal r q ≡ false = equal_symm r q ∙ sym (equal_trans roa q r k) ∙ h.0 in
    ground (arith, other, gone roa q l h.1 k)

All-delete_entry :
    (r roa : Roa) (l : List Roa) → All (Apart r) l → All (Apart r) (delete_entry roa l)
unfolding delete_entry
All-delete_entry r roa [] h = tt
All-delete_entry r roa (q ∷ l) h = elim (Bool-cases (roa_equal q roa)) [
  | inl e ↦ rw e h.1
  | inr e ↦ rw e (h.0, All-delete_entry r roa l h.1)
]

IsBucket-delete_entry : (roa : Roa) (l : List Roa) → IsBucket l → IsBucket (delete_entry roa l)
unfolding delete_entry
IsBucket-delete_entry roa [] b = tt
IsBucket-delete_entry roa (r ∷ l) b = elim (Bool-cases (roa_equal r roa)) [
  | inl e ↦ rw e b.1
  | inr e ↦ rw e (All-delete_entry r roa l b.0, IsBucket-delete_entry roa l b.1)
]

holds-delete_entry :
    (roa q : Roa) (l : List Roa)
    → IsBucket l
    → holds q (delete_entry roa l) ≡ (holds q l && not (roa_equal roa q))
unfolding delete_entry
holds-delete_entry roa q [] b = refl
holds-delete_entry roa q (r ∷ l) b = elim (Bool-cases (roa_equal r roa)) [
  | inl e ↦ elim (Bool-cases (roa_equal roa q)) [
    | inl k ↦
        let k' : roa_equal r q ≡ true =
          equal_symm r q ∙ sym (equal_trans roa q r k) ∙ equal_symm roa r ∙ e in
        rw e (ground (arith, k, gone r q l b.0 k'))
    | inr k ↦ rw e (ground (arith, k, equal_trans r roa q e))
  ]
  | inr e ↦ elim (Bool-cases (roa_equal roa q)) [
    | inl k ↦
        let k' : roa_equal r q ≡ false =
          equal_symm r q ∙ sym (equal_trans roa q r k) ∙ equal_symm roa r ∙ e in
        rw e (ground (arith, k, k', holds-delete_entry roa q l b.1))
    | inr k ↦ rw e (ground (arith, k, holds-delete_entry roa q l b.1))
  ]
]

-- `Delete` keeps the entries of a bucket different, and afterwards the bucket holds what it held
-- but for the given entry.
pub delete_entry_lem :
    (roa : Roa) (l : List Roa)
    → IsBucket l
    → IsBucket (delete_entry roa l)
      × ((q : Roa) → holds q (delete_entry roa l) ≡ (holds q l && not (roa_equal roa q)))
delete_entry_lem roa l b = (IsBucket-delete_entry roa l b, λ q. holds-delete_entry roa q l b)

module _ (sort : (Roa → Roa → Bool) → List Roa → List Roa)
    (perm : (f : Roa → Roa → Bool) (l : List Roa) → Permᴰ l (sort f l)) where
  -- `Add` keeps the entries of a bucket different, and afterwards the bucket holds what it held and
  -- the new entry.
  pub add_entry_lem :
      (roa : Roa) (l : List Roa)
      → IsBucket l
      → IsBucket (add_entry sort roa l)
        × ((q : Roa) → holds q (add_entry sort roa l) ≡ (holds q l || roa_equal roa q))
  unfolding add_entry
  add_entry_lem roa l b = elim (Bool-cases (holds roa l)) [
    | inl there ↦ rw there (b, λ q. still_there roa q l there)
    | inr new ↦ rw new (
      AllPairs-perm Apart Apart-symm (perm roa_less (l ++ roa ∷ []))
          (AllPairs-snoc Apart l roa b (absent roa l new)),
      λ q. sym (any-perm (λ r. roa_equal r q) (perm roa_less (l ++ roa ∷ []))) ∙ holds-snoc q roa l,
    )
  ]
