-- ===== src/SliceStable.antt =====
-- `sort.SliceStable` of Go's standard library, for up to 20 elements: there it is one insertion sort
-- (its block size is 20). The array's sorted part is kept from its right end to its left. The
-- comparison may panic: `none`.
use goplane.Prelude.{Bool, List, [], ◌∷◌, Option, some, ◌>>=◌, if◌then◌else◌}
pub mod Laws

-- The sorted part, read from left to right.
unfoldable pub rev_onto {ℓ} : {A : Type ℓ} → List A → List A → List A
rev_onto [] acc = acc
rev_onto (x ∷ l) acc = rev_onto l (x ∷ acc)

module _ {ℓ} {A : Type ℓ} (less : A → A → Option Bool) where
  -- The inner loop: `x` moves left while it is less than its neighbour.
  unfoldable pub insert_back : A → List A → Option (List A)
  insert_back x [] = some (x ∷ [])
  insert_back x (y ∷ l) =
      let rest = insert_back x l in
      do moves ← less x y; if moves then (do l' ← rest; some (y ∷ l')) else some (x ∷ y ∷ l)

  unfoldable pub insert_all : List A → List A → Option (List A)
  insert_all sorted [] = some sorted
  insert_all sorted (x ∷ l) = do sorted' ← insert_back x sorted; insert_all sorted' l

  unfoldable pub slice_stable : List A → Option (List A)
  unfolding insert_all insert_back rev_onto
  slice_stable l = do sorted ← insert_all [] l; some (rev_onto sorted [])
