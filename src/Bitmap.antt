-- ===== src/Bitmap.antt =====
-- The bitmap of internal/pkg/table/path.go, from which a destination takes its path identifiers.
-- A uint64 word is its bits, lowest first: `w & (1 << j) > 0` is the bit at `j`, `w | 1 << j` sets
-- it, `w &^ 1 << j` clears it, and `w == math.MaxUint64` says that every bit is one.
-- `none` is the run-time panic of an index out of range, or the error of `FindandSetZeroBit`.
use goplane.Prelude.{
  ℕ, zero, suc, ◌+◌, ◌-◌, ◌*◌, ◌/◌, ◌%◌, ◌≡◌, Bool, true, false, not, Option, none, some, List, [],
  ◌∷◌, ◌++◌, length, get_elem?, set, replicate, All, if◌then◌else◌, ◌>>=◌,
}
pub mod Flags
pub mod Alloc

abbrev pub Word : Type 0
Word = List Bool

abbrev pub Bitmap : Type 0
Bitmap = List Word

abbrev pub zero_word : Word
zero_word = replicate 64 false

unfoldable pub new_bitmap : ℕ → Bitmap
new_bitmap size = replicate ((size + 64 - 1) / 64) zero_word

-- Both `Flag` and `Unflag`: one write of a bit in the word that holds it.
unfoldable pub write_bit : Bool → Bitmap → ℕ → Option Bitmap
write_bit v b i = do w ← get_elem? b (i / 64); some (set b (i / 64) (set w (i % 64) v))

unfoldable pub flag : Bitmap → ℕ → Option Bitmap
unfolding write_bit
flag b i = write_bit true b i

unfoldable pub unflag : Bitmap → ℕ → Option Bitmap
unfolding write_bit
unflag b i = write_bit false b i

unfoldable pub get_flag : Bitmap → ℕ → Option Bool
get_flag b i = do w ← get_elem? b (i / 64); get_elem? w (i % 64)

unfoldable pub is_max_uint64 : Word → Bool
is_max_uint64 [] = true
is_max_uint64 (x ∷ w) = let rest = is_max_uint64 w in if x then rest else false

-- The inner loop, from bit `j` on.
unfoldable pub zero_bit_from : ℕ → Word → Option ℕ
zero_bit_from j [] = none
zero_bit_from j (x ∷ w) = let rest = zero_bit_from (suc j) w in if not x then some j else rest

-- The outer loop, from word `i` on; a full word is skipped.
unfoldable pub zero_position_from : ℕ → Bitmap → Option ℕ
unfolding is_max_uint64 zero_bit_from
zero_position_from i [] = none
zero_position_from i (w ∷ b) =
    let rest = zero_position_from (suc i) b in
    if is_max_uint64 w
    then rest
    else elim (zero_bit_from 0 w) [ none ↦ rest | some j ↦ some (i * 64 + j) ]

unfoldable pub find_and_set_zero_bit : Bitmap → Option (Bitmap × ℕ)
unfolding zero_position_from flag
find_and_set_zero_bit b = do r ← zero_position_from 0 b; b' ← flag b r; some (b', r)

unfoldable pub expand : Bitmap → Bitmap
expand b = b ++ zero_word ∷ []

-- Every word has 64 bits.
abbrev pub IsWordList : Bitmap → Type 0
IsWordList b = All (λ w. length w ≡ 64) b
