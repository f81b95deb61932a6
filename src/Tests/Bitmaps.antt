-- ===== src/Tests/Bitmaps.antt =====
-- The allocator at a bitmap with two positions taken, and at a full one.
use goplane.Prelude.{
  ℕ, true, false, [], ◌∷◌, replicate, length, none, some, ◌≡◌, refl, ◌↔◌, ◌<◌, ◌*◌,
}
use goplane.Bitmap.{Bitmap, get_flag, find_and_set_zero_bit, expand}
use goplane.Bitmap.Alloc.{
  IsAllocated, find_and_set_zero_bit_lem, find_and_set_zero_bit-none, find-expand,
}
use goplane.Tests.Data.{two_taken}

abbrev three_taken : Bitmap
three_taken = (true ∷ true ∷ true ∷ replicate 61 false) ∷ []

abbrev full : Bitmap
full = replicate 64 true ∷ []

third : find_and_set_zero_bit two_taken ≡ some (three_taken, 2)
unfolding find_and_set_zero_bit
third = refl

no_room : find_and_set_zero_bit full ≡ none
unfolding find_and_set_zero_bit
no_room = refl

find_and_set_zero_bit_lem_example : IsAllocated two_taken three_taken 2
find_and_set_zero_bit_lem_example =
    find_and_set_zero_bit_lem two_taken three_taken 2 (refl, tt) third

find_and_set_zero_bit-none_example :
    (find_and_set_zero_bit full ≡ none)
    ↔ ((q : ℕ) → q < length full * 64 → get_flag full q ≡ some true)
find_and_set_zero_bit-none_example = find_and_set_zero_bit-none full (refl, tt)

find-expand_example :
    (b' : Bitmap) × (find_and_set_zero_bit (expand full) ≡ some (b', length full * 64))
    × IsAllocated (expand full) b' (length full * 64)
find-expand_example = find-expand full (refl, tt) no_room
