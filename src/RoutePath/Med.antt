-- ===== src/RoutePath/Med.antt =====
-- `SetMed` of internal/pkg/table/path.go. `none` is its error.
use goplane.Prelude.{
  ℕ, Bool, true, false, Option, none, some, ◌≡◌, refl, ap, arith, ltb, if◌then◌else◌, ◌>>=◌, ◌-◌,
  ◌%◌, ◌^◌, ◌<◌, ◌≢◌, Bool-cases, inl, inr, ◌≤◌,
}
use goplane.Prelude.Int.{ℤ, pos, negsuc, ◌+ℤ◌, ltb_ℤ, pos_part, neg_part, +ℤ_parts}
use goplane.Bgp.{Attr, attr_multi_exit_disc}
use goplane.RoutePath.{RoutePath, get_path_attr, set_path_attr, has}
use goplane.RoutePath.Access.{get_path_attr-set_path_attr}
use goplane.RoutePath.Values.{get_med}

-- `uint32(i)`: two's complement, cut to 32 bits.
unfoldable pub to_uint32 : ℤ → ℕ
to_uint32 (pos n) = n % 2 ^ 32
to_uint32 (negsuc n) = 2 ^ 32 - 1 - n % 2 ^ 32

-- The value of an int64 whose two's complement is that of `i`, for a sum of two such.
unfoldable pub wrap_int64 : ℤ → ℤ
wrap_int64 (pos n) = if ltb n (2 ^ 63) then pos n else negsuc (2 ^ 64 - 1 - n)
wrap_int64 (negsuc n) = if ltb n (2 ^ 63) then negsuc n else pos (2 ^ 64 - 1 - n)

-- `parseMed`
unfoldable pub parse_med : ℕ → ℤ → Bool → Option ℕ
parse_med org_med med do_replace =
    let med_val = wrap_int64 (pos org_med +ℤ med) in
    if do_replace
    then some (to_uint32 med)
    else if ltb_ℤ med_val (pos 0)
    then none
    else if ltb_ℤ (pos (2 ^ 32 - 1)) med_val
    then none
    else some (to_uint32 med_val)

-- A path without the attribute counts as zero.
unfoldable pub med_or_zero : Option Attr → ℕ
med_or_zero (some (Attr.multi_exit_disc n)) = n
med_or_zero _ = 0

unfoldable pub set_med : ℤ → Bool → RoutePath → Option RoutePath
set_med med do_replace p = do
  v ← parse_med (med_or_zero (get_path_attr p attr_multi_exit_disc)) med do_replace
  some (set_path_attr p (Attr.multi_exit_disc v))

small_mod : (v : ℕ) → v < 2 ^ 32 → v % 2 ^ 32 ≡ v
small_mod v h = omega arith

parse_med-in_range :
    (org v : ℕ) (med : ℤ) → v < 2 ^ 32 → pos org +ℤ med ≡ pos v → parse_med org med false ≡ some v
unfolding parse_med wrap_int64 to_uint32
parse_med-in_range org v med h e =
    let small : ltb v (2 ^ 63) ≡ true = ground arith in
    rw (e, small) (ground (arith, small_mod v h))

parse_med-underflow :
    (org n : ℕ) (med : ℤ) → n < 2 ^ 63 → pos org +ℤ med ≡ negsuc n → parse_med org med false ≡ none
unfolding parse_med wrap_int64
parse_med-underflow org n med h e =
    let small : ltb n (2 ^ 63) ≡ true = ground arith in rw (e, small) (ground arith)

parse_med-overflow :
    (org v : ℕ) (med : ℤ)
    → 2 ^ 32 ≤ v
    → v < 2 ^ 64
    → pos org +ℤ med ≡ pos v
    → parse_med org med false ≡ none
unfolding parse_med wrap_int64
parse_med-overflow org v med h k e = elim (Bool-cases (ltb v (2 ^ 63))) [
  | inl small ↦ rw (e, small) (ground arith)
  | inr large ↦ rw (e, large) (ground arith)
]

-- The MED that `SetMed` starts from.
abbrev pub current_med : RoutePath → ℕ
current_med p = med_or_zero (get_path_attr p attr_multi_exit_disc)

get_med-set :
    (p : RoutePath) (v : ℕ)
    → has attr_multi_exit_disc p.top.dels ≡ false
    → get_med (set_path_attr p (Attr.multi_exit_disc v)) ≡ some v
unfolding get_med
get_med-set p v d =
    ground (arith, get_path_attr-set_path_attr p (Attr.multi_exit_disc v) attr_multi_exit_disc)

set_med-value :
    (p : RoutePath) (med : ℤ) (r : Bool) (o : Option ℕ)
    → parse_med (current_med p) med r ≡ o
    → set_med med r p ≡ (do v ← o; some (set_path_attr p (Attr.multi_exit_disc v)))
unfolding set_med
set_med-value p med r o e =
    ap (λ (x : Option ℕ). x >>= (λ v. some (set_path_attr p (Attr.multi_exit_disc v)))) e

-- A change of the MED whose sum is a uint32 succeeds, and the sum is what is read afterwards, unless
-- this link of the chain deletes the MED.
pub set_med-in_range :
    (p : RoutePath) (med : ℤ) (v : ℕ)
    → v < 2 ^ 32
    → pos (current_med p) +ℤ med ≡ pos v
    → has attr_multi_exit_disc p.top.dels ≡ false
    → (p' : RoutePath) × (set_med med false p ≡ some p') × (get_med p' ≡ some v)
set_med-in_range p med v h e d = (
  set_path_attr p (Attr.multi_exit_disc v),
  set_med-value p med false (some v) (parse_med-in_range (current_med p) v med h e),
  get_med-set p v d,
)

-- With a MED that is a uint32 and a change that is an int64, `SetMed` is refused when the sum is
-- not one.
pub set_med-refused :
    (p : RoutePath) (med : ℤ)
    → current_med p < 2 ^ 32
    → pos_part med < 2 ^ 63
    → neg_part med ≤ 2 ^ 63
    → ((v : ℕ) → v < 2 ^ 32 → pos (current_med p) +ℤ med ≢ pos v)
    → set_med med false p ≡ none
set_med-refused p med a b c out = by_sum (pos (current_med p) +ℤ med) refl
  where
    by_sum : (s : ℤ) → pos (current_med p) +ℤ med ≡ s → set_med med false p ≡ none
    by_sum (negsuc n) e = set_med-value p med false none (
        parse_med-underflow (current_med p) n med
          (omega (arith, +ℤ_parts (pos (current_med p)) med, ap neg_part e, ap pos_part e)) e)
    by_sum (pos v) e = elim (Bool-cases (ltb v (2 ^ 32))) [
      | inl small ↦ absurd (out v (ground arith) e)
      | inr large ↦ set_med-value p med false none (
          parse_med-overflow (current_med p) v med (ground arith)
            (omega (arith, +ℤ_parts (pos (current_med p)) med, ap neg_part e, ap pos_part e)) e)
    ]
