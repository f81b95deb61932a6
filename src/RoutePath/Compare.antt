-- ===== src/RoutePath/Compare.antt =====
-- `Compare` of internal/pkg/table/path.go. `int` has 64 bits, so that a difference of 32-bit numbers
-- stays positive in it after it has wrapped.
use goplane.Prelude.{
  ℕ, true, Option, none, some, ◌≡◌, arith, ◌==◌, if◌then◌else◌, ◌-◌, ◌+◌, ◌%◌, ◌^◌, not, ◌&&◌, ◌<◌,
}
use goplane.Prelude.Int.{ℤ, pos, negsuc, sub_ℕ, ltb_ℤ}
use goplane.Bgp.{Packet}
use goplane.RoutePath.{RoutePath, is_local, is_ibgp}
use goplane.RoutePath.AsPath.{get_as_path_len}
use goplane.RoutePath.Values.{get_local_pref, get_origin, get_med}

-- `a - b` on an unsigned number of `w` bits.
unfoldable pub wrapped_sub : ℕ → ℕ → ℕ → ℕ
wrapped_sub w a b = (a + 2 ^ w - b) % 2 ^ w

-- What the caller uses of a value that came with an error.
abbrev pub or_zero : Option ℕ → ℕ
or_zero none = 0
or_zero (some n) = n

unfoldable pub compare_values : Packet → RoutePath → RoutePath → ℤ
compare_values pkt lhs rhs =
    let l1 = get_as_path_len pkt lhs in
    let l2 = get_as_path_len pkt rhs in
    let o1 = or_zero (get_origin lhs) in
    let o2 = or_zero (get_origin rhs) in
    if not (get_local_pref lhs == get_local_pref rhs)
    then pos (wrapped_sub 32 (get_local_pref lhs) (get_local_pref rhs))
    else if not (l1 == l2)
    then sub_ℕ l2 l1
    else if not (o1 == o2)
    then pos (wrapped_sub 8 o2 o1)
    else pos (wrapped_sub 32 (or_zero (get_med rhs)) (or_zero (get_med lhs)))

unfoldable pub compare : Packet → RoutePath → RoutePath → ℤ
compare pkt lhs rhs =
    if is_local lhs && not (is_local rhs)
    then pos 1
    else if not (is_local lhs) && is_local rhs
    then negsuc 0
    else if not (is_ibgp lhs) && is_ibgp rhs
    then pos 1
    else if is_ibgp lhs && not (is_ibgp rhs)
    then negsuc 0
    else compare_values pkt lhs rhs

-- Two paths that are alike in being local and in being internal, and that differ in their local
-- preference, each compare as better than the other.
pub compare-local_pref :
    (pkt : Packet) (p q : RoutePath)
    → is_local p ≡ is_local q
    → is_ibgp p ≡ is_ibgp q
    → get_local_pref p < 2 ^ 32
    → get_local_pref q < get_local_pref p
    → (ltb_ℤ (pos 0) (compare pkt p q) ≡ true) × (ltb_ℤ (pos 0) (compare pkt q p) ≡ true)
unfolding compare compare_values wrapped_sub
compare-local_pref pkt p q h k b n = (ground arith, ground arith)
