-- ===== src/Destination/Changes.antt =====
-- internal/pkg/table/destination.go: what a peer is told of an `Update` (`GetChanges`), and the path
-- lists that it rests on. `GetWithdrawnPath` compares pointers and is left out, as are the
-- multiple paths of `GetChanges`, which its first two results do not depend on.
use mathlib.Core.Path.{subst}
use goplane.Prelude.{
  ℕ, sym, Bool, true, false, List, [], ◌∷◌, ◌++◌, Option, none, some, ◌≡◌, refl, arith, ◌==◌,
  if◌then◌else◌, ◌&&◌, ◌||◌, not, any, keep, ◌⊎◌, inl, inr, Bool-cases,
}
use goplane.Prelude.Int.{ℤ, pos}
use goplane.Bgp.{Ip, ip_equal, Attr, Packet, rf_rtc_uc}
use goplane.RoutePath.{RoutePath, peer_equal, clone}
use goplane.RoutePath.Attrs.{get_path_attrs}
use goplane.RoutePath.AsPath.{get_as_list}
use goplane.RoutePath.Compare.{compare}
use goplane.Destination.Calculate.{Update}

-- The table that is asked: the global one, or that of the peer with an address (the source compares
-- the address's string).
pub data RibId : Type 0 where
  global_rib : RibId
  peer_rib : Ip → RibId

unfoldable pub is_as_loop : ℕ → RoutePath → Bool
is_as_loop asn path = any (λ v. asn == v) (get_as_list path)

unfoldable pub rs_filter : RibId → ℕ → RoutePath → Bool
rs_filter global_rib asn path = false
rs_filter (peer_rib id) asn path = ip_equal path.info.source.address id || is_as_loop asn path

unfoldable pub get_known_path_list : RibId → ℕ → List RoutePath → List RoutePath
get_known_path_list id asn = keep (λ p. not (rs_filter id asn p))

-- `getBestPath`, and `GetBestPath` of a destination with the known paths `l`.
unfoldable pub best_path_in : RibId → ℕ → List RoutePath → Option RoutePath
best_path_in id asn [] = none
best_path_in id asn (p ∷ l) =
    let rest = best_path_in id asn l in if rs_filter id asn p then rest else some p

unfoldable pub get_best_path : RibId → ℕ → List RoutePath → Option RoutePath
get_best_path id asn l = elim (best_path_in id asn l) [
  | none ↦ none
  | some p ↦ if p.is_nexthop_invalid then none else some p
]

abbrev pub is_zero : ℤ → Bool
is_zero (pos n) = n == 0
is_zero _ = false

-- `getMultiBestPath`: the first path whose next hop is valid, and those that compare as equal to it.
unfoldable pub multi_best : Packet → Option RoutePath → List RoutePath → List RoutePath
multi_best pkt best [] = []
multi_best pkt none (p ∷ l) =
    let skip = multi_best pkt none l in
    let found = multi_best pkt (some p) l in if p.is_nexthop_invalid then skip else p ∷ found
multi_best pkt (some best) (p ∷ l) =
    let rest = multi_best pkt (some best) l in
    if not p.is_nexthop_invalid && is_zero (compare pkt best p) then p ∷ rest else rest

abbrev pub equal_bytes : List ℕ → List ℕ → Bool
equal_bytes [] [] = true
equal_bytes (x ∷ xs) (y ∷ ys) = x == y && equal_bytes xs ys
equal_bytes _ _ = false

-- `pattrs`
unfoldable pub serialize_all : Packet → List Attr → List ℕ
serialize_all pkt [] = []
serialize_all pkt (a ∷ l) = pkt.serialize a ++ serialize_all pkt l

-- `(lhs *Path) Equal`
unfoldable pub path_equal : Packet → RoutePath → Option RoutePath → Bool
path_equal pkt lhs none = false
path_equal pkt lhs (some rhs) =
    peer_equal lhs.info.source rhs.info.source
    && equal_bytes (serialize_all pkt (get_path_attrs lhs)) (serialize_all pkt (get_path_attrs rhs))

abbrev pub withdrawing : RoutePath → RoutePath
withdrawing p = record p { is_withdraw = true }

-- Both paths that `GetChanges` returns first, from the best path and the old one.
unfoldable pub best_and_old :
    Packet → Bool → Option RoutePath → Option RoutePath → Option RoutePath × Option RoutePath
best_and_old pkt peer_down none none = (none, none)
best_and_old pkt peer_down none (some old) =
    if peer_down
    then (some (withdrawing old), some (withdrawing old))
    else (some (clone old true), some old)
best_and_old pkt peer_down (some best) none = (some best, none)
best_and_old pkt peer_down (some best) (some old) =
    if path_equal pkt best (some old)
    then (if best.info.nlri.family == rf_rtc_uc
        then (some best, some old)
        else if best.is_nexthop_invalid
        then (if old.is_nexthop_invalid
            then (none, some old)
            else (some (clone best true), some old))
        else if old.is_nexthop_invalid
        then (some best, some old)
        else (none, some old))
    else (some best, some old)

unfoldable pub get_changes :
    Packet → RibId → ℕ → Bool → Update → Option RoutePath × Option RoutePath
get_changes pkt id asn peer_down u =
    best_and_old pkt peer_down (best_path_in id asn u.known_path_list)
      (best_path_in id asn u.old_known_path_list)

-- What a peer holds after it is told of a path.
abbrev pub told : Option RoutePath → Option RoutePath → Option RoutePath
told held none = held
told held (some p) = if p.is_withdraw then none else some p

-- A peer that holds the best path, or one that is equal to it; and nothing where there is none.
abbrev pub IsInSync : Packet → Option RoutePath → Option RoutePath → Type 0
IsInSync pkt none none = Unit
IsInSync pkt (some best) (some held) = (best ≡ held) ⊎ (path_equal pkt best (some held) ≡ true)
IsInSync pkt _ _ = ⊥

abbrev pub IsUsable : Option RoutePath → Type 0
IsUsable none = Unit
IsUsable (some p) = (p.is_withdraw ≡ false) × (p.is_nexthop_invalid ≡ false)

-- The new best path is sent, unless it is equal to the old one.
best_and_old_cases :
    (pkt : Packet) (peer_down : Bool) (best old : RoutePath)
    → best.is_nexthop_invalid ≡ false
    → ((best_and_old pkt peer_down (some best) (some old)).0 ≡ some best)
      ⊎ (((best_and_old pkt peer_down (some best) (some old)).0 ≡ none)
          × (path_equal pkt best (some old) ≡ true))
unfolding best_and_old
best_and_old_cases pkt peer_down best old u = elim (Bool-cases (path_equal pkt best (some old))) [
  | inr differ ↦ inl (ground (arith, differ))
  | inl same ↦ elim (Bool-cases (best.info.nlri.family == rf_rtc_uc)) [
    | inl rtc ↦ inl (ground (arith, same, rtc))
    | inr other ↦ elim (Bool-cases old.is_nexthop_invalid) [
      | inl was_invalid ↦ inl (ground (arith, same, other, u, was_invalid))
      | inr was_valid ↦ inr (ground (arith, same, other, u, was_valid), same)
    ]
  ]
]

told-IsInSync :
    (pkt : Packet) (p : RoutePath) (held : Option RoutePath)
    → p.is_withdraw ≡ false
    → IsInSync pkt (some p) (told held (some p))
told-IsInSync pkt p held e =
    subst (λ b. IsInSync pkt (some p) (if b then none else some p)) (sym e) (inl refl)

best_and_old-IsInSync :
    (pkt : Packet) (peer_down : Bool) (best old : Option RoutePath)
    → IsUsable best
    → IsInSync pkt best (told old (best_and_old pkt peer_down best old).0)
best_and_old-IsInSync pkt peer_down none none u = unfold best_and_old in tt
best_and_old-IsInSync pkt true none (some old) u = unfold best_and_old in tt
best_and_old-IsInSync pkt false none (some old) u = unfold best_and_old clone in tt
best_and_old-IsInSync pkt peer_down (some best) none u =
    unfold best_and_old in told-IsInSync pkt best none u.0
best_and_old-IsInSync pkt peer_down (some best) (some old) u =
    elim (best_and_old_cases pkt peer_down best old u.1) [
      | inl sent ↦
          subst (λ m. IsInSync pkt (some best) (told (some old) m)) (sym sent)
            (told-IsInSync pkt best (some old) u.0)
      | inr (silent, same) ↦
          subst (λ m. IsInSync pkt (some best) (told (some old) m)) (sym silent) (inr same)
    ]

-- A peer that holds the old best path, and is told what `GetChanges` returns, holds the new best
-- path or one that is equal to it, and nothing if there is none; the new best path is to be an
-- advertisement with a valid next hop.
pub get_changes-IsInSync :
    (pkt : Packet) (id : RibId) (asn : ℕ) (peer_down : Bool) (u : Update)
    → IsUsable (best_path_in id asn u.known_path_list)
    → IsInSync pkt
        (best_path_in id asn u.known_path_list)
        (told (best_path_in id asn u.old_known_path_list) (get_changes pkt id asn peer_down u).0)
unfolding get_changes
get_changes-IsInSync pkt id asn peer_down u h =
    best_and_old-IsInSync pkt peer_down (best_path_in id asn u.known_path_list)
      (best_path_in id asn u.old_known_path_list) h
