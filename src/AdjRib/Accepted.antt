-- ===== src/AdjRib/Accepted.antt =====
-- The count of accepted paths of internal/pkg/table/adj.go.
use mathlib.Core.Path.{subst}
use mathlib.Core.Option.{some-injective}
use goplane.Prelude.{
  ℕ, zero, suc, Bool, true, false, List, [], ◌∷◌, ◌++◌, Option, none, some, ◌≡◌, refl, sym, ap, ◌∙◌,
  arith, ◌==◌, if◌then◌else◌, ◌>>=◌, ◌+◌, remove_at, set, get_elem?, Bool-cases, inl, inr, ◌≢◌, All,
}
use goplane.Prelude.Int.{ℤ, pos, ◌+ℤ◌, int_laws, eq_of_parts, +ℤ_parts, pos_part, neg_part}
use goplane.Bgp.{Packet}
use goplane.RoutePath.{RoutePath, has, set_timestamp}
use goplane.Destination.Calculate.{path_id, entry_at}
use goplane.Destination.Changes.{path_equal}
use goplane.AdjRib.{
  Dest, AdjRib, known_at, put_dest, delete_dest, index_of, Stored, store_withdraw, count_change,
  store_update, store, emptied, add_count, update_one, update,
}

abbrev pub accepting : RoutePath → ℕ
accepting p = if p.rejected then 0 else 1

abbrev pub accepted_in : List RoutePath → ℕ
accepted_in [] = 0
accepted_in (p ∷ l) = accepting p + accepted_in l

-- The accepted paths of a family, counted afresh.
abbrev pub count_accepted : ℕ → List Dest → ℕ
count_accepted rf [] = 0
count_accepted rf (d ∷ l) =
    (if d.family == rf then accepted_in d.known_path_list else 0) + count_accepted rf l

-- Every count is that of the accepted paths.
abbrev pub IsCounted : AdjRib → Type 0
IsCounted adj = (rf : ℕ) → adj.accepted rf ≡ pos (count_accepted rf adj.dests)

nothing_there : (i : ℕ) (p : RoutePath) → get_elem? [] i ≢ some p
nothing_there i p e = cc

accepted_in-remove_at :
    (i : ℕ) (l : List RoutePath) (p : RoutePath)
    → get_elem? l i ≡ some p
    → accepted_in (remove_at i l) + accepting p ≡ accepted_in l
accepted_in-remove_at i [] p e = absurd (nothing_there i p e)
accepted_in-remove_at zero (x ∷ l) p e = omega (arith, ap accepting (some-injective x p e))
accepted_in-remove_at (suc i) (x ∷ l) p e = omega (arith, accepted_in-remove_at i l p e)

accepted_in-set :
    (i : ℕ) (l : List RoutePath) (p q : RoutePath)
    → get_elem? l i ≡ some p
    → accepted_in (set l i q) + accepting p ≡ accepted_in l + accepting q
accepted_in-set i [] p q e = absurd (nothing_there i p e)
accepted_in-set zero (x ∷ l) p q e = omega (arith, ap accepting (some-injective x p e))
accepted_in-set (suc i) (x ∷ l) p q e = omega (arith, accepted_in-set i l p q e)

accepted_in-snoc :
    (l : List RoutePath) (p : RoutePath) → accepted_in (l ++ p ∷ []) ≡ accepted_in l + accepting p
accepted_in-snoc [] p = omega arith
accepted_in-snoc (x ∷ l) p = omega (arith, accepted_in-snoc l p)

count-put_dest :
    (rf' rf key : ℕ) (paths : List RoutePath) (l : List Dest)
    → count_accepted rf' (put_dest rf key paths l)
        + (if rf' == rf then accepted_in (known_at rf key l) else 0)
      ≡ count_accepted rf' l + (if rf' == rf then accepted_in paths else 0)
unfolding put_dest known_at
count-put_dest rf' rf key paths [] = ground arith
count-put_dest rf' rf key paths (d ∷ l) = ground (arith, count-put_dest rf' rf key paths l)

count-delete_dest :
    (rf' rf key : ℕ) (l : List Dest)
    → count_accepted rf' (delete_dest rf key l)
        + (if rf' == rf then accepted_in (known_at rf key l) else 0)
      ≡ count_accepted rf' l
unfolding delete_dest known_at
count-delete_dest rf' rf key [] = ground arith
count-delete_dest rf' rf key (d ∷ l) = ground (arith, count-delete_dest rf' rf key l)

-- What was found in a list stands there.
abbrev Stands : List RoutePath → Option (ℕ × RoutePath) → Type 0
Stands l none = Unit
Stands l (some (i, p)) = get_elem? l i ≡ some p

entry_at-Stands : (l : List RoutePath) (o : Option ℕ) → Stands l (entry_at l o)
unfolding entry_at
entry_at-Stands l none = tt
entry_at-Stands l (some i) = at (get_elem? l i) refl
  where
    at : (o : Option RoutePath) → get_elem? l i ≡ o → Stands l (do p ← o; some (i, p))
    at none e = tt
    at (some p) e = e

abbrev IsStored : List RoutePath → Stored → Type 0
IsStored l r = pos (accepted_in r.paths) ≡ pos (accepted_in l) +ℤ r.change

store_withdraw-none :
    (path : RoutePath) (l : List RoutePath) → IsStored l (store_withdraw path l none)
unfolding store_withdraw
store_withdraw-none path l = omega int_laws

store_withdraw-some :
    (path : RoutePath) (l : List RoutePath) (i : ℕ) (p : RoutePath)
    → get_elem? l i ≡ some p
    → IsStored l (store_withdraw path l (some (i, p)))
unfolding store_withdraw ◌+ℤ◌
store_withdraw-some path l i p e = ground (arith, accepted_in-remove_at i l p e)

store_update-none :
    (pkt : Packet) (path : RoutePath) (l : List RoutePath)
    → IsStored l (store_update pkt path l none)
unfolding store_update ◌+ℤ◌
store_update-none pkt path l = ground (arith, accepted_in-snoc l path)

replaced_count :
    (l : List RoutePath) (i : ℕ) (old q : RoutePath)
    → get_elem? l i ≡ some old
    → pos (accepted_in (set l i q)) ≡ pos (accepted_in l) +ℤ count_change old.rejected q.rejected
unfolding ◌+ℤ◌ count_change
replaced_count l i old q e = elim (Bool-cases old.rejected) [
  | inl was ↦ elim (Bool-cases q.rejected) [
    | inl is ↦ ground (arith, was, is, accepted_in-set i l old q e)
    | inr is ↦ ground (arith, was, is, accepted_in-set i l old q e)
  ]
  | inr was ↦ elim (Bool-cases q.rejected) [
    | inl is ↦ ground (arith, was, is, accepted_in-set i l old q e)
    | inr is ↦ ground (arith, was, is, accepted_in-set i l old q e)
  ]
]

store_update-some :
    (pkt : Packet) (path : RoutePath) (l : List RoutePath) (i : ℕ) (p : RoutePath)
    → get_elem? l i ≡ some p
    → IsStored l (store_update pkt path l (some (i, p)))
unfolding store_update
store_update-some pkt path l i p e = elim (Bool-cases (path_equal pkt p (some path))) [
  | inl same ↦ rw same (replaced_count l i p (set_timestamp path p.info.timestamp) e)
  | inr other ↦ rw other (replaced_count l i p path e)
]

store_withdraw-IsStored :
    (path : RoutePath) (l : List RoutePath) (o : Option (ℕ × RoutePath))
    → Stands l o
    → IsStored l (store_withdraw path l o)
store_withdraw-IsStored path l none h = store_withdraw-none path l
store_withdraw-IsStored path l (some (i, p)) h = store_withdraw-some path l i p h

store_update-IsStored :
    (pkt : Packet) (path : RoutePath) (l : List RoutePath) (o : Option (ℕ × RoutePath))
    → Stands l o
    → IsStored l (store_update pkt path l o)
store_update-IsStored pkt path l none h = store_update-none pkt path l
store_update-IsStored pkt path l (some (i, p)) h = store_update-some pkt path l i p h

store-IsStored :
    (pkt : Packet) (path : RoutePath) (l : List RoutePath) → IsStored l (store pkt path l)
unfolding store
store-IsStored pkt path l =
    either _ _ path.is_withdraw (store_withdraw-IsStored path l found stands)
      (store_update-IsStored pkt path l found stands)
  where
    found : Option (ℕ × RoutePath)
    found = entry_at l (index_of (path_id path) l)

    stands : Stands l found
    stands = entry_at-Stands l (index_of (path_id path) l)

    either :
        (x y : Stored) (b : Bool) → IsStored l x → IsStored l y → IsStored l (if b then x else y)
    either x y true h k = h
    either x y false h k = k

-- The destinations after one path.
abbrev after : RoutePath → List RoutePath → Stored → List Dest → List Dest
after path known stored l =
    if emptied path known stored.paths
    then delete_dest path.info.nlri.family path.info.nlri.key l
    else put_dest path.info.nlri.family path.info.nlri.key stored.paths l

emptied-zero :
    (path : RoutePath) (known paths : List RoutePath)
    → emptied path known paths ≡ true
    → accepted_in paths ≡ 0
emptied-zero path known [] e = refl
emptied-zero path known (x ∷ l) e = ground arith

count-after :
    (rf : ℕ) (path : RoutePath) (stored : Stored) (l : List Dest)
    → count_accepted rf (after path (known_at path.info.nlri.family path.info.nlri.key l) stored l)
        + (if rf == path.info.nlri.family
            then accepted_in (known_at path.info.nlri.family path.info.nlri.key l)
            else 0)
      ≡ count_accepted rf l + (if rf == path.info.nlri.family then accepted_in stored.paths else 0)
count-after rf path stored l =
    let f = path.info.nlri.family in
    let k = path.info.nlri.key in
    elim (Bool-cases (emptied path (known_at f k l) stored.paths)) [
      | inl e ↦ rw e (
          ground
            (arith, count-delete_dest rf f k l, emptied-zero path (known_at f k l) stored.paths e))
      | inr e ↦ rw e (count-put_dest rf f k stored.paths l)
    ]

shifted : (n m k s : ℕ) (d : ℤ) → pos s ≡ pos k +ℤ d → m + k ≡ n + s → pos n +ℤ d ≡ pos m
shifted n m k s d e h = eq_of_parts (pos n +ℤ d) (pos m) (parts (ap pos_part e) (ap neg_part e))
  where
    parts :
        s ≡ pos_part (pos k +ℤ d)
        → 0 ≡ neg_part (pos k +ℤ d)
        → pos_part (pos n +ℤ d) + neg_part (pos m) ≡ pos_part (pos m) + neg_part (pos n +ℤ d)
    parts a b = omega (arith, +ℤ_parts (pos n) d, +ℤ_parts (pos k) d, a, b)

add_count_lem :
    (f rf n m k s : ℕ) (d : ℤ) (accepted : ℕ → ℤ)
    → accepted rf ≡ pos n
    → pos s ≡ pos k +ℤ d
    → m + (if rf == f then k else 0) ≡ n + (if rf == f then s else 0)
    → add_count f d accepted rf ≡ pos m
add_count_lem f rf n m k s d accepted a e = by_family (rf == f)
  where
    by_family :
        (b : Bool)
        → m + (if b then k else 0) ≡ n + (if b then s else 0)
        → (if b then accepted rf +ℤ d else accepted rf) ≡ pos m
    by_family true h = ap (λ x. x +ℤ d) a ∙ shifted n m k s d e h
    by_family false h = a ∙ ap pos (omega (arith, h))

counted_after :
    (pkt : Packet) (path : RoutePath) (adj : AdjRib) (rf : ℕ)
    → IsCounted adj
    → (let known = known_at path.info.nlri.family path.info.nlri.key adj.dests in
        add_count path.info.nlri.family (store pkt path known).change adj.accepted rf
        ≡ pos (count_accepted rf (after path known (store pkt path known) adj.dests)))
counted_after pkt path adj rf c =
    let known = known_at path.info.nlri.family path.info.nlri.key adj.dests in
    let stored = store pkt path known in
    add_count_lem path.info.nlri.family rf (count_accepted rf adj.dests)
      (count_accepted rf (after path known stored adj.dests)) (accepted_in known)
      (accepted_in stored.paths) stored.change adj.accepted (c rf) (store-IsStored pkt path known)
      (count-after rf path stored adj.dests)

-- `Update` with one path keeps every count that of the accepted paths.
pub update_one-IsCounted :
    (pkt : Packet) (path : RoutePath) (adj : AdjRib)
    → IsCounted adj
    → has path.info.nlri.family adj.families ≡ true
    → (adj' : AdjRib) × (update_one pkt path adj ≡ some adj')
      × IsCounted adj'
      × (adj'.families ≡ adj.families)
unfolding update_one
update_one-IsCounted pkt path adj c h = elim (Bool-cases path.info.eor) [
  | inl e ↦ (adj, rw e refl, c, refl)
  | inr e ↦
      let known = known_at path.info.nlri.family path.info.nlri.key adj.dests in
      let stored = store pkt path known in
      (
        record adj {
          accepted = add_count path.info.nlri.family stored.change adj.accepted;
          dests = after path known stored adj.dests;
        },
        rw (e, h) refl,
        λ rf. counted_after pkt path adj rf c,
        refl,
      )
]

-- `Update` of paths in families that have a table does not panic, and keeps every count that of the
-- accepted paths.
pub update-IsCounted :
    (pkt : Packet) (l : List RoutePath) (adj : AdjRib)
    → IsCounted adj
    → All (λ p. has p.info.nlri.family adj.families ≡ true) l
    → (adj' : AdjRib) × (update pkt l adj ≡ some adj') × IsCounted adj'
unfolding update
update-IsCounted pkt [] adj c h = (adj, refl, c)
update-IsCounted pkt (p ∷ l) adj c h =
    let (next, e, c', same) = update_one-IsCounted pkt p adj c h.0 in
    let known = subst (λ fs. All (λ q. has q.info.nlri.family fs ≡ true) l) (sym same) h.1 in
    let (adj', e', c'') = update-IsCounted pkt l next c' known in (adj', rw e e', c'')
