-- ===== src/Destination/Calculate/Entered.antt =====
-- A path entering a destination, before identifiers are given: `Calculate` of
-- internal/pkg/table/destination.go up to its loop.
use mathlib.Core.Path.{subst}
use goplane.Prelude.{
  ℕ, true, false, List, [], ◌∷◌, ◌++◌, some, ◌≡◌, refl, ◌≢◌, arith, ◌==◌, sym, All, All-map,
  All-append, All-remove_at, AllPairs, AllPairs-remove_at, AllPairs-snoc, AllPairs-rest,
  AllPairs-map, All-zip, length-remove_at, inl, inr, ◌⊎◌, Bool-cases, length, ◌+◌, ◌≤◌, ◌∙◌,
  get_elem?, All-get_elem?, remove_at, length-append, ◌&&◌, not,
}
use goplane.Bitmap.{Bitmap, IsWordList, unflag}
use goplane.Bitmap.Flags.{write_bit_total, get_flag-write_bit_ne}
use goplane.Bitmap.Alloc.{get_flag_bound}
use goplane.RoutePath.{RoutePath, set_path_local_id}
use goplane.Destination.Rank.{HasRouterId}
use goplane.Destination.Calculate.{Destination, local_id, enter, free_id}
use goplane.Destination.Calculate.Keys.{
  Differ, explicit_withdraw_cases, implicit_withdraw_cases, implicit_withdraw-distinct, without,
  AllPairs-without, All-without,
}
use goplane.Destination.Calculate.Ids.{Taken, Pending, PendingPair, HasId, IdsDiffer}

-- A destination between two calls of `Calculate`.
pub record IsValid (d : Destination) : Type 0 where
  pub words : IsWordList d.local_id_map
  pub zero_taken : Taken d.local_id_map 0
  pub have_ids : All (HasId d.local_id_map) d.known_path_list
  pub ids_differ : AllPairs IdsDiffer d.known_path_list
  pub keys_differ : AllPairs Differ d.known_path_list
  pub routers : All HasRouterId d.known_path_list

-- A path on its way in: no identifier yet, and not to be kept beside a path that it replaces.
pub record IsIncoming (new : RoutePath) : Type 0 where
  pub no_id : local_id new ≡ 0
  pub replaces : new.info.no_implicit_withdraw ≡ false
  pub router : HasRouterId new

pub record Entered (d e : Destination) : Type 0 where
  pub words : IsWordList e.local_id_map
  pub zero_taken : Taken e.local_id_map 0
  pub pending : All (Pending e.local_id_map) e.known_path_list
  pub pairs : AllPairs PendingPair e.known_path_list
  pub keys_differ : AllPairs Differ e.known_path_list
  pub routers : All HasRouterId e.known_path_list
  pub size : length e.local_id_map ≡ length d.local_id_map
  pub count : length e.known_path_list ≤ length d.known_path_list + 1

IdsDiffer-symm : (p q : RoutePath) → IdsDiffer p q → IdsDiffer q p
IdsDiffer-symm p q h e = h (sym e)

-- Freeing an identifier leaves the others.
record Freed (b : Bitmap) (id : ℕ) (b' : Bitmap) : Type 0 where
  pub words : IsWordList b'
  pub size : length b' ≡ length b
  pub others : (j : ℕ) → id ≢ j → Taken b j → Taken b' j

unflag_total :
    (b : Bitmap) (id : ℕ)
    → IsWordList b
    → Taken b id
    → (b' : Bitmap) × (unflag b id ≡ some b') × Freed b id b'
unfolding unflag
unflag_total b id h t =
    let (b', e, words, size, _) = write_bit_total false b id h (get_flag_bound b id t) in
    (
      b',
      e,
      record {
        words = words;
        size = size;
        others = λ j ne tj. get_flag-write_bit_ne false b id j b' e ne ∙ tj;
      },
    )

free_id_total :
    (w p : RoutePath) (b : Bitmap)
    → IsWordList b
    → HasId b p
    → (b' : Bitmap) × (free_id w (some p) b ≡ some b') × Freed b (local_id p) b'
unfolding free_id
free_id_total w p b h has = elim (Bool-cases (w.dropped && not (local_id p == 0))) [
  | inl frees ↦ let (b', e, f) = unflag_total b (local_id p) h has.1 in (b', rw frees e, f)
  | inr keeps ↦ (b, rw keeps, record { words = h; size = refl; others = λ j ne t. t })
]

differ_pending : (p q : RoutePath) → IdsDiffer p q → PendingPair p q
differ_pending p q h = inr (inr h)

-- Without a match a withdrawal changes nothing.
same_Entered : (d : Destination) → IsValid d → Entered d d
same_Entered d v = record {
  words = v.words;
  zero_taken = v.zero_taken;
  pending =
      All-map (HasId d.local_id_map) (Pending d.local_id_map) d.known_path_list (λ p h. inr h.1)
        v.have_ids;
  pairs = AllPairs-map IdsDiffer PendingPair d.known_path_list differ_pending v.ids_differ;
  keys_differ = v.keys_differ;
  routers = v.routers;
  size = refl;
  count = omega arith;
}

-- One path is out, and its identifier may be free.
removed_Entered :
    (d : Destination) (i : ℕ) (p : RoutePath) (b' : Bitmap)
    → IsValid d
    → get_elem? d.known_path_list i ≡ some p
    → Freed d.local_id_map (local_id p) b'
    → Entered d (record { known_path_list = remove_at i d.known_path_list; local_id_map = b' })
removed_Entered d i p b' v at f =
    let l = d.known_path_list in
    let has = All-get_elem? (HasId d.local_id_map) l i p v.have_ids at in
    let apart = AllPairs-rest IdsDiffer IdsDiffer-symm i l p v.ids_differ at in
    record {
      words = f.words;
      zero_taken = f.others 0 (λ e. omega (arith, has.0, e)) v.zero_taken;
      pending =
          All-zip (HasId d.local_id_map) (IdsDiffer p) (Pending b') (remove_at i l)
            (λ q h ne. inr (f.others (local_id q) ne h.1))
            (All-remove_at (HasId d.local_id_map) i l v.have_ids) apart;
      pairs =
          AllPairs-map IdsDiffer PendingPair (remove_at i l) differ_pending
            (AllPairs-remove_at IdsDiffer i l v.ids_differ);
      keys_differ = AllPairs-remove_at Differ i l v.keys_differ;
      routers = All-remove_at HasRouterId i l v.routers;
      size = f.size;
      count = omega (arith, length-remove_at i l);
    }

abbrev Enters : RoutePath → Destination → Type 0
Enters new d = (e : Destination) × (enter new d ≡ some e) × Entered d e

enter_withdrawal :
    (new : RoutePath) (d : Destination) → IsValid d → new.is_withdraw ≡ true → Enters new d
unfolding enter
enter_withdrawal new d v w = elim (explicit_withdraw_cases new d.known_path_list) [
  | inl (e, _) ↦ (d, unfold free_id in ground arith, same_Entered d v)
  | inr (i, p, at, m, e) ↦
      let has = All-get_elem? (HasId d.local_id_map) d.known_path_list i p v.have_ids at in
      let (b', freed, f) = free_id_total new p d.local_id_map v.words has in
      (
        record { known_path_list = remove_at i d.known_path_list; local_id_map = b' },
        ground arith,
        removed_Entered d i p b' v at f,
      )
]

-- The list of paths once the new one is in: it has no identifier, or that of the path that it
-- replaces.
added_Entered :
    (d : Destination) (new new' : RoutePath) (l : List RoutePath)
    → IsValid d
    → All (HasId d.local_id_map) l
    → AllPairs IdsDiffer l
    → All HasRouterId l
    → length l ≤ length d.known_path_list
    → HasRouterId new'
    → (local_id new' ≡ 0) ⊎ (Taken d.local_id_map (local_id new') × All (IdsDiffer new') l)
    → AllPairs Differ (l ++ new' ∷ [])
    → Entered d (record { known_path_list = l ++ new' ∷ []; local_id_map = d.local_id_map })
added_Entered d new new' l v ids apart routers count router id keys = record {
  words = v.words;
  zero_taken = v.zero_taken;
  pending =
      All-append (Pending d.local_id_map) l (new' ∷ [])
        (All-map (HasId d.local_id_map) (Pending d.local_id_map) l (λ q h. inr h.1) ids)
        (elim id [ inl z ↦ inl z | inr (t, _) ↦ inr t ], tt);
  pairs =
      AllPairs-snoc PendingPair l new' (AllPairs-map IdsDiffer PendingPair l differ_pending apart)
        (elim id [
          | inl z ↦
              All-map (HasId d.local_id_map) (λ q. PendingPair q new') l (λ q h. inr (inl z)) ids
          | inr (_, ne) ↦
              All-map (IdsDiffer new') (λ q. PendingPair q new') l
                (λ q h. inr (inr (IdsDiffer-symm new' q h))) ne
        ]);
  keys_differ = keys;
  routers = All-append HasRouterId l (new' ∷ []) routers (router, tt);
  size = refl;
  count = omega (arith, length-append l (new' ∷ []));
}

length-without-le : (new : RoutePath) (l : List RoutePath) → length (without new l) ≤ length l
unfolding without
length-without-le new [] = omega arith
length-without-le new (p ∷ l) = ground (arith, length-without-le new l)

enter_update :
    (new : RoutePath) (d : Destination)
    → IsValid d
    → IsIncoming new
    → new.is_withdraw ≡ false
    → Enters new d
unfolding enter
enter_update new d v inc w =
    let l = d.known_path_list in
    let m = d.local_id_map in
    let keys = implicit_withdraw-distinct new l inc.replaces v.keys_differ in
    let ids = All-without (HasId m) new l v.have_ids in
    let apart = AllPairs-without IdsDiffer new l v.ids_differ in
    let routers = All-without HasRouterId new l v.routers in
    let shorter = length-without-le new l in
    elim (implicit_withdraw_cases new l inc.replaces) [
      | inl (e, _) ↦ (
        record { known_path_list = without new l ++ new ∷ []; local_id_map = m },
        ground arith,
        added_Entered d new new (without new l) v ids apart routers shorter inc.router
            (inl inc.no_id) (rw e at keys),
      )
      | inr (i, p, f, e) ↦
          let new' = set_path_local_id new (local_id p) in
          let has = All-get_elem? (HasId m) l i p v.have_ids f.at in
          let others =
            subst (All (IdsDiffer p)) f.rest
              (AllPairs-rest IdsDiffer IdsDiffer-symm i l p v.ids_differ f.at) in
          (
            record { known_path_list = without new l ++ new' ∷ []; local_id_map = m },
            ground arith,
            added_Entered d new new' (without new l) v ids apart routers shorter inc.router
                (inr (has.1, others)) (rw e at keys),
          )
    ]

pub enter_total :
    (new : RoutePath) (d : Destination)
    → IsValid d
    → IsIncoming new
    → (e : Destination) × (enter new d ≡ some e) × Entered d e
enter_total new d v inc = elim (Bool-cases new.is_withdraw) [
  | inl w ↦ enter_withdrawal new d v w
  | inr u ↦ enter_update new d v inc u
]
