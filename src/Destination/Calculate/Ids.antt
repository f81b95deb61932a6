-- ===== src/Destination/Calculate/Ids.antt =====
-- The local identifiers that `Calculate` of internal/pkg/table/destination.go gives out.
use mathlib.Core.Path.{subst}
use goplane.Prelude.{
  ℕ, zero, suc, true, List, [], ◌∷◌, some, ◌≡◌, refl, ◌≢◌, arith, ◌==◌, sym, All, All-map, AllPairs,
  All2, inl, inr, ◌⊎◌, Bool-cases, Option-cases, length, ◌+◌, ◌*◌, ◌≤◌, ◌<◌, ◌%◌, ◌^◌, ap, ◌∙◌,
}
use goplane.Bitmap.{Bitmap, get_flag, IsWordList, find_and_set_zero_bit}
use goplane.Bitmap.Alloc.{
  find_and_set_zero_bit_lem, find-expand, get_flag_bound, get_flag-expand, length-expand,
}
use goplane.RoutePath.{RoutePath, set_path_local_id}
use goplane.Destination.Calculate.{local_id, allocate, give_id, assign_ids}

abbrev pub Taken : Bitmap → ℕ → Type 0
Taken b i = get_flag b i ≡ some true

-- What `allocate` gives: an identifier that was not taken, and that is taken now, as are all others.
pub record IsFresh (b b' : Bitmap) (id : ℕ) : Type 0 where
  pub free : ¬ Taken b id
  pub taken : Taken b' id
  pub kept : (j : ℕ) → Taken b j → Taken b' j
  pub words : IsWordList b'
  pub grows : length b' ≤ length b + 1
  pub inside : id < length b' * 64

pub allocate_lem : (b : Bitmap) → IsWordList b → IsFresh b (allocate b).0 (allocate b).1
unfolding allocate
allocate_lem b h = elim (Option-cases (find_and_set_zero_bit b)) [
  | inr ((b', r), e) ↦
      let a = find_and_set_zero_bit_lem b b' r h e in
      rw (e, allocate)
        (record {
          free = λ t. ground (arith, a.lowest.clear, t);
          taken = a.taken;
          kept = λ j t.
              a.others j (λ same. ground (arith, a.lowest.clear, ap (get_flag b) same, t)) ∙ t;
          words = a.words;
          grows = omega (arith, a.size);
          inside = get_flag_bound b' r a.taken;
        })
  | inl full ↦
      let (b', e, a) = find-expand b h full in
      let n = length b * 64 in
      rw (full, e, allocate)
        (record {
          free = λ t. omega (arith, get_flag_bound b n t);
          taken = a.taken;
          kept = λ j t.
              let inside = get_flag_bound b j t in
              a.others j (λ same. omega (arith, same)) ∙ (get_flag-expand b j inside ∙ t);
          words = a.words;
          grows = omega (arith, a.size, length-expand b);
          inside = get_flag_bound b' n a.taken;
        })
]

-- A path keeps the identifier that it has, or gets one that was free.
pub data Given (b : Bitmap) (p p' : RoutePath) : Type 0 where
  keeps : p' ≡ p → 0 < local_id p → Given b p p'
  gets : (id : ℕ) → local_id p ≡ 0 → p' ≡ set_path_local_id p id → ¬ Taken b id → Given b p p'

-- Before: an identifier is zero, or taken in the bitmap.
abbrev pub Pending : Bitmap → RoutePath → Type 0
Pending b p = (local_id p ≡ 0) ⊎ Taken b (local_id p)

abbrev pub PendingPair : RoutePath → RoutePath → Type 0
PendingPair p q = (local_id p ≡ 0) ⊎ (local_id q ≡ 0) ⊎ (local_id p ≢ local_id q)

-- After: it is taken, and not zero.
abbrev pub HasId : Bitmap → RoutePath → Type 0
HasId b p = (0 < local_id p) × Taken b (local_id p)

abbrev pub IdsDiffer : RoutePath → RoutePath → Type 0
IdsDiffer p q = local_id p ≢ local_id q

record GivenOne (b : Bitmap) (p : RoutePath) (b' : Bitmap) (p' : RoutePath) : Type 0 where
  pub given : Given b p p'
  pub has_id : HasId b' p'
  pub kept : (j : ℕ) → Taken b j → Taken b' j
  pub words : IsWordList b'
  pub grows : length b' ≤ length b + 1

give_id_lem :
    (b : Bitmap) (p : RoutePath)
    → IsWordList b
    → Taken b 0
    → (length b + 1) * 64 ≤ 2 ^ 32
    → Pending b p
    → GivenOne b p (give_id b p).0 (give_id b p).1
unfolding give_id
give_id_lem b p h zero_taken room pending = elim (Bool-cases (local_id p == 0)) [
  | inl none_yet ↦
      let a = allocate_lem b h in
      let id = (allocate b).1 in
      let small : id % 2 ^ 32 ≡ id = omega (arith, a.inside, a.grows) in
      rw (none_yet, give_id)
        (rw small (record {
          given = gets id (ground arith) refl a.free;
          has_id = (positive id a.free, a.taken);
          kept = a.kept;
          words = a.words;
          grows = a.grows;
        }))
  | inr has ↦
      rw (has, give_id)
        (record {
          given = keeps refl (ground arith);
          has_id = (ground arith, ground arith);
          kept = λ j t. t;
          words = h;
          grows = omega arith;
        })
]
  where
    positive : (id : ℕ) → ¬ Taken b id → 0 < id
    positive zero free = absurd (free zero_taken)
    positive (suc id) free = omega arith

-- The identifier given to the first path is none of those that the others then have.
head_differs :
    (b b' : Bitmap) (p p' : RoutePath) (l l' : List RoutePath)
    → GivenOne b p b' p'
    → All (Pending b) l
    → All (PendingPair p) l
    → All2 (Given b') l l'
    → All (IdsDiffer p') l'
head_differs b b' p p' [] [] g h k a = tt
head_differs b b' p p' (q ∷ l) (q' ∷ l') g h k a =
    (differs g.given a.0 h.0 k.0, head_differs b b' p p' l l' g h.1 k.1 a.1)
  where
    differs : Given b p p' → Given b' q q' → Pending b q → PendingPair p q → IdsDiffer p' q'
    differs (keeps e n) (keeps e' n') pq pp same =
        omega (arith, same, ap local_id e, ap local_id e', pp)
    differs (gets id z e f) (keeps e' n') pq pp same = elim pq [
      | inl unset ↦ absurd (omega arith)
      | inr t ↦ f (subst (Taken b) (sym (ap local_id e') ∙ (sym same ∙ ap local_id e)) t)
    ]
    differs g' (gets id z e f) pq pp same = f (subst (Taken b') (same ∙ ap local_id e) g.has_id.1)
head_differs b b' p p' [] (x ∷ l') g h k a = absurd a
head_differs b b' p p' (x ∷ l) [] g h k a = absurd a

-- What `assign_ids` gives for all known paths.
pub record Assigned (b : Bitmap) (l : List RoutePath) (b' : Bitmap) (l' : List RoutePath)
    : Type 0 where
  pub given : All2 (Given b) l l'
  pub have_ids : All (HasId b') l'
  pub distinct : AllPairs IdsDiffer l'
  pub kept : (j : ℕ) → Taken b j → Taken b' j
  pub words : IsWordList b'

-- A path that is not taken later was not taken before.
All2-earlier :
    (b b' : Bitmap) (l l' : List RoutePath)
    → ((j : ℕ) → Taken b j → Taken b' j)
    → All2 (Given b') l l'
    → All2 (Given b) l l'
All2-earlier b b' [] [] k a = tt
All2-earlier b b' (p ∷ l) (p' ∷ l') k a = (earlier a.0, All2-earlier b b' l l' k a.1)
  where
    earlier : Given b' p p' → Given b p p'
    earlier (keeps e n) = keeps e n
    earlier (gets id z e f) = gets id z e (λ t. f (k id t))
All2-earlier b b' [] (x ∷ l') k a = absurd a
All2-earlier b b' (x ∷ l) [] k a = absurd a

pub assign_ids_lem :
    (b : Bitmap) (l : List RoutePath)
    → IsWordList b
    → Taken b 0
    → (length b + length l) * 64 ≤ 2 ^ 32
    → All (Pending b) l
    → AllPairs PendingPair l
    → Assigned b l (assign_ids b l).0 (assign_ids b l).1
unfolding assign_ids
assign_ids_lem b [] h z room pending pairs = record {
  given = tt;
  have_ids = tt;
  distinct = tt;
  kept = λ j t. t;
  words = h;
}
assign_ids_lem b (p ∷ l) h z room pending pairs =
    let g = give_id_lem b p h z (omega arith) pending.0 in
    let r = give_id b p in
    let later =
      All-map (Pending b) (Pending r.0) l
        (λ q. elim [ inl e ↦ inl e | inr t ↦ inr (g.kept (local_id q) t) ]) pending.1 in
    let rest = assign_ids_lem r.0 l g.words (g.kept 0 z) (omega (arith, g.grows)) later pairs.1 in
    record {
      given = (g.given, All2-earlier b r.0 l (assign_ids r.0 l).1 g.kept rest.given);
      have_ids = ((g.has_id.0, rest.kept (local_id r.1) g.has_id.1), rest.have_ids);
      distinct = (
        head_differs b r.0 p r.1 l (assign_ids r.0 l).1 g pending.1 pairs.0 rest.given,
        rest.distinct,
      );
      kept = λ j t. rest.kept j (g.kept j t);
      words = rest.words;
    }
