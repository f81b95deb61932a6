-- ===== src/Destination/Calculate/Valid.antt =====
-- `Calculate` of internal/pkg/table/destination.go as a whole.
use mathlib.Core.Path.{subst}
use mathlib.Core.List.{Permᴰ, Memᴰ}
use goplane.Prelude.{
  ℕ, true, false, List, [], ◌∷◌, ◌++◌, some, ◌≡◌, refl, arith, sym, length, ◌+◌, ◌*◌, ◌≤◌, ◌^◌, All,
  AllPairs, All2, All-perm, AllPairs-perm, inl, inr, ap, ◌∙◌,
}
use goplane.Bgp.{Packet}
use goplane.Bitmap.{Bitmap}
use goplane.RoutePath.{RoutePath, set_path_local_id}
use goplane.Destination.{SelectionOptions}
use goplane.Destination.Best.{compute_known_best_path_lem, RanksFirst}
use goplane.Destination.Rank.{HasRouterId}
use goplane.Destination.Calculate.{
  Destination, Update, local_id, matches, assign_ids, enter, calculate, explicit_withdraw,
  implicit_withdraw, free_id,
}
use goplane.Destination.Calculate.Keys.{
  Differ, matches_symm, explicit_withdraw-Left, implicit_withdraw_cases,
}
use goplane.Destination.Calculate.Ids.{
  Given, keeps, gets, HasId, IdsDiffer, Assigned, assign_ids_lem,
}
use goplane.Destination.Calculate.Entered.{IsValid, IsIncoming, Entered, enter_total}

-- What does not speak of identifiers stays true when they are given.
Given-All {κ} :
    (P : RoutePath → Type κ) (b : Bitmap) (l l' : List RoutePath)
    → ((p : RoutePath) (id : ℕ) → P p → P (set_path_local_id p id))
    → All2 (Given b) l l'
    → All P l
    → All P l'
Given-All P b [] [] s g h = tt
Given-All P b (p ∷ l) (p' ∷ l') s g h = (one g.0, Given-All P b l l' s g.1 h.1)
  where
    one : Given b p p' → P p'
    one (keeps e n) = subst P (sym e) h.0
    one (gets id z e f) = subst P (sym e) (s p id h.0)
Given-All P b [] (x ∷ l') s g h = absurd g
Given-All P b (x ∷ l) [] s g h = absurd g

-- The same of the paths that a path is compared with.
Given-Differ :
    (b : Bitmap) (l l' : List RoutePath)
    → All2 (Given b) l l'
    → AllPairs Differ l
    → AllPairs Differ l'
unfolding matches
Given-Differ b [] [] g h = tt
Given-Differ b (p ∷ l) (p' ∷ l') g h =
    (Given-All (Differ p') b l l' (λ q id d. d) g.1 (one g.0), Given-Differ b l l' g.1 h.1)
  where
    one : Given b p p' → All (Differ p') l
    one (keeps e n) = subst (λ x. All (Differ x) l) (sym e) h.0
    one (gets id z e f) = subst (λ x. All (Differ x) l) (sym e) h.0
Given-Differ b [] (x ∷ l') g h = absurd g
Given-Differ b (x ∷ l) [] g h = absurd g

Differ-symm : (p q : RoutePath) → Differ p q → Differ q p
Differ-symm p q d = matches_symm q p ∙ d

IdsDiffer-symm : (p q : RoutePath) → IdsDiffer p q → IdsDiffer q p
IdsDiffer-symm p q h e = h (sym e)

-- There is room for an identifier for each path, as a uint32.
abbrev pub HasRoom : Destination → Type 0
HasRoom d = (length d.local_id_map + length d.known_path_list + 1) * 64 ≤ 2 ^ 32

-- What `enter` leaves of a withdrawal.
entered_withdraw :
    (new : RoutePath) (d : Destination)
    → IsValid d
    → new.is_withdraw ≡ true
    → (e : Destination) → enter new d ≡ some e
    → All (λ p. Differ p new) e.known_path_list
unfolding enter free_id
entered_withdraw new d v w e entered =
    let left = explicit_withdraw-Left new d.known_path_list v.keys_differ in
    let same : e.known_path_list ≡ (explicit_withdraw new d.known_path_list).rest = ground arith in
    rw same left.none_matches

Memᴰ-snoc {ℓ} : {A : Type ℓ} (l : List A) (a : A) → Memᴰ a (l ++ a ∷ [])
Memᴰ-snoc [] a = Memᴰ.head refl
Memᴰ-snoc (x ∷ l) a = Memᴰ.tail (Memᴰ-snoc l a)

-- An update stands at the end, under its own identifier or that of the path that it replaces.
entered_update :
    (new : RoutePath) (d : Destination)
    → IsValid d
    → IsIncoming new
    → new.is_withdraw ≡ false
    → (e : Destination) → enter new d ≡ some e
    → (id : ℕ) × Memᴰ (set_path_local_id new id) e.known_path_list
unfolding enter
entered_update new d v inc u e entered =
    let r = implicit_withdraw new d.known_path_list in
    let same : e.known_path_list ≡ r.rest ++ r.new ∷ [] = ground arith in
    elim (implicit_withdraw_cases new d.known_path_list inc.replaces) [
      | inl (eq, _) ↦
          let it : r.new ≡ new = ap (λ x. x.new) eq in
          (local_id new, rw same (rw it (Memᴰ-snoc r.rest new)))
      | inr (i, p, f, eq) ↦
          let it : r.new ≡ set_path_local_id new (local_id p) = ap (λ x. x.new) eq in
          (local_id p, rw same (rw it (Memᴰ-snoc r.rest (set_path_local_id new (local_id p)))))
    ]

Given-mem :
    (b : Bitmap) (l l' : List RoutePath) (new : RoutePath) (id : ℕ)
    → All2 (Given b) l l'
    → Memᴰ (set_path_local_id new id) l
    → (id' : ℕ) × Memᴰ (set_path_local_id new id') l'
Given-mem b (p ∷ l) (p' ∷ l') new id g (Memᴰ.head e) = one g.0
  where
    one : Given b p p' → (id' : ℕ) × Memᴰ (set_path_local_id new id') (p' ∷ l')
    one (keeps e' n) = (id, Memᴰ.head (e ∙ sym e'))
    one (gets id' z e' f) = (id', Memᴰ.head (ap (λ x. set_path_local_id x id') e ∙ sym e'))
Given-mem b (p ∷ l) (p' ∷ l') new id g (Memᴰ.tail m) =
    let (id', m') = Given-mem b l l' new id g.1 m in (id', Memᴰ.tail m')
Given-mem b (p ∷ l) [] new id g m = absurd g
Given-mem b [] _ new id g m = elim m [ ]

Memᴰ-perm {ℓ} : {A : Type ℓ} {a : A} {l l' : List A} → Permᴰ l l' → Memᴰ a l → Memᴰ a l'
Memᴰ-perm (Permᴰ.cons e d) (Memᴰ.head e') = Memᴰ.head (e' ∙ e)
Memᴰ-perm (Permᴰ.cons e d) (Memᴰ.tail m) = Memᴰ.tail (Memᴰ-perm d m)
Memᴰ-perm (Permᴰ.swap e e') (Memᴰ.head x) = Memᴰ.tail (Memᴰ.head (x ∙ e))
Memᴰ-perm (Permᴰ.swap e e') (Memᴰ.tail (Memᴰ.head x)) = Memᴰ.head (x ∙ e')
Memᴰ-perm (Permᴰ.swap e e') (Memᴰ.tail (Memᴰ.tail m)) = Memᴰ.tail (Memᴰ.tail m)
Memᴰ-perm Permᴰ.nil m = elim m [ ]
Memᴰ-perm (Permᴰ.trans d d') m = Memᴰ-perm d' (Memᴰ-perm d m)

module _ (pkt : Packet) (opts : SelectionOptions) (new : RoutePath) (d : Destination)
    (on : opts.disable_best_path_selection ≡ false) (v : IsValid d) (inc : IsIncoming new)
    (room : HasRoom d) where
  -- The result of `calculate`, with the list that was given identifiers and then sorted.
  pub record Calculated (e : Destination) (r : Destination × Update) : Type 0 where
    pub entered : enter new d ≡ some e
    pub entry : Entered d e
    pub assigned :
        Assigned e.local_id_map e.known_path_list
          (assign_ids e.local_id_map e.known_path_list).0
          (assign_ids e.local_id_map e.known_path_list).1
    pub bitmap : r.0.local_id_map ≡ (assign_ids e.local_id_map e.known_path_list).0
    pub sorted : Permᴰ (assign_ids e.local_id_map e.known_path_list).1 r.0.known_path_list
    pub first : RanksFirst r.0.known_path_list
    pub update :
        r.1
        ≡ record { known_path_list = r.0.known_path_list; old_known_path_list = d.known_path_list }

  pub calculate_runs :
      (e : Destination) × (r : Destination × Update) × (calculate pkt opts new d ≡ some r)
      × Calculated e r
  unfolding calculate
  calculate_runs =
      let (e, entered, t) = enter_total new d v inc in
      let a =
        assign_ids_lem e.local_id_map e.known_path_list t.words t.zero_taken
          (omega (arith, t.size, t.count)) t.pending t.pairs in
      let ids = assign_ids e.local_id_map e.known_path_list in
      let routers =
        Given-All HasRouterId e.local_id_map e.known_path_list ids.1 (λ p id h. h) a.given
          t.routers in
      let (l, best, first, perm) = compute_known_best_path_lem pkt opts ids.1 on routers in
      let r : Destination × Update = (
        record { known_path_list = l; local_id_map = ids.0 },
        record { known_path_list = l; old_known_path_list = d.known_path_list },
      ) in
      (
        e,
        r,
        ground (arith, entered, best),
        record {
          entered = entered;
          entry = t;
          assigned = a;
          bitmap = refl;
          sorted = perm;
          first = first;
          update = refl;
        },
      )

  -- A call of `calculate` on a valid destination does not panic. The destination stays valid: its
  -- paths have distinct identifiers, all taken in its bitmap and none zero, and no two have the same
  -- source and path identifier. The first path ranks highest, and the update holds both lists.
  pub calculate-IsValid :
      (r : Destination × Update) × (calculate pkt opts new d ≡ some r)
      × IsValid r.0
      × RanksFirst r.0.known_path_list
      × (r.1 ≡ record {
        known_path_list = r.0.known_path_list;
        old_known_path_list = d.known_path_list;
      })
  calculate-IsValid =
      let (e, r, ran, c) = calculate_runs in
      let ids = assign_ids e.local_id_map e.known_path_list in
      (
        r,
        ran,
        record {
          words = rw c.bitmap c.assigned.words;
          zero_taken = rw c.bitmap (c.assigned.kept 0 c.entry.zero_taken);
          have_ids = rw c.bitmap (All-perm (HasId ids.0) c.sorted c.assigned.have_ids);
          ids_differ = AllPairs-perm IdsDiffer IdsDiffer-symm c.sorted c.assigned.distinct;
          keys_differ = AllPairs-perm Differ Differ-symm c.sorted (
              Given-Differ e.local_id_map e.known_path_list ids.1 c.assigned.given
                c.entry.keys_differ);
          routers = All-perm HasRouterId c.sorted (
              Given-All HasRouterId e.local_id_map e.known_path_list ids.1 (λ p id h. h)
                c.assigned.given c.entry.routers);
        },
        c.first,
        c.update,
      )

  -- After a withdrawal the destination has no path of its source and path identifier.
  pub calculate-withdraw :
      new.is_withdraw ≡ true
      → (r : Destination × Update) × (calculate pkt opts new d ≡ some r)
        × All (λ p. Differ p new) r.0.known_path_list
  unfolding matches
  calculate-withdraw w =
      let (e, r, ran, c) = calculate_runs in
      let ids = assign_ids e.local_id_map e.known_path_list in
      let left = entered_withdraw new d v w e c.entered in
      (
        r,
        ran,
        All-perm (λ p. Differ p new) c.sorted
            (Given-All (λ p. Differ p new) e.local_id_map e.known_path_list ids.1 (λ p id h. h)
              c.assigned.given left),
      )

  -- After an update the destination has the new path, under some local identifier.
  pub calculate-update :
      new.is_withdraw ≡ false
      → (r : Destination × Update) × (calculate pkt opts new d ≡ some r)
        × ((id : ℕ) × Memᴰ (set_path_local_id new id) r.0.known_path_list)
  calculate-update u =
      let (e, r, ran, c) = calculate_runs in
      let ids = assign_ids e.local_id_map e.known_path_list in
      let (id, m) = entered_update new d v inc u e c.entered in
      let (id', m') = Given-mem e.local_id_map e.known_path_list ids.1 new id c.assigned.given m in
      (r, ran, (id', Memᴰ-perm c.sorted m'))
