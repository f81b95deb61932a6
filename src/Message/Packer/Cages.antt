-- ===== src/Message/Packer/Cages.antt =====
-- The cages of `packerV4` of internal/pkg/table/message.go: lists of paths whose attributes have the
-- same bytes.
use mathlib.Core.List.Perm
use mathlib.Core.List.{Perm, perm_append_comm, perm_middle}
use goplane.Prelude.{
  ℕ, Bool, true, List, [], ◌∷◌, ◌++◌, ◌≡◌, refl, sym, ◌∙◌, arith, ◌==◌, ◌+◌, ◌≤◌, ◌<◌, length, All,
  All-append, Bool-cases, inl, inr, length-append,
}
use goplane.RoutePath.{RoutePath}
use goplane.RoutePath.Attrs.{get_path_attrs}
use goplane.Message.Packer.{
  Codec, Cage, bytes_of, attrs_len, nlri_size, same_bytes, add_to_cages, add_to_hashmap,
}

pub same_bytes-eq : (xs ys : List ℕ) → same_bytes xs ys ≡ true → xs ≡ ys
same_bytes-eq [] [] h = refl
same_bytes-eq [] (y ∷ ys) h = cc
same_bytes-eq (x ∷ xs) [] h = cc
same_bytes-eq (x ∷ xs) (y ∷ ys) h = ground (arith, same_bytes-eq xs ys)

abbrev pub path_bytes : Codec → RoutePath → List ℕ
path_bytes c p = bytes_of c (get_path_attrs p)

-- The path's attributes leave room for one NLRI in a message.
abbrev pub Fits : Codec → Bool → RoutePath → Type 0
Fits c add_path p = 23 + attrs_len c (get_path_attrs p) + nlri_size add_path ≤ 4096

abbrev pub held_in : List Cage → List RoutePath
held_in [] = []
held_in (cage ∷ l) = cage.paths ++ held_in l

abbrev pub held_by : List (ℕ × List Cage) → List RoutePath
held_by [] = []
held_by (e ∷ l) = held_in e.1 ++ held_by l

module _ (c : Codec) (add_path : Bool) where
  abbrev pub IsOf : List ℕ → RoutePath → Type 0
  IsOf b p = (path_bytes c p ≡ b) × Fits c add_path p

  abbrev pub IsCage : Cage → Type 0
  IsCage cage = (0 < length cage.paths) × All (IsOf cage.attrs_bytes) cage.paths

  abbrev pub IsMap : List (ℕ × List Cage) → Type 0
  IsMap = All (λ e. All IsCage e.1)

  pub IsCage-add_to_cages :
      (b : List ℕ) (p : RoutePath) (l : List Cage)
      → IsOf b p
      → All IsCage l
      → All IsCage (add_to_cages b p l)
  unfolding add_to_cages
  IsCage-add_to_cages b p [] h v = ((omega arith, (h, tt)), tt)
  IsCage-add_to_cages b p (cage ∷ l) h v = elim (Bool-cases (same_bytes cage.attrs_bytes b)) [
    | inr e ↦ rw e (v.0, IsCage-add_to_cages b p l h v.1)
    | inl e ↦
        let same : b ≡ cage.attrs_bytes = sym (same_bytes-eq cage.attrs_bytes b e) in
        rw e (
          (
            omega (arith, length-append cage.paths (p ∷ [])),
            All-append (IsOf cage.attrs_bytes) cage.paths (p ∷ []) v.0.1 ((h.0 ∙ same, h.1), tt),
          ),
          v.1,
        )
  ]

  pub IsMap-add_to_hashmap :
      (b : List ℕ) (p : RoutePath) (m : List (ℕ × List Cage))
      → IsOf b p
      → IsMap m
      → IsMap (add_to_hashmap b p m)
  unfolding add_to_hashmap
  IsMap-add_to_hashmap b p [] h v = (IsCage-add_to_cages b p [] h tt, tt)
  IsMap-add_to_hashmap b p (e ∷ m) h v = elim (Bool-cases (e.0 == p.attrs_hash)) [
    | inr n ↦ rw n (v.0, IsMap-add_to_hashmap b p m h v.1)
    | inl n ↦ rw n (IsCage-add_to_cages b p e.1 h v.0, v.1)
  ]

-- A path that is put behind one part of a list.
pub added_first {ℓ} :
    {A : Type ℓ} (a : A) (xs ys l : List A) → Perm xs (a ∷ ys) → Perm (xs ++ l) (a ∷ ys ++ l)
added_first a xs ys l h = Perm.append_right l h

pub added_rest {ℓ} :
    {A : Type ℓ} (a : A) (l xs ys : List A) → Perm xs (a ∷ ys) → Perm (l ++ xs) (a ∷ l ++ ys)
added_rest a l xs ys h = Perm.trans (Perm.append_left l h) (perm_middle l ys)

pub added_last {ℓ} : {A : Type ℓ} (a : A) (l : List A) → Perm (l ++ a ∷ []) (a ∷ l)
added_last a l = perm_append_comm l (a ∷ [])

pub add_to_cages-perm :
    (b : List ℕ) (p : RoutePath) (l : List Cage)
    → Perm (held_in (add_to_cages b p l)) (p ∷ held_in l)
unfolding add_to_cages
add_to_cages-perm b p [] = Perm.refl (p ∷ [])
add_to_cages-perm b p (cage ∷ l) = elim (Bool-cases (same_bytes cage.attrs_bytes b)) [
  | inl e ↦
      rw e (added_first p (cage.paths ++ p ∷ []) cage.paths (held_in l) (added_last p cage.paths))
  | inr e ↦
      rw e (
        added_rest p cage.paths (held_in (add_to_cages b p l)) (held_in l)
          (add_to_cages-perm b p l))
]

pub add_to_hashmap-perm :
    (b : List ℕ) (p : RoutePath) (m : List (ℕ × List Cage))
    → Perm (held_by (add_to_hashmap b p m)) (p ∷ held_by m)
unfolding add_to_hashmap
add_to_hashmap-perm b p [] =
    added_first p (held_in (add_to_cages b p [])) [] [] (add_to_cages-perm b p [])
add_to_hashmap-perm b p (e ∷ m) = elim (Bool-cases (e.0 == p.attrs_hash)) [
  | inl n ↦ rw n (
      added_first p (held_in (add_to_cages b p e.1)) (held_in e.1) (held_by m)
        (add_to_cages-perm b p e.1))
  | inr n ↦ rw n (
      added_rest p (held_in e.1) (held_by (add_to_hashmap b p m)) (held_by m)
        (add_to_hashmap-perm b p m))
]
