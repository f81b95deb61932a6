-- ===== src/Table/Lookup.antt =====
-- What is found in the map of destinations of internal/pkg/table/table.go after a change.
use mathlib.Core.Path.{subst}
use mathlib.Core.Option.{some-injective}
use goplane.Prelude.{
  ℕ, Bool, true, false, List, [], ◌∷◌, Option, none, some, ◌≡◌, ◌≢◌, refl, sym, ap, ◌∙◌, arith,
  ◌==◌, if◌then◌else◌, ◌&&◌, not, length, keep, All, Bool-cases, inl, inr, ==_refl,
}
use goplane.RoutePath.{RoutePath}
use goplane.Destination.Calculate.{Destination}
use goplane.Table.{get_destination, set_destination, delete_unused_dest, store_dest, taken_count}

pub get_destination-set_destination :
    (key : ℕ) (d : Destination) (l : List (ℕ × Destination))
    → get_destination key (set_destination key d l) ≡ some d
unfolding get_destination set_destination
get_destination-set_destination key d [] = ground (arith, ==_refl key)
get_destination-set_destination key d (e ∷ l) =
    ground (arith, ==_refl key, get_destination-set_destination key d l)

pub get_destination-set_ne :
    (key k : ℕ) (d : Destination) (l : List (ℕ × Destination))
    → k ≢ key
    → get_destination k (set_destination key d l) ≡ get_destination k l
unfolding get_destination set_destination
get_destination-set_ne key k d [] n = ground arith
get_destination-set_ne key k d (e ∷ l) n = ground (arith, get_destination-set_ne key k d l n)

abbrev without : ℕ → List (ℕ × Destination) → List (ℕ × Destination)
without key l = keep (λ e. not (e.0 == key)) l

get_destination-without :
    (key : ℕ) (l : List (ℕ × Destination)) → get_destination key (without key l) ≡ none
unfolding get_destination
get_destination-without key [] = refl
get_destination-without key (e ∷ l) = ground (arith, get_destination-without key l)

get_destination-without_ne :
    (key k : ℕ) (l : List (ℕ × Destination))
    → k ≢ key
    → get_destination k (without key l) ≡ get_destination k l
unfolding get_destination
get_destination-without_ne key k [] n = refl
get_destination-without_ne key k (e ∷ l) n = ground (arith, get_destination-without_ne key k l n)

abbrev pub known_of : Option Destination → List RoutePath
known_of none = []
known_of (some d) = d.known_path_list

empty_known : (l : List RoutePath) → (length l == 0) ≡ true → [] ≡ l
empty_known [] h = refl
empty_known (p ∷ l) h = ground arith

-- The stored paths are found at the key, also where their destination was deleted.
pub known_of-store_dest :
    (key : ℕ) (d : Destination) (l : List (ℕ × Destination))
    → known_of (get_destination key (store_dest key d l)) ≡ d.known_path_list
unfolding store_dest delete_unused_dest
known_of-store_dest key d l =
    by_length (length d.known_path_list == 0) refl
      (not (length d.local_id_map == 0) && not (taken_count d.local_id_map == 1))
  where
    stored : List (ℕ × Destination)
    stored = set_destination key d l

    by_length :
        (b : Bool)
        → (length d.known_path_list == 0) ≡ b
        → (c : Bool)
        → known_of
            (get_destination key (if b then (if c then stored else without key stored) else stored))
          ≡ d.known_path_list
    by_length true e false =
        ap known_of (get_destination-without key stored) ∙ empty_known d.known_path_list e
    by_length true e true = ap known_of (get_destination-set_destination key d l)
    by_length false e c = ap known_of (get_destination-set_destination key d l)

pub get_destination-store_ne :
    (key k : ℕ) (d : Destination) (l : List (ℕ × Destination))
    → k ≢ key
    → get_destination k (store_dest key d l) ≡ get_destination k l
unfolding store_dest delete_unused_dest
get_destination-store_ne key k d l n =
    by_length (length d.known_path_list == 0)
      (not (length d.local_id_map == 0) && not (taken_count d.local_id_map == 1))
  where
    stored : List (ℕ × Destination)
    stored = set_destination key d l

    by_length :
        (b c : Bool)
        → get_destination k (if b then (if c then stored else without key stored) else stored)
          ≡ get_destination k l
    by_length true false =
        get_destination-without_ne key k stored n ∙ get_destination-set_ne key k d l n
    by_length true true = get_destination-set_ne key k d l n
    by_length false c = get_destination-set_ne key k d l n

module _ {κ} (P : Destination → Type κ) where
  All-set_destination :
      (key : ℕ) (d : Destination) (l : List (ℕ × Destination))
      → P d
      → All (λ e. P e.1) l
      → All (λ e. P e.1) (set_destination key d l)
  unfolding set_destination
  All-set_destination key d [] h k = (h, tt)
  All-set_destination key d (e ∷ l) h k = elim (Bool-cases (e.0 == key)) [
    | inl f ↦ simp (f) (h, k.1)
    | inr f ↦ simp (f) (k.0, All-set_destination key d l h k.1)
  ]

  All-without :
      (key : ℕ) (l : List (ℕ × Destination)) → All (λ e. P e.1) l → All (λ e. P e.1) (without key l)
  All-without key [] k = tt
  All-without key (e ∷ l) k = elim (Bool-cases (e.0 == key)) [
    | inl f ↦ simp (f) (All-without key l k.1)
    | inr f ↦ simp (f) (k.0, All-without key l k.1)
  ]

  pub All-store_dest :
      (key : ℕ) (d : Destination) (l : List (ℕ × Destination))
      → P d
      → All (λ e. P e.1) l
      → All (λ e. P e.1) (store_dest key d l)
  unfolding store_dest delete_unused_dest
  All-store_dest key d l h k =
      by_length (length d.known_path_list == 0)
        (not (length d.local_id_map == 0) && not (taken_count d.local_id_map == 1))
    where
      stored : List (ℕ × Destination)
      stored = set_destination key d l

      by_length :
          (b c : Bool)
          → All (λ e. P e.1) (if b then (if c then stored else without key stored) else stored)
      by_length true false = All-without key stored (All-set_destination key d l h k)
      by_length true true = All-set_destination key d l h k
      by_length false c = All-set_destination key d l h k

  pub All-get_destination :
      (key : ℕ) (l : List (ℕ × Destination)) (d : Destination)
      → All (λ e. P e.1) l
      → get_destination key l ≡ some d
      → P d
  unfolding get_destination
  All-get_destination key [] d k e = absurd cc
  All-get_destination key (x ∷ l) d k e = elim (Bool-cases (x.0 == key)) [
    | inl f ↦
        let at : some x.1 ≡ some d =
          ap (λ b. if b then some x.1 else get_destination key l) (sym f) ∙ e in
        subst P (some-injective _ _ at) k.0
    | inr f ↦
        All-get_destination key l d k.1
          (ap (λ b. if b then some x.1 else get_destination key l) (sym f) ∙ e)
  ]
