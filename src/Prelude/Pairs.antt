-- ===== src/Prelude/Pairs.antt =====
-- Predicates on the pairs of a list, and on two lists side by side.
use mathlib.Core.Path.{◌≡◌, subst, subst₂}
use mathlib.Core.Option.{some, some-injective}
use mathlib.Core.List.{List, [], ◌∷◌, ◌++◌, Permᴰ}
use Prim.Native.Nat.{ℕ, zero, suc}
use goplane.Prelude.Lists.{
  All, All-map, All-append, remove_at, All-remove_at, get_elem?, All-get_elem?,
}

module _ {ℓ κ} {A : Type ℓ} (R : A → A → Type κ) where
  abbrev pub AllPairs : List A → Type κ
  AllPairs [] = Unit
  AllPairs (x ∷ l) = All (R x) l × AllPairs l

module _ {ℓ} {A B : Type ℓ} (R : A → B → Type 0) where
  abbrev pub All2 : List A → List B → Type 0
  All2 [] [] = Unit
  All2 (x ∷ l) (y ∷ m) = R x y × All2 l m
  All2 _ _ = ⊥

module _ {ℓ κ} {A : Type ℓ} (P : A → Type κ) where
  pub All-perm : {l l' : List A} → Permᴰ l l' → All P l → All P l'
  All-perm Permᴰ.nil h = h
  All-perm (Permᴰ.cons e d) h = (subst P e h.0, All-perm d h.1)
  All-perm (Permᴰ.swap e e') h = (subst P e' h.1.0, (subst P e h.0, h.1.1))
  All-perm (Permᴰ.trans d d') h = All-perm d' (All-perm d h)

module _ {ℓ κ} {A : Type ℓ} (R : A → A → Type κ) where
  pub AllPairs-remove_at : (i : ℕ) (l : List A) → AllPairs R l → AllPairs R (remove_at i l)
  AllPairs-remove_at i [] h = h
  AllPairs-remove_at zero (x ∷ l) h = h.1
  AllPairs-remove_at (suc i) (x ∷ l) h = (All-remove_at (R x) i l h.0, AllPairs-remove_at i l h.1)

  pub AllPairs-snoc :
      (l : List A) (y : A) → AllPairs R l → All (λ x. R x y) l → AllPairs R (l ++ y ∷ [])
  AllPairs-snoc [] y h k = (tt, tt)
  AllPairs-snoc (x ∷ l) y h k =
      (All-append (R x) l (y ∷ []) h.0 (k.0, tt), AllPairs-snoc l y h.1 k.1)

  module _ (symm : (x y : A) → R x y → R y x) where
    pub AllPairs-perm : {l l' : List A} → Permᴰ l l' → AllPairs R l → AllPairs R l'
    AllPairs-perm Permᴰ.nil h = h
    AllPairs-perm (Permᴰ.cons {l₁ = l} {l₂ = l'} e d) h =
        (All-perm (R _) d (subst (λ x. All (R x) l) e h.0), AllPairs-perm d h.1)
    AllPairs-perm (Permᴰ.swap {a = a} {b = b} {a' = a'} {b' = b'} {l = l} e e') h = (
      (subst₂ R e' e (symm a b h.0.0), subst (λ x. All (R x) l) e' h.1.0),
      (subst (λ x. All (R x) l) e h.0.1, h.1.1),
    )
    AllPairs-perm (Permᴰ.trans d d') h = AllPairs-perm d' (AllPairs-perm d h)

    -- What is left after one element is out is related to that element.
    pub AllPairs-rest :
        (i : ℕ) (l : List A) (a : A)
        → AllPairs R l
        → get_elem? l i ≡ some a
        → All (R a) (remove_at i l)
    AllPairs-rest i [] a h at = tt
    AllPairs-rest zero (x ∷ l) a h at = subst (λ y. All (R y) l) (some-injective _ _ at) h.0
    AllPairs-rest (suc i) (x ∷ l) a h at =
        (symm x a (All-get_elem? (R x) l i a h.0 at), AllPairs-rest i l a h.1 at)

pub AllPairs-map {ℓ κ μ} :
    {A : Type ℓ} (R : A → A → Type κ) (S : A → A → Type μ) (l : List A)
    → ((a b : A) → R a b → S a b)
    → AllPairs R l
    → AllPairs S l
AllPairs-map R S [] f h = tt
AllPairs-map R S (x ∷ l) f h = (All-map (R x) (S x) l (f x) h.0, AllPairs-map R S l f h.1)

pub All-zip {ℓ κ μ ν} :
    {A : Type ℓ} (P : A → Type κ) (Q : A → Type μ) (R : A → Type ν) (l : List A)
    → ((a : A) → P a → Q a → R a)
    → All P l
    → All Q l
    → All R l
All-zip P Q R [] f h k = tt
All-zip P Q R (x ∷ l) f h k = (f x h.0 k.0, All-zip P Q R l f h.1 k.1)
