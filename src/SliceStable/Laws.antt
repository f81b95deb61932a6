-- ===== src/SliceStable/Laws.antt =====
-- What the insertion sort of `sort.SliceStable` gives, when the comparison need not be an order: it
-- has to answer, and to hold one way round wherever it fails the other way round.
use mathlib.Core.List.{Permᴰ}
use mathlib.Core.List.Permᴰ
use goplane.Prelude.{
  Bool, true, false, List, [], ◌∷◌, ◌++◌, Option, some, ◌≡◌, refl, ap, ◌∙◌, All, All-map, inl, inr,
  Bool-cases,
}
use goplane.SliceStable.{rev_onto, insert_back, insert_all, slice_stable}

module _ {ℓ κ} {A : Type ℓ} (R : A → A → Type κ) where
  -- `x` is related to the first element of the list.
  abbrev pub Heads : A → List A → Type κ
  Heads x [] = Unit
  Heads x (y ∷ l) = R x y

  -- Each element is related to the next.
  abbrev pub Chain : List A → Type κ
  Chain [] = Unit
  Chain (x ∷ l) = Heads x l × Chain l

module _ {ℓ κ} {A : Type ℓ} (less : A → A → Option Bool) (P : A → Type κ)
    (total : (x y : A) → P x → P y → (b : Bool) × (less x y ≡ some b))
    (flips : (x y : A) → less x y ≡ some false → less y x ≡ some true) where
  abbrev Less : A → A → Type 0
  Less x y = less x y ≡ some true

  -- The sorted part is kept from its right end.
  abbrev Over : A → A → Type 0
  Over x y = Less y x

  -- What one insertion gives.
  record Inserted (x : A) (l l' : List A) : Type (ℓ ⊔ κ) where
    pub chain : Chain Over l'
    pub all : All P l'
    pub perm : Permᴰ (x ∷ l) l'
    pub heads : (z : A) → Over z x → Heads Over z l → Heads Over z l'

  insert_back_lem :
      (x : A) (l : List A)
      → P x
      → All P l
      → Chain Over l
      → (l' : List A) × (insert_back less x l ≡ some l') × Inserted x l l'
  unfolding insert_back
  insert_back_lem x [] px h c = (
    x ∷ [],
    refl,
    record { chain = (tt, tt); all = (px, tt); perm = Permᴰ.refl (x ∷ []); heads = λ z zx _. zx },
  )
  insert_back_lem x (y ∷ l) px h c =
      let (l', e, i) = insert_back_lem x l px h.1 c.1 in
      let (b, answer) = total x y px h.0 in
      elim (Bool-cases b) [
        | inl moves ↦
            let e' : less x y ≡ some true = answer ∙ ap some moves in
            (
              y ∷ l',
              rw (e', e),
              record {
                chain = (i.heads y e' c.0, i.chain);
                all = (h.0, i.all);
                perm = Permᴰ.trans (Permᴰ.swap refl refl) (Permᴰ.cons refl i.perm);
                heads = λ z _ zy. zy;
              },
            )
        | inr stays ↦
            let e' : less x y ≡ some false = answer ∙ ap some stays in
            (
              x ∷ y ∷ l,
              rw e',
              record {
                chain = (flips x y e', c);
                all = (px, h);
                perm = Permᴰ.refl (x ∷ y ∷ l);
                heads = λ z zx _. zx;
              },
            )
      ]

  record Sorting (l l' : List A) : Type (ℓ ⊔ κ) where
    pub chain : Chain Over l'
    pub all : All P l'
    pub perm : Permᴰ l l'

  insert_all_lem :
      (sorted l : List A)
      → All P sorted
      → All P l
      → Chain Over sorted
      → (l' : List A) × (insert_all less sorted l ≡ some l') × Sorting (l ++ sorted) l'
  unfolding insert_all
  insert_all_lem sorted [] hs h c =
      (sorted, refl, record { chain = c; all = hs; perm = Permᴰ.refl sorted })
  insert_all_lem sorted (x ∷ l) hs h c =
      let (s', e, i) = insert_back_lem x sorted h.0 hs c in
      let (l', e', s) = insert_all_lem s' l i.all h.1 i.chain in
      (
        l',
        rw e e',
        record {
          chain = s.chain;
          all = s.all;
          perm =
              Permᴰ.trans (Permᴰ.symm (Permᴰ.middle x l sorted))
                (Permᴰ.trans (Permᴰ.append_left l i.perm) s.perm);
        },
      )

  -- The last element of the reversed list is before the first of what follows it.
  abbrev Links : List A → List A → Type 0
  Links [] acc = Unit
  Links (x ∷ l) acc = Heads Less x acc

  Links-cons : (x : A) (l acc : List A) → Heads Over x l → Links l (x ∷ acc)
  Links-cons x [] acc h = tt
  Links-cons x (y ∷ l) acc h = h

  rev_onto-Chain :
      (l acc : List A) → Chain Over l → Chain Less acc → Links l acc → Chain Less (rev_onto l acc)
  unfolding rev_onto
  rev_onto-Chain [] acc c d h = d
  rev_onto-Chain (x ∷ l) acc c d h = rev_onto-Chain l (x ∷ acc) c.1 (h, d) (Links-cons x l acc c.0)

  Links-nil : (l : List A) → Links l []
  Links-nil [] = tt
  Links-nil (x ∷ l) = tt

rev_onto-perm {ℓ} : {A : Type ℓ} (l acc : List A) → Permᴰ (l ++ acc) (rev_onto l acc)
unfolding rev_onto
rev_onto-perm [] acc = Permᴰ.refl acc
rev_onto-perm (x ∷ l) acc =
    Permᴰ.trans (Permᴰ.symm (Permᴰ.middle x l acc)) (rev_onto-perm l (x ∷ acc))

module _ {ℓ κ} {A : Type ℓ} (less : A → A → Option Bool) (P : A → Type κ)
    (total : (x y : A) → P x → P y → (b : Bool) × (less x y ≡ some b))
    (flips : (x y : A) → less x y ≡ some false → less y x ≡ some true) where
  -- The sort answers, with the same elements, and no element is less than its predecessor unless the
  -- predecessor is less than it as well.
  pub slice_stable_lem :
      (l : List A)
      → All P l
      → (l' : List A) × (slice_stable less l ≡ some l')
        × Chain (λ x y. less x y ≡ some true) l'
        × Permᴰ l l'
  unfolding slice_stable
  slice_stable_lem l h =
      let (r, e, s) = insert_all_lem less P total flips [] l tt h tt in
      (
        rev_onto r [],
        rw e,
        rev_onto-Chain less P total flips r [] s.chain tt (Links-nil less P total flips r),
        Permᴰ.trans (Permᴰ.symm (Permᴰ.append-nil l)) (
            Permᴰ.trans s.perm
              (Permᴰ.trans (Permᴰ.symm (Permᴰ.append-nil r)) (rev_onto-perm r []))),
      )

-- What relates each element to the next relates the first to all, where it is transitive.
pub Chain-first {ℓ κ} :
    {A : Type ℓ} (R : A → A → Type κ) (x : A) (l : List A)
    → ((a b c : A) → R a b → R b c → R a c)
    → Chain R (x ∷ l)
    → All (R x) l
Chain-first R x [] t c = tt
Chain-first R x (y ∷ l) t c =
    (c.0, All-map (R y) (R x) l (λ a ya. t x y a c.0 ya) (Chain-first R y l t c.1))

pub Chain-map {ℓ κ μ} :
    {A : Type ℓ} (R : A → A → Type κ) (S : A → A → Type μ) (l : List A)
    → ((a b : A) → R a b → S a b)
    → Chain R l
    → Chain S l
Chain-map R S [] f c = tt
Chain-map R S (x ∷ []) f c = (tt, tt)
Chain-map R S (x ∷ y ∷ l) f c = (f x y c.0, Chain-map R S (y ∷ l) f c.1)
