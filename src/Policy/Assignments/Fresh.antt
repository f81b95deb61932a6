-- ===== src/Policy/Assignments/Fresh.antt =====
-- Lists of policies in which no name stands twice, and the loop of internal/pkg/table/policy.go that
-- collects one.
use goplane.Prelude.{
  ℕ, Bool, true, false, List, [], ◌∷◌, Option, none, some, ◌≡◌, ◌≢◌, refl, sym, ap, ◌∙◌, arith,
  ◌==◌, if◌then◌else◌, keep, Bool-cases, inl, inr, ==_iff,
}
use mathlib.Core.Path.{subst}
use goplane.RoutePath.{has}
use goplane.Policy.Edit.{Outcome, done, refused, panic, ◌>>>◌}
use goplane.Policy.Assignments.{PolicyRef, RoutingPolicy, find_policy, collect, is_repeated}

-- No name stands twice in a list of policies, nor in `seen`.
abbrev pub IsFresh : List ℕ → List PolicyRef → Type 0
IsFresh seen l = is_repeated seen l ≡ false

pub done-injective {ℓ} : {A : Type ℓ} {a b : A} → done a ≡ done b → a ≡ b
done-injective {A} {a} {b} e = ap or_given e
  where
    or_given : Outcome A → A
    or_given (done x) = x
    or_given refused = a
    or_given panic = a

-- The loop was left with a result.
pub collected :
    (o : Outcome (List PolicyRef)) (f : List PolicyRef → Outcome RoutingPolicy) (r : RoutingPolicy)
    → (o >>> f) ≡ done r
    → (ps : List PolicyRef) × (o ≡ done ps) × (f ps ≡ done r)
collected (done ps) f r e = (ps, refl, e)
collected refused f r e = absurd cc
collected panic f r e = absurd cc

pub find_policy-name :
    (name : ℕ) (m : List PolicyRef) (p : PolicyRef) → find_policy name m ≡ some p → p.name ≡ name
unfolding find_policy
find_policy-name name [] p e = cc
find_policy-name name (x ∷ m) p e = elim (Bool-cases (x.name == name)) [
  | inl f ↦
      let same : some x ≡ some p = ap (λ b. if b then some x else find_policy name m) (sym f) ∙ e in
      let one : x ≡ p = cc in ap (λ (q : PolicyRef). q.name) (sym one) ∙ (==_iff x.name name).0 f
  | inr f ↦
      find_policy-name name m p (ap (λ b. if b then some x else find_policy name m) (sym f) ∙ e)
]

IsFresh-cons :
    (seen : List ℕ) (p : PolicyRef) (l : List PolicyRef)
    → has p.name seen ≡ false
    → IsFresh (p.name ∷ seen) l
    → IsFresh seen (p ∷ l)
unfolding is_repeated
IsFresh-cons seen p l n h = ap (λ b. if b then true else is_repeated (p.name ∷ seen) l) n ∙ h

refused-not_done : {ps : List PolicyRef} → refused ≢ done ps
refused-not_done e = cc

-- What the loop collects has no name twice.
collect-step :
    (seen : List ℕ) (name : ℕ) (o : Option PolicyRef) (b : Bool) (rest : Outcome (List PolicyRef))
    (ps : List PolicyRef)
    → ((p : PolicyRef) → o ≡ some p → p.name ≡ name)
    → has name seen ≡ b
    → ((qs : List PolicyRef) → rest ≡ done qs → IsFresh (name ∷ seen) qs)
    → elim o [ none ↦ refused | some p ↦ if b then refused else rest >>> (λ qs. done (p ∷ qs)) ]
      ≡ done ps
    → IsFresh seen ps
collect-step seen name none b rest ps named f r e = cc
collect-step seen name (some p) true rest ps named f r e = cc
collect-step seen name (some p) false refused ps named f r e = cc
collect-step seen name (some p) false panic ps named f r e = cc
collect-step seen name (some p) false (done qs) ps named f r e =
    let n : p.name ≡ name = named p refl in
    subst (IsFresh seen) (done-injective e) (
      IsFresh-cons seen p qs (ap (λ x. has x seen) n ∙ f)
        (subst (λ x. IsFresh (x ∷ seen) qs) (sym n) (r qs refl)))

pub collect-IsFresh :
    (m : List PolicyRef) (seen names : List ℕ) (ps : List PolicyRef)
    → collect m seen names ≡ done ps
    → IsFresh seen ps
unfolding collect
collect-IsFresh m seen [] ps e =
    subst (IsFresh seen) (done-injective e) (unfold is_repeated in refl)
collect-IsFresh m seen (name ∷ l) ps e =
    collect-step seen name (find_policy name m) (has name seen) (collect m (name ∷ seen) l) ps
      (find_policy-name name m) refl (collect-IsFresh m (name ∷ seen) l) e

-- Fewer names seen and fewer policies leave a list without repetitions.
abbrev AreIn : List ℕ → List ℕ → Type 0
AreIn s s' = (n : ℕ) → has n s' ≡ false → has n s ≡ false

AreIn-cons : (a : ℕ) (s s' : List ℕ) → AreIn s s' → AreIn (a ∷ s) (a ∷ s')
AreIn-cons a s s' h n f = elim (Bool-cases (a == n)) [
  | inl e ↦
      ap (λ b. if b then true else has n s) e ∙ sym (ap (λ b. if b then true else has n s') e) ∙ f
  | inr e ↦
      ap (λ b. if b then true else has n s) e
      ∙ h n (ap (λ b. if b then true else has n s') (sym e) ∙ f)
]

AreIn-later : (a : ℕ) (s s' : List ℕ) → AreIn s s' → AreIn s (a ∷ s')
AreIn-later a s s' h n f = h n (ground (arith, f))

IsFresh-parts :
    (seen : List ℕ) (p : PolicyRef) (l : List PolicyRef)
    → IsFresh seen (p ∷ l)
    → (has p.name seen ≡ false) × IsFresh (p.name ∷ seen) l
unfolding is_repeated
IsFresh-parts seen p l h = (ground (arith, h), ground (arith, h))

pub keep-IsFresh :
    (q : PolicyRef → Bool) (s s' : List ℕ) (l : List PolicyRef)
    → AreIn s s'
    → IsFresh s' l
    → IsFresh s (keep q l)
keep-IsFresh q s s' [] i h = unfold is_repeated in refl
keep-IsFresh q s s' (p ∷ l) i h =
    let (n, rest) = IsFresh-parts s' p l h in
    elim (Bool-cases (q p)) [
      | inl e ↦ simp (e) (
          IsFresh-cons s p (keep q l) (i p.name n)
            (keep-IsFresh q (p.name ∷ s) (p.name ∷ s') l (AreIn-cons p.name s s' i) rest))
      | inr e ↦ simp (e) (keep-IsFresh q s (p.name ∷ s') l (AreIn-later p.name s s' i) rest)
    ]
