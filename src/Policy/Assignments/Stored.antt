-- ===== src/Policy/Assignments/Stored.antt =====
-- Storing in the map of assignments of internal/pkg/table/policy.go.
use goplane.Prelude.{ℕ, List, [], ◌∷◌, refl, ◌==◌, All, Bool-cases, inl, inr}
use goplane.Policy.Actions.{Verdict}
use goplane.Policy.Assignments.{
  PolicyDirection, direction_none, direction_import, direction_export, PolicyRef, Assignment,
  RoutingPolicy, assignment_of, put_assignment, or_new, with_policies, with_default, set_policy,
  set_default_policy, is_repeated,
}
use goplane.Policy.Assignments.Fresh.{IsFresh}

abbrev pub IsDistinct : Assignment → Type 0
IsDistinct a = IsFresh [] a.import_policies × IsFresh [] a.export_policies

abbrev pub AreDistinct : RoutingPolicy → Type 0
AreDistinct r = All (λ e. IsDistinct e.1) r.assignment_map

put_assignment-IsDistinct :
    (id : ℕ) (a : Assignment) (m : List (ℕ × Assignment))
    → IsDistinct a
    → All (λ e. IsDistinct e.1) m
    → All (λ e. IsDistinct e.1) (put_assignment id a m)
unfolding put_assignment
put_assignment-IsDistinct id a [] d h = (d, tt)
put_assignment-IsDistinct id a (e ∷ m) d h = elim (Bool-cases (e.0 == id)) [
  | inl f ↦ simp (f) (d, h.1)
  | inr f ↦ simp (f) (h.0, put_assignment-IsDistinct id a m d h.1)
]

pub assignment_of-IsDistinct :
    (id : ℕ) (m : List (ℕ × Assignment))
    → All (λ e. IsDistinct e.1) m
    → IsDistinct (or_new (assignment_of id m))
unfolding assignment_of is_repeated
assignment_of-IsDistinct id [] h = (refl, refl)
assignment_of-IsDistinct id (e ∷ m) h = elim (Bool-cases (e.0 == id)) [
  | inl f ↦ simp (f) h.0
  | inr f ↦ simp (f) (assignment_of-IsDistinct id m h.1)
]

pub set_policy-AreDistinct :
    (id : ℕ) (dir : PolicyDirection) (ps : List PolicyRef) (r : RoutingPolicy)
    → IsFresh [] ps
    → AreDistinct r
    → AreDistinct (set_policy id dir ps r)
unfolding set_policy with_policies
set_policy-AreDistinct id dir ps r f h =
    put_assignment-IsDistinct id _ r.assignment_map (by_direction dir) h
  where
    old : IsDistinct (or_new (assignment_of id r.assignment_map))
    old = assignment_of-IsDistinct id r.assignment_map h

    by_direction :
        (dir : PolicyDirection)
        → IsDistinct (with_policies dir ps (or_new (assignment_of id r.assignment_map)))
    by_direction direction_import = (f, old.1)
    by_direction direction_export = (old.0, f)
    by_direction direction_none = old

pub set_default_policy-AreDistinct :
    (id : ℕ) (dir : PolicyDirection) (v : Verdict) (r : RoutingPolicy)
    → AreDistinct r
    → AreDistinct (set_default_policy id dir v r)
unfolding set_default_policy with_default
set_default_policy-AreDistinct id dir v r h =
    put_assignment-IsDistinct id _ r.assignment_map (by_direction dir) h
  where
    old : IsDistinct (or_new (assignment_of id r.assignment_map))
    old = assignment_of-IsDistinct id r.assignment_map h

    by_direction :
        (dir : PolicyDirection)
        → IsDistinct (with_default dir v (or_new (assignment_of id r.assignment_map)))
    by_direction direction_import = old
    by_direction direction_export = old
    by_direction direction_none = old
