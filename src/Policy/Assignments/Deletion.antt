-- ===== src/Policy/Assignments/Deletion.antt =====
-- `DeletePolicy` of internal/pkg/table/policy.go: the assignments that it keeps.
use goplane.Prelude.{
  ℕ, Bool, true, false, List, [], ◌∷◌, Option, none, some, ◌≡◌, refl, sym, ap, ◌∙◌, ◌==◌, not,
  if◌then◌else◌, keep, any, All, Bool-cases, inl, inr,
}
use goplane.Policy.Actions.{Statement}
use goplane.Policy.Edit.{done, refused}
use goplane.Policy.Assignments.{
  direction_export, PolicyRef, Assignment, RoutingPolicy, get_policy, find_policy, delete_unused,
  delete_policy, delete_found, tidied, without_policy, without_statements, in_use, statements_of,
  statement_in_use,
}
use goplane.Policy.Assignments.Fresh.{done-injective, find_policy-name}

either_state :
    (b : Bool) (r s : RoutingPolicy) (m : List (ℕ × Assignment))
    → r.assignment_map ≡ m
    → s.assignment_map ≡ m
    → (if b then r else s).assignment_map ≡ m
either_state true r s m h k = h
either_state false r s m h k = k

delete_unused-assignments :
    (l : List Statement) (r : RoutingPolicy) → (delete_unused l r).assignment_map ≡ r.assignment_map
unfolding delete_unused
delete_unused-assignments [] r = refl
delete_unused-assignments (st ∷ l) r =
    delete_unused-assignments l _
    ∙ either_state (statement_in_use st.name r) r _ r.assignment_map refl refl

delete_unused-policies :
    (l : List Statement) (r : RoutingPolicy) → (delete_unused l r).policy_map ≡ r.policy_map
unfolding delete_unused
delete_unused-policies [] r = refl
delete_unused-policies (st ∷ l) r = delete_unused-policies l _ ∙ same (statement_in_use st.name r)
  where
    same :
        (b : Bool)
        → (if b then r else record r {
          statement_map = keep (λ x. not (x.name == st.name)) r.statement_map;
        }).policy_map
          ≡ r.policy_map
    same true = refl
    same false = refl

tidied-assignments :
    (preserve : Bool) (y : PolicyRef) (r : RoutingPolicy)
    → (tidied preserve y r).assignment_map ≡ r.assignment_map
tidied-assignments true y r = refl
tidied-assignments false y r = delete_unused-assignments (statements_of r y) r

tidied-policies :
    (preserve : Bool) (y : PolicyRef) (r : RoutingPolicy)
    → (tidied preserve y r).policy_map ≡ r.policy_map
tidied-policies true y r = refl
tidied-policies false y r = delete_unused-policies (statements_of r y) r

found-assignments :
    (all used preserve : Bool) (stmts : List Statement) (y : PolicyRef) (r r' : RoutingPolicy)
    → delete_found all used preserve stmts y r ≡ done r'
    → r'.assignment_map ≡ r.assignment_map
unfolding delete_found
found-assignments true true preserve stmts y r r' e = absurd cc
found-assignments true false preserve stmts y r r' e =
    ap (λ (x : RoutingPolicy). x.assignment_map) (sym (done-injective e))
    ∙ tidied-assignments preserve y (without_policy y.name r)
found-assignments false used preserve stmts y r r' e =
    ap (λ (x : RoutingPolicy). x.assignment_map) (sym (done-injective e))
    ∙ tidied-assignments preserve y (without_statements y stmts r)

pub dropped-assignments :
    (name : ℕ) (stmts : List Statement) (all preserve : Bool) (active_id : List ℕ)
    (r r' : RoutingPolicy)
    → delete_policy name stmts all preserve active_id r ≡ done r'
    → r'.assignment_map ≡ r.assignment_map
unfolding delete_policy
dropped-assignments name stmts all preserve active_id r r' e =
    by_found (find_policy name r.policy_map) e
  where
    by_found :
        (o : Option PolicyRef)
        → elim o [
          | none ↦ refused
          | some y ↦ delete_found all (in_use name active_id r) preserve stmts y r
        ]
          ≡ done r'
        → r'.assignment_map ≡ r.assignment_map
    by_found none e = absurd cc
    by_found (some y) e = found-assignments all (in_use name active_id r) preserve stmts y r r' e

find_policy-keep :
    (name : ℕ) (m : List PolicyRef) → find_policy name (keep (λ x. not (x.name == name)) m) ≡ none
unfolding find_policy
find_policy-keep name [] = refl
find_policy-keep name (x ∷ m) = elim (Bool-cases (x.name == name)) [
  | inl e ↦ simp (e) (find_policy-keep name m)
  | inr e ↦ simp (e) (find_policy-keep name m)
]

in_use-export :
    (name : ℕ) (ids : List ℕ) (r : RoutingPolicy)
    → All (λ id. any (λ y. name == y.name) (get_policy id direction_export r) ≡ false) ids
    → in_use name ids r ≡ false
unfolding in_use
in_use-export name [] r h = refl
in_use-export name (id ∷ ids) r h = simp (h.0) (in_use-export name ids r h.1)

-- A policy that is not assigned for the export of an active identifier is deleted, and the
-- assignments stay as they are: one that has the policy for import goes on using it.
pub delete_policy-import :
    (name : ℕ) (stmts : List Statement) (preserve : Bool) (active_id : List ℕ) (r : RoutingPolicy)
    (y : PolicyRef)
    → find_policy name r.policy_map ≡ some y
    → All (λ id. any (λ x. name == x.name) (get_policy id direction_export r) ≡ false) active_id
    → (r' : RoutingPolicy) × (delete_policy name stmts true preserve active_id r ≡ done r')
      × (find_policy name r'.policy_map ≡ none)
      × (r'.assignment_map ≡ r.assignment_map)
unfolding delete_policy delete_found
delete_policy-import name stmts preserve active_id r y found unused =
    let final = tidied preserve y (without_policy y.name r) in
    let e : delete_policy name stmts true preserve active_id r ≡ done final =
      ap
        (λ (o : Option PolicyRef). elim o [
          | none ↦ refused
          | some x ↦ delete_found true (in_use name active_id r) preserve stmts x r
        ])
        found
      ∙ ap (λ b. delete_found true b preserve stmts y r) (in_use-export name active_id r unused) in
    (
      final,
      e,
      ap (find_policy name) (tidied-policies preserve y (without_policy y.name r))
          ∙ ap (λ n. find_policy name (keep (λ x. not (x.name == n)) r.policy_map))
              (find_policy-name name r.policy_map y found)
          ∙ find_policy-keep name r.policy_map,
      dropped-assignments name stmts true preserve active_id r final e,
    )
