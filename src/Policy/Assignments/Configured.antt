-- ===== src/Policy/Assignments/Configured.antt =====
-- What the configuration does to the assignments of internal/pkg/table/policy.go.
use mathlib.Core.Path.{subst}
use goplane.Prelude.{
  ℕ, Bool, true, false, List, [], ◌∷◌, ◌++◌, Option, none, some, ◌≡◌, refl, sym, ap, ◌∙◌, ◌||◌,
  if◌then◌else◌, map, set, All,
}
use goplane.Policy.{Condition}
use goplane.Policy.Actions.{Verdict, accept, Statement, Policy}
use goplane.Policy.Edit.{Outcome, done, refused, panic, ◌>>>◌}
use goplane.Policy.Assignments.{
  PolicyDirection, direction_none, direction_import, direction_export, PolicyRef, RoutingPolicy,
  set_default_policy, collect, find_policy, statements_of,
}
use goplane.Policy.Assignments.Config.{
  ApplyPolicy, default_from, get_assignment_from_config, assign_found, set_peer_direction,
  set_peer_policy, set_peer_policies, validate_statements, validate_policies, names_repeated,
  all_statements_of, store_policy, store_policies, global_rib_name, accept_by_default, reload,
  reset, fill_up, define_statements, add_statements, add_valid, add_policy,
}
use goplane.Policy.Assignments.Fresh.{IsFresh, done-injective, collect-IsFresh}
use goplane.Policy.Assignments.Stored.{
  IsDistinct, AreDistinct, set_policy-AreDistinct, set_default_policy-AreDistinct,
}

assign_found-AreDistinct :
    (id : ℕ) (dir : PolicyDirection) (o : Outcome (List PolicyRef)) (def : Verdict)
    (r : RoutingPolicy)
    → ((ps : List PolicyRef) → o ≡ done ps → IsFresh [] ps)
    → AreDistinct r
    → AreDistinct (assign_found id dir (o >>> (λ ps. done (ps, def))) r)
unfolding assign_found
assign_found-AreDistinct id dir (done ps) def r f h =
    set_policy-AreDistinct id dir ps (set_default_policy id dir def r) (f ps refl)
      (set_default_policy-AreDistinct id dir def r h)
assign_found-AreDistinct id dir refused def r f h = h
assign_found-AreDistinct id dir panic def r f h = h

set_peer_direction-AreDistinct :
    (id : ℕ) (c : ApplyPolicy) (dir : PolicyDirection) (r : RoutingPolicy)
    → AreDistinct r
    → AreDistinct (set_peer_direction id c dir r)
unfolding set_peer_direction get_assignment_from_config assign_found
set_peer_direction-AreDistinct id c direction_import r h =
    assign_found-AreDistinct id direction_import (collect r.policy_map [] c.import_policy_list)
      (default_from c.default_import_policy) r
      (collect-IsFresh r.policy_map [] c.import_policy_list) h
set_peer_direction-AreDistinct id c direction_export r h =
    assign_found-AreDistinct id direction_export (collect r.policy_map [] c.export_policy_list)
      (default_from c.default_export_policy) r
      (collect-IsFresh r.policy_map [] c.export_policy_list) h
set_peer_direction-AreDistinct id c direction_none r h = h

pub set_peer_policy-AreDistinct :
    (id : ℕ) (c : ApplyPolicy) (r : RoutingPolicy)
    → AreDistinct r
    → AreDistinct (set_peer_policy id c r)
unfolding set_peer_policy
set_peer_policy-AreDistinct id c r h =
    set_peer_direction-AreDistinct id c direction_export
      (set_peer_direction id c direction_import r)
      (set_peer_direction-AreDistinct id c direction_import r h)

set_peer_policies-AreDistinct :
    (l : List (ℕ × ApplyPolicy)) (r : RoutingPolicy)
    → AreDistinct r
    → AreDistinct (set_peer_policies l r)
unfolding set_peer_policies
set_peer_policies-AreDistinct [] r h = h
set_peer_policies-AreDistinct (e ∷ l) r h =
    set_peer_policies-AreDistinct l (set_peer_policy e.0 e.1 r)
      (set_peer_policy-AreDistinct e.0 e.1 r h)

store_policy-assignments :
    (name : ℕ) (l : List Statement) (r : RoutingPolicy)
    → (store_policy name l r).assignment_map ≡ r.assignment_map
unfolding store_policy
store_policy-assignments name l r = refl

store_policies-assignments :
    (l : List Policy) (r : RoutingPolicy) → (store_policies l r).assignment_map ≡ r.assignment_map
unfolding store_policies
store_policies-assignments [] r = refl
store_policies-assignments (p ∷ l) r =
    store_policies-assignments l (store_policy p.name p.statements r)
    ∙ store_policy-assignments p.name p.statements r

-- After `reload` there are no assignments but the defaults of the global RIB.
loaded-AreDistinct :
    (ps : List Policy) (r : RoutingPolicy)
    → r.assignment_map ≡ []
    → AreDistinct (accept_by_default (store_policies ps r))
unfolding accept_by_default
loaded-AreDistinct ps r e =
    let none_there : AreDistinct (store_policies ps r) =
      subst (All (λ x. IsDistinct x.1)) (sym (store_policies-assignments ps r ∙ e)) tt in
    set_default_policy-AreDistinct global_rib_name direction_export accept
      (set_default_policy global_rib_name direction_import accept (store_policies ps r))
      (set_default_policy-AreDistinct global_rib_name direction_import accept (store_policies ps r)
        none_there)

pub reload-AreDistinct :
    (validate : Condition → Option Condition) (parsed : Option (List Policy)) (r r' : RoutingPolicy)
    → reload validate parsed r ≡ done r'
    → AreDistinct r'
unfolding reload
reload-AreDistinct validate none r r' e = absurd cc
reload-AreDistinct validate (some l) r r' e =
    by_test
      (names_repeated [] (map (λ p. p.name) l)
        || names_repeated [] (map (λ s. s.name) (all_statements_of l)))
      (validate_policies validate l) e
  where
    cleared : List Policy → RoutingPolicy
    cleared ps = record {
      statements_at = r.statements_at;
      policy_map = [];
      statement_map = all_statements_of ps;
      assignment_map = [];
    }

    by_test :
        (b : Bool) (o : Option (List Policy))
        → (if b then refused else elim o [
          | none ↦ refused
          | some ps ↦ done (accept_by_default (store_policies ps (cleared ps)))
        ])
          ≡ done r'
        → AreDistinct r'
    by_test true o e = absurd cc
    by_test false none e = absurd cc
    by_test false (some ps) e =
        subst AreDistinct (done-injective e) (loaded-AreDistinct ps (cleared ps) refl)

pub reset-AreDistinct :
    (validate : Condition → Option Condition) (rp : Option (Option (List Policy)))
    (ap : List (ℕ × ApplyPolicy)) (r r' : RoutingPolicy)
    → reset validate rp ap r ≡ done r'
    → AreDistinct r'
unfolding reset
reset-AreDistinct validate none ap r r' e = absurd cc
reset-AreDistinct validate (some rp) ap r r' e =
    by_outcome (reload validate rp r) (reload-AreDistinct validate rp r) e
  where
    by_outcome :
        (o : Outcome RoutingPolicy)
        → ((x : RoutingPolicy) → o ≡ done x → AreDistinct x)
        → (o >>> (λ x. done (set_peer_policies ap x))) ≡ done r'
        → AreDistinct r'
    by_outcome (done x) d e =
        subst AreDistinct (done-injective e) (set_peer_policies-AreDistinct ap x (d x refl))
    by_outcome refused d e = absurd cc
    by_outcome panic d e = absurd cc

-- A result that leaves the assignments as they are.
abbrev Leaves : RoutingPolicy → RoutingPolicy × Bool → Type 0
Leaves r x = x.0.assignment_map ≡ r.assignment_map

add_statements-Leaves :
    (name : ℕ) (l : List Statement) (ok : Bool) (r : RoutingPolicy)
    → Leaves r (add_statements name l ok r)
unfolding add_statements
add_statements-Leaves name l ok r = by_found (find_policy name r.policy_map)
  where
    by_found :
        (o : Option PolicyRef)
        → Leaves r (elim o [
          | some y ↦ (
            record r { statements_at = set r.statements_at y.address (statements_of r y ++ l) },
            true,
          )
          | none ↦ (store_policy name l r, ok)
        ])
    by_found (some y) = refl
    by_found none = store_policy-assignments name l r

add_valid-Leaves :
    (name : ℕ) (l : List Statement) (refer : Bool) (r : RoutingPolicy)
    → Leaves r (add_valid name l refer r)
unfolding add_valid
add_valid-Leaves name l true r = by_filled (fill_up r.statement_map l)
  where
    by_filled :
        (o : Option (List Statement))
        → Leaves r (elim o [
          | some l' ↦ add_statements name l' true r
          | none ↦ add_statements name l false r
        ])
    by_filled (some l') = add_statements-Leaves name l' true r
    by_filled none = add_statements-Leaves name l false r
add_valid-Leaves name l false r = by_defined (define_statements l r.statement_map).1
  where
    stored : RoutingPolicy
    stored = record r { statement_map = (define_statements l r.statement_map).0 }

    by_defined :
        (b : Bool) → Leaves r (if b then add_statements name l true stored else (stored, false))
    by_defined true = add_statements-Leaves name l true stored
    by_defined false = refl

pub add_policy-assignments :
    (validate : Condition → Option Condition) (x : Policy) (refer : Bool) (r : RoutingPolicy)
    → (add_policy validate x refer r).0.assignment_map ≡ r.assignment_map
unfolding add_policy
add_policy-assignments validate x refer r = by_valid (validate_statements validate x.statements)
  where
    by_valid :
        (o : Option (List Statement))
        → Leaves r (elim o [ none ↦ (r, false) | some l ↦ add_valid x.name l refer r ])
    by_valid none = refl
    by_valid (some l) = add_valid-Leaves x.name l refer r
