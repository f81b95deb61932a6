-- ===== src/Policy/Assignments.antt =====
-- The policies that are assigned to a RIB or a peer, of internal/pkg/table/policy.go. A `*Policy` is
-- its address with its name, which never changes; the statements of a policy are kept by its
-- address. The locks are left out.
use goplane.Prelude.{
  ℕ, Bool, true, false, List, [], ◌∷◌, ◌++◌, Option, none, some, ◌==◌, not, if◌then◌else◌, map,
  keep, any, set, get_elem?,
}
use goplane.RoutePath.{has}
use goplane.Policy.Actions.{Verdict, no_verdict, accept, reject, Statement}
use goplane.Policy.Edit.{Outcome, done, refused, panic, ◌>>>◌}
pub mod Fresh
pub mod Deletion
pub mod Config
pub mod Stored
pub mod Configured
pub mod Distinct

pub data PolicyDirection : Type 0 where
  direction_none direction_import direction_export : PolicyDirection

pub record PolicyRef : Type 0 where
  pub address : ℕ
  pub name : ℕ

pub record Assignment : Type 0 where
  pub import_policies : List PolicyRef
  pub default_import_policy : Verdict
  pub export_policies : List PolicyRef
  pub default_export_policy : Verdict

-- The maps are lists with one entry for a key: `policy_map` and `statement_map` by the names, and
-- `assignment_map` by the identifiers.
pub record RoutingPolicy : Type 0 where
  pub statements_at : List (List Statement)
  pub policy_map : List PolicyRef
  pub statement_map : List Statement
  pub assignment_map : List (ℕ × Assignment)

abbrev pub no_assignment : Assignment
no_assignment = record {
  import_policies = [];
  default_import_policy = no_verdict;
  export_policies = [];
  default_export_policy = no_verdict;
}

-- `r.assignmentMap[id]`
unfoldable pub assignment_of : ℕ → List (ℕ × Assignment) → Option Assignment
assignment_of id [] = none
assignment_of id (e ∷ m) = let rest = assignment_of id m in if e.0 == id then some e.1 else rest

unfoldable pub put_assignment : ℕ → Assignment → List (ℕ × Assignment) → List (ℕ × Assignment)
put_assignment id a [] = (id, a) ∷ []
put_assignment id a (e ∷ m) =
    let rest = put_assignment id a m in if e.0 == id then (id, a) ∷ m else e ∷ rest

abbrev pub or_new : Option Assignment → Assignment
or_new none = no_assignment
or_new (some a) = a

abbrev pub policies_of : PolicyDirection → Assignment → List PolicyRef
policies_of direction_import a = a.import_policies
policies_of direction_export a = a.export_policies
policies_of direction_none a = []

unfoldable pub get_policy : ℕ → PolicyDirection → RoutingPolicy → List PolicyRef
get_policy id dir r = policies_of dir (or_new (assignment_of id r.assignment_map))

abbrev pub default_of : PolicyDirection → Assignment → Verdict
default_of direction_import a = a.default_import_policy
default_of direction_export a = a.default_export_policy
default_of direction_none a = no_verdict

unfoldable pub get_default_policy : ℕ → PolicyDirection → RoutingPolicy → Verdict
get_default_policy id dir r = default_of dir (or_new (assignment_of id r.assignment_map))

unfoldable pub with_policies : PolicyDirection → List PolicyRef → Assignment → Assignment
with_policies direction_import ps a = record a { import_policies = ps }
with_policies direction_export ps a = record a { export_policies = ps }
with_policies direction_none ps a = a

unfoldable pub with_default : PolicyDirection → Verdict → Assignment → Assignment
with_default direction_import v a = record a { default_import_policy = v }
with_default direction_export v a = record a { default_export_policy = v }
with_default direction_none v a = a

unfoldable pub set_policy : ℕ → PolicyDirection → List PolicyRef → RoutingPolicy → RoutingPolicy
set_policy id dir ps r = record r {
  assignment_map =
      put_assignment id (with_policies dir ps (or_new (assignment_of id r.assignment_map)))
        r.assignment_map;
}

unfoldable pub set_default_policy : ℕ → PolicyDirection → Verdict → RoutingPolicy → RoutingPolicy
set_default_policy id dir v r = record r {
  assignment_map =
      put_assignment id (with_default dir v (or_new (assignment_of id r.assignment_map)))
        r.assignment_map;
}

-- `r.policyMap[name]`
unfoldable pub find_policy : ℕ → List PolicyRef → Option PolicyRef
find_policy name [] = none
find_policy name (x ∷ m) = let rest = find_policy name m in if x.name == name then some x else rest

-- The loop at the head of the three changes: unknown and repeated names are refused.
unfoldable pub collect : List PolicyRef → List ℕ → List ℕ → Outcome (List PolicyRef)
collect m seen [] = done []
collect m seen (name ∷ l) =
    let rest = collect m (name ∷ seen) l in
    elim (find_policy name m) [
      | none ↦ refused
      | some p ↦ if has name seen then refused else rest >>> (λ ps. done (p ∷ ps))
    ]

-- The loop over what is assigned and what is added.
unfoldable pub is_repeated : List ℕ → List PolicyRef → Bool
is_repeated seen [] = false
is_repeated seen (p ∷ l) =
    let rest = is_repeated (p.name ∷ seen) l in if has p.name seen then true else rest

abbrev pub is_no_verdict : Verdict → Bool
is_no_verdict no_verdict = true
is_no_verdict _ = false

unfoldable pub set_default_unless_none :
    ℕ → PolicyDirection → Verdict → RoutingPolicy → RoutingPolicy
set_default_unless_none id dir def r =
    if not (is_no_verdict def) then set_default_policy id dir def r else r

unfoldable pub add_policy_assignment :
    ℕ → PolicyDirection → List ℕ → Verdict → RoutingPolicy → Outcome RoutingPolicy
add_policy_assignment id dir names def r = collect r.policy_map [] names >>> (λ ps.
    let all = get_policy id dir r ++ ps in
    if is_repeated [] all
    then refused
    else done (set_default_unless_none id dir def (set_policy id dir all r)))

unfoldable pub set_policy_assignment :
    ℕ → PolicyDirection → List ℕ → Verdict → RoutingPolicy → Outcome RoutingPolicy
set_policy_assignment id dir names def r =
    collect r.policy_map [] names
    >>> (λ ps. done (set_default_unless_none id dir def (set_policy id dir ps r)))

abbrev pub is_named_in : List PolicyRef → ℕ → Bool
is_named_in ps name = any (λ x. x.name == name) ps

unfoldable pub delete_policy_assignment :
    ℕ → PolicyDirection → List ℕ → Bool → RoutingPolicy → Outcome RoutingPolicy
delete_policy_assignment id dir names all r = collect r.policy_map [] names >>> (λ ps.
    if all
    then done (set_default_policy id dir no_verdict (set_policy id dir [] r))
    else done (set_policy id dir (keep (λ y. not (is_named_in ps y.name)) (get_policy id dir r)) r))

-- A policy's statements; every address has them.
abbrev pub statements_of : RoutingPolicy → PolicyRef → List Statement
statements_of r p = elim (get_elem? r.statements_at p.address) [ none ↦ [] | some l ↦ l ]

unfoldable pub statement_in_use : ℕ → RoutingPolicy → Bool
statement_in_use name r = any (λ p. any (λ y. name == y.name) (statements_of r p)) r.policy_map

-- `inUse`, as it is written: both directions that it looks at are the export.
unfoldable pub in_use : ℕ → List ℕ → RoutingPolicy → Bool
in_use name ids r =
    any
      (λ id.
        any (λ dir. any (λ y. name == y.name) (get_policy id dir r))
          (direction_export ∷ direction_export ∷ []))
      ids

-- `(lhs *Policy) Remove`
unfoldable pub remove_statements : List Statement → List Statement → List Statement
remove_statements lhs rhs = keep (λ x. not (any (λ y. x.name == y.name) rhs)) lhs

-- The statements that no policy uses any more are deleted.
unfoldable pub delete_unused : List Statement → RoutingPolicy → RoutingPolicy
delete_unused [] r = r
delete_unused (st ∷ l) r = delete_unused l (
    if statement_in_use st.name r
    then r
    else record r { statement_map = keep (λ x. not (x.name == st.name)) r.statement_map })

abbrev pub without_policy : ℕ → RoutingPolicy → RoutingPolicy
without_policy name r = record r { policy_map = keep (λ x. not (x.name == name)) r.policy_map }

abbrev pub without_statements : PolicyRef → List Statement → RoutingPolicy → RoutingPolicy
without_statements y stmts r = record r {
  statements_at = set r.statements_at y.address (remove_statements (statements_of r y) stmts);
}

abbrev pub tidied : Bool → PolicyRef → RoutingPolicy → RoutingPolicy
tidied preserve y r = if preserve then r else delete_unused (statements_of r y) r

unfoldable pub delete_found :
    Bool → Bool → Bool → List Statement → PolicyRef → RoutingPolicy → Outcome RoutingPolicy
delete_found true true preserve stmts y r = refused
delete_found true false preserve stmts y r = done (tidied preserve y (without_policy y.name r))
delete_found false used preserve stmts y r = done (tidied preserve y (without_statements y stmts r))

unfoldable pub delete_policy :
    ℕ → List Statement → Bool → Bool → List ℕ → RoutingPolicy → Outcome RoutingPolicy
delete_policy name stmts all preserve active_id r = elim (find_policy name r.policy_map) [
  | none ↦ refused
  | some y ↦ delete_found all (in_use name active_id r) preserve stmts y r
]
