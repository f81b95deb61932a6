-- ===== src/Policy/Assignments/Config.antt =====
-- The methods of internal/pkg/table/policy.go that take assignments and policies from a configuration:
-- SetPeerPolicy, Initialize, Reset and AddPolicy. What a configuration is read into is an argument,
-- and so is `validateCondition`, which gives a condition the defined set of its name or refuses it.
use goplane.Prelude.{
  ℕ, Bool, true, false, List, [], ◌∷◌, ◌++◌, Option, none, some, ◌==◌, ◌||◌, if◌then◌else◌, ◌>>=◌,
  map, any, set, length,
}
use goplane.RoutePath.{has}
use goplane.Policy.{Condition}
use goplane.Policy.Actions.{Verdict, accept, reject, Statement, Policy}
use goplane.Policy.Edit.{Outcome, done, refused, ◌>>>◌}
use goplane.Policy.Assignments.{
  PolicyDirection, direction_none, direction_import, direction_export, PolicyRef, RoutingPolicy,
  set_policy, set_default_policy, collect, find_policy, statements_of,
}

-- `DefaultPolicyType`, a string; `other_route` is any but the two that have names.
pub data DefaultPolicyType : Type 0 where
  accept_route reject_route other_route : DefaultPolicyType

pub record ApplyPolicy : Type 0 where
  pub import_policy_list : List ℕ
  pub default_import_policy : DefaultPolicyType
  pub export_policy_list : List ℕ
  pub default_export_policy : DefaultPolicyType

unfoldable pub default_from : DefaultPolicyType → Verdict
default_from reject_route = reject
default_from _ = accept

unfoldable pub get_assignment_from_config :
    PolicyDirection → ApplyPolicy → RoutingPolicy → Outcome (List PolicyRef × Verdict)
get_assignment_from_config direction_import c r =
    collect r.policy_map [] c.import_policy_list
    >>> (λ ps. done (ps, default_from c.default_import_policy))
get_assignment_from_config direction_export c r =
    collect r.policy_map [] c.export_policy_list
    >>> (λ ps. done (ps, default_from c.default_export_policy))
get_assignment_from_config direction_none c r = refused

-- An error is logged, and the direction stays as it is.
unfoldable pub assign_found :
    ℕ → PolicyDirection → Outcome (List PolicyRef × Verdict) → RoutingPolicy → RoutingPolicy
assign_found id dir (done (ps, def)) r = set_policy id dir ps (set_default_policy id dir def r)
assign_found id dir _ r = r

unfoldable pub set_peer_direction :
    ℕ → ApplyPolicy → PolicyDirection → RoutingPolicy → RoutingPolicy
set_peer_direction id c dir r = assign_found id dir (get_assignment_from_config dir c r) r

unfoldable pub set_peer_policy : ℕ → ApplyPolicy → RoutingPolicy → RoutingPolicy
set_peer_policy id c r =
    set_peer_direction id c direction_export (set_peer_direction id c direction_import r)

unfoldable pub set_peer_policies : List (ℕ × ApplyPolicy) → RoutingPolicy → RoutingPolicy
set_peer_policies [] r = r
set_peer_policies (e ∷ l) r = set_peer_policies l (set_peer_policy e.0 e.1 r)

module _ (validate_condition : Condition → Option Condition) where
  unfoldable pub validate_conditions : List Condition → Option (List Condition)
  validate_conditions [] = some []
  validate_conditions (c ∷ l) = do
    c' ← validate_condition c
    l' ← validate_conditions l
    some (c' ∷ l')

  unfoldable pub validate_statements : List Statement → Option (List Statement)
  validate_statements [] = some []
  validate_statements (s ∷ l) = do
    cs ← validate_conditions s.conditions
    l' ← validate_statements l
    some (record s { conditions = cs } ∷ l')

  unfoldable pub validate_policies : List Policy → Option (List Policy)
  validate_policies [] = some []
  validate_policies (p ∷ l) = do
    ss ← validate_statements p.statements
    l' ← validate_policies l
    some (record p { statements = ss } ∷ l')

unfoldable pub names_repeated : List ℕ → List ℕ → Bool
names_repeated seen [] = false
names_repeated seen (n ∷ l) =
    let rest = names_repeated (n ∷ seen) l in if has n seen then true else rest

abbrev pub all_statements_of : List Policy → List Statement
all_statements_of [] = []
all_statements_of (p ∷ l) = p.statements ++ all_statements_of l

-- A new policy gets an address of its own.
unfoldable pub store_policy : ℕ → List Statement → RoutingPolicy → RoutingPolicy
store_policy name l r = record r {
  statements_at = r.statements_at ++ l ∷ [];
  policy_map = r.policy_map ++ record { address = length r.statements_at; name = name } ∷ [];
}

unfoldable pub store_policies : List Policy → RoutingPolicy → RoutingPolicy
store_policies [] r = r
store_policies (p ∷ l) r = store_policies l (store_policy p.name p.statements r)

-- GLOBAL_RIB_NAME, a string.
abbrev pub global_rib_name : ℕ
global_rib_name = 0

-- Both directions of the global RIB accept by default.
unfoldable pub accept_by_default : RoutingPolicy → RoutingPolicy
accept_by_default r =
    set_default_policy global_rib_name direction_export accept
      (set_default_policy global_rib_name direction_import accept r)

-- `reload`; the policies are `none` where a set, a statement or a policy was not read.
unfoldable pub reload :
    (Condition → Option Condition) → Option (List Policy) → RoutingPolicy → Outcome RoutingPolicy
reload validate_condition none r = refused
reload validate_condition (some l) r =
    if names_repeated [] (map (λ p. p.name) l)
      || names_repeated [] (map (λ s. s.name) (all_statements_of l))
    then refused
    else elim (validate_policies validate_condition l) [
      | none ↦ refused
      | some ps ↦ done (
          accept_by_default (
            store_policies ps (record {
              statements_at = r.statements_at;
              policy_map = [];
              statement_map = all_statements_of ps;
              assignment_map = [];
            })))
    ]

unfoldable pub initialize : (Condition → Option Condition) → RoutingPolicy → Outcome RoutingPolicy
initialize validate_condition r = reload validate_condition (some []) r

-- `Reset`; the configuration may be nil.
unfoldable pub reset :
    (Condition → Option Condition)
    → Option (Option (List Policy))
    → List (ℕ × ApplyPolicy)
    → RoutingPolicy
    → Outcome RoutingPolicy
reset validate_condition none ap r = refused
reset validate_condition (some rp) ap r =
    reload validate_condition rp r >>> (λ r'. done (set_peer_policies ap r'))

unfoldable pub find_statement : ℕ → List Statement → Option Statement
find_statement name [] = none
find_statement name (s ∷ m) =
    let rest = find_statement name m in if s.name == name then some s else rest

-- `FillUp`
unfoldable pub fill_up : List Statement → List Statement → Option (List Statement)
fill_up m [] = some []
fill_up m (s ∷ l) = do y ← find_statement s.name m; l' ← fill_up m l; some (y ∷ l')

-- The loop that stores new statements; it stops at one that is there.
unfoldable pub define_statements : List Statement → List Statement → List Statement × Bool
define_statements [] m = (m, true)
define_statements (s ∷ l) m =
    let rest = define_statements l (m ++ s ∷ []) in
    if any (λ y. y.name == s.name) m then (m, false) else rest

-- The end of `AddPolicy`, with whether it returns no error: `Add` to a known policy never fails.
unfoldable pub add_statements : ℕ → List Statement → Bool → RoutingPolicy → RoutingPolicy × Bool
add_statements name l ok r = elim (find_policy name r.policy_map) [
  | some y ↦
      (record r { statements_at = set r.statements_at y.address (statements_of r y ++ l) }, true)
  | none ↦ (store_policy name l r, ok)
]

-- What is done with valid statements. A failing `FillUp` leaves them and does not end the method.
unfoldable pub add_valid : ℕ → List Statement → Bool → RoutingPolicy → RoutingPolicy × Bool
add_valid name l true r = elim (fill_up r.statement_map l) [
  | some l' ↦ add_statements name l' true r
  | none ↦ add_statements name l false r
]
add_valid name l false r =
    let d = define_statements l r.statement_map in
    let stored = record r { statement_map = d.0 } in
    let added = add_statements name l true stored in if d.1 then added else (stored, false)

unfoldable pub add_policy :
    (Condition → Option Condition) → Policy → Bool → RoutingPolicy → RoutingPolicy × Bool
add_policy validate_condition x refer r =
    elim (validate_statements validate_condition x.statements) [
      | none ↦ (r, false)
      | some l ↦ add_valid x.name l refer r
    ]
