-- ===== src/Policy/Assignments/Distinct.antt =====
-- No policy is assigned twice, in internal/pkg/table/policy.go.
use goplane.Prelude.{
  ℕ, Bool, true, false, List, [], Option, ◌++◌, ◌≡◌, refl, sym, not, if◌then◌else◌, keep, All,
  Bool-cases, inl, inr, some,
}
use mathlib.Core.Path.{subst}
use goplane.Policy.Actions.{Verdict, no_verdict, Statement, Policy}
use goplane.Policy.Edit.{done, refused}
use goplane.Policy.Assignments.{
  PolicyDirection, direction_none, direction_import, direction_export, PolicyRef, RoutingPolicy,
  get_policy, set_policy, set_default_policy, collect, is_repeated, set_default_unless_none,
  is_no_verdict, add_policy_assignment, set_policy_assignment, delete_policy_assignment,
  delete_policy,
}
use goplane.Policy.Assignments.Fresh.{
  IsFresh, done-injective, collected, collect-IsFresh, keep-IsFresh,
}
use goplane.Policy.Assignments.Deletion.{dropped-assignments}
use goplane.Policy.{Condition}
use goplane.Policy.Assignments.Stored.{
  IsDistinct, AreDistinct, assignment_of-IsDistinct, set_policy-AreDistinct,
  set_default_policy-AreDistinct,
}
use goplane.Policy.Assignments.Config.{ApplyPolicy, set_peer_policy, initialize, reset, add_policy}
use goplane.Policy.Assignments.Configured.{
  set_peer_policy-AreDistinct, reload-AreDistinct, reset-AreDistinct, add_policy-assignments,
}

-- The methods that write the assignments or the policies; a condition is validated in any way. One
-- that is refused changes nothing, but for `AddPolicy`.
pub data Changes : RoutingPolicy → RoutingPolicy → Type 0 where
  added :
      {r r' : RoutingPolicy} (id : ℕ) (dir : PolicyDirection) (names : List ℕ) (def : Verdict)
      → add_policy_assignment id dir names def r ≡ done r'
      → Changes r r'
  replaced :
      {r r' : RoutingPolicy} (id : ℕ) (dir : PolicyDirection) (names : List ℕ) (def : Verdict)
      → set_policy_assignment id dir names def r ≡ done r'
      → Changes r r'
  deleted :
      {r r' : RoutingPolicy} (id : ℕ) (dir : PolicyDirection) (names : List ℕ) (all : Bool)
      → delete_policy_assignment id dir names all r ≡ done r'
      → Changes r r'
  dropped :
      {r r' : RoutingPolicy} (name : ℕ) (stmts : List Statement) (all preserve : Bool)
      (active_id : List ℕ)
      → delete_policy name stmts all preserve active_id r ≡ done r'
      → Changes r r'
  peer_set : {r : RoutingPolicy} (id : ℕ) (c : ApplyPolicy) → Changes r (set_peer_policy id c r)
  initialized :
      {r r' : RoutingPolicy} (validate : Condition → Option Condition)
      → initialize validate r ≡ done r'
      → Changes r r'
  reset_by :
      {r r' : RoutingPolicy} (validate : Condition → Option Condition)
      (rp : Option (Option (List Policy))) (ap : List (ℕ × ApplyPolicy))
      → reset validate rp ap r ≡ done r'
      → Changes r r'
  policy_added :
      {r : RoutingPolicy} (validate : Condition → Option Condition) (x : Policy) (refer : Bool)
      → Changes r (add_policy validate x refer r).0

pub data Reaches : RoutingPolicy → RoutingPolicy → Type 0 where
  start : {r : RoutingPolicy} → Reaches r r
  step : {r r' r'' : RoutingPolicy} → Changes r r' → Reaches r' r'' → Reaches r r''

set_default_unless_none-AreDistinct :
    (id : ℕ) (dir : PolicyDirection) (def : Verdict) (r : RoutingPolicy)
    → AreDistinct r
    → AreDistinct (set_default_unless_none id dir def r)
unfolding set_default_unless_none
set_default_unless_none-AreDistinct id dir def r h = elim (Bool-cases (not (is_no_verdict def))) [
  | inl e ↦ simp (e) (set_default_policy-AreDistinct id dir def r h)
  | inr e ↦ simp (e) h
]

added-AreDistinct :
    (id : ℕ) (dir : PolicyDirection) (def : Verdict) (l : List PolicyRef) (b : Bool)
    (r r' : RoutingPolicy)
    → is_repeated [] l ≡ b
    → (if b then refused else done (set_default_unless_none id dir def (set_policy id dir l r)))
      ≡ done r'
    → AreDistinct r
    → AreDistinct r'
added-AreDistinct id dir def l true r r' f e h = absurd cc
added-AreDistinct id dir def l false r r' f e h = subst AreDistinct (done-injective e) (
    set_default_unless_none-AreDistinct id dir def (set_policy id dir l r)
      (set_policy-AreDistinct id dir l r f h))

get_policy-IsFresh :
    (id : ℕ) (dir : PolicyDirection) (r : RoutingPolicy)
    → AreDistinct r
    → IsFresh [] (get_policy id dir r)
unfolding get_policy is_repeated
get_policy-IsFresh id direction_import r h = (assignment_of-IsDistinct id r.assignment_map h).0
get_policy-IsFresh id direction_export r h = (assignment_of-IsDistinct id r.assignment_map h).1
get_policy-IsFresh id direction_none r h = refl

deleted-AreDistinct :
    (id : ℕ) (dir : PolicyDirection) (all : Bool) (q : PolicyRef → Bool) (r r' : RoutingPolicy)
    → (if all
        then done (set_default_policy id dir no_verdict (set_policy id dir [] r))
        else done (set_policy id dir (keep q (get_policy id dir r)) r))
      ≡ done r'
    → AreDistinct r
    → AreDistinct r'
deleted-AreDistinct id dir true q r r' e h = subst AreDistinct (done-injective e) (
    set_default_policy-AreDistinct id dir no_verdict (set_policy id dir [] r)
      (set_policy-AreDistinct id dir [] r (unfold is_repeated in refl) h))
deleted-AreDistinct id dir false q r r' e h = subst AreDistinct (done-injective e) (
    set_policy-AreDistinct id dir (keep q (get_policy id dir r)) r
      (keep-IsFresh q [] [] (get_policy id dir r) (λ n f. f) (get_policy-IsFresh id dir r h)) h)

Changes-AreDistinct : {r r' : RoutingPolicy} → Changes r r' → AreDistinct r → AreDistinct r'
unfolding add_policy_assignment set_policy_assignment delete_policy_assignment initialize
Changes-AreDistinct {r} {r'} (added id dir names def e) h =
    let (ps, f, g) = collected (collect r.policy_map [] names) _ r' e in
    added-AreDistinct id dir def (get_policy id dir r ++ ps) _ r r' refl g h
Changes-AreDistinct {r} {r'} (replaced id dir names def e) h =
    let (ps, f, g) = collected (collect r.policy_map [] names) _ r' e in
    added-AreDistinct id dir def ps false r r' (collect-IsFresh r.policy_map [] names ps f) g h
Changes-AreDistinct {r} {r'} (deleted id dir names all e) h =
    let (ps, f, g) = collected (collect r.policy_map [] names) _ r' e in
    deleted-AreDistinct id dir all _ r r' g h
Changes-AreDistinct {r} {r'} (dropped name stmts all preserve active_id e) h =
    subst (All (λ x. IsDistinct x.1))
      (sym (dropped-assignments name stmts all preserve active_id r r' e)) h
Changes-AreDistinct {r} (peer_set id c) h = set_peer_policy-AreDistinct id c r h
Changes-AreDistinct {r} {r'} (initialized validate e) h =
    reload-AreDistinct validate (some []) r r' e
Changes-AreDistinct {r} {r'} (reset_by validate rp ap e) h = reset-AreDistinct validate rp ap r r' e
Changes-AreDistinct {r} (policy_added validate x refer) h =
    subst (All (λ e. IsDistinct e.1)) (sym (add_policy-assignments validate x refer r)) h

-- Through any sequence of AddPolicyAssignment, SetPolicyAssignment, DeletePolicyAssignment,
-- SetPeerPolicy, Initialize, Reset, AddPolicy and DeletePolicy, whatever the conditions are validated
-- by, no policy's name is assigned twice to a RIB or a peer in one direction, when none was at the
-- start.
pub Reaches-AreDistinct : (r r' : RoutingPolicy) → Reaches r r' → AreDistinct r → AreDistinct r'
Reaches-AreDistinct r _ start h = h
Reaches-AreDistinct r r' (step {r' = next} c rest) h =
    Reaches-AreDistinct next r' rest (Changes-AreDistinct c h)
