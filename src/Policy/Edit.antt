-- ===== src/Policy/Edit.antt =====
-- The changes of a statement in internal/pkg/table/policy.go: `Add`, `Remove` and `Replace`, which
-- are `mod`. A condition or an action is found by its type.
use goplane.Prelude.{
  ℕ, zero, suc, Bool, true, false, List, [], ◌∷◌, ◌++◌, Option, none, some, ◌==◌, ltb, leb,
  if◌then◌else◌, length, remove_at, set, ◌>>=◌,
}
use goplane.Policy.{Condition}
use goplane.Policy.Actions.{Action, Statement}
pub mod Laws

-- What a change comes to.
pub data Outcome {ℓ} (A : Type ℓ) : Type ℓ where
  done : A → Outcome A
  refused : Outcome A
  panic : Outcome A

infixl 5 ◌>>>◌
abbrev pub ◌>>>◌ {ℓ κ} : {A : Type ℓ} {B : Type κ} → Outcome A → (A → Outcome B) → Outcome B
done a >>> f = f a
refused >>> f = refused
panic >>> f = panic

-- `opType`
pub data OpType : Type 0 where
  add remove replace : OpType

-- `Type()` of a condition and of an action.
unfoldable pub condition_type : Condition → ℕ
condition_type (Condition.prefix _ _ _) = 0
condition_type (Condition.neighbor _ _) = 1
condition_type (Condition.as_path _ _ _) = 2
condition_type (Condition.community _ _) = 3
condition_type (Condition.ext_community _ _) = 4
condition_type (Condition.as_path_length _ _) = 5
condition_type (Condition.rpki _) = 6
condition_type (Condition.route_type _) = 7
condition_type (Condition.large_community _ _) = 8
condition_type (Condition.next_hop _) = 9
condition_type (Condition.afi_safi_in _) = 10

unfoldable pub action_type : Action → ℕ
action_type (Action.set_community _ _ _) = 1
action_type (Action.set_ext_community _ _ _) = 2
action_type (Action.change_med _ _) = 3
action_type (Action.prepend_as_path _ _) = 4
action_type (Action.change_nexthop _) = 5
action_type (Action.set_local_pref _) = 6
action_type (Action.set_large_community _ _ _) = 7

module _ {ℓ} {A : Type ℓ} (typ : A → ℕ) where
  -- The first entry of the same type.
  unfoldable pub index_of_type : ℕ → List A → Option ℕ
  index_of_type t [] = none
  index_of_type t (y ∷ l) =
      let rest = (do i ← index_of_type t l; some (suc i)) in if t == typ y then some 0 else rest

  -- One entry of the change: `lhs` is the list before all changes, `cs` the one that is changed.
  unfoldable pub mod_entry : OpType → List A → A → List A → Outcome (List A)
  mod_entry add lhs x cs = elim (index_of_type (typ x) lhs) [
    | none ↦ done (cs ++ x ∷ [])
    | some i ↦ refused
  ]
  mod_entry remove lhs x cs = elim (index_of_type (typ x) lhs) [
    | none ↦ refused
    | some i ↦ if ltb i (length cs) then done (remove_at i cs) else panic
  ]
  mod_entry replace lhs x cs = elim (index_of_type (typ x) lhs) [
    | none ↦ refused
    | some i ↦ if ltb i (length cs) then done (set cs i x) else panic
  ]

  unfoldable pub mod_entries : OpType → List A → List A → List A → Outcome (List A)
  mod_entries op lhs [] cs = done cs
  mod_entries op lhs (x ∷ xs) cs = mod_entry op lhs x cs >>> (λ cs'. mod_entries op lhs xs cs')

unfoldable pub mod_route_action : OpType → Option Bool → Option Bool → Outcome (Option Bool)
mod_route_action op lhs none = done lhs
mod_route_action add none (some b) = done (some b)
mod_route_action add (some a) (some b) = refused
mod_route_action remove none (some b) = refused
mod_route_action remove (some a) (some b) = done none
mod_route_action replace none (some b) = refused
mod_route_action replace (some a) (some b) = done (some b)

-- `mod`: the statement is only written at the end.
unfoldable pub mod_statement : OpType → Statement → Statement → Outcome Statement
mod_statement op lhs rhs =
    mod_entries condition_type op lhs.conditions rhs.conditions lhs.conditions >>> (λ cs.
      mod_route_action op lhs.route_action rhs.route_action >>> (λ ra.
        mod_entries action_type op lhs.mod_actions rhs.mod_actions lhs.mod_actions
        >>> (λ acts. done (record lhs { conditions = cs; route_action = ra; mod_actions = acts }))))
