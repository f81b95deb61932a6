-- ===== src/Policy/Actions.antt =====
-- The actions of internal/pkg/table/policy.go, and how statements and policies apply them to a path.
-- `none` is a run-time panic.
use goplane.Prelude.{
  ℕ, Bool, true, false, List, [], ◌∷◌, Option, none, some, ◌==◌, if◌then◌else◌, ◌>>=◌, ◌&&◌, not,
  keep, length,
}
use goplane.Prelude.Int.{ℤ}
use goplane.Bgp.{Ip, is_nil, Attr}
use goplane.RoutePath.{RoutePath, clone, set_path_attr}
use goplane.RoutePath.AsPath.{prepend_asn}
use goplane.RoutePath.Values.{get_communities}
use goplane.RoutePath.Rewrite.{
  set_communities, get_ext_communities, set_ext_communities, get_large_communities,
  set_large_communities,
}
use goplane.RoutePath.Nexthop.{set_nexthop}
use goplane.RoutePath.Med.{set_med}
use goplane.Policy.{
  Condition, PolicyOptions, Library, passes, matches_ext, is_transitive, get_as_seq_list, evaluate,
}

-- config.BgpSetCommunityOptionType, and `MedActionType`.
pub data CommunityOption : Type 0 where
  op_add op_remove op_replace : CommunityOption

pub data Action : Type 0 where
  set_community : CommunityOption → List ℕ → List (ℕ → Bool) → Action
  set_ext_community : CommunityOption → List ℕ → List (ℕ × (ℕ → Bool)) → Action
  set_large_community : CommunityOption → List ℕ → List (ℕ → Bool) → Action
  change_med : ℤ → Bool → Action
  set_local_pref : ℕ → Action
  prepend_as_path : Option ℕ → ℕ → Action
  change_nexthop : Option Ip → Action

unfoldable pub regexp_remove_communities : List (ℕ → Bool) → RoutePath → RoutePath
regexp_remove_communities exps p =
    set_communities (keep (λ c. not (passes c exps)) (get_communities p)) true p

-- A community that is not transitive is not kept either.
unfoldable pub regexp_remove_ext_communities :
    Library → List (ℕ × (ℕ → Bool)) → RoutePath → RoutePath
regexp_remove_ext_communities lib exps p =
    set_ext_communities
      (keep (λ c. is_transitive lib c && not (matches_ext lib exps c)) (get_ext_communities p)) true
      p

unfoldable pub regexp_remove_large_communities : List (ℕ → Bool) → RoutePath → RoutePath
regexp_remove_large_communities exps p =
    set_large_communities (keep (λ c. not (passes c exps)) (get_large_communities p)) true p

unfoldable pub apply_community : CommunityOption → List ℕ → List (ℕ → Bool) → RoutePath → RoutePath
apply_community op_add list exps p = set_communities list false p
apply_community op_remove list exps p = regexp_remove_communities exps p
apply_community op_replace list exps p = set_communities list true p

unfoldable pub apply_ext_community :
    Library → CommunityOption → List ℕ → List (ℕ × (ℕ → Bool)) → RoutePath → RoutePath
apply_ext_community lib op_add list exps p = set_ext_communities list false p
apply_ext_community lib op_remove list exps p = regexp_remove_ext_communities lib exps p
apply_ext_community lib op_replace list exps p = set_ext_communities list true p

unfoldable pub apply_large_community :
    CommunityOption → List ℕ → List (ℕ → Bool) → RoutePath → RoutePath
apply_large_community op_add list exps p = set_large_communities list false p
apply_large_community op_remove list exps p = regexp_remove_large_communities exps p
apply_large_community op_replace list exps p = set_large_communities list true p

-- An error of `SetMed` is logged.
unfoldable pub apply_med : ℤ → Bool → RoutePath → RoutePath
apply_med value replacing p = elim (set_med value replacing p) [ none ↦ p | some p' ↦ p' ]

-- The number that is prepended: a given one, or the left-most of the path, if it is in a sequence.
unfoldable pub prepended_as : Option ℕ → List ℕ → Option ℕ
prepended_as (some asn) l = some asn
prepended_as none [] = none
prepended_as none (n ∷ l) = if n == 0 then none else some n

abbrev pub is_confed_peer : PolicyOptions → Bool
is_confed_peer options = elim (options.info) [ none ↦ false | some peer ↦ peer.confederation ]

unfoldable pub apply_prepend : Option ℕ → ℕ → PolicyOptions → RoutePath → Option RoutePath
apply_prepend asn repeat options p = elim (prepended_as asn (get_as_seq_list p)) [
  | none ↦ some p
  | some n ↦ prepend_asn n repeat (is_confed_peer options) p
]

-- `none` is the next hop `self`.
unfoldable pub apply_nexthop : Option Ip → PolicyOptions → RoutePath → RoutePath
apply_nexthop (some ip) options p = set_nexthop ip p
apply_nexthop none options p = elim (options.info) [
  | none ↦ p
  | some peer ↦ if is_nil peer.local_address then p else set_nexthop peer.local_address p
]

-- `Apply` of an action.
unfoldable pub apply_action : Library → PolicyOptions → Action → RoutePath → Option RoutePath
apply_action lib options (Action.set_community op list exps) p =
    some (apply_community op list exps p)
apply_action lib options (Action.set_ext_community op list exps) p =
    some (apply_ext_community lib op list exps p)
apply_action lib options (Action.set_large_community op list exps) p =
    some (apply_large_community op list exps p)
apply_action lib options (Action.change_med value replacing) p = some (apply_med value replacing p)
apply_action lib options (Action.set_local_pref n) p = some (set_path_attr p (Attr.local_pref n))
apply_action lib options (Action.prepend_as_path asn repeat) p = apply_prepend asn repeat options p
apply_action lib options (Action.change_nexthop ip) p = some (apply_nexthop ip options p)

unfoldable pub apply_actions : Library → PolicyOptions → List Action → RoutePath → Option RoutePath
apply_actions lib options [] p = some p
apply_actions lib options (a ∷ l) p = do
  p' ← apply_action lib options a p
  apply_actions lib options l p'

-- `Statement`; the action on the route accepts it, rejects it, or is missing.
pub record Statement : Type 0 where
  pub name : ℕ
  pub conditions : List Condition
  pub route_action : Option Bool
  pub mod_actions : List Action

-- `Evaluate` of a statement: the first condition that fails ends it.
unfoldable pub evaluate_all : Library → PolicyOptions → List Condition → RoutePath → Option Bool
evaluate_all lib options [] p = some true
evaluate_all lib options (c ∷ l) p =
    let rest = evaluate_all lib options l p in
    do holds ← evaluate lib options c p; if holds then rest else some false

-- `RouteType`
pub data Verdict : Type 0 where
  no_verdict accept reject : Verdict

abbrev pub verdict_of : Option Bool → Verdict
verdict_of none = no_verdict
verdict_of (some true) = accept
verdict_of (some false) = reject

-- All modifications are made on a clone.
unfoldable pub modify : Library → PolicyOptions → List Action → RoutePath → Option RoutePath
modify lib options l p =
    if length l == 0 then some p else apply_actions lib options l (clone p p.is_withdraw)

unfoldable pub apply_statement :
    Library → PolicyOptions → Statement → RoutePath → Option (Verdict × RoutePath)
apply_statement lib options s p = do
  holds ← evaluate_all lib options s.conditions p
  p' ← if holds then modify lib options s.mod_actions p else some p
  some (if holds then verdict_of s.route_action else no_verdict, p')

-- The loops of `Policy.Apply` and of `ApplyPolicy` go on while there is no verdict.
unfoldable pub apply_policy_statements :
    Library → PolicyOptions → List Statement → RoutePath → Option (Verdict × RoutePath)
apply_policy_statements lib options [] p = some (no_verdict, p)
apply_policy_statements lib options (s ∷ l) p = do
  r ← apply_statement lib options s p
  elim (r.0) [
    | no_verdict ↦ apply_policy_statements lib options l r.1
    | accept ↦ some (accept, r.1)
    | reject ↦ some (reject, r.1)
  ]

pub record Policy : Type 0 where
  pub name : ℕ
  pub statements : List Statement

unfoldable pub apply_policies :
    Library → PolicyOptions → List Policy → RoutePath → Option (Verdict × RoutePath)
apply_policies lib options [] p = some (no_verdict, p)
apply_policies lib options (x ∷ l) p = do
  r ← apply_policy_statements lib options x.statements p
  elim (r.0) [
    | no_verdict ↦ apply_policies lib options l r.1
    | accept ↦ some (accept, r.1)
    | reject ↦ some (reject, r.1)
  ]

-- `ApplyPolicy` with the policies and the default of an assignment (without one there are no
-- policies, and the default is no verdict): the inner `none` is a rejected path.
unfoldable pub apply_policy :
    Library → PolicyOptions → List Policy → Verdict → RoutePath → Option (Option RoutePath)
apply_policy lib options policies default before =
    if before.is_withdraw then some (some before) else (do
      r ← apply_policies lib options policies before
      some (elim (r.0) [
        | accept ↦ some r.1
        | reject ↦ none
        | no_verdict ↦ elim default [ accept ↦ some r.1 | reject ↦ none | no_verdict ↦ none ]
      ]))
