-- ===== src/Tests/Policies.antt =====
-- Policies at the test data: a statement that sets the local preference of paths through 65003, one
-- that accepts what has a community, and one that rejects the rest.
use goplane.Prelude.{
  ℕ, Bool, true, false, List, [], ◌∷◌, none, some, ◌≡◌, ◌↔◌, refl, arith, any, ◌==◌, if◌then◌else◌,
  length,
}
use goplane.Bgp.{no_ip, v4}
use goplane.Policy.{
  Condition, PolicyOptions, Library, match_any, match_all, include, SingleAsPathMatch,
  evaluate_as_path, evaluate_communities, inverted,
}
use goplane.Policy.Actions.{Action, Statement, Policy, accept, reject, no_verdict, apply_policies}
use goplane.Policy.Statements.{Decides, all_statements, apply_policies-Decides}
use goplane.Policy.Conditions.{as_path_by_option, by_option, set_conditions_lem}
use goplane.Policy.Edit.{
  done, add, remove, mod_statement, mod_entries, mod_entry, mod_route_action, index_of_type,
}
use goplane.Policy.Edit.Laws.{remove-add}
use goplane.Policy.Assignments.{
  PolicyRef, Assignment, RoutingPolicy, direction_import, direction_export, add_policy_assignment,
  delete_policy, find_policy, collect, get_policy, assignment_of, put_assignment, set_policy,
  with_policies, set_default_unless_none, is_repeated,
}
use goplane.Policy.Assignments.Config.{ApplyPolicy, accept_route, reject_route, set_peer_policy}
use goplane.Policy.Assignments.Stored.{AreDistinct}
use goplane.Policy.Assignments.Distinct.{start, step, added, peer_set, Reaches-AreDistinct}
use goplane.Policy.Assignments.Deletion.{delete_policy-import}
use goplane.Tests.Data.{packet, from_one}

abbrev library : Library
library = record {
  packet = packet;
  ext_type = λ n. n;
  ext_subtype = λ n. n;
  nlri_to_ip_net = λ n. record { address = 0; prefix_len = 24 };
}

abbrev options : PolicyOptions
options = record { info = none; old_next_hop = no_ip; validate = none }

abbrev through : SingleAsPathMatch
through = record { asn = 65003; mode = include }

abbrev prefer : Statement
prefer = record {
  name = 1;
  conditions = Condition.as_path (through ∷ []) [] match_any ∷ [];
  route_action = none;
  mod_actions = Action.set_local_pref 200 ∷ [];
}

abbrev turn_away : Statement
turn_away = record { name = 2; conditions = []; route_action = some false; mod_actions = [] }

abbrev policies : List Policy
policies =
    record { name = 1; statements = prefer ∷ [] }
    ∷ record { name = 2; statements = turn_away ∷ [] }
    ∷ []

apply_policies-Decides_example :
    (apply_policies library options policies from_one ≡ some (reject, from_one))
    ↔ Decides library options (all_statements policies) from_one reject from_one
apply_policies-Decides_example =
    apply_policies-Decides library options policies from_one from_one reject

abbrev has_seven : List (ℕ → Bool)
has_seven = (λ n. n == 7) ∷ []

set_conditions_lem_example :
    (evaluate_as_path (through ∷ []) [] match_all from_one
      ≡ as_path_by_option (through ∷ []) [] from_one match_all)
    × (evaluate_communities has_seven match_all (7 ∷ 8 ∷ []) ≡ (
        if length has_seven == 0
        then inverted match_all false
        else by_option match_all has_seven (λ x. any x (7 ∷ 8 ∷ []))))
set_conditions_lem_example =
    set_conditions_lem (through ∷ []) [] from_one match_all has_seven (7 ∷ 8 ∷ [])

abbrev change : Statement
change = record {
  name = 2;
  conditions = Condition.community has_seven match_any ∷ [];
  route_action = none;
  mod_actions = Action.change_nexthop (some (v4 9)) ∷ [];
}

abbrev changed_away : Statement
changed_away = record {
  name = 2;
  conditions = Condition.community has_seven match_any ∷ [];
  route_action = some false;
  mod_actions = Action.change_nexthop (some (v4 9)) ∷ [];
}

change_added : mod_statement add turn_away change ≡ done changed_away
unfolding mod_statement mod_entries mod_entry mod_route_action index_of_type
change_added = refl

remove-add_example : mod_statement remove changed_away change ≡ done turn_away
remove-add_example =
    remove-add turn_away change changed_away (omega arith) (omega arith) change_added

abbrev ref : ℕ → PolicyRef
ref n = record { address = n; name = n }

abbrev importing : Assignment
importing = record {
  import_policies = ref 1 ∷ [];
  default_import_policy = accept;
  export_policies = [];
  default_export_policy = accept;
}

abbrev two_policies : RoutingPolicy
two_policies = record {
  statements_at = [] ∷ (prefer ∷ []) ∷ (turn_away ∷ []) ∷ [];
  policy_map = ref 1 ∷ ref 2 ∷ [];
  statement_map = prefer ∷ turn_away ∷ [];
  assignment_map = (0, importing) ∷ [];
}

abbrev importing_both : RoutingPolicy
importing_both =
    let both = record importing { import_policies = ref 1 ∷ ref 2 ∷ [] } in
    record two_policies { assignment_map = (0, both) ∷ [] }

second_added :
    add_policy_assignment 0 direction_import (2 ∷ []) no_verdict two_policies ≡ done importing_both
unfolding add_policy_assignment collect find_policy get_policy assignment_of is_repeated
    set_default_unless_none set_policy with_policies put_assignment
second_added = refl

one_distinct : AreDistinct two_policies
unfolding is_repeated
one_distinct = ((refl, refl), tt)

abbrev peer_config : ApplyPolicy
peer_config = record {
  import_policy_list = 1 ∷ 1 ∷ [];
  default_import_policy = accept_route;
  export_policy_list = 2 ∷ 1 ∷ [];
  default_export_policy = reject_route;
}

Reaches-AreDistinct_example : AreDistinct (set_peer_policy 7 peer_config importing_both)
Reaches-AreDistinct_example =
    Reaches-AreDistinct two_policies (set_peer_policy 7 peer_config importing_both)
      (step (added 0 direction_import (2 ∷ []) no_verdict second_added)
        (step (peer_set 7 peer_config) start))
      one_distinct

first_found : find_policy 1 two_policies.policy_map ≡ some (ref 1)
unfolding find_policy
first_found = refl

not_exported : any (λ x. 1 == x.name) (get_policy 0 direction_export two_policies) ≡ false
unfolding get_policy assignment_of
not_exported = refl

delete_policy-import_example :
    (r' : RoutingPolicy) × (delete_policy 1 [] true false (0 ∷ []) two_policies ≡ done r')
    × (find_policy 1 r'.policy_map ≡ none)
    × (r'.assignment_map ≡ two_policies.assignment_map)
delete_policy-import_example =
    delete_policy-import 1 [] false (0 ∷ []) two_policies (ref 1) first_found (not_exported, tt)
