-- ===== src/Policy/Statements.antt =====
-- How the statements of internal/pkg/table/policy.go decide on a path.
use mathlib.Core.Path.{subst, fun_ext}
use mathlib.Core.Option.{some-injective}
use goplane.Prelude.{
  Bool, true, false, List, [], ◌∷◌, ◌++◌, Option, none, some, ◌≡◌, refl, sym, ap, ◌∙◌, ◌>>=◌, ◌↔◌,
  ◌≢◌, Option-cases, inl, inr,
}
use goplane.RoutePath.{RoutePath}
use goplane.Policy.{PolicyOptions, Library}
use goplane.Policy.Actions.{
  Statement, evaluate_all, Verdict, no_verdict, accept, reject, verdict_of, modify, apply_statement,
  apply_policy_statements, Policy, apply_policies,
}

-- The verdict of a list of statements on a path, and the path that they leave: a statement whose
-- conditions fail is passed over; the first one that holds and has an action on the route decides,
-- and those that hold before it have made their changes, which the later conditions see.
pub data Decides (lib : Library) (options : PolicyOptions)
    : List Statement → RoutePath → Verdict → RoutePath → Type 0 where
  undecided : {p : RoutePath} → Decides lib options [] p no_verdict p
  passed :
      {s : Statement} {l : List Statement} {p q : RoutePath} {v : Verdict}
      → evaluate_all lib options s.conditions p ≡ some false
      → Decides lib options l p v q
      → Decides lib options (s ∷ l) p v q
  changed :
      {s : Statement} {l : List Statement} {p p' q : RoutePath} {v : Verdict}
      → evaluate_all lib options s.conditions p ≡ some true
      → modify lib options s.mod_actions p ≡ some p'
      → s.route_action ≡ none
      → Decides lib options l p' v q
      → Decides lib options (s ∷ l) p v q
  decided :
      {s : Statement} {l : List Statement} {p q : RoutePath} {b : Bool}
      → evaluate_all lib options s.conditions p ≡ some true
      → modify lib options s.mod_actions p ≡ some q
      → s.route_action ≡ some b
      → Decides lib options (s ∷ l) p (verdict_of (some b)) q

abbrev pub all_statements : List Policy → List Statement
all_statements [] = []
all_statements (x ∷ l) = x.statements ++ all_statements l

module _ (lib : Library) (options : PolicyOptions) where
  apply_statement-passed :
      (s : Statement) (p : RoutePath)
      → evaluate_all lib options s.conditions p ≡ some false
      → apply_statement lib options s p ≡ some (no_verdict, p)
  unfolding apply_statement
  apply_statement-passed s p e = rw (apply_statement, e) refl

  apply_statement-holds :
      (s : Statement) (p p' : RoutePath)
      → evaluate_all lib options s.conditions p ≡ some true
      → modify lib options s.mod_actions p ≡ some p'
      → apply_statement lib options s p ≡ some (verdict_of s.route_action, p')
  unfolding apply_statement
  apply_statement-holds s p p' e m = rw (apply_statement, e, m) refl

  apply_statement-panics :
      (s : Statement) (p : RoutePath)
      → evaluate_all lib options s.conditions p ≡ none
      → apply_statement lib options s p ≡ none
  unfolding apply_statement
  apply_statement-panics s p e = rw (apply_statement, e) refl

  apply_statement-modify_panics :
      (s : Statement) (p : RoutePath)
      → evaluate_all lib options s.conditions p ≡ some true
      → modify lib options s.mod_actions p ≡ none
      → apply_statement lib options s p ≡ none
  unfolding apply_statement
  apply_statement-modify_panics s p e m = rw (apply_statement, e, m) refl

  -- The loop from the result of its first statement.
  abbrev go_on : List Statement → Verdict × RoutePath → Option (Verdict × RoutePath)
  go_on l (no_verdict, p) = apply_policy_statements lib options l p
  go_on l (accept, p) = some (accept, p)
  go_on l (reject, p) = some (reject, p)

  loop_step :
      (s : Statement) (l : List Statement) (p : RoutePath) (r : Verdict × RoutePath)
      → apply_statement lib options s p ≡ some r
      → apply_policy_statements lib options (s ∷ l) p ≡ go_on l r
  unfolding apply_policy_statements
  loop_step s l p (no_verdict, p') e = rw (apply_policy_statements, e) refl
  loop_step s l p (accept, p') e = rw (apply_policy_statements, e) refl
  loop_step s l p (reject, p') e = rw (apply_policy_statements, e) refl

  loop-panics :
      (s : Statement) (l : List Statement) (p : RoutePath)
      → apply_statement lib options s p ≡ none
      → apply_policy_statements lib options (s ∷ l) p ≡ none
  unfolding apply_policy_statements
  loop-panics s l p e = rw (apply_policy_statements, e) refl

  Decides-apply :
      {l : List Statement} {p q : RoutePath} {v : Verdict}
      → Decides lib options l p v q
      → apply_policy_statements lib options l p ≡ some (v, q)
  Decides-apply undecided = unfold apply_policy_statements in refl
  Decides-apply (passed {s} {l} {p} {q} {v} e d) =
      loop_step s l p (no_verdict, p) (apply_statement-passed s p e) ∙ Decides-apply d
  Decides-apply (changed {s} {l} {p} {p'} {q} {v} e m n d) =
      loop_step s l p (no_verdict, p')
        (apply_statement-holds s p p' e m ∙ ap (λ o. some (verdict_of o, p')) n)
      ∙ Decides-apply d
  Decides-apply (decided {s} {l} {p} {q} {b} e m a) =
      loop_step s l p (verdict_of (some b), q)
        (apply_statement-holds s p q e m ∙ ap (λ o. some (verdict_of o, q)) a)
      ∙ stops b
    where
      stops : (b : Bool) → go_on l (verdict_of (some b), q) ≡ some (verdict_of (some b), q)
      stops true = refl
      stops false = refl

  decided_by :
      (s : Statement) (l : List Statement) (p q : RoutePath) (a : Option Bool)
      (r : Verdict × RoutePath)
      → s.route_action ≡ a
      → evaluate_all lib options s.conditions p ≡ some true
      → modify lib options s.mod_actions p ≡ some q
      → (apply_policy_statements lib options l q ≡ some r → Decides lib options l q r.0 r.1)
      → go_on l (verdict_of a, q) ≡ some r
      → Decides lib options (s ∷ l) p r.0 r.1
  decided_by s l p q none r a e m rest h = Decides.changed e m a (rest h)
  decided_by s l p q (some true) r a e m rest h =
      subst (λ x. Decides lib options (s ∷ l) p x.0 x.1) (some-injective _ _ h)
        (Decides.decided e m a)
  decided_by s l p q (some false) r a e m rest h =
      subst (λ x. Decides lib options (s ∷ l) p x.0 x.1) (some-injective _ _ h)
        (Decides.decided e m a)

  apply-Decides :
      (l : List Statement) (p : RoutePath) (r : Verdict × RoutePath)
      → apply_policy_statements lib options l p ≡ some r
      → Decides lib options l p r.0 r.1
  apply-Decides [] p r h =
      unfold apply_policy_statements in
      subst (λ x. Decides lib options [] p x.0 x.1) (some-injective _ _ h) Decides.undecided
  apply-Decides (s ∷ l) p r h = elim (Option-cases (evaluate_all lib options s.conditions p)) [
    | inl e ↦ absurd (none_some r (sym (loop-panics s l p (apply_statement-panics s p e)) ∙ h))
    | inr (false, e) ↦ Decides.passed e (
        apply-Decides l p r
          (sym (loop_step s l p (no_verdict, p) (apply_statement-passed s p e)) ∙ h))
    | inr (true, e) ↦ elim (Option-cases (modify lib options s.mod_actions p)) [
      | inl m ↦
          absurd (none_some r (sym (loop-panics s l p (apply_statement-modify_panics s p e m)) ∙ h))
      | inr (q, m) ↦ decided_by s l p q s.route_action r refl e m (apply-Decides l q r) (
          sym (loop_step s l p (verdict_of s.route_action, q) (apply_statement-holds s p q e m))
          ∙ h)
    ]
  ]
    where
      none_some : (r : Verdict × RoutePath) → none ≢ some r
      none_some r e = cc

  -- The loops over policies and over their statements are one loop.
  append_step :
      (l m : List Statement) (p : RoutePath)
      → apply_policy_statements lib options (l ++ m) p
        ≡ (do r ← apply_policy_statements lib options l p; go_on m r)
  append_step [] m p = unfold apply_policy_statements in refl
  append_step (s ∷ l) m p = elim (Option-cases (apply_statement lib options s p)) [
    | inl e ↦
        loop-panics s (l ++ m) p e
        ∙ sym (ap (λ (o : Option (Verdict × RoutePath)). o >>= go_on m) (loop-panics s l p e))
    | inr ((no_verdict, q), e) ↦
        loop_step s (l ++ m) p (no_verdict, q) e
        ∙ append_step l m q
        ∙ sym (
            ap (λ (o : Option (Verdict × RoutePath)). o >>= go_on m)
              (loop_step s l p (no_verdict, q) e))
    | inr ((accept, q), e) ↦
        loop_step s (l ++ m) p (accept, q) e
        ∙ sym (
            ap (λ (o : Option (Verdict × RoutePath)). o >>= go_on m)
              (loop_step s l p (accept, q) e))
    | inr ((reject, q), e) ↦
        loop_step s (l ++ m) p (reject, q) e
        ∙ sym (
            ap (λ (o : Option (Verdict × RoutePath)). o >>= go_on m)
              (loop_step s l p (reject, q) e))
  ]

  abbrev go_on_policies : List Policy → Verdict × RoutePath → Option (Verdict × RoutePath)
  go_on_policies l (no_verdict, p) = apply_policies lib options l p
  go_on_policies l (accept, p) = some (accept, p)
  go_on_policies l (reject, p) = some (reject, p)

  policies_step :
      (x : Policy) (l : List Policy) (p : RoutePath)
      → apply_policies lib options (x ∷ l) p
        ≡ (do r ← apply_policy_statements lib options x.statements p; go_on_policies l r)
  unfolding apply_policies
  policies_step x l p = elim (Option-cases (apply_policy_statements lib options x.statements p)) [
    | inl e ↦ rw (apply_policies, e) refl
    | inr ((no_verdict, q), e) ↦ rw (apply_policies, e) refl
    | inr ((accept, q), e) ↦ rw (apply_policies, e) refl
    | inr ((reject, q), e) ↦ rw (apply_policies, e) refl
  ]

  go_on_same :
      (l : List Policy)
      → ((q : RoutePath)
          → apply_policies lib options l q
            ≡ apply_policy_statements lib options (all_statements l) q)
      → (r : Verdict × RoutePath) → go_on_policies l r ≡ go_on (all_statements l) r
  go_on_same l h (no_verdict, q) = h q
  go_on_same l h (accept, q) = refl
  go_on_same l h (reject, q) = refl

  policies_flatten :
      (l : List Policy) (p : RoutePath)
      → apply_policies lib options l p ≡ apply_policy_statements lib options (all_statements l) p
  policies_flatten [] p = unfold apply_policies apply_policy_statements in refl
  policies_flatten (x ∷ l) p =
      policies_step x l p
      ∙ ap (λ f. apply_policy_statements lib options x.statements p >>= f)
          (fun_ext (go_on_same l (policies_flatten l)))
      ∙ sym (append_step x.statements (all_statements l) p)

  -- Policies decide as the list of all their statements does, and return nothing else.
  pub apply_policies-Decides :
      (l : List Policy) (p q : RoutePath) (v : Verdict)
      → (apply_policies lib options l p ≡ some (v, q))
        ↔ Decides lib options (all_statements l) p v q
  apply_policies-Decides l p q v = (
    λ h. apply-Decides (all_statements l) p (v, q) (sym (policies_flatten l p) ∙ h),
    λ d. policies_flatten l p ∙ Decides-apply d,
  )
