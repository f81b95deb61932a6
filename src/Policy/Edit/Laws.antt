-- ===== src/Policy/Edit/Laws.antt =====
-- What `Add` and `Remove` of a statement in internal/pkg/table/policy.go undo, and where `Remove`
-- goes wrong.
use mathlib.Core.Path.{subst}
use goplane.Prelude.{
  ℕ, Bool, true, List, [], ◌∷◌, ◌++◌, Option, none, some, ◌≡◌, ◌≢◌, refl, sym, ap, ◌∙◌, arith, ◌==◌,
  ltb, length, remove_at-last, length-append, ◌≤◌, Option-cases, Bool-cases, inl, inr,
}
use goplane.Policy.Actions.{Statement}
use goplane.Policy.Edit.{
  Outcome, done, refused, panic, ◌>>>◌, OpType, add, remove, condition_type, action_type,
  index_of_type, mod_entry, mod_entries, mod_route_action, mod_statement,
}

module _ {ℓ} {A : Type ℓ} (typ : A → ℕ) where
  index-append :
      (x : A) (l : List A)
      → index_of_type typ (typ x) l ≡ none
      → index_of_type typ (typ x) (l ++ x ∷ []) ≡ some (length l)
  unfolding index_of_type
  index-append x [] h = ground arith
  index-append x (y ∷ l) h = elim (Bool-cases (typ x == typ y)) [
    | inl same ↦ ground (arith, same)
    | inr other ↦ elim (Option-cases (index_of_type typ (typ x) l)) [
      | inl e ↦ rw (other, index-append x l e) refl
      | inr (i, e) ↦ ground (arith, other, e)
    ]
  ]

  added :
      (x : A) (l : List A)
      → index_of_type typ (typ x) l ≡ none
      → mod_entry typ add l x l ≡ done (l ++ x ∷ [])
  unfolding mod_entry
  added x l e = rw (mod_entry, e) refl

  removed :
      (x : A) (l : List A)
      → index_of_type typ (typ x) l ≡ none
      → mod_entry typ remove (l ++ x ∷ []) x (l ++ x ∷ []) ≡ done l
  unfolding mod_entry
  removed x l e =
      let inside : ltb (length l) (length (l ++ x ∷ [])) ≡ true =
        ground (arith, length-append l (x ∷ [])) in
      rw (mod_entry, index-append x l e, inside) (ap done (remove_at-last l x))

  not_added :
      (x : A) (i : ℕ) (l : List A)
      → index_of_type typ (typ x) l ≡ some i
      → mod_entry typ add l x l ≡ refused
  unfolding mod_entry
  not_added x i l e = rw (mod_entry, e) refl

  -- One added entry can be taken out again.
  undo_entry :
      (x : A) (l l' : List A)
      → mod_entry typ add l x l ≡ done l'
      → mod_entry typ remove l' x l' ≡ done l
  undo_entry x l l' h = elim (Option-cases (index_of_type typ (typ x) l)) [
    | inl e ↦
        let both : done (l ++ x ∷ []) ≡ done l' = sym (added x l e) ∙ h in
        let same : l ++ x ∷ [] ≡ l' = cc in
        subst (λ m. mod_entry typ remove m x m ≡ done l) same (removed x l e)
    | inr (i, e) ↦ absurd (refused_done l' (sym (not_added x i l e) ∙ h))
  ]
    where
      refused_done : (l' : List A) → refused ≢ done l'
      refused_done l' e = cc

  bind-done : (m : Outcome (List A)) → (m >>> done) ≡ m
  bind-done (done x) = refl
  bind-done refused = refl
  bind-done panic = refl

  undo_entries :
      (xs l l' : List A)
      → length xs ≤ 1
      → mod_entries typ add l xs l ≡ done l'
      → mod_entries typ remove l' xs l' ≡ done l
  unfolding mod_entries
  undo_entries [] l l' n h = sym h
  undo_entries (x ∷ []) l l' n h =
      bind-done (mod_entry typ remove l' x l')
      ∙ undo_entry x l l' (sym (bind-done (mod_entry typ add l x l)) ∙ h)
  undo_entries (x ∷ y ∷ xs) l l' n h = absurd (omega arith)

  -- `Remove` of the first two entries of a list takes out the first and the third: the second index
  -- was found before the first removal.
  pub mod_entries-skips :
      (x y z a b : A) (l : List A)
      → typ a ≡ typ x
      → typ b ≡ typ y
      → typ x ≢ typ y
      → mod_entries typ remove (x ∷ y ∷ z ∷ l) (a ∷ b ∷ []) (x ∷ y ∷ z ∷ l) ≡ done (y ∷ l)
  unfolding mod_entries mod_entry index_of_type
  mod_entries-skips x y z a b l h k n = ground arith

undo_route_action :
    (a b c : Option Bool) → mod_route_action add a b ≡ done c → mod_route_action remove c b ≡ done a
unfolding mod_route_action
undo_route_action a none c h = cc
undo_route_action none (some b) none h = cc
undo_route_action none (some b) (some c) h = refl
undo_route_action (some a) (some b) c h = cc

-- The three parts of a change.
record Parts (op : OpType) (s r s' : Statement) : Type 0 where
  pub conditions_done :
      mod_entries condition_type op s.conditions r.conditions s.conditions ≡ done s'.conditions
  pub route_done : mod_route_action op s.route_action r.route_action ≡ done s'.route_action
  pub actions_done :
      mod_entries action_type op s.mod_actions r.mod_actions s.mod_actions ≡ done s'.mod_actions
  pub name_kept : s'.name ≡ s.name

Parts-mod : (op : OpType) (s r s' : Statement) → Parts op s r s' → mod_statement op s r ≡ done s'
unfolding mod_statement
Parts-mod op s r s' p =
    rw (p.conditions_done, p.route_done, p.actions_done) (ground (arith, p.name_kept))

bind_inversion {ℓ κ} :
    {A : Type ℓ} {B : Type κ} (m : Outcome A) (f : A → Outcome B) (b : B)
    → (m >>> f) ≡ done b
    → (a : A) × (m ≡ done a) × (f a ≡ done b)
bind_inversion (done a) f b h = (a, refl, h)
bind_inversion refused f b h = cc
bind_inversion panic f b h = cc

mod-Parts : (op : OpType) (s r s' : Statement) → mod_statement op s r ≡ done s' → Parts op s r s'
unfolding mod_statement
mod-Parts op s r s' h =
    let (cs, e, h1) =
      bind_inversion (mod_entries condition_type op s.conditions r.conditions s.conditions) _ s'
        h in
    let (ra, e1, h2) = bind_inversion (mod_route_action op s.route_action r.route_action) _ s' h1 in
    let (acts, e2, h3) =
      bind_inversion (mod_entries action_type op s.mod_actions r.mod_actions s.mod_actions) _ s'
        h2 in
    let same : record s { conditions = cs; route_action = ra; mod_actions = acts } ≡ s' = cc in
    record {
      conditions_done = e ∙ ap (λ (x : Statement). done x.conditions) same;
      route_done = e1 ∙ ap (λ (x : Statement). done x.route_action) same;
      actions_done = e2 ∙ ap (λ (x : Statement). done x.mod_actions) same;
      name_kept = sym (ap (λ (x : Statement). x.name) same);
    }

-- An `Add` of at most one condition and at most one action that is not refused is undone by `Remove`.
pub remove-add :
    (s r s' : Statement)
    → length r.conditions ≤ 1
    → length r.mod_actions ≤ 1
    → mod_statement add s r ≡ done s'
    → mod_statement remove s' r ≡ done s
remove-add s r s' n m h =
    let p = mod-Parts add s r s' h in
    Parts-mod remove s' r s (record {
      conditions_done =
          undo_entries condition_type r.conditions s.conditions s'.conditions n p.conditions_done;
      route_done = undo_route_action s.route_action r.route_action s'.route_action p.route_done;
      actions_done =
          undo_entries action_type r.mod_actions s.mod_actions s'.mod_actions m p.actions_done;
      name_kept = sym p.name_kept;
    })
