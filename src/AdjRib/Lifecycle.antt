-- ===== src/AdjRib/Lifecycle.antt =====
-- The counts of internal/pkg/table/adj.go over the life of a table.
use mathlib.Core.Path.{subst}
use mathlib.Core.Option.{some-injective}
use goplane.Prelude.{
  ℕ, Bool, true, false, List, [], ◌∷◌, Option, none, some, ◌≡◌, refl, sym, ap, ◌∙◌, arith, ◌==◌,
  if◌then◌else◌, ◌>>=◌, ◌+◌, not, keep, map, Bool-cases, inl, inr, ==_iff, ◌≢◌,
}
use goplane.Prelude.Int.{pos}
use goplane.Bgp.{Packet}
use goplane.RoutePath.{RoutePath, has, set_path_attr}
use goplane.RoutePath.Values.{has_no_llgr}
use goplane.RoutePath.Rewrite.{set_communities}
use goplane.AdjRib.{Dest, AdjRib, update, update_one}
use goplane.AdjRib.Accepted.{
  accepting, accepted_in, count_accepted, IsCounted, update_one-IsCounted,
}
use goplane.AdjRib.Stale.{
  change_paths, stale_path, stale_all, llgr_path, llgr_kept, llgr_walk, drop_all, drop_stale,
  mark_llgr_stale_or_drop,
}

-- The changes of a table of received routes.
pub data Changes (pkt : Packet) : AdjRib → AdjRib → Type 0 where
  updated :
      {adj adj' : AdjRib} (l : List RoutePath) → update pkt l adj ≡ some adj' → Changes pkt adj adj'
  dropped : {adj : AdjRib} (fs : List ℕ) → Changes pkt adj (drop_all fs adj).0
  staled : {adj : AdjRib} (fs : List ℕ) → Changes pkt adj (stale_all fs adj).0
  stale_dropped :
      {adj adj' : AdjRib} (fs : List ℕ) (l : List RoutePath)
      → drop_stale pkt fs adj ≡ some (adj', l)
      → Changes pkt adj adj'
  llgr_marked :
      {adj adj' : AdjRib} (fs : List ℕ) (l : List RoutePath)
      → mark_llgr_stale_or_drop pkt fs adj ≡ some (adj', l)
      → Changes pkt adj adj'

pub data Reaches (pkt : Packet) : AdjRib → AdjRib → Type 0 where
  start : {adj : AdjRib} → Reaches pkt adj adj
  step : {a b c : AdjRib} → Changes pkt a b → Reaches pkt b c → Reaches pkt a c

KeepsRejected : (RoutePath → RoutePath) → Type 0
KeepsRejected g = (p : RoutePath) → (g p).rejected ≡ p.rejected

accepted_in-map :
    (g : RoutePath → RoutePath) (l : List RoutePath)
    → KeepsRejected g
    → accepted_in (map g l) ≡ accepted_in l
unfolding KeepsRejected
accepted_in-map g [] k = refl
accepted_in-map g (p ∷ l) k =
    ap (λ b. (if b then 0 else 1) + accepted_in (map g l)) (k p)
    ∙ ap (λ n. accepting p + n) (accepted_in-map g l k)

count_accepted-change_paths :
    (g : RoutePath → RoutePath) (f rf : ℕ) (l : List Dest)
    → KeepsRejected g
    → count_accepted rf (change_paths g f l) ≡ count_accepted rf l
unfolding change_paths
count_accepted-change_paths g f rf [] k = refl
count_accepted-change_paths g f rf (d ∷ l) k = elim (Bool-cases (d.family == f)) [
  | inl e ↦ simp (e) (
      ap (λ n. (if d.family == rf then n else 0) + count_accepted rf (change_paths g f l))
        (accepted_in-map g d.known_path_list k)
      ∙ ap (λ n. (if d.family == rf then accepted_in d.known_path_list else 0) + n)
          (count_accepted-change_paths g f rf l k))
  | inr e ↦ simp (e) (
      ap (λ n. (if d.family == rf then accepted_in d.known_path_list else 0) + n)
        (count_accepted-change_paths g f rf l k))
]

IsCounted-change_paths :
    (g : RoutePath → RoutePath) (f : ℕ) (adj : AdjRib)
    → KeepsRejected g
    → IsCounted adj
    → IsCounted (record adj { dests = change_paths g f adj.dests })
IsCounted-change_paths g f adj k c rf =
    c rf ∙ ap pos (sym (count_accepted-change_paths g f rf adj.dests k))

stale_path-KeepsRejected : KeepsRejected stale_path
unfolding KeepsRejected stale_path
stale_path-KeepsRejected p = refl

llgr_path-KeepsRejected : KeepsRejected llgr_path
unfolding KeepsRejected llgr_path set_communities set_path_attr
llgr_path-KeepsRejected p = refl

llgr_kept-KeepsRejected : KeepsRejected llgr_kept
unfolding KeepsRejected llgr_kept
llgr_kept-KeepsRejected p = by_test (has_no_llgr p) p.rejected
  where
    by_test : (b r : Bool) → (if b then p else if r then llgr_path p else p).rejected ≡ p.rejected
    by_test true r = refl
    by_test false true = llgr_path-KeepsRejected p
    by_test false false = refl

stale_all-IsCounted : (fs : List ℕ) (adj : AdjRib) → IsCounted adj → IsCounted (stale_all fs adj).0
unfolding stale_all
stale_all-IsCounted [] adj c = c
stale_all-IsCounted (f ∷ fs) adj c =
    stale_all-IsCounted fs (record adj { dests = change_paths stale_path f adj.dests })
      (IsCounted-change_paths stale_path f adj stale_path-KeepsRejected c)

llgr_walk-IsCounted : (fs : List ℕ) (adj : AdjRib) → IsCounted adj → IsCounted (llgr_walk fs adj).0
unfolding llgr_walk
llgr_walk-IsCounted [] adj c = c
llgr_walk-IsCounted (f ∷ fs) adj c =
    llgr_walk-IsCounted fs (record adj { dests = change_paths llgr_kept f adj.dests })
      (IsCounted-change_paths llgr_kept f adj llgr_kept-KeepsRejected c)

count_accepted-keep :
    (rf : ℕ) (fs : List ℕ) (l : List Dest)
    → count_accepted rf (keep (λ d. not (has d.family fs)) l)
      ≡ (if has rf fs then 0 else count_accepted rf l)
count_accepted-keep rf fs [] = ground arith
count_accepted-keep rf fs (d ∷ l) = elim (Bool-cases (d.family == rf)) [
  | inl e ↦
      let same : has d.family fs ≡ has rf fs = ap (λ n. has n fs) ((==_iff d.family rf).0 e) in
      ground (arith, count_accepted-keep rf fs l, same, e)
  | inr e ↦ ground (arith, count_accepted-keep rf fs l, e)
]

drop_all-IsCounted : (fs : List ℕ) (adj : AdjRib) → IsCounted adj → IsCounted (drop_all fs adj).0
unfolding drop_all
drop_all-IsCounted fs adj c rf = elim (Bool-cases (has rf fs)) [
  | inl e ↦
      ap (λ b. if b then pos 0 else adj.accepted rf) e
      ∙ ap pos (
          sym (
            count_accepted-keep rf fs adj.dests
            ∙ ap (λ b. if b then 0 else count_accepted rf adj.dests) e))
  | inr e ↦
      ap (λ b. if b then pos 0 else adj.accepted rf) e
      ∙ c rf
      ∙ ap pos (
          sym (
            count_accepted-keep rf fs adj.dests
            ∙ ap (λ b. if b then 0 else count_accepted rf adj.dests) e))
]

-- A step of `Update` that returned had a table.
update_one-done :
    (pkt : Packet) (path : RoutePath) (adj adj' : AdjRib)
    → update_one pkt path adj ≡ some adj'
    → IsCounted adj
    → IsCounted adj'
unfolding update_one
update_one-done pkt path adj adj' e c = elim (Bool-cases (has path.info.nlri.family adj.families)) [
  | inl h ↦
      let (next, f, c', same) = update_one-IsCounted pkt path adj c h in
      subst IsCounted (some-injective _ _ (sym f ∙ e)) c'
  | inr h ↦ elim (Bool-cases path.info.eor) [
    | inl eor ↦
        let kept : update_one pkt path adj ≡ some adj = rw eor refl in
        subst IsCounted (some-injective _ _ (sym kept ∙ e)) c
    | inr no_eor ↦
        let failed : update_one pkt path adj ≡ none = rw (no_eor, h) refl in
        absurd (nothing (sym failed ∙ e))
  ]
]
  where
    nothing : none ≢ some adj'
    nothing f = cc

bound {ℓ κ} :
    {A : Type ℓ} {B : Type κ} (o : Option A) (f : A → Option B) (b : B)
    → (o >>= f) ≡ some b
    → (a : A) × (o ≡ some a) × (f a ≡ some b)
bound none f b e = absurd cc
bound (some a) f b e = (a, refl, e)

update-done :
    (pkt : Packet) (l : List RoutePath) (adj adj' : AdjRib)
    → update pkt l adj ≡ some adj'
    → IsCounted adj
    → IsCounted adj'
unfolding update
update-done pkt [] adj adj' e c = subst IsCounted (some-injective _ _ e) c
update-done pkt (p ∷ l) adj adj' e c =
    let (next, f, g) = bound (update_one pkt p adj) (update pkt l) adj' e in
    update-done pkt l next adj' g (update_one-done pkt p adj next f c)

abbrev with_list : List RoutePath → AdjRib → Option (AdjRib × List RoutePath)
with_list l adj = some (adj, l)

then_update :
    (pkt : Packet) (l : List RoutePath) (adj adj' : AdjRib) (sent : List RoutePath)
    → (update pkt l adj >>= with_list l) ≡ some (adj', sent)
    → IsCounted adj
    → IsCounted adj'
then_update pkt l adj adj' sent e c =
    let (next, f, g) = bound (update pkt l adj) (with_list l) (adj', sent) e in
    let same : (next, l) ≡ (adj', sent) = some-injective _ _ g in
    subst (λ (x : AdjRib × List RoutePath). IsCounted x.0) same (update-done pkt l adj next f c)

Changes-IsCounted :
    (pkt : Packet) (adj adj' : AdjRib) → Changes pkt adj adj' → IsCounted adj → IsCounted adj'
unfolding drop_stale mark_llgr_stale_or_drop
Changes-IsCounted pkt adj adj' (updated l e) c = update-done pkt l adj adj' e c
Changes-IsCounted pkt adj _ (dropped fs) c = drop_all-IsCounted fs adj c
Changes-IsCounted pkt adj _ (staled fs) c = stale_all-IsCounted fs adj c
Changes-IsCounted pkt adj adj' (stale_dropped fs l e) c = then_update pkt _ adj adj' l e c
Changes-IsCounted pkt adj adj' (llgr_marked fs l e) c =
    then_update pkt (llgr_walk fs adj).1 (llgr_walk fs adj).0 adj' l e
      (llgr_walk-IsCounted fs adj c)

-- However a table is updated, dropped, marked as stale and rid of stale paths, every count stays that
-- of the accepted paths, when it was so at the start.
pub Reaches-IsCounted :
    (pkt : Packet) (adj adj' : AdjRib) → Reaches pkt adj adj' → IsCounted adj → IsCounted adj'
Reaches-IsCounted pkt adj _ start c = c
Reaches-IsCounted pkt adj adj' (step {b = next} s rest) c =
    Reaches-IsCounted pkt next adj' rest (Changes-IsCounted pkt adj next s c)
