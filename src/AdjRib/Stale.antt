-- ===== src/AdjRib/Stale.antt =====
-- internal/pkg/table/adj.go: the paths of a table, and what drops them or marks them as stale. Each of
-- the four changes returns the table and the paths that its caller passes on, as they were before
-- `Update` dates them. The source's `walk` goes through the destinations of each family in turn.
use goplane.Prelude.{
  ℕ, Bool, true, false, List, [], ◌∷◌, ◌++◌, Option, none, some, ◌==◌, if◌then◌else◌, ◌>>=◌, not,
  keep, map, length,
}
use goplane.Prelude.Int.{pos}
use goplane.Bgp.{Packet, community_llgr_stale}
use goplane.RoutePath.{RoutePath, clone, has}
use goplane.RoutePath.Values.{has_no_llgr}
use goplane.RoutePath.Rewrite.{set_communities}
use goplane.AdjRib.{Dest, AdjRib, known_at, put_dest, drop_path, update}

unfoldable pub of_family : ℕ → List Dest → List RoutePath
of_family f [] = []
of_family f (d ∷ l) =
    let rest = of_family f l in if d.family == f then d.known_path_list ++ rest else rest

unfoldable pub walk : List ℕ → List Dest → List RoutePath
walk [] dests = []
walk (f ∷ fs) dests = of_family f dests ++ walk fs dests

unfoldable pub path_list : List ℕ → Bool → AdjRib → List RoutePath
path_list fs accepted adj =
    if accepted then keep (λ p. not p.rejected) (walk fs adj.dests) else walk fs adj.dests

unfoldable pub count : List ℕ → AdjRib → ℕ
count fs adj = length (walk fs adj.dests)

abbrev pub withdrawal : RoutePath → RoutePath
withdrawal p = drop_path (clone p true)

-- `adj.table[rf] = NewTable(rf)` makes a table for a family that has none.
unfoldable pub drop_all : List ℕ → AdjRib → AdjRib × List RoutePath
drop_all fs adj = (
  record {
    families = fs ++ adj.families;
    accepted = λ f. if has f fs then pos 0 else adj.accepted f;
    dests = keep (λ d. not (has d.family fs)) adj.dests;
  },
  map withdrawal (walk fs adj.dests),
)

unfoldable pub drop_stale : Packet → List ℕ → AdjRib → Option (AdjRib × List RoutePath)
drop_stale pkt fs adj = do
  let l = map withdrawal (keep (λ p. p.info.stale) (walk fs adj.dests))
  adj' ← update pkt l adj
  some (adj', l)

-- A change of every known path of a family, in place.
unfoldable pub change_paths : (RoutePath → RoutePath) → ℕ → List Dest → List Dest
change_paths g f [] = []
change_paths g f (d ∷ l) =
    let rest = change_paths g f l in
    if d.family == f
    then record d { known_path_list = map g d.known_path_list } ∷ rest
    else d ∷ rest

unfoldable pub stale_path : RoutePath → RoutePath
stale_path p =
    let n = clone p false in
    record n { info = record n.info { stale = true }; rejected = p.rejected }

unfoldable pub stale_all : List ℕ → AdjRib → AdjRib × List RoutePath
stale_all [] adj = (adj, [])
stale_all (f ∷ fs) adj =
    let changed = change_paths stale_path f adj.dests in
    let r = stale_all fs (record adj { dests = changed }) in
    (r.0, keep (λ p. not p.rejected) (of_family f changed) ++ r.1)

unfoldable pub llgr_path : RoutePath → RoutePath
llgr_path p =
    set_communities (community_llgr_stale ∷ []) false
      (record (clone p false) { rejected = p.rejected })

-- What `MarkLLGRStaleOrDrop` puts in the place of a path, and what it passes to `Update`.
unfoldable pub llgr_kept : RoutePath → RoutePath
llgr_kept p = if has_no_llgr p then p else if p.rejected then llgr_path p else p

unfoldable pub llgr_sent : List RoutePath → List RoutePath
llgr_sent [] = []
llgr_sent (p ∷ l) =
    let rest = llgr_sent l in
    if has_no_llgr p then withdrawal p ∷ rest else if p.rejected then rest else llgr_path p ∷ rest

unfoldable pub llgr_walk : List ℕ → AdjRib → AdjRib × List RoutePath
llgr_walk [] adj = (adj, [])
llgr_walk (f ∷ fs) adj =
    let r = llgr_walk fs (record adj { dests = change_paths llgr_kept f adj.dests }) in
    (r.0, llgr_sent (of_family f adj.dests) ++ r.1)

unfoldable pub mark_llgr_stale_or_drop : Packet → List ℕ → AdjRib → Option (AdjRib × List RoutePath)
mark_llgr_stale_or_drop pkt fs adj = do
  let r = llgr_walk fs adj
  adj' ← update pkt r.1 r.0
  some (adj', r.1)

-- `UpdateAdjRibOut` counts nothing, and panics for a family without a table.
unfoldable pub update_adj_rib_out : List RoutePath → AdjRib → Option AdjRib
update_adj_rib_out [] adj = some adj
update_adj_rib_out (path ∷ l) adj =
    let rf = path.info.nlri.family in
    let key = path.info.nlri.key in
    let skipped = update_adj_rib_out l adj in
    let added =
      update_adj_rib_out l (record adj {
        dests = put_dest rf key (known_at rf key adj.dests ++ path ∷ []) adj.dests;
      }) in
    if path.info.eor then skipped else if has rf adj.families then added else none
