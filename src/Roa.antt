-- ===== src/Roa.antt =====
-- internal/pkg/table/roa.go: the table of route origin authorizations, and the validation of a path.
-- The tree of networks is github.com/k-sone/critbitgo, a parameter; so are `sort.Slice`, and the
-- network of a path, which lies in the fields of the NLRI that `Nlri` leaves out.
use goplane.Prelude.{
  ℕ, Bool, true, false, List, [], ◌∷◌, ◌++◌, Option, none, some, ◌==◌, ltb, leb, if◌then◌else◌,
  ◌>>=◌, ◌&&◌, ◌||◌, not, any, keep, length,
}
use goplane.Bgp.{AsPathParam, Nlri, rf_ipv4_uc, rf_ipv6_uc, seg_seq, seg_confed_seq, seg_confed_set}
use goplane.RoutePath.{RoutePath}
use goplane.RoutePath.AsPath.{get_as_path}
pub mod Entries
pub mod Validity

-- `net.IPNet`, by its address and the size of its mask.
pub record Network : Type 0 where
  pub address : ℕ
  pub prefix_len : ℕ

-- `Src` is a string, here a number that stands for it.
pub record Roa : Type 0 where
  pub family : ℕ
  pub network : Network
  pub max_len : ℕ
  pub asn : ℕ
  pub src : ℕ

-- bgp.AFI_IP6
abbrev pub afi_ip6 : ℕ
afi_ip6 = 2

unfoldable pub roa_equal : Roa → Roa → Bool
roa_equal r roa = r.max_len == roa.max_len && r.src == roa.src && r.asn == roa.asn

-- What the code uses of critbitgo.Net. A bucket is kept by pointer in the tree: to write its entries
-- is to `put` them.
pub record NetTree : Type 1 where
  pub Tree : Type 0
  pub get : Tree → Network → Option (List Roa)
  pub put : Tree → Network → List Roa → Tree
  pub delete : Tree → Network → Tree
  pub walk : Tree → List (Network × List Roa)
  pub walk_match : Tree → Network → List (List Roa)

-- The order of `sort.Slice`.
unfoldable pub roa_less : Roa → Roa → Bool
roa_less r1 r2 =
    if ltb r1.max_len r2.max_len
    then true
    else if ltb r2.max_len r1.max_len
    then false
    else ltb r1.asn r2.asn

-- The insertion into a bucket: an entry that is there already is left alone.
unfoldable pub add_entry : ((Roa → Roa → Bool) → List Roa → List Roa) → Roa → List Roa → List Roa
add_entry sort roa entries =
    if any (λ r. roa_equal r roa) entries then entries else sort roa_less (entries ++ roa ∷ [])

-- The first equal entry is taken out.
unfoldable pub delete_entry : Roa → List Roa → List Roa
delete_entry roa [] = []
delete_entry roa (r ∷ l) = let rest = delete_entry roa l in if roa_equal r roa then l else r ∷ rest

pub data Status : Type 0 where
  valid invalid not_found : Status

pub data Reason : Type 0 where
  no_reason asn_differs too_long : Reason

pub record Validation : Type 0 where
  pub status : Status
  pub reason : Reason
  pub matched : List Roa
  pub unmatched_as : List Roa
  pub unmatched_length : List Roa

abbrev pub initial : Validation
initial = record {
  status = not_found;
  reason = no_reason;
  matched = [];
  unmatched_as = [];
  unmatched_length = [];
}

-- The last segment decides on the origin; `none` is the early return for a set.
unfoldable pub last_number : ℕ → List ℕ → ℕ
last_number own_as [] = own_as
last_number own_as (n ∷ []) = n
last_number own_as (n ∷ m ∷ l) = last_number own_as (m ∷ l)

unfoldable pub origin_of_segment : ℕ → AsPathParam → Option ℕ
origin_of_segment own_as s =
    if s.seg_type == seg_seq
    then some (last_number own_as s.asns)
    else if s.seg_type == seg_confed_set || s.seg_type == seg_confed_seq
    then some own_as
    else none

unfoldable pub origin_as : ℕ → List AsPathParam → Option ℕ
origin_as own_as [] = some own_as
origin_as own_as (s ∷ []) = origin_of_segment own_as s
origin_as own_as (s ∷ s' ∷ l) = origin_as own_as (s' ∷ l)

-- The loop over the entries of a bucket, and the walk over the buckets.
unfoldable pub sort_entry : ℕ → ℕ → Roa → Validation → Validation
sort_entry prefix_len asn r v =
    if leb prefix_len r.max_len
    then (if not (r.asn == 0) && r.asn == asn
        then record v { matched = v.matched ++ r ∷ [] }
        else record v { unmatched_as = v.unmatched_as ++ r ∷ [] })
    else record v { unmatched_length = v.unmatched_length ++ r ∷ [] }

unfoldable pub sort_bucket : ℕ → ℕ → List Roa → Validation → Validation
sort_bucket prefix_len asn [] v = v
sort_bucket prefix_len asn (r ∷ l) v = sort_bucket prefix_len asn l (sort_entry prefix_len asn r v)

unfoldable pub sort_buckets : ℕ → ℕ → List (List Roa) → Validation → Validation
sort_buckets prefix_len asn [] v = v
sort_buckets prefix_len asn (b ∷ bs) v =
    sort_buckets prefix_len asn bs (sort_bucket prefix_len asn b v)

unfoldable pub conclude : Validation → Validation
conclude v =
    if not (length v.matched == 0)
    then record v { status = valid; reason = no_reason }
    else if not (length v.unmatched_as == 0)
    then record v { status = invalid; reason = asn_differs }
    else if not (length v.unmatched_length == 0)
    then record v { status = invalid; reason = too_long }
    else record v { status = not_found; reason = no_reason }

abbrev pub as_segments : Option (List AsPathParam) → List AsPathParam
as_segments none = []
as_segments (some l) = l

module _ (net : NetTree) where
  -- `ROATable`: one tree for each family.
  pub record RoaTable : Type 0 where
    pub ipv4 : net.Tree
    pub ipv6 : net.Tree

  unfoldable pub roa2tree : RoaTable → Roa → net.Tree
  roa2tree rt roa = if roa.family == afi_ip6 then rt.ipv6 else rt.ipv4

  abbrev pub set_tree : RoaTable → Roa → net.Tree → RoaTable
  set_tree rt roa t =
      if roa.family == afi_ip6 then record rt { ipv6 = t } else record rt { ipv4 = t }

  -- `getBucket`: a network without a bucket gets an empty one.
  unfoldable pub get_bucket : net.Tree → Roa → List Roa
  get_bucket t roa = elim (net.get t roa.network) [ none ↦ [] | some b ↦ b ]

  unfoldable pub add_roa : ((Roa → Roa → Bool) → List Roa → List Roa) → RoaTable → Roa → RoaTable
  add_roa sort rt roa =
      let t = roa2tree rt roa in
      set_tree rt roa (net.put t roa.network (add_entry sort roa (get_bucket t roa)))

  unfoldable pub delete_roa : RoaTable → Roa → RoaTable
  delete_roa rt roa =
      let t = roa2tree rt roa in
      elim (net.get t roa.network) [
        | none ↦ rt
        | some b ↦ set_tree rt roa (net.put t roa.network (delete_entry roa b))
      ]

  -- `DeleteAll`: what came from `src` goes, and so do the networks that are left without entries.
  unfoldable pub keep_others : ℕ → List Roa → List Roa
  keep_others src = keep (λ r. not (r.src == src))

  unfoldable pub write_others : ℕ → List (Network × List Roa) → net.Tree → net.Tree
  write_others src [] t = t
  write_others src ((n, b) ∷ l) t =
      write_others src l
        (if ltb 0 (length (keep_others src b)) then net.put t n (keep_others src b) else t)

  unfoldable pub drop_empty : ℕ → List (Network × List Roa) → net.Tree → net.Tree
  drop_empty src [] t = t
  drop_empty src ((n, b) ∷ l) t =
      drop_empty src l (if ltb 0 (length (keep_others src b)) then t else net.delete t n)

  unfoldable pub delete_all_in : ℕ → net.Tree → net.Tree
  delete_all_in src t = drop_empty src (net.walk t) (write_others src (net.walk t) t)

  unfoldable pub delete_all : ℕ → RoaTable → RoaTable
  delete_all src rt = record { ipv4 = delete_all_in src rt.ipv4; ipv6 = delete_all_in src rt.ipv6 }

  unfoldable pub tree_of : RoaTable → ℕ → Option net.Tree
  tree_of rt family =
      if family == rf_ipv4_uc
      then some rt.ipv4
      else if family == rf_ipv6_uc
      then some rt.ipv6
      else none

  -- `Validate`; `none` is its nil.
  unfoldable pub validate : (Nlri → Network) → RoaTable → RoutePath → Option Validation
  validate nlri_to_ip_net rt path = if path.is_withdraw || path.info.eor then none else (do
    tree ← tree_of rt path.info.nlri.family
    let r = nlri_to_ip_net path.info.nlri
    some (elim (origin_as path.info.source.local_as (as_segments (get_as_path path))) [
      | none ↦ initial
      | some asn ↦ conclude (sort_buckets r.prefix_len asn (net.walk_match tree r) initial)
    ]))
