-- ===== src/Tests/Roas.antt =====
-- The table of route origin authorizations over a list of networks.
use mathlib.Core.List.{Permᴰ}
use goplane.Prelude.{
  ℕ, Bool, List, [], ◌∷◌, Option, none, some, ◌≡◌, refl, ◌==◌, leb, if◌then◌else◌, ◌&&◌, ◌||◌, not,
  ◌/◌, ◌^◌, ◌-◌, map, keep, Bool-cases, inl, inr,
}
use goplane.Bgp.{Nlri}
use goplane.RoutePath.{get_path_attr}
use goplane.RoutePath.AsPath.{get_as_path}
use goplane.Roa.{
  Roa, Network, NetTree, RoaTable, Validation, roa_equal, add_entry, delete_entry, validate,
  tree_of, origin_as,
}
use goplane.Roa.Entries.{IsBucket, holds, add_entry_lem, delete_entry_lem}
use goplane.Roa.Validity.{rfc6811, covering, validate-rfc6811}
use goplane.Tests.Data.{from_one}

abbrev Nets : Type 0
Nets = List (Network × List Roa)

abbrev same_network : Network → Network → Bool
same_network n m = n.address == m.address && n.prefix_len == m.prefix_len

-- Whether an IPv4 network holds another.
abbrev holds_network : Network → Network → Bool
holds_network n m =
    leb n.prefix_len m.prefix_len
    && n.address / 2 ^ (32 - n.prefix_len) == m.address / 2 ^ (32 - n.prefix_len)

get_net : Nets → Network → Option (List Roa)
get_net [] n = none
get_net ((m, b) ∷ l) n = let rest = get_net l n in if same_network m n then some b else rest

put_net : Nets → Network → List Roa → Nets
put_net [] n b = (n, b) ∷ []
put_net ((m, c) ∷ l) n b =
    let rest = put_net l n b in if same_network m n then (n, b) ∷ l else (m, c) ∷ rest

abbrev nets : NetTree
nets = record {
  Tree = Nets;
  get = get_net;
  put = put_net;
  delete = λ l n. keep (λ e. not (same_network e.0 n)) l;
  walk = λ l. l;
  walk_match = λ l n. map (λ e. e.1) (keep (λ e. holds_network e.0 n) l);
}

abbrev network : Network
network = record { address = 167772160; prefix_len = 8 }

abbrev roa : ℕ → ℕ → Roa
roa max_len asn = record { family = 1; network = network; max_len = max_len; asn = asn; src = 1 }

abbrev table : RoaTable nets
table = record { ipv4 = (network, roa 16 65003 ∷ roa 24 65009 ∷ []) ∷ []; ipv6 = [] }

abbrev route_net : Nlri → Network
route_net n = record { address = 167837696; prefix_len = 24 }

validate-rfc6811_example :
    (v : Validation) × (validate nets route_net table from_one ≡ some v)
    × ((v.status, v.reason)
        ≡ rfc6811 24 65003 (covering (nets.walk_match table.ipv4 (route_net from_one.info.nlri))))
unfolding tree_of origin_as get_as_path get_path_attr goplane.Roa.origin_of_segment
    goplane.Roa.last_number
validate-rfc6811_example =
    validate-rfc6811 nets route_net table from_one table.ipv4 65003 refl refl refl refl

-- Insertion sort.
insert_roa : (Roa → Roa → Bool) → Roa → List Roa → List Roa
insert_roa f r [] = r ∷ []
insert_roa f r (q ∷ l) = let rest = insert_roa f r l in if f q r then q ∷ rest else r ∷ q ∷ l

sort_roas : (Roa → Roa → Bool) → List Roa → List Roa
sort_roas f [] = []
sort_roas f (r ∷ l) = insert_roa f r (sort_roas f l)

insert_roa-perm : (f : Roa → Roa → Bool) (r : Roa) (l : List Roa) → Permᴰ (r ∷ l) (insert_roa f r l)
unfolding insert_roa
insert_roa-perm f r [] = Permᴰ.cons refl Permᴰ.nil
insert_roa-perm f r (q ∷ l) = elim (Bool-cases (f q r)) [
  | inl e ↦ rw e (Permᴰ.trans (Permᴰ.swap refl refl) (Permᴰ.cons refl (insert_roa-perm f r l)))
  | inr e ↦ rw e (refl_perm (r ∷ q ∷ l))
]
  where
    refl_perm : (m : List Roa) → Permᴰ m m
    refl_perm [] = Permᴰ.nil
    refl_perm (x ∷ m) = Permᴰ.cons refl (refl_perm m)

sort_roas-perm : (f : Roa → Roa → Bool) (l : List Roa) → Permᴰ l (sort_roas f l)
unfolding sort_roas
sort_roas-perm f [] = Permᴰ.nil
sort_roas-perm f (r ∷ l) =
    Permᴰ.trans (Permᴰ.cons refl (sort_roas-perm f l)) (insert_roa-perm f r (sort_roas f l))

abbrev bucket : List Roa
bucket = roa 16 65003 ∷ roa 24 65009 ∷ []

bucket-IsBucket : IsBucket bucket
unfolding roa_equal
bucket-IsBucket = ((refl, tt), (tt, tt))

add_entry_lem_example :
    IsBucket (add_entry sort_roas (roa 20 65009) bucket)
    × ((q : Roa)
        → holds q (add_entry sort_roas (roa 20 65009) bucket)
          ≡ (holds q bucket || roa_equal (roa 20 65009) q))
add_entry_lem_example = add_entry_lem sort_roas sort_roas-perm (roa 20 65009) bucket bucket-IsBucket

delete_entry_lem_example :
    IsBucket (delete_entry (roa 24 65009) bucket)
    × ((q : Roa)
        → holds q (delete_entry (roa 24 65009) bucket)
          ≡ (holds q bucket && not (roa_equal (roa 24 65009) q)))
delete_entry_lem_example = delete_entry_lem (roa 24 65009) bucket bucket-IsBucket
