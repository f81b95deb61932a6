-- ===== src/Roa/Validity.antt =====
-- The outcome of `Validate` of internal/pkg/table/roa.go against RFC 6811.
use mathlib.Core.List.{append_assoc, append-nil}
use goplane.Prelude.{
  ℕ, Bool, false, List, [], ◌∷◌, ◌++◌, some, ◌≡◌, refl, sym, ap, ◌∙◌, arith, ◌==◌, leb,
  if◌then◌else◌, ◌&&◌, not, any, keep, length, Bool-cases, inl, inr,
}
use goplane.RoutePath.{RoutePath}
use goplane.RoutePath.AsPath.{get_as_path}
use goplane.Bgp.{Nlri}
use goplane.Roa.{
  Roa, Network, NetTree, RoaTable, Status, valid, invalid, not_found, Reason, no_reason,
  asn_differs, too_long, Validation, initial, sort_entry, sort_bucket, sort_buckets, conclude,
  tree_of, validate, origin_as, as_segments,
}

-- An authorization whose length and number allow the route.
abbrev pub allows : ℕ → ℕ → Roa → Bool
allows prefix_len asn r = leb prefix_len r.max_len && (not (r.asn == 0) && r.asn == asn)

abbrev pub covers : ℕ → Roa → Bool
covers prefix_len r = leb prefix_len r.max_len

-- RFC 6811 on the authorizations whose network holds the route: valid with one that allows it, not
-- found with none, invalid else, and then by its number if one covers its length.
abbrev pub rfc6811 : ℕ → ℕ → List Roa → Status × Reason
rfc6811 prefix_len asn [] = (not_found, no_reason)
rfc6811 prefix_len asn (r ∷ l) =
    if any (allows prefix_len asn) (r ∷ l)
    then (valid, no_reason)
    else if any (covers prefix_len) (r ∷ l)
    then (invalid, asn_differs)
    else (invalid, too_long)

abbrev pub covering : List (List Roa) → List Roa
covering [] = []
covering (b ∷ bs) = b ++ covering bs

module _ (prefix_len asn : ℕ) where
  abbrev differs : Roa → Bool
  differs r = covers prefix_len r && not (allows prefix_len asn r)

  -- The three lists of a validation, as filters of the entries seen.
  record Sorted (v : Validation) (l : List Roa) (v' : Validation) : Type 0 where
    pub matched_kept : v'.matched ≡ v.matched ++ keep (allows prefix_len asn) l
    pub as_kept : v'.unmatched_as ≡ v.unmatched_as ++ keep differs l
    pub length_kept :
        v'.unmatched_length ≡ v.unmatched_length ++ keep (λ r. not (covers prefix_len r)) l

  -- One more entry, filed in one of the lists.
  filed :
      (f : Roa → Bool) (xs : List Roa) (r : Roa) (l : List Roa)
      → (if f r then xs ++ r ∷ [] else xs) ++ keep f l ≡ xs ++ keep f (r ∷ l)
  filed f xs r l = elim (Bool-cases (f r)) [
    | inl e ↦ rw e (append_assoc xs (r ∷ []) (keep f l))
    | inr e ↦ rw e refl
  ]

  sort_entry_lem :
      (r : Roa) (v : Validation)
      → sort_entry prefix_len asn r v ≡ record v {
        matched = if allows prefix_len asn r then v.matched ++ r ∷ [] else v.matched;
        unmatched_as = if differs r then v.unmatched_as ++ r ∷ [] else v.unmatched_as;
        unmatched_length =
            if not (covers prefix_len r) then v.unmatched_length ++ r ∷ [] else v.unmatched_length;
      }
  unfolding sort_entry
  sort_entry_lem r v = ground arith

  sort_bucket-Sorted : (l : List Roa) (v : Validation) → Sorted v l (sort_bucket prefix_len asn l v)
  unfolding sort_bucket
  sort_bucket-Sorted [] v = record {
    matched_kept = sym (append-nil v.matched);
    as_kept = sym (append-nil v.unmatched_as);
    length_kept = sym (append-nil v.unmatched_length);
  }
  sort_bucket-Sorted (r ∷ l) v =
      let s = sort_bucket-Sorted l (sort_entry prefix_len asn r v) in
      let e = sort_entry_lem r v in
      record {
        matched_kept =
            s.matched_kept
            ∙ ap (λ (w : Validation). w.matched ++ keep (allows prefix_len asn) l) e
            ∙ filed (allows prefix_len asn) v.matched r l;
        as_kept =
            s.as_kept
            ∙ ap (λ (w : Validation). w.unmatched_as ++ keep differs l) e
            ∙ filed differs v.unmatched_as r l;
        length_kept =
            s.length_kept
            ∙ ap (λ (w : Validation). w.unmatched_length ++ keep (λ q. not (covers prefix_len q)) l)
                e
            ∙ filed (λ q. not (covers prefix_len q)) v.unmatched_length r l;
      }

  sort_bucket-append :
      (l m : List Roa) (v : Validation)
      → sort_bucket prefix_len asn (l ++ m) v
        ≡ sort_bucket prefix_len asn m (sort_bucket prefix_len asn l v)
  unfolding sort_bucket
  sort_bucket-append [] m v = refl
  sort_bucket-append (r ∷ l) m v = sort_bucket-append l m (sort_entry prefix_len asn r v)

  sort_buckets_lem :
      (bs : List (List Roa)) (v : Validation)
      → sort_buckets prefix_len asn bs v ≡ sort_bucket prefix_len asn (covering bs) v
  unfolding sort_buckets
  sort_buckets_lem [] v = unfold sort_bucket in refl
  sort_buckets_lem (b ∷ bs) v =
      sort_buckets_lem bs (sort_bucket prefix_len asn b v)
      ∙ sym (sort_bucket-append b (covering bs) v)

  length-keep : (f : Roa → Bool) (l : List Roa) → (length (keep f l) == 0) ≡ not (any f l)
  length-keep f [] = ground arith
  length-keep f (r ∷ l) = ground (arith, length-keep f l)

  any-differs :
      (l : List Roa)
      → any (allows prefix_len asn) l ≡ false
      → any differs l ≡ any (covers prefix_len) l
  any-differs [] h = refl
  any-differs (r ∷ l) h = ground (arith, any-differs l)

  any-uncovered :
      (l : List Roa)
      → any (covers prefix_len) l ≡ false
      → any (λ r. not (covers prefix_len r)) l ≡ not (length l == 0)
  any-uncovered [] h = ground arith
  any-uncovered (r ∷ l) h = ground arith

  conclude_lem :
      (l : List Roa) (v : Validation)
      → Sorted initial l v
      → ((conclude v).status, (conclude v).reason) ≡ rfc6811 prefix_len asn l
  unfolding conclude
  conclude_lem [] v s = rw (s.matched_kept, s.as_kept, s.length_kept) (ground arith)
  conclude_lem (r ∷ l) v s =
      let seen = r ∷ l in
      let m : (length v.matched == 0) ≡ not (any (allows prefix_len asn) seen) =
        ap (λ (x : List Roa). length x == 0) s.matched_kept
        ∙ length-keep (allows prefix_len asn) seen in
      let a : (length v.unmatched_as == 0) ≡ not (any differs seen) =
        ap (λ (x : List Roa). length x == 0) s.as_kept ∙ length-keep differs seen in
      let u : (length v.unmatched_length == 0) ≡ not (any (λ q. not (covers prefix_len q)) seen) =
        ap (λ (x : List Roa). length x == 0) s.length_kept
        ∙ length-keep (λ q. not (covers prefix_len q)) seen in
      elim (Bool-cases (any (allows prefix_len asn) seen)) [
        | inl allowed ↦ ground (arith, m, allowed)
        | inr none_allows ↦ elim (Bool-cases (any (covers prefix_len) seen)) [
          | inl covered ↦ ground (arith, m, a, none_allows, covered, any-differs seen none_allows)
          | inr none_covers ↦ ground (
            arith,
            m,
            a,
            u,
            none_allows,
            none_covers,
            any-differs seen none_allows,
            any-uncovered seen none_covers,
          )
        ]
      ]

module _ (net : NetTree) (nlri_to_ip_net : Nlri → Network) (rt : RoaTable net)
    (path : RoutePath) where
  abbrev pub route_network : Network
  route_network = nlri_to_ip_net path.info.nlri

  -- An advertisement in a family that has a tree, with an origin AS, gets the status and the reason
  -- that RFC 6811 gives over all the entries of the networks that match its own.
  pub validate-rfc6811 :
      (tree : net.Tree) (asn : ℕ)
      → path.is_withdraw ≡ false
      → path.info.eor ≡ false
      → tree_of net rt path.info.nlri.family ≡ some tree
      → origin_as path.info.source.local_as (as_segments (get_as_path path)) ≡ some asn
      → (v : Validation) × (validate net nlri_to_ip_net rt path ≡ some v)
        × ((v.status, v.reason)
            ≡ rfc6811 route_network.prefix_len asn (covering (net.walk_match tree route_network)))
  unfolding validate
  validate-rfc6811 tree asn w e t o =
      let bs = net.walk_match tree route_network in
      let k = route_network.prefix_len in
      (
        conclude (sort_buckets k asn bs initial),
        rw (o, t) (ground (arith, w, e)),
        conclude_lem k asn (covering bs) (sort_buckets k asn bs initial) (
            rw (sort_buckets_lem k asn bs initial)
              (sort_bucket-Sorted k asn (covering bs) initial)),
      )
