-- ===== src/Message/Packer.antt =====
-- The packing of paths into update messages, from internal/pkg/table/message.go. A packer's map of
-- hashes keeps its entries in the order in which they came, where Go's order is any. `none` is a
-- run-time panic. The package bgp computes the bytes of an attribute and their number (`Len`).
use goplane.Prelude.{
  ℕ, zero, suc, Bool, true, false, List, [], ◌∷◌, ◌++◌, Option, none, some, ◌==◌, leb,
  if◌then◌else◌, ◌>>=◌, ◌+◌, ◌-◌, ◌*◌, ◌/◌, ◌%◌, length, take, drop, map, ◌&&◌, ◌^◌,
}
use goplane.Bgp.{Attr, Nlri, get_type, attr_mp_reach_nlri, rf_ipv4_uc}
use goplane.RoutePath.{RoutePath}
use goplane.RoutePath.Attrs.{get_path_attrs}
use goplane.RoutePath.Nexthop.{get_nexthop, is_not_ipv4}
pub mod Chunks
pub mod Cages
pub mod Held
pub mod Added
pub mod Announced

-- The messages that are built: `NewBGPUpdateMessage` with withdrawn routes, attributes and NLRI, the
-- same with no attribute but MP_UNREACH_NLRI, and `NewEndOfRib`.
pub data BgpMessage : Type 0 where
  update_message : List Nlri → List Attr → List Nlri → BgpMessage
  mp_unreach : List Nlri → BgpMessage
  end_of_rib : ℕ → BgpMessage

pub record Codec : Type 0 where
  pub serialize : Attr → List ℕ
  pub attr_len : Attr → ℕ

pub record Cage : Type 0 where
  pub attrs_bytes : List ℕ
  pub paths : List RoutePath

pub record PackerMp : Type 0 where
  pub eof : Bool
  pub total : ℕ
  pub family : ℕ
  pub paths : List RoutePath
  pub withdrawals : List RoutePath

pub record PackerV4 : Type 0 where
  pub eof : Bool
  pub total : ℕ
  pub hashmap : List (ℕ × List Cage)
  pub mp_paths : List RoutePath
  pub withdrawals : List RoutePath

abbrev pub nlri_of : RoutePath → Nlri
nlri_of p = p.info.nlri

-- `bytes.Equal`
abbrev pub same_bytes : List ℕ → List ℕ → Bool
same_bytes [] [] = true
same_bytes (x ∷ xs) (y ∷ ys) = (x == y) && same_bytes xs ys
same_bytes _ _ = false

abbrev pub bytes_of : Codec → List Attr → List ℕ
bytes_of c [] = []
bytes_of c (a ∷ l) = c.serialize a ++ bytes_of c l

abbrev pub attrs_len : Codec → List Attr → ℕ
attrs_len c [] = 0
attrs_len c (a ∷ l) = c.attr_len a + attrs_len c l

-- The path goes into the first cage with the same bytes, or into a new one.
unfoldable pub add_to_cages : List ℕ → RoutePath → List Cage → List Cage
add_to_cages b p [] = record { attrs_bytes = b; paths = p ∷ [] } ∷ []
add_to_cages b p (c ∷ l) =
    let rest = add_to_cages b p l in
    if same_bytes c.attrs_bytes b
    then record { attrs_bytes = c.attrs_bytes; paths = c.paths ++ p ∷ [] } ∷ l
    else c ∷ rest

unfoldable pub add_to_hashmap : List ℕ → RoutePath → List (ℕ × List Cage) → List (ℕ × List Cage)
add_to_hashmap b p [] = (p.attrs_hash, add_to_cages b p []) ∷ []
add_to_hashmap b p (e ∷ l) =
    let rest = add_to_hashmap b p l in
    if e.0 == p.attrs_hash then (e.0, add_to_cages b p e.1) ∷ l else e ∷ rest

unfoldable pub add_v4 : Codec → RoutePath → PackerV4 → PackerV4
add_v4 c path p =
    let counted = record p { total = (p.total + 1) % 2 ^ 32 } in
    if path.info.eor
    then record counted { eof = true }
    else if path.is_withdraw
    then record counted { withdrawals = p.withdrawals ++ path ∷ [] }
    else if is_not_ipv4 (get_nexthop path)
    then record counted { mp_paths = p.mp_paths ++ path ∷ [] }
    else record counted {
      hashmap = add_to_hashmap (bytes_of c (get_path_attrs path)) path p.hashmap;
    }

unfoldable pub add_mp : RoutePath → PackerMp → PackerMp
add_mp path p =
    let counted = record p { total = (p.total + 1) % 2 ^ 32 } in
    if path.info.eor
    then record counted { eof = true }
    else if path.is_withdraw
    then record counted { withdrawals = p.withdrawals ++ path ∷ [] }
    else record counted { paths = p.paths ++ path ∷ [] }

-- An attribute MP_REACH_NLRI is replaced by one for the path alone.
unfoldable pub mp_reach_attrs : RoutePath → List Attr
mp_reach_attrs path =
    map
      (λ a.
        if get_type a == attr_mp_reach_nlri
        then Attr.mp_reach_nlri (get_nexthop path) (nlri_of path ∷ [])
        else a)
      (get_path_attrs path)

unfoldable pub create_mp_reach_message : RoutePath → BgpMessage
create_mp_reach_message path = update_message [] (mp_reach_attrs path) []

abbrev pub eor_message : Bool → ℕ → List BgpMessage
eor_message eof family = if eof then end_of_rib family ∷ [] else []

unfoldable pub pack_mp : PackerMp → List BgpMessage
pack_mp p =
    map (λ path. mp_unreach (nlri_of path ∷ [])) p.withdrawals
    ++ (map create_mp_reach_message p.paths ++ eor_message p.eof p.family)

abbrev pub nlri_size : Bool → ℕ
nlri_size add_path = 5 + (if add_path then 4 else 0)

-- `maxNLRIs`, whose division is rounded towards zero: a negative result is no capacity for `make`.
unfoldable pub max_nlris : Bool → ℕ → Option ℕ
max_nlris add_path len =
    if leb len 4073
    then some ((4073 - len) / nlri_size add_path)
    else if (len - 4073) / nlri_size add_path == 0
    then some 0
    else none

-- `split` and `loop`: the lists of NLRI that the callback gets.
unfoldable pub chunks_from : ℕ → ℕ → List RoutePath → Option (List (List Nlri))
chunks_from zero max paths = none
chunks_from (suc fuel) max paths =
    let nlris = map nlri_of (take max paths) in
    let rest = (do l ← chunks_from fuel max (drop max paths); some (nlris ∷ l)) in
    if length nlris == 0 then some [] else rest

unfoldable pub chunks : Bool → ℕ → List RoutePath → Option (List (List Nlri))
chunks add_path len paths = do
  max ← max_nlris add_path len
  chunks_from (suc (length paths)) max paths

-- A cage; the attributes are those of its first path.
unfoldable pub pack_paths : Codec → Bool → List RoutePath → Option (List BgpMessage)
pack_paths c add_path [] = none
pack_paths c add_path (p ∷ rest) = do
  let attrs = get_path_attrs p
  l ← chunks add_path (attrs_len c attrs) (p ∷ rest)
  some (map (update_message [] attrs) l)

unfoldable pub pack_cages : Codec → Bool → List Cage → Option (List BgpMessage)
pack_cages c add_path [] = some []
pack_cages c add_path (cage ∷ l) = do
  first ← pack_paths c add_path cage.paths
  rest ← pack_cages c add_path l
  some (first ++ rest)

unfoldable pub pack_hashmap : Codec → Bool → List (ℕ × List Cage) → Option (List BgpMessage)
pack_hashmap c add_path [] = some []
pack_hashmap c add_path (e ∷ l) = do
  first ← pack_cages c add_path e.1
  rest ← pack_hashmap c add_path l
  some (first ++ rest)

unfoldable pub pack_v4 : Codec → Bool → PackerV4 → Option (List BgpMessage)
pack_v4 c add_path p = do
  withdrawn ← chunks add_path 0 p.withdrawals
  announced ← pack_hashmap c add_path p.hashmap
  some (
      map (λ l. update_message l [] []) withdrawn
      ++ (announced ++ (map create_mp_reach_message p.mp_paths ++ eor_message p.eof rf_ipv4_uc)))

abbrev pub new_packer_v4 : PackerV4
new_packer_v4 = record { eof = false; total = 0; hashmap = []; mp_paths = []; withdrawals = [] }

abbrev pub new_packer_mp : ℕ → PackerMp
new_packer_mp family = record {
  eof = false;
  total = 0;
  family = family;
  paths = [];
  withdrawals = [];
}

-- `packerInterface`, with its two implementations.
pub data PackerKind : Type 0 where
  v4_packer : PackerV4 → PackerKind
  mp_packer : PackerMp → PackerKind

unfoldable pub new_packer : ℕ → PackerKind
new_packer family =
    if family == rf_ipv4_uc then v4_packer new_packer_v4 else mp_packer (new_packer_mp family)

unfoldable pub add : Codec → RoutePath → PackerKind → PackerKind
add c path (v4_packer p) = v4_packer (add_v4 c path p)
add c path (mp_packer p) = mp_packer (add_mp path p)

unfoldable pub pack : Codec → Bool → PackerKind → Option (List BgpMessage)
pack c add_path (v4_packer p) = pack_v4 c add_path p
pack c add_path (mp_packer p) = some (pack_mp p)

-- `m[f].add(path)`, in a packer of the path's family, which is made when it is missing.
unfoldable pub add_to_packers : Codec → RoutePath → List (ℕ × PackerKind) → List (ℕ × PackerKind)
add_to_packers c path [] =
    (path.info.nlri.family, add c path (new_packer path.info.nlri.family)) ∷ []
add_to_packers c path (e ∷ l) =
    let rest = add_to_packers c path l in
    if e.0 == path.info.nlri.family then (e.0, add c path e.1) ∷ l else e ∷ rest

unfoldable pub add_paths : Codec → List RoutePath → List (ℕ × PackerKind) → List (ℕ × PackerKind)
add_paths c [] m = m
add_paths c (path ∷ l) m = add_paths c l (add_to_packers c path m)

unfoldable pub pack_all : Codec → Bool → List (ℕ × PackerKind) → Option (List BgpMessage)
pack_all c add_path [] = some []
pack_all c add_path (e ∷ l) = do
  first ← pack c add_path e.1
  rest ← pack_all c add_path l
  some (first ++ rest)

unfoldable pub create_update_msg_from_paths :
    Codec → Bool → List RoutePath → Option (List BgpMessage)
create_update_msg_from_paths c add_path l = pack_all c add_path (add_paths c l [])
