-- ===== src/Message/Packer/Chunks.antt =====
-- The loop that cuts the NLRI of a cage into messages, from internal/pkg/table/message.go.
use goplane.Prelude.{
  ℕ, zero, suc, Bool, true, false, List, [], ◌∷◌, ◌++◌, Option, some, ◌≡◌, refl, sym, ap, ◌∙◌,
  arith, ◌==◌, if◌then◌else◌, ◌>>=◌, ◌+◌, ◌-◌, ◌*◌, ◌/◌, ◌≤◌, ◌<◌, length, take, drop, map, All,
  All-map, length-drop, take-append-drop,
}
use mathlib.Core.List.{map-append}
use goplane.Bgp.{Nlri}
use goplane.RoutePath.{RoutePath}
use goplane.Message.Packer.{nlri_of, nlri_size, max_nlris, chunks_from, chunks}

abbrev pub joined {ℓ} : {A : Type ℓ} → List (List A) → List A
joined [] = []
joined (l ∷ ls) = l ++ joined ls

-- The messages: all NLRI in their order, and no message with more than `max`.
pub record IsCut (max : ℕ) (paths : List RoutePath) (o : Option (List (List Nlri))) : Type 0 where
  pub cut : List (List Nlri)
  pub returned : o ≡ some cut
  pub complete : joined cut ≡ map nlri_of paths
  pub small : All (λ l. (0 < length l) × (length l ≤ max)) cut

length-take_le : (n : ℕ) (l : List RoutePath) → length (map nlri_of (take n l)) ≤ n
length-take_le zero l = omega arith
length-take_le (suc n) [] = omega arith
length-take_le (suc n) (p ∷ l) = omega (arith, length-take_le n l)

map_split :
    (n : ℕ) (l : List RoutePath) → map nlri_of (take n l) ++ map nlri_of (drop n l) ≡ map nlri_of l
map_split n l =
    sym (map-append nlri_of (take n l) (drop n l)) ∙ ap (map nlri_of) (take-append-drop n l)

chunks_from_step :
    (fuel max : ℕ) (p : RoutePath) (paths : List RoutePath)
    → 0 < max
    → IsCut max (drop max (p ∷ paths)) (chunks_from fuel max (drop max (p ∷ paths)))
    → IsCut max (p ∷ paths) (chunks_from (suc fuel) max (p ∷ paths))
unfolding chunks_from
chunks_from_step fuel zero p paths some_fit r = elim some_fit [ ]
chunks_from_step fuel (suc max) p paths some_fit r = record {
  cut = map nlri_of (take (suc max) (p ∷ paths)) ∷ r.cut;
  returned =
      not_last (map nlri_of (take max paths))
      ∙ ap (λ o. o >>= (λ l. some (map nlri_of (take (suc max) (p ∷ paths)) ∷ l))) r.returned;
  complete =
      ap (◌++◌ (map nlri_of (take (suc max) (p ∷ paths)))) r.complete
      ∙ map_split (suc max) (p ∷ paths);
  small = ((omega arith, length-take_le (suc max) (p ∷ paths)), r.small);
}
  where
    not_last :
        (l : List Nlri) {rest : Option (List (List Nlri))}
        → (if suc (length l) == 0 then some [] else rest) ≡ rest
    not_last l = ground arith

chunks_from-IsCut :
    (fuel max : ℕ) (paths : List RoutePath)
    → 0 < max
    → length paths < fuel
    → IsCut max paths (chunks_from fuel max paths)
unfolding chunks_from
chunks_from-IsCut zero max paths some_fit enough = elim enough [ ]
chunks_from-IsCut (suc fuel) zero paths some_fit enough = elim some_fit [ ]
chunks_from-IsCut (suc fuel) (suc max) [] some_fit enough = record {
  cut = [];
  returned = refl;
  complete = refl;
  small = tt;
}
chunks_from-IsCut (suc fuel) (suc max) (p ∷ paths) some_fit enough =
    chunks_from_step fuel (suc max) p paths some_fit (
      chunks_from-IsCut fuel (suc max) (drop max paths) some_fit
        (let e = length-drop max paths in omega arith))

-- What `maxNLRIs` computes where there is room for one NLRI.
record HasRoom (add_path : Bool) (len : ℕ) : Type 0 where
  pub max : ℕ
  pub found : max_nlris add_path len ≡ some max
  pub not_none : 0 < max
  pub fits : (n : ℕ) → n ≤ max → 23 + len + nlri_size add_path * n ≤ 4096

room_for : (add_path : Bool) (len : ℕ) → 23 + len + nlri_size add_path ≤ 4096 → HasRoom add_path len
unfolding max_nlris
room_for true len room = record {
  max = (4073 - len) / 9;
  found = ground arith;
  not_none = omega arith;
  fits = λ n h. omega arith;
}
room_for false len room = record {
  max = (4073 - len) / 5;
  found = ground arith;
  not_none = omega arith;
  fits = λ n h. omega arith;
}

-- The loop ends for attributes that leave room for one NLRI: it announces every path in its order,
-- no list of NLRI is empty, and each fits into the 4096 bytes of a message.
pub chunks-fit :
    (add_path : Bool) (len : ℕ) (paths : List RoutePath)
    → 23 + len + nlri_size add_path ≤ 4096
    → (l : List (List Nlri)) × (chunks add_path len paths ≡ some l)
      × (joined l ≡ map nlri_of paths)
      × All (λ nlris. (0 < length nlris) × (23 + len + nlri_size add_path * length nlris ≤ 4096)) l
unfolding chunks
chunks-fit add_path len paths room =
    let r = room_for add_path len room in
    let c = chunks_from-IsCut (suc (length paths)) r.max paths r.not_none (omega arith) in
    (
      c.cut,
      ap (λ o. o >>= (λ max. chunks_from (suc (length paths)) max paths)) r.found ∙ c.returned,
      c.complete,
      All-map (λ l. (0 < length l) × (length l ≤ r.max)) _ c.cut
          (λ l h. (h.0, r.fits (length l) h.1)) c.small,
    )
