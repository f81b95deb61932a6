-- ===== src/Destination/Calculate/Keys.antt =====
-- The paths that a destination knows: no two have the same source and path identifier.
use mathlib.Core.Option.{some-injective}
use goplane.Prelude.{
  ℕ, zero, suc, true, false, List, [], ◌∷◌, ◌++◌, none, some, ◌≡◌, refl, arith, if◌then◌else◌,
  get_elem?, remove_at, ap, All-get_elem?, All, All-map, AllPairs, AllPairs-remove_at,
  AllPairs-snoc, inl, inr, ◌⊎◌, Bool-cases,
}
use goplane.Bgp.{Ip, no_ip, v4, v6, ip_equal}
use goplane.RoutePath.{RoutePath, PeerInfo, peer_equal, set_path_local_id}
use goplane.Destination.Flips.{peer_equal_symm}
use goplane.Destination.Calculate.{
  local_id, matches, last_match, first_match, entry_at, explicit_withdraw, implicit_withdraw,
}

-- The two paths are of different peers or have different identifiers.
abbrev pub Differ : RoutePath → RoutePath → Type 0
Differ p q = matches p q ≡ false

pub ip_equal_euclid : (a b c : Ip) → ip_equal a b ≡ true → ip_equal a c ≡ true → ip_equal b c ≡ true
ip_equal_euclid no_ip no_ip c h k = k
ip_equal_euclid (v4 a) (v4 b) (v4 c) h k = ground arith
ip_equal_euclid (v4 a) (v4 b) (v6 c) h k = ground arith
ip_equal_euclid (v4 a) (v6 b) (v4 c) h k = ground arith
ip_equal_euclid (v4 a) (v6 b) (v6 c) h k = ground arith
ip_equal_euclid (v6 a) (v4 b) (v4 c) h k = ground arith
ip_equal_euclid (v6 a) (v4 b) (v6 c) h k = ground arith
ip_equal_euclid (v6 a) (v6 b) (v4 c) h k = ground arith
ip_equal_euclid (v6 a) (v6 b) (v6 c) h k = ground arith
ip_equal_euclid _ _ _ h k = cc

peer_equal_euclid :
    (a b c : PeerInfo) → peer_equal a b ≡ true → peer_equal a c ≡ true → peer_equal b c ≡ true
unfolding peer_equal
peer_equal_euclid a b c h k = ground (
  arith,
  ip_equal_euclid a.id b.id c.id,
  ip_equal_euclid a.local_id b.local_id c.local_id,
  ip_equal_euclid a.address b.address c.address,
)

pub matches_symm : (p q : RoutePath) → matches p q ≡ matches q p
unfolding matches
matches_symm p q = ground (arith, peer_equal_symm p.info.source q.info.source)

pub matches_euclid :
    (p q r : RoutePath) → matches p q ≡ true → matches p r ≡ true → matches q r ≡ true
unfolding matches
matches_euclid p q r h k =
    ground (arith, peer_equal_euclid p.info.source q.info.source r.info.source)

-- The list without its first path that matches.
unfoldable pub without : RoutePath → List RoutePath → List RoutePath
without new [] = []
without new (p ∷ l) = if matches new p then l else p ∷ without new l

-- What the loop of `implicitWithdraw` found.
pub record Found (new : RoutePath) (l : List RoutePath) (i : ℕ) (p : RoutePath) : Type 0 where
  pub entry : entry_at l (first_match new l) ≡ some (i, p)
  pub at : get_elem? l i ≡ some p
  pub rest : remove_at i l ≡ without new l
  pub found : matches new p ≡ true

first_match_cases :
    (new : RoutePath) (l : List RoutePath)
    → ((first_match new l ≡ none) × (without new l ≡ l))
      ⊎ ((i : ℕ) × (p : RoutePath) × (first_match new l ≡ some i)
          × (get_elem? l i ≡ some p)
          × (remove_at i l ≡ without new l)
          × (matches new p ≡ true))
unfolding first_match without
first_match_cases new [] = inl (refl, refl)
first_match_cases new (p ∷ l) = elim (Bool-cases (matches new p)) [
  | inl found ↦ inr (0, p, rw found, refl, rw found, found)
  | inr other ↦ elim (first_match_cases new l) [
    | inl (e, w) ↦ inl (rw (other, e), rw (other, w))
    | inr (i, q, e, at, r, m) ↦ inr (suc i, q, rw (other, e), at, rw (other, r), m)
  ]
]

pub implicit_withdraw_cases :
    (new : RoutePath) (l : List RoutePath)
    → new.info.no_implicit_withdraw ≡ false
    → ((implicit_withdraw new l ≡ record { new = new; rest = without new l })
        × (first_match new l ≡ none))
      ⊎ ((i : ℕ) × (p : RoutePath) × Found new l i p
          × (implicit_withdraw new l
              ≡ record { new = set_path_local_id new (local_id p); rest = without new l }))
unfolding implicit_withdraw entry_at
implicit_withdraw_cases new l on = elim (first_match_cases new l) [
  | inl (e, w) ↦ inl (ground arith, e)
  | inr (i, p, e, at, r, m) ↦ inr (
    i,
    p,
    record { entry = rw (e, entry_at) (rw at); at = at; rest = r; found = m },
    ground arith,
  )
]

-- Nothing that is left matches the new path.
without-Differ :
    (new : RoutePath) (l : List RoutePath)
    → AllPairs Differ l
    → All (λ p. Differ p new) (without new l)
unfolding without
without-Differ new [] h = tt
without-Differ new (p ∷ l) h = elim (Bool-cases (matches new p)) [
  | inl found ↦ rw found (
      All-map (Differ p) (λ q. Differ q new) l
        (λ q d. ground (arith, matches_euclid new p q, matches_symm q new, d)) h.0)
  | inr other ↦ rw other (rw matches_symm other, without-Differ new l h.1)
]

pub All-without {κ} :
    (P : RoutePath → Type κ) (new : RoutePath) (l : List RoutePath)
    → All P l
    → All P (without new l)
unfolding without
All-without P new [] h = h
All-without P new (p ∷ l) h = elim (Bool-cases (matches new p)) [
  | inl found ↦ rw found h.1
  | inr other ↦ rw other (h.0, All-without P new l h.1)
]

pub AllPairs-without {κ} :
    (R : RoutePath → RoutePath → Type κ) (new : RoutePath) (l : List RoutePath)
    → AllPairs R l
    → AllPairs R (without new l)
unfolding without
AllPairs-without R new [] h = h
AllPairs-without R new (p ∷ l) h = elim (Bool-cases (matches new p)) [
  | inl found ↦ rw found h.1
  | inr other ↦ rw other (All-without (R p) new l h.0, AllPairs-without R new l h.1)
]

-- What the loop of `explicitWithdraw` found: nothing, or the last path that matches.
pub last_match_cases :
    (w : RoutePath) (l : List RoutePath)
    → ((last_match w l ≡ none) × All (λ p. Differ p w) l)
      ⊎ ((i : ℕ) × (p : RoutePath) × (last_match w l ≡ some i)
          × (get_elem? l i ≡ some p)
          × (matches p w ≡ true))
unfolding last_match
last_match_cases w [] = inl (refl, tt)
last_match_cases w (p ∷ l) = elim (last_match_cases w l) [
  | inr (i, q, e, at, m) ↦ inr (suc i, q, rw e, at, m)
  | inl (e, d) ↦ elim (Bool-cases (matches p w)) [
    | inl found ↦ inr (0, p, rw (e, found), refl, found)
    | inr other ↦ inl (rw (e, other), (other, d))
  ]
]

-- Once a path that matches is out, none that is left matches.
rest-Differ :
    (w q : RoutePath) (i : ℕ) (l : List RoutePath)
    → AllPairs Differ l
    → get_elem? l i ≡ some q
    → matches q w ≡ true
    → All (λ p. Differ p w) (remove_at i l)
rest-Differ w q i [] h at m = tt
rest-Differ w q zero (p ∷ l) h at m =
    let same : p ≡ q = some-injective _ _ at in
    All-map (Differ p) (λ r. Differ r w) l
      (λ r d. ground (
        arith,
        matches_euclid q r w,
        matches_symm q w,
        matches_euclid w q r,
        matches_symm r w,
        ap (λ x. matches x r) same,
        d,
      ))
      h.0
rest-Differ w q (suc i) (p ∷ l) h at m = (
  ground (
    arith,
    All-get_elem? (Differ p) l i q h.0 at,
    matches_symm p w,
    matches_symm q w,
    matches_euclid w p q,
  ),
  rest-Differ w q i l h.1 at m,
)

pub explicit_withdraw_cases :
    (w : RoutePath) (l : List RoutePath)
    → ((explicit_withdraw w l ≡ record { withdraw = w; rest = l; removed = none })
        × All (λ p. Differ p w) l)
      ⊎ ((i : ℕ) × (p : RoutePath) × (get_elem? l i ≡ some p)
          × (matches p w ≡ true)
          × (explicit_withdraw w l ≡ record {
            withdraw = set_path_local_id w (local_id p);
            rest = remove_at i l;
            removed = some p;
          }))
unfolding explicit_withdraw entry_at
explicit_withdraw_cases w l = elim (last_match_cases w l) [
  | inl (e, d) ↦ inl (ground arith, d)
  | inr (i, p, e, at, m) ↦ inr (i, p, at, m, ground arith)
]

-- What a withdrawal leaves.
pub record Left (w : RoutePath) (l : List RoutePath) : Type 0 where
  pub distinct : AllPairs Differ (explicit_withdraw w l).rest
  pub none_matches : All (λ p. Differ p w) (explicit_withdraw w l).rest

pub explicit_withdraw-Left : (w : RoutePath) (l : List RoutePath) → AllPairs Differ l → Left w l
explicit_withdraw-Left w l h = elim (explicit_withdraw_cases w l) [
  | inl (e, d) ↦ record { distinct = rw e h; none_matches = rw e d }
  | inr (i, p, at, m, e) ↦ record {
    distinct = rw e (AllPairs-remove_at Differ i l h);
    none_matches = rw e (rest-Differ w p i l h at m);
  }
]

-- A new path stands alone for its source and identifier.
pub implicit_withdraw-distinct :
    (new : RoutePath) (l : List RoutePath)
    → new.info.no_implicit_withdraw ≡ false
    → AllPairs Differ l
    → AllPairs Differ ((implicit_withdraw new l).rest ++ (implicit_withdraw new l).new ∷ [])
unfolding matches
implicit_withdraw-distinct new l on h =
    let alone =
      AllPairs-snoc Differ (without new l) new (AllPairs-without Differ new l h)
        (without-Differ new l h) in
    elim (implicit_withdraw_cases new l on) [
      | inl (e, m) ↦ rw e alone
      | inr (i, p, f, e) ↦ rw e (
          AllPairs-snoc Differ (without new l) (set_path_local_id new (local_id p))
            (AllPairs-without Differ new l h) (without-Differ new l h))
    ]
