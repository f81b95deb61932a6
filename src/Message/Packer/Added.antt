-- ===== src/Message/Packer/Added.antt =====
-- What one path adds to a packer of internal/pkg/table/message.go.
use mathlib.Core.Path.{subst}
use mathlib.Core.List.Perm
use mathlib.Core.List.{Perm}
use goplane.Prelude.{
  Bool, true, false, List, [], ◌∷◌, ◌++◌, ◌≡◌, refl, sym, ◌==◌, ◌&&◌, not, if◌then◌else◌, map,
  Bool-cases, inl, inr,
}
use goplane.Bgp.{rf_ipv4_uc}
use goplane.RoutePath.{RoutePath}
use goplane.RoutePath.Nexthop.{get_nexthop, is_not_ipv4}
use goplane.Message.Packer.{
  Codec, PackerKind, v4_packer, mp_packer, PackerV4, PackerMp, add_v4, add_mp, add,
}
use goplane.Message.Packer.Cages.{
  path_bytes, Fits, held_by, IsMap, IsMap-add_to_hashmap, add_to_hashmap-perm, added_first,
  added_rest, added_last,
}
use goplane.Message.Packer.Held.{
  Content, held, announced, announced_mp, withdrawn_v4, withdrawn_mp, IsSound,
}

-- What one path says to a peer: nothing for an end of RIB, else one of the four contents.
abbrev pub told : Codec → RoutePath → List Content
told c p =
    if p.info.eor
    then []
    else if p.is_withdraw
    then (if p.info.nlri.family == rf_ipv4_uc then withdrawn_v4 c p else withdrawn_mp c p) ∷ []
    else (if (p.info.nlri.family == rf_ipv4_uc) && not (is_not_ipv4 (get_nexthop p))
        then announced c p
        else announced_mp c p)
      ∷ []

module _ (c : Codec) (add_path : Bool) where
  abbrev pub IsKind : Bool → PackerKind → Type 0
  IsKind b (v4_packer p) = b ≡ true
  IsKind b (mp_packer p) = b ≡ false

  -- A packer that holds one path more.
  pub record Holds (l : List Content) (b : Bool) (k k' : PackerKind) : Type 0 where
    pub kind : IsKind b k'
    pub sound : IsSound c add_path k'
    pub same : Perm (held c k') (l ++ held c k)

  add_v4-Holds :
      (path : RoutePath) (p : PackerV4)
      → Fits c add_path path
      → (path.info.nlri.family == rf_ipv4_uc) ≡ true
      → IsMap c add_path p.hashmap
      → Holds (told c path) true (v4_packer p) (v4_packer (add_v4 c path p))
  unfolding add_v4
  add_v4-Holds path p fits v4 h = elim (Bool-cases path.info.eor) [
    | inl e ↦ simp (e) (record { kind = refl; sound = h; same = Perm.refl _ })
    | inr e ↦ elim (Bool-cases path.is_withdraw) [
      | inl w ↦
          simp (e, w, v4)
            (record {
              kind = refl;
              sound = h;
              same =
                  added_first (withdrawn_v4 c path) _ _ _
                    (Perm.map (withdrawn_v4 c) (added_last path p.withdrawals));
            })
      | inr w ↦ elim (Bool-cases (is_not_ipv4 (get_nexthop path))) [
        | inl n ↦
            simp (e, w, v4, n)
              (record {
                kind = refl;
                sound = h;
                same = added_rest (announced_mp c path) (map (withdrawn_v4 c) p.withdrawals) _ _ (
                    added_rest (announced_mp c path) (map (announced c) (held_by p.hashmap)) _ _
                      (Perm.map (announced_mp c) (added_last path p.mp_paths)));
              })
        | inr n ↦
            simp (e, w, v4, n)
              (record {
                kind = refl;
                sound =
                    IsMap-add_to_hashmap c add_path (path_bytes c path) path p.hashmap (refl, fits)
                      h;
                same = added_rest (announced c path) (map (withdrawn_v4 c) p.withdrawals) _ _ (
                    added_first (announced c path) _ _ _ (
                      Perm.map (announced c)
                        (add_to_hashmap-perm (path_bytes c path) path p.hashmap)));
              })
      ]
    ]
  ]

  add_mp-Holds :
      (path : RoutePath) (p : PackerMp)
      → (path.info.nlri.family == rf_ipv4_uc) ≡ false
      → Holds (told c path) false (mp_packer p) (mp_packer (add_mp path p))
  unfolding add_mp
  add_mp-Holds path p mp = elim (Bool-cases path.info.eor) [
    | inl e ↦ simp (e) (record { kind = refl; sound = tt; same = Perm.refl _ })
    | inr e ↦ elim (Bool-cases path.is_withdraw) [
      | inl w ↦
          simp (e, w, mp)
            (record {
              kind = refl;
              sound = tt;
              same =
                  added_first (withdrawn_mp c path) _ _ _
                    (Perm.map (withdrawn_mp c) (added_last path p.withdrawals));
            })
      | inr w ↦
          simp (e, w, mp)
            (record {
              kind = refl;
              sound = tt;
              same =
                  added_rest (announced_mp c path) (map (withdrawn_mp c) p.withdrawals) _ _
                    (Perm.map (announced_mp c) (added_last path p.paths));
            })
    ]
  ]

  pub add-Holds :
      (path : RoutePath) (k : PackerKind)
      → Fits c add_path path
      → IsKind (path.info.nlri.family == rf_ipv4_uc) k
      → IsSound c add_path k
      → Holds (told c path) (path.info.nlri.family == rf_ipv4_uc) k (add c path k)
  unfolding add
  add-Holds path (v4_packer p) fits v4 h =
      subst (λ b. Holds (told c path) b (v4_packer p) (v4_packer (add_v4 c path p))) (sym v4)
        (add_v4-Holds path p fits v4 h)
  add-Holds path (mp_packer p) fits mp h =
      subst (λ b. Holds (told c path) b (mp_packer p) (mp_packer (add_mp path p))) (sym mp)
        (add_mp-Holds path p mp)
