-- ===== src/Message/Packer/Announced.antt =====
-- `CreateUpdateMsgFromPaths` of internal/pkg/table/message.go: its messages say what the paths say.
use mathlib.Core.Path.{subst}
use mathlib.Core.List.Perm
use mathlib.Core.List.{Perm, perm_append_comm, append_assoc, append-nil}
use goplane.Prelude.{
  ℕ, Bool, List, [], ◌∷◌, ◌++◌, some, ◌≡◌, refl, sym, ◌==◌, All, Bool-cases, inl, inr, ==_iff,
}
use goplane.Bgp.{rf_ipv4_uc}
use goplane.RoutePath.{RoutePath}
use goplane.Message.Packer.{
  Codec, BgpMessage, PackerKind, add, new_packer, add_to_packers, add_paths, pack_all,
  create_update_msg_from_paths,
}
use goplane.Message.Packer.Cages.{Fits}
use goplane.Message.Packer.Held.{Content, contents, held, IsSound, Packs, Packs-then, pack-Packs}
use goplane.Message.Packer.Added.{told, IsKind, add-Holds}

abbrev pub told_by : Codec → List RoutePath → List Content
told_by c [] = []
told_by c (p ∷ l) = told c p ++ told_by c l

abbrev all_held : Codec → List (ℕ × PackerKind) → List Content
all_held c [] = []
all_held c (e ∷ m) = held c e.1 ++ all_held c m

module _ (c : Codec) (add_path : Bool) where
  abbrev IsEntry : ℕ × PackerKind → Type 0
  IsEntry e = IsKind c add_path (e.0 == rf_ipv4_uc) e.1 × IsSound c add_path e.1

  -- A new packer holds nothing.
  new_packer-IsKind :
      (f : ℕ)
      → IsKind c add_path (f == rf_ipv4_uc) (new_packer f)
        × IsSound c add_path (new_packer f)
        × (held c (new_packer f) ≡ [])
  unfolding new_packer
  new_packer-IsKind f = elim (Bool-cases (f == rf_ipv4_uc)) [
    | inl e ↦ rw e (refl, tt, refl)
    | inr e ↦ rw e (refl, tt, refl)
  ]

  record HoldAll (l : List Content) (m m' : List (ℕ × PackerKind)) : Type 0 where
    pub entries : All IsEntry m'
    pub same : Perm (all_held c m') (l ++ all_held c m)

  add_to_packers-HoldAll :
      (path : RoutePath) (m : List (ℕ × PackerKind))
      → Fits c add_path path
      → All IsEntry m
      → HoldAll (told c path) m (add_to_packers c path m)
  unfolding add_to_packers
  add_to_packers-HoldAll path [] fits h =
      let f = path.info.nlri.family in
      let (kind, sound, nothing) = new_packer-IsKind f in
      let r = add-Holds c add_path path (new_packer f) fits kind sound in
      record {
        entries = ((r.kind, r.sound), tt);
        same =
            subst (Perm (held c (add c path (new_packer f)) ++ [])) (append-nil (told c path ++ []))
              (Perm.append_right [] (
                subst (λ x. Perm (held c (add c path (new_packer f))) (told c path ++ x)) nothing
                  r.same));
      }
  add_to_packers-HoldAll path (e ∷ m) fits h = elim (Bool-cases (e.0 == path.info.nlri.family)) [
    | inl same_family ↦
        let f : e.0 ≡ path.info.nlri.family = (==_iff e.0 path.info.nlri.family).0 same_family in
        let kind : IsKind c add_path (path.info.nlri.family == rf_ipv4_uc) e.1 =
          subst (λ x. IsKind c add_path (x == rf_ipv4_uc) e.1) f h.0.0 in
        let r = add-Holds c add_path path e.1 fits kind h.0.1 in
        rw same_family (record {
          entries = (
            (
              subst (λ x. IsKind c add_path (x == rf_ipv4_uc) (add c path e.1)) (sym f) r.kind,
              r.sound,
            ),
            h.1,
          );
          same =
              subst (Perm (held c (add c path e.1) ++ all_held c m))
                (append_assoc (told c path) (held c e.1) (all_held c m))
                (Perm.append_right (all_held c m) r.same);
        })
    | inr other ↦
        let r = add_to_packers-HoldAll path m fits h.1 in
        rw other (record {
          entries = (h.0, r.entries);
          same =
              Perm.trans (Perm.append_left (held c e.1) r.same)
                (swapped (held c e.1) (told c path) (all_held c m));
        })
  ]
    where
      swapped : (a b l : List Content) → Perm (a ++ (b ++ l)) (b ++ (a ++ l))
      swapped a b l =
          subst (λ x. Perm x (b ++ (a ++ l))) (append_assoc a b l)
            (subst (Perm ((a ++ b) ++ l)) (append_assoc b a l)
              (Perm.append_right l (perm_append_comm a b)))

  add_paths-HoldAll :
      (l : List RoutePath) (m : List (ℕ × PackerKind))
      → All (Fits c add_path) l
      → All IsEntry m
      → HoldAll (told_by c l) m (add_paths c l m)
  unfolding add_paths
  add_paths-HoldAll [] m fits h = record { entries = h; same = Perm.refl _ }
  add_paths-HoldAll (p ∷ l) m fits h =
      let first = add_to_packers-HoldAll p m fits.0 h in
      let rest = add_paths-HoldAll l (add_to_packers c p m) fits.1 first.entries in
      record {
        entries = rest.entries;
        same = Perm.trans rest.same (
            Perm.trans (Perm.append_left (told_by c l) first.same)
              (turned (told_by c l) (told c p) (all_held c m)));
      }
    where
      turned : (a b l : List Content) → Perm (a ++ (b ++ l)) ((b ++ a) ++ l)
      turned a b l =
          subst (λ x. Perm x ((b ++ a) ++ l)) (append_assoc a b l)
            (Perm.append_right l (perm_append_comm a b))

  pack_all-Packs :
      (m : List (ℕ × PackerKind)) → All IsEntry m → Packs c (all_held c m) (pack_all c add_path m)
  unfolding pack_all
  pack_all-Packs [] h = record { messages = []; packed = refl; same = refl }
  pack_all-Packs (e ∷ m) h =
      Packs-then c (held c e.1) (all_held c m) _ _ (pack-Packs c add_path e.1 h.0.1)
        (pack_all-Packs m h.1)

-- Paths whose attributes leave room for one NLRI in a message are packed without a panic, and the
-- messages say, in some order and each as often, exactly what the paths say: a withdrawal of the
-- prefix, the prefix with the bytes of the path's own attributes, or, for a path that is no IPv4
-- unicast path with an IPv4 next hop, a message with the path's attributes.
pub create_update_msg_from_paths-told :
    (c : Codec) (add_path : Bool) (l : List RoutePath)
    → All (Fits c add_path) l
    → (ms : List BgpMessage) × (create_update_msg_from_paths c add_path l ≡ some ms)
      × Perm (contents c ms) (told_by c l)
unfolding create_update_msg_from_paths
create_update_msg_from_paths-told c add_path l fits =
    let r = add_paths-HoldAll c add_path l [] fits tt in
    let p = pack_all-Packs c add_path (add_paths c l []) r.entries in
    (
      p.messages,
      p.packed,
      subst (λ x. Perm x (told_by c l)) (sym p.same)
          (subst (Perm (all_held c (add_paths c l []))) (append-nil (told_by c l)) r.same),
    )
