-- ===== src/Message/Packer/Held.antt =====
-- What a packer of internal/pkg/table/message.go holds, and the messages that it packs it into.
use mathlib.Core.Path.{subst}
use mathlib.Core.List.{map-append, append_assoc, append-nil}
use goplane.Prelude.{
  ℕ, Bool, true, false, List, [], ◌∷◌, ◌++◌, Option, some, ◌≡◌, refl, sym, ap, ◌∙◌, arith, ◌&&◌,
  if◌then◌else◌, ◌>>=◌, ◌+◌, ◌≤◌, ◌<◌, length, All, map,
}
use goplane.Bgp.{Attr, Nlri, rf_ipv4_uc}
use goplane.RoutePath.{RoutePath}
use goplane.RoutePath.Attrs.{get_path_attrs}
use goplane.Message.Packer.{
  Codec, Cage, BgpMessage, update_message, mp_unreach, end_of_rib, PackerKind, v4_packer, mp_packer,
  bytes_of, attrs_len, nlri_size, nlri_of, mp_reach_attrs, create_mp_reach_message, eor_message,
  pack_paths, pack_cages, pack_hashmap, pack_v4, pack_mp, pack,
}
use goplane.Message.Packer.Chunks.{joined, chunks-fit}
use goplane.Message.Packer.Cages.{path_bytes, held_in, held_by, IsOf, IsCage, IsMap}

-- What a peer learns: prefixes that are withdrawn, prefixes with the bytes of their attributes, and
-- the attributes of a message that has nothing else.
pub data Content : Type 0 where
  withdraw_v4 withdraw_mp : Nlri → Content
  announce : List ℕ → Nlri → Content
  attributes : List ℕ → Content

abbrev is_nil_list {ℓ} : {A : Type ℓ} → List A → Bool
is_nil_list [] = true
is_nil_list (_ ∷ _) = false

module _ (c : Codec) where
  abbrev pub contents_of : BgpMessage → List Content
  contents_of (update_message withdrawn attrs nlris) =
      if is_nil_list withdrawn && is_nil_list nlris
      then attributes (bytes_of c attrs) ∷ []
      else map withdraw_v4 withdrawn ++ map (announce (bytes_of c attrs)) nlris
  contents_of (mp_unreach nlris) = map withdraw_mp nlris
  contents_of (end_of_rib family) = []

  abbrev pub contents : List BgpMessage → List Content
  contents [] = []
  contents (m ∷ l) = contents_of m ++ contents l

  abbrev pub announced : RoutePath → Content
  announced p = announce (path_bytes c p) (nlri_of p)

  abbrev pub announced_mp : RoutePath → Content
  announced_mp p = attributes (bytes_of c (mp_reach_attrs p))

  abbrev pub withdrawn_v4 : RoutePath → Content
  withdrawn_v4 p = withdraw_v4 (nlri_of p)

  abbrev pub withdrawn_mp : RoutePath → Content
  withdrawn_mp p = withdraw_mp (nlri_of p)

  abbrev pub held : PackerKind → List Content
  held (v4_packer p) =
      map withdrawn_v4 p.withdrawals
      ++ (map announced (held_by p.hashmap) ++ map announced_mp p.mp_paths)
  held (mp_packer p) = map withdrawn_mp p.withdrawals ++ map announced_mp p.paths

  -- Messages that say what is held.
  pub record Packs (l : List Content) (o : Option (List BgpMessage)) : Type 0 where
    pub messages : List BgpMessage
    pub packed : o ≡ some messages
    pub same : contents messages ≡ l

  pub contents-append : (k l : List BgpMessage) → contents (k ++ l) ≡ contents k ++ contents l
  contents-append [] l = refl
  contents-append (m ∷ k) l =
      ap (◌++◌ (contents_of m)) (contents-append k l)
      ∙ sym (append_assoc (contents_of m) (contents k) (contents l))

  pub Packs-then :
      (k l : List Content) (o r : Option (List BgpMessage))
      → Packs k o
      → Packs l r
      → Packs (k ++ l) (do first ← o; rest ← r; some (first ++ rest))
  Packs-then k l o r h i = record {
    messages = h.messages ++ i.messages;
    packed = rw (h.packed, i.packed) refl;
    same =
        contents-append h.messages i.messages
        ∙ ap (◌++◌ (contents h.messages)) i.same
        ∙ ap (λ x. x ++ l) h.same;
  }

  contents-announcements :
      (attrs : List Attr) (l : List (List Nlri)) (P : List Nlri → Type 0)
      → All (λ nlris. (0 < length nlris) × P nlris) l
      → contents (map (update_message [] attrs) l) ≡ map (announce (bytes_of c attrs)) (joined l)
  contents-announcements attrs [] P h = refl
  contents-announcements attrs ([] ∷ l) P h = absurd (omega (arith, h.0.0))
  contents-announcements attrs ((n ∷ ns) ∷ l) P h =
      ap (λ x. announce (bytes_of c attrs) n ∷ map (announce (bytes_of c attrs)) ns ++ x)
        (contents-announcements attrs l P h.1)
      ∙ sym (map-append (announce (bytes_of c attrs)) (n ∷ ns) (joined l))

  contents-withdrawals :
      (l : List (List Nlri)) (P : List Nlri → Type 0)
      → All (λ nlris. (0 < length nlris) × P nlris) l
      → contents (map (λ nlris. update_message nlris [] []) l) ≡ map withdraw_v4 (joined l)
  contents-withdrawals [] P h = refl
  contents-withdrawals ([] ∷ l) P h = absurd (omega (arith, h.0.0))
  contents-withdrawals ((n ∷ ns) ∷ l) P h =
      ap (λ x. withdraw_v4 n ∷ (map withdraw_v4 ns ++ []) ++ x) (contents-withdrawals l P h.1)
      ∙ ap (λ x. withdraw_v4 n ∷ x ++ map withdraw_v4 (joined l)) (append-nil (map withdraw_v4 ns))
      ∙ sym (map-append withdraw_v4 (n ∷ ns) (joined l))

  map-nlri_of :
      {B : Type 0} (f : Nlri → B) (l : List RoutePath)
      → map f (map nlri_of l) ≡ map (λ p. f (nlri_of p)) l
  map-nlri_of f [] = refl
  map-nlri_of f (p ∷ l) = ap (◌∷◌ (f (nlri_of p))) (map-nlri_of f l)

  contents-mp_reach :
      (l : List RoutePath) → contents (map create_mp_reach_message l) ≡ map announced_mp l
  unfolding create_mp_reach_message
  contents-mp_reach [] = refl
  contents-mp_reach (p ∷ l) = ap (◌∷◌ (announced_mp p)) (contents-mp_reach l)

  contents-mp_unreach :
      (l : List RoutePath)
      → contents (map (λ p. mp_unreach (nlri_of p ∷ [])) l) ≡ map withdrawn_mp l
  contents-mp_unreach [] = refl
  contents-mp_unreach (p ∷ l) = ap (◌∷◌ (withdrawn_mp p)) (contents-mp_unreach l)

  contents-eor : (eof : Bool) (family : ℕ) → contents (eor_message eof family) ≡ []
  contents-eor true family = refl
  contents-eor false family = refl

  module _ (add_path : Bool) where
    announced_alike :
        (b : List ℕ) (l : List RoutePath)
        → All (IsOf c add_path b) l
        → map (announce b) (map nlri_of l) ≡ map announced l
    announced_alike b [] h = refl
    announced_alike b (p ∷ l) h =
        ap (λ x. announce x (nlri_of p) ∷ map (announce b) (map nlri_of l)) (sym h.0.0)
        ∙ ap (◌∷◌ (announced p)) (announced_alike b l h.1)

    pack_paths-Packs :
        (b : List ℕ) (l : List RoutePath)
        → 0 < length l
        → All (IsOf c add_path b) l
        → Packs (map announced l) (pack_paths c add_path l)
    unfolding pack_paths
    pack_paths-Packs b [] some_path h = absurd (omega (arith, some_path))
    pack_paths-Packs b (p ∷ rest) some_path h =
        let attrs = get_path_attrs p in
        let (l, e, f, n) = chunks-fit add_path (attrs_len c attrs) (p ∷ rest) h.0.1 in
        record {
          messages = map (update_message [] attrs) l;
          packed = rw e refl;
          same =
              contents-announcements attrs l _ n
              ∙ ap (map (announce (bytes_of c attrs))) f
              ∙ ap (λ x. map (announce x) (map nlri_of (p ∷ rest))) h.0.0
              ∙ announced_alike b (p ∷ rest) h;
        }

    pack_cages-Packs :
        (l : List Cage)
        → All (IsCage c add_path) l
        → Packs (map announced (held_in l)) (pack_cages c add_path l)
    unfolding pack_cages
    pack_cages-Packs [] h = record { messages = []; packed = refl; same = refl }
    pack_cages-Packs (cage ∷ l) h =
        subst (λ x. Packs x (pack_cages c add_path (cage ∷ l)))
          (sym (map-append announced cage.paths (held_in l)))
          (Packs-then _ _ _ _ (pack_paths-Packs cage.attrs_bytes cage.paths h.0.0 h.0.1)
            (pack_cages-Packs l h.1))

    pack_hashmap-Packs :
        (m : List (ℕ × List Cage))
        → IsMap c add_path m
        → Packs (map announced (held_by m)) (pack_hashmap c add_path m)
    unfolding pack_hashmap
    pack_hashmap-Packs [] h = record { messages = []; packed = refl; same = refl }
    pack_hashmap-Packs (e ∷ m) h =
        subst (λ x. Packs x (pack_hashmap c add_path (e ∷ m)))
          (sym (map-append announced (held_in e.1) (held_by m)))
          (Packs-then _ _ _ _ (pack_cages-Packs e.1 h.0) (pack_hashmap-Packs m h.1))

    abbrev pub IsSound : PackerKind → Type 0
    IsSound (v4_packer p) = IsMap c add_path p.hashmap
    IsSound (mp_packer p) = Unit

    tail_of :
        (l : List RoutePath) (eof : Bool) (family : ℕ)
        → contents (map create_mp_reach_message l ++ eor_message eof family) ≡ map announced_mp l
    tail_of l eof family =
        contents-append (map create_mp_reach_message l) (eor_message eof family)
        ∙ ap (◌++◌ (contents (map create_mp_reach_message l))) (contents-eor eof family)
        ∙ append-nil (contents (map create_mp_reach_message l))
        ∙ contents-mp_reach l

    withdrawals_fit : (b : Bool) → 23 + 0 + nlri_size b ≤ 4096
    withdrawals_fit true = omega arith
    withdrawals_fit false = omega arith

    pub pack-Packs : (k : PackerKind) → IsSound k → Packs (held k) (pack c add_path k)
    unfolding pack pack_v4 pack_mp
    pack-Packs (mp_packer p) h = record {
      messages = pack_mp p;
      packed = refl;
      same =
          contents-append (map (λ q. mp_unreach (nlri_of q ∷ [])) p.withdrawals) _
          ∙ ap (◌++◌ (contents (map (λ q. mp_unreach (nlri_of q ∷ [])) p.withdrawals)))
              (tail_of p.paths p.eof p.family)
          ∙ ap (λ x. x ++ map announced_mp p.paths) (contents-mp_unreach p.withdrawals);
    }
    pack-Packs (v4_packer p) h =
        let (l, e, f, n) = chunks-fit add_path 0 p.withdrawals (withdrawals_fit add_path) in
        let m = pack_hashmap-Packs p.hashmap h in
        record {
          messages =
              map (λ x. update_message x [] []) l
              ++ (m.messages
                  ++ (map create_mp_reach_message p.mp_paths ++ eor_message p.eof rf_ipv4_uc));
          packed = rw (e, m.packed) refl;
          same =
              contents-append (map (λ x. update_message x [] []) l) _
              ∙ ap (◌++◌ (contents (map (λ x. update_message x [] []) l))) (
                  contents-append m.messages _
                  ∙ ap (◌++◌ (contents m.messages)) (tail_of p.mp_paths p.eof rf_ipv4_uc)
                  ∙ ap (λ x. x ++ map announced_mp p.mp_paths) m.same)
              ∙ ap (λ x. x ++ (map announced (held_by p.hashmap) ++ map announced_mp p.mp_paths))
                  (contents-withdrawals l _ n
                    ∙ ap (map withdraw_v4) f
                    ∙ map-nlri_of withdraw_v4 p.withdrawals);
        }
