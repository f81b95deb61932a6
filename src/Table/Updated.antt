-- ===== src/Table/Updated.antt =====
-- An update of a table of internal/pkg/table/table.go as a whole.
use mathlib.Core.Path.{subst}
use goplane.Prelude.{
  ℕ, true, false, List, [], ◌∷◌, Option, none, some, ◌≡◌, ◌≢◌, refl, sym, ap, ◌∙◌, arith, All,
  Option-cases, inl, inr, replicate,
}
use goplane.Bgp.{Packet}
use goplane.Bitmap.{flag, new_bitmap, get_flag, write_bit}
use goplane.RoutePath.{RoutePath}
use goplane.Destination.{SelectionOptions}
use goplane.Destination.Best.{RanksFirst}
use goplane.Destination.Calculate.{Destination, Update, new_destination}
use goplane.Destination.Calculate.Entered.{IsValid, IsIncoming}
use goplane.Destination.Calculate.Valid.{HasRoom, calculate-IsValid}
use goplane.Table.{
  Table, get_destination, get_or_create_dest, validate_path, store_dest, update_table,
}
use goplane.Table.Lookup.{
  known_of, known_of-store_dest, get_destination-store_ne, All-store_dest, All-get_destination,
}

abbrev pub AreValid : List (ℕ × Destination) → Type 0
AreValid = All (λ e. IsValid e.1)

-- Each destination has room for one path more.
abbrev pub HaveRoom : List (ℕ × Destination) → Type 0
HaveRoom = All (λ e. HasRoom e.1)

-- The destination that a path enters.
record Prepared (key : ℕ) (l : List (ℕ × Destination)) : Type 0 where
  pub dest : Destination
  pub found : get_or_create_dest key 64 l ≡ some dest
  pub valid : IsValid dest
  pub room : HasRoom dest
  pub known : dest.known_path_list ≡ known_of (get_destination key l)

abbrev fresh_dest : Destination
fresh_dest = record { known_path_list = []; local_id_map = (true ∷ replicate 63 false) ∷ [] }

fresh_made : new_destination 64 [] ≡ some fresh_dest
unfolding new_destination flag write_bit new_bitmap
fresh_made = refl

prepared : (key : ℕ) (l : List (ℕ × Destination)) → AreValid l → HaveRoom l → Prepared key l
unfolding get_or_create_dest get_flag
prepared key l v r = elim (Option-cases (get_destination key l)) [
  | inr (d, e) ↦ record {
    dest = d;
    found =
        ap (λ (o : Option Destination). elim o [ some x ↦ some x | none ↦ new_destination 64 [] ])
          e;
    valid = All-get_destination IsValid key l d v e;
    room = All-get_destination HasRoom key l d r e;
    known = sym (ap known_of e);
  }
  | inl e ↦ record {
    dest = fresh_dest;
    found =
        ap (λ (o : Option Destination). elim o [ some d ↦ some d | none ↦ new_destination 64 [] ]) e
        ∙ fresh_made;
    valid = record {
      words = (refl, tt);
      zero_taken = refl;
      have_ids = tt;
      ids_differ = tt;
      keys_differ = tt;
      routers = tt;
    };
    room = omega arith;
    known = sym (ap known_of e);
  }
]

-- An incoming path that the table accepts updates it without a panic: all destinations stay valid, the
-- update holds the known paths at the prefix before and after, the first ranks highest, and no other
-- prefix changes. Selection must be enabled, and each destination must have room for an identifier.
pub update_table_lem :
    (pkt : Packet) (opts : SelectionOptions) (new : RoutePath) (t : Table)
    → opts.disable_best_path_selection ≡ false
    → validate_path new ≡ true
    → IsIncoming new
    → AreValid t.destinations
    → HaveRoom t.destinations
    → (t' : Table) × (u : Update) × (update_table pkt opts new t ≡ some (t', u))
      × AreValid t'.destinations
      × (u.old_known_path_list ≡ known_of (get_destination new.info.nlri.key t.destinations))
      × (u.known_path_list ≡ known_of (get_destination new.info.nlri.key t'.destinations))
      × RanksFirst u.known_path_list
      × ((k : ℕ)
          → k ≢ new.info.nlri.key
          → get_destination k t'.destinations ≡ get_destination k t.destinations)
unfolding update_table
update_table_lem pkt opts new t on accepted inc v room =
    let key = new.info.nlri.key in
    let p = prepared key t.destinations v room in
    let (r, ran, valid, first, lists) =
      calculate-IsValid pkt opts new p.dest on p.valid inc p.room in
    let listed : r.1.known_path_list ≡ r.0.known_path_list =
      ap (λ (x : Update). x.known_path_list) lists in
    (
      record t { destinations = store_dest key r.0 t.destinations },
      r.1,
      rw (accepted, p.found, ran) refl,
      All-store_dest IsValid key r.0 t.destinations valid v,
      ap (λ (x : Update). x.old_known_path_list) lists ∙ p.known,
      listed ∙ sym (known_of-store_dest key r.0 t.destinations),
      subst RanksFirst (sym listed) first,
      λ k n. get_destination-store_ne key k r.0 t.destinations n,
    )
