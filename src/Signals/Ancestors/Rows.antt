-- ===== src/Signals/Ancestors/Rows.antt =====
-- The rows of `_direct_parent_rows` are the cards that a link makes parents.
use mathlib.Core.Logic.{⊎_elim}
use mathlib.Core.List.{Memᴰ}
use mathlib.Core.List.Memᴰ
use hermes_n8n_control_plane.Prelude.{
  Memᴰ-cons, String, ◌≡◌, ◌↔◌, ◌⊎◌, inl, inr, refl, Bool, true, List, [], ◌∷◌, ◌++◌, ◌==◌,
  text_comparable, keep, arith, Bool-cases, if_both,
}
use hermes_n8n_control_plane.Signals.Ancestors.{
  Card, Link, Graph, insert_card, in_order, joined_parents, direct_parent_rows,
}

-- A card of the table that a link makes a parent.
pub record Joined (child_id : String) (tasks : List Card) (links : List Link) (r : Card)
    : Type 0 where
  pub row : Memᴰ r tasks
  pub link : Link
  pub linked : Memᴰ link links
  pub child : link.child_id ≡ child_id
  pub parent : r.id ≡ link.parent_id

abbrev pub IsParent : Graph → String → Card → Type 0
IsParent g child_id r = Joined child_id g.tasks g.task_links r

module _ {ℓ} {A : Type ℓ} where
  Memᴰ-append : (a : A) (xs ys : List A) → Memᴰ a (xs ++ ys) ↔ (Memᴰ a xs ⊎ Memᴰ a ys)
  Memᴰ-append a xs ys = (Memᴰ.append_cases xs, ⊎_elim (Memᴰ.append_left ys) (Memᴰ.append_right xs))

Memᴰ-keep :
    (p : Card → Bool) (r : Card) (ts : List Card) → Memᴰ r (keep p ts) ↔ (Memᴰ r ts × (p r ≡ true))
Memᴰ-keep p r [] = (λ m. absurd (Memᴰ.not-nil m), λ m. m.0)
Memᴰ-keep p r (t ∷ ts) = elim (Bool-cases (p t)) [
  | inl kept ↦
      rw kept (ground (arith, Memᴰ-cons r t (keep p ts), Memᴰ-cons r t ts, Memᴰ-keep p r ts, kept))
  | inr dropped ↦ rw dropped (ground (arith, Memᴰ-cons r t ts, Memᴰ-keep p r ts, dropped))
]

Memᴰ-insert : (r a : Card) (bs : List Card) → Memᴰ r (insert_card a bs) ↔ ((r ≡ a) ⊎ Memᴰ r bs)
unfolding insert_card
Memᴰ-insert r a [] = Memᴰ-cons r a []
Memᴰ-insert r a (b ∷ bs) = ground (
  arith,
  Memᴰ-cons r a (b ∷ bs),
  Memᴰ-cons r b (insert_card a bs),
  Memᴰ-cons r b bs,
  Memᴰ-insert r a bs,
)

Memᴰ-in_order : (r : Card) (cards : List Card) → Memᴰ r (in_order cards) ↔ Memᴰ r cards
unfolding in_order
Memᴰ-in_order r [] = (λ m. m, λ m. m)
Memᴰ-in_order r (a ∷ cards) =
    ground (arith, Memᴰ-insert r a (in_order cards), Memᴰ-cons r a cards, Memᴰ-in_order r cards)

module _ (child_id : String) (tasks : List Card) (l : Link) (links : List Link) (r : Card) where
  later : Joined child_id tasks links r → Joined child_id tasks (l ∷ links) r
  later j = record {
    row = j.row;
    link = j.link;
    linked = Memᴰ.tail j.linked;
    child = j.child;
    parent = j.parent;
  }

  by_first :
      (l.child_id == child_id) ≡ true
      → Memᴰ r (keep (λ t. t.id == l.parent_id) tasks)
      → Joined child_id tasks (l ∷ links) r
  by_first e m =
      let (row, same) = (Memᴰ-keep (λ t. t.id == l.parent_id) r tasks).0 m in
      record {
        row = row;
        link = l;
        linked = Memᴰ.head refl;
        child = (text_comparable.same_iff l.child_id child_id).0 e;
        parent = (text_comparable.same_iff r.id l.parent_id).0 same;
      }

joined_parents-sound :
    (child_id : String) (tasks : List Card) (links : List Link) (r : Card)
    → Memᴰ r (joined_parents child_id tasks links)
    → Joined child_id tasks links r
unfolding joined_parents
joined_parents-sound child_id tasks [] r m = absurd (Memᴰ.not-nil m)
joined_parents-sound child_id tasks (l ∷ links) r m = elim (Bool-cases (l.child_id == child_id)) [
  | inl e ↦
      ⊎_elim (by_first child_id tasks l links r e)
        (λ rest. later child_id tasks l links r (joined_parents-sound child_id tasks links r rest))
        (Memᴰ.append_cases (keep (λ t. t.id == l.parent_id) tasks) (rw e at m))
  | inr e ↦ later child_id tasks l links r (joined_parents-sound child_id tasks links r (rw e at m))
]

joined_parents-complete :
    (child_id : String) (tasks : List Card) (links : List Link) (r : Card)
    → Joined child_id tasks links r
    → Memᴰ r (joined_parents child_id tasks links)
unfolding joined_parents
joined_parents-complete child_id tasks [] r j = absurd (Memᴰ.not-nil j.linked)
joined_parents-complete child_id tasks (l ∷ links) r j = elim (Memᴰ.cases_cons j.linked) [
  | inl e ↦
      let child : l.child_id ≡ child_id = cc (j.child) in
      let parent : r.id ≡ l.parent_id = cc (j.parent) in
      let test : (l.child_id == child_id) ≡ true =
        (text_comparable.same_iff l.child_id child_id).1 child in
      let kept : (r.id == l.parent_id) ≡ true =
        (text_comparable.same_iff r.id l.parent_id).1 parent in
      rw test (
        Memᴰ.append_left (joined_parents child_id tasks links)
          ((Memᴰ-keep (λ t. t.id == l.parent_id) r tasks).1 (j.row, kept)))
  | inr m ↦
      let rest =
        joined_parents-complete child_id tasks links r
          (record { row = j.row; link = j.link; linked = m; child = j.child; parent = j.parent }) in
      if_both (Memᴰ r) (l.child_id == child_id)
        (Memᴰ.append_right (keep (λ t. t.id == l.parent_id) tasks) rest) rest
]

-- A row is read just when it is a parent.
pub direct_parent_rows-IsParent :
    (g : Graph) (child_id : String) (r : Card)
    → Memᴰ r (direct_parent_rows g child_id) ↔ IsParent g child_id r
unfolding direct_parent_rows
direct_parent_rows-IsParent g child_id r =
    let order = Memᴰ-in_order r (joined_parents child_id g.tasks g.task_links) in
    (
      λ m. joined_parents-sound child_id g.tasks g.task_links r (order.0 m),
      λ j. order.1 (joined_parents-complete child_id g.tasks g.task_links r j),
    )
