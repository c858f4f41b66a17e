-- ===== src/Signals/Ancestors/Reaching.antt =====
-- The cards that are found: those above the card by the links, at whatever distance, and no others.
use mathlib.Core.Logic.{⊎_elim}
use mathlib.Core.List.{Memᴰ}
use mathlib.Core.List.Memᴰ
use hermes_n8n_control_plane.Prelude.{
  suc, String, ◌≡◌, ◌≢◌, inl, inr, sym, subst, true, some, List, [], text_comparable, contains,
  length,
}
use hermes_n8n_control_plane.Signals.Ancestors.{Card, Graph, Walk, at_task, ancestor_rows}
use hermes_n8n_control_plane.Signals.Ancestors.Ending.{walk_ends, work-at_task}
use hermes_n8n_control_plane.Signals.Ancestors.Rounds.{
  Above, here, up, Named, Inv, Inv-at_task, climb-Inv,
}

-- The rows are those of the cards above the card: each row stands in the table, is above the card and
-- is not the card, and each other id above the card has a row.
pub record IsAncestry (g : Graph) (task_id : String) (rows : List Card) : Type 0 where
  pub listed : (r : Card) → Memᴰ r rows → Memᴰ r g.tasks
  pub sound : (r : Card) → Memᴰ r rows → Above g task_id r.id
  pub proper : (r : Card) → Memᴰ r rows → r.id ≢ task_id
  pub complete : (id : String) → Above g task_id id → id ≢ task_id → Named rows id

module _ (g : Graph) (task_id : String) where
  complete_at_end :
      (w : Walk)
      → w.pending ≡ []
      → Inv g task_id (λ _. ⊥) w
      → {id : String} → Above g task_id id
      → contains id w.visited ≡ true
  complete_at_end w empty inv here = inv.source
  complete_at_end w empty inv (up {child_id} a r parent) =
      elim (inv.closed child_id r (complete_at_end w empty inv a) parent) [
        | inl (inl waiting) ↦ absurd (Memᴰ.not-nil (subst (Memᴰ child_id) empty waiting))
        | inl (inr never) ↦ absurd never
        | inr m ↦ m
      ]

-- `_ancestor_rows` ends for every table of links, cycles included, and gives the cards above the card:
-- those that its links lead to over any number of parents, without the card itself.
pub ancestor_rows-IsAncestry :
    (g : Graph) (task_id : String)
    → (rows : List Card) × (ancestor_rows g task_id ≡ some rows) × IsAncestry g task_id rows
unfolding ancestor_rows
ancestor_rows-IsAncestry g task_id =
    let (t, ends, inv, empty) =
      walk_ends g (Inv g task_id (λ _. ⊥)) (climb-Inv g task_id) (suc (length g.tasks))
        (at_task task_id) (work-at_task g task_id) (Inv-at_task g task_id) in
    (
      t.ancestors,
      ends,
      record {
        listed = λ r m. (inv.listed r m).0;
        sound = λ r m. inv.reached r.id (inv.listed r m).1;
        proper = inv.proper;
        complete = λ id above other.
            ⊎_elim (λ e. absurd (other (sym e))) (λ n. n)
              (inv.named id (complete_at_end g task_id t empty inv above));
      },
    )
