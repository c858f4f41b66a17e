-- ===== src/Signals/Ancestors.antt =====
-- The cards above a card: `_direct_parent_rows` and `_ancestor_rows` of `install_rework_delivery_provenance_guard`.
pub mod Ending
pub mod Reaching
pub mod Rounds
pub mod Rows
use hermes_n8n_control_plane.Prelude.{
  ℕ, zero, suc, String, Bool, true, false, not, ◌&&◌, ◌||◌, Option, none, some, List, [], ◌∷◌, ◌++◌,
  ◌==◌, text_comparable, if◌then◌else◌, ltb, codes, codes_le, keep, contains, length,
}

-- A row of `tasks` as the guard reads it.
pub record Card : Type 0 where
  pub id : String
  pub status : Option String
  pub assignee : Option String
  pub title : Option String
  pub completed_at : Option ℕ

-- A row of `task_links`.
pub record Link : Type 0 where
  pub parent_id : String
  pub child_id : String

pub record Graph : Type 0 where
  pub tasks : List Card
  pub task_links : List Link

-- NULL is less than every time.
abbrev pub time_before : Option ℕ → Option ℕ → Bool
time_before none none = false
time_before none (some u) = true
time_before (some t) none = false
time_before (some t) (some u) = ltb t u

-- `ORDER BY t.completed_at ASC, t.id ASC`
abbrev pub card_before : Card → Card → Bool
card_before a b =
    time_before a.completed_at b.completed_at
    || not (time_before b.completed_at a.completed_at) && codes_le (codes a.id) (codes b.id)

unfoldable pub insert_card : Card → List Card → List Card
insert_card a [] = a ∷ []
insert_card a (b ∷ bs) = if card_before a b then a ∷ b ∷ bs else b ∷ insert_card a bs

unfoldable pub in_order : List Card → List Card
unfolding insert_card
in_order [] = []
in_order (a ∷ cards) = insert_card a (in_order cards)

-- `task_links AS l JOIN tasks AS t ON t.id = l.parent_id WHERE l.child_id = ?`
unfoldable pub joined_parents : String → List Card → List Link → List Card
joined_parents child_id tasks [] = []
joined_parents child_id tasks (l ∷ links) =
    let rest = joined_parents child_id tasks links in
    if l.child_id == child_id then keep (λ t. t.id == l.parent_id) tasks ++ rest else rest

unfoldable pub direct_parent_rows : Graph → String → List Card
unfolding in_order joined_parents
direct_parent_rows g child_id = in_order (joined_parents child_id g.tasks g.task_links)

-- The local variables of the search; the top of the stack comes first.
pub record Walk : Type 0 where
  pub pending : List String
  pub visited : List String
  pub ancestors : List Card

-- The body of the inner loop.
abbrev pub visit_row : Card → Walk → Walk
visit_row row w = if contains row.id w.visited then w else record {
  pending = row.id ∷ w.pending;
  visited = row.id ∷ w.visited;
  ancestors = w.ancestors ++ row ∷ [];
}

unfoldable pub visit_rows : List Card → Walk → Walk
visit_rows [] w = w
visit_rows (row ∷ rows) w = visit_rows rows (visit_row row w)

-- One round of the outer loop: `child_id` was popped and `rest` is left of the stack.
unfoldable pub climb : Graph → String → List String → Walk → Walk
unfolding visit_rows direct_parent_rows
climb g child_id rest w = visit_rows (direct_parent_rows g child_id) (record w { pending = rest })

unfoldable pub walk : ℕ → Graph → Walk → Option (List Card)
unfolding climb
walk zero g w = elim w.pending [ [] ↦ some w.ancestors | child_id ∷ rest ↦ none ]
walk (suc fuel) g w = elim w.pending [
  | [] ↦ some w.ancestors
  | child_id ∷ rest ↦ walk fuel g (climb g child_id rest w)
]

abbrev pub at_task : String → Walk
at_task task_id = record { pending = task_id ∷ []; visited = task_id ∷ []; ancestors = [] }

-- `_ancestor_rows`, with a round for the card and one for each card of the table.
unfoldable pub ancestor_rows : Graph → String → Option (List Card)
unfolding walk
ancestor_rows g task_id = walk (suc (length g.tasks)) g (at_task task_id)
