-- ===== src/Signals/Ancestors/Rounds.antt =====
-- What the rounds of the search keep.
use mathlib.Core.Logic.{⊎_elim}
use mathlib.Core.List.{Memᴰ}
use mathlib.Core.List.Memᴰ
use hermes_n8n_control_plane.Prelude.{
  String, ◌≡◌, ◌≢◌, ◌↔◌, ◌⊎◌, inl, inr, refl, sym, ap, subst, true, false, List, [], ◌∷◌, ◌++◌,
  text_comparable, contains, Bool-cases, arith,
}
use hermes_n8n_control_plane.Signals.Ancestors.{
  Card, Graph, direct_parent_rows, Walk, visit_row, visit_rows, climb, at_task,
}
use hermes_n8n_control_plane.Signals.Ancestors.Rows.{IsParent, direct_parent_rows-IsParent}

-- The ids of the card and of the cards above it.
pub data Above (g : Graph) (task_id : String) : String → Type 0 where
  here : Above g task_id task_id
  up :
      {child_id : String}
      → Above g task_id child_id
      → (r : Card) → IsParent g child_id r
      → Above g task_id r.id

-- A row of the answer has the id.
abbrev pub Named : List Card → String → Type 0
Named rows id = (r : Card) × Memᴰ r rows × (r.id ≡ id)

contains-cons :
    (a x : String) (xs : List String)
    → (contains a (x ∷ xs) ≡ true) ↔ ((x ≡ a) ⊎ (contains a xs ≡ true))
contains-cons a x xs = ground (arith, text_comparable.same_iff x a)

module _ (g : Graph) (task_id : String) where
  -- What the rounds keep; `Open` holds of the ids whose parents may still be unvisited.
  pub record Inv (Open : String → Type 0) (w : Walk) : Type 0 where
    pub source : contains task_id w.visited ≡ true
    pub reached : (id : String) → contains id w.visited ≡ true → Above g task_id id
    pub queued : (id : String) → Memᴰ id w.pending → contains id w.visited ≡ true
    pub listed : (r : Card) → Memᴰ r w.ancestors → Memᴰ r g.tasks × (contains r.id w.visited ≡ true)
    pub proper : (r : Card) → Memᴰ r w.ancestors → r.id ≢ task_id
    pub named : (id : String) → contains id w.visited ≡ true → (task_id ≡ id) ⊎ Named w.ancestors id
    pub closed :
        (id : String) (r : Card)
        → contains id w.visited ≡ true
        → IsParent g id r
        → (Memᴰ id w.pending ⊎ Open id) ⊎ (contains r.id w.visited ≡ true)

  pub Inv-at_task : Inv (λ _. ⊥) (at_task task_id)
  Inv-at_task =
      let only : (id : String) → contains id (task_id ∷ []) ≡ true → task_id ≡ id =
        λ id m. ⊎_elim (λ e. e) (λ h. cc) ((contains-cons id task_id []).0 m) in
      record {
        source = (contains-cons task_id task_id []).1 (inl refl);
        reached = λ id m. subst (Above g task_id) (only id m) here;
        queued = λ id m. (contains-cons id task_id []).1 (inl (sym (Memᴰ.eq_of_singleton m)));
        listed = λ r m. absurd (Memᴰ.not-nil m);
        proper = λ r m. absurd (Memᴰ.not-nil m);
        named = λ id m. inl (only id m);
        closed = λ id r m p. inl (inl (Memᴰ.head (sym (only id m))));
      }

  module _ (Open : String → Type 0) (child_id : String) (above : Above g task_id child_id) where
    added :
        (w : Walk) (r : Card)
        → IsParent g child_id r
        → contains r.id w.visited ≡ false
        → Inv Open w
        → Inv Open (record {
          pending = r.id ∷ w.pending;
          visited = r.id ∷ w.visited;
          ancestors = w.ancestors ++ r ∷ [];
        })
    added w r parent new inv =
        let seen = λ (id : String). contains-cons id r.id w.visited in
        record {
          source = (seen task_id).1 (inr inv.source);
          reached = λ id m.
              ⊎_elim (λ e. subst (Above g task_id) e (up above r parent)) (inv.reached id)
                ((seen id).0 m);
          queued = λ id m.
              ⊎_elim (λ e. (seen id).1 (inl (sym e))) (λ q. (seen id).1 (inr (inv.queued id q)))
                (Memᴰ.cases_cons m);
          listed = λ q m.
              ⊎_elim (λ o. let (row, old) = inv.listed q o in (row, (seen q.id).1 (inr old)))
                (λ l. fresh_row q (Memᴰ.eq_of_singleton l)) (Memᴰ.append_cases w.ancestors m);
          proper = λ q m.
              ⊎_elim (inv.proper q)
                (λ l e. let same : q ≡ r = Memᴰ.eq_of_singleton l in cc (new, inv.source, same, e))
                (Memᴰ.append_cases w.ancestors m);
          named = λ id m.
              ⊎_elim (λ e. inr (r, Memᴰ.append_right w.ancestors (Memᴰ.head refl), e))
                (λ old.
                  ⊎_elim inl (λ (q, at_q, e). inr (q, Memᴰ.append_left (r ∷ []) at_q, e))
                    (inv.named id old))
                ((seen id).0 m);
          closed = λ id q m p.
              ⊎_elim (λ e. inl (inl (Memᴰ.head (sym e))))
                (λ old.
                  ⊎_elim (λ o. inl (⊎_elim (λ at. inl (Memᴰ.tail at)) inr o))
                    (λ k. inr ((seen q.id).1 (inr k))) (inv.closed id q old p))
                ((seen id).0 m);
        }
      where
        fresh_row : (q : Card) → q ≡ r → Memᴰ q g.tasks × (contains q.id (r.id ∷ w.visited) ≡ true)
        fresh_row q e = (
          Memᴰ.cast e parent.row,
          (contains-cons q.id r.id w.visited).1 (inl (ap (λ c. c.id) (sym e))),
        )

    visit_rows-Inv :
        (rows : List Card) (w : Walk)
        → ((r : Card) → Memᴰ r rows → IsParent g child_id r)
        → Inv Open w
        → Inv Open (visit_rows rows w)
    unfolding visit_rows
    visit_rows-Inv [] w parents inv = inv
    visit_rows-Inv (r ∷ rows) w parents inv =
        let next = λ (v : Walk). visit_rows-Inv rows v (λ q m. parents q (Memᴰ.tail m)) in
        elim (Bool-cases (contains r.id w.visited)) [
          | inl old ↦ rw old (next w inv)
          | inr new ↦ rw new (next _ (added w r (parents r (Memᴰ.head refl)) new inv))
        ]

  visit_rows-kept :
      (id : String) (rows : List Card) (w : Walk)
      → contains id w.visited ≡ true
      → contains id (visit_rows rows w).visited ≡ true
  unfolding visit_rows
  visit_rows-kept id [] w h = h
  visit_rows-kept id (r ∷ rows) w h = visit_rows-kept id rows (visit_row r w) (ground (arith, h))

  visit_rows-marks :
      (r : Card) (rows : List Card) (w : Walk)
      → Memᴰ r rows
      → contains r.id (visit_rows rows w).visited ≡ true
  unfolding visit_rows
  visit_rows-marks r [] w m = absurd (Memᴰ.not-nil m)
  visit_rows-marks r (q ∷ rows) w m = elim (Memᴰ.cases_cons m) [
    | inl e ↦
        visit_rows-kept r.id rows (visit_row q w)
          (ground (arith, contains-cons r.id q.id w.visited, ap (λ c. c.id) e))
    | inr m ↦ visit_rows-marks r rows (visit_row q w) m
  ]

  -- A round keeps the invariant.
  pub climb-Inv :
      (w : Walk) (child_id : String) (rest : List String)
      → w.pending ≡ child_id ∷ rest
      → Inv (λ _. ⊥) w
      → Inv (λ _. ⊥) (climb g child_id rest w)
  unfolding climb
  climb-Inv w child_id rest e inv =
      let rows = direct_parent_rows g child_id in
      let popped = record w { pending = rest } in
      let above = inv.reached child_id (inv.queued child_id (rw e (Memᴰ.head refl))) in
      let opened : Inv (λ id. id ≡ child_id) popped = record {
        source = inv.source;
        reached = inv.reached;
        queued = λ id m. inv.queued id (rw e (Memᴰ.tail m));
        listed = inv.listed;
        proper = inv.proper;
        named = inv.named;
        closed = λ id r m p. elim (inv.closed id r m p) [
          | inl (inl waiting) ↦ inl (⊎_elim inr inl (Memᴰ.cases_cons (subst (Memᴰ id) e waiting)))
          | inl (inr never) ↦ absurd never
          | inr seen ↦ inr seen
        ];
      } in
      let last =
        visit_rows-Inv (λ id. id ≡ child_id) child_id above rows popped
          (λ r m. (direct_parent_rows-IsParent g child_id r).0 m) opened in
      record {
        source = last.source;
        reached = last.reached;
        queued = last.queued;
        listed = last.listed;
        proper = last.proper;
        named = last.named;
        closed = λ id r m p. elim (last.closed id r m p) [
          | inl (inl waiting) ↦ inl (inl waiting)
          | inl (inr same) ↦ inr (
              visit_rows-marks r rows popped
                ((direct_parent_rows-IsParent g child_id r).1 (subst (λ c. IsParent g c r) same p)))
          | inr seen ↦ inr seen
        ];
      }
