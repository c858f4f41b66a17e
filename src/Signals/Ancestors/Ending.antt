-- ===== src/Signals/Ancestors/Ending.antt =====
-- The search ends: a round takes one card from the stack, and only cards that were not visited join it.
use mathlib.Core.List.{Memᴰ}
use mathlib.Core.List.Memᴰ
use hermes_n8n_control_plane.Prelude.{
  ℕ, zero, suc, ◌+◌, ◌≤◌, String, ◌≡◌, ◌⊎◌, inl, inr, refl, ap, true, false, some, List, [], ◌∷◌,
  ◌==◌, text_comparable, if◌then◌else◌, contains, length, Bool-cases, arith,
}
use hermes_n8n_control_plane.Signals.Ancestors.{
  Card, Graph, direct_parent_rows, Walk, visit_row, visit_rows, climb, walk,
}
use hermes_n8n_control_plane.Signals.Ancestors.Rows.{direct_parent_rows-IsParent}

abbrev unvisited : List String → List Card → ℕ
unvisited seen [] = 0
unvisited seen (t ∷ ts) =
    let rest = unvisited seen ts in if contains t.id seen then rest else suc rest

unvisited-length : (seen : List String) (ts : List Card) → unvisited seen ts ≤ length ts
unvisited-length seen [] = omega arith
unvisited-length seen (t ∷ ts) = ground (arith, unvisited-length seen ts)

unvisited-visit :
    (id : String) (seen : List String) (ts : List Card)
    → unvisited (id ∷ seen) ts ≤ unvisited seen ts
unvisited-visit id seen [] = omega arith
unvisited-visit id seen (t ∷ ts) = ground (arith, unvisited-visit id seen ts)

unvisited-drop :
    (r : Card) (seen : List String) (ts : List Card)
    → Memᴰ r ts
    → contains r.id seen ≡ false
    → suc (unvisited (r.id ∷ seen) ts) ≤ unvisited seen ts
unvisited-drop r seen [] m h = absurd (Memᴰ.not-nil m)
unvisited-drop r seen (t ∷ ts) m h = elim (Memᴰ.cases_cons m) [
  | inl e ↦
      let same : (r.id == t.id) ≡ true =
        (text_comparable.same_iff r.id t.id).1 (ap (λ q. q.id) e) in
      let now : contains t.id (r.id ∷ seen) ≡ true = rw same refl in
      let before : contains t.id seen ≡ false = cc (h, e) in
      rw (now, before) (omega (arith, unvisited-visit r.id seen ts))
  | inr m ↦ ground (arith, unvisited-drop r seen ts m h)
]

abbrev work : Graph → Walk → ℕ
work g w = unvisited w.visited g.tasks + length w.pending

visit_rows-work :
    (g : Graph) (rows : List Card) (w : Walk)
    → ((r : Card) → Memᴰ r rows → Memᴰ r g.tasks)
    → work g (visit_rows rows w) ≤ work g w
unfolding visit_rows
visit_rows-work g [] w known = omega arith
visit_rows-work g (r ∷ rows) w known =
    let rest = visit_rows-work g rows (visit_row r w) (λ q m. known q (Memᴰ.tail m)) in
    elim (Bool-cases (contains r.id w.visited)) [
      | inl old ↦ ground (arith, rest, old)
      | inr new ↦
          ground
            (arith, rest, new, unvisited-drop r w.visited g.tasks (known r (Memᴰ.head refl)) new)
    ]

climb-work :
    (g : Graph) (child_id : String) (rest : List String) (w : Walk)
    → w.pending ≡ child_id ∷ rest
    → suc (work g (climb g child_id rest w)) ≤ work g w
unfolding climb
climb-work g child_id rest w e = omega (
  arith,
  ap length e,
  visit_rows-work g (direct_parent_rows g child_id) (record w { pending = rest })
      (λ r m. ((direct_parent_rows-IsParent g child_id r).0 m).row),
)

List-cases {ℓ} :
    {A : Type ℓ} (xs : List A) → (xs ≡ []) ⊎ ((x : A) × (rest : List A) × (xs ≡ x ∷ rest))
List-cases [] = inl refl
List-cases (x ∷ xs) = inr (x, xs, refl)

-- With a round for each card that was not visited and for each one of the stack, the search ends, and
-- what its rounds keep holds there.
pub walk_ends {ℓ} :
    (g : Graph) (P : Walk → Type ℓ)
    → ((w : Walk) (child_id : String) (rest : List String)
        → w.pending ≡ child_id ∷ rest
        → P w
        → P (climb g child_id rest w))
    → (fuel : ℕ) (w : Walk) → unvisited w.visited g.tasks + length w.pending ≤ fuel
    → P w
    → (t : Walk) × (walk fuel g w ≡ some t.ancestors) × P t × (t.pending ≡ [])
unfolding walk
walk_ends g P keep zero w h p = elim (List-cases w.pending) [
  | inl empty ↦ (w, rw empty refl, p, empty)
  | inr (c, rest, e) ↦ absurd (omega (arith, ap length e))
]
walk_ends g P keep (suc fuel) w h p = elim (List-cases w.pending) [
  | inl empty ↦ (w, rw empty refl, p, empty)
  | inr (c, rest, e) ↦
      let round = climb-work g c rest w e in
      let (t, ends, last, empty) =
        walk_ends g P keep fuel (climb g c rest w) (omega arith) (keep w c rest e p) in
      (t, rw e ends, last, empty)
]

pub work-at_task :
    (g : Graph) (task_id : String) → unvisited (task_id ∷ []) g.tasks + 1 ≤ suc (length g.tasks)
work-at_task g task_id = omega (arith, unvisited-length (task_id ∷ []) g.tasks)
