-- ===== src/Partition/Cells.antt =====
-- The queued nodes of a partition in the order in which they are popped, and what the operations on
-- the levels do to that list.
use yellowstone.Prelude.{
  ℕ, suc, ◌≤◌, ◌<◌, ◌≡◌, refl, ◌≢◌, ◌∙◌, ap, sym, List, [], ◌∷◌, ◌++◌, map, append_assoc, arith,
  All, All-append, inl, inr, Bool-cases, ltb, ◌==◌, if◌then◌else◌,
}
use mathlib.Core.List.{map-append}
use yellowstone.Partition.{
  Merger, Cell, Level, Levels, merge_cell, merge_at, push_back_at, drop_empty,
}

module _ {ℓ} {Payload : Type ℓ} where
  abbrev pub step_of : Cell Payload → ℕ
  step_of c = c.event.superstep

  abbrev pub cells : Levels Payload → List (Cell Payload)
  cells [] = []
  cells ((s, level) ∷ levels) = level ++ cells levels

  -- The map's keys ascend from `lo`; no level is empty, and a level holds events of its own
  -- superstep only.
  abbrev pub IsLevels : ℕ → Levels Payload → Type ℓ
  IsLevels lo [] = Unit
  IsLevels lo ((s, level) ∷ levels) =
      (lo ≤ s) × (level ≢ []) × All (λ c. step_of c ≡ s) level × IsLevels (suc s) levels

  -- The place of a new node: behind every node of its own or a lower superstep.
  unfoldable pub insert_cell : Cell Payload → List (Cell Payload) → List (Cell Payload)
  insert_cell c [] = c ∷ []
  insert_cell c (d ∷ ds) = if ltb (step_of c) (step_of d) then c ∷ d ∷ ds else d ∷ insert_cell c ds

  insert_cell-append :
      (c : Cell Payload) (s : ℕ) (xs ys : List (Cell Payload))
      → All (λ d. step_of d ≡ s) xs
      → s ≤ step_of c
      → insert_cell c (xs ++ ys) ≡ xs ++ insert_cell c ys
  unfolding insert_cell
  insert_cell-append c s [] ys h le = refl
  insert_cell-append c s (d ∷ xs) ys h le = ground (arith, insert_cell-append c s xs ys h.1 le)

  -- In front of a level with a higher superstep.
  insert_cell_front :
      (c : Cell Payload) (lo : ℕ) (levels : Levels Payload)
      → IsLevels lo levels
      → step_of c < lo
      → insert_cell c (cells levels) ≡ c ∷ cells levels
  unfolding insert_cell
  insert_cell_front c lo [] h lt = refl
  insert_cell_front c lo ((s, []) ∷ levels) h lt = absurd (h.1 refl)
  insert_cell_front c lo ((s, d ∷ level) ∷ levels) h lt = ground arith

  pub cells-push_back_at :
      (c : Cell Payload) (lo : ℕ) (levels : Levels Payload)
      → IsLevels lo levels
      → cells (push_back_at (step_of c) c levels) ≡ insert_cell c (cells levels)
  unfolding push_back_at
  cells-push_back_at c lo [] h = unfold insert_cell in refl
  cells-push_back_at c lo ((t, level) ∷ levels) h = elim (Bool-cases (ltb (step_of c) t)) [
    | inl before ↦ rw before (
        sym (
          insert_cell_front c (suc (step_of c)) ((t, level) ∷ levels) (ground arith, h.1, h.2, h.3)
            (omega arith)))
    | inr later ↦ elim (Bool-cases (step_of c == t)) [
      | inl same ↦
          rw (later, same, append_assoc)
            (sym (
              insert_cell-append c t level (cells levels) h.2 (ground arith)
              ∙ ap (◌++◌ level) (insert_cell_front c (suc t) levels h.3 (ground arith))))
      | inr other ↦
          rw (later, other)
            (ap (◌++◌ level) (cells-push_back_at c (suc t) levels h.3)
              ∙ sym (insert_cell-append c t level (cells levels) h.2 (ground arith)))
    ]
  ]

  append_cell-ne-nil : (level : Level Payload) (c : Cell Payload) → level ++ c ∷ [] ≢ []
  append_cell-ne-nil [] c e = cc
  append_cell-ne-nil (d ∷ level) c e = cc

  pub push_back_at-IsLevels :
      (c : Cell Payload) (lo : ℕ) (levels : Levels Payload)
      → lo ≤ step_of c
      → IsLevels lo levels
      → IsLevels lo (push_back_at (step_of c) c levels)
  unfolding push_back_at
  push_back_at-IsLevels c lo [] le h = (le, (λ e. cc), (refl, tt), tt)
  push_back_at-IsLevels c lo ((t, level) ∷ levels) le h = elim (Bool-cases (ltb (step_of c) t)) [
    | inl before ↦ rw before (le, (λ e. cc), (refl, tt), (ground arith, h.1, h.2, h.3))
    | inr later ↦ elim (Bool-cases (step_of c == t)) [
      | inl same ↦
          rw (later, same)
            (
              h.0,
              append_cell-ne-nil level c,
              All-append _ level (c ∷ []) h.2 (ground arith, tt),
              h.3,
            )
      | inr other ↦
          rw (later, other)
            (h.0, h.1, h.2, push_back_at-IsLevels c (suc t) levels (ground arith) h.3)
    ]
  ]

  pub cells-merge_at :
      (merger : Merger Payload) (p : ℕ) (incoming : Payload) (levels : Levels Payload)
      → cells (merge_at merger p incoming levels)
        ≡ map (merge_cell merger p incoming) (cells levels)
  unfolding merge_at
  cells-merge_at merger p incoming [] = refl
  cells-merge_at merger p incoming ((s, level) ∷ levels) =
      rw (cells-merge_at merger p incoming levels)
        (sym (map-append (merge_cell merger p incoming) level (cells levels)))

  module _ (merger : Merger Payload) (p : ℕ) (incoming : Payload) where
    merge_cell-step : (c : Cell Payload) → step_of (merge_cell merger p incoming c) ≡ step_of c
    unfolding merge_cell
    merge_cell-step c = ground arith

    merge_cell-All :
        (s : ℕ) (level : Level Payload)
        → All (λ c. step_of c ≡ s) level
        → All (λ c. step_of c ≡ s) (map (merge_cell merger p incoming) level)
    merge_cell-All s [] h = tt
    merge_cell-All s (c ∷ level) h = (merge_cell-step c ∙ h.0, merge_cell-All s level h.1)

    map-ne-nil :
        (level : Level Payload) → level ≢ [] → map (merge_cell merger p incoming) level ≢ []
    map-ne-nil [] h e = h refl
    map-ne-nil (c ∷ level) h e = cc

    pub merge_at-IsLevels :
        (lo : ℕ) (levels : Levels Payload)
        → IsLevels lo levels
        → IsLevels lo (merge_at merger p incoming levels)
    unfolding merge_at
    merge_at-IsLevels lo [] h = tt
    merge_at-IsLevels lo ((s, level) ∷ levels) h = (
      h.0,
      map-ne-nil level h.1,
      merge_cell-All s level h.2,
      merge_at-IsLevels (suc s) levels h.3,
    )

  -- Popping the first node of the first level.
  pub drop_empty-IsLevels :
      (lo s : ℕ) (c : Cell Payload) (level : Level Payload) (levels : Levels Payload)
      → IsLevels lo ((s, c ∷ level) ∷ levels)
      → IsLevels 0 (drop_empty s level levels)
  unfolding drop_empty
  drop_empty-IsLevels lo s c [] [] h = tt
  drop_empty-IsLevels lo s c [] ((t, l) ∷ levels) h = (omega arith, h.3.1, h.3.2, h.3.3)
  drop_empty-IsLevels lo s c (d ∷ level) levels h =
      (omega arith, (λ e. cc), (h.2.1.0, h.2.1.1), h.3)

  pub cells-drop_empty :
      (s : ℕ) (level : Level Payload) (levels : Levels Payload)
      → cells (drop_empty s level levels) ≡ level ++ cells levels
  unfolding drop_empty
  cells-drop_empty s [] levels = refl
  cells-drop_empty s (c ∷ level) levels = refl
