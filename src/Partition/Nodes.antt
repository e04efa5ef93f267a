-- ===== src/Partition/Nodes.antt =====
-- Nodes found by their key: lookups in the list of queued nodes, and how they fare under the
-- operations on that list.
use yellowstone.Prelude.{
  ℕ, suc, ◌+◌, ◌<◌, ◌≡◌, refl, ◌≢◌, ◌∙◌, ap, sym, true, Option, none, some, List, [], ◌∷◌, map,
  arith, All, inl, inr, Bool-cases, ltb, if◌then◌else◌, length,
}
use yellowstone.Event.{Key, key_eq, key_of}
use yellowstone.Partition.{Merger, Cell, Index, merge_cell, find_index, erase_index}
use yellowstone.Partition.Cells.{step_of, insert_cell}

pub key_eq_refl : (k : Key) → key_eq k k ≡ true
key_eq_refl k = ground arith

pub eq_of_key_eq : (j k : Key) → key_eq j k ≡ true → j ≡ k
eq_of_key_eq j k e = ground arith

-- What the index still finds when one key is erased.
pub find_index-erase_index :
    (k j : Key) (index : Index)
    → find_index j (erase_index k index) ≡ (if key_eq k j then none else find_index j index)
unfolding find_index erase_index
find_index-erase_index k j [] = ground arith
find_index-erase_index k j ((i, p) ∷ index) = ground (arith, find_index-erase_index k j index)

module _ {ℓ} {Payload : Type ℓ} where
  abbrev pub cell_key : Cell Payload → Key
  cell_key c = key_of c.event

  -- The position of the first node with a key.
  unfoldable pub find_cell : Key → List (Cell Payload) → Option ℕ
  find_cell k [] = none
  find_cell k (c ∷ cs) = if key_eq (cell_key c) k then some c.position else find_cell k cs

  abbrev pub DistinctKeys : List (Cell Payload) → Type 0
  DistinctKeys [] = Unit
  DistinctKeys (c ∷ cs) = (find_cell (cell_key c) cs ≡ none) × DistinctKeys cs

  abbrev pub NotAt : ℕ → List (Cell Payload) → Type 0
  NotAt p = All λ c. c.position ≢ p

  abbrev pub DistinctPositions : List (Cell Payload) → Type 0
  DistinctPositions [] = Unit
  DistinctPositions (c ∷ cs) = NotAt c.position cs × DistinctPositions cs

  abbrev pub PositionsBelow : ℕ → List (Cell Payload) → Type 0
  PositionsBelow n = All λ c. c.position < n

  -- Behind the first node, whose key is its own.
  pub find_cell_tail :
      (k : Key) (c : Cell Payload) (cs : List (Cell Payload))
      → find_cell (cell_key c) cs ≡ none
      → (if key_eq (cell_key c) k then none else find_cell k (c ∷ cs)) ≡ find_cell k cs
  unfolding find_cell
  find_cell_tail k c cs own = elim (Bool-cases (key_eq (cell_key c) k)) [
    | inl e ↦ rw e (sym own ∙ ap (λ j. find_cell j cs) (eq_of_key_eq (cell_key c) k e))
    | inr e ↦ rw e
  ]

  pub find_cell-ne :
      (k : Key) (p q : ℕ) (cs : List (Cell Payload)) → NotAt q cs → find_cell k cs ≡ some p → p ≢ q
  unfolding find_cell
  find_cell-ne k p q [] h e = absurd (cc)
  find_cell-ne k p q (c ∷ cs) h e = ground (arith, find_cell-ne k p q cs h.1)

  pub NotAt-of_below : (n : ℕ) (cs : List (Cell Payload)) → PositionsBelow n cs → NotAt n cs
  NotAt-of_below n [] h = tt
  NotAt-of_below n (c ∷ cs) h = (ground arith, NotAt-of_below n cs h.1)

  pub PositionsBelow-mono :
      (n : ℕ) (cs : List (Cell Payload)) → PositionsBelow n cs → PositionsBelow (n + 1) cs
  PositionsBelow-mono n [] h = tt
  PositionsBelow-mono n (c ∷ cs) h = (omega arith, PositionsBelow-mono n cs h.1)

  pub find_cell-insert_cell :
      (k : Key) (c : Cell Payload) (cs : List (Cell Payload))
      → find_cell (cell_key c) cs ≡ none
      → find_cell k (insert_cell c cs)
        ≡ (if key_eq (cell_key c) k then some c.position else find_cell k cs)
  unfolding find_cell insert_cell
  find_cell-insert_cell k c [] h = refl
  find_cell-insert_cell k c (d ∷ ds) h = ground (arith, find_cell-insert_cell k c ds)

  pub All-insert_cell {κ} :
      (P : Cell Payload → Type κ) (c : Cell Payload) (cs : List (Cell Payload))
      → P c
      → All P cs
      → All P (insert_cell c cs)
  unfolding insert_cell
  All-insert_cell P c [] h hs = (h, tt)
  All-insert_cell P c (d ∷ ds) h hs = elim (Bool-cases (ltb (step_of c) (step_of d))) [
    | inl e ↦ rw e (h, hs)
    | inr e ↦ rw e (hs.0, All-insert_cell P c ds h hs.1)
  ]

  pub DistinctPositions-insert_cell :
      (c : Cell Payload) (cs : List (Cell Payload))
      → NotAt c.position cs
      → DistinctPositions cs
      → DistinctPositions (insert_cell c cs)
  unfolding insert_cell
  DistinctPositions-insert_cell c [] new h = (tt, tt)
  DistinctPositions-insert_cell c (d ∷ ds) new h = elim (Bool-cases (ltb (step_of c) (step_of d))) [
    | inl e ↦ rw e (new, h)
    | inr e ↦ rw e (
      All-insert_cell _ c ds (λ same. new.0 (sym same)) h.0,
      DistinctPositions-insert_cell c ds new.1 h.1,
    )
  ]

  pub DistinctKeys-insert_cell :
      (c : Cell Payload) (cs : List (Cell Payload))
      → find_cell (cell_key c) cs ≡ none
      → DistinctKeys cs
      → DistinctKeys (insert_cell c cs)
  unfolding insert_cell find_cell
  DistinctKeys-insert_cell c [] new h = (refl, tt)
  DistinctKeys-insert_cell c (d ∷ ds) new h =
      ground (arith, DistinctKeys-insert_cell c ds, find_cell-insert_cell (cell_key d) c ds)

  pub length-insert_cell :
      (c : Cell Payload) (cs : List (Cell Payload)) → length (insert_cell c cs) ≡ length cs + 1
  unfolding insert_cell
  length-insert_cell c [] = refl
  length-insert_cell c (d ∷ ds) = ground (arith, length-insert_cell c ds)

  -- A payload merged in place leaves keys and positions alone.
  module _ (merger : Merger Payload) (p : ℕ) (incoming : Payload) where
    abbrev pub merged : List (Cell Payload) → List (Cell Payload)
    merged = map (merge_cell merger p incoming)

    merge_cell-key : (c : Cell Payload) → cell_key (merge_cell merger p incoming c) ≡ cell_key c
    unfolding merge_cell
    merge_cell-key c = ground arith

    merge_cell-position :
        (c : Cell Payload) → (merge_cell merger p incoming c).position ≡ c.position
    unfolding merge_cell
    merge_cell-position c = ground arith

    pub find_cell-merged :
        (k : Key) (cs : List (Cell Payload)) → find_cell k (merged cs) ≡ find_cell k cs
    unfolding find_cell
    find_cell-merged k [] = refl
    find_cell-merged k (c ∷ cs) =
        rw (merge_cell-key c, merge_cell-position c, find_cell-merged k cs)

    pub All-merged :
        (P : ℕ → Type 0) (cs : List (Cell Payload))
        → All (λ c. P c.position) cs
        → All (λ c. P c.position) (merged cs)
    All-merged P [] h = tt
    All-merged P (c ∷ cs) h = (rw (merge_cell-position c) h.0, All-merged P cs h.1)

    pub DistinctKeys-merged :
        (cs : List (Cell Payload)) → DistinctKeys cs → DistinctKeys (merged cs)
    DistinctKeys-merged [] h = tt
    DistinctKeys-merged (c ∷ cs) h =
        (rw (merge_cell-key c, find_cell-merged (cell_key c) cs) h.0, DistinctKeys-merged cs h.1)

    pub DistinctPositions-merged :
        (cs : List (Cell Payload)) → DistinctPositions cs → DistinctPositions (merged cs)
    DistinctPositions-merged [] h = tt
    DistinctPositions-merged (c ∷ cs) h = (
      rw (merge_cell-position c) (All-merged (λ n. n ≢ c.position) cs h.0),
      DistinctPositions-merged cs h.1,
    )

    pub length-merged : (cs : List (Cell Payload)) → length (merged cs) ≡ length cs
    length-merged [] = refl
    length-merged (c ∷ cs) = ap suc (length-merged cs)

    pub merged_absent : (cs : List (Cell Payload)) → NotAt p cs → merged cs ≡ cs
    unfolding merge_cell
    merged_absent [] h = refl
    merged_absent (c ∷ cs) h = ground (arith, merged_absent cs h.1)
