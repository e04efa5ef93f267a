-- ===== src/Partition/Invariant.antt =====
-- Well-formed partitions, and that every operation keeps them so.
use yellowstone.Prelude.{
  ℕ, zero, suc, ◌⊎◌, ◌+◌, ◌-◌, ◌≤◌, ◌<◌, ◌≡◌, refl, ◌∙◌, ap, sym, Option, none, some, List, [], ◌∷◌,
  ◌++◌, arith, inl, inr, Bool-cases, Option-cases, leb, ◌==◌, if◌then◌else◌, length, subst,
}
use yellowstone.Event.{Event, Key, key_eq, key_of}
use yellowstone.Partition.{
  Merger, Cell, Levels, Partition, merge_at, push_back_at, find_index, erase_index, make_partition,
  push_new, push, pop_first, pop,
}
use yellowstone.Partition.Cells.{
  cells, IsLevels, insert_cell, cells-push_back_at, push_back_at-IsLevels, cells-merge_at,
  merge_at-IsLevels, drop_empty-IsLevels, cells-drop_empty,
}
use yellowstone.Partition.Nodes.{
  cell_key, find_cell, find_cell_tail, DistinctKeys, DistinctPositions, PositionsBelow,
  NotAt-of_below, PositionsBelow-mono, find_index-erase_index, find_cell-insert_cell,
  All-insert_cell, DistinctPositions-insert_cell, DistinctKeys-insert_cell, length-insert_cell,
  merged, find_cell-merged, All-merged, DistinctKeys-merged, DistinctPositions-merged,
  length-merged,
}

-- What holds of the list of queued nodes of a partition with an index.
pub record IsQueue {ℓ} {Payload : Type ℓ} (p : Partition Payload) (cs : List (Cell Payload))
    : Type ℓ where
  pub counted : p.size ≡ length cs
  pub indexed : (k : Key) → find_index k p.index ≡ find_cell k cs
  pub keys : DistinctKeys cs
  pub positions : DistinctPositions cs
  pub allocated : PositionsBelow p.next_position cs

pub record IsPartition {ℓ} {Payload : Type ℓ} (p : Partition Payload) : Type ℓ where
  pub ordered : IsLevels 0 p.levels
  pub positive : 0 < p.capacity
  pub bounded : p.size ≤ p.capacity
  pub queue : IsQueue p (cells p.levels)

module _ {ℓ} {Payload : Type ℓ} where
  -- The constructor refuses a capacity of 0 and a merger that is not callable, and otherwise
  -- builds an empty, well-formed partition.
  abbrev pub Makes : ℕ → Option (Merger Payload) → Type ℓ
  Makes capacity merger =
      ((make_partition capacity merger ≡ none) × ((capacity ≡ 0) ⊎ (merger ≡ none)))
      ⊎ ((p : Partition Payload) × (make_partition capacity merger ≡ some p)
          × IsPartition p
          × (p.capacity ≡ capacity)
          × (merger ≡ some p.merger)
          × (cells p.levels ≡ []))

  pub make_partition-Makes :
      (capacity : ℕ) (merger : Option (Merger Payload)) → Makes capacity merger
  unfolding make_partition
  make_partition-Makes zero merger = inl (refl, inl refl)
  make_partition-Makes (suc capacity) none = inl (refl, inr refl)
  make_partition-Makes (suc capacity) (some merger) = inr (
    _,
    refl,
    record {
      ordered = tt;
      positive = omega arith;
      bounded = omega arith;
      queue = record {
        counted = refl;
        indexed = λ k. unfold find_index find_cell in refl;
        keys = tt;
        positions = tt;
        allocated = tt;
      };
    },
    refl,
    refl,
    refl,
  )

  IsQueue-merged :
      (p : Partition Payload) (found : ℕ) (e : Event Payload) (cs : List (Cell Payload))
      → IsQueue p cs
      → IsQueue
          (record p { levels = merge_at p.merger found e.payload p.levels })
          (merged p.merger found e.payload cs)
  IsQueue-merged p found e cs q = record {
    counted = q.counted ∙ sym (length-merged p.merger found e.payload cs);
    indexed = λ k. q.indexed k ∙ sym (find_cell-merged p.merger found e.payload k cs);
    keys = DistinctKeys-merged p.merger found e.payload cs q.keys;
    positions = DistinctPositions-merged p.merger found e.payload cs q.positions;
    allocated = All-merged p.merger found e.payload (λ n. n < p.next_position) cs q.allocated;
  }

  merge-IsPartition :
      (p : Partition Payload) (found : ℕ) (e : Event Payload)
      → IsPartition p
      → IsPartition (record p { levels = merge_at p.merger found e.payload p.levels })
  merge-IsPartition p found e v = record {
    ordered = merge_at-IsLevels p.merger found e.payload 0 p.levels v.ordered;
    positive = v.positive;
    bounded = v.bounded;
    queue =
        rw (cells-merge_at p.merger found e.payload p.levels)
          (IsQueue-merged p found e (cells p.levels) v.queue);
  }

  -- The partition with a new node for `e`.
  abbrev pub with_new : Event Payload → Partition Payload → Partition Payload
  with_new e p = record p {
    levels = push_back_at e.superstep (record { position = p.next_position; event = e }) p.levels;
    index = (key_of e, p.next_position) ∷ p.index;
    size = p.size + 1;
    next_position = p.next_position + 1;
  }

  IsQueue-insert :
      (p : Partition Payload) (e : Event Payload) (cs : List (Cell Payload))
      → find_cell (key_of e) cs ≡ none
      → IsQueue p cs
      → IsQueue (with_new e p) (insert_cell (record { position = p.next_position; event = e }) cs)
  IsQueue-insert p e cs new q = record {
    counted = omega (arith, q.counted, length-insert_cell c cs);
    indexed = λ k.
        unfold find_index in
        rw (find_cell-insert_cell k c cs new)
          (ap (λ r. if key_eq (key_of e) k then some p.next_position else r) (q.indexed k));
    keys = DistinctKeys-insert_cell c cs new q.keys;
    positions =
        DistinctPositions-insert_cell c cs (NotAt-of_below p.next_position cs q.allocated)
          q.positions;
    allocated =
        All-insert_cell (λ d. d.position < p.next_position + 1) c cs (omega arith)
          (PositionsBelow-mono p.next_position cs q.allocated);
  }
    where
      c : Cell Payload
      c = record { position = p.next_position; event = e }

  with_new-IsPartition :
      (p : Partition Payload) (e : Event Payload)
      → IsPartition p
      → find_index (key_of e) p.index ≡ none
      → p.size < p.capacity
      → IsPartition (with_new e p)
  with_new-IsPartition p e v new room = record {
    ordered = push_back_at-IsLevels c 0 p.levels (omega arith) v.ordered;
    positive = v.positive;
    bounded = omega arith;
    queue =
        rw (cells-push_back_at c 0 p.levels v.ordered)
          (IsQueue-insert p e (cells p.levels) (sym (v.queue.indexed (key_of e)) ∙ new) v.queue);
  }
    where
      c : Cell Payload
      c = record { position = p.next_position; event = e }

  -- `push` keeps the partition well formed, whatever it returns or throws.
  pub push-IsPartition :
      (e : Event Payload) (p : Partition Payload) → IsPartition p → IsPartition (push e p).0
  unfolding push push_new
  push-IsPartition e p v = elim (Option-cases (find_index (key_of e) p.index)) [
    | inr (found, here) ↦ rw (here, push) (merge-IsPartition p found e v)
    | inl new ↦ elim (Bool-cases (leb p.capacity p.size)) [
      | inl no_room ↦ rw (new, push, no_room) v
      | inr room ↦ rw (new, push, room) (with_new-IsPartition p e v new (ground arith))
    ]
  ]

  IsQueue-pop :
      (p q : Partition Payload) (c : Cell Payload) (cs : List (Cell Payload))
      → q.size ≡ p.size - 1
      → q.index ≡ erase_index (cell_key c) p.index
      → q.next_position ≡ p.next_position
      → IsQueue p (c ∷ cs)
      → IsQueue q cs
  IsQueue-pop p q c cs size index next w = record {
    counted = omega (arith, w.counted);
    indexed = λ k.
        ap (find_index k) index
        ∙ find_index-erase_index (cell_key c) k p.index
        ∙ ap (λ r. if key_eq (cell_key c) k then none else r) (w.indexed k)
        ∙ find_cell_tail k c cs w.keys.0;
    keys = w.keys.1;
    positions = w.positions.1;
    allocated = rw next w.allocated.1;
  }

  pop_first-IsPartition :
      (p : Partition Payload) (levels : Levels Payload)
      → p.levels ≡ levels
      → IsPartition p
      → IsPartition (pop_first levels p).0
  unfolding pop_first
  pop_first-IsPartition p [] e v = v
  pop_first-IsPartition p ((s, []) ∷ levels) e v = v
  pop_first-IsPartition p ((s, c ∷ level) ∷ levels) e v = record {
    ordered = drop_empty-IsLevels 0 s c level levels (subst (IsLevels 0) e v.ordered);
    positive = v.positive;
    bounded = omega (arith, v.bounded);
    queue = rw (cells-drop_empty s level levels) (
        IsQueue-pop p _ c (level ++ cells levels) refl refl refl
          (subst (λ ls. IsQueue p (cells ls)) e v.queue));
  }

  -- `pop` keeps the partition well formed, also when nothing is queued.
  pub pop-IsPartition : (p : Partition Payload) → IsPartition p → IsPartition (pop p).0
  unfolding pop
  pop-IsPartition p v = elim (Bool-cases (p.size == 0)) [
    | inl none_left ↦ rw none_left v
    | inr some_left ↦ rw some_left (pop_first-IsPartition p p.levels refl v)
  ]

  -- No operation changes the capacity or the merger.
  pub push_keeps :
      (e : Event Payload) (p : Partition Payload)
      → ((push e p).0.capacity ≡ p.capacity) × ((push e p).0.merger ≡ p.merger)
  unfolding push push_new
  push_keeps e p = ground arith

  pop_first_keeps :
      (levels : Levels Payload) (p : Partition Payload)
      → ((pop_first levels p).0.capacity ≡ p.capacity) × ((pop_first levels p).0.merger ≡ p.merger)
  unfolding pop_first
  pop_first_keeps [] p = (refl, refl)
  pop_first_keeps ((s, []) ∷ levels) p = (refl, refl)
  pop_first_keeps ((s, c ∷ level) ∷ levels) p = (refl, refl)

  pub pop_keeps :
      (p : Partition Payload) → ((pop p).0.capacity ≡ p.capacity) × ((pop p).0.merger ≡ p.merger)
  unfolding pop
  pop_keeps p = elim (Bool-cases (p.size == 0)) [
    | inl e ↦ rw e (refl, refl)
    | inr e ↦ rw e (pop_first_keeps p.levels p)
  ]
