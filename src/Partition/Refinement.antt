-- ===== src/Partition/Refinement.antt =====
-- A well-formed partition behaves as the queue of its events: the levels, the index and the
-- positions cannot be told from outside.
use yellowstone.Prelude.{
  ℕ, suc, ◌≡◌, refl, ◌≢◌, ap, sym, true, false, Option, none, some, ◌≤◌, ◌++◌, ◌∙◌, ◌↔◌, List, [],
  ◌∷◌, map, arith, inl, inr, Bool-cases, Option-cases, ◌==◌, length, eq_nil_of_length, subst,
  is_some,
}
use yellowstone.Event.{Event, Key, key_eq, key_of}
use yellowstone.Exceptions.{Result, ok}
use yellowstone.Partition.{
  Merger, Cell, Levels, Partition, throws_in, throws_at, PushResult, full, merge_cell, merge_at,
  push_back_at, find_index, can_accept, push_new, push, pop_first, pop,
}
use yellowstone.Partition.Cells.{
  cells, IsLevels, insert_cell, cells-push_back_at, cells-merge_at, cells-drop_empty,
}
use yellowstone.Partition.Nodes.{
  cell_key, find_cell, find_cell-ne, DistinctPositions, NotAt, merged, merged_absent,
}
use yellowstone.Partition.Queue.{
  has_key, coalesce, coalesce_throws, insert_event, queue_push, queue_pop,
}
use yellowstone.Partition.Invariant.{IsPartition}

module _ {ℓ} {Payload : Type ℓ} where
  abbrev pub events : List (Cell Payload) → List (Event Payload)
  events = map λ c. c.event

  -- The queued events in the order in which they are popped.
  abbrev pub contents : Partition Payload → List (Event Payload)
  contents p = events (cells p.levels)

  length-events : (cs : List (Cell Payload)) → length (events cs) ≡ length cs
  length-events [] = refl
  length-events (c ∷ cs) = ap suc (length-events cs)

  has_key-find_cell :
      (k : Key) (cs : List (Cell Payload)) → has_key k (events cs) ≡ is_some (find_cell k cs)
  unfolding has_key find_cell
  has_key-find_cell k [] = refl
  has_key-find_cell k (c ∷ cs) = ground (arith, has_key-find_cell k cs)

  events-insert_cell :
      (c : Cell Payload) (cs : List (Cell Payload))
      → events (insert_cell c cs) ≡ insert_event c.event (events cs)
  unfolding insert_cell insert_event
  events-insert_cell c [] = refl
  events-insert_cell c (d ∷ ds) = ground (arith, events-insert_cell c ds)

  events-merged :
      (merger : Merger Payload) (e : Event Payload) (found : ℕ) (cs : List (Cell Payload))
      → DistinctPositions cs
      → find_cell (key_of e) cs ≡ some found
      → events (merged merger found e.payload cs) ≡ coalesce merger e (events cs)
  unfolding coalesce find_cell merge_cell
  events-merged merger e found [] h eq = cc
  events-merged merger e found (c ∷ cs) h eq = elim (Bool-cases (key_eq (cell_key c) (key_of e))) [
    | inl hit ↦
        let here : c.position ≡ found = ground arith in
        ground (
          arith,
          ap events (merged_absent merger found e.payload cs (subst (λ p. NotAt p cs) here h.0)),
        )
    | inr miss ↦ ground (
      arith,
      find_cell-ne (key_of e) found c.position cs h.0,
      events-merged merger e found cs h.1,
    )
  ]

  throws_in-append :
      (merger : Merger Payload) (p : ℕ) (incoming : Payload) (xs ys : List (Cell Payload))
      → throws_in merger p incoming (throws_in merger p incoming none ys) xs
        ≡ throws_in merger p incoming none (xs ++ ys)
  unfolding throws_in
  throws_in-append merger p incoming [] ys = refl
  throws_in-append merger p incoming (c ∷ xs) ys =
      ground (arith, throws_in-append merger p incoming xs ys)

  throws_at-cells :
      (merger : Merger Payload) (p : ℕ) (incoming : Payload) (levels : Levels Payload)
      → throws_at merger p incoming levels ≡ throws_in merger p incoming none (cells levels)
  unfolding throws_at throws_in
  throws_at-cells merger p incoming [] = refl
  throws_at-cells merger p incoming ((s, level) ∷ levels) =
      ap (λ rest. throws_in merger p incoming rest level) (throws_at-cells merger p incoming levels)
      ∙ throws_in-append merger p incoming level (cells levels)

  throws_in-coalesce :
      (merger : Merger Payload) (e : Event Payload) (found : ℕ) (cs : List (Cell Payload))
      → DistinctPositions cs
      → find_cell (key_of e) cs ≡ some found
      → throws_in merger found e.payload none cs ≡ coalesce_throws merger e (events cs)
  unfolding throws_in coalesce_throws find_cell
  throws_in-coalesce merger e found [] h eq = refl
  throws_in-coalesce merger e found (c ∷ cs) h eq =
      elim (Bool-cases (key_eq (cell_key c) (key_of e))) [
        | inl hit ↦ ground arith
        | inr miss ↦ ground (
          arith,
          find_cell-ne (key_of e) found c.position cs h.0,
          throws_in-coalesce merger e found cs h.1,
        )
      ]

  -- The new contents and the result.
  abbrev pub push_view :
      Partition Payload × Result PushResult → List (Event Payload) × Result PushResult
  push_view (p, r) = (contents p, r)

  abbrev pub pop_view :
      Partition Payload × Option (Event Payload) → List (Event Payload) × Option (Event Payload)
  pop_view (p, r) = (contents p, r)

  pub size-contents : (p : Partition Payload) → IsPartition p → p.size ≡ length (contents p)
  size-contents p v = v.queue.counted ∙ sym (length-events (cells p.levels))

  -- The queue has as many events as it may have, and none with the key of `e`.
  abbrev pub IsFull : Event Payload → Partition Payload → Type 0
  IsFull e p = (has_key (key_of e) (contents p) ≡ false) × (p.capacity ≤ length (contents p))

  module _ (e : Event Payload) (p : Partition Payload) (v : IsPartition p) where
    has_key-find_index : has_key (key_of e) (contents p) ≡ is_some (find_index (key_of e) p.index)
    has_key-find_index =
        has_key-find_cell (key_of e) (cells p.levels)
        ∙ ap is_some (sym (v.queue.indexed (key_of e)))

    contents-merge :
        (found : ℕ)
        → find_index (key_of e) p.index ≡ some found
        → events (cells (merge_at p.merger found e.payload p.levels))
          ≡ coalesce p.merger e (contents p)
    contents-merge found here =
        ap events (cells-merge_at p.merger found e.payload p.levels)
        ∙ events-merged p.merger e found (cells p.levels) v.queue.positions
            (sym (v.queue.indexed (key_of e)) ∙ here)

    throws-merge :
        (found : ℕ)
        → find_index (key_of e) p.index ≡ some found
        → throws_at p.merger found e.payload p.levels ≡ coalesce_throws p.merger e (contents p)
    throws-merge found here =
        throws_at-cells p.merger found e.payload p.levels
        ∙ throws_in-coalesce p.merger e found (cells p.levels) v.queue.positions
            (sym (v.queue.indexed (key_of e)) ∙ here)

    contents-insert :
        (n : ℕ)
        → events (cells (push_back_at e.superstep (record { position = n; event = e }) p.levels))
          ≡ insert_event e (contents p)
    contents-insert n =
        ap events (cells-push_back_at (record { position = n; event = e }) 0 p.levels v.ordered)
        ∙ events-insert_cell (record { position = n; event = e }) (cells p.levels)

    -- `push` does to the contents, and returns, what the abstract queue does: a duplicate is merged
    -- into the queued event, and an exception that the merger throws comes back; a new event goes behind those of its own or a lower superstep, and a
    -- full partition refuses it unchanged.
    pub push-queue_push : push_view (push e p) ≡ queue_push p.merger p.capacity e (contents p)
    unfolding push push_new queue_push
    push-queue_push = elim (Option-cases (find_index (key_of e) p.index)) [
      | inr (found, here) ↦
          ground (arith, has_key-find_index, contents-merge found here, throws-merge found here)
      | inl new ↦
          ground (arith, has_key-find_index, size-contents p v, contents-insert p.next_position)
    ]

    -- `can_accept` foretells `push`: it holds exactly when `push` does not report a full partition.
    pub can_accept-push : (can_accept e p ≡ true) ↔ ((push e p).1 ≢ ok full)
    unfolding can_accept push push_new
    can_accept-push = elim (Option-cases (find_index (key_of e) p.index)) [
      | inr (found, here) ↦ (λ h. ground arith, λ h. ground arith)
      | inl new ↦ (λ h. ground arith, λ h. ground arith)
    ]

    pub can_accept_refused : can_accept e p ≡ false → IsFull e p
    unfolding can_accept
    can_accept_refused h = elim (Option-cases (find_index (key_of e) p.index)) [
      | inr (found, here) ↦ absurd (ground arith)
      | inl new ↦ (ground (arith, has_key-find_index), ground (arith, size-contents p v))
    ]

    pub can_accept_room : can_accept e p ≡ true → ¬ IsFull e p
    unfolding can_accept
    can_accept_room h (no_key, at_end) = elim (Option-cases (find_index (key_of e) p.index)) [
      | inr (found, here) ↦ absurd (ground (arith, has_key-find_index))
      | inl new ↦ absurd (ground (arith, size-contents p v))
    ]

  module _ (p : Partition Payload) (v : IsPartition p) where
    pop_first-queue_pop :
        (levels : Levels Payload)
        → p.levels ≡ levels
        → IsLevels 0 levels
        → pop_view (pop_first levels p) ≡ queue_pop (events (cells levels))
    unfolding pop_first queue_pop
    pop_first-queue_pop [] e h = rw e
    pop_first-queue_pop ((s, []) ∷ levels) e h = absurd (h.1 refl)
    pop_first-queue_pop ((s, c ∷ level) ∷ levels) e h = rw (cells-drop_empty s level levels)

    -- `pop` removes and returns the first event of the contents, and nothing from an empty
    -- partition.
    pub pop-queue_pop : pop_view (pop p) ≡ queue_pop (contents p)
    unfolding pop queue_pop
    pop-queue_pop = elim (Bool-cases (p.size == 0)) [
      | inl empty ↦
          let nothing : contents p ≡ [] =
            eq_nil_of_length (contents p) (ground (arith, size-contents p v)) in
          rw (empty, nothing)
      | inr some_left ↦ rw some_left (pop_first-queue_pop p.levels refl v.ordered)
    ]
