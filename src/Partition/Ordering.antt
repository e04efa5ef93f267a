-- ===== src/Partition/Ordering.antt =====
-- The order of delivery of a partition: lowest superstep first, first in first out within one.
use yellowstone.Prelude.{
  ℕ, suc, ◌≤◌, ◌<◌, ◌≡◌, refl, ◌∙◌, ap, sym, Bool, true, false, Option, none, some, List, [], ◌∷◌,
  ◌++◌, arith, All, inl, inr, Bool-cases, ltb, eq_nil_of_length, ◌||◌, subst, ◌⊎◌,
}
use yellowstone.Event.{Event}
use yellowstone.Exceptions.{ok}
use yellowstone.Partition.{Cell, Levels, Partition, inserted, push, pop, wait_pop_for, wakes}
use yellowstone.Partition.Cells.{step_of, cells, IsLevels}
use yellowstone.Partition.Queue.{insert_event, queue_push, queue_pop, IsAscending}
use yellowstone.Partition.Invariant.{IsPartition}
use yellowstone.Partition.Refinement.{
  events, contents, pop_view, push-queue_push, pop-queue_pop, size-contents,
}

module _ {ℓ} {Payload : Type ℓ} where
  abbrev pub AtLeast : ℕ → List (Event Payload) → Type 0
  AtLeast s = All λ d. s ≤ d.superstep

  AtLeast-mono : (s t : ℕ) (es : List (Event Payload)) → s ≤ t → AtLeast t es → AtLeast s es
  AtLeast-mono s t [] le h = tt
  AtLeast-mono s t (e ∷ es) le h = (omega arith, AtLeast-mono s t es le h.1)

  -- A level in front of later ones.
  level-AtLeast :
      (s : ℕ) (level rest : List (Cell Payload))
      → All (λ c. step_of c ≡ s) level
      → AtLeast s (events rest)
      → AtLeast s (events (level ++ rest))
  level-AtLeast s [] rest h later = later
  level-AtLeast s (c ∷ level) rest h later = (omega arith, level-AtLeast s level rest h.1 later)

  level-IsAscending :
      (s : ℕ) (level rest : List (Cell Payload))
      → All (λ c. step_of c ≡ s) level
      → AtLeast s (events rest)
      → IsAscending (events rest)
      → IsAscending (events (level ++ rest))
  level-IsAscending s [] rest h later asc = asc
  level-IsAscending s (c ∷ level) rest h later asc =
      (rw h.0 (level-AtLeast s level rest h.1 later), level-IsAscending s level rest h.1 later asc)

  levels-AtLeast :
      (lo : ℕ) (levels : Levels Payload) → IsLevels lo levels → AtLeast lo (events (cells levels))
  levels-AtLeast lo [] h = tt
  levels-AtLeast lo ((s, level) ∷ levels) h =
      AtLeast-mono lo s (events (level ++ cells levels)) h.0 (
        level-AtLeast s level (cells levels) h.2 (
          AtLeast-mono s (suc s) (events (cells levels)) (omega arith)
            (levels-AtLeast (suc s) levels h.3)))

  levels-IsAscending :
      (lo : ℕ) (levels : Levels Payload) → IsLevels lo levels → IsAscending (events (cells levels))
  levels-IsAscending lo [] h = tt
  levels-IsAscending lo ((s, level) ∷ levels) h =
      level-IsAscending s level (cells levels) h.2
        (AtLeast-mono s (suc s) (events (cells levels)) (omega arith)
          (levels-AtLeast (suc s) levels h.3))
        (levels-IsAscending (suc s) levels h.3)

  -- The queued events of a well-formed partition stand in ascending order of their supersteps.
  pub contents-IsAscending : (p : Partition Payload) → IsPartition p → IsAscending (contents p)
  contents-IsAscending p v = levels-IsAscending 0 p.levels v.ordered

  queue_pop_lowest :
      (e : Event Payload) (es : List (Event Payload))
      → IsAscending es
      → (queue_pop es).1 ≡ some e
      → (es ≡ e ∷ (queue_pop es).0) × AtLeast e.superstep (queue_pop es).0
  unfolding queue_pop
  queue_pop_lowest e [] h eq = absurd (cc)
  queue_pop_lowest e (d ∷ ds) h eq =
      let same : d ≡ e = cc in
      (ap (λ z. z ∷ ds) same, subst (λ (z : Event Payload). AtLeast z.superstep ds) same h.0)

  -- The event that `pop` returns was the first one queued, and no event that stays has a lower
  -- superstep.
  pub pop_lowest :
      (e : Event Payload) (p : Partition Payload)
      → IsPartition p
      → (pop p).1 ≡ some e
      → (contents p ≡ e ∷ contents (pop p).0) × AtLeast e.superstep (contents (pop p).0)
  pop_lowest e p v popped =
      let view = pop-queue_pop p v in
      let left = ap (λ r. r.0) view in
      rw left (
        queue_pop_lowest e (contents p) (contents-IsAscending p v)
          (sym (ap (λ r. r.1) view) ∙ popped))

  -- Where `e` stands: behind `xs`, which are of its own or a lower superstep, and in front of `ys`,
  -- which are of a higher one.
  abbrev pub Placed : Event Payload → List (Event Payload) → List (Event Payload) → Type ℓ
  Placed e before after =
      (xs : List (Event Payload)) × (ys : List (Event Payload)) × (before ≡ xs ++ ys)
      × (after ≡ xs ++ (e ∷ ys))
      × All (λ d. d.superstep ≤ e.superstep) xs
      × All (λ d. e.superstep < d.superstep) ys

  insert_event-Placed :
      (e : Event Payload) (es : List (Event Payload))
      → IsAscending es
      → Placed e es (insert_event e es)
  unfolding insert_event
  insert_event-Placed e [] h = ([], [], refl, refl, tt, tt)
  insert_event-Placed e (d ∷ ds) h = elim (Bool-cases (ltb e.superstep d.superstep)) [
    | inl lower ↦ rw lower (
      [],
      d ∷ ds,
      refl,
      refl,
      tt,
      (ground arith, AtLeast-mono (suc e.superstep) d.superstep ds (ground arith) h.0),
    )
    | inr higher ↦
        let (xs, ys, before, after, low, high) = insert_event-Placed e ds h.1 in
        rw higher (d ∷ xs, ys, ap (◌∷◌ d) before, ap (◌∷◌ d) after, (ground arith, low), high)
  ]

  -- A new event that `push` accepts goes behind every queued event of its own superstep, so events
  -- of one superstep are delivered first in, first out, and in front of all of a higher one; no
  -- other event moves.
  pub push-Placed :
      (e : Event Payload) (p : Partition Payload)
      → IsPartition p
      → (push e p).1 ≡ ok inserted
      → Placed e (contents p) (contents (push e p).0)
  unfolding queue_push
  push-Placed e p v accepted =
      let view = push-queue_push e p v in
      let new : contents (push e p).0 ≡ insert_event e (contents p) = ground (arith, view) in
      rw new (insert_event-Placed e (contents p) (contents-IsAscending p v))

  -- `wait_pop_for` waits on only while the queue is empty, the bus runs and the timeout has not
  -- passed; where it returns, it has popped as `pop` does.
  pub wait_pop_for-empty :
      (timed_out running : Bool) (p : Partition Payload)
      → IsPartition p
      → ((wait_pop_for timed_out running p ≡ none)
          × (contents p ≡ [])
          × (running ≡ true)
          × (timed_out ≡ false))
        ⊎ ((q : Partition Payload) × (r : Option (Event Payload)) × (wait_pop_for timed_out running
                p
              ≡ some (q, r))
            × (pop_view (q, r) ≡ queue_pop (contents p)))
  unfolding wait_pop_for
  wait_pop_for-empty timed_out running p v = elim (Bool-cases (wakes running p || timed_out)) [
    | inl returns ↦ inr ((pop p).0, (pop p).1, rw returns, pop-queue_pop p v)
    | inr waits ↦
        let nothing : p.size ≡ 0 = ground arith in
        inl (
          rw waits,
          eq_nil_of_length (contents p) (omega (arith, size-contents p v)),
          ground arith,
          ground arith,
        )
  ]
