-- ===== src/Partition.antt =====
-- include/yellowstone/partition.hpp and partition.inl: the bounded queue of one subscriber.
--
-- `m_levels` is the list of a `std::map`'s entries in ascending order of their superstep; each level
-- is a `std::list`, whose nodes keep their identity: `position` is that of a node, and it is what an
-- iterator into the list, and so an entry of `m_index`, holds. `next_position` is the identity of
-- the next node that is allocated. The mutex makes each operation one step; what `wait_pop_for`
-- waits for is an argument.
pub mod Cells
pub mod Nodes
pub mod Queue
pub mod Ordering
pub mod Refinement
pub mod Invariant
use yellowstone.Prelude.{
  ℕ, zero, suc, ◌+◌, ◌-◌, ◌≡◌, Bool, true, false, not, ◌||◌, Option, none, some, List, [], ◌∷◌,
  ◌++◌, map, ltb, leb, is_some, ◌==◌, if◌then◌else◌,
}
use yellowstone.Event.{Event, Key, key_eq, key_of}
use yellowstone.Exceptions.{Exception, Result, ok, err}

pub data PushResult : Type 0 where
  inserted : PushResult
  coalesced : PushResult
  full : PushResult

-- A node of a level.
pub record Cell {ℓ} (Payload : Type ℓ) : Type ℓ where
  pub position : ℕ
  pub event : Event Payload

abbrev pub Level {ℓ} : Type ℓ → Type ℓ
Level Payload = List (Cell Payload)

abbrev pub Levels {ℓ} : Type ℓ → Type ℓ
Levels Payload = List (ℕ × Level Payload)

abbrev pub Index : Type 0
Index = List (Key × ℕ)

-- The callable that merges two payloads: what it leaves in its first argument, and the exception that
-- it throws, if it throws one.
pub record Merger {ℓ} (Payload : Type ℓ) : Type ℓ where
  pub leaves : Payload → Payload → Payload
  pub throws : Payload → Payload → Option Exception

pub record Partition {ℓ} (Payload : Type ℓ) : Type ℓ where
  pub capacity : ℕ
  pub merger : Merger Payload
  pub levels : Levels Payload
  pub index : Index
  pub size : ℕ
  pub next_position : ℕ

-- `m_index.find(key)`.
unfoldable pub find_index : Key → Index → Option ℕ
find_index k [] = none
find_index k ((j, p) ∷ index) = if key_eq j k then some p else find_index k index

-- `m_index.erase(key)`.
unfoldable pub erase_index : Key → Index → Index
erase_index k [] = []
erase_index k ((j, p) ∷ index) =
    let rest = erase_index k index in if key_eq j k then rest else (j, p) ∷ rest

module _ {ℓ} {Payload : Type ℓ} where
  -- The constructor, which takes a callable or an empty `std::function`. `none` is
  -- `std::invalid_argument`.
  unfoldable pub make_partition : ℕ → Option (Merger Payload) → Option (Partition Payload)
  make_partition zero merger = none
  make_partition (suc capacity) none = none
  make_partition (suc capacity) (some merger) = some (record {
    capacity = suc capacity;
    merger = merger;
    levels = [];
    index = [];
    size = 0;
    next_position = 0;
  })

  -- `m_merger(found->second->mutable_payload(), event.payload())`: the node that the iterator `p`
  -- refers to is the only one that changes.
  unfoldable pub merge_cell : Merger Payload → ℕ → Payload → Cell Payload → Cell Payload
  merge_cell merger p incoming c =
      if c.position == p
      then record c {
        event = record (c.event) { payload = merger.leaves c.event.payload incoming };
      }
      else c

  unfoldable pub merge_at : Merger Payload → ℕ → Payload → Levels Payload → Levels Payload
  unfolding merge_cell
  merge_at merger p incoming [] = []
  merge_at merger p incoming ((s, level) ∷ levels) =
      (s, map (merge_cell merger p incoming) level) ∷ merge_at merger p incoming levels

  -- What the call of the merger for the node at `p` throws; `rest` is the answer of the levels behind.
  unfoldable pub throws_in :
      Merger Payload → ℕ → Payload → (rest : Option Exception) → Level Payload → Option Exception
  throws_in merger p incoming rest [] = rest
  throws_in merger p incoming rest (c ∷ level) =
      if c.position == p
      then merger.throws c.event.payload incoming
      else throws_in merger p incoming rest level

  unfoldable pub throws_at : Merger Payload → ℕ → Payload → Levels Payload → Option Exception
  unfolding throws_in
  throws_at merger p incoming [] = none
  throws_at merger p incoming ((s, level) ∷ levels) =
      throws_in merger p incoming (throws_at merger p incoming levels) level

  -- `m_levels[superstep].push_back(event)`: a level that is missing is made at its place.
  unfoldable pub push_back_at : ℕ → Cell Payload → Levels Payload → Levels Payload
  push_back_at s c [] = (s, c ∷ []) ∷ []
  push_back_at s c ((t, level) ∷ levels) =
      if ltb s t
      then (s, c ∷ []) ∷ (t, level) ∷ levels
      else if s == t
      then (t, level ++ c ∷ []) ∷ levels
      else (t, level) ∷ push_back_at s c levels

  unfoldable pub can_accept : Event Payload → Partition Payload → Bool
  unfolding find_index
  can_accept e p = is_some (find_index (key_of e) p.index) || ltb p.size p.capacity

  -- The branches of `push` that follow an unsuccessful `m_index.find`.
  unfoldable pub push_new :
      Event Payload → Partition Payload → Partition Payload × Result PushResult
  unfolding push_back_at
  push_new e p = if leb p.capacity p.size then (p, ok full) else (
    record p {
      levels = push_back_at e.superstep (record { position = p.next_position; event = e }) p.levels;
      index = (key_of e, p.next_position) ∷ p.index;
      size = p.size + 1;
      next_position = p.next_position + 1;
    },
    ok inserted,
  )

  -- An exception of the merger leaves `push`, behind what the merger has done to the payload.
  unfoldable pub push : Event Payload → Partition Payload → Partition Payload × Result PushResult
  unfolding find_index merge_at throws_at push_new
  push e p = elim (find_index (key_of e) p.index) [
    | some found ↦ (
      record p { levels = merge_at p.merger found e.payload p.levels },
      elim (throws_at p.merger found e.payload p.levels) [
        | none ↦ ok coalesced
        | some exception ↦ err exception
      ],
    )
    | none ↦ push_new e p
  ]

  -- `m_levels.erase(level)` if the level is empty.
  unfoldable pub drop_empty : ℕ → Level Payload → Levels Payload → Levels Payload
  drop_empty s [] levels = levels
  drop_empty s (c ∷ level) levels = (s, c ∷ level) ∷ levels

  -- `m_pop_locked` behind its test of `m_size`, on the levels. On an empty map or an empty first
  -- level C++ defines no result: here nothing is popped.
  unfoldable pub pop_first :
      Levels Payload → Partition Payload → Partition Payload × Option (Event Payload)
  unfolding drop_empty erase_index
  pop_first [] p = (p, none)
  pop_first ((s, []) ∷ levels) p = (p, none)
  pop_first ((s, c ∷ level) ∷ levels) p = (
    record p {
      levels = drop_empty s level levels;
      index = erase_index (key_of c.event) p.index;
      size = p.size - 1;
    },
    some c.event,
  )

  -- `m_pop_locked`, and so `pop`.
  unfoldable pub pop : Partition Payload → Partition Payload × Option (Event Payload)
  unfolding pop_first
  pop p = if p.size == 0 then (p, none) else pop_first p.levels p

  -- The predicate of `wait_pop_for`.
  abbrev pub wakes : (running : Bool) → Partition Payload → Bool
  wakes running p = not (p.size == 0) || not running

  -- `wait_pop_for` looked at once, with the partition, the flag and the clock as they are then:
  -- `none` while it waits on, otherwise what it returns.
  unfoldable pub wait_pop_for :
      (timed_out running : Bool)
      → Partition Payload
      → Option (Partition Payload × Option (Event Payload))
  unfolding pop
  wait_pop_for timed_out running p = if wakes running p || timed_out then some (pop p) else none

  -- `empty`.
  unfoldable pub is_empty : Partition Payload → Bool
  is_empty p = p.size == 0
