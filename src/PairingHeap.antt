-- ===== src/PairingHeap.antt =====
-- include/yellowstone/collections/pairing_heap.hpp and pairing_heap.inl.
--
-- A chain of nodes is the first-child, next-sibling structure that the pointers build: `node` holds
-- the node's address, its value, its `first_child` chain and its `next_sibling` chain, and `null`
-- is the null pointer. `parent` and `previous_sibling` are the two back links that this shape
-- determines.
pub mod Contents
pub mod Destroy
pub mod Drain
pub mod Handles
pub mod Operations
pub mod Order
use yellowstone.Prelude.{ℕ, ◌+◌, ◌-◌, ◌≡◌, Bool, true, false, List, [], ◌∷◌, if◌then◌else◌}

-- The comparator of the heap, with the laws of a strict weak order: `before a b` says that `b` has
-- the higher priority.
pub record Compare {ℓ} (A : Type ℓ) : Type ℓ where
  pub before : A → A → Bool
  pub asym : (a b : A) → before a b ≡ true → before b a ≡ false
  pub neg_trans : (a b c : A) → before a b ≡ false → before b c ≡ false → before a c ≡ false

pub data Chain {ℓ} (A : Type ℓ) : Type ℓ where
  null : Chain A
  node : ℕ → A → Chain A → Chain A → Chain A

pub record Heap {ℓ} (A : Type ℓ) : Type ℓ where
  pub root : Chain A
  pub size : ℕ

pub data Error : Type 0 where
  out_of_range : Error
  invalid_argument : Error
  logic_error : Error
  dangling : Error

pub data Result {ℓ} (A : Type ℓ) : Type ℓ where
  ok : A → Result A
  err : Error → Result A

module _ {ℓ} {A : Type ℓ} where
  -- `link->next_sibling = next`.
  unfoldable pub set_next : Chain A → Chain A → Chain A
  set_next null next = null
  set_next (node i x c s) next = node i x c next

  unfoldable pub empty_heap : Heap A
  empty_heap = record { root = null; size = 0 }

  -- `empty`.
  unfoldable pub is_empty : Heap A → Bool
  is_empty h = elim h.root [ null ↦ true | node _ _ _ _ ↦ false ]

  unfoldable pub top : Heap A → Result A
  top h = elim h.root [ null ↦ err out_of_range | node _ x _ _ ↦ ok x ]

module _ {ℓ} {A : Type ℓ} ⦃o : Compare A⦄ where
  -- The root with the higher priority takes the other one as its first child. Both lose their
  -- siblings.
  unfoldable pub meld_nodes : Chain A → Chain A → Chain A
  meld_nodes null rhs = rhs
  meld_nodes (node i x c s) null = node i x c s
  meld_nodes (node i x c s) (node j y d t) =
      if o.before x y then node j y (node i x c d) null else node i x (node j y d c) null

  -- The first loop of `combine_children`: it pairs adjacent roots from left to right and stores the
  -- pairs in reverse order.
  unfoldable pub pair_roots : Chain A → Chain A → Chain A
  unfolding meld_nodes set_next
  pair_roots null paired = paired
  pair_roots (node i x c null) paired = node i x c paired
  pair_roots (node i x c (node j y d next)) paired =
      pair_roots next (set_next (meld_nodes (node i x c null) (node j y d null)) paired)

  -- The second loop: it melds the pairs into one root.
  unfoldable pub meld_roots : Chain A → Chain A → Chain A
  unfolding meld_nodes
  meld_roots null result = result
  meld_roots (node i x c next) result = meld_roots next (meld_nodes (node i x c null) result)

  unfoldable pub combine_children : Chain A → Chain A
  unfolding pair_roots meld_roots
  combine_children first_child = meld_roots (pair_roots first_child null) null

  -- `fresh` is the address that `new Node` returns; the handle is that address.
  unfoldable pub emplace : (fresh : ℕ) → A → Heap A → Heap A
  unfolding meld_nodes
  emplace fresh x h = record {
    root = meld_nodes h.root (node fresh x null null);
    size = h.size + 1;
  }

  unfoldable pub pop : Heap A → Result (Heap A)
  unfolding combine_children
  pop h = elim h.root [
    | null ↦ err out_of_range
    | node _ _ children _ ↦ ok (record { root = combine_children children; size = h.size - 1 })
  ]

  unfoldable pub extract_top : Heap A → Result (A × Heap A)
  unfolding pop
  extract_top h = elim h.root [
    | null ↦ err out_of_range
    | node _ x _ _ ↦ elim (pop h) [ ok h' ↦ ok (x, h') | err e ↦ err e ]
  ]

  -- `meld` of two distinct heaps: the new heap, and what is left of the other.
  unfoldable pub meld : Heap A → Heap A → Heap A × Heap A
  unfolding meld_nodes empty_heap
  meld h other = elim other.root [
    | null ↦ (h, other)
    | node i x c s ↦
        (record { root = meld_nodes h.root (node i x c s); size = h.size + other.size }, empty_heap)
  ]

  -- The constructor from a range: the values in order, each with the address of its node.
  unfoldable pub build : List (ℕ × A) → Heap A → Heap A
  unfolding emplace
  build [] h = h
  build ((fresh, x) ∷ values) h = build values (emplace fresh x h)
