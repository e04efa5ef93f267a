-- ===== src/PairingHeap/Destroy.antt =====
-- `destroy_tree`, `clear`, the moves and `swap` of pairing_heap.inl. `delete` is recorded: the loop
-- returns the addresses that it deletes, in order, or `none` where its fuel runs out.
use mathlib.Core.List.{perm_middle}
use mathlib.Core.List.Perm
use yellowstone.Prelude.{
  ℕ, zero, suc, ◌+◌, ◌*◌, ◌≤◌, ◌≡◌, refl, Option, none, some, List, [], ◌∷◌, ◌++◌, map, Perm,
  append_assoc, arith, length, length-append,
}
use mathlib.Core.Option
use yellowstone.PairingHeap.{Compare, Chain, null, node, Heap, empty_heap}
use yellowstone.PairingHeap.Contents.{to_list}
use yellowstone.PairingHeap.Operations.{items, handle_of, handles, IsHeap, empty_heap-IsHeap}

module _ {ℓ} {A : Type ℓ} where
  -- A first child is rotated into the chain that is walked; a node without children is deleted.
  unfoldable pub destroy_tree : ℕ → Chain A → Option (List ℕ)
  destroy_tree fuel null = some []
  destroy_tree zero (node i x c s) = none
  destroy_tree (suc fuel) (node i x null s) = Option.map (◌∷◌ i) (destroy_tree fuel s)
  destroy_tree (suc fuel) (node i x (node j y d t) s) =
      destroy_tree fuel (node j y d (node i x t s))

  -- `clear`: the deleted addresses and the heap that is left. Each node takes at most two rounds.
  unfoldable pub clear : Heap A → Option (List ℕ × Heap A)
  unfolding destroy_tree empty_heap
  clear h = Option.map (λ ds. (ds, empty_heap)) (destroy_tree (2 * h.size) h.root)

  -- `this = std::move(other)` for two distinct heaps: the deleted addresses, this heap and what is
  -- left of the other.
  unfoldable pub move_assign : Heap A → Heap A → Option (List ℕ × Heap A × Heap A)
  unfolding clear empty_heap
  move_assign h other = Option.map (λ (ds, _). (ds, other, empty_heap)) (clear h)

  -- Rounds that the loop takes: one for each node on the walked chain, two for any other.
  rounds : Chain A → ℕ
  rounds null = 0
  rounds (node i x c s) = 1 + 2 * length (to_list c) + rounds s

  rounds-le : (l : Chain A) → rounds l ≤ 2 * length (to_list l)
  unfolding rounds
  rounds-le null = omega arith
  rounds-le (node i x c s) = omega (arith, rounds-le s, length-append (to_list c) (to_list s))

  abbrev Destroys : Option (List ℕ) → Chain A → Type 0
  Destroys r l = (ds : List ℕ) × (r ≡ some ds) × Perm ds (map handle_of (to_list l))

  rotate-perm :
      (i j : ℕ) (x y : A) (d t s : Chain A)
      → Perm (to_list (node j y d (node i x t s))) (to_list (node i x (node j y d t) s))
  rotate-perm i j x y d t s =
      Perm.trans (perm_middle ((j, y) ∷ to_list d) (to_list t ++ to_list s))
        (Perm.cons (i, x) (rw append_assoc (Perm.refl _)))

  destroy_tree-Destroys :
      (fuel : ℕ) (l : Chain A) → rounds l ≤ fuel → Destroys (destroy_tree fuel l) l
  unfolding destroy_tree rounds
  destroy_tree-Destroys zero null h = ([], refl, Perm.refl _)
  destroy_tree-Destroys (suc fuel) null h = ([], refl, Perm.refl _)
  destroy_tree-Destroys zero (node i x c s) h = absurd (omega arith)
  destroy_tree-Destroys (suc fuel) (node i x null s) h =
      let (ds, e, p) = destroy_tree-Destroys fuel s (omega arith) in (i ∷ ds, rw e, Perm.cons i p)
  destroy_tree-Destroys (suc fuel) (node i x (node j y d t) s) h =
      let (ds, e, p) =
        destroy_tree-Destroys fuel (node j y d (node i x t s))
          (omega (arith, length-append (to_list d) (to_list t))) in
      (ds, e, Perm.trans p (Perm.map handle_of (rotate-perm i j x y d t s)))

module _ {ℓ} {A : Type ℓ} ⦃o : Compare A⦄ where
  abbrev pub Clears : Heap A → Type ℓ
  Clears h =
      (ds : List ℕ) × (h' : Heap A) × (clear h ≡ some (ds, h'))
      × Perm ds (handles h)
      × (items h' ≡ [])
      × IsHeap h'

  -- `clear` of a well-formed heap ends within two rounds for each node; it deletes every node, each
  -- exactly once, and leaves the empty heap.
  pub clear-Clears : (h : Heap A) → IsHeap h → Clears h
  unfolding clear empty_heap
  clear-Clears h v =
      let (ds, e, p) =
        destroy_tree-Destroys (2 * h.size) h.root (omega (arith, rounds-le h.root, v.counted)) in
      (ds, empty_heap, rw e, p, refl, empty_heap-IsHeap)

  -- Move assignment deletes exactly the nodes that the target held, takes over the other heap and
  -- leaves that one empty.
  pub move_assign_lem :
      (h other : Heap A)
      → IsHeap h
      → (ds : List ℕ) × (left : Heap A) × (move_assign h other ≡ some (ds, other, left))
        × Perm ds (handles h)
        × (items left ≡ [])
  unfolding move_assign empty_heap
  move_assign_lem h other v =
      let (ds, h', e, p, _, _) = clear-Clears h v in (ds, empty_heap, rw e, p, refl)
