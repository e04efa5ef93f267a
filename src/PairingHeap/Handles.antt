-- ===== src/PairingHeap/Handles.antt =====
-- `Handle`, `increase_priority` and `detach_from_parent`. A handle is the address of a node, or
-- `none` where `m_node` is null. C++ does not define what a handle of no live node does: here it is
-- the error `dangling`.
mod Position
mod Removal
pub mod Raise
use yellowstone.Prelude.{
  ℕ, ◌≡◌, Bool, true, false, Option, none, some, List, [], ◌∷◌, ◌==◌, if◌then◌else◌, not,
}
use yellowstone.PairingHeap.{
  Compare, Chain, null, node, Heap, Result, ok, err, invalid_argument, logic_error, dangling,
  meld_nodes,
}

module _ {ℓ} {A : Type ℓ} where
  -- The node at an address: its value, and the value of its parent, if it has one.
  unfoldable pub locate : ℕ → Option A → Chain A → Option (A × Option A)
  locate i parent null = none
  locate i parent (node j x c s) =
      if j == i
      then some (x, parent)
      else elim (locate i (some x) c) [ some found ↦ some found | none ↦ locate i parent s ]

  -- `node->value = value`.
  unfoldable pub write_value : ℕ → A → Chain A → Chain A
  write_value i v null = null
  write_value i v (node j x c s) =
      node j (if j == i then v else x) (write_value i v c) (write_value i v s)

  -- `detach_from_parent`: the node with its subtree and no sibling, and the chain that is left.
  unfoldable pub detach : ℕ → Chain A → Option (Chain A × Chain A)
  detach i null = none
  detach i (node j x c s) = if j == i then some (node j x c null, s) else elim (detach i c) [
    | some (n, c') ↦ some (n, node j x c' s)
    | none ↦ elim (detach i s) [ some (n, s') ↦ some (n, node j x c s') | none ↦ none ]
  ]

  -- `Handle::value`.
  unfoldable pub handle_value : Option ℕ → Heap A → Result A
  unfolding locate
  handle_value none h = err logic_error
  handle_value (some i) h = elim (locate i none h.root) [
    | none ↦ err dangling
    | some (x, parent) ↦ ok x
  ]

module _ {ℓ} {A : Type ℓ} ⦃o : Compare A⦄ where
  -- The end of `increase_priority`: the node leaves its parent and is melded with the root.
  unfoldable pub relink : ℕ → Heap A → Heap A
  unfolding detach meld_nodes
  relink i h = elim (detach i h.root) [
    | none ↦ h
    | some (n, rest) ↦ record h { root = meld_nodes rest n }
  ]

  unfoldable pub increase_priority : Option ℕ → A → Heap A → Result (Heap A)
  unfolding locate write_value relink
  increase_priority none v h = err invalid_argument
  increase_priority (some i) v h = elim (locate i none h.root) [
    | none ↦ err dangling
    | some (x, parent) ↦
        if o.before v x
        then err invalid_argument
        else let written = record h { root = write_value i v h.root } in
          elim parent [
            | none ↦ ok written
            | some p ↦ if o.before p v then ok (relink i written) else ok written
          ]
  ]
