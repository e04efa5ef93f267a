-- ===== src/PairingHeap/Handles/Raise.antt =====
-- `increase_priority` on a live handle: the heap stays well formed, and only that node's value
-- changes.
use mathlib.Core.List.{perm_append_comm}
use mathlib.Core.List.Perm
use yellowstone.Prelude.{
  ℕ, ◌≡◌, refl, false, Option, none, some, List, ◌∷◌, Perm, arith, inl, inr, Bool-cases, append-nil,
  length-perm,
}
use yellowstone.PairingHeap.{Compare, Chain, null, node, Heap, ok, meld_nodes}
use yellowstone.PairingHeap.Contents.{to_list, IsRoot, meld_nodes-IsRoot, meld_nodes-perm}
use yellowstone.PairingHeap.Order.{IsOrdered, meld_nodes-IsOrdered}
use yellowstone.PairingHeap.Operations.{items, handle_of, IsHeap}
use yellowstone.PairingHeap.Handles.{locate, write_value, relink, increase_priority}
use yellowstone.PairingHeap.Handles.Removal.{
  subtree_of, rest_of, detach-At, rest-perm, write-perm, rest-IsRoot, write-IsOrdered,
  rest-IsOrdered, others, Above, AboveAll,
}
use yellowstone.PairingHeap.Handles.Position.{At, At-of_locate}

module _ {ℓ} {A : Type ℓ} ⦃o : Compare A⦄ where
  -- What `increase_priority` does: the node at `i`, which held `x`, holds `v`, and no other item
  -- changes.
  abbrev pub Raises : ℕ → A → A → Heap A → Type ℓ
  Raises i x v h =
      (h' : Heap A) × (rest : List (ℕ × A)) × (increase_priority (some i) v h ≡ ok h')
      × IsHeap h'
      × Perm (items h) ((i, x) ∷ rest)
      × Perm (items h') ((i, v) ∷ rest)

  -- A chain that is well formed but for `size` and holds the same handles makes a heap.
  same_handles-IsHeap :
      (i : ℕ) (x v : A) (h : Heap A) (r : Chain A) (rest : List (ℕ × A))
      → IsHeap h
      → IsRoot r
      → IsOrdered r
      → Perm (items h) ((i, x) ∷ rest)
      → Perm (to_list r) ((i, v) ∷ rest)
      → IsHeap (record h { root = r })
  same_handles-IsHeap i x v h r rest w root ord p p' = record {
    single = root;
    ordered = ord;
    counted = omega (arith, w.counted, length-perm _ _ p, length-perm _ _ p');
    distinct =
        Perm.nodup (Perm.trans (Perm.map handle_of p) (Perm.symm (Perm.map handle_of p')))
          w.distinct;
  }

  write_value-IsRoot : (i : ℕ) (v : A) (l : Chain A) → IsRoot l → IsRoot (write_value i v l)
  unfolding write_value
  write_value-IsRoot i v null r = tt
  write_value-IsRoot i v (node j x c s) r = rw r

  module _ {i : ℕ} {x : A} (v : A) (raised : o.before v x ≡ false) (h : Heap A) (w : IsHeap h) where
    raise_in_place :
        {q : Option A} (a : At i x q none h.root)
        → Above q v
        → increase_priority (some i) v h ≡ ok (record h { root = write_value i v h.root })
        → Raises i x v h
    raise_in_place a fits e = (
      record h { root = write_value i v h.root },
      others a,
      e,
      same_handles-IsHeap i x v h _ (others a) w (write_value-IsRoot i v h.root w.single)
          (write-IsOrdered v raised a fits tt w.ordered).1 (rest-perm a) (write-perm a v),
      rest-perm a,
      write-perm a v,
    )

    raise_by_relink :
        {p : A} (a : At i x (some p) none h.root)
        → increase_priority (some i) v h
          ≡ ok (relink i (record h { root = write_value i v h.root }))
        → Raises i x v h
    unfolding relink
    raise_by_relink a e = (
      record h { root = meld_nodes (rest_of a) (node i v (subtree_of a) null) },
      others a,
      rw (e, relink, detach-At a v),
      same_handles-IsHeap i x v h _ (others a) w
          (meld_nodes-IsRoot (rest_of a) (node i v (subtree_of a) null) root refl)
          (meld_nodes-IsOrdered (rest_of a) (node i v (subtree_of a) null) ord.1 ord.2)
          (rest-perm a) melded,
      rest-perm a,
      melded,
    )
      where
        root : IsRoot (rest_of a)
        root = rest-IsRoot a refl refl w.single

        ord :
            AboveAll none (rest_of a)
            × IsOrdered (rest_of a)
            × IsOrdered (node i v (subtree_of a) null)
        ord = rest-IsOrdered v raised a tt w.ordered

        melded :
            Perm
              (to_list (meld_nodes (rest_of a) (node i v (subtree_of a) null)))
              ((i, v) ∷ others a)
        melded = Perm.trans (meld_nodes-perm (rest_of a) (node i v (subtree_of a) null) root refl) (
            Perm.trans
              (perm_append_comm (to_list (rest_of a)) (to_list (node i v (subtree_of a) null)))
              (rw append-nil (Perm.refl _)))

  raise-At :
      (i : ℕ) (x v : A) (q : Option A) (h : Heap A)
      → IsHeap h
      → locate i none h.root ≡ some (x, q)
      → o.before v x ≡ false
      → At i x q none h.root
      → Raises i x v h
  unfolding increase_priority
  raise-At i x v none h w found raised a =
      raise_in_place v raised h w a tt (rw (found, increase_priority, raised))
  raise-At i x v (some p) h w found raised a = elim (Bool-cases (o.before p v)) [
    | inl moved ↦ raise_by_relink v raised h w a (rw (found, increase_priority, raised, moved))
    | inr stays ↦ raise_in_place v raised h w a stays (rw (found, increase_priority, raised, stays))
  ]

  -- On a live handle whose node holds `x`, a value that does not come before `x` is accepted: the
  -- heap stays well formed, the node holds the new value, and no other item changes.
  pub increase_priority-Raises :
      (i : ℕ) (x v : A) (parent : Option A) (h : Heap A)
      → IsHeap h
      → locate i none h.root ≡ some (x, parent)
      → o.before v x ≡ false
      → Raises i x v h
  increase_priority-Raises i x v parent h w found raised =
      raise-At i x v parent h w found raised (At-of_locate i x parent none h.root w.distinct found)
