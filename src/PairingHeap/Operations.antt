-- ===== src/PairingHeap/Operations.antt =====
-- The public operations of the pairing heap keep it well formed, and hold the items that a
-- priority queue should hold.
use mathlib.Core.List.{
  mem-append_right, perm_middle, Mem, Nodup, Nodup-cons, Nodup-nil, perm_append_comm, map-append,
}
use mathlib.Core.List.Perm
use yellowstone.Prelude.{
  ℕ, ◌-◌, ◌≡◌, refl, ◌⊎◌, inl, inr, List, [], ◌∷◌, ◌++◌, map, Perm, arith, length, length-append,
  length-perm, append-nil,
}
use yellowstone.PairingHeap.{
  Compare, Chain, null, node, Heap, ok, err, out_of_range, empty_heap, meld_nodes, combine_children,
  emplace, extract_top, meld, build,
}
use yellowstone.PairingHeap.Contents.{
  to_list, IsRoot, meld_nodes-IsRoot, meld_nodes-perm, combine_children-IsRoot,
  combine_children-perm,
}
use yellowstone.PairingHeap.Order.{
  IsOrdered, NoneAbove, Dominates-NoneAbove, meld_nodes-IsOrdered, combine_children-IsOrdered,
  combine_children-Dominates,
}

module _ {ℓ} {A : Type ℓ} where
  abbrev pub items : Heap A → List (ℕ × A)
  items h = to_list h.root

  abbrev pub handle_of : ℕ × A → ℕ
  handle_of e = e.0

  abbrev pub handles : Heap A → List ℕ
  handles h = map handle_of (items h)

-- The root has no sibling, the heap order holds, `size` counts the nodes, and no two nodes share an
-- address.
pub record IsHeap {ℓ} {A : Type ℓ} ⦃o : Compare A⦄ (h : Heap A) : Type ℓ where
  pub single : IsRoot h.root
  pub ordered : IsOrdered h.root
  pub counted : h.size ≡ length (items h)
  pub distinct : Nodup (handles h)

module _ {ℓ} {A : Type ℓ} ⦃o : Compare A⦄ where
  pub empty_heap-IsHeap : IsHeap {A = A} empty_heap
  unfolding empty_heap
  empty_heap-IsHeap = record { single = tt; ordered = tt; counted = refl; distinct = Nodup-nil }

  emplace-perm :
      (fresh : ℕ) (x : A) (h : Heap A)
      → IsHeap h
      → Perm (items (emplace fresh x h)) ((fresh, x) ∷ items h)
  unfolding emplace
  emplace-perm fresh x h v =
      Perm.trans (meld_nodes-perm h.root (node fresh x null null) v.single refl)
        (perm_append_comm (items h) ((fresh, x) ∷ []))

  emplace-IsHeap :
      (fresh : ℕ) (x : A) (h : Heap A)
      → IsHeap h
      → ¬ Mem fresh (handles h)
      → IsHeap (emplace fresh x h)
  unfolding emplace
  emplace-IsHeap fresh x h v new = record {
    single = meld_nodes-IsRoot h.root (node fresh x null null) v.single refl;
    ordered = meld_nodes-IsOrdered h.root (node fresh x null null) v.ordered (tt, tt, tt);
    counted = omega (arith, length-perm _ _ (emplace-perm fresh x h v), v.counted);
    distinct =
        Perm.nodup (Perm.symm (Perm.map handle_of (emplace-perm fresh x h v)))
          (Nodup-cons.1 (new, v.distinct));
  }

  -- `emplace` with a new address keeps the heap well formed and adds exactly the new item.
  pub emplace_lem :
      (fresh : ℕ) (x : A) (h : Heap A)
      → IsHeap h
      → ¬ Mem fresh (handles h)
      → IsHeap (emplace fresh x h) × Perm (items (emplace fresh x h)) ((fresh, x) ∷ items h)
  emplace_lem fresh x h v new = (emplace-IsHeap fresh x h v new, emplace-perm fresh x h v)

  -- What `extract_top` does on the heap whose root chain is `r`.
  abbrev pub Extracts : Heap A → Type ℓ
  Extracts h =
      ((items h ≡ []) × (extract_top h ≡ err out_of_range))
      ⊎ ((i : ℕ) × (x : A) × (h' : Heap A) × (extract_top h ≡ ok (x, h'))
          × IsHeap h'
          × Perm (items h) ((i, x) ∷ items h')
          × NoneAbove x (items h'))

  extract_top-Extracts_at :
      (r : Chain A) (n : ℕ)
      → IsHeap (record { root = r; size = n })
      → Extracts (record { root = r; size = n })
  unfolding extract_top
  extract_top-Extracts_at null n v = inl (refl, refl)
  extract_top-Extracts_at (node i x c s) n v = inr (i, x, rest, refl, rest-IsHeap, split, above)
    where
      rest : Heap A
      rest = record { root = combine_children c; size = n - 1 }

      split : Perm (to_list (node i x c s)) ((i, x) ∷ items rest)
      split = rw (v.single, append-nil) (Perm.cons (i, x) (Perm.symm (combine_children-perm c)))

      above : NoneAbove x (items rest)
      above =
          Dominates-NoneAbove x (combine_children c) (combine_children-Dominates x c v.ordered.0)
            (combine_children-IsOrdered c v.ordered.1)

      rest-IsHeap : IsHeap rest
      rest-IsHeap = record {
        single = combine_children-IsRoot c;
        ordered = combine_children-IsOrdered c v.ordered.1;
        counted = omega (arith, length-perm _ _ split, v.counted);
        distinct = (Nodup-cons.0 (Perm.nodup (Perm.map handle_of split) v.distinct)).1;
      }

  -- `extract_top` refuses exactly the empty heap; otherwise it removes one item, no other item has
  -- a higher priority than that one, and the heap stays well formed.
  pub extract_top-Extracts : (h : Heap A) → IsHeap h → Extracts h
  extract_top-Extracts h v = extract_top-Extracts_at h.root h.size v

  -- What `meld` does on two heaps: the first holds the items of both, the other nothing.
  abbrev pub Melds : Heap A → Heap A → Type ℓ
  Melds h g =
      IsHeap (meld h g).0
      × Perm (items (meld h g).0) (items h ++ items g)
      × (items (meld h g).1 ≡ [])
      × ((meld h g).1.size ≡ 0)

  meld-Melds_at :
      (h : Heap A) (r : Chain A) (n : ℕ)
      → IsHeap h
      → IsHeap (record { root = r; size = n })
      → Nodup (handles h ++ map handle_of (to_list r))
      → Melds h (record { root = r; size = n })
  unfolding meld
  meld-Melds_at h null n v w apart = (v, rw append-nil (Perm.refl _), refl, w.counted)
  meld-Melds_at h (node i x c s) n v w apart = (
    record {
      single = meld_nodes-IsRoot h.root (node i x c s) v.single w.single;
      ordered = meld_nodes-IsOrdered h.root (node i x c s) v.ordered w.ordered;
      counted = omega (
        arith,
        length-perm _ _ joined,
        length-append (items h) (to_list (node i x c s)),
        v.counted,
        w.counted,
      );
      distinct = Perm.nodup (Perm.symm (Perm.map handle_of joined)) (rw map-append apart);
    },
    joined,
    refl,
    refl,
  )
    where
      joined : Perm (to_list (meld_nodes h.root (node i x c s))) (items h ++ to_list (node i x c s))
      joined = meld_nodes-perm h.root (node i x c s) v.single w.single

  -- `meld` of two well-formed heaps that share no node keeps the first well formed, moves every
  -- item of the other into it, and leaves the other empty with size 0.
  pub meld-Melds : (h g : Heap A) → IsHeap h → IsHeap g → Nodup (handles h ++ handles g) → Melds h g
  meld-Melds h g v w apart = meld-Melds_at h g.root g.size v w apart

  build-IsHeap_from :
      (values : List (ℕ × A)) (h : Heap A)
      → IsHeap h
      → Nodup (map handle_of values ++ handles h)
      → IsHeap (build values h) × Perm (items (build values h)) (values ++ items h)
  unfolding build
  build-IsHeap_from [] h v new = (v, Perm.refl _)
  build-IsHeap_from ((i, x) ∷ values) h v new =
      let fresh = Nodup-cons.0 new in
      let added = emplace_lem i x h v (λ m. fresh.0 (mem-append_right _ m)) in
      let later : Nodup (map handle_of values ++ handles (emplace i x h)) =
        Perm.nodup
          (Perm.symm (
            Perm.trans (Perm.append_left (map handle_of values) (Perm.map handle_of added.1))
              (perm_middle (map handle_of values) (handles h))))
          new in
      let whole = build-IsHeap_from values (emplace i x h) added.0 later in
      (
        whole.0,
        Perm.trans whole.1
            (Perm.trans (Perm.append_left values added.1) (perm_middle values (items h))),
      )

  -- The range constructor builds a well-formed heap of exactly the given values.
  pub build-IsHeap :
      (values : List (ℕ × A))
      → Nodup (map handle_of values)
      → IsHeap (build values empty_heap) × Perm (items (build values empty_heap)) values
  unfolding empty_heap
  build-IsHeap values new =
      let whole = build-IsHeap_from values empty_heap empty_heap-IsHeap (rw append-nil new) in
      (whole.0, rw append-nil at whole.1)
