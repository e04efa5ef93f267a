-- ===== src/Tests/Heaps.antt =====
-- A heap of three values with the order of `std::less`, as in tests/unit/pairing_heap.cc.
use mathlib.Core.List.{Mem, Nodup, Nodup-cons, Nodup-nil, mem-cons, not-mem-nil}
use mathlib.Core.Logic.Or
use yellowstone.Prelude.{
  ℕ, ◌≤◌, ◌≡◌, ◌≢◌, refl, none, some, List, [], ◌∷◌, ◌++◌, map, Perm, arith, ltb, All,
}
use yellowstone.PairingHeap.{
  Compare, Chain, null, node, Heap, build, emplace, empty_heap, meld_nodes,
}
use yellowstone.PairingHeap.Operations.{
  handle_of, handles, IsHeap, emplace_lem, Extracts, extract_top-Extracts, build-IsHeap,
  empty_heap-IsHeap,
}
use yellowstone.PairingHeap.Drain.{drain, IsDescending, drain-build}
use yellowstone.PairingHeap.Handles.{locate}
use yellowstone.PairingHeap.Handles.Raise.{Raises, increase_priority-Raises}
use yellowstone.PairingHeap.Destroy.{Clears, clear-Clears}

instance abbrev less : Compare ℕ
less = record { before = ltb; asym = λ a b h. ground arith; neg_trans = λ a b c h g. ground arith }

never_prop : IsProp ⊥
never_prop = hlevel

pub All-apart : (a : ℕ) (xs : List ℕ) → All (λ b. a ≢ b) xs → ¬ Mem a xs
All-apart a [] h m = not-mem-nil m
All-apart a (x ∷ xs) h m = Or.elim never_prop (mem-cons.0 m) h.0 (All-apart a xs h.1)

abbrev entries : List (ℕ × ℕ)
entries = (10, 3) ∷ (11, 1) ∷ (12, 2) ∷ []

ten_new : ¬ Mem {A = ℕ} 10 (11 ∷ 12 ∷ [])
ten_new = All-apart 10 (11 ∷ 12 ∷ []) (omega arith, (omega arith, tt))

entries-Nodup : Nodup (map handle_of entries)
entries-Nodup = Nodup-cons.1 (
  ten_new,
  Nodup-cons.1
      (All-apart 11 (12 ∷ []) (omega arith, tt), Nodup-cons.1 ((λ m. not-mem-nil m), Nodup-nil)),
)

abbrev three : Heap ℕ
three = build entries empty_heap

three-IsHeap : IsHeap three
three-IsHeap = (build-IsHeap entries entries-Nodup).0

abbrev three_root : Chain ℕ
three_root = node 10 3 (node 12 2 null (node 11 1 null null)) null

three-handles : handles three ≡ 10 ∷ 12 ∷ 11 ∷ []
unfolding build emplace meld_nodes empty_heap
three-handles = refl

four_new : ¬ Mem 14 (handles three)
four_new =
    rw three-handles
      (All-apart 14 (10 ∷ 12 ∷ 11 ∷ []) (omega arith, (omega arith, (omega arith, tt))))

extract_top-Extracts_example : Extracts three
extract_top-Extracts_example = extract_top-Extracts three three-IsHeap

drain-build_example : Perm (drain 3 three).0 (3 ∷ 1 ∷ 2 ∷ []) × IsDescending (drain 3 three).0
drain-build_example = drain-build entries entries-Nodup

three_size : three.size ≤ 3
unfolding build emplace empty_heap
three_size = omega arith

abbrev other : Heap ℕ
other = emplace 14 9 empty_heap

other-IsHeap : IsHeap other
other-IsHeap = (emplace_lem 14 9 empty_heap empty_heap-IsHeap nothing).0
  where
    nothing : ¬ Mem 14 (handles {A = ℕ} empty_heap)
    nothing = unfold empty_heap in not-mem-nil

apart : Nodup (handles three ++ handles other)
unfolding build emplace meld_nodes empty_heap
apart = Nodup-cons.1 (
  All-apart 10 (12 ∷ 11 ∷ 14 ∷ []) (omega arith, (omega arith, (omega arith, tt))),
  Nodup-cons.1 (
    All-apart 12 (11 ∷ 14 ∷ []) (omega arith, (omega arith, tt)),
    Nodup-cons.1
        (All-apart 11 (14 ∷ []) (omega arith, tt), Nodup-cons.1 ((λ m. not-mem-nil m), Nodup-nil)),
  ),
)

found : locate 11 none three.root ≡ some (1, some 3)
unfolding build emplace meld_nodes empty_heap locate
found = refl

increase_priority-Raises_example : Raises 11 1 5 three
increase_priority-Raises_example =
    increase_priority-Raises 11 1 5 (some 3) three three-IsHeap found refl

clear-Clears_example : Clears three
clear-Clears_example = clear-Clears three three-IsHeap
