-- ===== src/PairingHeap/Drain.antt =====
-- The loop `while (!heap.empty()) heap.extract_top()` of tests/unit/pairing_heap.cc: the heap sorts.
use mathlib.Core.List.{Nodup}
use mathlib.Core.List.Perm
use yellowstone.Prelude.{
  ℕ, zero, suc, ◌≤◌, ◌≡◌, refl, false, List, [], ◌∷◌, map, Perm, arith, All, All-perm, inl, inr,
  length, length-perm, eq_nil_of_length,
}
use yellowstone.PairingHeap.{Compare, Heap, ok, err, extract_top, build, empty_heap}
use yellowstone.PairingHeap.Order.{NoneAbove}
use yellowstone.PairingHeap.Operations.{
  items, handle_of, IsHeap, extract_top-Extracts, build-IsHeap,
}

module _ {ℓ} {A : Type ℓ} ⦃o : Compare A⦄ where
  -- The values in the order in which they come out, at most `fuel` of them, and the heap that is
  -- left.
  unfoldable pub drain : ℕ → Heap A → List A × Heap A
  drain zero h = ([], h)
  drain (suc fuel) h = elim (extract_top h) [
    | err _ ↦ ([], h)
    | ok (x, h') ↦ let (xs, rest) = drain fuel h' in (x ∷ xs, rest)
  ]

  -- No value has a higher priority than one that stands before it.
  abbrev pub IsDescending : List A → Type 0
  IsDescending [] = Unit
  IsDescending (x ∷ xs) = All (λ y. o.before x y ≡ false) xs × IsDescending xs

  abbrev pub value_of : ℕ × A → A
  value_of e = e.1

  abbrev pub values : Heap A → List A
  values h = map value_of (items h)

  NoneAbove-map :
      (x : A) (es : List (ℕ × A))
      → NoneAbove x es
      → All (λ y. o.before x y ≡ false) (map value_of es)
  NoneAbove-map x [] h = tt
  NoneAbove-map x (e ∷ es) h = (h.0, NoneAbove-map x es h.1)

  before-prop : (x y : A) → IsProp (o.before x y ≡ false)
  before-prop x y = hlevel

  abbrev pub Drains : Heap A → List A × Heap A → Type ℓ
  Drains h (xs, rest) = Perm xs (values h) × IsDescending xs × (items rest ≡ [])

  -- Draining a well-formed heap with as much fuel as it has nodes ends with the empty heap, and
  -- returns its values, each as often as the heap holds it, in descending priority.
  pub drain-Drains : (fuel : ℕ) (h : Heap A) → IsHeap h → h.size ≤ fuel → Drains h (drain fuel h)
  unfolding drain
  drain-Drains zero h v enough =
      let none_left = eq_nil_of_length (items h) (omega (arith, v.counted)) in
      rw none_left (Perm.refl _, tt, refl)
  drain-Drains (suc fuel) h v enough = elim (extract_top-Extracts h v) [
    | inl (none_left, e) ↦ rw (e, none_left, drain) (Perm.refl _, tt, refl)
    | inr (i, x, h', e, v', split, above) ↦
        let rest =
          drain-Drains fuel h' v' (omega (arith, v.counted, v'.counted, length-perm _ _ split)) in
        rw (e, drain)
          (
            Perm.trans (Perm.cons x rest.0) (Perm.symm (Perm.map value_of split)),
            (
              All-perm (before-prop x) _ _ (Perm.symm rest.0) (NoneAbove-map x (items h') above),
              rest.1,
            ),
            rest.2,
          )
  ]

  -- Sorting by the heap: a heap built from a list of values and drained returns the same values, in
  -- descending priority.
  pub drain-build :
      (entries : List (ℕ × A))
      → Nodup (map handle_of entries)
      → let xs = (drain (length entries) (build entries empty_heap)).0 in
        Perm xs (map value_of entries) × IsDescending xs
  drain-build entries new =
      let (v, same) = build-IsHeap entries new in
      let h = build entries empty_heap in
      let out =
        drain-Drains (length entries) h v (omega (arith, v.counted, length-perm _ _ same)) in
      (Perm.trans out.0 (Perm.map value_of same), out.1)
