-- ===== src/PairingHeap/Handles/Position.antt =====
-- The place of a live node in a chain, as a derivation that the handle operations are proved along.
use mathlib.Core.List.{
  Mem, Nodup, Nodup-cons, Nodup-append, Disjoint, mem-append_left, mem-append_right, mem-cons_self,
  mem-cons_of_mem, map-append,
}
use yellowstone.Prelude.{
  ℕ, ◌≡◌, refl, ◌≢◌, Option, none, some, List, ◌++◌, map, arith, ◌==◌, inl, inr, Bool-cases,
  Option-cases, ==_iff, subst, sym,
}
use yellowstone.PairingHeap.{Chain, null, node}
use yellowstone.PairingHeap.Contents.{to_list}
use yellowstone.PairingHeap.Operations.{handle_of}
use yellowstone.PairingHeap.Handles.{locate, write_value, detach}

module _ {ℓ} {A : Type ℓ} where
  abbrev pub Absent : ℕ → Chain A → Type 0
  Absent i null = Unit
  Absent i (node j x c s) = (j ≢ i) × Absent i c × Absent i s

-- The only node at address `i` holds `x`, and its parent holds `q`; `par` is the value of the
-- parent of the chain.
pub data At {ℓ} {A : Type ℓ} (i : ℕ) (x : A) (q : Option A) : Option A → Chain A → Type ℓ where
  here :
      {par : Option A} {j : ℕ} {y : A} {c s : Chain A}
      → j ≡ i
      → y ≡ x
      → par ≡ q
      → Absent i c
      → Absent i s
      → At i x q par (node j y c s)
  child :
      {par : Option A} {j : ℕ} {y : A} {c s : Chain A}
      → j ≢ i
      → At i x q (some y) c
      → Absent i s
      → At i x q par (node j y c s)
  sibling :
      {par : Option A} {j : ℕ} {y : A} {c s : Chain A}
      → j ≢ i
      → Absent i c
      → At i x q par s
      → At i x q par (node j y c s)

module _ {ℓ} {A : Type ℓ} where
  pub locate-Absent : (i : ℕ) (par : Option A) (l : Chain A) → Absent i l → locate i par l ≡ none
  unfolding locate
  locate-Absent i par null h = refl
  locate-Absent i par (node j x c s) (ne, hc, hs) =
      ground (arith, locate-Absent i (some x) c hc, locate-Absent i par s hs)

  pub write_value-Absent : (i : ℕ) (v : A) (l : Chain A) → Absent i l → write_value i v l ≡ l
  unfolding write_value
  write_value-Absent i v null h = refl
  write_value-Absent i v (node j x c s) (ne, hc, hs) =
      ground (arith, write_value-Absent i v c hc, write_value-Absent i v s hs)

  pub detach-Absent : (i : ℕ) (l : Chain A) → Absent i l → detach i l ≡ none
  unfolding detach
  detach-Absent i null h = refl
  detach-Absent i (node j x c s) (ne, hc, hs) =
      ground (arith, detach-Absent i c hc, detach-Absent i s hs)

  handles_left :
      (xs ys : List (ℕ × A)) {i : ℕ} → Mem i (map handle_of xs) → Mem i (map handle_of (xs ++ ys))
  handles_left xs ys m = subst (Mem _) (sym (map-append handle_of xs ys)) (mem-append_left _ m)

  handles_right :
      (xs ys : List (ℕ × A)) {i : ℕ} → Mem i (map handle_of ys) → Mem i (map handle_of (xs ++ ys))
  handles_right xs ys m = subst (Mem _) (sym (map-append handle_of xs ys)) (mem-append_right _ m)

  Absent-of_not-mem : (i : ℕ) (l : Chain A) → ¬ Mem i (map handle_of (to_list l)) → Absent i l
  Absent-of_not-mem i null h = tt
  Absent-of_not-mem i (node j x c s) h = (
    λ e. h (rw e mem-cons_self),
    Absent-of_not-mem i c (λ m. h (mem-cons_of_mem j (handles_left (to_list c) (to_list s) m))),
    Absent-of_not-mem i s (λ m. h (mem-cons_of_mem j (handles_right (to_list c) (to_list s) m))),
  )

  At-mem :
      {i : ℕ} {x : A} {q par : Option A} {l : Chain A}
      → At i x q par l
      → Mem i (map handle_of (to_list l))
  At-mem (here e _ _ _ _) = rw (sym e) mem-cons_self
  At-mem (child {j} {c} {s} _ a _) =
      mem-cons_of_mem j (handles_left (to_list c) (to_list s) (At-mem a))
  At-mem (sibling {j} {c} {s} _ _ a) =
      mem-cons_of_mem j (handles_right (to_list c) (to_list s) (At-mem a))

  -- `locate` finds nothing but such a place.
  pub At-of_locate :
      (i : ℕ) (x : A) (q par : Option A) (l : Chain A)
      → Nodup (map handle_of (to_list l))
      → locate i par l ≡ some (x, q)
      → At i x q par l
  unfolding locate
  At-of_locate i x q par null new e = cc
  At-of_locate i x q par (node j y c s) new e =
      let apart = Nodup-cons.0 new in
      let split : Nodup (map handle_of (to_list c))
          × Nodup (map handle_of (to_list s))
          × Disjoint (map handle_of (to_list c)) (map handle_of (to_list s)) =
        Nodup-append.0 (subst Nodup (map-append handle_of (to_list c) (to_list s)) apart.1) in
      elim (Bool-cases (j == i)) [
        | inl hit ↦
            let same = (==_iff j i).0 hit in
            here same (ground arith) (ground arith)
              (Absent-of_not-mem i c
                (λ m. apart.0 (rw same (handles_left (to_list c) (to_list s) m))))
              (Absent-of_not-mem i s
                (λ m. apart.0 (rw same (handles_right (to_list c) (to_list s) m))))
        | inr miss ↦ elim (Option-cases (locate i (some y) c)) [
          | inl none_here ↦
              let a = At-of_locate i x q par s split.1 (ground arith) in
              sibling (ground arith) (Absent-of_not-mem i c (λ m. split.2 i m (At-mem a))) a
          | inr ((x', q'), found) ↦
              let a = At-of_locate i x q (some y) c split.0 (ground arith) in
              child (ground arith) a (Absent-of_not-mem i s (λ m. split.2 i (At-mem a) m))
        ]
      ]
