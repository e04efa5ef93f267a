-- ===== src/PairingHeap/Handles/Removal.antt =====
-- `detach_from_parent` and the write to `node->value` at a live handle: what is taken out, what is
-- left, and the order of both.
use mathlib.Core.List.{perm_middle, perm_append_comm}
use mathlib.Core.List.Perm
use yellowstone.Prelude.{
  ℕ, ◌≡◌, ◌≢◌, true, false, Option, none, some, List, ◌∷◌, ◌++◌, Perm, arith, ◌==◌, subst, sym,
  append_assoc,
}
use yellowstone.PairingHeap.{Compare, Chain, null, node}
use yellowstone.PairingHeap.Contents.{to_list, IsRoot}
use yellowstone.PairingHeap.Order.{Dominates, IsOrdered, Dominates-trans}
use yellowstone.PairingHeap.Handles.{write_value, detach}
use yellowstone.PairingHeap.Handles.Position.{
  At, here, child, sibling, write_value-Absent, detach-Absent,
}

module _ {ℓ} {E : Type ℓ} where
  past_head :
      (e f : E) (cs ss sub rest : List E)
      → Perm cs (e ∷ (sub ++ rest))
      → Perm (f ∷ (cs ++ ss)) (e ∷ (sub ++ (f ∷ (rest ++ ss))))
  past_head e f cs ss sub rest p = Perm.trans (Perm.cons f (Perm.append_right ss p)) (
      Perm.trans (Perm.swap e f ((sub ++ rest) ++ ss))
        (Perm.cons e (rw append_assoc (Perm.symm (perm_middle sub (rest ++ ss))))))

  past_tail :
      (e f : E) (cs ss sub rest : List E)
      → Perm ss (e ∷ (sub ++ rest))
      → Perm (f ∷ (cs ++ ss)) (e ∷ (sub ++ (f ∷ (cs ++ rest))))
  past_tail e f cs ss sub rest p = Perm.trans (Perm.cons f (perm_append_comm cs ss)) (
      Perm.trans (past_head e f ss cs sub rest p)
        (Perm.cons e (Perm.append_left sub (Perm.cons f (perm_append_comm rest cs)))))

miss : {i j : ℕ} → j ≢ i → (j == i) ≡ false
miss ne = ground arith

hit : {i j : ℕ} → j ≡ i → (j == i) ≡ true
hit same = ground arith

module _ {ℓ} {A : Type ℓ} {i : ℕ} {x : A} {q : Option A} where
  -- What hangs below the node, and what is left of the chain without it.
  pub subtree_of : {par : Option A} {l : Chain A} → At i x q par l → Chain A
  subtree_of (here {c} _ _ _ _ _) = c
  subtree_of (child _ a _) = subtree_of a
  subtree_of (sibling _ _ a) = subtree_of a

  pub rest_of : {par : Option A} {l : Chain A} → At i x q par l → Chain A
  rest_of (here {s} _ _ _ _ _) = s
  rest_of (child {j} {y} {s} _ a _) = node j y (rest_of a) s
  rest_of (sibling {j} {y} {c} _ _ a) = node j y c (rest_of a)

  pub detach-At :
      {par : Option A} {l : Chain A} (a : At i x q par l) (v : A)
      → detach i (write_value i v l) ≡ some (node i v (subtree_of a) null, rest_of a)
  unfolding detach write_value subtree_of rest_of
  detach-At (here {c} {s} same _ _ hc hs) v =
      ground (arith, write_value-Absent i v c hc, write_value-Absent i v s hs)
  detach-At (child {s} ne a hs) v = ground (arith, detach-At a v, write_value-Absent i v s hs)
  detach-At (sibling {c} ne hc a) v =
      ground (arith, detach-At a v, write_value-Absent i v c hc, detach-Absent i c hc)

  -- The other items of the chain.
  abbrev pub others : {par : Option A} {l : Chain A} → At i x q par l → List (ℕ × A)
  others a = to_list (subtree_of a) ++ to_list (rest_of a)

  pub rest-perm :
      {par : Option A} {l : Chain A} (a : At i x q par l) → Perm (to_list l) ((i, x) ∷ others a)
  unfolding subtree_of rest_of
  rest-perm (here same val _ _ _) = rw (same, val) (Perm.refl _)
  rest-perm (child {j} {y} {c} {s} ne a hs) =
      past_head (i, x) (j, y) (to_list c) (to_list s) (to_list (subtree_of a)) (to_list (rest_of a))
        (rest-perm a)
  rest-perm (sibling {j} {y} {c} {s} ne hc a) =
      past_tail (i, x) (j, y) (to_list c) (to_list s) (to_list (subtree_of a)) (to_list (rest_of a))
        (rest-perm a)

  pub write-perm :
      {par : Option A} {l : Chain A} (a : At i x q par l) (v : A)
      → Perm (to_list (write_value i v l)) ((i, v) ∷ others a)
  unfolding write_value subtree_of rest_of
  write-perm (here {c} {s} same val _ hc hs) v =
      rw (hit same, write_value-Absent i v c hc, write_value-Absent i v s hs, same) (Perm.refl _)
  write-perm (child {j} {y} {c} {s} ne a hs) v =
      rw (miss ne, write_value-Absent i v s hs)
        (past_head (i, v) (j, y) _ (to_list s) (to_list (subtree_of a)) (to_list (rest_of a))
          (write-perm a v))
  write-perm (sibling {j} {y} {c} {s} ne hc a) v =
      rw (miss ne, write_value-Absent i v c hc)
        (past_tail (i, v) (j, y) (to_list c) _ (to_list (subtree_of a)) (to_list (rest_of a))
          (write-perm a v))

  At-null : {par : Option A} → At i x q par null → ⊥
  At-null a = elim a [ ]

  -- Nothing is left to detach for `increase_priority` at a root, whose parent is null.
  pub rest-IsRoot :
      {p : A} {par : Option A} {l : Chain A} (a : At i x q par l)
      → par ≡ none
      → q ≡ some p
      → IsRoot l
      → IsRoot (rest_of a)
  unfolding rest_of
  rest-IsRoot (here _ _ top _ _) e f r = cc
  rest-IsRoot (child _ a _) e f r = r
  rest-IsRoot (sibling {par} _ _ a) e f r = absurd (At-null (subst (At i x q par) r a))

module _ {ℓ} {A : Type ℓ} ⦃o : Compare A⦄ where
  -- A parent, where there is one, has no lower priority than the value or the chain below it.
  abbrev pub Above : Option A → A → Type 0
  Above none v = Unit
  Above (some p) v = o.before p v ≡ false

  abbrev pub AboveAll : Option A → Chain A → Type 0
  AboveAll none l = Unit
  AboveAll (some p) l = Dominates p l

  Above-split :
      (par : Option A) (j : ℕ) (y : A) (c s : Chain A)
      → AboveAll par (node j y c s)
      → Above par y × AboveAll par s
  Above-split none j y c s h = (tt, tt)
  Above-split (some p) j y c s h = h

  Above-join :
      (par : Option A) (j : ℕ) (y : A) (c s : Chain A)
      → Above par y
      → AboveAll par s
      → AboveAll par (node j y c s)
  Above-join none j y c s h t = tt
  Above-join (some p) j y c s h t = (h, t)

  module _ {i : ℕ} {x : A} {q : Option A} (v : A) (raised : o.before v x ≡ false) where
    pub write-IsOrdered :
        {par : Option A} {l : Chain A}
        → At i x q par l
        → Above q v
        → AboveAll par l
        → IsOrdered l
        → AboveAll par (write_value i v l) × IsOrdered (write_value i v l)
    unfolding write_value
    write-IsOrdered (here {par} {c} {s} same val top hc hs) fits above ord =
        rw (hit same, write_value-Absent i v c hc, write_value-Absent i v s hs)
          (
            Above-join par _ _ _ _ (subst (λ p. Above p v) (sym top) fits)
                (Above-split par _ _ _ _ above).1,
            (Dominates-trans v x c raised (subst (λ z. Dominates z c) val ord.0), ord.1, ord.2),
          )
    write-IsOrdered (child {par} {y} {s} ne a hs) fits above ord =
        let (down, below) = write-IsOrdered a fits ord.0 ord.1 in
        let (head, rest) = Above-split par _ _ _ _ above in
        rw (miss ne, write_value-Absent i v s hs)
          (Above-join par _ _ _ _ head rest, (down, below, ord.2))
    write-IsOrdered (sibling {par} {y} {c} ne hc a) fits above ord =
        let (head, rest) = Above-split par _ _ _ _ above in
        let (right, later) = write-IsOrdered a fits rest ord.2 in
        rw (miss ne, write_value-Absent i v c hc)
          (Above-join par _ _ _ _ head right, (ord.0, ord.1, later))

    -- The chain without the node is in order, and so is the node with its new value.
    pub rest-IsOrdered :
        {par : Option A} {l : Chain A} (a : At i x q par l)
        → AboveAll par l
        → IsOrdered l
        → AboveAll par (rest_of a)
          × IsOrdered (rest_of a)
          × IsOrdered (node i v (subtree_of a) null)
    unfolding rest_of subtree_of
    rest-IsOrdered (here {par} {c} {s} same val top hc hs) above ord = (
      (Above-split par _ _ _ _ above).1,
      ord.2,
      (Dominates-trans v x c raised (subst (λ z. Dominates z c) val ord.0), ord.1, tt),
    )
    rest-IsOrdered (child {par} {y} {s} ne a hs) above ord =
        let (down, below, sub) = rest-IsOrdered a ord.0 ord.1 in
        let (head, rest) = Above-split par _ _ _ _ above in
        (Above-join par _ _ _ _ head rest, (down, below, ord.2), sub)
    rest-IsOrdered (sibling {par} {y} {c} ne hc a) above ord =
        let (head, rest) = Above-split par _ _ _ _ above in
        let (right, later, sub) = rest-IsOrdered a rest ord.2 in
        (Above-join par _ _ _ _ head right, (ord.0, ord.1, later), sub)
