-- ===== src/PairingHeap/Contents.antt =====
-- What a chain of the pairing heap holds: its nodes in the order of a traversal that goes to
-- `first_child` before `next_sibling`, and how the operations permute them.
use mathlib.Core.List.{perm_middle, perm_append_comm}
use mathlib.Core.List.Perm
use yellowstone.Prelude.{
  ℕ, ◌≡◌, refl, subst, List, [], ◌∷◌, ◌++◌, Perm, append-nil, append_assoc, arith, inl, inr,
  Bool-cases,
}
use yellowstone.PairingHeap.{
  Compare, Chain, null, node, set_next, meld_nodes, pair_roots, meld_roots, combine_children,
}

module _ {ℓ} {A : Type ℓ} where
  abbrev pub to_list : Chain A → List (ℕ × A)
  to_list null = []
  to_list (node i x c s) = (i, x) ∷ to_list c ++ to_list s

  -- A root has no sibling.
  abbrev pub IsRoot : Chain A → Type ℓ
  IsRoot null = Unit
  IsRoot (node i x c s) = s ≡ null

module _ {ℓ} {A : Type ℓ} where
  swap_children :
      (e f : A) (cs ds rest : List A)
      → Perm (f ∷ ((e ∷ cs ++ ds) ++ rest)) ((e ∷ cs) ++ (f ∷ ds ++ rest))
  swap_children e f cs ds rest = rw append_assoc (Perm.symm (perm_middle (e ∷ cs) (ds ++ rest)))

  put_first :
      (e f : A) (cs ds rest : List A)
      → Perm (e ∷ ((f ∷ ds ++ cs) ++ rest)) ((e ∷ cs) ++ (f ∷ ds ++ rest))
  put_first e f cs ds rest = Perm.cons e (
      subst (Perm _) (append_assoc cs (f ∷ ds) rest)
        (Perm.append_right rest (perm_append_comm (f ∷ ds) cs)))

  rotate_front :
      (ns is js acc : List A) → Perm (ns ++ (is ++ (js ++ acc))) ((is ++ (js ++ ns)) ++ acc)
  rotate_front ns is js acc =
      simp append_assoc
        (simp append_assoc at (Perm.append_right acc (perm_append_comm ns (is ++ js))))

module _ {ℓ} {A : Type ℓ} ⦃o : Compare A⦄ where
  -- Two nodes melded, with a sibling chain put behind the new root.
  pub pair-perm :
      (i j : ℕ) (x y : A) (c d acc : Chain A)
      → Perm
          (to_list (set_next (meld_nodes (node i x c null) (node j y d null)) acc))
          (((i, x) ∷ to_list c) ++ ((j, y) ∷ to_list d ++ to_list acc))
  unfolding meld_nodes set_next
  pair-perm i j x y c d acc = elim (Bool-cases (o.before x y)) [
    | inl e ↦ rw e (swap_children (i, x) (j, y) (to_list c) (to_list d) (to_list acc))
    | inr e ↦ rw e (put_first (i, x) (j, y) (to_list c) (to_list d) (to_list acc))
  ]

  pub meld_nodes-IsRoot : (a b : Chain A) → IsRoot a → IsRoot b → IsRoot (meld_nodes a b)
  unfolding meld_nodes
  meld_nodes-IsRoot null b ha hb = hb
  meld_nodes-IsRoot (node i x c s) null ha hb = ha
  meld_nodes-IsRoot (node i x c s) (node j y d t) ha hb = ground arith

  set_next_null : (a : Chain A) → IsRoot a → set_next a null ≡ a
  unfolding set_next
  set_next_null null h = refl
  set_next_null (node i x c s) h = rw h

  -- `meld_nodes` keeps every node of two roots.
  pub meld_nodes-perm :
      (a b : Chain A)
      → IsRoot a
      → IsRoot b
      → Perm (to_list (meld_nodes a b)) (to_list a ++ to_list b)
  meld_nodes-perm null b ha hb = unfold meld_nodes in Perm.refl _
  meld_nodes-perm (node i x c s) null ha hb = unfold meld_nodes in rw append-nil (Perm.refl _)
  meld_nodes-perm (node i x c s) (node j y d t) ha hb =
      rw (ha, hb)
        (subst (λ z. Perm (to_list z) (to_list (node i x c null) ++ to_list (node j y d null)))
          (set_next_null _ (meld_nodes-IsRoot (node i x c null) (node j y d null) refl refl))
          (simp append-nil (simp append-nil at (pair-perm i j x y c d null))))

  pub pair_roots-perm :
      (l acc : Chain A) → Perm (to_list (pair_roots l acc)) (to_list l ++ to_list acc)
  unfolding pair_roots
  pair_roots-perm null acc = Perm.refl _
  pair_roots-perm (node i x c null) acc = rw append-nil (Perm.refl _)
  pair_roots-perm (node i x c (node j y d next)) acc = Perm.trans (pair_roots-perm next _) (
      Perm.trans (Perm.append_left (to_list next) (pair-perm i j x y c d acc))
        (rotate_front (to_list next) ((i, x) ∷ to_list c) ((j, y) ∷ to_list d) (to_list acc)))

  pub meld_roots-perm :
      (l result : Chain A)
      → IsRoot result
      → Perm (to_list (meld_roots l result)) (to_list l ++ to_list result)
  unfolding meld_roots
  meld_roots-perm null result h = Perm.refl _
  meld_roots-perm (node i x c next) result h =
      Perm.trans (meld_roots-perm next _ (meld_nodes-IsRoot (node i x c null) result refl h)) (
        Perm.trans
          (Perm.append_left (to_list next)
            (simp append-nil at (meld_nodes-perm (node i x c null) result refl h)))
          (rotate_front (to_list next) ((i, x) ∷ to_list c) [] (to_list result)))

  pub meld_roots-IsRoot : (l result : Chain A) → IsRoot result → IsRoot (meld_roots l result)
  unfolding meld_roots
  meld_roots-IsRoot null result h = h
  meld_roots-IsRoot (node i x c next) result h =
      meld_roots-IsRoot next _ (meld_nodes-IsRoot (node i x c null) result refl h)

  pub combine_children-IsRoot : (l : Chain A) → IsRoot (combine_children l)
  unfolding combine_children
  combine_children-IsRoot l = meld_roots-IsRoot (pair_roots l null) null tt

  -- The two passes lose no child and make none up.
  pub combine_children-perm : (l : Chain A) → Perm (to_list (combine_children l)) (to_list l)
  unfolding combine_children
  combine_children-perm l =
      Perm.trans (simp append-nil at (meld_roots-perm (pair_roots l null) null tt))
        (simp append-nil at (pair_roots-perm l null))
