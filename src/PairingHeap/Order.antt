-- ===== src/PairingHeap/Order.antt =====
-- The heap order: no node has a higher priority than its parent.
use yellowstone.Prelude.{ℕ, ◌≡◌, false, List, arith, All, All-append}
use yellowstone.PairingHeap.{
  Compare, Chain, null, node, set_next, meld_nodes, pair_roots, meld_roots, combine_children,
}
use yellowstone.PairingHeap.Contents.{to_list}

module _ {ℓ} {A : Type ℓ} ⦃o : Compare A⦄ where
  -- No root of the sibling chain has a higher priority than `x`.
  abbrev pub Dominates : A → Chain A → Type 0
  Dominates x null = Unit
  Dominates x (node j y d t) = (o.before x y ≡ false) × Dominates x t

  abbrev pub IsOrdered : Chain A → Type 0
  IsOrdered null = Unit
  IsOrdered (node i x c s) = Dominates x c × IsOrdered c × IsOrdered s

  abbrev pub NoneAbove : A → List (ℕ × A) → Type 0
  NoneAbove x = All λ e. o.before x e.1 ≡ false

  pub Dominates-trans :
      (x y : A) (l : Chain A) → o.before x y ≡ false → Dominates y l → Dominates x l
  Dominates-trans x y null h d = tt
  Dominates-trans x y (node j z c t) h d = (o.neg_trans x y z h d.0, Dominates-trans x y t h d.1)

  pub Dominates-NoneAbove :
      (x : A) (l : Chain A) → Dominates x l → IsOrdered l → NoneAbove x (to_list l)
  Dominates-NoneAbove x null d h = tt
  Dominates-NoneAbove x (node j y c t) d h = (
    d.0,
    All-append _ (to_list c) (to_list t)
        (Dominates-NoneAbove x c (Dominates-trans x y c d.0 h.0) h.1)
        (Dominates-NoneAbove x t d.1 h.2),
  )

  pub meld_nodes-IsOrdered :
      (a b : Chain A) → IsOrdered a → IsOrdered b → IsOrdered (meld_nodes a b)
  unfolding meld_nodes
  meld_nodes-IsOrdered null b ha hb = hb
  meld_nodes-IsOrdered (node i x c s) null ha hb = ha
  meld_nodes-IsOrdered (node i x c s) (node j y d t) ha hb = ground (arith, o.asym x y)

  pub meld_nodes-Dominates :
      (x : A) (a b : Chain A) → Dominates x a → Dominates x b → Dominates x (meld_nodes a b)
  unfolding meld_nodes
  meld_nodes-Dominates z null b ha hb = hb
  meld_nodes-Dominates z (node i x c s) null ha hb = ha
  meld_nodes-Dominates z (node i x c s) (node j y d t) ha hb = ground arith

  set_next-IsOrdered : (a acc : Chain A) → IsOrdered a → IsOrdered acc → IsOrdered (set_next a acc)
  unfolding set_next
  set_next-IsOrdered null acc ha hb = tt
  set_next-IsOrdered (node i x c s) acc ha hb = (ha.0, ha.1, hb)

  set_next-Dominates :
      (x : A) (a acc : Chain A) → Dominates x a → Dominates x acc → Dominates x (set_next a acc)
  unfolding set_next
  set_next-Dominates z null acc ha hb = tt
  set_next-Dominates z (node i x c s) acc ha hb = (ha.0, hb)

  pair_roots-IsOrdered :
      (l acc : Chain A) → IsOrdered l → IsOrdered acc → IsOrdered (pair_roots l acc)
  unfolding pair_roots
  pair_roots-IsOrdered null acc h ha = ha
  pair_roots-IsOrdered (node i x c null) acc h ha = (h.0, h.1, ha)
  pair_roots-IsOrdered (node i x c (node j y d next)) acc (p, q, (r, s, t)) ha =
      pair_roots-IsOrdered next _ t (
        set_next-IsOrdered _ acc
          (meld_nodes-IsOrdered (node i x c null) (node j y d null) (p, q, tt) (r, s, tt)) ha)

  pair_roots-Dominates :
      (x : A) (l acc : Chain A) → Dominates x l → Dominates x acc → Dominates x (pair_roots l acc)
  unfolding pair_roots
  pair_roots-Dominates z null acc h ha = ha
  pair_roots-Dominates z (node i x c null) acc h ha = (h.0, ha)
  pair_roots-Dominates z (node i x c (node j y d next)) acc (p, (q, r)) ha =
      pair_roots-Dominates z next _ r (
        set_next-Dominates z _ acc
          (meld_nodes-Dominates z (node i x c null) (node j y d null) (p, tt) (q, tt)) ha)

  meld_roots-IsOrdered :
      (l result : Chain A) → IsOrdered l → IsOrdered result → IsOrdered (meld_roots l result)
  unfolding meld_roots
  meld_roots-IsOrdered null result h hr = hr
  meld_roots-IsOrdered (node i x c next) result (p, q, r) hr =
      meld_roots-IsOrdered next _ r (meld_nodes-IsOrdered (node i x c null) result (p, q, tt) hr)

  meld_roots-Dominates :
      (x : A) (l result : Chain A)
      → Dominates x l
      → Dominates x result
      → Dominates x (meld_roots l result)
  unfolding meld_roots
  meld_roots-Dominates z null result h hr = hr
  meld_roots-Dominates z (node i x c next) result (p, q) hr =
      meld_roots-Dominates z next _ q (meld_nodes-Dominates z (node i x c null) result (p, tt) hr)

  pub combine_children-IsOrdered : (l : Chain A) → IsOrdered l → IsOrdered (combine_children l)
  unfolding combine_children
  combine_children-IsOrdered l h =
      meld_roots-IsOrdered (pair_roots l null) null (pair_roots-IsOrdered l null h tt) tt

  pub combine_children-Dominates :
      (x : A) (l : Chain A) → Dominates x l → Dominates x (combine_children l)
  unfolding combine_children
  combine_children-Dominates x l h =
      meld_roots-Dominates x (pair_roots l null) null (pair_roots-Dominates x l null h tt) tt
