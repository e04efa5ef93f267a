-- ===== src/Scheduler/Overtaking.antt =====
-- The predicate of the timed wait, against the items that are pending.
use mathlib.Core.List.{Mem, mem-cons, mem-cons_self, not-mem-nil}
use mathlib.Core.List.Perm
use mathlib.Core.Logic.Or
use yellowstone.Prelude.{
  ℕ, ◌≡◌, ◌∙◌, refl, sym, ap, subst, inl, inr, true, false, ◌||◌, ◌&&◌, List, ◌∷◌, arith, ltb,
  All→Mem, Bool-cases,
}
use yellowstone.PairingHeap.{Heap, Chain, null, node, extract_top, top, is_empty}
use yellowstone.PairingHeap
use yellowstone.PairingHeap.Order.{NoneAbove}
use yellowstone.PairingHeap.Operations.{items, IsHeap, extract_top-Extracts}
use yellowstone.Prelude.Int.{ℤ, pos, negsuc, int_eq, int_lt}
use yellowstone.Scheduler.Time.{later, later-asym, later-neg_trans}
use yellowstone.Scheduler.{ScheduledItem, earlier_deadline, EarlierDeadline, timing}
use yellowstone.Scheduler.Run.{m_root_changed}
use yellowstone.Scheduler.Invariant.{PhaseObserved}

later-prop : (d : ℤ) (i : ℕ) (e : ℤ) (j : ℕ) → IsProp (later d i e j ≡ false)
later-prop d i e j = hlevel

pub later_irrefl : (d : ℤ) (i : ℕ) → later d i d i ≡ false
later_irrefl d i = elim (Bool-cases (later d i d i)) [ inl h ↦ later-asym d i d i h | inr h ↦ h ]

-- `m_root_changed` on a heap that is not empty asks whether the root precedes what was observed.
pub root_changed-later :
    (e : ℤ) (j : ℕ) (d : ℤ) (o : ℕ) → int_lt e d || (int_eq e d && ltb j o) ≡ later d o e j
unfolding int_lt int_eq later
root_changed-later (pos a) j (pos b) o = ground arith
root_changed-later (pos a) j (negsuc b) o = refl
root_changed-later (negsuc a) j (pos b) o = refl
root_changed-later (negsuc a) j (negsuc b) o = ground arith

module _ {ℓ} {Payload : Type ℓ} where
  abbrev the_heap : Chain (ScheduledItem Payload) → ℕ → Heap (ScheduledItem Payload)
  the_heap r n = record { root = r; size = n }

  pub extract_top-top :
      (r : Chain (ScheduledItem Payload)) (n : ℕ) (x : ScheduledItem Payload)
      (h' : Heap (ScheduledItem Payload))
      → extract_top (record { root = r; size = n }) ≡ PairingHeap.ok (x, h')
      → (is_empty (the_heap r n) ≡ false) × (top (the_heap r n) ≡ PairingHeap.ok x)
  unfolding extract_top is_empty top
  extract_top-top null n x h' e = absurd cc
  extract_top-top (node i y c s) n x h' e = let same : y ≡ x = cc in (refl, ap PairingHeap.ok same)

  pub root_unchanged :
      (d : ℤ) (o : ℕ) (h h' : Heap (ScheduledItem Payload)) (x : ScheduledItem Payload)
      → extract_top h ≡ PairingHeap.ok (x, h')
      → m_root_changed d o h ≡ false
      → later d o x.forward_at x.insertion_order ≡ false
  unfolding m_root_changed
  root_unchanged d o h h' x e same =
      let (full, here) = extract_top-top h.root h.size x h' e in
      sym (root_changed-later x.forward_at x.insertion_order d o) ∙ ground arith

  earlier_deadline-prop :
      (x : ScheduledItem Payload) (e : ℕ × ScheduledItem Payload)
      → IsProp (earlier_deadline x (e.1) ≡ false)
  earlier_deadline-prop x e = hlevel

  -- What is taken while nothing precedes the observed deadline is what was observed.
  pub taken_least :
      (j i : ℕ) (it x : ScheduledItem Payload) (es : List (ℕ × ScheduledItem Payload))
      → Mem (j, it) ((i, x) ∷ es)
      → NoneAbove x es
      → later x.forward_at x.insertion_order it.forward_at it.insertion_order ≡ false
  unfolding earlier_deadline EarlierDeadline
  taken_least j i it x es m above =
      Or.elim (later-prop x.forward_at x.insertion_order it.forward_at it.insertion_order)
        (mem-cons.0 m)
        (λ (e : (j, it) ≡ (i, x)).
          subst
            (λ (y : ℕ × ScheduledItem Payload).
              later x.forward_at x.insertion_order y.1.forward_at y.1.insertion_order ≡ false)
            (sym e) (later_irrefl x.forward_at x.insertion_order))
        (λ t. All→Mem (earlier_deadline-prop x) es above t)

  -- An item is pending that is due before the one observed.
  abbrev pub Overtaken : ℤ → ℕ → List (ℕ × ScheduledItem Payload) → Type ℓ
  Overtaken deadline order es =
      (j : ℕ) × (it : ScheduledItem Payload) × Mem (j, it) es
      × (later deadline order it.forward_at it.insertion_order ≡ true)

  -- The predicate of the wait misses no item that is due before the one observed.
  pub root_changed-Mem :
      (deadline : ℤ) (order : ℕ) (h : Heap (ScheduledItem Payload)) (j : ℕ)
      (it : ScheduledItem Payload)
      → IsHeap h
      → Mem (j, it) (items h)
      → later deadline order it.forward_at it.insertion_order ≡ true
      → m_root_changed deadline order h ≡ true
  root_changed-Mem deadline order h j it v m before =
      elim (Bool-cases (m_root_changed deadline order h)) [
        | inl changed ↦ changed
        | inr same ↦ elim (extract_top-Extracts h v) [
          | inl (empty, _) ↦ absurd (not-mem-nil (subst (λ es. Mem (j, it) es) empty m))
          | inr (i, x, h', e, _, split, above) ↦
              let not_after =
                later-neg_trans deadline order x.forward_at x.insertion_order it.forward_at
                  it.insertion_order (root_unchanged deadline order h h' x e same)
                  (taken_least j i it x (items h') ((Perm.mem_iff split).0 m) above) in
              let clash : true ≡ false = sym before ∙ not_after in absurd cc
        ]
      ]

  root_changed_lem :
      (d : ℤ) (o : ℕ) (h h' : Heap (ScheduledItem Payload)) (x : ScheduledItem Payload)
      → extract_top h ≡ PairingHeap.ok (x, h')
      → m_root_changed d o h ≡ true
      → later d o x.forward_at x.insertion_order ≡ true
  unfolding m_root_changed
  root_changed_lem d o h h' x e changed =
      let (full, here) = extract_top-top h.root h.size x h' e in
      sym (root_changed-later x.forward_at x.insertion_order d o) ∙ ground arith

  -- It holds for no other reason while the observed item is pending.
  pub changed-Overtaken :
      (deadline : ℤ) (order : ℕ) (h : Heap (ScheduledItem Payload))
      → IsHeap h
      → PhaseObserved (timing deadline order) (items h)
      → m_root_changed deadline order h ≡ true
      → Overtaken deadline order (items h)
  changed-Overtaken deadline order h v (j, it, m, at, ord) changed =
      elim (extract_top-Extracts h v) [
        | inl (empty, _) ↦ absurd (not-mem-nil (subst (λ es. Mem (j, it) es) empty m))
        | inr (i, x, h', e, _, split, _) ↦ (
          i,
          x,
          (Perm.mem_iff split).1 mem-cons_self,
          root_changed_lem deadline order h h' x e changed,
        )
      ]

  pub unchanged-Overtaken :
      (deadline : ℤ) (order : ℕ) (h : Heap (ScheduledItem Payload))
      → IsHeap h
      → m_root_changed deadline order h ≡ false
      → ¬ Overtaken deadline order (items h)
  unchanged-Overtaken deadline order h v same (j, it, m, before) =
      let changed = root_changed-Mem deadline order h j it v m before in
      let clash : true ≡ false = sym changed ∙ same in absurd cc
