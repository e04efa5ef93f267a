-- ===== src/Scheduler/Deadline.antt =====
-- The wait until a deadline: no item is taken before its deadline, or before an earlier one.
use mathlib.Core.List.{Mem, not-mem-nil}
use mathlib.Core.List.Perm
use yellowstone.Prelude.{
  ℕ, ◌≡◌, ◌⊎◌, refl, sym, subst, inl, inr, Bool, true, false, ◌∷◌, Perm, Bool-cases,
}
use yellowstone.PairingHeap.{Heap}
use yellowstone.PairingHeap.Order.{NoneAbove}
use yellowstone.PairingHeap.Operations.{items, IsHeap, extract_top-Extracts}
use yellowstone.Prelude.Int.{ℤ}
use yellowstone.Scheduler.Time.{later, later-antisym}
use yellowstone.Scheduler.{
  ScheduledItem, EarlierDeadline, looping, timing, publishing, finished, Scheduler,
}
use yellowstone.Scheduler.Run.{m_root_changed, at_phase, take_due, run_timed}
use yellowstone.Scheduler.Invariant.{PhaseObserved}
use yellowstone.Scheduler.Overtaking.{
  root_unchanged, taken_least, Overtaken, changed-Overtaken, unchanged-Overtaken,
}

module _ {ℓ} {Payload : Type ℓ} where
  -- The thread holds an item that it took out of the heap: the one whose deadline it had waited
  -- for, and no other item is due before it.
  pub record Takes (deadline : ℤ) (stop : Bool) (s after : Scheduler Payload) : Type ℓ where
    pub address : ℕ
    pub due : ScheduledItem Payload
    pub rest : Heap (ScheduledItem Payload)
    pub same : after ≡ at_phase (publishing due) stop (record s { schedule_heap = rest })
    pub rest_heap : IsHeap rest
    pub split : Perm (items s.schedule_heap) ((address, due) ∷ items rest)
    pub on_time : due.forward_at ≡ deadline
    pub first : NoneAbove due (items rest)

  take_due-Takes :
      (deadline : ℤ) (order : ℕ) (stop : Bool) (s : Scheduler Payload)
      → IsHeap s.schedule_heap
      → PhaseObserved (timing deadline order) (items s.schedule_heap)
      → m_root_changed deadline order s.schedule_heap ≡ false
      → Takes deadline stop s (take_due stop s)
  unfolding take_due
  take_due-Takes deadline order stop s v (j, it, m, at, ord) same =
      elim (extract_top-Extracts s.schedule_heap v) [
        | inl (empty, e) ↦ absurd (not-mem-nil (subst (λ es. Mem (j, it) es) empty m))
        | inr (i, x, h', e, v', split, above) ↦
            let not_before = root_unchanged deadline order s.schedule_heap h' x e same in
            let not_behind : later x.forward_at x.insertion_order deadline order ≡ false =
              subst (λ d. later x.forward_at x.insertion_order d order ≡ false) at
                (subst (λ o. later x.forward_at x.insertion_order it.forward_at o ≡ false) ord
                  (taken_least j i it x (items h') ((Perm.mem_iff split).0 m) above)) in
            record {
              address = i;
              due = x;
              rest = h';
              same = rw (e, take_due) refl;
              rest_heap = v';
              split = split;
              on_time =
                  sym
                    (later-antisym deadline order x.forward_at x.insertion_order not_before
                      not_behind).0;
              first = above;
            }
      ]

  -- The results of a look at the timed wait.
  abbrev pub Times :
      (timed_out : Bool)
      → (deadline : ℤ) → (order : ℕ) → (stop : Bool) → Scheduler Payload
      → Scheduler Payload
      → Type ℓ
  Times timed_out deadline order stop s after =
      ((timed_out ≡ false)
        × (stop ≡ false)
        × ¬ Overtaken deadline order (items s.schedule_heap)
        × (after ≡ s))
      ⊎ (((stop ≡ true) × (after ≡ at_phase finished stop s))
          ⊎ (((stop ≡ false)
                × Overtaken deadline order (items s.schedule_heap)
                × (after ≡ at_phase looping stop s))
              ⊎ ((stop ≡ false)
                  × (timed_out ≡ true)
                  × ¬ Overtaken deadline order (items s.schedule_heap)
                  × Takes deadline stop s after)))

  run_timed_stop :
      (timed_out : Bool) (deadline : ℤ) (order : ℕ) (s : Scheduler Payload)
      → run_timed timed_out deadline order true s ≡ at_phase finished true s
  unfolding run_timed
  run_timed_stop timed_out deadline order s = refl

  -- On a well-formed heap with the observed item pending, a look at the timed wait ends the loop when
  -- a stop has been requested; otherwise it starts over exactly when an item is pending that is due
  -- before the one observed, waits on before its timeout, and behind it takes an item out: one with
  -- the deadline it had observed, and none is due before it.
  pub run_timed-Times :
      (timed_out : Bool) (deadline : ℤ) (order : ℕ) (stop : Bool) (s : Scheduler Payload)
      → IsHeap s.schedule_heap
      → PhaseObserved (timing deadline order) (items s.schedule_heap)
      → Times timed_out deadline order stop s (run_timed timed_out deadline order stop s)
  unfolding run_timed
  run_timed-Times timed_out deadline order true s v o = inr (inl (refl, refl))
  run_timed-Times timed_out deadline order false s v o =
      elim (Bool-cases (m_root_changed deadline order s.schedule_heap)) [
        | inl changed ↦ inr (
            inr (
              inl (
                refl,
                changed-Overtaken deadline order s.schedule_heap v o changed,
                rw changed refl,
              )))
        | inr same ↦ elim (Bool-cases timed_out) [
          | inl t ↦ inr (
              inr (
                inr (
                  refl,
                  t,
                  unchanged-Overtaken deadline order s.schedule_heap v same,
                  subst (λ c. Takes deadline false s c) (sym (rw (same, t) refl))
                      (take_due-Takes deadline order false s v o same),
                )))
          | inr t ↦ inl (
            t,
            refl,
            unchanged-Overtaken deadline order s.schedule_heap v same,
            rw (same, t) refl,
          )
        ]
      ]
