-- ===== src/Scheduler/Steps.antt =====
-- Every step of the timing thread keeps the scheduler well formed.
use mathlib.Core.List.{Mem, mem-cons_self}
use yellowstone.Prelude.{
  ℕ, suc, ◌+◌, ◌%◌, ◌^◌, ◌≡◌, ◌∙◌, refl, sym, ap, subst, inl, inr, Bool, not, ◌||◌, Option, none,
  some, [], arith, length, length-perm, All-perm, is_some, if_both,
}
use yellowstone.PairingHeap.{Heap, Chain, null, node, emplace, is_empty, top}
use yellowstone.PairingHeap
use yellowstone.PairingHeap.Operations.{items, handles}
use yellowstone.EventBus.{Result}
use yellowstone.EventBus.Publish.{PublishResult}
use yellowstone.Prelude.Int.{ℤ}
use yellowstone.Scheduler.{
  ScheduledItem, EarlierDeadline, Phase, looping, waiting, timing, publishing, retrying, finished,
  Thread, Scheduler,
}
use yellowstone.Scheduler.Run.{at_phase, run_loop, run_timed, run_phase, m_run}
use yellowstone.Scheduler.Invariant.{flight, Observed, is_open, IsScheduler, at_phase-IsScheduler}
use yellowstone.Scheduler.Deadline.{Takes, run_timed-Times}
use yellowstone.Scheduler.Calls.{Ordered-prop}
use yellowstone.Scheduler.Settling.{StandsAt, run_published-IsScheduler}

module _ {ℓ} {Payload : Type ℓ} where
  root_entry :
      (r : Chain (ScheduledItem Payload)) (n : ℕ) (root : ScheduledItem Payload)
      → top (record { root = r; size = n }) ≡ PairingHeap.ok root
      → (j : ℕ) × Mem (j, root) (items (record { root = r; size = n }))
  unfolding top
  root_entry null n root e = absurd cc
  root_entry (node i x c t) n root e =
      let same : x ≡ root = cc in
      (
        i,
        subst (λ y. Mem (i, y) (items (record { root = node i x c t; size = n }))) same
            mem-cons_self,
      )

  run_loop-IsScheduler :
      (stop : Bool) (s : Scheduler Payload)
      → StandsAt looping stop s
      → IsScheduler s
      → IsScheduler (run_loop stop s)
  unfolding run_loop
  run_loop-IsScheduler stop s here v =
      if_both IsScheduler stop _ _ (at_phase-IsScheduler looping finished stop s here refl tt v) (
        if_both IsScheduler (is_empty s.schedule_heap) _ _
          (at_phase-IsScheduler looping waiting stop s here refl tt v)
          (by_root (top s.schedule_heap) refl))
    where
      by_root :
          (r : PairingHeap.Result (ScheduledItem Payload))
          → top s.schedule_heap ≡ r
          → IsScheduler (elim r [
            | PairingHeap.err _ ↦ at_phase waiting stop s
            | PairingHeap.ok root ↦ at_phase (timing root.forward_at root.insertion_order) stop s
          ])
      by_root (PairingHeap.err x) e = at_phase-IsScheduler looping waiting stop s here refl tt v
      by_root (PairingHeap.ok root) e =
          let (j, m) = root_entry s.schedule_heap.root s.schedule_heap.size root e in
          at_phase-IsScheduler looping (timing root.forward_at root.insertion_order) stop s here
            refl (j, root, m, refl, refl) v

  module _ (deadline : ℤ) (order : ℕ) (stop : Bool) (s : Scheduler Payload)
      (here : StandsAt (timing deadline order) stop s) (v : IsScheduler s) where
    Takes-IsScheduler :
        (after : Scheduler Payload) → Takes deadline stop s after → IsScheduler after
    Takes-IsScheduler after t =
        let held =
          All-perm (λ (e : ℕ × ScheduledItem Payload). Ordered-prop _ e.1) _ _ t.split v.orders in
        let none_out : flight s.worker ≡ [] = ap flight here in
        subst IsScheduler (sym t.same) (record {
          heap = t.rest_heap;
          counted =
              v.counted
              ∙ ap (λ n. (n + s.forwarded_events + s.failed_events) % 2 ^ 64)
                  (one_out (length-perm _ _ t.split) (ap length none_out));
          orders = held.1;
          flight_orders = (held.0, tt);
          observed = tt;
          alive = v.alive ∙ ap is_some here;
          gate = v.gate ∙ ap is_open here;
        })
      where
        one_out : {n m f : ℕ} → n ≡ suc m → f ≡ 0 → n + f ≡ m + 1
        one_out e g = omega arith

    run_timed-IsScheduler :
        (timed_out : Bool) → IsScheduler (run_timed timed_out deadline order stop s)
    run_timed-IsScheduler timed_out =
        elim (run_timed-Times timed_out deadline order stop s v.heap
          (subst (λ w. Observed w (items s.schedule_heap)) here v.observed)) [
            | inl (_, _, _, e) ↦ subst IsScheduler (sym e) v
            | inr (inl (_, e)) ↦
                subst IsScheduler (sym e)
                  (at_phase-IsScheduler (timing deadline order) finished stop s here refl tt v)
            | inr (inr (inl (_, _, e))) ↦
                subst IsScheduler (sym e)
                  (at_phase-IsScheduler (timing deadline order) looping stop s here refl tt v)
            | inr (inr (inr (_, _, _, t))) ↦ Takes-IsScheduler _ t
          ]

  module _ (timed_out : Bool) (published : Result PublishResult) (fresh : ℕ) where
    run_phase-IsScheduler :
        (phase : Phase Payload) (stop : Bool) (s : Scheduler Payload)
        → StandsAt phase stop s
        → IsScheduler s
        → ¬ Mem fresh (handles s.schedule_heap)
        → IsScheduler (run_phase timed_out published fresh phase stop s)
    unfolding run_phase
    run_phase-IsScheduler looping stop s here v new = run_loop-IsScheduler stop s here v
    run_phase-IsScheduler waiting stop s here v new =
        if_both IsScheduler (stop || not (is_empty s.schedule_heap)) _ _
          (at_phase-IsScheduler waiting looping stop s here refl tt v) v
    run_phase-IsScheduler (timing deadline order) stop s here v new =
        run_timed-IsScheduler deadline order stop s here v timed_out
    run_phase-IsScheduler (publishing due) stop s here v new =
        run_published-IsScheduler due stop s here v published fresh new
    run_phase-IsScheduler retrying stop s here v new =
        if_both IsScheduler (stop || timed_out) _ _
          (at_phase-IsScheduler retrying looping stop s here refl tt v) v
    run_phase-IsScheduler finished stop s here v new = v

    -- Every step of the timing thread keeps the scheduler well formed, whatever the clock and the
    -- bus do: in particular the counters go on accounting for every event that was scheduled.
    pub m_run-IsScheduler :
        (s : Scheduler Payload)
        → IsScheduler s
        → ¬ Mem fresh (handles s.schedule_heap)
        → IsScheduler (m_run timed_out published fresh s)
    unfolding m_run
    m_run-IsScheduler s v new = by_worker s.worker refl
      where
        by_worker :
            (w : Option (Thread Payload))
            → s.worker ≡ w
            → IsScheduler (elim w [
              | none ↦ s
              | some t ↦ run_phase timed_out published fresh t.phase t.stop_requested s
            ])
        by_worker none e = v
        by_worker (some t) e = run_phase-IsScheduler t.phase t.stop_requested s e v new
