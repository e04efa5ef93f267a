-- ===== src/Scheduler/Settling.antt =====
-- The steps of the thread behind the call of the bus.
use mathlib.Core.List.{Mem}
use yellowstone.Prelude.{
  ℕ, suc, ◌+◌, ◌%◌, ◌^◌, ◌≡◌, ◌∙◌, sym, ap, subst, Bool, some, [], ◌∷◌, arith, length, length-perm,
  All, is_some,
}
use yellowstone.PairingHeap.{emplace}
use yellowstone.PairingHeap.Operations.{items, handles, emplace_lem}
use yellowstone.EventBus.{
  Result, ok, err, invalid_argument, logic_error, length_error, out_of_range, overflow_error,
  other_error,
}
use yellowstone.EventBus.Publish.{PublishResult, next_u64}
use yellowstone.Scheduler.{
  ScheduledItem, EarlierDeadline, Phase, looping, publishing, retrying, Scheduler,
}
use yellowstone.Scheduler.Run.{at_phase, run_published}
use yellowstone.Scheduler.Invariant.{flight, is_open, Ordered, IsScheduler, next_u64-wrap}
use yellowstone.Scheduler.Calls.{entries-emplace}

module _ {ℓ} {Payload : Type ℓ} where
  -- The thread stands at `phase`.
  abbrev pub StandsAt : Phase Payload → Bool → Scheduler Payload → Type ℓ
  StandsAt phase stop s = s.worker ≡ some (record { phase = phase; stop_requested = stop })

  module _ (due : ScheduledItem Payload) (stop : Bool) (s : Scheduler Payload)
      (here : StandsAt (publishing due) stop s) (v : IsScheduler s) where
    settle : (n f g : ℕ) → n ≡ length (flight s.worker) → n ≡ 1
    settle n f g e = e ∙ ap (λ w. length (flight w)) here

    count_in :
        s.scheduled_events
        ≡ (length (items s.schedule_heap) + 1 + s.forwarded_events + s.failed_events) % 2 ^ 64
    count_in =
        v.counted
        ∙ ap
            (λ w.
              (length (items s.schedule_heap)
                + length (flight w)
                + s.forwarded_events
                + s.failed_events)
              % 2 ^ 64)
            here

    forwarded-IsScheduler :
        IsScheduler
          (at_phase looping stop (record s { forwarded_events = next_u64 s.forwarded_events }))
    forwarded-IsScheduler = record {
      heap = v.heap;
      counted =
          count_in
          ∙ ap (λ n. n % 2 ^ 64)
              (shift (length (items s.schedule_heap)) s.forwarded_events s.failed_events)
          ∙ sym
              (next_u64-wrap (length (items s.schedule_heap) + s.failed_events) s.forwarded_events)
          ∙ ap (λ n. n % 2 ^ 64)
              (shift_back (length (items s.schedule_heap)) (next_u64 s.forwarded_events)
                s.failed_events);
      orders = v.orders;
      flight_orders = tt;
      observed = tt;
      alive = v.alive ∙ ap is_some here;
      gate = v.gate ∙ ap is_open here;
    }
      where
        shift : (n f g : ℕ) → n + 1 + f + g ≡ n + g + f + 1
        shift n f g = omega arith

        shift_back : (n f g : ℕ) → n + g + f ≡ n + 0 + f + g
        shift_back n f g = omega arith

    failed-IsScheduler :
        IsScheduler (at_phase looping stop (record s { failed_events = next_u64 s.failed_events }))
    failed-IsScheduler = record {
      heap = v.heap;
      counted =
          count_in
          ∙ ap (λ n. n % 2 ^ 64)
              (shift (length (items s.schedule_heap)) s.forwarded_events s.failed_events)
          ∙ sym
              (next_u64-wrap (length (items s.schedule_heap) + s.forwarded_events) s.failed_events)
          ∙ ap (λ n. n % 2 ^ 64)
              (shift_back (length (items s.schedule_heap)) s.forwarded_events
                (next_u64 s.failed_events));
      orders = v.orders;
      flight_orders = tt;
      observed = tt;
      alive = v.alive ∙ ap is_some here;
      gate = v.gate ∙ ap is_open here;
    }
      where
        shift : (n f g : ℕ) → n + 1 + f + g ≡ n + f + g + 1
        shift n f g = omega arith

        shift_back : (n f g : ℕ) → n + f + g ≡ n + 0 + f + g
        shift_back n f g = omega arith

    -- After an overflow the item is pending again, the same as before, and no counter has moved.
    retried-IsScheduler :
        (fresh : ℕ)
        → ¬ Mem fresh (handles s.schedule_heap)
        → IsScheduler (
            at_phase retrying stop (record s { schedule_heap = emplace fresh due s.schedule_heap }))
    retried-IsScheduler fresh new =
        let (w, added) = emplace_lem fresh due s.schedule_heap v.heap new in
        let mine : All (Ordered s.next_insertion_order) (due ∷ []) =
          subst (λ c. All (Ordered s.next_insertion_order) (flight c)) here v.flight_orders in
        record {
          heap = w;
          counted =
              count_in
              ∙ ap (λ n. (n + s.forwarded_events + s.failed_events) % 2 ^ 64)
                  (back_in (length-perm _ _ added));
          orders =
              entries-emplace s.next_insertion_order s.next_insertion_order fresh due
                s.schedule_heap (omega arith) mine.0 added v.orders;
          flight_orders = tt;
          observed = tt;
          alive = v.alive ∙ ap is_some here;
          gate = v.gate ∙ ap is_open here;
        }
      where
        back_in : {n m : ℕ} → n ≡ suc m → m + 1 ≡ n + 0
        back_in e = omega arith

    pub run_published-IsScheduler :
        (published : Result PublishResult) (fresh : ℕ)
        → ¬ Mem fresh (handles s.schedule_heap)
        → IsScheduler (run_published published fresh due stop s)
    unfolding run_published
    run_published-IsScheduler (ok r) fresh new = forwarded-IsScheduler
    run_published-IsScheduler (err overflow_error) fresh new = retried-IsScheduler fresh new
    run_published-IsScheduler (err invalid_argument) fresh new = failed-IsScheduler
    run_published-IsScheduler (err logic_error) fresh new = failed-IsScheduler
    run_published-IsScheduler (err length_error) fresh new = failed-IsScheduler
    run_published-IsScheduler (err out_of_range) fresh new = failed-IsScheduler
    run_published-IsScheduler (err other_error) fresh new = failed-IsScheduler
