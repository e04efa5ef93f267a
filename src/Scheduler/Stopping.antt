-- ===== src/Scheduler/Stopping.antt =====
-- The life cycle: `start` and `stop`.
use mathlib.Core.Option
use yellowstone.Prelude.{
  ◌+◌, ◌%◌, ◌^◌, ◌≡◌, ◌⊎◌, ◌∙◌, refl, sym, ap, subst, inl, inr, true, false, arith, Option, none,
  some, length, All, is_some, Bool-cases,
}
use yellowstone.PairingHeap.Operations.{items}
use yellowstone.EventBus.{Exception, Result, ok, err}
use yellowstone.Scheduler.{EarlierDeadline, looping, Thread, Scheduler, start, request_stop}
use yellowstone.Scheduler.Invariant.{flight, Observed, is_open, Ordered, IsScheduler}

module _ {ℓ} {Payload : Type ℓ} where
  abbrev pub started : Scheduler Payload → Scheduler Payload
  started s = record s {
    accepting = true;
    running = true;
    worker = some (record { phase = looping; stop_requested = false });
  }

  idle_worker : (s : Scheduler Payload) → IsScheduler s → s.running ≡ false → s.worker ≡ none
  idle_worker s v stopped = by_worker s.worker (sym v.alive ∙ stopped)
    where
      by_worker : (w : Option (Thread Payload)) → is_some w ≡ false → w ≡ none
      by_worker none e = refl
      by_worker (some t) e = absurd cc

  pub started-IsScheduler :
      (s : Scheduler Payload) → IsScheduler s → s.worker ≡ none → IsScheduler (started s)
  started-IsScheduler s v idle = record {
    heap = v.heap;
    counted =
        v.counted
        ∙ ap
            (λ w.
              (length (items s.schedule_heap)
                + length (flight w)
                + s.forwarded_events
                + s.failed_events)
              % 2 ^ 64)
            idle;
    orders = v.orders;
    flight_orders = tt;
    observed = tt;
    alive = refl;
    gate = refl;
  }

  start_running :
      (launched : Option Exception) (s : Scheduler Payload)
      → s.running ≡ true
      → start launched s ≡ (s, ok tt)
  unfolding start
  start_running launched s running = ground arith

  start_stopped : (s : Scheduler Payload) → s.running ≡ false → start none s ≡ (started s, ok tt)
  unfolding start
  start_stopped s stopped = ground arith

  start_thrown :
      (e : Exception) (s : Scheduler Payload)
      → s.running ≡ false
      → start (some e) s ≡ (record s { accepting = false; running = false }, err e)
  unfolding start
  start_thrown e s stopped = ground arith

  -- The three results of `start`.
  abbrev pub Launches :
      Option Exception → Scheduler Payload → Scheduler Payload × Result (Unit {0}) → Type ℓ
  Launches launched s after =
      ((s.running ≡ true) × (after ≡ (s, ok tt)))
      ⊎ (((s.running ≡ false) × (launched ≡ none) × (after ≡ (started s, ok tt)))
          ⊎ ((e : Exception) × (s.running ≡ false)
              × (launched ≡ some e)
              × (after.1 ≡ err e)
              × (after.0.running ≡ false)
              × (after.0.accepting ≡ false)
              × (after.0.schedule_heap ≡ s.schedule_heap)))

  closed-IsScheduler :
      (s : Scheduler Payload)
      → IsScheduler s
      → s.worker ≡ none
      → IsScheduler (record s { accepting = false; running = false })
  closed-IsScheduler s v idle = record {
    heap = v.heap;
    counted = v.counted;
    orders = v.orders;
    flight_orders = v.flight_orders;
    observed = v.observed;
    alive = sym (ap is_some idle);
    gate = sym (ap is_open idle);
  }

  -- `start` keeps the scheduler well formed. A running scheduler stays as it is; a stopped one gets
  -- a thread, runs and accepts events again, with the items that were pending; when the thread
  -- cannot be launched the exception is passed on and the scheduler stays stopped and closed.
  pub start-Launches :
      (launched : Option Exception) (s : Scheduler Payload)
      → IsScheduler s
      → IsScheduler (start launched s).0 × Launches launched s (start launched s)
  start-Launches launched s v = elim (Bool-cases s.running) [
    | inl running ↦
        let e = start_running launched s running in
        (subst (λ r. IsScheduler r.0) (sym e) v, inl (running, e))
    | inr stopped ↦ by_launch launched stopped
  ]
    where
      by_launch :
          (l : Option Exception)
          → s.running ≡ false
          → IsScheduler (start l s).0 × Launches l s (start l s)
      by_launch none stopped =
          subst (λ r. IsScheduler r.0 × Launches none s r) (sym (start_stopped s stopped))
            (started-IsScheduler s v (idle_worker s v stopped), inr (inl (stopped, refl, refl)))
      by_launch (some x) stopped =
          subst (λ r. IsScheduler r.0 × Launches (some x) s r) (sym (start_thrown x s stopped))
            (
              closed-IsScheduler s v (idle_worker s v stopped),
              inr (inr (x, stopped, refl, refl, refl, refl, refl)),
            )

  -- `stop`, up to the join, keeps the scheduler well formed, closes it, and touches no item that is
  -- pending or in flight.
  pub request_stop-IsScheduler :
      (s : Scheduler Payload)
      → IsScheduler s
      → IsScheduler (request_stop s)
        × ((request_stop s).accepting ≡ false)
        × ((request_stop s).schedule_heap ≡ s.schedule_heap)
        × (flight (request_stop s).worker ≡ flight s.worker)
  unfolding request_stop
  request_stop-IsScheduler s v =
      let same = told_flight s.worker in
      (
        record {
          heap = v.heap;
          counted =
              v.counted
              ∙ ap
                  (λ fs.
                    (length (items s.schedule_heap)
                      + length fs
                      + s.forwarded_events
                      + s.failed_events)
                    % 2 ^ 64)
                  (sym same);
          orders = v.orders;
          flight_orders = subst (All (Ordered s.next_insertion_order)) (sym same) v.flight_orders;
          observed = told_observed s.worker v.observed;
          alive = v.alive ∙ sym (told_alive s.worker);
          gate = sym (told_closed s.worker);
        },
        refl,
        refl,
        same,
      )
    where
      told : Option (Thread Payload) → Option (Thread Payload)
      told = Option.map (λ (t : Thread Payload). record t { stop_requested = true })

      told_flight : (w : Option (Thread Payload)) → flight (told w) ≡ flight w
      told_flight none = refl
      told_flight (some t) = refl

      told_observed :
          (w : Option (Thread Payload))
          → Observed w (items s.schedule_heap)
          → Observed (told w) (items s.schedule_heap)
      told_observed none o = tt
      told_observed (some t) o = o

      told_alive : (w : Option (Thread Payload)) → is_some (told w) ≡ is_some w
      told_alive none = refl
      told_alive (some t) = refl

      told_closed : (w : Option (Thread Payload)) → is_open (told w) ≡ false
      told_closed none = refl
      told_closed (some t) = refl
