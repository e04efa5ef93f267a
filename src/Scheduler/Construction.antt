-- ===== src/Scheduler/Construction.antt =====
-- The constructor of the scheduler.
use yellowstone.Prelude.{
  ◌≡◌, ◌⊎◌, refl, inl, inr, Bool, true, false, Option, none, some, [], Bool-cases,
}
use yellowstone.PairingHeap.{empty_heap}
use yellowstone.PairingHeap.Operations.{items, empty_heap-IsHeap}
use yellowstone.EventBus.{Exception, Result, ok, err, invalid_argument}
use yellowstone.Prelude.Int.{ℤ, pos, int_lt}
use yellowstone.Scheduler.{EarlierDeadline, Scheduler, new_scheduler, make_scheduler, start}
use yellowstone.Scheduler.Invariant.{IsScheduler}
use yellowstone.Scheduler.Stopping.{started, started-IsScheduler}

module _ {ℓ} {Payload : Type ℓ} where
  pub new_scheduler-IsScheduler :
      (retry_delay : ℤ) (error_handler : Bool)
      → IsScheduler {Payload = Payload} (new_scheduler retry_delay error_handler)
  unfolding new_scheduler
  new_scheduler-IsScheduler retry_delay error_handler = record {
    heap = empty_heap-IsHeap;
    counted = unfold empty_heap in refl;
    orders = unfold empty_heap in tt;
    flight_orders = tt;
    observed = tt;
    alive = refl;
    gate = refl;
  }

  -- The results of the constructor.
  abbrev pub Constructs :
      Option Exception → ℤ → (error_handler : Bool) → Result (Scheduler Payload) → Type ℓ
  Constructs launched retry_delay error_handler out =
      ((int_lt (pos 0) retry_delay ≡ false) × (out ≡ err invalid_argument))
      ⊎ (((e : Exception) × (launched ≡ some e) × (out ≡ err e))
          ⊎ ((s : Scheduler Payload) × (out ≡ ok s)
              × IsScheduler s
              × (s.running ≡ true)
              × (s.accepting ≡ true)
              × (items s.schedule_heap ≡ [])))

  -- The constructor refuses a retry delay that is not positive and passes on what launching the
  -- thread throws; otherwise it makes a well-formed scheduler that runs, accepts events and has
  -- none.
  pub make_scheduler-Constructs :
      (launched : Option Exception) (retry_delay : ℤ) (error_handler : Bool)
      → Constructs launched retry_delay error_handler
          (make_scheduler launched retry_delay error_handler)
  unfolding make_scheduler start
  make_scheduler-Constructs launched retry_delay error_handler =
      elim (Bool-cases (int_lt (pos 0) retry_delay)) [
        | inr h ↦ inl (h, rw h refl)
        | inl h ↦ by_launch launched h
      ]
    where
      by_launch :
          (l : Option Exception)
          → int_lt (pos 0) retry_delay ≡ true
          → Constructs l retry_delay error_handler (make_scheduler l retry_delay error_handler)
      by_launch none h = inr (
          inr (
            started (new_scheduler retry_delay error_handler),
            rw h (unfold new_scheduler in refl),
            started-IsScheduler (new_scheduler retry_delay error_handler)
                (new_scheduler-IsScheduler retry_delay error_handler)
                (unfold new_scheduler in refl),
            refl,
            refl,
            unfold new_scheduler empty_heap in refl,
          ))
      by_launch (some e) h = inr (inl (e, refl, rw h (unfold new_scheduler in refl)))
