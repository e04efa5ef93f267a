-- ===== src/EventBus/Consumption.antt =====
-- A turn of a worker: `m_consume_one`.
use yellowstone.Prelude.{
  ℕ, ◌≡◌, ◌⊎◌, refl, ap, Bool, true, false, Option, none, some, List, [], ◌∷◌, arith, length, set,
  inl, inr, Bool-cases, if◌then◌else◌, not, ◌||◌,
}
use yellowstone.Event.{Event}
use yellowstone.Partition.{pop, wait_pop_for, wakes}
use yellowstone.Partition.Queue.{queue_pop}
use yellowstone.Partition.Invariant.{pop-IsPartition, pop_keeps}
use yellowstone.Partition.Refinement.{contents, pop-queue_pop, size-contents, pop_view}
use yellowstone.EventBus.{EventBus, Subscriber, subscriber}
use yellowstone.EventBus.Lifecycle.{Turn, idle, handled, failed, report_error, consume_one}
use yellowstone.EventBus.Invariant.{IsBus, subscriber-IsEntry, store-IsBus}

module _ {ℓ} {Payload Handler : Type ℓ} (k : ℕ) (throws : Handler → Event Payload → Bool)
    (error_throws timed_out still_running : Bool) (id : ℕ) (b : EventBus Payload Handler)
    (s : Subscriber Payload Handler) (v : IsBus k b) (running : b.running ≡ true)
    (found : subscriber k id b ≡ some s) where
  -- The bus with the queue of `s` popped once.
  abbrev pub popped_bus : EventBus Payload Handler
  popped_bus = record b {
    subscribers = set b.subscribers id (some (record s { partition = (pop s.partition).0 }));
  }

  popped-IsBus : IsBus k popped_bus
  popped-IsBus =
      let entry = subscriber-IsEntry k id b s v found in
      let keeps = pop_keeps s.partition in
      store-IsBus k id b s (pop s.partition).0 v found (pop-IsPartition s.partition entry.queue)
        keeps.0 keeps.1

  -- The results of a turn while the bus runs.
  abbrev pub Consumes : Option (EventBus Payload Handler × Turn Payload) → Type ℓ
  Consumes after =
      ((contents s.partition ≡ [])
        × (((timed_out ≡ false) × (still_running ≡ true) × (after ≡ none))
            ⊎ ((not still_running || timed_out ≡ true)
                × (after ≡ some (popped_bus, idle))
                × (contents (pop s.partition).0 ≡ []))))
      ⊎ ((e : Event Payload) × (es : List (Event Payload)) × (contents s.partition ≡ e ∷ es)
          × (after
              ≡ some (
                popped_bus,
                if throws s.handler e
                    then failed e (report_error b.error_handler error_throws)
                    else handled e,
              ))
          × (contents (pop s.partition).0 ≡ es))

  waits :
      s.partition.size ≡ 0
      → not still_running || timed_out ≡ false
      → consume_one k throws error_throws timed_out still_running id b ≡ none
  unfolding consume_one wait_pop_for
  waits empty waiting = ground arith

  consumes_idle :
      wakes still_running s.partition || timed_out ≡ true
      → (pop s.partition).1 ≡ none
      → consume_one k throws error_throws timed_out still_running id b ≡ some (popped_bus, idle)
  unfolding consume_one wait_pop_for
  consumes_idle awake nothing = ground arith

  consumes_event :
      (e : Event Payload)
      → wakes still_running s.partition || timed_out ≡ true
      → (pop s.partition).1 ≡ some e
      → consume_one k throws error_throws timed_out still_running id b
        ≡ some (
          popped_bus,
          if throws s.handler e
              then failed e (report_error b.error_handler error_throws)
              else handled e,
        )
  unfolding consume_one wait_pop_for
  consumes_event e awake taken = ground arith

  consumes :
      (es : List (Event Payload))
      → contents s.partition ≡ es
      → s.partition.size ≡ length es
      → pop_view (pop s.partition) ≡ queue_pop es
      → Consumes (consume_one k throws error_throws timed_out still_running id b)
  unfolding queue_pop
  consumes [] same size popped = elim (Bool-cases (not still_running || timed_out)) [
    | inl t ↦
        inl
          (same, inr (t, consumes_idle (ground arith) (ap (λ r. r.1) popped), ap (λ r. r.0) popped))
    | inr t ↦ inl (same, inl (ground arith, ground arith, waits size t))
  ]
  consumes (e ∷ es) same size popped =
      inr
        (e, es, same, consumes_event e (ground arith) (ap (λ r. r.1) popped), ap (λ r. r.0) popped)

  -- A turn of a worker of a running bus keeps the bus well formed. With an empty queue it waits
  -- until the timeout or a stop, and then is idle; otherwise it takes the first event out, calls the handler
  -- with it once, and reports a failure, to the error handler or to standard error, exactly when the handler throws.
  pub consume_one-Consumes :
      Consumes (consume_one k throws error_throws timed_out still_running id b) × IsBus k popped_bus
  consume_one-Consumes =
      let q = (subscriber-IsEntry k id b s v found).queue in
      (
        consumes (contents s.partition) refl (size-contents s.partition q)
            (pop-queue_pop s.partition q),
        popped-IsBus,
      )
