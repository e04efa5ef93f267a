-- ===== src/Scheduler/Forwarding.antt =====
-- The timing thread with the bus that it publishes on.
use yellowstone.Prelude.{
  ℕ, ◌≢◌, ◌≡◌, ◌⊎◌, refl, sym, subst, inl, inr, Bool, Option, none, some, Option-cases,
}
use mathlib.Core.List.{Mem}
use yellowstone.PairingHeap.{emplace}
use yellowstone.PairingHeap.Operations.{handles}
use yellowstone.EventBus.{EventBus, Exception, overflow_error, Result, ok}
use yellowstone.EventBus.Publish.{PublishResult, next_u64, publish, publish_one}
use yellowstone.EventBus.Invariant.{IsBus}
use yellowstone.EventBus.Delivery.{Delivered, SomeFull, Breaks}
use yellowstone.EventBus.Outcome.{made_event, publish-Publishes}
use yellowstone.EventBus.PublishOne.{publish_one-PublishesOne}
use yellowstone.Scheduler.{
  ScheduledItem, EarlierDeadline, Phase, looping, waiting, timing, publishing, retrying, finished,
  Thread, Scheduler,
}
use yellowstone.Scheduler.Run.{at_phase, forward, m_run}
use yellowstone.Scheduler.Invariant.{IsScheduler}
use yellowstone.Scheduler.Steps.{m_run-IsScheduler}

module _ {ℓ} {Payload Handler : Type ℓ} (k : ℕ) (consumed : ℕ → ℕ) where
  -- What the bus does in a step of the thread: it is called only behind an extraction.
  unfoldable pub called :
      Phase Payload → EventBus Payload Handler → EventBus Payload Handler × Result PublishResult
  unfolding forward
  called looping bus = (bus, ok (record { delivered = 0; coalesced = 0 }))
  called waiting bus = (bus, ok (record { delivered = 0; coalesced = 0 }))
  called (timing d o) bus = (bus, ok (record { delivered = 0; coalesced = 0 }))
  called (publishing due) bus = forward k consumed due bus
  called retrying bus = (bus, ok (record { delivered = 0; coalesced = 0 }))
  called finished bus = (bus, ok (record { delivered = 0; coalesced = 0 }))

  unfoldable pub called_by :
      Option (Thread Payload)
      → EventBus Payload Handler
      → EventBus Payload Handler × Result PublishResult
  unfolding called
  called_by none bus = (bus, ok (record { delivered = 0; coalesced = 0 }))
  called_by (some t) bus = called t.phase bus

  -- A step of the thread together with the bus.
  unfoldable pub drive :
      (timed_out : Bool)
      → (fresh : ℕ) → EventBus Payload Handler
      → Scheduler Payload
      → EventBus Payload Handler × Scheduler Payload
  unfolding called_by m_run
  drive timed_out fresh bus s =
      let (bus', published) = called_by s.worker bus in (bus', m_run timed_out published fresh s)

  module _ (due : ScheduledItem Payload) (bus : EventBus Payload Handler) where
    forward_broadcast :
        due.subscriber_id ≡ none
        → forward k consumed due bus ≡ publish consumed due.event_id due.payload due.superstep bus
    unfolding forward
    forward_broadcast e = rw e refl

    forward_one :
        (id : ℕ)
        → due.subscriber_id ≡ some id
        → forward k consumed due bus
          ≡ publish_one k (consumed id) id due.event_id due.payload due.superstep bus
    unfolding forward
    forward_one id e = rw e refl

    forward-IsBus : IsBus k bus → IsBus k (forward k consumed due bus).0
    forward-IsBus v = elim (Option-cases due.subscriber_id) [
      | inl e ↦
          subst (λ r. IsBus k r.0) (sym (forward_broadcast e))
            (publish-Publishes consumed due.event_id due.payload due.superstep k bus v).0
      | inr (id, e) ↦
          subst (λ r. IsBus k r.0) (sym (forward_one id e))
            (publish_one-PublishesOne k (consumed id) id due.event_id due.payload due.superstep bus
              v).0
    ]

  called-IsBus :
      (p : Phase Payload) (bus : EventBus Payload Handler) → IsBus k bus → IsBus k (called p bus).0
  unfolding called
  called-IsBus looping bus v = v
  called-IsBus waiting bus v = v
  called-IsBus (timing d o) bus v = v
  called-IsBus (publishing due) bus v = forward-IsBus due bus v
  called-IsBus retrying bus v = v
  called-IsBus finished bus v = v

  called_by-IsBus :
      (w : Option (Thread Payload)) (bus : EventBus Payload Handler)
      → IsBus k bus
      → IsBus k (called_by w bus).0
  unfolding called_by
  called_by-IsBus none bus v = v
  called_by-IsBus (some t) bus v = called-IsBus t.phase bus v

  -- Every step of the timing thread with its bus keeps both well formed, when a node that is put
  -- back gets a new address.
  pub drive-IsScheduler :
      (timed_out : Bool) (fresh : ℕ) (bus : EventBus Payload Handler) (s : Scheduler Payload)
      → IsBus k bus
      → IsScheduler s
      → ¬ Mem fresh (handles s.schedule_heap)
      → IsBus k (drive timed_out fresh bus s).0 × IsScheduler (drive timed_out fresh bus s).1
  unfolding drive
  drive-IsScheduler timed_out fresh bus s v w new =
      (called_by-IsBus s.worker bus v, m_run-IsScheduler timed_out _ fresh s w new)

  module _ (timed_out : Bool) (fresh : ℕ) (due : ScheduledItem Payload) (stop : Bool)
      (bus : EventBus Payload Handler) (s : Scheduler Payload) where
    -- The item is pending again, as behind an overflow.
    abbrev pub retried : Scheduler Payload
    retried =
        at_phase retrying stop (record s { schedule_heap = emplace fresh due s.schedule_heap })

    -- The results of publishing an item to every subscriber.
    abbrev pub Forwards : EventBus Payload Handler × Scheduler Payload → Type ℓ
    Forwards after =
        let e = made_event due.event_id due.payload due.superstep bus in
        (SomeFull consumed e bus.subscribers
          × (after.0.subscribers ≡ bus.subscribers)
          × (after.1 ≡ retried))
        ⊎ ((¬ SomeFull consumed e bus.subscribers
              × Delivered consumed e bus.subscribers after.0.subscribers
              × (after.1
                  ≡ at_phase looping stop
                      (record s { forwarded_events = next_u64 s.forwarded_events })))
            ⊎ ((exception : Exception) × Breaks consumed e exception bus.subscribers
                  after.0.subscribers
                × (((exception ≡ overflow_error) × (after.1 ≡ retried))
                    ⊎ ((exception ≢ overflow_error)
                        × (after.1
                            ≡ at_phase looping stop
                                (record s { failed_events = next_u64 s.failed_events }))))))
