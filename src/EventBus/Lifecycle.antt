-- ===== src/EventBus/Lifecycle.antt =====
-- `EventBus::start`, `stop`, `m_consume_one` and `m_report_error` of event_bus.inl.
use yellowstone.Prelude.{
  ℕ, Bool, true, false, ◌&&◌, not, Option, none, some, List, [], map, set, if◌then◌else◌,
}
use yellowstone.Event.{Event}
use yellowstone.Partition.{wait_pop_for}
use yellowstone.EventBus.{EventBus, Subscriber, Exception, Result, ok, err, snapshot, subscriber}

-- Where `m_report_error` reports.
pub data Report : Type 0 where
  to_handler : Report
  to_stderr : Report

-- What a worker's turn came to.
pub data Turn {ℓ} (Payload : Type ℓ) : Type ℓ where
  yielded : Turn Payload
  idle : Turn Payload
  handled : Event Payload → Turn Payload
  failed : Event Payload → Report → Turn Payload

-- `m_report_error`: the handler, and standard error where there is none or it throws itself.
unfoldable pub report_error : (callable throws : Bool) → Report
report_error callable throws = if callable && not throws then to_handler else to_stderr

module _ {ℓ} {Payload Handler : Type ℓ} where
  -- `launch ids` is what building a manager, registering a worker for each id and starting it
  -- throws, if anything.
  unfoldable pub start :
      (launch : List ℕ → Option Exception)
      → EventBus Payload Handler
      → EventBus Payload Handler × Result (Unit {0})
  unfolding snapshot
  start launch b =
      let ids = map (λ (s : Subscriber Payload Handler). s.id) (snapshot b.subscribers) in
      if b.running then (b, ok tt) else elim (launch ids) [
        | none ↦ (record b { running = true; managed = true; workers = ids }, ok tt)
        | some e ↦ (record b { running = false }, err e)
      ]

  unfoldable pub stop : EventBus Payload Handler → EventBus Payload Handler
  stop b = if b.running then record b { running = false; managed = false; workers = [] } else b

  module _ (k_max_subscribers : ℕ) where
    -- A turn of the worker of a subscriber, `m_consume_one`: `none` while it waits for an event.
    -- `throws` says whether the handler throws when it is called, `error_throws` whether the error
    -- handler does, and `still_running` is the flag
    -- `m_running` as the wait sees it, since a stop may come in behind the test before the wait.
    unfoldable pub consume_one :
        (throws : Handler → Event Payload → Bool)
        → (error_throws timed_out still_running : Bool) → (subscriber_id : ℕ)
        → EventBus Payload Handler
        → Option (EventBus Payload Handler × Turn Payload)
    unfolding subscriber wait_pop_for report_error
    consume_one throws error_throws timed_out still_running subscriber_id b =
        elim (subscriber k_max_subscribers subscriber_id b) [
          | none ↦ some (b, yielded)
          | some s ↦
              if not b.running
              then some (b, yielded)
              else elim (wait_pop_for timed_out still_running s.partition) [
                | none ↦ none
                | some (p, popped) ↦
                    let b' = record b {
                      subscribers =
                          set b.subscribers subscriber_id (some (record s { partition = p }));
                    } in
                    elim popped [
                      | none ↦ some (b', idle)
                      | some e ↦ some (
                        b',
                        if throws s.handler e
                            then failed e (report_error b.error_handler error_throws)
                            else handled e,
                      )
                    ]
              ]
        ]
