-- ===== src/Scheduler/Run.antt =====
-- The timing thread: `m_run`, `m_root_changed` and `m_report_error` of scheduler.inl.
use yellowstone.Prelude.{ℕ, Bool, true, not, ◌||◌, ◌&&◌, none, some, if◌then◌else◌, ltb}
use yellowstone.PairingHeap.{Heap, emplace, extract_top, is_empty, top}
use yellowstone.PairingHeap
use yellowstone.EventBus.{EventBus, Result, ok, err, overflow_error}
use yellowstone.EventBus.Publish.{PublishResult, next_u64, publish, publish_one}
use yellowstone.Prelude.Int.{ℤ, int_eq, int_lt}
use yellowstone.Scheduler.{
  ScheduledItem, earlier_deadline, EarlierDeadline, Phase, looping, waiting, timing, publishing,
  retrying, finished, Scheduler,
}

-- What `m_report_error` does: nothing, a call of the handler, or a call that throws and is
-- swallowed.
pub data Diagnosis : Type 0 where
  unreported : Diagnosis
  reported : (schedule_id : ℕ) → Diagnosis
  swallowed : (schedule_id : ℕ) → Diagnosis

unfoldable pub report_error : (callable throws : Bool) → (schedule_id : ℕ) → Diagnosis
report_error callable throws schedule_id =
    if not callable
    then unreported
    else if throws
    then swallowed schedule_id
    else reported schedule_id

module _ {ℓ} {Payload : Type ℓ} where
  unfoldable pub m_root_changed : ℤ → ℕ → Heap (ScheduledItem Payload) → Bool
  unfolding int_eq int_lt top is_empty
  m_root_changed observed_deadline observed_order h = if is_empty h then true else elim (top h) [
    | PairingHeap.err _ ↦ true
    | PairingHeap.ok current ↦
        int_lt current.forward_at observed_deadline
        || (int_eq current.forward_at observed_deadline
            && ltb current.insertion_order observed_order)
  ]

  -- The call of the bus for the item that is due; `consumed` is as in the calls.
  unfoldable pub forward :
      {Handler : Type ℓ} (k_max_subscribers : ℕ) (consumed : ℕ → ℕ)
      → ScheduledItem Payload
      → EventBus Payload Handler
      → EventBus Payload Handler × Result PublishResult
  unfolding publish publish_one
  forward k_max_subscribers consumed due bus = elim (due.subscriber_id) [
    | some id ↦
        publish_one k_max_subscribers (consumed id) id due.event_id due.payload due.superstep bus
    | none ↦ publish consumed due.event_id due.payload due.superstep bus
  ]

  abbrev pub at_phase : Phase Payload → (stop : Bool) → Scheduler Payload → Scheduler Payload
  at_phase phase stop s = record s {
    worker = some (record { phase = phase; stop_requested = stop });
  }

  -- The head of the loop, up to the wait.
  unfoldable pub run_loop : (stop : Bool) → Scheduler Payload → Scheduler Payload
  unfolding is_empty top
  run_loop stop s =
      if stop
      then at_phase finished stop s
      else if is_empty s.schedule_heap
      then at_phase waiting stop s
      else elim (top s.schedule_heap) [
        | PairingHeap.err _ ↦ at_phase waiting stop s
        | PairingHeap.ok root ↦ at_phase (timing root.forward_at root.insertion_order) stop s
      ]

  -- The extraction of the item that is due. On an empty heap the program ends; here nothing changes.
  unfoldable pub take_due : (stop : Bool) → Scheduler Payload → Scheduler Payload
  unfolding extract_top earlier_deadline
  take_due stop s = elim (extract_top s.schedule_heap) [
    | PairingHeap.err _ ↦ s
    | PairingHeap.ok (due, heap) ↦
        at_phase (publishing due) stop (record s { schedule_heap = heap })
  ]

  -- `wait_until` looked at once: it returns when its predicate holds or it has timed out.
  unfoldable pub run_timed :
      (timed_out : Bool)
      → (deadline : ℤ) → (order : ℕ) → (stop : Bool) → Scheduler Payload
      → Scheduler Payload
  unfolding m_root_changed take_due
  run_timed timed_out deadline order stop s =
      let interrupted = stop || m_root_changed deadline order s.schedule_heap in
      if not (interrupted || timed_out)
      then s
      else if stop
      then at_phase finished stop s
      else if interrupted
      then at_phase looping stop s
      else take_due stop s

  -- What follows the call of the bus. After an overflow the item goes back, in a node at `fresh`.
  unfoldable pub run_published :
      (published : Result PublishResult)
      → (fresh : ℕ) → ScheduledItem Payload
      → (stop : Bool) → Scheduler Payload
      → Scheduler Payload
  unfolding emplace earlier_deadline
  run_published published fresh due stop s = elim published [
    | ok _ ↦ at_phase looping stop (record s { forwarded_events = next_u64 s.forwarded_events })
    | err e ↦ elim e [
      | overflow_error ↦
          at_phase retrying stop (record s { schedule_heap = emplace fresh due s.schedule_heap })
      | _ ↦ at_phase looping stop (record s { failed_events = next_u64 s.failed_events })
    ]
  ]

  -- What the same code reports: a failure other than an overflow, once, with the schedule id.
  unfoldable pub diagnose :
      (throws : Bool)
      → (published : Result PublishResult) → ScheduledItem Payload
      → Scheduler Payload
      → Diagnosis
  unfolding report_error
  diagnose throws published due s = elim published [
    | ok _ ↦ unreported
    | err e ↦ elim e [
      | overflow_error ↦ unreported
      | _ ↦ report_error s.error_handler throws due.schedule_id
    ]
  ]

  -- One step of the thread: `published` is what the bus returns or throws while it publishes.
  unfoldable pub run_phase :
      (timed_out : Bool)
      → (published : Result PublishResult) → (fresh : ℕ) → Phase Payload
      → (stop : Bool) → Scheduler Payload
      → Scheduler Payload
  unfolding run_loop run_timed run_published is_empty
  run_phase timed_out published fresh looping stop s = run_loop stop s
  run_phase timed_out published fresh waiting stop s =
      if stop || not (is_empty s.schedule_heap) then at_phase looping stop s else s
  run_phase timed_out published fresh (timing deadline order) stop s =
      run_timed timed_out deadline order stop s
  run_phase timed_out published fresh (publishing due) stop s =
      run_published published fresh due stop s
  run_phase timed_out published fresh retrying stop s =
      if stop || timed_out then at_phase looping stop s else s
  run_phase timed_out published fresh finished stop s = s

  unfoldable pub m_run :
      (timed_out : Bool)
      → (published : Result PublishResult) → (fresh : ℕ) → Scheduler Payload
      → Scheduler Payload
  unfolding run_phase
  m_run timed_out published fresh s = elim s.worker [
    | none ↦ s
    | some t ↦ run_phase timed_out published fresh t.phase t.stop_requested s
  ]
