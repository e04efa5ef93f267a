-- ===== src/Scheduler.antt =====
-- include/yellowstone/scheduler.hpp and scheduler.inl: events published at deadlines.
--
-- The heap is the pairing heap of the other component. The timing thread is a phase, the place of
-- `m_run` where it stands, and whether a stop has been requested; what it needs of the clock, of the
-- event bus and of the allocator are arguments of its steps.
pub mod Time
pub mod Run
pub mod Invariant
pub mod Overtaking
pub mod Deadline
pub mod Calls
pub mod Settling
pub mod Steps
pub mod Stopping
pub mod Construction
pub mod Termination
pub mod Wake
pub mod Forwarding
pub mod Sequence
use mathlib.Core.Option
use yellowstone.Prelude.{
  ℕ, ◌+◌, ◌%◌, ◌^◌, ◌≡◌, Bool, true, false, not, ◌||◌, ◌&&◌, Option, none, some, if◌then◌else◌, ltb,
  ◌==◌,
}
use yellowstone.PairingHeap.{Compare, Heap, emplace, empty_heap, is_empty, top}
use yellowstone.PairingHeap
use yellowstone.EventBus.{EventBus, Exception, Result, ok, err, invalid_argument, logic_error}
use yellowstone.EventBus.Publish.{PublishResult, next_u64, publish, publish_one}
use yellowstone.Prelude.Int.{ℤ, pos, negsuc, int_eq, int_lt}
use yellowstone.Scheduler.Time.{later, later-asym, later-neg_trans}

pub record ScheduledItem {ℓ} (Payload : Type ℓ) : Type ℓ where
  pub forward_at : ℤ
  pub insertion_order : ℕ
  pub schedule_id : ℕ
  pub subscriber_id : Option ℕ
  pub event_id : ℕ
  pub superstep : ℕ
  pub payload : Payload

-- `EarlierDeadline`, the comparator of the heap.
unfoldable pub earlier_deadline {ℓ} :
    {Payload : Type ℓ} → ScheduledItem Payload → ScheduledItem Payload → Bool
unfolding later
earlier_deadline lhs rhs =
    later lhs.forward_at lhs.insertion_order rhs.forward_at rhs.insertion_order

instance unfoldable pub EarlierDeadline {ℓ} : {Payload : Type ℓ} → Compare (ScheduledItem Payload)
unfolding earlier_deadline
EarlierDeadline = record {
  before = earlier_deadline;
  asym = λ a b. later-asym a.forward_at a.insertion_order b.forward_at b.insertion_order;
  neg_trans = λ a b c.
      later-neg_trans a.forward_at a.insertion_order b.forward_at b.insertion_order c.forward_at
        c.insertion_order;
}

-- Where the timing thread stands in `m_run`: at the head of the loop, in the wait for an item, in
-- the wait until a deadline, behind the extraction without the lock, in the wait before a retry,
-- and behind the loop.
pub data Phase {ℓ} (Payload : Type ℓ) : Type ℓ where
  looping : Phase Payload
  waiting : Phase Payload
  timing : ℤ → ℕ → Phase Payload
  publishing : ScheduledItem Payload → Phase Payload
  retrying : Phase Payload
  finished : Phase Payload

pub record Thread {ℓ} (Payload : Type ℓ) : Type ℓ where
  pub phase : Phase Payload
  pub stop_requested : Bool

-- `worker` is the thread of `m_worker`, if it is joinable.
pub record Scheduler {ℓ} (Payload : Type ℓ) : Type ℓ where
  pub retry_delay : ℤ
  pub error_handler : Bool
  pub schedule_heap : Heap (ScheduledItem Payload)
  pub worker : Option (Thread Payload)
  pub accepting : Bool
  pub next_insertion_order : ℕ
  pub next_schedule_id : ℕ
  pub running : Bool
  pub scheduled_events : ℕ
  pub forwarded_events : ℕ
  pub failed_events : ℕ

-- `duration_cast` is the one of the standard library, from nanoseconds to clock ticks.
unfoldable pub m_to_time_point : (duration_cast : ℤ → ℤ) → ℤ → ℤ
m_to_time_point duration_cast unix_nanoseconds = duration_cast unix_nanoseconds

module _ {ℓ} {Payload : Type ℓ} where
  -- The members before the constructor's body.
  unfoldable pub new_scheduler : ℤ → (error_handler : Bool) → Scheduler Payload
  unfolding empty_heap
  new_scheduler retry_delay error_handler = record {
    retry_delay = retry_delay;
    error_handler = error_handler;
    schedule_heap = empty_heap;
    worker = none;
    accepting = false;
    next_insertion_order = 0;
    next_schedule_id = 1;
    running = false;
    scheduled_events = 0;
    forwarded_events = 0;
    failed_events = 0;
  }

  -- `launched` is what the constructor of the thread throws, if anything.
  unfoldable pub start :
      (launched : Option Exception) → Scheduler Payload → Scheduler Payload × Result (Unit {0})
  start launched s = if s.running then (s, ok tt) else elim launched [
    | none ↦ (
      record s {
        accepting = true;
        running = true;
        worker = some (record { phase = looping; stop_requested = false });
      },
      ok tt,
    )
    | some e ↦ (record s { accepting = false; running = false }, err e)
  ]

  unfoldable pub make_scheduler :
      (launched : Option Exception) → ℤ → (error_handler : Bool) → Result (Scheduler Payload)
  unfolding new_scheduler start int_lt
  make_scheduler launched retry_delay error_handler =
      if not (int_lt (pos 0) retry_delay)
      then err invalid_argument
      else let (s, out) = start launched (new_scheduler retry_delay error_handler) in
        elim out [ ok _ ↦ ok s | err e ↦ err e ]

  -- `stop` until it joins the thread.
  unfoldable pub request_stop : Scheduler Payload → Scheduler Payload
  request_stop s = record s {
    accepting = false;
    worker = Option.map (λ (t : Thread Payload). record t { stop_requested = true }) s.worker;
  }

  is_finished : Phase Payload → Bool
  is_finished looping = false
  is_finished waiting = false
  is_finished (timing d o) = false
  is_finished (publishing i) = false
  is_finished retrying = false
  is_finished finished = true

  -- The rest of `stop`: `none` while the thread that is joined has not ended.
  unfoldable pub join : Scheduler Payload → Option (Scheduler Payload)
  unfolding is_finished
  join s = elim s.worker [
    | none ↦ some (record s { running = false })
    | some t ↦
        if is_finished t.phase then some (record s { running = false; worker = none }) else none
  ]

  -- `m_schedule`, with the address of the new node.
  unfoldable pub m_schedule :
      (fresh : ℕ)
      → (subscriber_id : Option ℕ) → (event_id : ℕ) → Payload
      → (forward_at : ℤ) → (superstep : ℕ) → Scheduler Payload
      → Scheduler Payload × Result ℕ
  unfolding emplace earlier_deadline
  m_schedule fresh subscriber_id event_id payload forward_at superstep s =
      if not s.accepting then (s, err logic_error) else (
        record s {
          next_schedule_id = next_u64 s.next_schedule_id;
          next_insertion_order = next_u64 s.next_insertion_order;
          schedule_heap =
              emplace fresh
                (record {
                  forward_at = forward_at;
                  insertion_order = s.next_insertion_order;
                  schedule_id = s.next_schedule_id;
                  subscriber_id = subscriber_id;
                  event_id = event_id;
                  superstep = superstep;
                  payload = payload;
                })
                s.schedule_heap;
          scheduled_events = next_u64 s.scheduled_events;
        },
        ok s.next_schedule_id,
      )

  unfoldable pub schedule :
      (fresh event_id : ℕ)
      → Payload
      → (forward_at : ℤ) → (superstep : ℕ) → Scheduler Payload
      → Scheduler Payload × Result ℕ
  unfolding m_schedule
  schedule fresh event_id payload forward_at superstep s =
      m_schedule fresh none event_id payload forward_at superstep s

  unfoldable pub schedule_one :
      (fresh subscriber_id event_id : ℕ)
      → Payload
      → (forward_at : ℤ) → (superstep : ℕ) → Scheduler Payload
      → Scheduler Payload × Result ℕ
  unfolding m_schedule
  schedule_one fresh subscriber_id event_id payload forward_at superstep s =
      m_schedule fresh (some subscriber_id) event_id payload forward_at superstep s

  module _ (duration_cast : ℤ → ℤ) where
    unfoldable pub schedule_at_unix_nanoseconds :
        (fresh event_id : ℕ)
        → Payload
        → (nanoseconds : ℤ) → (superstep : ℕ) → Scheduler Payload
        → Scheduler Payload × Result ℕ
    unfolding schedule m_to_time_point int_lt
    schedule_at_unix_nanoseconds fresh event_id payload nanoseconds superstep s =
        if not (int_lt (pos 0) nanoseconds)
        then (s, err invalid_argument)
        else schedule fresh event_id payload (m_to_time_point duration_cast nanoseconds) superstep s

    unfoldable pub schedule_one_at_unix_nanoseconds :
        (fresh subscriber_id event_id : ℕ)
        → Payload
        → (nanoseconds : ℤ) → (superstep : ℕ) → Scheduler Payload
        → Scheduler Payload × Result ℕ
    unfolding schedule_one m_to_time_point int_lt
    schedule_one_at_unix_nanoseconds fresh subscriber_id event_id payload nanoseconds superstep s =
        if not (int_lt (pos 0) nanoseconds)
        then (s, err invalid_argument)
        else schedule_one fresh subscriber_id event_id payload
            (m_to_time_point duration_cast nanoseconds) superstep s
