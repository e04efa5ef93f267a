-- ===== src/Tests/Schedulers.antt =====
-- A scheduler with one event for the tick 100.
use mathlib.Core.List.{Mem, mem-cons_self, not-mem-nil}
use yellowstone.Prelude.{ℕ, ◌+◌, ◌<◌, ◌^◌, ◌≡◌, refl, Bool, true, false, none, some, [], ◌∷◌, arith}
use yellowstone.Tests.Heaps.{All-apart}
use yellowstone.PairingHeap.{emplace, meld_nodes, empty_heap}
use yellowstone.PairingHeap.Operations.{items, handles}
use yellowstone.EventBus.{Result, err, overflow_error}
use yellowstone.EventBus.Publish.{PublishResult}
use yellowstone.Scheduler.Wake.{run_timed-m_schedule}
use yellowstone.Prelude.Int.{int_eq, int_lt, pos}
use yellowstone.Scheduler.Time.{later}
use yellowstone.Scheduler.{
  ScheduledItem, EarlierDeadline, timing, looping, publishing, Scheduler, new_scheduler, start,
  request_stop, join, m_schedule,
}
use yellowstone.Scheduler.Run.{run_timed, m_run, at_phase}
use yellowstone.Scheduler.Invariant.{PhaseObserved, IsScheduler}
use yellowstone.Scheduler.Deadline.{Times, run_timed-Times}
use yellowstone.Scheduler.Calls.{Schedules, m_schedule-Schedules}
use yellowstone.Scheduler.Steps.{m_run-IsScheduler}
use yellowstone.Scheduler.Stopping.{Launches, start-Launches}
use yellowstone.Scheduler.Construction.{new_scheduler-IsScheduler}
use yellowstone.Scheduler.Termination.{run_steps, stop-returns}

abbrev s0 : Scheduler ℕ
s0 = new_scheduler (pos 1000000) false

s0-IsScheduler : IsScheduler s0
s0-IsScheduler = new_scheduler-IsScheduler (pos 1000000) false

abbrev s1 : Scheduler ℕ
s1 = (start none s0).0

s1-IsScheduler : IsScheduler s1
s1-IsScheduler = (start-Launches none s0 s0-IsScheduler).0

s1_room : s1.next_insertion_order + 1 < 2 ^ 64
unfolding start new_scheduler
s1_room = omega arith

s1_new : ¬ Mem 16 (handles s1.schedule_heap)
unfolding start new_scheduler empty_heap
s1_new = λ m. not-mem-nil m

abbrev s2 : Scheduler ℕ
s2 = (m_schedule 16 none 5 40 (pos 100) 0 s1).0

s2-IsScheduler : IsScheduler s2
s2-IsScheduler = (m_schedule-Schedules 16 none 5 40 (pos 100) 0 s1 s1-IsScheduler s1_room s1_new).0

start-Launches_example : IsScheduler s1 × Launches none s0 (start none s0)
start-Launches_example = start-Launches none s0 s0-IsScheduler

m_schedule-Schedules_example :
    IsScheduler s2 × Schedules 16 none 5 40 (pos 100) 0 s1 (m_schedule 16 none 5 40 (pos 100) 0 s1)
m_schedule-Schedules_example =
    m_schedule-Schedules 16 none 5 40 (pos 100) 0 s1 s1-IsScheduler s1_room s1_new

abbrev published : Result PublishResult
published = err overflow_error

s2_handles : handles s2.schedule_heap ≡ 16 ∷ []
unfolding m_schedule start new_scheduler emplace meld_nodes empty_heap
s2_handles = refl

s2_new : ¬ Mem 17 (handles s2.schedule_heap)
s2_new = rw s2_handles (All-apart 17 (16 ∷ []) (omega arith, tt))

m_run-IsScheduler_example : IsScheduler (m_run false published 17 s2)
m_run-IsScheduler_example = m_run-IsScheduler false published 17 s2 s2-IsScheduler s2_new

abbrev the_item : ScheduledItem ℕ
the_item = record {
  forward_at = pos 100;
  insertion_order = 0;
  schedule_id = 1;
  subscriber_id = none;
  event_id = 5;
  superstep = 0;
  payload = 40;
}

s2_observed : PhaseObserved (timing (pos 100) 0) (items s2.schedule_heap)
unfolding m_schedule start new_scheduler emplace meld_nodes empty_heap
s2_observed = (16, the_item, mem-cons_self, refl, refl)

run_timed-Times_example : Times true (pos 100) 0 false s2 (run_timed true (pos 100) 0 false s2)
run_timed-Times_example = run_timed-Times true (pos 100) 0 false s2 s2-IsScheduler.heap s2_observed

abbrev never : ℕ → Bool
never n = false

abbrev overflows : ℕ → Result PublishResult
overflows n = published

abbrev addresses : ℕ → ℕ
addresses n = 17 + n

stop-returns_example :
    (after : Scheduler ℕ) × (join (run_steps 3 never overflows addresses (request_stop s2))
      ≡ some after)
    × (after.running ≡ false)
    × (after.worker ≡ none)
stop-returns_example = stop-returns never overflows addresses s2

abbrev delivered : PublishResult
delivered = record { delivered = 1; coalesced = 0 }

abbrev nobody_pops : ℕ → ℕ
nobody_pops id = 0

abbrev s4 : Scheduler ℕ
s4 = at_phase (publishing the_item) false s1

s2_room : s2.next_insertion_order + 1 < 2 ^ 64
unfolding m_schedule start new_scheduler
s2_room = omega arith

s2_open : s2.accepting ≡ true
unfolding m_schedule start new_scheduler
s2_open = refl

earlier : later (pos 100) 0 (pos 50) s2.next_insertion_order ≡ true
unfolding m_schedule start new_scheduler later int_eq int_lt
earlier = refl

run_timed-m_schedule_example :
    run_timed false (pos 100) 0 false (m_schedule 17 none 6 41 (pos 50) 0 s2).0
    ≡ at_phase looping false (m_schedule 17 none 6 41 (pos 50) 0 s2).0
run_timed-m_schedule_example =
    run_timed-m_schedule false (pos 100) 0 17 none 6 41 (pos 50) 0 s2 s2-IsScheduler s2_room s2_new
      s2_open earlier
