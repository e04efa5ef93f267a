-- ===== src/Scheduler/Wake.antt =====
-- An event with an earlier deadline ends the timed wait.
use mathlib.Core.List.{Mem, mem-cons_self}
use mathlib.Core.List.Perm
use yellowstone.Prelude.{ℕ, Bool, refl, ◌+◌, ◌^◌, ◌<◌, ◌≡◌, ◌∙◌, sym, inl, inr, true, false, Option}
use yellowstone.PairingHeap.Operations.{handles}
use yellowstone.Prelude.Int.{ℤ}
use yellowstone.Scheduler.Time.{later}
use yellowstone.Scheduler.{EarlierDeadline, Scheduler, looping, m_schedule}
use yellowstone.Scheduler.Run.{m_root_changed, run_timed, at_phase}
use yellowstone.Scheduler.Invariant.{IsScheduler}
use yellowstone.Scheduler.Overtaking.{root_changed-Mem}
use yellowstone.Scheduler.Calls.{m_schedule-Schedules}

module _ {ℓ} {Payload : Type ℓ} where
  run_timed-overtaken :
      (timed_out : Bool) (deadline : ℤ) (order : ℕ) (s : Scheduler Payload)
      → m_root_changed deadline order s.schedule_heap ≡ true
      → run_timed timed_out deadline order false s ≡ at_phase looping false s
  unfolding run_timed
  run_timed-overtaken timed_out deadline order s changed = rw changed refl

  -- Scheduling an event on an open, well-formed scheduler, with a new node address and insertion
  -- orders below 2^64, ends every timed wait that the event precedes, whether it has timed out or
  -- not: the next look at the wait, without a stop, sends the thread back to the head of its loop.
  pub run_timed-m_schedule :
      (timed_out : Bool) (deadline : ℤ) (order fresh : ℕ) (subscriber_id : Option ℕ) (event_id : ℕ)
      (payload : Payload) (forward_at : ℤ) (superstep : ℕ) (s : Scheduler Payload)
      → IsScheduler s
      → s.next_insertion_order + 1 < 2 ^ 64
      → ¬ Mem fresh (handles s.schedule_heap)
      → s.accepting ≡ true
      → later deadline order forward_at s.next_insertion_order ≡ true
      → run_timed timed_out deadline order false
          (m_schedule fresh subscriber_id event_id payload forward_at superstep s).0
        ≡ at_phase looping false
            (m_schedule fresh subscriber_id event_id payload forward_at superstep s).0
  run_timed-m_schedule timed_out deadline order fresh subscriber_id event_id payload forward_at
        superstep s v room new opened before =
      let (w, out) =
        m_schedule-Schedules fresh subscriber_id event_id payload forward_at superstep s v room
          new in
      elim out [
        | inl (closed, _) ↦ let clash : true ≡ false = sym opened ∙ closed in absurd cc
        | inr (_, _, added, _) ↦ run_timed-overtaken timed_out deadline order _ (
            root_changed-Mem deadline order _ fresh _ w.heap ((Perm.mem_iff added).1 mem-cons_self)
              before)
      ]
