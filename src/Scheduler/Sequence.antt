-- ===== src/Scheduler/Sequence.antt =====
-- A scheduler whose deadlines have all passed, over a bus that accepts everything.
use yellowstone.Prelude.{ℕ, zero, suc, ◌≡◌, true, false, List, [], ◌++◌}
use yellowstone.PairingHeap.{Heap, Chain, null, node, extract_top, top, is_empty}
use yellowstone.PairingHeap
use yellowstone.EventBus.{ok}
use yellowstone.EventBus.Publish.{PublishResult, next_u64}
use yellowstone.Scheduler.{ScheduledItem, EarlierDeadline, looping, timing, publishing, Scheduler}
use yellowstone.Scheduler.Run.{at_phase, m_run}
use yellowstone.Scheduler.Invariant.{flight}
use yellowstone.Scheduler.Settling.{StandsAt}

module _ {ℓ} {Payload : Type ℓ} (result : PublishResult) (fresh : ℕ) where
  -- A step of the thread that finds its deadline passed and its event accepted.
  unfoldable pub prompt_step : Scheduler Payload → Scheduler Payload
  unfolding m_run
  prompt_step s = m_run true (ok result) fresh s

  -- `n` rounds of three steps: the items that were published, in order, and the scheduler then.
  unfoldable pub prompt_rounds :
      ℕ → Scheduler Payload → List (ScheduledItem Payload) × Scheduler Payload
  unfolding prompt_step
  prompt_rounds zero s = ([], s)
  prompt_rounds (suc n) s =
      let timed = prompt_step s in
      let taken = prompt_step timed in
      let (later_items, end) = prompt_rounds n (prompt_step taken) in
      (flight taken.worker ++ later_items, end)

  module _ (s : Scheduler Payload) (x : ScheduledItem Payload) (h' : Heap (ScheduledItem Payload))
      (here : StandsAt looping false s)
      (e : extract_top s.schedule_heap ≡ PairingHeap.ok (x, h')) where
    abbrev timed : Scheduler Payload
    timed = at_phase (timing x.forward_at x.insertion_order) false s

    abbrev taken : Scheduler Payload
    taken = at_phase (publishing x) false (record s { schedule_heap = h' })

    abbrev forwarded : Scheduler Payload
    forwarded =
        at_phase looping false
          (record s { schedule_heap = h'; forwarded_events = next_u64 s.forwarded_events })
