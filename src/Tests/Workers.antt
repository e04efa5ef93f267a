-- ===== src/Tests/Workers.antt =====
-- The theorems on the sequencer, the worker and the context at concrete inputs.
use yellowstone.Prelude.{
  ℕ, ◌+◌, ◌-◌, ◌≤◌, ◌≡◌, refl, arith, Bool, true, false, none, some, List, [], ◌∷◌, ◌++◌,
  if◌then◌else◌,
}
use yellowstone.Prelude.Int.{pos, negsuc, ◌+ℤ◌, ◌-ℤ◌, ◌≤ℤ◌, int_lt}
use yellowstone.Sequencer.{
  Sequencer, Store, new_sequencer, add_gating_sequence, try_next, next, min_gating,
  remaining_capacity,
}
use yellowstone.Sequencer.Capacity.{IsSequencer, claim, Claims, try_next-Claims}
use yellowstone.Sequencer.Spinning.{next-returns}
use yellowstone.Sequencer.Running.{Run, made, attached, claimed, Run-IsSequencer, Run-Bounded}
use yellowstone.Worker.{
  immediate, WorkerEvent, Persistence, Controller, Worker, handle, dispatch, flush, type_eq,
  router_dispatch,
}
use yellowstone.Worker.Routing.{Routed, run_controller, dispatch-handle}
use yellowstone.Worker.Flushing.{Flushes, flush-Flushes, Repeats, flush-Repeats}
use yellowstone.Exchange.Barrier.{Graph}

-- A ring of two places, both claimed; the consumer is at -1.
abbrev behind : Store
behind a = negsuc 0

abbrev attached_sequencer : Sequencer
attached_sequencer = record {
  next_value = negsuc 0;
  cursor = negsuc 0;
  cached_gating = negsuc 0;
  gating = some 0;
}

abbrev full_sequencer : Sequencer
full_sequencer = record attached_sequencer { next_value = pos 1 }

full-Run : Run 2 behind full_sequencer
unfolding add_gating_sequence new_sequencer try_next ◌+ℤ◌ ◌-ℤ◌ int_lt min_gating
full-Run =
    claimed behind (record attached_sequencer { next_value = pos 0 })
      (claimed behind attached_sequencer
        (attached behind new_sequencer 0 (made behind) (omega arith) (omega arith)))

try_next-Claims_example :
    IsSequencer 2 behind (try_next 2 behind full_sequencer).0
    × ((try_next 2 behind full_sequencer).1 ≡ claim 2 behind full_sequencer)
    × Claims 2 behind full_sequencer (try_next 2 behind full_sequencer)
try_next-Claims_example = try_next-Claims 2 behind full_sequencer (Run-IsSequencer 2 full-Run)

Run-Bounded_example :
    (used : ℕ) × (full_sequencer.next_value ≡ min_gating (some 0) behind +ℤ pos used)
    × (used ≤ 2)
    × (remaining_capacity 2 behind full_sequencer ≡ pos (2 - used))
Run-Bounded_example = Run-Bounded 2 behind full_sequencer full-Run

free : full_sequencer.next_value +ℤ pos 1 -ℤ pos 2 ≤ℤ min_gating full_sequencer.gating (λ a. pos 0)
unfolding ◌+ℤ◌ ◌-ℤ◌ min_gating
free = omega arith

next-returns_example :
    (after : Sequencer) × (next 2 (behind ∷ behind ∷ (λ a. pos 0) ∷ []) full_sequencer
      ≡ some (after, full_sequencer.next_value +ℤ pos 1))
    × (after.next_value ≡ full_sequencer.next_value +ℤ pos 1)
    × (after.cursor ≡ full_sequencer.cursor)
next-returns_example = next-returns 2 full_sequencer (behind ∷ behind ∷ []) [] (λ a. pos 0) free

-- A disk whose calls of `store` succeed as listed, and then always.
abbrev Disk : Type 0
Disk = List (ℕ × ℕ) × List Bool

unfoldable store_listed : ℕ → ℕ → Disk → Disk × Bool
store_listed id v (kept, []) = ((kept ++ (id, v) ∷ [], []), true)
store_listed id v (kept, true ∷ outs) = ((kept ++ (id, v) ∷ [], outs), true)
store_listed id v (kept, false ∷ outs) = ((kept, outs), false)

store_listed_done :
    (id v : ℕ) (d : Disk)
    → (store_listed id v d).1 ≡ true
    → (store_listed id v d).0.0 ≡ d.0 ++ (id, v) ∷ []
unfolding store_listed
store_listed_done id v (kept, []) h = refl
store_listed_done id v (kept, true ∷ outs) h = refl
store_listed_done id v (kept, false ∷ outs) h = cc

store_listed_thrown :
    (id v : ℕ) (d : Disk) → (store_listed id v d).1 ≡ false → (store_listed id v d).0.0 ≡ d.0
unfolding store_listed
store_listed_thrown id v (kept, []) h = cc
store_listed_thrown id v (kept, true ∷ outs) h = cc
store_listed_thrown id v (kept, false ∷ outs) h = refl

instance listed : Persistence ℕ Disk
unfolding store_listed
listed = record {
  store = store_listed;
  stored = λ d. d.0;
  store_done = store_listed_done;
  store_thrown = store_listed_thrown;
}

-- Three events pending; the second call of `store` throws.
abbrev worker : Worker ℕ ℕ ℕ Disk
worker = record {
  routes = [];
  pending_events = 10 ∷ 20 ∷ 30 ∷ [];
  next_event_id = 5;
  disk = ([], true ∷ false ∷ []);
}

flush-Flushes_example : Flushes worker (flush true worker)
flush-Flushes_example = flush-Flushes worker

three_left : (flush true worker).pending_events ≡ 10 ∷ 20 ∷ 30 ∷ []
unfolding flush listed
three_left = refl

none_left : (flush true (flush true worker)).pending_events ≡ []
unfolding flush listed
none_left = refl

flush-Repeats_example : Repeats worker (flush true (flush true worker))
flush-Repeats_example = flush-Repeats worker 10 (20 ∷ 30 ∷ []) three_left none_left

abbrev counting : Controller ℕ ℕ ℕ
counting e w = (w + e.body, none)

abbrev event : WorkerEvent ℕ ℕ
event = record { type = immediate; persisted = some 40; body = 2 }

dispatch-handle_example :
    Routed true 4
      (handle immediate (some counting) worker)
      (if type_eq immediate immediate
        then run_controller (some counting) event 7
        else router_dispatch (some event) [] 7)
      (dispatch true 4 (some event) (handle immediate (some counting) worker) 7)
dispatch-handle_example = dispatch-handle true 4 immediate (some counting) event worker 7

abbrev codes : List ℕ
codes = 1 ∷ 2 ∷ 3 ∷ []

abbrev graph : Graph
graph = record { mode = false; superstep = 0; parties = 0; arrived = 0; epoch = 0 }
