-- ===== src/Scheduler/Invariant.antt =====
-- Well-formed schedulers.
use mathlib.Core.List.{Mem}
use native.Mathlib.Nat.{mod-add-mod}
use yellowstone.Prelude.{
  ℕ, ◌+◌, ◌%◌, ◌^◌, ◌<◌, ◌≡◌, ◌∙◌, sym, ap, subst, Bool, false, not, Option, none, some, List, [],
  ◌∷◌, arith, length, All, is_some,
}
use yellowstone.PairingHeap.Operations.{items, IsHeap}
use yellowstone.EventBus.Publish.{next_u64}
use yellowstone.Scheduler.{
  ScheduledItem, EarlierDeadline, Phase, looping, waiting, timing, publishing, retrying, finished,
  Thread, Scheduler,
}
use yellowstone.Scheduler.Run.{at_phase}

module _ {ℓ} {Payload : Type ℓ} where
  -- The items that are out of the heap and not yet settled.
  abbrev pub phase_flight : Phase Payload → List (ScheduledItem Payload)
  phase_flight looping = []
  phase_flight waiting = []
  phase_flight (timing d o) = []
  phase_flight (publishing due) = due ∷ []
  phase_flight retrying = []
  phase_flight finished = []

  abbrev pub flight : Option (Thread Payload) → List (ScheduledItem Payload)
  flight none = []
  flight (some t) = phase_flight t.phase

  -- The deadline and the insertion order that the thread has observed are those of a pending item.
  abbrev pub PhaseObserved : Phase Payload → List (ℕ × ScheduledItem Payload) → Type ℓ
  PhaseObserved looping es = Unit
  PhaseObserved waiting es = Unit
  PhaseObserved (timing d o) es =
      (j : ℕ) × (i : ScheduledItem Payload) × Mem (j, i) es
      × (i.forward_at ≡ d)
      × (i.insertion_order ≡ o)
  PhaseObserved (publishing due) es = Unit
  PhaseObserved retrying es = Unit
  PhaseObserved finished es = Unit

  abbrev pub Observed : Option (Thread Payload) → List (ℕ × ScheduledItem Payload) → Type ℓ
  Observed none es = Unit
  Observed (some t) es = PhaseObserved t.phase es

  abbrev pub is_open : Option (Thread Payload) → Bool
  is_open none = false
  is_open (some t) = not t.stop_requested

  abbrev pub Ordered : ℕ → ScheduledItem Payload → Type 0
  Ordered next i = i.insertion_order < next

  -- The heap is well formed; every event that was scheduled is pending, in flight, forwarded or
  -- failed, as the counters count modulo 2^64; insertion orders are below the next one; the thread
  -- times a pending item; there is a thread exactly while the scheduler runs, and events are
  -- accepted exactly while it has not been told to stop.
  pub record IsScheduler (s : Scheduler Payload) : Type ℓ where
    pub heap : IsHeap s.schedule_heap
    pub counted :
        s.scheduled_events
        ≡ (length (items s.schedule_heap)
            + length (flight s.worker)
            + s.forwarded_events
            + s.failed_events)
          % 2 ^ 64
    pub orders :
        All
          (λ (e : ℕ × ScheduledItem Payload). Ordered s.next_insertion_order e.1)
          (items s.schedule_heap)
    pub flight_orders : All (Ordered s.next_insertion_order) (flight s.worker)
    pub observed : Observed s.worker (items s.schedule_heap)
    pub alive : s.running ≡ is_some s.worker
    pub gate : s.accepting ≡ is_open s.worker

  PhaseObserved-perm :
      (p : Phase Payload) (es fs : List (ℕ × ScheduledItem Payload))
      → ((e : ℕ × ScheduledItem Payload) → Mem e es → Mem e fs)
      → PhaseObserved p es
      → PhaseObserved p fs
  PhaseObserved-perm looping es fs sub o = tt
  PhaseObserved-perm waiting es fs sub o = tt
  PhaseObserved-perm (timing d n) es fs sub (j, i, m, at, ord) = (j, i, sub (j, i) m, at, ord)
  PhaseObserved-perm (publishing due) es fs sub o = tt
  PhaseObserved-perm retrying es fs sub o = tt
  PhaseObserved-perm finished es fs sub o = tt

  -- What has been observed is still pending when items are added.
  pub Observed-mono :
      (w : Option (Thread Payload)) (es fs : List (ℕ × ScheduledItem Payload))
      → ((e : ℕ × ScheduledItem Payload) → Mem e es → Mem e fs)
      → Observed w es
      → Observed w fs
  Observed-mono none es fs sub o = tt
  Observed-mono (some t) es fs sub o = PhaseObserved-perm t.phase es fs sub o

  -- A change of the phase that keeps what is in flight.
  pub at_phase-IsScheduler :
      (p q : Phase Payload) (stop : Bool) (s : Scheduler Payload)
      → s.worker ≡ some (record { phase = p; stop_requested = stop })
      → phase_flight q ≡ phase_flight p
      → PhaseObserved q (items s.schedule_heap)
      → IsScheduler s
      → IsScheduler (at_phase q stop s)
  at_phase-IsScheduler p q stop s here same o v =
      let fly : phase_flight q ≡ flight s.worker = same ∙ sym (ap flight here) in
      record {
        heap = v.heap;
        counted =
            v.counted
            ∙ ap
                (λ fs.
                  (length (items s.schedule_heap)
                    + length fs
                    + s.forwarded_events
                    + s.failed_events)
                  % 2 ^ 64)
                (sym fly);
        orders = v.orders;
        flight_orders = subst (All (Ordered s.next_insertion_order)) (sym fly) v.flight_orders;
        observed = o;
        alive = v.alive ∙ ap is_some here;
        gate = v.gate ∙ ap is_open here;
      }

-- Counting up a counter of 64 bits counts up what it stands for.
pub next_u64-wrap : (a b : ℕ) → (a + next_u64 b) % 2 ^ 64 ≡ (a + b + 1) % 2 ^ 64
next_u64-wrap a b = wrap (2 ^ 64)
  where
    wrap : (m : ℕ) → (a + (b + 1) % m) % m ≡ (a + b + 1) % m
    wrap m = ap (λ n. n % m) (the_sum m) ∙ mod-add-mod (b + 1) m a ∙ ap (λ n. n % m) (omega arith)
      where
        the_sum : (m : ℕ) → a + (b + 1) % m ≡ (b + 1) % m + a
        the_sum m = omega arith
