-- ===== src/Scheduler/Calls.antt =====
-- The calls of a scheduler's clients keep it well formed: `schedule` and its variants, `start` and
-- `stop`.
use mathlib.Core.List.{Mem, mem-cons_of_mem}
use mathlib.Core.List.Perm
use native.Mathlib.Bridge.{le_prop}
use native.Mathlib.Nat.{mod-add-mod, mod-eq_of_lt}
use yellowstone.Prelude.{
  ℕ, suc, ◌+◌, ◌%◌, ◌^◌, ◌<◌, ◌≤◌, ◌≡◌, ◌⊎◌, ◌∙◌, refl, sym, ap, subst, inl, inr, true, false,
  Option, List, [], ◌∷◌, Perm, arith, length, length-perm, All, All-perm, Bool-cases,
}
use yellowstone.PairingHeap.{Heap, emplace}
use yellowstone.PairingHeap.Operations.{items, handles, emplace_lem}
use yellowstone.EventBus.{Result, ok, err, logic_error}
use yellowstone.EventBus.Publish.{next_u64}
use yellowstone.Prelude.Int.{ℤ}
use yellowstone.Scheduler.{ScheduledItem, EarlierDeadline, Scheduler, m_schedule}
use yellowstone.Scheduler.Invariant.{flight, Ordered, IsScheduler, Observed-mono}

wrap_suc : (n : ℕ) → next_u64 (n % 2 ^ 64) ≡ suc n % 2 ^ 64
wrap_suc n = mod-add-mod n (2 ^ 64) 1 ∙ ap (λ k. k % 2 ^ 64) (omega arith)

next_u64_small : (n : ℕ) → n + 1 < 2 ^ 64 → next_u64 n ≡ n + 1
next_u64_small n h = mod-eq_of_lt h

module _ {ℓ} {Payload : Type ℓ} where
  pub Ordered-prop : (n : ℕ) (i : ScheduledItem Payload) → IsProp (Ordered n i)
  Ordered-prop n i = le_prop

  Ordered-mono :
      (n m : ℕ) (is : List (ScheduledItem Payload))
      → n ≤ m
      → All (Ordered n) is
      → All (Ordered m) is
  Ordered-mono n m [] h o = tt
  Ordered-mono n m (i ∷ is) h o = (omega (arith, o.0), Ordered-mono n m is h o.1)

  abbrev EntryOrdered : ℕ → ℕ × ScheduledItem Payload → Type 0
  EntryOrdered n e = Ordered n (e.1)

  EntryOrdered-mono :
      (n m : ℕ) (es : List (ℕ × ScheduledItem Payload))
      → n ≤ m
      → All (EntryOrdered n) es
      → All (EntryOrdered m) es
  EntryOrdered-mono n m [] h o = tt
  EntryOrdered-mono n m (e ∷ es) h o = (omega (arith, o.0), EntryOrdered-mono n m es h o.1)

  -- An item added to the heap.
  pub entries-emplace :
      (n m fresh : ℕ) (x : ScheduledItem Payload) (h : Heap (ScheduledItem Payload))
      → n ≤ m
      → Ordered m x
      → Perm (items (emplace fresh x h)) ((fresh, x) ∷ items h)
      → All (λ (e : ℕ × ScheduledItem Payload). Ordered n e.1) (items h)
      → All (λ (e : ℕ × ScheduledItem Payload). Ordered m e.1) (items (emplace fresh x h))
  entries-emplace n m fresh x h le new added o =
      All-perm (λ (e : ℕ × ScheduledItem Payload). Ordered-prop m e.1) _ _ (Perm.symm added)
        (new, EntryOrdered-mono n m (items h) le o)

  module _ (fresh : ℕ) (subscriber_id : Option ℕ) (event_id : ℕ) (payload : Payload)
      (forward_at : ℤ) (superstep : ℕ) (s : Scheduler Payload) where
    abbrev pub new_item : ScheduledItem Payload
    new_item = record {
      forward_at = forward_at;
      insertion_order = s.next_insertion_order;
      schedule_id = s.next_schedule_id;
      subscriber_id = subscriber_id;
      event_id = event_id;
      superstep = superstep;
      payload = payload;
    }

    abbrev pub scheduled : Scheduler Payload
    scheduled = record s {
      next_schedule_id = next_u64 s.next_schedule_id;
      next_insertion_order = next_u64 s.next_insertion_order;
      schedule_heap = emplace fresh new_item s.schedule_heap;
      scheduled_events = next_u64 s.scheduled_events;
    }

    scheduled_count :
        (n f g h : ℕ)
        → s.scheduled_events ≡ (n + f + g + h) % 2 ^ 64
        → next_u64 s.scheduled_events ≡ (suc n + f + g + h) % 2 ^ 64
    scheduled_count n f g h e =
        ap next_u64 e ∙ wrap_suc (n + f + g + h) ∙ ap (λ k. k % 2 ^ 64) (omega arith)

    scheduled-IsScheduler :
        IsScheduler s
        → s.next_insertion_order + 1 < 2 ^ 64
        → ¬ Mem fresh (handles s.schedule_heap)
        → IsScheduler scheduled
          × Perm (items scheduled.schedule_heap) ((fresh, new_item) ∷ items s.schedule_heap)
    scheduled-IsScheduler v room new =
        let (w, added) = emplace_lem fresh new_item s.schedule_heap v.heap new in
        let next : next_u64 s.next_insertion_order ≡ s.next_insertion_order + 1 =
          next_u64_small s.next_insertion_order room in
        (
          record {
            heap = w;
            counted =
                scheduled_count (length (items s.schedule_heap)) (length (flight s.worker))
                  s.forwarded_events s.failed_events v.counted
                ∙ ap
                    (λ k.
                      (k + length (flight s.worker) + s.forwarded_events + s.failed_events)
                      % 2 ^ 64)
                    (sym (length-perm _ _ added));
            orders =
                entries-emplace s.next_insertion_order (next_u64 s.next_insertion_order) fresh
                  new_item s.schedule_heap (omega (arith, next)) (omega (arith, next)) added
                  v.orders;
            flight_orders =
                Ordered-mono s.next_insertion_order (next_u64 s.next_insertion_order)
                  (flight s.worker) (omega (arith, next)) v.flight_orders;
            observed =
                Observed-mono s.worker (items s.schedule_heap) _
                  (λ e m. (Perm.mem_iff added).1 (mem-cons_of_mem _ m)) v.observed;
            alive = v.alive;
            gate = v.gate;
          },
          added,
        )

    schedule_closed :
        s.accepting ≡ false
        → m_schedule fresh subscriber_id event_id payload forward_at superstep s
          ≡ (s, err logic_error)
    unfolding m_schedule
    schedule_closed closed = ground arith

    schedule_open :
        s.accepting ≡ true
        → m_schedule fresh subscriber_id event_id payload forward_at superstep s
          ≡ (scheduled, ok s.next_schedule_id)
    unfolding m_schedule
    schedule_open opened = ground arith

    -- What scheduling an event does.
    abbrev pub Schedules : Scheduler Payload × Result ℕ → Type ℓ
    Schedules after =
        ((s.accepting ≡ false) × (after ≡ (s, err logic_error)))
        ⊎ ((s.accepting ≡ true)
            × (after.1 ≡ ok s.next_schedule_id)
            × Perm (items after.0.schedule_heap) ((fresh, new_item) ∷ items s.schedule_heap)
            × (after.0.worker ≡ s.worker))

    -- Scheduling keeps the scheduler well formed, as long as the insertion orders have not run
    -- through 64 bits and the new node has an address of its own. A scheduler that has been told to
    -- stop refuses and is unchanged; otherwise exactly the new item is added, behind every pending
    -- item of its deadline, and its schedule id is returned.
    pub m_schedule-Schedules :
        IsScheduler s
        → s.next_insertion_order + 1 < 2 ^ 64
        → ¬ Mem fresh (handles s.schedule_heap)
        → IsScheduler (m_schedule fresh subscriber_id event_id payload forward_at superstep s).0
          × Schedules (m_schedule fresh subscriber_id event_id payload forward_at superstep s)
    m_schedule-Schedules v room new = elim (Bool-cases s.accepting) [
      | inr closed ↦
          let e = schedule_closed closed in
          (subst (λ r. IsScheduler r.0) (sym e) v, inl (closed, e))
      | inl opened ↦
          let (w, added) = scheduled-IsScheduler v room new in
          subst (λ r. IsScheduler r.0 × Schedules r) (sym (schedule_open opened))
            (w, inr (opened, refl, added, refl))
    ]
