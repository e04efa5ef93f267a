-- ===== src/EventBus/Delivery.antt =====
-- What the queues hold and answer when an event is pushed to each, and the first loop of `publish`.
use yellowstone.Prelude.{
  ℕ, Bool-cases, false, ◌++◌, ◌+◌, ◌≡◌, ◌≢◌, ◌∙◌, ◌⊎◌, refl, ap, ap₂, true, Option, none, some,
  List, [], ◌∷◌, map, arith, inl, inr,
}
use yellowstone.Event.{Event}
use yellowstone.Partition.{Merger, PushResult, inserted, coalesced, full, can_accept, push}
use yellowstone.Partition.Queue.{queue_push}
use yellowstone.Partition.Invariant.{IsPartition, push-IsPartition, push_keeps}
use yellowstone.Partition.Refinement.{
  contents, push-queue_push, can_accept-push, IsFull, can_accept_refused, can_accept_room,
}
use yellowstone.EventBus.{Subscriber, Subscribers, Exception, Result, ok, err}
use yellowstone.EventBus.Slots.{IsEntry, IsSlots}
use yellowstone.EventBus.Publish.{pop_many, all_accept}
use yellowstone.EventBus.Pops.{
  skip, pop_many-can_accept, pop_many-IsPartition, pop_many_keeps, contents-pop_many,
}

pub status-cases :
    (x : Result PushResult)
    → (x ≡ ok inserted)
      ⊎ ((x ≡ ok coalesced) ⊎ ((x ≡ ok full) ⊎ ((exception : Exception) × (x ≡ err exception))))
status-cases (ok inserted) = inl refl
status-cases (ok coalesced) = inr (inl refl)
status-cases (ok full) = inr (inr (inl refl))
status-cases (err exception) = inr (inr (inr (exception, refl)))

module _ {ℓ} {Payload Handler : Type ℓ} (consumed : ℕ → ℕ) (e : Event Payload) where
  -- What a queue holds when `e` has been pushed behind the pops of its worker.
  abbrev pub delivered_to : Subscriber Payload Handler → List (Event Payload)
  delivered_to s =
      (queue_push s.partition.merger s.partition.capacity e
        (skip (consumed s.id) (contents s.partition))).0

  -- What that push comes to.
  abbrev pub outcome_of : Subscriber Payload Handler → Result PushResult
  outcome_of s =
      (queue_push s.partition.merger s.partition.capacity e
        (skip (consumed s.id) (contents s.partition))).1

  abbrev pub view_of :
      Option (Subscriber Payload Handler) → Option (ℕ × Handler × List (Event Payload))
  view_of none = none
  view_of (some s) = some (s.id, s.handler, contents s.partition)

  abbrev pub delivered_view :
      Option (Subscriber Payload Handler) → Option (ℕ × Handler × List (Event Payload))
  delivered_view none = none
  delivered_view (some s) = some (s.id, s.handler, delivered_to s)

  -- The same subscribers stand at the same places, and each has the event.
  abbrev pub Delivered : (ss ss' : Subscribers Payload Handler) → Type ℓ
  Delivered ss ss' = map view_of ss' ≡ map delivered_view ss

  -- Some queue has as many events as it may have, and none with the key of `e`.
  abbrev pub SomeFull : Subscribers Payload Handler → Type 0
  SomeFull [] = ⊥
  SomeFull (none ∷ ss) = SomeFull ss
  SomeFull (some s ∷ ss) = IsFull e s.partition ⊎ SomeFull ss

  -- The event is inserted or coalesced everywhere.
  abbrev pub AllTake : Subscribers Payload Handler → Type 0
  AllTake [] = Unit
  AllTake (none ∷ ss) = AllTake ss
  AllTake (some s ∷ ss) =
      ((outcome_of s ≡ ok inserted) ⊎ (outcome_of s ≡ ok coalesced)) × AllTake ss

  -- The merger of the queue of `s` throws: that queue and those before it have the event, and those
  -- behind it are as they were.
  pub record Breaks (exception : Exception) (ss ss' : Subscribers Payload Handler) : Type ℓ where
    pub before : Subscribers Payload Handler
    pub broken : Subscriber Payload Handler
    pub behind : Subscribers Payload Handler
    pub split : ss ≡ before ++ some broken ∷ behind
    pub taken : AllTake before
    pub thrown : outcome_of broken ≡ err exception
    pub left :
        map view_of ss'
        ≡ map delivered_view before ++ delivered_view (some broken) ∷ map view_of behind

  -- The subscriber after its worker's pops and the push.
  abbrev pub pushed : Subscriber Payload Handler → Subscriber Payload Handler
  pushed s = record s { partition = (push e (pop_many (consumed s.id) s.partition)).0 }

  pub pushed-IsEntry :
      (capacity : ℕ) (merger : Merger Payload) (id : ℕ) (s : Subscriber Payload Handler)
      → IsEntry capacity merger id s
      → IsEntry capacity merger id (pushed s)
  pushed-IsEntry capacity merger id s v =
      let taken = pop_many-IsPartition (consumed s.id) s.partition v.queue in
      let same = pop_many_keeps (consumed s.id) s.partition in
      let keeps = push_keeps e (pop_many (consumed s.id) s.partition) in
      record {
        placed = v.placed;
        queue = push-IsPartition e _ taken;
        capacity_same = keeps.0 ∙ same.0 ∙ v.capacity_same;
        merger_same = keeps.1 ∙ same.1 ∙ v.merger_same;
      }

  pub pushed-contents :
      (s : Subscriber Payload Handler)
      → IsPartition s.partition
      → contents (pushed s).partition ≡ delivered_to s
  pushed-contents s v =
      let p = pop_many (consumed s.id) s.partition in
      let same = pop_many_keeps (consumed s.id) s.partition in
      ap (λ r. r.0) (push-queue_push e p (pop_many-IsPartition (consumed s.id) s.partition v))
      ∙ ap₂ (λ m c. (queue_push m c e (contents p)).0) same.1 same.0
      ∙ ap (λ es. (queue_push s.partition.merger s.partition.capacity e es).0)
          (contents-pop_many (consumed s.id) s.partition v)

  pub pushed-outcome :
      (s : Subscriber Payload Handler)
      → IsPartition s.partition
      → (push e (pop_many (consumed s.id) s.partition)).1 ≡ outcome_of s
  pushed-outcome s v =
      let p = pop_many (consumed s.id) s.partition in
      let same = pop_many_keeps (consumed s.id) s.partition in
      ap (λ r. r.1) (push-queue_push e p (pop_many-IsPartition (consumed s.id) s.partition v))
      ∙ ap₂ (λ m c. (queue_push m c e (contents p)).1) same.1 same.0
      ∙ ap (λ es. (queue_push s.partition.merger s.partition.capacity e es).1)
          (contents-pop_many (consumed s.id) s.partition v)

  -- The second loop finds no full queue: what the first has checked still holds.
  pub pushed_not_full :
      (s : Subscriber Payload Handler)
      → IsPartition s.partition
      → can_accept e s.partition ≡ true
      → (push e (pop_many (consumed s.id) s.partition)).1 ≢ ok full
  pushed_not_full s v h =
      (can_accept-push e (pop_many (consumed s.id) s.partition)
          (pop_many-IsPartition (consumed s.id) s.partition v)).0
        (pop_many-can_accept e (consumed s.id) s.partition v h)

  module _ (capacity : ℕ) (merger : Merger Payload) where
    -- The first loop looks for a full queue.
    pub all_accept_refused :
        (id : ℕ) (ss : Subscribers Payload Handler)
        → IsSlots capacity merger id ss
        → all_accept e ss ≡ false
        → SomeFull ss
    unfolding all_accept
    all_accept_refused id [] v h = absurd cc
    all_accept_refused id (none ∷ ss) v h = all_accept_refused (id + 1) ss v h
    all_accept_refused id (some s ∷ ss) v h = elim (Bool-cases (can_accept e s.partition)) [
      | inr no_room ↦ inl (can_accept_refused e s.partition v.0.queue no_room)
      | inl room ↦ inr (all_accept_refused (id + 1) ss v.1 (ground arith))
    ]

    pub all_accept_room :
        (id : ℕ) (ss : Subscribers Payload Handler)
        → IsSlots capacity merger id ss
        → all_accept e ss ≡ true
        → ¬ SomeFull ss
    unfolding all_accept
    all_accept_room id [] v h impossible = impossible
    all_accept_room id (none ∷ ss) v h later = all_accept_room (id + 1) ss v h later
    all_accept_room id (some s ∷ ss) v h (inl here) =
        can_accept_room e s.partition v.0.queue (ground arith) here
    all_accept_room id (some s ∷ ss) v h (inr later) =
        all_accept_room (id + 1) ss v.1 (ground arith) later
