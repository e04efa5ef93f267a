-- ===== src/EventBus/PublishOne.antt =====
-- What `publish_one` comes to.
use yellowstone.Prelude.{
  ℕ, ◌<◌, get_elem?, get_elem?-length, ◌≡◌, ◌∙◌, ◌⊎◌, refl, sym, subst, true, false, none, some,
  arith, set, inl, inr, Bool-cases, Option-cases,
}
use yellowstone.Event.{Event}
use yellowstone.Partition.{inserted, coalesced, can_accept, push}
use yellowstone.Partition.Invariant.{IsPartition, push-IsPartition, push_keeps}
use yellowstone.Partition.Refinement.{contents, IsFull, can_accept_refused, can_accept_room}
use yellowstone.EventBus.{
  EventBus, Subscriber, Exception, Result, ok, err, overflow_error, out_of_range, subscriber,
}
use yellowstone.EventBus.Invariant.{
  IsBus, sequence-IsBus, store-IsBus, subscriber-IsEntry, subscriber_found,
}
use yellowstone.EventBus.Publish.{PublishResult, next_u64, pop_many, publish_one}
use yellowstone.EventBus.Delivery.{
  status-cases, outcome_of, pushed-outcome, delivered_to, pushed, pushed_not_full, pushed-contents,
}
use yellowstone.EventBus.Pops.{pop_many-IsPartition, pop_many_keeps}
use yellowstone.EventBus.Outcome.{made_event, counted_up}

module _ {ℓ} {Payload Handler : Type ℓ} (k consumed subscriber_id event_id : ℕ) (payload : Payload)
    (superstep : ℕ) where
  abbrev pub one_event : EventBus Payload Handler → Event Payload
  one_event b = made_event event_id payload superstep b

  -- The bus after a delivery to `s`.
  abbrev pub delivered_one :
      Subscriber Payload Handler → EventBus Payload Handler → EventBus Payload Handler
  delivered_one s b = record (counted_up b) {
    subscribers = set b.subscribers subscriber_id (some (pushed (λ _. consumed) (one_event b) s));
  }

  -- No subscriber stands at the id.
  abbrev pub IsUnknown : EventBus Payload Handler → Type ℓ
  IsUnknown b =
      ¬ ((s : Subscriber Payload Handler) × (get_elem? b.subscribers subscriber_id ≡ some (some s)))

  -- What the result `out` says of the push for `s`.
  abbrev pub Answers :
      EventBus Payload Handler → Subscriber Payload Handler → Result PublishResult → Type 0
  Answers b s out =
      let pushed_one = outcome_of (λ _. consumed) (one_event b) s in
      ((pushed_one ≡ ok inserted) × (out ≡ ok (record { delivered = 1; coalesced = 0 })))
      ⊎ (((pushed_one ≡ ok coalesced) × (out ≡ ok (record { delivered = 1; coalesced = 1 })))
          ⊎ ((exception : Exception) × (pushed_one ≡ err exception) × (out ≡ err exception)))

  -- The results of `publish_one`.
  abbrev pub PublishesOne :
      EventBus Payload Handler → EventBus Payload Handler × Result PublishResult → Type ℓ
  PublishesOne b after =
      (IsUnknown b × (after ≡ (b, err out_of_range)))
      ⊎ ((s : Subscriber Payload Handler) × (get_elem? b.subscribers subscriber_id ≡ some (some s))
          × ((IsFull (one_event b) s.partition × (after ≡ (counted_up b, err overflow_error)))
              ⊎ (¬ IsFull (one_event b) s.partition
                  × (after.0 ≡ delivered_one s b)
                  × (contents (pushed (λ _. consumed) (one_event b) s).partition
                      ≡ delivered_to (λ _. consumed) (one_event b) s)
                  × Answers b s after.1)))

  unknown :
      (b : EventBus Payload Handler) → IsBus k b → subscriber k subscriber_id b ≡ none → IsUnknown b
  unfolding subscriber
  unknown b v missing (s, at) =
      let below : subscriber_id < k =
        subst (λ n. subscriber_id < n) v.sized
          (get_elem?-length b.subscribers subscriber_id (some s) at) in
      absurd (ground arith)

  one_missing :
      (b : EventBus Payload Handler)
      → subscriber k subscriber_id b ≡ none
      → publish_one k consumed subscriber_id event_id payload superstep b ≡ (b, err out_of_range)
  unfolding publish_one
  one_missing b missing = ground arith

  one_refused :
      (b : EventBus Payload Handler) (s : Subscriber Payload Handler)
      → subscriber k subscriber_id b ≡ some s
      → can_accept (one_event b) s.partition ≡ false
      → publish_one k consumed subscriber_id event_id payload superstep b
        ≡ (counted_up b, err overflow_error)
  unfolding publish_one
  one_refused b s found no_room = ground arith

  one_accepted :
      (b : EventBus Payload Handler) (s : Subscriber Payload Handler)
      → subscriber k subscriber_id b ≡ some s
      → can_accept (one_event b) s.partition ≡ true
      → IsPartition s.partition
      → ((publish_one k consumed subscriber_id event_id payload superstep b).0 ≡ delivered_one s b)
        × Answers b s (publish_one k consumed subscriber_id event_id payload superstep b).1
  unfolding publish_one
  one_accepted b s found room v =
      let same = sym (pushed-outcome (λ _. consumed) (one_event b) s v) in
      elim (status-cases (push (one_event b) (pop_many consumed s.partition)).1) [
        | inl x ↦ (
          rw (publish_one, found, room, x) refl,
          inl (same ∙ x, rw (publish_one, found, room, x) refl),
        )
        | inr (inl x) ↦ (
          rw (publish_one, found, room, x) refl,
          inr (inl (same ∙ x, rw (publish_one, found, room, x) refl)),
        )
        | inr (inr (inl x)) ↦ absurd (pushed_not_full (λ _. consumed) (one_event b) s v room x)
        | inr (inr (inr (exception, x))) ↦ (
          rw (publish_one, found, room, x) refl,
          inr (inr (exception, same ∙ x, rw (publish_one, found, room, x) refl)),
        )
      ]

  delivered_one-IsBus :
      (b : EventBus Payload Handler) (s : Subscriber Payload Handler)
      → IsBus k b
      → subscriber k subscriber_id b ≡ some s
      → IsBus k (delivered_one s b)
  delivered_one-IsBus b s v found =
      let entry = subscriber-IsEntry k subscriber_id b s v found in
      let e = one_event b in
      let taken = pop_many-IsPartition consumed s.partition entry.queue in
      let same = pop_many_keeps consumed s.partition in
      let keeps = push_keeps e (pop_many consumed s.partition) in
      sequence-IsBus k (next_u64 b.sequence) _ (
        store-IsBus k subscriber_id b s _ v found (push-IsPartition e _ taken) (keeps.0 ∙ same.0)
          (keeps.1 ∙ same.1))

  -- `publish_one` keeps the bus well formed, also when the worker takes events out meanwhile. Where
  -- no subscriber stands at the id it throws and changes nothing; a queue that is full and has no
  -- event with the same key refuses the event, and only the sequence number has changed; otherwise
  -- that subscriber's queue alone changes, to what pushing the event makes of what its worker has
  -- left, and the call returns one delivery or throws what the merger throws.
  pub publish_one-PublishesOne :
      (b : EventBus Payload Handler)
      → IsBus k b
      → IsBus k (publish_one k consumed subscriber_id event_id payload superstep b).0
        × PublishesOne b (publish_one k consumed subscriber_id event_id payload superstep b)
  publish_one-PublishesOne b v = elim (Option-cases (subscriber k subscriber_id b)) [
    | inl missing ↦
        let same = one_missing b missing in
        (subst (λ r. IsBus k r.0) (sym same) v, inl (unknown b v missing, same))
    | inr (s, found) ↦
        let entry = subscriber-IsEntry k subscriber_id b s v found in
        let at = subscriber_found k subscriber_id b s found in
        elim (Bool-cases (can_accept (one_event b) s.partition)) [
          | inr no_room ↦
              let same = one_refused b s found no_room in
              let full = can_accept_refused (one_event b) s.partition entry.queue no_room in
              (
                subst (λ r. IsBus k r.0) (sym same) (sequence-IsBus k _ b v),
                inr (s, at, inl (full, same)),
              )
          | inl room ↦
              let (same, answer) = one_accepted b s found room entry.queue in
              let space = can_accept_room (one_event b) s.partition entry.queue room in
              let holds = pushed-contents (λ _. consumed) (one_event b) s entry.queue in
              (
                subst (IsBus k) (sym same) (delivered_one-IsBus b s v found),
                inr (s, at, inr (space, same, holds, answer)),
              )
        ]
  ]
