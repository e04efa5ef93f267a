-- ===== src/EventBus/Outcome.antt =====
-- What `publish` and `publish_one` come to, also while the workers take events out.
use yellowstone.Prelude.{
  ℕ, ◌≡◌, ◌∙◌, ◌⊎◌, refl, sym, ap, subst, true, false, [], arith, length, inl, inr, Bool-cases,
  if◌then◌else◌,
}
use yellowstone.Event.{Event}
use yellowstone.EventBus.{EventBus, Subscribers, Exception, Result, ok, err, overflow_error}
use yellowstone.EventBus.Slots.{ids, length-ids, IsSlots}
use yellowstone.EventBus.Invariant.{IsBus, sequence-IsBus}
use yellowstone.EventBus.Publish.{PublishResult, next_u64, all_accept, push_all, publish}
use yellowstone.EventBus.Delivery.{
  Delivered, SomeFull, AllTake, Breaks, all_accept_refused, all_accept_room,
}
use yellowstone.EventBus.Fanout.{Comes, push_all-PushesAll}

module _ {ℓ} {Payload Handler : Type ℓ} where
  abbrev pub made_event :
      (event_id : ℕ) → Payload → (superstep : ℕ) → EventBus Payload Handler → Event Payload
  made_event event_id payload superstep b = record {
    id = event_id;
    superstep = superstep;
    sequence = b.sequence;
    payload = payload;
  }

  -- The bus with its sequence number counted up.
  abbrev pub counted_up : EventBus Payload Handler → EventBus Payload Handler
  counted_up b = record b { sequence = next_u64 b.sequence }

module _ {ℓ} {Payload Handler : Type ℓ} (consumed : ℕ → ℕ) (event_id : ℕ) (payload : Payload)
    (superstep : ℕ) where
  -- The three results of `publish`.
  abbrev pub Publishes :
      EventBus Payload Handler → EventBus Payload Handler × Result PublishResult → Type ℓ
  Publishes b after =
      let e = made_event event_id payload superstep b in
      (SomeFull consumed e b.subscribers × (after ≡ (counted_up b, err overflow_error)))
      ⊎ (¬ SomeFull consumed e b.subscribers
          × ((Delivered consumed e b.subscribers after.0.subscribers
                × AllTake consumed e b.subscribers
                × (r : PublishResult) × (after.1 ≡ ok r)
                × (r.delivered ≡ b.subscriber_count))
              ⊎ ((exception : Exception) × (after.1 ≡ err exception)
                  × Breaks consumed e exception b.subscribers after.0.subscribers)))

  publish_refused :
      (b : EventBus Payload Handler)
      → all_accept (made_event event_id payload superstep b) b.subscribers ≡ false
      → publish consumed event_id payload superstep b ≡ (counted_up b, err overflow_error)
  unfolding publish
  publish_refused b h = ground arith

  publish_accepted :
      (b : EventBus Payload Handler)
      → all_accept (made_event event_id payload superstep b) b.subscribers ≡ true
      → let pushes =
          push_all consumed
            (made_event event_id payload superstep b)
            b.subscribers
            (record { delivered = 0; coalesced = 0 }) in
        publish consumed event_id payload superstep b
        ≡ (record (counted_up b) { subscribers = pushes.0 }, pushes.1)
  unfolding publish
  publish_accepted b h = rw h refl

  module _ (k : ℕ) where
    published-IsBus :
        (b : EventBus Payload Handler) (ss : Subscribers Payload Handler)
        → IsBus k b
        → IsSlots b.partition_capacity b.merger 0 ss
        → ids ss ≡ ids b.subscribers
        → length ss ≡ length b.subscribers
        → IsBus k (record (counted_up b) { subscribers = ss })
    published-IsBus b ss v slots same_ids same_length = record {
      slots = slots;
      sized = same_length ∙ v.sized;
      counted =
          v.counted ∙ sym (sym (length-ids ss) ∙ ap length same_ids ∙ length-ids b.subscribers);
      positive = v.positive;
      manned = v.manned ∙ ap (λ xs. if b.running then xs else []) (sym same_ids);
      managed = v.managed;
    }

    -- `publish` keeps the bus well formed, whatever number of events the workers take out meanwhile.
    -- If some queue is full and has no event with the same key, it throws an overflow error and
    -- only the sequence number has changed. Otherwise either every queue holds what pushing the
    -- event makes of what its worker has left there, and `publish` returns normally and counts every
    -- subscriber; or the merger throws for some queue, and `publish` throws the same: that queue and
    -- those of the subscribers before it have had the event, and those behind it are unchanged.
    pub publish-Publishes :
        (b : EventBus Payload Handler)
        → IsBus k b
        → IsBus k (publish consumed event_id payload superstep b).0
          × Publishes b (publish consumed event_id payload superstep b)
    publish-Publishes b v =
        let e = made_event event_id payload superstep b in
        elim (Bool-cases (all_accept e b.subscribers)) [
          | inr no_room ↦
              let same = publish_refused b no_room in
              let full =
                all_accept_refused consumed e b.partition_capacity b.merger 0 b.subscribers v.slots
                  no_room in
              (subst (λ r. IsBus k r.0) (sym same) (sequence-IsBus k _ b v), inl (full, same))
          | inl room ↦
              let done =
                push_all-PushesAll consumed e b.partition_capacity b.merger 0 b.subscribers
                  (record { delivered = 0; coalesced = 0 }) v.slots room in
              let made = published-IsBus b _ v done.slots done.same_ids done.same_length in
              let space =
                all_accept_room consumed e b.partition_capacity b.merger 0 b.subscribers v.slots
                  room in
              subst (λ after. IsBus k after.0 × Publishes b after) (sym (publish_accepted b room))
                (made, inr (space, all_counted v done.comes))
        ]
      where
        all_counted :
            {after : Subscribers Payload Handler × Result PublishResult}
            → IsBus k b
            → Comes consumed
                (made_event event_id payload superstep b)
                b.subscribers
                (record { delivered = 0; coalesced = 0 })
                after
            → (Delivered consumed (made_event event_id payload superstep b) b.subscribers after.0
                × AllTake consumed (made_event event_id payload superstep b) b.subscribers
                × (r : PublishResult) × (after.1 ≡ ok r)
                × (r.delivered ≡ b.subscriber_count))
              ⊎ ((exception : Exception) × (after.1 ≡ err exception)
                  × Breaks consumed
                      (made_event event_id payload superstep b)
                      exception
                      b.subscribers
                      after.0)
        all_counted w (inl (there, take, r, e, total)) =
            inl (there, take, r, e, omega (arith, total, w.counted))
        all_counted w (inr broken) = inr broken
