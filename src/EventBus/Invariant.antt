-- ===== src/EventBus/Invariant.antt =====
-- Well-formed buses, and that every method keeps them so.
use yellowstone.Prelude.{
  ℕ, ◌<◌, ◌≡◌, ◌∙◌, refl, sym, ap, subst, some, [], arith, length, get_elem?, set, length-set,
  if◌then◌else◌,
}
use native.Mathlib.Nat.{zero-add}
use yellowstone.Partition.{Partition}
use yellowstone.Partition.Invariant.{IsPartition}
use yellowstone.EventBus.{EventBus, Subscriber, subscriber}
use yellowstone.EventBus.Slots.{
  ids, length-ids, IsEntry, IsSlots, slot-IsEntry, set-IsSlots, occupied, replace-ids,
}

module _ {ℓ} {Payload Handler : Type ℓ} where
  -- The array has its fixed size and each subscriber stands at its id with a well-formed partition;
  -- `subscriber_count` counts them; a running bus has a manager with one worker for each of them,
  -- and a stopped bus has neither.
  pub record IsBus (k_max_subscribers : ℕ) (b : EventBus Payload Handler) : Type ℓ where
    pub slots : IsSlots b.partition_capacity b.merger 0 b.subscribers
    pub sized : length b.subscribers ≡ k_max_subscribers
    pub counted : b.subscriber_count ≡ occupied b.subscribers
    pub positive : 0 < b.partition_capacity
    pub manned : b.workers ≡ (if b.running then ids b.subscribers else [])
    pub managed : b.managed ≡ b.running

  module _ (k : ℕ) where
    -- What `m_subscriber` finds is stored at that id.
    pub subscriber_found :
        (id : ℕ) (b : EventBus Payload Handler) (s : Subscriber Payload Handler)
        → subscriber k id b ≡ some s
        → get_elem? b.subscribers id ≡ some (some s)
    unfolding subscriber
    subscriber_found id b s e = ground arith

    pub subscriber-IsEntry :
        (id : ℕ) (b : EventBus Payload Handler) (s : Subscriber Payload Handler)
        → IsBus k b
        → subscriber k id b ≡ some s
        → IsEntry b.partition_capacity b.merger id s
    subscriber-IsEntry id b s v e =
        subst (λ n. IsEntry b.partition_capacity b.merger n s) (zero-add id)
          (slot-IsEntry b.partition_capacity b.merger 0 id b.subscribers s v.slots
            (subscriber_found id b s e))

    -- A subscriber whose queue has changed, put back at its place.
    pub store-IsBus :
        (id : ℕ) (b : EventBus Payload Handler) (s : Subscriber Payload Handler)
        (p : Partition Payload)
        → IsBus k b
        → subscriber k id b ≡ some s
        → IsPartition p
        → p.capacity ≡ s.partition.capacity
        → p.merger ≡ s.partition.merger
        → IsBus k
            (record b { subscribers = set b.subscribers id (some (record s { partition = p })) })
    store-IsBus id b s p v e w cap mer =
        let entry = subscriber-IsEntry id b s v e in
        let found = subscriber_found id b s e in
        record {
          slots = set-IsSlots b.partition_capacity b.merger 0 id b.subscribers _ v.slots (record {
            placed = entry.placed ∙ sym (zero-add id);
            queue = w;
            capacity_same = cap ∙ entry.capacity_same;
            merger_same = mer ∙ entry.merger_same;
          });
          sized = length-set b.subscribers id _ ∙ v.sized;
          counted =
              v.counted
              ∙ sym (
                  sym (length-ids (set b.subscribers id _))
                  ∙ ap length (replace-ids b.subscribers id s _ found refl)
                  ∙ length-ids b.subscribers);
          positive = v.positive;
          manned =
              v.manned
              ∙ ap (λ xs. if b.running then xs else [])
                  (sym (replace-ids b.subscribers id s _ found refl));
          managed = v.managed;
        }

    -- A bus after a change of its sequence number.
    pub sequence-IsBus :
        (n : ℕ) (b : EventBus Payload Handler) → IsBus k b → IsBus k (record b { sequence = n })
    sequence-IsBus n b v = record {
      slots = v.slots;
      sized = v.sized;
      counted = v.counted;
      positive = v.positive;
      manned = v.manned;
      managed = v.managed;
    }
