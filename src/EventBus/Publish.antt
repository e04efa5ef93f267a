-- ===== src/EventBus/Publish.antt =====
-- `EventBus::publish` and `publish_one` of event_bus.inl.
use yellowstone.Prelude.{
  ℕ, zero, suc, ◌+◌, ◌%◌, ◌^◌, Bool, true, ◌&&◌, none, some, [], ◌∷◌, set, if◌then◌else◌,
}
use yellowstone.Event.{Event}
use yellowstone.Partition.{Partition, inserted, coalesced, full, can_accept, push, pop}
use yellowstone.EventBus.{
  EventBus, Subscribers, Result, ok, err, logic_error, out_of_range, overflow_error, subscriber,
}

pub record PublishResult : Type 0 where
  pub delivered : ℕ
  pub coalesced : ℕ

-- `std::uint64_t` addition of one.
abbrev pub next_u64 : ℕ → ℕ
next_u64 n = (n + 1) % 2 ^ 64

-- What the worker of a subscriber takes from its queue while `publish` runs.
unfoldable pub pop_many {ℓ} : {Payload : Type ℓ} → ℕ → Partition Payload → Partition Payload
unfolding pop
pop_many zero p = p
pop_many (suc n) p = pop_many n (pop p).0

module _ {ℓ} {Payload Handler : Type ℓ} where
  -- The first loop of `publish`.
  unfoldable pub all_accept : Event Payload → Subscribers Payload Handler → Bool
  unfolding can_accept
  all_accept e [] = true
  all_accept e (none ∷ ss) = all_accept e ss
  all_accept e (some s ∷ ss) = can_accept e s.partition && all_accept e ss

  -- The second loop. `consumed id` events leave the queue of `id` between its check and its push,
  -- since the workers do not take the publish lock. An exception of the merger ends the loop.
  unfoldable pub push_all :
      (consumed : ℕ → ℕ)
      → Event Payload
      → Subscribers Payload Handler
      → PublishResult
      → Subscribers Payload Handler × Result PublishResult
  unfolding push pop_many
  push_all consumed e [] r = ([], ok r)
  push_all consumed e (none ∷ ss) r = let (ss', out) = push_all consumed e ss r in (none ∷ ss', out)
  push_all consumed e (some s ∷ ss) r =
      let (p, status) = push e (pop_many (consumed s.id) s.partition) in
      let s' = record s { partition = p } in
      elim status [
        | err exception ↦ (some s' ∷ ss, err exception)
        | ok result ↦ elim result [
          | inserted ↦
              let (ss', out) = push_all consumed e ss (record r { delivered = r.delivered + 1 }) in
              (some s' ∷ ss', out)
          | coalesced ↦
              let (ss', out) =
                push_all consumed e ss
                  (record { delivered = r.delivered + 1; coalesced = r.coalesced + 1 }) in
              (some s' ∷ ss', out)
          | full ↦ (some s' ∷ ss, err logic_error)
        ]
      ]

  unfoldable pub publish :
      (consumed : ℕ → ℕ)
      → (event_id : ℕ) → Payload
      → (superstep : ℕ) → EventBus Payload Handler
      → EventBus Payload Handler × Result PublishResult
  unfolding all_accept push_all
  publish consumed event_id payload superstep b =
      let e : Event Payload = record {
        id = event_id;
        superstep = superstep;
        sequence = b.sequence;
        payload = payload;
      } in
      let counted = record b { sequence = next_u64 b.sequence } in
      let (ss, out) = push_all consumed e b.subscribers (record { delivered = 0; coalesced = 0 }) in
      if all_accept e b.subscribers
      then (record counted { subscribers = ss }, out)
      else (counted, err overflow_error)

  module _ (k_max_subscribers : ℕ) where
    -- `consumed` as in `push_all`.
    unfoldable pub publish_one :
        (consumed : ℕ)
        → (subscriber_id event_id : ℕ) → Payload
        → (superstep : ℕ) → EventBus Payload Handler
        → EventBus Payload Handler × Result PublishResult
    unfolding subscriber can_accept push pop_many
    publish_one consumed subscriber_id event_id payload superstep b =
        let e : Event Payload = record {
          id = event_id;
          superstep = superstep;
          sequence = b.sequence;
          payload = payload;
        } in
        let counted = record b { sequence = next_u64 b.sequence } in
        elim (subscriber k_max_subscribers subscriber_id b) [
          | none ↦ (b, err out_of_range)
          | some s ↦
              let (p, status) = push e (pop_many consumed s.partition) in
              let stored = record counted {
                subscribers = set b.subscribers subscriber_id (some (record s { partition = p }));
              } in
              if can_accept e s.partition
              then elim status [
                | err exception ↦ (stored, err exception)
                | ok result ↦ elim result [
                  | inserted ↦ (stored, ok (record { delivered = 1; coalesced = 0 }))
                  | coalesced ↦ (stored, ok (record { delivered = 1; coalesced = 1 }))
                  | full ↦ (stored, ok (record { delivered = 0; coalesced = 0 }))
                ]
              ]
              else (counted, err overflow_error)
        ]
