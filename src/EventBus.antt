-- ===== src/EventBus.antt =====
-- include/yellowstone/event_bus.hpp and event_bus.inl: subscribers with a partition each, fan-out,
-- and the life cycle.
--
-- A method returns the new bus and its result, or the exception that it throws: the bus may have
-- changed before a throw. A handler is a value of the type `Handler`; whether a call of it throws
-- is an argument. `k_max_subscribers` is a constant of Phelps, the worker library, and so a
-- parameter; what its manager does with the workers is the argument `launch`.
pub mod Slots
pub mod Invariant
pub mod Construction
pub mod Subscription
pub mod Publish
pub mod Lifecycle
pub mod Calls
pub mod Pops
pub mod Delivery
pub mod Fanout
pub mod RoundTrip
pub mod Outcome
pub mod PublishOne
pub mod Consumption
use mathlib.Core.Option
use yellowstone.Prelude.{
  ℕ, suc, ◌+◌, ◌-◌, ◌%◌, ◌^◌, Bool, true, false, ◌||◌, ◌&&◌, not, Option, none, some, List, [], ◌∷◌,
  map, leb, is_some, get_elem?, set, replicate, if◌then◌else◌, zero, ◌==◌,
}
use yellowstone.Event.{Event}
pub use yellowstone.Exceptions.{
  Exception, invalid_argument, logic_error, length_error, out_of_range, overflow_error, other_error,
  Result, ok, err,
}
use yellowstone.Partition.{
  Merger, Partition, PushResult, inserted, coalesced, full, make_partition, can_accept, push, pop,
  wait_pop_for,
}

pub record Subscriber {ℓ} (Payload Handler : Type ℓ) : Type ℓ where
  pub id : ℕ
  pub handler : Handler
  pub partition : Partition Payload

abbrev pub Subscribers {ℓ} : (Payload Handler : Type ℓ) → Type ℓ
Subscribers Payload Handler = List (Option (Subscriber Payload Handler))

-- `workers` holds the subscriber id of each registered worker, `managed` says whether `m_manager`
-- is set, and `error_handler` whether the error handler is callable.
pub record EventBus {ℓ} (Payload Handler : Type ℓ) : Type ℓ where
  pub partition_capacity : ℕ
  pub merger : Merger Payload
  pub error_handler : Bool
  pub subscribers : Subscribers Payload Handler
  pub subscriber_count : ℕ
  pub sequence : ℕ
  pub running : Bool
  pub managed : Bool
  pub workers : List ℕ

module _ {ℓ} {Payload Handler : Type ℓ} where
  -- The first empty place of the array, counted from `id`.
  unfoldable pub free_slot : ℕ → Subscribers Payload Handler → Option ℕ
  free_slot id [] = none
  free_slot id (none ∷ ss) = some id
  free_slot id (some s ∷ ss) = free_slot (id + 1) ss

  -- `m_snapshot_subscribers`.
  unfoldable pub snapshot : Subscribers Payload Handler → List (Subscriber Payload Handler)
  snapshot [] = []
  snapshot (none ∷ ss) = snapshot ss
  snapshot (some s ∷ ss) = s ∷ snapshot ss

  -- The constructor of `Subscriber`; `none` is the partition's `std::invalid_argument`.
  unfoldable pub make_subscriber :
      ℕ → Handler → ℕ → Merger Payload → Option (Subscriber Payload Handler)
  unfolding make_partition
  make_subscriber id handler capacity merger =
      Option.map (λ p. record { id = id; handler = handler; partition = p })
        (make_partition capacity (some merger))

  module _ (k_max_subscribers : ℕ) where
    -- The members as the constructor leaves them: an empty merger is replaced by one that keeps the
    -- incoming payload.
    unfoldable pub new_bus :
        ℕ → Option (Merger Payload) → (error_handler : Bool) → EventBus Payload Handler
    new_bus capacity merger error_handler = record {
      partition_capacity = capacity;
      merger = elim merger [
        | none ↦ record { leaves = λ current incoming. incoming; throws = λ current incoming. none }
        | some m ↦ m
      ];
      error_handler = error_handler;
      subscribers = replicate k_max_subscribers none;
      subscriber_count = 0;
      sequence = 0;
      running = false;
      managed = false;
      workers = [];
    }

    unfoldable pub make_bus :
        ℕ → Option (Merger Payload) → (error_handler : Bool) → Result (EventBus Payload Handler)
    unfolding new_bus
    make_bus capacity merger error_handler =
        if capacity == 0 then err invalid_argument else ok (new_bus capacity merger error_handler)

    -- `m_subscriber`; `none` is `std::out_of_range`.
    unfoldable pub subscriber : ℕ → EventBus Payload Handler → Option (Subscriber Payload Handler)
    subscriber id b =
        if leb k_max_subscribers id
        then none
        else elim (get_elem? b.subscribers id) [ none ↦ none | some slot ↦ slot ]

    -- The loop of `subscribe` that looks for an empty place and fills it.
    unfoldable pub fill_slot :
        Handler → EventBus Payload Handler → EventBus Payload Handler × Result ℕ
    unfolding free_slot make_subscriber
    fill_slot handler b = elim (free_slot 0 b.subscribers) [
      | none ↦ (b, err length_error)
      | some id ↦ elim (make_subscriber id handler b.partition_capacity b.merger) [
        | none ↦ (b, err invalid_argument)
        | some s ↦ (
          record b {
            subscribers = set b.subscribers id (some s);
            subscriber_count = b.subscriber_count + 1;
          },
          ok id,
        )
      ]
    ]

    -- `none` is a handler that is not callable.
    unfoldable pub subscribe :
        Option Handler → EventBus Payload Handler → EventBus Payload Handler × Result ℕ
    unfolding fill_slot
    subscribe none b = (b, err invalid_argument)
    subscribe (some handler) b =
        if b.running
        then (b, err logic_error)
        else if leb k_max_subscribers b.subscriber_count
        then (b, err length_error)
        else fill_slot handler b

    unfoldable pub unsubscribe :
        ℕ → EventBus Payload Handler → EventBus Payload Handler × Result (Unit {0})
    unfolding subscriber
    unsubscribe id b = if b.running then (b, err logic_error) else elim (subscriber id b) [
      | none ↦ (b, err out_of_range)
      | some s ↦ (
        record b {
          subscribers = set b.subscribers id none;
          subscriber_count = b.subscriber_count - 1;
        },
        ok tt,
      )
    ]

    -- `pending`.
    unfoldable pub pending : ℕ → EventBus Payload Handler → Result ℕ
    unfolding subscriber
    pending id b = elim (subscriber id b) [ none ↦ err out_of_range | some s ↦ ok s.partition.size ]
