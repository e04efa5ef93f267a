-- ===== src/Tests/Buses.antt =====
-- A bus for two subscribers with queues for one event and a merger that adds. A handler is the
-- number whose events it refuses.
use yellowstone.Prelude.{
  ℕ, ◌+◌, ◌≡◌, ◌∙◌, refl, sym, subst, inl, inr, Bool, true, false, Option, none, some, List, [],
  ◌∷◌, arith, ◌==◌,
}
use yellowstone.Event.{Event}
use yellowstone.Partition.{Merger, make_partition}
use yellowstone.EventBus.{
  EventBus, Subscriber, Exception, ok, new_bus, make_bus, subscriber, subscribe, fill_slot,
  free_slot, make_subscriber, unsubscribe,
}
use yellowstone.EventBus.Lifecycle.{start, consume_one}
use yellowstone.EventBus.Publish.{publish, publish_one}
use yellowstone.EventBus.Slots.{ids}
use yellowstone.EventBus.Invariant.{IsBus}
use yellowstone.EventBus.Construction.{make_bus-IsBus}
use yellowstone.EventBus.Subscription.{Subscribes, subscribe-Subscribes}
use yellowstone.EventBus.Calls.{start-Starts}
use yellowstone.EventBus.RoundTrip.{unsubscribe-subscribe}
use yellowstone.EventBus.Outcome.{Publishes, publish-Publishes}
use yellowstone.EventBus.PublishOne.{PublishesOne, publish_one-PublishesOne}
use yellowstone.EventBus.Consumption.{Consumes, popped_bus, consume_one-Consumes}

abbrev add : Merger ℕ
add = record { leaves = λ a b. a + b; throws = λ a b. none }

abbrev bus0 : EventBus ℕ ℕ
bus0 = record {
  partition_capacity = 1;
  merger = add;
  error_handler = false;
  subscribers = none ∷ none ∷ [];
  subscriber_count = 0;
  sequence = 0;
  running = false;
  managed = false;
  workers = [];
}

made : make_bus 2 1 (some add) false ≡ ok bus0
unfolding make_bus new_bus
made = refl

bus0-IsBus : IsBus 2 bus0
bus0-IsBus = elim (make_bus-IsBus ℕ ℕ 2 1 (some add) false) [
  | inl (zero_capacity, _) ↦ absurd (omega arith)
  | inr (b, e, v, _, _) ↦
      let m = made in
      let found : ok b ≡ ok bus0 = sym e ∙ m in let same : b ≡ bus0 = cc in subst (IsBus 2) same v
]

abbrev pub bus1 : EventBus ℕ ℕ
bus1 = (subscribe 2 (some 7) bus0).0

subscribed : Subscribes 2 7 bus0
subscribed = subscribe-Subscribes 2 7 bus0 bus0-IsBus refl (omega arith)

pub bus1-IsBus : IsBus 2 bus1
bus1-IsBus = subst (λ r. IsBus 2 r.0) (sym subscribed.2) subscribed.3

abbrev launches : List ℕ → Option Exception
launches ids = none

abbrev bus2 : EventBus ℕ ℕ
bus2 = (start launches bus1).0

bus2-IsBus : IsBus 2 bus2
bus2-IsBus = (start-Starts 2 launches bus1 bus1-IsBus).0

abbrev nobody_pops : ℕ → ℕ
nobody_pops id = 0

abbrev bus3 : EventBus ℕ ℕ
bus3 = (publish nobody_pops 5 40 0 bus2).0

bus3-IsBus : IsBus 2 bus3
bus3-IsBus = (publish-Publishes nobody_pops 5 40 0 2 bus2 bus2-IsBus).0

publish-Publishes_example :
    IsBus 2 (publish nobody_pops 5 40 0 bus2).0
    × Publishes nobody_pops 5 40 0 bus2 (publish nobody_pops 5 40 0 bus2)
publish-Publishes_example = publish-Publishes nobody_pops 5 40 0 2 bus2 bus2-IsBus

publish_one-PublishesOne_example :
    IsBus 2 (publish_one 2 0 0 6 41 0 bus3).0
    × PublishesOne 2 0 0 6 41 0 bus3 (publish_one 2 0 0 6 41 0 bus3)
publish_one-PublishesOne_example = publish_one-PublishesOne 2 0 0 6 41 0 bus3 bus3-IsBus

abbrev refuses : ℕ → Event ℕ → Bool
refuses handler e = e.id == handler

abbrev first_subscriber : Subscriber ℕ ℕ
first_subscriber = record {
  id = 0;
  handler = 7;
  partition = record {
    capacity = 1;
    merger = add;
    levels = [];
    index = [];
    size = 0;
    next_position = 0;
  };
}

bus2_running : bus2.running ≡ true
unfolding start subscribe fill_slot free_slot make_subscriber make_partition
bus2_running = refl

bus2_found : subscriber 2 0 bus2 ≡ some first_subscriber
unfolding start subscribe fill_slot free_slot make_subscriber make_partition subscriber
bus2_found = refl

consume_one-Consumes_example :
    Consumes 2 refuses false true true 0 bus2 first_subscriber bus2-IsBus bus2_running bus2_found
      (consume_one 2 refuses false true true 0 bus2)
    × IsBus 2 (
        popped_bus 2 refuses false true true 0 bus2 first_subscriber bus2-IsBus bus2_running
          bus2_found)
consume_one-Consumes_example =
    consume_one-Consumes 2 refuses false true true 0 bus2 first_subscriber bus2-IsBus bus2_running
      bus2_found

unsubscribe-subscribe_example :
    (id : ℕ) × ((subscribe 2 (some 7) bus0).1 ≡ ok id)
    × (unsubscribe 2 id (subscribe 2 (some 7) bus0).0 ≡ (bus0, ok tt))
unsubscribe-subscribe_example = unsubscribe-subscribe 2 7 bus0 bus0-IsBus refl (omega arith)
