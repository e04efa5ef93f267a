-- ===== src/Tests/Observers.antt =====
-- The theorems on the observer at concrete inputs.
use yellowstone.Prelude.{
  ℕ, ◌+◌, ◌≤◌, ◌≡◌, refl, true, false, Option, none, some, List, [], ◌∷◌, length,
}
use yellowstone.Prelude.Int.{ℤ, pos}
use yellowstone.Exchange.{Exchange}
use yellowstone.Observer.{
  StateType, waiting, Notice, Observer, make_observer, World, Phase, looping, checking, counted,
  sleeping, popping,
}
use yellowstone.Observer.Run.{turn}
use yellowstone.Observer.Invariant.{Due}
use yellowstone.Observer.System.{System, Reach, here, later, ran}
use yellowstone.Observer.Reachable.{launched, launched-IsSystem, Reach-IsSystem}
use yellowstone.Observer.Callers.{IsSystem}
use yellowstone.Observer.Waiting.{Reach-Counts}
use yellowstone.Observer.Ending.{turns, Ended, notify_then_stop, notify_then_stop-Ended}
use yellowstone.Observer.Serving.{Noticed, Served, serve-Served}
use yellowstone.Tests.Exchanges.{leased_once, leased-IsExchange}
use yellowstone.Observer.Draining.{Drains, Drained, drain-Drained}
use yellowstone.Tests.Containers.{list_queue, take}
use yellowstone.Tests.Registries.{list_map, plain_partition, Registry, find_entry}

abbrev ListWorld : Type 0
ListWorld = World (List StateType) (List Notice) (List ℤ) Registry (List (Option ℕ)) ℕ

abbrev ListSystem : Type 0
ListSystem = System (List StateType) (List Notice) (List ℤ) Registry (List (Option ℕ)) ℕ

abbrev observer : Observer (List StateType) (List Notice)
observer = record {
  worker_id = pos 0;
  partition_id = pos 0;
  partition = none;
  states = waiting ∷ [];
  generation = 0;
  mailbox_count = 0;
  stop = false;
  wake = 0;
  mailbox = [];
}

observer-made : make_observer true ≡ some observer
unfolding make_observer list_queue
observer-made = refl

abbrev begun : ListSystem
begun = launched observer none (λ i. []) []

-- The system with its thread in another phase, its last state taken.
abbrev at : Phase → ListSystem
at phase = record begun {
  world = record begun.world { observer = record observer { states = [] }; phase = phase };
}

took_waiting : turn true begun.world ≡ some (at checking).world
unfolding turn list_queue
took_waiting = refl

loaded_count : turn true (at checking).world ≡ some (at (counted 0)).world
unfolding turn
loaded_count = refl

fell_asleep : turn true (at (counted 0)).world ≡ some (at sleeping).world
unfolding turn
fell_asleep = refl

loaded-Reach : Reach true begun (at (counted 0))
loaded-Reach =
    later (later here (ran (at checking).world took_waiting))
      (ran (at (counted 0)).world loaded_count)

asleep-Reach : Reach true begun (at sleeping)
asleep-Reach = later loaded-Reach (ran (at sleeping).world fell_asleep)

begun-IsSystem : IsSystem begun
begun-IsSystem =
    launched-IsSystem {Q = List ℤ} {R = Registry} {P = List (Option ℕ)} {E = ℕ} observer none
      (λ i. []) [] observer-made

loaded-IsSystem : IsSystem (at (counted 0))
loaded-IsSystem = Reach-IsSystem loaded-Reach begun-IsSystem

Reach-Counts_example :
    (length (take 4 (at sleeping).world.observer.states) ≤ 1)
    × ((at sleeping).world.observer.mailbox_count + 0
        ≡ length (take 64 (at sleeping).world.observer.mailbox) + 0)
    × ((at sleeping).world.observer.mailbox_count + 0 ≤ 64 + 0)
    × Due 0 (take 4 (at sleeping).world.observer.states)
unfolding list_queue
Reach-Counts_example =
    Reach-Counts observer none (λ i. []) [] (at sleeping) observer-made asleep-Reach

abbrev notice : Notice
notice = record { worker_id = pos 7; partition_id = pos 3; gen = 1; partition = some 3 }

no_mail : take 64 (at (counted 0)).world.observer.mailbox ≡ []
unfolding take
no_mail = refl

notify_then_stop-Ended_example :
    Ended
      (notify_then_stop notice (at (counted 0))).world
      (turns 3 (notify_then_stop notice (at (counted 0))).world)
    × (take 64 (notify_then_stop notice (at (counted 0))).world.observer.mailbox ≡ notice ∷ [])
unfolding list_queue
notify_then_stop-Ended_example =
    notify_then_stop-Ended notice (at (counted 0)) loaded-IsSystem refl no_mail

-- A partition at index 3 with two events and a null pointer between them.
abbrev exchange : Exchange (List ℤ) Registry
exchange = record {
  ctrl = λ i. record { gen = 1; closed_gen = 0 };
  ready = [];
  dispatcher = ([], tt);
  graph = record { mode = false; superstep = 0; parties = 0; arrived = 0; epoch = 0 };
}

abbrev draining_world : ListWorld
draining_world = record {
  observer = record observer {
    states = [];
    worker_id = pos 7;
    partition_id = pos 3;
    partition = some 3;
    generation = 1;
  };
  phase = popping;
  exchange = some exchange;
  partitions = λ i. some 10 ∷ none ∷ some 20 ∷ [];
  dispatched = 5 ∷ [];
}

drains : Drains 3 exchange draining_world (some 10 ∷ none ∷ some 20 ∷ [])
unfolding list_queue plain_partition
drains = record {
  at = refl;
  none_left = refl;
  leased = refl;
  set_to = refl;
  plain_only = refl;
  holds = refl;
}

drain-Drained_example :
    Drained 3 exchange draining_world (some 10 ∷ none ∷ some 20 ∷ []) (turns 4 draining_world)
drain-Drained_example =
    drain-Drained 3 exchange (some 10 ∷ none ∷ some 20 ∷ []) draining_world drains

-- A notice of worker 7's lease of partition 0, which has two events.
abbrev first_notice : Notice
first_notice = record { worker_id = pos 7; partition_id = pos 0; gen = 1; partition = some 0 }

abbrev noticed_world : ListWorld
noticed_world = record {
  observer = record observer {
    states = StateType.acquire ∷ [];
    mailbox_count = 1;
    mailbox = first_notice ∷ [];
  };
  phase = looping;
  exchange = some leased_once;
  partitions = λ i. some 10 ∷ some 20 ∷ [];
  dispatched = [];
}

noticed : Noticed first_notice [] 0 leased_once noticed_world (some 10 ∷ some 20 ∷ [])
unfolding list_queue list_map plain_partition find_entry
noticed = record {
  at = refl;
  queued = refl;
  mailed = refl;
  pointer = refl;
  set_to = refl;
  registered = refl;
  plain_only = refl;
  holds = refl;
}

serve-Served_example :
    (u : ListWorld) × (turns 8 noticed_world ≡ some u)
    × Served first_notice [] 0 leased_once noticed_world (some 10 ∷ some 20 ∷ []) u
serve-Served_example =
    serve-Served first_notice [] 0 leased_once (some 10 ∷ some 20 ∷ []) noticed_world
      leased-IsExchange noticed
