-- ===== src/Tests/Exchanges.antt =====
-- The theorems on the exchange and its barrier at concrete inputs.
use yellowstone.Prelude.{
  map, ℕ, ◌≡◌, refl, arith, true, false, Option, none, some, List, [], ◌∷◌, ◌++◌, Perm,
  Option-cases, replicate,
}
use yellowstone.Prelude.Int.{ℤ, pos, negsuc}
use yellowstone.Exchange.{
  Lease, Exchange, k_max_num_partitions, make_exchange, acquire, release, close_lease, no_lease,
  write_ctrl,
}
use yellowstone.Exchange.Barrier.{Graph, passes, waits, graph_arrive, released}
use yellowstone.Exchange.Invariant.{IsExchange, ids}
use yellowstone.Exchange.Acquiring.{Acquires, acquire-Acquires}
use yellowstone.Exchange.Releasing.{Releases, release-Releases, close_lease-IsExchange}
use yellowstone.Exchange.Reachable.{
  Reach, made, acquired, Reach-IsExchange, Reach-Exclusive, Reach-Conserved,
}
use yellowstone.Exchange.Returning.{Restores, release-acquire}
use yellowstone.Exchange.Starving.{Reach-Starves}
use yellowstone.Exchange.Supersteps.{arrive_all, arrive_all-Advances, waiting, advanced}
use yellowstone.Tests.Containers.{list_queue}
use yellowstone.Tests.Registries.{IsUnique, list_map, Registry, find_entry}

abbrev pub ListExchange : Type 0
ListExchange = Exchange (List ℤ) Registry

-- The exchange behind its constructor, and with a lease of the first partition to worker 7.
abbrev pub fresh : ListExchange
fresh = record {
  ctrl = λ i. record { gen = 0; closed_gen = 0 };
  ready = ids 16 0;
  dispatcher = ([], tt);
  graph = record { mode = false; superstep = 0; parties = 0; arrived = 0; epoch = 0 };
}

abbrev pub first_lease : Lease
first_lease = record { pid = pos 0; gen = 1 }

pub one-IsUnique : IsUnique ((pos 7, first_lease) ∷ [])
unfolding find_entry
one-IsUnique = (refl, tt)

abbrev pub leased_once : ListExchange
leased_once = record fresh {
  ctrl = write_ctrl fresh.ctrl 0 (record { gen = 1; closed_gen = 0 });
  ready = ids 15 1;
  dispatcher = ((pos 7, first_lease) ∷ [], one-IsUnique);
}

fresh-made : make_exchange true ≡ some fresh
unfolding make_exchange list_queue list_map
fresh-made = refl

fresh-acquired : acquire true (pos 7) fresh ≡ some (leased_once, first_lease, some 0)
unfolding acquire list_queue list_map Option-cases one-IsUnique
fresh-acquired = refl

leased-Reach : Reach true leased_once
leased-Reach =
    acquired fresh leased_once (pos 7) first_lease (some 0) (made fresh fresh-made) fresh-acquired

pub held : find_entry (pos 7) leased_once.dispatcher.0 ≡ some first_lease
unfolding find_entry
held = refl

pub leased-IsExchange : IsExchange leased_once
leased-IsExchange = Reach-IsExchange leased-Reach

acquire-Acquires_example :
    (after : ListExchange × Lease × Option ℕ) × (acquire true (pos 7) leased_once ≡ some after)
    × IsExchange after.0
    × Acquires (pos 7) leased_once after
acquire-Acquires_example = acquire-Acquires (pos 7) leased_once leased-IsExchange

abbrev closed_once : ListExchange
closed_once = close_lease (pos 0) 1 leased_once

release-Releases_example :
    (after : ListExchange × ℤ) × (release true (pos 7) (pos 0) 1 closed_once ≡ some after)
    × IsExchange after.0
    × Releases closed_once (pos 7) (pos 0) 1 after
release-Releases_example =
    release-Releases closed_once (pos 7) (pos 0) 1
      (close_lease-IsExchange leased_once (pos 0) 1 leased-IsExchange)

Reach-Exclusive_example : (pos 7 ≡ pos 7) × (first_lease ≡ first_lease)
unfolding list_map find_entry
Reach-Exclusive_example =
    Reach-Exclusive leased_once (pos 7) (pos 7) first_lease first_lease leased-Reach held held refl

Reach-Conserved_example :
    Perm
      (leased_once.ready ++ map (λ (e : ℤ × Lease). e.1.pid) leased_once.dispatcher.0)
      (ids k_max_num_partitions 0)
unfolding list_queue list_map
Reach-Conserved_example = Reach-Conserved leased_once leased-Reach

release-acquire_example :
    (z : ListExchange) × (release true (pos 7) (pos 0) 1 (close_lease (pos 0) 1 leased_once)
      ≡ some (z, pos 0))
    × Restores fresh z
release-acquire_example =
    release-acquire fresh leased_once (pos 7) first_lease 0
      (Reach-IsExchange (made fresh fresh-made)) fresh-acquired

-- The exchange of a build with NDEBUG.
abbrev bare : ListExchange
bare = record fresh { ready = [] }

bare-made : make_exchange false ≡ some bare
unfolding make_exchange list_queue list_map
bare-made = refl

Reach-Starves_example :
    ((y : ListExchange) × (acquire false (pos 7) bare ≡ some (y, no_lease, none)))
    × (release false (pos 7) (pos 0) 1 bare ≡ some (bare, negsuc 0))
Reach-Starves_example = Reach-Starves bare (pos 7) (pos 0) 1 (made bare bare-made)

-- Three workers in graph mode, at superstep 4.
abbrev three_parties : Graph
three_parties = record { mode = true; superstep = 4; parties = 3; arrived = 0; epoch = 1 }

arrive_all-Advances_example :
    (arrive_all 2 4 three_parties ≡ (waiting three_parties 2, replicate 2 waits))
    × (released 4 (waiting three_parties 2) ≡ false)
    × (arrive_all 3 4 three_parties ≡ (advanced three_parties, replicate 2 waits ++ passes ∷ []))
    × (released 4 (advanced three_parties) ≡ true)
    × (graph_arrive 4 (advanced three_parties) ≡ (advanced three_parties, passes))
arrive_all-Advances_example =
    arrive_all-Advances three_parties refl (omega arith) 2 refl refl (omega arith)
