-- ===== src/Exchange.antt =====
-- include/yellowstone/exchange.hpp and source/exchange.cc: the leases of partitions to workers.
--
-- The queue of ready partitions and the registry of the dispatcher are containers of another
-- library; `Queue` and `UnorderedMap` say what is used of them. What a mutex guards is one step.
pub mod Barrier
pub mod Invariant
pub mod Acquiring
pub mod Releasing
pub mod Reachable
pub mod Returning
pub mod Starving
pub mod Supersteps
use yellowstone.Prelude.{
  ℕ, zero, suc, ◌+◌, ◌*◌, ◌%◌, ◌^◌, ◌≡◌, Bool, true, false, not, ◌&&◌, ◌||◌, Option, none, some,
  if◌then◌else◌, ◌==◌, is_some,
}
use yellowstone.Prelude.Int.{ℤ, pos, negsuc, int_eq, to_index}
use yellowstone.Collections.{Queue, UnorderedMap}
use yellowstone.Exchange.Barrier.{Graph, new_graph}

abbrev pub k_max_num_partitions : ℕ
k_max_num_partitions = 16

abbrev pub k_ready_size : ℕ
k_ready_size = 2 * k_max_num_partitions

-- The size of the dispatcher's registry.
abbrev pub k_registry_size : ℕ
k_registry_size = 32

pub record Lease : Type 0 where
  pub pid : ℤ
  pub gen : ℕ

abbrev pub no_lease : Lease
no_lease = record { pid = negsuc 0; gen = 0 }

pub record LeaseCtrl : Type 0 where
  pub gen : ℕ
  pub closed_gen : ℕ

-- `ctrl` is the array of 16 by its index; an index outside of it is undefined in the source.
pub record Exchange (Q R : Type 0) : Type 0 where
  pub ctrl : ℕ → LeaseCtrl
  pub ready : Q
  pub dispatcher : R
  pub graph : Graph

pub next_u32 : ℕ → ℕ
next_u32 n = (n + 1) % 2 ^ 32

unfoldable pub write_ctrl : (ℕ → LeaseCtrl) → ℕ → LeaseCtrl → ℕ → LeaseCtrl
write_ctrl ctrl i c j = if j == i then c else ctrl j

-- `assert (e)` around a call with effects: a debug build makes the call and aborts when the test
-- fails, a build with NDEBUG does not make the call.
unfoldable pub checked {ℓ} : {S : Type ℓ} → (debug : Bool) → S × Bool → S → Option S
checked true (after, passed) s = if passed then some after else none
checked false after s = some s

-- The two comparisons of a lease with a partition id and a generation.
unfoldable pub same_lease : Lease → ℤ → ℕ → Bool
unfolding int_eq
same_lease l pid gen = not (not (int_eq l.pid pid) || not (l.gen == gen))

module _ {R : Type 0} ⦃registry : UnorderedMap ℤ Lease R k_registry_size⦄ where
  -- `Dispatcher::try_get`, with the entry found.
  unfoldable pub try_get : (worker_id : ℤ) → R → Option Lease
  try_get worker_id d = registry.find worker_id d

  unfoldable pub set_open : (worker_id : ℤ) → Lease → R → R × ℤ
  set_open worker_id l d =
      if is_some (registry.find worker_id d)
      then (d, negsuc 0)
      else let (after, ok) = registry.emplace worker_id l d in
        (after, if ok then pos 0 else negsuc 3)

  -- With the lease that is erased; on an error `out` keeps what the caller put there.
  unfoldable pub erase_open : (worker_id : ℤ) → (out : Lease) → R → R × Lease × ℤ
  erase_open worker_id out d = elim (registry.find worker_id d) [
    | none ↦ (d, out, negsuc 0)
    | some l ↦
        let (after, ok) = registry.erase worker_id d in (after, l, if ok then pos 0 else negsuc 3)
  ]

module _ {Q : Type 0} ⦃queue : Queue ℤ Q k_ready_size⦄ where
  -- The loop of the constructor, from a partition id on.
  unfoldable pub push_ready : (debug : Bool) (rounds partition_id : ℕ) → Q → Option Q
  unfolding checked
  push_ready debug zero partition_id q = some q
  push_ready debug (suc rounds) partition_id q =
      elim (checked debug (queue.push (pos partition_id) q) q) [
        | none ↦ none
        | some after ↦ push_ready debug rounds (suc partition_id) after
      ]

module _ {Q R : Type 0} where
  unfoldable pub is_closed : (pid : ℤ) (gen : ℕ) → Exchange Q R → Bool
  unfolding to_index
  is_closed pid gen x = (x.ctrl (to_index pid)).closed_gen == gen

  unfoldable pub close_lease : (pid : ℤ) (gen : ℕ) → Exchange Q R → Exchange Q R
  unfolding to_index write_ctrl
  close_lease pid gen x = record x {
    ctrl = write_ctrl x.ctrl (to_index pid) (record (x.ctrl (to_index pid)) { closed_gen = gen });
  }

-- `none` is an abort by a failed assertion.
module _ {Q R : Type 0} ⦃queue : Queue ℤ Q k_ready_size⦄
    ⦃registry : UnorderedMap ℤ Lease R k_registry_size⦄ (debug : Bool) where
  unfoldable pub make_exchange : Option (Exchange Q R)
  unfolding push_ready new_graph
  make_exchange = elim (push_ready debug k_max_num_partitions 0 queue.empty) [
    | none ↦ none
    | some q ↦ some (record {
      ctrl = λ i. record { gen = 0; closed_gen = 0 };
      ready = q;
      dispatcher = registry.empty;
      graph = new_graph;
    })
  ]

  -- The lease, and the index of the partition that the out parameter points to.
  unfoldable pub acquire : (worker_id : ℤ) → Exchange Q R → Option (Exchange Q R × Lease × Option ℕ)
  unfolding try_get set_open next_u32 write_ctrl to_index checked int_eq
  acquire worker_id x =
      if is_some (try_get worker_id x.dispatcher)
      then some (x, no_lease, none)
      else let (ready, popped) = queue.pop x.ready in
        elim popped [
          | none ↦ some (record x { ready = ready }, no_lease, none)
          | some pid ↦
              let i : ℕ = to_index pid in
              let gen : ℕ = next_u32 (x.ctrl i).gen in
              let l : Lease = record { pid = pid; gen = gen } in
              let (d, rc) = set_open worker_id l x.dispatcher in
              elim (checked debug (d, int_eq rc (pos 0)) x.dispatcher) [
                | none ↦ none
                | some d ↦ some (
                  record x {
                    ctrl = write_ctrl x.ctrl i (record { gen = gen; closed_gen = 0 });
                    ready = ready;
                    dispatcher = d;
                  },
                  l,
                  some i,
                )
              ]
        ]

  -- The part of `release` behind its checks of the registered lease.
  unfoldable pub reclaim : (worker_id : ℤ) → Lease → Exchange Q R → Option (Exchange Q R × ℤ)
  unfolding erase_open checked same_lease
  reclaim worker_id effective x =
      let (d, erased, rc) = erase_open worker_id no_lease x.dispatcher in
      if not (int_eq rc (pos 0))
      then some (record x { dispatcher = d }, rc)
      else elim (checked debug (x.ready, same_lease erased effective.pid effective.gen) x.ready) [
        | none ↦ none
        | some ready ↦ elim (checked debug (queue.push effective.pid ready) ready) [
          | none ↦ none
          | some ready ↦ some (record x { dispatcher = d; ready = ready }, pos 0)
        ]
      ]

  unfoldable pub release : (worker_id pid : ℤ) (gen : ℕ) → Exchange Q R → Option (Exchange Q R × ℤ)
  unfolding try_get is_closed reclaim same_lease
  release worker_id pid gen x = elim (try_get worker_id x.dispatcher) [
    | none ↦ some (x, negsuc 0)
    | some l ↦
        if not (same_lease l pid gen) && not (is_closed l.pid l.gen x)
        then some (x, negsuc 1)
        else if not (is_closed l.pid l.gen x)
        then some (x, negsuc 2)
        else reclaim worker_id l x
  ]
