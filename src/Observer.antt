-- ===== src/Observer.antt =====
-- include/yellowstone/observer.hpp and source/observer.cc: the state machine of a legacy worker.
--
-- The thread of `m_run` is a phase, the place where it stands, and `turn` is its next step; between
-- two steps other threads run. The two queues and the partitions are containers of another library.
-- `dispatch` is virtual; what it was called with is kept in order.
pub mod Run
pub mod System
pub mod Invariant
pub mod Steps
pub mod Turns
pub mod Callers
pub mod Reachable
pub mod Waiting
pub mod Ending
pub mod Draining
pub mod Serving
use yellowstone.Prelude.{
  ℕ, suc, ◌+◌, ◌-◌, ◌%◌, ◌^◌, ◌≡◌, Bool, true, false, not, ◌&&◌, Option, none, some, List, [], ◌∷◌,
  ◌++◌, if◌then◌else◌, ◌==◌,
}
use yellowstone.Prelude.Int.{ℤ, pos, to_index}
use yellowstone.Collections.{
  Queue, UnorderedMap, GraphPartitionQueue, GraphPop, popped, future, missed,
}
use yellowstone.Exchange.{Lease, Exchange, k_ready_size, k_registry_size, checked}
use yellowstone.Exchange.Barrier.{Graph, Arrival, passes, waits, graph_arrive, released}

pub data StateType : Type 0 where
  waiting : StateType
  acquire : StateType
  draining : StateType
  release : StateType
  teardown : StateType
  terminated : StateType

-- `partition` is the index of the partition that the pointer points to.
pub record Notice : Type 0 where
  pub worker_id : ℤ
  pub partition_id : ℤ
  pub gen : ℕ
  pub partition : Option ℕ

abbrev pub k_max_state_buffer_size : ℕ
k_max_state_buffer_size = 4

abbrev pub k_mailbox_size : ℕ
k_mailbox_size = 64

pub record Observer (S M : Type 0) : Type 0 where
  pub worker_id : ℤ
  pub partition_id : ℤ
  pub partition : Option ℕ
  pub states : S
  pub generation : ℕ
  pub mailbox_count : ℕ
  pub stop : Bool
  pub wake : ℕ
  pub mailbox : M

-- Where the thread stands: at the head of the loop of `m_run`; in `WaitState::execute` at the head
-- of its loop, behind the load of the count, in the wait, and before it clears the wake flag; at the
-- head of the loop of `DrainState::execute`; in the barrier; behind the loop of `m_run`.
pub data Phase : Type 0 where
  looping : Phase
  checking : Phase
  counted : ℕ → Phase
  sleeping : Phase
  woken : Phase
  popping : Phase
  received : Notice → Phase
  deciding : ℕ → Phase
  blocked : ℕ → Phase
  ended : Phase

-- An observer with what its thread shares: the exchange, if it is set, the partitions, and the
-- events dispatched.
pub record World (S M Q R P E : Type 0) : Type 0 where
  pub observer : Observer S M
  pub phase : Phase
  pub exchange : Option (Exchange Q R)
  pub partitions : ℕ → P
  pub dispatched : List E

unfoldable pub write_partition {ℓ} : {P : Type ℓ} → (ℕ → P) → ℕ → P → ℕ → P
write_partition ps i p j = if j == i then p else ps j

unfoldable pub log {ℓ} : {E : Type ℓ} → Option E → List E → List E
log none es = es
log (some e) es = es ++ e ∷ []

-- The members that a released lease resets.
unfoldable pub forget : {S M : Type 0} → Observer S M → Observer S M
forget o = record o { partition = none; partition_id = pos 0; generation = 0; worker_id = pos 0 }

module _ {S : Type 0} ⦃states : Queue StateType S k_max_state_buffer_size⦄ (debug : Bool) where
  -- `none` is an abort by a failed assertion, here and below.
  unfoldable pub change_state : {M : Type 0} → StateType → Observer S M → Option (Observer S M)
  unfolding checked
  change_state next o = elim (checked debug (states.push next o.states) o.states) [
    | none ↦ none
    | some s ↦ some (record o { states = s })
  ]

module _ {S M : Type 0} ⦃states : Queue StateType S k_max_state_buffer_size⦄
    ⦃mail : Queue Notice M k_mailbox_size⦄ (debug : Bool) where
  unfoldable pub make_observer : Option (Observer S M)
  unfolding change_state
  make_observer = change_state debug waiting (record {
    worker_id = pos 0;
    partition_id = pos 0;
    partition = none;
    states = states.empty;
    generation = 0;
    mailbox_count = 0;
    stop = false;
    wake = 0;
    mailbox = mail.empty;
  })

  unfoldable pub force_terminate : Observer S M → Option (Observer S M)
  unfolding change_state
  force_terminate o = change_state debug terminated (record o { states = states.clear o.states })

  -- `AcquireState::execute`.
  unfoldable pub acquire_state : Notice → Observer S M → Option (Observer S M)
  unfolding change_state
  acquire_state n o = change_state debug draining (record o {
    mailbox_count = (o.mailbox_count + 2 ^ 32 - 1) % 2 ^ 32;
    generation = n.gen;
    worker_id = n.worker_id;
    partition_id = n.partition_id;
    partition = n.partition;
  })

  -- The part of `ReleaseState::execute` behind the load of the count.
  unfoldable pub released_state : (count : ℕ) → Observer S M → Option (Observer S M)
  unfolding change_state
  released_state count o =
      if not (count == 0)
      then change_state debug acquire o
      else if o.stop
      then change_state debug terminated o
      else change_state debug waiting o
