-- ===== src/Observer/Waiting.antt =====
-- What every observer keeps, whatever is called and in whatever order.
use yellowstone.Prelude.{ℕ, ◌+◌, ◌≤◌, ◌≡◌, true, Option, some, length, List, arith}
use yellowstone.Prelude.Int.{ℤ}
use yellowstone.Collections.{Queue, UnorderedMap, GraphPartitionQueue}
use yellowstone.Exchange.{Lease, Exchange, k_ready_size, k_registry_size}
use yellowstone.Observer.{
  StateType, Notice, k_max_state_buffer_size, k_mailbox_size, Observer, make_observer, Phase,
  sleeping,
}
use yellowstone.Observer.Invariant.{Due, slots, taken}
use yellowstone.Observer.System.{System, Reach}
use yellowstone.Observer.Reachable.{launched, launched-IsSystem, Reach-IsSystem}

slots-le : (phase : Phase) → slots phase ≤ 1
slots-le Phase.looping = omega arith
slots-le Phase.checking = omega arith
slots-le (Phase.counted c) = omega arith
slots-le Phase.sleeping = omega arith
slots-le Phase.woken = omega arith
slots-le Phase.popping = omega arith
slots-le (Phase.received n) = omega arith
slots-le (Phase.deciding c) = omega arith
slots-le (Phase.blocked s) = omega arith
slots-le Phase.ended = omega arith

module _ {S M Q R P E : Type 0} ⦃states : Queue StateType S k_max_state_buffer_size⦄
    ⦃mail : Queue Notice M k_mailbox_size⦄ ⦃queue : Queue ℤ Q k_ready_size⦄
    ⦃registry : UnorderedMap ℤ Lease R k_registry_size⦄ ⦃partitions : GraphPartitionQueue E P⦄
    (o : Observer S M) (x : Option (Exchange Q R)) (ps : ℕ → P) (log : List E)
    (t : System S M Q R P E) where
  -- In a debug build, from the launch on, one state is queued at most, so that the buffer of four
  -- never overflows; the count and the notices pushed but not yet counted are together exactly the
  -- notices in the mailbox, 64 at most, and one more while the thread has popped a notice and not yet
  -- counted it down, so that the count never wraps around below 0; and the state that takes a notice
  -- is queued only while one is counted.
  pub Reach-Counts :
      make_observer true ≡ some o
      → Reach true (launched o x ps log) t
      → (length (states.contents t.world.observer.states) ≤ 1)
        × (t.world.observer.mailbox_count + t.pushed
            ≡ length (mail.contents t.world.observer.mailbox) + taken t.world.phase)
        × (t.world.observer.mailbox_count + t.pushed ≤ k_mailbox_size + taken t.world.phase)
        × Due t.world.observer.mailbox_count (states.contents t.world.observer.states)
  Reach-Counts made r =
      let v = Reach-IsSystem r (launched-IsSystem o x ps log made) in
      (
        omega (arith, v.single, slots-le t.world.phase),
        v.conserved,
        omega (arith, v.conserved, mail.bounded t.world.observer.mailbox),
        v.due,
      )
