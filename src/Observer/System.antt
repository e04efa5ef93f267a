-- ===== src/Observer/System.antt =====
-- An observer and the threads that call it: `notify` and `stop` as the atomic steps that they are.
use yellowstone.Prelude.{ℕ, ◌+◌, ◌-◌, ◌%◌, ◌^◌, ◌<◌, ◌≡◌, Bool, true, false, Option, some}
use yellowstone.Prelude.Int.{ℤ}
use yellowstone.Collections.{Queue, UnorderedMap, GraphPartitionQueue}
use yellowstone.Exchange.{Lease, Exchange, k_ready_size, k_registry_size}
use yellowstone.Observer.{
  StateType, Notice, k_max_state_buffer_size, k_mailbox_size, Observer, World, looping, ended,
}
use yellowstone.Observer.Run.{turn}

-- `pushed` calls of `notify` stand behind their push, and `counting` behind the increment of the
-- count; `stopping` calls of `stop` stand behind the write of the stop flag.
pub record System (S M Q R P E : Type 0) : Type 0 where
  pub world : World S M Q R P E
  pub pushed : ℕ
  pub counting : ℕ
  pub stopping : ℕ

module _ {S M Q R P E : Type 0} where
  unfoldable pub with_observer : Observer S M → System S M Q R P E → System S M Q R P E
  with_observer o s = record s { world = record s.world { observer = o } }

  -- `notify`: the push, which spins while the mailbox is full, the count, and the wake flag.
  unfoldable pub notify_push :
      ⦃mail : Queue Notice M k_mailbox_size⦄ → Notice → System S M Q R P E → System S M Q R P E
  unfolding with_observer
  notify_push ⦃mail⦄ n s =
      let (m, done) = mail.push n s.world.observer.mailbox in
      record (with_observer (record s.world.observer { mailbox = m }) s) {
        pushed = s.pushed + elim done [ true ↦ 1 | false ↦ 0 ];
      }

  unfoldable pub notify_count : System S M Q R P E → System S M Q R P E
  unfolding with_observer
  notify_count s =
      let o = s.world.observer in
      record (with_observer (record o { mailbox_count = (o.mailbox_count + 1) % 2 ^ 32 }) s) {
        pushed = s.pushed - 1;
        counting = s.counting + 1;
      }

  unfoldable pub notify_wake : System S M Q R P E → System S M Q R P E
  unfolding with_observer
  notify_wake s = record (with_observer (record s.world.observer { wake = 1 }) s) {
    counting = s.counting - 1;
  }

  -- `stop` up to the join.
  unfoldable pub stop_request : System S M Q R P E → System S M Q R P E
  unfolding with_observer
  stop_request s = record (with_observer (record s.world.observer { stop = true }) s) {
    stopping = s.stopping + 1;
  }

  unfoldable pub stop_wake : System S M Q R P E → System S M Q R P E
  unfolding with_observer
  stop_wake s = record (with_observer (record s.world.observer { wake = 1 }) s) {
    stopping = s.stopping - 1;
  }

  -- `start` of an observer whose thread has ended or was never launched.
  unfoldable pub start : System S M Q R P E → System S M Q R P E
  unfolding with_observer
  start s = record s {
    world = record s.world { observer = record s.world.observer { stop = false }; phase = looping };
  }

module _ {S M Q R P E : Type 0} ⦃states : Queue StateType S k_max_state_buffer_size⦄
    ⦃mail : Queue Notice M k_mailbox_size⦄ ⦃queue : Queue ℤ Q k_ready_size⦄
    ⦃registry : UnorderedMap ℤ Lease R k_registry_size⦄ ⦃partitions : GraphPartitionQueue E P⦄
    (debug : Bool) where
  -- The steps of the thread, of the callers, and of the other workers, which use the exchange and the
  -- partitions.
  pub data Step (s : System S M Q R P E) : System S M Q R P E → Type 0 where
    ran : (w : World S M Q R P E) → turn debug s.world ≡ some w → Step s (record s { world = w })
    notified : (n : Notice) → Step s (notify_push n s)
    announced : 0 < s.pushed → Step s (notify_count s)
    roused : 0 < s.counting → Step s (notify_wake s)
    stopped : Step s (stop_request s)
    stop_roused : 0 < s.stopping → Step s (stop_wake s)
    others :
        (x : Option (Exchange Q R)) (ps : ℕ → P)
        → Step s (record s { world = record s.world { exchange = x; partitions = ps } })
    restarted : s.world.phase ≡ ended → Step s (start s)

  pub data Reach (s : System S M Q R P E) : System S M Q R P E → Type 0 where
    here : Reach s s
    later : {t u : System S M Q R P E} → Reach s t → Step t u → Reach s u
