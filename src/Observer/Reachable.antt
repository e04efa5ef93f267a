-- ===== src/Observer/Reachable.antt =====
-- Sequences of steps of an observer and its callers.
use yellowstone.Prelude.{
  ℕ, ◌≡◌, ap, sym, subst, ◌∙◌, true, false, Option, none, some, length, List, arith, some_inj,
}
use yellowstone.Prelude.Int.{ℤ, pos}
use yellowstone.Collections.{Queue, UnorderedMap, GraphPartitionQueue}
use yellowstone.Exchange.{Lease, Exchange, k_ready_size, k_registry_size}
use yellowstone.Observer.{
  StateType, waiting, make_observer, Notice, k_max_state_buffer_size, k_mailbox_size, Observer,
  looping,
}
use yellowstone.Observer.Invariant.{change_state_lem, Kept, Due}
use yellowstone.Observer.System.{
  System, Step, ran, notified, announced, roused, stopped, stop_roused, others, restarted, Reach,
  here, later,
}
use yellowstone.Observer.Turns.{turn-Kept}
use yellowstone.Observer.Callers.{
  IsSystem, notify_push-IsSystem, notify_count-IsSystem, notify_wake-IsSystem,
  stop_request-IsSystem, stop_wake-IsSystem, start-IsSystem,
}

module _ {S M Q R P E : Type 0} ⦃states : Queue StateType S k_max_state_buffer_size⦄
    ⦃mail : Queue Notice M k_mailbox_size⦄ ⦃queue : Queue ℤ Q k_ready_size⦄
    ⦃registry : UnorderedMap ℤ Lease R k_registry_size⦄ ⦃partitions : GraphPartitionQueue E P⦄ where
  Step-IsSystem : {s t : System S M Q R P E} → Step true s t → IsSystem s → IsSystem t
  Step-IsSystem {s} (ran w e) v =
      subst (Kept s.pushed s.counting s.stopping) e
        (turn-Kept s.pushed s.counting s.stopping s.world v)
  Step-IsSystem {s} (notified n) v = notify_push-IsSystem n s v
  Step-IsSystem {s} (announced h) v = notify_count-IsSystem s h v
  Step-IsSystem {s} (roused h) v = notify_wake-IsSystem s v
  Step-IsSystem {s} stopped v = stop_request-IsSystem s v
  Step-IsSystem {s} (stop_roused h) v = stop_wake-IsSystem s v
  Step-IsSystem {s} (others x ps) v = record {
    conserved = v.conserved;
    single = v.single;
    due = v.due;
    alert = v.alert;
  }
  Step-IsSystem {s} (restarted at) v = start-IsSystem s at v

  pub Reach-IsSystem : {s t : System S M Q R P E} → Reach true s t → IsSystem s → IsSystem t
  Reach-IsSystem here v = v
  Reach-IsSystem (later r st) v = Step-IsSystem st (Reach-IsSystem r v)

-- The members before the constructor's body.
abbrev blank :
    {S M : Type 0} ⦃states : Queue StateType S k_max_state_buffer_size⦄
    ⦃mail : Queue Notice M k_mailbox_size⦄
    → Observer S M
blank ⦃states⦄ ⦃mail⦄ = record {
  worker_id = pos 0;
  partition_id = pos 0;
  partition = none;
  states = states.empty;
  generation = 0;
  mailbox_count = 0;
  stop = false;
  wake = 0;
  mailbox = mail.empty;
}

module _ {S M Q R P E : Type 0} ⦃states : Queue StateType S k_max_state_buffer_size⦄
    ⦃mail : Queue Notice M k_mailbox_size⦄ where
  -- An observer whose thread has just been launched; `log` is what was dispatched before.
  abbrev pub launched : Observer S M → Option (Exchange Q R) → (ℕ → P) → List E → System S M Q R P E
  launched o x ps log = record {
    world = record {
      observer = o;
      phase = looping;
      exchange = x;
      partitions = ps;
      dispatched = log;
    };
    pushed = 0;
    counting = 0;
    stopping = 0;
  }

  pub launched-IsSystem :
      (o : Observer S M) (x : Option (Exchange Q R)) (ps : ℕ → P) (log : List E)
      → make_observer true ≡ some o
      → IsSystem (launched o x ps log)
  unfolding make_observer
  launched-IsSystem o x ps log made =
      let c = change_state_lem waiting blank states.contents-empty in
      subst (λ (t : Observer S M). IsSystem (launched t x ps log))
        (some_inj (record (blank) { states = (states.push waiting states.empty).0 }) o
          (sym c.0 ∙ made))
        (record {
          conserved = omega (arith, ap length mail.contents-empty);
          single = omega (arith, ap length c.1);
          due = subst (Due 0) (sym c.1) tt;
          alert = tt;
        })
