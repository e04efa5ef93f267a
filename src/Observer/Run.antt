-- ===== src/Observer/Run.antt =====
-- `m_run` and the states of source/observer.cc as the steps of a thread.
use yellowstone.Prelude.{ℕ, Bool, false, not, ◌&&◌, Option, none, some, if◌then◌else◌, ◌==◌}
use yellowstone.Prelude.Int.{ℤ}
use yellowstone.Collections.{Queue, UnorderedMap, GraphPartitionQueue, popped, future, missed}
use yellowstone.Exchange.{Lease, Exchange, k_ready_size, k_registry_size, close_lease, release}
use yellowstone.Exchange.Barrier.{passes, waits, graph_arrive, released}
use yellowstone.Observer.{
  StateType, waiting, draining, teardown, terminated, Notice, k_max_state_buffer_size,
  k_mailbox_size, Observer, Phase, looping, checking, counted, sleeping, woken, popping, received,
  deciding, blocked, ended, World, write_partition, log, change_state, acquire_state,
  released_state, forget,
}

module _ {S M Q R P E : Type 0} where
  -- The world behind a change of state that returns to the loop of `m_run`.
  unfoldable pub resume : Option (Observer S M) → World S M Q R P E → Option (World S M Q R P E)
  resume none w = none
  resume (some o) w = some (record w { observer = o; phase = looping })

  unfoldable pub has_pending_graph :
      ⦃partitions : GraphPartitionQueue E P⦄ → Exchange Q R → World S M Q R P E → Bool
  has_pending_graph ⦃partitions⦄ x w = x.graph.mode && elim w.observer.partition [
    | none ↦ false
    | some i ↦ partitions.has_graph_pending (w.partitions i)
  ]

module _ {S M Q R P E : Type 0} ⦃states : Queue StateType S k_max_state_buffer_size⦄
    ⦃mail : Queue Notice M k_mailbox_size⦄ ⦃queue : Queue ℤ Q k_ready_size⦄
    ⦃registry : UnorderedMap ℤ Lease R k_registry_size⦄ ⦃partitions : GraphPartitionQueue E P⦄
    (debug : Bool) where
  -- The end of `DrainState::execute`: the partition is empty.
  unfoldable pub drained : World S M Q R P E → Option (World S M Q R P E)
  unfolding resume change_state
  drained w = elim w.exchange [
    | none ↦ none
    | some x ↦
        resume (change_state debug StateType.release w.observer) (record w {
          exchange = some (close_lease w.observer.partition_id w.observer.generation x);
        })
  ]

  -- The plain pop of `DrainState::execute`; a null partition is an abort or undefined.
  unfoldable pub drain_plain : World S M Q R P E → Option (World S M Q R P E)
  unfolding drained write_partition log
  drain_plain w = elim w.observer.partition [
    | none ↦ none
    | some i ↦
        let (p, taken) = partitions.pop (w.partitions i) in
        elim taken [
          | none ↦ drained (record w { partitions = write_partition w.partitions i p })
          | some e ↦ some (record w {
            partitions = write_partition w.partitions i p;
            dispatched = log e w.dispatched;
          })
        ]
  ]

  -- The partition has events of later supersteps only: the lease is closed and released, and the
  -- thread takes part in the barrier.
  unfoldable pub drain_future :
      (current : ℕ) → Exchange Q R → World S M Q R P E → Option (World S M Q R P E)
  unfolding resume change_state forget release close_lease graph_arrive
  drain_future current x w =
      let o = w.observer in
      elim (release debug o.worker_id o.partition_id o.generation
        (close_lease o.partition_id o.generation x)) [
          | none ↦ none
          | some (after, _) ↦
              let (g, a) = graph_arrive current after.graph in
              elim a [
                | passes ↦
                    resume (change_state debug waiting (forget o))
                      (record w { exchange = some (record after { graph = g }) })
                | waits ↦ some (record w {
                  observer = forget o;
                  exchange = some (record after { graph = g });
                  phase = blocked current;
                })
              ]
        ]

  -- The graph branch of `DrainState::execute`, of the partition at `i`.
  unfoldable pub drain_graph :
      (i : ℕ) → Exchange Q R → World S M Q R P E → Option (World S M Q R P E)
  unfolding drain_future drain_plain write_partition log
  drain_graph i x w =
      let current : ℕ = x.graph.superstep in
      let (p, grc) = partitions.pop_graph_if_superstep current (w.partitions i) in
      let after : World S M Q R P E = record w { partitions = write_partition w.partitions i p } in
      elim grc [
        | popped e ↦ some (record after { dispatched = log e w.dispatched })
        | future ↦ drain_future current x after
        | missed ↦ drain_plain after
      ]

  -- One round of the loop of `DrainState::execute`.
  unfoldable pub drain_state : World S M Q R P E → Option (World S M Q R P E)
  unfolding drain_graph drain_plain has_pending_graph
  drain_state w = elim w.exchange [
    | none ↦ drain_plain w
    | some x ↦ elim w.observer.partition [
      | none ↦ drain_plain w
      | some i ↦ if has_pending_graph x w then drain_graph i x w else drain_plain w
    ]
  ]

  -- `AcquireState::execute` up to the pop of the mailbox.
  unfoldable pub acquire_notice : World S M Q R P E → Option (World S M Q R P E)
  unfolding resume change_state
  acquire_notice w =
      let (m, taken) = mail.pop w.observer.mailbox in
      let o : Observer S M = record w.observer { mailbox = m } in
      elim taken [
        | none ↦ resume (change_state debug waiting o) w
        | some n ↦ some (record w { observer = o; phase = received n })
      ]

  -- `ReleaseState::execute` up to the load of the count.
  unfoldable pub release_state : World S M Q R P E → Option (World S M Q R P E)
  unfolding forget release
  release_state w = elim w.exchange [
    | none ↦ none
    | some x ↦
        let o = w.observer in
        elim (release debug o.worker_id o.partition_id o.generation x) [
          | none ↦ none
          | some (after, _) ↦ some (record w {
            observer = forget o;
            exchange = some after;
            phase = deciding o.mailbox_count;
          })
        ]
  ]

  -- `execute` of a state that the loop of `m_run` has popped.
  unfoldable pub execute : StateType → World S M Q R P E → Option (World S M Q R P E)
  unfolding resume acquire_notice release_state change_state
  execute waiting w = some (record w { phase = checking })
  execute StateType.acquire w = acquire_notice w
  execute draining w = some (record w { phase = popping })
  execute StateType.release w = release_state w
  execute teardown w = resume (change_state debug waiting w.observer) w
  execute terminated w =
      some (record w { observer = record w.observer { states = states.clear w.observer.states } })

  -- A round of the loop of `m_run`, up to the first point in a state where another thread may run.
  unfoldable pub run_loop : World S M Q R P E → Option (World S M Q R P E)
  unfolding execute
  run_loop w =
      if states.is_empty w.observer.states
      then some (record w { phase = ended })
      else let (s, next) = states.pop w.observer.states in
        let after : World S M Q R P E = record w { observer = record w.observer { states = s } } in
        elim next [ none ↦ some after | some st ↦ execute st after ]

  -- `WaitState::execute` behind the load of the count.
  unfoldable pub wait_counted : (count : ℕ) → World S M Q R P E → Option (World S M Q R P E)
  unfolding resume change_state
  wait_counted count w =
      if w.observer.stop && count == 0
      then resume (change_state debug terminated w.observer) w
      else if not (count == 0)
      then resume (change_state debug StateType.acquire w.observer) w
      else some (record w { phase = sleeping })

  -- The wait of `graph_arrive_and_wait` looks once, and then `DrainState::execute` returns.
  unfoldable pub barrier_wait : (observed : ℕ) → World S M Q R P E → Option (World S M Q R P E)
  unfolding resume change_state released
  barrier_wait observed w = elim w.exchange [
    | none ↦ none
    | some x ↦
        if released observed x.graph
        then resume (change_state debug waiting w.observer) w
        else some w
  ]

  unfoldable pub at_phase : Phase → World S M Q R P E → Option (World S M Q R P E)
  unfolding resume run_loop wait_counted drain_state barrier_wait acquire_state released_state
  at_phase looping w = run_loop w
  at_phase checking w = some (record w { phase = counted w.observer.mailbox_count })
  at_phase (counted count) w = wait_counted count w
  at_phase sleeping w = if w.observer.wake == 0 then some w else some (record w { phase = woken })
  at_phase woken w = some (record w { observer = record w.observer { wake = 0 }; phase = checking })
  at_phase popping w = drain_state w
  at_phase (received n) w = resume (acquire_state debug n w.observer) w
  at_phase (deciding count) w = resume (released_state debug count w.observer) w
  at_phase (blocked observed) w = barrier_wait observed w
  at_phase ended w = some w

  -- The next step of the thread that runs `m_run`.
  unfoldable pub turn : World S M Q R P E → Option (World S M Q R P E)
  unfolding at_phase
  turn w = at_phase w.phase w
