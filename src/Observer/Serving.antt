-- ===== src/Observer/Serving.antt =====
-- A notice from the mailbox to the release of its lease: the observer and the exchange together.
use yellowstone.Prelude.{
  ◌≢◌, ℕ, zero, suc, ◌≡◌, inl, inr, refl, ap, sym, subst, ◌∙◌, true, false, Option, none, some,
  length, List, [], ◌∷◌, ◌++◌, Perm, arith, Bool-cases, ◌==◌, some_inj, Option-cases,
}
use yellowstone.Prelude.Int.{to_index, ℤ}
use yellowstone.Collections.{Queue, UnorderedMap, GraphPartitionQueue}
use yellowstone.Exchange.{Lease, Exchange, k_ready_size, k_registry_size, close_lease, release}
use yellowstone.Exchange.Invariant.{IsExchange}
use yellowstone.Exchange.Releasing.{
  Releases, release-Releases, close_lease-IsExchange, closed_gen-close,
}
use yellowstone.Observer.{
  StateType, waiting, draining, terminated, Notice, k_max_state_buffer_size, k_mailbox_size,
  Observer, World, looping, popping, deciding, acquire_state, released_state, forget,
}
use yellowstone.Observer.Run.{turn, resume, execute, acquire_notice, release_state}
use yellowstone.Observer.Invariant.{change_state_lem}
use yellowstone.Observer.Steps.{with_notice, holding}
use yellowstone.Observer.Turns.{took, turn-queued}
use yellowstone.Observer.Ending.{turns, turns_step}
use yellowstone.Observer.Draining.{present, Drains, Drained, drain-Drained}

-- The lease that a notice is about.
abbrev pub lease_of : Notice → Lease
lease_of n = record { pid = n.partition_id; gen = n.gen }

module _ {Q R : Type 0} ⦃queue : Queue ℤ Q k_ready_size⦄
    ⦃registry : UnorderedMap ℤ Lease R k_registry_size⦄ (n : Notice) (x : Exchange Q R) where
  -- What `release` makes of the closed lease.
  given_back :
      (r : Exchange Q R × ℤ)
      → registry.find n.worker_id x.dispatcher ≡ some (lease_of n)
      → Releases (close_lease n.partition_id n.gen x) n.worker_id n.partition_id n.gen r
      → (queue.contents r.0.ready ≡ queue.contents x.ready ++ n.partition_id ∷ [])
        × Perm
            (registry.entries x.dispatcher)
            ((n.worker_id, lease_of n) ∷ registry.entries r.0.dispatcher)
  unfolding close_lease
  given_back r found (inl (idle, _, _)) = absurd cc
  given_back r found (inr (inl (l, held, opened, _, _))) =
      let same : l ≡ lease_of n = cc in
      absurd (
        subst
          (λ (k : Lease).
            ((close_lease n.partition_id n.gen x).ctrl (to_index k.pid)).closed_gen ≢ k.gen)
          same opened (closed_gen-close x n.partition_id n.gen))
  given_back r found (inr (inr (l, held, closed, back, gone, _, _))) =
      let same : l ≡ lease_of n = cc in
      subst
        (λ (k : Lease).
          (queue.contents r.0.ready ≡ queue.contents x.ready ++ k.pid ∷ [])
          × Perm (registry.entries x.dispatcher)
              ((n.worker_id, k) ∷ registry.entries r.0.dispatcher))
        same (back, gone)

module _ {S M : Type 0} ⦃states : Queue StateType S k_max_state_buffer_size⦄ where
  -- The observer with the state that `ReleaseState::execute` has queued.
  abbrev freed : StateType → Observer S M → Observer S M
  freed next o = record o { states = (states.push next o.states).0 }

module _ {S M : Type 0} ⦃states : Queue StateType S k_max_state_buffer_size⦄
    ⦃mail : Queue Notice M k_mailbox_size⦄ where
  released_state-freed :
      (count : ℕ) (o : Observer S M)
      → states.contents o.states ≡ []
      → (next : StateType) × (released_state true count o ≡ some (freed next o))
  unfolding released_state
  released_state-freed count o none_left =
      let a = change_state_lem StateType.acquire o none_left in
      let b = change_state_lem terminated o none_left in
      let c = change_state_lem waiting o none_left in
      elim (Bool-cases (count == 0)) [
        | inr some_left ↦ (StateType.acquire, ground (arith, a.0))
        | inl all_read ↦ elim (Bool-cases o.stop) [
          | inl told ↦ (terminated, ground (arith, b.0))
          | inr runs ↦ (waiting, ground (arith, c.0))
        ]
      ]

module _ {S M Q R P E : Type 0} ⦃states : Queue StateType S k_max_state_buffer_size⦄
    ⦃mail : Queue Notice M k_mailbox_size⦄ ⦃queue : Queue ℤ Q k_ready_size⦄
    ⦃registry : UnorderedMap ℤ Lease R k_registry_size⦄ ⦃partitions : GraphPartitionQueue E P⦄ where
  turns_last :
      (n : ℕ) (w v u : World S M Q R P E)
      → turns n w ≡ some v
      → turn true v ≡ some u
      → turns (suc n) w ≡ some u
  unfolding turns
  turns_last zero w v u e f =
      subst (λ t. turns 1 t ≡ some u) (sym (some_inj w v e)) (turns_step 0 v u f)
  turns_last (suc n) w v u e f = elim (Option-cases (turn true w)) [
    | inl stopped ↦ absurd (ground arith)
    | inr (t, step) ↦
        turns_step (suc n) w t step ∙ turns_last n t v u (sym (turns_step n w t step) ∙ e) f
  ]

module _ {S M Q R P E : Type 0} ⦃states : Queue StateType S k_max_state_buffer_size⦄
    ⦃mail : Queue Notice M k_mailbox_size⦄ ⦃queue : Queue ℤ Q k_ready_size⦄
    ⦃registry : UnorderedMap ℤ Lease R k_registry_size⦄ ⦃partitions : GraphPartitionQueue E P⦄
    (n : Notice) (rest : List Notice) (i : ℕ) (x : Exchange Q R) where
  -- The thread is about to take the notice `n`, whose lease is registered, and whose partition at `i`
  -- has the plain events `es`.
  pub record Noticed (w : World S M Q R P E) (es : List (Option E)) : Type 0 where
    pub at : w.phase ≡ looping
    pub queued : states.contents w.observer.states ≡ StateType.acquire ∷ []
    pub mailed : mail.contents w.observer.mailbox ≡ n ∷ rest
    pub pointer : n.partition ≡ some i
    pub set_to : w.exchange ≡ some x
    pub registered : registry.find n.worker_id x.dispatcher ≡ some (lease_of n)
    pub plain_only : partitions.has_graph_pending (w.partitions i) ≡ false
    pub holds : partitions.plain (w.partitions i) ≡ es

  abbrev acquiring : World S M Q R P E → World S M Q R P E
  acquiring w =
      let o : Observer S M = with_notice n (holding n (took w)).observer in
      record w {
        observer = record o { states = (states.push draining o.states).0 };
        phase = looping;
      }

  turn-acquire :
      (es : List (Option E)) (w : World S M Q R P E)
      → Noticed w es
      → (turn true w ≡ some (holding n (took w)))
        × (turn true (holding n (took w)) ≡ some (acquiring w))
        × (states.contents (acquiring w).observer.states ≡ draining ∷ [])
  unfolding execute acquire_notice acquire_state resume turn
  turn-acquire es w d =
      let q = turn-queued StateType.acquire [] w d.at d.queued in
      let c = change_state_lem draining (with_notice n (holding n (took w)).observer) q.1 in
      let p = mail.pop_cons w.observer.mailbox n rest d.mailed in
      let e : execute true StateType.acquire (took w) ≡ some (holding n (took w)) =
        ground (arith, p.0) in
      let f : turn true (holding n (took w)) ≡ some (acquiring w) = ground (arith, c.0) in
      (q.0 ∙ e, f, c.1)

  abbrev draining_world : World S M Q R P E → World S M Q R P E
  draining_world w = record (took (acquiring w)) { phase = popping }

  turn-draining :
      (es : List (Option E)) (w : World S M Q R P E)
      → Noticed w es
      → (turn true (acquiring w) ≡ some (draining_world w)) × Drains i x (draining_world w) es
  unfolding execute
  turn-draining es w d =
      let q = turn-queued draining [] (acquiring w) refl (turn-acquire es w d).2 in
      (
        q.0,
        record {
          at = refl;
          none_left = q.1;
          leased = d.pointer;
          set_to = d.set_to;
          plain_only = d.plain_only;
          holds = d.holds;
        },
      )

  -- The thread is at its loop again and holds no partition: the events are dispatched in their order,
  -- the partition is empty, and in the exchange the lease is gone and the partition is ready again.
  abbrev pub Served : World S M Q R P E → List (Option E) → World S M Q R P E → Type 0
  Served w es u =
      (u.dispatched ≡ w.dispatched ++ present es)
      × (partitions.plain (u.partitions i) ≡ [])
      × (u.phase ≡ looping)
      × (u.observer.partition ≡ none)
      × ((z : Exchange Q R) × (u.exchange ≡ some z)
          × IsExchange z
          × (queue.contents z.ready ≡ queue.contents x.ready ++ n.partition_id ∷ [])
          × Perm (registry.entries x.dispatcher)
              ((n.worker_id, lease_of n) ∷ registry.entries z.dispatcher))

  -- The thread, back at its loop in `v` with the release queued, gives the lease back.
  turn-release :
      (es : List (Option E)) (w v : World S M Q R P E)
      → IsExchange x
      → Noticed w es
      → Drained i x (draining_world w) es (some v)
      → (t : World S M Q R P E) × (u : World S M Q R P E) × (turn true v ≡ some t)
        × (turn true t ≡ some u)
        × Served w es u
  unfolding execute release_state resume forget turn
  turn-release es w v ok d (sent, empty, shut, queued, at, members) =
      let q = turn-queued StateType.release [] v at queued in
      let worker : v.observer.worker_id ≡ n.worker_id =
        ap (λ (o : Observer S M). o.worker_id) members in
      let pid : v.observer.partition_id ≡ n.partition_id =
        ap (λ (o : Observer S M). o.partition_id) members in
      let gen : v.observer.generation ≡ n.gen = ap (λ (o : Observer S M). o.generation) members in
      let closed : Exchange Q R = close_lease n.partition_id n.gen x in
      let (r, done, kept, how) =
        release-Releases closed n.worker_id n.partition_id n.gen
          (close_lease-IsExchange x n.partition_id n.gen ok) in
      let back = given_back n x r d.registered how in
      let (next, let_go) =
        released_state-freed v.observer.mailbox_count (forget (took v).observer) q.1 in
      let given : release true v.observer.worker_id v.observer.partition_id v.observer.generation
            closed
          ≡ some r =
        cc in
      let t : World S M Q R P E = record v {
        observer = forget (took v).observer;
        exchange = some r.0;
        phase = deciding v.observer.mailbox_count;
      } in
      let u : World S M Q R P E = record t { observer = freed next t.observer; phase = looping } in
      let e : execute true StateType.release (took v) ≡ some t = ground (arith, given, shut) in
      let f : turn true t ≡ some u = ground (arith, let_go) in
      (t, u, q.0 ∙ e, f, (sent, empty, refl, refl, (r.0, refl, kept, back.0, back.1)))

  Drained-some :
      (w : World S M Q R P E) (es : List (Option E)) (t : Option (World S M Q R P E))
      → Drained i x w es t
      → (v : World S M Q R P E) × (t ≡ some v) × Drained i x w es (some v)
  Drained-some w es none d = absurd d
  Drained-some w es (some v) d = (v, refl, d)

  -- In a debug build, with a well-formed exchange, a thread that is about to take a notice whose lease
  -- is registered, and whose partition has no graph events, needs one step for each event and six
  -- more, with no other step between them, to serve it: it dispatches the events in their order,
  -- empties the partition and gives the lease back, so that the partition is ready again, last of all,
  -- and the exchange stays well formed.
  pub serve-Served :
      (es : List (Option E)) (w : World S M Q R P E)
      → IsExchange x
      → Noticed w es
      → (u : World S M Q R P E) × (turns (suc (suc (suc (suc (suc (suc (length es))))))) w ≡ some u)
        × Served w es u
  serve-Served es w ok d =
      let taken = turn-acquire es w d in
      let (drains, ready) = turn-draining es w d in
      let (v, e, left) =
        Drained-some (draining_world w) es (turns (suc (length es)) (draining_world w))
          (drain-Drained i x es (draining_world w) ready) in
      let (t, u, f, g, served) = turn-release es w v ok d left in
      let n_steps : ℕ = suc (suc (suc (length es))) in
      (
        u,
        turns_step (suc (suc n_steps)) w (holding n (took w)) taken.0
            ∙ turns_step (suc n_steps) (holding n (took w)) (acquiring w) taken.1
            ∙ turns_step n_steps (acquiring w) (draining_world w) drains
            ∙ turns_last (suc (suc (length es))) (draining_world w) t u
                (turns_last (suc (length es)) (draining_world w) v t e f) g,
        served,
      )
