-- ===== src/Observer/Steps.antt =====
-- Each step of an observer's thread keeps it well formed.
use yellowstone.Prelude.{
  ℕ, suc, ◌+◌, ◌-◌, ◌%◌, ◌^◌, ◌<◌, ◌≡◌, inl, inr, refl, ap, sym, subst, true, none, some, length,
  List, [], ◌∷◌, arith, Bool-cases, Option-cases, if◌then◌else◌, ◌==◌, if_both,
}
use yellowstone.Prelude.Int.{ℤ}
use yellowstone.Collections.{Queue, UnorderedMap, GraphPartitionQueue, GraphPop-cases}
use yellowstone.Exchange.{Lease, Exchange, k_ready_size, k_registry_size, close_lease, release}
use yellowstone.Observer.{
  StateType, waiting, draining, terminated, Notice, k_max_state_buffer_size, k_mailbox_size,
  Observer, World, received, deciding, blocked, write_partition, log, change_state, acquire_state,
  forget, released_state,
}
use yellowstone.Exchange.Barrier.{Arrival-cases, graph_arrive}
use yellowstone.Observer.Run.{
  resume, acquire_notice, release_state, drained, drain_plain, drain_future, drain_graph,
  drain_state, has_pending_graph,
}
use yellowstone.Observer.Invariant.{
  IsObserver, Kept, resume-Kept, Due, taken, conserved_lem, none_queued,
}

-- The observer with a notice that it has popped.
abbrev pub with_notice : {S M : Type 0} → Notice → Observer S M → Observer S M
with_notice n o = record o {
  mailbox_count = (o.mailbox_count + 2 ^ 32 - 1) % 2 ^ 32;
  generation = n.gen;
  worker_id = n.worker_id;
  partition_id = n.partition_id;
  partition = n.partition;
}

module _ {S M Q R P E : Type 0} ⦃mail : Queue Notice M k_mailbox_size⦄ where
  -- The world in which the thread has popped the notice `n`.
  abbrev pub holding : Notice → World S M Q R P E → World S M Q R P E
  holding n w = record w {
    observer = record w.observer { mailbox = (mail.pop w.observer.mailbox).0 };
    phase = received n;
  }

module _ {S M Q R P E : Type 0} ⦃states : Queue StateType S k_max_state_buffer_size⦄
    ⦃mail : Queue Notice M k_mailbox_size⦄ ⦃queue : Queue ℤ Q k_ready_size⦄
    ⦃registry : UnorderedMap ℤ Lease R k_registry_size⦄ ⦃partitions : GraphPartitionQueue E P⦄
    (pushed counting stopping : ℕ) where
  pub acquire_notice-Kept :
      (w : World S M Q R P E)
      → states.contents w.observer.states ≡ []
      → w.observer.mailbox_count + pushed ≡ length (mail.contents w.observer.mailbox)
      → 0 < w.observer.mailbox_count
      → Kept pushed counting stopping (acquire_notice true w)
  unfolding acquire_notice
  acquire_notice-Kept w none_left conserved due = by_mail (mail.contents w.observer.mailbox) refl
    where
      by_mail :
          (c : List Notice)
          → mail.contents w.observer.mailbox ≡ c
          → Kept pushed counting stopping (acquire_notice true w)
      by_mail [] e = absurd (omega (arith, ap length e))
      by_mail (n ∷ rest) e =
          let p = mail.pop_cons w.observer.mailbox n rest e in
          let shorter : length (mail.contents w.observer.mailbox) ≡ suc (length rest) =
            ap length e in
          let same : acquire_notice true w ≡ some (holding n w) = ground (arith, p.0) in
          subst (Kept pushed counting stopping) (sym same) (record {
            conserved = omega (arith, ap length p.1);
            single = omega (arith, ap length none_left);
            due = subst (Due w.observer.mailbox_count) (sym none_left) tt;
            alert = due;
          })

  pub acquire_state-Kept :
      (n : Notice) (w : World S M Q R P E)
      → IsObserver pushed counting stopping w.observer (received n)
      → Kept pushed counting stopping (resume (acquire_state true n w.observer) w)
  unfolding acquire_state
  acquire_state-Kept n w v =
      let o = w.observer in
      let none_left = none_queued pushed counting stopping o (received n) refl v in
      resume-Kept pushed counting stopping (acquire_state true n o) draining (with_notice n o) w
        refl none_left (omega (arith, v.conserved, v.alert, mail.bounded o.mailbox)) tt

  pub released_state-Kept :
      (count : ℕ) (w : World S M Q R P E)
      → IsObserver pushed counting stopping w.observer (deciding count)
      → Kept pushed counting stopping (resume (released_state true count w.observer) w)
  unfolding released_state
  released_state-Kept count w v =
      let o = w.observer in
      let none_left = none_queued pushed counting stopping o (deciding count) refl v in
      let conserved = conserved_lem pushed counting stopping o (deciding count) refl v in
      elim (Bool-cases (count == 0)) [
        | inr some_left ↦
            resume-Kept pushed counting stopping (released_state true count o) StateType.acquire o w
              (ground arith) none_left conserved (ground (arith, v.alert))
        | inl all_read ↦ elim (Bool-cases o.stop) [
          | inl told ↦
              resume-Kept pushed counting stopping (released_state true count o) terminated o w
                (ground arith) none_left conserved tt
          | inr runs ↦
              resume-Kept pushed counting stopping (released_state true count o) waiting o w
                (ground arith) none_left conserved tt
        ]
      ]

  pub release_state-Kept :
      (w : World S M Q R P E)
      → states.contents w.observer.states ≡ []
      → w.observer.mailbox_count + pushed ≡ length (mail.contents w.observer.mailbox)
      → Kept pushed counting stopping (release_state true w)
  unfolding release_state forget
  release_state-Kept w none_left conserved = elim (Option-cases w.exchange) [
    | inl unset ↦
        let e : release_state true w ≡ none = ground arith in
        subst (Kept pushed counting stopping) (sym e) tt
    | inr (x, set_to) ↦
        elim (Option-cases
          (release true w.observer.worker_id w.observer.partition_id w.observer.generation x)) [
            | inl aborted ↦
                let e : release_state true w ≡ none = ground arith in
                subst (Kept pushed counting stopping) (sym e) tt
            | inr ((after, rc), done) ↦
                let v : World S M Q R P E = record w {
                  observer = forget w.observer;
                  exchange = some after;
                  phase = deciding w.observer.mailbox_count;
                } in
                let e : release_state true w ≡ some v = ground arith in
                subst (Kept pushed counting stopping) (sym e) (record {
                  conserved = omega arith;
                  single = omega (arith, ap length none_left);
                  due = subst (Due w.observer.mailbox_count) (sym none_left) tt;
                  alert = omega arith;
                })
          ]
  ]

  module _ (w : World S M Q R P E) (v : IsObserver pushed counting stopping w.observer w.phase)
      (none_left : states.contents w.observer.states ≡ []) (none_taken : taken w.phase ≡ 0) where
    plain : w.observer.mailbox_count + pushed ≡ length (mail.contents w.observer.mailbox)
    plain = conserved_lem pushed counting stopping w.observer w.phase none_taken v

    drained-Kept :
        (ps : ℕ → P) → Kept pushed counting stopping (drained true (record w { partitions = ps }))
    unfolding drained
    drained-Kept ps = elim (Option-cases w.exchange) [
      | inl unset ↦
          let e : drained true (record w { partitions = ps }) ≡ none = ground arith in
          subst (Kept pushed counting stopping) (sym e) tt
      | inr (x, set_to) ↦
          let o = w.observer in
          let u : World S M Q R P E = record w {
            exchange = some (close_lease o.partition_id o.generation x);
            partitions = ps;
          } in
          let e : drained true (record w { partitions = ps })
              ≡ resume (change_state true StateType.release o) u =
            ground arith in
          subst (Kept pushed counting stopping) (sym e) (
            resume-Kept pushed counting stopping (change_state true StateType.release o)
              StateType.release o u refl none_left plain tt)
    ]

    drain_plain-Kept :
        (ps : ℕ → P)
        → Kept pushed counting stopping (drain_plain true (record w { partitions = ps }))
    unfolding drain_plain
    drain_plain-Kept ps = elim (Option-cases w.observer.partition) [
      | inl null ↦
          let e : drain_plain true (record w { partitions = ps }) ≡ none = ground arith in
          subst (Kept pushed counting stopping) (sym e) tt
      | inr (i, held) ↦
          let qs = write_partition ps i (partitions.pop (ps i)).0 in
          elim (Option-cases (partitions.pop (ps i)).1) [
            | inl no_more ↦
                let e : drain_plain true (record w { partitions = ps })
                    ≡ drained true (record w { partitions = qs }) =
                  ground arith in
                subst (Kept pushed counting stopping) (sym e) (drained-Kept qs)
            | inr (d, taken) ↦
                let u : World S M Q R P E = record w {
                  partitions = qs;
                  dispatched = log d w.dispatched;
                } in
                let e : drain_plain true (record w { partitions = ps }) ≡ some u = ground arith in
                subst (Kept pushed counting stopping) (sym e) v
          ]
    ]

    drain_future-Kept :
        (current : ℕ) (x : Exchange Q R) (ps : ℕ → P)
        → Kept pushed counting stopping (drain_future true current x (record w { partitions = ps }))
    unfolding drain_future forget
    drain_future-Kept current x ps =
        let o = w.observer in
        let before : World S M Q R P E = record w { partitions = ps } in
        elim (Option-cases (
          release true o.worker_id o.partition_id o.generation
            (close_lease o.partition_id o.generation x))) [
              | inl aborted ↦
                  let e : drain_future true current x before ≡ none = ground arith in
                  subst (Kept pushed counting stopping) (sym e) tt
              | inr ((after, rc), done) ↦
                  let g = graph_arrive current after.graph in
                  let u : World S M Q R P E = record before {
                    exchange = some (record after { graph = g.0 });
                  } in
                  elim (Arrival-cases g.1) [
                    | inl passed ↦
                        let e : drain_future true current x before
                            ≡ resume (change_state true waiting (forget o)) u =
                          ground arith in
                        subst (Kept pushed counting stopping) (sym e) (
                          resume-Kept pushed counting stopping
                            (change_state true waiting (forget o)) waiting (forget o) u refl
                            none_left plain tt)
                    | inr waited ↦
                        let e : drain_future true current x before
                            ≡ some (record u { observer = forget o; phase = blocked current }) =
                          ground arith in
                        subst (Kept pushed counting stopping) (sym e) (record {
                          conserved = omega (arith, plain);
                          single = omega (arith, ap length none_left);
                          due = v.due;
                          alert = tt;
                        })
                  ]
            ]

    drain_graph-Kept :
        (i : ℕ) (x : Exchange Q R) → Kept pushed counting stopping (drain_graph true i x w)
    unfolding drain_graph
    drain_graph-Kept i x =
        let r = partitions.pop_graph_if_superstep x.graph.superstep (w.partitions i) in
        let ps = write_partition w.partitions i r.0 in
        elim (GraphPop-cases r.1) [
          | inl (d, taken) ↦
              let u : World S M Q R P E = record w {
                partitions = ps;
                dispatched = log d w.dispatched;
              } in
              let e : drain_graph true i x w ≡ some u = ground arith in
              subst (Kept pushed counting stopping) (sym e) v
          | inr (inl later) ↦
              let e : drain_graph true i x w
                  ≡ drain_future true x.graph.superstep x (record w { partitions = ps }) =
                ground arith in
              subst (Kept pushed counting stopping) (sym e)
                (drain_future-Kept x.graph.superstep x ps)
          | inr (inr neither) ↦
              let e : drain_graph true i x w ≡ drain_plain true (record w { partitions = ps }) =
                ground arith in
              subst (Kept pushed counting stopping) (sym e) (drain_plain-Kept ps)
        ]

    pub drain_state-Kept : Kept pushed counting stopping (drain_state true w)
    unfolding drain_state
    drain_state-Kept = elim (Option-cases w.exchange) [
      | inl unset ↦
          let e : drain_state true w ≡ drain_plain true w = ground arith in
          subst (Kept pushed counting stopping) (sym e) (drain_plain-Kept w.partitions)
      | inr (x, set_to) ↦ elim (Option-cases w.observer.partition) [
        | inl null ↦
            let e : drain_state true w ≡ drain_plain true w = ground arith in
            subst (Kept pushed counting stopping) (sym e) (drain_plain-Kept w.partitions)
        | inr (i, held) ↦
            let e : drain_state true w
                ≡ (if has_pending_graph x w then drain_graph true i x w else drain_plain true w) =
              ground arith in
            subst (Kept pushed counting stopping) (sym e) (
              if_both (Kept pushed counting stopping) (has_pending_graph x w)
                (drain_graph true i x w) (drain_plain true w) (drain_graph-Kept i x)
                (drain_plain-Kept w.partitions))
      ]
    ]
