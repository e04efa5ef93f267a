-- ===== src/Observer/Draining.antt =====
-- How a leased partition is drained.
use yellowstone.Prelude.{
  ℕ, suc, ◌≡◌, refl, ap, sym, subst, ◌∙◌, true, false, Option, none, some, length, List, [], ◌∷◌,
  ◌++◌, arith, append_assoc, append-nil, ==_refl,
}
use yellowstone.Prelude.Int.{ℤ}
use yellowstone.Collections.{Queue, UnorderedMap, GraphPartitionQueue}
use yellowstone.Exchange.{Lease, Exchange, k_ready_size, k_registry_size, close_lease}
use yellowstone.Observer.{
  StateType, Notice, k_max_state_buffer_size, k_mailbox_size, Observer, World, looping, popping,
  write_partition, log,
}
use yellowstone.Observer.Run.{turn}
use yellowstone.Observer.Invariant.{change_state_lem}
use yellowstone.Observer.Ending.{turns, turns_step}

-- The events of pointers that are not null.
unfoldable pub present {ℓ} : {E : Type ℓ} → List (Option E) → List E
present [] = []
present (none ∷ es) = present es
present (some e ∷ es) = e ∷ present es

log-present {ℓ} :
    {E : Type ℓ} (e : Option E) (es : List (Option E)) (before : List E)
    → log e before ++ present es ≡ before ++ present (e ∷ es)
unfolding log present
log-present none es before = refl
log-present (some e) es before = append_assoc before (e ∷ []) (present es)

module _ {S M Q R P E : Type 0} ⦃states : Queue StateType S k_max_state_buffer_size⦄
    ⦃mail : Queue Notice M k_mailbox_size⦄ ⦃queue : Queue ℤ Q k_ready_size⦄
    ⦃registry : UnorderedMap ℤ Lease R k_registry_size⦄ ⦃partitions : GraphPartitionQueue E P⦄
    (i : ℕ) (x : Exchange Q R) where
  -- A thread that drains partition `i`, which has the plain events `es` and no graph events.
  pub record Drains (w : World S M Q R P E) (es : List (Option E)) : Type 0 where
    pub at : w.phase ≡ popping
    pub none_left : states.contents w.observer.states ≡ []
    pub leased : w.observer.partition ≡ some i
    pub set_to : w.exchange ≡ some x
    pub plain_only : partitions.has_graph_pending (w.partitions i) ≡ false
    pub holds : partitions.plain (w.partitions i) ≡ es

  -- The thread is back at its loop with the release queued: it has dispatched the events `es` in their
  -- order, the partition is empty and its lease is closed, and no member but the states has changed.
  abbrev pub Drained : World S M Q R P E → List (Option E) → Option (World S M Q R P E) → Type 0
  Drained w es none = ⊥
  Drained w es (some after) =
      (after.dispatched ≡ w.dispatched ++ present es)
      × (partitions.plain (after.partitions i) ≡ [])
      × (after.exchange ≡ some (close_lease w.observer.partition_id w.observer.generation x))
      × (states.contents after.observer.states ≡ StateType.release ∷ [])
      × (after.phase ≡ looping)
      × (after.observer ≡ record w.observer { states = after.observer.states })

  popped_world : World S M Q R P E → World S M Q R P E
  popped_world w = record w {
    partitions = write_partition w.partitions i (partitions.pop (w.partitions i)).0;
  }

  written :
      (w : World S M Q R P E) → (popped_world w).partitions i ≡ (partitions.pop (w.partitions i)).0
  unfolding popped_world write_partition
  written w = ground (arith, ==_refl i)

  Drained-cons :
      (w next : World S M Q R P E) (d : Option E) (es : List (Option E))
      (t : Option (World S M Q R P E))
      → next.observer ≡ w.observer
      → next.dispatched ≡ log d w.dispatched
      → Drained next es t
      → Drained w (d ∷ es) t
  Drained-cons w next d es none same logged r = absurd r
  Drained-cons w next d es (some after) same logged (sent, empty, shut, queued, back, kept) = (
    sent ∙ ap (λ b. b ++ present es) logged ∙ log-present d es w.dispatched,
    empty,
    shut ∙ ap (λ (o : Observer S M). some (close_lease o.partition_id o.generation x)) same,
    queued,
    back,
    kept ∙ ap (λ (o : Observer S M). record o { states = after.observer.states }) same,
  )

  -- In a debug build a thread that drains a leased partition without graph events runs one step for
  -- each event and one more: it dispatches the events in their order, leaves the partition empty,
  -- closes its lease and goes on to release it.
  pub drain-Drained :
      (es : List (Option E)) (w : World S M Q R P E)
      → Drains w es
      → Drained w es (turns (suc (length es)) w)
  unfolding turn popped_world turns present
  drain-Drained [] w d =
      let p = partitions.plain_nil (w.partitions i) d.plain_only d.holds in
      let c = change_state_lem StateType.release w.observer d.none_left in
      let after : World S M Q R P E = record (popped_world w) {
        observer = record w.observer {
          states = (states.push StateType.release w.observer.states).0;
        };
        exchange = some (close_lease w.observer.partition_id w.observer.generation x);
        phase = looping;
      } in
      let e : turn true w ≡ some after = ground (arith, c.0, p.0) in
      subst (Drained w []) (sym (turns_step 0 w after e)) (
        sym (append-nil w.dispatched),
        ap partitions.plain (written w) ∙ p.1,
        refl,
        c.1,
        refl,
        refl,
      )
  drain-Drained (d' ∷ es) w d =
      let p = partitions.plain_cons (w.partitions i) d' es d.plain_only d.holds in
      let next : World S M Q R P E = record (popped_world w) { dispatched = log d' w.dispatched } in
      let e : turn true w ≡ some next = ground (arith, p.0) in
      let r = drain-Drained es next (record {
        at = d.at;
        none_left = d.none_left;
        leased = d.leased;
        set_to = d.set_to;
        plain_only = ap partitions.has_graph_pending (written w) ∙ p.2;
        holds = ap partitions.plain (written w) ∙ p.1;
      }) in
      subst (Drained w (d' ∷ es)) (sym (turns_step (suc (length es)) w next e))
        (Drained-cons w next d' es (turns (suc (length es)) next) refl refl r)
