-- ===== src/Exchange/Reachable.antt =====
-- Sequences of calls from the exchange that the constructor makes, in a debug build and in one with
-- NDEBUG.
use mathlib.Core.List.{Mem, not-mem-nil}
use mathlib.Core.List.Perm
use yellowstone.Prelude.{
  ℕ, zero, suc, ◌+◌, ◌≤◌, ◌≡◌, ◌≢◌, refl, ap, sym, subst, ◌∙◌, arith, Bool, true, Option, some, [],
  ◌∷◌, ◌++◌, map, Perm, length, some_inj, length-append, append_assoc, append-nil,
}
use yellowstone.Prelude.Int.{ℤ, pos}
use yellowstone.Collections.{Queue, UnorderedMap}
use yellowstone.Exchange.{
  Lease, Exchange, k_ready_size, k_registry_size, k_max_num_partitions, make_exchange, push_ready,
  acquire, release, close_lease,
}
use yellowstone.Exchange.Barrier.{Graph, new_graph}
use yellowstone.Exchange.Invariant.{IsExchange, ids, leases-Exclusive}
use yellowstone.Exchange.Acquiring.{acquire-Acquires}
use yellowstone.Exchange.Releasing.{release-Releases, close_lease-IsExchange}

module _ {Q : Type 0} ⦃queue : Queue ℤ Q k_ready_size⦄ where
  push_ready-ids :
      (rounds n : ℕ) (q : Q)
      → length (queue.contents q) + rounds ≤ k_max_num_partitions
      → (after : Q) × (push_ready true rounds n q ≡ some after)
        × (queue.contents after ≡ queue.contents q ++ ids rounds n)
  unfolding push_ready
  push_ready-ids zero n q room = (q, refl, sym (append-nil (queue.contents q)))
  push_ready-ids (suc rounds) n q room =
      let pushed = queue.push_room (pos n) q (omega arith) in
      let after : Q = (queue.push (pos n) q).0 in
      let longer : length (queue.contents after) ≡ length (queue.contents q) + 1 =
        ap length pushed.1 ∙ length-append (queue.contents q) (pos n ∷ []) in
      let (last, e, held) = push_ready-ids rounds (suc n) after (omega arith) in
      (
        last,
        ground (arith, e),
        held
            ∙ ap (λ c. c ++ ids rounds (suc n)) pushed.1
            ∙ append_assoc (queue.contents q) (pos n ∷ []) (ids rounds (suc n)),
      )

no_entry :
    {R : Type 0} (registry : UnorderedMap ℤ Lease R k_registry_size) (w : ℤ) (l : Lease)
    → registry.find w registry.empty ≢ some l
no_entry registry w l found =
    not-mem-nil
      (subst (Mem (w, l)) registry.entries-empty ((registry.find_iff w l registry.empty).0 found))

module _ {Q R : Type 0} ⦃queue : Queue ℤ Q k_ready_size⦄
    ⦃registry : UnorderedMap ℤ Lease R k_registry_size⦄ where
  abbrev pub fresh_exchange : Q → Exchange Q R
  fresh_exchange q = record {
    ctrl = λ i. record { gen = 0; closed_gen = 0 };
    ready = q;
    dispatcher = registry.empty;
    graph = new_graph;
  }

  -- The constructor passes its assertions and makes every partition ready, in order.
  pub make_exchange-IsExchange :
      (x : Exchange Q R) × (make_exchange true ≡ some x)
      × IsExchange x
      × (queue.contents x.ready ≡ ids k_max_num_partitions 0)
      × (registry.entries x.dispatcher ≡ [])
  unfolding make_exchange
  make_exchange-IsExchange =
      let none_ready : length (queue.contents queue.empty) ≡ 0 = ap length queue.contents-empty in
      let (q, e, held) = push_ready-ids k_max_num_partitions 0 queue.empty (omega arith) in
      let all : queue.contents q ≡ ids k_max_num_partitions 0 =
        held ∙ ap (λ c. c ++ ids k_max_num_partitions 0) queue.contents-empty in
      (
        fresh_exchange q,
        ground (arith, e),
        record {
          conserved =
              rw (all, registry.entries-empty, append-nil (ids k_max_num_partitions 0))
                (Perm.refl (ids k_max_num_partitions 0));
          current = λ w l found. absurd (no_entry registry w l found);
        },
        all,
        registry.entries-empty,
      )

  -- The exchanges that calls lead to; a call that aborts leads to none.
  pub data Reach (debug : Bool) : Exchange Q R → Type 0 where
    made : (x : Exchange Q R) → make_exchange debug ≡ some x → Reach debug x
    acquired :
        (x y : Exchange Q R) (w : ℤ) (l : Lease) (partition : Option ℕ)
        → Reach debug x
        → acquire debug w x ≡ some (y, l, partition)
        → Reach debug y
    closed :
        (x : Exchange Q R) (pid : ℤ) (gen : ℕ) → Reach debug x → Reach debug (close_lease pid gen x)
    released :
        (x y : Exchange Q R) (w pid : ℤ) (gen : ℕ) (rc : ℤ)
        → Reach debug x
        → release debug w pid gen x ≡ some (y, rc)
        → Reach debug y
    coordinated :
        (x : Exchange Q R) (g : Graph) → Reach debug x → Reach debug (record x { graph = g })

  pub Reach-IsExchange : {x : Exchange Q R} → Reach true x → IsExchange x
  Reach-IsExchange (made x e) =
      let (y, built, kept, _, _) = make_exchange-IsExchange in
      subst IsExchange (some_inj y x (sym built ∙ e)) kept
  Reach-IsExchange (acquired x y w l partition r e) =
      let (after, done, kept, _) = acquire-Acquires w x (Reach-IsExchange r) in
      subst (λ (t : Exchange Q R × Lease × Option ℕ). IsExchange t.0)
        (some_inj after (y, l, partition) (sym done ∙ e)) kept
  Reach-IsExchange (closed x pid gen r) = close_lease-IsExchange x pid gen (Reach-IsExchange r)
  Reach-IsExchange (released x y w pid gen rc r e) =
      let (after, done, kept, _) = release-Releases x w pid gen (Reach-IsExchange r) in
      subst (λ (t : Exchange Q R × ℤ). IsExchange t.0) (some_inj after (y, rc) (sym done ∙ e)) kept
  Reach-IsExchange (coordinated x g r) =
      let ok = Reach-IsExchange r in record { conserved = ok.conserved; current = ok.current }

  -- In a debug build, after any sequence of calls from the constructor on, the ready partitions and
  -- those of the registered leases are together the partitions from 0 on, each exactly once.
  pub Reach-Conserved :
      (x : Exchange Q R)
      → Reach true x
      → Perm
          (queue.contents x.ready
            ++ map (λ (e : ℤ × Lease). e.1.pid) (registry.entries x.dispatcher))
          (ids k_max_num_partitions 0)
  Reach-Conserved x r = (Reach-IsExchange r).conserved

  -- In a debug build, after any sequence of calls from the constructor on, two workers that hold
  -- leases of the same partition are the same worker with the same lease.
  pub Reach-Exclusive :
      (x : Exchange Q R) (w v : ℤ) (l m : Lease)
      → Reach true x
      → registry.find w x.dispatcher ≡ some l
      → registry.find v x.dispatcher ≡ some m
      → l.pid ≡ m.pid
      → (w ≡ v) × (l ≡ m)
  Reach-Exclusive x w v l m r a b same = leases-Exclusive x w v l m (Reach-IsExchange r) a b same
