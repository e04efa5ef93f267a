-- ===== src/Exchange/Acquiring.antt =====
-- `acquire`, on each of its branches.
use mathlib.Core.Logic.Or
use native.Mathlib.Decide.{ℕ_discrete}
use mathlib.Core.List.{
  Mem, Nodup, Nodup-cons, mem-cons, mem-cons_self, mem-append_left, mem-append_right,
  mem-map_of_mem, perm_middle,
}
use mathlib.Core.List.Perm
use yellowstone.Prelude.{
  ℕ, ◌<◌, ◌≡◌, ◌≢◌, ◌⊎◌, inl, inr, refl, ap, sym, subst, ◌∙◌, arith, Bool, true, Option, none, some,
  List, [], ◌∷◌, ◌++◌, Perm, Option-cases, ==_refl,
}
use yellowstone.Prelude.Int.{ℤ, pos, to_index}
use yellowstone.Collections.{Queue, UnorderedMap}
use yellowstone.Exchange.{
  Lease, Exchange, k_ready_size, k_registry_size, k_max_num_partitions, acquire, no_lease, next_u32,
  write_ctrl,
}
use yellowstone.Exchange.Invariant.{
  IsExchange, leased, places, registry-room, places-Within, pid_of, ids, places-Nodup,
}

module _ {Q R : Type 0} ⦃queue : Queue ℤ Q k_ready_size⦄
    ⦃registry : UnorderedMap ℤ Lease R k_registry_size⦄ (worker_id : ℤ) (x : Exchange Q R) where
  -- The lease of partition `p` that `acquire` makes, and the exchange with it.
  abbrev pub next_lease : ℤ → Lease
  next_lease p = record { pid = p; gen = next_u32 (x.ctrl (to_index p)).gen }

  abbrev with_lease : ℤ → Exchange Q R
  with_lease p = record x {
    ctrl = write_ctrl x.ctrl (to_index p) (record { gen = (next_lease p).gen; closed_gen = 0 });
    ready = (queue.pop x.ready).0;
    dispatcher = (registry.emplace worker_id (next_lease p) x.dispatcher).0;
  }

  acquire_held :
      (debug : Bool) (l : Lease)
      → registry.find worker_id x.dispatcher ≡ some l
      → acquire debug worker_id x ≡ some (x, no_lease, none)
  unfolding acquire
  acquire_held debug l held = rw held

  pub acquire_empty :
      (debug : Bool)
      → registry.find worker_id x.dispatcher ≡ none
      → (queue.pop x.ready).1 ≡ none
      → acquire debug worker_id x
        ≡ some (record x { ready = (queue.pop x.ready).0 }, no_lease, none)
  unfolding acquire
  acquire_empty debug idle popped = rw (idle, popped)

  acquire_ready :
      (p : ℤ)
      → registry.find worker_id x.dispatcher ≡ none
      → (queue.pop x.ready).1 ≡ some p
      → (registry.emplace worker_id (next_lease p) x.dispatcher).1 ≡ true
      → acquire true worker_id x ≡ some (with_lease p, next_lease p, some (to_index p))
  unfolding acquire
  acquire_ready p idle popped done = ground arith

  taken :
      (p : ℤ) (rest : List ℤ)
      → queue.contents x.ready ≡ p ∷ rest
      → IsExchange x
      → registry.find worker_id x.dispatcher ≡ none
      → (acquire true worker_id x ≡ some (with_lease p, next_lease p, some (to_index p)))
        × (queue.contents (with_lease p).ready ≡ rest)
        × Perm
            (registry.entries (with_lease p).dispatcher)
            ((worker_id, next_lease p) ∷ registry.entries x.dispatcher)
  taken p rest ready v idle =
      let popped = queue.pop_cons x.ready p rest ready in
      let added =
        registry.emplace_room worker_id (next_lease p) x.dispatcher idle (registry-room x v) in
      (acquire_ready p idle popped.0 added.0, popped.1, added.1)

  -- The partition that is taken is leased to no one.
  ready-ne-leased :
      (p : ℤ) (rest : List ℤ)
      → queue.contents x.ready ≡ p ∷ rest
      → IsExchange x
      → (v : ℤ) (m : Lease) → registry.find v x.dispatcher ≡ some m
      → to_index m.pid ≢ to_index p
  ready-ne-leased p rest ready ok v m found same =
      let held : Mem m.pid (leased x.dispatcher) =
        mem-map_of_mem pid_of ((registry.find_iff v m x.dispatcher).0 found) in
      let a = places-Within x ok (mem-append_right (queue.contents x.ready) held) in
      let b =
        places-Within x ok
          (mem-append_left (leased x.dispatcher) (subst (Mem p) (sym ready) mem-cons_self)) in
      let apart : Nodup (p ∷ (rest ++ leased x.dispatcher)) =
        subst (λ c. Nodup (c ++ leased x.dispatcher)) ready (places-Nodup x ok) in
      (Nodup-cons.0 apart).0 (
        subst (λ k. Mem k (rest ++ leased x.dispatcher)) (sym a.0 ∙ ap pos same ∙ b.0)
          (mem-append_right rest held))

  taken-IsExchange :
      (p : ℤ) (rest : List ℤ)
      → queue.contents x.ready ≡ p ∷ rest
      → IsExchange x
      → registry.find worker_id x.dispatcher ≡ none
      → IsExchange (with_lease p)
  unfolding write_ctrl
  taken-IsExchange p rest ready ok idle =
      let t = taken p rest ready ok idle in
      record {
        conserved =
            Perm.trans
              (subst
                (λ c.
                  Perm (c ++ leased (with_lease p).dispatcher) (rest ++ p ∷ leased x.dispatcher))
                (sym t.1) (Perm.append_left rest (Perm.map pid_of t.2)))
              (Perm.trans (perm_middle rest (leased x.dispatcher)) (
                subst (λ c. Perm (c ++ leased x.dispatcher) (ids k_max_num_partitions 0)) ready
                  ok.conserved));
        current = λ v m found.
            Or.elim (hlevel (ℕ_discrete))
              (mem-cons.0
                ((Perm.mem_iff t.2).0 ((registry.find_iff v m (with_lease p).dispatcher).0 found)))
              (λ e.
                let same : m ≡ next_lease p = ap (λ (e : ℤ × Lease). e.1) e in
                subst (λ (k : Lease). ((with_lease p).ctrl (to_index k.pid)).gen ≡ k.gen) (sym same)
                  (ground (arith, ==_refl (to_index p))))
              λ old.
                let before = (registry.find_iff v m x.dispatcher).1 old in
                let ne = ready-ne-leased p rest ready ok v m before in
                ground (arith, ok.current v m before);
      }

  -- What `acquire` does: a worker with a lease gets none, and nothing changes; an exchange without
  -- a ready partition gives none; otherwise the first ready partition is leased to the worker.
  abbrev pub Acquires : Exchange Q R × Lease × Option ℕ → Type 0
  Acquires (after, l, partition) =
      ((held : Lease) × (registry.find worker_id x.dispatcher ≡ some held)
        × (after ≡ x)
        × (l ≡ no_lease)
        × (partition ≡ none))
      ⊎ (((registry.find worker_id x.dispatcher ≡ none)
            × (queue.contents x.ready ≡ [])
            × (places after ≡ places x)
            × (after.dispatcher ≡ x.dispatcher)
            × (l ≡ no_lease)
            × (partition ≡ none))
          ⊎ ((p : ℤ) × (rest : List ℤ) × (registry.find worker_id x.dispatcher ≡ none)
              × (queue.contents x.ready ≡ p ∷ rest)
              × (queue.contents after.ready ≡ rest)
              × Perm (registry.entries after.dispatcher)
                  ((worker_id, l) ∷ registry.entries x.dispatcher)
              × (l ≡ next_lease p)
              × (partition ≡ some (to_index p))
              × (to_index p < k_max_num_partitions)))

  -- In a debug build `acquire` on a well-formed exchange passes its assertion and keeps the exchange
  -- well formed. A worker that holds a lease gets none and nothing changes; when no partition is
  -- ready there is no lease either; otherwise the first ready partition is leased to the worker
  -- under its next generation, and its index is within the array.
  pub acquire-Acquires :
      IsExchange x
      → (after : Exchange Q R × Lease × Option ℕ) × (acquire true worker_id x ≡ some after)
        × IsExchange after.0
        × Acquires after
  acquire-Acquires ok = elim (Option-cases (registry.find worker_id x.dispatcher)) [
    | inr (l, held) ↦
        ((x, no_lease, none), acquire_held true l held, ok, inl (l, held, refl, refl, refl))
    | inl idle ↦ by_ready (queue.contents x.ready) refl idle
  ]
    where
      by_ready :
          (c : List ℤ)
          → queue.contents x.ready ≡ c
          → registry.find worker_id x.dispatcher ≡ none
          → (after : Exchange Q R × Lease × Option ℕ) × (acquire true worker_id x ≡ some after)
            × IsExchange after.0
            × Acquires after
      by_ready [] ready idle =
          let popped = queue.pop_nil x.ready ready in
          let same : queue.contents (queue.pop x.ready).0 ≡ queue.contents x.ready =
            popped.1 ∙ sym ready in
          (
            (record x { ready = (queue.pop x.ready).0 }, no_lease, none),
            acquire_empty true idle popped.0,
            record {
              conserved =
                  subst (λ c. Perm (c ++ leased x.dispatcher) (ids k_max_num_partitions 0))
                    (sym same) ok.conserved;
              current = ok.current;
            },
            inr (inl (idle, ready, ap (λ c. c ++ leased x.dispatcher) same, refl, refl, refl)),
          )
      by_ready (p ∷ rest) ready idle =
          let t = taken p rest ready ok idle in
          let first : Mem p (queue.contents x.ready) = subst (Mem p) (sym ready) mem-cons_self in
          (
            (with_lease p, next_lease p, some (to_index p)),
            t.0,
            taken-IsExchange p rest ready ok idle,
            inr (
                inr (
                  p,
                  rest,
                  idle,
                  ready,
                  t.1,
                  t.2,
                  refl,
                  refl,
                  (places-Within x ok (mem-append_left (leased x.dispatcher) first)).2,
                )),
          )
