-- ===== src/Exchange/Releasing.antt =====
-- `close_lease` and `release`, on each of their branches.
use mathlib.Core.List.{mem-cons_of_mem}
use mathlib.Core.List.Perm
use yellowstone.Prelude.{
  ℕ, suc, ◌<◌, ◌≡◌, ◌≢◌, ◌==◌, ◌⊎◌, inl, inr, refl, sym, subst, ◌∙◌, arith, true, false, none, some,
  [], ◌∷◌, ◌++◌, Perm, length, Option-cases, Bool-cases, ==_refl, length-append, append_assoc,
}
use yellowstone.Prelude.Int.{ℤ, pos, negsuc, to_index, int_eq, int_eq_refl, int_eq_sound}
use yellowstone.Collections.{Queue, UnorderedMap}
use yellowstone.Exchange.{
  Lease, Exchange, k_ready_size, k_registry_size, k_max_num_partitions, release, reclaim, is_closed,
  close_lease, same_lease,
}
use yellowstone.Exchange.Invariant.{IsExchange, leased, length-places, pid_of, ids}

module _ {Q R : Type 0} ⦃queue : Queue ℤ Q k_ready_size⦄
    ⦃registry : UnorderedMap ℤ Lease R k_registry_size⦄ (x : Exchange Q R) where
  -- Closing a lease writes no generation but the closed one.
  close-gen : (pid : ℤ) (gen i : ℕ) → ((close_lease pid gen x).ctrl i).gen ≡ (x.ctrl i).gen
  unfolding close_lease
  close-gen pid gen i = ground arith

  pub close_lease-IsExchange :
      (pid : ℤ) (gen : ℕ) → IsExchange x → IsExchange (close_lease pid gen x)
  unfolding close_lease
  close_lease-IsExchange pid gen ok = record {
    conserved = ok.conserved;
    current = λ w l found. close-gen pid gen (to_index l.pid) ∙ ok.current w l found;
  }

  pub closed_gen-close :
      (pid : ℤ) (gen : ℕ) → ((close_lease pid gen x).ctrl (to_index pid)).closed_gen ≡ gen
  unfolding close_lease
  closed_gen-close pid gen = ground arith

  same_lease_refl : (l : Lease) → same_lease l l.pid l.gen ≡ true
  unfolding same_lease
  same_lease_refl l = rw (int_eq_refl l.pid, ==_refl l.gen)

  -- The exchange without the lease `l` of the worker.
  abbrev without : ℤ → Lease → Exchange Q R
  without w l = record x {
    ready = (queue.push l.pid x.ready).0;
    dispatcher = (registry.erase w x.dispatcher).0;
  }

  ready-room : IsExchange x → suc (length (queue.contents x.ready)) < k_ready_size
  ready-room ok =
      omega (
        arith,
        length-places x ok,
        length-append {0} (queue.contents x.ready) (leased x.dispatcher),
      )

  reclaim_lem :
      (w : ℤ) (l : Lease)
      → IsExchange x
      → registry.find w x.dispatcher ≡ some l
      → (reclaim true w l x ≡ some (without w l, pos 0))
        × (queue.contents (without w l).ready ≡ queue.contents x.ready ++ l.pid ∷ [])
        × Perm (registry.entries x.dispatcher) ((w, l) ∷ registry.entries (without w l).dispatcher)
  unfolding reclaim
  reclaim_lem w l ok found =
      let erased = registry.erase_found w l x.dispatcher found in
      let pushed = queue.push_room l.pid x.ready (ready-room ok) in
      (ground (arith, same_lease_refl l), pushed.1, erased.1)

  without-IsExchange :
      (w : ℤ) (l : Lease)
      → IsExchange x
      → registry.find w x.dispatcher ≡ some l
      → IsExchange (without w l)
  without-IsExchange w l ok found =
      let r = reclaim_lem w l ok found in
      let d = leased (without w l).dispatcher in
      let c = queue.contents x.ready in
      let back : Perm ((c ++ l.pid ∷ []) ++ d) (c ++ leased x.dispatcher) =
        rw append_assoc (Perm.append_left c (Perm.symm (Perm.map pid_of r.2))) in
      record {
        conserved =
            subst (λ k. Perm (k ++ d) (ids k_max_num_partitions 0)) (sym r.1)
              (Perm.trans back ok.conserved);
        current = λ v m held. ok.current v m (
            (registry.find_iff v m x.dispatcher).1 (
              (Perm.mem_iff r.2).1 (
                mem-cons_of_mem (w, l) ((registry.find_iff v m (without w l).dispatcher).0 held))));
      }

  -- The generation that was closed last on the partition of the lease.
  abbrev pub closed_gen : Lease → ℕ
  closed_gen l = (x.ctrl (to_index l.pid)).closed_gen

  is_closed_iff :
      (l : Lease)
      → ((is_closed l.pid l.gen x ≡ true) × (closed_gen l ≡ l.gen))
        ⊎ ((is_closed l.pid l.gen x ≡ false) × (closed_gen l ≢ l.gen))
  unfolding is_closed
  is_closed_iff l = elim (Bool-cases (closed_gen l == l.gen)) [
    | inl same ↦ inl (same, ground arith)
    | inr other ↦ inr (other, ground arith)
  ]

  same_lease_iff :
      (l : Lease) (pid : ℤ) (gen : ℕ)
      → ((same_lease l pid gen ≡ true) × (l.pid ≡ pid) × (l.gen ≡ gen))
        ⊎ ((same_lease l pid gen ≡ false) × ¬ ((l.pid ≡ pid) × (l.gen ≡ gen)))
  unfolding same_lease
  same_lease_iff l pid gen = elim (Bool-cases (int_eq l.pid pid)) [
    | inr other ↦ inr (
      ground arith,
      λ (s, _).
          let self = int_eq_refl l.pid in
          let clash : true ≡ false = sym self ∙ subst (λ p. int_eq l.pid p ≡ false) (sym s) other in
          absurd cc,
    )
    | inl one ↦ elim (Bool-cases (l.gen == gen)) [
      | inl same ↦ inl (ground arith, int_eq_sound l.pid pid one, ground arith)
      | inr other ↦ inr (ground arith, λ (_, s). absurd (ground arith))
    ]
  ]

  -- What `release` does with the generation and the partition that it is given.
  abbrev pub Releases : ℤ → ℤ → ℕ → Exchange Q R × ℤ → Type 0
  Releases w pid gen (after, rc) =
      ((registry.find w x.dispatcher ≡ none) × (after ≡ x) × (rc ≡ negsuc 0))
      ⊎ (((l : Lease) × (registry.find w x.dispatcher ≡ some l)
            × (closed_gen l ≢ l.gen)
            × (after ≡ x)
            × (((l.pid ≡ pid) × (l.gen ≡ gen) × (rc ≡ negsuc 2))
                ⊎ (¬ ((l.pid ≡ pid) × (l.gen ≡ gen)) × (rc ≡ negsuc 1))))
          ⊎ ((l : Lease) × (registry.find w x.dispatcher ≡ some l)
              × (closed_gen l ≡ l.gen)
              × (queue.contents after.ready ≡ queue.contents x.ready ++ l.pid ∷ [])
              × Perm (registry.entries x.dispatcher) ((w, l) ∷ registry.entries after.dispatcher)
              × (after.ctrl ≡ x.ctrl)
              × (rc ≡ pos 0)))

  -- In a debug build `release` on a well-formed exchange passes its assertions and keeps the
  -- exchange well formed. Without a lease of the worker it returns -1; with a lease whose generation
  -- is not the one closed last on its partition it returns -3 when the arguments are those of the
  -- lease and -2 when they are not; each time nothing changes. With a lease whose generation is
  -- closed it returns 0, whatever the arguments, the lease is gone and its partition stands last
  -- among the ready ones.
  pub release-Releases :
      (w pid : ℤ) (gen : ℕ)
      → IsExchange x
      → (after : Exchange Q R × ℤ) × (release true w pid gen x ≡ some after)
        × IsExchange after.0
        × Releases w pid gen after
  unfolding release
  release-Releases w pid gen ok = elim (Option-cases (registry.find w x.dispatcher)) [
    | inl idle ↦ ((x, negsuc 0), ground arith, ok, inl (idle, refl, refl))
    | inr (l, found) ↦ elim (is_closed_iff l) [
      | inl (closed, at_gen) ↦
          let r = reclaim_lem w l ok found in
          (
            (without w l, pos 0),
            ground (arith, r.0),
            without-IsExchange w l ok found,
            inr (inr (l, found, at_gen, r.1, r.2, refl, refl)),
          )
      | inr (opened, off_gen) ↦ elim (same_lease_iff l pid gen) [
        | inl (same, p, g) ↦
            ((x, negsuc 2), ground arith, ok, inr (inl (l, found, off_gen, refl, inl (p, g, refl))))
        | inr (other, differ) ↦ (
          (x, negsuc 1),
          ground arith,
          ok,
          inr (inl (l, found, off_gen, refl, inr (differ, refl))),
        )
      ]
    ]
  ]
