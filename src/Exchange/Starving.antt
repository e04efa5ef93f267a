-- ===== src/Exchange/Starving.antt =====
-- The exchange in a build with NDEBUG, where an assertion is not evaluated: neither the constructor
-- nor `release` makes a partition ready.
use mathlib.Core.List.{Mem, not-mem-nil}
use yellowstone.Prelude.{
  ℕ, zero, suc, ◌≡◌, refl, sym, subst, ◌∙◌, arith, false, Option, none, some, [], Option-cases,
  some_inj, inl, inr,
}
use yellowstone.Prelude.Int.{ℤ, negsuc}
use yellowstone.Collections.{Queue, UnorderedMap}
use yellowstone.Exchange.{
  Lease, Exchange, k_ready_size, k_registry_size, k_max_num_partitions, make_exchange, push_ready,
  acquire, release, close_lease, no_lease,
}
use yellowstone.Exchange.Acquiring.{acquire_empty}
use yellowstone.Exchange.Reachable.{
  Reach, made, acquired, closed, released, coordinated, fresh_exchange,
}

push_ready-skips :
    {Q : Type 0} ⦃queue : Queue ℤ Q k_ready_size⦄ (rounds n : ℕ) (q : Q)
    → push_ready false rounds n q ≡ some q
unfolding push_ready
push_ready-skips zero n q = refl
push_ready-skips (suc rounds) n q = push_ready-skips rounds (suc n) q

module _ {Q R : Type 0} ⦃queue : Queue ℤ Q k_ready_size⦄
    ⦃registry : UnorderedMap ℤ Lease R k_registry_size⦄ where
  record IsBare (x : Exchange Q R) : Type 0 where
    none_ready : queue.contents x.ready ≡ []
    none_leased : registry.entries x.dispatcher ≡ []

  find-IsBare : (x : Exchange Q R) (w : ℤ) → IsBare x → registry.find w x.dispatcher ≡ none
  find-IsBare x w b = elim (Option-cases (registry.find w x.dispatcher)) [
    | inl idle ↦ idle
    | inr (l, found) ↦ absurd (
        not-mem-nil
          (subst (Mem (w, l)) b.none_leased ((registry.find_iff w l x.dispatcher).0 found)))
  ]

  acquire-IsBare :
      (x : Exchange Q R) (w : ℤ)
      → IsBare x
      → (y : Exchange Q R) × (acquire false w x ≡ some (y, no_lease, none)) × IsBare y
  acquire-IsBare x w b =
      let popped = queue.pop_nil x.ready b.none_ready in
      (
        record x { ready = (queue.pop x.ready).0 },
        acquire_empty w x false (find-IsBare x w b) popped.0,
        record { none_ready = popped.1; none_leased = b.none_leased },
      )

  release-IsBare :
      (x : Exchange Q R) (w pid : ℤ) (gen : ℕ)
      → IsBare x
      → release false w pid gen x ≡ some (x, negsuc 0)
  unfolding release
  release-IsBare x w pid gen b = ground (arith, find-IsBare x w b)

  made-IsBare : (x : Exchange Q R) → make_exchange false ≡ some x → IsBare x
  unfolding make_exchange
  made-IsBare x e =
      let built : make_exchange false ≡ some (fresh_exchange queue.empty) =
        ground (arith, push_ready-skips k_max_num_partitions 0 queue.empty) in
      subst IsBare (some_inj (fresh_exchange queue.empty) x (sym built ∙ e))
        (record { none_ready = queue.contents-empty; none_leased = registry.entries-empty })

  Reach-IsBare : {x : Exchange Q R} → Reach false x → IsBare x
  unfolding close_lease
  Reach-IsBare (made x e) = made-IsBare x e
  Reach-IsBare (acquired x y w l partition r e) =
      let (z, done, b) = acquire-IsBare x w (Reach-IsBare r) in
      subst (λ (t : Exchange Q R × Lease × Option ℕ). IsBare t.0)
        (some_inj (z, no_lease, none) (y, l, partition) (sym done ∙ e)) b
  Reach-IsBare (closed x pid gen r) =
      let b = Reach-IsBare r in record { none_ready = b.none_ready; none_leased = b.none_leased }
  Reach-IsBare (released x y w pid gen rc r e) =
      subst (λ (t : Exchange Q R × ℤ). IsBare t.0)
        (some_inj (x, negsuc 0) (y, rc) (sym (release-IsBare x w pid gen (Reach-IsBare r)) ∙ e))
        (Reach-IsBare r)
  Reach-IsBare (coordinated x g r) =
      let b = Reach-IsBare r in record { none_ready = b.none_ready; none_leased = b.none_leased }

  -- In a build with NDEBUG no sequence of calls from the constructor on makes `acquire` lease a
  -- partition to any worker: it always returns the partition id -1 and a null pointer, and `release`
  -- always returns -1.
  pub Reach-Starves :
      (x : Exchange Q R) (w pid : ℤ) (gen : ℕ)
      → Reach false x
      → ((y : Exchange Q R) × (acquire false w x ≡ some (y, no_lease, none)))
        × (release false w pid gen x ≡ some (x, negsuc 0))
  Reach-Starves x w pid gen r =
      let (y, e, _) = acquire-IsBare x w (Reach-IsBare r) in
      ((y, e), release-IsBare x w pid gen (Reach-IsBare r))
