-- ===== src/Exchange/Returning.antt =====
-- A lease from `acquire` to `release`.
use mathlib.Core.List.{mem-cons_self, perm-cons, perm_append_singleton}
use mathlib.Core.List.Perm
use yellowstone.Prelude.{
  ◌≢◌, ℕ, ◌≡◌, inl, inr, ap, sym, subst, ◌∙◌, true, Option, some, some_inj, [], ◌∷◌, ◌++◌, Perm,
}
use yellowstone.Prelude.Int.{to_index, ℤ, pos}
use yellowstone.Collections.{Queue, UnorderedMap}
use yellowstone.Exchange.{
  Lease, Exchange, k_ready_size, k_registry_size, acquire, release, close_lease,
}
use yellowstone.Exchange.Invariant.{IsExchange}
use yellowstone.Exchange.Acquiring.{Acquires, acquire-Acquires}
use yellowstone.Exchange.Releasing.{
  Releases, release-Releases, close_lease-IsExchange, closed_gen-close,
}

module _ {Q R : Type 0} ⦃queue : Queue ℤ Q k_ready_size⦄
    ⦃registry : UnorderedMap ℤ Lease R k_registry_size⦄ (x : Exchange Q R) where
  -- The exchange `z` has what `x` has: the same partitions are ready, though in another order, and the
  -- same leases are registered.
  abbrev pub Restores : Exchange Q R → Type 0
  Restores z =
      IsExchange z
      × Perm (queue.contents z.ready) (queue.contents x.ready)
      × Perm (registry.entries z.dispatcher) (registry.entries x.dispatcher)

module _ {Q R : Type 0} ⦃queue : Queue ℤ Q k_ready_size⦄
    ⦃registry : UnorderedMap ℤ Lease R k_registry_size⦄ (x y : Exchange Q R) (w : ℤ) (l : Lease)
    (i : ℕ) where
  registered : Acquires w x (y, l, some i) → registry.find w y.dispatcher ≡ some l
  registered (inl (held, _, _, _, e)) = absurd cc
  registered (inr (inl (_, _, _, _, _, e))) = absurd cc
  registered (inr (inr (p, rest, _, _, _, added, _, _, _))) =
      (registry.find_iff w l y.dispatcher).1 ((Perm.mem_iff added).1 mem-cons_self)

  restored :
      (z : Exchange Q R) (rc : ℤ)
      → Acquires w x (y, l, some i)
      → IsExchange z
      → Releases (close_lease l.pid l.gen y) w l.pid l.gen (z, rc)
      → (rc ≡ pos 0) × Restores x z
  unfolding close_lease
  restored z rc a ok (inl (idle, _, _)) = absurd (cc (registered a))
  restored z rc a ok (inr (inl (m, found, opened, _, _))) =
      let same : m ≡ l = cc (registered a) in
      absurd (
        subst
          (λ (k : Lease). ((close_lease l.pid l.gen y).ctrl (to_index k.pid)).closed_gen ≢ k.gen)
          same opened (closed_gen-close y l.pid l.gen))
  restored z rc (inl (held, _, _, _, e)) ok (inr (inr r)) = absurd cc
  restored z rc (inr (inl (_, _, _, _, _, e))) ok (inr (inr r)) = absurd cc
  restored z rc (inr (inr (p, rest, idle, ready, kept, added, taken, at, low))) ok
        (inr (inr (m, found, shut, back, gone, _, e))) =
      let same : m ≡ l =
        cc (registered (inr (inr (p, rest, idle, ready, kept, added, taken, at, low)))) in
      let pid : m.pid ≡ p = cc in
      (
        e,
        (
          ok,
          subst (λ c. Perm c (queue.contents x.ready)) (sym (back ∙ ap (λ c. c ++ m.pid ∷ []) kept))
              (subst (Perm (rest ++ m.pid ∷ [])) (sym ready) (
                subst (λ k. Perm (rest ++ m.pid ∷ []) (k ∷ rest)) pid
                  (perm_append_singleton m.pid rest))),
          (perm-cons (w, l)).0 (
              Perm.trans
                (Perm.symm (
                  subst
                    (λ k.
                      Perm (registry.entries y.dispatcher) ((w, k) ∷ registry.entries z.dispatcher))
                    same gone))
                added),
        ),
      )

  -- In a debug build, where `acquire` on a well-formed exchange leases a partition to a worker, the
  -- worker's closing and releasing that lease succeeds with 0, keeps the exchange well formed, and
  -- leaves the same partitions ready and the same leases registered as before.
  pub release-acquire :
      IsExchange x
      → acquire true w x ≡ some (y, l, some i)
      → (z : Exchange Q R) × (release true w l.pid l.gen (close_lease l.pid l.gen y)
          ≡ some (z, pos 0))
        × Restores x z
  release-acquire ok e =
      let (after, done, kept, a) = acquire-Acquires w x ok in
      let same : after ≡ (y, l, some i) = some_inj after (y, l, some i) (sym done ∙ e) in
      let a' = subst (Acquires w x) same a in
      let y_ok = subst (λ (t : Exchange Q R × Lease × Option ℕ). IsExchange t.0) same kept in
      let ((z, rc), released, z_ok, r) =
        release-Releases (close_lease l.pid l.gen y) w l.pid l.gen
          (close_lease-IsExchange y l.pid l.gen y_ok) in
      let (zero_rc, back) = restored z rc a' z_ok r in
      (
        z,
        subst (λ k. release true w l.pid l.gen (close_lease l.pid l.gen y) ≡ some (z, k)) zero_rc
            released,
        back,
      )
