-- ===== src/Exchange/Invariant.antt =====
-- What holds of an exchange between two calls: no partition is lost, and none is held twice.
use mathlib.Core.List.{Mem, Nodup, Nodup-cons, Nodup-nil}
use native.Mathlib.Bridge.{le_prop}
use native.Mathlib.Decide.{ℕ_discrete}
use mathlib.Core.List.Perm
use mathlib.Core.List.Nodup
use yellowstone.Prelude.{
  ℕ, zero, suc, ◌+◌, ◌≤◌, ◌<◌, ◌≡◌, refl, ap, ◌∙◌, arith, some, List, [], ◌∷◌, ◌++◌, Perm, map,
  length, length-append, length-perm, All, All→Mem, length-map, Nodup-map_inj,
}
use yellowstone.Prelude.Int.{ℤ, pos, to_index, ℤ-set}
use yellowstone.Collections.{Queue, UnorderedMap}
use yellowstone.Exchange.{Lease, Exchange, k_ready_size, k_registry_size, k_max_num_partitions}

-- The partition ids from `n` on, `rounds` of them.
abbrev pub ids : (rounds n : ℕ) → List ℤ
ids zero n = []
ids (suc rounds) n = pos n ∷ ids rounds (suc n)

abbrev pub pid_of : ℤ × Lease → ℤ
pid_of e = e.1.pid

Lease-set : IsSet (ℤ × Lease)
Lease-set = hlevel (ℤ-set, ℕ_discrete)

length-ids : (rounds n : ℕ) → length (ids rounds n) ≡ rounds
length-ids zero n = refl
length-ids (suc rounds) n = ap suc (length-ids rounds (suc n))

-- An id of the range is its index.
abbrev pub Within : ℕ → ℕ → ℤ → Type 0
Within n m p = (pos (to_index p) ≡ p) × (n ≤ to_index p) × (to_index p < m)

Within-prop : (n m : ℕ) (p : ℤ) → IsProp (Within n m p)
Within-prop n m p = hlevel (ℤ-set, le_prop)

ids-Within : (rounds n m k : ℕ) → k ≤ n → n + rounds ≤ m → All (Within k m) (ids rounds n)
unfolding to_index
ids-Within zero n m k low high = tt
ids-Within (suc rounds) n m k low high =
    ((refl, low, omega arith), ids-Within rounds (suc n) m k (omega arith) (omega arith))

pub mem-ids : (p : ℤ) → Mem p (ids k_max_num_partitions 0) → Within 0 k_max_num_partitions p
mem-ids p m =
    All→Mem (Within-prop 0 k_max_num_partitions) (ids k_max_num_partitions 0)
      (ids-Within k_max_num_partitions 0 k_max_num_partitions 0 (omega arith) (omega arith)) m

ids-Nodup : (rounds n : ℕ) → Nodup (ids rounds n)
unfolding to_index
ids-Nodup zero n = Nodup-nil
ids-Nodup (suc rounds) n = Nodup-cons.1 (
  λ m. absurd (
      omega (
        arith,
        (All→Mem (Within-prop (suc n) (suc n + rounds)) (ids rounds (suc n))
            (ids-Within rounds (suc n) (suc n + rounds) (suc n) (omega arith) (omega arith)) m).1,
      )),
  ids-Nodup rounds (suc n),
)

-- The partitions that workers hold.
abbrev pub leased : {R : Type 0} → ⦃registry : UnorderedMap ℤ Lease R k_registry_size⦄ → R → List ℤ
leased ⦃registry⦄ d = map pid_of (registry.entries d)

module _ {Q R : Type 0} ⦃queue : Queue ℤ Q k_ready_size⦄
    ⦃registry : UnorderedMap ℤ Lease R k_registry_size⦄ where
  abbrev pub places : Exchange Q R → List ℤ
  places x = queue.contents x.ready ++ leased x.dispatcher

  -- Every partition is ready once or leased once, and a lease has the last generation of its
  -- partition.
  pub record IsExchange (x : Exchange Q R) : Type 0 where
    pub conserved : Perm (places x) (ids k_max_num_partitions 0)
    pub current :
        (worker_id : ℤ) (l : Lease)
        → registry.find worker_id x.dispatcher ≡ some l
        → (x.ctrl (to_index l.pid)).gen ≡ l.gen

  pub length-places : (x : Exchange Q R) → IsExchange x → length (places x) ≡ k_max_num_partitions
  length-places x v =
      length-perm (places x) (ids k_max_num_partitions 0) v.conserved
      ∙ length-ids k_max_num_partitions 0

  -- The registry has room for another lease whenever a partition is ready.
  pub registry-room :
      (x : Exchange Q R) → IsExchange x → length (registry.entries x.dispatcher) < k_registry_size
  registry-room x v = omega (
    arith,
    length-places x v,
    length-append {0} (queue.contents x.ready) (leased x.dispatcher),
    length-map {0, 0} pid_of (registry.entries x.dispatcher),
  )

  pub places-Within :
      (x : Exchange Q R) {p : ℤ} → IsExchange x → Mem p (places x) → Within 0 k_max_num_partitions p
  places-Within x {p} v m = mem-ids p ((Perm.mem_iff v.conserved).0 m)

  pub places-Nodup : (x : Exchange Q R) → IsExchange x → Nodup (places x)
  places-Nodup x ok = Perm.nodup (Perm.symm ok.conserved) (ids-Nodup k_max_num_partitions 0)

  -- Two workers never hold the same partition.
  pub leases-Exclusive :
      (x : Exchange Q R) (w v : ℤ) (l m : Lease)
      → IsExchange x
      → registry.find w x.dispatcher ≡ some l
      → registry.find v x.dispatcher ≡ some m
      → l.pid ≡ m.pid
      → (w ≡ v) × (l ≡ m)
  leases-Exclusive x w v l m ok a b same =
      let e =
        Nodup-map_inj Lease-set pid_of (registry.entries x.dispatcher) (w, l) (v, m)
          (Nodup.of_append_right (queue.contents x.ready) (places-Nodup x ok))
          ((registry.find_iff w l x.dispatcher).0 a) ((registry.find_iff v m x.dispatcher).0 b)
          same in
      (ap (λ (e : ℤ × Lease). e.0) e, ap (λ (e : ℤ × Lease). e.1) e)
