-- ===== src/EventBus/Pops.antt =====
-- A queue behind the pops of its worker: what it holds, and that it has not less room.
use yellowstone.Prelude.{
  ℕ, zero, suc, ◌≡◌, ◌∙◌, refl, ap, true, List, [], ◌∷◌, arith, inl, inr, Bool-cases, ◌==◌,
}
use yellowstone.Event.{Event}
use yellowstone.Partition.{Partition, Levels, can_accept, pop_first, pop}
use yellowstone.Partition.Queue.{queue_pop}
use yellowstone.Partition.Invariant.{IsPartition, pop-IsPartition, pop_keeps}
use yellowstone.Partition.Refinement.{contents, pop-queue_pop}
use yellowstone.EventBus.Publish.{pop_many}

module _ {ℓ} {Payload : Type ℓ} (e : Event Payload) where
  pop_first-can_accept :
      (levels : Levels Payload) (p : Partition Payload)
      → IsPartition p
      → can_accept e p ≡ true
      → can_accept e (pop_first levels p).0 ≡ true
  unfolding can_accept pop_first
  pop_first-can_accept [] p v h = h
  pop_first-can_accept ((s, []) ∷ levels) p v h = h
  pop_first-can_accept ((s, c ∷ level) ∷ levels) p v h = ground (arith, v.positive, v.bounded)

  pop-can_accept :
      (p : Partition Payload)
      → IsPartition p
      → can_accept e p ≡ true
      → can_accept e (pop p).0 ≡ true
  unfolding pop
  pop-can_accept p v h = elim (Bool-cases (p.size == 0)) [
    | inl none_left ↦ rw none_left h
    | inr some_left ↦ rw some_left (pop_first-can_accept p.levels p v h)
  ]

  -- A queue that can accept an event still can after any number of pops.
  pub pop_many-can_accept :
      (n : ℕ) (p : Partition Payload)
      → IsPartition p
      → can_accept e p ≡ true
      → can_accept e (pop_many n p) ≡ true
  unfolding pop_many
  pop_many-can_accept zero p v h = h
  pop_many-can_accept (suc n) p v h =
      pop_many-can_accept n (pop p).0 (pop-IsPartition p v) (pop-can_accept p v h)

module _ {ℓ} {Payload : Type ℓ} where
  -- The events that are left when the first `n` have been taken.
  unfoldable pub skip : ℕ → List (Event Payload) → List (Event Payload)
  unfolding queue_pop
  skip zero es = es
  skip (suc n) es = skip n (queue_pop es).0

  pub pop_many-IsPartition :
      (n : ℕ) (p : Partition Payload) → IsPartition p → IsPartition (pop_many n p)
  unfolding pop_many
  pop_many-IsPartition zero p v = v
  pop_many-IsPartition (suc n) p v = pop_many-IsPartition n (pop p).0 (pop-IsPartition p v)

  pub pop_many_keeps :
      (n : ℕ) (p : Partition Payload)
      → ((pop_many n p).capacity ≡ p.capacity) × ((pop_many n p).merger ≡ p.merger)
  unfolding pop_many
  pop_many_keeps zero p = (refl, refl)
  pop_many_keeps (suc n) p =
      let rest = pop_many_keeps n (pop p).0 in (rest.0 ∙ (pop_keeps p).0, rest.1 ∙ (pop_keeps p).1)

  pub contents-pop_many :
      (n : ℕ) (p : Partition Payload)
      → IsPartition p
      → contents (pop_many n p) ≡ skip n (contents p)
  unfolding pop_many skip
  contents-pop_many zero p v = refl
  contents-pop_many (suc n) p v =
      contents-pop_many n (pop p).0 (pop-IsPartition p v) ∙ ap (λ r. skip n r.0) (pop-queue_pop p v)
