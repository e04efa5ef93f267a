-- ===== src/Tests/Partitions.antt =====
-- A partition for two events whose merger adds.
use yellowstone.Prelude.{
  ℕ, ◌+◌, ◌≡◌, ◌≢◌, ◌∙◌, ◌↔◌, refl, sym, subst, inl, inr, true, none, some, [], ◌∷◌,
}
use yellowstone.Event.{Event}
use yellowstone.Exceptions.{ok}
use yellowstone.Partition.{
  Merger, Partition, inserted, full, make_partition, can_accept, push, pop, push_new, find_index,
  push_back_at, pop_first,
}
use yellowstone.Partition.Queue.{queue_push, queue_pop, IsAscending}
use yellowstone.Partition.Invariant.{IsPartition, make_partition-Makes, push-IsPartition}
use yellowstone.Partition.Refinement.{
  contents, push_view, pop_view, push-queue_push, can_accept-push, pop-queue_pop,
}
use yellowstone.Partition.Ordering.{AtLeast, contents-IsAscending, pop_lowest, Placed, push-Placed}

abbrev add : Merger ℕ
add = record { leaves = λ a b. a + b; throws = λ a b. none }

abbrev p0 : Partition ℕ
p0 = record { capacity = 2; merger = add; levels = []; index = []; size = 0; next_position = 0 }

made : make_partition 2 (some add) ≡ some p0
unfolding make_partition
made = refl

p0-IsPartition : IsPartition p0
p0-IsPartition = elim (make_partition-Makes 2 (some add)) [
  | inl (e, _) ↦ absurd (let m = made in let clash : some p0 ≡ none = sym m ∙ e in cc)
  | inr (p, e, v, _, _, _) ↦
      let m = made in
      let same : some p ≡ some p0 = sym e ∙ m in
      let same_p : p ≡ p0 = cc in subst IsPartition same_p v
]

abbrev late : Event ℕ
late = record { id = 1; superstep = 4; sequence = 0; payload = 5 }

abbrev early : Event ℕ
early = record { id = 2; superstep = 0; sequence = 1; payload = 6 }

abbrev p1 : Partition ℕ
p1 = (push late p0).0

p1-IsPartition : IsPartition p1
p1-IsPartition = push-IsPartition late p0 p0-IsPartition

push-queue_push_example :
    push_view (push late p1) ≡ queue_push p1.merger p1.capacity late (contents p1)
push-queue_push_example = push-queue_push late p1 p1-IsPartition

pop-queue_pop_example : pop_view (pop p1) ≡ queue_pop (contents p1)
pop-queue_pop_example = pop-queue_pop p1 p1-IsPartition

can_accept-push_example : (can_accept early p1 ≡ true) ↔ ((push early p1).1 ≢ ok full)
can_accept-push_example = can_accept-push early p1 p1-IsPartition

contents-IsAscending_example : IsAscending (contents p1)
contents-IsAscending_example = contents-IsAscending p1 p1-IsPartition

popped : (pop p1).1 ≡ some late
unfolding pop pop_first push push_new find_index push_back_at
popped = refl

pop_lowest_example : (contents p1 ≡ late ∷ contents (pop p1).0) × AtLeast 4 (contents (pop p1).0)
pop_lowest_example = pop_lowest late p1 p1-IsPartition popped

accepted : (push early p1).1 ≡ ok inserted
unfolding push push_new find_index push_back_at
accepted = refl

push-Placed_example : Placed early (contents p1) (contents (push early p1).0)
push-Placed_example = push-Placed early p1 p1-IsPartition accepted
