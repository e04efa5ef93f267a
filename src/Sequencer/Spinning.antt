-- ===== src/Sequencer/Spinning.antt =====
-- `next`, whose loop ends once the consumer has freed a place, and all that producer and consumer do
-- together.
use yellowstone.Prelude.{ℕ, ◌≡◌, inl, inr, refl, some, List, [], ◌∷◌, ◌++◌, arith, Bool-cases}
use yellowstone.Prelude.Int.{ℤ, pos, int_lt, ◌+ℤ◌, ◌-ℤ◌, ◌≤ℤ◌, int_lt_false, int_lt_of_le}
use yellowstone.Sequencer.{Sequencer, Store, min_gating, next, next_loop}

-- The loop ends at the first store with a free place, and remembers its gating sequence.
next_loop-ends :
    (wrap : ℤ) (seen rest : List Store) (mem : Store) (s : Sequencer)
    → wrap ≤ℤ min_gating s.gating mem
    → (m : Store) × (next_loop wrap (seen ++ mem ∷ rest) s
        ≡ some (record s { cached_gating = min_gating s.gating m }))
      × (wrap ≤ℤ min_gating s.gating m)
unfolding next_loop
next_loop-ends wrap [] rest mem s free =
    let e = int_lt_of_le (min_gating s.gating mem) wrap free in (mem, ground arith, free)
next_loop-ends wrap (m ∷ seen) rest mem s free =
    elim (Bool-cases (int_lt (min_gating s.gating m) wrap)) [
      | inr ends ↦ (m, ground arith, int_lt_false (min_gating s.gating m) wrap ends)
      | inl full ↦
          let (k, e, room) =
            next_loop-ends wrap seen rest mem (record s { cached_gating = min_gating s.gating m })
              free in
          (k, ground (arith, e), room)
    ]

module _ (n : ℕ) (s : Sequencer) where
  -- `next` returns, with the number behind the last claim, as soon as it has seen the consumer far
  -- enough, however many rounds it has spun before.
  pub next-returns :
      (seen rest : List Store) (mem : Store)
      → s.next_value +ℤ pos 1 -ℤ pos n ≤ℤ min_gating s.gating mem
      → (after : Sequencer) × (next n (seen ++ mem ∷ rest) s ≡ some (after, s.next_value +ℤ pos 1))
        × (after.next_value ≡ s.next_value +ℤ pos 1)
        × (after.cursor ≡ s.cursor)
  unfolding next
  next-returns seen rest mem free =
      let up = s.next_value +ℤ pos 1 in
      let (m, e, room) = next_loop-ends (up -ℤ pos n) seen rest mem s free in
      elim (Bool-cases (int_lt s.cached_gating (up -ℤ pos n))) [
        | inl full ↦ (
          record s { cached_gating = min_gating s.gating m; next_value = up },
          ground (arith, e),
          refl,
          refl,
        )
        | inr known ↦ (record s { next_value = up }, ground arith, refl, refl)
      ]
