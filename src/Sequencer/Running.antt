-- ===== src/Sequencer/Running.antt =====
-- What a producer and its consumer do together.
use yellowstone.Prelude.{
  ℕ, ◌-◌, ◌≤◌, ◌≡◌, sym, subst, some, [], ◌∷◌, arith, Bool-cases, inl, inr, ==_refl,
}
use yellowstone.Prelude.Int.{ℤ, pos, int_lt, int_lt_false, ◌+ℤ◌, ◌-ℤ◌, ◌≤ℤ◌, +ℤ_parts}
use yellowstone.Sequencer.{
  Sequencer, Store, set, min_gating, try_next, next, publish, new_sequencer, add_gating_sequence,
  k_initial_cursor, remaining_capacity,
}
use yellowstone.Sequencer.Capacity.{
  IsSequencer, try_next-Claims, remaining_lem, claimed-IsSequencer,
}

-- The producer claims, publishes and attaches a consumer that has not read past its claims; the
-- consumer moves its sequence forward, up to the claims at most.
pub data Run (n : ℕ) : Store → Sequencer → Type 0 where
  made : (mem : Store) → Run n mem new_sequencer
  attached :
      (mem : Store) (s : Sequencer) (a : ℕ)
      → Run n mem s
      → min_gating s.gating mem ≤ℤ mem a
      → mem a ≤ℤ s.next_value
      → Run n mem (add_gating_sequence a mem s)
  claimed : (mem : Store) (s : Sequencer) → Run n mem s → Run n mem (try_next n mem s).0
  waited :
      (mem : Store) (s after : Sequencer) (out : ℤ)
      → Run n mem s
      → next n (mem ∷ []) s ≡ some (after, out)
      → Run n mem after
  published : (mem : Store) (s : Sequencer) (seq : ℤ) → Run n mem s → Run n mem (publish seq s)
  consumed :
      (mem : Store) (s : Sequencer) (a : ℕ) (v : ℤ)
      → Run n mem s
      → s.gating ≡ some a
      → mem a ≤ℤ v
      → v ≤ℤ s.next_value
      → Run n (set a v mem) s

module _ (n : ℕ) where
  made-IsSequencer : (mem : Store) → IsSequencer n mem new_sequencer
  unfolding new_sequencer min_gating
  made-IsSequencer mem =
      let top = +ℤ_parts k_initial_cursor (pos n) in
      record { cached = omega arith; behind = omega arith; within = omega arith }

  attached-IsSequencer :
      (mem : Store) (s : Sequencer) (a : ℕ)
      → IsSequencer n mem s
      → min_gating s.gating mem ≤ℤ mem a
      → mem a ≤ℤ s.next_value
      → IsSequencer n mem (add_gating_sequence a mem s)
  unfolding add_gating_sequence min_gating
  attached-IsSequencer mem s a v low high =
      let before = +ℤ_parts (min_gating s.gating mem) (pos n) in
      let after = +ℤ_parts (mem a) (pos n) in
      let room = v.within in record { cached = omega arith; behind = high; within = omega arith }

  published-IsSequencer :
      (mem : Store) (s : Sequencer) (seq : ℤ)
      → IsSequencer n mem s
      → IsSequencer n mem (publish seq s)
  unfolding publish
  published-IsSequencer mem s seq v = record {
    cached = v.cached;
    behind = v.behind;
    within = v.within;
  }

  consumed-IsSequencer :
      (mem : Store) (s : Sequencer) (a : ℕ) (w : ℤ)
      → IsSequencer n mem s
      → s.gating ≡ some a
      → mem a ≤ℤ w
      → w ≤ℤ s.next_value
      → IsSequencer n (set a w mem) s
  unfolding min_gating set
  consumed-IsSequencer mem s a w v at low high =
      let old : min_gating s.gating mem ≡ mem a = ground arith in
      let new : min_gating s.gating (set a w mem) ≡ w = ground (arith, ==_refl a) in
      let cached : s.cached_gating ≤ℤ mem a = subst (λ g. s.cached_gating ≤ℤ g) old v.cached in
      let room : s.next_value ≤ℤ mem a +ℤ pos n =
        subst (λ g. s.next_value ≤ℤ g +ℤ pos n) old v.within in
      let before = +ℤ_parts (mem a) (pos n) in
      let after = +ℤ_parts w (pos n) in
      record {
        cached = subst (λ g. s.cached_gating ≤ℤ g) (sym new) (omega arith);
        behind = subst (λ g. g ≤ℤ s.next_value) (sym new) high;
        within = subst (λ g. s.next_value ≤ℤ g +ℤ pos n) (sym new) (omega arith);
      }

  waited-IsSequencer :
      (mem : Store) (s after : Sequencer) (out : ℤ)
      → IsSequencer n mem s
      → next n (mem ∷ []) s ≡ some (after, out)
      → IsSequencer n mem after
  unfolding next
  waited-IsSequencer mem s after out v e =
      let g = min_gating s.gating mem in
      let wrap = s.next_value +ℤ pos 1 -ℤ pos n in
      elim (Bool-cases (int_lt s.cached_gating wrap)) [
        | inr known ↦
            let free = int_lt_false s.cached_gating wrap known in
            let low = v.cached in
            let same : after ≡ record s { next_value = s.next_value +ℤ pos 1 } = ground arith in
            subst (IsSequencer n mem) (sym same)
              (claimed-IsSequencer n mem s s.cached_gating v low (omega arith))
        | inl old ↦ elim (Bool-cases (int_lt g wrap)) [
          | inl full ↦ absurd (ground arith)
          | inr ends ↦
              let same : after
                  ≡ record s { cached_gating = g; next_value = s.next_value +ℤ pos 1 } =
                ground arith in
              subst (IsSequencer n mem) (sym same)
                (claimed-IsSequencer n mem s g v (omega arith) (int_lt_false g wrap ends))
        ]
      ]

  pub Run-IsSequencer : {mem : Store} {s : Sequencer} → Run n mem s → IsSequencer n mem s
  Run-IsSequencer (made mem) = made-IsSequencer mem
  Run-IsSequencer (attached mem s a r low high) =
      attached-IsSequencer mem s a (Run-IsSequencer r) low high
  Run-IsSequencer (claimed mem s r) = (try_next-Claims n mem s (Run-IsSequencer r)).0
  Run-IsSequencer (waited mem s after out r e) =
      waited-IsSequencer mem s after out (Run-IsSequencer r) e
  Run-IsSequencer (published mem s seq r) = published-IsSequencer mem s seq (Run-IsSequencer r)
  Run-IsSequencer (consumed mem s a w r at low high) =
      consumed-IsSequencer mem s a w (Run-IsSequencer r) at low high

  -- While a consumer only moves forward and not past the claims, the claims are never more than the
  -- `n` places of the ring ahead of it, and `remaining_capacity` is the number of free places, so
  -- between 0 and `n`.
  pub Run-Bounded :
      (mem : Store) (s : Sequencer)
      → Run n mem s
      → (used : ℕ) × (s.next_value ≡ min_gating s.gating mem +ℤ pos used)
        × (used ≤ n)
        × (remaining_capacity n mem s ≡ pos (n - used))
  Run-Bounded mem s r = remaining_lem n mem s (Run-IsSequencer r)
