-- ===== src/Sequencer.antt =====
-- include/yellowstone/sequence.hpp, sequencer.hpp and sequencer.inl and source/sequence.cc: the
-- claims of a single producer on a ring of `n` places.
--
-- The numbers are signed integers; the source's have 64 bits, start at -1 and go up by one a claim.
-- The gating pointer is an address in a store of sequences, which the consumer writes.
pub mod Capacity
pub mod Spinning
pub mod Running
use yellowstone.Prelude.{
  ℕ, ◌+◌, ◌≤◌, ◌≡◌, Bool, true, false, not, Option, none, some, List, [], ◌∷◌, if◌then◌else◌, ◌==◌,
}
use yellowstone.Prelude.Int.{ℤ, pos, negsuc, int_lt, ◌+ℤ◌, ◌-ℤ◌}

abbrev pub Store : Type 0
Store = ℕ → ℤ

-- `Sequence::get` and `Sequence::set` of the sequence at an address.
unfoldable pub get : ℕ → Store → ℤ
get a mem = mem a

unfoldable pub set : ℕ → ℤ → Store → Store
set a v mem b = if b == a then v else mem b

abbrev pub k_initial_cursor : ℤ
k_initial_cursor = negsuc 0

pub record Sequencer : Type 0 where
  pub next_value : ℤ
  pub cursor : ℤ
  pub cached_gating : ℤ
  pub gating : Option ℕ

unfoldable pub new_sequencer : Sequencer
new_sequencer = record {
  next_value = k_initial_cursor;
  cursor = k_initial_cursor;
  cached_gating = k_initial_cursor;
  gating = none;
}

unfoldable pub min_gating : Option ℕ → Store → ℤ
unfolding get
min_gating none mem = k_initial_cursor
min_gating (some a) mem = get a mem

unfoldable pub add_gating_sequence : ℕ → Store → Sequencer → Sequencer
unfolding min_gating
add_gating_sequence a mem s = record s { gating = some a; cached_gating = min_gating (some a) mem }

unfoldable pub remaining_capacity : (n : ℕ) → Store → Sequencer → ℤ
remaining_capacity n mem s = pos n -ℤ (s.next_value -ℤ min_gating s.gating mem)

-- The sequence claimed, or `none` for `kFull`.
unfoldable pub try_next : (n : ℕ) → Store → Sequencer → Sequencer × Option ℤ
try_next n mem s =
    let next = s.next_value +ℤ pos 1 in
    let wrap_point = next -ℤ pos n in
    if int_lt s.cached_gating wrap_point
    then (let g = min_gating s.gating mem in
        if int_lt g wrap_point
        then (record s { cached_gating = g }, none)
        else (record s { cached_gating = g; next_value = next }, some next))
    else (record s { next_value = next }, some next)

-- The loop of `next` over the stores that it sees, one for each round; `none` while it has not left
-- the loop.
unfoldable pub next_loop : (wrap_point : ℤ) → List Store → Sequencer → Option Sequencer
next_loop wrap_point [] s = none
next_loop wrap_point (mem ∷ seen) s =
    let after : Sequencer = record s { cached_gating = min_gating s.gating mem } in
    let rest = next_loop wrap_point seen after in
    if not (int_lt (min_gating s.gating mem) wrap_point) then some after else rest

unfoldable pub next : (n : ℕ) → (seen : List Store) → Sequencer → Option (Sequencer × ℤ)
unfolding next_loop
next n seen s =
    let next = s.next_value +ℤ pos 1 in
    let wrap_point = next -ℤ pos n in
    if int_lt s.cached_gating wrap_point
    then elim (next_loop wrap_point seen s) [
      | none ↦ none
      | some after ↦ some (record after { next_value = next }, next)
    ]
    else some (record s { next_value = next }, next)

unfoldable pub publish : ℤ → Sequencer → Sequencer
publish seq s = record s { cursor = seq }
