-- ===== src/Scheduler/Time.antt =====
-- `TimePoint` of scheduler.hpp: signed ticks of the system clock, and their order.
use yellowstone.Prelude.{ℕ, ◌≡◌, ap, Bool, true, false, not, ltb, arith, if◌then◌else◌}
use yellowstone.Prelude.Int.{ℤ, pos, negsuc, int_eq, int_lt}

-- The body of `EarlierDeadline`, on a deadline and an insertion order on either side.
unfoldable pub later : ℤ → ℕ → ℤ → ℕ → Bool
unfolding int_eq int_lt
later d i e j = if not (int_eq d e) then int_lt e d else ltb j i

pub later-asym : (d : ℤ) (i : ℕ) (e : ℤ) (j : ℕ) → later d i e j ≡ true → later e j d i ≡ false
unfolding later
later-asym (pos a) i (pos b) j h = ground arith
later-asym (pos a) i (negsuc b) j h = ground arith
later-asym (negsuc a) i (pos b) j h = ground arith
later-asym (negsuc a) i (negsuc b) j h = ground arith

pub later-neg_trans :
    (d : ℤ) (i : ℕ) (e : ℤ) (j : ℕ) (f : ℤ) (l : ℕ)
    → later d i e j ≡ false
    → later e j f l ≡ false
    → later d i f l ≡ false
unfolding later
later-neg_trans (pos a) i (pos b) j (pos c) l h g = ground arith
later-neg_trans (pos a) i (pos b) j (negsuc c) l h g = ground arith
later-neg_trans (pos a) i (negsuc b) j (pos c) l h g = ground arith
later-neg_trans (pos a) i (negsuc b) j (negsuc c) l h g = ground arith
later-neg_trans (negsuc a) i (pos b) j (pos c) l h g = ground arith
later-neg_trans (negsuc a) i (pos b) j (negsuc c) l h g = ground arith
later-neg_trans (negsuc a) i (negsuc b) j (pos c) l h g = ground arith
later-neg_trans (negsuc a) i (negsuc b) j (negsuc c) l h g = ground arith

-- The order is total: neither later means the same.
pub later-antisym :
    (d : ℤ) (i : ℕ) (e : ℤ) (j : ℕ)
    → later d i e j ≡ false
    → later e j d i ≡ false
    → (d ≡ e) × (i ≡ j)
unfolding later
later-antisym (pos a) i (pos b) j h g =
    let same : a ≡ b = ground arith in (ap pos same, ground arith)
later-antisym (pos a) i (negsuc b) j h g = absurd (ground arith)
later-antisym (negsuc a) i (pos b) j h g = absurd (ground arith)
later-antisym (negsuc a) i (negsuc b) j h g =
    let same : a ≡ b = ground arith in (ap negsuc same, ground arith)
