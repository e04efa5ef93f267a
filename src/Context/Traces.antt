-- ===== src/Context/Traces.antt =====
-- The trace of an interpreter state.
use yellowstone.Prelude.{
  ℕ, zero, suc, ◌+◌, ◌-◌, ◌≤◌, ◌≡◌, ◌≢◌, refl, ap, List, [], ◌∷◌, ◌++◌, arith, Bool-cases, inl, inr,
  leb, length, length-append,
}
use yellowstone.Context.{drop, push_trace}

length-drop : (n : ℕ) (xs : List ℕ) → length (drop n xs) ≡ length xs - n
unfolding drop
length-drop zero xs = omega arith
length-drop (suc n) [] = omega arith
length-drop (suc n) (x ∷ xs) = omega (arith, length-drop n xs)

drop_zero : (xs : List ℕ) → drop 0 xs ≡ xs
unfolding drop
drop_zero xs = refl

-- A trace with a limit keeps its last codes: behind a push it has one code more, or as many as the
-- limit allows, it never exceeds the limit even if it did before, and it ends with the new code behind
-- the latest of the old ones, in their order.
pub push_trace-Bounded :
    (limit code : ℕ) (trace : List ℕ)
    → limit ≢ 0
    → (k : ℕ) × (push_trace limit code trace ≡ drop k trace ++ code ∷ [])
      × (length (push_trace limit code trace) ≤ limit)
      × (k ≡ length trace + 1 - limit)
unfolding push_trace
push_trace-Bounded limit code trace limited =
    let k : ℕ = length trace + 1 - limit in
    let size = length-append (drop k trace) (code ∷ []) in
    let left = length-drop k trace in
    let e : push_trace limit code trace ≡ drop k trace ++ code ∷ [] =
      elim (Bool-cases (leb limit (length trace))) [
        | inl full ↦ ground arith
        | inr room ↦
            let none_dropped : k ≡ 0 = ground arith in ground (arith, none_dropped, drop_zero trace)
      ] in
    (k, e, omega (arith, ap length e, size, left), refl)
