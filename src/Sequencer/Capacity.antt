-- ===== src/Sequencer/Capacity.antt =====
-- The claims never run more than the ring's size ahead of the consumer, and the cached gating
-- sequence decides as the present one would.
use yellowstone.Prelude.{
  ℕ, suc, ◌+◌, ◌-◌, ◌≤◌, ◌≡◌, ◌⊎◌, inl, inr, refl, ap, sym, subst, ◌∙◌, true, Option, none, some,
  if◌then◌else◌, arith, Bool-cases,
}
use yellowstone.Prelude.Int.{
  ℤ, pos, int_lt, ◌+ℤ◌, ◌-ℤ◌, ◌≤ℤ◌, pos_part, neg_part, int_lt_sound, int_lt_false, int_lt_of_lt,
  +ℤ_parts, -ℤ_parts, eq_of_parts,
}
use yellowstone.Sequencer.{Sequencer, Store, min_gating, remaining_capacity, try_next}

parts_of_eq : (a b : ℤ) → a ≡ b → pos_part a + neg_part b ≡ pos_part b + neg_part a
parts_of_eq a b e = subst (λ c. pos_part a + neg_part c ≡ pos_part c + neg_part a) e refl

module _ (n : ℕ) where
  -- The cached gating sequence is not ahead of the present one, which is not ahead of the claims, and
  -- the claims are `n` ahead of it at most.
  pub record IsSequencer (mem : Store) (s : Sequencer) : Type 0 where
    pub cached : s.cached_gating ≤ℤ min_gating s.gating mem
    pub behind : min_gating s.gating mem ≤ℤ s.next_value
    pub within : s.next_value ≤ℤ min_gating s.gating mem +ℤ pos n

  -- The claim without a cache: `none` exactly when the place was not yet consumed.
  unfoldable pub claim : Store → Sequencer → Option ℤ
  claim mem s =
      if int_lt (min_gating s.gating mem) (s.next_value +ℤ pos 1 -ℤ pos n)
      then none
      else some (s.next_value +ℤ pos 1)

  module _ (mem : Store) (s : Sequencer) where
    -- `used` of `remaining_capacity` is a number up to `n`.
    pub remaining_lem :
        IsSequencer mem s
        → (used : ℕ) × (s.next_value ≡ min_gating s.gating mem +ℤ pos used)
          × (used ≤ n)
          × (remaining_capacity n mem s ≡ pos (n - used))
    unfolding remaining_capacity
    remaining_lem v =
        let g = min_gating s.gating mem in
        let used : ℕ = pos_part s.next_value + neg_part g - (pos_part g + neg_part s.next_value) in
        let ahead = v.behind in
        let room = v.within in
        let total = +ℤ_parts g (pos n) in
        let sum = +ℤ_parts g (pos used) in
        let d = -ℤ_parts s.next_value g in
        let e = -ℤ_parts (pos n) (s.next_value -ℤ g) in
        (
          used,
          eq_of_parts s.next_value (g +ℤ pos used) (omega arith),
          omega arith,
          eq_of_parts (pos n -ℤ (s.next_value -ℤ g)) (pos (n - used)) (omega arith),
        )

    abbrev pub upcoming : ℤ
    upcoming = s.next_value +ℤ pos 1

    -- The place of the next claim is free.
    abbrev pub Free : ℤ → Type 0
    Free g = upcoming -ℤ pos n ≤ℤ g

    pub claimed-IsSequencer :
        (c : ℤ)
        → IsSequencer mem s
        → c ≤ℤ min_gating s.gating mem
        → Free (min_gating s.gating mem)
        → IsSequencer mem (record s { cached_gating = c; next_value = upcoming })
    claimed-IsSequencer c v cached free =
        let g = min_gating s.gating mem in
        let up = +ℤ_parts s.next_value (pos 1) in
        let wrap = -ℤ_parts upcoming (pos n) in
        let top = +ℤ_parts g (pos n) in
        let low = v.behind in record { cached = cached; behind = omega arith; within = omega arith }

    Free-remaining :
        IsSequencer mem s
        → Free (min_gating s.gating mem)
        → (k : ℕ) × (remaining_capacity n mem s ≡ pos (suc k))
    Free-remaining v free =
        let g = min_gating s.gating mem in
        let (used, ahead, low, e) = remaining_lem v in
        let up = +ℤ_parts s.next_value (pos 1) in
        let wrap = -ℤ_parts upcoming (pos n) in
        let sum = +ℤ_parts g (pos used) in
        let same : pos_part s.next_value + neg_part (g +ℤ pos used)
            ≡ pos_part (g +ℤ pos used) + neg_part s.next_value =
          parts_of_eq s.next_value (g +ℤ pos used) ahead in
        (n - used - 1, e ∙ ap pos (omega arith))

    full-remaining :
        IsSequencer mem s
        → int_lt (min_gating s.gating mem) (upcoming -ℤ pos n) ≡ true
        → remaining_capacity n mem s ≡ pos 0
    full-remaining v full =
        let g = min_gating s.gating mem in
        let (used, ahead, low, e) = remaining_lem v in
        let up = +ℤ_parts s.next_value (pos 1) in
        let wrap = -ℤ_parts upcoming (pos n) in
        let sum = +ℤ_parts g (pos used) in
        let lt = int_lt_sound g (upcoming -ℤ pos n) full in
        let same : pos_part s.next_value + neg_part (g +ℤ pos used)
            ≡ pos_part (g +ℤ pos used) + neg_part s.next_value =
          parts_of_eq s.next_value (g +ℤ pos used) ahead in
        e ∙ ap pos (omega arith)

    -- The two results of a claim.
    abbrev pub Claims : Sequencer × Option ℤ → Type 0
    Claims (after, claimed) =
        ((remaining_capacity n mem s ≡ pos 0)
          × (claimed ≡ none)
          × (after.next_value ≡ s.next_value))
        ⊎ ((k : ℕ) × (remaining_capacity n mem s ≡ pos (suc k))
            × (claimed ≡ some (s.next_value +ℤ pos 1))
            × (after.next_value ≡ s.next_value +ℤ pos 1))

    -- On a well-formed sequencer `try_next` claims exactly when a claim that looked at the consumer
    -- itself would, and the same number: it is full exactly when `remaining_capacity` is 0, and
    -- otherwise claims the next number; the sequencer stays well formed.
    pub try_next-Claims :
        IsSequencer mem s
        → IsSequencer mem (try_next n mem s).0
          × ((try_next n mem s).1 ≡ claim mem s)
          × Claims (try_next n mem s)
    unfolding claim try_next
    try_next-Claims v =
        let g = min_gating s.gating mem in
        let wrap = upcoming -ℤ pos n in
        let behind = v.cached in
        elim (Bool-cases (int_lt g wrap)) [
          | inl full ↦
              let ahead = int_lt_sound g wrap full in
              let old = int_lt_of_lt s.cached_gating wrap (omega arith) in
              let e : try_next n mem s ≡ (record s { cached_gating = g }, none) = ground arith in
              let c : claim mem s ≡ none = ground arith in
              subst (λ r. IsSequencer mem r.0 × (r.1 ≡ claim mem s) × Claims r) (sym e)
                (
                  record { cached = omega arith; behind = v.behind; within = v.within },
                  sym c,
                  inl (full-remaining v full, refl, refl),
                )
          | inr room ↦
              let free = int_lt_false g wrap room in
              let (k, left) = Free-remaining v free in
              let c : claim mem s ≡ some upcoming = ground arith in
              elim (Bool-cases (int_lt s.cached_gating wrap)) [
                | inl old ↦
                    let e : try_next n mem s
                        ≡ (record s { cached_gating = g; next_value = upcoming }, some upcoming) =
                      ground arith in
                    subst (λ r. IsSequencer mem r.0 × (r.1 ≡ claim mem s) × Claims r) (sym e)
                      (claimed-IsSequencer g v (omega arith) free, sym c, inr (k, left, refl, refl))
                | inr known ↦
                    let e : try_next n mem s ≡ (record s { next_value = upcoming }, some upcoming) =
                      ground arith in
                    subst (λ r. IsSequencer mem r.0 × (r.1 ≡ claim mem s) × Claims r) (sym e)
                      (
                        claimed-IsSequencer s.cached_gating v v.cached free,
                        sym c,
                        inr (k, left, refl, refl),
                      )
              ]
        ]
