-- ===== src/EventBus/Slots.antt =====
-- The array of subscribers: what is stored at an index, and how many places are taken.
use yellowstone.Prelude.{
  ℕ, zero, suc, ◌+◌, ◌≤◌, ◌≡◌, refl, ap, subst, none, some, List, [], ◌∷◌, map, arith, length,
  get_elem?, set, replicate,
}
use yellowstone.Partition.Invariant.{IsPartition}
use yellowstone.Partition.{Merger}
use yellowstone.EventBus.{Subscriber, Subscribers, snapshot, free_slot}

module _ {ℓ} {Payload Handler : Type ℓ} where
  -- The subscriber ids in the order of the array.
  abbrev pub ids : Subscribers Payload Handler → List ℕ
  ids ss = map (λ (s : Subscriber Payload Handler). s.id) (snapshot ss)

  -- A subscriber stored at `id`: it knows its id, and its partition is well formed and carries the
  -- bus's capacity and merger.
  pub record IsEntry (capacity : ℕ) (merger : Merger Payload) (id : ℕ)
      (s : Subscriber Payload Handler) : Type ℓ where
    pub placed : s.id ≡ id
    pub queue : IsPartition s.partition
    pub capacity_same : s.partition.capacity ≡ capacity
    pub merger_same : s.partition.merger ≡ merger

  module _ (capacity : ℕ) (merger : Merger Payload) where
    abbrev pub IsSlots : ℕ → Subscribers Payload Handler → Type ℓ
    IsSlots id [] = Unit
    IsSlots id (none ∷ ss) = IsSlots (id + 1) ss
    IsSlots id (some s ∷ ss) = IsEntry capacity merger id s × IsSlots (id + 1) ss

    IsEntry-cast :
        (i j : ℕ) (s : Subscriber Payload Handler)
        → i ≡ j
        → IsEntry capacity merger i s
        → IsEntry capacity merger j s
    IsEntry-cast i j s e = subst (λ n. IsEntry capacity merger n s) e

    pub slot-IsEntry :
        (id i : ℕ) (ss : Subscribers Payload Handler) (s : Subscriber Payload Handler)
        → IsSlots id ss
        → get_elem? ss i ≡ some (some s)
        → IsEntry capacity merger (id + i) s
    slot-IsEntry id i [] s h e = absurd (cc)
    slot-IsEntry id zero (none ∷ ss) s h e = absurd (cc)
    slot-IsEntry id zero (some t ∷ ss) s h e =
        IsEntry-cast id (id + 0) s (omega arith)
          (let found : t ≡ s = cc in subst (IsEntry capacity merger id) found h.0)
    slot-IsEntry id (suc i) (none ∷ ss) s h e =
        IsEntry-cast (id + 1 + i) (id + suc i) s (omega arith) (slot-IsEntry (id + 1) i ss s h e)
    slot-IsEntry id (suc i) (some t ∷ ss) s h e =
        IsEntry-cast (id + 1 + i) (id + suc i) s (omega arith) (slot-IsEntry (id + 1) i ss s h.1 e)

    pub set-IsSlots :
        (id i : ℕ) (ss : Subscribers Payload Handler) (s : Subscriber Payload Handler)
        → IsSlots id ss
        → IsEntry capacity merger (id + i) s
        → IsSlots id (set ss i (some s))
    set-IsSlots id i [] s h e = tt
    set-IsSlots id zero (none ∷ ss) s h e = (IsEntry-cast (id + 0) id s (omega arith) e, h)
    set-IsSlots id zero (some t ∷ ss) s h e = (IsEntry-cast (id + 0) id s (omega arith) e, h.1)
    set-IsSlots id (suc i) (none ∷ ss) s h e =
        set-IsSlots (id + 1) i ss s h (IsEntry-cast (id + suc i) (id + 1 + i) s (omega arith) e)
    set-IsSlots id (suc i) (some t ∷ ss) s h e = (
      h.0,
      set-IsSlots (id + 1) i ss s h.1 (IsEntry-cast (id + suc i) (id + 1 + i) s (omega arith) e),
    )

    pub clear-IsSlots :
        (id i : ℕ) (ss : Subscribers Payload Handler) → IsSlots id ss → IsSlots id (set ss i none)
    clear-IsSlots id i [] h = tt
    clear-IsSlots id zero (none ∷ ss) h = h
    clear-IsSlots id zero (some t ∷ ss) h = h.1
    clear-IsSlots id (suc i) (none ∷ ss) h = clear-IsSlots (id + 1) i ss h
    clear-IsSlots id (suc i) (some t ∷ ss) h = (h.0, clear-IsSlots (id + 1) i ss h.1)

  -- The number of places that are taken.
  abbrev pub occupied : Subscribers Payload Handler → ℕ
  occupied ss = length (snapshot ss)

  pub occupied-le : (ss : Subscribers Payload Handler) → occupied ss ≤ length ss
  unfolding snapshot
  occupied-le [] = omega arith
  occupied-le (none ∷ ss) = omega (arith, occupied-le ss)
  occupied-le (some s ∷ ss) = omega (arith, occupied-le ss)

  pub fill-occupied :
      (ss : Subscribers Payload Handler) (i : ℕ) (s : Subscriber Payload Handler)
      → get_elem? ss i ≡ some none
      → occupied (set ss i (some s)) ≡ occupied ss + 1
  unfolding snapshot
  fill-occupied [] i s e = absurd (cc)
  fill-occupied (none ∷ ss) zero s e = omega arith
  fill-occupied (some t ∷ ss) zero s e = absurd (cc)
  fill-occupied (none ∷ ss) (suc i) s e = fill-occupied ss i s e
  fill-occupied (some t ∷ ss) (suc i) s e = omega (arith, fill-occupied ss i s e)

  pub clear-occupied :
      (ss : Subscribers Payload Handler) (i : ℕ) (s : Subscriber Payload Handler)
      → get_elem? ss i ≡ some (some s)
      → occupied (set ss i none) + 1 ≡ occupied ss
  unfolding snapshot
  clear-occupied [] i s e = absurd (cc)
  clear-occupied (none ∷ ss) zero s e = absurd (cc)
  clear-occupied (some t ∷ ss) zero s e = omega arith
  clear-occupied (none ∷ ss) (suc i) s e = clear-occupied ss i s e
  clear-occupied (some t ∷ ss) (suc i) s e = omega (arith, clear-occupied ss i s e)

  -- A subscriber replaced by one with its id.
  pub replace-ids :
      (ss : Subscribers Payload Handler) (i : ℕ) (s t : Subscriber Payload Handler)
      → get_elem? ss i ≡ some (some s)
      → t.id ≡ s.id
      → ids (set ss i (some t)) ≡ ids ss
  unfolding snapshot
  replace-ids [] i s t e same = absurd (cc)
  replace-ids (none ∷ ss) zero s t e same = absurd (cc)
  replace-ids (some r ∷ ss) zero s t e same =
      let found : r ≡ s = cc in ap (λ (n : ℕ). n ∷ ids ss) (rw found same)
  replace-ids (none ∷ ss) (suc i) s t e same = replace-ids ss i s t e same
  replace-ids (some r ∷ ss) (suc i) s t e same = ap (◌∷◌ r.id) (replace-ids ss i s t e same)

  pub length-ids : (ss : Subscribers Payload Handler) → length (ids ss) ≡ occupied ss
  length-ids ss = go (snapshot ss)
    where
      go :
          (xs : List (Subscriber Payload Handler))
          → length (map (λ (s : Subscriber Payload Handler). s.id) xs) ≡ length xs
      go [] = refl
      go (x ∷ xs) = ap suc (go xs)

  -- The loop of `subscribe` finds the first empty place, and none only in a full array.
  pub free_slot-empty :
      (id j : ℕ) (ss : Subscribers Payload Handler)
      → free_slot id ss ≡ some j
      → (i : ℕ) × (j ≡ id + i) × (get_elem? ss i ≡ some none)
  unfolding free_slot
  free_slot-empty id j [] e = absurd (cc)
  free_slot-empty id j (none ∷ ss) e = let same : id ≡ j = cc in (0, omega arith, refl)
  free_slot-empty id j (some s ∷ ss) e =
      let (i, at, empty) = free_slot-empty (id + 1) j ss e in (suc i, omega arith, empty)

  pub free_slot_full :
      (id : ℕ) (ss : Subscribers Payload Handler) → free_slot id ss ≡ none → occupied ss ≡ length ss
  unfolding free_slot snapshot
  free_slot_full id [] e = refl
  free_slot_full id (none ∷ ss) e = absurd (cc)
  free_slot_full id (some s ∷ ss) e = omega (arith, free_slot_full (id + 1) ss e)

module _ {ℓ} (Payload Handler : Type ℓ) (capacity : ℕ) (merger : Merger Payload) where
  pub replicate-IsSlots :
      (id n : ℕ) → IsSlots {Handler = Handler} capacity merger id (replicate n none)
  replicate-IsSlots id zero = tt
  replicate-IsSlots id (suc n) = replicate-IsSlots (id + 1) n

module _ {ℓ} (Payload Handler : Type ℓ) where
  pub replicate-snapshot :
      (n : ℕ) → snapshot {Payload = Payload} {Handler = Handler} (replicate n none) ≡ []
  unfolding snapshot
  replicate-snapshot zero = refl
  replicate-snapshot (suc n) = replicate-snapshot n
