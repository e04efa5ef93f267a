-- ===== src/EventBus/Construction.antt =====
-- The constructor of the bus.
use yellowstone.Prelude.{
  ℕ, zero, suc, ◌≡◌, ◌⊎◌, refl, sym, ap, Bool, false, Option, none, [], arith, length, inl, inr,
  ◌==◌, length-replicate,
}
use yellowstone.Partition.{Merger}
use yellowstone.EventBus.{EventBus, ok, err, invalid_argument, new_bus, make_bus}
use yellowstone.EventBus.Slots.{ids, replicate-IsSlots, replicate-snapshot}
use yellowstone.EventBus.Invariant.{IsBus}

module _ {ℓ} (Payload Handler : Type ℓ) where
  -- The two results of the constructor.
  abbrev pub Constructs : (k : ℕ) → ℕ → Option (Merger Payload) → (error_handler : Bool) → Type ℓ
  Constructs k capacity merger error_handler =
      ((capacity ≡ 0)
        × (make_bus {Handler = Handler} k capacity merger error_handler ≡ err invalid_argument))
      ⊎ ((b : EventBus Payload Handler) × (make_bus k capacity merger error_handler ≡ ok b)
          × IsBus k b
          × (b.running ≡ false)
          × (ids b.subscribers ≡ []))

  -- The constructor refuses a capacity of 0, and otherwise builds a stopped, well-formed bus with
  -- no subscriber.
  pub make_bus-IsBus :
      (k capacity : ℕ) (merger : Option (Merger Payload)) (error_handler : Bool)
      → Constructs k capacity merger error_handler
  unfolding make_bus
  make_bus-IsBus k zero merger error_handler = inl (refl, refl)
  make_bus-IsBus k (suc capacity) merger error_handler =
      let nobody = replicate-snapshot Payload Handler k in
      let nonzero : (suc capacity == 0) ≡ false = ground arith in
      inr (
        new_bus k (suc capacity) merger error_handler,
        rw nonzero,
        record {
          slots = replicate-IsSlots Payload Handler (suc capacity) _ 0 k;
          sized = length-replicate k none;
          counted = sym (ap length nobody);
          positive = omega arith;
          manned = refl;
          managed = refl;
        },
        refl,
        rw nobody,
      )
