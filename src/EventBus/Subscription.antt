-- ===== src/EventBus/Subscription.antt =====
-- `subscribe` on a stopped bus.
use yellowstone.Prelude.{
  ℕ, ◌+◌, ◌<◌, ◌≡◌, ◌∙◌, refl, sym, ap, subst, false, none, some, [], arith, get_elem?, set,
  length-set, inl, inr, Option-cases, if◌then◌else◌, leb,
}
use native.Mathlib.Nat.{zero-add}
use yellowstone.Partition.{Partition, make_partition}
use yellowstone.Partition.Cells.{cells}
use yellowstone.Partition.Invariant.{make_partition-Makes}
use yellowstone.EventBus.{
  EventBus, Subscriber, ok, free_slot, make_subscriber, fill_slot, subscribe,
}
use yellowstone.EventBus.Slots.{
  ids, IsEntry, set-IsSlots, fill-occupied, free_slot-empty, free_slot_full,
}
use yellowstone.EventBus.Invariant.{IsBus}

module _ {ℓ} {Payload Handler : Type ℓ} (k : ℕ) where
  abbrev pub filled :
      ℕ → Subscriber Payload Handler → EventBus Payload Handler → EventBus Payload Handler
  filled id s b = record b {
    subscribers = set b.subscribers id (some s);
    subscriber_count = b.subscriber_count + 1;
  }

  -- What a successful `subscribe` does: an empty place takes the new subscriber, whose queue is
  -- empty, and its id is returned.
  abbrev pub Subscribes : Handler → EventBus Payload Handler → Type ℓ
  Subscribes handler b =
      (id : ℕ) × (s : Subscriber Payload Handler) × (subscribe k (some handler) b
        ≡ (filled id s b, ok id))
      × IsBus k (filled id s b)
      × (get_elem? b.subscribers id ≡ some none)
      × (s.handler ≡ handler)
      × (cells s.partition.levels ≡ [])

  filled-IsBus :
      (id : ℕ) (s : Subscriber Payload Handler) (b : EventBus Payload Handler)
      → IsBus k b
      → b.running ≡ false
      → get_elem? b.subscribers id ≡ some none
      → IsEntry b.partition_capacity b.merger id s
      → IsBus k (filled id s b)
  filled-IsBus id s b v stopped empty entry = record {
    slots =
        set-IsSlots b.partition_capacity b.merger 0 id b.subscribers s v.slots
          (subst (λ n. IsEntry b.partition_capacity b.merger n s) (sym (zero-add id)) entry);
    sized = length-set b.subscribers id (some s) ∙ v.sized;
    counted = omega (arith, v.counted, fill-occupied b.subscribers id s empty);
    positive = v.positive;
    manned =
        v.manned
        ∙ ap (λ r. if r then ids b.subscribers else []) stopped
        ∙ ap (λ r. if r then ids (set b.subscribers id (some s)) else []) (sym stopped);
    managed = v.managed;
  }

  subscribes :
      (id : ℕ) (p : Partition Payload) (handler : Handler) (b : EventBus Payload Handler)
      → b.running ≡ false
      → leb k b.subscriber_count ≡ false
      → free_slot 0 b.subscribers ≡ some id
      → make_partition b.partition_capacity (some b.merger) ≡ some p
      → subscribe k (some handler) b
        ≡ (filled id (record { id = id; handler = handler; partition = p }) b, ok id)
  unfolding subscribe fill_slot make_subscriber
  subscribes id p handler b stopped below at made = ground arith

  -- On a stopped bus with a free place `subscribe` succeeds.
  pub subscribe-Subscribes :
      (handler : Handler) (b : EventBus Payload Handler)
      → IsBus k b
      → b.running ≡ false
      → b.subscriber_count < k
      → Subscribes handler b
  unfolding subscribe fill_slot make_subscriber
  subscribe-Subscribes handler b v stopped room = elim (Option-cases (free_slot 0 b.subscribers)) [
    | inl nowhere ↦
        absurd (omega (arith, free_slot_full 0 b.subscribers nowhere, v.counted, v.sized, room))
    | inr (id, at) ↦ elim (make_partition-Makes b.partition_capacity (some b.merger)) [
      | inl (_, inl no_capacity) ↦ absurd (omega (arith, v.positive))
      | inl (_, inr no_merger) ↦ absurd cc
      | inr (p, made, w, cap_same, mer, fresh) ↦
          let (i, here, empty) = free_slot-empty 0 id b.subscribers at in
          let place : get_elem? b.subscribers id ≡ some none =
            subst (λ n. get_elem? b.subscribers n ≡ some none) (sym (zero-add i) ∙ sym here)
              empty in
          let s : Subscriber Payload Handler = record {
            id = id;
            handler = handler;
            partition = p;
          } in
          let below : leb k b.subscriber_count ≡ false = ground arith in
          (
            id,
            s,
            subscribes id p handler b stopped below at made,
            filled-IsBus id s b v stopped place
                (record { placed = refl; queue = w; capacity_same = cap_same; merger_same = cc }),
            place,
            refl,
            fresh,
          )
    ]
  ]
