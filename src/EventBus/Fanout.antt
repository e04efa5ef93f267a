-- ===== src/EventBus/Fanout.antt =====
-- The second loop of `publish`, behind a first one that found room everywhere.
use yellowstone.Prelude.{
  ℕ, suc, ◌+◌, ◌≡◌, ◌≢◌, ◌∙◌, ◌⊎◌, refl, sym, ap, ap₂, subst, true, none, some, List, [], ◌∷◌, map,
  arith, length, inl, inr,
}
use yellowstone.Event.{Event}
use yellowstone.Partition.{Merger, inserted, coalesced, full, can_accept, push}
use yellowstone.Partition.Invariant.{IsPartition}
use yellowstone.EventBus.{Subscriber, Subscribers, Exception, Result, ok, err, snapshot}
use yellowstone.EventBus.Slots.{ids, IsSlots, occupied}
use yellowstone.EventBus.Publish.{PublishResult, pop_many, all_accept, push_all}
use yellowstone.EventBus.Delivery.{
  status-cases, outcome_of, pushed, Delivered, AllTake, view_of, pushed-contents, pushed-outcome,
  pushed-IsEntry, pushed_not_full, Breaks,
}

module _ {ℓ} {Payload Handler : Type ℓ} (consumed : ℕ → ℕ) (e : Event Payload) where
  with_head :
      Subscriber Payload Handler
      → Subscribers Payload Handler × Result PublishResult
      → Subscribers Payload Handler × Result PublishResult
  with_head s (ss, out) = (some s ∷ ss, out)

  -- The second loop at a queue that is not full: it goes on and counts the delivery, or the merger
  -- throws and it ends.
  abbrev Goes : Subscriber Payload Handler → Subscribers Payload Handler → PublishResult → Type ℓ
  Goes s ss r =
      ((r' : PublishResult) × (push_all consumed e (some s ∷ ss) r
          ≡ with_head (pushed consumed e s) (push_all consumed e ss r'))
        × (r'.delivered ≡ r.delivered + 1)
        × ((outcome_of consumed e s ≡ ok inserted) ⊎ (outcome_of consumed e s ≡ ok coalesced)))
      ⊎ ((exception : Exception) × (push_all consumed e (some s ∷ ss) r
            ≡ (some (pushed consumed e s) ∷ ss, err exception))
          × (outcome_of consumed e s ≡ err exception))

  push_all-step :
      (s : Subscriber Payload Handler) (ss : Subscribers Payload Handler) (r : PublishResult)
      → IsPartition s.partition
      → (push e (pop_many (consumed s.id) s.partition)).1 ≢ ok full
      → Goes s ss r
  unfolding push_all with_head
  push_all-step s ss r v room =
      let same = pushed-outcome consumed e s v in
      elim (status-cases (push e (pop_many (consumed s.id) s.partition)).1) [
        | inl x ↦ inl (
          record r { delivered = r.delivered + 1 },
          rw (x, push_all) refl,
          refl,
          inl (sym same ∙ x),
        )
        | inr (inl x) ↦ inl (
          record { delivered = r.delivered + 1; coalesced = r.coalesced + 1 },
          rw (x, push_all) refl,
          refl,
          inr (sym same ∙ x),
        )
        | inr (inr (inl x)) ↦ absurd (room x)
        | inr (inr (inr (exception, x))) ↦ inr (exception, rw (x, push_all) refl, sym same ∙ x)
      ]

  -- What the second loop comes to, from a count of `r.delivered`.
  abbrev pub Comes :
      Subscribers Payload Handler
      → PublishResult
      → Subscribers Payload Handler × Result PublishResult
      → Type ℓ
  Comes ss r after =
      (Delivered consumed e ss after.0
        × AllTake consumed e ss
        × (result : PublishResult) × (after.1 ≡ ok result)
        × (result.delivered ≡ r.delivered + occupied ss))
      ⊎ ((exception : Exception) × (after.1 ≡ err exception)
          × Breaks consumed e exception ss after.0)

  pub record PushesAll (capacity : ℕ) (merger : Merger Payload) (id : ℕ)
      (ss : Subscribers Payload Handler) (r : PublishResult)
      (after : Subscribers Payload Handler × Result PublishResult) : Type ℓ where
    pub slots : IsSlots capacity merger id (after.0)
    pub same_ids : ids (after.0) ≡ ids ss
    pub same_length : length (after.0) ≡ length ss
    pub comes : Comes ss r after

  Breaks-none :
      (exception : Exception) (ss ss' : Subscribers Payload Handler)
      → Breaks consumed e exception ss ss'
      → Breaks consumed e exception (none ∷ ss) (none ∷ ss')
  Breaks-none exception ss ss' b = record {
    before = none ∷ b.before;
    broken = b.broken;
    behind = b.behind;
    split = ap (λ xs. none ∷ xs) b.split;
    taken = b.taken;
    thrown = b.thrown;
    left = ap (λ xs. none ∷ xs) b.left;
  }

  Comes-none :
      (ss : Subscribers Payload Handler) (r : PublishResult)
      (after : Subscribers Payload Handler × Result PublishResult)
      → Comes ss r after
      → Comes (none ∷ ss) r (none ∷ after.0, after.1)
  unfolding snapshot
  Comes-none ss r after (inl (there, take, result, back, total)) =
      inl (ap (λ xs. none ∷ xs) there, take, result, back, total)
  Comes-none ss r after (inr (exception, back, b)) =
      inr (exception, back, Breaks-none exception ss after.0 b)

  Comes-some :
      (s : Subscriber Payload Handler) (ss : Subscribers Payload Handler) (r r' : PublishResult)
      (after : Subscribers Payload Handler × Result PublishResult)
      → IsPartition s.partition
      → r'.delivered ≡ r.delivered + 1
      → ((outcome_of consumed e s ≡ ok inserted) ⊎ (outcome_of consumed e s ≡ ok coalesced))
      → Comes ss r' after
      → Comes (some s ∷ ss) r (with_head (pushed consumed e s) after)
  unfolding snapshot with_head
  Comes-some s ss r r' after v more took (inl (there, take, result, back, total)) = inl (
    ap₂ (λ (es : List (Event Payload)) xs. some (s.id, s.handler, es) ∷ xs)
        (pushed-contents consumed e s v) there,
    (took, take),
    result,
    back,
    omega (arith, total, more),
  )
  Comes-some s ss r r' after v more took (inr (exception, back, b)) = inr (
    exception,
    back,
    record {
      before = some s ∷ b.before;
      broken = b.broken;
      behind = b.behind;
      split = ap (λ xs. some s ∷ xs) b.split;
      taken = (took, b.taken);
      thrown = b.thrown;
      left =
          ap₂ (λ (es : List (Event Payload)) xs. some (s.id, s.handler, es) ∷ xs)
            (pushed-contents consumed e s v) b.left;
    },
  )

  Comes-broken :
      (s : Subscriber Payload Handler) (ss : Subscribers Payload Handler) (r : PublishResult)
      (exception : Exception)
      → IsPartition s.partition
      → outcome_of consumed e s ≡ err exception
      → Comes (some s ∷ ss) r (some (pushed consumed e s) ∷ ss, err exception)
  Comes-broken s ss r exception v thrown = inr (
    exception,
    refl,
    record {
      before = [];
      broken = s;
      behind = ss;
      split = refl;
      taken = tt;
      thrown = thrown;
      left =
          ap
            (λ (es : List (Event Payload)).
              some (s.id, s.handler, es) ∷ map (view_of consumed e) ss)
            (pushed-contents consumed e s v);
    },
  )

  pub push_all-PushesAll :
      (capacity : ℕ) (merger : Merger Payload) (id : ℕ) (ss : Subscribers Payload Handler)
      (r : PublishResult)
      → IsSlots capacity merger id ss
      → all_accept e ss ≡ true
      → PushesAll capacity merger id ss r (push_all consumed e ss r)
  unfolding push_all all_accept with_head snapshot
  push_all-PushesAll capacity merger id [] r v h = record {
    slots = tt;
    same_ids = refl;
    same_length = refl;
    comes = inl (refl, tt, r, refl, omega arith);
  }
  push_all-PushesAll capacity merger id (none ∷ ss) r v h =
      let rest = push_all-PushesAll capacity merger (id + 1) ss r v h in
      record {
        slots = rest.slots;
        same_ids = rest.same_ids;
        same_length = ap suc rest.same_length;
        comes = Comes-none ss r (push_all consumed e ss r) rest.comes;
      }
  push_all-PushesAll capacity merger id (some s ∷ ss) r v h =
      let here : can_accept e s.partition ≡ true = ground arith in
      let later : all_accept e ss ≡ true = ground arith in
      let entry = pushed-IsEntry consumed e capacity merger id s v.0 in
      elim (push_all-step s ss r v.0.queue (pushed_not_full consumed e s v.0.queue here)) [
        | inl (r', step, more, took) ↦
            let rest = push_all-PushesAll capacity merger (id + 1) ss r' v.1 later in
            subst (PushesAll capacity merger id (some s ∷ ss) r) (sym step) (record {
              slots = (entry, rest.slots);
              same_ids = ap (λ (xs : List ℕ). s.id ∷ xs) rest.same_ids;
              same_length = ap suc rest.same_length;
              comes =
                  Comes-some s ss r r' (push_all consumed e ss r') v.0.queue more took rest.comes;
            })
        | inr (exception, step, thrown) ↦
            subst (PushesAll capacity merger id (some s ∷ ss) r) (sym step) (record {
              slots = (entry, v.1);
              same_ids = refl;
              same_length = refl;
              comes = Comes-broken s ss r exception v.0.queue thrown;
            })
      ]
