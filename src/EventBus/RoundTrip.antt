-- ===== src/EventBus/RoundTrip.antt =====
-- `unsubscribe` takes back what `subscribe` did.
use yellowstone.Prelude.{
  ℕ, zero, suc, ◌+◌, ◌-◌, ◌<◌, ◌≡◌, ◌∙◌, refl, sym, ap, ap₂, false, none, some, List, [], ◌∷◌,
  arith, length, get_elem?, set, get_elem?-set_self, leb,
}
use yellowstone.EventBus.{EventBus, Subscriber, Subscribers, ok, subscriber, subscribe, unsubscribe}
use yellowstone.EventBus.Invariant.{IsBus}
use yellowstone.EventBus.Subscription.{filled, subscribe-Subscribes}
use yellowstone.EventBus.Calls.{cleared, unsubscribe_found}

module _ {ℓ} {A : Type ℓ} where
  get_elem?-bound : (xs : List A) (i : ℕ) (v : A) → get_elem? xs i ≡ some v → i < length xs
  get_elem?-bound [] i v e = absurd cc
  get_elem?-bound (x ∷ xs) zero v e = omega arith
  get_elem?-bound (x ∷ xs) (suc i) v e = omega (arith, get_elem?-bound xs i v e)

  set_back : (xs : List A) (i : ℕ) (v w : A) → get_elem? xs i ≡ some w → set (set xs i v) i w ≡ xs
  set_back [] i v w e = refl
  set_back (x ∷ xs) zero v w e = let same : x ≡ w = cc in ap (λ y. y ∷ xs) (sym same)
  set_back (x ∷ xs) (suc i) v w e = ap (λ ys. x ∷ ys) (set_back xs i v w e)

module _ {ℓ} {Payload Handler : Type ℓ} (k : ℕ) where
  with_subscribers :
      EventBus Payload Handler → Subscribers Payload Handler → ℕ → EventBus Payload Handler
  with_subscribers b ss n = record b { subscribers = ss; subscriber_count = n }

  cleared-filled :
      (id : ℕ) (s : Subscriber Payload Handler) (b : EventBus Payload Handler)
      → get_elem? b.subscribers id ≡ some none
      → cleared k id (filled k id s b) ≡ b
  unfolding with_subscribers
  cleared-filled id s b empty =
      ap₂ (with_subscribers b) (set_back b.subscribers id (some s) none empty)
        (counted_back b.subscriber_count)
    where
      counted_back : (n : ℕ) → n + 1 - 1 ≡ n
      counted_back n = omega arith

  filled-subscriber :
      (id : ℕ) (s : Subscriber Payload Handler) (b : EventBus Payload Handler)
      → IsBus k b
      → get_elem? b.subscribers id ≡ some none
      → subscriber k id (filled k id s b) ≡ some s
  unfolding subscriber
  filled-subscriber id s b v empty =
      let bound = get_elem?-bound b.subscribers id none empty in
      let inside : leb k id ≡ false = ground (arith, v.sized) in
      rw (inside, get_elem?-set_self b.subscribers id (some s) bound) refl

  -- On a stopped, well-formed bus with a free place, `subscribe` returns an id, and `unsubscribe`
  -- with that id makes the bus the same as before.
  pub unsubscribe-subscribe :
      (handler : Handler) (b : EventBus Payload Handler)
      → IsBus k b
      → b.running ≡ false
      → b.subscriber_count < k
      → (id : ℕ) × ((subscribe k (some handler) b).1 ≡ ok id)
        × (unsubscribe k id (subscribe k (some handler) b).0 ≡ (b, ok tt))
  unsubscribe-subscribe handler b v stopped room =
      let (id, s, e, _, empty, _, _) = subscribe-Subscribes k handler b v stopped room in
      (
        id,
        ap (λ r. r.1) e,
        ap (λ r. unsubscribe k id r.0) e
            ∙ unsubscribe_found k id (filled k id s b) s stopped (filled-subscriber id s b v empty)
            ∙ ap (λ (c : EventBus Payload Handler). (c, ok tt)) (cleared-filled id s b empty),
      )
