-- ===== src/EventBus/Calls.antt =====
-- The methods of a bus, other than those that publish, keep it well formed.
use yellowstone.Prelude.{
  ℕ, ◌-◌, ◌≡◌, ◌∙◌, ◌⊎◌, refl, sym, ap, subst, Bool, true, false, Option, none, some, List, [],
  arith, set, length-set, inl, inr, Bool-cases, Option-cases, if◌then◌else◌,
}
use yellowstone.EventBus.{
  EventBus, Subscriber, Exception, ok, err, logic_error, out_of_range, subscriber, unsubscribe,
}
use yellowstone.EventBus.Lifecycle.{start, stop}
use yellowstone.EventBus.Slots.{ids, clear-IsSlots, clear-occupied}
use yellowstone.EventBus.Invariant.{IsBus, subscriber_found}

module _ {ℓ} {Payload Handler : Type ℓ} (k : ℕ) where
  abbrev pub cleared : ℕ → EventBus Payload Handler → EventBus Payload Handler
  cleared id b = record b {
    subscribers = set b.subscribers id none;
    subscriber_count = b.subscriber_count - 1;
  }

  cleared-IsBus :
      (id : ℕ) (b : EventBus Payload Handler) (s : Subscriber Payload Handler)
      → IsBus k b
      → b.running ≡ false
      → subscriber k id b ≡ some s
      → IsBus k (cleared id b)
  cleared-IsBus id b s v stopped e = record {
    slots = clear-IsSlots b.partition_capacity b.merger 0 id b.subscribers v.slots;
    sized = length-set b.subscribers id none ∙ v.sized;
    counted =
        omega (arith, v.counted, clear-occupied b.subscribers id s (subscriber_found k id b s e));
    positive = v.positive;
    manned =
        v.manned
        ∙ ap (λ r. if r then ids b.subscribers else []) stopped
        ∙ ap (λ r. if r then ids (set b.subscribers id none) else []) (sym stopped);
    managed = v.managed;
  }

  unsubscribe_running :
      (id : ℕ) (b : EventBus Payload Handler)
      → b.running ≡ true
      → unsubscribe k id b ≡ (b, err logic_error)
  unfolding unsubscribe
  unsubscribe_running id b running = ground arith

  unsubscribe_missing :
      (id : ℕ) (b : EventBus Payload Handler)
      → b.running ≡ false
      → subscriber k id b ≡ none
      → unsubscribe k id b ≡ (b, err out_of_range)
  unfolding unsubscribe
  unsubscribe_missing id b stopped missing = ground arith

  pub unsubscribe_found :
      (id : ℕ) (b : EventBus Payload Handler) (s : Subscriber Payload Handler)
      → b.running ≡ false
      → subscriber k id b ≡ some s
      → unsubscribe k id b ≡ (cleared id b, ok tt)
  unfolding unsubscribe
  unsubscribe_found id b s stopped found = ground arith

  -- `unsubscribe` keeps the bus well formed, whatever it returns.
  pub unsubscribe-IsBus :
      (id : ℕ) (b : EventBus Payload Handler) → IsBus k b → IsBus k (unsubscribe k id b).0
  unsubscribe-IsBus id b v = elim (Bool-cases b.running) [
    | inl running ↦ subst (λ r. IsBus k r.0) (sym (unsubscribe_running id b running)) v
    | inr stopped ↦ elim (Option-cases (subscriber k id b)) [
      | inl missing ↦ subst (λ r. IsBus k r.0) (sym (unsubscribe_missing id b stopped missing)) v
      | inr (s, found) ↦
          subst (λ r. IsBus k r.0) (sym (unsubscribe_found id b s stopped found))
            (cleared-IsBus id b s v stopped found)
    ]
  ]

  -- The three results of `start`.
  abbrev pub Starts : (List ℕ → Option Exception) → EventBus Payload Handler → Type ℓ
  Starts launch b =
      ((b.running ≡ true) × (start launch b ≡ (b, ok tt)))
      ⊎ ((b.running ≡ false)
          × (((launch (ids b.subscribers) ≡ none)
                × ((start launch b).1 ≡ ok tt)
                × ((start launch b).0.running ≡ true)
                × ((start launch b).0.workers ≡ ids b.subscribers))
              ⊎ ((e : Exception) × (launch (ids b.subscribers) ≡ some e)
                  × (start launch b ≡ (b, err e)))))

  started-IsBus :
      (b : EventBus Payload Handler)
      → IsBus k b
      → IsBus k (record b { running = true; managed = true; workers = ids b.subscribers })
  started-IsBus b v = record {
    slots = v.slots;
    sized = v.sized;
    counted = v.counted;
    positive = v.positive;
    manned = refl;
    managed = refl;
  }

  start_running :
      (launch : List ℕ → Option Exception) (b : EventBus Payload Handler)
      → b.running ≡ true
      → start launch b ≡ (b, ok tt)
  unfolding start
  start_running launch b running = ground arith

  start_launched :
      (launch : List ℕ → Option Exception) (b : EventBus Payload Handler)
      → b.running ≡ false
      → launch (ids b.subscribers) ≡ none
      → start launch b
        ≡ (record b { running = true; managed = true; workers = ids b.subscribers }, ok tt)
  unfolding start
  start_launched launch b stopped launched = ground arith

  start_thrown :
      (launch : List ℕ → Option Exception) (b : EventBus Payload Handler) (e : Exception)
      → b.running ≡ false
      → launch (ids b.subscribers) ≡ some e
      → start launch b ≡ (record b { running = false }, err e)
  unfolding start
  start_thrown launch b e stopped thrown = ground arith

  stopped_same :
      (b : EventBus Payload Handler) → b.running ≡ false → record b { running = false } ≡ b
  stopped_same b stopped = ap (with_running b) (sym stopped)
    where
      with_running : EventBus Payload Handler → Bool → EventBus Payload Handler
      with_running c r = record c { running = r }

  -- `start` keeps the bus well formed. A running bus is left as it is; when the workers cannot be
  -- launched the exception is passed on and the bus is as before; otherwise it runs, with a worker
  -- for each subscriber.
  pub start-Starts :
      (launch : List ℕ → Option Exception) (b : EventBus Payload Handler)
      → IsBus k b
      → IsBus k (start launch b).0 × Starts launch b
  start-Starts launch b v = elim (Bool-cases b.running) [
    | inl running ↦
        let e = start_running launch b running in
        (subst (λ r. IsBus k r.0) (sym e) v, inl (running, e))
    | inr stopped ↦ elim (Option-cases (launch (ids b.subscribers))) [
      | inl launched ↦
          let e = start_launched launch b stopped launched in
          (
            subst (λ r. IsBus k r.0) (sym e) (started-IsBus b v),
            inr (
              stopped,
              inl (launched, ap (λ r. r.1) e, ap (λ r. r.0.running) e, ap (λ r. r.0.workers) e),
            ),
          )
      | inr (x, thrown) ↦
          let e : start launch b ≡ (b, err x) =
            start_thrown launch b x stopped thrown
            ∙ ap (λ (c : EventBus Payload Handler). (c, err x)) (stopped_same b stopped) in
          (subst (λ r. IsBus k r.0) (sym e) v, inr (stopped, inr (x, thrown, e)))
    ]
  ]

  stop_running :
      (b : EventBus Payload Handler)
      → b.running ≡ true
      → stop b ≡ record b { running = false; managed = false; workers = [] }
  unfolding stop
  stop_running b running = ground arith

  stop_stopped : (b : EventBus Payload Handler) → b.running ≡ false → stop b ≡ b
  unfolding stop
  stop_stopped b stopped = ground arith

  -- `stop` keeps the bus well formed; afterwards it does not run and has no worker, and its
  -- subscribers and their queued events are the same.
  pub stop-IsBus :
      (b : EventBus Payload Handler)
      → IsBus k b
      → IsBus k (stop b)
        × ((stop b).running ≡ false)
        × ((stop b).workers ≡ [])
        × ((stop b).subscribers ≡ b.subscribers)
  stop-IsBus b v = elim (Bool-cases b.running) [
    | inl running ↦
        let e = stop_running b running in
        (
          subst (IsBus k) (sym e) (record {
            slots = v.slots;
            sized = v.sized;
            counted = v.counted;
            positive = v.positive;
            manned = refl;
            managed = refl;
          }),
          ap (λ c. c.running) e,
          ap (λ c. c.workers) e,
          ap (λ c. c.subscribers) e,
        )
    | inr stopped ↦
        let e = stop_stopped b stopped in
        (
          subst (IsBus k) (sym e) v,
          ap (λ c. c.running) e ∙ stopped,
          ap (λ c. c.workers) e ∙ v.manned ∙ ap (λ r. if r then ids b.subscribers else []) stopped,
          ap (λ c. c.subscribers) e,
        )
  ]
